-- ===== src/Ownership/Disjoint.antt =====
-- No integration is both external and owned.
use skillwire.Base.{
  Bool, String, ◌≡◌, List, ok, any, All, false, >>=-eq-ok, ◌∷◌, ◌++◌, throw_if, [], not, All-append,
  subst, arith, ◌||◌, includes, ap, throw_if-false,
}
use skillwire.Ownership.Record.{
  external_integration_schema, owned_asset_schema, OwnedAsset, ExternalIntegration,
}
use skillwire.Ownership.Ledger.{
  Formats, OwnershipLedger, updated, sign, update_record, verify_ownership_record,
  record_external_integration, record_owned_asset, create_ownership_ledger, claims_same,
  is_equivalent, same_external,
}
use skillwire.Ownership.Integrity.{sign-eq-ok}

any-false {ℓ} :
    {A : Type ℓ} (p : A → Bool) (xs : List A) → any p xs ≡ false → All (λ x. p x ≡ false) xs
any-false p [] h = tt
any-false p (x ∷ xs) h = (ground arith, any-false p xs (ground arith))

-- No external integration is for the client and kind of an owned asset.
abbrev pub AreDisjoint : List ExternalIntegration → List OwnedAsset → Type 0
AreDisjoint external assets = All (λ d. All (λ a. claims_same d a ≡ false) assets) external

AreDisjoint-concat :
    (external : List ExternalIntegration) (assets : List OwnedAsset) (a : OwnedAsset)
    → AreDisjoint external assets
    → All (λ d. claims_same d a ≡ false) external
    → AreDisjoint external (assets ++ a ∷ [])
AreDisjoint-concat [] assets a h k = tt
AreDisjoint-concat (d ∷ ds) assets a h k = (
  All-append (λ x. claims_same d x ≡ false) assets (a ∷ []) h.0 (k.0, tt),
  AreDisjoint-concat ds assets a h.1 k.1,
)

module _ (f : Formats) where
  -- The ledgers that the operations make, from a new one on.
  pub data Made : OwnershipLedger → Type 0 where
    created : (id : String) (l : OwnershipLedger) → create_ownership_ledger f id ≡ ok l → Made l
    external :
        {l : OwnershipLedger} (d : ExternalIntegration) (m : OwnershipLedger)
        → Made l
        → record_external_integration f l d ≡ ok m
        → Made m
    owned :
        {l : OwnershipLedger} (a : OwnedAsset) (m : OwnershipLedger)
        → Made l
        → record_owned_asset f l a ≡ ok m
        → Made m

  pub record IsConsistent (l : OwnershipLedger) : Type 0 where
    pub verified : verify_ownership_record f l.owned ≡ ok l.owned
    pub disjoint : AreDisjoint l.external_integrations l.owned.assets

  created-IsConsistent :
      (id : String) (l : OwnershipLedger) → create_ownership_ledger f id ≡ ok l → IsConsistent l
  unfolding create_ownership_ledger
  created-IsConsistent id l h =
      let (r, e1, e2) = >>=-eq-ok (sign f _) _ h in
      let (u, v) = sign-eq-ok f _ r e1 in
      let same : record { owned = r; external_integrations = [] } ≡ l = cc e2 in
      subst IsConsistent same (record { verified = v; disjoint = tt })

  external-IsConsistent :
      (l m : OwnershipLedger) (d : ExternalIntegration)
      → IsConsistent l
      → record_external_integration f l d ≡ ok m
      → IsConsistent m
  unfolding record_external_integration sign update_record
  external-IsConsistent l m d c h =
      let (_, _, e1) =
        >>=-eq-ok (throw_if (not (external_integration_schema f.is_uuid f.is_datetime d)) _) _ h in
      let (_, _, e2) = >>=-eq-ok (throw_if (not (is_equivalent d.verification)) _) _ e1 in
      let (_, _, e3) =
        >>=-eq-ok
          (throw_if
            (any (λ e. same_external e d) l.external_integrations
              || includes l.owned.external_dependencies d.external_dependency_id)
            _)
          _ e2 in
      let (_, free, e4) = >>=-eq-ok (throw_if (any (claims_same d) l.owned.assets) _) _ e3 in
      let (r, e5, e6) =
        >>=-eq-ok
          (update_record f l.owned l.owned.assets
            (l.owned.external_dependencies ++ d.external_dependency_id ∷ []))
          _ e4 in
      let (u, v) =
        sign-eq-ok f
          (updated f l.owned l.owned.assets
            (l.owned.external_dependencies ++ d.external_dependency_id ∷ []))
          r e5 in
      let same : record { owned = r; external_integrations = l.external_integrations ++ d ∷ [] }
          ≡ m =
        cc e6 in
      subst IsConsistent same (record {
        verified = v;
        disjoint = rw (ap (λ x. x.assets) u) (
            All-append (λ x. All (λ a. claims_same x a ≡ false) l.owned.assets)
              l.external_integrations (d ∷ []) c.disjoint
              (any-false (claims_same d) l.owned.assets (throw_if-false _ _ free), tt));
      })

  owned-IsConsistent :
      (l m : OwnershipLedger) (a : OwnedAsset)
      → IsConsistent l
      → record_owned_asset f l a ≡ ok m
      → IsConsistent m
  unfolding record_owned_asset sign update_record
  owned-IsConsistent l m a c h =
      let (_, _, e1) = >>=-eq-ok (throw_if (not (owned_asset_schema f.is_uuid a)) _) _ h in
      let (_, free, e2) =
        >>=-eq-ok (throw_if (any (λ d. claims_same d a) l.external_integrations) _) _ e1 in
      let (r, e3, e4) =
        >>=-eq-ok (update_record f l.owned (l.owned.assets ++ a ∷ []) l.owned.external_dependencies)
          _ e2 in
      let (u, v) =
        sign-eq-ok f (updated f l.owned (l.owned.assets ++ a ∷ []) l.owned.external_dependencies) r
          e3 in
      let same : record { owned = r; external_integrations = l.external_integrations } ≡ m =
        cc e4 in
      subst IsConsistent same (record {
        verified = v;
        disjoint = rw (ap (λ x. x.assets) u) (
            AreDisjoint-concat l.external_integrations l.owned.assets a c.disjoint
              (any-false (λ d. claims_same d a) l.external_integrations (throw_if-false _ _ free)));
      })

  -- Every ledger that the operations make from a new one has a record that verifies, and no external
  -- integration for the client and kind of an owned asset.
  pub Made-IsConsistent : {l : OwnershipLedger} → Made l → IsConsistent l
  Made-IsConsistent (created id l h) = created-IsConsistent id l h
  Made-IsConsistent (external {l = l} d m made h) =
      external-IsConsistent l m d (Made-IsConsistent made) h
  Made-IsConsistent (owned {l = l} a m made h) = owned-IsConsistent l m a (Made-IsConsistent made) h
