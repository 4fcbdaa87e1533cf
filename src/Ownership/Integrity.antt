-- ===== src/Ownership/Integrity.antt =====
-- What every operation on the ownership record leaves true.
use skillwire.Ownership.Plans.{verify-eq-ok}
use skillwire.Base.{
  List, ◌≡◌, String, ◌∷◌, ok, [], ◌+◌, ap, refl, ◌∙◌, Option, >>=-eq-ok, arith, ===_iff, throw_if,
  some, not, ◌===◌, subst, ◌&&◌, is_sha256, none,
}
use skillwire.Ownership.Record.{
  AssetDisposition, OwnedAsset, OwnershipRecord, Unsigned, asset_ids, record_hash, is_retained,
  is_removed,
}
use skillwire.Ownership.Ledger.{
  Formats, sign, updated, update_record, map_asset, verify_ownership_record,
  record_asset_disposition, reactivate_owned_asset, replace_owned_asset_identity, reactivate_found,
  has_asset, find_asset,
}

module _ (f : Formats) where
  pub sign-eq-ok :
      (u : Unsigned) (r : OwnershipRecord)
      → sign f u ≡ ok r
      → (r.unsigned ≡ u) × (verify_ownership_record f r ≡ ok r)
  unfolding sign verify_ownership_record
  sign-eq-ok u r h = ground (arith, ===_iff (record_hash f.platform u) (record_hash f.platform u))

  -- One operation on a record that returns.
  pub data Step (r k : OwnershipRecord) : Type 0 where
    disposed :
        (id : String) (d : AssetDisposition) → record_asset_disposition f r id d ≡ ok k → Step r k
    reactivated : (id current : String) → reactivate_owned_asset f r id current ≡ ok k → Step r k
    replaced :
        (id locator expected : String)
        → replace_owned_asset_identity f r id locator expected ≡ ok k
        → Step r k

  pub asset_ids-map_asset :
      (id : String) (g : OwnedAsset → OwnedAsset) (as' : List OwnedAsset)
      → ((a : OwnedAsset) → (g a).asset_id ≡ a.asset_id)
      → asset_ids (map_asset id g as') ≡ asset_ids as'
  asset_ids-map_asset id g [] h = refl
  asset_ids-map_asset id g (a ∷ as') h = ground (arith, h a, asset_ids-map_asset id g as' h)

  -- What an update may change: the assets, but not which there are.
  pub record IsUpdate (r k : OwnershipRecord) : Type 0 where
    pub verified : verify_ownership_record f k ≡ ok k
    pub next : k.record_revision ≡ r.record_revision + 1
    pub same_installation : k.installation_id ≡ r.installation_id
    pub same_assets : asset_ids k.assets ≡ asset_ids r.assets
    pub same_external : k.external_dependencies ≡ r.external_dependencies

  IsUpdate-IsUpdate :
      (r k : OwnershipRecord) (as' : List OwnedAsset)
      → asset_ids as' ≡ asset_ids r.assets
      → update_record f r as' r.external_dependencies ≡ ok k
      → IsUpdate r k
  unfolding update_record
  IsUpdate-IsUpdate r k as' same h =
      let (u, v) = sign-eq-ok (updated f r as' r.external_dependencies) k h in
      record {
        verified = v;
        next = ap (λ x. x.record_revision) u;
        same_installation = ap (λ x. x.installation_id) u;
        same_assets = ap (λ x. asset_ids x.assets) u ∙ same;
        same_external = ap (λ x. x.external_dependencies) u;
      }

  reactivate_found-IsUpdate :
      (r k : OwnershipRecord) (id current : String) (found : Option OwnedAsset)
      → reactivate_found f r id current found ≡ ok k
      → IsUpdate r k
  reactivate_found-IsUpdate r k id current none h = absurd (cc h)
  reactivate_found-IsUpdate r k id current (some a) h =
      let (_, _, e1) = >>=-eq-ok (throw_if (not (a.expected_identity_sha256 === current)) _) _ h in
      let (_, _, e2) =
        >>=-eq-ok (throw_if (not (is_retained a.disposition) && not (is_removed a.disposition)) _) _
          e1 in
      IsUpdate-IsUpdate r k _ (asset_ids-map_asset id _ r.assets (λ a. refl)) e2

  -- Every operation on a record that returns gives one that verifies, of the next revision, for the
  -- same installation, with the same assets by id and the same external dependencies.
  pub Step-IsUpdate : (r k : OwnershipRecord) → Step r k → IsUpdate r k
  unfolding record_asset_disposition reactivate_owned_asset replace_owned_asset_identity
  Step-IsUpdate r k (disposed id d h) =
      let (r', e1, e2) = >>=-eq-ok (verify_ownership_record f r) _ h in
      let (same, _) = verify-eq-ok f r r' e1 in
      let (_, _, e3) = >>=-eq-ok (throw_if (not (has_asset id r'.assets)) _) _ e2 in
      subst (λ x. IsUpdate x k) same
        (IsUpdate-IsUpdate r' k _ (asset_ids-map_asset id _ r'.assets (λ a. refl)) e3)
  Step-IsUpdate r k (reactivated id current h) =
      let (r', e1, e2) = >>=-eq-ok (verify_ownership_record f r) _ h in
      let (same, _) = verify-eq-ok f r r' e1 in
      subst (λ x. IsUpdate x k) same
        (reactivate_found-IsUpdate r' k id current (find_asset id r'.assets) e2)
  Step-IsUpdate r k (replaced id locator expected h) =
      let (r', e1, e2) = >>=-eq-ok (verify_ownership_record f r) _ h in
      let (same, _) = verify-eq-ok f r r' e1 in
      let (_, _, e3) = >>=-eq-ok (throw_if (not (is_sha256 expected)) _) _ e2 in
      let (_, _, e4) = >>=-eq-ok (throw_if (not (has_asset id r'.assets)) _) _ e3 in
      subst (λ x. IsUpdate x k) same
        (IsUpdate-IsUpdate r' k _ (asset_ids-map_asset id _ r'.assets (λ a. refl)) e4)
