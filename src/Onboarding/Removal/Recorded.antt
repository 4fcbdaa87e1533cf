-- ===== src/Onboarding/Removal/Recorded.antt =====
-- The ownership record through a removal: what is removed is recorded as removed, and nothing else is
-- changed.
use skillwire.Ownership.Integrity.{sign-eq-ok}
use skillwire.Ownership.Plans.{verify-eq-ok}
use skillwire.Onboarding.Triple.{Holds, reading-Holds, bind-Holds, assign-Holds, lift-Holds}
use skillwire.Ownership.Record.{OwnershipRecord, OwnedAsset, AssetDisposition}
use skillwire.Ownership.Ledger.{
  Formats, record_asset_disposition, update_record, map_asset, verify_ownership_record, has_asset,
}
use skillwire.Base.{
  ◌+◌, ◌||◌, ◌≡◌, refl, ap, sym, ◌∙◌, List, [], ◌∷◌, ◌++◌, map, ok, String, includes, ◌===◌,
  ===_iff, length, arith, >>=-eq-ok, throw_if, not, if◌then◌else◌, length-append, subst,
}
use skillwire.Onboarding.Op.{◌>>=◌, Setting, lift, assign}
use skillwire.Onboarding.Removal.{Removal, Answers, Event, recorded_removed, recorded}

-- The assets, those with one of the ids of this disposition.
abbrev pub marked_in : AssetDisposition → List String → List OwnedAsset → List OwnedAsset
marked_in d ids =
    map (λ (a : OwnedAsset). if includes ids a.asset_id then record a { disposition = d } else a)

-- The assets, those with one of the ids as removed.
abbrev pub removed_in : List String → List OwnedAsset → List OwnedAsset
removed_in ids = marked_in AssetDisposition.removed ids

includes-append :
    (ids : List String) (id x : String) → includes (ids ++ id ∷ []) x ≡ (includes ids x || id === x)
includes-append [] id x = ground arith
includes-append (y ∷ ids) id x = ground (arith, includes-append ids id x)

===_comm : (s t : String) → s === t ≡ t === s
===_comm s t = ground (arith, ===_iff s t, ===_iff t s)

pub map_asset-marked_in :
    (d : AssetDisposition) (ids : List String) (id : String) (assets : List OwnedAsset)
    → map_asset id (λ a. record a { disposition = d }) (marked_in d ids assets)
      ≡ marked_in d (ids ++ id ∷ []) assets
map_asset-marked_in d ids id [] = refl
map_asset-marked_in d ids id (a ∷ assets) = ground (
  arith,
  includes-append ids id a.asset_id,
  ===_comm a.asset_id id,
  map_asset-marked_in d ids id assets,
)

pub disposition_recorded :
    (f : Formats) (r k : OwnershipRecord) (id : String) (d : AssetDisposition)
    → record_asset_disposition f r id d ≡ ok k
    → (k.assets ≡ map_asset id (λ a. record a { disposition = d }) r.assets)
      × (k.record_revision ≡ r.record_revision + 1)
unfolding record_asset_disposition update_record
disposition_recorded f r k id d h =
    let (r', e1, e2) = >>=-eq-ok (verify_ownership_record f r) _ h in
    let (same, _) = verify-eq-ok f r r' e1 in
    let (_, _, e3) = >>=-eq-ok (throw_if (not (has_asset id r'.assets)) _) _ e2 in
    let (u, v) = sign-eq-ok f _ k e3 in
    (
      ap (λ x. x.assets) u
          ∙ ap (λ x. map_asset id (λ a. record a { disposition = d }) x.assets) same,
      ap (λ x. x.record_revision) u ∙ ap (λ x. x.record_revision + 1) same,
    )

-- The record after these removals, and nothing else.
abbrev pub IsKept : OwnershipRecord → List String → Removal → Type 0
IsKept own done s =
    (s.removed ≡ done)
    × (s.ownership.assets ≡ removed_in done own.assets)
    × (s.ownership.record_revision ≡ own.record_revision + length done)

module _ (f : Formats) (g : Setting) (does : Answers) where
  -- A record of a disposition changes the ownership only.
  pub recorded-Holds :
      {P R E : Removal → Type 0} (id : String) (d : AssetDisposition)
      → ((s : Removal)
          → P s
          → (o : OwnershipRecord) → record_asset_disposition f s.ownership id d ≡ ok o
          → R (record s { ownership = o }))
      → ((s : Removal) → P s → E s)
      → Holds P (recorded f g does id d) (λ _. R) (λ _. E)
  unfolding recorded
  recorded-Holds {P} {R} {E} id d h k =
      reading-Holds
        (λ s. lift (record_asset_disposition f s.ownership id d) >>= λ o.
          assign (λ s. record s { ownership = o }))
        (λ s p.
          bind-Holds (λ o t. (record_asset_disposition f s.ownership id d ≡ ok o) × (t ≡ s))
            (lift-Holds _ (λ t e v q. (q, e)) (λ t e x q. subst E (sym e) (k s p)))
            (λ o.
              assign-Holds _
                (λ t q. subst (λ x. R (record x { ownership = o })) (sym q.1) (h s p o q.0))))

module _ (f : Formats) (g : Setting) (does : Answers) (own : OwnershipRecord) where
  kept_next :
      (id : String) (done : List String) (s : Removal) (o : OwnershipRecord)
      → IsKept own done s
      → record_asset_disposition f s.ownership id AssetDisposition.removed ≡ ok o
      → (o.assets ≡ removed_in (done ++ id ∷ []) own.assets)
        × (o.record_revision ≡ own.record_revision + length (done ++ id ∷ []))
  kept_next id done s o p h =
      let (a, b) = disposition_recorded f s.ownership o id AssetDisposition.removed h in
      (
        a
            ∙ ap (map_asset id (λ x. record x { disposition = AssetDisposition.removed })) p.1
            ∙ map_asset-marked_in AssetDisposition.removed done id own.assets,
        omega (arith, b, p.2, length-append done (id ∷ [])),
      )

  -- The calls stay what they are.
  pub recorded_removed-Holds :
      (F : List Event → Type 0) (a : OwnedAsset) (done : List String)
      → Holds
          (λ s. IsKept own done s × F s.events)
          (recorded_removed f g does a)
          (λ _ s. IsKept own (done ++ a.asset_id ∷ []) s × F s.events)
          (λ _ s. F s.events)
  unfolding recorded_removed
  recorded_removed-Holds F a done =
      bind-Holds
        (λ _ s.
          (s.removed ≡ done)
          × ((s.ownership.assets ≡ removed_in (done ++ a.asset_id ∷ []) own.assets)
              × (s.ownership.record_revision
                  ≡ own.record_revision + length (done ++ a.asset_id ∷ [])))
          × F s.events)
        (recorded-Holds f g does a.asset_id AssetDisposition.removed
          (λ s p o h. (p.0.0, kept_next a.asset_id done s o p.0 h, p.1)) (λ s p. p.1))
        (λ _. assign-Holds _ (λ s p. ((ap (λ x. x ++ a.asset_id ∷ []) p.0, p.1.0, p.1.1), p.2)))
