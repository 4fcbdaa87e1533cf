-- ===== src/Onboarding/Removal/Retained.antt =====
-- What an uninstall retains and publishes, after the service is stopped.
use skillwire.Onboarding.Removal.Grouped.{removal_calls}
use skillwire.Journal.Entry.{number}
use skillwire.Onboarding.Triple.{Holds, pure-Holds, bind-Holds, reading-Holds, effect-Holds}
use skillwire.Ownership.Ledger.{Formats, map_asset}
use skillwire.Ownership.Record.{
  OwnershipRecord, asset_ids, OwnedAsset, AssetDisposition, is_present,
}
use skillwire.Onboarding.Removal.Uninstall.{
  all_retained, UninstallPreview, published, uninstalled, detailed_effect,
}
use skillwire.Base.{
  ◌≡◌, List, [], ◌∷◌, String, subst, sym, ap, refl, if◌then◌else◌, ◌++◌, append-nil, ◌∙◌,
  Bool-cases, inl, append_assoc, inr,
}
use skillwire.Onboarding.Op.{◌>>◌, Setting}
use skillwire.Onboarding.Removal.{Removal, Answers, Event, asking, recorded, with_event}
use skillwire.Onboarding.Removal.Proven.{IsProven, asking-Holds}
use skillwire.Onboarding.Removal.Recorded.{
  recorded-Holds, marked_in, disposition_recorded, map_asset-marked_in,
}

-- The latest call published this record, and the one before it stopped the service.
abbrev pub IsStopped : List Event → Type 0
IsStopped (Event.stopping ∷ rest) = Unit {0}
IsStopped _ = ⊥

abbrev pub IsPublished : OwnershipRecord → List Event → Type 0
IsPublished o (Event.publishing p ∷ rest) = (p ≡ o) × IsStopped rest
IsPublished o _ = ⊥

-- The ids of the assets that are present.
abbrev pub present_ids : List OwnedAsset → List String
present_ids [] = []
present_ids (a ∷ rest) =
    if is_present a.disposition then a.asset_id ∷ present_ids rest else present_ids rest

-- The assets, those with one of the ids as retained.
abbrev pub retained_in : List String → List OwnedAsset → List OwnedAsset
retained_in ids = marked_in AssetDisposition.retained ids

pub retained_in-empty : (assets : List OwnedAsset) → assets ≡ retained_in [] assets
retained_in-empty [] = refl
retained_in-empty (a ∷ assets) = ap (λ x. a ∷ x) (retained_in-empty assets)

-- What has been settled before the service stops, with what a removal was called; and the assets.
abbrev pub HasRemoved :
    List String → List OwnedAsset → List OwnedAsset → (List Event → Type 0) → Removal → Type 0
HasRemoved ids calls assets P s =
    (s.removed ≡ ids)
    × (s.ownership.assets ≡ assets)
    × (removal_calls s.events ≡ calls)
    × P s.events
    × IsProven s.events

module _ (f : Formats) (g : Setting) (does : Answers) where
  module _ (ids : List String) (calls assets : List OwnedAsset) where
    one_retained-Holds :
        (a : OwnedAsset) (done : List String)
        → Holds
            (HasRemoved ids calls (retained_in done assets) IsStopped)
            (recorded f g does a.asset_id AssetDisposition.retained)
            (λ _. HasRemoved ids calls (retained_in (done ++ a.asset_id ∷ []) assets) IsStopped)
            (λ _ s. IsProven s.events)
    one_retained-Holds a done =
        recorded-Holds f g does a.asset_id AssetDisposition.retained
          (λ s p o h. (
            p.0,
            (disposition_recorded f s.ownership o a.asset_id AssetDisposition.retained h).0
                ∙ ap
                    (map_asset a.asset_id
                      (λ x. record x { disposition = AssetDisposition.retained }))
                    p.1
                ∙ map_asset-marked_in AssetDisposition.retained done a.asset_id assets,
            p.2,
            p.3,
            p.4,
          ))
          (λ s p. p.4)

    pub all_retained-Holds :
        (retain : List OwnedAsset) (done : List String)
        → Holds
            (HasRemoved ids calls (retained_in done assets) IsStopped)
            (all_retained f g does retain)
            (λ _. HasRemoved ids calls (retained_in (done ++ present_ids retain) assets) IsStopped)
            (λ _ s. IsProven s.events)
    unfolding all_retained
    all_retained-Holds [] done = pure-Holds tt (λ s p. rw (append-nil) p)
    all_retained-Holds (a ∷ rest) done = elim (Bool-cases (is_present a.disposition)) [
      | inl q ↦
          let later = all_retained-Holds rest (done ++ a.asset_id ∷ []) in
          rw q (
            bind-Holds
              (λ _. HasRemoved ids calls (retained_in (done ++ a.asset_id ∷ []) assets) IsStopped)
              (one_retained-Holds a done)
              (λ _.
                subst
                  (λ l.
                    Holds
                      (HasRemoved ids calls (retained_in (done ++ a.asset_id ∷ []) assets)
                        IsStopped)
                      (all_retained f g does rest)
                      (λ _. HasRemoved ids calls (retained_in l assets) IsStopped)
                      (λ _ s. IsProven s.events))
                  (append_assoc done (a.asset_id ∷ []) (present_ids rest)) later))
      | inr q ↦ rw q (
          bind-Holds (λ _. HasRemoved ids calls (retained_in done assets) IsStopped)
            (pure-Holds tt (λ s p. p)) (λ _. all_retained-Holds rest done))
    ]

    pub published-Holds :
        (preview : UninstallPreview)
        → Holds
            (HasRemoved ids calls assets IsStopped)
            (published f g does >> uninstalled f g does preview)
            (λ out s.
              (out.removed ≡ ids)
              × (out.retained ≡ asset_ids preview.retain)
              × (out.ownership.assets ≡ assets)
              × (removal_calls s.events ≡ calls)
              × IsPublished out.ownership s.events
              × IsProven s.events)
            (λ _ s. IsProven s.events)
    published-Holds preview =
        bind-Holds (λ _ s. HasRemoved ids calls assets (IsPublished s.ownership) s)
          (reading-Holds
            (λ s.
              detailed_effect f g does "uninstall-retained-state"
                (asking (λ _. Event.publishing s.ownership)
                  (λ n. does.publish_retained n s.ownership))
                (("ownershipRevision", number s.ownership.record_revision) ∷ []))
            (λ s p.
              effect-Holds g _ _ _ _ _ (λ t e. subst (λ x. IsProven x.events) (sym e) p.4)
                (λ _ t q. q.4)
                (asking-Holds (λ _. Event.publishing s.ownership)
                  (λ n. does.publish_retained n s.ownership)
                  (λ t e v n d.
                    subst
                      (λ x.
                        HasRemoved ids calls assets (IsPublished x.ownership)
                          (with_event (Event.publishing s.ownership) x))
                      (sym e) (p.0, p.1, p.2, (refl, p.3), p.4))
                  (λ t e v n d. subst (λ x. IsProven x.events) (sym e) p.4))))
          λ _. record { run = λ r p. (p.0, refl, p.1, p.2, p.3, p.4) }
