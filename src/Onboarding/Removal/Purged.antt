-- ===== src/Onboarding/Removal/Purged.antt =====
-- What a purge removes, and what it leaves recorded.
use skillwire.Ownership.Plans.{plan-chosen, chosen_ids}
use skillwire.Onboarding.Triple.{
  Holds, pure-Holds, bind-Holds, ensure-Holds, Post, returned, lift-Holds, unless-Holds,
  weaken-Holds,
}
use skillwire.Onboarding.Removal.Purge.{
  purged, run_purge, PurgePreview, purged_assets, goes_before, purge_order,
}
use skillwire.Onboarding.Removal.Recorded.{IsKept, removed_in, recorded_removed-Holds}
use skillwire.Ownership.Record.{OwnershipRecord, OwnedAsset, asset_ids}
use skillwire.Ownership.Ledger.{
  Formats, is_planned_removal, RemovalOperation, plan_owned_asset_dispositions, DispositionPlan,
}
use skillwire.Base.{
  ◌+◌, false, ◌≡◌, refl, ap, sym, ◌∙◌, List, [], ◌∷◌, ◌++◌, ok, err, String, Result, Option, none,
  includes, length, arith, append_assoc, append-nil, All, subst, length-map, any, ◌===◌, ◌||◌,
  sort_by, ok-injective, All-map, filter_by, any-sort_by,
}
use skillwire.Onboarding.Op.{Run, Setting}
use skillwire.Onboarding.Removal.{Removal, Answers}
use skillwire.Onboarding.Removal.Proven.{IsProven, checked-Holds, removal-Holds, proved-Holds, Seen}

removed_in-empty : (assets : List OwnedAsset) → assets ≡ removed_in [] assets
removed_in-empty [] = refl
removed_in-empty (a ∷ assets) = ap (λ x. a ∷ x) (removed_in-empty assets)

pub final-IsProven :
    {A : Type 0} (out : Result A × Run Removal)
    → Post (λ _ s. IsProven s.events) (λ _ s. IsProven s.events) out
    → IsProven out.1.local.events
final-IsProven (ok v, r) h = h
final-IsProven (err e, r) h = h

module _ (f : Formats) (g : Setting) (does : Answers) (own : OwnershipRecord) where
  abbrev Kept : List String → Removal → Type 0
  Kept done s = IsKept own done s × IsProven s.events

  purged-Holds :
      (assets : List OwnedAsset) (done : List String)
      → Holds
          (Kept done)
          (purged f g does assets)
          (λ _. Kept (done ++ asset_ids assets))
          (λ _ s. IsProven s.events)
  unfolding purged
  purged-Holds [] done = pure-Holds tt (λ s p. rw (append-nil) p)
  purged-Holds (a ∷ rest) done =
      bind-Holds (λ _. Kept done) (unless-Holds g _ (λ s p. p) (λ s p. p.1))
        λ _.
          bind-Holds (λ _ s. IsKept own done s × Seen a s.events × IsProven s.events)
            (checked-Holds f g does a (IsKept own done) (λ s x p. p))
            λ _.
              bind-Holds (λ _. Kept done)
                (removal-Holds f g does a _ _ _ (IsKept own done) (IsKept own done) (λ s p. p))
                λ _.
                  bind-Holds (λ _. Kept (done ++ a.asset_id ∷ []))
                    (recorded_removed-Holds f g does own IsProven a done)
                    λ _.
                      subst
                        (λ ids.
                          Holds (Kept (done ++ a.asset_id ∷ [])) (purged f g does rest)
                            (λ _. Kept ids) (λ _ s. IsProven s.events))
                        (append_assoc done (a.asset_id ∷ []) (asset_ids rest))
                        (purged-Holds rest (done ++ a.asset_id ∷ []))

  abbrev pub IsFresh : Removal → Type 0
  IsFresh s = s ≡ record { events = []; ownership = own; removed = [] }

  abbrev pub IsPurged : List OwnedAsset → List String × OwnershipRecord → Removal → Type 0
  IsPurged assets out s =
      (out.0 ≡ asset_ids assets)
      × (out.1.assets ≡ removed_in (asset_ids assets) own.assets)
      × (out.1.record_revision ≡ own.record_revision + length assets)
      × IsProven s.events

  pub fresh-IsProven : (s : Removal) → IsFresh s → IsProven s.events
  fresh-IsProven s p = subst (λ x. IsProven x.events) (sym p) tt

  pub fresh-IsKept : (s : Removal) → IsFresh s → IsKept own [] s
  fresh-IsKept s p = subst (IsKept own []) (sym p) (refl, removed_in-empty own.assets, omega arith)

  run_purge-Holds :
      (preview : PurgePreview) (given : Option String)
      → Holds IsFresh
          (run_purge f g does own preview given)
          (IsPurged preview.unrecoverable)
          (λ _ s. IsProven s.events)
  unfolding run_purge
  run_purge-Holds preview given =
      bind-Holds (λ _. IsFresh) (lift-Holds _ (λ s p v d. p) (λ s p e d. fresh-IsProven s p))
        λ _.
          bind-Holds (λ _. IsFresh) (lift-Holds _ (λ s p v d. p) (λ s p e d. fresh-IsProven s p))
            λ _.
              bind-Holds (λ _. Kept [])
                (weaken-Holds (Kept []) (λ s p. (fresh-IsKept s p, fresh-IsProven s p))
                  (proved-Holds f g does _ preview.unrecoverable (IsKept own []) (λ a s x p. p)))
                λ _.
                  bind-Holds (λ _. Kept (asset_ids preview.unrecoverable))
                    (purged-Holds preview.unrecoverable [])
                    λ _. record {
                      run = λ r p. (
                        p.0.0,
                        p.0.1,
                        p.0.2
                            ∙ ap (λ n. own.record_revision + n)
                                (length-map _ preview.unrecoverable),
                        p.1,
                      );
                    }

  -- A purge that returns has removed the previewed assets, in their order, and recorded them as removed
  -- and nothing else, in as many revisions; each removal was of an asset that was observed with its
  -- expected identity since the removal before, and is recorded as present or retained.
  pub run_purge-IsPurged :
      (preview : PurgePreview) (given : Option String) (r : Run Removal)
      → IsFresh r.local
      → (out : List String × OwnershipRecord) → (run_purge f g does own preview given r).0 ≡ ok out
      → IsPurged preview.unrecoverable out (run_purge f g does own preview given r).1.local
  run_purge-IsPurged preview given r p out h = returned (run_purge-Holds preview given) r p h

  -- Whether a purge returns or throws, each asset that it removed was observed with its expected
  -- identity since the removal before, and was previewed as present or retained.
  pub run_purge-IsProven :
      (preview : PurgePreview) (given : Option String) (r : Run Removal)
      → IsFresh r.local
      → IsProven (run_purge f g does own preview given r).1.local.events
  run_purge-IsProven preview given r p = final-IsProven (run_purge f g does own preview given r) (
      (ensure-Holds (IsPurged preview.unrecoverable) (λ _ s q. q.3)
          (run_purge-Holds preview given)).run
        r p)

-- No asset is left that a purge removes.
planned-removed :
    (ids : List String) (assets : List OwnedAsset)
    → All (λ a. includes ids a.asset_id ≡ is_planned_removal RemovalOperation.purge none a) assets
    → All (λ a. is_planned_removal RemovalOperation.purge none a ≡ false) (removed_in ids assets)
unfolding is_planned_removal
planned-removed ids [] h = tt
planned-removed ids (a ∷ assets) h = (ground arith, planned-removed ids assets h.1)

includes-ids :
    (assets : List OwnedAsset) (x : String)
    → includes (asset_ids assets) x ≡ any (λ (a : OwnedAsset). a.asset_id === x) assets
includes-ids [] x = refl
includes-ids (a ∷ assets) x = ap (λ b. a.asset_id === x || b) (includes-ids assets x)

purge_order-eq-ok :
    (planned : Result DispositionPlan) {assets : List OwnedAsset}
    → purge_order planned ≡ ok assets
    → (plan : DispositionPlan) × (planned ≡ ok plan) × (sort_by goes_before plan.remove ≡ assets)
purge_order-eq-ok (ok plan) h = (plan, refl, ok-injective h)
purge_order-eq-ok (err e) h = absurd (cc h)

-- What a purge is planned to remove, in its order, are the assets that a purge removes.
purged_assets-All :
    (f : Formats) (own : OwnershipRecord) (assets : List OwnedAsset)
    → purged_assets f own ≡ ok assets
    → All
        (λ a.
          includes (asset_ids assets) a.asset_id ≡ is_planned_removal RemovalOperation.purge none a)
        own.assets
unfolding purged_assets
purged_assets-All f own assets h =
    let (plan, q, e) =
      purge_order-eq-ok (plan_owned_asset_dispositions f own RemovalOperation.purge none) h in
    let (chosen, distinct) = plan-chosen f own RemovalOperation.purge none plan q in
    All-map
      (λ a.
        includes (asset_ids (filter_by (is_planned_removal RemovalOperation.purge none) own.assets))
          a.asset_id
        ≡ is_planned_removal RemovalOperation.purge none a)
      (λ a.
        includes (asset_ids assets) a.asset_id ≡ is_planned_removal RemovalOperation.purge none a)
      (λ a k.
        includes-ids assets a.asset_id
        ∙ ap (λ l. any (λ (b : OwnedAsset). b.asset_id === a.asset_id) l) (sym e)
        ∙ any-sort_by goes_before (λ b. b.asset_id === a.asset_id) plan.remove
        ∙ ap (λ l. any (λ (b : OwnedAsset). b.asset_id === a.asset_id) l) chosen
        ∙ sym (
            includes-ids (filter_by (is_planned_removal RemovalOperation.purge none) own.assets)
              a.asset_id)
        ∙ k)
      own.assets (chosen_ids (is_planned_removal RemovalOperation.purge none) own.assets distinct)

-- A purge that returns, of what its plan for the record removes, leaves a record of which a purge would
-- remove nothing more.
pub run_purge-leaves_none :
    (f : Formats) (g : Setting) (does : Answers) (own : OwnershipRecord) (preview : PurgePreview)
    (given : Option String) (r : Run Removal)
    → IsFresh f g does own r.local
    → purged_assets f own ≡ ok preview.unrecoverable
    → (out : List String × OwnershipRecord) → (run_purge f g does own preview given r).0 ≡ ok out
    → All (λ a. is_planned_removal RemovalOperation.purge none a ≡ false) out.1.assets
run_purge-leaves_none f g does own preview given r p plan out h =
    subst (All (λ a. is_planned_removal RemovalOperation.purge none a ≡ false))
      (sym (run_purge-IsPurged f g does own preview given r p out h).1)
      (planned-removed (asset_ids preview.unrecoverable) own.assets
        (purged_assets-All f own preview.unrecoverable plan))
