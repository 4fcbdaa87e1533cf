-- ===== src/Onboarding/Removal/Grouped.antt =====
-- The removal of the groups of an uninstall.
use skillwire.Onboarding.Removal.Groups.{group_ids}
use skillwire.Onboarding.Triple.{
  Holds, pure-Holds, bind-Holds, weaken-Holds, raise-Holds, ensure-Holds, unless-Holds,
  forget-Holds,
}
use skillwire.Ownership.Ledger.{Formats}
use skillwire.Ownership.Record.{OwnershipRecord, asset_ids, OwnedAsset}
use skillwire.Onboarding.Removal.Uninstall.{
  Group, all_recorded, all_checked, removed_group, removed_groups,
}
use skillwire.Base.{
  List, [], ◌∷◌, ◌++◌, String, Result, append_assoc, append-nil, inr, subst, ◌≡◌, ap,
}
use skillwire.Onboarding.Op.{◌>>◌, Op, Setting}
use skillwire.Onboarding.Removal.{Removal, Answers, Event, with_event, recorded_removed}
use skillwire.Onboarding.Removal.Proven.{IsProven, Seen, checked-Holds, removal-Holds}
use skillwire.Onboarding.Removal.Recorded.{IsKept, recorded_removed-Holds}

-- The assets that a removal was called with, in the order of the calls.
abbrev pub removal_calls : List Event → List OwnedAsset
removal_calls [] = []
removal_calls (Event.removing a ∷ rest) = removal_calls rest ++ a ∷ []
removal_calls (_ ∷ rest) = removal_calls rest

abbrev first_asset : List OwnedAsset → List OwnedAsset
first_asset [] = []
first_asset (a ∷ rest) = a ∷ []

-- The first assets of the groups.
abbrev pub first_assets : List Group → List OwnedAsset
first_assets [] = []
first_assets (group ∷ rest) = first_asset group.assets ++ first_assets rest

-- The record after these removals, and the calls that removed.
abbrev pub HasCalled : OwnershipRecord → List String → List OwnedAsset → Removal → Type 0
HasCalled own done calls s = IsKept own done s × (removal_calls s.events ≡ calls)

module _ (f : Formats) (g : Setting) (does : Answers) where
  abbrev pub With : (Removal → Type 0) → Removal → Type 0
  With P s = P s × IsProven s.events

  all_checked-Holds :
      (assets : List OwnedAsset) (P : Removal → Type 0)
      → ((a : OwnedAsset) (s : Removal) (answer : Result String)
          → P s
          → P (with_event (Event.observed a answer) s))
      → Holds (With P) (all_checked f g does assets) (λ _. With P) (λ _ s. IsProven s.events)
  unfolding all_checked
  all_checked-Holds [] P keeps = pure-Holds tt (λ s p. p)
  all_checked-Holds (a ∷ rest) P keeps =
      bind-Holds (λ _ s. P s × Seen a s.events × IsProven s.events)
        (checked-Holds f g does a P (keeps a))
        λ _. weaken-Holds (With P) (λ s p. (p.0, p.2)) (all_checked-Holds rest P keeps)

  one_recorded-Holds :
      (own : OwnershipRecord) (a : OwnedAsset) (done : List String) (calls : List OwnedAsset)
      → Holds
          (With (HasCalled own done calls))
          (recorded_removed f g does a)
          (λ _. With (HasCalled own (done ++ a.asset_id ∷ []) calls))
          (λ _ s. IsProven s.events)
  one_recorded-Holds own a done calls =
      weaken-Holds _ (λ s p. (p.0.0, (p.0.1, p.1)))
        (ensure-Holds _ (λ _ s p. ((p.0, p.1.0), p.1.1))
          (forget-Holds _ (λ _ s p. p.1)
            (recorded_removed-Holds f g does own
              (λ events. (removal_calls events ≡ calls) × IsProven events) a done)))

  all_recorded-Holds :
      (own : OwnershipRecord) (assets : List OwnedAsset) (done : List String)
      (calls : List OwnedAsset)
      → Holds
          (With (HasCalled own done calls))
          (all_recorded f g does assets)
          (λ _. With (HasCalled own (done ++ asset_ids assets) calls))
          (λ _ s. IsProven s.events)
  unfolding all_recorded
  all_recorded-Holds own [] done calls = pure-Holds tt (λ s p. rw (append-nil) p)
  all_recorded-Holds own (a ∷ rest) done calls =
      bind-Holds (λ _. With (HasCalled own (done ++ a.asset_id ∷ []) calls))
        (one_recorded-Holds own a done calls)
        λ _.
          subst
            (λ ids.
              Holds (With (HasCalled own (done ++ a.asset_id ∷ []) calls))
                (all_recorded f g does rest) (λ _. With (HasCalled own ids calls))
                (λ _ s. IsProven s.events))
            (append_assoc done (a.asset_id ∷ []) (asset_ids rest))
            (all_recorded-Holds own rest (done ++ a.asset_id ∷ []) calls)

  -- A group's checks and its removal, before what follows them.
  group-Holds :
      {Q : Unit {0} → Removal → Type 0} (own : OwnershipRecord) (done : List String)
      (calls : List OwnedAsset) (step : String) (assets : List OwnedAsset)
      {next : Op Removal (Unit {0})}
      → Holds
          (With (HasCalled own done (calls ++ first_asset assets)))
          next
          Q
          (λ _ s. IsProven s.events)
      → Holds
          (With (HasCalled own done calls))
          (all_checked f g does assets >> (removed_group f g does step assets >> next))
          Q
          (λ _ s. IsProven s.events)
  unfolding all_checked
  group-Holds own done calls step [] later =
      bind-Holds (λ _. With (HasCalled own done calls)) (pure-Holds tt (λ s p. p))
        λ _.
          bind-Holds (λ _. With (HasCalled own done (calls ++ []))) (raise-Holds _ (λ s p. p.1))
            λ _. later
  group-Holds own done calls step (a ∷ rest) later =
      bind-Holds (λ _ s. HasCalled own done calls s × Seen a s.events × IsProven s.events)
        (bind-Holds (λ _ s. HasCalled own done calls s × Seen a s.events × IsProven s.events)
          (checked-Holds f g does a (HasCalled own done calls) (λ s x p. p))
          λ _.
            ensure-Holds (λ _. With (λ s. HasCalled own done calls s × Seen a s.events))
              (λ _ s p. (p.0.0, p.0.1, p.1))
              (weaken-Holds (With (λ s. HasCalled own done calls s × Seen a s.events))
                (λ s p. ((p.0, p.1), p.2))
                (all_checked-Holds rest (λ s. HasCalled own done calls s × Seen a s.events)
                  (λ b s x p. (p.0, inr p.1)))))
        λ _.
          bind-Holds (λ _. With (HasCalled own done (calls ++ a ∷ [])))
            (removal-Holds f g does a step _ _ (HasCalled own done calls)
              (HasCalled own done (calls ++ a ∷ [])) (λ s p. (p.0, ap (λ l. l ++ a ∷ []) p.1)))
            λ _. later

  pub removed_groups-Holds :
      (own : OwnershipRecord) (groups : List Group) (done : List String) (calls : List OwnedAsset)
      → Holds
          (With (HasCalled own done calls))
          (removed_groups f g does groups)
          (λ _. With (HasCalled own (done ++ group_ids groups) (calls ++ first_assets groups)))
          (λ _ s. IsProven s.events)
  unfolding removed_groups
  removed_groups-Holds own [] done calls = pure-Holds tt (λ s p. rw (append-nil, append-nil) p)
  removed_groups-Holds own (group ∷ rest) done calls =
      let first = first_asset group.assets in
      bind-Holds (λ _. With (HasCalled own done calls)) (unless-Holds g _ (λ s p. p) (λ s p. p.1))
        λ _. group-Holds own done calls group.step group.assets (
          bind-Holds (λ _. With (HasCalled own (done ++ asset_ids group.assets) (calls ++ first)))
            (all_recorded-Holds own group.assets done (calls ++ first))
            λ _.
              subst
                (λ (l : List String × List OwnedAsset).
                  Holds (With (HasCalled own (done ++ asset_ids group.assets) (calls ++ first)))
                    (removed_groups f g does rest) (λ _. With (HasCalled own l.0 l.1))
                    (λ _ s. IsProven s.events))
                (λ i. (
                  append_assoc done (asset_ids group.assets) (group_ids rest) i,
                  append_assoc calls first (first_assets rest) i,
                ))
                (removed_groups-Holds own rest (done ++ asset_ids group.assets) (calls ++ first)))
