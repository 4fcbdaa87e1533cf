-- ===== src/Onboarding/Removal/Uninstalled.antt =====
-- What an uninstall removes, records and publishes.
use skillwire.Onboarding.Removal.Retained.{
  IsStopped, IsPublished, present_ids, retained_in, retained_in-empty, HasRemoved,
  all_retained-Holds, published-Holds,
}
use skillwire.Onboarding.Removal.Grouped.{
  With, removed_groups-Holds, HasCalled, removal_calls, first_assets,
}
use skillwire.Journal.Entry.{text}
use skillwire.Onboarding.Removal.Groups.{group_ids, group_uninstall_effects-Perm}
use skillwire.Onboarding.Removal.Purged.{fresh-IsKept, fresh-IsProven, IsFresh}
use skillwire.Onboarding.Triple.{
  Holds, bind-Holds, weaken-Holds, ensure-Holds, effect-Holds, lift-Holds, returned, given-Holds,
}
use skillwire.Ownership.Ledger.{Formats}
use skillwire.Ownership.Record.{OwnershipRecord, asset_ids}
use skillwire.Onboarding.Removal.Uninstall.{
  all_retained, UninstallPreview, published, uninstalled, detailed_effect, run_default_uninstall,
  group_uninstall_effects, Group, removed_groups,
}
use mathlib.Core.List.{Perm}
use skillwire.Base.{◌≡◌, List, [], ◌∷◌, String, subst, sym, ap, Option, ok, ◌∙◌}
use skillwire.Onboarding.Op.{◌>>◌, Setting, Run}
use skillwire.Onboarding.Removal.{Removal, Answers, Event, asking, Removed}
use skillwire.Onboarding.Removal.Proven.{IsProven, asking-Holds, proved-Holds}
use skillwire.Onboarding.Removal.Recorded.{removed_in}

module _ (f : Formats) (g : Setting) (does : Answers) where
  -- What an uninstall that returns has done, in the groups of the assets to remove: the calls that
  -- removed were of the first asset of each group, in order; the ids it returns as removed are those of
  -- the groups, and of the assets to remove, each as often; what it returns as retained is what it was
  -- to retain; in the record it returns the removed were marked as removed, and then those to retain
  -- that were present as retained; and its last two calls stopped the service and published that record.
  pub record IsUninstalled (own : OwnershipRecord) (preview : UninstallPreview) (out : Removed)
      (s : Removal) : Type 0 where
    pub groups : List Group
    pub grouped : group_uninstall_effects preview.remove ≡ ok groups
    pub calls : removal_calls s.events ≡ first_assets groups
    pub in_order : out.removed ≡ group_ids groups
    pub removes : Perm out.removed (asset_ids preview.remove)
    pub retains : out.retained ≡ asset_ids preview.retain
    pub records :
        out.ownership.assets
        ≡ retained_in (present_ids preview.retain) (removed_in out.removed own.assets)
    pub publishes : IsPublished out.ownership s.events
    pub proven : IsProven s.events

  -- After the grouping.
  settled-Holds :
      (own : OwnershipRecord) (preview : UninstallPreview) (groups : List Group)
      → group_uninstall_effects preview.remove ≡ ok groups
      → Holds
          (With f g does (HasCalled own [] []))
          (removed_groups f g does groups
            >> (detailed_effect f g does "uninstall-owned-service"
                  (asking (λ _. Event.stopping) does.stop_owned_service)
                  (("installationId", text preview.installation_id) ∷ [])
                >> (all_retained f g does preview.retain
                    >> (published f g does >> uninstalled f g does preview))))
          (IsUninstalled own preview)
          (λ _ s. IsProven s.events)
  settled-Holds own preview groups grouped =
      let ids = group_ids groups in
      let calls = first_assets groups in
      let removed = removed_in ids own.assets in
      let kept = retained_in (present_ids preview.retain) removed in
      bind-Holds (λ _. With f g does (HasCalled own ids calls))
        (removed_groups-Holds f g does own groups [] [])
        λ _.
          bind-Holds (λ _. HasRemoved ids calls (retained_in [] removed) IsStopped)
            (effect-Holds g _ _ _ _ _ (λ s p. p.1) (λ _ s p. p.4)
              (asking-Holds (λ _. Event.stopping) does.stop_owned_service
                (λ s p v n d. (p.0.0.0, p.0.0.1 ∙ retained_in-empty removed, p.0.1, tt, p.1))
                (λ s p e n d. p.1)))
            λ _.
              bind-Holds (λ _. HasRemoved ids calls kept IsStopped)
                (all_retained-Holds f g does ids calls removed preview.retain [])
                λ _.
                  ensure-Holds _
                    (λ out s p. record {
                      groups = groups;
                      grouped = grouped;
                      calls = p.3;
                      in_order = p.0;
                      removes =
                          subst (λ l. Perm l (asset_ids preview.remove)) (sym p.0)
                            (group_uninstall_effects-Perm preview.remove groups grouped);
                      retains = p.1;
                      records =
                          p.2
                          ∙ ap
                              (λ l.
                                retained_in (present_ids preview.retain) (removed_in l own.assets))
                              (sym p.0);
                      publishes = p.4;
                      proven = p.5;
                    })
                    (published-Holds f g does ids calls kept preview)

  run_default_uninstall-Holds :
      (own : OwnershipRecord) (preview : UninstallPreview) (given : Option String)
      → Holds
          (IsFresh f g does own)
          (run_default_uninstall f g does own preview given)
          (IsUninstalled own preview)
          (λ _ s. IsProven s.events)
  unfolding run_default_uninstall
  run_default_uninstall-Holds own preview given =
      bind-Holds (λ _. IsFresh f g does own)
        (lift-Holds _ (λ s p v d. p) (λ s p e d. fresh-IsProven f g does own s p))
        λ _.
          bind-Holds (λ _. IsFresh f g does own)
            (lift-Holds _ (λ s p v d. p) (λ s p e d. fresh-IsProven f g does own s p))
            λ _.
              bind-Holds (λ _. With f g does (HasCalled own [] []))
                (weaken-Holds (With f g does (HasCalled own [] []))
                  (λ s p. (
                    (fresh-IsKept f g does own s p, ap (λ x. removal_calls x.events) p),
                    fresh-IsProven f g does own s p,
                  ))
                  (proved-Holds f g does _ preview.remove (HasCalled own [] []) (λ a s x p. p)))
                λ _.
                  bind-Holds
                    (λ groups s.
                      (group_uninstall_effects preview.remove ≡ ok groups)
                      × With f g does (HasCalled own [] []) s)
                    (lift-Holds _ (λ s p v d. (d, p)) (λ s p e d. p.1))
                    λ groups. given-Holds (settled-Holds own preview groups)

  -- An uninstall that returns has called the removal once for each group of the assets that its preview
  -- removes, with the group's first asset and in the groups' order, each an asset that was observed with
  -- its expected identity since the removal before. It returns the assets of the groups as removed, which
  -- are those of the preview, each as often, and those that the preview retains as retained. In the record
  -- that it returns the removed were marked as removed, and then those that the preview retains and that
  -- were present as retained, with no other change of an asset. Its last two calls stopped the service and
  -- published that record.
  pub run_default_uninstall-IsUninstalled :
      (own : OwnershipRecord) (preview : UninstallPreview) (given : Option String) (r : Run Removal)
      → IsFresh f g does own r.local
      → (out : Removed) → (run_default_uninstall f g does own preview given r).0 ≡ ok out
      → IsUninstalled own preview out (run_default_uninstall f g does own preview given r).1.local
  run_default_uninstall-IsUninstalled own preview given r p out h =
      returned (run_default_uninstall-Holds own preview given) r p h
