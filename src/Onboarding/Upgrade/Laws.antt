-- ===== src/Onboarding/Upgrade/Laws.antt =====
-- What `runUpgrade` did when it returns, and what it leaves when it throws.
use skillwire.Onboarding.Upgrade.Admission.{
  IsUpgraded, IsAdmitted, confirm_preview-eq-ok, Ordered, migrated_state, admitted-IsAdmitted,
}
use skillwire.Onboarding.Upgrade.Outcome.{Failed, untouched, is_read, caught-Holds}
use skillwire.Onboarding.Upgrade.Steps.{
  IsAt, called_on, Thrown, then-lift, then-step, then-unless, then-check,
}
use skillwire.Onboarding.Upgrade.Switch.{
  before_switch, switched_on, Switched, IsTold, installed, switched-same, switched-forward,
}
use skillwire.Onboarding.Triple.{Holds, bind-Holds, unless-Holds, try-Holds, ensure-Holds, returned}
use skillwire.Onboarding.Schema.{Decision, same_schema, forward_only, UpgradeKind}
use skillwire.Onboarding.Upgrade.{
  Preview, Target, Callbacks, Backup, Upgraded, Progress, run_upgrade, starting, switched,
  stopped_or_rolled_back, Call,
}
use skillwire.Base.{
  true, ◌≡◌, refl, ap, inl, inr, Option, some, String, ok, arith, all, subst, sym, ◌∙◌, Failure,
}
use skillwire.Onboarding.Op.{Setting, try, Run}

module _ (g : Setting) (does : Callbacks) (preview : Preview) (given : Option String) where
  abbrev pub IsUntouched : Progress → Type 0
  IsUntouched s = all is_read s.calls ≡ true

  module _ (backup : Backup) (c : given ≡ some preview.preview_hash)
      (v : does.verify_target ≡ ok preview.target) (saved : does.create_backup ≡ ok backup)
      (valid : backup.validated ≡ true) where
    Switched-IsUpgraded :
        (kind : UpgradeKind) (st : Progress) (d : Decision)
        → IsAdmitted preview preview.target d
        → ((s : Progress)
            → IsAt (switched_on g does preview.target backup kind st) s
            → Ordered preview s)
        → (u : Upgraded) (s : Progress) → Switched g does preview.target backup kind st u s
        → IsUpgraded does preview given u s
    Switched-IsUpgraded kind st d a order u s (e, live, at) = record {
      confirmed = c;
      verified = v;
      newer = a.newer;
      trusted = a.trusted;
      pinned = a.pinned;
      saved = saved ∙ ap (λ x. ok x) (ground arith);
      released = ap (λ x. x.release_id) e;
      read_back = live;
      in_range = (a.decided.0, a.decided.1);
      ordered = order s at;
    }

    ends :
        (kind : UpgradeKind) (st : Progress) (d : Decision)
        → IsAdmitted preview preview.target d
        → d.kind ≡ kind
        → ((s : Progress)
            → IsAt (switched_on g does preview.target backup kind st) s
            → Ordered preview s)
        → Holds
            (IsAt before_switch)
            (switched g does preview.target d backup)
            (Switched g does preview.target backup kind st)
            (λ _. IsTold kind)
        → Holds
            (IsAt before_switch)
            (try
              (switched g does preview.target d backup)
              (λ e r. stopped_or_rolled_back g does d backup e r.local r))
            (IsUpgraded does preview given)
            (Failed does)
    ends kind st d a k order h =
        try-Holds (λ _. IsTold d.kind)
          (ensure-Holds _ (Switched-IsUpgraded kind st d a order) (
            subst
              (λ x.
                Holds (IsAt before_switch) (switched g does preview.target d backup)
                  (Switched g does preview.target backup kind st) (λ _. IsTold x))
              (sym k) h))
          (caught-Holds g does backup saved valid d)

    -- The switch after the checks and the backup, and its `catch`.
    switch-Holds :
        (d : Decision)
        → IsAdmitted preview preview.target d
        → Holds
            (IsAt before_switch)
            (try
              (switched g does preview.target d backup)
              (λ e r. stopped_or_rolled_back g does d backup e r.local r))
            (IsUpgraded does preview given)
            (Failed does)
    switch-Holds d a = elim a.decided.2 [
      | inl (e, f) ↦
          ends same_schema (installed before_switch) d a (ap (λ x. x.kind) f)
            (λ s at. inl (e, ap (λ x. x.calls) at))
            (subst
              (λ x.
                Holds (IsAt before_switch) (switched g does preview.target x backup)
                  (Switched g does preview.target backup same_schema (installed before_switch))
                  (λ _. IsTold same_schema))
              (sym f)
              (switched-same g does preview.target backup preview.live_schema
                preview.target.latest_migration))
      | inr (e, f) ↦
          ends forward_only migrated_state d a (ap (λ x. x.kind) f)
            (λ s at. inr (e, ap (λ x. x.calls) at))
            (subst
              (λ x.
                Holds (IsAt before_switch) (switched g does preview.target x backup)
                  (Switched g does preview.target backup forward_only migrated_state)
                  (λ _. IsTold forward_only))
              (sym f)
              (switched-forward g does preview.target backup preview.live_schema
                preview.target.latest_migration))
    ]

  -- Until the backup the upgrade reads; then it switches.
  module _ {Q : Upgraded → Progress → Type 0} {E : Failure → Progress → Type 0}
      (calm : (s : Progress) → IsUntouched s → Thrown E s)
      (switches : (backup : Backup) (d : Decision)
        → given ≡ some preview.preview_hash
        → does.verify_target ≡ ok preview.target
        → does.create_backup ≡ ok backup
        → backup.validated ≡ true
        → IsAdmitted preview preview.target d
        → Holds
            (IsAt before_switch)
            (try
              (switched g does preview.target d backup)
              (λ e r. stopped_or_rolled_back g does d backup e r.local r))
            Q
            E) where
    switches_to :
        (backup : Backup) (d : Decision) (target : Target)
        → given ≡ some preview.preview_hash
        → does.verify_target ≡ ok target
        → does.create_backup ≡ ok backup
        → backup.validated ≡ true
        → IsAdmitted preview target d
        → Holds
            (IsAt before_switch)
            (try
              (switched g does target d backup)
              (λ e r. stopped_or_rolled_back g does d backup e r.local r))
            Q
            E
    switches_to backup d target c v saved valid a =
        subst
          (λ t.
            does.verify_target ≡ ok t
            → IsAdmitted preview t d
            → Holds (IsAt before_switch)
                (try (switched g does t d backup)
                  (λ e r. stopped_or_rolled_back g does d backup e r.local r))
                Q E)
          (sym a.unchanged) (λ v a. switches backup d c v saved valid a) v a

    pub run_upgrade-Holds : Holds (IsAt starting) (run_upgrade g does preview given) Q E
    unfolding run_upgrade
    run_upgrade-Holds =
        let s1 = called_on Call.verify_target starting in
        let calm0 = calm starting refl in
        let calm1 = calm s1 refl in
        let calm2 = calm before_switch refl in
        then-lift g starting calm0 _ λ _ c.
          bind-Holds (λ _. IsAt starting)
            (unless-Holds g _ (λ s p. p) (λ s p. calm s (subst IsUntouched (sym p) refl) _))
            λ _.
              then-step g starting calm0 _ Call.verify_target does.verify_target _ calm1 λ target v.
                then-unless g s1 calm1 "release-verification" (
                  then-lift g s1 calm1 _ λ d a.
                    then-step g s1 calm1 _ Call.create_backup does.create_backup _ calm2
                      λ backup saved. then-check g before_switch calm2 _ _ λ valid.
                        then-unless g before_switch calm2 "backup" (
                          switches_to backup d target
                            (confirm_preview-eq-ok preview.preview_hash given c) v saved
                            (ground arith) (admitted-IsAdmitted preview target d a)))

module _ (g : Setting) (does : Callbacks) (preview : Preview) (given : Option String)
    (r : Run Progress) (begins : r.local ≡ starting) where
  ends-Holds :
      Holds
        (IsAt starting)
        (run_upgrade g does preview given)
        (IsUpgraded does preview given)
        (Failed does)
  ends-Holds =
      run_upgrade-Holds g does preview given (λ s u e. untouched u)
        (λ backup d c v saved valid a. switch-Holds g does preview given backup c v saved valid d a)

  -- An upgrade that returns was confirmed by its preview's hash, had the previewed target verified,
  -- with a newer release sequence, a trust policy sequence that is not older, a digest-pinned image and
  -- a range that has the live schema, has a validated backup, whose id it returns with the release's,
  -- has read the release's latest migration back from the database, and made exactly its calls, each
  -- once, in the one order for a release without migrations or in the one for a release with some.
  pub run_upgrade-IsUpgraded :
      (u : Upgraded)
      → (run_upgrade g does preview given r).0 ≡ ok u
      → IsUpgraded does preview given u (run_upgrade g does preview given r).1.local
  run_upgrade-IsUpgraded u h = returned ends-Holds r begins h
