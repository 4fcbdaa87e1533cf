-- ===== src/Onboarding/Upgrade/Interrupted.antt =====
-- An installation that throws: what the `catch` of `runUpgrade` makes of it.
use skillwire.Onboarding.Upgrade.Admission.{IsAdmitted}
use skillwire.Onboarding.Upgrade.Laws.{run_upgrade-Holds}
use skillwire.Onboarding.Upgrade.Outcome.{settled-Holds, is_read}
use skillwire.Onboarding.Upgrade.Switch.{before_switch}
use skillwire.Onboarding.Schema.{keeps_schema, Decision}
use skillwire.Onboarding.Triple.{
  Holds, reading-Holds, weaken-Holds, if-Holds, bind-Holds, pure-Holds, raise-Holds, Post,
  try-Holds,
}
use skillwire.Onboarding.Upgrade.Steps.{called, IsAt, then-pure, then-step}
use skillwire.Onboarding.Upgrade.{
  Progress, Callbacks, Preview, starting, Backup, Call, stopped_or_rolled_back, switched,
  run_upgrade, Target, rolled_back,
}
use skillwire.Base.{
  true, false, ◌||◌, ◌≡◌, refl, List, [], ◌∷◌, ok, err, String, Failure, sym, subst, Option, ℕ, ◌∙◌,
  arith, all, Result, inl, inr,
}
use skillwire.Onboarding.Op.{Run, Setting, try}

abbrev IsUnrolled : Progress → Type 0
IsUnrolled s = called Call.rollback_application s.calls ≡ false

-- No variable tells of a change.
abbrev IsSilent : Progress → Type 0
IsSilent s =
    (s.application_installed ≡ false)
    × (s.writers_drained ≡ false)
    × (s.release_committed ≡ false)
    × IsUnrolled s

module _ (g : Setting) (does : Callbacks) (live latest : ℕ) (backup : Backup) where
  failed_install-Holds :
      (target : Target) {e : Failure}
      → does.install_application ≡ err e
      → Holds
          (IsAt before_switch)
          (switched g does target (keeps_schema live latest) backup)
          (λ _. IsUnrolled)
          (λ _. IsSilent)
  unfolding switched
  failed_install-Holds target q = then-pure before_switch (
      then-step g before_switch (λ _. (refl, refl, refl, refl)) _ Call.install_application
        does.install_application _ (λ _. (refl, refl, refl, refl)) λ v p. absurd (cc (sym p ∙ q)))

  caught-IsUnrolled :
      (cause : Failure)
      → Holds IsSilent
          (λ r. stopped_or_rolled_back g does (keeps_schema live latest) backup cause r.local r)
          (λ _. IsUnrolled)
          (λ _. IsUnrolled)
  unfolding stopped_or_rolled_back
  caught-IsUnrolled cause =
      reading-Holds (stopped_or_rolled_back g does (keeps_schema live latest) backup cause) (λ s u.
        weaken-Holds IsSilent (λ t p. subst IsSilent (sym p) u)
          (if-Holds (λ (q : s.release_committed ≡ true). absurd (cc (sym q ∙ u.2)))
            (λ _.
              bind-Holds (λ _. IsUnrolled)
                (if-Holds
                  (λ (q : (s.application_installed || s.writers_drained) ≡ true).
                    absurd (ground arith))
                  (λ _. pure-Holds tt (λ t p. p.3)))
                (λ _.
                  bind-Holds (λ _. IsUnrolled) (settled-Holds g)
                    (λ _. raise-Holds (rolled_back backup.backup_id cause) (λ t p. p))))))

left :
    {A : Type 0} (out : Result A × Run Progress)
    → Post (λ _. IsUnrolled) (λ _. IsUnrolled) out
    → IsUnrolled out.1.local
left (ok v, r) h = h
left (err e, r) h = h

module _ (g : Setting) (does : Callbacks) (preview : Preview) (given : Option String)
    (same : preview.target.latest_migration ≡ preview.live_schema) {cause : Failure}
    (fails : does.install_application ≡ err cause) where
  unrolled_switch :
      (backup : Backup) (d : Decision)
      → IsAdmitted preview preview.target d
      → Holds
          (IsAt before_switch)
          (try
            (switched g does preview.target d backup)
            (λ e r. stopped_or_rolled_back g does d backup e r.local r))
          (λ _. IsUnrolled)
          (λ _. IsUnrolled)
  unrolled_switch backup d a = elim a.decided.2 [
    | inl (_, f) ↦
        subst
          (λ x.
            Holds (IsAt before_switch)
              (try (switched g does preview.target x backup)
                (λ e r. stopped_or_rolled_back g does x backup e r.local r))
              (λ _. IsUnrolled) (λ _. IsUnrolled))
          (sym f)
          (try-Holds (λ _. IsSilent)
            (failed_install-Holds g does preview.live_schema preview.target.latest_migration backup
              preview.target fails)
            (caught-IsUnrolled g does preview.live_schema preview.target.latest_migration backup))
    | inr ((m, p, q, _), _) ↦ absurd (omega arith)
  ]

  reads-IsUnrolled :
      (calls : List Call)
      → all is_read calls ≡ true
      → called Call.rollback_application calls ≡ false
  reads-IsUnrolled [] h = refl
  reads-IsUnrolled (Call.verify_target ∷ calls) h = reads-IsUnrolled calls h
  reads-IsUnrolled (Call.create_backup ∷ calls) h = reads-IsUnrolled calls h
  reads-IsUnrolled (_ ∷ calls) h = cc h

  -- When the target keeps the schema and the installation throws, the application is not rolled back,
  -- however much of it was installed.
  pub run_upgrade-unrolled :
      (r : Run Progress)
      → r.local ≡ starting
      → called Call.rollback_application (run_upgrade g does preview given r).1.local.calls ≡ false
  run_upgrade-unrolled r begins = left (run_upgrade g does preview given r) (
      (run_upgrade-Holds g does preview given {Q = λ _. IsUnrolled} {E = λ _. IsUnrolled}
          (λ s u _. reads-IsUnrolled s.calls u)
          (λ backup d _ _ _ _ a. unrolled_switch backup d a)).run
        r begins)
