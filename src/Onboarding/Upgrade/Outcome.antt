-- ===== src/Onboarding/Upgrade/Outcome.antt =====
-- What an upgrade that fails leaves to do, after its `catch`.
use skillwire.Journal.Entry.{compensate}
use skillwire.Journal.Append.{Journal, append}
use skillwire.Onboarding.Triple.{
  Holds, Post, ignoring-Holds, if-Holds, call-Holds, reading-Holds, bind-Holds, raise-Holds,
  pure-Holds, forget-Holds,
}
use skillwire.Onboarding.Upgrade.Steps.{called, IsAt, called_on}
use skillwire.Onboarding.Upgrade.Switch.{IsTold}
use skillwire.Onboarding.Schema.{UpgradeKind, Decision}
use skillwire.Onboarding.Upgrade.{
  Progress, Callbacks, Call, settled, Backup, activation_incomplete, is_forward, rolled, settled_on,
  stopped_or_rolled_back, restore_needed, stopped, Upgraded, is_unproven, last_step,
  recovered_detail,
}
use skillwire.Base.{
  Bool, true, false, ◌&&◌, ◌||◌, ◌≡◌, refl, List, ◌∷◌, arith, ok, err, Failure, sym, subst, all,
  Option, none, some, Bool-cases, inl, inr, Result, last?, ap,
}
use skillwire.Onboarding.Op.{Run, Setting, kept}

abbrev pub is_read : Call → Bool
is_read Call.verify_target = true
is_read Call.create_backup = true
is_read _ = false

-- Nothing was migrated and nothing is stopped, and the application is rolled back where the variables
-- say that it was installed or that the writers were drained.
abbrev pub Undone : Progress → Type 0
Undone s =
    (called Call.migrate s.calls ≡ false)
    × (called Call.stop_writers s.calls ≡ false)
    × (called Call.rollback_application s.calls ≡ (s.application_installed || s.writers_drained))

-- A failed upgrade: it only read; or it stopped the writers last, after it committed the release or
-- after it called the migration, and its error says which and names the validated backup; or it is
-- undone.
pub data Failed (does : Callbacks) (e : Failure) (s : Progress) : Type 0 where
  untouched : all is_read s.calls ≡ true → Failed does e s
  must_activate :
      (backup : Backup) (cause : Failure) (rest : List Call)
      → does.create_backup ≡ ok backup
      → backup.validated ≡ true
      → e ≡ activation_incomplete backup.backup_id cause
      → s.calls ≡ Call.stop_writers ∷ rest
      → called Call.commit_selection rest ≡ true
      → Failed does e s
  must_restore :
      (backup : Backup) (cause : Failure) (rest : List Call)
      → does.create_backup ≡ ok backup
      → backup.validated ≡ true
      → e ≡ restore_needed backup.backup_id cause
      → s.calls ≡ Call.stop_writers ∷ rest
      → called Call.migrate rest ≡ true
      → Failed does e s
  undone : Undone s → Failed does e s

module _ (kind : UpgradeKind) (s : Progress) (t : IsTold kind s) where
  told-commits : s.release_committed ≡ true → called Call.commit_selection s.calls ≡ true
  told-commits q = ground arith

  told-migrates :
      (is_forward kind && s.migration_started) ≡ true → called Call.migrate s.calls ≡ true
  told-migrates q = ground arith

module _ (kind : UpgradeKind) (s : Progress) (t : IsTold kind s)
    (still : (is_forward kind && s.migration_started) ≡ false) where
  rollback-Undone :
      (s.application_installed || s.writers_drained) ≡ true
      → Undone (called_on Call.rollback_application s)
  rollback-Undone q = (ground arith, ground arith, ground arith)

  calm-Undone : (s.application_installed || s.writers_drained) ≡ false → Undone s
  calm-Undone q = (ground arith, ground arith, ground arith)

module _ (g : Setting) (does : Callbacks) {E : Failure → Progress → Type 0} where
  stopped-Holds :
      (s : Progress) → Holds (IsAt s) (stopped g does) (λ _. IsAt (called_on Call.stop_writers s)) E
  stopped-Holds s =
      ignoring-Holds (λ _. IsAt (called_on Call.stop_writers s))
        (call-Holds _ does.stop_writers (λ t p v e. ap (called_on Call.stop_writers) p)
          (λ t p e d. ap (called_on Call.stop_writers) p))
        (λ e t p. p)

-- The compensation in the journal does nothing to the variables and the calls.
module _ (g : Setting) (P : Progress → Type 0) where
  kept-Post :
      (r : Run Progress) (out : Result (Unit {0}) × Journal)
      → P r.local
      → Post (λ _. P) (λ _. P) (kept g r out)
  kept-Post r (ok v, j) u = u
  kept-Post r (err e, j) u = u

  settled_on-Post :
      (r : Run Progress) (j : Option Journal)
      → P r.local
      → Post (λ _. P) (λ _. P) (settled_on g r j)
  settled_on-Post r none u = u
  settled_on-Post r (some j) u = elim (Bool-cases (is_unproven (last? j.entries))) [
    | inl q ↦ rw q (
        kept-Post r
          (append g.is_datetime g.world compensate (last_step (last? j.entries)) recovered_detail j)
          u)
    | inr q ↦ rw q u
  ]

  settled_by-Holds : Holds P (settled g) (λ _. P) (λ _. P)
  unfolding settled
  settled_by-Holds = record { run = λ r p. settled_on-Post r r.journal p }

pub settled-Holds : (g : Setting) {P : Progress → Type 0} → Holds P (settled g) (λ _. P) (λ _. P)
settled-Holds g {P} = settled_by-Holds g P

module _ (g : Setting) (does : Callbacks) (backup : Backup) (saved : does.create_backup ≡ ok backup)
    (valid : backup.validated ≡ true) (d : Decision) where
  rolled-Holds :
      (s : Progress)
      → IsTold d.kind s
      → (is_forward d.kind && s.migration_started) ≡ false
      → Holds (IsAt s) (rolled g does s) (λ _. Undone) (λ _. Undone)
  rolled-Holds s t still =
      if-Holds
        (λ q.
          call-Holds _ does.rollback_application
            (λ u p v e.
              subst Undone (sym (ap (called_on Call.rollback_application) p))
                (rollback-Undone d.kind s t still q))
            (λ u p f e.
              subst Undone (sym (ap (called_on Call.rollback_application) p))
                (rollback-Undone d.kind s t still q)))
        (λ q. pure-Holds tt (λ u p. subst Undone (sym p) (calm-Undone d.kind s t still q)))

  -- After a throw that leaves the variables to tell of the calls, the `catch` throws on and leaves
  -- the upgrade failed.
  pub caught-Holds :
      {Q : Upgraded → Progress → Type 0} (cause : Failure)
      → Holds
          (IsTold d.kind)
          (λ r. stopped_or_rolled_back g does d backup cause r.local r)
          Q
          (Failed does)
  unfolding stopped_or_rolled_back
  caught-Holds cause = reading-Holds (stopped_or_rolled_back g does d backup cause) (λ s t.
      if-Holds
        (λ q. bind-Holds _ (stopped-Holds g does s) (λ _. raise-Holds _ (λ u p.
          must_activate backup cause s.calls saved valid refl (ap (λ x. x.calls) p)
            (told-commits d.kind s t q))))
        (λ _.
          if-Holds
            (λ q. bind-Holds _ (stopped-Holds g does s) (λ _. raise-Holds _ (λ u p.
              must_restore backup cause s.calls saved valid refl (ap (λ x. x.calls) p)
                (told-migrates d.kind s t q))))
            (λ q.
              forget-Holds (λ _. Undone) (λ e u p. undone p)
                (bind-Holds (λ _. Undone) (rolled-Holds s t q)
                  (λ _.
                    bind-Holds (λ _. Undone) (settled-Holds g) (λ _. raise-Holds _ (λ u p. p)))))))
