-- ===== src/Onboarding/Upgrade/Switch.antt =====
-- The `try` of `runUpgrade`: which calls it makes, in which order, and what its variables say of them
-- wherever it throws.
use skillwire.Journal.Entry.{Detail}
use skillwire.Onboarding.Upgrade.{
  Call, Progress, Callbacks, is_forward, starting, Target, Backup, Upgraded,
  read_back_and_committed, step_effect, calling, switched, migrated, drained,
}
use skillwire.Base.{
  ℕ, ◌==◌, ◌∙◌, ap, Bool, true, false, not, ◌&&◌, ◌||◌, ◌≡◌, refl, List, [], ◌∷◌, arith, ok, String,
  Result, subst, sym,
}
use skillwire.Onboarding.Op.{◌>>=◌, Op, Setting}
use skillwire.Onboarding.Triple.{Holds, pure-Holds, bind-Holds, effect-Holds, call-Holds}
use skillwire.Onboarding.Schema.{same_schema, forward_only, UpgradeKind, goes_forward, keeps_schema}
use skillwire.Onboarding.Upgrade.Steps.{
  then-step, then-unless, then-check, then-assign, called, called_on, IsAt, then-to, then-pure,
  unless-IsAt,
}

abbrev implies : Bool → Bool → Bool
implies a b = not a || b

-- The variables tell of the calls.
abbrev pub is_told : UpgradeKind → Progress → Bool
is_told kind s =
    not (called Call.stop_writers s.calls)
    && not (called Call.rollback_application s.calls)
    && implies (called Call.migrate s.calls) (is_forward kind && s.migration_started)
    && implies (is_forward kind && s.migration_started) (called Call.migrate s.calls)
    && implies s.release_committed (called Call.commit_selection s.calls)

abbrev pub IsTold : UpgradeKind → Progress → Type 0
IsTold kind s = is_told kind s ≡ true

abbrev pub prepared : List Call
prepared = Call.create_backup ∷ Call.verify_target ∷ []

-- The calls that a switch adds, the latest first.
abbrev pub switch_calls : UpgradeKind → List Call
switch_calls same_schema =
    Call.activate_application ∷ Call.commit_selection ∷ Call.verify_clients
    ∷ Call.preactivation_readiness ∷ Call.verify_live_schema ∷ Call.install_application ∷ []
switch_calls forward_only =
    Call.activate_application ∷ Call.commit_selection ∷ Call.verify_clients
    ∷ Call.preactivation_readiness ∷ Call.verify_live_schema ∷ Call.migrate
    ∷ Call.install_application ∷ Call.drain_writers ∷ []

abbrev pub before_switch : Progress
before_switch = record starting { calls = prepared }

-- Neither the migration nor one of the two calls of the `catch`.
abbrev is_plain : Call → Bool
is_plain Call.migrate = false
is_plain Call.rollback_application = false
is_plain Call.stop_writers = false
is_plain _ = true

same_number : (a b : ℕ) → not (a == b) ≡ false → a ≡ b
same_number a b h = ground arith

called_on-IsTold :
    (kind : UpgradeKind) (s : Progress) (c : Call)
    → is_plain c ≡ true
    → IsTold kind s
    → IsTold kind (called_on c s)
called_on-IsTold kind s Call.commit_selection h t = ground arith
called_on-IsTold kind s Call.migrate h t = cc
called_on-IsTold kind s Call.rollback_application h t = cc
called_on-IsTold kind s Call.stop_writers h t = cc
called_on-IsTold kind s c h t = t

committed-IsTold :
    (kind : UpgradeKind) (s : Progress)
    → IsTold kind s
    → IsTold kind (record (called_on Call.commit_selection s) { release_committed = true })
committed-IsTold kind s t = ground arith

module _ (g : Setting) (does : Callbacks) (target : Target) (backup : Backup)
    (kind : UpgradeKind) where
  abbrev pub switched_on : Progress → Progress
  switched_on s = record s {
    calls =
        Call.activate_application ∷ Call.commit_selection ∷ Call.verify_clients
        ∷ Call.preactivation_readiness ∷ Call.verify_live_schema ∷ s.calls;
    release_committed = true;
    writers_drained = false;
  }

  -- What the `try` returns, and where it ends.
  abbrev pub Switched : Progress → Upgraded → Progress → Type 0
  Switched st u s =
      (u ≡ record { backup_id = backup.backup_id; release_id = target.release_id })
      × (does.verify_live_schema ≡ ok target.latest_migration)
      × IsAt (switched_on st) s

  then-plain :
      {A B : Type 0} {Q : B → Progress → Type 0} (st : Progress) (step : String) (c : Call)
      (answer : Result A) (proof : A → Detail) {next : A → Op Progress B}
      → IsTold kind st
      → is_plain c ≡ true
      → ((v : A)
          → answer ≡ ok v
          → IsTold kind (called_on c st)
          → Holds (IsAt (called_on c st)) (next v) Q (λ _. IsTold kind))
      → Holds (IsAt st) (step_effect g step (calling c answer) proof >>= next) Q (λ _. IsTold kind)
  then-plain st step c answer proof t p rest =
      let t' = called_on-IsTold kind st c p t in
      then-step g st (λ _. t) step c answer proof (λ _. t') (λ v e. rest v e t')

  tail-Holds :
      (st : Progress)
      → IsTold kind st
      → Holds
          (IsAt st)
          (read_back_and_committed g does target backup)
          (Switched st)
          (λ _. IsTold kind)
  unfolding read_back_and_committed
  tail-Holds st t0 =
      let s1 = called_on Call.verify_live_schema st in
      let s2 = called_on Call.preactivation_readiness s1 in
      let s3 = called_on Call.verify_clients s2 in
      let s4 = called_on Call.commit_selection s3 in
      let s5 = record s4 { release_committed = true } in
      let s6 = called_on Call.activate_application s5 in
      then-plain st _ _ _ _ t0 refl λ live e t1.
        then-check g s1 (λ _. t1) _ _
          λ q. then-plain s1 _ _ _ _ t1 refl λ _ _ t2.
            then-unless g s2 (λ _. t2) "readiness"
              (then-plain s2 _ _ _ _ t2 refl λ _ _ t3.
                then-unless g s3 (λ _. t3) "client-verification"
                  (then-plain s3 _ _ _ _ t3 refl λ _ _ t4. then-assign s4 _ (
                    let t5 = committed-IsTold kind s3 t3 in
                    then-unless g s5 (λ _. t5) "release-commit"
                      (then-plain s5 _ _ _ _ t5 refl λ _ _ t6. then-assign s6 _ (
                        then-unless g (record s6 { writers_drained = false }) (λ _. t6)
                          "application-activation"
                          (pure-Holds _
                            (λ s p. (refl, e ∙ ap (λ x. ok x) (same_number live _ q), p))))))))

abbrev pub installed : Progress → Progress
installed s = record (called_on Call.install_application s) { application_installed = true }

abbrev pub writers_drained_on : Progress → Progress
writers_drained_on s = record (called_on Call.drain_writers s) { writers_drained = true }

abbrev pub migration_on : Progress → Progress
migration_on s = called_on Call.migrate (record s { migration_started = true })

module _ (g : Setting) (does : Callbacks) (target : Target) (backup : Backup)
    (live latest : ℕ) where
  -- Without a change of the schema the writers go on.
  pub switched-same :
      Holds
        (IsAt before_switch)
        (switched g does target (keeps_schema live latest) backup)
        (Switched g does target backup same_schema (installed before_switch))
        (λ _. IsTold same_schema)
  unfolding switched
  switched-same =
      let s1 = called_on Call.install_application before_switch in
      then-pure before_switch (
        then-plain g does target backup same_schema before_switch _ _ _ _ refl refl λ _ _ t1.
          then-assign s1 _ (
            then-unless g (installed before_switch) (λ _. t1) "application-install"
              (then-pure (installed before_switch)
                (tail-Holds g does target backup same_schema (installed before_switch) refl))))

  drained-Holds :
      Holds
        (IsAt before_switch)
        (drained g does (goes_forward live latest))
        (λ _. IsAt (writers_drained_on before_switch))
        (λ _. IsTold forward_only)
  drained-Holds =
      then-plain g does target backup forward_only before_switch _ _ _ _ refl refl λ _ _ t1.
        then-assign (called_on Call.drain_writers before_switch) _
          (unless-IsAt g (writers_drained_on before_switch) (λ _. refl) "writer-drain")

  abbrev pub before_migration : Progress
  before_migration = installed (writers_drained_on before_switch)

  migrated-Holds :
      Holds
        (IsAt before_migration)
        (migrated g does target forward_only)
        (λ _. IsAt (migration_on before_migration))
        (λ _. IsTold forward_only)
  migrated-Holds =
      bind-Holds (λ _. IsAt (migration_on before_migration))
        (effect-Holds g _ _ _ _ _ (λ s p. subst (IsTold forward_only) (sym p) refl)
          (λ _ s p. subst (IsTold forward_only) (sym p) refl)
          (then-assign before_migration _ (
            call-Holds _ does.migrate (λ s p v e. ap (called_on Call.migrate) p)
              (λ s p e d. subst (IsTold forward_only) (sym (ap (called_on Call.migrate) p)) refl))))
        (λ _. unless-IsAt g (migration_on before_migration) (λ _. refl) "migration")

  -- With one, they are drained before the installation and the migration comes after it.
  pub switched-forward :
      Holds
        (IsAt before_switch)
        (switched g does target (goes_forward live latest) backup)
        (Switched g does target backup forward_only (migration_on before_migration))
        (λ _. IsTold forward_only)
  unfolding switched
  switched-forward =
      let s1 = writers_drained_on before_switch in
      then-to before_switch s1 drained-Holds (
        then-plain g does target backup forward_only s1 _ _ _ _ refl refl λ _ _ t1.
          then-assign (called_on Call.install_application s1) _ (
            then-unless g (installed s1) (λ _. t1) "application-install"
              (then-to (installed s1) (migration_on (installed s1)) migrated-Holds
                (tail-Holds g does target backup forward_only (migration_on (installed s1)) refl))))
