-- ===== src/Onboarding/Upgrade.antt =====
-- src/onboarding/application/upgrade.ts and upgrade-recovery.ts: the upgrade to a release, through the
-- steps that its caller gives, and what it leaves to an operator when it fails.
pub mod Steps
pub mod Switch
pub mod Outcome
pub mod Admission
pub mod Laws
pub mod Interrupted
mod Tests
use Prim.Native.String
use skillwire.Base.{
  ℕ, List, [], ◌∷◌, Bool, true, false, not, ◌||◌, ◌&&◌, Option, none, some, String, Result, ok, err,
  throw, throw_if, error, Failure, Boundary, if◌then◌else◌, codes, same_codes, take, drop, all,
  ◌==◌, ltb, leb, ◌===◌, length, last?, is_lower_hex,
}
use skillwire.Journal.Entry.{Detail, text, number, flag, compensate, Entry, same_phase, field_is}
use skillwire.Journal.Append.{Journal, append}
use skillwire.Onboarding.Op.{
  Op, Run, Setting, pure, raise, lift, call, assign, try, ◌>>=◌, ◌>>◌, effect, unless_aborted,
  ignoring, kept, confirm_preview,
}
use skillwire.Onboarding.Schema.{
  Decision, classify_schema_upgrade, UpgradeKind, same_schema, forward_only,
}

-- `upgradeFailureRequiresRecovery`
unfoldable pub upgrade_failure_requires_recovery : Bool → Bool → Bool
upgrade_failure_requires_recovery restore_required has_unproven_effect =
    restore_required || has_unproven_effect

-- `UpgradeTarget`
pub record Target : Type 0 where
  pub release_id : String
  pub release_sequence : ℕ
  pub trust_policy_sequence : ℕ
  pub schema_minimum : ℕ
  pub schema_maximum : ℕ
  pub latest_migration : ℕ
  pub manifest_sha256 : String
  pub image_digest : String

-- `UpgradePreview`
pub record Preview : Type 0 where
  pub installation_id : String
  pub current_release_sequence : ℕ
  pub current_trust_policy_sequence : ℕ
  pub live_schema : ℕ
  pub target : Target
  pub preview_hash : String

pub record Backup : Type 0 where
  pub backup_id : String
  pub validated : Bool

pub record Upgraded : Type 0 where
  pub backup_id : String
  pub release_id : String

-- `sameTarget`
unfoldable pub same_target : Target → Target → Bool
same_target left right =
    left.release_id === right.release_id
    && left.release_sequence == right.release_sequence
    && left.trust_policy_sequence == right.trust_policy_sequence
    && left.schema_minimum == right.schema_minimum
    && left.schema_maximum == right.schema_maximum
    && left.latest_migration == right.latest_migration
    && left.manifest_sha256 === right.manifest_sha256
    && left.image_digest === right.image_digest

-- What the caller's functions answer; `runUpgrade` calls each at most once.
pub record Callbacks : Type 0 where
  pub verify_target : Result Target
  pub create_backup : Result Backup
  pub drain_writers : Result (Unit {0})
  pub install_application : Result (Unit {0})
  pub migrate : Result (Unit {0})
  pub verify_live_schema : Result ℕ
  pub preactivation_readiness : Result (Unit {0})
  pub verify_clients : Result (Unit {0})
  pub activate_application : Result (Unit {0})
  pub commit_selection : Result (Unit {0})
  pub rollback_application : Result (Unit {0})
  pub stop_writers : Result (Unit {0})

pub data Call : Type 0 where
  verify_target create_backup drain_writers install_application migrate : Call
  verify_live_schema preactivation_readiness verify_clients activate_application : Call
  commit_selection rollback_application stop_writers : Call

-- The calls so far, the latest first, and the variables of `runUpgrade`.
pub record Progress : Type 0 where
  pub calls : List Call
  pub application_installed : Bool
  pub writers_drained : Bool
  pub release_committed : Bool
  pub migration_started : Bool

abbrev pub starting : Progress
starting = record {
  calls = [];
  application_installed = false;
  writers_drained = false;
  release_committed = false;
  migration_started = false;
}

abbrev pub calling : {A : Type 0} → Call → Result A → Op Progress A
calling c answer = call (λ s. record s { calls = c ∷ s.calls }) answer

-- `/^sha256:[0-9a-f]{64}$/`
unfoldable pub is_image_digest : String → Bool
unfolding is_lower_hex
is_image_digest s =
    same_codes (take 7 (codes s)) (codes "sha256:")
    && length (drop 7 (codes s)) == 64
    && all is_lower_hex (drop 7 (codes s))

abbrev pub activation_incomplete : String → Failure → Failure
activation_incomplete backup cause =
    Failure.recovery "Upgrade committed the target release but public activation did not complete"
      Boundary.application_config (some backup)
      "Retry target activation; do not restore the pre-upgrade backup" cause

abbrev pub restore_needed : String → Failure → Failure
restore_needed backup cause =
    Failure.recovery "Forward-only upgrade stopped after migration may have begun"
      Boundary.database_restore_required (some backup)
      "Restore replaces all database changes after the named backup, including erased-memory records"
      cause

abbrev pub rolled_back : String → Failure → Failure
rolled_back backup cause =
    Failure.recovery
      "Upgrade failed before a forward-only database boundary and application rollback completed"
      Boundary.application_config (some backup) "No database restore is required" cause

abbrev pub unless_cancelled : Setting → String → Op Progress (Unit {0})
unless_cancelled g boundary =
    unless_aborted g
      (error (String.◌++◌ "Upgrade cancelled at the " (String.◌++◌ boundary " boundary")))

-- The checks before the backup: the verified target and what its schema asks for.
unfoldable pub admitted : Preview → Target → Result Decision
admitted preview target =
    if not (same_target target preview.target)
    then throw "Verified upgrade target changed after preview"
    else if leb target.release_sequence preview.current_release_sequence
    then throw "Release downgrade or equal-sequence replacement is forbidden"
    else if ltb target.trust_policy_sequence preview.current_trust_policy_sequence
    then throw "Trust policy downgrade is forbidden"
    else if not (is_image_digest target.image_digest)
    then throw "Upgrade image is not digest-pinned"
    else classify_schema_upgrade preview.live_schema target.schema_minimum target.schema_maximum
        target.latest_migration (10 ∷ 11 ∷ [])

abbrev pub is_forward : UpgradeKind → Bool
is_forward same_schema = false
is_forward forward_only = true

-- Whether the last entry is an effect that is not known to have completed.
abbrev pub is_unproven : Option Entry → Bool
is_unproven none = false
is_unproven (some last) =
    same_phase last.phase compensate && field_is last.detail "completion" "unproven"

abbrev pub recovered_detail : Detail
recovered_detail = ("completion", text "recovered") ∷ ("recoveryRequired", flag false) ∷ []

abbrev pub last_step : Option Entry → String
last_step none = ""
last_step (some last) = last.step

module _ (g : Setting) where
  -- The `effect` of `runUpgrade`
  abbrev pub step_effect : {T : Type 0} → String → Op Progress T → (T → Detail) → Op Progress T
  step_effect step action verification =
      effect g step (("command", text "upgrade") ∷ []) action (λ _. false)
        (λ v. ok (verification v))

  abbrev pub settled_on : Run Progress → Option Journal → Result (Unit {0}) × Run Progress
  settled_on r none = (ok tt, r)
  settled_on r (some j) =
      if is_unproven (last? j.entries)
      then kept g r
          (append g.is_datetime g.world compensate (last_step (last? j.entries)) recovered_detail j)
      else (ok tt, r)

  -- The compensation of the effect that failed, once the application is rolled back.
  unfoldable pub settled : Op Progress (Unit {0})
  settled r = settled_on r r.journal

module _ (g : Setting) (does : Callbacks) where
  -- The writers are drained for a migration.
  abbrev pub drained : Decision → Op Progress (Unit {0})
  drained decision =
      if decision.requires_writer_drain
      then (do
        step_effect g "upgrade-writer-drain" (calling Call.drain_writers does.drain_writers)
            (λ _. ("drained", flag true) ∷ [])
        assign (λ s. record s { writers_drained = true })
        unless_cancelled g "writer-drain")
      else pure tt

  abbrev pub migrated : Target → UpgradeKind → Op Progress (Unit {0})
  migrated target same_schema = pure tt
  migrated target forward_only = do
    step_effect g "upgrade-migration"
        (do assign (λ s. record s { migration_started = true }); calling Call.migrate does.migrate)
        (λ _. ("schema", number target.latest_migration) ∷ [])
    unless_cancelled g "migration"

  -- The end of the `try`, from the readback of the schema on.
  unfoldable pub read_back_and_committed : Target → Backup → Op Progress Upgraded
  read_back_and_committed target backup = do
    live ←
        step_effect g "upgrade-schema-readback"
          (calling Call.verify_live_schema does.verify_live_schema) (λ v. ("schema", number v) ∷ [])
    lift (
        throw_if (not (live == target.latest_migration))
          (error "Live schema readback did not match the target"))
    step_effect g "upgrade-preactivation-readiness"
        (calling Call.preactivation_readiness does.preactivation_readiness)
        (λ _. ("ready", flag true) ∷ [])
    unless_cancelled g "readiness"
    step_effect g "upgrade-client-verification" (calling Call.verify_clients does.verify_clients)
        (λ _. ("clientsVerified", flag true) ∷ [])
    unless_cancelled g "client-verification"
    step_effect g "upgrade-release-commit" (calling Call.commit_selection does.commit_selection)
        (λ _. ("releaseSequence", number target.release_sequence) ∷ [])
    assign (λ s. record s { release_committed = true })
    unless_cancelled g "release-commit"
    step_effect g "upgrade-application-activation"
        (calling Call.activate_application does.activate_application)
        (λ _. ("activated", flag true) ∷ [])
    assign (λ s. record s { writers_drained = false })
    unless_cancelled g "application-activation"
    pure (record { backup_id = backup.backup_id; release_id = target.release_id })

  -- The body of the `try`
  unfoldable pub switched : Target → Decision → Backup → Op Progress Upgraded
  switched target decision backup = do
    drained decision
    step_effect g "upgrade-application-install"
        (calling Call.install_application does.install_application)
        (λ _. ("installed", flag true) ∷ [])
    assign (λ s. record s { application_installed = true })
    unless_cancelled g "application-install"
    migrated target decision.kind
    read_back_and_committed target backup

  abbrev pub stopped : Op Progress (Unit {0})
  stopped = ignoring (calling Call.stop_writers does.stop_writers)

  abbrev pub rolled : Progress → Op Progress (Unit {0})
  rolled s =
      if s.application_installed || s.writers_drained
      then calling Call.rollback_application does.rollback_application
      else pure tt

  -- The `catch`, by the variables at the throw
  unfoldable pub stopped_or_rolled_back :
      Decision → Backup → Failure → Progress → Op Progress Upgraded
  stopped_or_rolled_back decision backup cause s =
      if s.release_committed
      then (do stopped; raise (activation_incomplete backup.backup_id cause))
      else if is_forward decision.kind && s.migration_started
      then (do stopped; raise (restore_needed backup.backup_id cause))
      else do rolled s; settled g; raise (rolled_back backup.backup_id cause)

  unfoldable pub run_upgrade : Preview → Option String → Op Progress Upgraded
  run_upgrade preview confirmation = do
    lift (confirm_preview preview.preview_hash confirmation)
    unless_aborted g (error "Upgrade cancelled")
    target ←
        step_effect g "upgrade-release-verification" (calling Call.verify_target does.verify_target)
          (λ v.
            ("releaseSequence", number v.release_sequence)
            ∷ ("trustPolicySequence", number v.trust_policy_sequence)
            ∷ [])
    unless_cancelled g "release-verification"
    decision ← lift (admitted preview target)
    backup ←
        step_effect g "upgrade-backup" (calling Call.create_backup does.create_backup)
          (λ v. ("backupId", text v.backup_id) ∷ ("validated", flag v.validated) ∷ [])
    lift (throw_if (not backup.validated) (error "Upgrade backup is not restore-validated"))
    unless_cancelled g "backup"
    try (switched target decision backup)
        (λ e r. stopped_or_rolled_back decision backup e r.local r)
