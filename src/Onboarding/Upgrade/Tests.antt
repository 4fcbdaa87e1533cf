-- ===== src/Onboarding/Upgrade/Tests.antt =====
-- Upgrades from schema 9 to 11 and from a release to one with the same schema.
use skillwire.Onboarding.Schema.Laws.{Decides, classify_schema_upgrade_iff}
use skillwire.Onboarding.Upgrade.Steps.{called}
use skillwire.Onboarding.Schema.{classify_schema_upgrade, goes_forward}
use skillwire.Onboarding.Upgrade.{
  Target, Callbacks, run_upgrade, Progress, starting, Call, switched, Preview,
  read_back_and_committed, rolled_back, admitted, stopped_or_rolled_back, settled, same_target,
  is_image_digest,
}
use skillwire.Base.{
  true, false, ◌≡◌, refl, [], ◌∷◌, ok, err, String, error, some, none, Result, ◌↔◌, is_sha256,
}
use skillwire.Journal.Append.{durable}
use skillwire.Onboarding.Op.{
  ◌>>=◌, Run, Setting, try, effect, confirm_preview, lift, unless_aborted, call, assign, pure,
  raise,
}
use skillwire.Onboarding.Upgrade.Interrupted.{run_upgrade-unrolled}
use skillwire.Onboarding.Upgrade.Admission.{IsUpgraded}
use skillwire.Onboarding.Upgrade.Laws.{run_upgrade-IsUpgraded}

abbrev hex : String
hex = "0123456789abcdef0123456789abcdef0123456789abcdef0123456789abcdef"

abbrev release : Target
release = record {
  release_id = "v2";
  release_sequence = 2;
  trust_policy_sequence = 1;
  schema_minimum = 9;
  schema_maximum = 11;
  latest_migration = 11;
  manifest_sha256 = hex;
  image_digest = "sha256:0123456789abcdef0123456789abcdef0123456789abcdef0123456789abcdef";
}

abbrev preview_of : Target → Preview
preview_of target = record {
  installation_id = "i";
  current_release_sequence = 1;
  current_trust_policy_sequence = 1;
  live_schema = 9;
  target = target;
  preview_hash = hex;
}

abbrev done : Result (Unit {0})
done = ok tt

abbrev system : Target → Callbacks
system target = record {
  verify_target = ok target;
  create_backup = ok (record { backup_id = "b"; validated = true });
  drain_writers = done;
  install_application = done;
  migrate = done;
  verify_live_schema = ok target.latest_migration;
  preactivation_readiness = done;
  verify_clients = done;
  activate_application = done;
  commit_selection = done;
  rollback_application = done;
  stop_writers = done;
}

abbrev setting : Setting
setting = record {
  is_datetime = λ _. true;
  world = record { now = λ _. "2026-01-01T00:00:00Z"; write = λ _. durable };
  is_aborted = λ _. false;
}

abbrev fresh : Run Progress
fresh = record { journal = none; asks = 0; local = starting }

run_upgrade-IsUpgraded_example :
    IsUpgraded
      (system release)
      (preview_of release)
      (some hex)
      (record { backup_id = "b"; release_id = "v2" })
      (run_upgrade setting (system release) (preview_of release) (some hex) fresh).1.local
unfolding run_upgrade switched read_back_and_committed try effect admitted confirm_preview ◌>>=◌
    lift is_sha256 unless_aborted call same_target is_image_digest classify_schema_upgrade assign
    pure
run_upgrade-IsUpgraded_example =
    run_upgrade-IsUpgraded setting (system release) (preview_of release) (some hex) fresh refl
      (record { backup_id = "b"; release_id = "v2" }) refl

-- The migration fails.
abbrev unmigratable : Callbacks
unmigratable = record (system release) { migrate = err (error "no space") }

-- The installation fails where the schema stays.
abbrev same_release : Target
same_release = record release { latest_migration = 9 }

abbrev uninstallable : Callbacks
uninstallable = record (system same_release) { install_application = err (error "no space") }

-- The error says that the rollback completed.
uninstallable_error :
    (run_upgrade setting uninstallable (preview_of same_release) (some hex) fresh).0
    ≡ err (rolled_back "b" (error "no space"))
unfolding run_upgrade switched try effect admitted confirm_preview stopped_or_rolled_back settled
    ◌>>=◌ lift is_sha256 unless_aborted call same_target is_image_digest classify_schema_upgrade
    pure raise
uninstallable_error = refl

run_upgrade-unrolled_example :
    called Call.rollback_application
      (run_upgrade setting uninstallable (preview_of same_release) (some hex) fresh).1.local.calls
    ≡ false
run_upgrade-unrolled_example =
    run_upgrade-unrolled setting uninstallable (preview_of same_release) (some hex) refl refl fresh
      refl

classify_schema_upgrade_iff_example :
    (classify_schema_upgrade 9 9 11 11 (10 ∷ 11 ∷ []) ≡ ok (goes_forward 9 11))
    ↔ Decides 9 9 11 11 (10 ∷ 11 ∷ []) (goes_forward 9 11)
classify_schema_upgrade_iff_example =
    classify_schema_upgrade_iff 9 9 11 11 (10 ∷ 11 ∷ []) (goes_forward 9 11)
