-- ===== src/Onboarding/Removal/Tests.antt =====
-- The removal of a container by a purge and by an uninstall.
use skillwire.Onboarding.Removal.Uninstalled.{IsUninstalled, run_default_uninstall-IsUninstalled}
use skillwire.Onboarding.Removal.Proven.{IsProven}
use skillwire.Onboarding.Removal.Purged.{run_purge-IsProven, run_purge-leaves_none}
use skillwire.Onboarding.Removal.Purge.{purged_assets, PurgePreview, run_purge, purged}
use skillwire.Onboarding.Removal.Uninstall.{
  run_default_uninstall, UninstallPreview, group_uninstall_effects, group_from, removed_groups,
  all_checked, all_recorded, all_retained,
}
use skillwire.Base.Dict.{insert}
use skillwire.Base.{
  true, false, ◌≡◌, refl, [], ◌∷◌, All, String, none, some, ok, ◌===◌, is_sha256, utf16_length,
  sort_by, is_lower_hex,
}
use skillwire.Canonical.{Platform}
use skillwire.Journal.Append.{durable}
use skillwire.Ownership.Record.{
  AssetKind, OwnedAsset, OwnershipRecord, Retention, present, removed, owned_asset_schema,
  ownership_record_schema, record_hash, has_duplicates, to_set_from,
}
use skillwire.Ownership.Ledger.{
  Formats, RemovalOperation, is_planned_removal, plan_owned_asset_dispositions,
  verify_ownership_record, require_current_owned_asset_identity, record_asset_disposition,
  update_record, sign,
}
use skillwire.Onboarding.Op.{
  ◌>>=◌, Run, Setting, lift, confirm_preview, unless_aborted, call, pure, effect, assign,
}
use skillwire.Onboarding.Removal.{
  Removal, Answers, Removed, proved, checked, removing_asset, recorded_removed, recorded,
}

abbrev id : String
id = "11111111-1111-4111-8111-111111111111"

abbrev digest : String
digest = "0123456789abcdef0123456789abcdef0123456789abcdef0123456789abcdef"

-- A platform whose hash is constant.
abbrev platform : Platform
platform = record {
  quote = λ s. s;
  number_text = λ n. "0";
  locale_less = λ s t. false;
  code_unit_less = λ s t. false;
  sha256 = λ s. digest;
}

abbrev formats : Formats
formats = record { platform = platform; is_uuid = λ s. s === id; is_datetime = λ s. true }

abbrev container : OwnedAsset
container = record {
  asset_id = id;
  kind = AssetKind.container;
  client = none;
  locator = "skillwire";
  expected_identity_sha256 = digest;
  created_by_operation = id;
  retention = Retention.remove_on_uninstall;
  disposition = present;
}

abbrev holding : OwnershipRecord
holding = record {
  unsigned = record {
    installation_id = id;
    record_revision = 2;
    assets = container ∷ [];
    external_dependencies = [];
  };
  record_sha256 = digest;
}

abbrev without : OwnershipRecord
without = record {
  unsigned = record {
    installation_id = id;
    record_revision = 3;
    assets = record container { disposition = removed } ∷ [];
    external_dependencies = [];
  };
  record_sha256 = digest;
}

abbrev setting : Setting
setting = record {
  is_datetime = λ _. true;
  world = record { now = λ _. "2026-01-01T00:00:00Z"; write = λ _. durable };
  is_aborted = λ _. false;
}

abbrev answers : Answers
answers = record {
  observe_identity = λ n a. ok digest;
  remove_asset = λ n a. ok tt;
  stop_owned_service = λ n. ok tt;
  publish_retained = λ n o. ok tt;
}

abbrev fresh : Run Removal
fresh = record {
  journal = none;
  asks = 0;
  local = record { events = []; ownership = holding; removed = [] };
}

abbrev purge_preview : PurgePreview
purge_preview = record {
  installation_id = id;
  ownership_revision = 2;
  unrecoverable = container ∷ [];
  preview_hash = digest;
}

purged_container :
    (run_purge formats setting answers holding purge_preview (some digest) fresh).0
    ≡ ok (id ∷ [], without)
unfolding run_purge purged ◌>>=◌ lift confirm_preview is_sha256 is_lower_hex proved unless_aborted
    checked call require_current_owned_asset_identity pure effect removing_asset recorded_removed
    recorded record_asset_disposition verify_ownership_record ownership_record_schema
    owned_asset_schema utf16_length has_duplicates to_set_from insert record_hash update_record sign
    assign
purged_container = refl

run_purge-leaves_none_example :
    All (λ a. is_planned_removal RemovalOperation.purge none a ≡ false) without.assets
unfolding purged_assets plan_owned_asset_dispositions verify_ownership_record
    ownership_record_schema owned_asset_schema utf16_length is_sha256 has_duplicates to_set_from
    insert record_hash sort_by is_planned_removal
run_purge-leaves_none_example =
    run_purge-leaves_none formats setting answers holding purge_preview (some digest) fresh refl
      refl (id ∷ [], without) purged_container

run_purge-IsProven_example :
    IsProven
      (run_purge formats setting answers holding purge_preview (some digest) fresh).1.local.events
run_purge-IsProven_example =
    run_purge-IsProven formats setting answers holding purge_preview (some digest) fresh refl

abbrev uninstall_preview : UninstallPreview
uninstall_preview = record {
  installation_id = id;
  ownership_revision = 2;
  remove = container ∷ [];
  retain = [];
  preview_hash = digest;
}

abbrev uninstalled_container : Removed
uninstalled_container = record { removed = id ∷ []; retained = []; ownership = without }

run_default_uninstall-IsUninstalled_example :
    IsUninstalled formats setting answers holding uninstall_preview uninstalled_container
      (run_default_uninstall formats setting answers holding uninstall_preview
        (some digest)
        fresh).1.local
unfolding run_default_uninstall group_uninstall_effects group_from removed_groups all_checked
    all_recorded all_retained ◌>>=◌ lift confirm_preview is_sha256 is_lower_hex proved
    unless_aborted checked call require_current_owned_asset_identity pure effect removing_asset
    recorded_removed recorded record_asset_disposition verify_ownership_record
    ownership_record_schema owned_asset_schema utf16_length has_duplicates to_set_from insert
    record_hash update_record sign assign
run_default_uninstall-IsUninstalled_example =
    run_default_uninstall-IsUninstalled formats setting answers holding uninstall_preview
      (some digest) fresh refl uninstalled_container refl
