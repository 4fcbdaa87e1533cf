-- ===== src/Ownership/Tests.antt =====
-- The ownership record on concrete inputs, and its theorems at such inputs.
use skillwire.Base.Dict.{insert}
use skillwire.Base.{true, refl, [], ◌∷◌, String, none, ◌===◌, is_sha256, false, utf16_length}
use skillwire.Canonical.{Platform}
use skillwire.Ownership.Record.{
  AssetKind, OwnedAsset, OwnershipRecord, Retention, present, removed, owned_asset_schema,
  ownership_record_schema, record_hash, has_duplicates, to_set_from,
}
use skillwire.Ownership.Ledger.{
  Formats, OwnershipLedger, RemovalOperation, plan_owned_asset_dispositions,
  verify_ownership_record, create_ownership_ledger, record_owned_asset, record_asset_disposition,
  update_record, is_planned_removal,
}
use skillwire.Ownership.Plans.{IsPartition, plan-IsPartition}
use skillwire.Ownership.Disjoint.{Made, created, owned, IsConsistent, Made-IsConsistent}
use skillwire.Ownership.Integrity.{disposed, IsUpdate, Step-IsUpdate}

abbrev id : String
id = "11111111-1111-4111-8111-111111111111"

abbrev digest : String
digest = "0123456789abcdef0123456789abcdef0123456789abcdef0123456789abcdef"

-- A platform whose hash is constant.
abbrev platform : Platform
platform = record {
  quote = λ s. s;
  number_text = λ n. "0";
  locale_less = λ s t. false;
  code_unit_less = λ s t. false;
  sha256 = λ s. digest;
}

abbrev formats : Formats
formats = record { platform = platform; is_uuid = λ s. s === id; is_datetime = λ s. true }

abbrev container : OwnedAsset
container = record {
  asset_id = id;
  kind = AssetKind.container;
  client = none;
  locator = "skillwire";
  expected_identity_sha256 = digest;
  created_by_operation = id;
  retention = Retention.remove_on_uninstall;
  disposition = present;
}

abbrev empty : OwnershipRecord
empty = record {
  unsigned = record {
    installation_id = id;
    record_revision = 1;
    assets = [];
    external_dependencies = [];
  };
  record_sha256 = digest;
}

abbrev holding : OwnershipRecord
holding = record {
  unsigned = record {
    installation_id = id;
    record_revision = 2;
    assets = container ∷ [];
    external_dependencies = [];
  };
  record_sha256 = digest;
}

abbrev ledger : OwnershipRecord → OwnershipLedger
ledger r = record { owned = r; external_integrations = [] }

plan-IsPartition_example :
    IsPartition RemovalOperation.uninstall none
      (container ∷ [])
      (record { remove = container ∷ []; retain = [] })
unfolding plan_owned_asset_dispositions verify_ownership_record ownership_record_schema
    owned_asset_schema utf16_length is_sha256 has_duplicates to_set_from insert record_hash
    is_planned_removal
plan-IsPartition_example =
    plan-IsPartition formats holding RemovalOperation.uninstall none
      (record { remove = container ∷ []; retain = [] }) refl

made : Made formats (ledger holding)
unfolding create_ownership_ledger record_owned_asset ownership_record_schema is_sha256 record_hash
    has_duplicates to_set_from owned_asset_schema utf16_length update_record insert
made = owned container (ledger holding) (created id (ledger empty) refl) refl

Made-IsConsistent_example : IsConsistent formats (ledger holding)
Made-IsConsistent_example = Made-IsConsistent formats made

abbrev without : OwnershipRecord
without = record {
  unsigned = record {
    installation_id = id;
    record_revision = 3;
    assets = record container { disposition = removed } ∷ [];
    external_dependencies = [];
  };
  record_sha256 = digest;
}

Step-IsUpdate_example : IsUpdate formats holding without
unfolding record_asset_disposition verify_ownership_record ownership_record_schema
    owned_asset_schema utf16_length is_sha256 has_duplicates to_set_from insert record_hash
    update_record
Step-IsUpdate_example = Step-IsUpdate formats holding without (disposed id removed refl)
