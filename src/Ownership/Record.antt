-- ===== src/Ownership/Record.antt =====
-- src/onboarding/domain/ownership.ts: assets, external dependencies and the ownership record, with
-- their schemas, and the record's hash.
use skillwire.Base.{
  ℕ, Bool, true, false, List, [], ◌∷◌, ◌==◌, String, Option, ◌&&◌, some, not, map, is_sha256, ltb,
  none, leb, length, all, utf16_length,
}
use skillwire.Base.Dict.{insert}
use skillwire.Canonical.{
  Platform, Json, Items, null, number, text, array, object, nil, cons, end, field, canonical_json,
}
use skillwire.Installation.Status.{Client, codex, claude}

pub data AssetKind : Type 0 where
  path release trust_policy service_secret compose_project container volume : AssetKind
  credential mcp_entry plugin marketplace backup source_registration : AssetKind

abbrev pub kind_text : AssetKind → String
kind_text path = "path"
kind_text release = "release"
kind_text trust_policy = "trust-policy"
kind_text service_secret = "service-secret"
kind_text compose_project = "compose-project"
kind_text container = "container"
kind_text volume = "volume"
kind_text credential = "credential"
kind_text mcp_entry = "mcp-entry"
kind_text plugin = "plugin"
kind_text marketplace = "marketplace"
kind_text backup = "backup"
kind_text source_registration = "source-registration"

pub data ExternalKind : Type 0 where
  mcp_entry plugin marketplace : ExternalKind

-- An external dependency's kind among the kinds of assets.
abbrev pub asset_kind : ExternalKind → AssetKind
asset_kind ExternalKind.mcp_entry = AssetKind.mcp_entry
asset_kind ExternalKind.plugin = AssetKind.plugin
asset_kind ExternalKind.marketplace = AssetKind.marketplace

abbrev pub kind_index : AssetKind → ℕ
kind_index path = 0
kind_index release = 1
kind_index trust_policy = 2
kind_index service_secret = 3
kind_index compose_project = 4
kind_index container = 5
kind_index volume = 6
kind_index credential = 7
kind_index AssetKind.mcp_entry = 8
kind_index AssetKind.plugin = 9
kind_index AssetKind.marketplace = 10
kind_index backup = 11
kind_index source_registration = 12

abbrev pub same_kind : AssetKind → AssetKind → Bool
same_kind k l = kind_index k == kind_index l

pub data Retention : Type 0 where
  remove_on_uninstall retain_by_default remove_only_on_purge : Retention

abbrev retention_text : Retention → String
retention_text remove_on_uninstall = "remove-on-uninstall"
retention_text retain_by_default = "retain-by-default"
retention_text remove_only_on_purge = "remove-only-on-purge"

pub data AssetDisposition : Type 0 where
  present removed retained drifted ambiguous : AssetDisposition

abbrev disposition_text : AssetDisposition → String
disposition_text present = "present"
disposition_text removed = "removed"
disposition_text retained = "retained"
disposition_text drifted = "drifted"
disposition_text ambiguous = "ambiguous"

abbrev pub is_present : AssetDisposition → Bool
is_present present = true
is_present _ = false

abbrev pub is_retained : AssetDisposition → Bool
is_retained retained = true
is_retained _ = false

abbrev pub is_removed : AssetDisposition → Bool
is_removed removed = true
is_removed _ = false

pub record OwnedAsset : Type 0 where
  pub asset_id : String
  pub kind : AssetKind
  pub client : Option Client
  pub locator : String
  pub expected_identity_sha256 : String
  pub created_by_operation : String
  pub retention : Retention
  pub disposition : AssetDisposition

pub data Scope : Type 0 where
  user managed effective : Scope

pub data Verification : Type 0 where
  equivalent conflicting ambiguous managed unavailable : Verification

pub record ExternalIntegration : Type 0 where
  pub external_dependency_id : String
  pub client : Client
  pub kind : ExternalKind
  pub scope : Scope
  pub observed_identity_sha256 : String
  pub verification : Verification
  pub last_observed_at : String

-- The record without its hash (`Omit<…, "recordSha256">`), and with it.
pub record Unsigned : Type 0 where
  pub installation_id : String
  pub record_revision : ℕ
  pub assets : List OwnedAsset
  pub external_dependencies : List String

pub record OwnershipRecord : Type 0 where
  pub unsigned : Unsigned
  pub open unsigned use *
  pub record_sha256 : String

abbrev client_json : Option Client → Json
client_json none = null
client_json (some codex) = text "codex"
client_json (some claude) = text "claude"

abbrev asset_json : OwnedAsset → Json
asset_json a = object (
    field "assetId" (text a.asset_id) (
      field "kind" (text (kind_text a.kind)) (
        field "client" (client_json a.client) (
          field "locator" (text a.locator) (
            field "expectedIdentitySha256" (text a.expected_identity_sha256) (
              field "createdByOperation" (text a.created_by_operation) (
                field "retention" (text (retention_text a.retention))
                  (field "disposition" (text (disposition_text a.disposition)) end))))))))

abbrev items {ℓ} : {A : Type ℓ} → (A → Json) → List A → Items
items f [] = nil
items f (x ∷ xs) = cons (f x) (items f xs)

unfoldable pub record_json : Unsigned → Json
record_json u = object (
    field "schemaVersion" (text "skillwire.ownership/v1") (
      field "installationId" (text u.installation_id) (
        field "recordRevision" (number u.record_revision) (
          field "assets" (array (items asset_json u.assets))
            (field "externalDependencies" (array (items text u.external_dependencies)) end)))))

-- `recordHash`
unfoldable pub record_hash : Platform → Unsigned → String
unfolding record_json
record_hash p u = p.sha256 (canonical_json p p.locale_less (record_json u))

-- `new Set(xs).size !== xs.length`
unfoldable pub to_set_from : List String → List String → List String
to_set_from set [] = set
to_set_from set (x ∷ xs) = to_set_from (insert set x) xs

unfoldable pub has_duplicates : List String → Bool
has_duplicates xs = not (length (to_set_from [] xs) == length xs)

abbrev pub asset_ids : List OwnedAsset → List String
asset_ids = map (λ a. a.asset_id)

-- The schemas; `is_uuid` and `is_datetime` are the schema library's formats.
unfoldable pub owned_asset_schema : (String → Bool) → OwnedAsset → Bool
owned_asset_schema is_uuid a =
    is_uuid a.asset_id
    && (leb 1 (utf16_length a.locator) && leb (utf16_length a.locator) 512)
    && is_sha256 a.expected_identity_sha256
    && is_uuid a.created_by_operation

unfoldable pub external_integration_schema :
    (String → Bool) → (String → Bool) → ExternalIntegration → Bool
external_integration_schema is_uuid is_datetime d =
    is_uuid d.external_dependency_id
    && is_sha256 d.observed_identity_sha256
    && is_datetime d.last_observed_at

unfoldable pub ownership_record_schema : (String → Bool) → OwnershipRecord → Bool
ownership_record_schema is_uuid r =
    is_uuid r.installation_id
    && ltb 0 r.record_revision
    && (leb (length r.assets) 1024 && all (owned_asset_schema is_uuid) r.assets)
    && (leb (length r.external_dependencies) 32 && all is_uuid r.external_dependencies)
    && is_sha256 r.record_sha256
    && not (has_duplicates (asset_ids r.assets))
    && not (has_duplicates r.external_dependencies)
