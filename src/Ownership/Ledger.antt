-- ===== src/Ownership/Ledger.antt =====
-- src/onboarding/domain/ownership.ts: the operations on the ownership ledger and record.
--
-- A candidate of `verifyOwnershipRecord` is a value with the shape of a record; the schema's formats,
-- SHA-256 and the comparison of keys are parameters. `randomUUID` enters as the argument `fresh`.
use skillwire.Base.{
  ◌>>=◌, ◌>>◌, String, Bool, Result, Option, List, ◌+◌, throw, if◌then◌else◌, ◌===◌, ◌∷◌, none, [],
  true, throw_if, ◌&&◌, ◌||◌, false, any, ok, error, not, some, invalid, is_sha256, map, err, ◌++◌,
  includes, filter_by,
}
use skillwire.Canonical.{Platform}
use skillwire.Installation.Status.{Client, same_client}
use skillwire.Ownership.Record.{
  AssetKind, container, compose_project, credential, same_kind, asset_kind, AssetDisposition,
  present, drifted, is_present, is_retained, is_removed, OwnedAsset, ExternalIntegration,
  Verification, Unsigned, OwnershipRecord, record_hash, owned_asset_schema,
  external_integration_schema, ownership_record_schema,
}

pub record Formats : Type 0 where
  pub platform : Platform
  pub is_uuid : String → Bool
  pub is_datetime : String → Bool

pub record OwnershipLedger : Type 0 where
  pub owned : OwnershipRecord
  pub external_integrations : List ExternalIntegration

-- `asset.client === client`, where the asset's may be null
abbrev pub has_client : Option Client → Client → Bool
has_client none c = false
has_client (some d) c = same_client d c

abbrev pub is_equivalent : Verification → Bool
is_equivalent Verification.equivalent = true
is_equivalent _ = false

-- Whether an external integration and an asset are for the same client and kind.
abbrev pub claims_same : ExternalIntegration → OwnedAsset → Bool
claims_same d a = has_client a.client d.client && same_kind (asset_kind d.kind) a.kind

abbrev pub same_external : ExternalIntegration → ExternalIntegration → Bool
same_external d e =
    same_client d.client e.client && same_kind (asset_kind d.kind) (asset_kind e.kind)

pub data ExternalDependencyClass : Type 0 where
  absent external_equivalent same_name_conflict : ExternalDependencyClass

unfoldable pub classify_external_dependency : Bool → Bool → ExternalDependencyClass
classify_external_dependency same_name_exists equivalent =
    if not same_name_exists
    then absent
    else if equivalent
    then external_equivalent
    else same_name_conflict

-- What an operation removes.
pub data RemovalOperation : Type 0 where
  client_uninstall uninstall purge : RemovalOperation

pub record DispositionPlan : Type 0 where
  pub remove : List OwnedAsset
  pub retain : List OwnedAsset

abbrev pub is_same_asset : String → OwnedAsset → Bool
is_same_asset id a = a.asset_id === id

abbrev pub map_asset : String → (OwnedAsset → OwnedAsset) → List OwnedAsset → List OwnedAsset
map_asset id f [] = []
map_asset id f (a ∷ as') = (if a.asset_id === id then f a else a) ∷ map_asset id f as'

-- `assets.find(…)`
abbrev pub find_asset : String → List OwnedAsset → Option OwnedAsset
find_asset id [] = none
find_asset id (a ∷ as') = if a.asset_id === id then some a else find_asset id as'

abbrev pub has_asset : String → List OwnedAsset → Bool
has_asset id assets = any (is_same_asset id) assets

-- The kinds of assets that an uninstall removes.
abbrev pub is_uninstalled_kind : AssetKind → Bool
is_uninstalled_kind AssetKind.mcp_entry = true
is_uninstalled_kind AssetKind.plugin = true
is_uninstalled_kind AssetKind.marketplace = true
is_uninstalled_kind container = true
is_uninstalled_kind compose_project = true
is_uninstalled_kind _ = false

-- The filter of `planOwnedAssetDispositions`. `asset.client === client` with an absent client holds
-- of no asset, since an asset's client is never undefined.
abbrev pub is_asset_of : Option Client → OwnedAsset → Bool
is_asset_of none a = false
is_asset_of (some c) a = has_client a.client c

unfoldable pub is_planned_removal : RemovalOperation → Option Client → OwnedAsset → Bool
is_planned_removal purge client a = is_present a.disposition || is_retained a.disposition
is_planned_removal client_uninstall client a =
    is_asset_of client a
    && (is_present a.disposition || (same_kind a.kind credential && is_retained a.disposition))
is_planned_removal uninstall client a = is_present a.disposition && is_uninstalled_kind a.kind

abbrev pub lacks_client : RemovalOperation → Option Client → Bool
lacks_client client_uninstall none = true
lacks_client _ client = false

abbrev is_unclear : AssetDisposition → Bool
is_unclear AssetDisposition.ambiguous = true
is_unclear drifted = true
is_unclear _ = false

module _ (f : Formats) where
  -- The hash and the schema that end every update.
  unfoldable pub sign : Unsigned → Result OwnershipRecord
  sign u =
      let signed : OwnershipRecord = record {
        unsigned = u;
        record_sha256 = record_hash f.platform u;
      } in
      if ownership_record_schema f.is_uuid signed then ok signed else err invalid

  abbrev pub updated : OwnershipRecord → List OwnedAsset → List String → Unsigned
  updated r assets external = record {
    installation_id = r.installation_id;
    record_revision = r.record_revision + 1;
    assets = assets;
    external_dependencies = external;
  }

  -- `updateRecord`
  unfoldable pub update_record :
      OwnershipRecord → List OwnedAsset → List String → Result OwnershipRecord
  unfolding sign
  update_record r assets external = sign (updated r assets external)

  unfoldable pub create_ownership_ledger : String → Result OwnershipLedger
  unfolding sign
  create_ownership_ledger installation_id = do
    owned ← sign (record {
      installation_id = installation_id;
      record_revision = 1;
      assets = [];
      external_dependencies = [];
    })
    ok (record { owned = owned; external_integrations = [] })

  unfoldable pub verify_ownership_record : OwnershipRecord → Result OwnershipRecord
  verify_ownership_record r = do
    throw_if (not (ownership_record_schema f.is_uuid r)) invalid
    throw_if (not (record_hash f.platform r.unsigned === r.record_sha256))
        (error "Ownership record integrity is invalid")
    ok r

  unfoldable pub record_external_integration :
      OwnershipLedger → ExternalIntegration → Result OwnershipLedger
  record_external_integration l d = do
    throw_if (not (external_integration_schema f.is_uuid f.is_datetime d)) invalid
    throw_if (not (is_equivalent d.verification))
        (error "Only verified equivalent external integrations are reusable")
    throw_if
        (any (λ e. same_external e d) l.external_integrations
          || includes l.owned.external_dependencies d.external_dependency_id)
        (error "External integration dependency is already recorded")
    throw_if (any (claims_same d) l.owned.assets)
        (error "Integration cannot be both external and owned")
    owned ←
        update_record l.owned l.owned.assets
          (l.owned.external_dependencies ++ d.external_dependency_id ∷ [])
    ok (record { owned = owned; external_integrations = l.external_integrations ++ d ∷ [] })

  unfoldable pub record_owned_asset : OwnershipLedger → OwnedAsset → Result OwnershipLedger
  record_owned_asset l a = do
    throw_if (not (owned_asset_schema f.is_uuid a)) invalid
    throw_if (any (λ d. claims_same d a) l.external_integrations)
        (error "Integration cannot be both external and owned")
    owned ← update_record l.owned (l.owned.assets ++ a ∷ []) l.owned.external_dependencies
    ok (record { owned = owned; external_integrations = l.external_integrations })

  unfoldable pub plan_owned_asset_dispositions :
      OwnershipRecord → RemovalOperation → Option Client → Result DispositionPlan
  plan_owned_asset_dispositions candidate operation client = do
    r ← verify_ownership_record candidate
    throw_if (lacks_client operation client) (error "Client uninstall requires an exact client")
    let remove = filter_by (is_planned_removal operation client) r.assets
    let remove_ids = map (λ (a : OwnedAsset). a.asset_id) remove
    ok (record {
      remove = remove;
      retain = filter_by (λ a. not (includes remove_ids a.asset_id)) r.assets;
    })

  unfoldable pub require_current_owned_asset_identity : OwnedAsset → String → Result (Unit {0})
  require_current_owned_asset_identity a current = do
    throw_if (is_unclear a.disposition) (error "Owned asset is ambiguous or drifted")
    throw_if (not (is_present a.disposition) && not (is_retained a.disposition))
        (error "Owned asset is not currently removable")
    throw_if (not (a.expected_identity_sha256 === current))
        (error "Owned asset identity changed after preview")

  unfoldable pub record_asset_disposition :
      OwnershipRecord → String → AssetDisposition → Result OwnershipRecord
  record_asset_disposition candidate id disposition = do
    r ← verify_ownership_record candidate
    throw_if (not (has_asset id r.assets)) (error "Owned asset is not recorded")
    update_record r (map_asset id (λ a. record a { disposition = disposition }) r.assets)
        r.external_dependencies

  abbrev pub reactivate_found :
      OwnershipRecord → String → String → Option OwnedAsset → Result OwnershipRecord
  reactivate_found r id current none = throw "Owned asset is not recorded"
  reactivate_found r id current (some a) = do
    throw_if (not (a.expected_identity_sha256 === current))
        (error "Retained owned asset identity changed")
    throw_if (not (is_retained a.disposition) && not (is_removed a.disposition))
        (error "Owned asset is not eligible for reactivation")
    update_record r (map_asset id (λ e. record e { disposition = present }) r.assets)
        r.external_dependencies

  unfoldable pub reactivate_owned_asset : OwnershipRecord → String → String → Result OwnershipRecord
  reactivate_owned_asset candidate id current = do
    r ← verify_ownership_record candidate
    reactivate_found r id current (find_asset id r.assets)

  unfoldable pub replace_owned_asset_identity :
      OwnershipRecord → String → String → String → Result OwnershipRecord
  replace_owned_asset_identity candidate id locator expected = do
    r ← verify_ownership_record candidate
    throw_if (not (is_sha256 expected)) (error "Replacement owned asset identity is invalid")
    throw_if (not (has_asset id r.assets)) (error "Owned asset is not recorded")
    update_record r
        (map_asset id
          (λ a. record a {
            locator = locator;
            expected_identity_sha256 = expected;
            disposition = present;
          })
          r.assets)
        r.external_dependencies
