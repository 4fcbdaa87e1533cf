-- ===== src/Onboarding/Removal/Uninstall.antt =====
-- src/onboarding/application/uninstall.ts: an uninstall, by groups of assets that one effect removes.
use Prim.Native.String
use skillwire.Base.{
  ℕ, Bool, true, false, List, [], ◌∷◌, ◌++◌, Option, none, some, String, Result, ok, err, error,
  any, map, length, ltb, ◌||◌, if◌then◌else◌,
}
use skillwire.Installation.Status.{Client, codex, claude, same_client}
use skillwire.Journal.Entry.{Detail, text, flag, number}
use skillwire.Onboarding.Op.{
  Op, Setting, pure, raise, lift, ◌>>=◌, ◌>>◌, unless_aborted, effect, confirm_preview,
}
use skillwire.Ownership.Record.{
  OwnedAsset, OwnershipRecord, AssetKind, kind_text, AssetDisposition, is_present, same_kind,
}
use skillwire.Ownership.Ledger.{Formats}
use skillwire.Onboarding.Removal.{
  Removal, Answers, Removed, checked, proved, recorded, recorded_removed, removing_asset,
  same_revision, asset_step, asking, Event,
}

-- `UninstallEffectGroup`, and for a client's integration the client under which `clientIntegrations`
-- has it.
pub record Group : Type 0 where
  pub integration : Option Client
  pub step : String
  pub assets : List OwnedAsset

abbrev client_text : Client → String
client_text codex = "codex"
client_text claude = "claude"

-- The client whose integration an asset is a part of.
abbrev pub integration_of : OwnedAsset → Option Client → Option Client
integration_of a none = none
integration_of a (some c) =
    if same_kind a.kind AssetKind.marketplace || same_kind a.kind AssetKind.plugin
    then some c
    else none

abbrev pub has_integration : Client → Group → Bool
has_integration c group = elim group.integration [ none ↦ false | some d ↦ same_client d c ]

abbrev pub is_ambiguous : OwnedAsset → List OwnedAsset → Bool
is_ambiguous a assets = any (λ b. same_kind b.kind a.kind) assets

-- `existing.push(asset)`, in the group of the client's integration, or a new group at the end
unfoldable pub joined : OwnedAsset → Client → List Group → Result (List Group)
joined a c [] = ok (
    record {
      integration = some c;
      step = String.◌++◌ "uninstall-client-integration-" (client_text c);
      assets = a ∷ [];
    }
    ∷ [])
joined a c (group ∷ rest) =
    let later = joined a c rest in
    if has_integration c group
    then if is_ambiguous a group.assets
      then err (
          error (
            String.◌++◌ "Uninstall "
              (String.◌++◌ (client_text c) " integration ownership is ambiguous")))
      else ok (record group { assets = group.assets ++ a ∷ [] } ∷ rest)
    else elim later [ ok groups ↦ ok (group ∷ groups) | err e ↦ err e ]

abbrev pub grouped_as : OwnedAsset → Option Client → List Group → Result (List Group)
grouped_as a (some c) groups = joined a c groups
grouped_as a none groups = ok (
    groups ++ record { integration = none; step = asset_step "uninstall-" a; assets = a ∷ [] } ∷ [])

unfoldable pub group_from : List Group → List OwnedAsset → Result (List Group)
group_from groups [] = ok groups
group_from groups (a ∷ rest) = elim (grouped_as a (integration_of a a.client) groups) [
  | ok next ↦ group_from next rest
  | err e ↦ err e
]

-- `groupUninstallEffects`
unfoldable pub group_uninstall_effects : List OwnedAsset → Result (List Group)
group_uninstall_effects assets = group_from [] assets

-- `DefaultUninstallPreview`
pub record UninstallPreview : Type 0 where
  pub installation_id : String
  pub ownership_revision : ℕ
  pub remove : List OwnedAsset
  pub retain : List OwnedAsset
  pub preview_hash : String

module _ (f : Formats) (g : Setting) (does : Answers) where
  -- The `effect` of `runDefaultUninstall`
  abbrev pub detailed_effect : String → Op Removal (Unit {0}) → Detail → Op Removal (Unit {0})
  detailed_effect step action detail =
      effect g step detail action (λ _. false) (λ _. ok (detail ++ ("completed", flag true) ∷ []))

  unfoldable pub all_checked : List OwnedAsset → Op Removal (Unit {0})
  all_checked [] = pure tt
  all_checked (a ∷ rest) = do checked f g does a; all_checked rest

  unfoldable pub all_recorded : List OwnedAsset → Op Removal (Unit {0})
  all_recorded [] = pure tt
  all_recorded (a ∷ rest) = do recorded_removed f g does a; all_recorded rest

  abbrev pub group_detail : OwnedAsset → List OwnedAsset → Detail
  group_detail a rest =
      ("assetId", text a.asset_id)
      ∷ ("groupedAssets", number (length (a ∷ rest)))
      ∷ (
        "kind",
        text (if ltb 1 (length (a ∷ rest)) then "client-integration" else kind_text a.kind),
      )
      ∷ []

  -- The removal of a group, by its first asset
  abbrev pub removed_group : String → List OwnedAsset → Op Removal (Unit {0})
  removed_group step [] = raise (error "Uninstall effect group is empty")
  removed_group step (a ∷ rest) =
      detailed_effect step (removing_asset f g does a) (group_detail a rest)

  unfoldable pub removed_groups : List Group → Op Removal (Unit {0})
  removed_groups [] = pure tt
  removed_groups (group ∷ rest) = do
    unless_aborted g (error "Uninstall stopped at a recoverable asset boundary")
    all_checked group.assets
    removed_group group.step group.assets
    all_recorded group.assets
    removed_groups rest

  unfoldable pub all_retained : List OwnedAsset → Op Removal (Unit {0})
  all_retained [] = pure tt
  all_retained (a ∷ rest) = do
    (if is_present a.disposition
        then recorded f g does a.asset_id AssetDisposition.retained
        else pure tt)
    all_retained rest

  -- The publication of the ownership as it is then
  abbrev pub published : Op Removal (Unit {0})
  published r =
      detailed_effect "uninstall-retained-state"
        (asking (λ _. Event.publishing r.local.ownership)
          (λ n. does.publish_retained n r.local.ownership))
        (("ownershipRevision", number r.local.ownership.record_revision) ∷ []) r

  abbrev pub uninstalled : UninstallPreview → Op Removal Removed
  uninstalled preview r = (
    ok (record {
      removed = r.local.removed;
      retained = map (λ (a : OwnedAsset). a.asset_id) preview.retain;
      ownership = r.local.ownership;
    }),
    r,
  )

  -- `runDefaultUninstall`, from the ownership that the local variables start with
  unfoldable pub run_default_uninstall :
      OwnershipRecord → UninstallPreview → Option String → Op Removal Removed
  run_default_uninstall ownership preview given = do
    lift (confirm_preview preview.preview_hash given)
    lift (
        same_revision ownership preview.installation_id preview.ownership_revision
          "Uninstall ownership changed after preview")
    proved f g does "Uninstall cancelled" preview.remove
    groups ← lift (group_uninstall_effects preview.remove)
    removed_groups groups
    detailed_effect "uninstall-owned-service" (asking (λ _. Event.stopping) does.stop_owned_service)
        (("installationId", text preview.installation_id) ∷ [])
    all_retained preview.retain
    published
    uninstalled preview
