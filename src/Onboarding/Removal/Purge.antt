-- ===== src/Onboarding/Removal/Purge.antt =====
-- src/onboarding/application/purge.ts: what a purge removes and in which order, and the purge.
use skillwire.Base.{
  ℕ, Bool, true, false, List, [], ◌∷◌, Option, none, String, Result, ok, err, error, sort_by, not,
  ◌&&◌,
}
use skillwire.Journal.Entry.{text, flag}
use skillwire.Onboarding.Op.{Op, Setting, pure, lift, ◌>>◌, unless_aborted, effect, confirm_preview}
use skillwire.Ownership.Record.{OwnedAsset, OwnershipRecord, AssetKind, kind_text, same_kind}
use skillwire.Ownership.Ledger.{
  Formats, plan_owned_asset_dispositions, RemovalOperation, DispositionPlan,
}
use skillwire.Onboarding.Removal.{
  Removal, Answers, checked, proved, recorded_removed, removing_asset, same_revision, asset_step,
}

abbrev pub is_path : OwnedAsset → Bool
is_path a = same_kind a.kind AssetKind.path

-- `leftPriority - rightPriority < 0`
abbrev pub goes_before : OwnedAsset → OwnedAsset → Bool
goes_before left right = not (is_path left) && is_path right

abbrev pub purge_order : Result DispositionPlan → Result (List OwnedAsset)
purge_order (ok plan) = ok (sort_by goes_before plan.remove)
purge_order (err e) = err e

-- The assets of `previewPurge`, paths last
unfoldable pub purged_assets : Formats → OwnershipRecord → Result (List OwnedAsset)
purged_assets f ownership =
    purge_order (plan_owned_asset_dispositions f ownership RemovalOperation.purge none)

-- `PurgePreview`
pub record PurgePreview : Type 0 where
  pub installation_id : String
  pub ownership_revision : ℕ
  pub unrecoverable : List OwnedAsset
  pub preview_hash : String

module _ (f : Formats) (g : Setting) (does : Answers) where
  -- The second loop
  unfoldable pub purged : List OwnedAsset → Op Removal (Unit {0})
  purged [] = pure tt
  purged (a ∷ rest) = do
    unless_aborted g (error "Purge stopped at a recoverable asset boundary")
    checked f g does a
    effect g (asset_step "purge-" a)
        (("assetId", text a.asset_id) ∷ ("kind", text (kind_text a.kind)) ∷ [])
        (removing_asset f g does a) (λ _. false)
        (λ _. ok (("assetId", text a.asset_id) ∷ ("removed", flag true) ∷ []))
    recorded_removed f g does a
    purged rest

  abbrev pub removal_of : Op Removal (List String × OwnershipRecord)
  removal_of r = (ok (r.local.removed, r.local.ownership), r)

  -- `runPurge`, from the ownership that the local variables start with
  unfoldable pub run_purge :
      OwnershipRecord → PurgePreview → Option String → Op Removal (List String × OwnershipRecord)
  run_purge ownership preview given = do
    lift (confirm_preview preview.preview_hash given)
    lift (
        same_revision ownership preview.installation_id preview.ownership_revision
          "Purge ownership changed after preview")
    proved f g does "Purge cancelled" preview.unrecoverable
    purged preview.unrecoverable
    removal_of
