-- ===== src/Onboarding/Removal.antt =====
-- src/onboarding/application/purge.ts and uninstall.ts: the removal of the assets that an installation
-- owns, each observed with its expected identity first.
--
-- `canonicalPreview`, whose `redactOutput` is not modelled, enters as the preview's hash.
pub mod Purge
pub mod Uninstall
pub mod Proven
pub mod Recorded
pub mod Purged
pub mod Groups
pub mod Grouped
pub mod Retained
pub mod Uninstalled
mod Tests
use skillwire.Ownership.Record.{kind_text}
use Prim.Native.String
use skillwire.Base.{
  ℕ, ◌+◌, Bool, true, false, List, [], ◌∷◌, ◌++◌, Option, none, some, String, Result, ok, err,
  Failure, error, throw_if, length, not, ◌||◌, ◌===◌, ◌==◌,
}
use skillwire.Onboarding.Op.{
  Op, Run, Setting, pure, lift, call, assign, ◌>>=◌, ◌>>◌, unless_aborted,
}
use skillwire.Ownership.Record.{OwnedAsset, OwnershipRecord, AssetDisposition}
use skillwire.Ownership.Ledger.{
  Formats, require_current_owned_asset_identity, record_asset_disposition,
}

-- A call of a function of the caller, with what an observation answered.
pub data Event : Type 0 where
  observed : OwnedAsset → Result String → Event
  removing : OwnedAsset → Event
  stopping : Event
  publishing : OwnershipRecord → Event

-- What the caller's functions answer, by how many calls went before.
pub record Answers : Type 0 where
  pub observe_identity : ℕ → OwnedAsset → Result String
  pub remove_asset : ℕ → OwnedAsset → Result (Unit {0})
  pub stop_owned_service : ℕ → Result (Unit {0})
  pub publish_retained : ℕ → OwnershipRecord → Result (Unit {0})

-- The calls, the latest first, and the variables `ownership` and `removed`.
pub record Removal : Type 0 where
  pub events : List Event
  pub ownership : OwnershipRecord
  pub removed : List String

abbrev pub with_event : Event → Removal → Removal
with_event e s = record s { events = e ∷ s.events }

-- What a removal returns.
pub record Removed : Type 0 where
  pub removed : List String
  pub retained : List String
  pub ownership : OwnershipRecord

-- A call whose answer may depend on the calls before it.
abbrev pub asking : {A : Type 0} → (Result A → Event) → (ℕ → Result A) → Op Removal A
asking event answer r =
    call (with_event (event (answer (length r.local.events)))) (answer (length r.local.events)) r

abbrev pub asset_step : String → OwnedAsset → String
asset_step prefix a =
    String.◌++◌ prefix (String.◌++◌ (kind_text a.kind) (String.◌++◌ "-" a.asset_id))

-- `ownership` is still what the preview was made of.
abbrev pub same_revision : OwnershipRecord → String → ℕ → String → Result (Unit {0})
same_revision o installation revision message =
    throw_if (not (o.installation_id === installation) || not (o.record_revision == revision))
      (error message)

module _ (f : Formats) (g : Setting) (does : Answers) where
  -- `requireCurrentOwnedAssetIdentity(asset, await observeIdentity(asset))`
  unfoldable pub checked : OwnedAsset → Op Removal (Unit {0})
  checked a = do
    current ← asking (observed a) (λ n. does.observe_identity n a)
    lift (require_current_owned_asset_identity f a current)

  -- The first loop: every asset has its identity before any is removed.
  pub proved : String → List OwnedAsset → Op Removal (Unit {0})
  proved cancelled [] = pure tt
  proved cancelled (a ∷ rest) = do
    unless_aborted g (error cancelled)
    checked a
    proved cancelled rest

  unfoldable pub removing_asset : OwnedAsset → Op Removal (Unit {0})
  removing_asset a = asking (λ _. removing a) (λ n. does.remove_asset n a)

  -- `ownership = recordAssetDisposition(ownership, asset.assetId, disposition)`
  unfoldable pub recorded : String → AssetDisposition → Op Removal (Unit {0})
  recorded id disposition r =
      (lift (record_asset_disposition f r.local.ownership id disposition) >>= λ o.
      assign (λ s. record s { ownership = o }))
        r

  unfoldable pub recorded_removed : OwnedAsset → Op Removal (Unit {0})
  unfolding recorded
  recorded_removed a = do
    recorded a.asset_id AssetDisposition.removed
    assign (λ s. record s { removed = s.removed ++ a.asset_id ∷ [] })
