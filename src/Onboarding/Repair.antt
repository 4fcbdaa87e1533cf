-- ===== src/Onboarding/Repair.antt =====
-- src/onboarding/application/repair.ts: which assets a repair touches, and the repair.
--
-- `canonicalPreview` enters as the plan's hash. The function `rotate` that a repair is given is not
-- called.
pub mod Laws
mod Tests
use skillwire.Base.{
  ℕ, ◌+◌, Bool, true, false, List, [], ◌∷◌, ◌++◌, Option, none, some, String, Result, ok, err,
  error, filter_by, not, ◌||◌, ◌&&◌, ◌===◌, if◌then◌else◌,
}
use skillwire.Installation.Status.{Client}
use skillwire.Onboarding.Op.{
  Op, Run, Setting, pure, lift, call, assign, ◌>>=◌, ◌>>◌, unless_aborted, confirm_preview,
}

pub data RepairObservation : Type 0 where
  matching missing outdated drifted ambiguous external : RepairObservation

abbrev pub is_missing : RepairObservation → Bool
is_missing missing = true
is_missing _ = false

abbrev pub is_outdated : RepairObservation → Bool
is_outdated outdated = true
is_outdated _ = false

abbrev pub is_drifted : RepairObservation → Bool
is_drifted drifted = true
is_drifted _ = false

-- `ownership_proven` is `ownershipProven === true`
pub record RepairAsset : Type 0 where
  pub asset_id : String
  pub kind : String
  pub client : Option Client
  pub locator : String
  pub expected_identity_sha256 : String
  pub observation : RepairObservation
  pub ownership_proven : Bool

pub data BlockCode : Type 0 where
  external_integration_not_owned owned_asset_drifted owned_asset_ambiguous : BlockCode
  secret_rotation_requires_explicit_command : BlockCode

pub record RepairBlock : Type 0 where
  pub code : BlockCode
  pub asset_id : String

pub record RepairPlan : Type 0 where
  pub installation_id : String
  pub actions : List RepairAsset
  pub blocked : List RepairBlock
  pub preview_hash : String

abbrev pub block : BlockCode → RepairAsset → Option RepairBlock
block code a = some (record { code = code; asset_id = a.asset_id })

abbrev pub block_by : RepairObservation → RepairAsset → Option RepairBlock
block_by external a = block external_integration_not_owned a
block_by drifted a = if a.ownership_proven then none else block owned_asset_drifted a
block_by ambiguous a = block owned_asset_ambiguous a
block_by _ a = none

-- `blockFor`
unfoldable pub block_for : RepairAsset → Option RepairBlock
block_for a =
    if a.kind === "credential" || a.kind === "service-secret"
    then block secret_rotation_requires_explicit_command a
    else block_by a.observation a

abbrev pub is_unblocked : Option RepairBlock → Bool
is_unblocked none = true
is_unblocked (some b) = false

abbrev pub given_blocks : Option RepairBlock → List RepairBlock → List RepairBlock
given_blocks none rest = rest
given_blocks (some b) rest = b ∷ rest

abbrev pub blocks_of : List RepairAsset → List RepairBlock
blocks_of [] = []
blocks_of (a ∷ rest) = given_blocks (block_for a) (blocks_of rest)

abbrev pub is_action : RepairAsset → Bool
is_action a =
    is_unblocked (block_for a)
    && (is_missing a.observation
        || is_outdated a.observation
        || (is_drifted a.observation && a.ownership_proven))

-- `planRepair`, with the hash of its scope
unfoldable pub plan_repair : String → List RepairAsset → String → RepairPlan
plan_repair installation_id assets hash = record {
  installation_id = installation_id;
  actions = filter_by is_action assets;
  blocked = blocks_of assets;
  preview_hash = hash;
}

-- What `observe` answers.
pub record Observed : Type 0 where
  pub observation : RepairObservation
  pub identity_sha256 : String
  pub ownership_proven : Bool

pub record RepairCallbacks : Type 0 where
  pub observe : RepairAsset → Result Observed
  pub repair : RepairAsset → Result (Unit {0})

-- The calls of `repair`, in order, and `changedAssets`.
pub record Repairs : Type 0 where
  pub repaired : List RepairAsset
  pub changed_assets : List String

abbrev pub is_repairable_drift : RepairAsset → Observed → Bool
is_repairable_drift a current =
    is_drifted a.observation
    && a.ownership_proven
    && is_drifted current.observation
    && current.ownership_proven

-- The condition of the `continue`
unfoldable pub is_skipped : RepairAsset → Observed → Bool
is_skipped a current =
    (not (is_repairable_drift a current)
      && not (current.identity_sha256 === a.expected_identity_sha256))
    || (not (is_missing current.observation)
        && not (is_outdated current.observation)
        && not (is_repairable_drift a current))

module _ (g : Setting) (does : RepairCallbacks) where
  abbrev pub repaired_one : RepairAsset → Op Repairs (Unit {0})
  repaired_one a = do
    call (λ s. record s { repaired = s.repaired ++ a ∷ [] }) (does.repair a)
    assign (λ s. record s { changed_assets = s.changed_assets ++ a.asset_id ∷ [] })

  unfoldable pub repaired_all : List RepairAsset → Op Repairs (Unit {0})
  repaired_all [] = pure tt
  repaired_all (a ∷ rest) = do
    unless_aborted g (error "Repair cancelled")
    current ← lift (does.observe a)
    (if is_skipped a current then pure tt else repaired_one a)
    repaired_all rest

  -- `runRepair`
  unfoldable pub run_repair : RepairPlan → Option String → Op Repairs (List String)
  run_repair plan given = do
    lift (confirm_preview plan.preview_hash given)
    repaired_all plan.actions
    λ r. (ok r.local.changed_assets, r)
