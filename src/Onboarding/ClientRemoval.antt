-- ===== src/Onboarding/ClientRemoval.antt =====
-- src/onboarding/application/client-lifecycle.ts: what an operation may do to a component of a client's
-- integration, and the removal of a client's integration, which does not throw.
mod Admitted
mod Laws
mod Tests
use skillwire.Base.{
  ℕ, ◌+◌, Bool, true, false, List, [], ◌∷◌, ◌++◌, map, any, filter_by, Option, none, some, String,
  Result, ok, err, not, ◌&&◌, ◌===◌, if◌then◌else◌, length, ◌==◌, ◌||◌,
}
use skillwire.Onboarding.Op.{Op, Run, Setting, pure, lift, call, assign, try, ◌>>=◌, ◌>>◌}

-- `ClientComponentClassification`
pub data Classification : Type 0 where
  absent owned_equivalent external_equivalent same_name_conflict ambiguous : Classification
  duplicate shadowed managed drifted_owned : Classification

pub data LifecycleOperation : Type 0 where
  setup repair upgrade uninstall purge : LifecycleOperation

pub data LifecycleAction : Type 0 where
  mutate reuse_external no_op block : LifecycleAction

abbrev is_removal : LifecycleOperation → Bool
is_removal uninstall = true
is_removal purge = true
is_removal _ = false

-- `evaluateClientLifecycleAction`: the action, and whether the component is mutable
unfoldable pub evaluate_client_lifecycle_action :
    LifecycleOperation → Classification → LifecycleAction × Bool
evaluate_client_lifecycle_action operation external_equivalent = (reuse_external, false)
evaluate_client_lifecycle_action operation absent =
    if is_removal operation then (no_op, false) else (mutate, true)
evaluate_client_lifecycle_action operation owned_equivalent = (mutate, true)
evaluate_client_lifecycle_action operation _ = (block, false)

-- `RemovableClientComponent`
pub data Component : Type 0 where
  mcp_entry plugin marketplace credential : Component

abbrev component_index : Component → ℕ
component_index mcp_entry = 0
component_index plugin = 1
component_index marketplace = 2
component_index credential = 3

-- `ClientRemovalObservation`
pub record Observation : Type 0 where
  pub component : Component
  pub classification : Classification
  pub expected_identity_sha256 : Option String
  pub current_identity_sha256 : Option String

pub record RemovalCallbacks : Type 0 where
  pub inspect : Result (List Observation)
  pub remove : Component → Result (Unit {0})
  pub verify_absent : Component → Result Bool

pub data RemovalStatus : Type 0 where
  all_removed unchanged recovery_required : RemovalStatus

-- `ClientRemovalResult`
pub record RemovalResult : Type 0 where
  pub status : RemovalStatus
  pub removed : List Component
  pub retained_external : List Component

-- The removals that were called, in order, and `removed`.
pub record Removing : Type 0 where
  pub called : List Component
  pub removed : List Component

abbrev pub is_owned : Observation → Bool
is_owned o = elim o.classification [ owned_equivalent ↦ true | _ ↦ false ]

abbrev pub is_external : Observation → Bool
is_external o = elim o.classification [ external_equivalent ↦ true | _ ↦ false ]

-- The classifications that do not block the removal.
abbrev pub is_clear : Observation → Bool
is_clear o = elim o.classification [
  | absent ↦ true
  | external_equivalent ↦ true
  | owned_equivalent ↦ true
  | _ ↦ false
]

abbrev same_identity : Option String → Option String → Bool
same_identity (some s) (some t) = s === t
same_identity _ _ = false

-- The identity of an owned component is known and is the expected one.
abbrev pub is_kept : Observation → Bool
is_kept o = same_identity o.expected_identity_sha256 o.current_identity_sha256

abbrev pub owns : List Observation → Component → Bool
owns observations c =
    any (λ (o : Observation). is_owned o && component_index o.component == component_index c)
      observations

abbrev pub order : List Component
order = plugin ∷ marketplace ∷ mcp_entry ∷ credential ∷ []

abbrev pub external_of : List Observation → List Component
external_of observations =
    map (λ (o : Observation). o.component) (filter_by is_external observations)

abbrev pub status_of : Bool → List Component → RemovalStatus
status_of false removed = recovery_required
status_of true [] = unchanged
status_of true (c ∷ cs) = all_removed

module _ (g : Setting) (does : RemovalCallbacks) where
  -- `signal.aborted`
  abbrev pub cancelled : Op Removing Bool
  cancelled r = (ok (g.is_aborted r.asks), record r { asks = r.asks + 1 })

  -- The body of the `try`, and whether it went on.
  abbrev pub removed_one : Component → Op Removing Bool
  removed_one c = do
    call (λ s. record s { called = s.called ++ c ∷ [] }) (does.remove c)
    gone ← lift (does.verify_absent c)
    (if gone
        then (do assign (λ s. record s { removed = s.removed ++ c ∷ [] }); pure true)
        else pure false)

  -- The loop, and whether it came to its end.
  unfoldable pub removed_each : List Observation → List Component → Op Removing Bool
  removed_each observations [] = pure true
  removed_each observations (c ∷ rest) =
      let later = removed_each observations rest in
      if owns observations c
      then (do
        stop ← cancelled
        (if stop then pure false else (do
          went ← try (removed_one c) (λ _. pure false)
          (if went then later else pure false))))
      else later

  abbrev pub finished : List Observation → Bool → Op Removing RemovalResult
  finished observations went r = (
    ok (record {
      status = status_of went r.local.removed;
      removed = r.local.removed;
      retained_external = external_of observations;
    }),
    r,
  )

  -- `uninstallClientLifecycle`
  unfoldable pub uninstall_client_lifecycle : Op Removing RemovalResult
  uninstall_client_lifecycle = do
    observations ← lift does.inspect
    (if any (λ o. not (is_clear o)) observations
          || any (λ o. not (is_kept o)) (filter_by is_owned observations)
        then finished observations false
        else (removed_each observations order >>= finished observations))
