-- ===== src/Journal/Recovery.antt =====
-- src/onboarding/application/recovery.ts: what an interrupted operation left unresolved, and how it is
-- brought to an end.
--
-- `observe` and `repair` (the callback `compensate`) are the caller's and may throw; `aborted` is
-- `signal.aborted` at the start and after the observation of a step.
use skillwire.Base.{◌>>=◌ as bind}
use skillwire.Base.{
  Bool, true, false, List, [], ◌∷◌, String, Option, if◌then◌else◌, last?, map, Result, ltb, some,
  ok, throw_if, error, not, all, none,
}
use skillwire.Base.Dict.{put, discard}
use mathlib.Core.List.{reverse}
use skillwire.Journal.Entry.{
  Phase, intent, effect, verify, compensate, commit, cancel, same_phase, Detail, text, flag, Entry,
  detail_is,
}
use skillwire.Journal.Append.{World, Exec, append, commit_operation}
use skillwire.Journal.Exec.{pure, lift, ◌>>=◌, ◌>>◌}
use skillwire.Journal.Unproven.{is_unproven}

pub data Observation : Type 0 where
  absent matching owned_mismatch ambiguous : Observation

pub data Disposition : Type 0 where
  complete safe_retry resume recovery_required : Disposition

pub record RecoveryResult : Type 0 where
  pub disposition : Disposition
  pub changed : Bool
  pub boundary : Option String

-- The loop of `unresolvedEffectBoundaries`.
unfoldable pub unresolved_boundaries_from :
    List (String × Entry) → List Entry → List (String × Entry)
unresolved_boundaries_from unresolved [] = unresolved
unresolved_boundaries_from unresolved (e ∷ es) =
    unresolved_boundaries_from
      (if same_phase e.phase effect
        then put unresolved e.step e
        else if same_phase e.phase compensate
        then (if is_unproven e then put unresolved e.step e else discard unresolved e.step)
        else if same_phase e.phase commit
        then []
        else unresolved)
      es

-- `sort((left, right) => left.sequence - right.sequence)`
unfoldable pub insert_by_sequence : Entry → List Entry → List Entry
insert_by_sequence e [] = e ∷ []
insert_by_sequence e (x ∷ xs) =
    let rest = insert_by_sequence e xs in if ltb x.sequence e.sequence then x ∷ rest else e ∷ x ∷ xs

unfoldable pub sort_by_sequence : List Entry → List Entry
unfolding insert_by_sequence
sort_by_sequence [] = []
sort_by_sequence (e ∷ es) = insert_by_sequence e (sort_by_sequence es)

unfoldable pub unresolved_effect_boundaries : List Entry → List Entry
unfolding unresolved_boundaries_from sort_by_sequence
unresolved_effect_boundaries entries =
    sort_by_sequence (map (λ p. p.1) (unresolved_boundaries_from [] entries))

abbrev pub is_empty : List Entry → Bool
is_empty [] = true
is_empty (x ∷ xs) = false

abbrev pub needs_recovery : Option Entry → List Entry → Bool
needs_recovery none boundaries = false
needs_recovery (some last) boundaries =
    if same_phase last.phase commit
    then false
    else if not (same_phase last.phase cancel)
    then true
    else if detail_is (some last) "status" "recovery-required"
    then true
    else not (is_empty boundaries)

unfoldable pub journal_needs_recovery : List Entry → Bool
journal_needs_recovery entries =
    needs_recovery (last? entries) (unresolved_effect_boundaries entries)

abbrev pub observation_text : Observation → String
observation_text absent = "absent"
observation_text matching = "matching"
observation_text owned_mismatch = "owned-mismatch"
observation_text ambiguous = "ambiguous"

abbrev pub is_absent : Observation → Bool
is_absent absent = true
is_absent _ = false

-- The detail of the compensation that recovery records.
abbrev pub recovered_detail : Observation → Detail
recovered_detail o =
    ("completion", text (if is_absent o then "not-started" else "recovered"))
    ∷ ("recoveryRequired", flag false)
    ∷ ("observation", text (observation_text o))
    ∷ []

abbrev pub status_recovered : Detail
status_recovered = ("status", text "recovered") ∷ []

-- What the observations of all boundaries say: one is ambiguous, or none is.
pub data Survey : Type 0 where
  unclear : Entry → Survey
  clear : List (Entry × Observation) → Survey

abbrev pub add_observation : Entry → Observation → Survey → Survey
add_observation e o (unclear x) = unclear x
add_observation e o (clear xs) = clear ((e, o) ∷ xs)

abbrev pub extend : Entry → Result Survey → Observation → Result Survey
extend e rest ambiguous = ok (unclear e)
extend e rest o = bind rest (λ s. ok (add_observation e o s))

pub record Recovery : Type 0 where
  pub observe : String → Result Observation
  pub repair : String → Result (Unit {0})
  pub aborted : Bool
  pub aborted_after : String → Bool

abbrev pub require_active : Bool → Result (Unit {0})
require_active aborted = throw_if aborted (error "Recovery cancelled")

abbrev pub outcome : Disposition → Bool → Option String → RecoveryResult
outcome d c b = record { disposition = d; changed = c; boundary = b }

module _ (is_datetime : String → Bool) (world : World) (r : Recovery) where
  -- The first loop of `reconcileEffectBoundaries`, over the boundaries from the last to the first.
  unfoldable pub survey : List Entry → Result Survey
  survey [] = ok (clear [])
  survey (e ∷ es) =
      let rest = survey es in
      bind (r.observe e.step)
        λ o. bind (require_active (r.aborted_after e.step)) λ _. extend e rest o

  abbrev pub repair_if_mismatched : String → Observation → Exec (Unit {0})
  repair_if_mismatched step owned_mismatch = lift (r.repair step)
  repair_if_mismatched step _ = pure tt

  -- The second loop.
  unfoldable pub settle : List (Entry × Observation) → Exec (Unit {0})
  settle [] = pure tt
  settle ((e, o) ∷ rest) = do
    repair_if_mismatched e.step o
    append is_datetime world compensate e.step (recovered_detail o)
    settle rest

  abbrev pub last_step : List Entry → Option String
  last_step boundaries = elim (last? boundaries) [ none ↦ none | some e ↦ some e.step ]

  abbrev pub reconcile_survey : List Entry → Survey → Exec RecoveryResult
  reconcile_survey boundaries (unclear e) = pure (outcome recovery_required false (some e.step))
  reconcile_survey boundaries (clear observations) = do
    settle observations
    commit_operation is_datetime world status_recovered
    pure (
        outcome (if all (λ p. is_absent p.1) observations then safe_retry else resume) true
          (last_step boundaries))

  -- `reconcileEffectBoundaries`
  unfoldable pub reconcile_effect_boundaries : List Entry → Exec RecoveryResult
  unfolding survey settle
  reconcile_effect_boundaries boundaries = do
    found ← lift (survey (reverse boundaries))
    reconcile_survey boundaries found

  abbrev pub recover_intent : String → Observation → Exec RecoveryResult
  recover_intent step ambiguous = pure (outcome recovery_required false (some step))
  recover_intent step matching = do
    append is_datetime world effect step (("completion", text "recovered") ∷ [])
    append is_datetime world verify step (("recovered", flag true) ∷ [])
    commit_operation is_datetime world status_recovered
    pure (outcome resume true (some step))
  recover_intent step o = do
    repair_if_mismatched step o
    append is_datetime world compensate step (recovered_detail o)
    commit_operation is_datetime world status_recovered
    pure (outcome (if is_absent o then safe_retry else resume) true (some step))

  abbrev pub recover_resolved : Phase → Entry → Exec RecoveryResult
  recover_resolved cancel last = pure (
      outcome
        (if detail_is (some last) "status" "recovery-required"
          then recovery_required
          else safe_retry)
        false (some last.step))
  recover_resolved intent last = do
    o ← lift (r.observe last.step)
    lift (require_active (r.aborted_after last.step))
    recover_intent last.step o
  recover_resolved verify last = do
    commit_operation is_datetime world status_recovered
    pure (outcome resume false (some last.step))
  recover_resolved compensate last = do
    commit_operation is_datetime world status_recovered
    pure (outcome resume false (some last.step))
  recover_resolved _ last = pure (outcome safe_retry false none)

  abbrev pub recover_last : Option Entry → List Entry → Exec RecoveryResult
  recover_last none boundaries = pure (outcome safe_retry false none)
  recover_last (some last) boundaries =
      if same_phase last.phase commit
      then pure (outcome complete false (some last.step))
      else if not (is_empty boundaries)
      then reconcile_effect_boundaries boundaries
      else recover_resolved last.phase last

  unfoldable pub recover_operation : Exec RecoveryResult
  unfolding reconcile_effect_boundaries unresolved_effect_boundaries
  recover_operation = do
    lift (require_active r.aborted)
    (λ j. recover_last (last? j.entries) (unresolved_effect_boundaries j.entries) j)
