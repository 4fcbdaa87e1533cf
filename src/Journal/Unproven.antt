-- ===== src/Journal/Unproven.antt =====
-- src/onboarding/domain/operation-journal.ts: `hasUnprovenEffect`, `hasIncompleteMutation` and
-- `failure`, and what the two tests decide.
use skillwire.Base.{
  String, ◌≡◌, refl, sym, ◌∙◌, ◌↔◌, Bool, true, not, ◌&&◌, ◌||◌, List, [], ◌∷◌, arith,
  if◌then◌else◌, Boundary, Failure, ◌===◌, includes,
}
use skillwire.Journal.Outstanding.{IsOutstanding, outstanding, outstanding_iff}
use skillwire.Base.Dict.{
  insert, remove, is_inhabited, includes-insert, includes-remove, is_inhabited-includes,
  includes-is_inhabited,
}
use skillwire.Journal.Entry.{effect, compensate, same_phase, field_is, Entry}

abbrev pub is_unproven : Entry → Bool
is_unproven e = field_is e.detail "completion" "unproven"

-- The loop of `hasUnprovenEffect`.
unfoldable pub unproven_from : List String → List Entry → List String
unproven_from unproven [] = unproven
unproven_from unproven (e ∷ es) =
    unproven_from
      (if not (same_phase e.phase compensate)
        then unproven
        else if is_unproven e
        then insert unproven e.step
        else remove unproven e.step)
      es

unfoldable pub has_unproven_effect : List Entry → Bool
has_unproven_effect entries = is_inhabited (unproven_from [] entries)

-- The loop of `hasIncompleteMutation`.
unfoldable pub unresolved_from : List String → List Entry → List String
unresolved_from unresolved [] = unresolved
unresolved_from unresolved (e ∷ es) =
    let begun = (if same_phase e.phase effect then insert unresolved e.step else unresolved) in
    unresolved_from
      (if not (same_phase e.phase compensate)
        then begun
        else if is_unproven e
        then insert begun e.step
        else remove begun e.step)
      es

unfoldable pub has_incomplete_mutation : List Entry → Bool
has_incomplete_mutation entries = is_inhabited (unresolved_from [] entries)

-- The rollback boundary that `failure` names for a command.
unfoldable pub failure_boundary : String → Boundary
failure_boundary command =
    if command === "clients-uninstall" || command === "clients-rotate-key"
    then Boundary.client_only
    else if command === "purge"
    then Boundary.unrecoverable
    else Boundary.application_config

abbrev wrap : (Failure → String) → String → Failure → Failure
wrap message command (Failure.operation_failure m b c) = Failure.operation_failure m b c
wrap message command e = Failure.operation_failure (message e) (failure_boundary command) e

-- `failure`; `message` is `Error.message`.
unfoldable pub failure : (Failure → String) → String → List Entry → Failure → Failure
failure message command entries e =
    if not (has_incomplete_mutation entries) then e else wrap message command e

abbrev pub unproven_marks : Entry → Bool
unproven_marks e = same_phase e.phase compensate && is_unproven e

abbrev pub proven_marks : Entry → Bool
proven_marks e = same_phase e.phase compensate && not (is_unproven e)

includes-unproven_from :
    (set : List String) (step : String) (es : List Entry)
    → includes (unproven_from set es) step
      ≡ outstanding unproven_marks proven_marks step (includes set step) es
unfolding unproven_from
includes-unproven_from set step [] = refl
includes-unproven_from set step (e ∷ es) = ground (
  arith,
  includes-unproven_from
      (if not (same_phase e.phase compensate)
        then set
        else if is_unproven e
        then insert set e.step
        else remove set e.step)
      step es,
  includes-insert set e.step step,
  includes-remove set e.step step,
)

-- `hasUnprovenEffect` holds exactly when some step has a compensation that proved nothing, and no
-- later compensation of the step proved its completion.
pub has_unproven_effect_iff :
    (es : List Entry)
    → (has_unproven_effect es ≡ true)
      ↔ ((step : String) × IsOutstanding unproven_marks proven_marks step es)
unfolding has_unproven_effect
has_unproven_effect_iff es = (
  λ h.
      let (step, m) = is_inhabited-includes (unproven_from [] es) h in
      (
        step,
        (outstanding_iff unproven_marks proven_marks step es).0
            (sym (includes-unproven_from [] step es) ∙ m),
      ),
  λ (step, o). includes-is_inhabited (unproven_from [] es) step (
      includes-unproven_from [] step es
      ∙ (outstanding_iff unproven_marks proven_marks step es).1 o),
)
