-- ===== src/Journal/Effect.antt =====
-- src/onboarding/domain/operation-journal.ts: `runEffect`, an effect between its durable intent and
-- its verification.
--
-- `action`, `verification` and `not_started` are the caller's: what the action returned or threw,
-- what was read back, and `effectNotStarted?.(error) === true`. `aborted` is `signal.aborted` after
-- the intent.
use Prim.Native.String
use skillwire.Base.{String, Bool, true, false, [], ◌∷◌, if◌then◌else◌, Failure, Result}
use skillwire.Journal.Entry.{intent, effect, verify, compensate, Detail, text, flag}
use skillwire.Journal.Append.{World, Exec, append}
use skillwire.Journal.Exec.{pure, raise, lift, catch, ◌>>=◌, ◌>>◌}

abbrev pub not_started_detail : Detail
not_started_detail = ("completion", text "not-started") ∷ ("recoveryRequired", flag false) ∷ []

abbrev pub unproven_detail : Detail
unproven_detail = ("completion", text "unproven") ∷ ("recoveryRequired", flag true) ∷ []

abbrev pub recorded_detail : Detail
recorded_detail = ("completion", text "recorded") ∷ []

abbrev pub cancelled_before : String → Failure
cancelled_before step =
    Failure.effect_not_begun (String.◌++◌ "Operation cancelled before " (String.◌++◌ step " began"))

abbrev pub unproven_completion : String → Failure → Failure
unproven_completion step e =
    Failure.effect_unproven (String.◌++◌ step " may have begun without proven completion") e

pub record Effect (T : Type 0) : Type 0 where
  pub step : String
  pub intent_detail : Detail
  pub aborted : Bool
  pub action : Result T
  pub not_started : Failure → Bool
  pub verification : T → Result Detail

module _ (is_datetime : String → Bool) (world : World) {T : Type 0} (o : Effect T) where
  -- The body of the `try`.
  unfoldable pub attempt : Exec T
  attempt = do
    value ← lift o.action
    append is_datetime world effect o.step recorded_detail
    proof ← lift (o.verification value)
    append is_datetime world verify o.step proof
    pure value

  -- The `catch`.
  unfoldable pub compensated : Failure → Exec T
  compensated e =
      if o.not_started e
      then (do append is_datetime world compensate o.step not_started_detail; raise e)
      else do
        append is_datetime world compensate o.step unproven_detail
        raise (unproven_completion o.step e)

  unfoldable pub run_effect : Exec T
  unfolding attempt compensated
  run_effect = do
    append is_datetime world intent o.step o.intent_detail
    (if o.aborted then raise (cancelled_before o.step) else catch attempt compensated)
