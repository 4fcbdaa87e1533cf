-- ===== src/Onboarding/Op.antt =====
-- An operation of src/onboarding/application/: a function that may throw, with the journal that it may
-- have been given, its local variables and the calls that it made, and what its signal answers.
--
-- What a call outside of the operation answers is the caller's, and an effect through the journal is
-- `runEffect` with an action that is itself such a function.
use skillwire.Base.{
  ℕ, ◌+◌, Bool, false, Option, none, some, String, if◌then◌else◌, Result, ok, err, Failure, error,
  throw_if, is_sha256, not, ◌||◌, ◌===◌,
}
use skillwire.Journal.Entry.{intent, Detail}
use skillwire.Journal.Append.{World, Journal, append}
use skillwire.Journal.Exec.{catch}
use skillwire.Journal.Effect.{Effect, attempt, compensated, cancelled_before}

-- The state of an operation: the signal is asked in order, and `asks` counts how often.
pub record Run (S : Type 0) : Type 0 where
  pub journal : Option Journal
  pub asks : ℕ
  pub local : S

abbrev pub Op : Type 0 → Type 0 → Type 0
Op S A = Run S → Result A × Run S

-- The journal's schema and system, and `signal.aborted` when it is asked for the n-th time.
pub record Setting : Type 0 where
  pub is_datetime : String → Bool
  pub world : World
  pub is_aborted : ℕ → Bool

module _ {S A : Type 0} where
  unfoldable pub pure : A → Op S A
  pure a r = (ok a, r)

  unfoldable pub raise : Failure → Op S A
  raise e r = (err e, r)

  unfoldable pub lift : Result A → Op S A
  lift a r = (a, r)

  -- A call that leaves a trace, and its answer.
  unfoldable pub call : (S → S) → Result A → Op S A
  call trace answer r = (answer, record r { local = trace r.local })

  abbrev pub handled : (Failure → Op S A) → Result A × Run S → Result A × Run S
  handled h (ok a, r) = (ok a, r)
  handled h (err e, r) = h e r

  -- `try { m } catch (e) { h(e) }`
  unfoldable pub try : Op S A → (Failure → Op S A) → Op S A
  try m h r = handled h (m r)

module _ {S A B : Type 0} where
  abbrev pub next_answer : (A → Op S B) → Result A × Run S → Result B × Run S
  next_answer f (ok a, r) = f a r
  next_answer f (err e, r) = (err e, r)

  infixl 5 ◌>>=◌
  unfoldable pub ◌>>=◌ : Op S A → (A → Op S B) → Op S B
  ◌>>=◌ m f r = next_answer f (m r)

infixl 5 ◌>>◌
abbrev pub ◌>>◌ : {S B : Type 0} → Op S (Unit {0}) → Op S B → Op S B
m >> k = m >>= λ _. k

-- An assignment to local variables.
unfoldable pub assign : {S : Type 0} → (S → S) → Op S (Unit {0})
assign f r = (ok tt, record r { local = f r.local })

-- `.catch(() => undefined)`
unfoldable pub ignoring : {S : Type 0} → Op S (Unit {0}) → Op S (Unit {0})
ignoring m = try m (λ e. pure tt)

-- `confirmPreview`, of the preview's hash
unfoldable pub confirm_preview : String → Option String → Result (Unit {0})
confirm_preview hash none = err (error "Exact preview hash confirmation is required")
confirm_preview hash (some given) =
    throw_if (not (is_sha256 given) || not (given === hash))
      (error "Exact preview hash confirmation is required")

module _ (g : Setting) {S : Type 0} where
  -- `if (signal.aborted) throw e`
  unfoldable pub unless_aborted : Failure → Op S (Unit {0})
  unless_aborted e r = (throw_if (g.is_aborted r.asks) e, record r { asks = r.asks + 1 })

  -- `journal?.compensate(…)` and the like, on a journal that was given
  abbrev pub kept : {A : Type 0} → Run S → Result A × Journal → Result A × Run S
  kept r (a, j) = (a, record r { journal = some j })

  module _ {T : Type 0} (step : String) (detail : Detail) (action : Op S T)
      (not_started : Failure → Bool) (verification : T → Result Detail) where
    abbrev pub as_effect : Result T → Effect T
    as_effect answer = record {
      step = step;
      intent_detail = detail;
      aborted = false;
      action = answer;
      not_started = not_started;
      verification = verification;
    }

    -- The end of `runEffect`, after its action.
    abbrev pub closing : Journal → Result T × Run S → Result T × Run S
    closing j (answer, r) = kept r (
        catch (attempt g.is_datetime g.world (as_effect answer))
          (compensated g.is_datetime g.world (as_effect answer)) j)

    -- `runEffect` after its intent.
    abbrev pub begun : Run S → Result (Unit {0}) × Journal → Result T × Run S
    begun r (err e, j) = (err e, record r { journal = some j })
    begun r (ok u, j) =
        if g.is_aborted r.asks
        then (err (cancelled_before step), record r { journal = some j; asks = r.asks + 1 })
        else closing j (action (record r { journal = some j; asks = r.asks + 1 }))

    abbrev pub effect_on : Run S → Option Journal → Result T × Run S
    effect_on r none = action r
    effect_on r (some j) = begun r (append g.is_datetime g.world intent step detail j)

    -- An action, through the journal where one was given.
    unfoldable pub effect : Op S T
    unfolding attempt compensated
    effect r = effect_on r r.journal
