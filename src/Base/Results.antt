-- ===== src/Base/Results.antt =====
-- What a call returns or throws.
use Prim.Native.String.{String}
use mathlib.Core.Path.{◌≡◌, refl, ap}
use mathlib.Core.Logic.{◌⊎◌, inl, inr}
use mathlib.Core.Bool.{Bool, true, false}
use mathlib.Core.Option.{Option}

-- What an operation's rollback may still undo (`rollbackBoundary`).
pub data Boundary : Type 0 where
  automatic client_only application_config database_restore_required unrecoverable : Boundary

-- `SkillWireErrorCode`
pub data ErrorCode : Type 0 where
  unauthenticated invalid_argument not_found revision_unavailable resource_rejected : ErrorCode
  memory_conflict erasure_incomplete rate_limited internal : ErrorCode

-- The errors that the code throws or passes on.
--   error                `new Error(message)`
--   invalid              the `ZodError` of a schema's `parse`, whose message the schema library writes
--   system               an error of the operating system, with its code
--   effect_not_begun     `JournaledEffectError`, `effectMayHaveBegun` false
--   effect_unproven      `JournaledEffectError`, `effectMayHaveBegun` true, with its cause
--   coded                `SkillWireError`, with its code
--   recovery             `UpgradeRecoveryError`, with its boundary, backup, data loss and cause
--   operation_failure    `JournaledOperationFailure`, with its boundary and cause
pub data Failure : Type 0 where
  error : String → Failure
  invalid : Failure
  system : String → Failure
  effect_not_begun : String → Failure
  effect_unproven : String → Failure → Failure
  coded : ErrorCode → Failure
  recovery : String → Boundary → Option String → String → Failure → Failure
  operation_failure : String → Boundary → Failure → Failure

pub data Result {ℓ} (A : Type ℓ) : Type ℓ where
  err : Failure → Result A
  ok : A → Result A

module _ {ℓ κ} {A : Type ℓ} {B : Type κ} where
  infixl 5 ◌>>=◌
  -- A throw ends the calls.
  abbrev pub ◌>>=◌ : Result A → (A → Result B) → Result B
  err thrown >>= next = err thrown
  ok value >>= next = next value

  -- Calls in order that return went through the first.
  pub >>=-eq-ok :
      (first : Result A) (next : A → Result B) {last : B}
      → (first >>= next) ≡ ok last
      → (value : A) × (first ≡ ok value) × (next value ≡ ok last)
  >>=-eq-ok (err thrown) next h = cc
  >>=-eq-ok (ok value) next h = (value, refl, h)

infixl 5 ◌>>◌
abbrev pub ◌>>◌ {ℓ} : {B : Type ℓ} → Result (Unit {0}) → Result B → Result B
check >> rest = check >>= (λ _. rest)

-- `if (bad) throw e`
abbrev pub throw_if : Bool → Failure → Result (Unit {0})
throw_if true e = err e
throw_if false e = ok tt

abbrev pub throw {ℓ} : {A : Type ℓ} → String → Result A
throw message = err (error message)

pub Result-cases {ℓ} :
    {A : Type ℓ} (r : Result A) → ((a : A) × (r ≡ ok a)) ⊎ ((e : Failure) × (r ≡ err e))
Result-cases (ok a) = inl (a, refl)
Result-cases (err e) = inr (e, refl)

-- A check that passed.
pub throw_if-false : (b : Bool) (e : Failure) {u : Unit {0}} → throw_if b e ≡ ok u → b ≡ false
throw_if-false true e h = cc h
throw_if-false false e h = refl

abbrev value_or {ℓ} : {A : Type ℓ} → A → Result A → A
value_or x (ok y) = y
value_or x (err e) = x

pub ok-injective {ℓ} : {A : Type ℓ} {a b : A} → ok a ≡ ok b → a ≡ b
ok-injective {a = a} h = ap (value_or a) h

-- `try { … } catch { throw new SkillWireError(code) }`
abbrev pub caught_as {ℓ} : {A : Type ℓ} → ErrorCode → Result A → Result A
caught_as code (ok a) = ok a
caught_as code (err e) = err (coded code)

pub caught_as-ok {ℓ} :
    {A : Type ℓ} (code : ErrorCode) (r : Result A) {a : A} → caught_as code r ≡ ok a → r ≡ ok a
caught_as-ok code (ok b) h = h
caught_as-ok code (err e) h = cc h
