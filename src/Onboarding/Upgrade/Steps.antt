-- ===== src/Onboarding/Upgrade/Steps.antt =====
-- The steps of `runUpgrade` from a known progress to a known progress, and its `try` as a chain of them.
use skillwire.Journal.Entry.{Detail}
use skillwire.Onboarding.Triple.{
  Holds, bind-Holds, assign-Holds, unless-Holds, lift-Holds, effect-Holds, given-Holds, call-Holds,
  pure-Holds, forget-Holds,
}
use skillwire.Onboarding.Upgrade.{Call, Progress, calling, step_effect, unless_cancelled}
use skillwire.Base.{
  ℕ, Bool, false, ◌≡◌, ap, List, ◌∷◌, any, ◌==◌, String, Failure, Result, throw_if, subst, ok,
  throw_if-false, sym,
}
use skillwire.Onboarding.Op.{Op, ◌>>=◌, ◌>>◌, Setting, assign, lift, pure}

-- Which function a call is of.
abbrev call_index : Call → ℕ
call_index Call.verify_target = 0
call_index Call.create_backup = 1
call_index Call.drain_writers = 2
call_index Call.install_application = 3
call_index Call.migrate = 4
call_index Call.verify_live_schema = 5
call_index Call.preactivation_readiness = 6
call_index Call.verify_clients = 7
call_index Call.activate_application = 8
call_index Call.commit_selection = 9
call_index Call.rollback_application = 10
call_index Call.stop_writers = 11

abbrev pub called : Call → List Call → Bool
called c calls = any (λ d. call_index d == call_index c) calls

abbrev pub called_on : Call → Progress → Progress
called_on c s = record s { calls = c ∷ s.calls }

abbrev pub IsAt : Progress → Progress → Type 0
IsAt st s = s ≡ st

-- What holds at a known progress, whatever is thrown there.
abbrev pub Thrown : (Failure → Progress → Type 0) → Progress → Type 0
Thrown E s = (e : Failure) → E e s

module _ (g : Setting) {E : Failure → Progress → Type 0} (st : Progress) (now : Thrown E st) where
  pub unless-IsAt :
      (boundary : String) → Holds (IsAt st) (unless_cancelled g boundary) (λ _. IsAt st) E
  unless-IsAt boundary = unless-Holds g _ (λ s p. p) (λ s p. subst (Thrown E) (sym p) now _)

  -- A step through an effect, with what it answered.
  pub step-IsAt :
      {A : Type 0} (step : String) (c : Call) (answer : Result A) (proof : A → Detail)
      → Thrown E (called_on c st)
      → Holds
          (IsAt st)
          (step_effect g step (calling c answer) proof)
          (λ v s. (answer ≡ ok v) × IsAt (called_on c st) s)
          E
  step-IsAt step c answer proof after =
      forget-Holds (λ _. Thrown E) (λ e s h. h e)
        (effect-Holds g step _ _ _ _ (λ s p. subst (Thrown E) (sym p) now)
          (λ t s p. subst (Thrown E) (sym p.1) after)
          (call-Holds _ answer (λ s p v e. (e, ap (called_on c) p))
            (λ s p e d. subst (Thrown E) (sym (ap (called_on c) p)) after)))

  module _ {B : Type 0} {Q : B → Progress → Type 0} where
    pub then-step :
        {A : Type 0} (step : String) (c : Call) (answer : Result A) (proof : A → Detail)
        {next : A → Op Progress B}
        → Thrown E (called_on c st)
        → ((v : A) → answer ≡ ok v → Holds (IsAt (called_on c st)) (next v) Q E)
        → Holds (IsAt st) (step_effect g step (calling c answer) proof >>= next) Q E
    then-step step c answer proof after rest =
        bind-Holds (λ v s. (answer ≡ ok v) × IsAt (called_on c st) s)
          (step-IsAt step c answer proof after) (λ v. given-Holds (rest v))

    pub then-unless :
        (boundary : String) {next : Op Progress B}
        → Holds (IsAt st) next Q E
        → Holds (IsAt st) (unless_cancelled g boundary >> next) Q E
    then-unless boundary rest = bind-Holds (λ _. IsAt st) (unless-IsAt boundary) (λ _. rest)

    pub then-lift :
        {A : Type 0} (answer : Result A) {next : A → Op Progress B}
        → ((v : A) → answer ≡ ok v → Holds (IsAt st) (next v) Q E)
        → Holds (IsAt st) (lift answer >>= next) Q E
    then-lift answer rest =
        bind-Holds (λ v s. (answer ≡ ok v) × IsAt st s)
          (lift-Holds _ (λ s p v d. (d, p)) (λ s p f d. subst (Thrown E) (sym p) now f))
          (λ v. given-Holds (rest v))

    pub then-check :
        (bad : Bool) (e : Failure) {next : Op Progress B}
        → (bad ≡ false → Holds (IsAt st) next Q E)
        → Holds (IsAt st) (lift (throw_if bad e) >> next) Q E
    then-check bad e rest = then-lift (throw_if bad e) (λ _ d. rest (throw_if-false bad e d))

module _ {E : Failure → Progress → Type 0} {B : Type 0} {Q : B → Progress → Type 0}
    (st : Progress) where
  pub then-assign :
      (f : Progress → Progress) {next : Op Progress B}
      → Holds (IsAt (f st)) next Q E
      → Holds (IsAt st) (assign f >> next) Q E
  then-assign f rest = bind-Holds (λ _. IsAt (f st)) (assign-Holds f (λ s p. ap f p)) (λ _. rest)

  pub then-pure :
      {next : Op Progress B} → Holds (IsAt st) next Q E → Holds (IsAt st) (pure tt >> next) Q E
  then-pure rest = bind-Holds (λ _. IsAt st) (pure-Holds tt (λ s p. p)) (λ _. rest)

  -- Some steps in place of one.
  pub then-to :
      (st' : Progress) {m : Op Progress (Unit {0})} {next : Op Progress B}
      → Holds (IsAt st) m (λ _. IsAt st') E
      → Holds (IsAt st') next Q E
      → Holds (IsAt st) (m >> next) Q E
  then-to st' h rest = bind-Holds (λ _. IsAt st') h (λ _. rest)
