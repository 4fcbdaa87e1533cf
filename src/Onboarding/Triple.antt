-- ===== src/Onboarding/Triple.antt =====
-- What holds after an operation: triples on its local variables, and a rule for each way to build one.
use skillwire.Journal.EffectLaws.{handle-eq-ok, attempt-eq-ok}
use skillwire.Journal.Effect.{attempt, compensated}
use skillwire.Journal.Exec.{catch}
use skillwire.Base.{
  Bool, true, false, Option, none, some, String, Result, ok, err, Failure, ◌≡◌, refl, if◌then◌else◌,
  Bool-cases, inl, inr, subst, sym, throw_if, ◌+◌, ok-injective,
}
use skillwire.Journal.Entry.{Detail}
use skillwire.Journal.Append.{Journal}
use skillwire.Onboarding.Op.{
  Run, Op, Setting, pure, raise, lift, call, assign, try, handled, next_answer, ◌>>=◌, effect,
  unless_aborted, ignoring, kept, begun, effect_on, closing, as_effect,
}

module _ {S A : Type 0} (Q : A → S → Type 0) (E : Failure → S → Type 0) where
  -- The postcondition of what an operation ended with.
  abbrev pub Post : Result A × Run S → Type 0
  Post (ok a, r) = Q a r.local
  Post (err e, r) = E e r.local

-- Run where `P` holds, the operation returns to `Q` or throws to `E`.
pub record Holds {S A : Type 0} (P : S → Type 0) (m : Op S A) (Q : A → S → Type 0)
    (E : Failure → S → Type 0) : Type 0 where
  pub run : (r : Run S) → P r.local → Post Q E (m r)

module _ {S A : Type 0} where
  pure-eq : (a : A) (r : Run S) → pure a r ≡ (ok a, r)
  unfolding pure
  pure-eq a r = refl

  raise-eq : (e : Failure) (r : Run S) → raise {A = A} e r ≡ (err e, r)
  unfolding raise
  raise-eq e r = refl

  lift-eq : (a : Result A) (r : Run S) → lift a r ≡ (a, r)
  unfolding lift
  lift-eq a r = refl

  call-eq :
      (trace : S → S) (a : Result A) (r : Run S)
      → call trace a r ≡ (a, record r { local = trace r.local })
  unfolding call
  call-eq trace a r = refl

  bind-eq :
      {B : Type 0} (m : Op S A) (f : A → Op S B) (r : Run S) → (m >>= f) r ≡ next_answer f (m r)
  unfolding ◌>>=◌
  bind-eq m f r = refl

  try-eq : (m : Op S A) (h : Failure → Op S A) (r : Run S) → try m h r ≡ handled h (m r)
  unfolding try
  try-eq m h r = refl

  answer-Post :
      (Q : A → S → Type 0) (E : Failure → S → Type 0) (s : S) (a : Result A) (r : Run S)
      → r.local ≡ s
      → ((v : A) → a ≡ ok v → Q v s)
      → ((e : Failure) → a ≡ err e → E e s)
      → Post Q E (a, r)
  answer-Post Q E s (ok v) r e h k = subst (Q v) (sym e) (h v refl)
  answer-Post Q E s (err f) r e h k = subst (E f) (sym e) (k f refl)

  returned-Post :
      (Q : A → S → Type 0) (E : Failure → S → Type 0) (out : Result A × Run S) {v : A}
      → out.0 ≡ ok v
      → Post Q E out
      → Q v out.1.local
  returned-Post Q E (ok a, r) h p = subst (λ x. Q x r.local) (ok-injective h) p
  returned-Post Q E (err e, r) h p = absurd (cc h)

  thrown-Post :
      (Q : A → S → Type 0) (E : Failure → S → Type 0) (out : Result A × Run S) {e : Failure}
      → out.0 ≡ err e
      → Post Q E out
      → E e out.1.local
  thrown-Post Q E (ok a, r) h p = absurd (cc h)
  thrown-Post Q E (err e, r) h p = subst (λ x. E x r.local) (cc h) p

  forget-Post :
      (Q : A → S → Type 0) (E E' : Failure → S → Type 0) (out : Result A × Run S)
      → ((e : Failure) (s : S) → E' e s → E e s)
      → Post Q E' out
      → Post Q E out
  forget-Post Q E E' (ok a, r) h p = p
  forget-Post Q E E' (err e, r) h p = h e r.local p

  ensure-Post :
      (Q Q' : A → S → Type 0) (E : Failure → S → Type 0) (out : Result A × Run S)
      → ((v : A) (s : S) → Q' v s → Q v s)
      → Post Q' E out
      → Post Q E out
  ensure-Post Q Q' E (ok a, r) h p = h a r.local p
  ensure-Post Q Q' E (err e, r) h p = p

  handled-Post :
      (Q : A → S → Type 0) (E E' : Failure → S → Type 0) (h : Failure → Op S A)
      (out : Result A × Run S)
      → Post Q E' out
      → ((e : Failure) → Holds (E' e) (h e) Q E)
      → Post Q E (handled h out)
  handled-Post Q E E' h (ok a, r) p k = p
  handled-Post Q E E' h (err e, r) p k = (k e).run r p

  next-Post :
      {B : Type 0} (Q : B → S → Type 0) (E : Failure → S → Type 0) (R : A → S → Type 0)
      (f : A → Op S B) (out : Result A × Run S)
      → Post R E out
      → ((a : A) → Holds (R a) (f a) Q E)
      → Post Q E (next_answer f out)
  next-Post Q E R f (ok a, r) p k = (k a).run r p
  next-Post Q E R f (err e, r) p k = p

module _ {S A : Type 0} {E : Failure → S → Type 0} {P : S → Type 0} {Q : A → S → Type 0} where
  pub pure-Holds : (a : A) → ((s : S) → P s → Q a s) → Holds P (pure a) Q E
  pure-Holds a h = record { run = λ r p. subst (Post Q E) (sym (pure-eq a r)) (h r.local p) }

  pub raise-Holds : (e : Failure) → ((s : S) → P s → E e s) → Holds P (raise e) Q E
  raise-Holds e h = record { run = λ r p. subst (Post Q E) (sym (raise-eq e r)) (h r.local p) }

  pub call-Holds :
      (trace : S → S) (a : Result A)
      → ((s : S) → P s → (v : A) → a ≡ ok v → Q v (trace s))
      → ((s : S) → P s → (e : Failure) → a ≡ err e → E e (trace s))
      → Holds P (call trace a) Q E
  call-Holds trace a h k = record {
    run = λ r p. subst (Post Q E) (sym (call-eq trace a r)) (
        answer-Post Q E (trace r.local) a (record r { local = trace r.local }) refl (h r.local p)
          (k r.local p));
  }

  pub lift-Holds :
      (a : Result A)
      → ((s : S) → P s → (v : A) → a ≡ ok v → Q v s)
      → ((s : S) → P s → (e : Failure) → a ≡ err e → E e s)
      → Holds P (lift a) Q E
  lift-Holds a h k = record {
    run = λ r p.
        subst (Post Q E) (sym (lift-eq a r))
          (answer-Post Q E r.local a r refl (h r.local p) (k r.local p));
  }

  pub weaken-Holds :
      {m : Op S A} (P' : S → Type 0) → ((s : S) → P s → P' s) → Holds P' m Q E → Holds P m Q E
  weaken-Holds P' h m = record { run = λ r p. m.run r (h r.local p) }

  -- A fact that holds whatever the local variables are.
  pub given-Holds : {X : Type 0} {m : Op S A} → (X → Holds P m Q E) → Holds (λ s. X × P s) m Q E
  given-Holds h = record { run = λ r p. (h p.0).run r p.1 }

  pub returned :
      {m : Op S A}
      → Holds P m Q E
      → (r : Run S) → P r.local
      → {v : A} → (m r).0 ≡ ok v
      → Q v (m r).1.local
  returned {m = m} h r p e = returned-Post Q E (m r) e (h.run r p)

  pub thrown :
      {m : Op S A}
      → Holds P m Q E
      → (r : Run S) → P r.local
      → {e : Failure} → (m r).0 ≡ err e
      → E e (m r).1.local
  thrown {m = m} h r p e = thrown-Post Q E (m r) e (h.run r p)

  -- An operation that looks at the local variables first.
  pub reading-Holds :
      (f : S → Op S A)
      → ((s : S) → P s → Holds (λ t. t ≡ s) (f s) Q E)
      → Holds P (λ r. f r.local r) Q E
  reading-Holds f h = record { run = λ r p. (h r.local p).run r refl }

  -- What a return establishes may be said of less.
  pub ensure-Holds :
      {m : Op S A} (Q' : A → S → Type 0)
      → ((v : A) (s : S) → Q' v s → Q v s)
      → Holds P m Q' E
      → Holds P m Q E
  ensure-Holds Q' h m = record { run = λ r p. ensure-Post Q Q' E _ h (m.run r p) }

  -- What a throw leaves may be said of less.
  pub forget-Holds :
      {m : Op S A} (E' : Failure → S → Type 0)
      → ((e : Failure) (s : S) → E' e s → E e s)
      → Holds P m Q E'
      → Holds P m Q E
  forget-Holds E' h m = record { run = λ r p. forget-Post Q E E' _ h (m.run r p) }

  pub if-Holds :
      {b : Bool} {m k : Op S A}
      → (b ≡ true → Holds P m Q E)
      → (b ≡ false → Holds P k Q E)
      → Holds P (if b then m else k) Q E
  if-Holds {b = b} h k = elim (Bool-cases b) [ inl q ↦ rw q (h q) | inr q ↦ rw q (k q) ]

  -- One operation after another.
  pub bind-Holds :
      {B : Type 0} {m : Op S B} {f : B → Op S A} (R : B → S → Type 0)
      → Holds P m R E
      → ((b : B) → Holds (R b) (f b) Q E)
      → Holds P (m >>= f) Q E
  bind-Holds {m = m} {f = f} R h k = record {
    run = λ r p. subst (Post Q E) (sym (bind-eq m f r)) (next-Post Q E R f (m r) (h.run r p) k);
  }

  pub try-Holds :
      {m : Op S A} {h : Failure → Op S A} (E' : Failure → S → Type 0)
      → Holds P m Q E'
      → ((e : Failure) → Holds (E' e) (h e) Q E)
      → Holds P (try m h) Q E
  try-Holds {m = m} {h = h} E' k l = record {
    run = λ r p. subst (Post Q E) (sym (try-eq m h r)) (handled-Post Q E E' h (m r) (k.run r p) l);
  }

throw_if-err : (b : Bool) (e : Failure) {f : Failure} → throw_if b e ≡ err f → e ≡ f
throw_if-err true e h = cc h
throw_if-err false e h = cc h

module _ {S : Type 0} where
  assign-eq : (f : S → S) (r : Run S) → assign f r ≡ (ok tt, record r { local = f r.local })
  unfolding assign
  assign-eq f r = refl

  unless-eq :
      (g : Setting) (e : Failure) (r : Run S)
      → unless_aborted g e r ≡ (throw_if (g.is_aborted r.asks) e, record r { asks = r.asks + 1 })
  unfolding unless_aborted
  unless-eq g e r = refl

module _ {S : Type 0} {E : Failure → S → Type 0} {P : S → Type 0} {Q : Unit {0} → S → Type 0} where
  pub assign-Holds : (f : S → S) → ((s : S) → P s → Q tt (f s)) → Holds P (assign f) Q E
  assign-Holds f h = record { run = λ r p. subst (Post Q E) (sym (assign-eq f r)) (h r.local p) }

  pub ignoring-Holds :
      {m : Op S (Unit {0})} (E' : Failure → S → Type 0)
      → Holds P m Q E'
      → ((e : Failure) (s : S) → E' e s → Q tt s)
      → Holds P (ignoring m) Q E
  unfolding ignoring
  ignoring-Holds E' k l = try-Holds E' k (λ e. pure-Holds tt (l e))

  pub unless-Holds :
      (g : Setting) (e : Failure)
      → ((s : S) → P s → Q tt s)
      → ((s : S) → P s → E e s)
      → Holds P (unless_aborted g e) Q E
  unless-Holds g e h k = record {
    run = λ r p. subst (Post Q E) (sym (unless-eq g e r)) (
        answer-Post Q E r.local (throw_if (g.is_aborted r.asks) e) (record r { asks = r.asks + 1 })
          refl (λ v d. h r.local p)
          (λ f d. subst (λ x. E x r.local) (throw_if-err (g.is_aborted r.asks) e d) (k r.local p)));
  }

module _ (g : Setting) {S T : Type 0} (step : String) (detail : Detail) (action : Op S T)
    (not_started : Failure → Bool) (verification : T → Result Detail) where
  effect-eq :
      (r : Run S)
      → effect g step detail action not_started verification r
        ≡ effect_on g step detail action not_started verification r r.journal
  unfolding effect
  effect-eq r = refl

  -- An effect that returned has the value of its action.
  closing-eq-ok :
      (answer : Result T) (j : Journal) (v : T)
      → (catch
          (attempt g.is_datetime g.world
            (as_effect g step detail action not_started verification answer))
          (compensated g.is_datetime g.world
            (as_effect g step detail action not_started verification answer))
          j).0
        ≡ ok v
      → answer ≡ ok v
  closing-eq-ok answer j v h =
      let o = as_effect g step detail action not_started verification answer in
      let (h', _) =
        handle-eq-ok g.is_datetime g.world o j (attempt g.is_datetime g.world o j) v h in
      (attempt-eq-ok g.is_datetime g.world o j j v h').1

  -- An effect does to the local variables what its action does, where it comes to it; and may throw
  -- before and after it.
  module _ {P E : S → Type 0} {Q : T → S → Type 0} (before : (s : S) → P s → E s)
      (after : (t : T) (s : S) → Q t s → E s) where
    kept-Post :
        (r : Run S) (a : Result T × Journal)
        → ((v : T) → a.0 ≡ ok v → Q v r.local)
        → E r.local
        → Post Q (λ _. E) (kept g r a)
    kept-Post r (ok v, j) h k = h v refl
    kept-Post r (err e, j) h k = k

    Post-E : (out : Result T × Run S) → Post Q (λ _. E) out → E out.1.local
    Post-E (ok v, r) h = after v r.local h
    Post-E (err e, r) h = h

    closing-Post :
        (j : Journal) (out : Result T × Run S)
        → Post Q (λ _. E) out
        → Post Q (λ _. E) (closing g step detail action not_started verification j out)
    closing-Post j (answer, r) h =
        kept-Post r _ (λ v d. subst (λ a. Post Q (λ _. E) (a, r)) (closing-eq-ok answer j v d) h)
          (Post-E (answer, r) h)

    begun-Post :
        (r : Run S) (out : Result (Unit {0}) × Journal)
        → P r.local
        → Holds P action Q (λ _. E)
        → Post Q (λ _. E) (begun g step detail action not_started verification r out)
    begun-Post r (err e, j) p h = before r.local p
    begun-Post r (ok u, j) p h = elim (Bool-cases (g.is_aborted r.asks)) [
      | inl q ↦ rw q (before r.local p)
      | inr q ↦ rw q (closing-Post j _ (h.run (record r { journal = some j; asks = r.asks + 1 }) p))
    ]

    effect_on-Post :
        (r : Run S) (journal : Option Journal)
        → P r.local
        → Holds P action Q (λ _. E)
        → Post Q (λ _. E) (effect_on g step detail action not_started verification r journal)
    effect_on-Post r none p h = h.run r p
    effect_on-Post r (some j) p h = begun-Post r _ p h

    pub effect-Holds :
        Holds P action Q (λ _. E)
        → Holds P (effect g step detail action not_started verification) Q (λ _. E)
    effect-Holds h = record {
      run = λ r p. subst (Post Q (λ _. E)) (sym (effect-eq r)) (effect_on-Post r r.journal p h);
    }
