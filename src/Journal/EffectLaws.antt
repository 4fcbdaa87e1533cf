-- ===== src/Journal/EffectLaws.antt =====
-- What `runEffect` leaves in the journal, for each way in which it ends.
use skillwire.Journal.Exec.{
  ◌>>=◌, ◌>>◌, lift, catch, pure, continue, raise, handle, continue-eq-ok, pure, catch,
}
use skillwire.Base.{
  ◌+◌, String, ◌≡◌, refl, Bool, false, some, [], ◌∷◌, ◌++◌, last?, last?-concat, ok, Failure, err,
  ◌≢◌, if◌then◌else◌, Bool-cases, inl, Result, inr, ap, Result-cases, sym, ◌∙◌, true,
}
use skillwire.Journal.Entry.{Phase, intent, effect, verify, Detail, compensate}
use skillwire.Journal.Append.{
  World, Journal, append, durable, next_entry, store, has_verify, Exec, put_line, json,
}
use skillwire.Journal.Protocol.{Allowed, IsOpen}
use skillwire.Journal.Invariant.{Conforms, append_done, append_iff}
use skillwire.Journal.Effect.{
  Effect, run_effect, recorded_detail, compensated, not_started_detail, unproven_detail,
  unproven_completion, attempt, cancelled_before,
}

module _ (is_datetime : String → Bool) (world : World) where
  -- The journal after one more durable entry.
  abbrev pub push : Journal → Phase → String → Detail → Journal
  push j phase step detail = record j {
    entries = j.entries ++ next_entry is_datetime world j phase step detail ∷ [];
    lines = put_line j.is_ended j.lines (json (next_entry is_datetime world j phase step detail));
    is_ended = true;
    writes = j.writes + 1;
  }

  -- The entry that `push` adds meets the schema, and its write is durable.
  abbrev pub IsWritable : Journal → Phase → String → Detail → Type 0
  IsWritable j phase step detail =
      Conforms is_datetime (next_entry is_datetime world j phase step detail)
      × (world.write j.writes ≡ durable)

  pub append-push :
      (j : Journal) (phase : Phase) (step : String) (detail : Detail)
      → Allowed (last? j.entries) (has_verify j.entries) phase step detail
      → IsWritable j phase step detail
      → append is_datetime world phase step detail j ≡ (ok tt, push j phase step detail)
  unfolding store
  append-push j phase step detail a w = append_done is_datetime world phase step detail j a w.0 w.1

  pub append-eq-ok :
      (j : Journal) (phase : Phase) (step : String) (detail : Detail)
      → (append is_datetime world phase step detail j).0 ≡ ok tt
      → append is_datetime world phase step detail j ≡ (ok tt, push j phase step detail)
  append-eq-ok j phase step detail h =
      let (a, c, d) = (append_iff is_datetime world phase step detail j).0 h in
      append-push j phase step detail a (c, d)

  -- An append after an entry that was just pushed.
  pub append_after :
      (j : Journal) (p : Phase) (s : String) (d : Detail) (phase : Phase) (step : String)
      (detail : Detail)
      → Allowed
          (some (next_entry is_datetime world j p s d))
          (has_verify (push j p s d).entries)
          phase
          step
          detail
      → IsWritable (push j p s d) phase step detail
      → append is_datetime world phase step detail (push j p s d)
        ≡ (ok tt, push (push j p s d) phase step detail)
  append_after j p s d phase step detail a w =
      append-push (push j p s d) phase step detail
        (rw (last?-concat j.entries (next_entry is_datetime world j p s d)) a) w

  module _ {T : Type 0} (o : Effect T) (j : Journal) where
    abbrev pub after_intent : Journal
    after_intent = push j intent o.step o.intent_detail

    abbrev pub after_effect : Journal
    after_effect = push after_intent effect o.step recorded_detail

    -- If the action throws, then with durable writes the journal has gained exactly the intent and a
    -- compensation. Where the caller knows that the effect did not start, the compensation says so and
    -- the error is thrown on; otherwise it is unproven, and the error says that the effect may have
    -- begun.
    pub run_effect_failure :
        (e : Failure)
        → o.aborted ≡ false
        → o.action ≡ err e
        → IsOpen (last? j.entries)
        → IsWritable j intent o.step o.intent_detail
        → IsWritable after_intent compensate o.step not_started_detail
        → IsWritable after_intent compensate o.step unproven_detail
        → run_effect is_datetime world o j ≡ (
            if o.not_started e
            then (err e, push after_intent compensate o.step not_started_detail)
            else (
              err (unproven_completion o.step e),
              push after_intent compensate o.step unproven_detail,
            ))
    unfolding run_effect
    run_effect_failure e live acted free w1 w2 w3 = elim (Bool-cases (o.not_started e)) [
      | inl q ↦ rw (
        append-push j intent o.step o.intent_detail free w1,
        live,
        acted,
        q,
        append_after j intent o.step o.intent_detail compensate o.step not_started_detail
            (inl ((λ p. cc p), (λ p. cc p))) w2,
      )
      | inr q ↦ rw (
        append-push j intent o.step o.intent_detail free w1,
        live,
        acted,
        q,
        append_after j intent o.step o.intent_detail compensate o.step unproven_detail
            (inl ((λ p. cc p), (λ p. cc p))) w3,
      )
    ]

  module _ {T : Type 0} (o : Effect T) (j : Journal) where
    raise-ne-ok :
        (e : Failure) (r : Result (Unit {0}) × Journal) (value : T)
        → (continue (λ _. raise e) r).0 ≢ ok value
    raise-ne-ok e (ok _, k) value h = cc h
    raise-ne-ok e (err _, k) value h = cc h

    compensated-ne-ok :
        (e : Failure) (k : Journal) (value : T) → (compensated is_datetime world o e k).0 ≢ ok value
    unfolding compensated
    compensated-ne-ok e k value h = elim (Bool-cases (o.not_started e)) [
      | inl q ↦
          raise-ne-ok _ (append is_datetime world compensate o.step not_started_detail k) value
            (rw q at h)
      | inr q ↦
          raise-ne-ok _ (append is_datetime world compensate o.step unproven_detail k) value
            (rw q at h)
    ]

    pub handle-eq-ok :
        (r : Result T × Journal) (value : T)
        → (handle (compensated is_datetime world o) r).0 ≡ ok value
        → (r.0 ≡ ok value) × (handle (compensated is_datetime world o) r ≡ r)
    handle-eq-ok (ok v, k) value h = (h, refl)
    handle-eq-ok (err e, k) value h = absurd (compensated-ne-ok e k value h)

    append-then :
        (k : Journal) (phase : Phase) (detail : Detail) (next : Exec T) (value : T)
        → (continue (λ _. next) (append is_datetime world phase o.step detail k)).0 ≡ ok value
        → continue (λ _. next) (append is_datetime world phase o.step detail k)
          ≡ next (push k phase o.step detail)
    append-then k phase detail next value h =
        let (_, e, go) =
          continue-eq-ok (λ _. next) (append is_datetime world phase o.step detail k) h in
        ap (continue (λ _. next)) (append-eq-ok k phase o.step detail (ap (λ r. r.0) e))

    -- What `runEffect` does once the effect is recorded.
    abbrev confirm : T → Exec T
    confirm value = do
      proof ← lift (o.verification value)
      append is_datetime world verify o.step proof
      pure value

    confirm-eq-ok :
        (k : Journal) (v value : T)
        → (confirm v k).0 ≡ ok value
        → (proof : Detail) × (v ≡ value)
          × (o.verification v ≡ ok proof)
          × (confirm v k ≡ (ok value, push k verify o.step proof))
    confirm-eq-ok k v value h = elim (Result-cases (o.verification v)) [
      | inr (e, q) ↦ absurd (cc (rw q at h))
      | inl (proof, q) ↦
          let h' : (continue (λ _. pure v) (append is_datetime world verify o.step proof k)).0
              ≡ ok value =
            rw q at h in
          let went = append-then k verify proof (pure v) value h' in
          let same : v ≡ value = cc (sym (ap (λ r. r.0) went) ∙ h') in
          (proof, same, q, rw q (went ∙ ap (λ x. (ok x, push k verify o.step proof)) same))
    ]

    pub attempt-eq-ok :
        (k : Journal) (value : T)
        → (attempt is_datetime world o k).0 ≡ ok value
        → (proof : Detail) × (o.action ≡ ok value)
          × (o.verification value ≡ ok proof)
          × (attempt is_datetime world o k
              ≡ (ok value, push (push k effect o.step recorded_detail) verify o.step proof))
    unfolding attempt
    attempt-eq-ok k value h = elim (Result-cases o.action) [
      | inr (e, p) ↦ absurd (cc (rw p at h))
      | inl (v, p) ↦
          let h' : (continue (λ _. confirm v)
                (append is_datetime world effect o.step recorded_detail k)).0
              ≡ ok value =
            rw p at h in
          let went = append-then k effect recorded_detail (confirm v) value h' in
          let (proof, same, q, done) =
            confirm-eq-ok (push k effect o.step recorded_detail) v value
              (sym (ap (λ r. r.0) went) ∙ h') in
          (
            proof,
            p ∙ ap (λ x. ok x) same,
            ap o.verification (sym same) ∙ q,
            ap
                  (λ (a : Result T).
                    continue
                      (λ v'. append is_datetime world effect o.step recorded_detail >> confirm v')
                      (a, k))
                  p
                ∙ went
                ∙ done,
          )
    ]

    unless_aborted-eq-ok :
        (aborted : Bool) (k : Journal) (value : T) (m : Exec T)
        → ((if aborted then raise (cancelled_before o.step) else m) k).0 ≡ ok value
        → ((m k).0 ≡ ok value) × ((if aborted then raise (cancelled_before o.step) else m) k ≡ m k)
    unless_aborted-eq-ok true k value m h = absurd (cc h)
    unless_aborted-eq-ok false k value m h = (h, refl)

    -- Whatever the system answers: if `runEffect` returns a value, it is the action's, the
    -- verification had a proof, and the journal has gained exactly the intent, the effect and the
    -- verification.
    pub run_effect_returns :
        (value : T)
        → (run_effect is_datetime world o j).0 ≡ ok value
        → (proof : Detail) × (o.action ≡ ok value)
          × (o.verification value ≡ ok proof)
          × (run_effect is_datetime world o j
              ≡ (ok value, push (after_effect o j) verify o.step proof))
    unfolding run_effect
    run_effect_returns value h =
        let next : Exec T =
          (if o.aborted
            then raise (cancelled_before o.step)
            else catch (attempt is_datetime world o) (compensated is_datetime world o)) in
        let went = append-then j intent o.intent_detail next value h in
        let h' : (next (after_intent o j)).0 ≡ ok value = sym (ap (λ r. r.0) went) ∙ h in
        let k = after_intent o j in
        let m = catch (attempt is_datetime world o) (compensated is_datetime world o) in
        let (h2, ran) = unless_aborted-eq-ok o.aborted k value m h' in
        let (tried, kept) = handle-eq-ok (attempt is_datetime world o k) value h2 in
        let (proof, acted, checked, done) = attempt-eq-ok k value tried in
        (proof, acted, checked, went ∙ ran ∙ kept ∙ done)
