-- ===== src/Journal/RecoverySettles.antt =====
-- That `recoverOperation` settles an operation, where its callbacks and the system answer.
use skillwire.Journal.RecoveryStuck.{is_empty-reverse}
use skillwire.Journal.RecoveryEnds.{IsCommitted}
use skillwire.Base.{
  ◌≡◌, ◌≢◌, ◌⊎◌, inl, inr, refl, ◌∙◌, Bool, true, false, ◌&&◌, ℕ, leb, List, [], ◌∷◌, map, All, all,
  Option, some, none, String, ok, arith, last?, last?-concat, utf16_length, Result, reverse,
  All-reverse, err, subst, sym,
}
use skillwire.Journal.Entry.{
  Entry, Phase, Detail, commit, compensate, entry_schema, field_is, field_schema, scalar_schema,
  same_phase,
}
use skillwire.Journal.Append.{
  World, Journal, durable, append, next_entry, has_verify, commit_operation,
}
use skillwire.Journal.Protocol.{Allowed, IsOpen, IsResumable, IsCompensated}
use skillwire.Journal.Invariant.{Conforms}
use skillwire.Journal.EffectLaws.{push, append-push}
use skillwire.Journal.Recovery.{
  Observation, absent, matching, owned_mismatch, ambiguous, Recovery, clear, recovered_detail,
  status_recovered, survey, settle, extend, recover_operation, reconcile_effect_boundaries,
  is_empty, RecoveryResult, unresolved_effect_boundaries,
}

-- A text that the schema takes for a step.
abbrev pub is_step : String → Bool
is_step s = leb 1 (utf16_length s) && leb (utf16_length s) 128

-- A compensation may follow.
abbrev pub IsLive : Option Entry → Type 0
IsLive last = IsOpen last ⊎ IsResumable last

IsCompensated-IsLive : (last : Option Entry) → IsCompensated last → IsLive last
IsCompensated-IsLive none c = absurd c
IsCompensated-IsLive (some p) c = inl ((λ q. cc (c.0, q)), (λ q. cc (c.0, q)))

-- Every write is durable and stamped, and the callbacks answer: what is found at a step is never
-- ambiguous, a repair succeeds, and nothing is cancelled.
pub record Answers (is_datetime : String → Bool) (world : World) (r : Recovery) : Type 0 where
  pub writes : (n : ℕ) → world.write n ≡ durable
  pub stamps : (n : ℕ) → is_datetime (world.now n) ≡ true
  pub found : String → Observation
  pub observes : (step : String) → r.observe step ≡ ok (found step)
  pub certain : (step : String) → found step ≢ ambiguous
  pub repairs : (step : String) → r.repair step ≡ ok tt
  pub active : r.aborted ≡ false
  pub remains : (step : String) → r.aborted_after step ≡ false

fields-recovered : (o : Observation) → all field_schema (recovered_detail o) ≡ true
unfolding scalar_schema utf16_length
fields-recovered absent = refl
fields-recovered matching = refl
fields-recovered owned_mismatch = refl
fields-recovered ambiguous = refl

proven-recovered : (o : Observation) → field_is (recovered_detail o) "completion" "unproven" ≡ false
unfolding field_is
proven-recovered absent = refl
proven-recovered matching = refl
proven-recovered owned_mismatch = refl
proven-recovered ambiguous = refl

module _ (is_datetime : String → Bool) (world : World) (r : Recovery)
    (a : Answers is_datetime world r) where
  next_entry-Conforms :
      (j : Journal) (phase : Phase) (step : String) (detail : Detail)
      → is_step step ≡ true
      → all field_schema detail ≡ true
      → Conforms is_datetime (next_entry is_datetime world j phase step detail)
  unfolding entry_schema
  next_entry-Conforms j phase step detail s d = ground (arith, a.stamps j.writes)

  append-live :
      (j : Journal) (step : String) (o : Observation)
      → IsLive (last? j.entries)
      → is_step step ≡ true
      → append is_datetime world compensate step (recovered_detail o) j
        ≡ (ok tt, push is_datetime world j compensate step (recovered_detail o))
  append-live j step o live s =
      append-push is_datetime world j compensate step (recovered_detail o) live (
        next_entry-Conforms j compensate step (recovered_detail o) s (fields-recovered o),
        a.writes j.writes,
      )

  -- The second loop returns, and what it leaves may be committed.
  abbrev IsSettled : Journal → List (Entry × Observation) → Type 0
  IsSettled j os =
      (k : Journal) × (settle is_datetime world r os j ≡ (ok tt, k))
      × (k.command ≡ j.command)
      × (IsCompensated (last? k.entries) ⊎ ((os ≡ []) × (k ≡ j)))

  settle_step :
      (j : Journal) (e : Entry) (o : Observation) (os : List (Entry × Observation))
      → IsLive (last? j.entries)
      → is_step e.step ≡ true
      → settle is_datetime world r ((e, o) ∷ os) j
        ≡ settle is_datetime world r os
            (push is_datetime world j compensate e.step (recovered_detail o))
  unfolding settle
  settle_step j e absent os live s = rw (append-live j e.step absent live s) refl
  settle_step j e matching os live s = rw (append-live j e.step matching live s) refl
  settle_step j e ambiguous os live s = rw (append-live j e.step ambiguous live s) refl
  settle_step j e owned_mismatch os live s =
      rw (a.repairs e.step, append-live j e.step owned_mismatch live s) refl

  settled :
      (j : Journal) (os : List (Entry × Observation))
      → IsLive (last? j.entries)
      → All (λ (p : Entry × Observation). is_step p.0.step ≡ true) os
      → IsSettled j os
  unfolding settle
  settled j [] live h = (j, refl, refl, inr (refl, refl))
  settled j ((e, o) ∷ os) live h =
      let next = push is_datetime world j compensate e.step (recovered_detail o) in
      let e' = next_entry is_datetime world j compensate e.step (recovered_detail o) in
      let here : last? next.entries ≡ some e' = last?-concat j.entries e' in
      let proven : IsCompensated (some e') = (refl, proven-recovered o) in
      let (k, done, same, end) =
        settled next os (rw here (IsCompensated-IsLive (some e') proven)) h.1 in
      (
        k,
        settle_step j e o os live h.0 ∙ done,
        same,
        inl (elim end [ inl c ↦ c | inr q ↦ rw (q.1, here) proven ]),
      )

  commit_settled :
      (k : Journal)
      → IsCompensated (last? k.entries)
      → is_step k.command ≡ true
      → commit_operation is_datetime world status_recovered k
        ≡ (ok tt, push is_datetime world k commit k.command status_recovered)
  unfolding commit_operation utf16_length scalar_schema field_is
  commit_settled k c s =
      append-push is_datetime world k commit k.command status_recovered
        (may_commit (last? k.entries) c)
        (next_entry-Conforms k commit k.command status_recovered s refl, a.writes k.writes)
    where
      may_commit :
          (last : Option Entry)
          → IsCompensated last
          → Allowed last (has_verify k.entries) commit k.command status_recovered
      may_commit none m = absurd m
      may_commit (some p) m =
          (((λ q. cc (m.0, q)), (λ q. cc (m.0, q))), (inl (refl, m)), (λ q. absurd (cc q)))

  abbrev observed : List Entry → List (Entry × Observation)
  observed = map (λ e. (e, a.found e.step))

  survey-observed : (es : List Entry) → survey is_datetime world r es ≡ ok (clear (observed es))
  unfolding survey
  survey-observed [] = refl
  survey-observed (e ∷ es) =
      rw (a.observes e.step, a.remains e.step, survey-observed es)
        (extended (a.found e.step) (a.certain e.step))
    where
      extended :
          (o : Observation)
          → o ≢ ambiguous
          → extend e (ok (clear (observed es))) o ≡ ok (clear ((e, o) ∷ observed es))
      extended absent n = refl
      extended matching n = refl
      extended owned_mismatch n = refl
      extended ambiguous n = absurd (n refl)

  observed-ne : (es : List Entry) → is_empty es ≡ false → observed es ≢ []
  observed-ne [] h e = cc h
  observed-ne (x ∷ es) h e = cc e

  observed-steps :
      (es : List Entry)
      → All (λ e. is_step e.step ≡ true) es
      → All (λ (p : Entry × Observation). is_step p.0.step ≡ true) (observed es)
  observed-steps [] h = tt
  observed-steps (e ∷ es) h = (h.0, observed-steps es h.1)

  -- A recovery that changed the journal and left it committed.
  abbrev pub IsRecovered : Result RecoveryResult × Journal → Type 0
  IsRecovered (err e, k) = ⊥
  IsRecovered (ok result, k) = (result.changed ≡ true) × IsCommitted k

  pushed-IsCommitted :
      (k : Journal) → IsCommitted (push is_datetime world k commit k.command status_recovered)
  pushed-IsCommitted k =
      rw (last?-concat k.entries (next_entry is_datetime world k commit k.command status_recovered))
        refl

  reconcile-IsRecovered :
      (j : Journal) (boundaries : List Entry)
      → is_empty boundaries ≡ false
      → IsLive (last? j.entries)
      → All (λ e. is_step e.step ≡ true) boundaries
      → is_step j.command ≡ true
      → IsRecovered (reconcile_effect_boundaries is_datetime world r boundaries j)
  unfolding reconcile_effect_boundaries
  reconcile-IsRecovered j boundaries some_left live steps named =
      let os = observed (reverse boundaries) in
      let (k, done, same, end) = settled j os live (
        observed-steps (reverse boundaries)
          (All-reverse (λ e. is_step e.step ≡ true) boundaries steps)) in
      let ready : IsCompensated (last? k.entries) = elim end [
        | inl c ↦ c
        | inr q ↦
            absurd (observed-ne (reverse boundaries) (is_empty-reverse boundaries some_left) q.0)
      ] in
      rw
        (
          survey-observed (reverse boundaries),
          done,
          commit_settled k ready (subst (λ c. is_step c ≡ true) (sym same) named),
        )
        (refl, pushed-IsCommitted k)

  -- Where every write is durable and the callbacks answer, a recovery returns, reports a change and
  -- leaves the journal committed, if the journal has an unresolved effect, is not committed, may take
  -- a compensation, and the names of its command and of the steps are such as the schema takes.
  pub recover_operation-IsRecovered :
      (j : Journal) (last : Entry)
      → last? j.entries ≡ some last
      → same_phase last.phase commit ≡ false
      → IsLive (some last)
      → is_empty (unresolved_effect_boundaries j.entries) ≡ false
      → All (λ e. is_step e.step ≡ true) (unresolved_effect_boundaries j.entries)
      → is_step j.command ≡ true
      → IsRecovered (recover_operation is_datetime world r j)
  unfolding recover_operation
  recover_operation-IsRecovered j last at_end open_end live some_left steps named =
      rw (a.active, at_end, open_end, some_left)
        (reconcile-IsRecovered j (unresolved_effect_boundaries j.entries) some_left (rw at_end live)
          steps named)
