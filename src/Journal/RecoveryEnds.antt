-- ===== src/Journal/RecoveryEnds.antt =====
-- How `recoverOperation` ends: with a committed journal, or with the journal as it was.
use skillwire.Base.{
  Bool, true, false, ◌≡◌, List, [], ◌∷◌, last?, if◌then◌else◌, Result, String, ok, Option, inr, err,
  refl, last?-concat, ◌⊎◌, inl, ◌≢◌, some, arith, not, none,
}
use skillwire.Journal.Exec.{◌>>◌}
use mathlib.Core.List.{reverse}
use skillwire.Journal.Entry.{
  Entry, Phase, effect, compensate, commit, cancel, intent, verify, same_phase, at_phase, text,
  flag,
}
use skillwire.Journal.Append.{World, Journal, Exec, append, commit_operation}
use skillwire.Journal.Exec.{pure, continue}
use skillwire.Journal.EffectLaws.{append-eq-ok}
use skillwire.Journal.Recovery.{
  Observation, absent, matching, owned_mismatch, ambiguous, Disposition, safe_retry, resume,
  RecoveryResult, Recovery, Survey, unclear, clear, outcome, status_recovered, recover_operation,
  reconcile_survey, reconcile_effect_boundaries, recover_intent, recover_resolved, recover_last,
  survey, require_active, unresolved_effect_boundaries, is_empty, settle, recovered_detail,
}

abbrev pub IsCommitted : Journal → Type 0
IsCommitted j = at_phase (last? j.entries) commit ≡ true

-- The two ways in which a recovery that starts from `j` returns.
abbrev pub IsEnded : Journal → Result RecoveryResult × Journal → Type 0
IsEnded j (err e, k) = Unit
IsEnded j (ok r, k) =
    (IsCommitted k × ((r.changed ≡ true) ⊎ (r.disposition ≡ resume)))
    ⊎ ((k ≡ j) × (r.changed ≡ false) × (r.disposition ≢ resume))

module _ (j : Journal) where
  IsEnded-continue :
      {A : Type 0} (f : A → Exec RecoveryResult) (r : Result A × Journal)
      → ((a : A) (k : Journal) → IsEnded j (f a k))
      → IsEnded j (continue f r)
  IsEnded-continue f (ok a, k) h = h a k
  IsEnded-continue f (err e, k) h = tt

  IsEnded-lift :
      {A : Type 0} (f : A → Exec RecoveryResult) (r : Result A)
      → ((a : A) → r ≡ ok a → IsEnded j (f a j))
      → IsEnded j (continue f (r, j))
  IsEnded-lift f (ok a) h = h a refl
  IsEnded-lift f (err e) h = tt

  IsEnded-if :
      (b : Bool) (m n : Exec RecoveryResult)
      → (b ≡ true → IsEnded j (m j))
      → (b ≡ false → IsEnded j (n j))
      → IsEnded j ((if b then m else n) j)
  IsEnded-if true m n hm hn = hm refl
  IsEnded-if false m n hm hn = hn refl

  IsEnded-committed :
      (r : RecoveryResult) (done : Result (Unit {0}) × Journal)
      → (done.0 ≡ ok tt → IsCommitted done.1)
      → ((r.changed ≡ true) ⊎ (r.disposition ≡ resume))
      → IsEnded j (continue (λ _. pure r) done)
  IsEnded-committed r (ok _, k) h c = inl (h refl, c)
  IsEnded-committed r (err e, k) h c = tt

module _ (is_datetime : String → Bool) (world : World) where
  commit_operation-IsCommitted :
      (k : Journal)
      → (commit_operation is_datetime world status_recovered k).0 ≡ ok tt
      → IsCommitted (commit_operation is_datetime world status_recovered k).1
  unfolding commit_operation
  commit_operation-IsCommitted k h =
      rw (append-eq-ok is_datetime world k commit k.command status_recovered h)
        (rw last?-concat refl)

  module _ (r : Recovery) (j : Journal) where
    commit_ends :
        (d : Disposition) (c : Bool) (b : Option String) (k : Journal)
        → ((c ≡ true) ⊎ (d ≡ resume))
        → IsEnded j
            ((commit_operation is_datetime world status_recovered >> pure (outcome d c b)) k)
    commit_ends d c b k h =
        IsEnded-committed j (outcome d c b) (commit_operation is_datetime world status_recovered k)
          (commit_operation-IsCommitted k) h

    reconcile_ends :
        (boundaries : List Entry)
        → IsEnded j (reconcile_effect_boundaries is_datetime world r boundaries j)
    unfolding reconcile_effect_boundaries
    reconcile_ends boundaries =
        IsEnded-lift j (reconcile_survey is_datetime world r boundaries)
          (survey is_datetime world r (reverse boundaries)) λ s _. reconcile_survey_ends s
      where
        reconcile_survey_ends :
            (s : Survey) → IsEnded j (reconcile_survey is_datetime world r boundaries s j)
        reconcile_survey_ends (unclear e) = inr (refl, refl, (λ p. cc p))
        reconcile_survey_ends (clear observations) =
            IsEnded-continue j _ (settle is_datetime world r observations j)
              λ _ k. commit_ends _ true _ k (inl refl)

    recover_intent_ends :
        (step : String) (o : Observation) → IsEnded j (recover_intent is_datetime world r step o j)
    recover_intent_ends step ambiguous = inr (refl, refl, (λ p. cc p))
    recover_intent_ends step matching =
        IsEnded-continue j _
          (append is_datetime world effect step (("completion", text "recovered") ∷ []) j)
          λ _ k.
            IsEnded-continue j _
              (append is_datetime world verify step (("recovered", flag true) ∷ []) k)
              λ _ l. commit_ends resume true (some step) l (inl refl)
    recover_intent_ends step absent =
        IsEnded-continue j _ (append is_datetime world compensate step (recovered_detail absent) j)
          λ _ k. commit_ends safe_retry true (some step) k (inl refl)
    recover_intent_ends step owned_mismatch =
        IsEnded-continue j _ (r.repair step, j)
          λ _ k.
            IsEnded-continue j _
              (append is_datetime world compensate step (recovered_detail owned_mismatch) k)
              λ _ l. commit_ends resume true (some step) l (inl refl)

    recover_resolved_ends :
        (phase : Phase) (last : Entry)
        → IsEnded j (recover_resolved is_datetime world r phase last j)
    recover_resolved_ends intent last = IsEnded-lift j _ (r.observe last.step) λ o _.
        IsEnded-lift j _ (require_active (r.aborted_after last.step))
          λ _ _. recover_intent_ends last.step o
    recover_resolved_ends verify last = commit_ends resume false (some last.step) j (inr refl)
    recover_resolved_ends compensate last = commit_ends resume false (some last.step) j (inr refl)
    recover_resolved_ends cancel last = inr (refl, refl, (λ p. ground arith))
    recover_resolved_ends effect last = inr (refl, refl, (λ p. cc p))
    recover_resolved_ends commit last = inr (refl, refl, (λ p. cc p))

    recover_last_ends :
        (last : Option Entry) (boundaries : List Entry)
        → IsEnded j (recover_last is_datetime world r last boundaries j)
    recover_last_ends none boundaries = inr (refl, refl, (λ p. cc p))
    recover_last_ends (some last) boundaries =
        IsEnded-if j (same_phase last.phase commit) _ _ (λ _. inr (refl, refl, (λ p. cc p)))
          (λ _.
            IsEnded-if j (not (is_empty boundaries)) _ _ (λ _. reconcile_ends boundaries)
              (λ _. recover_resolved_ends last.phase last))

    -- Whatever the callbacks and the system answer: a recovery that returns either leaves the journal
    -- as it was and reports no change and no resumption, or leaves it committed and reports one of
    -- these. Nothing is claimed of a recovery that throws.
    pub recover_operation_ends : IsEnded j (recover_operation is_datetime world r j)
    unfolding recover_operation
    recover_operation_ends =
        IsEnded-lift j _ (require_active r.aborted)
          λ _ _. recover_last_ends (last? j.entries) (unresolved_effect_boundaries j.entries)
