-- ===== src/Journal/RecoveryStuck.antt =====
-- A cancelled journal with an unresolved effect: it needs recovery, and recovery cannot settle it.
use skillwire.Base.{
  ◌>>=◌ as bind, Bool, true, false, ◌≡◌, List, [], ◌∷◌, Result, String, refl, last?, err, ok, some,
  error, arith, >>=-eq-ok, ◌++◌,
}
use skillwire.Journal.Exec.{◌>>◌}
use mathlib.Core.List.{reverse, reverse-cons}
use skillwire.Journal.Entry.{Entry, compensate, cancel, field_is, Detail}
use skillwire.Journal.Append.{World, Journal, Exec, append, guards, check}
use skillwire.Journal.Exec.{continue}
use skillwire.Journal.Invariant.{append_guarded}
use skillwire.Journal.Recovery.{
  Observation, absent, matching, owned_mismatch, ambiguous, recovery_required, RecoveryResult,
  Recovery, Survey, unclear, clear, recover_operation, reconcile_survey,
  reconcile_effect_boundaries, recover_last, survey, settle, require_active,
  unresolved_effect_boundaries, is_empty, journal_needs_recovery, recovered_detail, add_observation,
  extend, needs_recovery,
}

-- The last entry is a cancellation of neither status that `append` can be resumed from.
pub record IsCancelled (last : Entry) : Type 0 where
  pub cancelled : last.phase ≡ cancel
  pub not_failed : field_is last.detail "status" "failed" ≡ false
  pub not_required : field_is last.detail "status" "recovery-required" ≡ false

-- A recovery that throws, or that returns with nothing changed and recovery still required.
abbrev pub IsStuck : Journal → Result RecoveryResult × Journal → Type 0
IsStuck j (err e, k) = Unit
IsStuck j (ok r, k) = (r.disposition ≡ recovery_required) × (k ≡ j)

abbrev has_observation : Survey → Bool
has_observation (unclear e) = true
has_observation (clear []) = false
has_observation (clear (x ∷ xs)) = true

has_observation-add :
    (e : Entry) (o : Observation) (s : Survey) → has_observation (add_observation e o s) ≡ true
has_observation-add e o (unclear x) = refl
has_observation-add e o (clear xs) = refl

is_empty-append : (xs : List Entry) (x : Entry) → is_empty (xs ++ x ∷ []) ≡ false
is_empty-append [] x = refl
is_empty-append (y ∷ ys) x = refl

pub is_empty-reverse : (xs : List Entry) → is_empty xs ≡ false → is_empty (reverse xs) ≡ false
is_empty-reverse [] h = absurd (cc h)
is_empty-reverse (x ∷ xs) h = rw reverse-cons (is_empty-append (reverse xs) x)

check-IsCancelled :
    (entries : List Entry) (last : Entry) (step : String) (detail : Detail)
    → last? entries ≡ some last
    → IsCancelled last
    → guards entries compensate step detail ≡ err (error "Operation journal is already terminal")
unfolding guards check
check-IsCancelled entries last step detail e c = rw e (ground arith)

extended-has_observation :
    (e : Entry) (rest : Result Survey) (o : Observation) (s : Survey)
    → (bind rest (λ t. ok (add_observation e o t))) ≡ ok s
    → has_observation s ≡ true
extended-has_observation e rest o s h =
    let (t, _, q) = >>=-eq-ok rest (λ t. ok (add_observation e o t)) h in
    let p : add_observation e o t ≡ s = cc q in rw (← p) (has_observation-add e o t)

extend-has_observation :
    (e : Entry) (rest : Result Survey) (o : Observation) (s : Survey)
    → extend e rest o ≡ ok s
    → has_observation s ≡ true
extend-has_observation e rest ambiguous s h = let p : unclear e ≡ s = cc h in rw (← p) refl
extend-has_observation e rest absent s h = extended-has_observation e rest absent s h
extend-has_observation e rest matching s h = extended-has_observation e rest matching s h
extend-has_observation e rest owned_mismatch s h =
    extended-has_observation e rest owned_mismatch s h

module _ (is_datetime : String → Bool) (world : World) (r : Recovery) (j : Journal) where
  IsStuck-lift :
      {A : Type 0} (f : A → Exec RecoveryResult) (x : Result A)
      → ((a : A) → x ≡ ok a → IsStuck j (f a j))
      → IsStuck j (continue f (x, j))
  IsStuck-lift f (ok a) h = h a refl
  IsStuck-lift f (err e) h = tt

  survey-has_observation :
      (es : List Entry) (s : Survey)
      → is_empty es ≡ false
      → survey is_datetime world r es ≡ ok s
      → has_observation s ≡ true
  unfolding survey
  survey-has_observation [] s h e = absurd (cc h)
  survey-has_observation (x ∷ es) s h e =
      let (o, _, e1) = >>=-eq-ok (r.observe x.step) _ e in
      let (_, _, e2) = >>=-eq-ok (require_active (r.aborted_after x.step)) _ e1 in
      extend-has_observation x (survey is_datetime world r es) o s e2

  module _ (last : Entry) (at_end : last? j.entries ≡ some last) (c : IsCancelled last) where
    repaired-IsStuck :
        (e : Entry) (detail : Detail) (more : Exec (Unit {0})) (final : Exec RecoveryResult)
        (x : Result (Unit {0}))
        → IsStuck j (
            continue
              (λ _. final)
              (continue (λ _. append is_datetime world compensate e.step detail >> more) (x, j)))
    repaired-IsStuck e detail more final (err _) = tt
    repaired-IsStuck e detail more final (ok _) =
        rw
          (append_guarded is_datetime world compensate e.step detail j
            (check-IsCancelled j.entries last e.step detail at_end c))
          tt

    settle-IsStuck :
        (e : Entry) (o : Observation) (rest : List (Entry × Observation))
        (final : Exec RecoveryResult)
        → IsStuck j (continue (λ _. final) (settle is_datetime world r ((e, o) ∷ rest) j))
    unfolding settle
    settle-IsStuck e absent rest final =
        repaired-IsStuck e (recovered_detail absent) (settle is_datetime world r rest) final (ok tt)
    settle-IsStuck e matching rest final =
        repaired-IsStuck e (recovered_detail matching) (settle is_datetime world r rest) final
          (ok tt)
    settle-IsStuck e owned_mismatch rest final =
        repaired-IsStuck e (recovered_detail owned_mismatch) (settle is_datetime world r rest) final
          (r.repair e.step)
    settle-IsStuck e ambiguous rest final =
        repaired-IsStuck e (recovered_detail ambiguous) (settle is_datetime world r rest) final
          (ok tt)

    reconcile_survey-IsStuck :
        (boundaries : List Entry) (s : Survey)
        → has_observation s ≡ true
        → IsStuck j (reconcile_survey is_datetime world r boundaries s j)
    reconcile_survey-IsStuck boundaries (unclear e) h = (refl, refl)
    reconcile_survey-IsStuck boundaries (clear []) h = absurd (cc h)
    reconcile_survey-IsStuck boundaries (clear ((e, o) ∷ rest)) h = settle-IsStuck e o rest _

    reconcile-IsStuck :
        (boundaries : List Entry)
        → is_empty boundaries ≡ false
        → IsStuck j (reconcile_effect_boundaries is_datetime world r boundaries j)
    unfolding reconcile_effect_boundaries
    reconcile-IsStuck boundaries h =
        IsStuck-lift (reconcile_survey is_datetime world r boundaries)
          (survey is_datetime world r (reverse boundaries))
          λ s found.
            reconcile_survey-IsStuck boundaries s
              (survey-has_observation (reverse boundaries) s (is_empty-reverse boundaries h) found)

    needs_recovery_of :
        (boundaries : List Entry)
        → is_empty boundaries ≡ false
        → needs_recovery (some last) boundaries ≡ true
    needs_recovery_of boundaries h = ground (arith, c.cancelled)

    recover_last-IsStuck :
        (boundaries : List Entry)
        → is_empty boundaries ≡ false
        → IsStuck j (recover_last is_datetime world r (some last) boundaries j)
    recover_last-IsStuck boundaries h = rw (c.cancelled, h) (reconcile-IsStuck boundaries h)

    -- A journal whose last entry is a cancellation with neither of the statuses "failed" and
    -- "recovery-required", and that has an unresolved effect, needs recovery; and every recovery of it
    -- throws, or returns with the journal unchanged and recovery still required, whatever the callbacks
    -- and the system answer.
    pub recover_cancelled-IsStuck :
        is_empty (unresolved_effect_boundaries j.entries) ≡ false
        → (journal_needs_recovery j.entries ≡ true)
          × IsStuck j (recover_operation is_datetime world r j)
    unfolding recover_operation journal_needs_recovery
    recover_cancelled-IsStuck h = (
      rw at_end (needs_recovery_of (unresolved_effect_boundaries j.entries) h),
      IsStuck-lift _ (require_active r.aborted)
          λ _ _. rw at_end (recover_last-IsStuck (unresolved_effect_boundaries j.entries) h),
    )
