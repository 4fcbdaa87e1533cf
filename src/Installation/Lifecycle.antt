-- ===== src/Installation/Lifecycle.antt =====
-- The life of an installation, as sequences of transitions.
use skillwire.Base.{
  ◌>>=◌, true, ◌≡◌, List, [], ◌∷◌, String, ◌≢◌, if◌then◌else◌, Result, ok, arith, some, Bool-cases,
  none, refl, inl, inr, >>=-eq-ok, sym, subst,
}
use skillwire.Installation.Status.{
  Status, prepared, service_ready, complete, incomplete, data_retained, recovery_required, purged,
  Installation, installation_transitions, includes_status, is_validating, transition_installation,
}

-- What a transition that returns has changed: the status, the time of the update and, when the new
-- status is "service-ready" or "complete", the time of the validation.
abbrev pub moved : String → Installation → Status → Installation
moved now i s = record i {
  status = s;
  updated_at = now;
  last_validated_at = if is_validating s then some now else i.last_validated_at;
}

-- The statuses that an installation goes through, each by a transition that returns.
unfoldable pub run : String → Installation → List Status → Result Installation
run now i [] = ok i
run now i (s ∷ ss) = do next ← transition_installation now i s; run now next ss

-- The shortest way from a status to "purged".
unfoldable pub way_out : Status → List Status
way_out purged = []
way_out data_retained = purged ∷ []
way_out recovery_required = purged ∷ []
way_out s = recovery_required ∷ purged ∷ []

-- What is left of an installation when it is purged, and the time of that.
abbrev pub purged_at : String → Installation → Installation
purged_at time i = record i { status = purged; updated_at = time }

way_out_from :
    (now : String) (i : Installation) (s : Status)
    → i.status ≡ s
    → (k : Installation) × (run now i (way_out s) ≡ ok k) × (k ≡ purged_at k.updated_at i)
unfolding run way_out transition_installation
way_out_from now i prepared h =
    (moved now (moved now i recovery_required) purged, ground arith, refl)
way_out_from now i service_ready h =
    (moved now (moved now i recovery_required) purged, ground arith, refl)
way_out_from now i complete h =
    (moved now (moved now i recovery_required) purged, ground arith, refl)
way_out_from now i incomplete h =
    (moved now (moved now i recovery_required) purged, ground arith, refl)
way_out_from now i data_retained h = (moved now i purged, ground arith, refl)
way_out_from now i recovery_required h = (moved now i purged, ground arith, refl)
way_out_from now i purged h = (i, refl, λ j. record i { status = h j })

transition-eq-ok :
    (now : String) (i k : Installation) (s : Status)
    → transition_installation now i s ≡ ok k
    → (includes_status (installation_transitions i.status) s ≡ true) × (k ≡ moved now i s)
unfolding transition_installation
transition-eq-ok now i k s e =
    elim (Bool-cases (includes_status (installation_transitions i.status) s)) [
      | inl q ↦ (q, cc (rw q at e))
      | inr q ↦ absurd (cc (rw q at e))
    ]

-- What every transition that returns keeps, a sequence of them keeps.
run-keeps :
    (P : Installation → Type 0) (now : String)
    → ((i : Installation) (s : Status) → P i → P (moved now i s))
    → (i k : Installation) (ss : List Status) → P i
    → run now i ss ≡ ok k
    → P k
unfolding run
run-keeps P now keep i k [] h e = let p : i ≡ k = cc e in subst P p h
run-keeps P now keep i k (s ∷ ss) h e =
    let (next, e1, e2) = >>=-eq-ok (transition_installation now i s) (λ n. run now n ss) e in
    let (_, same) = transition-eq-ok now i next s e1 in
    run-keeps P now keep next k ss (subst P (sym same) (keep i s h)) e2

-- From every status a sequence of transitions that all return leads to "purged", and changes nothing
-- but the status and the time of the update.
pub run-way_out :
    (now : String) (i : Installation)
    → (k : Installation) × (run now i (way_out i.status) ≡ ok k) × (k ≡ purged_at k.updated_at i)
unfolding run way_out transition_installation
run-way_out now i = way_out_from now i i.status refl

-- A working installation has been validated.
abbrev pub IsValidated : Installation → Type 0
IsValidated i = is_validating i.status ≡ true → i.last_validated_at ≢ none

moved-IsValidated :
    (now : String) (i : Installation) (s : Status) → IsValidated i → IsValidated (moved now i s)
moved-IsValidated now i s v q = rw q (λ p. cc p)

-- Every sequence of transitions keeps: an installation that is "service-ready" or "complete" has a
-- time of validation.
pub run-IsValidated :
    (now : String) (i k : Installation) (ss : List Status)
    → IsValidated i
    → run now i ss ≡ ok k
    → IsValidated k
unfolding run
run-IsValidated now i k ss v e =
    run-keeps IsValidated now (λ i s w. moved-IsValidated now i s w) i k ss v e
