-- ===== src/Candidates/Policy.antt =====
-- src/domain/external-catalog/candidate-policy.ts: `applyCandidateTransition`, and the classifications
-- that a candidate can come to.
use Prim.Native.String
use skillwire.Base.{
  ◌>>=◌, Bool, true, false, ◌≡◌, ◌⊎◌, inl, inr, List, [], ◌∷◌, String, Option, none, some,
  if◌then◌else◌, Result, ok, throw, includes, arith, refl, >>=-eq-ok, ◌==◌, ℕ, any, ◌&&◌,
}

pub data Classification : Type 0 where
  discovered verified quarantined curated : Classification

pub data Actor : Type 0 where
  discovery verifier administrator synchronization : Actor

abbrev classification_text : Classification → String
classification_text discovered = "discovered"
classification_text verified = "verified"
classification_text quarantined = "quarantined"
classification_text curated = "curated"

abbrev pub current_text : Option Classification → String
current_text none = "absent"
current_text (some c) = classification_text c

abbrev actor_text : Actor → String
actor_text discovery = "discovery"
actor_text verifier = "verifier"
actor_text administrator = "administrator"
actor_text synchronization = "synchronization"

infixr 65 ◌<>◌
abbrev ◌<>◌ : String → String → String
s <> t = String.◌++◌ s t

abbrev legal_transitions : List String
legal_transitions =
    "absent:discovered:discovery" ∷ "absent:discovered:synchronization"
    ∷ "discovered:verified:verifier" ∷ "discovered:quarantined:verifier"
    ∷ "verified:quarantined:administrator" ∷ "curated:quarantined:administrator"
    ∷ "quarantined:verified:verifier" ∷ "verified:curated:administrator" ∷ []

abbrev classification_index : Classification → ℕ
classification_index discovered = 0
classification_index verified = 1
classification_index quarantined = 2
classification_index curated = 3

-- `current === next`
abbrev pub is_current : Option Classification → Classification → Bool
is_current none next = false
is_current (some c) next = classification_index c == classification_index next

unfoldable pub apply_candidate_transition :
    Option Classification → Classification → Actor → Result Classification
apply_candidate_transition current next actor =
    if is_current current next
    then ok next
    else if includes legal_transitions
        (current_text current <> ":" <> classification_text next <> ":" <> actor_text actor)
    then ok next
    else throw "CLASSIFICATION_TRANSITION_INVALID"

abbrev Step : Type 0
Step = Classification × Actor

-- Transitions that all return, from a classification on.
unfoldable pub run : Option Classification → List Step → Result (Option Classification)
run current [] = ok current
run current ((next, actor) ∷ steps) = do
  c ← apply_candidate_transition current next actor
  run (some c) steps

abbrev actor_index : Actor → ℕ
actor_index discovery = 0
actor_index verifier = 1
actor_index administrator = 2
actor_index synchronization = 3

abbrev pub is_step : Classification → Actor → Step → Bool
is_step c a (d, b) =
    classification_index d == classification_index c && actor_index b == actor_index a

abbrev CameFrom : Option Classification → Actor → Classification → Actor → Type 0
CameFrom current actor before by = (current ≡ some before) × (actor ≡ by)

into_curated :
    (current : Option Classification) (actor : Actor) {c : Classification}
    → apply_candidate_transition current curated actor ≡ ok c
    → (current ≡ some curated) ⊎ CameFrom current actor verified administrator
unfolding apply_candidate_transition
into_curated none discovery h = absurd (cc h)
into_curated none verifier h = absurd (cc h)
into_curated none administrator h = absurd (cc h)
into_curated none synchronization h = absurd (cc h)
into_curated (some discovered) discovery h = absurd (cc h)
into_curated (some discovered) verifier h = absurd (cc h)
into_curated (some discovered) administrator h = absurd (cc h)
into_curated (some discovered) synchronization h = absurd (cc h)
into_curated (some verified) discovery h = absurd (cc h)
into_curated (some verified) verifier h = absurd (cc h)
into_curated (some verified) administrator h = inr (refl, refl)
into_curated (some verified) synchronization h = absurd (cc h)
into_curated (some quarantined) discovery h = absurd (cc h)
into_curated (some quarantined) verifier h = absurd (cc h)
into_curated (some quarantined) administrator h = absurd (cc h)
into_curated (some quarantined) synchronization h = absurd (cc h)
into_curated (some curated) actor h = inl refl

into_verified :
    (current : Option Classification) (actor : Actor) {c : Classification}
    → apply_candidate_transition current verified actor ≡ ok c
    → (current ≡ some verified) ⊎ (actor ≡ verifier)
unfolding apply_candidate_transition
into_verified none discovery h = absurd (cc h)
into_verified none verifier h = inr refl
into_verified none administrator h = absurd (cc h)
into_verified none synchronization h = absurd (cc h)
into_verified (some discovered) discovery h = absurd (cc h)
into_verified (some discovered) verifier h = inr refl
into_verified (some discovered) administrator h = absurd (cc h)
into_verified (some discovered) synchronization h = absurd (cc h)
into_verified (some verified) actor h = inl refl
into_verified (some quarantined) discovery h = absurd (cc h)
into_verified (some quarantined) verifier h = inr refl
into_verified (some quarantined) administrator h = absurd (cc h)
into_verified (some quarantined) synchronization h = absurd (cc h)
into_verified (some curated) discovery h = absurd (cc h)
into_verified (some curated) verifier h = inr refl
into_verified (some curated) administrator h = absurd (cc h)
into_verified (some curated) synchronization h = absurd (cc h)

chosen :
    (present legal : Bool) (next c : Classification) (message : String)
    → (if present then ok next else if legal then ok next else throw message) ≡ ok c
    → c ≡ next
chosen true legal next c message h = cc h
chosen false true next c message h = cc h
chosen false false next c message h = absurd (cc h)

applied :
    (current : Option Classification) (next : Classification) (actor : Actor) {c : Classification}
    → apply_candidate_transition current next actor ≡ ok c
    → c ≡ next
unfolding apply_candidate_transition
applied current next actor h = chosen (is_current current next) _ next _ _ h

promoted_in :
    (current : Option Classification) (steps : List Step)
    → run current steps ≡ ok (some curated)
    → (current ≡ some curated) ⊎ (any (is_step curated administrator) steps ≡ true)
unfolding run
promoted_in current [] h = inl (cc h)
promoted_in current ((next, actor) ∷ steps) h =
    let (c, e1, e2) = >>=-eq-ok (apply_candidate_transition current next actor) _ h in
    let same = applied current next actor e1 in
    elim (promoted_in (some c) steps e2) [
      | inr later ↦ inr (ground (arith, later))
      | inl now ↦
          let n : next ≡ curated = cc (same, now) in
          elim (into_curated current actor (rw n at e1)) [
            | inl p ↦ inl p
            | inr (p, q) ↦ inr (rw (n, q) refl)
          ]
    ]

verified_in :
    (current : Option Classification) (steps : List Step)
    → run current steps ≡ ok (some curated)
    → ((current ≡ some curated) ⊎ (current ≡ some verified))
      ⊎ (any (is_step verified verifier) steps ≡ true)
unfolding run
verified_in current [] h = inl (inl (cc h))
verified_in current ((next, actor) ∷ steps) h =
    let (c, e1, e2) = >>=-eq-ok (apply_candidate_transition current next actor) _ h in
    let same = applied current next actor e1 in
    elim (verified_in (some c) steps e2) [
      | inr later ↦ inr (ground (arith, later))
      | inl (inl now) ↦
          let n : next ≡ curated = cc (same, now) in
          elim (into_curated current actor (rw n at e1)) [
            | inl p ↦ inl (inl p)
            | inr (p, q) ↦ inl (inr p)
          ]
      | inl (inr now) ↦
          let n : next ≡ verified = cc (same, now) in
          elim (into_verified current actor (rw n at e1)) [
            | inl p ↦ inl (inr p)
            | inr q ↦ inr (rw (n, q) refl)
          ]
    ]

-- A candidate that was absent and is curated was verified by the verifier and made curated by an
-- administrator on the way.
pub run-curated :
    (steps : List Step)
    → run none steps ≡ ok (some curated)
    → (any (is_step verified verifier) steps ≡ true)
      × (any (is_step curated administrator) steps ≡ true)
run-curated steps h = (
  elim (verified_in none steps h) [
    | inl (inl p) ↦ absurd (cc p)
    | inl (inr p) ↦ absurd (cc p)
    | inr s ↦ s
  ],
  elim (promoted_in none steps h) [ inl p ↦ absurd (cc p) | inr s ↦ s ],
)
