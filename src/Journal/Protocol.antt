-- ===== src/Journal/Protocol.antt =====
-- The order of phases that a journal may have, stated without the code's tests, and that the guards
-- of `append` accept exactly this order.
use skillwire.Base.{
  ◌≡◌, ◌≢◌, ◌⊎◌, inl, Bool, true, false, Option, none, some, String, arith, ok, ===_iff, List, ◌||◌,
  ◌↔◌, last?, ◌∷◌, ◌++◌, [], refl,
}
use skillwire.Journal.Entry.{
  Phase, intent, effect, verify, compensate, commit, cancel, Detail, field_is, Entry, same_phase,
}
use skillwire.Journal.Append.{check, guards, has_verify}

-- The entry before has this phase and this step.
abbrev pub IsAfter : Option Entry → Phase → String → Type 0
IsAfter none phase step = ⊥
IsAfter (some p) phase step = (p.phase ≡ phase) × (p.step ≡ step)

-- No entry, or one that ends nothing.
abbrev pub IsOpen : Option Entry → Type 0
IsOpen none = Unit
IsOpen (some p) = (p.phase ≢ commit) × (p.phase ≢ cancel)

-- A cancelled operation that left something to repair.
abbrev pub IsResumable : Option Entry → Type 0
IsResumable none = ⊥
IsResumable (some p) =
    (p.phase ≡ cancel)
    × ((field_is p.detail "status" "failed" ≡ true)
        ⊎ (field_is p.detail "status" "recovery-required" ≡ true))

-- A compensation that proved its completion.
abbrev pub IsCompensated : Option Entry → Type 0
IsCompensated none = ⊥
IsCompensated (some p) =
    (p.phase ≡ compensate) × (field_is p.detail "completion" "unproven" ≡ false)

abbrev pub IsVerified : Option Entry → Type 0
IsVerified none = ⊥
IsVerified (some p) = p.phase ≡ verify

abbrev pub MayCommit : Option Entry → Bool → Detail → Type 0
MayCommit prev verified detail =
    ((field_is detail "status" "recovered" ≡ true) × IsCompensated prev) ⊎ (verified ≡ true)

-- What may follow `prev`, where `verified` says that the journal has a verification.
abbrev pub Allowed : Option Entry → Bool → Phase → String → Detail → Type 0
Allowed prev verified intent step detail = IsOpen prev
Allowed prev verified effect step detail = IsAfter prev intent step
Allowed prev verified verify step detail = IsAfter prev effect step
Allowed prev verified compensate step detail = IsOpen prev ⊎ IsResumable prev
Allowed prev verified cancel step detail = IsOpen prev
Allowed prev verified commit step detail =
    IsOpen prev
    × MayCommit prev verified detail
    × (field_is detail "status" "success" ≡ true → IsVerified prev)

check_sound :
    (last : Option Entry) (verified : Bool) (phase : Phase) (step : String) (detail : Detail)
    → check last verified phase step detail ≡ ok tt
    → Allowed last verified phase step detail
unfolding check
check_sound none verified intent step detail h = tt
check_sound none verified cancel step detail h = tt
check_sound none verified compensate step detail h = inl tt
check_sound none verified effect step detail h = cc
check_sound none verified verify step detail h = cc
check_sound none verified commit step detail h = ground arith
check_sound (some p) verified intent step detail h = ground arith
check_sound (some p) verified effect step detail h = ground (arith, ===_iff p.step step)
check_sound (some p) verified verify step detail h = ground (arith, ===_iff p.step step)
check_sound (some p) verified compensate step detail h = ground arith
check_sound (some p) verified commit step detail h = ground arith
check_sound (some p) verified cancel step detail h = ground arith

check_complete :
    (last : Option Entry) (verified : Bool) (phase : Phase) (step : String) (detail : Detail)
    → Allowed last verified phase step detail
    → check last verified phase step detail ≡ ok tt
unfolding check
check_complete none verified intent step detail h = refl
check_complete none verified cancel step detail h = refl
check_complete none verified compensate step detail h = refl
check_complete none verified commit step detail h = ground arith
check_complete none verified effect step detail h = absurd h
check_complete none verified verify step detail h = absurd h
check_complete (some p) verified intent step detail h = ground arith
check_complete (some p) verified effect step detail h = ground (arith, ===_iff p.step step)
check_complete (some p) verified verify step detail h = ground (arith, ===_iff p.step step)
check_complete (some p) verified compensate step detail h = ground arith
check_complete (some p) verified commit step detail h = ground arith
check_complete (some p) verified cancel step detail h = ground arith

-- The guards of `append` accept exactly what the order of phases allows.
pub guards_iff :
    (entries : List Entry) (phase : Phase) (step : String) (detail : Detail)
    → (guards entries phase step detail ≡ ok tt)
      ↔ Allowed (last? entries) (has_verify entries) phase step detail
unfolding guards
guards_iff entries phase step detail = (
  check_sound (last? entries) (has_verify entries) phase step detail,
  check_complete (last? entries) (has_verify entries) phase step detail,
)

-- A whole journal keeps the order, from the entry before it on.
abbrev pub Chain : Option Entry → Bool → List Entry → Type 0
Chain prev verified [] = Unit
Chain prev verified (e ∷ es) =
    Allowed prev verified e.phase e.step e.detail
    × Chain (some e) (verified || same_phase e.phase verify) es

abbrev last_from : Option Entry → List Entry → Option Entry
last_from prev [] = prev
last_from prev (e ∷ es) = last_from (some e) es

last_from-last? : (e : Entry) (es : List Entry) → last_from (some e) es ≡ last? (e ∷ es)
last_from-last? e [] = refl
last_from-last? e (f ∷ es) = last_from-last? f es

last_from-none : (es : List Entry) → last_from none es ≡ last? es
last_from-none [] = refl
last_from-none (e ∷ es) = last_from-last? e es

or_false : (a : Bool) → (a || false) ≡ a
or_false a = ground arith

or_assoc : (a b c : Bool) → ((a || b) || c) ≡ (a || (b || c))
or_assoc a b c = ground arith

Chain-concat_from :
    (prev : Option Entry) (verified : Bool) (es : List Entry) (e : Entry)
    → Chain prev verified es
    → Allowed (last_from prev es) (verified || has_verify es) e.phase e.step e.detail
    → Chain prev verified (es ++ e ∷ [])
Chain-concat_from prev verified [] e c a = (rw (← or_false verified) a, tt)
Chain-concat_from prev verified (x ∷ es) e c a = (
  c.0,
  Chain-concat_from (some x) (verified || same_phase x.phase verify) es e c.1 (rw or_assoc a),
)

pub Chain-concat :
    (es : List Entry) (e : Entry)
    → Chain none false es
    → Allowed (last? es) (has_verify es) e.phase e.step e.detail
    → Chain none false (es ++ e ∷ [])
Chain-concat es e c a = Chain-concat_from none false es e c (rw last_from-none a)
