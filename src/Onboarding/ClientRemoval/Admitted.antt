-- ===== src/Onboarding/ClientRemoval/Admitted.antt =====
-- When the observations let a client's integration be removed.
use skillwire.Onboarding.ClientRemoval.{Observation, is_clear, is_kept, is_owned}
use skillwire.Base.{
  arith, Bool, true, false, ◌||◌, ◌≡◌, sym, ◌∙◌, List, [], ◌∷◌, any, All, filter_by, inl, inr, not,
  Bool-cases,
}

or-false : (a b : Bool) → (a || b) ≡ false → (a ≡ false) × (b ≡ false)
or-false a b h = (ground arith, ground arith)

not-false : (a : Bool) → not a ≡ false → a ≡ true
not-false a h = ground arith

-- No observation blocks the removal, and every owned component has its expected identity.
abbrev pub AreKept : List Observation → Type 0
AreKept observations =
    All (λ o. is_clear o ≡ true) observations
    × All (λ o. is_owned o ≡ true → is_kept o ≡ true) observations

clear-All :
    (p : Observation → Bool) (xs : List Observation)
    → any (λ o. not (p o)) xs ≡ false
    → All (λ o. p o ≡ true) xs
clear-All p [] h = tt
clear-All p (x ∷ xs) h = (ground arith, clear-All p xs (ground arith))

owned-All :
    (xs : List Observation)
    → any (λ o. not (is_kept o)) (filter_by is_owned xs) ≡ false
    → All (λ o. is_owned o ≡ true → is_kept o ≡ true) xs
owned-All [] h = tt
owned-All (x ∷ xs) h = elim (Bool-cases (is_owned x)) [
  | inl q ↦
      let h' : (not (is_kept x) || any (λ o. not (is_kept o)) (filter_by is_owned xs)) ≡ false =
        rw q at h in
      let (a, b) = or-false (not (is_kept x)) _ h' in
      ((λ _. not-false (is_kept x) a), owned-All xs b)
  | inr q ↦ ((λ t. absurd (cc (sym t ∙ q))), owned-All xs (rw q at h))
]

pub test-AreKept :
    (xs : List Observation)
    → (any (λ o. not (is_clear o)) xs || any (λ o. not (is_kept o)) (filter_by is_owned xs)) ≡ false
    → AreKept xs
test-AreKept xs h =
    let (a, b) = or-false (any (λ o. not (is_clear o)) xs) _ h in
    (clear-All is_clear xs a, owned-All xs b)
