-- ===== src/Ownership/Distinct.antt =====
-- What the test for duplicates of the ownership record decides.
use skillwire.Base.{
  List, String, length, All, ◌∷◌, includes, ◌≡◌, ◌≤◌, ◌+◌, false, if◌then◌else◌, [], arith,
  Bool-cases, ===_iff, inl, inr, refl,
}
use skillwire.Base.Dict.{insert, includes-insert}
use skillwire.Ownership.Record.{to_set_from, has_duplicates}

-- No text occurs twice.
abbrev pub IsDistinct : List String → Type 0
IsDistinct [] = Unit
IsDistinct (x ∷ xs) = (includes xs x ≡ false) × IsDistinct xs

abbrev IsNew : List String → List String → Type 0
IsNew set xs = All (λ x. includes set x ≡ false) xs

length-insert :
    (set : List String) (x : String)
    → length (insert set x) ≡ (if includes set x then length set else length set + 1)
unfolding insert
length-insert [] x = omega arith
length-insert (y ∷ ys) x = ground (arith, length-insert ys x)

length-to_set_from : (set xs : List String) → length (to_set_from set xs) ≤ length set + length xs
unfolding to_set_from
length-to_set_from set [] = omega arith
length-to_set_from set (x ∷ xs) =
    ground (arith, length-to_set_from (insert set x) xs, length-insert set x)

not_included :
    (set xs : List String) (x : String)
    → IsNew (insert set x) xs
    → (includes xs x ≡ false) × IsNew set xs
not_included set [] x h = (refl, tt)
not_included set (y ∷ ys) x h =
    let (below, new) = not_included set ys x h.1 in
    (
      ground (arith, includes-insert set x y, ===_iff x y, ===_iff y x),
      (ground (arith, includes-insert set x y), new),
    )

to_set_from-IsDistinct :
    (set xs : List String)
    → length (to_set_from set xs) ≡ length set + length xs
    → IsDistinct xs × IsNew set xs
unfolding to_set_from
to_set_from-IsDistinct set [] h = (tt, tt)
to_set_from-IsDistinct set (x ∷ xs) h = elim (Bool-cases (includes set x)) [
  | inl q ↦
      absurd (omega (arith, length-to_set_from (insert set x) xs, rw q at (length-insert set x)))
  | inr q ↦
      let grown = rw q at (length-insert set x) in
      let (distinct, new) = to_set_from-IsDistinct (insert set x) xs (omega (arith, grown)) in
      let (apart, fresh) = not_included set xs x new in ((apart, distinct), (q, fresh))
]

-- A list that passes the test has no text twice.
pub has_duplicates-IsDistinct : (xs : List String) → has_duplicates xs ≡ false → IsDistinct xs
unfolding has_duplicates
has_duplicates-IsDistinct xs h = (to_set_from-IsDistinct [] xs (ground arith)).0
