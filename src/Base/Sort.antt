-- ===== src/Base/Sort.antt =====
-- The stable sort by a comparison, and what it keeps.
use mathlib.Core.Path.{◌≡◌, refl, ◌∙◌, ap}
use mathlib.Core.Logic.{◌⊎◌, inl, inr}
use mathlib.Core.Bool.{Bool, true, false, ◌||◌}
use mathlib.Core.List.{List, [], ◌∷◌, Perm}
use mathlib.Core.List.Perm
use skillwire.Base.Tests.{if◌then◌else◌, Bool-cases}
use skillwire.Base.Lists.{All, length, any}
use Prim.Native.Nat.{suc}
use native.Mathlib.Omega.{arith}

module _ {ℓ κ} {A : Type ℓ} (R : A → A → Type κ) where
  -- Each element stands in the relation to all that follow.
  abbrev pub IsOrdered : List A → Type κ
  IsOrdered [] = Unit
  IsOrdered (x ∷ xs) = All (R x) xs × IsOrdered xs

-- Some element has the property.
abbrev pub Some {ℓ} : {A : Type ℓ} → (A → Type 0) → List A → Type 0
Some P [] = ⊥
Some P (x ∷ xs) = P x ⊎ Some P xs

module _ {ℓ} {A : Type ℓ} (less : A → A → Bool) where
  -- An element goes after those that are less than it only.
  insert_by : A → List A → List A
  insert_by x [] = x ∷ []
  insert_by x (y ∷ ys) = let rest = insert_by x ys in if less y x then y ∷ rest else x ∷ y ∷ ys

  -- `xs.toSorted(compare)`, where `less x y` is `compare(x, y) < 0`
  unfoldable pub sort_by : List A → List A
  unfolding insert_by
  sort_by [] = []
  sort_by (x ∷ xs) = insert_by x (sort_by xs)

  insert-Perm : (x : A) (ys : List A) → Perm (insert_by x ys) (x ∷ ys)
  unfolding insert_by
  insert-Perm x [] = Perm.refl (x ∷ [])
  insert-Perm x (y ∷ ys) = elim (Bool-cases (less y x)) [
    | inl q ↦ rw q (Perm.trans (Perm.cons y (insert-Perm x ys)) (Perm.swap x y ys))
    | inr q ↦ rw q (Perm.refl (x ∷ y ∷ ys))
  ]

  pub sort_by-Perm : (xs : List A) → Perm (sort_by xs) xs
  unfolding sort_by
  sort_by-Perm [] = Perm.refl []
  sort_by-Perm (x ∷ xs) = Perm.trans (insert-Perm x (sort_by xs)) (Perm.cons x (sort_by-Perm xs))

  any-insert : (p : A → Bool) (x : A) (ys : List A) → any p (insert_by x ys) ≡ (p x || any p ys)
  unfolding insert_by
  any-insert p x [] = refl
  any-insert p x (y ∷ ys) = ground (arith, any-insert p x ys)

  pub any-sort_by : (p : A → Bool) (xs : List A) → any p (sort_by xs) ≡ any p xs
  unfolding sort_by
  any-sort_by p [] = refl
  any-sort_by p (x ∷ xs) = any-insert p x (sort_by xs) ∙ ap (λ b. p x || b) (any-sort_by p xs)

  module _ {κ} (P : A → Type κ) where
    insert-All : (x : A) (ys : List A) → P x → All P ys → All P (insert_by x ys)
    unfolding insert_by
    insert-All x [] p h = (p, tt)
    insert-All x (y ∷ ys) p h = elim (Bool-cases (less y x)) [
      | inl q ↦ rw q (h.0, insert-All x ys p h.1)
      | inr q ↦ rw q (p, h)
    ]

    pub sort_by-All : (xs : List A) → All P xs → All P (sort_by xs)
    unfolding sort_by
    sort_by-All [] h = tt
    sort_by-All (x ∷ xs) h = insert-All x (sort_by xs) h.0 (sort_by-All xs h.1)

  module _ {κ} (R : A → A → Type κ) where
    module _ (yes : (x y : A) → less x y ≡ true → R x y) (no : (x y : A) → less y x ≡ false → R x y)
        (trans : (x y z : A) → R x y → R y z → R x z) where
      All-trans : (x y : A) (ys : List A) → R x y → All (R y) ys → All (R x) ys
      All-trans x y [] r h = tt
      All-trans x y (z ∷ zs) r h = (trans x y z r h.0, All-trans x y zs r h.1)

      insert-IsOrdered : (x : A) (ys : List A) → IsOrdered R ys → IsOrdered R (insert_by x ys)
      unfolding insert_by
      insert-IsOrdered x [] h = (tt, tt)
      insert-IsOrdered x (y ∷ ys) h = elim (Bool-cases (less y x)) [
        | inl q ↦ rw q (insert-All (R y) x ys (yes y x q) h.0, insert-IsOrdered x ys h.1)
        | inr q ↦ rw q ((no x y q, All-trans x y ys (no x y q) h.0), h)
      ]

      -- A sort by a comparison that decides a transitive relation is in its order.
      pub sort_by-IsOrdered : (xs : List A) → IsOrdered R (sort_by xs)
      unfolding sort_by
      sort_by-IsOrdered [] = tt
      sort_by-IsOrdered (x ∷ xs) = insert-IsOrdered x (sort_by xs) (sort_by-IsOrdered xs)

  insert_by-least : (x : A) (ys : List A) → All (λ y. less y x ≡ false) ys → insert_by x ys ≡ x ∷ ys
  unfolding insert_by
  insert_by-least x [] h = refl
  insert_by-least x (y ∷ ys) h = rw h.0 refl

  -- A list in order is its own sort.
  pub sort_by-fixed : (xs : List A) → IsOrdered (λ x y. less y x ≡ false) xs → sort_by xs ≡ xs
  unfolding sort_by
  sort_by-fixed [] h = refl
  sort_by-fixed (x ∷ xs) h = rw (sort_by-fixed xs h.1) (insert_by-least x xs h.0)

  length-insert_by : (x : A) (ys : List A) → length (insert_by x ys) ≡ suc (length ys)
  unfolding insert_by
  length-insert_by x [] = refl
  length-insert_by x (y ∷ ys) = ground (arith, length-insert_by x ys)

  pub length-sort_by : (xs : List A) → length (sort_by xs) ≡ length xs
  unfolding sort_by
  length-sort_by [] = refl
  length-sort_by (x ∷ xs) = length-insert_by x (sort_by xs) ∙ ap suc (length-sort_by xs)

  module _ {κ} (P : A → Type κ) where
    insert_by-All-all : (x : A) (ys : List A) → All P (insert_by x ys) → P x × All P ys
    unfolding insert_by
    insert_by-All-all x [] h = h
    insert_by-All-all x (y ∷ ys) h = elim (Bool-cases (less y x)) [
      | inl q ↦
          let h' : P y × All P (insert_by x ys) = rw q at h in
          let (p, more) = insert_by-All-all x ys h'.1 in (p, (h'.0, more))
      | inr q ↦ let h' : P x × (P y × All P ys) = rw q at h in (h'.0, h'.1)
    ]

    -- What holds of a sorted list's elements holds of those that were sorted.
    pub All-sort_by : (xs : List A) → All P (sort_by xs) → All P xs
    unfolding sort_by
    All-sort_by [] h = tt
    All-sort_by (x ∷ xs) h =
        let (p, more) = insert_by-All-all x (sort_by xs) h in (p, All-sort_by xs more)

  module _ (P : A → Type 0) where
    insert_by-first : (x : A) (ys : List A) → P x → Some P (insert_by x ys)
    unfolding insert_by
    insert_by-first x [] p = inl p
    insert_by-first x (y ∷ ys) p = elim (Bool-cases (less y x)) [
      | inl q ↦ rw q (inr (insert_by-first x ys p))
      | inr q ↦ rw q (inl p)
    ]

    insert_by-Some : (x : A) (ys : List A) → Some P ys → Some P (insert_by x ys)
    unfolding insert_by
    insert_by-Some x [] h = elim h [ ]
    insert_by-Some x (y ∷ ys) (inl p) = elim (Bool-cases (less y x)) [
      | inl q ↦ rw q (inl p)
      | inr q ↦ rw q (inr (inl p))
    ]
    insert_by-Some x (y ∷ ys) (inr h) = elim (Bool-cases (less y x)) [
      | inl q ↦ rw q (inr (insert_by-Some x ys h))
      | inr q ↦ rw q (inr (inr h))
    ]

    pub sort_by-Some : (xs : List A) → Some P xs → Some P (sort_by xs)
    unfolding sort_by
    sort_by-Some [] h = elim h [ ]
    sort_by-Some (x ∷ xs) (inl p) = insert_by-first x (sort_by xs) p
    sort_by-Some (x ∷ xs) (inr h) = insert_by-Some x (sort_by xs) (sort_by-Some xs h)

  module _ {κ} (R : A → A → Type κ) (swapped : (x y : A) → R x y → R y x) where
    insert_by-pairs :
        (x : A) (ys : List A) → All (R x) ys → IsOrdered R ys → IsOrdered R (insert_by x ys)
    unfolding insert_by
    insert_by-pairs x [] h k = (tt, tt)
    insert_by-pairs x (y ∷ ys) h k = elim (Bool-cases (less y x)) [
      | inl q ↦ rw q (insert-All (R y) x ys (swapped x y h.0) k.0, insert_by-pairs x ys h.1 k.1)
      | inr q ↦ rw q (h, k)
    ]

    -- A symmetric relation between the elements of a list is one between those of its sort.
    pub sort_by-pairs : (xs : List A) → IsOrdered R xs → IsOrdered R (sort_by xs)
    unfolding sort_by
    sort_by-pairs [] h = tt
    sort_by-pairs (x ∷ xs) h =
        insert_by-pairs x (sort_by xs) (sort_by-All (R x) xs h.0) (sort_by-pairs xs h.1)
