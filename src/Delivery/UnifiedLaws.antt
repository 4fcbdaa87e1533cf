-- ===== src/Delivery/UnifiedLaws.antt =====
-- `UnifiedCatalogProvider.listMetadata`: that it lists each revision once, the program's own first.
use skillwire.Base.{
  ℕ, ◌≤◌, Bool, true, false, ◌≡◌, ◌≢◌, refl, ◌⊎◌, inl, inr, List, [], ◌∷◌, All, String, Result, ok,
  arith, IsOrdered, Some, sort_by, sym, includes, Bool-cases, All-map, ◌===◌, All-both, ===_iff,
  subst, sort_by-IsOrdered, >>=-eq-ok, sort_by-pairs, ok-injective, All-sort_by, sort_by-Some,
}
use skillwire.Catalog.Created.{IsComparison}
use skillwire.Ranking.Score.{Skill}
use skillwire.Delivery.Unified.{
  selected_key, origin_priority, select_from, key_less, preferred, listing, all_answers,
  list_metadata,
}

abbrev priority : Skill → ℕ
priority k = origin_priority k.catalog_origin

-- The skill of one key with another that has no more imported an origin.
abbrev pub IsBetter : Skill → Skill → Type 0
IsBetter v k = (selected_key k ≡ selected_key v) × (priority k ≤ priority v)

abbrev pub IsApart : Skill → Skill → Type 0
IsApart a b = selected_key a ≢ selected_key b

-- Each revision is listed once, and every skill that a provider gave is listed by itself or by one of
-- the same revision, which is the program's own where that skill is.
pub record IsListing (values out : List Skill) : Type 0 where
  pub distinct : IsOrdered IsApart out
  pub complete : All (λ v. Some (IsBetter v) out) values

IsUnseen : List String → Skill → Type 0
IsUnseen seen k = includes seen (selected_key k) ≡ false

select_from-IsUnseen :
    (seen : List String) (xs : List Skill) → All (IsUnseen seen) (select_from seen xs)
unfolding select_from IsUnseen
select_from-IsUnseen seen [] = tt
select_from-IsUnseen seen (x ∷ xs) = elim (Bool-cases (includes seen (selected_key x))) [
  | inl q ↦ rw q (select_from-IsUnseen seen xs)
  | inr q ↦ rw q (
    q,
    All-map (IsUnseen (selected_key x ∷ seen)) (IsUnseen seen) (λ k h. ground (arith, h))
        (select_from (selected_key x ∷ seen) xs) (select_from-IsUnseen (selected_key x ∷ seen) xs),
  )
]

select_from-IsOrdered :
    (seen : List String) (xs : List Skill) → IsOrdered IsApart (select_from seen xs)
unfolding select_from IsUnseen
select_from-IsOrdered seen [] = tt
select_from-IsOrdered seen (x ∷ xs) = elim (Bool-cases (includes seen (selected_key x))) [
  | inl q ↦ rw q (select_from-IsOrdered seen xs)
  | inr q ↦ rw q (
    All-map (IsUnseen (selected_key x ∷ seen)) (IsApart x)
        (λ k h e. ground (arith, h, (===_iff (selected_key x) (selected_key k)).1 e))
        (select_from (selected_key x ∷ seen) xs) (select_from-IsUnseen (selected_key x ∷ seen) xs),
    select_from-IsOrdered (selected_key x ∷ seen) xs,
  )
]

-- Of one key, the first has the least priority.
abbrev IsSorted : Skill → Skill → Type 0
IsSorted a b = selected_key a ≡ selected_key b → priority a ≤ priority b

abbrev IsListed : List String → List Skill → Skill → Type 0
IsListed seen out v = (includes seen (selected_key v) ≡ true) ⊎ Some (IsBetter v) out

IsListed-after :
    (seen : List String) (x : Skill) (out : List Skill) (v : Skill)
    → IsSorted x v × IsListed (selected_key x ∷ seen) out v
    → IsListed seen (x ∷ out) v
IsListed-after seen x out v (le, inr h) = inr (inr h)
IsListed-after seen x out v (le, inl h) = elim (Bool-cases (selected_key x === selected_key v)) [
  | inl q ↦ let same = (===_iff (selected_key x) (selected_key v)).0 q in inr (inl (same, le same))
  | inr q ↦ inl (ground (arith, h, q))
]

select_from-seen :
    (seen : List String) (x : Skill) (xs : List Skill)
    → includes seen (selected_key x) ≡ true
    → select_from seen (x ∷ xs) ≡ select_from seen xs
unfolding select_from
select_from-seen seen x xs q = rw q refl

select_from-new :
    (seen : List String) (x : Skill) (xs : List Skill)
    → includes seen (selected_key x) ≡ false
    → select_from seen (x ∷ xs) ≡ x ∷ select_from (selected_key x ∷ seen) xs
unfolding select_from
select_from-new seen x xs q = rw q refl

select_from-IsListed :
    (seen : List String) (xs : List Skill)
    → IsOrdered IsSorted xs
    → All (IsListed seen (select_from seen xs)) xs
select_from-IsListed seen [] h = tt
select_from-IsListed seen (x ∷ xs) h = elim (Bool-cases (includes seen (selected_key x))) [
  | inl q ↦
      subst (λ out. All (IsListed seen out) (x ∷ xs)) (sym (select_from-seen seen x xs q))
        (inl q, select_from-IsListed seen xs h.1)
  | inr q ↦
      let out = select_from (selected_key x ∷ seen) xs in
      subst (λ out. All (IsListed seen out) (x ∷ xs)) (sym (select_from-new seen x xs q))
        (
          inr (inl (refl, omega arith)),
          All-map (λ v. IsSorted x v × IsListed (selected_key x ∷ seen) out v)
              (IsListed seen (x ∷ out)) (IsListed-after seen x out) xs
              (All-both (IsSorted x) (IsListed (selected_key x ∷ seen) out) xs h.0
                (select_from-IsListed (selected_key x ∷ seen) xs h.1)),
        )
]

found_listed : (v : Skill) (out : List Skill) → IsListed [] out v → Some (IsBetter v) out
found_listed v out (inl h) = absurd (cc h)
found_listed v out (inr h) = h

module _ (locale_less : String → String → Bool) (c : IsComparison locale_less) where
  -- The comparison of skills is none that the second goes before the first.
  abbrev IsAfter : Skill → Skill → Type 0
  IsAfter a b = preferred locale_less b a ≡ false

  preferred-asymmetric : (x y : Skill) → preferred locale_less x y ≡ true → IsAfter x y
  preferred-asymmetric x y h = ground (arith, h, c.asymmetric (selected_key x) (selected_key y))

  IsAfter-transitive : (x y z : Skill) → IsAfter x y → IsAfter y z → IsAfter x z
  IsAfter-transitive x y z h k = ground (
    arith,
    h,
    k,
    c.transitive (selected_key x) (selected_key y) (selected_key z),
    c.transitive (selected_key y) (selected_key z) (selected_key x),
    c.transitive (selected_key z) (selected_key x) (selected_key y),
  )

  irreflexive : (s : String) → locale_less s s ≡ false
  irreflexive s = ground (arith, c.asymmetric s s)

  IsAfter-IsSorted : (a b : Skill) → IsAfter a b → IsSorted a b
  IsAfter-IsSorted a b h same =
      let none_less : locale_less (selected_key a) (selected_key b) ≡ false =
        subst (λ s. locale_less (selected_key a) s ≡ false) same (irreflexive (selected_key a)) in
      ground (arith, h, none_less)

  IsOrdered-IsSorted : (xs : List Skill) → IsOrdered IsAfter xs → IsOrdered IsSorted xs
  IsOrdered-IsSorted [] h = tt
  IsOrdered-IsSorted (x ∷ xs) h =
      (All-map (IsAfter x) (IsSorted x) (IsAfter-IsSorted x) xs h.0, IsOrdered-IsSorted xs h.1)

  listing-IsListing : (values : List Skill) → IsListing values (listing locale_less values)
  listing-IsListing values =
      let less = preferred locale_less in
      let sorted = sort_by less values in
      let chosen = select_from [] sorted in
      let in_order = IsOrdered-IsSorted sorted (
        sort_by-IsOrdered less IsAfter preferred-asymmetric (λ x y h. h) IsAfter-transitive
          values) in
      record {
        distinct =
            sort_by-pairs (key_less locale_less) IsApart (λ x y r e. r (sym e)) chosen
              (select_from-IsOrdered [] sorted);
        complete =
            All-sort_by less (λ v. Some (IsBetter v) (listing locale_less values)) values
              (All-map (IsListed [] chosen) (λ v. Some (IsBetter v) (listing locale_less values))
                (λ v h.
                  sort_by-Some (key_less locale_less) (IsBetter v) chosen (found_listed v chosen h))
                sorted (select_from-IsListed [] sorted in_order));
      }

  -- Where keys are compared by a strict order, the unified listing has each skill and revision once,
  -- and for every skill that a provider lists one of its revision, which is the program's own where
  -- that skill is.
  pub list_metadata-IsListing :
      (answers : List (Result (List Skill))) (out : List Skill)
      → list_metadata locale_less answers ≡ ok out
      → (values : List Skill) × (all_answers answers ≡ ok values) × IsListing values out
  unfolding list_metadata
  list_metadata-IsListing answers out h =
      let (values, e, h1) = >>=-eq-ok (all_answers answers) _ h in
      (values, e, subst (IsListing values) (ok-injective h1) (listing-IsListing values))
