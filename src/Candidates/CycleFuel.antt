-- ===== src/Candidates/CycleFuel.antt =====
-- `dependencyCycleMembers`: that the fuel of its search is enough.
use skillwire.Base.{
  ℕ, ◌+◌, ◌≤◌, suc, true, false, ◌≡◌, refl, List, [], ◌∷◌, length, String, if◌then◌else◌, includes,
  arith, ===_iff, ===_refl, Option, Bool-cases, some, inl, ◌∙◌, inr, ap, zero,
}
use skillwire.Base.Dict.{get, insert, remove, keys, includes-insert}
use skillwire.Candidates.Cycles.{
  Graph, dependencies_of, visit, Search, dependency_cycle_members, entered, leave, start,
  visit_each, left, with_cycle, popped,
}

pub remove-insert :
    (ys : List String) (x : String) → includes ys x ≡ false → remove (insert ys x) x ≡ ys
unfolding remove insert
remove-insert [] x h = rw (===_refl x) refl
remove-insert (y ∷ ys) x h = ground (arith, remove-insert ys x)

-- How many of the names are not in the set.
abbrev absent : List String → List String → ℕ
absent set [] = 0
absent set (x ∷ xs) = (if includes set x then 0 else 1) + absent set xs

absent-insert-le : (set xs : List String) (x : String) → absent (insert set x) xs ≤ absent set xs
absent-insert-le set [] x = omega arith
absent-insert-le set (y ∷ ys) x = ground (arith, absent-insert-le set ys x, includes-insert set x y)

absent-insert :
    (set xs : List String) (x : String)
    → includes xs x ≡ true
    → includes set x ≡ false
    → suc (absent (insert set x) xs) ≤ absent set xs
absent-insert set [] x h k = cc h
absent-insert set (y ∷ ys) x h k = ground (
  arith,
  absent-insert set ys x,
  absent-insert-le set ys x,
  includes-insert set x y,
  ===_iff y x,
  ===_iff x y,
)

absent-empty : (xs : List String) → absent [] xs ≡ length xs
absent-empty [] = refl
absent-empty (x ∷ xs) = omega (arith, absent-empty xs)

-- A name with dependencies is a key.
dependencies_of-keys :
    (graph : Graph) (name : String)
    → includes (keys graph) name ≡ false
    → dependencies_of graph name ≡ []
unfolding get
dependencies_of-keys [] name h = refl
dependencies_of-keys ((k, ds) ∷ rest) name h = ground (arith, dependencies_of-keys rest name)

-- The search stands where it stood: on the same stack.
abbrev pub IsRestored : Search → Search → Type 0
IsRestored st st' = (st'.visiting ≡ st.visiting) × (st'.stack ≡ st.stack)

abbrev Returns : Search → Option Search → Type 0
Returns st o = (st' : Search) × (o ≡ some st') × IsRestored st st'

visit_each-Returns :
    (v : Search → String → Option Search) (visiting : List String)
    → ((st : Search) (name : String) → st.visiting ≡ visiting → Returns st (v st name))
    → (names : List String) (st : Search) → st.visiting ≡ visiting
    → Returns st (visit_each v st names)
visit_each-Returns v visiting f [] st h = (st, refl, (refl, refl))
visit_each-Returns v visiting f (name ∷ names) st h =
    let (next, e, r) = f st name h in
    let (last, e2, r2) = visit_each-Returns v visiting f names next (r.0 ∙ h) in
    (last, rw (visit_each, e) e2, (r2.0 ∙ r.0, r2.1 ∙ r.1))

leave-Returns :
    (st : Search) (name : String) (o : Option Search)
    → includes st.visiting name ≡ false
    → Returns (entered st name) o
    → Returns st (leave o name)
leave-Returns st name o h (st', e, r) = (
  left st' name,
  ap (λ x. leave x name) e,
  (ap (λ v. remove v name) r.0 ∙ remove-insert st.visiting name h, ap popped r.1),
)

module _ (graph : Graph) where
  deeper-Returns :
      (fuel : ℕ) (st : Search) (name : String)
      → ((st : Search) (name : String)
          → absent st.visiting (keys graph) + 2 ≤ fuel
          → Returns st (visit graph fuel st name))
      → includes st.visiting name ≡ false
      → absent st.visiting (keys graph) + 2 ≤ suc fuel
      → Returns
          (entered st name)
          (visit_each (visit graph fuel) (entered st name) (dependencies_of graph name))
  deeper-Returns fuel st name f new h = elim (Bool-cases (includes (keys graph) name)) [
    | inl q ↦
        visit_each-Returns (visit graph fuel) (insert st.visiting name)
          (λ st' name' e.
            f st' name'
              (rw e (omega (arith, absent-insert st.visiting (keys graph) name q new, h))))
          (dependencies_of graph name) (entered st name) refl
    | inr q ↦ rw (dependencies_of-keys graph name q) (entered st name, refl, (refl, refl))
  ]

  visit-Returns :
      (fuel : ℕ) (st : Search) (name : String)
      → absent st.visiting (keys graph) + 2 ≤ fuel
      → Returns st (visit graph fuel st name)
  unfolding visit
  visit-Returns zero st name h = absurd (omega (arith, h))
  visit-Returns (suc fuel) st name h = elim (Bool-cases (includes st.visited name)) [
    | inl q ↦ rw q (st, refl, (refl, refl))
    | inr q ↦ elim (Bool-cases (includes st.visiting name)) [
      | inl p ↦ rw (q, p) (with_cycle st name, refl, (refl, refl))
      | inr p ↦
          rw (q, p)
            (leave-Returns st name
              (visit_each (visit graph fuel) (entered st name) (dependencies_of graph name)) p
              (deeper-Returns fuel st name (visit-Returns fuel) p h))
    ]
  ]

  -- The search of every graph ends, within as much fuel as the graph has keys, and two: no visit goes
  -- deeper, since each that has dependencies adds a key to those being visited.
  pub dependency_cycle_members-returns :
      (members : List String) × (dependency_cycle_members graph ≡ some members)
  unfolding dependency_cycle_members
  dependency_cycle_members-returns =
      let (st, e, r) =
        visit_each-Returns (visit graph (length (keys graph) + 2)) []
          (λ st name h.
            visit-Returns (length (keys graph) + 2) st name
              (rw (h, absent-empty (keys graph)) (omega arith)))
          (keys graph) start refl in
      (st.cyclic, rw e refl)
