-- ===== src/Candidates/CycleMembers.antt =====
-- `dependencyCycleMembers`: that every member it returns lies on a cycle.
use skillwire.Base.{
  ℕ, zero, suc, true, false, ◌≡◌, refl, inl, inr, List, [], ◌∷◌, String, Option, none, some,
  includes, subst, sym, Bool-cases, ===_iff, ◌∙◌, arith, ap, length, ◌+◌, Option-cases,
}
use skillwire.Base.Dict.{insert, includes-insert, remove, keys}
use skillwire.Candidates.Cycles.{
  Graph, Search, dependencies_of, slice_from, visit, visit_each, entered, leave, start,
  dependency_cycle_members, cyclic_of, popped,
}
use skillwire.Candidates.CycleFuel.{IsRestored, remove-insert}
use skillwire.Candidates.CycleTrail.{IsTrail, IsNext, IsOnCycles, to_set-IsOnCycles, slice-Walk}

abbrev or_empty : Option (List String) → List String
or_empty none = []
or_empty (some xs) = xs

module _ (graph : Graph) where
  -- What is being visited is on the stack, which is a trail.
  record IsSearch (st : Search) : Type 0 where
    trail : IsTrail graph st.stack
    on_stack : (x : String) → includes st.visiting x ≡ true → includes st.stack x ≡ true

  abbrev IsSound : Search → Option Search → Type 0
  IsSound st none = Unit
  IsSound st (some st') =
      IsRestored st st' × (IsOnCycles graph st.cyclic → IsOnCycles graph st'.cyclic)

  IsSound-trans :
      (st next : Search) (o : Option Search)
      → IsSound st (some next)
      → IsSound next o
      → IsSound st o
  IsSound-trans st next none s r = tt
  IsSound-trans st next (some last) s r = ((r.0.0 ∙ s.0.0, r.0.1 ∙ s.0.1), λ c. r.1 (s.1 c))

  longer :
      (xs : List String) (name : String)
      → IsTrail graph xs
      → IsNext graph xs name
      → IsTrail graph (name ∷ xs)
  longer [] name t n = tt
  longer (x ∷ xs) name t n = (n, t)

  visit_each-IsSound :
      (v : Search → String → Option Search) (visiting stack : List String)
      → (names : List String)
      → ((st : Search) (name : String)
          → st.visiting ≡ visiting
          → st.stack ≡ stack
          → includes names name ≡ true
          → IsSound st (v st name))
      → (st : Search) → st.visiting ≡ visiting
      → st.stack ≡ stack
      → IsSound st (visit_each v st names)
  visit_each-IsSound v visiting stack [] f st h k = ((refl, refl), λ c. c)
  visit_each-IsSound v visiting stack (name ∷ names) f st h k =
      let first = f st name h k (ground (arith, ===_iff name name)) in
      elim (Option-cases (v st name)) [
        | inl e ↦ rw (visit_each, e) tt
        | inr p ↦
            let reached : IsSound st (some p.0) = subst (IsSound st) p.1 first in
            rw (visit_each, p.1)
              (IsSound-trans st p.0 (visit_each v p.0 names) reached (
                visit_each-IsSound v visiting stack names
                  (λ st' n' h' k' i. f st' n' h' k' (ground (arith, i))) p.0 (reached.0.0 ∙ h)
                  (reached.0.1 ∙ k)))
      ]

  leave-IsSound :
      (st : Search) (name : String) (o : Option Search)
      → includes st.visiting name ≡ false
      → IsSound (entered st name) o
      → IsSound st (leave o name)
  leave-IsSound st name none new s = tt
  leave-IsSound st name (some st') new s =
      ((ap (λ v. remove v name) s.0.0 ∙ remove-insert st.visiting name new, ap popped s.0.1), s.1)

  entered-IsSearch :
      (st : Search) (name : String)
      → IsSearch st
      → IsNext graph st.stack name
      → IsSearch (entered st name)
  entered-IsSearch st name i n = record {
    trail = longer st.stack name i.trail n;
    on_stack = λ x h. grown x h;
  }
    where
      grown :
          (x : String)
          → includes (insert st.visiting name) x ≡ true
          → includes (name ∷ st.stack) x ≡ true
      grown x h =
          let e = sym (includes-insert st.visiting name x) ∙ h in ground (arith, e, i.on_stack x)

  same-IsSearch :
      (st st' : Search)
      → st'.visiting ≡ st.visiting
      → st'.stack ≡ st.stack
      → IsSearch st
      → IsSearch st'
  same-IsSearch st st' h k i = record {
    trail = subst (IsTrail graph) (sym k) i.trail;
    on_stack = λ x p.
        subst (λ s. includes s x ≡ true) (sym k)
          (i.on_stack x (subst (λ v. includes v x ≡ true) h p));
  }

  visit-IsSound :
      (fuel : ℕ) (st : Search) (name : String)
      → IsSearch st
      → IsNext graph st.stack name
      → IsSound st (visit graph fuel st name)
  unfolding visit
  visit-IsSound zero st name i n = tt
  visit-IsSound (suc fuel) st name i n = elim (Bool-cases (includes st.visited name)) [
    | inl q ↦ rw q ((refl, refl), λ c. c)
    | inr q ↦ elim (Bool-cases (includes st.visiting name)) [
      | inl p ↦
          rw (q, p)
            (
              (refl, refl),
              to_set-IsOnCycles graph st.cyclic (slice_from name st.stack)
                  (slice-Walk graph name st.stack i.trail n (i.on_stack name p)),
            )
      | inr p ↦
          rw (q, p)
            (leave-IsSound st name
              (visit_each (visit graph fuel) (entered st name) (dependencies_of graph name)) p
              (visit_each-IsSound (visit graph fuel) (insert st.visiting name) (name ∷ st.stack)
                (dependencies_of graph name)
                (λ st' n' h k e.
                  visit-IsSound fuel st' n'
                    (same-IsSearch (entered st name) st' h k (entered-IsSearch st name i n))
                    (subst (λ s. IsNext graph s n') (sym k) e))
                (entered st name) refl refl))
    ]
  ]

  start-IsSearch : IsSearch start
  start-IsSearch = record { trail = tt; on_stack = λ x h. cc h }

  cyclic-IsOnCycles :
      (o : Option Search) (members : List String)
      → IsSound start o
      → cyclic_of o ≡ some members
      → IsOnCycles graph members
  cyclic-IsOnCycles none members s h = absurd (cc h)
  cyclic-IsOnCycles (some st) members s h =
      subst (λ o. IsOnCycles graph (or_empty o)) h (s.1 (λ m p. cc p))

  -- Every member that the search returns depends on itself, at once or through others.
  pub dependency_cycle_members-IsOnCycles :
      (members : List String)
      → dependency_cycle_members graph ≡ some members
      → IsOnCycles graph members
  unfolding dependency_cycle_members
  dependency_cycle_members-IsOnCycles members h =
      let fuel = length (keys graph) + 2 in
      cyclic-IsOnCycles (visit_each (visit graph fuel) start (keys graph)) members
        (visit_each-IsSound (visit graph fuel) [] [] (keys graph)
          (λ st name v k e.
            visit-IsSound fuel st name (same-IsSearch start st v k start-IsSearch)
              (subst (λ s. IsNext graph s name) (sym k) tt))
          start refl refl)
        h
