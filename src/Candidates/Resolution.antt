-- ===== src/Candidates/Resolution.antt =====
-- Which dependencies the resolver accepts, and when it finds no error.
use mathlib.Core.List.{Perm}
use skillwire.Base.{
  ℕ, ◌+◌, Bool, true, not, ◌&&◌, ◌≡◌, List, [], ◌∷◌, ◌==◌, String, if◌then◌else◌, ◌===◌, ===_iff,
  All, arith, refl, sort_by-Perm, filter_by,
}
use skillwire.Base.Dict.{get, put, get-put}
use skillwire.Candidates.Resolver.{
  DependencyInput, count_names, or_zero, resolve_from, resolve_internal_dependencies, is_binding,
}

-- How often a name occurs.
abbrev pub occurrences : String → List String → ℕ
occurrences name [] = 0
occurrences name (x ∷ xs) = (if x === name then 1 else 0) + occurrences name xs

-- A dependency on another skill of the snapshot whose name is unique there.
abbrev pub is_resolvable : List String → String → DependencyInput → Bool
is_resolvable names source d = not (d.skill_name === source) && occurrences d.skill_name names == 1

count-occurrences :
    (counts : List (String × ℕ)) (names : List String) (name : String)
    → or_zero (get (count_names counts names) name)
      ≡ or_zero (get counts name) + occurrences name names
unfolding count_names
count-occurrences counts [] name = omega arith
count-occurrences counts (x ∷ xs) name = ground (
  arith,
  count-occurrences (put counts x (or_zero (get counts x) + 1)) xs name,
  get-put counts x (or_zero (get counts x) + 1) name,
  ===_iff x name,
)

counted :
    (names : List String) (name : String)
    → or_zero (get (count_names [] names) name) ≡ occurrences name names
unfolding get
counted names name = omega (arith, count-occurrences [] names name)

resolved-filter :
    (names : List String) (source : String) (ds : List DependencyInput)
    → (resolve_from (count_names [] names) source ds).0 ≡ filter_by (is_resolvable names source) ds
unfolding resolve_from
resolved-filter names source [] = refl
resolved-filter names source (d ∷ ds) =
    ground (arith, resolved-filter names source ds, counted names d.skill_name)

-- The resolved dependencies are those of the evidence that name another skill of the snapshot, of a
-- unique name there: each as often as in the evidence, and no others.
pub resolve-Perm :
    (locale_less : String → String → Bool) (names : List String) (source : String)
    (evidence : List DependencyInput)
    → Perm
        (resolve_internal_dependencies locale_less names source evidence).dependencies
        (filter_by (is_resolvable names source) evidence)
unfolding resolve_internal_dependencies
resolve-Perm locale_less names source evidence = rw (← resolved-filter names source evidence) (
    sort_by-Perm (λ a b. locale_less a.skill_name b.skill_name)
      (resolve_from (count_names [] names) source evidence).0)

-- A dependency that is no error.
abbrev pub IsSettled : List String → String → DependencyInput → Type 0
IsSettled names source d = is_binding d ≡ true → is_resolvable names source d ≡ true

settled :
    (names : List String) (source : String) (ds : List DependencyInput)
    → (resolve_from (count_names [] names) source ds).1 ≡ []
    → All (IsSettled names source) ds
unfolding resolve_from
settled names source [] h = tt
settled names source (d ∷ ds) h = (
  ground (arith, counted names d.skill_name),
  settled names source ds (ground (arith, counted names d.skill_name)),
)
