-- ===== src/Candidates/Cycles.antt =====
-- src/domain/external-catalog/dependency-resolver.ts: `dependencyCycleMembers`.
--
-- The depth of the search is bounded by fuel: on none left a visit has no result. The stack is a list
-- with its top first.
use skillwire.Base.{
  ℕ, ◌+◌, zero, suc, not, ◌&&◌, List, [], ◌∷◌, map, length, String, Option, none, some,
  if◌then◌else◌, ◌===◌, includes,
}
use skillwire.Base.Dict.{get, insert, remove, keys}
use skillwire.Catalog.Revision.{to_set}
use skillwire.Candidates.Resolver.{DependencyInput}

pub record Search : Type 0 where
  pub visiting : List String
  pub visited : List String
  pub cyclic : List String
  pub stack : List String

abbrev pub Graph : Type 0
Graph = List (String × List DependencyInput)

abbrev pub names_of : Option (List DependencyInput) → List String
names_of none = []
names_of (some ds) = map (λ d. d.skill_name) ds

-- The names of `graph.get(name) ?? []`
abbrev pub dependencies_of : Graph → String → List String
dependencies_of graph name = names_of (get graph name)

-- The stack from its top down to the deepest entry of the name.
unfoldable pub through : String → List String → List String
through name [] = []
through name (x ∷ xs) =
    let rest = through name xs in if x === name && not (includes xs name) then x ∷ [] else x ∷ rest

abbrev top_only : List String → List String
top_only [] = []
top_only (x ∷ xs) = x ∷ []

-- `stack.slice(stack.indexOf(name))`, which is the top where the name is not on the stack
unfoldable pub slice_from : String → List String → List String
unfolding through
slice_from name stack = if includes stack name then through name stack else top_only stack

abbrev pub popped : List String → List String
popped [] = []
popped (x ∷ xs) = xs

abbrev pub entered : Search → String → Search
entered st name = record st { visiting = insert st.visiting name; stack = name ∷ st.stack }

abbrev pub left : Search → String → Search
left st name = record st {
  stack = popped st.stack;
  visiting = remove st.visiting name;
  visited = insert st.visited name;
}

abbrev pub with_cycle : Search → String → Search
with_cycle st name = record st { cyclic = to_set st.cyclic (slice_from name st.stack) }

-- `for (const name of names) visit(name)`
abbrev pub visit_each : (Search → String → Option Search) → Search → List String → Option Search
visit_each visit st [] = some st
visit_each visit st (name ∷ names) = elim (visit st name) [
  | none ↦ none
  | some next ↦ visit_each visit next names
]

abbrev pub leave : Option Search → String → Option Search
leave none name = none
leave (some st) name = some (left st name)

unfoldable pub visit : Graph → ℕ → Search → String → Option Search
unfolding slice_from
visit graph zero st name = none
visit graph (suc fuel) st name =
    if includes st.visited name
    then some st
    else if includes st.visiting name
    then some (with_cycle st name)
    else leave (visit_each (visit graph fuel) (entered st name) (dependencies_of graph name)) name

abbrev pub start : Search
start = record { visiting = []; visited = []; cyclic = []; stack = [] }

abbrev pub cyclic_of : Option Search → Option (List String)
cyclic_of none = none
cyclic_of (some st) = some st.cyclic

-- The search from every key, with as much fuel as there are keys, and two.
unfoldable pub dependency_cycle_members : Graph → Option (List String)
unfolding visit
dependency_cycle_members graph =
    cyclic_of (visit_each (visit graph (length (keys graph) + 2)) start (keys graph))
