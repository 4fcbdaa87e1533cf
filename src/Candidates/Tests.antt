-- ===== src/Candidates/Tests.antt =====
-- A candidate's way to being curated, and the theorem at that input.
use skillwire.Base.Dict.{get, insert}
use skillwire.Candidates.CycleFuel.{dependency_cycle_members-returns}
use skillwire.Candidates.CycleMembers.{dependency_cycle_members-IsOnCycles}
use skillwire.Candidates.Cycles.{Graph, dependency_cycle_members}
use skillwire.Candidates.CycleTrail.{IsOnCycles}
use skillwire.Base.{List, [], ◌∷◌, any, ◌≡◌, true, refl, filter_by, String, Bool, false, some}
use mathlib.Core.List.{Perm}
use skillwire.Candidates.Resolver.{DependencyInput, EvidenceKind, resolve_internal_dependencies}
use skillwire.Candidates.Resolution.{is_resolvable, resolve-Perm}
use skillwire.Candidates.Policy.{
  Classification, discovered, verified, curated, Actor, discovery, verifier, administrator, is_step,
  run, run-curated, apply_candidate_transition,
}

abbrev steps : List (Classification × Actor)
steps = (discovered, discovery) ∷ (verified, verifier) ∷ (curated, administrator) ∷ []

run-curated_example :
    (any (is_step verified verifier) steps ≡ true)
    × (any (is_step curated administrator) steps ≡ true)
unfolding run apply_candidate_transition
run-curated_example = run-curated steps refl

abbrev on_docker : DependencyInput
on_docker = record {
  skill_name = "docker";
  required = true;
  evidence_kind = EvidenceKind.manifest;
  evidence_locator = "SKILL.md";
}

abbrev never : String → String → Bool
never s t = false

resolve-Perm_example :
    Perm
      (resolve_internal_dependencies never
        ("lint" ∷ "docker" ∷ [])
        "lint"
        (on_docker ∷ [])).dependencies
      (filter_by (is_resolvable ("lint" ∷ "docker" ∷ []) "lint") (on_docker ∷ []))
resolve-Perm_example = resolve-Perm never ("lint" ∷ "docker" ∷ []) "lint" (on_docker ∷ [])

abbrev needs : String → DependencyInput
needs name = record {
  skill_name = name;
  required = true;
  evidence_kind = EvidenceKind.manifest;
  evidence_locator = "SKILL.md";
}

abbrev a_graph : Graph
a_graph = ("a", needs "b" ∷ []) ∷ ("b", needs "a" ∷ needs "c" ∷ []) ∷ ("c", []) ∷ []

members-eq : dependency_cycle_members a_graph ≡ some ("b" ∷ "a" ∷ [])
unfolding dependency_cycle_members get insert
members-eq = refl

dependency_cycle_members-returns_example :
    (members : List String) × (dependency_cycle_members a_graph ≡ some members)
dependency_cycle_members-returns_example = dependency_cycle_members-returns a_graph

dependency_cycle_members-IsOnCycles_example : IsOnCycles a_graph ("b" ∷ "a" ∷ [])
dependency_cycle_members-IsOnCycles_example =
    dependency_cycle_members-IsOnCycles a_graph ("b" ∷ "a" ∷ []) members-eq
