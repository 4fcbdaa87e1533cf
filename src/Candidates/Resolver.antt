-- ===== src/Candidates/Resolver.antt =====
-- src/domain/external-catalog/dependency-resolver.ts: `resolveInternalDependencies`. `locale_less` is
-- the comparison by `localeCompare`.
use skillwire.Base.{
  ℕ, ◌+◌, Bool, true, false, not, ◌&&◌, ◌||◌, List, [], ◌∷◌, ◌==◌, ltb, String, Option, none, some,
  if◌then◌else◌, ◌===◌, sort_by,
}
use skillwire.Base.Dict.{get, put}
use skillwire.Canonical.{◌<>◌}

pub data EvidenceKind : Type 0 where
  manifest frontmatter explicit_invocation : EvidenceKind

-- The fields of `ExternalDependencyInput` that the resolver reads, and the locator that it passes on.
pub record DependencyInput : Type 0 where
  pub skill_name : String
  pub required : Bool
  pub evidence_kind : EvidenceKind
  pub evidence_locator : String

pub data ReasonCode : Type 0 where
  dependency_ambiguous dependency_missing : ReasonCode

-- The findings of the resolver are all errors of a candidate.
pub record Finding : Type 0 where
  pub code : ReasonCode
  pub subject_id : String

pub record DependencyResolution : Type 0 where
  pub dependencies : List DependencyInput
  pub findings : List Finding

abbrev pub or_zero : Option ℕ → ℕ
or_zero none = 0
or_zero (some n) = n

unfoldable pub count_names : List (String × ℕ) → List String → List (String × ℕ)
count_names counts [] = counts
count_names counts (name ∷ names) =
    count_names (put counts name (or_zero (get counts name) + 1)) names

abbrev is_explicit_invocation : EvidenceKind → Bool
is_explicit_invocation explicit_invocation = true
is_explicit_invocation _ = false

-- Whether a dependency that is not resolved is an error.
abbrev pub is_binding : DependencyInput → Bool
is_binding d = d.required && not (is_explicit_invocation d.evidence_kind)

abbrev pub finding_of : ReasonCode → String → DependencyInput → Finding
finding_of code source d = record { code = code; subject_id = source <> ":" <> d.skill_name }

-- The loop over the evidence.
unfoldable pub resolve_from :
    List (String × ℕ) → String → List DependencyInput → List DependencyInput × List Finding
resolve_from counts source [] = ([], [])
resolve_from counts source (d ∷ ds) =
    let rest = resolve_from counts source ds in
    let count = or_zero (get counts d.skill_name) in
    if d.skill_name === source || ltb 1 count
    then (
      rest.0,
      if is_binding d then finding_of dependency_ambiguous source d ∷ rest.1 else rest.1,
    )
    else if count == 0
    then (rest.0, if is_binding d then finding_of dependency_missing source d ∷ rest.1 else rest.1)
    else (d ∷ rest.0, rest.1)

module _ (locale_less : String → String → Bool) where
  unfoldable pub resolve_internal_dependencies :
      List String → String → List DependencyInput → DependencyResolution
  unfolding count_names resolve_from
  resolve_internal_dependencies names source evidence =
      let found = resolve_from (count_names [] names) source evidence in
      record {
        dependencies = sort_by (λ a b. locale_less a.skill_name b.skill_name) found.0;
        findings = sort_by (λ a b. locale_less a.subject_id b.subject_id) found.1;
      }
