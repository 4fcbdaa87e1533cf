-- ===== src/Delivery/Search.antt =====
-- src/application/use-cases/search-skills.ts: `createSearchSkills`.
--
-- The words of a task, the catalog's list and the memory's projection are parameters.
use skillwire.Base.{
  ◌>>=◌, ℕ, suc, Bool, true, false, not, ◌||◌, List, [], ◌∷◌, filter_by, Option, none, some, String,
  Result, ok,
}
use skillwire.Advisory.Event.{Status}
use skillwire.Catalog.Revision.{
  Trust, GitHubOrigin, CurrentClassification, InvocationMode, user_only,
}
use skillwire.Delivery.Errors.{MemoryScope, repository_memory_scope}
use skillwire.Ranking.Score.{Words, Skill, RankedSkill, UsageProjection, rank_skills}

pub data InvocationContext : Type 0 where
  automatic_context user_requested : InvocationContext

pub record SearchInput : Type 0 where
  pub task : String
  pub repository_hash : Option String
  pub limit : Option ℕ
  pub invocation_context : Option InvocationContext

pub record ImportedPreview : Type 0 where
  pub catalog_origin : GitHubOrigin
  pub current_classification : Option CurrentClassification
  pub invocation_mode : Option InvocationMode

pub record SearchPreview : Type 0 where
  pub rank : ℕ
  pub skill_id : String
  pub name : String
  pub summary : String
  pub matching_capabilities : List String
  pub trust_at_publication : Trust
  pub current_advisory_status : Status
  pub revision : String
  pub imported : Option ImportedPreview

abbrev pub imported_preview : Skill → Option GitHubOrigin → Option ImportedPreview
imported_preview k none = none
imported_preview k (some origin) = some (record {
  catalog_origin = origin;
  current_classification = k.current_classification;
  invocation_mode = k.invocation_mode;
})

abbrev pub preview_of : ℕ → RankedSkill → SearchPreview
preview_of rank r = record {
  rank = rank;
  skill_id = r.skill.id;
  name = r.skill.name;
  summary = r.skill.description;
  matching_capabilities = r.matching_capabilities;
  trust_at_publication = r.skill.trust_at_publication;
  current_advisory_status = r.skill.current_advisory_status;
  revision = r.skill.revision;
  imported = imported_preview r.skill r.skill.catalog_origin;
}

-- `ranked.map((result, index) => …)`, from a rank on
unfoldable pub previews : ℕ → List RankedSkill → List SearchPreview
previews rank [] = []
previews rank (r ∷ rs) = preview_of rank r ∷ previews (suc rank) rs

abbrev pub is_user_requested : Option InvocationContext → Bool
is_user_requested (some user_requested) = true
is_user_requested _ = false

abbrev pub is_user_only : Option InvocationMode → Bool
is_user_only (some user_only) = true
is_user_only _ = false

-- `input.limit ?? 5`
abbrev pub limit_of : Option ℕ → ℕ
limit_of none = 5
limit_of (some n) = n

-- The skills that may be shown.
abbrev pub offered : Option InvocationContext → List Skill → List Skill
offered context = filter_by (λ k. is_user_requested context || not (is_user_only k.invocation_mode))

module _ (w : Words) (ranking_projection : MemoryScope → Result (List UsageProjection))
    (list_metadata : Result (List Skill)) where
  -- The memory of the repository that is named.
  abbrev pub memory_of : String → Option String → Result (List UsageProjection)
  memory_of account_id none = ok []
  memory_of account_id (some hash) = do
    scope ← repository_memory_scope account_id hash
    ranking_projection scope

  abbrev pub found_skills : SearchInput → List Skill → List UsageProjection → List RankedSkill
  found_skills input skills memory =
      rank_skills w (offered input.invocation_context skills) input.task (limit_of input.limit)
        memory

  unfoldable pub search_skills : String → SearchInput → Result (List SearchPreview)
  unfolding previews rank_skills repository_memory_scope
  search_skills account_id input = do
    memory ← memory_of account_id input.repository_hash
    skills ← list_metadata
    ok (previews 1 (found_skills input skills memory))
