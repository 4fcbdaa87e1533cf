-- ===== src/Ranking/Score.antt =====
-- src/domain/catalog/ranking.ts and src/domain/repository-memory/outcome.ts: the score of a skill for
-- a task, and `rankSkills`.
--
-- The platform's Unicode part is a parameter: the matches of the token pattern, the folding of a token
-- (`normalize("NFKD").toLocaleLowerCase("en-US")`), and the order of identifiers (`localeCompare`).
use Prim.Native.Char.{code}
use Prim.Native.String.{String}
use skillwire.Base.{
  ℕ, ◌+◌, ◌*◌, Bool, true, false, not, ◌&&◌, ◌||◌, List, [], ◌∷◌, map, Option, none, some,
  if◌then◌else◌, ◌==◌, ltb, leb, ◌===◌, includes, utf16_length, filter_by, take, sort_by, Result,
  ok, throw,
}
use skillwire.Base.Dict.{insert, get, put}
use skillwire.Canonical.{◌<>◌, join}
use skillwire.Catalog.Revision.{Trust, GitHubOrigin, CurrentClassification, InvocationMode}
use skillwire.Advisory.Event.{Status, is_revoked}

pub record Words : Type 0 where
  pub matches : String → List String
  pub fold : String → String
  pub locale_less : String → String → Bool

pub data SkillOutcome : Type 0 where
  useful neutral unsuccessful : SkillOutcome

-- `parseSkillOutcome`
unfoldable pub parse_skill_outcome : String → Result SkillOutcome
parse_skill_outcome value =
    if value === "useful"
    then ok useful
    else if value === "neutral"
    then ok neutral
    else if value === "unsuccessful"
    then ok unsuccessful
    else throw "Outcome must be useful, neutral, or unsuccessful"

unfoldable pub memory_boost_for_outcome : Option SkillOutcome → ℕ
memory_boost_for_outcome (some useful) = 2
memory_boost_for_outcome (some unsuccessful) = 0
memory_boost_for_outcome _ = 1

pub record UsageProjection : Type 0 where
  pub skill_id : String
  pub revision : String
  pub outcome : Option SkillOutcome

-- `CatalogSkillMetadata`
pub record Skill : Type 0 where
  pub id : String
  pub name : String
  pub description : String
  pub capabilities : List String
  pub revision : String
  pub trust_at_publication : Trust
  pub current_advisory_status : Status
  pub catalog_origin : Option GitHubOrigin
  pub current_classification : Option CurrentClassification
  pub invocation_mode : Option InvocationMode

pub record RankedSkill : Type 0 where
  pub skill : Skill
  pub score : ℕ
  pub memory_boost : ℕ
  pub matching_capabilities : List String

abbrev non_discriminating_tokens : List String
non_discriminating_tokens =
    "a" ∷ "an" ∷ "and" ∷ "are" ∷ "as" ∷ "at" ∷ "be" ∷ "by" ∷ "for" ∷ "from" ∷ "in" ∷ "into" ∷ "is"
    ∷ "it" ∷ "of" ∷ "on" ∷ "or" ∷ "that" ∷ "the" ∷ "this" ∷ "to" ∷ "with" ∷ []

-- `text.endsWith("s")`, `text.slice(0, -1)`, `text.startsWith(prefix)` and `text.includes(part)`
unfoldable pub ends_in_s : String → Bool
ends_in_s String.[] = false
ends_in_s (String.◌∷◌ c String.[]) = code c == b's'
ends_in_s (String.◌∷◌ c (String.◌∷◌ d s)) = ends_in_s (String.◌∷◌ d s)

unfoldable pub drop_last : String → String
drop_last String.[] = String.[]
drop_last (String.◌∷◌ c String.[]) = String.[]
drop_last (String.◌∷◌ c (String.◌∷◌ d s)) = String.◌∷◌ c (drop_last (String.◌∷◌ d s))

unfoldable pub starts_with : String → String → Bool
starts_with s String.[] = true
starts_with String.[] (String.◌∷◌ d t) = false
starts_with (String.◌∷◌ c s) (String.◌∷◌ d t) = code c == code d && starts_with s t

unfoldable pub contains : String → String → Bool
unfolding starts_with
contains String.[] part = starts_with String.[] part
contains (String.◌∷◌ c s) part = starts_with (String.◌∷◌ c s) part || contains s part

add_all : List String → List String → List String
add_all set [] = set
add_all set (x ∷ xs) = add_all (insert set x) xs

unfoldable pub intersection_size : List String → List String → ℕ
intersection_size [] right = 0
intersection_size (t ∷ left) right =
    (if includes right t then 1 else 0) + intersection_size left right

module _ (w : Words) where
  unfoldable pub normalize_token : String → String
  unfolding ends_in_s drop_last
  normalize_token token =
      let normalized = w.fold token in
      if ltb 3 (utf16_length normalized) && ends_in_s normalized
      then drop_last normalized
      else normalized

  unfoldable pub tokenize : String → List String
  unfolding normalize_token add_all
  tokenize value = add_all [] (
      filter_by (λ t. not (includes non_discriminating_tokens t))
        (map normalize_token (w.matches value)))

  -- `matched` of a capability, and what it adds to the score.
  abbrev pub is_matching : List String → String → Bool
  is_matching query capability = ltb 0 (intersection_size query (tokenize capability))

  unfoldable pub capability_score : List String → List String → ℕ
  unfolding tokenize intersection_size contains
  capability_score query [] = 0
  capability_score query (c ∷ cs) =
      (if is_matching query c && contains (join " " query) (join " " (tokenize c)) then 4 else 0)
      + capability_score query cs

  unfoldable pub score_skill : Skill → String → ℕ → RankedSkill
  unfolding tokenize intersection_size capability_score
  score_skill s task boost =
      let query = tokenize task in
      record {
        skill = s;
        score =
            intersection_size query (tokenize (s.id <> " " <> s.name)) * 6
            + intersection_size query (tokenize (join " " s.capabilities)) * 8
            + intersection_size query (tokenize s.description) * 2
            + capability_score query s.capabilities;
        memory_boost = boost;
        matching_capabilities = filter_by (is_matching query) s.capabilities;
      }

  abbrev memory_key : String → String → String
  memory_key id revision = id <> "\0" <> revision

  unfoldable pub memory_by_revision : List (String × ℕ) → List UsageProjection → List (String × ℕ)
  unfolding memory_boost_for_outcome
  memory_by_revision m [] = m
  memory_by_revision m (e ∷ es) =
      memory_by_revision
        (put m (memory_key e.skill_id e.revision) (memory_boost_for_outcome e.outcome)) es

  abbrev pub boost_or_zero : Option ℕ → ℕ
  boost_or_zero none = 0
  boost_or_zero (some n) = n

  -- What the memory adds for a skill's current revision.
  unfoldable pub boost_of : List UsageProjection → Skill → ℕ
  unfolding memory_by_revision
  boost_of memory s =
      boost_or_zero (get (memory_by_revision [] memory) (memory_key s.id s.revision))

  abbrev pub scored_skills : List Skill → String → List UsageProjection → List RankedSkill
  scored_skills skills task memory =
      map (λ s. score_skill s task (boost_of memory s))
        (filter_by (λ s. not (is_revoked s.current_advisory_status)) skills)

  -- The skills that are not revoked and reach the minimum score, in the order of the catalog.
  unfoldable pub relevant_skills : List Skill → String → List UsageProjection → List RankedSkill
  unfolding score_skill boost_of
  relevant_skills skills task memory =
      filter_by (λ r. leb 1 r.score) (scored_skills skills task memory)

  -- Whether the comparison of `sort` is negative.
  abbrev pub goes_before : RankedSkill → RankedSkill → Bool
  goes_before a b =
      if not (a.score == b.score)
      then ltb b.score a.score
      else if not (a.memory_boost == b.memory_boost)
      then ltb b.memory_boost a.memory_boost
      else w.locale_less a.skill.id b.skill.id

  unfoldable pub rank_skills : List Skill → String → ℕ → List UsageProjection → List RankedSkill
  unfolding relevant_skills
  rank_skills skills task limit memory =
      take limit (sort_by goes_before (relevant_skills skills task memory))
