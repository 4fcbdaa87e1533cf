-- ===== src/Delivery/Tests.antt =====
-- A load, a read and a search of one imported skill, and the theorems at that input.
use skillwire.Catalog.Created.{IsComparison}
use skillwire.Catalog.Path.{assert_safe_resource_path, is_unsafe_path}
use skillwire.Base.Dict.{insert}
use skillwire.Base.{
  true, false, List, [], ◌∷◌, none, some, ◌≡◌, refl, codes, String, Result, ok, err, coded,
  not_found, is_sha256, utf16_length, is_git_sha, Bool, sort_by,
}
use skillwire.Advisory.Event.{Status}
use skillwire.Catalog.Revision.{
  Services, SkillRevision, Trust, MediaType, ManifestEntry, InvocationMode, CurrentClassification,
}
use skillwire.Delivery.Errors.{MemoryScope}
use skillwire.Delivery.Load.{
  Answers, Request, LoadSkillInput, LoadSkillResult, Usage, load_skill, result_of,
}
use skillwire.Delivery.LoadOnce.{
  IsLoaded, IsRemembered, IsUndone, load_skill-IsLoaded, load_skill-IsUndone,
}
use skillwire.Delivery.Read.{
  ReadInput, ReadResult, read_result, IsRead, read_skill_resource, read_skill_resource-IsRead,
}
use skillwire.Delivery.Unified.{list_metadata, all_answers}
use skillwire.Delivery.UnifiedLaws.{IsListing, list_metadata-IsListing}
use skillwire.Delivery.Search.{SearchInput, SearchPreview, search_skills, memory_of}
use skillwire.Delivery.SearchLaws.{IsAnswer, search_skills-IsAnswer}
use skillwire.Ranking.Score.{Words, Skill, UsageProjection}

abbrev a_hash : String
a_hash = "aaaaaaaaaaaaaaaaaaaaaaaaaaaaaaaaaaaaaaaaaaaaaaaaaaaaaaaaaaaaaaaa"

abbrev services : Services
services = record {
  platform = record {
    quote = λ s. s;
    number_text = λ n. "0";
    locale_less = λ s t. false;
    code_unit_less = λ s t. false;
    sha256 = λ s. a_hash;
  };
  encoding = record { encode = codes; decode = λ bytes. none; nfc = λ s. s };
  locale_less = λ s t. false;
}

abbrev note : ManifestEntry
note = record { path = "NOTE"; media_type = MediaType.plain; byte_length = 4; sha256 = a_hash }

abbrev lint : SkillRevision
lint = record {
  skill_id = "lint";
  revision = "v1";
  published_provenance = record {
    provider = "github";
    reference = "owner/lint";
    source_revision = "v1";
    owner = "owner";
    license = "MIT";
    trust_at_publication = Trust.structurally_verified;
  };
  instructions = "Run lint.";
  instructions_sha256 = a_hash;
  resource_manifest = note ∷ [];
  resources = record { entry = note; content = "Note" } ∷ [];
  bundle_sha256 = a_hash;
  catalog_origin = some (record {
    owner = "owner";
    repository = "lint";
    commit_sha = "bbbbbbbbbbbbbbbbbbbbbbbbbbbbbbbbbbbbbbbb";
    skill_path = "lint";
    spdx_id = "MIT";
    attribution = "owner";
    evidence_sha256 = none;
    evidence_path = none;
    notice = none;
  });
  current_classification = some CurrentClassification.verified;
  invocation_mode = some InvocationMode.automatic;
  dependencies = some [];
}

abbrev answers : Answers
answers = record {
  first_status = ok (some Status.available);
  found = ok (some lint);
  last_status = ok (some Status.unavailable);
}

-- A revocation between the two questions on the status.
abbrev revoked_meanwhile : Answers
revoked_meanwhile = record answers { last_status = ok (some Status.revoked) }

abbrev request : Request
request = record { now = 5; execution = none; account_id = "account" }

abbrev input : LoadSkillInput
input = record { skill_id = "lint"; revision = "v1"; repository_hash = some a_hash }

abbrev record_usage : MemoryScope → Usage → List Usage → Result (Unit {0}) × List Usage
record_usage scope usage memory = (ok tt, usage ∷ memory)

abbrev loaded : LoadSkillResult
loaded = result_of lint Status.unavailable true

abbrev usage : Usage
usage = record { skill_id = "lint"; revision = "v1"; revision_sha256 = a_hash }

loaded-eq : load_skill services record_usage answers request input [] ≡ (ok loaded, usage ∷ [])
unfolding load_skill is_sha256 utf16_length insert is_git_sha
loaded-eq = refl

load_skill-IsLoaded_example :
    IsLoaded services record_usage answers input loaded
    × IsRemembered services record_usage request (some a_hash) loaded [] (usage ∷ [])
load_skill-IsLoaded_example =
    load_skill-IsLoaded services record_usage answers request input loaded [] (usage ∷ []) loaded-eq

refused-eq :
    load_skill services record_usage revoked_meanwhile request input []
    ≡ (err (coded not_found), [])
unfolding load_skill
refused-eq = refl

load_skill-IsUndone_example : IsUndone services record_usage (coded not_found) [] []
load_skill-IsUndone_example =
    load_skill-IsUndone services record_usage revoked_meanwhile request input (coded not_found) []
      [] refused-eq

abbrev read_input : ReadInput
read_input = record { skill_id = "lint"; revision = "v1"; path = "NOTE" }

abbrev note_read : ReadResult
note_read = read_result lint (record { entry = note; content = "Note" })

read-eq : read_skill_resource services answers read_input ≡ ok note_read
unfolding read_skill_resource assert_safe_resource_path is_unsafe_path utf16_length
read-eq = refl

read_skill_resource-IsRead_example : IsRead services answers read_input note_read
read_skill_resource-IsRead_example =
    read_skill_resource-IsRead services answers read_input note_read read-eq

unread-eq : read_skill_resource services revoked_meanwhile read_input ≡ err (coded not_found)
unfolding read_skill_resource assert_safe_resource_path is_unsafe_path utf16_length
unread-eq = refl

abbrev words : Words
words = record { matches = λ s. s ∷ []; fold = λ s. s; locale_less = λ s t. false }

abbrev skill : String → InvocationMode → Skill
skill name mode = record {
  id = name;
  name = name;
  description = "docker";
  capabilities = [];
  revision = "v1";
  trust_at_publication = Trust.structurally_verified;
  current_advisory_status = Status.available;
  catalog_origin = none;
  current_classification = none;
  invocation_mode = some mode;
}

abbrev skills : List Skill
skills = skill "lint" InvocationMode.user_only ∷ skill "build" InvocationMode.automatic ∷ []

abbrev projection : MemoryScope → Result (List UsageProjection)
projection scope = ok []

abbrev search_input : SearchInput
search_input = record {
  task = "docker";
  repository_hash = none;
  limit = none;
  invocation_context = none;
}

abbrev answer_or_empty : Result (List SearchPreview) → List SearchPreview
answer_or_empty (ok ps) = ps
answer_or_empty (err e) = []

answer : List SearchPreview
unfolding search_skills
answer = answer_or_empty (search_skills words projection (ok skills) "account" search_input)

answer-eq : search_skills words projection (ok skills) "account" search_input ≡ ok answer
unfolding search_skills answer
answer-eq = refl

search_skills-IsAnswer_example :
    (memory : List UsageProjection) × (found : List Skill) × (memory_of words projection
        (ok skills)
        "account"
        none
      ≡ ok memory)
    × (ok skills ≡ ok found)
    × IsAnswer words search_input found memory answer
search_skills-IsAnswer_example =
    search_skills-IsAnswer words projection (ok skills) "account" search_input answer answer-eq

-- No text is less than another.
abbrev level : String → String → Bool
level a b = false

level-IsComparison : IsComparison level
level-IsComparison = record { asymmetric = λ a b h. refl; transitive = λ a b c h k. refl }

-- One skill and revision, imported and the program's own, from two providers.
abbrev imported : Skill
imported = record (skill "lint" InvocationMode.automatic) { catalog_origin = lint.catalog_origin }

abbrev own : Skill
own = skill "lint" InvocationMode.automatic

unified-eq : list_metadata level (ok (imported ∷ []) ∷ ok (own ∷ []) ∷ []) ≡ ok (own ∷ [])
unfolding list_metadata sort_by
unified-eq = refl

list_metadata-IsListing_example :
    (values : List Skill) × (all_answers (ok (imported ∷ []) ∷ ok (own ∷ []) ∷ []) ≡ ok values)
    × IsListing values (own ∷ [])
list_metadata-IsListing_example =
    list_metadata-IsListing level level-IsComparison (ok (imported ∷ []) ∷ ok (own ∷ []) ∷ [])
      (own ∷ []) unified-eq
