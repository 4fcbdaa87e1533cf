-- ===== src/Delivery/Load.antt =====
-- src/application/use-cases/load-skill.ts: `createLoadSkill`.
--
-- What the catalog provider answers to the calls of one load is a record: an answer may differ from
-- another, since a revocation can come between them. The memory store is a parameter, on a state of its own.
use skillwire.Base.{
  ◌>>=◌, ◌>>◌, ℕ, Bool, true, false, List, [], Option, none, some, String, Result, ok, err,
  throw_if, coded, not_found, revision_unavailable, caught_as, if◌then◌else◌,
}
use skillwire.Advisory.Event.{Status, available, unavailable, is_revoked}
use skillwire.Catalog.Revision.{
  Services, ManifestEntry, Provenance, SkillRevision, GitHubOrigin, CurrentClassification,
  InvocationMode, DependencyReference,
}
use skillwire.Delivery.Errors.{
  RequestExecution, MemoryScope, repository_memory_scope, assert_current_request_active,
}
use skillwire.Delivery.Exact.{assert_verified_exact_revision}

pub record LoadSkillInput : Type 0 where
  pub skill_id : String
  pub revision : String
  pub repository_hash : Option String

-- The properties that an imported revision adds.
pub record Imported : Type 0 where
  pub catalog_origin : GitHubOrigin
  pub current_classification : Option CurrentClassification
  pub invocation_mode : Option InvocationMode
  pub dependencies : List DependencyReference

pub record LoadSkillResult : Type 0 where
  pub skill_id : String
  pub revision : String
  pub revision_sha256 : String
  pub published_provenance : Provenance
  pub current_advisory_status : Status
  pub instructions : String
  pub resource_manifest : List ManifestEntry
  pub memory_recorded : Bool
  pub imported : Option Imported

-- `RecordUsageInput`
pub record Usage : Type 0 where
  pub skill_id : String
  pub revision : String
  pub revision_sha256 : String

-- What the provider answers: the status before, the revision, and the status after it.
pub record Answers : Type 0 where
  pub first_status : Result (Option Status)
  pub found : Result (Option SkillRevision)
  pub last_status : Result (Option Status)

-- The time, the request that is being served, and its account.
pub record Request : Type 0 where
  pub now : ℕ
  pub execution : Option RequestExecution
  pub account_id : String

abbrev pub is_revoked_now : Option Status → Bool
is_revoked_now none = false
is_revoked_now (some status) = is_revoked status

abbrev pub is_unavailable : Option Status → Bool
is_unavailable (some unavailable) = true
is_unavailable _ = false

-- `finalStatus ?? status ?? "available"`
abbrev pub current_status : Option Status → Option Status → Status
current_status (some last) first = last
current_status none (some first) = first
current_status none none = available

abbrev pub is_given {ℓ} : {A : Type ℓ} → Option A → Bool
is_given none = false
is_given (some x) = true

abbrev pub dependencies_of : Option (List DependencyReference) → List DependencyReference
dependencies_of none = []
dependencies_of (some ds) = ds

abbrev pub imported_of : SkillRevision → Option GitHubOrigin → Option Imported
imported_of r none = none
imported_of r (some origin) = some (record {
  catalog_origin = origin;
  current_classification = r.current_classification;
  invocation_mode = r.invocation_mode;
  dependencies = dependencies_of r.dependencies;
})

abbrev pub result_of : SkillRevision → Status → Bool → LoadSkillResult
result_of r status recorded = record {
  skill_id = r.skill_id;
  revision = r.revision;
  revision_sha256 = r.bundle_sha256;
  published_provenance = r.published_provenance;
  current_advisory_status = status;
  instructions = r.instructions;
  resource_manifest = r.resource_manifest;
  memory_recorded = recorded;
  imported = imported_of r r.catalog_origin;
}

-- The revision that was found, or the error that tells why none was.
abbrev pub required : Answers → Option SkillRevision → Result SkillRevision
required a none = do
  latest ← a.last_status
  err (coded (if is_unavailable latest then revision_unavailable else not_found))
required a (some r) = ok r

-- A revision that is not revoked before or after it is found.
unfoldable pub current_revision : Answers → Result (SkillRevision × Status)
current_revision a = do
  status ← a.first_status
  throw_if (is_revoked_now status) (coded not_found)
  found ← caught_as revision_unavailable a.found
  r ← required a found
  final ← a.last_status
  throw_if (is_revoked_now final) (coded not_found)
  ok (r, current_status final status)

module _ (s : Services) {S : Type 0}
    (record_usage : MemoryScope → Usage → S → Result (Unit {0}) × S) where
  -- The checks of a load, which leave the memory as it is.
  unfoldable pub checked : Answers → Request → LoadSkillInput → Result LoadSkillResult
  unfolding current_revision assert_verified_exact_revision assert_current_request_active
  checked a q input = do
    current ← current_revision a
    assert_verified_exact_revision s current.0 input.skill_id input.revision
    assert_current_request_active q.execution q.now
    ok (result_of current.0 current.1 (is_given input.repository_hash))

  abbrev pub usage_of : LoadSkillResult → Usage
  usage_of result = record {
    skill_id = result.skill_id;
    revision = result.revision;
    revision_sha256 = result.revision_sha256;
  }

  abbrev pub answered : LoadSkillResult → Result (Unit {0}) × S → Result LoadSkillResult × S
  answered result (ok _, memory) = (ok result, memory)
  answered result (err e, memory) = (err e, memory)

  abbrev pub recorded : LoadSkillResult → Result MemoryScope → S → Result LoadSkillResult × S
  recorded result (err e) memory = (err e, memory)
  recorded result (ok scope) memory = answered result (record_usage scope (usage_of result) memory)

  abbrev pub remembered : Request → Option String → LoadSkillResult → S → Result LoadSkillResult × S
  remembered q none result memory = (ok result, memory)
  remembered q (some hash) result memory =
      recorded result (repository_memory_scope q.account_id hash) memory

  abbrev pub delivered :
      Request → LoadSkillInput → Result LoadSkillResult → S → Result LoadSkillResult × S
  delivered q input (err e) memory = (err e, memory)
  delivered q input (ok result) memory = remembered q input.repository_hash result memory

  unfoldable pub load_skill : Answers → Request → LoadSkillInput → S → Result LoadSkillResult × S
  unfolding checked repository_memory_scope
  load_skill a q input memory = delivered q input (checked a q input) memory
