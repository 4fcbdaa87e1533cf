-- ===== src/Catalog/Revision/Record.antt =====
-- src/domain/catalog/types.ts and canonical-revision.ts: a revision of a skill, and the values that its
-- hash and its integrity check are taken of.
--
-- An optional property of the source is absent where the field is `none`.
use skillwire.Base.{ℕ, Bool, List, [], ◌∷◌, Option, none, some, String}
use skillwire.Canonical.{
  Json, Items, Fields, number, text, array, object, boolean, nil, cons, end, field,
}

pub data Trust : Type 0 where
  trusted structurally_verified : Trust

pub record Provenance : Type 0 where
  pub provider : String
  pub reference : String
  pub source_revision : String
  pub owner : String
  pub license : String
  pub trust_at_publication : Trust

pub data MediaType : Type 0 where
  markdown plain : MediaType

pub record ManifestEntry : Type 0 where
  pub path : String
  pub media_type : MediaType
  pub byte_length : ℕ
  pub sha256 : String

pub record VerifiedResource : Type 0 where
  pub entry : ManifestEntry
  pub open entry use *
  pub content : String

pub record Notice : Type 0 where
  pub sha256 : String
  pub path : String

pub record GitHubOrigin : Type 0 where
  pub owner : String
  pub repository : String
  pub commit_sha : String
  pub skill_path : String
  pub spdx_id : String
  pub attribution : String
  pub evidence_sha256 : Option String
  pub evidence_path : Option String
  pub notice : Option Notice

pub data CurrentClassification : Type 0 where
  verified curated : CurrentClassification

pub data InvocationMode : Type 0 where
  automatic user_only : InvocationMode

pub data EvidenceKind : Type 0 where
  manifest frontmatter explicit_invocation : EvidenceKind

pub record DependencyReference : Type 0 where
  pub skill_id : String
  pub revision : String
  pub required : Bool
  pub evidence_kind : EvidenceKind

pub record SkillRevision : Type 0 where
  pub skill_id : String
  pub revision : String
  pub published_provenance : Provenance
  pub instructions : String
  pub instructions_sha256 : String
  pub resource_manifest : List ManifestEntry
  pub resources : List VerifiedResource
  pub bundle_sha256 : String
  pub catalog_origin : Option GitHubOrigin
  pub current_classification : Option CurrentClassification
  pub invocation_mode : Option InvocationMode
  pub dependencies : Option (List DependencyReference)

abbrev trust_text : Trust → String
trust_text trusted = "trusted"
trust_text structurally_verified = "structurally-verified"

abbrev media_type_text : MediaType → String
media_type_text markdown = "text/markdown"
media_type_text plain = "text/plain"

abbrev classification_text : CurrentClassification → String
classification_text verified = "verified"
classification_text curated = "curated"

abbrev mode_text : InvocationMode → String
mode_text automatic = "automatic"
mode_text user_only = "user-only"

abbrev evidence_text : EvidenceKind → String
evidence_text manifest = "manifest"
evidence_text frontmatter = "frontmatter"
evidence_text explicit_invocation = "explicit-invocation"

abbrev provenance_json : Provenance → Json
provenance_json p = object (
    field "source"
      (object (field "provider" (text p.provider) (field "reference" (text p.reference) end)))
      (field "sourceRevision" (text p.source_revision) (
        field "owner" (text p.owner) (
          field "license" (text p.license)
            (field "trustAtPublication" (text (trust_text p.trust_at_publication)) end)))))

abbrev pub entry_fields : ManifestEntry → Fields → Fields
entry_fields e rest = field "path" (text e.path) (
    field "mediaType" (text (media_type_text e.media_type))
      (field "byteLength" (number e.byte_length) (field "sha256" (text e.sha256) rest)))

abbrev pub items {ℓ} : {A : Type ℓ} → (A → Json) → List A → Items
items f [] = nil
items f (x ∷ xs) = cons (f x) (items f xs)

abbrev optional_field {ℓ} : {A : Type ℓ} → String → (A → Json) → Option A → Fields → Fields
optional_field key f none rest = rest
optional_field key f (some x) rest = field key (f x) rest

abbrev origin_json : GitHubOrigin → Json
origin_json o = object (
    field "kind" (text "github") (
      field "owner" (text o.owner) (
        field "repository" (text o.repository) (
          field "commitSha" (text o.commit_sha) (
            field "skillPath" (text o.skill_path) (
              field "license"
                (object (
                  field "spdxId" (text o.spdx_id) (
                    field "attribution" (text o.attribution) (
                      optional_field "evidenceSha256" text o.evidence_sha256 (
                        optional_field "evidencePath" text o.evidence_path (
                          optional_field "notice"
                            (λ n.
                              object
                                (field "sha256" (text n.sha256) (field "path" (text n.path) end)))
                            o.notice end))))))
                end))))))

abbrev dependency_json : DependencyReference → Json
dependency_json d = object (
    field "skillId" (text d.skill_id) (
      field "revision" (text d.revision) (
        field "required" (boolean d.required)
          (field "evidenceKind" (text (evidence_text d.evidence_kind)) end))))

-- `canonicalPayload`
unfoldable pub payload_json : SkillRevision → Json
payload_json r = object (
    field "schemaVersion" (number 1) (
      field "skillId" (text r.skill_id) (
        field "revision" (text r.revision) (
          field "publishedProvenance" (provenance_json r.published_provenance) (
            field "instructions" (text r.instructions) (
              field "resourceManifest"
                (array (items (λ e. object (entry_fields e end)) r.resource_manifest))
                (field "resources"
                  (array (
                    items
                      (λ x.
                        object (field "path" (text x.path) (field "content" (text x.content) end)))
                      r.resources))
                  end)))))))

-- The revision itself, as `canonicalJson` reads it.
unfoldable pub revision_json : SkillRevision → Json
revision_json r = object (
    field "skillId" (text r.skill_id) (
      field "revision" (text r.revision) (
        field "publishedProvenance" (provenance_json r.published_provenance) (
          field "instructions" (text r.instructions) (
            field "instructionsSha256" (text r.instructions_sha256) (
              field "resourceManifest"
                (array (items (λ e. object (entry_fields e end)) r.resource_manifest))
                (field "resources"
                  (array (
                    items
                      (λ x. object (entry_fields x.entry (field "content" (text x.content) end)))
                      r.resources))
                  (field "bundleSha256" (text r.bundle_sha256) (
                    optional_field "catalogOrigin" origin_json r.catalog_origin (
                      optional_field "currentClassification" (λ c. text (classification_text c))
                        r.current_classification
                        (optional_field "invocationMode" (λ m. text (mode_text m)) r.invocation_mode
                          (optional_field "dependencies" (λ ds. array (items dependency_json ds))
                            r.dependencies end))))))))))))
