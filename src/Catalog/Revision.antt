-- ===== src/Catalog/Revision.antt =====
-- src/domain/catalog/canonical-revision.ts and revision-integrity.ts: `createSkillRevision` and
-- `assertRevisionIntegrity`.
mod Record
unfoldable pub use Record.*
use skillwire.Base.{
  ◌>>=◌, ◌>>◌, ℕ, ◌+◌, ◌*◌, Bool, not, ◌||◌, List, [], ◌∷◌, map, none, String, length, ltb, ◌==◌,
  ◌===◌, sort_by, Result, ok, error, throw_if,
}
use skillwire.Base.Dict.{insert}
use skillwire.Canonical.{Platform, canonicalize}
use skillwire.Catalog.Text.{Encoding, normalize_utf8, max_text_bytes}
use skillwire.Catalog.Path.{assert_safe_resource_path}

pub record ResourceInput : Type 0 where
  pub path : String
  pub media_type : MediaType
  pub content : String

pub record RevisionInput : Type 0 where
  pub skill_id : String
  pub revision : String
  pub published_provenance : Provenance
  pub instructions : String
  pub resources : List ResourceInput

-- The platform, the encoding, and the order of paths by `localeCompare`.
pub record Services : Type 0 where
  pub platform : Platform
  pub encoding : Encoding
  pub locale_less : String → String → Bool

abbrev pub max_resources : ℕ
max_resources = 64

abbrev pub max_bundle_content_bytes : ℕ
max_bundle_content_bytes = 2 * 1024 * 1024

abbrev pub paths : List VerifiedResource → List String
paths = map (λ r. r.path)

-- `new Set(paths).size`
abbrev pub to_set : List String → List String → List String
to_set set [] = set
to_set set (x ∷ xs) = to_set (insert set x) xs

abbrev pub total_bytes : List VerifiedResource → ℕ
total_bytes [] = 0
total_bytes (r ∷ rs) = r.byte_length + total_bytes rs

module _ (s : Services) where
  unfoldable pub verified_resource : ResourceInput → Result VerifiedResource
  verified_resource input = do
    assert_safe_resource_path input.path
    normalized ← normalize_utf8 s.encoding (s.encoding.encode input.content) max_text_bytes
    ok (record {
      entry = record {
        path = input.path;
        media_type = input.media_type;
        byte_length = normalized.byte_length;
        sha256 = s.platform.sha256 normalized.text;
      };
      content = normalized.text;
    })

  unfoldable pub verified_resources : List ResourceInput → Result (List VerifiedResource)
  verified_resources [] = ok []
  verified_resources (x ∷ xs) =
      let rest = verified_resources xs in do r ← verified_resource x; rs ← rest; ok (r ∷ rs)

  abbrev pub path_less : VerifiedResource → VerifiedResource → Bool
  path_less a b = s.locale_less a.path b.path

  -- `canonicalizeRevision`
  unfoldable pub canonicalize_revision : SkillRevision → Result String
  unfolding payload_json
  canonicalize_revision r = canonicalize s.platform (payload_json r)

  abbrev pub without_bundle_hash : RevisionInput → String → List VerifiedResource → SkillRevision
  without_bundle_hash input instructions resources = record {
    skill_id = input.skill_id;
    revision = input.revision;
    published_provenance = input.published_provenance;
    instructions = instructions;
    instructions_sha256 = s.platform.sha256 instructions;
    resource_manifest = map (λ r. r.entry) resources;
    resources = resources;
    bundle_sha256 = "";
    catalog_origin = none;
    current_classification = none;
    invocation_mode = none;
    dependencies = none;
  }

  unfoldable pub create_skill_revision : RevisionInput → Result SkillRevision
  unfolding verified_resources canonicalize_revision
  create_skill_revision input = do
    throw_if (length input.resources == 0 || ltb max_resources (length input.resources))
        (error "Revision must declare between one and 64 resources")
    instructions ← normalize_utf8 s.encoding (s.encoding.encode input.instructions) max_text_bytes
    loaded ← verified_resources input.resources
    let resources = sort_by path_less loaded
    throw_if (not (length (to_set [] (paths resources)) == length resources))
        (error "Resource paths must be unique")
    throw_if (ltb max_bundle_content_bytes (instructions.byte_length + total_bytes resources))
        (error "Revision content exceeds bundle size")
    canonical ← canonicalize_revision (without_bundle_hash input instructions.text resources)
    ok (record (without_bundle_hash input instructions.text resources) {
      bundle_sha256 = s.platform.sha256 canonical;
    })

  abbrev pub input_of : SkillRevision → RevisionInput
  input_of r = record {
    skill_id = r.skill_id;
    revision = r.revision;
    published_provenance = r.published_provenance;
    instructions = r.instructions;
    resources =
        map (λ x. record { path = x.path; media_type = x.media_type; content = x.content })
          r.resources;
  }

  -- `assertRevisionIntegrity`
  unfoldable pub assert_revision_integrity : SkillRevision → Result SkillRevision
  unfolding create_skill_revision revision_json
  assert_revision_integrity r = do
    reconstructed ← create_skill_revision (input_of r)
    left ← canonicalize s.platform (revision_json reconstructed)
    right ← canonicalize s.platform (revision_json r)
    throw_if (not (left === right)) (error "Revision integrity verification failed")
    ok r
