-- ===== src/Delivery/Exact.antt =====
-- src/application/use-cases/load-skill.ts: `assertVerifiedExactRevision`.
use skillwire.Base.{
  ◌>>=◌, ◌>>◌, Bool, true, false, not, ◌&&◌, ◌||◌, List, [], ◌∷◌, map, length, ◌==◌, ◌===◌, Option,
  none, some, String, utf16_length, Result, ok, error, throw, throw_if, caught_as,
  revision_unavailable, is_sha256, is_git_sha, if◌then◌else◌,
}
use skillwire.Catalog.Text.{byte_length}
use skillwire.Catalog.Revision.{
  Services, MediaType, markdown, plain, ManifestEntry, VerifiedResource, Provenance, Trust, trusted,
  structurally_verified, SkillRevision, GitHubOrigin, to_set, assert_revision_integrity,
}
use skillwire.Catalog.Cache.{has}

abbrev pub same_media_type : MediaType → MediaType → Bool
same_media_type markdown markdown = true
same_media_type plain plain = true
same_media_type _ _ = false

-- `resources.find(({ path }) => path === sought)`
unfoldable pub find_resource : List VerifiedResource → String → Option VerifiedResource
find_resource [] sought = none
find_resource (r ∷ rs) sought = if r.path === sought then some r else find_resource rs sought

-- Whether a property of the provenance is empty. What the trust may be, its type says.
unfoldable pub is_incomplete : Provenance → Bool
is_incomplete p =
    utf16_length p.provider == 0
    || utf16_length p.reference == 0
    || utf16_length p.source_revision == 0
    || utf16_length p.owner == 0
    || utf16_length p.license == 0

module _ (s : Services) where
  -- Whether a resource's bytes and hash are the content's.
  abbrev pub is_intact : VerifiedResource → Bool
  is_intact r =
      byte_length s.encoding r.content == r.byte_length && s.platform.sha256 r.content === r.sha256

  abbrev pub is_entry_of : VerifiedResource → ManifestEntry → Bool
  is_entry_of r entry =
      same_media_type r.media_type entry.media_type
      && r.byte_length == entry.byte_length
      && r.sha256 === entry.sha256

  abbrev pub check_resource : Option VerifiedResource → ManifestEntry → Result (Unit {0})
  check_resource none entry = throw "Verified resource is missing"
  check_resource (some r) entry =
      throw_if (not (is_entry_of r entry && is_intact r && is_sha256 r.sha256))
        (error "Verified resource is invalid")

  -- The loop over the manifest.
  unfoldable pub check_manifest : List VerifiedResource → List ManifestEntry → Result (Unit {0})
  unfolding find_resource
  check_manifest resources [] = ok tt
  check_manifest resources (entry ∷ entries) =
      let rest = check_manifest resources entries in
      do check_resource (find_resource resources entry.path) entry; rest

  abbrev pub check_origin : Option GitHubOrigin → SkillRevision → Result (Unit {0})
  check_origin none r = throw "Imported revision origin is missing"
  check_origin (some origin) r =
      throw_if
        (not (is_git_sha origin.commit_sha)
          || not (has r.current_classification)
          || not (has r.invocation_mode)
          || not (has r.dependencies))
        (error "Imported revision provenance is incomplete")

  abbrev pub check_trust : Trust → SkillRevision → Result (Unit {0})
  check_trust trusted r = do
    verified ← assert_revision_integrity s r
    throw_if (has r.catalog_origin) (error "First-party revision has imported metadata")
  check_trust structurally_verified r = check_origin r.catalog_origin r

  -- Whether the revision is not the one that was asked for, or a hash is none or not the instructions'.
  abbrev pub is_mismatched : SkillRevision → String → String → Bool
  is_mismatched r skill_id revision =
      not (r.skill_id === skill_id)
      || not (r.revision === revision)
      || not (is_sha256 r.bundle_sha256)
      || not (is_sha256 r.instructions_sha256)
      || not (s.platform.sha256 r.instructions === r.instructions_sha256)

  -- The checks, before a failure is replaced.
  unfoldable pub exact_checks : SkillRevision → String → String → Result (Unit {0})
  unfolding is_incomplete check_manifest
  exact_checks r skill_id revision = do
    throw_if (is_mismatched r skill_id revision)
        (error "Exact revision identity or hash is invalid")
    throw_if (is_incomplete r.published_provenance) (error "Published provenance is invalid")
    throw_if
        (not (length r.resource_manifest == length r.resources)
          || not (
              length (to_set [] (map (λ e. e.path) r.resource_manifest))
              == length r.resource_manifest))
        (error "Resource manifest is invalid")
    check_manifest r.resources r.resource_manifest
    check_trust r.published_provenance.trust_at_publication r

  unfoldable pub assert_verified_exact_revision :
      SkillRevision → String → String → Result (Unit {0})
  unfolding exact_checks
  assert_verified_exact_revision r skill_id revision =
      caught_as revision_unavailable (exact_checks r skill_id revision)
