-- ===== src/Catalog/Cache.antt =====
-- src/catalog/verified-revision-cache.ts: `VerifiedRevisionCache`. Its `Map` is a list of entries in the
-- order of insertion, and a frozen copy of a revision is the revision.
use skillwire.Base.{
  ◌>>=◌, ◌>>◌, ℕ, Bool, not, ◌&&◌, List, [], ◌∷◌, length, leb, ltb, Option, none, some, String,
  Result, ok, error, throw_if, if◌then◌else◌, false, true,
}
use skillwire.Base.Dict.{get, put, discard}
use skillwire.Canonical.{◌<>◌}
use skillwire.Catalog.Revision.{Services, SkillRevision, assert_revision_integrity}

pub record RevisionCache : Type 0 where
  pub maximum_entries : ℕ
  pub entries : List (String × SkillRevision)

abbrev pub has {ℓ} : {V : Type ℓ} → Option V → Bool
has none = false
has (some v) = true

-- `cacheKey`
unfoldable pub cache_key : String → String → String → String → String
cache_key release_id skill_id revision bundle_sha256 =
    release_id <> "\0" <> skill_id <> "\0" <> revision <> "\0" <> bundle_sha256

abbrev pub key_of : String → SkillRevision → String
key_of release_id r = cache_key release_id r.skill_id r.revision r.bundle_sha256

unfoldable pub new_cache : ℕ → Result RevisionCache
new_cache maximum = do
  throw_if (ltb maximum 1) (error "Cache capacity must be a positive integer")
  ok (record { maximum_entries = maximum; entries = [] })

-- The oldest entry's key, deleted.
abbrev pub without_oldest : List (String × SkillRevision) → List (String × SkillRevision)
without_oldest [] = []
without_oldest ((key, r) ∷ rest) = discard ((key, r) ∷ rest) key

-- The entries with room for a key.
abbrev pub with_room : ℕ → List (String × SkillRevision) → String → List (String × SkillRevision)
with_room maximum entries key =
    if not (has (get entries key)) && leb maximum (length entries)
    then without_oldest entries
    else entries

module _ (s : Services) where
  unfoldable pub admit : RevisionCache → String → SkillRevision → Result RevisionCache
  unfolding cache_key
  admit c release_id r = do
    verified ← assert_revision_integrity s r
    let key = key_of release_id r
    ok (record c { entries = put (with_room c.maximum_entries c.entries key) key r })

  abbrev pub verified_entry : Option SkillRevision → Result (Option SkillRevision)
  verified_entry none = ok none
  verified_entry (some r) = do verified ← assert_revision_integrity s r; ok (some r)

  unfoldable pub lookup :
      RevisionCache → String → String → String → String → Result (Option SkillRevision)
  lookup c release_id skill_id revision bundle_sha256 =
      verified_entry (get c.entries (cache_key release_id skill_id revision bundle_sha256))

  -- Admissions in order.
  unfoldable pub admit_all : RevisionCache → List (String × SkillRevision) → Result RevisionCache
  admit_all c [] = ok c
  admit_all c ((release_id, r) ∷ rest) = do more ← admit c release_id r; admit_all more rest
