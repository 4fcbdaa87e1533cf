-- ===== src/Delivery/LoadLaws.antt =====
-- `createLoadSkill`: what a load delivers, and what it leaves in the memory.
use skillwire.Advisory.Event.{Status}
use skillwire.Base.{
  true, false, not, List, [], ◌∷◌, Option, none, some, String, ok, ◌≡◌, refl, All, is_sha256,
  >>=-eq-ok, throw_if-false, throw_if, ap, ok-injective, ◌&&◌, coded, not_found, arith, length,
  caught_as, revision_unavailable, ◌==◌, ◌||◌, caught_as-ok, ◌∙◌, sym, map, ===_iff,
}
use skillwire.Catalog.Revision.{Services, SkillRevision, ManifestEntry, VerifiedResource, to_set}
use skillwire.Delivery.Exact.{
  find_resource, check_manifest, is_entry_of, is_intact, exact_checks, check_resource,
  is_mismatched, is_incomplete,
}
use skillwire.Delivery.Load.{Answers, is_revoked_now, current_revision, current_status, required}

module _ (s : Services) where
  -- The manifest's entry is a resource's, whose bytes and hash are the content's.
  abbrev pub IsDelivered : List VerifiedResource → ManifestEntry → Type 0
  IsDelivered resources entry =
      (r : VerifiedResource) × (find_resource resources entry.path ≡ some r)
      × (is_entry_of s r entry ≡ true)
      × (is_intact s r ≡ true)

  check_resource-IsDelivered :
      (resources : List VerifiedResource) (o : Option VerifiedResource) (entry : ManifestEntry)
      → find_resource resources entry.path ≡ o
      → check_resource s o entry ≡ ok tt
      → IsDelivered resources entry
  check_resource-IsDelivered resources none entry e h = cc h
  check_resource-IsDelivered resources (some r) entry e h =
      let good =
        throw_if-false (not (is_entry_of s r entry && is_intact s r && is_sha256 r.sha256)) _ h in
      (r, e, ground (arith, good), ground (arith, good))

  check_manifest-IsDelivered :
      (resources : List VerifiedResource) (entries : List ManifestEntry)
      → check_manifest s resources entries ≡ ok tt
      → All (IsDelivered resources) entries
  unfolding check_manifest
  check_manifest-IsDelivered resources [] h = tt
  check_manifest-IsDelivered resources (entry ∷ entries) h =
      let (_, e, h1) =
        >>=-eq-ok (check_resource s (find_resource resources entry.path) entry) _ h in
      (
        check_resource-IsDelivered resources (find_resource resources entry.path) entry refl e,
        check_manifest-IsDelivered resources entries h1,
      )

  -- A revision that may be delivered for an identifier: the exact one, its instructions of their hash,
  -- and each resource of its manifest intact.
  pub record IsExact (r : SkillRevision) (skill_id revision : String) : Type 0 where
    pub same_skill : r.skill_id ≡ skill_id
    pub same_revision : r.revision ≡ revision
    pub hashed : s.platform.sha256 r.instructions ≡ r.instructions_sha256
    pub intact : All (IsDelivered r.resources) r.resource_manifest

  pub exact_checks-IsExact :
      (r : SkillRevision) (skill_id revision : String)
      → exact_checks s r skill_id revision ≡ ok tt
      → IsExact r skill_id revision
  unfolding exact_checks
  exact_checks-IsExact r skill_id revision h =
      let (_, e1, h1) = >>=-eq-ok (throw_if (is_mismatched s r skill_id revision) _) _ h in
      let (_, _, h2) = >>=-eq-ok (throw_if (is_incomplete r.published_provenance) _) _ h1 in
      let (_, _, h3) =
        >>=-eq-ok
          (throw_if
            (not (length r.resource_manifest == length r.resources)
              || not (
                  length (to_set [] (map (λ e. e.path) r.resource_manifest))
                  == length r.resource_manifest))
            _)
          _ h2 in
      let (_, e4, h4) = >>=-eq-ok (check_manifest s r.resources r.resource_manifest) _ h3 in
      let good = throw_if-false (is_mismatched s r skill_id revision) _ e1 in
      record {
        same_skill = (===_iff r.skill_id skill_id).0 (ground (arith, good));
        same_revision = (===_iff r.revision revision).0 (ground (arith, good));
        hashed =
            (===_iff (s.platform.sha256 r.instructions) r.instructions_sha256).0
              (ground (arith, good));
        intact = check_manifest-IsDelivered r.resources r.resource_manifest e4;
      }

required-ok :
    (a : Answers) (o : Option SkillRevision) (r : SkillRevision) → required a o ≡ ok r → o ≡ some r
required-ok a none r h = let (latest, e, h1) = >>=-eq-ok a.last_status _ h in cc h1
required-ok a (some v) r h = ap (λ x. some x) (ok-injective h)

-- The answers give a revision, and neither status is a revocation.
pub record IsCurrent (a : Answers) (r : SkillRevision) (status : Status) : Type 0 where
  pub first : Option Status
  pub last : Option Status
  pub first_answer : a.first_status ≡ ok first
  pub found_answer : a.found ≡ ok (some r)
  pub last_answer : a.last_status ≡ ok last
  pub first_clear : is_revoked_now first ≡ false
  pub last_clear : is_revoked_now last ≡ false
  pub reported : status ≡ current_status last first

pub current_revision-IsCurrent :
    (a : Answers) (r : SkillRevision) (status : Status)
    → current_revision a ≡ ok (r, status)
    → IsCurrent a r status
unfolding current_revision
current_revision-IsCurrent a r status h =
    let (first, e1, h1) = >>=-eq-ok a.first_status _ h in
    let (_, e2, h2) = >>=-eq-ok (throw_if (is_revoked_now first) (coded not_found)) _ h1 in
    let (found, e3, h3) = >>=-eq-ok (caught_as revision_unavailable a.found) _ h2 in
    let (v, e4, h4) = >>=-eq-ok (required a found) _ h3 in
    let (last, e5, h5) = >>=-eq-ok a.last_status _ h4 in
    let (_, e6, h6) = >>=-eq-ok (throw_if (is_revoked_now last) (coded not_found)) _ h5 in
    let both = ok-injective h6 in
    record {
      first = first;
      last = last;
      first_answer = e1;
      found_answer =
          caught_as-ok revision_unavailable a.found e3
          ∙ ap (λ x. ok x) (required-ok a found v e4 ∙ ap (λ p. some p.0) both);
      last_answer = e5;
      first_clear = throw_if-false (is_revoked_now first) _ e2;
      last_clear = throw_if-false (is_revoked_now last) _ e6;
      reported = sym (ap (λ p. p.1) both);
    }
