-- ===== src/Delivery/Read.antt =====
-- src/application/use-cases/read-skill-resource.ts: `createReadSkillResource`.
use skillwire.Base.{
  ◌>>=◌, ◌>>◌, ℕ, false, not, List, [], Option, none, some, String, Result, ok, err, throw_if,
  coded, not_found, revision_unavailable, resource_rejected, caught_as, ◌≡◌, refl, inl, inr,
  Failure, >>=-eq-ok, ap, ◌∷◌, Bool-cases, ok-injective, throw_if-false, subst, ◌===◌, caught_as-ok,
  arith, sym, ===_iff,
}
use skillwire.Advisory.Event.{Status}
use skillwire.Catalog.Path.{assert_safe_resource_path, is_unsafe_path}
use skillwire.Catalog.Bounds.{is_unsafe_path-safe}
use skillwire.Catalog.Revision.{Services, SkillRevision, VerifiedResource, MediaType}
use skillwire.Catalog.Text.{byte_length}
use skillwire.Delivery.Exact.{find_resource, is_intact}
use skillwire.Delivery.Load.{Answers, current_revision}
use skillwire.Delivery.LoadLaws.{IsCurrent, current_revision-IsCurrent}

pub record ReadInput : Type 0 where
  pub skill_id : String
  pub revision : String
  pub path : String

pub record ReadResult : Type 0 where
  pub skill_id : String
  pub revision : String
  pub revision_sha256 : String
  pub path : String
  pub media_type : MediaType
  pub byte_length : ℕ
  pub sha256 : String
  pub content : String

abbrev pub read_result : SkillRevision → VerifiedResource → ReadResult
read_result r x = record {
  skill_id = r.skill_id;
  revision = r.revision;
  revision_sha256 = r.bundle_sha256;
  path = x.path;
  media_type = x.media_type;
  byte_length = x.byte_length;
  sha256 = x.sha256;
  content = x.content;
}

abbrev pub or_not_found {ℓ} : {A : Type ℓ} → Option A → Result A
or_not_found none = err (coded not_found)
or_not_found (some x) = ok x

find_resource-path :
    (xs : List VerifiedResource) (path : String) (x : VerifiedResource)
    → find_resource xs path ≡ some x
    → x.path ≡ path
unfolding find_resource
find_resource-path [] path x h = cc h
find_resource-path (y ∷ ys) path x h = elim (Bool-cases (y.path === path)) [
  | inl q ↦ let same : some y ≡ some x = rw q at h in let is = (===_iff y.path path).0 q in cc
  | inr q ↦ find_resource-path ys path x (rw q at h)
]

module _ (s : Services) where
  unfoldable pub read_skill_resource : Answers → ReadInput → Result ReadResult
  unfolding current_revision find_resource
  read_skill_resource a input = do
    caught_as resource_rejected (assert_safe_resource_path input.path)
    current ← current_revision a
    resource ← or_not_found (find_resource current.0.resources input.path)
    throw_if (not (is_intact s resource)) (coded resource_rejected)
    ok (read_result current.0 resource)

  -- What a read that returns gives: a resource at the safe path that was asked for, of a revision that
  -- is not revoked, with its bytes and its hash.
  pub record IsRead (a : Answers) (input : ReadInput) (result : ReadResult) : Type 0 where
    pub revision : SkillRevision
    pub resource : VerifiedResource
    pub status : Status
    pub current : IsCurrent a revision status
    pub safe : is_unsafe_path input.path ≡ false
    pub found : find_resource revision.resources input.path ≡ some resource
    pub result_is : result ≡ read_result revision resource
    pub asked : result.path ≡ input.path
    pub counted : result.byte_length ≡ byte_length s.encoding result.content
    pub hashed : result.sha256 ≡ s.platform.sha256 result.content

  or_not_found-ok : {A : Type 0} (o : Option A) (x : A) → or_not_found o ≡ ok x → o ≡ some x
  or_not_found-ok none x h = cc h
  or_not_found-ok (some y) x h = ap (λ v. some v) (ok-injective h)

  -- A read that returns gives the resource at the path that was asked for, which is safe, of the
  -- revision that the provider found while it was not revoked before nor after; and its length and
  -- its hash are its content's.
  pub read_skill_resource-IsRead :
      (a : Answers) (input : ReadInput) (result : ReadResult)
      → read_skill_resource a input ≡ ok result
      → IsRead a input result
  unfolding read_skill_resource
  read_skill_resource-IsRead a input result h =
      let (_, e1, h1) =
        >>=-eq-ok (caught_as resource_rejected (assert_safe_resource_path input.path)) _ h in
      let (v, e2, h2) = >>=-eq-ok (current_revision a) _ h1 in
      let (x, e3, h3) = >>=-eq-ok (or_not_found (find_resource v.0.resources input.path)) _ h2 in
      let (_, e4, h4) = >>=-eq-ok (throw_if (not (is_intact s x)) (coded resource_rejected)) _ h3 in
      let found = or_not_found-ok (find_resource v.0.resources input.path) x e3 in
      let whole = throw_if-false (not (is_intact s x)) _ e4 in
      subst (λ w. IsRead a input w) (ok-injective h4)
        (record {
          revision = v.0;
          resource = x;
          status = v.1;
          current = current_revision-IsCurrent a v.0 v.1 e2;
          safe =
              is_unsafe_path-safe s input.path
                (caught_as-ok resource_rejected (assert_safe_resource_path input.path) e1);
          found = found;
          result_is = refl;
          asked = find_resource-path v.0.resources input.path x found;
          counted = ground (arith, whole);
          hashed = sym ((===_iff (s.platform.sha256 x.content) x.sha256).0 (ground (arith, whole)));
        })

  -- The codes that a read may throw, where the provider answers its two questions on the status.
  pub data IsReadFailure : Failure → Type 0 where
    rejected : IsReadFailure (coded resource_rejected)
    missing : IsReadFailure (coded not_found)
    unavailable : IsReadFailure (coded revision_unavailable)

  -- Whether a call returns, or throws what a read may throw.
  abbrev IsSafe {ℓ} : {A : Type ℓ} → Result A → Type 0
  IsSafe (ok a) = Unit
  IsSafe (err e) = IsReadFailure e
