-- ===== src/Catalog/Created.antt =====
-- `createSkillRevision` and `assertRevisionIntegrity`: what a created revision is, and that it passes
-- its own check.
use skillwire.Base.{
  Bool, true, false, ◌≡◌, refl, List, [], ◌∷◌, map, length, ok, All, subst, String, sort_by, ap,
  ok-injective, sort_by-fixed, sym, >>=-eq-ok, sort_by-IsOrdered, ◌∙◌, suc,
}
use skillwire.Catalog.Text.{normalize_utf8, starts_with_mark, NormalizedText, max_text_bytes}
use skillwire.Catalog.TextLaws.{IsUnicode, normalize_utf8-again}
use skillwire.Catalog.Path.{assert_safe_resource_path}
use skillwire.Catalog.Revision.{
  Services, ResourceInput, VerifiedResource, verified_resource, verified_resources, path_less,
}

-- The order of paths is strict and its complement is transitive, as of a comparison of texts.
pub record IsComparison (less : String → String → Bool) : Type 0 where
  pub asymmetric : (a b : String) → less a b ≡ true → less b a ≡ false
  pub transitive : (a b c : String) → less b a ≡ false → less c b ≡ false → less c a ≡ false

abbrev pub input_of_resource : VerifiedResource → ResourceInput
input_of_resource x = record { path = x.path; media_type = x.media_type; content = x.content }

abbrev pub IsUnmarked : VerifiedResource → Type 0
IsUnmarked x = starts_with_mark x.content ≡ false

module _ (s : Services) where
  abbrev pub IsReloaded : VerifiedResource → Type 0
  IsReloaded x = verified_resource s (input_of_resource x) ≡ ok x

  abbrev resource_of : ResourceInput → NormalizedText → VerifiedResource
  resource_of i n = record {
    entry = record {
      path = i.path;
      media_type = i.media_type;
      byte_length = n.byte_length;
      sha256 = s.platform.sha256 n.text;
    };
    content = n.text;
  }

  -- A resource that loads has a safe path, and its text is the normal form of what was given.
  pub verified_resource-eq-ok :
      (i : ResourceInput) (x : VerifiedResource)
      → verified_resource s i ≡ ok x
      → (n : NormalizedText) × (assert_safe_resource_path i.path ≡ ok tt)
        × (normalize_utf8 s.encoding (s.encoding.encode i.content) max_text_bytes ≡ ok n)
        × (x ≡ resource_of i n)
  unfolding verified_resource
  verified_resource-eq-ok i x h =
      let (_, safe, h1) = >>=-eq-ok (assert_safe_resource_path i.path) _ h in
      let (n, e, h2) =
        >>=-eq-ok (normalize_utf8 s.encoding (s.encoding.encode i.content) max_text_bytes) _ h1 in
      (n, safe, e, cc h2)

  verified_resource-of :
      (i : ResourceInput) (n : NormalizedText)
      → assert_safe_resource_path i.path ≡ ok tt
      → normalize_utf8 s.encoding (s.encoding.encode i.content) max_text_bytes ≡ ok n
      → verified_resource s i ≡ ok (resource_of i n)
  unfolding verified_resource
  verified_resource-of i n safe e = rw (safe, e) refl

  module _ (u : IsUnicode s.encoding) where
    resource_of-again :
        (i : ResourceInput) (n : NormalizedText)
        → assert_safe_resource_path i.path ≡ ok tt
        → normalize_utf8 s.encoding (s.encoding.encode i.content) max_text_bytes ≡ ok n
        → IsUnmarked (resource_of i n)
        → IsReloaded (resource_of i n)
    resource_of-again i n safe e m =
        verified_resource-of (input_of_resource (resource_of i n)) n safe
          (normalize_utf8-again s.encoding u (s.encoding.encode i.content) max_text_bytes n e m)

    pub verified_resource-again :
        (i : ResourceInput) (x : VerifiedResource)
        → verified_resource s i ≡ ok x
        → IsUnmarked x
        → IsReloaded x
    verified_resource-again i x h =
        let (n, safe, e, same) = verified_resource-eq-ok i x h in
        subst (λ y. IsUnmarked y → IsReloaded y) (sym same) (resource_of-again i n safe e)

  -- What holds of each resource that loads holds of all.
  pub verified_resources-All {κ} :
      (P : VerifiedResource → Type κ)
      → ((i : ResourceInput) (x : VerifiedResource) → verified_resource s i ≡ ok x → P x)
      → (is : List ResourceInput) (xs : List VerifiedResource) → verified_resources s is ≡ ok xs
      → All P xs
  unfolding verified_resources
  verified_resources-All P f [] xs h = subst (λ ys. All P ys) (ok-injective h) tt
  verified_resources-All P f (i ∷ is) xs h =
      let (x, e, h1) = >>=-eq-ok (verified_resource s i) _ h in
      let (ys, e2, h2) = >>=-eq-ok (verified_resources s is) _ h1 in
      subst (λ ys. All P ys) (ok-injective h2) (f i x e, verified_resources-All P f is ys e2)

  pub length-verified_resources :
      (is : List ResourceInput) (xs : List VerifiedResource)
      → verified_resources s is ≡ ok xs
      → length xs ≡ length is
  unfolding verified_resources
  length-verified_resources [] xs h = ap length (sym (ok-injective h))
  length-verified_resources (i ∷ is) xs h =
      let (x, e, h1) = >>=-eq-ok (verified_resource s i) _ h in
      let (ys, e2, h2) = >>=-eq-ok (verified_resources s is) _ h1 in
      ap length (sym (ok-injective h2)) ∙ ap suc (length-verified_resources is ys e2)

  pub verified_resources-map :
      (xs : List VerifiedResource)
      → All IsReloaded xs
      → verified_resources s (map input_of_resource xs) ≡ ok xs
  unfolding verified_resources
  verified_resources-map [] h = refl
  verified_resources-map (x ∷ xs) h = rw (h.0, verified_resources-map xs h.1) refl

  pub sort_by-again :
      IsComparison s.locale_less
      → (xs : List VerifiedResource)
      → sort_by (path_less s) (sort_by (path_less s) xs) ≡ sort_by (path_less s) xs
  sort_by-again c xs = sort_by-fixed (path_less s) (sort_by (path_less s) xs) (
      sort_by-IsOrdered (path_less s) (λ x y. path_less s y x ≡ false)
        (λ x y. c.asymmetric x.path y.path) (λ x y h. h)
        (λ x y z. c.transitive x.path y.path z.path) xs)
