-- ===== src/Catalog/Again.antt =====
-- `createSkillRevision` and `assertRevisionIntegrity`: that what the first makes passes the second.
use skillwire.Canonical.{
  canonicalize, has_safe_numbers, has_safe_items, Json, canonical_json, object, end, field, text,
}
use skillwire.Catalog.Created.{
  IsComparison, input_of_resource, IsUnmarked, IsReloaded, verified_resources-All,
  verified_resource-again, sort_by-again, verified_resources-map, length-verified_resources,
}
use skillwire.Catalog.TextLaws.{IsUnicode, normalize_utf8-again}
use skillwire.Base.{
  false, ◌≡◌, refl, List, [], length, ok, ◌+◌, String, ◌==◌, sort_by, >>=-eq-ok, ◌||◌, throw_if,
  ltb, not, throw_if-false, sym, ok-injective, map, All, length-map, sort_by-All, length-sort_by,
  true, ◌∙◌, All-map, arith, All-both, ===_refl, subst, ◌∷◌, ◌===◌,
}
use skillwire.Catalog.Text.{NormalizedText, normalize_utf8, max_text_bytes, starts_with_mark}
use skillwire.Catalog.Revision.{
  Services, RevisionInput, SkillRevision, VerifiedResource, verified_resources, path_less,
  create_skill_revision, without_bundle_hash, canonicalize_revision, max_resources, to_set, paths,
  max_bundle_content_bytes, total_bytes, ResourceInput, input_of, payload_json, revision_json,
  assert_revision_integrity, items, entry_fields,
}

module _ (s : Services) where
  -- The revision of a text, of its resources in order, and of the canonical text of its payload.
  abbrev pub revision_of :
      RevisionInput → NormalizedText → List VerifiedResource → String → SkillRevision
  revision_of input n resources canonical = record (without_bundle_hash s input n.text resources) {
    bundle_sha256 = s.platform.sha256 canonical;
  }

  -- The checks of `createSkillRevision`, passed.
  pub record IsCreated (input : RevisionInput) (n : NormalizedText)
      (resources : List VerifiedResource) (canonical : String) : Type 0 where
    pub counted :
        (length input.resources == 0 || ltb max_resources (length input.resources)) ≡ false
    pub normalized :
        normalize_utf8 s.encoding (s.encoding.encode input.instructions) max_text_bytes ≡ ok n
    pub distinct : not (length (to_set [] (paths resources)) == length resources) ≡ false
    pub bounded : ltb max_bundle_content_bytes (n.byte_length + total_bytes resources) ≡ false
    pub hashed :
        canonicalize_revision s (without_bundle_hash s input n.text resources) ≡ ok canonical

  pub create-eq-ok :
      (input : RevisionInput) (r : SkillRevision)
      → create_skill_revision s input ≡ ok r
      → (n : NormalizedText) × (loaded : List VerifiedResource) × (canonical : String)
        × (verified_resources s input.resources ≡ ok loaded)
        × IsCreated input n (sort_by (path_less s) loaded) canonical
        × (r ≡ revision_of input n (sort_by (path_less s) loaded) canonical)
  unfolding create_skill_revision
  create-eq-ok input r h =
      let (_, e1, h1) =
        >>=-eq-ok
          (throw_if (length input.resources == 0 || ltb max_resources (length input.resources)) _) _
          h in
      let (n, e2, h2) =
        >>=-eq-ok (normalize_utf8 s.encoding (s.encoding.encode input.instructions) max_text_bytes)
          _ h1 in
      let (loaded, e3, h3) = >>=-eq-ok (verified_resources s input.resources) _ h2 in
      let resources = sort_by (path_less s) loaded in
      let (_, e4, h4) =
        >>=-eq-ok (throw_if (not (length (to_set [] (paths resources)) == length resources)) _) _
          h3 in
      let (_, e5, h5) =
        >>=-eq-ok
          (throw_if (ltb max_bundle_content_bytes (n.byte_length + total_bytes resources)) _) _
          h4 in
      let (canonical, e6, h6) =
        >>=-eq-ok (canonicalize_revision s (without_bundle_hash s input n.text resources)) _ h5 in
      (
        n,
        loaded,
        canonical,
        e3,
        record {
          counted =
              throw_if-false
                (length input.resources == 0 || ltb max_resources (length input.resources)) _ e1;
          normalized = e2;
          distinct =
              throw_if-false (not (length (to_set [] (paths resources)) == length resources)) _ e4;
          bounded =
              throw_if-false (ltb max_bundle_content_bytes (n.byte_length + total_bytes resources))
                _ e5;
          hashed = e6;
        },
        sym (ok-injective h6),
      )

  create-of :
      (input : RevisionInput) (n : NormalizedText) (loaded resources : List VerifiedResource)
      (canonical : String)
      → verified_resources s input.resources ≡ ok loaded
      → sort_by (path_less s) loaded ≡ resources
      → IsCreated input n resources canonical
      → create_skill_revision s input ≡ ok (revision_of input n resources canonical)
  unfolding create_skill_revision
  create-of input n loaded resources canonical e sorted c =
      rw (c.counted, c.normalized, e, sorted, c.distinct, c.bounded, c.hashed) refl

  counted-again :
      (xs : List VerifiedResource) (is : List ResourceInput)
      → length xs ≡ length is
      → (length is == 0 || ltb max_resources (length is)) ≡ false
      → (length (map input_of_resource xs) == 0
          || ltb max_resources (length (map input_of_resource xs)))
        ≡ false
  counted-again xs is same h = rw (length-map input_of_resource xs, same) h

  module _ (u : IsUnicode s.encoding) (c : IsComparison s.locale_less) where
    resources-again :
        (is : List ResourceInput) (loaded : List VerifiedResource)
        → verified_resources s is ≡ ok loaded
        → All IsUnmarked (sort_by (path_less s) loaded)
        → verified_resources s (map input_of_resource (sort_by (path_less s) loaded))
          ≡ ok (sort_by (path_less s) loaded)
    resources-again is loaded e marks =
        let xs = sort_by (path_less s) loaded in
        let reload : All (λ x. IsUnmarked x → IsReloaded s x) xs =
          sort_by-All (path_less s) (λ x. IsUnmarked x → IsReloaded s x) loaded
            (verified_resources-All s (λ x. IsUnmarked x → IsReloaded s x)
              (λ i x h. verified_resource-again s u i x h) is loaded e) in
        verified_resources-map s xs (
          All-map (λ x. (IsUnmarked x → IsReloaded s x) × IsUnmarked x) (IsReloaded s)
            (λ x p. p.0 p.1) xs
            (All-both (λ x. IsUnmarked x → IsReloaded s x) IsUnmarked xs reload marks))

    created-again :
        (input : RevisionInput) (n : NormalizedText) (loaded : List VerifiedResource)
        (canonical : String)
        → verified_resources s input.resources ≡ ok loaded
        → IsCreated input n (sort_by (path_less s) loaded) canonical
        → starts_with_mark n.text ≡ false
        → All IsUnmarked (sort_by (path_less s) loaded)
        → create_skill_revision s
            (input_of s (revision_of input n (sort_by (path_less s) loaded) canonical))
          ≡ ok (revision_of input n (sort_by (path_less s) loaded) canonical)
    created-again input n loaded canonical e k m marks =
        let xs = sort_by (path_less s) loaded in
        create-of (input_of s (revision_of input n xs canonical)) n xs xs canonical
          (resources-again input.resources loaded e marks) (sort_by-again s c loaded)
          (record {
            counted =
                counted-again xs input.resources
                  (length-sort_by (path_less s) loaded
                    ∙ length-verified_resources s input.resources loaded e)
                  k.counted;
            normalized =
                normalize_utf8-again s.encoding u (s.encoding.encode input.instructions)
                  max_text_bytes n k.normalized m;
            distinct = k.distinct;
            bounded = k.bounded;
            hashed = k.hashed;
          })

  safe_items-resources :
      (xs : List VerifiedResource)
      → has_safe_items (items (λ e. object (entry_fields e end)) (map (λ x. x.entry) xs)) ≡ true
      → has_safe_items
          (items (λ x. object (entry_fields x.entry (field "content" (text x.content) end))) xs)
        ≡ true
  unfolding has_safe_items
  safe_items-resources [] h = refl
  safe_items-resources (x ∷ xs) h = ground (arith, safe_items-resources xs)

  canonicalize-safe :
      (v : Json) (canonical : String)
      → canonicalize s.platform v ≡ ok canonical
      → has_safe_numbers v ≡ true
  unfolding canonicalize
  canonicalize-safe v canonical h =
      let (_, e, _) = >>=-eq-ok (throw_if (not (has_safe_numbers v)) _) _ h in
      ground (arith, throw_if-false (not (has_safe_numbers v)) _ e)

  safe-canonicalize :
      (v : Json)
      → has_safe_numbers v ≡ true
      → (canonical : String) × (canonicalize s.platform v ≡ ok canonical)
  unfolding canonicalize
  safe-canonicalize v h = (canonical_json s.platform s.platform.code_unit_less v, rw h refl)

  safe-revision :
      (input : RevisionInput) (n : NormalizedText) (xs : List VerifiedResource) (canonical : String)
      → has_safe_numbers (payload_json (without_bundle_hash s input n.text xs)) ≡ true
      → has_safe_numbers (revision_json (revision_of input n xs canonical)) ≡ true
  unfolding has_safe_numbers payload_json revision_json
  safe-revision input n xs canonical h = ground (arith, safe_items-resources xs)

  hashed-canonicalize :
      (input : RevisionInput) (n : NormalizedText) (xs : List VerifiedResource) (canonical : String)
      → canonicalize_revision s (without_bundle_hash s input n.text xs) ≡ ok canonical
      → canonicalize s.platform (payload_json (without_bundle_hash s input n.text xs))
        ≡ ok canonical
  unfolding canonicalize_revision
  hashed-canonicalize input n xs canonical h = h

  integrity-of :
      (r : SkillRevision) (canonical : String)
      → create_skill_revision s (input_of s r) ≡ ok r
      → canonicalize s.platform (revision_json r) ≡ ok canonical
      → assert_revision_integrity s r ≡ ok r
  unfolding assert_revision_integrity
  integrity-of r canonical e k = rw (e, k, ===_refl canonical) refl

  module _ (u : IsUnicode s.encoding) (c : IsComparison s.locale_less) where
    -- What `createSkillRevision` returns, `assertRevisionIntegrity` returns too, where paths are
    -- compared by a strict order, and neither the instructions nor a resource's content begins with a
    -- byte order mark.
    pub create_skill_revision-assert_revision_integrity :
        (input : RevisionInput) (r : SkillRevision)
        → create_skill_revision s input ≡ ok r
        → starts_with_mark r.instructions ≡ false
        → All IsUnmarked r.resources
        → assert_revision_integrity s r ≡ ok r
    create_skill_revision-assert_revision_integrity input r h m marks =
        let (n, loaded, canonical, e, k, same) = create-eq-ok input r h in
        let xs = sort_by (path_less s) loaded in
        let m' : starts_with_mark n.text ≡ false =
          subst (λ v. starts_with_mark v.instructions ≡ false) same m in
        let marks' : All IsUnmarked xs = subst (λ v. All IsUnmarked v.resources) same marks in
        let safe = safe-revision input n xs canonical (
          canonicalize-safe (payload_json (without_bundle_hash s input n.text xs)) canonical
            (hashed-canonicalize input n xs canonical k.hashed)) in
        let (whole, w) =
          safe-canonicalize (revision_json (revision_of input n xs canonical)) safe in
        subst (λ v. assert_revision_integrity s v ≡ ok v) (sym same)
          (integrity-of (revision_of input n xs canonical) whole
            (created-again u c input n loaded canonical e k m' marks') w)

-- `assertRevisionIntegrity` returns the revision that it is given.
pub integrity-returns :
    (s : Services) (r v : SkillRevision) → assert_revision_integrity s r ≡ ok v → v ≡ r
unfolding assert_revision_integrity
integrity-returns s r v h =
    let (made, e1, h1) = >>=-eq-ok (create_skill_revision s (input_of s r)) _ h in
    let (left, e2, h2) = >>=-eq-ok (canonicalize s.platform (revision_json made)) _ h1 in
    let (right, e3, h3) = >>=-eq-ok (canonicalize s.platform (revision_json r)) _ h2 in
    let (_, e4, h4) = >>=-eq-ok (throw_if (not (left === right)) _) _ h3 in sym (ok-injective h4)
