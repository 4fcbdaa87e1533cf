-- ===== src/Catalog/Bounds.antt =====
-- `createSkillRevision`: the limits that a created revision keeps.
use skillwire.Catalog.Created.{
  verified_resource-eq-ok, length-verified_resources, verified_resources-All,
}
use skillwire.Base.{
  ℕ, false, ◌≡◌, refl, List, [], ◌∷◌, length, ok, ◌+◌, String, ◌≤◌, arith, includes, if◌then◌else◌,
  suc, ◌≢◌, IsOrdered, All, ◌===◌, sort_by, All-map, throw_if-false, ◌||◌, length-sort_by, sym, ◌∙◌,
  subst, ===_iff, sort_by-All, length-map,
}
use skillwire.Base.Dict.{insert, includes-insert}
use skillwire.Catalog.Text.{NormalizedText, byte_length, normalize_utf8, max_text_bytes}
use skillwire.Catalog.TextLaws.{normalize_utf8-eq-ok}
use skillwire.Catalog.Path.{is_unsafe_path, assert_safe_resource_path}
use skillwire.Catalog.Revision.{
  Services, RevisionInput, SkillRevision, VerifiedResource, create_skill_revision, to_set, paths,
  total_bytes, ResourceInput, verified_resource, path_less,
}
use skillwire.Catalog.Again.{create-eq-ok}

length-insert :
    (set : List String) (x : String)
    → length (insert set x) ≡ (if includes set x then length set else suc (length set))
unfolding insert
length-insert [] x = refl
length-insert (y ∷ ys) x = ground (arith, length-insert ys x)

length-to_set : (set xs : List String) → length (to_set set xs) ≤ length set + length xs
length-to_set set [] = omega arith
length-to_set set (x ∷ xs) = ground (arith, length-to_set (insert set x) xs, length-insert set x)

abbrev IsNew : List String → String → Type 0
IsNew set x = includes set x ≡ false

IsNew-insert : (set : List String) (x y : String) → IsNew (insert set x) y → IsNew set y × (x ≢ y)
IsNew-insert set x y h =
    let both : (x === y || includes set y) ≡ false = sym (includes-insert set x y) ∙ h in
    (ground (arith, both), λ e. ground (arith, both, ===_iff x y, e))

-- A set of as many as were added has none of them twice.
to_set-IsOrdered :
    (set xs : List String)
    → length (to_set set xs) ≡ length set + length xs
    → All (IsNew set) xs × IsOrdered (λ x y. x ≢ y) xs
to_set-IsOrdered set [] h = (tt, tt)
to_set-IsOrdered set (x ∷ xs) h =
    let short = length-to_set (insert set x) xs in
    let one = length-insert set x in
    let new : includes set x ≡ false = ground (arith, short, one, h) in
    let grown : length (insert set x) ≡ suc (length set) = rw new at one in
    let (rest, apart) = to_set-IsOrdered (insert set x) xs (omega (arith, h, grown)) in
    let each : All (λ y. IsNew set y × (x ≢ y)) xs =
      All-map (IsNew (insert set x)) (λ y. IsNew set y × (x ≢ y)) (IsNew-insert set x) xs rest in
    (
      (new, All-map (λ y. IsNew set y × (x ≢ y)) (IsNew set) (λ y p. p.0) xs each),
      (All-map (λ y. IsNew set y × (x ≢ y)) (λ y. x ≢ y) (λ y p. p.1) xs each, apart),
    )

module _ (s : Services) where
  -- A resource that is within the limits: a safe path, at most 262144 bytes, its own hash.
  abbrev pub IsWithin : VerifiedResource → Type 0
  IsWithin x =
      (is_unsafe_path x.path ≡ false)
      × (x.byte_length ≡ byte_length s.encoding x.content)
      × (x.byte_length ≤ 262144)
      × (x.sha256 ≡ s.platform.sha256 x.content)

  abbrev pub IsBounded : SkillRevision → Type 0
  IsBounded r =
      (1 ≤ length r.resources)
      × (length r.resources ≤ 64)
      × All IsWithin r.resources
      × IsOrdered (λ x y. x ≢ y) (paths r.resources)
      × (r.instructions_sha256 ≡ s.platform.sha256 r.instructions)
      × (byte_length s.encoding r.instructions + total_bytes r.resources ≤ 2097152)

  normalized-bounds :
      (bytes : List ℕ) (n : NormalizedText)
      → normalize_utf8 s.encoding bytes max_text_bytes ≡ ok n
      → (n.byte_length ≡ byte_length s.encoding n.text) × (n.byte_length ≤ 262144)
  normalized-bounds bytes n h =
      let (t, same, _, short) = normalize_utf8-eq-ok s.encoding bytes max_text_bytes n h in
      subst (λ m. (m.byte_length ≡ byte_length s.encoding m.text) × (m.byte_length ≤ 262144))
        (sym same) (refl, ground (arith, short))

  pub is_unsafe_path-safe :
      (path : String) → assert_safe_resource_path path ≡ ok tt → is_unsafe_path path ≡ false
  unfolding assert_safe_resource_path
  is_unsafe_path-safe path h = throw_if-false (is_unsafe_path path) _ h

  verified_resource-IsWithin :
      (i : ResourceInput) (x : VerifiedResource) → verified_resource s i ≡ ok x → IsWithin x
  verified_resource-IsWithin i x h =
      let (n, safe, e, same) = verified_resource-eq-ok s i x h in
      let (len, short) = normalized-bounds (s.encoding.encode i.content) n e in
      subst IsWithin (sym same) (is_unsafe_path-safe i.path safe, len, short, refl)

  -- A revision that `createSkillRevision` returns has one to 64 resources with pairwise different safe
  -- paths, each of at most 262144 bytes and with its own length and hash, and with its instructions at
  -- most 2 MiB.
  pub create_skill_revision-IsBounded :
      (input : RevisionInput) (r : SkillRevision)
      → create_skill_revision s input ≡ ok r
      → IsBounded r
  create_skill_revision-IsBounded input r h =
      let (n, loaded, canonical, e, k, same) = create-eq-ok s input r h in
      let xs = sort_by (path_less s) loaded in
      let len =
        length-sort_by (path_less s) loaded
        ∙ length-verified_resources s input.resources loaded e in
      let (bytes, _) = normalized-bounds (s.encoding.encode input.instructions) n k.normalized in
      subst IsBounded (sym same) (
        ground (arith, k.counted, len),
        ground (arith, k.counted, len),
        sort_by-All (path_less s) IsWithin loaded
            (verified_resources-All s IsWithin verified_resource-IsWithin input.resources loaded e),
        (to_set-IsOrdered [] (paths xs)
            (ground (arith, k.distinct, length-map (λ x. x.path) xs))).1,
        refl,
        ground (arith, k.bounded, bytes),
      )
