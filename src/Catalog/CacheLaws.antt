-- ===== src/Catalog/CacheLaws.antt =====
-- `VerifiedRevisionCache`: its size, and the map of admissions that it stands for.
use skillwire.Catalog.Again.{integrity-returns}
use skillwire.Base.{
  ℕ, List, [], ◌∷◌, length, Option, none, some, String, ok, suc, ◌≡◌, ◌≤◌, refl, arith,
  if◌then◌else◌, ◌-◌, ===_refl, ◌===◌, subst, >>=-eq-ok, sym, ok-injective, ◌∙◌, throw_if, ap, ltb,
  throw_if-false, Bool-cases, inl, inr,
}
use skillwire.Base.Dict.{get, put, discard, get-put, get-discard}
use skillwire.Catalog.Revision.{Services, SkillRevision, assert_revision_integrity}
use skillwire.Catalog.Cache.{
  RevisionCache, cache_key, key_of, has, without_oldest, with_room, new_cache, admit, lookup,
  admit_all, verified_entry,
}

module _ {ℓ} {V : Type ℓ} where
  length-put :
      (m : List (String × V)) (key : String) (value : V)
      → length (put m key value) ≡ (if has (get m key) then length m else suc (length m))
  unfolding put get
  length-put [] key value = refl
  length-put ((k, v) ∷ rest) key value = ground (arith, length-put rest key value)

  length-discard : (m : List (String × V)) (key : String) → length (discard m key) ≤ length m
  unfolding discard
  length-discard [] key = omega arith
  length-discard ((k, v) ∷ rest) key = ground (arith, length-discard rest key)

length-without_oldest :
    (m : List (String × SkillRevision)) → length (without_oldest m) ≤ length m - 1
unfolding discard
length-without_oldest [] = omega arith
length-without_oldest ((k, r) ∷ rest) = rw (===_refl k) (omega (arith, length-discard rest k))

length-with_room :
    (n : ℕ) (m : List (String × SkillRevision)) (key : String) (r : SkillRevision)
    → 1 ≤ n
    → length m ≤ n
    → length (put (with_room n m key) key r) ≤ n
length-with_room n m key r one h =
    let grown = length-put (with_room n m key) key r in
    ground (arith, grown, length-without_oldest m)

get-without_oldest :
    (m : List (String × SkillRevision)) (key : String) (r : SkillRevision)
    → get (without_oldest m) key ≡ some r
    → get m key ≡ some r
get-without_oldest [] key r h = h
get-without_oldest ((k, v) ∷ rest) key r h =
    let e = get-discard ((k, v) ∷ rest) k key in ground (arith, e)

get-with_room :
    (n : ℕ) (m : List (String × SkillRevision)) (at key : String) (r : SkillRevision)
    → get (with_room n m at) key ≡ some r
    → get m key ≡ some r
get-with_room n m at key r h = ground (arith, get-without_oldest m key r)

put-latest :
    (n : ℕ) (m : List (String × SkillRevision)) (at key : String) (r v : SkillRevision)
    (admitted : Option SkillRevision)
    → (get m key ≡ some v → admitted ≡ some v)
    → get (put (with_room n m at) at r) key ≡ some v
    → (if at === key then some r else admitted) ≡ some v
put-latest n m at key r v admitted f h =
    let e = sym (get-put (with_room n m at) at r key) ∙ h in
    elim (Bool-cases (at === key)) [
      | inl q ↦ rw q (rw q at e)
      | inr q ↦ rw q (f (get-with_room n m at key v (rw q at e)))
    ]

module _ (s : Services) where
  admit-eq-ok :
      (c c' : RevisionCache) (release_id : String) (r : SkillRevision)
      → admit s c release_id r ≡ ok c'
      → (assert_revision_integrity s r ≡ ok r)
        × (c' ≡ record c {
          entries =
              put
                (with_room c.maximum_entries c.entries (key_of release_id r))
                (key_of release_id r)
                r;
        })
  unfolding admit
  admit-eq-ok c c' release_id r h =
      let (v, e, h1) = >>=-eq-ok (assert_revision_integrity s r) _ h in
      (e ∙ ap (λ x. ok x) (integrity-returns s r v e), sym (ok-injective h1))

  -- A cache within its capacity is within it after an admission, which leaves the capacity as it is.
  abbrev pub IsBounded : RevisionCache → Type 0
  IsBounded c = (1 ≤ c.maximum_entries) × (length c.entries ≤ c.maximum_entries)

  admit-IsBounded :
      (c c' : RevisionCache) (release_id : String) (r : SkillRevision)
      → IsBounded c
      → admit s c release_id r ≡ ok c'
      → IsBounded c' × (c'.maximum_entries ≡ c.maximum_entries)
  admit-IsBounded c c' release_id r b h =
      let (_, same) = admit-eq-ok c c' release_id r h in
      subst (λ d. IsBounded d × (d.maximum_entries ≡ c.maximum_entries)) (sym same)
        ((b.0, length-with_room c.maximum_entries c.entries (key_of release_id r) r b.0 b.1), refl)

  new_cache-IsBounded :
      (maximum : ℕ) (c : RevisionCache)
      → new_cache maximum ≡ ok c
      → IsBounded c × (c.maximum_entries ≡ maximum)
  unfolding new_cache
  new_cache-IsBounded maximum c h =
      let (_, e, h1) = >>=-eq-ok (throw_if (ltb maximum 1) _) _ h in
      let positive = throw_if-false (ltb maximum 1) _ e in
      subst (λ d. IsBounded d × (d.maximum_entries ≡ maximum)) (ok-injective h1)
        ((ground (arith, positive), omega arith), refl)

  admit_all-IsBounded :
      (c c' : RevisionCache) (admissions : List (String × SkillRevision))
      → IsBounded c
      → admit_all s c admissions ≡ ok c'
      → IsBounded c' × (c'.maximum_entries ≡ c.maximum_entries)
  unfolding admit_all
  admit_all-IsBounded c c' [] b h =
      subst (λ d. IsBounded d × (d.maximum_entries ≡ c.maximum_entries)) (ok-injective h) (b, refl)
  admit_all-IsBounded c c' ((release_id, r) ∷ rest) b h =
      let (d, e, h1) = >>=-eq-ok (admit s c release_id r) _ h in
      let (b1, same) = admit-IsBounded c d release_id r b e in
      let (b2, same2) = admit_all-IsBounded d c' rest b1 h1 in (b2, same2 ∙ same)

  -- The revision that was admitted last under a key.
  abbrev pub latest :
      Option SkillRevision → List (String × SkillRevision) → String → Option SkillRevision
  latest before [] key = before
  latest before ((release_id, r) ∷ rest) key =
      latest (if key_of release_id r === key then some r else before) rest key

  -- What a cache holds under a key, the admissions say.
  abbrev Refines : RevisionCache → (String → Option SkillRevision) → Type 0
  Refines c admitted =
      (key : String) (r : SkillRevision) → get c.entries key ≡ some r → admitted key ≡ some r

  admit-Refines :
      (c c' : RevisionCache) (release_id : String) (r : SkillRevision)
      (admitted : String → Option SkillRevision)
      → Refines c admitted
      → admit s c release_id r ≡ ok c'
      → Refines c' (λ key. if key_of release_id r === key then some r else admitted key)
  admit-Refines c c' release_id r admitted f h =
      let (_, same) = admit-eq-ok c c' release_id r h in
      let at = key_of release_id r in
      subst (λ d. Refines d (λ key. if at === key then some r else admitted key)) (sym same)
        (λ key v g. put-latest c.maximum_entries c.entries at key r v (admitted key) (f key v) g)

  admit_all-Refines :
      (c c' : RevisionCache) (admissions : List (String × SkillRevision))
      (admitted : String → Option SkillRevision)
      → Refines c admitted
      → admit_all s c admissions ≡ ok c'
      → Refines c' (λ key. latest (admitted key) admissions key)
  unfolding admit_all
  admit_all-Refines c c' [] admitted f h = subst (λ d. Refines d admitted) (ok-injective h) f
  admit_all-Refines c c' ((release_id, r) ∷ rest) admitted f h =
      let (d, e, h1) = >>=-eq-ok (admit s c release_id r) _ h in
      admit_all-Refines d c' rest
        (λ key. if key_of release_id r === key then some r else admitted key)
        (admit-Refines c d release_id r admitted f e) h1

  new_cache-Refines :
      (maximum : ℕ) (c : RevisionCache) → new_cache maximum ≡ ok c → Refines c (λ key. none)
  unfolding new_cache get
  new_cache-Refines maximum c h =
      let (_, e, h1) = >>=-eq-ok (throw_if (ltb maximum 1) _) _ h in
      subst (λ d. Refines d (λ key. none)) (ok-injective h1) (λ key r g. g)

  verified_entry-eq-ok :
      (o : Option SkillRevision) (r : SkillRevision) → verified_entry s o ≡ ok (some r) → o ≡ some r
  verified_entry-eq-ok none r h = ok-injective h
  verified_entry-eq-ok (some v) r h =
      let (_, e, h1) = >>=-eq-ok (assert_revision_integrity s v) _ h in ok-injective h1

  -- A cache that is new and then admits revisions in order stands for the map of the last admissions:
  -- what it returns for a release, a skill, a revision and a hash is the revision that was admitted last
  -- under their key.
  pub lookup-latest :
      (maximum : ℕ) (empty c : RevisionCache) (admissions : List (String × SkillRevision))
      (release_id skill_id revision bundle_sha256 : String) (r : SkillRevision)
      → new_cache maximum ≡ ok empty
      → admit_all s empty admissions ≡ ok c
      → lookup s c release_id skill_id revision bundle_sha256 ≡ ok (some r)
      → latest none admissions (cache_key release_id skill_id revision bundle_sha256) ≡ some r
  unfolding lookup
  lookup-latest maximum empty c admissions release_id skill_id revision bundle_sha256 r h k g =
      let key = cache_key release_id skill_id revision bundle_sha256 in
      admit_all-Refines empty c admissions (λ key. none) (new_cache-Refines maximum empty h) k key r
        (verified_entry-eq-ok (get c.entries key) r g)

  -- A cache that is new and then admits revisions in order holds at most its capacity.
  pub admit_all-length :
      (maximum : ℕ) (empty c : RevisionCache) (admissions : List (String × SkillRevision))
      → new_cache maximum ≡ ok empty
      → admit_all s empty admissions ≡ ok c
      → (1 ≤ maximum) × (length c.entries ≤ maximum)
  admit_all-length maximum empty c admissions h k =
      let (b, same) = new_cache-IsBounded maximum empty h in
      let (b2, same2) = admit_all-IsBounded empty c admissions b k in
      (omega (arith, b, same), omega (arith, b2, same2, same))

  -- A revision that a cache admits is found, even where another is dropped for it.
  pub admit-lookup :
      (c c' : RevisionCache) (release_id : String) (r : SkillRevision)
      → admit s c release_id r ≡ ok c'
      → lookup s c' release_id r.skill_id r.revision r.bundle_sha256 ≡ ok (some r)
  unfolding lookup
  admit-lookup c c' release_id r h =
      let (whole, same) = admit-eq-ok c c' release_id r h in
      let at = key_of release_id r in
      let found : get c'.entries at ≡ some r =
        subst (λ d. get d.entries at ≡ some r) (sym same)
          (get-put (with_room c.maximum_entries c.entries at) at r at ∙ rw (===_refl at) refl) in
      rw (found, whole) refl
