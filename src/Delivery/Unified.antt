-- ===== src/Delivery/Unified.antt =====
-- src/catalog/unified-catalog-provider.ts: `UnifiedCatalogProvider`, over what its providers answer.
use skillwire.Base.{
  ◌>>=◌, ℕ, Bool, not, ◌&&◌, ◌||◌, List, [], ◌∷◌, ◌++◌, ltb, includes, sort_by, if◌then◌else◌,
  Option, none, some, String, Result, ok, err,
}
use skillwire.Canonical.{◌<>◌}
use skillwire.Catalog.Revision.{GitHubOrigin}
use skillwire.Ranking.Score.{Skill}

-- `originPriority`
abbrev pub origin_priority : Option GitHubOrigin → ℕ
origin_priority none = 0
origin_priority (some origin) = 1

abbrev pub selected_key : Skill → String
selected_key k = k.id <> "\0" <> k.revision

-- `Promise.all(…)` and `flat()`
unfoldable pub all_answers : List (Result (List Skill)) → Result (List Skill)
all_answers [] = ok []
all_answers (a ∷ more) = let rest = all_answers more in do x ← a; xs ← rest; ok (x ++ xs)

-- The loop that sets a key which is absent.
unfoldable pub select_from : List String → List Skill → List Skill
select_from seen [] = []
select_from seen (k ∷ ks) =
    let later = select_from seen ks in
    let rest = select_from (selected_key k ∷ seen) ks in
    if includes seen (selected_key k) then later else k ∷ rest

-- The first provider that has an answer gives it.
unfoldable pub first_answer {ℓ} : {A : Type ℓ} → List (Result (Option A)) → Result (Option A)
first_answer [] = ok none
first_answer (err e ∷ more) = err e
first_answer (ok none ∷ more) = first_answer more
first_answer (ok (some x) ∷ more) = ok (some x)

module _ (locale_less : String → String → Bool) where
  abbrev pub key_less : Skill → Skill → Bool
  key_less a b = locale_less (selected_key a) (selected_key b)

  -- By key, and among equal keys the program's own first.
  abbrev pub preferred : Skill → Skill → Bool
  preferred a b =
      key_less a b
      || (not (key_less b a)
          && ltb (origin_priority a.catalog_origin) (origin_priority b.catalog_origin))

  abbrev pub listing : List Skill → List Skill
  listing values = sort_by key_less (select_from [] (sort_by preferred values))

  unfoldable pub list_metadata : List (Result (List Skill)) → Result (List Skill)
  unfolding all_answers select_from
  list_metadata answers = do values ← all_answers answers; ok (listing values)
