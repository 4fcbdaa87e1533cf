-- ===== src/Delivery/SearchLaws.antt =====
-- `createSearchSkills`: what a search returns.
use skillwire.Base.{
  ℕ, ◌≤◌, suc, true, not, List, [], ◌∷◌, length, All, Option, String, Result, ok, ◌≡◌, refl, arith,
  map, ◌||◌, sort_by, >>=-eq-ok, ap, subst, All-filter, ok-injective, filter-All, All-left, take,
  drop, take-drop, sort_by-All, leb, filter_by,
}
use skillwire.Advisory.Event.{is_revoked}
use skillwire.Delivery.Errors.{MemoryScope}
use skillwire.Ranking.Score.{
  Words, Skill, RankedSkill, UsageProjection, rank_skills, relevant_skills, score_skill,
  goes_before, scored_skills, boost_of,
}
use skillwire.Ranking.Best.{IsBest, IsRelevant, rank_skills-IsBest, rank_skills-IsRelevant}
use skillwire.Delivery.Search.{
  SearchInput, SearchPreview, InvocationContext, previews, offered, limit_of, search_skills,
  memory_of, is_user_only, is_user_requested,
}

module _ (w : Words) (P : Skill → Type 0) where
  All-score_skill :
      (task : String) (boost : Skill → ℕ) (skills : List Skill)
      → All P skills
      → All (λ r. P r.skill) (map (λ k. score_skill w k task (boost k)) skills)
  unfolding score_skill
  All-score_skill task boost [] h = tt
  All-score_skill task boost (k ∷ ks) h = (h.0, All-score_skill task boost ks h.1)

  -- What holds of each skill of the catalog holds of each that is ranked.
  All-rank_skills :
      (skills : List Skill) (task : String) (limit : ℕ) (memory : List UsageProjection)
      → All P skills
      → All (λ r. P r.skill) (rank_skills w skills task limit memory)
  unfolding rank_skills relevant_skills
  All-rank_skills skills task limit memory h =
      let relevant = relevant_skills w skills task memory in
      let sorted = sort_by (goes_before w) relevant in
      let kept = All-filter P (λ k. not (is_revoked k.current_advisory_status)) skills h in
      let scored : List RankedSkill = scored_skills w skills task memory in
      All-left (λ r. P r.skill) (take limit sorted) (drop limit sorted)
        (rw (take-drop limit sorted) (
          sort_by-All (goes_before w) (λ r. P r.skill) relevant
            (All-filter (λ (r : RankedSkill). P r.skill) (λ (r : RankedSkill). leb 1 r.score) scored
              (All-score_skill task (boost_of w memory)
                (filter_by (λ k. not (is_revoked k.current_advisory_status)) skills) kept))))

-- The previews are numbered in order.
abbrev pub IsNumbered : ℕ → List SearchPreview → Type 0
IsNumbered rank [] = Unit
IsNumbered rank (p ∷ ps) = (p.rank ≡ rank) × IsNumbered (suc rank) ps

previews-IsNumbered : (rank : ℕ) (rs : List RankedSkill) → IsNumbered rank (previews rank rs)
unfolding previews
previews-IsNumbered rank [] = tt
previews-IsNumbered rank (r ∷ rs) = (refl, previews-IsNumbered (suc rank) rs)

length-previews : (rank : ℕ) (rs : List RankedSkill) → length (previews rank rs) ≡ length rs
unfolding previews
length-previews rank [] = refl
length-previews rank (r ∷ rs) = ap suc (length-previews (suc rank) rs)

-- A skill that is shown to a request that may be automatic is not one for users only.
abbrev pub IsOffered : Option InvocationContext → Skill → Type 0
IsOffered context k = (is_user_requested context || not (is_user_only k.invocation_mode)) ≡ true

-- The answer to a search of a catalog: numbered from one, no more than asked for, the best of the
-- relevant skills that are offered, none revoked.
pub record IsAnswer (w : Words) (input : SearchInput) (skills : List Skill)
    (memory : List UsageProjection) (answer : List SearchPreview) : Type 0 where
  pub results : List RankedSkill
  pub shown : answer ≡ previews 1 results
  pub numbered : IsNumbered 1 answer
  pub bounded : length answer ≤ limit_of input.limit
  pub best :
      IsBest
        (limit_of input.limit)
        (relevant_skills w (offered input.invocation_context skills) input.task memory)
        results
  pub relevant : All IsRelevant results
  pub permitted : All (λ r. IsOffered input.invocation_context r.skill) results

found-IsAnswer :
    (w : Words) (input : SearchInput) (skills : List Skill) (memory : List UsageProjection)
    (rs : List RankedSkill)
    → IsBest
        (limit_of input.limit)
        (relevant_skills w (offered input.invocation_context skills) input.task memory)
        rs
    → All IsRelevant rs
    → All (λ r. IsOffered input.invocation_context r.skill) rs
    → IsAnswer w input skills memory (previews 1 rs)
found-IsAnswer w input skills memory rs best relevant permitted = record {
  results = rs;
  shown = refl;
  numbered = previews-IsNumbered 1 rs;
  bounded = ground (arith, best.full, length-previews 1 rs);
  best = best;
  relevant = relevant;
  permitted = permitted;
}

module _ (w : Words) (ranking_projection : MemoryScope → Result (List UsageProjection))
    (list_metadata : Result (List Skill)) where
  -- A search that returns read the memory of the repository that it names and the catalog, and its
  -- answer is numbered from one, has at most as many skills as asked for, and shows the best of the
  -- relevant skills, none of them revoked, and none for users only where the user did not ask.
  pub search_skills-IsAnswer :
      (account_id : String) (input : SearchInput) (answer : List SearchPreview)
      → search_skills w ranking_projection list_metadata account_id input ≡ ok answer
      → (memory : List UsageProjection) × (skills : List Skill) × (memory_of w ranking_projection
            list_metadata account_id input.repository_hash
          ≡ ok memory)
        × (list_metadata ≡ ok skills)
        × IsAnswer w input skills memory answer
  unfolding search_skills
  search_skills-IsAnswer account_id input answer h =
      let (memory, e1, h1) =
        >>=-eq-ok (memory_of w ranking_projection list_metadata account_id input.repository_hash) _
          h in
      let (skills, e2, h2) = >>=-eq-ok list_metadata _ h1 in
      let shown = offered input.invocation_context skills in
      let limit = limit_of input.limit in
      let answered =
        found-IsAnswer w input skills memory (rank_skills w shown input.task limit memory)
          (rank_skills-IsBest w shown input.task limit memory)
          (rank_skills-IsRelevant w shown input.task limit memory)
          (All-rank_skills w (IsOffered input.invocation_context) shown input.task limit memory (
            filter-All
              (λ k.
                is_user_requested input.invocation_context || not (is_user_only k.invocation_mode))
              skills)) in
      (memory, skills, e1, e2, subst (IsAnswer w input skills memory) (ok-injective h2) answered)
