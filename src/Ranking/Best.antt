-- ===== src/Ranking/Best.antt =====
-- What `rankSkills` returns: the best of the relevant skills.
use mathlib.Core.List.{Perm}
use skillwire.Base.{
  ℕ, ◌≤◌, ◌<◌, true, false, ◌≡◌, ◌⊎◌, List, [], ◌∷◌, ◌++◌, String, All, length, take, drop,
  take-drop, length-take, filter-All, All-filter, All-left, sort_by, sort_by-Perm,
  sort_by-IsOrdered, IsOrdered, arith, map, not, leb, sort_by-All,
}
use skillwire.Advisory.Event.{is_revoked}
use skillwire.Ranking.Score.{
  Words, Skill, RankedSkill, UsageProjection, goes_before, relevant_skills, rank_skills,
  score_skill, scored_skills, boost_of,
}

-- The first ranks no lower than the second: more relevant, or as relevant and remembered no worse.
abbrev pub IsNoWorse : RankedSkill → RankedSkill → Type 0
IsNoWorse a b = (b.score < a.score) ⊎ ((a.score ≡ b.score) × (b.memory_boost ≤ a.memory_boost))

abbrev pub IsRelevant : RankedSkill → Type 0
IsRelevant r = (is_revoked r.skill.current_advisory_status ≡ false) × (1 ≤ r.score)

IsNoWorse-trans : (a b c : RankedSkill) → IsNoWorse a b → IsNoWorse b c → IsNoWorse a c
IsNoWorse-trans a b c h k = ground arith

goes_before-IsNoWorse : (w : Words) (a b : RankedSkill) → goes_before w a b ≡ true → IsNoWorse a b
goes_before-IsNoWorse w a b h = ground arith

goes_after-IsNoWorse : (w : Words) (a b : RankedSkill) → goes_before w b a ≡ false → IsNoWorse a b
goes_after-IsNoWorse w a b h = ground arith

-- The results, with what was left out: together they are the relevant skills, in their order.
pub record IsBest (limit : ℕ) (relevant results : List RankedSkill) : Type 0 where
  pub left_out : List RankedSkill
  pub complete : Perm (results ++ left_out) relevant
  pub ordered : IsOrdered IsNoWorse (results ++ left_out)
  pub full : (length results ≡ limit) ⊎ ((length results ≤ limit) × (left_out ≡ []))

-- The results are the first of the relevant skills by score and then by memory, as many as asked or
-- all: none that was left out ranks above one of them.
pub rank_skills-IsBest :
    (w : Words) (skills : List Skill) (task : String) (limit : ℕ) (memory : List UsageProjection)
    → IsBest limit (relevant_skills w skills task memory) (rank_skills w skills task limit memory)
unfolding rank_skills
rank_skills-IsBest w skills task limit memory =
    let sorted = sort_by (goes_before w) (relevant_skills w skills task memory) in
    record {
      left_out = drop limit sorted;
      complete = rw (take-drop limit sorted) (sort_by-Perm (goes_before w) _);
      ordered = rw (take-drop limit sorted) (
          sort_by-IsOrdered (goes_before w) IsNoWorse (goes_before-IsNoWorse w)
            (goes_after-IsNoWorse w) IsNoWorse-trans (relevant_skills w skills task memory));
      full = length-take limit sorted;
    }

All-scored :
    (w : Words) (task : String) (boost : Skill → ℕ) (skills : List Skill)
    → All (λ s. not (is_revoked s.current_advisory_status) ≡ true) skills
    → All
        (λ r. is_revoked r.skill.current_advisory_status ≡ false)
        (map (λ s. score_skill w s task (boost s)) skills)
unfolding score_skill
All-scored w task boost [] h = tt
All-scored w task boost (s ∷ ss) h = (ground (arith, h.0), All-scored w task boost ss h.1)

All-both :
    (rs : List RankedSkill)
    → All (λ r. is_revoked r.skill.current_advisory_status ≡ false) rs
    → All (λ r. leb 1 r.score ≡ true) rs
    → All IsRelevant rs
All-both [] h k = tt
All-both (r ∷ rs) h k = ((h.0, ground (arith, k.0)), All-both rs h.1 k.1)

-- No result is a revoked skill, and each has at least the minimum score.
pub rank_skills-IsRelevant :
    (w : Words) (skills : List Skill) (task : String) (limit : ℕ) (memory : List UsageProjection)
    → All IsRelevant (rank_skills w skills task limit memory)
unfolding rank_skills relevant_skills
rank_skills-IsRelevant w skills task limit memory =
    let scored = scored_skills w skills task memory in
    let sorted = sort_by (goes_before w) (relevant_skills w skills task memory) in
    All-left IsRelevant (take limit sorted) (drop limit sorted) (
      rw (take-drop limit sorted) (
        sort_by-All (goes_before w) IsRelevant (relevant_skills w skills task memory) (
          All-both (relevant_skills w skills task memory)
            (All-filter _ (λ (r : RankedSkill). leb 1 r.score) scored
              (All-scored w task (boost_of w memory) _
                (filter-All (λ s. not (is_revoked s.current_advisory_status)) skills)))
            (filter-All (λ (r : RankedSkill). leb 1 r.score) scored))))
