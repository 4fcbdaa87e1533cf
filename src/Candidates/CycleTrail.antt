-- ===== src/Candidates/CycleTrail.antt =====
-- `dependencyCycleMembers`: the trail of a search, and the cycle that a visit to it closes.
use skillwire.Base.{
  true, not, ◌≡◌, ◌⊎◌, inl, inr, List, [], ◌∷◌, All, String, ◌===◌, includes, subst, All-map, sym,
  Bool-cases, ===_iff, All-both, ◌∙◌, ◌&&◌, arith,
}
use skillwire.Base.Dict.{insert, includes-insert}
use skillwire.Catalog.Revision.{to_set}
use skillwire.Candidates.Cycles.{Graph, dependencies_of, through, slice_from}

module _ (graph : Graph) where
  -- A skill depends on another, at once or through others.
  pub data Walk : String → String → Type 0 where
    one : (x y : String) → includes (dependencies_of graph x) y ≡ true → Walk x y
    on : (x y z : String) → includes (dependencies_of graph x) y ≡ true → Walk y z → Walk x z

  -- Each entry of the stack is a dependency of the one below.
  abbrev pub IsTrail : List String → Type 0
  IsTrail [] = Unit
  IsTrail (x ∷ []) = Unit
  IsTrail (x ∷ y ∷ ys) = (includes (dependencies_of graph y) x ≡ true) × IsTrail (y ∷ ys)

  -- The name may be visited from the stack's top.
  abbrev pub IsNext : List String → String → Type 0
  IsNext [] name = Unit
  IsNext (x ∷ xs) name = includes (dependencies_of graph x) name ≡ true

  Walk-trans : {x y z : String} → Walk x y → Walk y z → Walk x z
  Walk-trans (one x y e) w = on x y _ e w
  Walk-trans (on x y _ e v) w = on x y _ e (Walk-trans v w)

  -- From each entry a walk leads to what the top depends on.
  trail-forward :
      (xs : List String) (name : String) → IsTrail xs → IsNext xs name → All (λ m. Walk m name) xs
  trail-forward [] name t n = tt
  trail-forward (x ∷ []) name t n = (one x name n, tt)
  trail-forward (x ∷ y ∷ ys) name t n = (
    one x name n,
    All-map (λ m. Walk m x) (λ m. Walk m name) (λ m w. Walk-trans w (one x name n)) (y ∷ ys)
        (trail-forward (y ∷ ys) x t.1 t.0),
  )

  abbrev pub IsReached : String → String → Type 0
  IsReached name m = (m ≡ name) ⊎ Walk name m

  next-IsReached :
      (name y x : String)
      → IsReached name y
      → includes (dependencies_of graph y) x ≡ true
      → IsReached name x
  next-IsReached name y x (inl e) h = inr (subst (λ z. Walk z x) e (one y x h))
  next-IsReached name y x (inr w) h = inr (Walk-trans w (one y x h))

  top-IsReached :
      (name x : String) (xs : List String)
      → IsTrail (x ∷ xs)
      → includes (x ∷ xs) name ≡ true
      → IsReached name x
  top-IsReached name x [] t h = inl ((===_iff x name).0 (ground (arith, h)))
  top-IsReached name x (y ∷ ys) t h = elim (Bool-cases (includes (y ∷ ys) name)) [
    | inl q ↦ next-IsReached name y x (top-IsReached name y ys t.1 q) t.0
    | inr q ↦ inl ((===_iff x name).0 (ground (arith, h, q)))
  ]

  below-IsTrail : (x : String) (xs : List String) → IsTrail (x ∷ xs) → IsTrail xs
  below-IsTrail x [] t = tt
  below-IsTrail x (y ∷ ys) t = t.1

  through-IsReached :
      (name : String) (xs : List String)
      → IsTrail xs
      → includes xs name ≡ true
      → All (IsReached name) (through name xs)
  unfolding through
  through-IsReached name [] t h = tt
  through-IsReached name (x ∷ xs) t h = elim (Bool-cases (x === name && not (includes xs name))) [
    | inl q ↦ rw q (inl ((===_iff x name).0 (ground (arith, q))), tt)
    | inr q ↦ rw q (
      top-IsReached name x xs t h,
      through-IsReached name xs (below-IsTrail x xs t) (ground (arith, h, q)),
    )
  ]

  through-All :
      (P : String → Type 0) (name : String) (xs : List String) → All P xs → All P (through name xs)
  unfolding through
  through-All P name [] h = tt
  through-All P name (x ∷ xs) h = elim (Bool-cases (x === name && not (includes xs name))) [
    | inl q ↦ rw q (h.0, tt)
    | inr q ↦ rw q (h.0, through-All P name xs h.1)
  ]

  closed : (name m : String) → IsReached name m × Walk m name → Walk m m
  closed name m (inl e, w) = subst (λ z. Walk m z) (sym e) w
  closed name m (inr v, w) = Walk-trans w v

  -- What a cycle is closed by lies on a cycle.
  pub slice-Walk :
      (name : String) (xs : List String)
      → IsTrail xs
      → IsNext xs name
      → includes xs name ≡ true
      → All (λ m. Walk m m) (slice_from name xs)
  unfolding slice_from
  slice-Walk name xs t n h = rw h (
      All-map (λ m. IsReached name m × Walk m name) (λ m. Walk m m) (closed name) (through name xs)
        (All-both (IsReached name) (λ m. Walk m name) (through name xs)
          (through-IsReached name xs t h)
          (through-All (λ m. Walk m name) name xs (trail-forward xs name t n))))

  abbrev pub IsOnCycles : List String → Type 0
  IsOnCycles set = (m : String) → includes set m ≡ true → Walk m m

  pub to_set-IsOnCycles :
      (set xs : List String) → All (λ m. Walk m m) xs → IsOnCycles set → IsOnCycles (to_set set xs)
  to_set-IsOnCycles set [] h k = k
  to_set-IsOnCycles set (x ∷ xs) h k = to_set-IsOnCycles (insert set x) xs h.1 (λ m p.
      let e = sym (includes-insert set x m) ∙ p in
      elim (Bool-cases (x === m)) [
        | inl q ↦ subst (λ z. Walk z z) ((===_iff x m).0 q) h.0
        | inr q ↦ k m (ground (arith, e, q))
      ])
