-- ===== src/Onboarding/Schema/Laws.antt =====
-- Which schema upgrades schema-compatibility.ts admits, and how it classifies them.
use skillwire.Onboarding.Schema.{
  Decision, classify_schema_upgrade, migrations_after, keeps_schema, goes_forward,
}
use native.Mathlib.Decide.{dec_lt}
use skillwire.Base.{
  ℕ, zero, suc, ◌+◌, ◌-◌, ◌≤◌, ◌<◌, List, Bool, true, any, ◌≡◌, ◌⊎◌, inl, inr, ◌↔◌, arith, ok, ◌==◌,
  Bool-cases, ap,
}

migrations_after-any :
    (p : ℕ → Bool) (live n : ℕ)
    → any p (migrations_after live n) ≡ true
    → (m : ℕ) × (live < m) × (m ≤ live + n) × (p m ≡ true)
unfolding migrations_after
migrations_after-any p live zero h = cc
migrations_after-any p live (suc n) h = elim (Bool-cases (p (live + 1))) [
  | inl q ↦ (live + 1, omega arith, omega arith, q)
  | inr q ↦
      let (m, a, b, c) = migrations_after-any p (live + 1) n (rw q at h) in
      (m, omega arith, omega arith, c)
]

any-migrations_after :
    (p : ℕ → Bool) (live n m : ℕ)
    → live < m
    → m ≤ live + n
    → p m ≡ true
    → any p (migrations_after live n) ≡ true
unfolding migrations_after
any-migrations_after p live zero m a b c = absurd (omega arith)
any-migrations_after p live (suc n) m a b c = elim (dec_lt (live + 1) m) [
  | yes q ↦ ground (arith, any-migrations_after p (live + 1) n m)
  | no q ↦ let e : m ≡ live + 1 = omega arith in ground (arith, ap p e)
]

-- A migration from the live schema to the latest that is known to be forward-only.
abbrev pub GoesForward : ℕ → ℕ → List ℕ → Type 0
GoesForward live latest known = (m : ℕ) × (live < m) × (m ≤ latest) × (any (◌==◌ m) known ≡ true)

module _ (live minimum maximum latest : ℕ) (known : List ℕ) where
  -- What a decision says.
  abbrev pub Decides : Decision → Type 0
  Decides d =
      (minimum ≤ live)
      × (live ≤ maximum)
      × (((latest ≡ live) × (d ≡ keeps_schema live latest))
          ⊎ (GoesForward live latest known × (d ≡ goes_forward live latest)))

  classify-Decides :
      (d : Decision) → classify_schema_upgrade live minimum maximum latest known ≡ ok d → Decides d
  unfolding classify_schema_upgrade
  classify-Decides d h = elim (Bool-cases (latest == live)) [
    | inl e ↦ (ground arith, ground arith, inl (ground arith, ground arith))
    | inr e ↦
        let ahead : live < latest = ground arith in
        let found : any (λ m. any (◌==◌ m) known) (migrations_after live (latest - live)) ≡ true =
          ground arith in
        let (m, a, b, c) = migrations_after-any _ live (latest - live) found in
        (ground arith, ground arith, inr ((m, a, omega arith, c), ground arith))
  ]

  Decides-classify :
      (d : Decision) → Decides d → classify_schema_upgrade live minimum maximum latest known ≡ ok d
  unfolding classify_schema_upgrade
  Decides-classify d (a, b, inl (e, f)) = ground arith
  Decides-classify d (a, b, inr ((m, p, q, k), f)) = ground (
    arith,
    any-migrations_after (λ m. any (◌==◌ m) known) live (latest - live) m p (omega arith) k,
  )

  -- A decision is made exactly if the live schema is in the release's range and either is its latest
  -- migration, which asks for no drain, or lies before it with a known forward-only migration
  -- between, which asks for a drain of the writers and rules an automatic rollback out.
  pub classify_schema_upgrade_iff :
      (d : Decision)
      → (classify_schema_upgrade live minimum maximum latest known ≡ ok d) ↔ Decides d
  classify_schema_upgrade_iff d = (classify-Decides d, Decides-classify d)
