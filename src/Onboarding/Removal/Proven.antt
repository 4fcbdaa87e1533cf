-- ===== src/Onboarding/Removal/Proven.antt =====
-- Nothing is removed that was not observed with its expected identity since the removal before it.
use skillwire.Journal.Entry.{Detail}
use skillwire.Onboarding.Triple.{
  Holds, call-Holds, bind-Holds, lift-Holds, pure-Holds, unless-Holds, effect-Holds, weaken-Holds,
}
use skillwire.Ownership.Record.{OwnedAsset, is_present, is_retained}
use skillwire.Ownership.Ledger.{Formats, require_current_owned_asset_identity}
use skillwire.Base.{
  ℕ, true, false, ◌||◌, ◌≡◌, refl, List, [], ◌∷◌, ◌⊎◌, inl, ok, String, Result, sym, Failure, err,
  length, arith, ===_iff, ◌∙◌, ap,
}
use skillwire.Onboarding.Op.{Setting, effect}
use skillwire.Onboarding.Removal.{
  Removal, Answers, Event, with_event, asking, checked, removing_asset, proved,
}

-- An asset was observed with its identity since the last removal, and is one that may be removed.
abbrev pub Seen : OwnedAsset → List Event → Type 0
Seen a [] = ⊥
Seen a (Event.observed b answer ∷ rest) =
    ((b ≡ a)
      × (answer ≡ ok a.expected_identity_sha256)
      × ((is_present a.disposition || is_retained a.disposition) ≡ true))
    ⊎ Seen a rest
Seen a (_ ∷ rest) = ⊥

-- The last event is an observation with this answer.
abbrev HasSeen : OwnedAsset → String → List Event → Type 0
HasSeen a current [] = ⊥
HasSeen a current (Event.observed b answer ∷ rest) = (b ≡ a) × (answer ≡ ok current)
HasSeen a current (_ ∷ rest) = ⊥

-- Every removal was of an asset seen before it.
abbrev pub IsProven : List Event → Type 0
IsProven [] = Unit {0}
IsProven (Event.removing a ∷ rest) = Seen a rest × IsProven rest
IsProven (_ ∷ rest) = IsProven rest

abbrev Proven : Removal → Type 0
Proven s = IsProven s.events

-- A call that asks leaves its event.
pub asking-Holds :
    {A : Type 0} {P : Removal → Type 0} {Q : A → Removal → Type 0} {E : Failure → Removal → Type 0}
    (event : Result A → Event) (answer : ℕ → Result A)
    → ((s : Removal)
        → P s
        → (v : A) (n : ℕ) → answer n ≡ ok v
        → Q v (with_event (event (answer n)) s))
    → ((s : Removal)
        → P s
        → (e : Failure) (n : ℕ) → answer n ≡ err e
        → E e (with_event (event (answer n)) s))
    → Holds P (asking event answer) Q E
asking-Holds {P = P} {Q = Q} {E = E} event answer h k = record {
  run = λ r p.
      let n = length r.local.events in
      (call-Holds {E = E} {P = P} {Q = Q} (with_event (event (answer n))) (answer n)
          (λ s q v d. h s q v n d) (λ s q e d. k s q e n d)).run
        r p;
}

identity_checked :
    (f : Formats) (a : OwnedAsset) (current : String) {u : Unit {0}}
    → require_current_owned_asset_identity f a current ≡ ok u
    → (a.expected_identity_sha256 ≡ current)
      × ((is_present a.disposition || is_retained a.disposition) ≡ true)
unfolding require_current_owned_asset_identity
identity_checked f a current h = ground (arith, ===_iff a.expected_identity_sha256 current)

identity-Seen :
    (a : OwnedAsset) (current : String) (events : List Event)
    → (a.expected_identity_sha256 ≡ current)
      × ((is_present a.disposition || is_retained a.disposition) ≡ true)
    → HasSeen a current events
    → Seen a events
identity-Seen a current [] c h = absurd h
identity-Seen a current (Event.observed b answer ∷ rest) (e, c) (p, q) =
    inl (p, q ∙ ap (λ x. ok x) (sym e), c)
identity-Seen a current (Event.removing b ∷ rest) c h = absurd h
identity-Seen a current (Event.stopping ∷ rest) c h = absurd h
identity-Seen a current (Event.publishing o ∷ rest) c h = absurd h

module _ (f : Formats) (g : Setting) (does : Answers) where
  -- A check adds to what is seen.
  pub checked-Holds :
      (a : OwnedAsset) (P : Removal → Type 0)
      → ((s : Removal) (answer : Result String) → P s → P (with_event (Event.observed a answer) s))
      → Holds
          (λ s. P s × Proven s)
          (checked f g does a)
          (λ _ s. P s × Seen a s.events × Proven s)
          (λ _. Proven)
  unfolding checked
  checked-Holds a P keeps =
      bind-Holds (λ current s. P s × HasSeen a current s.events × Proven s)
        (asking-Holds (Event.observed a) (λ n. does.observe_identity n a)
          (λ s p v n d. (keeps s _ p.0, (refl, d), p.1)) (λ s p e n d. p.1))
        (λ current.
          lift-Holds _
            (λ s p v d.
              (p.0, identity-Seen a current s.events (identity_checked f a current d) p.1, p.2))
            (λ s p e d. p.2))

  -- The first loop removes nothing.
  pub proved-Holds :
      (cancelled : String) (assets : List OwnedAsset) (P : Removal → Type 0)
      → ((a : OwnedAsset) (s : Removal) (answer : Result String)
          → P s
          → P (with_event (Event.observed a answer) s))
      → Holds
          (λ s. P s × Proven s)
          (proved f g does cancelled assets)
          (λ _ s. P s × Proven s)
          (λ _. Proven)
  unfolding proved
  proved-Holds cancelled [] P keeps = pure-Holds tt (λ s p. p)
  proved-Holds cancelled (a ∷ rest) P keeps =
      bind-Holds (λ _ s. P s × Proven s) (unless-Holds g _ (λ s p. p) (λ s p. p.1))
        λ _.
          bind-Holds (λ _ s. P s × Seen a s.events × Proven s) (checked-Holds a P (keeps a))
            λ _.
              weaken-Holds (λ s. P s × Proven s) (λ s p. (p.0, p.2))
                (proved-Holds cancelled rest P keeps)

  -- An effect that removes an asset that is seen.
  pub removal-Holds :
      (a : OwnedAsset) (step : String) (detail proof : Detail) (P R : Removal → Type 0)
      → ((s : Removal) → P s → R (with_event (Event.removing a) s))
      → Holds
          (λ s. P s × Seen a s.events × Proven s)
          (effect g step detail (removing_asset f g does a) (λ _. false) (λ _. ok proof))
          (λ _ s. R s × Proven s)
          (λ _. Proven)
  unfolding removing_asset
  removal-Holds a step detail proof P R keeps =
      effect-Holds g step detail _ _ _ (λ s p. p.2) (λ _ s p. p.1)
        (asking-Holds (λ _. Event.removing a) (λ n. does.remove_asset n a)
          (λ s p v n d. (keeps s p.0, (p.1, p.2))) (λ s p e n d. (p.1, p.2)))
