-- ===== src/Journal/Outstanding.antt =====
-- What the journal's summaries look for, independently of their sets and maps: a step that an entry
-- marks and that no later entry clears.
use skillwire.Base.{
  String, ◌≡◌, ◌↔◌, ◌⊎◌, inl, inr, Bool, true, false, not, ◌&&◌, ◌||◌, List, [], ◌∷◌, arith,
  if◌then◌else◌, All, ◌===◌, ===_iff,
}
use skillwire.Journal.Entry.{Entry}

-- A step that some entry marks, with no later entry that clears it.
module _ (marks clears : Entry → Bool) (step : String) where
  abbrev pub IsOutstanding : List Entry → Type 0
  IsOutstanding [] = ⊥
  IsOutstanding (e ∷ es) =
      IsOutstanding es
      ⊎ ((marks e ≡ true) × (e.step ≡ step) × All (λ x. x.step ≡ step → clears x ≡ false) es)

  -- Whether the step is outstanding after the entries, if `known` said so before them.
  abbrev pub outstanding : Bool → List Entry → Bool
  outstanding known [] = known
  outstanding known (e ∷ es) =
      outstanding (if e.step === step then (marks e || (not (clears e) && known)) else known) es

  -- No entry of the step clears it.
  abbrev pub IsUncleared : List Entry → Type 0
  IsUncleared es = All (λ x. x.step ≡ step → clears x ≡ false) es

  outstanding_sound :
      (known : Bool) (es : List Entry)
      → outstanding known es ≡ true
      → IsOutstanding es ⊎ ((known ≡ true) × IsUncleared es)
  outstanding_sound known [] h = inr (h, tt)
  outstanding_sound known (e ∷ es) h = ground (
    arith,
    ===_iff e.step step,
    outstanding_sound (if e.step === step then (marks e || (not (clears e) && known)) else known) es
        h,
  )

  outstanding_complete :
      (known : Bool) (es : List Entry)
      → IsOutstanding es ⊎ ((known ≡ true) × IsUncleared es)
      → outstanding known es ≡ true
  outstanding_complete known [] (inl x) = elim x [ ]
  outstanding_complete known [] (inr h) = h.0
  outstanding_complete known (e ∷ es) (inl (inl o)) = outstanding_complete _ es (inl o)
  outstanding_complete known (e ∷ es) (inl (inr h)) =
      outstanding_complete
        (if e.step === step then (marks e || (not (clears e) && known)) else known) es
        (inr (ground (arith, ===_iff e.step step), h.2))
  outstanding_complete known (e ∷ es) (inr h) =
      outstanding_complete
        (if e.step === step then (marks e || (not (clears e) && known)) else known) es
        (inr (ground (arith, ===_iff e.step step), h.1.1))

  pub outstanding_iff : (es : List Entry) → (outstanding false es ≡ true) ↔ IsOutstanding es
  outstanding_iff es = (
    λ h. elim (outstanding_sound false es h) [ inl o ↦ o | inr k ↦ absurd (cc k.0) ],
    λ o. outstanding_complete false es (inl o),
  )
