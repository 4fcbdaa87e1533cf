-- ===== src/Journal/BadLines.antt =====
-- A file in which a failed append left something cannot be opened once more is written to it.
use skillwire.Base.{ℕ, suc, ◌+◌, ◌≡◌, ◌≢◌, Bool, List, [], ◌∷◌, String, length, ◌⊎◌}
use skillwire.Journal.Entry.{Phase, Detail, Entry}
use skillwire.Journal.Append.{World, Journal, append, Line, unreadable, json}

-- A line of the file that stops the loop over the lines from this number on.
abbrev pub HasBadLine : ℕ → List Line → Type 0
HasBadLine n [] = ⊥
HasBadLine n (unreadable ∷ ls) = Unit {0}
HasBadLine n (json e ∷ ls) = (e.sequence ≢ n) ⊎ HasBadLine (suc n) ls

module _ (is_datetime : String → Bool) where
  module _ (world : World) where
    -- What may be written to the file while these entries are in memory.
    abbrev IsNext : List Entry → Line → Type 0
    IsNext es unreadable = Unit {0}
    IsNext es (json e) = e.sequence ≡ length es + 1

    -- The file and the entries are still those; or there is a bad line in the file.
    abbrev IsBroken : Journal → Journal → Type 0
    IsBroken half k =
        ((k.lines ≡ half.lines) × (k.is_ended ≡ half.is_ended) × (k.entries ≡ half.entries))
        ⊎ HasBadLine 1 k.lines

    -- The journal after an append that failed.
    abbrev pub half_appended : Journal → Phase → String → Detail → Journal
    half_appended j phase step detail = (append is_datetime world phase step detail j).1
