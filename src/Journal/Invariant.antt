-- ===== src/Journal/Invariant.antt =====
-- The invariant of a journal, and that `append` keeps it whatever the operating system answers.
use skillwire.Base.{
  ℕ, suc, ◌+◌, ◌≡◌, refl, ◌↔◌, Bool, true, false, none, String, arith, ok, err, List, [], ◌∷◌, ◌++◌,
  last?, length, All, All-append, Bool-cases, Result-cases, inl, inr, Failure, ap, invalid, ◌∙◌,
  map,
}
use skillwire.Journal.Entry.{Phase, Detail, Entry, entry_schema}
use skillwire.Journal.Append.{
  World, Write, durable, refused, torn, unended, unsynced, json, Journal, guards, has_verify,
  next_entry, store, append,
}
use skillwire.Journal.Protocol.{Allowed, Chain, Chain-concat, guards_iff}

abbrev pub IsNumbered : ℕ → List Entry → Type 0
IsNumbered n [] = Unit
IsNumbered n (e ∷ es) = (e.sequence ≡ n) × IsNumbered (suc n) es

pub IsNumbered-concat :
    (n : ℕ) (es : List Entry) (e : Entry)
    → IsNumbered n es
    → e.sequence ≡ n + length es
    → IsNumbered n (es ++ e ∷ [])
IsNumbered-concat n [] e h p = (omega arith, tt)
IsNumbered-concat n (x ∷ es) e h p = (h.0, IsNumbered-concat (suc n) es e h.1 (omega arith))

module _ (is_datetime : String → Bool) where
  abbrev pub Conforms : Entry → Type 0
  Conforms e = entry_schema is_datetime e ≡ true

  -- The entries in memory keep the order of phases, are numbered from 1 and meet the schema.
  pub record IsSound (j : Journal) : Type 0 where
    pub chain : Chain none false j.entries
    pub numbered : IsNumbered 1 j.entries
    pub conforming : All Conforms j.entries

  -- The file holds the entries in memory, each on a line that is ended.
  abbrev pub IsSynced : Journal → Type 0
  IsSynced j = (j.lines ≡ map json j.entries) × (j.is_ended ≡ true)

  module _ (world : World) (phase : Phase) (step : String) (detail : Detail) (j : Journal) where
    abbrev new_entry : Entry
    new_entry = next_entry is_datetime world j phase step detail

    push-IsSound :
        IsSound j
        → Allowed (last? j.entries) (has_verify j.entries) phase step detail
        → Conforms new_entry
        → (k : Journal) → k.entries ≡ j.entries ++ new_entry ∷ []
        → IsSound k
    push-IsSound s a c k e = record {
      chain = rw e (Chain-concat j.entries new_entry s.chain a);
      numbered = rw e (IsNumbered-concat 1 j.entries new_entry s.numbered (omega arith));
      conforming = rw e (All-append Conforms j.entries (new_entry ∷ []) s.conforming (c, tt));
    }

    store-IsSound :
        (w : Write)
        → IsSound j
        → Allowed (last? j.entries) (has_verify j.entries) phase step detail
        → Conforms new_entry
        → IsSound (store w new_entry j).1
    unfolding store
    store-IsSound durable s a c = push-IsSound s a c (store durable new_entry j).1 refl
    store-IsSound refused s a c = record {
      chain = s.chain;
      numbered = s.numbered;
      conforming = s.conforming;
    }
    store-IsSound torn s a c = record {
      chain = s.chain;
      numbered = s.numbered;
      conforming = s.conforming;
    }
    store-IsSound unended s a c = record {
      chain = s.chain;
      numbered = s.numbered;
      conforming = s.conforming;
    }
    store-IsSound unsynced s a c = record {
      chain = s.chain;
      numbered = s.numbered;
      conforming = s.conforming;
    }

  -- `append` by its three ways: past the guards and the schema, past the guards only, neither.
  module _ (world : World) (phase : Phase) (step : String) (detail : Detail) (j : Journal) where
    pub append_accepted :
        guards j.entries phase step detail ≡ ok tt
        → Conforms (new_entry world phase step detail j)
        → append is_datetime world phase step detail j
          ≡ store (world.write j.writes) (new_entry world phase step detail j) j
    unfolding append
    append_accepted p c = rw (p, append, c)

    pub append_unfit :
        guards j.entries phase step detail ≡ ok tt
        → entry_schema is_datetime (new_entry world phase step detail j) ≡ false
        → append is_datetime world phase step detail j ≡ (err invalid, j)
    unfolding append
    append_unfit p c = rw (p, append, c)

    pub append_guarded :
        {e : Failure}
        → guards j.entries phase step detail ≡ err e
        → append is_datetime world phase step detail j ≡ (err e, j)
    unfolding append
    append_guarded p = rw (p, append)

  -- Whatever is appended, whether it succeeds, and whatever the system answers to the write, the
  -- entries keep the order of phases, the numbering from 1 and the schema.
  pub append-IsSound :
      (world : World) (phase : Phase) (step : String) (detail : Detail) (j : Journal)
      → IsSound j
      → IsSound (append is_datetime world phase step detail j).1
  append-IsSound world phase step detail j s =
      elim (Result-cases (guards j.entries phase step detail)) [
        | inr (_, p) ↦ rw (append_guarded world phase step detail j p) s
        | inl (_, p) ↦
            elim (Bool-cases (entry_schema is_datetime (new_entry world phase step detail j))) [
              | inr c ↦ rw (append_unfit world phase step detail j p c) s
              | inl c ↦ rw (append_accepted world phase step detail j p c) (
                  store-IsSound world phase step detail j (world.write j.writes) s
                    ((guards_iff j.entries phase step detail).0 p) c)
            ]
      ]

  store-eq-ok : (w : Write) (e : Entry) (j : Journal) → (store w e j).0 ≡ ok tt → w ≡ durable
  unfolding store
  store-eq-ok durable e j h = refl
  store-eq-ok refused e j h = cc
  store-eq-ok torn e j h = cc
  store-eq-ok unended e j h = cc
  store-eq-ok unsynced e j h = cc

  append_ok :
      (world : World) (phase : Phase) (step : String) (detail : Detail) (j : Journal)
      → (append is_datetime world phase step detail j).0 ≡ ok tt
      → Allowed (last? j.entries) (has_verify j.entries) phase step detail
        × Conforms (new_entry world phase step detail j)
        × (world.write j.writes ≡ durable)
  append_ok world phase step detail j h = elim (Result-cases (guards j.entries phase step detail)) [
    | inr (_, p) ↦ absurd (cc (ap (λ r. r.0) (append_guarded world phase step detail j p)))
    | inl (_, p) ↦
        elim (Bool-cases (entry_schema is_datetime (new_entry world phase step detail j))) [
          | inr c ↦ absurd (cc (ap (λ r. r.0) (append_unfit world phase step detail j p c)))
          | inl c ↦ (
            (guards_iff j.entries phase step detail).0 p,
            c,
            store-eq-ok (world.write j.writes) (new_entry world phase step detail j) j
                (rw (append_accepted world phase step detail j p c) at h),
          )
        ]
  ]

  -- A durable append of what is allowed succeeds, and adds the entry in memory and in the file.
  pub append_done :
      (world : World) (phase : Phase) (step : String) (detail : Detail) (j : Journal)
      → Allowed (last? j.entries) (has_verify j.entries) phase step detail
      → Conforms (new_entry world phase step detail j)
      → world.write j.writes ≡ durable
      → append is_datetime world phase step detail j
        ≡ store durable (new_entry world phase step detail j) j
  append_done world phase step detail j a c d =
      append_accepted world phase step detail j ((guards_iff j.entries phase step detail).1 a) c
      ∙ ap (λ w. store w (new_entry world phase step detail j) j) d

  -- An append succeeds exactly when the order of phases allows the entry, the entry meets the schema
  -- and its line becomes durable.
  pub append_iff :
      (world : World) (phase : Phase) (step : String) (detail : Detail) (j : Journal)
      → ((append is_datetime world phase step detail j).0 ≡ ok tt) ↔ (
          Allowed (last? j.entries) (has_verify j.entries) phase step detail
          × Conforms (next_entry is_datetime world j phase step detail)
          × (world.write j.writes ≡ durable))
  unfolding store
  append_iff world phase step detail j = (
    append_ok world phase step detail j,
    λ h. ap (λ r. r.0) (append_done world phase step detail j h.0 h.1 h.2),
  )
