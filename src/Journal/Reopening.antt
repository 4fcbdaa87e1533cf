-- ===== src/Journal/Reopening.antt =====
-- A journal that was written can be opened again.
use mathlib.Core.List.{map-append}
use skillwire.Base.{
  ℕ, suc, ◌≡◌, refl, ap, Bool, List, [], ◌∷◌, ◌++◌, String, arith, length, All, ok, Result-cases,
  false, inr, true, inl, ◌≤◌, Bool-cases, some, ◌∙◌, ◌⊎◌, map, subst, sym, length-map,
}
use skillwire.Journal.Entry.{Phase, Detail, Entry, entry_schema}
use skillwire.Journal.Append.{
  World, Write, durable, refused, unsynced, Journal, store, append, guards, next_entry, put_line,
  torn, json, unended,
}
use skillwire.Journal.Invariant.{
  IsNumbered, Conforms, IsSound, IsSynced, append-IsSound, append_guarded, append_accepted,
  append_unfit,
}
use skillwire.Journal.Opening.{blank, load, File, open_journal, is_unsafe, max_lines}

module _ (is_datetime : String → Bool) where
  load-numbered :
      (n : ℕ) (es : List Entry)
      → IsNumbered n es
      → All (Conforms is_datetime) es
      → load is_datetime n (map json es) ≡ ok es
  unfolding load
  load-numbered n [] h c = refl
  load-numbered n (e ∷ es) h c = ground (arith, load-numbered (suc n) es h.1 c.1)

  module _ (world : World) where
    -- The journals that any appends, failed ones included, lead to from this one.
    pub data Written (start : Journal) : Journal → Type 0 where
      created : Written start start
      appended :
          {j : Journal} (phase : Phase) (step : String) (detail : Detail)
          → Written start j
          → Written start (append is_datetime world phase step detail j).1

    -- A write that puts its whole line in the file and returns, or none of it and fails.
    abbrev pub IsWhole : Write → Type 0
    IsWhole w = (w ≡ durable) ⊎ (w ≡ refused)

    Written-IsSound :
        {command : String} {j : Journal} → Written (blank command) j → IsSound is_datetime j
    Written-IsSound created = record { chain = tt; numbered = tt; conforming = tt }
    Written-IsSound (appended {j = j} phase step detail w) =
        append-IsSound is_datetime world phase step detail j (Written-IsSound w)

    -- What holds of every way in which an append ends holds of the append.
    pub append_cases :
        (P : Journal → Type 0) (phase : Phase) (step : String) (detail : Detail) (j : Journal)
        → P j
        → P (store (world.write j.writes) (next_entry is_datetime world j phase step detail) j).1
        → P (append is_datetime world phase step detail j).1
    append_cases P phase step detail j p q =
        elim (Result-cases (guards j.entries phase step detail)) [
          | inr (_, g) ↦ rw (append_guarded is_datetime world phase step detail j g) p
          | inl (_, g) ↦
              elim (Bool-cases
                (entry_schema is_datetime (next_entry is_datetime world j phase step detail))) [
                  | inr c ↦ rw (append_unfit is_datetime world phase step detail j g c) p
                  | inl c ↦ rw (append_accepted is_datetime world phase step detail j g c) q
                ]
        ]

    store-IsSynced :
        (w : Write) (e : Entry) (j : Journal)
        → IsWhole w
        → IsSynced is_datetime j
        → IsSynced is_datetime (store w e j).1
    unfolding store
    store-IsSynced durable e j h s = (
      ap (λ b. put_line b j.lines (json e)) s.1
          ∙ ap (λ ls. ls ++ json e ∷ []) s.0
          ∙ sym (map-append json j.entries (e ∷ [])),
      refl,
    )
    store-IsSynced refused e j h s = s
    store-IsSynced torn e j (inl h) s = absurd (cc h)
    store-IsSynced torn e j (inr h) s = absurd (cc h)
    store-IsSynced unended e j (inl h) s = absurd (cc h)
    store-IsSynced unended e j (inr h) s = absurd (cc h)
    store-IsSynced unsynced e j (inl h) s = absurd (cc h)
    store-IsSynced unsynced e j (inr h) s = absurd (cc h)

    Written-IsSynced :
        {command : String} {j : Journal}
        → ((n : ℕ) → IsWhole (world.write n))
        → Written (blank command) j
        → IsSynced is_datetime j
    Written-IsSynced h created = (refl, refl)
    Written-IsSynced h (appended {j = j} phase step detail w) =
        append_cases (IsSynced is_datetime) phase step detail j (Written-IsSynced h w)
          (store-IsSynced (world.write j.writes) _ j (h j.writes) (Written-IsSynced h w))

    -- A journal that was written by any appends, of which each put its whole line in the file and
    -- returned, or failed with nothing of its line in the file, opens with the entries that it had in
    -- memory, if its file is private, within its size, and has at most 4096 lines.
    pub open-Written :
        (is_uuid : String → Bool) (getuid : ℕ) (id command : String) (j : Journal) (f : File)
        → ((n : ℕ) → IsWhole (world.write n))
        → Written (blank command) j
        → f.lines ≡ j.lines
        → is_unsafe getuid f ≡ false
        → is_uuid id ≡ true
        → length j.entries ≤ max_lines
        → (k : Journal) × (open_journal is_datetime is_uuid getuid (some f) id command ≡ ok k)
          × (k.command ≡ command)
          × (k.entries ≡ j.entries)
    unfolding open_journal
    open-Written is_uuid getuid id command j f h w same safe uuid few =
        let s = Written-IsSound w in
        let lines : f.lines ≡ map json j.entries = same ∙ (Written-IsSynced h w).0 in
        let few' : length (map json j.entries) ≤ max_lines =
          subst (λ n. n ≤ max_lines) (sym (length-map json j.entries)) few in
        (
          record {
            command = command;
            entries = j.entries;
            lines = f.lines;
            is_ended = f.is_ended;
            writes = 0;
          },
          rw lines (ground (arith, load-numbered 1 j.entries s.numbered s.conforming, few')),
          refl,
          refl,
        )
