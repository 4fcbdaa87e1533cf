-- ===== src/Journal/Entry.antt =====
-- src/onboarding/domain/operation-journal.ts: the entries of a journal, and their schema.
use skillwire.Base.{
  ℕ, Bool, true, false, ◌&&◌, Option, none, some, List, [], ◌∷◌, String, ltb, leb, ◌==◌,
  if◌then◌else◌, ◌===◌, all, utf16_length,
}

pub data Phase : Type 0 where
  intent effect verify compensate commit cancel : Phase

abbrev pub phase_index : Phase → ℕ
phase_index intent = 0
phase_index effect = 1
phase_index verify = 2
phase_index compensate = 3
phase_index commit = 4
phase_index cancel = 5

-- `p === q` on phases
abbrev pub same_phase : Phase → Phase → Bool
same_phase p q = phase_index p == phase_index q

-- A value of an entry's `detail`. Numbers are the counts that the callers record.
pub data Scalar : Type 0 where
  text : String → Scalar
  number : ℕ → Scalar
  flag : Bool → Scalar
  null : Scalar

abbrev pub Detail : Type 0
Detail = List (String × Scalar)

-- `detail[key]`
unfoldable pub field : Detail → String → Option Scalar
field [] key = none
field ((k, v) ∷ rest) key = if k === key then some v else field rest key

abbrev pub is_scalar_text : Option Scalar → String → Bool
is_scalar_text (some (text s)) t = s === t
is_scalar_text _ t = false

-- `detail[key] === value`
unfoldable pub field_is : Detail → String → String → Bool
unfolding field
field_is detail key value = is_scalar_text (field detail key) value

pub record Entry : Type 0 where
  pub sequence : ℕ
  pub timestamp : String
  pub phase : Phase
  pub step : String
  pub detail : Detail

unfoldable pub scalar_schema : Scalar → Bool
scalar_schema (text s) = leb (utf16_length s) 256
scalar_schema _ = true

abbrev pub field_schema : String × Scalar → Bool
field_schema (key, value) = scalar_schema value

-- `JournalEntrySchema`; `is_datetime` is `z.iso.datetime({ offset: true })`.
unfoldable pub entry_schema : (String → Bool) → Entry → Bool
unfolding scalar_schema
entry_schema is_datetime e =
    ltb 0 e.sequence
    && is_datetime e.timestamp
    && (leb 1 (utf16_length e.step) && leb (utf16_length e.step) 128)
    && all field_schema e.detail

-- `last?.phase === phase`
abbrev pub at_phase : Option Entry → Phase → Bool
at_phase none phase = false
at_phase (some e) phase = same_phase e.phase phase

-- `last?.phase === phase && last.step === step`
abbrev pub at_step : Option Entry → Phase → String → Bool
at_step none phase step = false
at_step (some e) phase step = same_phase e.phase phase && e.step === step

-- `last?.detail[key] === value`
abbrev pub detail_is : Option Entry → String → String → Bool
detail_is none key value = false
detail_is (some e) key value = field_is e.detail key value
