-- ===== src/Journal/Append.antt =====
-- src/onboarding/domain/operation-journal.ts: the journal object and `append` with its guards.
--
-- The file is the list of its lines, each the entry that its JSON text stands for, or a text that
-- `JSON.parse` rejects; `JSON.parse` is taken to give back the entry that `JSON.stringify` wrote.
-- `World` is what the operating system answers to the n-th write: the time, and how much of the line is
-- in the file when the write ends.
use skillwire.Base.{
  ℕ, ◌+◌, Bool, true, false, not, ◌&&◌, ◌||◌, Option, List, [], ◌∷◌, ◌++◌, String, if◌then◌else◌,
  any, last?, length, Result, ok, err, Failure, error, invalid, system, ◌>>◌, throw_if,
}
use skillwire.Journal.Entry.{
  Phase, intent, effect, verify, compensate, commit, cancel, same_phase, Detail, field_is, Entry,
  entry_schema, at_phase, at_step, detail_is,
}

-- The ways in which the write of a line ends. The file is opened, written and synced; or it fails: with
-- nothing of the line in the file, with a part of its JSON text, with all of that but the end of the
-- line, or with the whole line when `sync` or `close` fails.
pub data Write : Type 0 where
  durable refused torn unended unsynced : Write

-- A line of the file.
pub data Line : Type 0 where
  json : Entry → Line
  unreadable : Line

-- The last line of a text that does not end in a line's end, after more is written behind it. A part of
-- an entry's text, or all of it, is no JSON text with another entry's text or a part of that behind it.
unfoldable pub spoiled : List Line → List Line
spoiled [] = unreadable ∷ []
spoiled (l ∷ []) = unreadable ∷ []
spoiled (l ∷ m ∷ ls) = l ∷ spoiled (m ∷ ls)

-- What is written goes on a line of its own only if the text before it ends in a line's end.
abbrev pub put_line : Bool → List Line → Line → List Line
put_line true lines l = lines ++ l ∷ []
put_line false lines l = spoiled lines

pub record World : Type 0 where
  pub now : ℕ → String
  pub write : ℕ → Write

-- `is_ended`: the file is empty or ends in a line's end.
pub record Journal : Type 0 where
  pub command : String
  pub entries : List Entry
  pub lines : List Line
  pub is_ended : Bool
  pub writes : ℕ

abbrev pub Exec {ℓ} : Type ℓ → Type ℓ
Exec A = Journal → Result A × Journal

-- `last?.phase === "cancel" && (status failed or recovery-required) && phase === "compensate"`
unfoldable pub resuming_cancelled_operation : Option Entry → Phase → Bool
resuming_cancelled_operation last phase =
    at_phase last cancel
    && (detail_is last "status" "failed" || detail_is last "status" "recovery-required")
    && same_phase phase compensate

unfoldable pub is_terminal : Option Entry → Phase → Bool
unfolding resuming_cancelled_operation
is_terminal last phase =
    at_phase last commit || (at_phase last cancel && not (resuming_cancelled_operation last phase))

unfoldable pub recovered_commit : Option Entry → Phase → Detail → Bool
recovered_commit last phase detail =
    same_phase phase commit
    && field_is detail "status" "recovered"
    && at_phase last compensate
    && not (detail_is last "completion" "unproven")

abbrev pub has_verify : List Entry → Bool
has_verify entries = any (λ e. same_phase e.phase verify) entries

-- The guards of `append`, in order, of the last entry and of whether some entry is a verification.
unfoldable pub check : Option Entry → Bool → Phase → String → Detail → Result (Unit {0})
unfolding is_terminal recovered_commit
check last verified phase step detail = do
  throw_if (is_terminal last phase) (error "Operation journal is already terminal")
  throw_if (same_phase phase effect && not (at_step last intent step))
      (error "Effect must follow matching durable intent")
  throw_if (same_phase phase verify && not (at_step last effect step))
      (error "Verification must follow matching effect")
  throw_if (same_phase phase commit && not (recovered_commit last phase detail) && not verified)
      (error "Cannot report success without verification")
  throw_if
      (same_phase phase commit && field_is detail "status" "success" && not (at_phase last verify))
      (error "Success requires the final effect verification")

unfoldable pub guards : List Entry → Phase → String → Detail → Result (Unit {0})
guards entries phase step detail = check (last? entries) (has_verify entries) phase step detail

abbrev pub io_error : Failure
io_error = system "EIO"

-- The write of one line, and the push that follows it.
abbrev pub with_line : Line → Bool → Journal → Journal
with_line l ended j = record j {
  lines = put_line j.is_ended j.lines l;
  is_ended = ended;
  writes = j.writes + 1;
}

unfoldable pub store : Write → Entry → Exec (Unit {0})
store durable e j = (ok tt, record (with_line (json e) true j) { entries = j.entries ++ e ∷ [] })
store refused e j = (err io_error, record j { writes = j.writes + 1 })
store torn e j = (err io_error, with_line unreadable false j)
store unended e j = (err io_error, with_line (json e) false j)
store unsynced e j = (err io_error, with_line (json e) true j)

module _ (is_datetime : String → Bool) (world : World) where
  abbrev pub next_entry : Journal → Phase → String → Detail → Entry
  next_entry j phase step detail = record {
    sequence = length j.entries + 1;
    timestamp = world.now j.writes;
    phase = phase;
    step = step;
    detail = detail;
  }

  unfoldable pub append : Phase → String → Detail → Exec (Unit {0})
  append phase step detail j = elim (guards j.entries phase step detail) [
    | err e ↦ (err e, j)
    | ok _ ↦
        if entry_schema is_datetime (next_entry j phase step detail)
        then store (world.write j.writes) (next_entry j phase step detail) j
        else (err invalid, j)
  ]

  -- `commit` and `cancel` take the journal's command for their step.
  unfoldable pub commit_operation : Detail → Exec (Unit {0})
  commit_operation detail j = append commit j.command detail j

  unfoldable pub cancel_operation : Detail → Exec (Unit {0})
  cancel_operation detail j = append cancel j.command detail j
