-- ===== src/Journal/Opening.antt =====
-- src/onboarding/domain/operation-journal.ts: `create` and `open`.
--
-- `is_uuid` is `z.uuid()`, `getuid` is `process.getuid`. A file is what `stat` and the read return;
-- its lines are the entries that `JSON.parse` reads, or texts that it rejects.
use Prim.Native.Nat.{bit_and}
use skillwire.Base.{
  ℕ, suc, ◌*◌, Bool, not, ◌||◌, Option, none, some, List, [], ◌∷◌, String, ◌==◌, ltb, length,
  Result, ok, err, error, invalid, system, ◌>>=◌, ◌>>◌, throw_if, true, Failure,
}
use skillwire.Journal.Entry.{Entry, entry_schema}
use skillwire.Journal.Append.{Journal, Line, json, unreadable}

pub record File : Type 0 where
  pub is_file : Bool
  pub nlink : ℕ
  pub uid : ℕ
  pub mode : ℕ
  pub size : ℕ
  pub lines : List Line
  pub is_ended : Bool

abbrev pub blank : String → Journal
blank command = record { command = command; entries = []; lines = []; is_ended = true; writes = 0 }

unfoldable pub create : (String → Bool) → Option File → String → String → Result Journal
create is_uuid at_path operation_id command = do
  throw_if (not (is_uuid operation_id)) invalid
  elim at_path [ none ↦ ok (blank command) | some _ ↦ err (system "EEXIST") ]

abbrev pub max_size : ℕ
max_size = 4 * 1024 * 1024

abbrev pub max_lines : ℕ
max_lines = 4096

unfoldable pub is_unsafe : ℕ → File → Bool
is_unsafe getuid f =
    not f.is_file
    || not (f.nlink == 1)
    || not (f.uid == getuid)
    || not (bit_and f.mode 0o777 == 0o600)
    || ltb max_size f.size

-- What `JSON.parse` throws; its message is not looked at.
abbrev syntax_error : Failure
syntax_error = error "SyntaxError"

module _ (is_datetime : String → Bool) where
  -- The loop over the lines; `n` is `index + 1`.
  unfoldable pub load : ℕ → List Line → Result (List Entry)
  load n [] = ok []
  load n (unreadable ∷ es) = err syntax_error
  load n (json e ∷ es) =
      let rest = load (suc n) es in
      do
        throw_if (not (entry_schema is_datetime e)) invalid
        throw_if (not (e.sequence == n)) (error "Operation journal sequence is invalid")
        loaded ← rest
        ok (e ∷ loaded)

  unfoldable pub open_journal : (String → Bool) → ℕ → Option File → String → String → Result Journal
  unfolding is_unsafe
  open_journal is_uuid getuid none operation_id command = do
    throw_if (not (is_uuid operation_id)) invalid
    err (system "ENOENT")
  open_journal is_uuid getuid (some f) operation_id command = do
    throw_if (not (is_uuid operation_id)) invalid
    throw_if (is_unsafe getuid f) (error "Operation journal is unsafe")
    throw_if (ltb max_lines (length f.lines)) (error "Operation journal is too large")
    entries ← load 1 f.lines
    ok (record {
      command = command;
      entries = entries;
      lines = f.lines;
      is_ended = f.is_ended;
      writes = 0;
    })
