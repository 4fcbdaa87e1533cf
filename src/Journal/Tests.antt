-- ===== src/Journal/Tests.antt =====
-- Runs of the journal on concrete inputs, and its theorems at such inputs.
use skillwire.Journal.RecoverySettles.{Answers, IsRecovered, recover_operation-IsRecovered}
use skillwire.Journal.RecoveryStuck.{IsStuck, recover_cancelled-IsStuck}
use skillwire.Journal.Outstanding.{IsOutstanding}
use skillwire.Journal.RecoveryEnds.{IsEnded, recover_operation_ends}
use skillwire.Journal.Recovery.{
  Recovery, matching, recover_operation, journal_needs_recovery, unresolved_effect_boundaries,
}
use skillwire.Journal.Effect.{Effect, run_effect, unproven_completion, unproven_detail}
use skillwire.Journal.EffectLaws.{
  push, after_effect, after_intent, run_effect_returns, run_effect_failure,
}
use skillwire.Journal.Unproven.{
  has_unproven_effect, unproven_marks, proven_marks, has_unproven_effect_iff,
}
use skillwire.Base.Dict.{put}
use skillwire.Journal.Entry.{field_is}
use skillwire.Base.{
  some, String, if◌then◌else◌, [], ◌==◌, Bool, true, ◌≡◌, ◌===◌, ok, err, error, arith, ◌↔◌, refl,
  none, false, utf16_length, ◌∷◌, inl,
}
use skillwire.Journal.Entry.{intent, effect, entry_schema, Detail, text, cancel, verify, compensate}
use skillwire.Journal.Append.{
  World, durable, unsynced, Journal, guards, check, store, append, next_entry,
}
use skillwire.Journal.Protocol.{Allowed}
use skillwire.Journal.Invariant.{Conforms, IsSound, append-IsSound, append_iff}
use skillwire.Journal.Opening.{File, blank, is_unsafe, open_journal}
use skillwire.Journal.BadLines.{half_appended}
use skillwire.Journal.Reopening.{created, appended, open-Written}

abbrev stamp : String
stamp = "2026-01-01T00:00:00.000Z"

abbrev is_stamp : String → Bool
is_stamp s = s === stamp

-- Every write is durable; or the first is in the file and fails.
abbrev steady : World
steady = record { now = λ n. stamp; write = λ n. durable }

abbrev shaky : World
shaky = record { now = λ n. stamp; write = λ n. if n == 0 then unsynced else durable }

abbrev started : Journal
started = (append is_stamp steady intent "service" [] (blank "setup")).1

abbrev is_id : String → Bool
is_id s = s === "11111111-1111-4111-8111-111111111111"

abbrev id : String
id = "11111111-1111-4111-8111-111111111111"

abbrev private_file : Journal → File
private_file j = record {
  is_file = true;
  nlink = 1;
  uid = 1000;
  mode = 0o100600;
  size = 200;
  lines = j.lines;
  is_ended = j.is_ended;
}

append-IsSound_example : IsSound is_stamp started
append-IsSound_example =
    append-IsSound is_stamp steady intent "service" [] (blank "setup")
      (record { chain = tt; numbered = tt; conforming = tt })

append_iff_example : ((append is_stamp steady effect "service" [] (blank "setup")).0 ≡ ok tt) ↔ (
    Allowed none false effect "service" []
    × Conforms is_stamp (next_entry is_stamp steady (blank "setup") effect "service" [])
    × (steady.write 0 ≡ durable))
append_iff_example = append_iff is_stamp steady effect "service" [] (blank "setup")

open-Written_example :
    (k : Journal) × (open_journal is_stamp is_id 1000 (some (private_file started)) id "setup"
      ≡ ok k)
    × (k.command ≡ "setup")
    × (k.entries ≡ started.entries)
unfolding append guards check store entry_schema is_unsafe utf16_length
open-Written_example =
    open-Written is_stamp steady is_id 1000 id "setup" started (private_file started)
      (λ n. inl refl) (appended {j = blank "setup"} intent "service" [] created) refl refl refl
      (omega arith)

-- The journal whose first line is in the file, twice.
abbrev half : Journal
half = half_appended is_stamp shaky (blank "setup") intent "service" []

abbrev doubled : Journal
doubled = (append is_stamp shaky intent "service" [] half).1

-- An effect that succeeds, and one whose action throws.
abbrev service : Effect String
service = record {
  step = "service";
  intent_detail = [];
  aborted = false;
  action = ok "started";
  not_started = λ e. false;
  verification = λ v. ok (("state", text v) ∷ []);
}

abbrev broken_service : Effect String
broken_service = record service { action = err (error "refused") }

run_effect_failure_example : run_effect is_stamp steady broken_service (blank "setup") ≡ (
  err (unproven_completion "service" (error "refused")),
  push is_stamp steady
      (after_intent is_stamp steady broken_service (blank "setup"))
      compensate
      "service"
      unproven_detail,
)
unfolding append guards check store entry_schema utf16_length
run_effect_failure_example =
    run_effect_failure is_stamp steady broken_service (blank "setup") (error "refused") refl refl tt
      (refl, refl) (refl, refl) (refl, refl)

run_effect_returns_example :
    (proof : Detail) × (service.action ≡ ok "started")
    × (service.verification "started" ≡ ok proof)
    × (run_effect is_stamp steady service (blank "setup") ≡ (
      ok "started",
      push is_stamp steady
          (after_effect is_stamp steady service (blank "setup"))
          verify
          "service"
          proof,
    ))
unfolding run_effect append guards check store entry_schema utf16_length
run_effect_returns_example =
    run_effect_returns is_stamp steady service (blank "setup") "started" refl

-- The journal of an effect whose completion is unproven.
abbrev unproven_journal : Journal
unproven_journal = (run_effect is_stamp steady broken_service (blank "setup")).1

has_unproven_effect_iff_example :
    (has_unproven_effect unproven_journal.entries ≡ true)
    ↔ ((step : String) × IsOutstanding unproven_marks proven_marks step unproven_journal.entries)
has_unproven_effect_iff_example = has_unproven_effect_iff unproven_journal.entries

abbrev finished : Journal
finished = (run_effect is_stamp steady service (blank "setup")).1

-- A recovery that finds everything in place.
abbrev in_place : Recovery
in_place = record {
  observe = λ step. ok matching;
  repair = λ step. ok tt;
  aborted = false;
  aborted_after = λ step. false;
}

recover_operation_ends_example :
    IsEnded started (recover_operation is_stamp steady in_place started)
recover_operation_ends_example = recover_operation_ends is_stamp steady in_place started

abbrev cancelled_detail : Detail
cancelled_detail = ("status", text "cancelled") ∷ []

-- A journal that is cancelled after a verified effect.
abbrev cancelled_journal : Journal
cancelled_journal = push is_stamp steady finished cancel "setup" cancelled_detail

recover_cancelled-IsStuck_example :
    (journal_needs_recovery cancelled_journal.entries ≡ true)
    × IsStuck cancelled_journal (recover_operation is_stamp steady in_place cancelled_journal)
unfolding run_effect append guards check store entry_schema utf16_length field_is
    unresolved_effect_boundaries put
recover_cancelled-IsStuck_example =
    recover_cancelled-IsStuck is_stamp steady in_place cancelled_journal
      (next_entry is_stamp steady finished cancel "setup" cancelled_detail) refl
      (record { cancelled = refl; not_failed = refl; not_required = refl }) refl

answers : Answers is_stamp steady in_place
answers = record {
  writes = λ n. refl;
  stamps = λ n. refl;
  found = λ step. matching;
  observes = λ step. refl;
  certain = λ step p. cc p;
  repairs = λ step. refl;
  active = refl;
  remains = λ step. refl;
}

recover_operation-IsRecovered_example :
    IsRecovered is_stamp steady in_place answers
      (recover_operation is_stamp steady in_place unproven_journal)
unfolding run_effect append guards check store entry_schema utf16_length field_is
    unresolved_effect_boundaries put
recover_operation-IsRecovered_example =
    recover_operation-IsRecovered is_stamp steady in_place answers unproven_journal
      (next_entry is_stamp steady (after_intent is_stamp steady broken_service (blank "setup"))
        compensate "service" unproven_detail)
      refl refl (inl ((λ p. cc p), (λ p. cc p))) refl (refl, tt) refl
