-- ===== src/Lifecycle/SyncRun.antt =====
-- src/lifecycle/github-sync-scheduler.ts: the scheduler's configuration, `#executeSyncRun` and
-- `#withLease`.
--
-- What the stores and the synchronization answer to the calls of one run is a record, and so is whether
-- a signal is aborted when it is asked. The heartbeat, which renews the lease, is one of its causes.
use skillwire.Base.{
  ℕ, ◌+◌, Bool, true, false, not, ◌&&◌, ◌||◌, List, [], ◌∷◌, length, all, filter_by, leb, ltb,
  codes, includes, ◌===◌, Option, none, some, String, if◌then◌else◌, Result, throw_if, error, ◌==◌,
  ◌++◌,
}

pub record SchedulerOptions : Type 0 where
  pub lease_duration_ms : ℕ
  pub source_cadence_ms : ℕ
  pub discovery_cadence_ms : ℕ
  pub maximum_sources_per_tick : ℕ
  pub operation_timeout_ms : ℕ
  pub maximum_attempts : ℕ
  pub maximum_concurrent_jobs : ℕ

-- The constructor's check.
unfoldable pub check_options : SchedulerOptions → Result (Unit {0})
check_options o =
    throw_if
      (ltb o.lease_duration_ms 1000
        || ltb o.source_cadence_ms 60000
        || ltb o.discovery_cadence_ms 60000
        || ltb o.maximum_sources_per_tick 1
        || ltb 100 o.maximum_sources_per_tick
        || ltb o.operation_timeout_ms 1000
        || ltb 900000 o.operation_timeout_ms
        || ltb o.maximum_attempts 1
        || ltb 10 o.maximum_attempts
        || ltb o.maximum_concurrent_jobs 1
        || ltb 32 o.maximum_concurrent_jobs)
      (error "INVALID_SCHEDULER_CONFIGURATION")

-- A number of milliseconds, which an error may carry: not negative and finite, or not.
pub data Delay : Type 0 where
  after : ℕ → Delay
  improper : Delay

-- What is thrown: an `Error` with its name, its message and its `retryAfterMilliseconds`, or another value.
pub data Thrown : Type 0 where
  thrown_error : String → String → Option Delay → Thrown
  thrown_value : Thrown

-- The answer to a call.
pub data Answer (A : Type 0) : Type 0 where
  gave : A → Answer A
  threw : Thrown → Answer A

is_upper : ℕ → Bool
is_upper c = leb b'A' c && leb c b'Z'

abbrev is_code_char : ℕ → Bool
is_code_char c = is_upper c || (leb b'0' c && leb c b'9') || c == b'_'

-- `/^[A-Z][A-Z0-9_]{0,79}$/u`, on code points
unfoldable pub is_code : List ℕ → Bool
unfolding is_upper
is_code [] = false
is_code (c ∷ cs) = is_upper c && leb (length cs) 79 && all is_code_char cs

unfoldable pub sync_failure_code : Thrown → String
unfolding is_code
sync_failure_code thrown_value = "INTERNAL"
sync_failure_code (thrown_error name message delay) =
    if name === "AbortError"
    then "CANCELLED"
    else if name === "TimeoutError"
    then "DEADLINE_EXCEEDED"
    else if is_code (codes message)
    then message
    else "INTERNAL"

abbrev quarantine_codes : List String
quarantine_codes =
    "MANIFEST_INVALID" ∷ "MANIFEST_OVERSIZED" ∷ "MANIFEST_DUPLICATE_SKILL" ∷ "SKILL_SCHEMA_INVALID"
    ∷ "TREE_TRUNCATED" ∷ "TREE_OVERSIZED" ∷ "TREE_AMBIGUOUS" ∷ "OBJECT_UNSUPPORTED" ∷ "PATH_UNSAFE"
    ∷ "RESOURCE_MISSING" ∷ "RESOURCE_NON_TEXT" ∷ "RESOURCE_OVERSIZED" ∷ "LICENSE_MISSING"
    ∷ "LICENSE_UNSUPPORTED" ∷ "LICENSE_CONFLICT" ∷ "ATTRIBUTION_MISSING" ∷ "DEPENDENCY_MISSING"
    ∷ "DEPENDENCY_AMBIGUOUS" ∷ "DEPENDENCY_CYCLE" ∷ "HASH_MISMATCH" ∷ "GITHUB_SCHEMA_INVALID" ∷ []

unfoldable pub is_deterministic_quarantine : String → Bool
is_deterministic_quarantine code = includes quarantine_codes code

unfoldable pub is_transient : String → Bool
is_transient code =
    includes
      ("GITHUB_TRANSIENT" ∷ "GITHUB_RATE_LIMITED" ∷ "RESPONSE_BUDGET_EXCEEDED"
        ∷ "REQUEST_BUDGET_EXCEEDED" ∷ "DEADLINE_EXCEEDED" ∷ [])
      code

abbrev pub delay_of : Thrown → Option Delay
delay_of thrown_value = none
delay_of (thrown_error name message delay) = delay

abbrev pub is_valid_delay : Option Delay → Bool
is_valid_delay none = true
is_valid_delay (some improper) = false
is_valid_delay (some (after ms)) = leb ms 604800000

pub record Budget : Type 0 where
  pub requests : ℕ
  pub retries : ℕ
  pub response_bytes : ℕ

-- The fields of `PublishedExternalSnapshot` that the run reads; of a trace its result, and of a
-- candidate's its classification.
pub record Snapshot : Type 0 where
  pub commit_sha : String
  pub tree_sha : String
  pub candidate_traces : List String
  pub traces : List String
  pub resource_count : ℕ

pub record SyncCounts : Type 0 where
  pub commit_sha : String
  pub tree_sha : String
  pub candidates : ℕ
  pub published : ℕ
  pub reused : ℕ
  pub quarantined : ℕ
  pub resources : ℕ
  pub budget : Budget

abbrev pub budget_or_zero : Option Budget → Budget
budget_or_zero none = record { requests = 0; retries = 0; response_bytes = 0 }
budget_or_zero (some b) = b

abbrev pub count_of : String → List String → ℕ
count_of label labels = length (filter_by (λ l. l === label) labels)

unfoldable pub counts_of : Snapshot → Option Budget → SyncCounts
counts_of s budget = record {
  commit_sha = s.commit_sha;
  tree_sha = s.tree_sha;
  candidates = length s.candidate_traces;
  published = count_of "published" s.traces;
  reused = count_of "reused" s.traces;
  quarantined = count_of "quarantined" s.candidate_traces;
  resources = s.resource_count;
  budget = budget_or_zero budget;
}

-- What `failSyncRun` is told.
pub record SyncFailure : Type 0 where
  pub code : String
  pub cancelled : Bool
  pub retryable : Bool
  pub retry_after : Option Delay

-- The calls that a run makes on the stores, in order.
pub data SyncCall : Type 0 where
  acquire_lease mark_running release_lease : SyncCall
  complete_run : SyncCounts → SyncCall
  quarantine_run : String → SyncCall
  fail_run : SyncFailure → SyncCall

-- The answers to the calls of one run. What `release` and `failSyncRun` answer is not looked at.
pub record SyncAnswers : Type 0 where
  pub is_aborted_first : Bool
  pub acquired : Answer Bool
  pub marked : Answer (Unit {0})
  pub synchronized : Answer Snapshot
  pub completed : Answer (Unit {0})
  pub is_aborted_in_job : Bool
  pub quarantined : Answer (Unit {0})
  pub is_aborted_last : Bool
  pub abort_reason : Thrown
  pub budget : Option Budget

module _ (o : SchedulerOptions) (attempt_count : ℕ) (a : SyncAnswers) where
  abbrev pub is_cancelled : Thrown → Bool
  is_cancelled e = a.is_aborted_in_job || sync_failure_code e === "CANCELLED"

  abbrev pub is_retryable_run : Thrown → Bool
  is_retryable_run e =
      not (is_cancelled e)
      && ltb (attempt_count + 1) o.maximum_attempts
      && is_transient (sync_failure_code e)

  abbrev pub failure_of : Thrown → SyncFailure
  failure_of e = record {
    code = sync_failure_code e;
    cancelled = is_cancelled e;
    retryable = is_retryable_run e && is_valid_delay (delay_of e);
    retry_after = delay_of e;
  }

  -- The handler of what the synchronization or the completion threw.
  unfoldable pub settle : Thrown → Answer (Unit {0}) × List SyncCall
  unfolding sync_failure_code is_deterministic_quarantine is_transient
  settle e =
      if is_deterministic_quarantine (sync_failure_code e)
      then (a.quarantined, quarantine_run (sync_failure_code e) ∷ [])
      else (
        if not (is_retryable_run e) && not (is_cancelled e) then threw e else gave tt,
        fail_run (failure_of e) ∷ [],
      )

  abbrev pub before :
      SyncCall → Answer (Unit {0}) × List SyncCall → Answer (Unit {0}) × List SyncCall
  before call (answer, calls) = (answer, call ∷ calls)

  abbrev pub after_completion : SyncCounts → Answer (Unit {0}) → Answer (Unit {0}) × List SyncCall
  after_completion counts (gave u) = (gave tt, complete_run counts ∷ [])
  after_completion counts (threw e) = before (complete_run counts) (settle e)

  abbrev pub after_synchronization : Answer Snapshot → Answer (Unit {0}) × List SyncCall
  after_synchronization (gave s) = after_completion (counts_of s a.budget) a.completed
  after_synchronization (threw e) = settle e

  -- The operation under the lease.
  abbrev pub job : Answer (Unit {0}) → Answer (Unit {0}) × List SyncCall
  job (gave u) = before mark_running (after_synchronization a.synchronized)
  job (threw e) = (threw e, mark_running ∷ [])

  -- `jobSignal.throwIfAborted()` after an operation that returned
  abbrev pub unless_aborted : Answer (Unit {0}) → Answer (Unit {0})
  unless_aborted (gave u) = if a.is_aborted_last then threw a.abort_reason else gave tt
  unless_aborted (threw e) = threw e

  abbrev pub released : Answer (Unit {0}) × List SyncCall → Answer (Unit {0}) × List SyncCall
  released (answer, calls) = (unless_aborted answer, calls ++ release_lease ∷ [])

  -- `#withLease`, of the lease that was acquired or not
  abbrev pub with_lease : Answer Bool → Answer (Unit {0}) × List SyncCall
  with_lease (gave true) = before acquire_lease (released (job a.marked))
  with_lease (gave false) = (gave tt, acquire_lease ∷ [])
  with_lease (threw e) = (threw e, acquire_lease ∷ [])

  unfoldable pub execute_sync_run : Answer (Unit {0}) × List SyncCall
  unfolding settle counts_of
  execute_sync_run =
      if a.is_aborted_first then (threw a.abort_reason, []) else with_lease a.acquired
