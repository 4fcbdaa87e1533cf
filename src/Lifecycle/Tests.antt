-- ===== src/Lifecycle/Tests.antt =====
-- A run whose synchronization is rate limited, a scheduler's start, and the theorems at those inputs.
use skillwire.Base.{true, false, List, [], ◌∷◌, none, some, ◌≡◌, refl}
use skillwire.Lifecycle.SyncRun.{
  SchedulerOptions, SyncAnswers, gave, threw, thrown_error, after as after_ms, execute_sync_run,
  acquire_lease, mark_running, release_lease, fail_run,
}
use skillwire.Lifecycle.Cleanup.{
  Event, IsEarned, start_called, stop_called, probed, finished, after, ready-IsEarned,
}

abbrev options : SchedulerOptions
options = record {
  lease_duration_ms = 60000;
  source_cadence_ms = 60000;
  discovery_cadence_ms = 60000;
  maximum_sources_per_tick = 10;
  operation_timeout_ms = 60000;
  maximum_attempts = 3;
  maximum_concurrent_jobs = 4;
}

abbrev limited : SyncAnswers
limited = record {
  is_aborted_first = false;
  acquired = gave true;
  marked = gave tt;
  synchronized = threw (thrown_error "Error" "GITHUB_RATE_LIMITED" (some (after_ms 5000)));
  completed = gave tt;
  is_aborted_in_job = false;
  quarantined = gave tt;
  is_aborted_last = false;
  abort_reason = thrown_error "AbortError" "lease lost" none;
  budget = none;
}

limited-eq : execute_sync_run options 0 limited ≡ (
  gave tt,
  acquire_lease
      ∷ mark_running
      ∷ fail_run (record {
        code = "GITHUB_RATE_LIMITED";
        cancelled = false;
        retryable = true;
        retry_after = some (after_ms 5000);
      })
      ∷ release_lease
      ∷ [],
)
unfolding execute_sync_run
limited-eq = refl

-- Latest first: a start whose cleanup returned, a probe that failed, and a cleanup that returned.
abbrev events : List Event
events = finished true ∷ probed false ∷ finished true ∷ start_called ∷ []

events-ready : (after events).ready ≡ true
unfolding after
events-ready = refl

ready-IsEarned_example : ((after events).started ≡ true) × IsEarned events
ready-IsEarned_example = ready-IsEarned events events-ready

-- A stop while the first cleanup runs: when that returns, a timer is set that no stop clears.
stopped-timers : (after (finished true ∷ stop_called ∷ start_called ∷ [])).timers ≡ 1
unfolding after
stopped-timers = refl
