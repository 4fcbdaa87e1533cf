-- ===== src/Lifecycle/SyncLaws.antt =====
-- `#executeSyncRun`: the order of its calls, and when it asks for another attempt.
use skillwire.Base.{ℕ, ◌+◌, ◌<◌, true, false, ◌≡◌, List, [], ◌∷◌, ◌++◌, ◌≢◌}
use skillwire.Lifecycle.SyncRun.{
  SchedulerOptions, SyncAnswers, SyncCall, SyncFailure, Thrown, gave, threw, acquire_lease,
  mark_running, release_lease, complete_run, quarantine_run, fail_run, is_deterministic_quarantine,
  is_transient, is_valid_delay, Snapshot, sync_failure_code, counts_of,
}

module _ (o : SchedulerOptions) (attempt_count : ℕ) where
  -- What may be asked of a run that failed: to be tried again only where an attempt is left, the
  -- failure is transient and was no cancellation, and the delay that it carries is within a week.
  abbrev IsFair : SyncFailure → Type 0
  IsFair f =
      f.retryable ≡ true
      → (f.cancelled ≡ false)
        × (attempt_count + 1 < o.maximum_attempts)
        × (is_transient f.code ≡ true)
        × (is_valid_delay f.retry_after ≡ true)

  -- The call that settles a run that threw this.
  pub data IsSettlement (e : Thrown) : List SyncCall → Type 0 where
    quarantining :
        is_deterministic_quarantine (sync_failure_code e) ≡ true
        → IsSettlement e (quarantine_run (sync_failure_code e) ∷ [])
    failing :
        (f : SyncFailure)
        → f.code ≡ sync_failure_code e
        → is_deterministic_quarantine f.code ≡ false
        → IsFair f
        → IsSettlement e (fail_run f ∷ [])

  module _ (a : SyncAnswers) where
    -- The calls of an operation that its mark let begin: a completion; a settlement of what the
    -- synchronization threw; or a completion that threw, and its settlement.
    pub data IsOutcome : List SyncCall → Type 0 where
      completing :
          (s : Snapshot)
          → a.synchronized ≡ gave s
          → a.completed ≡ gave tt
          → IsOutcome (complete_run (counts_of s a.budget) ∷ [])
      settling :
          (e : Thrown) (calls : List SyncCall)
          → a.synchronized ≡ threw e
          → IsSettlement e calls
          → IsOutcome calls
      settling_after :
          (s : Snapshot) (e : Thrown) (calls : List SyncCall)
          → a.synchronized ≡ gave s
          → a.completed ≡ threw e
          → IsSettlement e calls
          → IsOutcome (complete_run (counts_of s a.budget) ∷ calls)

    pub data IsJob : List SyncCall → Type 0 where
      unmarked : a.marked ≢ gave tt → IsJob (mark_running ∷ [])
      marked :
          (calls : List SyncCall)
          → a.marked ≡ gave tt
          → IsOutcome calls
          → IsJob (mark_running ∷ calls)

    -- The calls of a run: none, a lease that was not acquired, or a job between a lease and its
    -- release.
    pub data IsRun : List SyncCall → Type 0 where
      stopped : a.is_aborted_first ≡ true → IsRun []
      unleased : a.is_aborted_first ≡ false → a.acquired ≢ gave true → IsRun (acquire_lease ∷ [])
      leased :
          (calls : List SyncCall)
          → a.is_aborted_first ≡ false
          → a.acquired ≡ gave true
          → IsJob calls
          → IsRun (acquire_lease ∷ calls ++ release_lease ∷ [])
