-- ===== src/Lifecycle/Cleanup.antt =====
-- src/lifecycle/audit-cleanup-scheduler.ts and readiness-state.ts: `AuditCleanupScheduler` as a state
-- that events change.
--
-- An event is what runs between two waits: a call, the end of a cleanup with what waited for it, the
-- answer of a probe, or a timer's tick. Timers that were set and not cleared are counted, since the
-- scheduler keeps the handle of the last only.
use skillwire.Base.{
  ℕ, ◌+◌, ◌-◌, Bool, true, false, List, [], ◌∷◌, ◌++◌, All, if◌then◌else◌, ltb, ◌≡◌, ap, inl, ◌⊎◌,
  inr, arith, Bool-cases, refl,
}

pub record Scheduler : Type 0 where
  pub started : Bool
  pub ready : Bool
  pub has_handle : Bool
  pub timers : ℕ
  pub running : Bool
  pub waiting : ℕ

-- `start_called`, `stop_called`: the calls. `ticked`: a timer. `probed`: the database answered a check of
-- the readiness, or failed to; the check began while the scheduler was started, since otherwise it
-- returns at once and changes nothing. `finished`: the cleanup that runs returned, or threw.
pub data Event : Type 0 where
  start_called stop_called ticked : Event
  probed finished : Bool → Event

abbrev pub initial : Scheduler
initial = record {
  started = false;
  ready = false;
  has_handle = false;
  timers = 0;
  running = false;
  waiting = 0;
}

-- `runCleanup`, up to its wait: a cleanup that runs is joined.
abbrev pub cleaning : Scheduler → Scheduler
cleaning s = record s { running = true }

unfoldable pub called_start : Scheduler → Scheduler
called_start s =
    if s.started
    then s
    else cleaning (record s { started = true; ready = false; waiting = s.waiting + 1 })

unfoldable pub called_stop : Scheduler → Scheduler
called_stop s = record s {
  timers = if s.has_handle then s.timers - 1 else s.timers;
  has_handle = false;
  started = false;
  ready = false;
}

-- Each start that waited sets a timer.
abbrev pub with_timers : Scheduler → Scheduler
with_timers s = record s {
  timers = s.timers + s.waiting;
  has_handle = if ltb 0 s.waiting then true else s.has_handle;
  waiting = 0;
  running = false;
}

-- The end of `runCleanup`, and of the starts that waited for it.
unfoldable pub finish : Bool → Scheduler → Scheduler
finish true s = with_timers (record s { ready = if s.started then true else s.ready })
finish false s = record s {
  ready = false;
  started = if ltb 0 s.waiting then false else s.started;
  waiting = 0;
  running = false;
}

-- `checkReadiness`, after its probe; whether the scheduler was stopped meanwhile is not looked at.
unfoldable pub probe : Bool → Scheduler → Scheduler
probe true s = if s.ready then s else cleaning s
probe false s = record s { ready = false }

unfoldable pub step : Event → Scheduler → Scheduler
unfolding called_start called_stop finish probe
step start_called s = called_start s
step stop_called s = called_stop s
step ticked s = if ltb 0 s.timers then cleaning s else s
step (probed answered) s = probe answered s
step (finished returned) s = finish returned s

-- The state after events, the latest first.
unfoldable pub after : List Event → Scheduler
unfolding step
after [] = initial
after (e ∷ es) = step e (after es)

-- An event that takes no readiness away.
pub data IsHarmless : Event → Type 0 where
  starting : IsHarmless start_called
  ticking : IsHarmless ticked
  probing : IsHarmless (probed true)
  finishing : IsHarmless (finished true)

-- A cleanup returned while the scheduler was started, and what came since took no readiness away.
pub record IsEarned (events : List Event) : Type 0 where
  pub since : List Event
  pub earlier : List Event
  pub split : events ≡ since ++ finished true ∷ earlier
  pub harmless : All IsHarmless since
  pub was_started : (after earlier).started ≡ true

IsEarned-later : (e : Event) (es : List Event) → IsHarmless e → IsEarned es → IsEarned (e ∷ es)
IsEarned-later e es h i = record {
  since = e ∷ i.since;
  earlier = i.earlier;
  split = ap (λ xs. e ∷ xs) i.split;
  harmless = (h, i.harmless);
  was_started = i.was_started;
}

-- What an event does to a scheduler that is ready after it: it was ready and stays started, or the
-- event is the return of a cleanup and it was started.
abbrev IsKept : Event → Scheduler → Type 0
IsKept e s =
    ((s.ready ≡ true) × IsHarmless e × (s.started ≡ true → (step e s).started ≡ true))
    ⊎ ((e ≡ finished true) × (s.started ≡ true) × ((step e s).started ≡ true))

step-IsKept :
    (e : Event) (s : Scheduler)
    → (s.ready ≡ true → s.started ≡ true)
    → (step e s).ready ≡ true
    → IsKept e s
unfolding step called_start called_stop finish probe
step-IsKept start_called s i h = inl (ground (arith, h), starting, λ k. ground (arith, k))
step-IsKept stop_called s i h = absurd (cc h)
step-IsKept ticked s i h = inl (ground (arith, h), ticking, λ k. ground (arith, k))
step-IsKept (probed true) s i h = inl (ground (arith, h), probing, λ k. ground (arith, k))
step-IsKept (probed false) s i h = absurd (cc h)
step-IsKept (finished true) s i h = elim (Bool-cases s.started) [
  | inl q ↦ inr (refl, q, q)
  | inr q ↦ inl (ground (arith, h, q), finishing, λ k. k)
]
step-IsKept (finished false) s i h = absurd (cc h)

ready-next :
    (e : Event) (es : List Event)
    → ((after es).ready ≡ true → ((after es).started ≡ true) × IsEarned es)
    → IsKept e (after es)
    → ((step e (after es)).started ≡ true) × IsEarned (e ∷ es)
ready-next e es i (inl k) =
    let (started, earned) = i k.0 in (k.2 started, IsEarned-later e es k.1 earned)
ready-next e es i (inr k) = (
  k.2,
  record {
    since = [];
    earlier = es;
    split = ap (λ x. x ∷ es) k.0;
    harmless = tt;
    was_started = k.1;
  },
)

-- Whatever happens in whatever order, a scheduler that is ready is started, and a cleanup returned
-- while it was started, since when it was not stopped, no cleanup threw and no probe failed.
pub ready-IsEarned :
    (events : List Event)
    → (after events).ready ≡ true
    → ((after events).started ≡ true) × IsEarned events
unfolding after
ready-IsEarned [] h = absurd (cc h)
ready-IsEarned (e ∷ es) h =
    ready-next e es (ready-IsEarned es) (step-IsKept e (after es) (λ k. (ready-IsEarned es k).0) h)
