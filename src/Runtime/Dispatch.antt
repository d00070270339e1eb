-- ===== src/Runtime/Dispatch.antt =====
-- dispatch of src/runtime/worker.rs: one claimed task, from its spawning to its report.
-- `select!` takes whichever future is ready, so a task is a state that events move on: the handler's
-- future is ready, the heartbeat's sleep is over, or the connection for the report is there. An
-- event brings what the pool, the server and the host's clock give at that moment.
pub mod Reports
pub mod Fenced
pub mod Steps
use pg_task_scheduler.Prelude.{
  ℕ, ◌+◌, ◌*◌, ◌/◌, ◌%◌, leb, ◌==◌, Text, List, [], ◌∷◌, Option, none, some, Result, ok, err,
  if◌then◌else◌,
}
use pg_task_scheduler.Error.{SchedulerError, JobError, is_retryable}
use pg_task_scheduler.Models.Limits.{Duration, from_micros, lease_as_duration}
use pg_task_scheduler.Models.Runs.{
  ClaimedRun, Outcome, FinalizeOutcome, FailureOutcome, RenewalOutcome,
}
use pg_task_scheduler.Db.{Db, Env}
use pg_task_scheduler.Metrics.{Counts, incr, runs_completed, runs_requeued, runs_failed}
use pg_task_scheduler.Store.Finalize.{finalize_run, fail_run, renew_lease}
use pg_task_scheduler.Runtime.Registry.{JobContext, Handler}

-- `Duration / u32`, rounded down to a nanosecond.
abbrev pub div_duration : Duration → ℕ → Duration
div_duration d n =
    let nanos = (d.secs * 1000000000 + d.subsec_nanos) / n in
    record { secs = nanos / 1000000000; subsec_nanos = nanos % 1000000000 }

unfoldable pub heartbeat_interval : Duration → Duration
heartbeat_interval lease =
    let third = div_duration lease 3 in
    if third.secs + third.subsec_nanos == 0 then from_micros 1 else third

-- Where `dispatch` is: in its loop, with the lease's expiry as it knows it; after it, with the
-- handler's result, or without one; or at its end.
pub data Phase : Type 0 where
  running : ℕ → Phase
  returned : Result JobError (Unit {0}) → Phase
  lost reported : Phase

-- A spawned task. Its permit is held, and its token not cancelled, until it ends.
pub record InFlight : Type 0 where
  pub claimed : ClaimedRun
  pub handler : Handler
  pub cancellation : ℕ
  pub phase : Phase

-- The tables, and what has been counted.
pub record World : Type 0 where
  pub db : Db
  pub counts : Counts

-- What `Pool::acquire` answers.
abbrev pub Acquired : Type 0
Acquired = Result Text (Unit {0})

-- `panicked` is a panic of the handler, which ends the task with no report.
pub data DispatchEvent : Type 0 where
  handled panicked : DispatchEvent
  slept : Acquired → Env → ℕ → DispatchEvent
  connected : Acquired → Env → DispatchEvent

-- The context that the handler is called with.
unfoldable pub context_of : ClaimedRun → ℕ → JobContext
context_of claimed cancellation = record {
  run_id = claimed.run_id;
  job_id = claimed.job_id;
  job_name = claimed.job_name;
  scheduled_for = claimed.scheduled_for;
  attempt = claimed.attempt;
  lease_token = claimed.lease_token;
  lease_expires_at = claimed.lease_expires_at;
  cancellation = cancellation;
}

-- The start of `dispatch`.
unfoldable pub dispatch : Handler → ClaimedRun → ℕ → InFlight
dispatch handler claimed cancellation = record {
  claimed = claimed;
  handler = handler;
  cancellation = cancellation;
  phase = running claimed.lease_expires_at;
}

-- The expiry after a renewal, or none if the lease is lost. An error is logged.
abbrev pub expiry_after : ℕ → Result SchedulerError RenewalOutcome → Option ℕ
expiry_after expires (ok (RenewalOutcome.renewed t)) = some t
expiry_after expires (ok RenewalOutcome.fenced) = none
expiry_after expires (err error) = some expires

-- The arm of the heartbeat, up to the check of the clock.
unfoldable pub heartbeat : Acquired → Env → ClaimedRun → ℕ → Db → Db × Option ℕ
heartbeat (err error) e claimed expires db = (db, some expires)
heartbeat (ok conn) e claimed expires db =
    let (after, renewal) = renew_lease e claimed.run_id claimed.lease_token db in
    (after, expiry_after expires renewal)

-- The check of the clock.
abbrev pub phase_at : ℕ → Option ℕ → Phase
phase_at utc_now none = lost
phase_at utc_now (some expires) = if leb expires utc_now then lost else running expires

abbrev pub counted_completion : Result SchedulerError FinalizeOutcome → Counts → Counts
counted_completion (ok FinalizeOutcome.applied) counts = incr runs_completed counts
counted_completion (ok FinalizeOutcome.fenced) counts = counts
counted_completion (ok FinalizeOutcome.already_terminal) counts = counts
counted_completion (err error) counts = counts

abbrev pub counted_failure : Result SchedulerError FailureOutcome → Counts → Counts
counted_failure (ok (FailureOutcome.retried t)) counts = incr runs_requeued counts
counted_failure (ok FailureOutcome.failed) counts = incr runs_failed counts
counted_failure (ok FailureOutcome.fenced) counts = counts
counted_failure (ok FailureOutcome.already_terminal) counts = counts
counted_failure (err error) counts = counts

-- The report on a connection.
unfoldable pub report : Env → ClaimedRun → Result JobError (Unit {0}) → World → World
report e claimed (ok done) w =
    let (after, outcome) =
      finalize_run e claimed.run_id claimed.lease_token Outcome.completed w.db in
    record { db = after; counts = counted_completion outcome w.counts }
report e claimed (err error) w =
    let (after, outcome) =
      fail_run e claimed.run_id claimed.lease_token error.source (is_retryable error) w.db in
    record { db = after; counts = counted_failure outcome w.counts }

unfoldable pub finalize_handler :
    Acquired → Env → ClaimedRun → Result JobError (Unit {0}) → World → World
unfolding report
finalize_handler (err error) e claimed result w = w
finalize_handler (ok conn) e claimed result w = report e claimed result w

abbrev pub after_heartbeat : InFlight → World → ℕ → Db × Option ℕ → World × InFlight
after_heartbeat task w utc_now (db, expiry) =
    (record w { db = db }, record task { phase = phase_at utc_now expiry })

-- An event of the task; one that its phase does not wait for changes nothing.
abbrev pub on_phase : Phase → DispatchEvent → InFlight → World → World × InFlight
on_phase (running expires) handled task w = (
  w,
  record task {
    phase =
        returned (task.handler (context_of task.claimed task.cancellation) task.claimed.job_args);
  },
)
on_phase (running expires) panicked task w = (w, record task { phase = lost })
on_phase (running expires) (slept acquired e utc_now) task w =
    after_heartbeat task w utc_now (heartbeat acquired e task.claimed expires w.db)
on_phase (returned result) (connected acquired e) task w =
    (finalize_handler acquired e task.claimed result w, record task { phase = reported })
on_phase _ _ task w = (w, task)

unfoldable pub dispatch_event : DispatchEvent → InFlight → World → World × InFlight
dispatch_event event task w = on_phase task.phase event task w

unfoldable pub dispatch_events : List DispatchEvent → InFlight → World → World × InFlight
dispatch_events [] task w = (w, task)
dispatch_events (event ∷ events) task w =
    let (after, moved) = dispatch_event event task w in dispatch_events events moved after
