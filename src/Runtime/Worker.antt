-- ===== src/Runtime/Worker.antt =====
-- src/runtime/worker.rs: the loop of a worker, and its shutdown.
-- The loop and the spawned tasks run at once, so a worker is a state that events move on: the arms of
-- its `select!`, the claim that follows them, the events of its tasks, and those of its shutdown. An
-- event brings what the pool and the server give at that moment. Waiting on an interval and writing a
-- log have no effect here.
pub mod Permits
pub mod Claims
pub mod Steps
pub mod Drops
pub mod Shutdown
pub mod Histories
use pg_task_scheduler.Prelude.{
  ℕ, zero, suc, ◌+◌, ltb, Text, codes, Bool, true, false, not, ◌&&◌, List, [], ◌∷◌, ◌++◌, Option,
  none, some, Result, ok, err, select, count, any, if◌then◌else◌,
}
use pg_task_scheduler.Error.{SchedulerError, pool, invariant}
use pg_task_scheduler.Models.Runs.{ClaimedRun}
use pg_task_scheduler.Db.{Db, Env}
use pg_task_scheduler.Cron.{Croner}
use pg_task_scheduler.Metrics.{
  Counts, incr, incr_by, runs_materialized, runs_claimed, runs_reaped, runs_requeued,
}
use pg_task_scheduler.Store.Materialize.{materialize_due_jobs}
use pg_task_scheduler.Store.Reap.{RecoverySummary, recover_expired}
use pg_task_scheduler.Store.Claim.{claim_batch}
use pg_task_scheduler.Runtime.Registry.{Registry, Handler, names, handler_of}
use pg_task_scheduler.Runtime.Health.{WorkerHealth, stopped, update_health, health_default}
use pg_task_scheduler.Runtime.Builder.{Config}
use pg_task_scheduler.Runtime.Dispatch.{
  World, Acquired, InFlight, Phase, lost, reported, DispatchEvent, dispatch, dispatch_event,
}

-- Where `run_until_shutdown` is: in its `select!`, before the claim, in the drain, in the joins after
-- `abort_all`, or at its end.
pub data Stage : Type 0 where
  waiting claiming draining aborting ended : Stage

pub record State : Type 0 where
  pub world : World
  pub permits : ℕ
  pub in_flight : List InFlight
  pub failures : ℕ
  pub health : WorkerHealth
  pub stage : Stage

pub data Trigger : Type 0 where
  polled : Acquired → (ℕ → Env) → Trigger
  recovering : Acquired → Env → Trigger
  joined : Trigger

-- `aborted n` is the moment at which the n-th task, after `abort_all`, comes to an `.await` and is
-- dropped there. A handler that blocks has no such moment until it goes on, and may still return.
pub data Event : Type 0 where
  triggered : Trigger → Event
  claims : Acquired → Env → Event
  task : ℕ → DispatchEvent → Event
  aborted : ℕ → Event
  cancelled drained timed_out : Event

-- The dispatch of the task is over: its permit is back, and its token is cancelled.
abbrev pub has_ended : Phase → Bool
has_ended lost = true
has_ended reported = true
has_ended _ = false

unfoldable pub is_active : InFlight → Bool
is_active t = not (has_ended t.phase)

abbrev pub on_world : State → World → State
on_world s w = record s { world = w }

abbrev pub on_db : State → Db → State
on_db s db = record s { world = record s.world { db = db } }

abbrev pub on_counts : State → Counts → State
on_counts s counts = record s { world = record s.world { counts = counts } }

module _ (croner : Croner) where
  abbrev pub materialized : State → Db × Result SchedulerError ℕ → State × Option SchedulerError
  materialized s (db, err error) = (on_db s db, some error)
  materialized s (db, ok n) = (
    on_counts (on_db s db)
        (if ltb 0 n then incr_by runs_materialized n s.world.counts else s.world.counts),
    none,
  )

  unfoldable pub materialize : Acquired → (ℕ → Env) → State → State × Option SchedulerError
  materialize (err error) envs s = (s, some (pool error))
  materialize (ok conn) envs s = materialized s (materialize_due_jobs croner envs s.world.db)

abbrev pub count_recovered : RecoverySummary → Counts → Counts
count_recovered summary counts =
    let requeued =
      if ltb 0 summary.requeued then incr_by runs_requeued summary.requeued counts else counts in
    if ltb 0 summary.failed then incr_by runs_reaped summary.failed requeued else requeued

abbrev pub recovered_leases :
    State → Db × Result SchedulerError RecoverySummary → State × Option SchedulerError
recovered_leases s (db, err error) = (on_db s db, some error)
recovered_leases s (db, ok summary) =
    (on_counts (on_db s db) (count_recovered summary s.world.counts), none)

unfoldable pub recover_leases : Acquired → Env → State → State × Option SchedulerError
recover_leases (err error) e s = (s, some (pool error))
recover_leases (ok conn) e s = recovered_leases s (recover_expired e 1000 s.world.db)

-- `log_handler_join` of the tasks that are over: they leave the `JoinSet`.
unfoldable pub join_ended : State → State
join_ended s = record s { in_flight = select is_active s.in_flight }

abbrev pub unless_failed :
    State × Option SchedulerError
    → (State → State × Option SchedulerError)
    → State × Option SchedulerError
unless_failed (s, some error) k = (s, some error)
unless_failed (s, none) k = k s

module _ (cancellation : ClaimedRun → ℕ) (registry : Registry) where
  abbrev pub spawn_with : ClaimedRun → ℕ → Option Handler → State → State × Option SchedulerError
  spawn_with claimed permits none s =
      (s, some (invariant (codes "claimed task has no registered handler")))
  spawn_with claimed permits (some handler) s = (
    record s {
      world = record s.world { counts = incr runs_claimed s.world.counts };
      permits = permits;
      in_flight = s.in_flight ++ dispatch handler claimed (cancellation claimed) ∷ [];
    },
    none,
  )

  -- The body of the loop over the claimed tasks, under this many available permits.
  abbrev pub spawn : ClaimedRun → ℕ → State → State × Option SchedulerError
  spawn claimed zero s = (s, some (invariant (codes "claimed more tasks than worker capacity")))
  spawn claimed (suc permits) s =
      spawn_with claimed permits (handler_of registry claimed.job_name) s

  unfoldable pub spawn_each : List ClaimedRun → State → State × Option SchedulerError
  spawn_each [] s = (s, none)
  spawn_each (claimed ∷ rest) s =
      unless_failed (spawn claimed s.permits s) (λ after. spawn_each rest after)

  abbrev pub dispatch_claimed :
      State → Db × Result SchedulerError (List ClaimedRun) → State × Option SchedulerError
  dispatch_claimed s (db, err error) = (on_db s db, some error)
  dispatch_claimed s (db, ok claimed) = spawn_each claimed (on_db s db)

  unfoldable pub claim_at_most : Config → Acquired → Env → ℕ → State → State × Option SchedulerError
  claim_at_most config acquired e zero s = (s, none)
  claim_at_most config (err error) e (suc limit) s = (s, some (pool error))
  claim_at_most config (ok conn) e (suc limit) s =
      dispatch_claimed s (claim_batch e config.worker_id (names registry) (suc limit) s.world.db)

  unfoldable pub claim_and_dispatch :
      Config → Acquired → Env → State → State × Option SchedulerError
  unfolding claim_at_most
  claim_and_dispatch config acquired e s = claim_at_most config acquired e s.permits s

-- The permits that come back when a task moves on.
abbrev pub permits_back : InFlight → InFlight → ℕ
permits_back before after = if is_active before && not (is_active after) then 1 else 0

-- An event of the n-th spawned task.
unfoldable pub task_event : ℕ → DispatchEvent → List InFlight → World → World × List InFlight × ℕ
task_event n event [] w = (w, [], 0)
task_event zero event (t ∷ ts) w =
    let (after, moved) = dispatch_event event t w in (after, moved ∷ ts, permits_back t moved)
task_event (suc n) event (t ∷ ts) w =
    let (after, moved, permits) = task_event n event ts w in (after, t ∷ moved, permits)

abbrev pub is_stopped : Stage → Bool
is_stopped ended = true
is_stopped _ = false

-- `abort_all`: from now on a task is dropped when it comes to an `.await`.
unfoldable pub abort_all : State → State
abort_all s = record s { stage = aborting }

abbrev pub dropped_phase : Phase → Phase
dropped_phase reported = reported
dropped_phase _ = lost

abbrev pub dropped : InFlight → InFlight
dropped t = record t { phase = dropped_phase t.phase }

-- The n-th spawned task is dropped.
unfoldable pub drop_task : ℕ → List InFlight → List InFlight × ℕ
drop_task n [] = ([], 0)
drop_task zero (t ∷ ts) = (dropped t ∷ ts, permits_back t (dropped t))
drop_task (suc n) (t ∷ ts) = let (moved, permits) = drop_task n ts in (t ∷ moved, permits)

-- The joins are through: the last word on the health.
unfoldable pub stop : State → State
stop s = record (join_ended s) {
  health = record { status = stopped; consecutive_failures = s.failures; last_error = none };
  stage = ended;
}

abbrev pub with_health : State → WorkerHealth × ℕ → State
with_health s (health, failures) = record s {
  health = health;
  failures = failures;
  stage = waiting;
}

-- The arm of the `select!`.
unfoldable pub trigger : Croner → Trigger → State → State × Option SchedulerError
unfolding materialize
trigger croner (polled acquired envs) s = materialize croner acquired envs s
trigger croner (recovering acquired e) s = recover_leases acquired e s
trigger croner joined s = (s, none)

module _ (to_string : SchedulerError → Text) where
  -- The end of a cycle.
  abbrev pub end_cycle : State × Option SchedulerError → State
  end_cycle (s, error) = with_health s (update_health to_string s.failures error)

  -- After the arm: the ended tasks are joined, and a cycle without an error goes on to the claim.
  abbrev pub after_trigger : State × Option SchedulerError → State
  after_trigger (s, some error) = end_cycle (join_ended s, some error)
  after_trigger (s, none) = record (join_ended s) { stage = claiming }

abbrev pub ready : Trigger → State → Bool
ready joined s = any (λ t. not (is_active t)) s.in_flight
ready _ s = true

abbrev pub after_task : State → World × List InFlight × ℕ → State
after_task s (world, in_flight, permits) = record s {
  world = world;
  in_flight = in_flight;
  permits = s.permits + permits;
}

abbrev pub after_drop : State → List InFlight × ℕ → State
after_drop s (in_flight, permits) = record s {
  in_flight = in_flight;
  permits = s.permits + permits;
}

module _ (croner : Croner) (to_string : SchedulerError → Text) (cancellation : ClaimedRun → ℕ)
    (registry : Registry) (config : Config) where
  -- An event that the stage does not wait for changes nothing.
  abbrev pub on_stage : Stage → Event → State → State
  on_stage waiting (triggered t) s =
      if ready t s then after_trigger to_string (trigger croner t s) else s
  on_stage claiming (claims acquired e) s =
      end_cycle to_string (claim_and_dispatch cancellation registry config acquired e s)
  on_stage waiting cancelled s = record s { stage = draining }
  on_stage draining drained s = if any is_active s.in_flight then s else abort_all s
  on_stage draining timed_out s = abort_all s
  on_stage aborting (aborted n) s = after_drop s (drop_task n s.in_flight)
  on_stage aborting drained s = if any is_active s.in_flight then s else stop s
  on_stage ended event s = s
  on_stage stage (task n event) s = after_task s (task_event n event s.in_flight s.world)
  on_stage stage event s = s

  unfoldable pub on_event : Event → State → State
  unfolding trigger
  on_event event s = on_stage s.stage event s

  -- `run_until_shutdown`, as far as these events take it.
  unfoldable pub run : List Event → State → State
  run [] s = s
  run (event ∷ events) s = run events (on_event event s)

-- The start of `run_until_shutdown`.
unfoldable pub started : Config → World → State
started config w = record {
  world = w;
  permits = config.max_concurrency;
  in_flight = [];
  failures = 0;
  health = health_default;
  stage = waiting;
}
