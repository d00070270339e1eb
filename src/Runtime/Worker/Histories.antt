-- ===== src/Runtime/Worker/Histories.antt =====
-- src/runtime/worker.rs among the other users of the tables: what its events do to them, and the
-- history that they make.
use pg_task_scheduler.Prelude.{
  ℕ, ◌≡◌, Text, true, List, Option, none, some, any, Bool-cases, inl, inr,
}
use pg_task_scheduler.Error.{SchedulerError, is_retryable}
use pg_task_scheduler.Ids.Policy.{name_check}
use pg_task_scheduler.Models.Runs.{ClaimedRun, Outcome}
use pg_task_scheduler.Db.{Db, SchedulerJob, admits}
use pg_task_scheduler.Consistency.{IsConsistent}
use pg_task_scheduler.Cron.{Croner}
use pg_task_scheduler.Metrics.{Counts}
use pg_task_scheduler.History.{
  Step, Reaches, start, next, idle_db, claims as claim_step, recovers, materializes, finalizes,
  fails as fail_step, renews as renew_step,
}
use pg_task_scheduler.History.Reachable.{reachable-IsConsistent}
use pg_task_scheduler.Runtime.Registry.{Registry, names}
use pg_task_scheduler.Runtime.Builder.{Config}
use pg_task_scheduler.Runtime.Dispatch.{InFlight, DispatchEvent}
use pg_task_scheduler.Runtime.Dispatch.Steps.{TaskActs, renews, completes, fails}
use pg_task_scheduler.Runtime.Worker.{
  State, Stage, waiting, claiming, draining, aborting, ended, Event, triggered, claims, task,
  aborted, cancelled, drained, timed_out, is_active, on_db, join_ended, claim_and_dispatch,
  abort_all, stop, trigger, ready, end_cycle, after_trigger, on_stage, on_event, started,
}
use pg_task_scheduler.Runtime.Worker.Steps.{
  IsFair, Acts, ticks, reaps, takes, acts, Works, rests, goes, trigger-WorksTo,
  claim_and_dispatch-WorksTo, task_event-WorksTo,
}

module _ (croner : Croner) (to_string : SchedulerError → Text) (cancellation : ClaimedRun → ℕ)
    (registry : Registry) (config : Config) where
  abbrev Doing : State → Event → Db → Type 0
  Doing s event db = Works croner registry config s event s.world.db db

  after_trigger-Doing :
      (s : State) (event : Event) (out : State × Option SchedulerError)
      → Doing s event out.0.world.db
      → Doing s event (after_trigger to_string out).world.db
  unfolding join_ended
  after_trigger-Doing s event (after, some error) path = path
  after_trigger-Doing s event (after, none) path = path

  end_cycle-Doing :
      (s : State) (event : Event) (out : State × Option SchedulerError)
      → Doing s event out.0.world.db
      → Doing s event (end_cycle to_string out).world.db
  end_cycle-Doing s event (after, some error) path = path
  end_cycle-Doing s event (after, none) path = path

  abbrev staged : Stage → Event → State → State
  staged = on_stage croner to_string cancellation registry config

  on_stage-Doing :
      (stage : Stage) (event : Event) (s : State)
      → IsFair croner event s.world.db
      → Doing s event (staged stage event s).world.db
  unfolding abort_all stop join_ended
  on_stage-Doing waiting (triggered t) s fair = elim (Bool-cases (ready t s)) [
    | inl now ↦ rw now (
        after_trigger-Doing s (triggered t) (trigger croner t s)
          (trigger-WorksTo croner registry config t s fair))
    | inr never ↦ rw never (rests s.world.db)
  ]
  on_stage-Doing claiming (claims acquired e) s fair =
      end_cycle-Doing s (claims acquired e)
        (claim_and_dispatch cancellation registry config acquired e s)
        (claim_and_dispatch-WorksTo croner registry config cancellation acquired e s fair)
  on_stage-Doing draining drained s fair = elim (Bool-cases (any is_active s.in_flight)) [
    | inl busy ↦ rw busy (rests s.world.db)
    | inr idle ↦ rw idle (rests s.world.db)
  ]
  on_stage-Doing aborting drained s fair = elim (Bool-cases (any is_active s.in_flight)) [
    | inl busy ↦ rw busy (rests s.world.db)
    | inr idle ↦ rw idle (rests s.world.db)
  ]
  on_stage-Doing ended event s fair = rests s.world.db
  on_stage-Doing waiting (task n event) s fair =
      task_event-WorksTo croner registry config n event s fair
  on_stage-Doing claiming (task n event) s fair =
      task_event-WorksTo croner registry config n event s fair
  on_stage-Doing draining (task n event) s fair =
      task_event-WorksTo croner registry config n event s fair
  on_stage-Doing aborting (task n event) s fair =
      task_event-WorksTo croner registry config n event s fair
  on_stage-Doing waiting (claims acquired e) s fair = rests s.world.db
  on_stage-Doing waiting (aborted n) s fair = rests s.world.db
  on_stage-Doing waiting cancelled s fair = rests s.world.db
  on_stage-Doing waiting drained s fair = rests s.world.db
  on_stage-Doing waiting timed_out s fair = rests s.world.db
  on_stage-Doing claiming (triggered t) s fair = rests s.world.db
  on_stage-Doing claiming (aborted n) s fair = rests s.world.db
  on_stage-Doing claiming cancelled s fair = rests s.world.db
  on_stage-Doing claiming drained s fair = rests s.world.db
  on_stage-Doing claiming timed_out s fair = rests s.world.db
  on_stage-Doing draining (triggered t) s fair = rests s.world.db
  on_stage-Doing draining (claims acquired e) s fair = rests s.world.db
  on_stage-Doing draining (aborted n) s fair = rests s.world.db
  on_stage-Doing draining cancelled s fair = rests s.world.db
  on_stage-Doing draining timed_out s fair = rests s.world.db
  on_stage-Doing aborting (triggered t) s fair = rests s.world.db
  on_stage-Doing aborting (claims acquired e) s fair = rests s.world.db
  on_stage-Doing aborting (aborted n) s fair = rests s.world.db
  on_stage-Doing aborting cancelled s fair = rests s.world.db
  on_stage-Doing aborting timed_out s fair = rests s.world.db

  pub on_event-Works :
      (event : Event) (s : State)
      → IsFair croner event s.world.db
      → Works croner registry config s event s.world.db
          (on_event croner to_string cancellation registry config event s).world.db
  unfolding on_event
  on_event-Works event s fair = on_stage-Doing s.stage event s fair

  TaskActs-Step :
      (t : InFlight) (event : DispatchEvent) (a b : Db) → TaskActs t event a b → Step croner a b
  TaskActs-Step t event a b (renews e utc_now expires db running timely) =
      renew_step db e t.claimed.run_id t.claimed.lease_token timely
  TaskActs-Step t event a b (completes e db returned) =
      finalizes db e t.claimed.run_id t.claimed.lease_token Outcome.completed
  TaskActs-Step t event a b (fails e error db returned) =
      fail_step db e t.claimed.run_id t.claimed.lease_token error.source (is_retryable error)

  Acts-Step :
      (s : State) (event : Event) (a b : Db)
      → name_check config.worker_id.as_str ≡ true
      → Acts croner registry config s event a b
      → Step croner a b
  Acts-Step s event a b named (ticks envs n db fresh) = materializes db (envs n) fresh
  Acts-Step s event a b named (reaps e db) = recovers db e 1000
  Acts-Step s event a b named (takes e db fresh) =
      claim_step db e config.worker_id (names registry) s.permits named fresh
  Acts-Step s event a b named (acts n t moved before after found act) =
      TaskActs-Step t moved before after act

  Works-Reaches :
      (s : State) (event : Event) (o a b : Db)
      → name_check config.worker_id.as_str ≡ true
      → Reaches croner o a
      → Works croner registry config s event a b
      → Reaches croner o b
  Works-Reaches s event o a b named path (rests db) = path
  Works-Reaches s event o a b named path (goes first mid last before act) =
      next o mid last (Works-Reaches s event o first mid named path before)
        (Acts-Step s event mid last named act)

  -- What a worker and the others do to the tables, in some order: the worker's events, and the
  -- operations of anyone else.
  pub data Runs : State → State → Type 0 where
    begins : (s : State) → Runs s s
    works :
        (a b : State) (event : Event)
        → Runs a b
        → IsFair croner event b.world.db
        → Runs a (on_event croner to_string cancellation registry config event b)
    waits : (a b : State) (db : Db) → Runs a b → Step croner b.world.db db → Runs a (on_db b db)

  -- The tables of a worker with a valid id, among any operations of other workers, queues and
  -- administrators, are reached by a sequence of operations of the store.
  Runs-Reaches :
      (a b : State)
      → name_check config.worker_id.as_str ≡ true
      → Runs a b
      → Reaches croner a.world.db b.world.db
  Runs-Reaches a b named (begins s) = start s.world.db
  Runs-Reaches a b named (works first mid event path fair) =
      Works-Reaches mid event first.world.db mid.world.db _ named
        (Runs-Reaches first mid named path) (on_event-Works event mid fair)
  Runs-Reaches a b named (waits first mid db path step) =
      next first.world.db mid.world.db db (Runs-Reaches first mid named path) step

  -- So from tables that hold schedules alone, within the constraints, the tables of a running worker
  -- are consistent at every moment.
  pub Runs-IsConsistent :
      (jobs : List SchedulerJob) (counts : Counts) (b : State)
      → name_check config.worker_id.as_str ≡ true
      → admits (idle_db jobs) ≡ true
      → Runs (started config (record { db = idle_db jobs; counts = counts })) b
      → IsConsistent b.world.db
  unfolding started
  Runs-IsConsistent jobs counts b named h path =
      reachable-IsConsistent croner jobs b.world.db h (Runs-Reaches _ b named path)
