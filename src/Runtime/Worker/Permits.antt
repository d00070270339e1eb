-- ===== src/Runtime/Worker/Permits.antt =====
-- src/runtime/worker.rs: the permits of a worker's semaphore.
use pg_task_scheduler.Prelude.{
  ℕ, zero, suc, ◌+◌, ◌≡◌, ◌∙◌, refl, arith, Text, false, not, ◌&&◌, List, [], ◌∷◌, Option, none,
  some, Option-cases, Result, ok, err, count, count-append, count-select, count-congr, any,
  Bool-cases, inl, inr,
}
use pg_task_scheduler.Error.{SchedulerError}
use pg_task_scheduler.Models.Runs.{ClaimedRun}
use pg_task_scheduler.Db.{Db, Env}
use pg_task_scheduler.Cron.{Croner}
use pg_task_scheduler.Store.Materialize.{materialize_due_jobs}
use pg_task_scheduler.Store.Reap.{RecoverySummary, recover_expired}
use pg_task_scheduler.Runtime.Registry.{Registry, handler_of}
use pg_task_scheduler.Runtime.Builder.{Config}
use pg_task_scheduler.Runtime.Dispatch.{
  World, Acquired, InFlight, Phase, running, returned, lost, reported, DispatchEvent, dispatch,
  dispatch_event, on_phase,
}
use pg_task_scheduler.Runtime.Worker.{
  State, Stage, waiting, claiming, draining, aborting, ended, Trigger, polled, recovering, joined,
  Event, triggered, claims, task, aborted, cancelled, drained, timed_out, is_active, has_ended,
  materialized, materialize, recovered_leases, recover_leases, join_ended, spawn, unless_failed,
  spawn_each, dispatch_claimed, claim_at_most, claim_and_dispatch, task_event, abort_all, drop_task,
  stop, trigger, ready, end_cycle, after_trigger, after_task, on_stage, on_event, run, started,
}

-- Each permit is available or held by a task that is not over.
abbrev pub total : State → ℕ
total s = s.permits + count is_active s.in_flight

materialize-total :
    (croner : Croner) (acquired : Acquired) (envs : ℕ → Env) (s : State)
    → total (materialize croner acquired envs s).0 ≡ total s
unfolding materialize
materialize-total croner (err error) envs s = refl
materialize-total croner (ok conn) envs s = go (materialize_due_jobs croner envs s.world.db)
  where
    go : (out : Db × Result SchedulerError ℕ) → total (materialized croner s out).0 ≡ total s
    go (db, ok n) = refl
    go (db, err error) = refl

recover_leases-total :
    (acquired : Acquired) (e : Env) (s : State) → total (recover_leases acquired e s).0 ≡ total s
unfolding recover_leases
recover_leases-total (err error) e s = refl
recover_leases-total (ok conn) e s = go (recover_expired e 1000 s.world.db)
  where
    go :
        (out : Db × Result SchedulerError RecoverySummary)
        → total (recovered_leases s out).0 ≡ total s
    go (db, ok n) = refl
    go (db, err error) = refl

join_ended-total : (s : State) → total (join_ended s) ≡ total s
unfolding join_ended
join_ended-total s = omega (
  arith,
  count-select is_active is_active s.in_flight,
  count-congr (λ t. is_active t && is_active t) is_active s.in_flight (λ t. ground arith),
)

module _ (cancellation : ClaimedRun → ℕ) (registry : Registry) where
  spawn-total :
      (claimed : ClaimedRun) (permits : ℕ) (s : State)
      → s.permits ≡ permits
      → total (spawn cancellation registry claimed permits s).0 ≡ total s
  unfolding is_active dispatch count
  spawn-total claimed zero s h = refl
  spawn-total claimed (suc permits) s h =
      elim (Option-cases (handler_of registry claimed.job_name)) [
        | inl unknown ↦ rw unknown refl
        | inr (handler, found) ↦ rw found (
            omega (
              arith,
              h,
              count-append is_active s.in_flight
                  (dispatch handler claimed (cancellation claimed) ∷ []),
            ))
      ]

  -- What the loop does with the rest of the batch.
  rest-total :
      (rest : List ClaimedRun) (s : State) (out : State × Option SchedulerError)
      → total out.0 ≡ total s
      → ((after : State) → total (spawn_each cancellation registry rest after).0 ≡ total after)
      → total (unless_failed out (λ after. spawn_each cancellation registry rest after)).0 ≡ total s
  rest-total rest s (after, some error) h more = h
  rest-total rest s (after, none) h more = more after ∙ h

  spawn_each-total :
      (batch : List ClaimedRun) (s : State)
      → total (spawn_each cancellation registry batch s).0 ≡ total s
  unfolding spawn_each
  spawn_each-total [] s = refl
  spawn_each-total (claimed ∷ rest) s =
      rest-total rest s (spawn cancellation registry claimed s.permits s)
        (spawn-total claimed s.permits s refl) (spawn_each-total rest)

  dispatch_claimed-total :
      (s : State) (out : Db × Result SchedulerError (List ClaimedRun))
      → total (dispatch_claimed cancellation registry s out).0 ≡ total s
  dispatch_claimed-total s (db, err error) = refl
  dispatch_claimed-total s (db, ok batch) = spawn_each-total batch _

  claim_at_most-total :
      (config : Config) (acquired : Acquired) (e : Env) (limit : ℕ) (s : State)
      → total (claim_at_most cancellation registry config acquired e limit s).0 ≡ total s
  unfolding claim_at_most
  claim_at_most-total config acquired e zero s = refl
  claim_at_most-total config (err error) e (suc limit) s = refl
  claim_at_most-total config (ok conn) e (suc limit) s = dispatch_claimed-total s _

  claim_and_dispatch-total :
      (config : Config) (acquired : Acquired) (e : Env) (s : State)
      → total (claim_and_dispatch cancellation registry config acquired e s).0 ≡ total s
  unfolding claim_and_dispatch
  claim_and_dispatch-total config acquired e s = claim_at_most-total config acquired e s.permits s

dispatch_event-is_active :
    (event : DispatchEvent) (t : InFlight) (w : World)
    → is_active t ≡ false
    → is_active (dispatch_event event t w).1 ≡ false
unfolding dispatch_event is_active
dispatch_event-is_active event t w h = go t.phase refl
  where
    go :
        (phase : Phase)
        → t.phase ≡ phase
        → not (has_ended (on_phase t.phase event t w).1.phase) ≡ false
    go (running x) e = absurd (ground arith)
    go (returned r) e = absurd (ground arith)
    go lost e = rw e refl
    go reported e = rw e refl

task_event-total :
    (n : ℕ) (event : DispatchEvent) (ts : List InFlight) (w : World)
    → (task_event n event ts w).2 + count is_active (task_event n event ts w).1 ≡ count is_active ts
unfolding task_event count
task_event-total n event [] w = refl
task_event-total zero event (t ∷ ts) w = ground (arith, dispatch_event-is_active event t w)
task_event-total (suc n) event (t ∷ ts) w = ground (arith, task_event-total n event ts w)

abort_all-total : (s : State) → total (abort_all s) ≡ total s
unfolding abort_all
abort_all-total s = refl

stop-total : (s : State) → total (stop s) ≡ total s
unfolding stop
stop-total = join_ended-total

drop_task-total :
    (n : ℕ) (ts : List InFlight)
    → (drop_task n ts).1 + count is_active (drop_task n ts).0 ≡ count is_active ts
unfolding drop_task count is_active
drop_task-total n [] = refl
drop_task-total zero (t ∷ ts) = ground arith
drop_task-total (suc n) (t ∷ ts) = ground (arith, drop_task-total n ts)

trigger-total : (croner : Croner) (t : Trigger) (s : State) → total (trigger croner t s).0 ≡ total s
unfolding trigger
trigger-total croner (polled acquired envs) s = materialize-total croner acquired envs s
trigger-total croner (recovering acquired e) s = recover_leases-total acquired e s
trigger-total croner joined s = refl

module _ (to_string : SchedulerError → Text) where
  after_trigger-total :
      (out : State × Option SchedulerError) → total (after_trigger to_string out) ≡ total out.0
  after_trigger-total (s, some error) = join_ended-total s
  after_trigger-total (s, none) = join_ended-total s

  end_cycle-total :
      (out : State × Option SchedulerError) → total (end_cycle to_string out) ≡ total out.0
  end_cycle-total (s, some error) = refl
  end_cycle-total (s, none) = refl

module _ (croner : Croner) (to_string : SchedulerError → Text) (cancellation : ClaimedRun → ℕ)
    (registry : Registry) (config : Config) where
  task-total :
      (n : ℕ) (event : DispatchEvent) (s : State)
      → total (after_task s (task_event n event s.in_flight s.world)) ≡ total s
  task-total n event s = omega (arith, task_event-total n event s.in_flight s.world)

  abbrev step : Stage → Event → State → State
  step = on_stage croner to_string cancellation registry config

  on_stage-total :
      (stage : Stage) (event : Event) (s : State) → total (step stage event s) ≡ total s
  on_stage-total waiting (triggered t) s = elim (Bool-cases (ready t s)) [
    | inl now ↦
        rw now (after_trigger-total to_string (trigger croner t s) ∙ trigger-total croner t s)
    | inr never ↦ rw never refl
  ]
  on_stage-total waiting (claims acquired e) s = refl
  on_stage-total waiting (task n event) s = task-total n event s
  on_stage-total waiting cancelled s = refl
  on_stage-total waiting (aborted n) s = refl
  on_stage-total waiting drained s = refl
  on_stage-total waiting timed_out s = refl
  on_stage-total claiming (triggered t) s = refl
  on_stage-total claiming (claims acquired e) s =
      end_cycle-total to_string (claim_and_dispatch cancellation registry config acquired e s)
      ∙ claim_and_dispatch-total cancellation registry config acquired e s
  on_stage-total claiming (task n event) s = task-total n event s
  on_stage-total claiming cancelled s = refl
  on_stage-total claiming (aborted n) s = refl
  on_stage-total claiming drained s = refl
  on_stage-total claiming timed_out s = refl
  on_stage-total draining (triggered t) s = refl
  on_stage-total draining (claims acquired e) s = refl
  on_stage-total draining (task n event) s = task-total n event s
  on_stage-total draining cancelled s = refl
  on_stage-total draining (aborted n) s = refl
  on_stage-total draining drained s = elim (Bool-cases (any is_active s.in_flight)) [
    | inl busy ↦ rw busy refl
    | inr idle ↦ rw idle (abort_all-total s)
  ]
  on_stage-total draining timed_out s = abort_all-total s
  on_stage-total aborting (triggered t) s = refl
  on_stage-total aborting (claims acquired e) s = refl
  on_stage-total aborting (task n event) s = task-total n event s
  on_stage-total aborting (aborted n) s = omega (arith, drop_task-total n s.in_flight)
  on_stage-total aborting cancelled s = refl
  on_stage-total aborting drained s = elim (Bool-cases (any is_active s.in_flight)) [
    | inl busy ↦ rw busy refl
    | inr idle ↦ rw idle (stop-total s)
  ]
  on_stage-total aborting timed_out s = refl
  on_stage-total ended event s = refl

  run-total :
      (events : List Event) (s : State)
      → total (run croner to_string cancellation registry config events s) ≡ total s
  unfolding run on_event
  run-total [] s = refl
  run-total (event ∷ events) s =
      run-total events (step s.stage event s) ∙ on_stage-total s.stage event s

  -- Whatever happens to a worker, in whatever order, its permits are never lost or made: those that
  -- are available and those of the tasks that are not over are as many as the configuration allows,
  -- so no more handlers than that ever run at once.
  pub run-permits :
      (events : List Event) (w : World)
      → total (run croner to_string cancellation registry config events (started config w))
        ≡ config.max_concurrency
  unfolding started count
  run-permits events w = run-total events _ ∙ omega arith
