-- ===== src/Runtime/Worker/Steps.antt =====
-- src/runtime/worker.rs: what each event of a worker may do to the tables.
use pg_task_scheduler.Prelude.{
  ℕ, zero, suc, ◌+◌, ◌≡◌, refl, sym, subst, ◌∙◌, List, [], ◌∷◌, Option, none, some, Option-cases,
  Result, ok, err, inl, inr, ◌⊎◌,
}
use pg_task_scheduler.Error.{SchedulerError}
use pg_task_scheduler.Models.Runs.{ClaimedRun}
use pg_task_scheduler.Db.{Db, Env}
use pg_task_scheduler.Cron.{Croner}
use pg_task_scheduler.Db.Monad.{continue, return}
use pg_task_scheduler.Queue.Enqueueing.{IsNewId}
use pg_task_scheduler.Store.Materialize.{
  Ticked, processed, idle, materialize_one, materialize_rounds, materialize_due_jobs,
}
use pg_task_scheduler.Store.Reap.{RecoverySummary, recover_expired}
use pg_task_scheduler.Store.Claim.{claim_batch}
use pg_task_scheduler.Store.Claim.Leases.{IsFresh}
use pg_task_scheduler.Runtime.Registry.{Registry, names, handler_of}
use pg_task_scheduler.Runtime.Builder.{Config}
use pg_task_scheduler.Runtime.Dispatch.{World, Acquired, InFlight, DispatchEvent}
use pg_task_scheduler.Runtime.Dispatch.Steps.{IsTimely, TaskActs, dispatch_event-acts}
use pg_task_scheduler.Runtime.Worker.{
  State, Trigger, polled, recovering, joined, Event, triggered, claims, task, aborted, cancelled,
  drained, timed_out, on_db, materialized, materialize, recovered_leases, recover_leases, spawn,
  unless_failed, spawn_each, dispatch_claimed, claim_at_most, claim_and_dispatch, task_event,
  trigger,
}

module _ (croner : Croner) where
  abbrev AfterTick : Db × Result SchedulerError Ticked → (Db → Type 0) → Type 0
  AfterTick (db, ok processed) k = k db
  AfterTick (db, ok idle) k = Unit
  AfterTick (db, err error) k = Unit

  -- Each round of the materializer has a new id at hand.
  pub IsNewRounds : (ℕ → Env) → ℕ → ℕ → Db → Type 0
  IsNewRounds envs zero n db = Unit
  IsNewRounds envs (suc left) n db =
      IsNewId (envs n) db
      × AfterTick (materialize_one croner (envs n) db)
          (λ after. IsNewRounds envs left (n + 1) after)

  -- What a worker takes from the server at an event.
  abbrev pub IsFair : Event → Db → Type 0
  IsFair (triggered (polled acquired envs)) db = IsNewRounds envs 100 0 db
  IsFair (triggered (recovering acquired e)) db = Unit
  IsFair (triggered joined) db = Unit
  IsFair (claims acquired e) db = IsFresh e db
  IsFair (task n event) db = IsTimely event db
  IsFair (aborted n) db = Unit
  IsFair cancelled db = Unit
  IsFair drained db = Unit
  IsFair timed_out db = Unit

abbrev pub task_at : ℕ → List InFlight → Option InFlight
task_at n [] = none
task_at zero (t ∷ ts) = some t
task_at (suc n) (t ∷ ts) = task_at n ts

module _ (croner : Croner) (registry : Registry) (config : Config) where
  -- What a worker may do to the tables at an event, each on a connection: it materializes at a poll,
  -- recovers at most 1000 leases at a recovery, claims for the handlers that it has, under its own
  -- id, as many tasks as it has permits, and lets a task in flight do what that task may.
  pub data Acts (s : State) : Event → Db → Db → Type 0 where
    ticks :
        (envs : ℕ → Env) (n : ℕ) (db : Db)
        → IsNewId (envs n) db
        → Acts s (triggered (polled (ok tt) envs)) db (materialize_one croner (envs n) db).0
    reaps :
        (e : Env) (db : Db)
        → Acts s (triggered (recovering (ok tt) e)) db (recover_expired e 1000 db).0
    takes :
        (e : Env) (db : Db)
        → IsFresh e db
        → Acts s
            (claims (ok tt) e)
            db
            (claim_batch e config.worker_id (names registry) s.permits db).0
    acts :
        (n : ℕ) (t : InFlight) (event : DispatchEvent) (a b : Db)
        → task_at n s.in_flight ≡ some t
        → TaskActs t event a b
        → Acts s (task n event) a b

  -- What it does at one event, one after the other.
  pub data Works (s : State) (event : Event) : Db → Db → Type 0 where
    rests : (db : Db) → Works s event db db
    goes : (a b c : Db) → Works s event a b → Acts s event b c → Works s event a c

  single : (s : State) (event : Event) (a b : Db) → Acts s event a b → Works s event a b
  single s event a b act = goes a a b (rests a) act

  -- The tables of the state that an event leads to.
  abbrev pub WorksTo : State → Event → State → Type 0
  WorksTo s event after = Works s event s.world.db after.world.db

  module _ (s : State) (envs : ℕ → Env) where
    abbrev Ticks : Db → Db → Type 0
    Ticks = Works s (triggered (polled (ok tt) envs))

    round-Ticks :
        (left n : ℕ) (a : Db) (out : Db × Result SchedulerError Ticked)
        → Ticks a out.0
        → AfterTick croner out (λ after. IsNewRounds croner envs left (n + 1) after)
        → ((db : Db)
            → Ticks a db
            → IsNewRounds croner envs left (n + 1) db
            → Ticks a (materialize_rounds croner envs left (n + 1) db).0)
        → Ticks a
            (continue out (λ tick. elim tick [
              | idle ↦ return n
              | processed ↦ materialize_rounds croner envs left (n + 1)
            ])).0
    round-Ticks left n a (db, ok processed) path fresh more = more db path fresh
    round-Ticks left n a (db, ok idle) path fresh more = path
    round-Ticks left n a (db, err error) path fresh more = path

    rounds-Ticks :
        (left n : ℕ) (a db : Db)
        → Ticks a db
        → IsNewRounds croner envs left n db
        → Ticks a (materialize_rounds croner envs left n db).0
    unfolding materialize_rounds IsNewRounds
    rounds-Ticks zero n a db path fresh = path
    rounds-Ticks (suc left) n a db path fresh =
        round-Ticks left n a (materialize_one croner (envs n) db)
          (goes a db _ path (ticks envs n db fresh.0)) fresh.1 (rounds-Ticks left (n + 1) a)

  materialize-WorksTo :
      (acquired : Acquired) (envs : ℕ → Env) (s : State)
      → IsNewRounds croner envs 100 0 s.world.db
      → WorksTo s (triggered (polled acquired envs)) (materialize croner acquired envs s).0
  unfolding materialize materialize_due_jobs
  materialize-WorksTo (err error) envs s fresh = rests s.world.db
  materialize-WorksTo (ok conn) envs s fresh =
      go (materialize_rounds croner envs 100 0 s.world.db)
        (rounds-Ticks s envs 100 0 s.world.db s.world.db (rests s.world.db) fresh)
    where
      go :
          (out : Db × Result SchedulerError ℕ)
          → Ticks s envs s.world.db out.0
          → WorksTo s (triggered (polled (ok conn) envs)) (materialized croner s out).0
      go (db, ok n) path = path
      go (db, err error) path = path

  recover_leases-WorksTo :
      (acquired : Acquired) (e : Env) (s : State)
      → WorksTo s (triggered (recovering acquired e)) (recover_leases acquired e s).0
  unfolding recover_leases
  recover_leases-WorksTo (err error) e s = rests s.world.db
  recover_leases-WorksTo (ok conn) e s =
      go (recover_expired e 1000 s.world.db) (single s _ s.world.db _ (reaps e s.world.db))
    where
      go :
          (out : Db × Result SchedulerError RecoverySummary)
          → Works s (triggered (recovering (ok conn) e)) s.world.db out.0
          → WorksTo s (triggered (recovering (ok conn) e)) (recovered_leases s out).0
      go (db, ok summary) path = path
      go (db, err error) path = path

  pub trigger-WorksTo :
      (t : Trigger) (s : State)
      → IsFair croner (triggered t) s.world.db
      → WorksTo s (triggered t) (trigger croner t s).0
  unfolding trigger
  trigger-WorksTo (polled acquired envs) s fair = materialize-WorksTo acquired envs s fair
  trigger-WorksTo (recovering acquired e) s fair = recover_leases-WorksTo acquired e s
  trigger-WorksTo joined s fair = rests s.world.db

  module _ (cancellation : ClaimedRun → ℕ) where
    spawn-db :
        (claimed : ClaimedRun) (permits : ℕ) (s : State)
        → (spawn cancellation registry claimed permits s).0.world.db ≡ s.world.db
    spawn-db claimed zero s = refl
    spawn-db claimed (suc permits) s = elim (Option-cases (handler_of registry claimed.job_name)) [
      | inl unknown ↦ rw unknown refl
      | inr (handler, found) ↦ rw found refl
    ]

    rest-db :
        (rest : List ClaimedRun) (s : State) (out : State × Option SchedulerError)
        → out.0.world.db ≡ s.world.db
        → ((after : State)
            → (spawn_each cancellation registry rest after).0.world.db ≡ after.world.db)
        → (unless_failed out (λ after. spawn_each cancellation registry rest after)).0.world.db
          ≡ s.world.db
    rest-db rest s (after, some error) h more = h
    rest-db rest s (after, none) h more = more after ∙ h

    spawn_each-db :
        (batch : List ClaimedRun) (s : State)
        → (spawn_each cancellation registry batch s).0.world.db ≡ s.world.db
    unfolding spawn_each
    spawn_each-db [] s = refl
    spawn_each-db (claimed ∷ rest) s =
        rest-db rest s (spawn cancellation registry claimed s.permits s)
          (spawn-db claimed s.permits s) (spawn_each-db rest)

    dispatch_claimed-db :
        (s : State) (out : Db × Result SchedulerError (List ClaimedRun))
        → (dispatch_claimed cancellation registry s out).0.world.db ≡ out.0
    dispatch_claimed-db s (db, err error) = refl
    dispatch_claimed-db s (db, ok batch) = spawn_each-db batch (on_db s db)

    claim_at_most-WorksTo :
        (acquired : Acquired) (e : Env) (limit : ℕ) (s : State)
        → s.permits ≡ limit
        → IsFresh e s.world.db
        → WorksTo s
            (claims acquired e)
            (claim_at_most cancellation registry config acquired e limit s).0
    unfolding claim_at_most
    claim_at_most-WorksTo acquired e zero s h fresh = rests s.world.db
    claim_at_most-WorksTo (err error) e (suc limit) s h fresh = rests s.world.db
    claim_at_most-WorksTo (ok conn) e (suc limit) s h fresh =
        let batch = λ (n : ℕ). claim_batch e config.worker_id (names registry) n s.world.db in
        subst (Works s (claims (ok conn) e) s.world.db)
          (sym (dispatch_claimed-db s (batch (suc limit))))
          (subst (λ n. Works s (claims (ok conn) e) s.world.db (batch n).0) h
            (single s _ s.world.db _ (takes e s.world.db fresh)))

    pub claim_and_dispatch-WorksTo :
        (acquired : Acquired) (e : Env) (s : State)
        → IsFresh e s.world.db
        → WorksTo s
            (claims acquired e)
            (claim_and_dispatch cancellation registry config acquired e s).0
    unfolding claim_and_dispatch
    claim_and_dispatch-WorksTo acquired e s fresh =
        claim_at_most-WorksTo acquired e s.permits s refl fresh

  task_event-acts :
      (n : ℕ) (event : DispatchEvent) (ts : List InFlight) (w : World)
      → IsTimely event w.db
      → ((task_event n event ts w).0.db ≡ w.db)
        ⊎ ((t : InFlight) × (task_at n ts ≡ some t)
            × TaskActs t event w.db (task_event n event ts w).0.db)
  unfolding task_event
  task_event-acts n event [] w timely = inl refl
  task_event-acts zero event (t ∷ ts) w timely = elim (dispatch_event-acts event t w timely) [
    | inl same ↦ inl same
    | inr act ↦ inr (t, refl, act)
  ]
  task_event-acts (suc n) event (t ∷ ts) w timely = task_event-acts n event ts w timely

  pub task_event-WorksTo :
      (n : ℕ) (event : DispatchEvent) (s : State)
      → IsTimely event s.world.db
      → Works s (task n event) s.world.db (task_event n event s.in_flight s.world).0.db
  task_event-WorksTo n event s timely = elim (task_event-acts n event s.in_flight s.world timely) [
    | inl same ↦ subst (Works s (task n event) s.world.db) (sym same) (rests s.world.db)
    | inr (t, found, act) ↦ single s _ s.world.db _ (acts n t event _ _ found act)
  ]
