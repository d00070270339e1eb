-- ===== src/History.antt =====
-- The operations of src/queue.rs, src/jobs.rs and src/store as steps of one database, in any order and from any
-- number of workers: each step is one operation with what the server and its caller hand it.
-- A step's conditions are what PostgreSQL and the builders of the configuration values see to: ids
-- and tokens are new, options are valid, a worker id has been checked, and the clock does not run
-- backwards.
pub mod Reachable
pub mod Terminal
pub mod Schedules
pub mod Cursors
use pg_task_scheduler.Prelude.{ℕ, Text, Bool, List, [], Result, ◌≡◌, true}
use pg_task_scheduler.Ids.{WorkerId}
use pg_task_scheduler.Ids.Policy.{name_check}
use pg_task_scheduler.Models.Runs.{Outcome}
use pg_task_scheduler.Db.{Db, Env, SchedulerJob}
use pg_task_scheduler.Queue.{EnqueueOptions, enqueue, cancel, prune_terminal}
use pg_task_scheduler.Queue.Enqueueing.{IsValidOptions, IsNewId}
use pg_task_scheduler.Store.Claim.{claim_batch}
use pg_task_scheduler.Store.Claim.Leases.{IsFresh}
use pg_task_scheduler.Store.Finalize.{finalize_run, fail_run, renew_lease}
use pg_task_scheduler.Store.Finalize.Renewal.{HasStarted}
use pg_task_scheduler.Cron.{Croner}
use pg_task_scheduler.Jobs.{
  CreateJob, ScheduleUpdate, create, ensure_job, reschedule, pause, resume, delete,
}
use pg_task_scheduler.Store.Materialize.{materialize_one}
use pg_task_scheduler.Store.Reap.{recover_expired}

-- Tables with these schedules and no runs; without schedules, those that the migration creates.
abbrev pub idle_db : List SchedulerJob → Db
idle_db jobs = record { jobs = jobs; runs = []; attempts = [] }

pub data Step (croner : Croner) : Db → Db → Type 0 where
  enqueues :
      (db : Db) (e : Env) (task : Text) (args : Result Text Text) (o : EnqueueOptions)
      → IsValidOptions o
      → IsNewId e db
      → Step croner db (enqueue e task args o db).0
  claims :
      (db : Db) (e : Env) (w : WorkerId) (names : List Text) (limit : ℕ)
      → name_check w.as_str ≡ true
      → IsFresh e db
      → Step croner db (claim_batch e w names limit db).0
  finalizes :
      (db : Db) (e : Env) (id token : ℕ) (o : Outcome)
      → Step croner db (finalize_run e id token o db).0
  fails :
      (db : Db) (e : Env) (id token : ℕ) (error : Text) (retryable : Bool)
      → Step croner db (fail_run e id token error retryable db).0
  renews :
      (db : Db) (e : Env) (id token : ℕ)
      → HasStarted e db
      → Step croner db (renew_lease e id token db).0
  recovers : (db : Db) (e : Env) (limit : ℕ) → Step croner db (recover_expired e limit db).0
  cancels : (db : Db) (e : Env) (id : ℕ) → Step croner db (cancel e id db).0
  materializes : (db : Db) (e : Env) → IsNewId e db → Step croner db (materialize_one croner e db).0
  prunes :
      (db : Db) (e : Env) (before limit : ℕ) → Step croner db (prune_terminal e before limit db).0
  creates :
      (db : Db) (e : Env) (spec : CreateJob croner) → Step croner db (create croner e spec db).0
  ensures :
      (db : Db) (e : Env) (spec : CreateJob croner) → Step croner db (ensure_job croner e spec db).0
  reschedules :
      (db : Db) (e : Env) (id : ℕ) (update : ScheduleUpdate)
      → Step croner db (reschedule croner e id update db).0
  pauses : (db : Db) (e : Env) (id : ℕ) → Step croner db (pause e id db).0
  resumes : (db : Db) (e : Env) (id : ℕ) → Step croner db (resume e id db).0
  deletes : (db : Db) (id : ℕ) → Step croner db (delete id db).0

pub data Reaches (croner : Croner) : Db → Db → Type 0 where
  start : (db : Db) → Reaches croner db db
  next : (a b c : Db) → Reaches croner a b → Step croner b c → Reaches croner a c
