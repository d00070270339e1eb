-- ===== src/Admin.antt =====
-- src/admin.rs: the HTTP routes over schedules and tasks.
-- axum finds the route and takes the id from the path. The text of an error and of a UUID are
-- arguments, and a body is the value that serde writes.
pub mod Statuses
use pg_task_scheduler.Prelude.{
  ℕ, Text, codes, Bool, List, ◌++◌, map, Option, none, some, Result, ok, err,
}
use pg_task_scheduler.Error.{SchedulerError}
use pg_task_scheduler.Models.Jobs.{Job, is_paused}
use pg_task_scheduler.Models.Runs.{RunState}
use pg_task_scheduler.Db.{Db, Env}
use pg_task_scheduler.Db.Monad.{M}
use pg_task_scheduler.Cron.{Croner}
use pg_task_scheduler.Jobs.{Applied, changed, not_found, pause, resume, delete, list}
use pg_task_scheduler.Queue.{CancelOutcome, cancel}
use pg_task_scheduler.Store.Inspect.{run_state}

-- The statuses that the routes answer with.
pub data StatusCode : Type 0 where
  no_content missing internal_server_error service_unavailable : StatusCode

abbrev pub Failure : Type 0
Failure = StatusCode × Text

pub record JobView : Type 0 where
  pub id : ℕ
  pub name : Text
  pub cron_expression : Text
  pub is_paused : Bool

pub record TaskStateView : Type 0 where
  pub state : Text
  pub worker_id : Option Text
  pub finished_at : Option ℕ
  pub error : Option Text

unfoldable pub job_view : {croner : Croner} → Job croner → JobView
job_view j = record {
  id = j.id;
  name = j.name.as_str;
  cron_expression = j.cron.source;
  is_paused = is_paused j.lifecycle;
}

unfoldable pub task_state_view : RunState → TaskStateView
task_state_view RunState.pending = record {
  state = codes "pending";
  worker_id = none;
  finished_at = none;
  error = none;
}
task_state_view (RunState.running lease) = record {
  state = codes "running";
  worker_id = some lease.worker_id.as_str;
  finished_at = none;
  error = none;
}
task_state_view (RunState.completed finished_at) = record {
  state = codes "completed";
  worker_id = none;
  finished_at = some finished_at;
  error = none;
}
task_state_view (RunState.failed finished_at error) = record {
  state = codes "failed";
  worker_id = none;
  finished_at = some finished_at;
  error = some error;
}
task_state_view (RunState.cancelled finished_at) = record {
  state = codes "cancelled";
  worker_id = none;
  finished_at = some finished_at;
  error = none;
}

module _ (to_string : SchedulerError → Text) (show_uuid : ℕ → Text) where
  -- What a route makes of the operation's result.
  abbrev pub respond :
      {A B : Type 0} → Db × Result SchedulerError A → (A → Result Failure B) → Db × Result Failure B
  respond (db, ok a) f = (db, f a)
  respond (db, err error) f = (db, err (internal_server_error, to_string error))

  -- `acquire`, and then the operation on the connection.
  abbrev pub acquire :
      {A B : Type 0}
      → Result Text (Unit {0})
      → M A
      → (A → Result Failure B)
      → Db
      → Db × Result Failure B
  acquire (err error) m f db = (db, err (service_unavailable, error))
  acquire (ok conn) m f db = respond (m db) f

  abbrev pub no_job : ℕ → Failure
  no_job id = (missing, codes "no job with id " ++ show_uuid id)

  abbrev pub no_task : ℕ → Failure
  no_task id = (missing, codes "no task with id " ++ show_uuid id)

  abbrev pub applied_status : ℕ → Applied → Result Failure StatusCode
  applied_status id changed = ok no_content
  applied_status id not_found = err (no_job id)

  abbrev pub cancel_status : ℕ → CancelOutcome → Result Failure StatusCode
  cancel_status id CancelOutcome.cancelled = ok no_content
  cancel_status id CancelOutcome.already_terminal = ok no_content
  cancel_status id CancelOutcome.not_found = err (no_task id)

  abbrev pub state_body : ℕ → Option RunState → Result Failure TaskStateView
  state_body id none = err (no_task id)
  state_body id (some s) = ok (task_state_view s)

  unfoldable pub list_jobs :
      (croner : Croner)
      → (Text → Text → Bool)
      → Result Text (Unit {0})
      → Db
      → Db × Result Failure (List JobView)
  list_jobs croner collation acquired =
      acquire acquired (list croner collation) (λ jobs. ok (map job_view jobs))

  unfoldable pub pause_job : Env → ℕ → Result Text (Unit {0}) → Db → Db × Result Failure StatusCode
  pause_job e id acquired = acquire acquired (pause e id) (applied_status id)

  unfoldable pub resume_job : Env → ℕ → Result Text (Unit {0}) → Db → Db × Result Failure StatusCode
  resume_job e id acquired = acquire acquired (resume e id) (applied_status id)

  unfoldable pub delete_job : ℕ → Result Text (Unit {0}) → Db → Db × Result Failure StatusCode
  delete_job id acquired = acquire acquired (delete id) (applied_status id)

  unfoldable pub task_state : ℕ → Result Text (Unit {0}) → Db → Db × Result Failure TaskStateView
  task_state id acquired = acquire acquired (run_state id) (state_body id)

  unfoldable pub cancel_task :
      Env → ℕ → Result Text (Unit {0}) → Db → Db × Result Failure StatusCode
  cancel_task e id acquired = acquire acquired (cancel e id) (cancel_status id)
