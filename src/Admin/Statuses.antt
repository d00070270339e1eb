-- ===== src/Admin/Statuses.antt =====
-- src/admin.rs: the answers of the routes.
use pg_task_scheduler.Prelude.{
  ℕ, codes, ◌≡◌, refl, arith, ◌==◌, Text, Bool, true, false, Result, ok, err, any, any-mono_false,
  Bool-cases, inl, inr,
}
use pg_task_scheduler.Error.{SchedulerError}
use pg_task_scheduler.Models.Runs.{StoredRunState}
use pg_task_scheduler.Db.{Db, Env, Run}
use pg_task_scheduler.Consistency.{IsConsistent}
use pg_task_scheduler.Queue.{cancel, exists}
use pg_task_scheduler.Queue.Cancellation.{cancel_lem, is_open}
use pg_task_scheduler.Admin.{
  TaskStateView, StatusCode, no_content, Failure, no_job, no_task, cancel_task,
}

-- The word for a stored state.
abbrev pub state_name : StoredRunState → Text
state_name StoredRunState.pending = codes "pending"
state_name StoredRunState.running = codes "running"
state_name StoredRunState.completed = codes "completed"
state_name StoredRunState.failed = codes "failed"
state_name StoredRunState.cancelled = codes "cancelled"

-- What a row tells of its state.
abbrev pub shown : Run → TaskStateView
shown r = record {
  state = state_name r.state;
  worker_id = r.worker_id;
  finished_at = r.finished_at;
  error = r.last_error;
}

open-exists : (id : ℕ) (db : Db) → any (is_open id) db.runs ≡ true → exists id db ≡ true
unfolding exists is_open
open-exists id db hit = elim (Bool-cases (any (λ r. r.id == id) db.runs)) [
  | inl there ↦ there
  | inr gone ↦
      absurd (
        ground (arith, any-mono_false (is_open id) (λ r. r.id == id) db.runs (λ r h. ground arith)))
]

module _ (to_string : SchedulerError → Text) (show_uuid : ℕ → Text) where
  -- Whether a schedule, or a task, is there.
  abbrev pub found_job : ℕ → Bool → Result Failure StatusCode
  found_job id true = ok no_content
  found_job id false = err (no_job to_string show_uuid id)

  abbrev pub found_task : ℕ → Bool → Result Failure StatusCode
  found_task id true = ok no_content
  found_task id false = err (no_task to_string show_uuid id)

  -- Cancelling a task by its route, given a connection, on consistent tables, never answers with an
  -- error of the server: the answer is 204 if there is a task with the id, be it over already or not,
  -- and 404 if there is none; and the tables are those after the cancellation.
  pub cancel_task_lem :
      (e : Env) (id : ℕ) (db : Db)
      → IsConsistent db
      → cancel_task to_string show_uuid e id (ok tt) db
        ≡ ((cancel e id db).0, found_task id (exists id db))
  unfolding cancel_task exists
  cancel_task_lem e id db c = elim (Bool-cases (any (is_open id) db.runs)) [
    | inl hit ↦ rw (cancel_lem e id db c) (rw hit (rw (open-exists id db hit) refl))
    | inr miss ↦ rw (cancel_lem e id db c) (
        rw miss
          (elim (Bool-cases (exists id db)) [ inl over ↦ rw over refl | inr gone ↦ rw gone refl ]))
  ]
