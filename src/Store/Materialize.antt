-- ===== src/Store/Materialize.antt =====
-- src/store/materialize.rs: a due schedule becomes a pending run, and its cursor moves on.
-- `now()` is one instant in a transaction, so all its statements have one `Env`.
pub mod Tick
pub mod Agreement
pub mod Rounds
use pg_task_scheduler.Prelude.{
  ℕ, zero, suc, ◌+◌, pos, pos_part, Text, ltb, leb, ◌==◌, if◌then◌else◌, select, any, order_by,
  head?, update_where, Bool, true, false, not, ◌&&◌, List, [], ◌∷◌, Option, none, some, Result, ok,
  err,
}
use pg_task_scheduler.Error.{SchedulerError}
use pg_task_scheduler.Models.Runs.{StoredRunState}
use pg_task_scheduler.Db.{Db, SchedulerJob, Run, Env, same_value}
use pg_task_scheduler.Db.Monad.{
  M, continue, ◌>>=◌, ◌>>◌, return, lift, query, execute, admitted_or_refused, transaction,
  commit_or_rollback,
}
use pg_task_scheduler.Cron.{Croner, CronExpression, parse_cron, next_after}

-- The WHERE clause of SELECT_DUE, with `SKIP LOCKED`.
unfoldable pub is_due : Env → SchedulerJob → Bool
is_due e j = leb j.next_run_at e.now && not j.is_paused && not (e.locked j.id)

-- `ORDER BY next_run_at ASC`.
unfoldable pub due_order : SchedulerJob → SchedulerJob → Bool
due_order i j = leb i.next_run_at j.next_run_at

-- SELECT_DUE, with its `LIMIT 1`.
unfoldable pub due_job : Env → Db → Option SchedulerJob
due_job e db = head? (order_by due_order (select (is_due e) db.jobs))

-- The row that INSERT_RUN inserts; its `gen_random_uuid()` is that of row 0.
unfoldable pub occurrence : Env → SchedulerJob → Run
occurrence e j = record {
  id = e.uuid 0;
  job_id = some j.id;
  scheduled_for = j.next_run_at;
  attempt_count = 0;
  created_at = e.now;
  updated_at = e.now;
  job_name = j.name;
  job_args = j.job_args;
  available_at = j.next_run_at;
  priority = pos 0;
  state = StoredRunState.pending;
  max_attempts = pos_part j.max_attempts;
  lease_duration = j.lease_duration;
  retry_backoff = j.retry_backoff;
  worker_id = none;
  lease_token = none;
  lease_expires_at = none;
  started_at = none;
  finished_at = none;
  last_error = none;
  deduplication_key = none;
}

-- `ON CONFLICT (job_id, scheduled_for)`.
unfoldable pub is_occurrence : Run → Run → Bool
is_occurrence new r = same_value new.job_id r.job_id && new.scheduled_for == r.scheduled_for

-- INSERT_RUN, which returns how many rows it inserted.
unfoldable pub insert_run : Run → Db → Db × ℕ
insert_run new db =
    if any (is_occurrence new) db.runs then (db, 0) else (record db { runs = new ∷ db.runs }, 1)

-- The SET list of ADVANCE.
unfoldable pub advance_row : Env → ℕ → SchedulerJob → SchedulerJob
advance_row e next j = record j { next_run_at = next; updated_at = e.now }

-- ADVANCE.
unfoldable pub advance : Env → ℕ → ℕ → Db → Db × Unit {0}
advance e next id db =
    (record db { jobs = update_where (λ j. j.id == id) (advance_row e next) db.jobs }, tt)

-- The SET list of PAUSE.
unfoldable pub pause_row : Env → SchedulerJob → SchedulerJob
pause_row e j = record j { is_paused = true; updated_at = e.now }

-- PAUSE.
unfoldable pub pause : Env → ℕ → Db → Db × Unit {0}
pause e id db = (record db { jobs = update_where (λ j. j.id == id) (pause_row e) db.jobs }, tt)

pub data Ticked : Type 0 where
  processed idle : Ticked

module _ (croner : Croner) where
  -- The two arms on the stored cron expression.
  unfoldable pub materialize_parsed :
      Env → SchedulerJob → Result SchedulerError (CronExpression croner) → M Ticked
  materialize_parsed e job (ok cron) = do
    next ← lift (next_after croner cron e.now)
    inserted ← execute (insert_run (occurrence e job))
    execute (advance e next job.id)
    return processed
  materialize_parsed e job (err error) = do execute (pause e job.id); return processed

  unfoldable pub materialize_due : Env → Option SchedulerJob → M Ticked
  unfolding materialize_parsed
  materialize_due e none = return idle
  materialize_due e (some job) = materialize_parsed e job (parse_cron croner job.cron_expression)

  unfoldable pub materialize_one : Env → M Ticked
  unfolding materialize_due
  materialize_one e = transaction do due ← query (due_job e); materialize_due e due

  -- The loop, with the rounds that are left of its 100, and the count so far.
  unfoldable pub materialize_rounds : (ℕ → Env) → ℕ → ℕ → M ℕ
  unfolding materialize_one
  materialize_rounds envs zero count = return count
  materialize_rounds envs (suc left) count = materialize_one (envs count) >>= λ tick. elim tick [
    | idle ↦ return count
    | processed ↦ materialize_rounds envs left (count + 1)
  ]

  unfoldable pub materialize_due_jobs : (ℕ → Env) → M ℕ
  unfolding materialize_rounds
  materialize_due_jobs envs = materialize_rounds envs 100 0
