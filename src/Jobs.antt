-- ===== src/Jobs.antt =====
-- src/jobs.rs: schedules are created, reconciled, rescheduled, paused, resumed and deleted.
-- The arguments of a schedule are serialized by the caller's type, and the order of names is the
-- database's collation; both are arguments here. `now()` is one instant in a transaction.
pub mod Frames
pub mod Keeping
pub mod Writes
pub mod Moves
pub mod Readback
use pg_task_scheduler.Prelude.{
  ℕ, ℤ, Text, text_eq, ltb, ◌==◌, if◌then◌else◌, select, order_by, update_where, head?, count, Bool,
  true, false, not, List, [], ◌∷◌, Option, none, some, map, Result, ok, err, map_err, collect,
}
use pg_task_scheduler.Prelude.{◌>>=◌ as bind_result}
use pg_task_scheduler.Error.{SchedulerError, serde}
use pg_task_scheduler.Ids.{JobName}
use pg_task_scheduler.Models.Limits.{
  PgInterval, LeaseDuration, MaxAttempts, RetryBackoff, retry_backoff_default, lease_to_pg_interval,
  backoff_to_pg_interval, to_i32,
}
use pg_task_scheduler.Models.Jobs.{JobLifecycle, is_paused, Job, job_try_from}
use pg_task_scheduler.Db.{Db, SchedulerJob, Env}
use pg_task_scheduler.Db.Monad.{
  M, continue, ◌>>=◌, return, lift, query, execute, admitted_or_refused, transaction,
  commit_or_rollback,
}
use pg_task_scheduler.Cron.{Croner, CronExpression, parse_stored, next_after}
use pg_task_scheduler.Store.Inspect.{transpose_map}

pub record CreateJob (croner : Croner) : Type 0 where
  pub name : JobName
  pub cron : CronExpression croner
  pub args : Text
  pub lease_duration : LeaseDuration
  pub max_attempts : MaxAttempts
  pub lifecycle : JobLifecycle
  pub retry_backoff : RetryBackoff

-- `NewJob` of src/models.rs.
pub record NewJob : Type 0 where
  pub name : Text
  pub cron_expression : Text
  pub job_args : Text
  pub next_run_at : ℕ
  pub lease_duration : PgInterval
  pub max_attempts : ℤ
  pub is_paused : Bool
  pub retry_backoff : PgInterval

pub data ScheduleUpdate : Type 0 where
  reset_from_now : ScheduleUpdate
  set_next_run_at : ℕ → ScheduleUpdate

pub data Applied : Type 0 where
  changed not_found : Applied

-- The row that an INSERT of the new schedule makes, with the defaults of the other columns.
unfoldable pub inserted_job : Env → NewJob → SchedulerJob
inserted_job e row = record {
  id = e.uuid 0;
  name = row.name;
  cron_expression = row.cron_expression;
  job_args = row.job_args;
  next_run_at = row.next_run_at;
  lease_duration = row.lease_duration;
  max_attempts = row.max_attempts;
  is_paused = row.is_paused;
  created_at = e.now;
  updated_at = e.now;
  retry_backoff = row.retry_backoff;
}

-- `insert_into(scheduler_jobs)`, with the row returned.
unfoldable pub insert_job : SchedulerJob → Db → Db × SchedulerJob
insert_job new db = (record db { jobs = new ∷ db.jobs }, new)

-- `on_conflict(name)`.
unfoldable pub has_name : Text → SchedulerJob → Bool
has_name name j = text_eq name j.name

-- The SET list of `do_update`.
unfoldable pub reconcile_row : Env → NewJob → SchedulerJob → SchedulerJob
reconcile_row e row j = record j {
  cron_expression = row.cron_expression;
  job_args = row.job_args;
  lease_duration = row.lease_duration;
  max_attempts = row.max_attempts;
  retry_backoff = row.retry_backoff;
  updated_at = e.now;
}

abbrev pub insert_or_reconcile : Env → NewJob → Db → Option SchedulerJob → Db × SchedulerJob
insert_or_reconcile e row db none = insert_job (inserted_job e row) db
insert_or_reconcile e row db (some old) = (
  record db { jobs = update_where (has_name row.name) (reconcile_row e row) db.jobs },
  reconcile_row e row old,
)

-- The INSERT of `ensure_job`, with its conflict clause and the row returned.
unfoldable pub upsert_job : Env → NewJob → Db → Db × SchedulerJob
upsert_job e row db = insert_or_reconcile e row db (head? (select (has_name row.name) db.jobs))

-- `find(id)`.
unfoldable pub find_job : ℕ → Db → Option SchedulerJob
find_job id db = head? (select (λ j. j.id == id) db.jobs)

-- The SET list of `reschedule`.
unfoldable pub move_cursor : Env → ℕ → SchedulerJob → SchedulerJob
move_cursor e next j = record j { next_run_at = next; updated_at = e.now }

-- The UPDATE of `reschedule`, with the row returned.
unfoldable pub reschedule_statement : Env → ℕ → ℕ → Db → Db × Option SchedulerJob
reschedule_statement e id next db = (
  record db { jobs = update_where (λ j. j.id == id) (move_cursor e next) db.jobs },
  head? (map (move_cursor e next) (select (λ j. j.id == id) db.jobs)),
)

-- The SET list of `set_paused`.
unfoldable pub paused_row : Env → Bool → SchedulerJob → SchedulerJob
paused_row e paused j = record j { is_paused = paused; updated_at = e.now }

-- The UPDATE of `set_paused`, with the number of rows that it changed.
unfoldable pub paused_statement : Env → ℕ → Bool → Db → Db × ℕ
paused_statement e id paused db = (
  record db { jobs = update_where (λ j. j.id == id) (paused_row e paused) db.jobs },
  count (λ j. j.id == id) db.jobs,
)

-- The DELETE of `delete`, with the number of rows that it removed.
unfoldable pub delete_statement : ℕ → Db → Db × ℕ
delete_statement id db =
    (record db { jobs = select (λ j. not (j.id == id)) db.jobs }, count (λ j. j.id == id) db.jobs)

unfoldable pub applied_from_affected : ℕ → Applied
applied_from_affected affected = if ltb 0 affected then changed else not_found

unfoldable pub set_paused : Env → ℕ → Bool → M Applied
set_paused e id paused = do
  affected ← execute (paused_statement e id paused)
  return (applied_from_affected affected)

unfoldable pub pause : Env → ℕ → M Applied
pause e id = set_paused e id true

unfoldable pub resume : Env → ℕ → M Applied
resume e id = set_paused e id false

unfoldable pub delete : ℕ → M Applied
delete id = do affected ← execute (delete_statement id); return (applied_from_affected affected)

module _ (croner : Croner) where
  -- `CreateJob::new`.
  unfoldable pub create_job :
      JobName
      → CronExpression croner
      → LeaseDuration
      → MaxAttempts
      → JobLifecycle
      → Result Text Text
      → Result SchedulerError (CreateJob croner)
  create_job name cron lease_duration max_attempts lifecycle args =
      bind_result (map_err serde args) λ args. ok (record {
        name = name;
        cron = cron;
        args = args;
        lease_duration = lease_duration;
        max_attempts = max_attempts;
        lifecycle = lifecycle;
        retry_backoff = retry_backoff_default;
      })

  -- `CreateJob::with_retry_backoff`.
  unfoldable pub with_retry_backoff : CreateJob croner → RetryBackoff → CreateJob croner
  with_retry_backoff spec b = record spec { retry_backoff = b }

  unfoldable pub new_job : CreateJob croner → ℕ → Result SchedulerError NewJob
  new_job spec db_now = bind_result (next_after croner spec.cron db_now) λ next_run_at. ok (record {
    name = spec.name.as_str;
    cron_expression = spec.cron.source;
    job_args = spec.args;
    next_run_at = next_run_at;
    lease_duration = lease_to_pg_interval spec.lease_duration;
    max_attempts = to_i32 spec.max_attempts;
    is_paused = is_paused spec.lifecycle;
    retry_backoff = backoff_to_pg_interval spec.retry_backoff;
  })

  unfoldable pub create : Env → CreateJob croner → M (Job croner)
  create e spec = do
    row ← transaction do row ← lift (new_job spec e.now); execute (insert_job (inserted_job e row))
    lift (job_try_from croner row)

  unfoldable pub ensure_job : Env → CreateJob croner → M (Job croner)
  ensure_job e spec = do
    row ← transaction do row ← lift (new_job spec e.now); execute (upsert_job e row)
    lift (job_try_from croner row)

  -- The time that a stored cron expression gives.
  unfoldable pub next_of_stored : Env → ℕ → Option SchedulerJob → Result SchedulerError (Option ℕ)
  next_of_stored e id none = ok none
  next_of_stored e id (some j) =
      bind_result (parse_stored croner id j.cron_expression)
        λ cron. bind_result (next_after croner cron e.now) λ next. ok (some next)

  unfoldable pub next_cursor : Env → ℕ → ScheduleUpdate → M (Option ℕ)
  unfolding next_of_stored
  next_cursor e id (set_next_run_at ts) = return (some ts)
  next_cursor e id reset_from_now = do found ← query (find_job id); lift (next_of_stored e id found)

  unfoldable pub move_to : Env → ℕ → Option ℕ → M (Option SchedulerJob)
  move_to e id none = return none
  move_to e id (some next) = execute (reschedule_statement e id next)

  unfoldable pub reschedule : Env → ℕ → ScheduleUpdate → M (Option (Job croner))
  reschedule e id update = do
    row ← transaction do next ← next_cursor e id update; move_to e id next
    lift (transpose_map (job_try_from croner) row)

  unfoldable pub get : ℕ → M (Option (Job croner))
  get id = do row ← query (find_job id); lift (transpose_map (job_try_from croner) row)

  unfoldable pub list : (Text → Text → Bool) → M (List (Job croner))
  list collation = do
    rows ← query (λ db. order_by (λ i j. collation i.name j.name) db.jobs)
    lift (collect (job_try_from croner) rows)
