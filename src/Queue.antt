-- ===== src/Queue.antt =====
-- src/queue.rs: enqueueing, cancellation and retention.
-- `enqueue` takes the name and the serialized arguments of its `Task` type as arguments; the
-- notification that ends it touches no table.
pub mod Cancellation
pub mod Cancelled
pub mod Enqueueing
pub mod Options
pub mod Retention
use pg_task_scheduler.Prelude.{
  ℕ, ◌+◌, ℤ, pos, Text, codes, text_eq, ltb, leb, ◌==◌, if◌then◌else◌, select, any, take, order_by,
  update_where, head?, length, Bool, true, false, not, ◌&&◌, ◌||◌, List, [], ◌∷◌, ◌++◌, Option,
  none, some, map, Result, ok, err, map_err,
}
use pg_task_scheduler.Error.{SchedulerError, identifier, serde, config}
use pg_task_scheduler.Ids.{JobName, DeduplicationKey, job_name_try_from}
use pg_task_scheduler.Models.Limits.{
  i64_max, LeaseDuration, MaxAttempts, RetryBackoff, lease_duration_default, max_attempts_default,
  retry_backoff_default, lease_to_pg_interval, backoff_to_pg_interval, get,
}
use pg_task_scheduler.Models.Runs.{
  StoredRunState, StoredAttemptOutcome, is_pending, is_running, is_terminal,
}
use pg_task_scheduler.Db.{Db, Run, Attempt, Env, is_value, is_after, same_text}
use pg_task_scheduler.Db.Monad.{
  M, continue, ◌>>=◌, ◌>>◌, return, throw, lift, query, execute, admitted_or_refused,
}
use pg_task_scheduler.Store.Claim.{is_chosen}
use pg_task_scheduler.Store.Finalize.{is_live, close_attempt}

-- An `i16`.
pub record Priority : Type 0 where
  pub value : ℤ

abbrev pub normal : Priority
normal = record { value = pos 0 }

pub data Availability : Type 0 where
  immediate : Availability
  at : ℕ → Availability

pub data Deduplication : Type 0 where
  unkeyed : Deduplication
  key : DeduplicationKey → Deduplication

pub record EnqueueOptions : Type 0 where
  pub availability : Availability
  pub priority : Priority
  pub lease_duration : LeaseDuration
  pub max_attempts : MaxAttempts
  pub retry_backoff : RetryBackoff
  pub deduplication : Deduplication

unfoldable pub default_options : EnqueueOptions
default_options = record {
  availability = immediate;
  priority = normal;
  lease_duration = lease_duration_default;
  max_attempts = max_attempts_default;
  retry_backoff = retry_backoff_default;
  deduplication = unkeyed;
}

unfoldable pub options_at : ℕ → EnqueueOptions
options_at available_at = record default_options { availability = at available_at }

unfoldable pub with_priority : EnqueueOptions → Priority → EnqueueOptions
with_priority o p = record o { priority = p }

unfoldable pub with_lease_duration : EnqueueOptions → LeaseDuration → EnqueueOptions
with_lease_duration o d = record o { lease_duration = d }

unfoldable pub with_max_attempts : EnqueueOptions → MaxAttempts → EnqueueOptions
with_max_attempts o m = record o { max_attempts = m }

unfoldable pub with_retry_backoff : EnqueueOptions → RetryBackoff → EnqueueOptions
with_retry_backoff o b = record o { retry_backoff = b }

unfoldable pub deduplicate : EnqueueOptions → DeduplicationKey → EnqueueOptions
deduplicate o k = record o { deduplication = key k }

pub record EnqueuedTask : Type 0 where
  pub task_id : ℕ

pub data CancelOutcome : Type 0 where
  cancelled already_terminal not_found : CancelOutcome

-- `COALESCE($3, now())`.
abbrev pub start_time : Env → Availability → ℕ
start_time e immediate = e.now
start_time e (at t) = t

abbrev pub key_text : Deduplication → Option Text
key_text unkeyed = none
key_text (key k) = some k.as_str

-- The row that ENQUEUE inserts; its `gen_random_uuid()` is that of row 0.
unfoldable pub enqueued_run : Env → Text → Text → EnqueueOptions → Run
enqueued_run e name args options = record {
  id = e.uuid 0;
  job_id = none;
  scheduled_for = start_time e options.availability;
  attempt_count = 0;
  created_at = e.now;
  updated_at = e.now;
  job_name = name;
  job_args = args;
  available_at = start_time e options.availability;
  priority = options.priority.value;
  state = StoredRunState.pending;
  max_attempts = get options.max_attempts;
  lease_duration = lease_to_pg_interval options.lease_duration;
  retry_backoff = backoff_to_pg_interval options.retry_backoff;
  worker_id = none;
  lease_token = none;
  lease_expires_at = none;
  started_at = none;
  finished_at = none;
  last_error = none;
  deduplication_key = key_text options.deduplication;
}

-- `ON CONFLICT (job_name, deduplication_key)`.
unfoldable pub is_duplicate : Run → Run → Bool
is_duplicate new r =
    text_eq new.job_name r.job_name && same_text new.deduplication_key r.deduplication_key

abbrev pub insert_or_touch : Run → Db → Option Run → Db × ℕ
insert_or_touch new db none = (record db { runs = new ∷ db.runs }, new.id)
insert_or_touch new db (some old) = (
  record db {
    runs =
        update_where (is_duplicate new)
          (λ r. record r { deduplication_key = new.deduplication_key }) db.runs;
  },
  old.id,
)

-- ENQUEUE, which returns the id of the row that it inserted or met.
unfoldable pub enqueue_statement : Run → Db → Db × ℕ
enqueue_statement new db = insert_or_touch new db (head? (select (is_duplicate new) db.runs))

-- `SELECT pg_notify('pg_task_scheduler', '')`.
abbrev pub notify : M (Unit {0})
notify = return tt

unfoldable pub enqueue : Env → Text → Result Text Text → EnqueueOptions → M EnqueuedTask
enqueue e task_name task_args options = do
  name ← lift (map_err identifier (job_name_try_from task_name))
  args ← lift (map_err serde task_args)
  id ← execute (enqueue_statement (enqueued_run e name.as_str args options))
  notify
  return (record { task_id = id })

-- CTE `attempt` of CANCEL: the live attempt of a running target.
unfoldable pub is_cancelled_attempt : List Run → Attempt → Bool
is_cancelled_attempt targets a =
    is_live a.lease_token a
    && any (λ t. is_running t.state && is_value t.lease_token a.lease_token) targets

-- The WHERE clause of CANCEL, given the rows of `target` and `attempt`.
unfoldable pub is_cancelled : ℕ → List Attempt → Run → Bool
is_cancelled task_id attempts r =
    r.id == task_id
    && not (is_terminal r.state)
    && (is_pending r.state || any (λ a. a.run_id == r.id) attempts)

-- The SET list of CANCEL.
unfoldable pub cancel_row : Env → Run → Run
cancel_row e r = record r {
  state = StoredRunState.cancelled;
  worker_id = none;
  lease_token = none;
  lease_expires_at = none;
  started_at = none;
  finished_at = some (e.clock r.id 1);
  last_error = none;
  updated_at = e.clock r.id 2;
}

-- CANCEL, which returns the ids of the rows that it changed.
unfoldable pub cancel_statement : Env → ℕ → Db → Db × List ℕ
cancel_statement e task_id db =
    let targets = select (λ r. r.id == task_id) db.runs in
    let attempts = select (is_cancelled_attempt targets) db.attempts in
    (
      record db {
        runs = update_where (is_cancelled task_id attempts) (cancel_row e) db.runs;
        attempts =
            update_where (is_cancelled_attempt targets)
              (close_attempt e 0 StoredAttemptOutcome.cancelled none) db.attempts;
      },
      map (λ r. r.id) (select (is_cancelled task_id attempts) db.runs),
    )

unfoldable pub exists : ℕ → Db → Bool
exists task_id db = any (λ r. r.id == task_id) db.runs

unfoldable pub cancel_changed : ℕ → List ℕ → M CancelOutcome
cancel_changed task_id (id ∷ ids) = return CancelOutcome.cancelled
cancel_changed task_id [] = do
  found ← query (exists task_id)
  return (if found then CancelOutcome.already_terminal else CancelOutcome.not_found)

unfoldable pub cancel : Env → ℕ → M CancelOutcome
cancel e task_id = do changed ← execute (cancel_statement e task_id); cancel_changed task_id changed

-- `finished_at < $1`.
abbrev pub is_before : Option ℕ → ℕ → Bool
is_before none t = false
is_before (some u) t = ltb u t

-- The WHERE clause of `doomed`, with `SKIP LOCKED`.
unfoldable pub is_prunable : Env → ℕ → Run → Bool
is_prunable e before r =
    is_terminal r.state && is_before r.finished_at before && not (e.locked r.id)

abbrev pub finish : Run → ℕ
finish r = elim r.finished_at [ none ↦ 0 | some t ↦ t ]

-- `ORDER BY finished_at, id`.
unfoldable pub finish_order : Run → Run → Bool
finish_order r s = ltb (finish r) (finish s) || (finish r == finish s && leb r.id s.id)

unfoldable pub doomed : Env → ℕ → ℕ → Db → List Run
doomed e before limit db =
    take limit (order_by finish_order (select (is_prunable e before) db.runs))

-- PRUNE, which returns how many rows it deleted; their attempts go with them (ON DELETE CASCADE).
unfoldable pub prune_statement : Env → ℕ → ℕ → Db → Db × ℕ
prune_statement e before limit db =
    let cs = doomed e before limit db in
    (
      record db {
        runs = select (λ r. not (is_chosen cs r)) db.runs;
        attempts = select (λ a. not (any (λ c. c.id == a.run_id) cs)) db.attempts;
      },
      length (select (is_chosen cs) db.runs),
    )

unfoldable pub prune_terminal : Env → ℕ → ℕ → M ℕ
prune_terminal e before limit =
    if ltb i64_max limit
    then throw (config (codes "retention batch is too large"))
    else execute (prune_statement e before limit)
