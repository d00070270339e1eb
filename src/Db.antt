-- ===== src/Db.antt =====
-- migrations/0001_create_scheduler_tables/up.sql: the tables, their CHECKs and unique indexes, and
-- the effect of a statement and of a transaction.
-- A statement runs at one instant: rows that other transactions have locked, the clock and the
-- generated UUIDs come from its `Env`. Columns that a CHECK keeps from being negative are natural
-- numbers. A statement after which a constraint fails is refused and changes nothing.
pub mod Monad
pub mod Updates
pub mod Frames
use pg_task_scheduler.Prelude.{
  ℕ, suc, ◌+◌, ◌-◌, ◌≤◌, ℤ, pos, pos_part, neg_part, ltb_ℤ, is_zero_ℤ, Text, text_eq, ltb, leb,
  ◌==◌, length, is_null, is_some, all, any, unique, Bool, true, false, not, ◌&&◌, ◌||◌, List, [],
  ◌∷◌, Option, none, some,
}
use pg_task_scheduler.Ids.Policy.{name_check}
use pg_task_scheduler.Models.Limits.{PgInterval}
use pg_task_scheduler.Models.Runs.{StoredRunState, StoredAttemptOutcome}

-- A row of `scheduler_jobs`.
pub record SchedulerJob : Type 0 where
  pub id : ℕ
  pub name : Text
  pub cron_expression : Text
  pub job_args : Text
  pub next_run_at : ℕ
  pub lease_duration : PgInterval
  pub max_attempts : ℤ
  pub is_paused : Bool
  pub created_at : ℕ
  pub updated_at : ℕ
  pub retry_backoff : PgInterval

-- A row of `scheduler_runs`.
pub record Run : Type 0 where
  pub id : ℕ
  pub job_id : Option ℕ
  pub scheduled_for : ℕ
  pub attempt_count : ℕ
  pub created_at : ℕ
  pub updated_at : ℕ
  pub job_name : Text
  pub job_args : Text
  pub available_at : ℕ
  pub priority : ℤ
  pub state : StoredRunState
  pub max_attempts : ℕ
  pub lease_duration : PgInterval
  pub retry_backoff : PgInterval
  pub worker_id : Option Text
  pub lease_token : Option ℕ
  pub lease_expires_at : Option ℕ
  pub started_at : Option ℕ
  pub finished_at : Option ℕ
  pub last_error : Option Text
  pub deduplication_key : Option Text

-- A row of `scheduler_run_attempts`.
pub record Attempt : Type 0 where
  pub run_id : ℕ
  pub attempt_number : ℕ
  pub worker_id : Text
  pub lease_token : ℕ
  pub started_at : ℕ
  pub lease_expires_at : ℕ
  pub finished_at : Option ℕ
  pub outcome : Option StoredAttemptOutcome
  pub error : Option Text

pub record Db : Type 0 where
  pub jobs : List SchedulerJob
  pub runs : List Run
  pub attempts : List Attempt

-- What a statement takes from the server: `now()`, the k-th `clock_timestamp()` that it evaluates
-- on the row with a given id, `gen_random_uuid()` on that row, and the rows that `SKIP LOCKED`
-- leaves out.
pub record Env : Type 0 where
  pub now : ℕ
  pub clock : ℕ → ℕ → ℕ
  pub uuid : ℕ → ℕ
  pub locked : ℕ → Bool

-- `timestamp + interval`, for an interval of microseconds alone, as the CHECKs want every one.
abbrev pub add_interval : ℕ → PgInterval → ℕ
add_interval t iv = t + pos_part iv.microseconds - neg_part iv.microseconds

-- `a = b` in SQL, false where `a` is NULL.
abbrev pub is_value : Option ℕ → ℕ → Bool
is_value none t = false
is_value (some u) t = u == t

-- `a > b` in SQL, false where `a` is NULL.
abbrev pub is_after : Option ℕ → ℕ → Bool
is_after none t = false
is_after (some u) t = ltb t u

abbrev pub no_calendar_part : PgInterval → Bool
no_calendar_part iv = is_zero_ℤ iv.months && is_zero_ℤ iv.days

abbrev pub lease_duration_check : PgInterval → Bool
lease_duration_check iv = no_calendar_part iv && ltb 0 (pos_part iv.microseconds)

abbrev pub retry_backoff_check : PgInterval → Bool
retry_backoff_check iv = no_calendar_part iv && neg_part iv.microseconds == 0

-- A CHECK on a column that may be NULL.
abbrev pub null_or : (Text → Bool) → Option Text → Bool
null_or c none = true
null_or c (some s) = c s

abbrev pub key_check : Text → Bool
key_check s = leb 1 (length s) && leb (length s) 255

-- scheduler_runs_attempts_check.
unfoldable pub attempts_check : StoredRunState → ℕ → ℕ → Bool
attempts_check StoredRunState.pending n m = leb 1 m && leb n m && ltb n m
attempts_check _ n m = leb 1 m && leb n m

abbrev no_lease : Run → Bool
no_lease r =
    is_null r.worker_id
    && is_null r.lease_token
    && is_null r.lease_expires_at
    && is_null r.started_at

abbrev whole_lease : Option Text → Option ℕ → Option ℕ → Option ℕ → Bool
whole_lease (some w) (some t) (some e) (some s) = ltb s e
whole_lease _ _ _ _ = false

-- scheduler_runs_state_check.
unfoldable pub state_check : StoredRunState → Run → Bool
state_check StoredRunState.pending r = no_lease r && is_null r.finished_at && is_null r.last_error
state_check StoredRunState.running r =
    whole_lease r.worker_id r.lease_token r.lease_expires_at r.started_at
    && is_null r.finished_at
    && is_null r.last_error
state_check StoredRunState.completed r = no_lease r && is_some r.finished_at && is_null r.last_error
state_check StoredRunState.failed r = no_lease r && is_some r.finished_at && is_some r.last_error
state_check StoredRunState.cancelled r = no_lease r && is_some r.finished_at && is_null r.last_error

-- The CHECKs of `scheduler_runs`.
unfoldable pub run_check : Run → Bool
run_check r =
    name_check r.job_name
    && null_or name_check r.worker_id
    && attempts_check r.state r.attempt_count r.max_attempts
    && lease_duration_check r.lease_duration
    && retry_backoff_check r.retry_backoff
    && null_or key_check r.deduplication_key
    && state_check r.state r

-- scheduler_attempt_terminal_check and scheduler_attempt_error_check.
unfoldable pub outcome_check : Option StoredAttemptOutcome → Option ℕ → Option Text → Bool
outcome_check none f e = is_null f && is_null e
outcome_check (some StoredAttemptOutcome.completed) f e = is_some f && is_null e
outcome_check (some StoredAttemptOutcome.failed) f e = is_some f
outcome_check (some StoredAttemptOutcome.expired) f e = is_some f
outcome_check (some StoredAttemptOutcome.cancelled) f e = is_some f && is_null e

-- The CHECKs of `scheduler_run_attempts`.
unfoldable pub attempt_check : Attempt → Bool
attempt_check a =
    leb 1 a.attempt_number
    && name_check a.worker_id
    && ltb a.started_at a.lease_expires_at
    && outcome_check a.outcome a.finished_at a.error

-- The CHECKs of `scheduler_jobs`.
unfoldable pub job_check : SchedulerJob → Bool
job_check j =
    name_check j.name
    && lease_duration_check j.lease_duration
    && ltb_ℤ (pos 0) j.max_attempts
    && retry_backoff_check j.retry_backoff

-- `a = b` in a unique index over columns that are not NULL.
abbrev pub same_value : Option ℕ → Option ℕ → Bool
same_value (some a) (some b) = a == b
same_value _ _ = false

abbrev pub same_text : Option Text → Option Text → Bool
same_text (some a) (some b) = text_eq a b
same_text _ _ = false

-- The primary key and the two partial unique indexes of `scheduler_runs`.
unfoldable pub run_conflict : Run → Run → Bool
run_conflict r s =
    r.id == s.id
    || (same_value r.job_id s.job_id && r.scheduled_for == s.scheduled_for)
    || (text_eq r.job_name s.job_name && same_text r.deduplication_key s.deduplication_key)

-- The primary key and the unique column of `scheduler_run_attempts`.
unfoldable pub attempt_conflict : Attempt → Attempt → Bool
attempt_conflict a b =
    (a.run_id == b.run_id && a.attempt_number == b.attempt_number) || a.lease_token == b.lease_token

unfoldable pub job_conflict : SchedulerJob → SchedulerJob → Bool
job_conflict i j = i.id == j.id || text_eq i.name j.name

-- `run_id UUID NOT NULL REFERENCES scheduler_runs (id)`.
unfoldable pub references : List Run → Attempt → Bool
references runs a = any (λ r. r.id == a.run_id) runs

-- Every constraint of the schema holds.
unfoldable pub admits : Db → Bool
admits db =
    (all run_check db.runs && unique run_conflict db.runs)
    && (all attempt_check db.attempts && unique attempt_conflict db.attempts)
    && all (references db.runs) db.attempts
    && (all job_check db.jobs && unique job_conflict db.jobs)
