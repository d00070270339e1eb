-- ===== src/Models/Runs.antt =====
-- src/models.rs: the stored states of a run and of an attempt, and what the store hands out.
-- A UUID and a timestamp are natural numbers: a timestamp counts microseconds from the first instant
-- that PostgreSQL can hold. A JSON value, which the store never looks into, is its text.
use pg_task_scheduler.Prelude.{ℕ, Text, Bool, true, false, Option}
use pg_task_scheduler.Ids.{JobName, WorkerId}
use pg_task_scheduler.Models.Limits.{LeaseDuration}

pub data StoredRunState : Type 0 where
  pending running completed failed cancelled : StoredRunState

pub data StoredAttemptOutcome : Type 0 where
  completed failed expired cancelled : StoredAttemptOutcome

abbrev pub is_pending : StoredRunState → Bool
is_pending pending = true
is_pending _ = false

abbrev pub is_running : StoredRunState → Bool
is_running running = true
is_running _ = false

-- `state IN ('completed', 'failed', 'cancelled')`.
abbrev pub is_terminal : StoredRunState → Bool
is_terminal pending = false
is_terminal running = false
is_terminal _ = true

pub record Lease : Type 0 where
  pub worker_id : WorkerId
  pub lease_token : ℕ
  pub lease_expires_at : ℕ
  pub started_at : ℕ

pub data RunState : Type 0 where
  pending : RunState
  running : Lease → RunState
  completed : ℕ → RunState
  failed : ℕ → Text → RunState
  cancelled : ℕ → RunState

pub data AttemptState : Type 0 where
  running completed : AttemptState
  failed expired : Option Text → AttemptState
  cancelled : AttemptState

pub record TaskAttempt : Type 0 where
  pub attempt : ℕ
  pub worker_id : WorkerId
  pub started_at : ℕ
  pub lease_expires_at : ℕ
  pub finished_at : Option ℕ
  pub state : AttemptState

pub record ClaimedRun : Type 0 where
  pub run_id : ℕ
  pub job_id : Option ℕ
  pub job_name : JobName
  pub job_args : Text
  pub scheduled_for : ℕ
  pub attempt : ℕ
  pub lease_token : ℕ
  pub lease_expires_at : ℕ
  pub lease_duration : LeaseDuration

pub data Outcome : Type 0 where
  completed : Outcome
  failed : Text → Outcome

pub data FinalizeOutcome : Type 0 where
  applied fenced already_terminal : FinalizeOutcome

pub data FailureOutcome : Type 0 where
  retried : ℕ → FailureOutcome
  failed fenced already_terminal : FailureOutcome

pub data RenewalOutcome : Type 0 where
  renewed : ℕ → RenewalOutcome
  fenced : RenewalOutcome
