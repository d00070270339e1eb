-- ===== src/Error.antt =====
-- src/error.rs: the crate's error types. An error of serde, the pool or croner is its text;
-- `diesel::result::Error` is known by the two cases that the code meets or tells apart.
use pg_task_scheduler.Prelude.{ℕ, Text, Bool, true, false}
use pg_task_scheduler.Ids.{IdentifierError, JobName}
use pg_task_scheduler.Models.Limits.{LeaseDurationError, MaxAttemptsError}

pub data DbError : Type 0 where
  not_found constraint_violation : DbError

pub data CorruptJobRow : Type 0 where
  cron_text : Text → CorruptJobRow
  lease_duration_error : LeaseDurationError → CorruptJobRow
  max_attempts_error : MaxAttemptsError → CorruptJobRow

pub record DuplicateJobName : Type 0 where
  pub name : JobName

pub data RegisterError : Type 0 where
  name_error : IdentifierError → RegisterError
  duplicate : DuplicateJobName → RegisterError

pub data SchedulerError : Type 0 where
  database : DbError → SchedulerError
  pool cron config serde invariant : Text → SchedulerError
  identifier : IdentifierError → SchedulerError
  register : RegisterError → SchedulerError
  corrupt_job : ℕ → CorruptJobRow → SchedulerError

-- The boxed source is its message.
pub record JobError : Type 0 where
  pub source : Text
  pub retryable : Bool

unfoldable pub permanent : Text → JobError
permanent message = record { source = message; retryable = false }

unfoldable pub msg : Text → JobError
unfolding permanent
msg message = permanent message

unfoldable pub retry : Text → JobError
retry message = record { source = message; retryable = true }

-- `From<E: std::error::Error>`, at the error's `Display`.
unfoldable pub from_error : Text → JobError
from_error e = record { source = e; retryable = false }

unfoldable pub is_retryable : JobError → Bool
is_retryable e = e.retryable
