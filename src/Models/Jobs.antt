-- ===== src/Models/Jobs.antt =====
-- src/models.rs: the lifecycle of a schedule, and its projection from a row of `scheduler_jobs`.
use pg_task_scheduler.Prelude.{
  ℕ, ◌≡◌, ◌⊎◌, refl, arith, inl, inr, Text, Bool, true, false, if◌then◌else◌, Result, Result-cases,
  ok, err, map_err,
}
use pg_task_scheduler.Prelude.{◌>>=◌ as bind_result}
use pg_task_scheduler.Error.{
  SchedulerError, corrupt_job, cron_text, lease_duration_error, max_attempts_error,
}
use pg_task_scheduler.Ids.{JobName}
use pg_task_scheduler.Models.Limits.{
  LeaseDuration, MaxAttempts, RetryBackoff, lease_from_pg_interval, from_db_i32,
  backoff_from_pg_interval, lease_to_pg_interval, backoff_to_pg_interval, to_i32,
}
use pg_task_scheduler.Db.{SchedulerJob, job_check}
use pg_task_scheduler.Cron.{Croner, CronExpression, parse_inner, parse_stored}

pub data JobLifecycle : Type 0 where
  active paused : JobLifecycle

unfoldable pub is_paused : JobLifecycle → Bool
is_paused paused = true
is_paused active = false

unfoldable pub from_paused : Bool → JobLifecycle
from_paused b = if b then paused else active

pub record Job (croner : Croner) : Type 0 where
  pub id : ℕ
  pub name : JobName
  pub cron : CronExpression croner
  pub lease_duration : LeaseDuration
  pub max_attempts : MaxAttempts
  pub retry_backoff : RetryBackoff
  pub lifecycle : JobLifecycle
  pub next_run_at : ℕ
  pub created_at : ℕ
  pub updated_at : ℕ

-- `TryFrom<SchedulerJob> for Job`.
unfoldable pub job_try_from : (croner : Croner) → SchedulerJob → Result SchedulerError (Job croner)
job_try_from croner row = bind_result (parse_stored croner row.id row.cron_expression) λ cron.
    bind_result
      (map_err (λ e. corrupt_job row.id (lease_duration_error e))
        (lease_from_pg_interval row.lease_duration))
      λ lease_duration.
        bind_result
          (map_err (λ e. corrupt_job row.id (max_attempts_error e)) (from_db_i32 row.max_attempts))
          λ max_attempts.
            bind_result
              (map_err (λ e. corrupt_job row.id (lease_duration_error e))
                (backoff_from_pg_interval row.retry_backoff))
              λ retry_backoff. ok (record {
                id = row.id;
                name = record { as_str = row.name };
                cron = cron;
                lease_duration = lease_duration;
                max_attempts = max_attempts;
                retry_backoff = retry_backoff;
                lifecycle = from_paused row.is_paused;
                next_run_at = row.next_run_at;
                created_at = row.created_at;
                updated_at = row.updated_at;
              })

-- A row that passes the CHECKs of `scheduler_jobs` is projected without loss, but for the arguments,
-- which a schedule does not show: its cron expression is the parsed one, and every other field reads
-- as it is stored. If the cron expression does not parse, which is the only corruption that the
-- CHECKs leave open, the projection fails with the parser's detail.
pub job_try_from_lem :
    (croner : Croner) (row : SchedulerJob)
    → job_check row ≡ true
    → ((j : Job croner) × (job_try_from croner row ≡ ok j)
        × (parse_inner croner row.cron_expression ≡ ok j.cron)
        × (j.id ≡ row.id)
        × (j.name.as_str ≡ row.name)
        × (j.next_run_at ≡ row.next_run_at)
        × (j.created_at ≡ row.created_at)
        × (j.updated_at ≡ row.updated_at)
        × (lease_to_pg_interval j.lease_duration ≡ row.lease_duration)
        × (to_i32 j.max_attempts ≡ row.max_attempts)
        × (backoff_to_pg_interval j.retry_backoff ≡ row.retry_backoff)
        × (is_paused j.lifecycle ≡ row.is_paused))
      ⊎ ((detail : Text) × (parse_inner croner row.cron_expression ≡ err detail)
          × (job_try_from croner row ≡ err (corrupt_job row.id (cron_text detail))))
unfolding job_check job_try_from parse_stored lease_from_pg_interval from_db_i32
    backoff_from_pg_interval lease_to_pg_interval backoff_to_pg_interval to_i32 is_paused
    from_paused
job_try_from_lem croner row h = elim (Result-cases (parse_inner croner row.cron_expression)) [
  | inl (detail, bad) ↦ inr (detail, bad, rw bad refl)
  | inr (cron, good) ↦ elim (Result-cases (job_try_from croner row)) [
    | inl (e, bad) ↦ absurd (ground (arith, good))
    | inr (j, made) ↦ inl (
      j,
      made,
      ground (arith, good),
      ground (arith, good),
      ground (arith, good),
      ground (arith, good),
      ground (arith, good),
      ground (arith, good),
      ground (arith, good),
      ground (arith, good),
      ground (arith, good),
      ground (arith, good),
    )
  ]
]
