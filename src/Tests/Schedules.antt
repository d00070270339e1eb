-- ===== src/Tests/Schedules.antt =====
-- Runs of the schedules' operations on concrete tables.
use pg_task_scheduler.Prelude.{err}
use pg_task_scheduler.Prelude.{
  ◌≡◌, ◌⊎◌, refl, codes, true, false, [], ◌∷◌, some, ok, count, select, order_by, any, pos,
  insert_by,
}
use pg_task_scheduler.Ids.Policy.{name_check, starts, ends, is_posix_space}
use pg_task_scheduler.Models.Jobs.{Job, is_paused, job_try_from, job_try_from_lem}
use pg_task_scheduler.Models.Limits.{
  from_microseconds, lease_to_pg_interval, to_i32, backoff_to_pg_interval,
}
use pg_task_scheduler.Error.{corrupt_job, cron_text}
use pg_task_scheduler.Prelude.{Text, pos, ◌⊎◌, any, insert_by}
use pg_task_scheduler.Cron.{parse_inner}
use pg_task_scheduler.Db.{SchedulerJob, job_check, job_conflict}
use pg_task_scheduler.Ids.Policy.{name_check, starts, ends, is_posix_space}
use pg_task_scheduler.Store.Materialize.{materialize_one, due_job, is_due}
use pg_task_scheduler.Store.Materialize.Tick.{tick, materialize_one_lem}
use pg_task_scheduler.Tests.Done.{hourly}
use pg_task_scheduler.History.{idle_db}
use pg_task_scheduler.Prelude.{all, unique}
use pg_task_scheduler.Db.{admits}
use pg_task_scheduler.Tests.Data.{at_time}

-- A schedule that is due at the time 200.
abbrev pub due_report : SchedulerJob
due_report = record {
  id = 7;
  name = codes "report";
  cron_expression = codes "0 * * * *";
  job_args = [];
  next_run_at = 150;
  lease_duration = from_microseconds (pos 300000000);
  max_attempts = pos 3;
  is_paused = false;
  created_at = 0;
  updated_at = 0;
  retry_backoff = from_microseconds (pos 1000000);
}

due_report-job_check : job_check due_report ≡ true
unfolding job_check name_check starts ends is_posix_space
due_report-job_check = refl

pub due_report-admits : admits (idle_db (due_report ∷ [])) ≡ true
unfolding admits all unique any job_check job_conflict name_check starts ends is_posix_space
due_report-admits = refl

materialize_one_lem_example :
    materialize_one hourly (at_time 200) (idle_db (due_report ∷ []))
    ≡ tick hourly (at_time 200) (idle_db (due_report ∷ [])) (some due_report)
unfolding count due_job order_by insert_by select is_due
materialize_one_lem_example =
    materialize_one_lem hourly (at_time 200) (idle_db (due_report ∷ [])) refl due_report-admits

job_try_from_lem_example :
    ((j : Job hourly) × (job_try_from hourly due_report ≡ ok j)
      × (parse_inner hourly due_report.cron_expression ≡ ok j.cron)
      × (j.id ≡ due_report.id)
      × (j.name.as_str ≡ due_report.name)
      × (j.next_run_at ≡ due_report.next_run_at)
      × (j.created_at ≡ due_report.created_at)
      × (j.updated_at ≡ due_report.updated_at)
      × (lease_to_pg_interval j.lease_duration ≡ due_report.lease_duration)
      × (to_i32 j.max_attempts ≡ due_report.max_attempts)
      × (backoff_to_pg_interval j.retry_backoff ≡ due_report.retry_backoff)
      × (is_paused j.lifecycle ≡ due_report.is_paused))
    ⊎ ((detail : Text) × (parse_inner hourly due_report.cron_expression ≡ err detail)
        × (job_try_from hourly due_report ≡ err (corrupt_job due_report.id (cron_text detail))))
job_try_from_lem_example = job_try_from_lem hourly due_report due_report-job_check
