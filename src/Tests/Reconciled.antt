-- ===== src/Tests/Reconciled.antt =====
-- Runs of the operations on schedules and of the routes over them on concrete tables.
use pg_task_scheduler.Prelude.{
  ◌≡◌, ◌≤◌, refl, arith, codes, Text, true, false, [], ◌∷◌, some, ok, count, select, text_eq,
}
use pg_task_scheduler.Ids.Policy.{name_check, starts, ends, is_posix_space}
use pg_task_scheduler.Error.{SchedulerError}
use pg_task_scheduler.Models.Jobs.{JobLifecycle}
use pg_task_scheduler.Db.{Db}
use pg_task_scheduler.Cron.{parse_inner, next_after}
use pg_task_scheduler.Store.Materialize.{due_job}
use pg_task_scheduler.Jobs.{CreateJob, ensure_job, reschedule, reset_from_now, set_paused, has_name}
use pg_task_scheduler.Jobs.Writes.{IsValidSpec, reconciled, ensure_job_lem}
use pg_task_scheduler.Jobs.Readback.{IsReadBack, ensure_job-get}
use pg_task_scheduler.Jobs.Moves.{moved, reschedule_lem, is_of, pause-not_due}
use pg_task_scheduler.History.{ensures, idle_db}
use pg_task_scheduler.History.Reachable.{idle_db-IsConsistent}
use pg_task_scheduler.History.Cursors.{has_cursor, moves_cursor, Step-keeps_cursor}
use pg_task_scheduler.Tests.Data.{at_time}
use pg_task_scheduler.Tests.Done.{hourly}
use pg_task_scheduler.Tests.Schedules.{due_report, due_report-admits}

-- The schedule of the tables, declared again with more attempts.
abbrev spec : CreateJob hourly
spec = record {
  name = record { as_str = codes "report" };
  cron = record { source = codes "0 * * * *"; schedule = tt };
  args = codes "{}";
  lease_duration = record { micros = 300000000 };
  max_attempts = record { count = 5 };
  lifecycle = JobLifecycle.active;
  retry_backoff = record { micros = 0 };
}

spec-IsValidSpec : IsValidSpec hourly spec
unfolding name_check starts ends is_posix_space parse_inner
spec-IsValidSpec = record {
  named = refl;
  parsed = refl;
  lease = omega arith;
  attempts = omega arith;
}

abbrev declared : Db
declared = idle_db (due_report ∷ [])

ensure_job_lem_example :
    ensure_job hourly (at_time 200) spec declared
    ≡ reconciled hourly (at_time 200) spec declared due_report
unfolding count select has_name text_eq next_after
ensure_job_lem_example =
    ensure_job_lem hourly (at_time 200) spec spec-IsValidSpec declared due_report-admits refl

ensure_job-get_example :
    IsReadBack hourly (at_time 200) spec declared (ensure_job hourly (at_time 200) spec declared)
unfolding next_after count
ensure_job-get_example =
    ensure_job-get hourly (at_time 200) spec spec-IsValidSpec declared 3600000000 due_report-admits
      refl refl

Step-keeps_cursor_example :
    count (has_cursor 7 150) declared.jobs
    ≤ count (has_cursor 7 150) (ensure_job hourly (at_time 200) spec declared).0.jobs
unfolding moves_cursor
Step-keeps_cursor_example =
    Step-keeps_cursor hourly declared (ensure_job hourly (at_time 200) spec declared).0
      (ensures declared (at_time 200) spec) 7 150
      (idle_db-IsConsistent (due_report ∷ []) due_report-admits) refl

reschedule_lem_example :
    reschedule hourly (at_time 200) 7 reset_from_now declared
    ≡ moved hourly (at_time 200) 7 declared (ok (some 3600000000))
unfolding select
reschedule_lem_example =
    reschedule_lem hourly (at_time 200) 7 reset_from_now declared due_report-admits

pause-not_due_example :
    is_of 7 (due_job (at_time 500) (set_paused (at_time 200) 7 true declared).0) ≡ false
pause-not_due_example = pause-not_due (at_time 200) (at_time 500) 7 declared due_report-admits

abbrev unsaid : SchedulerError → Text
unsaid error = []
