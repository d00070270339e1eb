-- ===== src/Tests/Done.antt =====
-- The task of the concrete tables after its completion, and what the operations ask of them.
use pg_task_scheduler.Cron.{Croner}
use pg_task_scheduler.Prelude.{◌/◌, ◌*◌, ok, ◌+◌}
use pg_task_scheduler.Prelude.{
  ◌≡◌, refl, arith, [], ◌∷◌, none, some, count, select, any, update_where, all, unique, subst,
}
use pg_task_scheduler.Ids.Policy.{name_check, starts, ends, is_posix_space}
use pg_task_scheduler.Models.Runs.{Outcome, StoredRunState, StoredAttemptOutcome}
use pg_task_scheduler.Db.{
  Db, Run, admits, run_check, attempts_check, state_check, run_conflict, attempt_check,
  outcome_check, attempt_conflict, references, job_check, job_conflict,
}
use pg_task_scheduler.Consistency.{IsConsistent}
use pg_task_scheduler.Store.Claim.Leases.{IsFresh}
use pg_task_scheduler.Store.Finalize.{
  holds_lease, finalize_run, is_live, finalize_statement, finalize_row, finalize_applied,
  record_attempt, close_attempt,
}
use pg_task_scheduler.Store.Finalize.Completion.{finalize_run-IsConsistent}
use pg_task_scheduler.Store.Finalize.Renewal.{HasStarted}
use pg_task_scheduler.Store.Finalize.Stale.{IsStored}
use pg_task_scheduler.Tests.Data.{at_time, waiting, task, first_attempt, busy, busy-IsConsistent}

pub waiting-IsFresh : IsFresh (at_time 200) waiting
unfolding count
waiting-IsFresh = record {
  monotone = λ id. omega arith;
  unused = λ id. refl;
  distinct = λ i j h. omega arith;
}

pub busy-HasStarted : HasStarted (at_time 300) busy
busy-HasStarted = record { runs = (refl, tt); attempts = (λ id. omega arith, tt) }

pub task-IsStored : IsStored task busy
unfolding count
task-IsStored q h = ground (arith, h)

-- The task of `busy` after it completed at the time 300.
abbrev pub done_task : Run
done_task = record task {
  state = StoredRunState.completed;
  updated_at = 302;
  worker_id = none;
  lease_token = none;
  lease_expires_at = none;
  started_at = none;
  finished_at = some 301;
}

abbrev pub done : Db
done = record {
  jobs = [];
  runs = done_task ∷ [];
  attempts =
      (record first_attempt {
        finished_at = some 303;
        outcome = some StoredAttemptOutcome.completed;
      })
      ∷ [];
}

pub finalized_done : (finalize_run (at_time 300) 1000 2000 Outcome.completed busy).0 ≡ done
unfolding finalize_run finalize_statement holds_lease finalize_row finalize_applied record_attempt
    close_attempt update_where select is_live count admits all unique any run_check name_check
    starts ends is_posix_space attempts_check state_check run_conflict attempt_check outcome_check
    attempt_conflict references job_check job_conflict
finalized_done = refl

pub done-IsConsistent : IsConsistent done
done-IsConsistent =
    subst IsConsistent finalized_done
      (finalize_run-IsConsistent (at_time 300) 1000 2000 Outcome.completed busy busy-IsConsistent)

-- A cron expression that holds at every full hour, whatever its text.
abbrev pub hourly : Croner
hourly = record {
  Schedule = Unit {0};
  parse = λ source. ok tt;
  find_next_occurrence = λ schedule after. ok ((after / 3600000000 + 1) * 3600000000);
  detail = λ source e. e;
}
