-- ===== src/Tests/Data.antt =====
-- Concrete tables: one task is enqueued, and then claimed.
use pg_task_scheduler.Prelude.{
  ℕ, ◌≡◌, ◌+◌, refl, arith, Text, codes, false, [], ◌∷◌, none, some, ok, count, select, order_by,
  any, text_eq, pos, unique, all,
}
use pg_task_scheduler.Ids.{
  WorkerId, job_name_try_from, validate_identifier, trim, trim_end, trim_start, is_whitespace,
}
use pg_task_scheduler.Models.Limits.{
  lease_duration_default, max_attempts_default, from_microseconds,
}
use pg_task_scheduler.Ids.Policy.{name_check}
use pg_task_scheduler.Models.Runs.{StoredRunState}
use pg_task_scheduler.Db.{
  Db, Env, Run, Attempt, admits, run_check, attempts_check, state_check, run_conflict,
  attempt_check, outcome_check, attempt_conflict, references, job_check, job_conflict,
}
use pg_task_scheduler.Ids.Policy.{starts, ends, is_posix_space}
use pg_task_scheduler.Models.Limits.{
  get, lease_to_pg_interval, backoff_to_pg_interval, retry_backoff_default, lease_from_pg_interval,
}
use pg_task_scheduler.Queue.{enqueue_statement, enqueued_run, is_duplicate}
use pg_task_scheduler.Store.Claim.{
  claim_statement, candidates, claimable, claim_order, is_chosen, claim_row, claim_attempt,
  claimed_row, returned_order, to_claimed_run,
}
use pg_task_scheduler.Store.Finalize.{is_live}
use pg_task_scheduler.Consistency.{is_holder, is_live_of, is_counted}
use pg_task_scheduler.Prelude.{insert_by, collect, update_where}
use pg_task_scheduler.Consistency.{IsConsistent}
use pg_task_scheduler.History.{idle_db}
use pg_task_scheduler.Queue.{default_options, enqueue}
use pg_task_scheduler.Queue.Enqueueing.{IsValidOptions}
use pg_task_scheduler.Store.Claim.{claim_batch}

abbrev pub at_time : ℕ → Env
at_time t = record { now = t; clock = λ id k. t + k; uuid = λ id. id + 1000; locked = λ id. false }

abbrev pub mail : Text
mail = codes "mail"

abbrev pub mailer : WorkerId
mailer = record { as_str = codes "w1" }

pub default-IsValidOptions : IsValidOptions default_options
unfolding default_options lease_duration_default max_attempts_default
default-IsValidOptions = record { lease = omega arith; attempts = omega arith; key = refl }

pub mail_named : job_name_try_from mail ≡ ok (record { as_str = mail })
unfolding job_name_try_from validate_identifier text_eq trim trim_end trim_start is_whitespace
mail_named = refl

-- One pending task, as it is enqueued at the time 100 with the default options.
abbrev pub queued_task : Run
queued_task = record {
  id = 1000;
  job_id = none;
  scheduled_for = 100;
  attempt_count = 0;
  created_at = 100;
  updated_at = 100;
  job_name = mail;
  job_args = [];
  available_at = 100;
  priority = pos 0;
  state = StoredRunState.pending;
  max_attempts = 3;
  lease_duration = from_microseconds (pos 300000000);
  retry_backoff = from_microseconds (pos 1000000);
  worker_id = none;
  lease_token = none;
  lease_expires_at = none;
  started_at = none;
  finished_at = none;
  last_error = none;
  deduplication_key = none;
}

abbrev pub waiting : Db
waiting = record { jobs = []; runs = queued_task ∷ []; attempts = [] }

pub enqueued_waiting : (enqueue (at_time 100) mail (ok []) default_options (idle_db [])).0 ≡ waiting
unfolding enqueue enqueue_statement enqueued_run is_duplicate job_name_try_from validate_identifier
    text_eq trim trim_end trim_start is_whitespace get lease_to_pg_interval backoff_to_pg_interval
    default_options lease_duration_default max_attempts_default retry_backoff_default select admits
    all unique any run_check name_check starts ends is_posix_space attempts_check state_check
    run_conflict attempt_check outcome_check attempt_conflict references job_check job_conflict
enqueued_waiting = refl

-- The task under a lease: claimed by the worker "w1" at the time 200.
abbrev pub task : Run
task = record {
  id = 1000;
  job_id = none;
  scheduled_for = 100;
  attempt_count = 1;
  created_at = 100;
  updated_at = 202;
  job_name = mail;
  job_args = [];
  available_at = 100;
  priority = pos 0;
  state = StoredRunState.running;
  max_attempts = 3;
  lease_duration = from_microseconds (pos 300000000);
  retry_backoff = from_microseconds (pos 1000000);
  worker_id = some mailer.as_str;
  lease_token = some 2000;
  lease_expires_at = some 300000201;
  started_at = some 200;
  finished_at = none;
  last_error = none;
  deduplication_key = none;
}

abbrev pub first_attempt : Attempt
first_attempt = record {
  run_id = 1000;
  attempt_number = 1;
  worker_id = mailer.as_str;
  lease_token = 2000;
  started_at = 200;
  lease_expires_at = 300000201;
  finished_at = none;
  outcome = none;
  error = none;
}

abbrev pub busy : Db
busy = record { jobs = []; runs = task ∷ []; attempts = first_attempt ∷ [] }

pub claimed_busy : (claim_batch (at_time 200) mailer (mail ∷ []) 5 waiting).0 ≡ busy
unfolding claim_batch claim_statement candidates claimable claim_order order_by insert_by is_chosen
    claim_row claim_attempt claimed_row returned_order to_claimed_run lease_from_pg_interval collect
    update_where select text_eq admits all unique any run_check name_check starts ends
    is_posix_space attempts_check state_check run_conflict attempt_check outcome_check
    attempt_conflict references job_check job_conflict
claimed_busy = refl

pub waiting-IsConsistent : IsConsistent waiting
unfolding admits all unique any run_check name_check starts ends is_posix_space attempts_check
    state_check run_conflict attempt_check outcome_check attempt_conflict references job_check
    job_conflict count is_holder is_live_of is_live is_counted
waiting-IsConsistent = record { admitted = refl; linked = λ i t. ground arith; counted = refl }

pub busy-IsConsistent : IsConsistent busy
unfolding admits all unique any run_check name_check starts ends is_posix_space attempts_check
    state_check run_conflict attempt_check outcome_check attempt_conflict references job_check
    job_conflict count is_holder is_live_of is_live is_counted
busy-IsConsistent = record { admitted = refl; linked = λ i t. ground arith; counted = refl }
