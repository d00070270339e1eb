-- ===== src/Tests/Operations.antt =====
-- Runs of the operations on the concrete tables.
use pg_task_scheduler.Prelude.{
  ◌≡◌, refl, arith, codes, true, not, ◌&&◌, [], ◌∷◌, ok, count, select, order_by, any, pos,
  insert_by, text_eq,
}
use pg_task_scheduler.Ids.{validate_identifier, trim, trim_end, trim_start, is_whitespace}
use pg_task_scheduler.Ids.Policy.{name_check, starts, ends, is_posix_space}
use pg_task_scheduler.Models.Limits.{lease_duration_try_from, max_attempts_try_from}
use pg_task_scheduler.Models.Runs.{Outcome, FinalizeOutcome, FailureOutcome, RenewalOutcome}
use pg_task_scheduler.Prelude.{pos, any, insert_by}
use pg_task_scheduler.Ids.Policy.{name_check, starts, ends, is_posix_space}
use pg_task_scheduler.Ids.{DeduplicationKey, deduplication_key_try_from}
use pg_task_scheduler.Queue.Options.{builders-IsValidOptions}
use pg_task_scheduler.Queue.Enqueueing.{IsValidOptions}
use pg_task_scheduler.Queue.{
  options_at, with_priority, with_lease_duration, with_max_attempts, with_retry_backoff,
  deduplicate,
}
use pg_task_scheduler.Queue.{default_options, cancel, CancelOutcome}
use pg_task_scheduler.Queue.Cancellation.{is_open}
use pg_task_scheduler.Queue.Cancelled.{cancelled_task, cancel-exact}
use pg_task_scheduler.Store.Finalize.{
  holds_lease, finalize_run, fail_run, renew_lease, terminal, is_live, finalize_statement,
  finalize_row, finalize_applied, record_attempt, close_attempt,
}
use pg_task_scheduler.Store.Finalize.Completion.{finalized, finalize_run_lem}
use pg_task_scheduler.Store.Finalize.Failure.{failed, fail_run_lem}
use pg_task_scheduler.Store.Finalize.Renewal.{renewed, renew_lease_lem}
use pg_task_scheduler.Store.Reap.{recover_expired}
use pg_task_scheduler.Store.Reap.Recovery.{recovered, has_retry, is_given_up, recover_expired_lem}
use pg_task_scheduler.Store.Inspect.{task_attempts}
use pg_task_scheduler.Store.Inspect.Reading.{view, task_attempts_lem}
use pg_task_scheduler.Tests.Data.{
  at_time, default-IsValidOptions, first_attempt, busy, busy-IsConsistent,
}
use pg_task_scheduler.Tests.Done.{busy-HasStarted}

finalize_run_lem_example :
    finalize_run (at_time 300) 1000 2000 Outcome.completed busy
    ≡ (finalized (at_time 300) 1000 2000 Outcome.completed busy, ok FinalizeOutcome.applied)
unfolding any holds_lease
finalize_run_lem_example =
    finalize_run_lem (at_time 300) 1000 2000 Outcome.completed busy busy-IsConsistent

fail_run_lem_example :
    fail_run (at_time 300) 1000 2000 (codes "boom") true busy
    ≡ (failed (at_time 300) 1000 2000 (codes "boom") true busy, ok (FailureOutcome.retried 1000301))
unfolding select holds_lease pg_task_scheduler.Store.Finalize.fail_row
fail_run_lem_example =
    fail_run_lem (at_time 300) 1000 2000 (codes "boom") true busy busy-IsConsistent

renew_lease_lem_example :
    renew_lease (at_time 300) 1000 2000 busy
    ≡ (renewed (at_time 300) 1000 2000 300000301 busy, ok (RenewalOutcome.renewed 300000301))
unfolding select holds_lease
renew_lease_lem_example =
    renew_lease_lem (at_time 300) 1000 2000 busy busy-HasStarted busy-IsConsistent

recover_expired_lem_example : recover_expired (at_time 400000000) 10 busy ≡ (
  recovered (at_time 400000000) 10 busy,
  ok (record {
    requeued = count (λ r. has_retry r && is_given_up (at_time 400000000) 10 busy r) busy.runs;
    failed = count (λ r. not (has_retry r) && is_given_up (at_time 400000000) 10 busy r) busy.runs;
  }),
)
recover_expired_lem_example =
    recover_expired_lem (at_time 400000000) 10 busy (omega arith) busy-IsConsistent

cancel-exact_example :
    cancel (at_time 300) 1000 busy
    ≡ (cancelled_task (at_time 300) 1000 busy, ok CancelOutcome.cancelled)
unfolding any is_open
cancel-exact_example = cancel-exact (at_time 300) 1000 busy busy-IsConsistent

task_attempts_lem_example : task_attempts 1000 busy ≡ (busy, ok (view first_attempt ∷ []))
unfolding select order_by insert_by
task_attempts_lem_example = task_attempts_lem 1000 busy busy-IsConsistent

-- Options of an urgent task that must not be queued twice.
abbrev once : DeduplicationKey
once = record { as_str = codes "once" }

builders-IsValidOptions_example :
    IsValidOptions default_options
    × IsValidOptions (options_at 50)
    × IsValidOptions (with_priority default_options (record { value = pos 10 }))
    × IsValidOptions (with_lease_duration default_options (record { micros = 60000000 }))
    × IsValidOptions (with_max_attempts default_options (record { count = 5 }))
    × IsValidOptions (with_retry_backoff default_options (record { micros = 0 }))
    × IsValidOptions (deduplicate default_options once)
unfolding lease_duration_try_from max_attempts_try_from deduplication_key_try_from
    validate_identifier text_eq trim trim_end trim_start is_whitespace
builders-IsValidOptions_example =
    builders-IsValidOptions default_options 50 (record { value = pos 10 }) (record { micros = 0 })
      (record { secs = 60; subsec_nanos = 0 }) (record { micros = 60000000 }) 5
      (record { count = 5 }) (codes "once") once default-IsValidOptions refl refl refl
