-- ===== src/Tests/Histories.antt =====
-- Sequences of operations, and reports after a lease has ended, on the concrete tables.
use pg_task_scheduler.Prelude.{
  ◌≡◌, ◌≤◌, refl, ap, arith, codes, true, [], ◌∷◌, some, ok, count, any, subst,
}
use pg_task_scheduler.Ids.Policy.{name_check, starts, ends, is_posix_space}
use pg_task_scheduler.Models.Runs.{
  RunState, Outcome, FinalizeOutcome, FailureOutcome, RenewalOutcome,
}
use pg_task_scheduler.Consistency.{IsConsistent}
use pg_task_scheduler.Db.{admits}
use pg_task_scheduler.Prelude.{all, unique}
use pg_task_scheduler.History.{enqueues, claims, cancels, Reaches, start, next, idle_db}
use pg_task_scheduler.History.Reachable.{reachable-IsConsistent, reachable-one_live, is_live_for}
use pg_task_scheduler.History.Terminal.{Step-keeps_terminal, is_prune}
use pg_task_scheduler.Queue.{default_options, cancel}
use pg_task_scheduler.Store.Finalize.{holds_lease, finalize_run, fail_run, renew_lease}
use pg_task_scheduler.Store.Finalize.Completion.{finalize_run_lem}
use pg_task_scheduler.Store.Finalize.Fencing.{finalize_run-once}
use pg_task_scheduler.Store.Finalize.Stale.{IsStored, stale_fenced}
use pg_task_scheduler.Store.Inspect.{run_state}
use pg_task_scheduler.Store.Inspect.Reported.{finalize_run-run_state}
use pg_task_scheduler.Tests.Data.{
  at_time, mail, mailer, default-IsValidOptions, waiting, task, busy, busy-IsConsistent,
  enqueued_waiting, claimed_busy,
}
use pg_task_scheduler.Tests.Done.{
  hourly, done_task, done, done-IsConsistent, waiting-IsFresh, task-IsStored,
}

waiting-Reaches : Reaches hourly (idle_db []) waiting
unfolding count
waiting-Reaches = subst (Reaches hourly (idle_db [])) enqueued_waiting (
    next (idle_db []) (idle_db []) _ (start (idle_db [])) (
      enqueues (idle_db []) (at_time 100) mail (ok []) default_options default-IsValidOptions refl))

busy-Reaches : Reaches hourly (idle_db []) busy
unfolding name_check starts ends is_posix_space
busy-Reaches = subst (Reaches hourly (idle_db [])) claimed_busy (
    next (idle_db []) waiting _ waiting-Reaches
      (claims waiting (at_time 200) mailer (mail ∷ []) 5 refl waiting-IsFresh))

reachable-IsConsistent_example : IsConsistent busy
unfolding admits all unique
reachable-IsConsistent_example = reachable-IsConsistent hourly [] busy refl busy-Reaches

reachable-one_live_example : count (is_live_for 1000) busy.attempts ≤ 1
unfolding admits all unique
reachable-one_live_example = reachable-one_live hourly [] busy 1000 refl busy-Reaches

done_task-IsStored : IsStored done_task done
unfolding count
done_task-IsStored q h = ground (arith, h)

applied :
    (finalize_run (at_time 300) 1000 2000 Outcome.completed busy).1 ≡ ok FinalizeOutcome.applied
unfolding any holds_lease
applied =
    ap (λ x. x.1)
      (finalize_run_lem (at_time 300) 1000 2000 Outcome.completed busy busy-IsConsistent)

finalize_run-once_example :
    (finalize_run
        (at_time 310)
        1000
        2000
        Outcome.completed
        (finalize_run (at_time 300) 1000 2000 Outcome.completed busy).0
      ≡ (
        (finalize_run (at_time 300) 1000 2000 Outcome.completed busy).0,
        ok FinalizeOutcome.already_terminal,
      ))
    × (fail_run
          (at_time 310)
          1000
          2000
          (codes "late")
          true
          (finalize_run (at_time 300) 1000 2000 Outcome.completed busy).0
        ≡ (
          (finalize_run (at_time 300) 1000 2000 Outcome.completed busy).0,
          ok FailureOutcome.already_terminal,
        ))
    × (renew_lease
          (at_time 310)
          1000
          2000
          (finalize_run (at_time 300) 1000 2000 Outcome.completed busy).0
        ≡ (
          (finalize_run (at_time 300) 1000 2000 Outcome.completed busy).0,
          ok RenewalOutcome.fenced,
        ))
finalize_run-once_example =
    finalize_run-once (at_time 300) (at_time 310) 1000 2000 Outcome.completed Outcome.completed
      (codes "late") true busy busy-IsConsistent applied

finalize_run-run_state_example :
    run_state 1000 (finalize_run (at_time 300) 1000 2000 Outcome.completed busy).0 ≡ (
      (finalize_run (at_time 300) 1000 2000 Outcome.completed busy).0,
      ok (some (RunState.completed 301)),
    )
finalize_run-run_state_example =
    finalize_run-run_state (at_time 300) 1000 2000 Outcome.completed busy busy-IsConsistent applied

stale_fenced_example :
    (finalize_run (at_time 400000000) 1000 2000 Outcome.completed busy
      ≡ (busy, ok FinalizeOutcome.fenced))
    × (fail_run (at_time 400000000) 1000 2000 (codes "late") true busy
        ≡ (busy, ok FailureOutcome.fenced))
    × (renew_lease (at_time 400000000) 1000 2000 busy ≡ (busy, ok RenewalOutcome.fenced))
stale_fenced_example =
    stale_fenced (at_time 400000000) task 2000 Outcome.completed (codes "late") true busy
      busy-IsConsistent task-IsStored refl refl

Step-keeps_terminal_example : IsStored done_task (cancel (at_time 500) 1000 done).0
unfolding is_prune
Step-keeps_terminal_example =
    Step-keeps_terminal hourly done (cancel (at_time 500) 1000 done).0
      (cancels done (at_time 500) 1000) done_task done-IsConsistent refl refl done_task-IsStored
