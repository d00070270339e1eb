-- ===== src/Tests/Order.antt =====
-- Runs of the batches that are cut by a limit.
use pg_task_scheduler.Prelude.{
  ℕ, Bool, ◌≡◌, refl, arith, [], ◌∷◌, ok, count, select, order_by, length, any, pos, insert_by,
  text_eq, all, unique,
}
use pg_task_scheduler.Ids.Policy.{name_check, starts, ends, is_posix_space}
use pg_task_scheduler.Db.{
  Db, Run, admits, run_check, attempts_check, state_check, run_conflict, attempt_check,
  outcome_check, attempt_conflict, references, job_check, job_conflict,
}
use pg_task_scheduler.Consistency.{IsConsistent, is_holder, is_live_of, is_counted}
use pg_task_scheduler.Queue.{prune_terminal}
use pg_task_scheduler.Queue.Retention.{without, AreOldest, prune_terminal_lem}
use pg_task_scheduler.Store.Claim.{claim_order, candidates, claimable, is_chosen}
use pg_task_scheduler.Store.Claim.Priority.{claim_batch-full}
use pg_task_scheduler.Store.Finalize.{is_live}
use pg_task_scheduler.Store.Finalize.Stale.{IsStored}
use pg_task_scheduler.Tests.Data.{at_time, mail, queued_task}
use pg_task_scheduler.Tests.Done.{done, done-IsConsistent}

prune_terminal_lem_example :
    (gone : ℕ → Bool) × (prune_terminal (at_time 500) 400 10 done
      ≡ (without gone done, ok (count (λ r. gone r.id) done.runs)))
    × AreOldest (at_time 500) 400 10 done gone
prune_terminal_lem_example =
    prune_terminal_lem (at_time 500) 400 10 done done-IsConsistent (omega arith)

-- Two tasks wait, and the limit is one.
abbrev urgent_task : Run
urgent_task = record queued_task { id = 1001; priority = pos 10 }

abbrev crowded : Db
crowded = record { jobs = []; runs = queued_task ∷ urgent_task ∷ []; attempts = [] }

crowded-IsConsistent : IsConsistent crowded
unfolding admits all unique any run_check name_check starts ends is_posix_space attempts_check
    state_check run_conflict attempt_check outcome_check attempt_conflict references job_check
    job_conflict text_eq count is_holder is_live_of is_live is_counted
crowded-IsConsistent = record { admitted = refl; linked = λ i t. ground arith; counted = refl }

queued_task-IsStored : IsStored queued_task crowded
unfolding count
queued_task-IsStored q h = ground (arith, h)

claim_batch-full_example : length (candidates (at_time 200) (mail ∷ []) 1 crowded) ≡ 1
unfolding claimable is_chosen candidates claim_order order_by insert_by select any text_eq
claim_batch-full_example =
    claim_batch-full (at_time 200) (mail ∷ []) 1 crowded crowded-IsConsistent queued_task
      queued_task-IsStored refl refl
