-- ===== src/Store/Materialize/Rounds.antt =====
-- The loop of materialize_due_jobs in src/store/materialize.rs.
use pg_task_scheduler.Prelude.{ℕ, zero, suc, ◌+◌, ◌≤◌, ◌≡◌, arith, Result, ok, err}
use pg_task_scheduler.Error.{SchedulerError}
use pg_task_scheduler.Db.{Db, Env}
use pg_task_scheduler.Cron.{Croner}
use pg_task_scheduler.Db.Monad.{continue, return}
use pg_task_scheduler.Store.Materialize.{
  Ticked, processed, idle, materialize_one, materialize_rounds, materialize_due_jobs,
}

module _ (croner : Croner) (envs : ℕ → Env) where
  -- What a tick leaves to the rest of the loop.
  rest_le :
      (left done : ℕ) (x : Db × Result SchedulerError Ticked) (n : ℕ)
      → ((db : Db) (m : ℕ)
          → (materialize_rounds croner envs left (done + 1) db).1 ≡ ok m
          → m ≤ done + 1 + left)
      → (continue x (λ tick. elim tick [
        | idle ↦ return done
        | processed ↦ materialize_rounds croner envs left (done + 1)
      ])).1
        ≡ ok n
      → n ≤ done + suc left
  rest_le left done (db, ok idle) n ih h = ground arith
  rest_le left done (db, ok processed) n ih h = omega (arith, ih db n h)
  rest_le left done (db, err e) n ih h = ground arith

  rounds_le :
      (left done : ℕ) (db : Db) (n : ℕ)
      → (materialize_rounds croner envs left done db).1 ≡ ok n
      → n ≤ done + left
  unfolding materialize_rounds
  rounds_le zero done db n h = ground arith
  rounds_le (suc left) done db n h =
      rest_le left done (materialize_one croner (envs done) db) n (rounds_le left (done + 1)) h

  -- One call of `materialize_due_jobs` that succeeds handles at most 100 schedules, so it ends however
  -- many are due.
  pub materialize_due_jobs_le :
      (db : Db) (n : ℕ) → (materialize_due_jobs croner envs db).1 ≡ ok n → n ≤ 100
  unfolding materialize_due_jobs
  materialize_due_jobs_le db n h = rounds_le 100 0 db n h
