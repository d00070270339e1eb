-- ===== src/Consistency.antt =====
-- What holds of the three tables between two operations, beyond the constraints of the schema:
-- running runs and live attempts are the same leases, and attempts are numbered up to the count.
pub mod Facts
pub mod Release
pub mod OneLease
pub mod ManyLeases
use pg_task_scheduler.Prelude.{
  ℕ, ◌≡◌, ltb, ◌==◌, any, all, count, Bool, true, false, not, ◌&&◌, List,
}
use pg_task_scheduler.Models.Runs.{is_running}
use pg_task_scheduler.Db.{Db, Run, Attempt, Env, is_value, admits}
use pg_task_scheduler.Store.Finalize.{is_live}

-- The run with this id is running under this token.
unfoldable pub is_holder : ℕ → ℕ → Run → Bool
is_holder id token r = r.id == id && is_running r.state && is_value r.lease_token token

-- A live attempt of the run with this id, under this token.
unfoldable pub is_live_of : ℕ → ℕ → Attempt → Bool
is_live_of id token a = a.run_id == id && is_live token a

-- No attempt of the run has a number above its count.
unfoldable pub is_counted : List Attempt → Run → Bool
is_counted attempts r =
    not (any (λ a. a.run_id == r.id && ltb r.attempt_count a.attempt_number) attempts)

pub record IsConsistent (db : Db) : Type 0 where
  pub admitted : admits db ≡ true
  pub linked :
      (id token : ℕ) → count (is_holder id token) db.runs ≡ count (is_live_of id token) db.attempts
  pub counted : all (is_counted db.attempts) db.runs ≡ true
