-- ===== src/Consistency/Facts.antt =====
-- Consequences of consistency: ids and tokens name one row.
use pg_task_scheduler.Prelude.{ℕ, ◌≤◌, ◌<◌, ◌≡◌, count, Bool, true, arith, unique-count, count_mono}
use pg_task_scheduler.Db.{Db, Run, Attempt, run_conflict, attempt_conflict}
use pg_task_scheduler.Db.Updates.{admits-Admitted}
use pg_task_scheduler.Store.Finalize.{is_live}
use pg_task_scheduler.Consistency.{is_holder, is_live_of, IsConsistent}

-- Whatever is said of runs with one id is said of one run at most.
pub count-of_id :
    (db : Db) (id : ℕ) (p : Run → Bool)
    → ((r : Run) → p r ≡ true → r.id ≡ id)
    → IsConsistent db
    → count p db.runs ≤ 1
unfolding run_conflict
count-of_id db id p of_id c =
    unique-count run_conflict p db.runs (λ r s hr hs. ground (arith, of_id r hr, of_id s hs))
      (admits-Admitted db c.admitted).runs_unique

pub count-of_token :
    (db : Db) (token : ℕ) (p : Attempt → Bool)
    → ((a : Attempt) → p a ≡ true → a.lease_token ≡ token)
    → IsConsistent db
    → count p db.attempts ≤ 1
unfolding attempt_conflict
count-of_token db token p of_token c =
    unique-count attempt_conflict p db.attempts
      (λ a b ha hb. ground (arith, of_token a ha, of_token b hb))
      (admits-Admitted db c.admitted).attempts_unique

-- The live attempts under a token are those of the run that holds it.
pub live-of_holder :
    (db : Db) (id token : ℕ)
    → IsConsistent db
    → 0 < count (is_holder id token) db.runs
    → count (is_live token) db.attempts ≡ 1
unfolding is_live_of is_live
live-of_holder db id token c held = omega (
  arith,
  c.linked id token,
  count_mono (is_live_of id token) (is_live token) db.attempts (λ a h. ground arith),
  count-of_token db token (is_live token) (λ a h. ground arith) c,
)
