-- ===== src/Store/Finalize/Completion.antt =====
-- finalize_run of src/store/finalize.rs, on every branch.
use pg_task_scheduler.Prelude.{
  ℕ, ◌<◌, ◌≡◌, refl, any, count, select, update_where, update_where-none, select-nil_count,
  select-cons_count, List-cases, any-of_count, any-of_pos, count_mono, All-of, true, false, List,
  [], ◌∷◌, some, ok, inl, inr, arith, if◌then◌else◌,
}
use pg_task_scheduler.Models.Runs.{Outcome, FinalizeOutcome, is_running}
use pg_task_scheduler.Db.{Db, Run, Env, admits, outcome_check}
use pg_task_scheduler.Db.Updates.{admits-update_runs, admits-update_attempts}
use pg_task_scheduler.Consistency.{IsConsistent, is_holder}
use pg_task_scheduler.Consistency.Facts.{live-of_holder}
use pg_task_scheduler.Consistency.OneLease.{release-IsConsistent}
use pg_task_scheduler.Store.Finalize.{
  holds_lease, finalize_row, finalize_statement, is_live, close_attempt, record_attempt, terminal,
  stored_outcome, finalize_applied, finalize_run,
}
use pg_task_scheduler.Store.Finalize.Rows.{
  finalize_row-run_check, close_attempt-attempt_check, finalize_row-KeepsRunKeys,
  close_attempt-KeepsAttemptKeys,
}

pub holds_lease-is_holder :
    (e : Env) (id token : ℕ) (r : Run)
    → holds_lease e id token r ≡ true
    → is_holder id token r ≡ true
unfolding holds_lease is_holder
holds_lease-is_holder e id token r h = ground arith

-- The tables after a completion: the run is terminal, and its live attempt is closed.
abbrev pub finalized_runs : Env → ℕ → ℕ → Outcome → Db → Db
finalized_runs e id token o db = record db {
  runs =
      update_where (holds_lease e id token)
        (finalize_row e (stored_outcome o).0 (stored_outcome o).2) db.runs;
}

abbrev pub finalized : Env → ℕ → ℕ → Outcome → Db → Db
finalized e id token o db = record (finalized_runs e id token o db) {
  attempts =
      update_where (is_live token) (close_attempt e 3 (stored_outcome o).1 (stored_outcome o).2)
        db.attempts;
}

stored_outcome-outcome_check :
    (o : Outcome) → outcome_check (some (stored_outcome o).1) (some 0) (stored_outcome o).2 ≡ true
unfolding outcome_check
stored_outcome-outcome_check Outcome.completed = refl
stored_outcome-outcome_check (Outcome.failed error) = refl

pub admits-finalized_runs :
    (e : Env) (id token : ℕ) (o : Outcome) (db : Db)
    → admits db ≡ true
    → admits (finalized_runs e id token o db) ≡ true
admits-finalized_runs e id token o db h =
    admits-update_runs db _ _ (finalize_row-KeepsRunKeys e _ _)
      (All-of db.runs (finalize_row-run_check e id token o)) h

pub admits-finalized :
    (e : Env) (id token : ℕ) (o : Outcome) (db : Db)
    → admits db ≡ true
    → admits (finalized e id token o db) ≡ true
admits-finalized e id token o db h =
    admits-update_attempts (finalized_runs e id token o db) (is_live token) _
      (close_attempt-KeepsAttemptKeys e 3 _ _)
      (All-of db.attempts
        (λ a c _. close_attempt-attempt_check e 3 _ _ a (stored_outcome-outcome_check o) c))
      (admits-finalized_runs e id token o db h)

-- A completion that holds the lease, on a consistent database.
pub finalize_run-held :
    (e : Env) (id token : ℕ) (o : Outcome) (db : Db) (y : Run) (ys : List Run)
    → IsConsistent db
    → select (holds_lease e id token) db.runs ≡ y ∷ ys
    → finalize_run e id token o db ≡ (finalized e id token o db, ok FinalizeOutcome.applied)
unfolding finalize_run finalize_statement finalize_applied record_attempt
finalize_run-held e id token o db y ys c held =
    rw (held, admits-finalized_runs e id token o db c.admitted)
      (rw (admits-finalized e id token o db c.admitted, live) refl)
  where
    live : count (is_live token) db.attempts ≡ 1
    live = live-of_holder db id token c (
        omega (
          arith,
          select-cons_count (holds_lease e id token) db.runs y ys held,
          count_mono (holds_lease e id token) (is_holder id token) db.runs
              (holds_lease-is_holder e id token),
        ))

pub finalize_run-not_held :
    (e : Env) (id token : ℕ) (o : Outcome) (db : Db)
    → admits db ≡ true
    → select (holds_lease e id token) db.runs ≡ []
    → finalize_run e id token o db ≡ (
      db,
      ok (if terminal id db then FinalizeOutcome.already_terminal else FinalizeOutcome.fenced),
    )
unfolding finalize_run finalize_statement finalize_applied
finalize_run-not_held e id token o db h idle = rw (
  update_where-none (holds_lease e id token) _ db.runs
      (select-nil_count (holds_lease e id token) db.runs idle),
  idle,
  h,
)

-- `finalize_run` on a consistent database never fails. Exactly when some run with this id is running
-- under this token and its lease has not run out, that run becomes terminal with the outcome's state
-- and error, its live attempt is closed, and the answer is `Applied`. Otherwise nothing changes, and
-- the answer says whether the run is terminal already or the caller is fenced off.
pub finalize_run_lem :
    (e : Env) (id token : ℕ) (o : Outcome) (db : Db)
    → IsConsistent db
    → finalize_run e id token o db ≡ (
        if any (holds_lease e id token) db.runs
        then (finalized e id token o db, ok FinalizeOutcome.applied)
        else (
          db,
          ok (if terminal id db then FinalizeOutcome.already_terminal else FinalizeOutcome.fenced),
        ))
finalize_run_lem e id token o db c = elim (List-cases (select (holds_lease e id token) db.runs)) [
  | inl idle ↦
      rw
        (any-of_count (holds_lease e id token) db.runs
          (select-nil_count (holds_lease e id token) db.runs idle))
        (finalize_run-not_held e id token o db c.admitted idle)
  | inr (y, ys, held) ↦
      rw
        (any-of_pos (holds_lease e id token) db.runs
          (select-cons_count (holds_lease e id token) db.runs y ys held))
        (finalize_run-held e id token o db y ys c held)
]

stored_outcome-terminal : (o : Outcome) → is_running (stored_outcome o).0 ≡ false
stored_outcome-terminal Outcome.completed = refl
stored_outcome-terminal (Outcome.failed error) = refl

finalized-IsConsistent :
    (e : Env) (id token : ℕ) (o : Outcome) (db : Db)
    → 0 < count (holds_lease e id token) db.runs
    → IsConsistent db
    → IsConsistent (finalized e id token o db)
unfolding finalize_row close_attempt is_live
finalized-IsConsistent e id token o db hit c =
    release-IsConsistent db id token (holds_lease e id token) _ _ (holds_lease-is_holder e id token)
      (λ r. stored_outcome-terminal o) (λ r. refl) (λ r. refl) (λ a t. refl) (λ a. refl) (λ a. refl)
      hit c (admits-finalized e id token o db c.admitted)

-- Completing keeps the tables consistent, whoever calls it with whatever token.
pub finalize_run-IsConsistent :
    (e : Env) (id token : ℕ) (o : Outcome) (db : Db)
    → IsConsistent db
    → IsConsistent (finalize_run e id token o db).0
finalize_run-IsConsistent e id token o db c =
    elim (List-cases (select (holds_lease e id token) db.runs)) [
      | inl idle ↦ rw (finalize_run-not_held e id token o db c.admitted idle) c
      | inr (y, ys, held) ↦ rw (finalize_run-held e id token o db y ys c held) (
          finalized-IsConsistent e id token o db
            (select-cons_count (holds_lease e id token) db.runs y ys held) c)
    ]
