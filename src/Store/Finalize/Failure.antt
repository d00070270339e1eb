-- ===== src/Store/Finalize/Failure.antt =====
-- fail_run of src/store/finalize.rs, on every branch.
use pg_task_scheduler.Prelude.{
  ℕ, ◌<◌, ◌≡◌, refl, Text, ltb, count, select, update_where, update_where-none, select-nil_count,
  select-cons_count, List-cases, count_mono, All-of, Bool, true, false, ◌&&◌, List, [], ◌∷◌, some,
  Result, ok, inl, inr, arith, if◌then◌else◌,
}
use pg_task_scheduler.Models.Runs.{StoredAttemptOutcome, FailureOutcome, is_running}
use pg_task_scheduler.Error.{SchedulerError}
use pg_task_scheduler.Db.{Db, Run, Env, admits, outcome_check}
use pg_task_scheduler.Db.Updates.{admits-update_runs, admits-update_attempts}
use pg_task_scheduler.Consistency.{IsConsistent, is_holder}
use pg_task_scheduler.Consistency.Facts.{live-of_holder}
use pg_task_scheduler.Consistency.OneLease.{release-IsConsistent}
use pg_task_scheduler.Store.Finalize.{
  holds_lease, fail_row, fail_statement, is_live, close_attempt, record_attempt, terminal,
  failure_outcome, fail_applied, fail_run,
}
use pg_task_scheduler.Store.Finalize.Rows.{
  fail_row-run_check, close_attempt-attempt_check, fail_row-KeepsRunKeys,
  close_attempt-KeepsAttemptKeys,
}
use pg_task_scheduler.Store.Finalize.Completion.{holds_lease-is_holder}

-- The tables after a failure.
abbrev pub failed_runs : Env → ℕ → ℕ → Text → Bool → Db → Db
failed_runs e id token error retryable db = record db {
  runs = update_where (holds_lease e id token) (fail_row e error retryable) db.runs;
}

abbrev pub failed : Env → ℕ → ℕ → Text → Bool → Db → Db
failed e id token error retryable db = record (failed_runs e id token error retryable db) {
  attempts =
      update_where (is_live token) (close_attempt e 4 StoredAttemptOutcome.failed (some error))
        db.attempts;
}

-- What a failure of the run `r` is answered with: a retry while attempts are left.
abbrev pub answer : Env → Text → Bool → Run → FailureOutcome
answer e error retryable r =
    if retryable && ltb r.attempt_count r.max_attempts
    then FailureOutcome.retried (fail_row e error retryable r).available_at
    else FailureOutcome.failed

failure_outcome-fail_row :
    (e : Env) (error : Text) (retryable : Bool) (r : Run) (db : Db)
    → failure_outcome
        (fail_row e error retryable r).state
        (fail_row e error retryable r).available_at
        db
      ≡ (db, ok (answer e error retryable r))
unfolding failure_outcome fail_row
failure_outcome-fail_row e error retryable r db = ground arith

admits-failed_runs :
    (e : Env) (id token : ℕ) (error : Text) (retryable : Bool) (db : Db)
    → admits db ≡ true
    → admits (failed_runs e id token error retryable db) ≡ true
admits-failed_runs e id token error retryable db h =
    admits-update_runs db _ _ (fail_row-KeepsRunKeys e error retryable)
      (All-of db.runs (fail_row-run_check e id token error retryable)) h

admits-failed :
    (e : Env) (id token : ℕ) (error : Text) (retryable : Bool) (db : Db)
    → admits db ≡ true
    → admits (failed e id token error retryable db) ≡ true
unfolding outcome_check
admits-failed e id token error retryable db h =
    admits-update_attempts (failed_runs e id token error retryable db) (is_live token) _
      (close_attempt-KeepsAttemptKeys e 4 _ _)
      (All-of db.attempts (λ a c _. close_attempt-attempt_check e 4 _ _ a refl c))
      (admits-failed_runs e id token error retryable db h)

pub fail_run-held :
    (e : Env) (id token : ℕ) (error : Text) (retryable : Bool) (db : Db) (y : Run) (ys : List Run)
    → IsConsistent db
    → select (holds_lease e id token) db.runs ≡ y ∷ ys
    → fail_run e id token error retryable db
      ≡ (failed e id token error retryable db, ok (answer e error retryable y))
unfolding fail_run fail_statement fail_applied record_attempt
fail_run-held e id token error retryable db y ys c held =
    rw (held, admits-failed_runs e id token error retryable db c.admitted)
      (rw
        (
          admits-failed e id token error retryable db c.admitted,
          live,
          failure_outcome-fail_row e error retryable y,
        )
        refl)
  where
    live : count (is_live token) db.attempts ≡ 1
    live = live-of_holder db id token c (
        omega (
          arith,
          select-cons_count (holds_lease e id token) db.runs y ys held,
          count_mono (holds_lease e id token) (is_holder id token) db.runs
              (holds_lease-is_holder e id token),
        ))

pub fail_run-not_held :
    (e : Env) (id token : ℕ) (error : Text) (retryable : Bool) (db : Db)
    → admits db ≡ true
    → select (holds_lease e id token) db.runs ≡ []
    → fail_run e id token error retryable db
      ≡ (db, ok (if terminal id db then FailureOutcome.already_terminal else FailureOutcome.fenced))
unfolding fail_run fail_statement fail_applied
fail_run-not_held e id token error retryable db h idle = rw (
  update_where-none (holds_lease e id token) _ db.runs
      (select-nil_count (holds_lease e id token) db.runs idle),
  idle,
  h,
)

-- The answer when the lease is held by the rows `held`, and when it is by none.
abbrev pub failure :
    Env → ℕ → ℕ → Text → Bool → Db → List Run → Db × Result SchedulerError FailureOutcome
failure e id token error retryable db [] =
    (db, ok (if terminal id db then FailureOutcome.already_terminal else FailureOutcome.fenced))
failure e id token error retryable db (r ∷ rows) =
    (failed e id token error retryable db, ok (answer e error retryable r))

-- `fail_run` on a consistent database never fails. If some run holds the lease, it is requeued with
-- its backoff when the error is retryable and attempts are left, and otherwise becomes failed; its
-- live attempt is closed as failed, and the answer says which. Otherwise nothing changes, and the
-- answer says whether the run is terminal already or the caller is fenced off.
pub fail_run_lem :
    (e : Env) (id token : ℕ) (error : Text) (retryable : Bool) (db : Db)
    → IsConsistent db
    → fail_run e id token error retryable db
      ≡ failure e id token error retryable db (select (holds_lease e id token) db.runs)
fail_run_lem e id token error retryable db c =
    elim (List-cases (select (holds_lease e id token) db.runs)) [
      | inl idle ↦ rw idle (fail_run-not_held e id token error retryable db c.admitted idle)
      | inr (y, ys, held) ↦ rw held (fail_run-held e id token error retryable db y ys c held)
    ]

fail_row-stops :
    (e : Env) (error : Text) (retryable : Bool) (r : Run)
    → is_running (fail_row e error retryable r).state ≡ false
unfolding fail_row
fail_row-stops e error retryable r = ground arith

failed-IsConsistent :
    (e : Env) (id token : ℕ) (error : Text) (retryable : Bool) (db : Db)
    → 0 < count (holds_lease e id token) db.runs
    → IsConsistent db
    → IsConsistent (failed e id token error retryable db)
unfolding fail_row close_attempt is_live
failed-IsConsistent e id token error retryable db hit c =
    release-IsConsistent db id token (holds_lease e id token) _ _ (holds_lease-is_holder e id token)
      (fail_row-stops e error retryable) (λ r. refl) (λ r. refl) (λ a t. refl) (λ a. refl)
      (λ a. refl) hit c (admits-failed e id token error retryable db c.admitted)

-- Failing keeps the tables consistent, whoever calls it with whatever token.
pub fail_run-IsConsistent :
    (e : Env) (id token : ℕ) (error : Text) (retryable : Bool) (db : Db)
    → IsConsistent db
    → IsConsistent (fail_run e id token error retryable db).0
fail_run-IsConsistent e id token error retryable db c =
    elim (List-cases (select (holds_lease e id token) db.runs)) [
      | inl idle ↦ rw (fail_run-not_held e id token error retryable db c.admitted idle) c
      | inr (y, ys, held) ↦ rw (fail_run-held e id token error retryable db y ys c held) (
          failed-IsConsistent e id token error retryable db
            (select-cons_count (holds_lease e id token) db.runs y ys held) c)
    ]
