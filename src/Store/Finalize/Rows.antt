-- ===== src/Store/Finalize/Rows.antt =====
-- Row by row: the SET lists of src/store/finalize.rs meet the CHECKs.
use pg_task_scheduler.Prelude.{ℕ, ◌≡◌, refl, Text, leb, Bool, true, Option, none, some, arith}
use pg_task_scheduler.Models.Runs.{StoredRunState, StoredAttemptOutcome, Outcome}
use pg_task_scheduler.Db.{
  Run, Attempt, Env, run_check, attempt_check, attempts_check, state_check, outcome_check,
  run_conflict, attempt_conflict,
}
use pg_task_scheduler.Db.Updates.{KeepsRunKeys, KeepsAttemptKeys}
use pg_task_scheduler.Store.Finalize.{
  holds_lease, finalize_row, fail_row, renew_row, close_attempt, stored_outcome,
}

pub finalize_row-run_check :
    (e : Env) (id token : ℕ) (o : Outcome) (r : Run)
    → run_check r ≡ true
    → holds_lease e id token r ≡ true
    → run_check (finalize_row e (stored_outcome o).0 (stored_outcome o).2 r) ≡ true
unfolding run_check attempts_check state_check holds_lease finalize_row
finalize_row-run_check e id token Outcome.completed r c h = ground arith
finalize_row-run_check e id token (Outcome.failed error) r c h = ground arith

pub fail_row-run_check :
    (e : Env) (id token : ℕ) (error : Text) (retryable : Bool) (r : Run)
    → run_check r ≡ true
    → holds_lease e id token r ≡ true
    → run_check (fail_row e error retryable r) ≡ true
unfolding run_check attempts_check state_check holds_lease fail_row
fail_row-run_check e id token error retryable r c h = ground arith

-- A lease that has started has done so by the time `t`.
abbrev pub started_by : Option ℕ → ℕ → Bool
started_by none t = true
started_by (some s) t = leb s t

pub renew_row-run_check :
    (e : Env) (id token : ℕ) (r : Run)
    → started_by r.started_at (e.clock r.id 1) ≡ true
    → run_check r ≡ true
    → holds_lease e id token r ≡ true
    → run_check (renew_row e r) ≡ true
unfolding run_check attempts_check state_check holds_lease renew_row
renew_row-run_check e id token r started c h = ground arith

pub close_attempt-attempt_check :
    (e : Env) (k : ℕ) (o : StoredAttemptOutcome) (error : Option Text) (a : Attempt)
    → outcome_check (some o) (some 0) error ≡ true
    → attempt_check a ≡ true
    → attempt_check (close_attempt e k o error a) ≡ true
unfolding attempt_check outcome_check close_attempt
close_attempt-attempt_check e k o error a allowed c = ground arith

pub finalize_row-KeepsRunKeys :
    (e : Env) (s : StoredRunState) (error : Option Text) → KeepsRunKeys (finalize_row e s error)
unfolding finalize_row run_conflict
finalize_row-KeepsRunKeys e s error = record {
  id = λ r. refl;
  conflict_left = λ r s. refl;
  conflict_right = λ r s. refl;
}

pub fail_row-KeepsRunKeys :
    (e : Env) (error : Text) (retryable : Bool) → KeepsRunKeys (fail_row e error retryable)
unfolding fail_row run_conflict
fail_row-KeepsRunKeys e error retryable = record {
  id = λ r. refl;
  conflict_left = λ r s. refl;
  conflict_right = λ r s. refl;
}

pub renew_row-KeepsRunKeys : (e : Env) → KeepsRunKeys (renew_row e)
unfolding renew_row run_conflict
renew_row-KeepsRunKeys e = record {
  id = λ r. refl;
  conflict_left = λ r s. refl;
  conflict_right = λ r s. refl;
}

pub close_attempt-KeepsAttemptKeys :
    (e : Env) (k : ℕ) (o : StoredAttemptOutcome) (error : Option Text)
    → KeepsAttemptKeys (close_attempt e k o error)
unfolding close_attempt attempt_conflict
close_attempt-KeepsAttemptKeys e k o error = record {
  run_id = λ a. refl;
  conflict_left = λ a b. refl;
  conflict_right = λ a b. refl;
}
