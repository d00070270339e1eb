-- ===== src/Store/Finalize.antt =====
-- src/store/finalize.rs: completion, failure and lease renewal, fenced by the lease token.
-- `clock i k` is the k-th `clock_timestamp()` in the order of the transaction's text.
pub mod Rows
pub mod Completion
pub mod Failure
pub mod Renewal
pub mod Fencing
pub mod Stale
use pg_task_scheduler.Prelude.{
  ℕ, ◌+◌, Text, codes, ltb, ◌==◌, if◌then◌else◌, select, count, any, update_where, head?, Bool,
  true, false, ◌&&◌, List, [], ◌∷◌, Option, none, some, map,
}
use pg_task_scheduler.Error.{SchedulerError, invariant}
use pg_task_scheduler.Models.Runs.{
  StoredRunState, StoredAttemptOutcome, is_running, is_terminal, Outcome, FinalizeOutcome,
  FailureOutcome, RenewalOutcome,
}
use pg_task_scheduler.Db.{Db, Run, Attempt, Env, is_value, is_after, add_interval}
use pg_task_scheduler.Db.Monad.{
  M, continue, ◌>>=◌, ◌>>◌, return, throw, query, execute, admitted_or_refused, transaction,
  commit_or_rollback,
}

-- The WHERE clause that FINALIZE, FAIL and RENEW share: the lease is held, and has not run out.
unfoldable pub holds_lease : Env → ℕ → ℕ → Run → Bool
holds_lease e run_id token r =
    r.id == run_id
    && is_running r.state
    && is_value r.lease_token token
    && is_after r.lease_expires_at (e.clock r.id 0)

-- The SET list of FINALIZE.
unfoldable pub finalize_row : Env → StoredRunState → Option Text → Run → Run
finalize_row e s error r = record r {
  state = s;
  worker_id = none;
  lease_token = none;
  lease_expires_at = none;
  started_at = none;
  finished_at = some (e.clock r.id 1);
  last_error = error;
  updated_at = e.clock r.id 2;
}

-- FINALIZE, which returns the ids of the rows that it changed.
unfoldable pub finalize_statement : Env → ℕ → ℕ → StoredRunState → Option Text → Db → Db × List ℕ
finalize_statement e run_id token s error db = (
  record db { runs = update_where (holds_lease e run_id token) (finalize_row e s error) db.runs },
  map (λ r. r.id) (select (holds_lease e run_id token) db.runs),
)

-- `lease_token = $1 AND outcome IS NULL`.
unfoldable pub is_live : ℕ → Attempt → Bool
is_live token a = elim a.outcome [ none ↦ a.lease_token == token | some o ↦ false ]

unfoldable pub close_attempt : Env → ℕ → StoredAttemptOutcome → Option Text → Attempt → Attempt
close_attempt e k o error a = record a {
  finished_at = some (e.clock a.run_id k);
  outcome = some o;
  error = error;
}

-- RECORD_ATTEMPT, which returns how many rows it changed.
unfoldable pub record_attempt : Env → ℕ → ℕ → StoredAttemptOutcome → Option Text → Db → Db × ℕ
record_attempt e k token o error db = (
  record db { attempts = update_where (is_live token) (close_attempt e k o error) db.attempts },
  count (is_live token) db.attempts,
)

-- IS_TERMINAL.
unfoldable pub terminal : ℕ → Db → Bool
terminal run_id db = any (λ r. r.id == run_id && is_terminal r.state) db.runs

abbrev pub stored_outcome : Outcome → StoredRunState × StoredAttemptOutcome × Option Text
stored_outcome Outcome.completed = (StoredRunState.completed, StoredAttemptOutcome.completed, none)
stored_outcome (Outcome.failed error) =
    (StoredRunState.failed, StoredAttemptOutcome.failed, some error)

abbrev pub one_live_attempt : {A : Type 0} → ℕ → Text → M A → M A
one_live_attempt attempts message k = if attempts == 1 then k else throw (invariant message)

unfoldable pub finalize_applied :
    Env → ℕ → ℕ → StoredAttemptOutcome → Option Text → List ℕ → M FinalizeOutcome
finalize_applied e run_id token o error [] = do
  already ← query (terminal run_id)
  return (if already then FinalizeOutcome.already_terminal else FinalizeOutcome.fenced)
finalize_applied e run_id token o error (id ∷ ids) = do
  attempts ← execute (record_attempt e 3 token o error)
  one_live_attempt attempts (codes "finalized task did not have one live attempt")
      (return FinalizeOutcome.applied)

unfoldable pub finalize_run : Env → ℕ → ℕ → Outcome → M FinalizeOutcome
finalize_run e run_id token outcome =
    let (s, o, error) = stored_outcome outcome in
    transaction do
      applied ← execute (finalize_statement e run_id token s error)
      finalize_applied e run_id token o error applied

-- The SET list of FAIL.
unfoldable pub fail_row : Env → Text → Bool → Run → Run
fail_row e error retryable r =
    let again = retryable && ltb r.attempt_count r.max_attempts in
    record r {
      state = if again then StoredRunState.pending else StoredRunState.failed;
      available_at =
          if again then add_interval (e.clock r.id 1) r.retry_backoff else r.available_at;
      worker_id = none;
      lease_token = none;
      lease_expires_at = none;
      started_at = none;
      finished_at = if again then none else some (e.clock r.id 2);
      last_error = if again then none else some error;
      updated_at = e.clock r.id 3;
    }

-- FAIL, which returns the changed rows.
unfoldable pub fail_statement : Env → ℕ → ℕ → Text → Bool → Db → Db × List Run
fail_statement e run_id token error retryable db = (
  record db {
    runs = update_where (holds_lease e run_id token) (fail_row e error retryable) db.runs;
  },
  map (fail_row e error retryable) (select (holds_lease e run_id token) db.runs),
)

unfoldable pub failure_outcome : StoredRunState → ℕ → M FailureOutcome
failure_outcome StoredRunState.pending available_at = return (FailureOutcome.retried available_at)
failure_outcome StoredRunState.failed available_at = return FailureOutcome.failed
failure_outcome _ available_at = throw (invariant (codes "failure produced invalid state"))

unfoldable pub fail_applied : Env → ℕ → ℕ → Text → List Run → M FailureOutcome
fail_applied e run_id token error [] = do
  already ← query (terminal run_id)
  return (if already then FailureOutcome.already_terminal else FailureOutcome.fenced)
fail_applied e run_id token error (row ∷ rows) = do
  attempts ← execute (record_attempt e 4 token StoredAttemptOutcome.failed (some error))
  one_live_attempt attempts (codes "failed task did not have one live attempt")
      (failure_outcome row.state row.available_at)

unfoldable pub fail_run : Env → ℕ → ℕ → Text → Bool → M FailureOutcome
fail_run e run_id token error retryable = transaction do
  rows ← execute (fail_statement e run_id token error retryable)
  fail_applied e run_id token error rows

-- The SET list of RENEW.
unfoldable pub renew_row : Env → Run → Run
renew_row e r = record r {
  lease_expires_at = some (add_interval (e.clock r.id 1) r.lease_duration);
  updated_at = e.clock r.id 2;
}

-- RENEW, which returns the new `lease_expires_at` of the changed rows.
unfoldable pub renew_statement : Env → ℕ → ℕ → Db → Db × List ℕ
renew_statement e run_id token db = (
  record db { runs = update_where (holds_lease e run_id token) (renew_row e) db.runs },
  map (λ r. add_interval (e.clock r.id 1) r.lease_duration)
      (select (holds_lease e run_id token) db.runs),
)

-- RENEW_ATTEMPT.
unfoldable pub renew_attempt : ℕ → ℕ → Db → Db × ℕ
renew_attempt token expiry db = (
  record db {
    attempts =
        update_where (is_live token) (λ a. record a { lease_expires_at = expiry }) db.attempts;
  },
  count (is_live token) db.attempts,
)

unfoldable pub renew_applied : ℕ → List ℕ → M RenewalOutcome
renew_applied token [] = return RenewalOutcome.fenced
renew_applied token (expiry ∷ rows) = do
  attempts ← execute (renew_attempt token expiry)
  one_live_attempt attempts (codes "renewed task did not have one live attempt")
      (return (RenewalOutcome.renewed expiry))

unfoldable pub renew_lease : Env → ℕ → ℕ → M RenewalOutcome
renew_lease e run_id token =
    transaction do rows ← execute (renew_statement e run_id token); renew_applied token rows
