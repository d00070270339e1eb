-- ===== src/Store/Inspect.antt =====
-- src/store/inspect.rs: the read models of a run and of its attempts.
pub mod Reading
pub mod Reported
use pg_task_scheduler.Prelude.{
  ℕ, Text, codes, leb, ◌==◌, if◌then◌else◌, select, order_by, get_last?, Bool, List, Option, none,
  some, Result, ok, err, ok_or, collect,
}
use pg_task_scheduler.Prelude.{◌>>=◌ as bind_result}
use pg_task_scheduler.Error.{SchedulerError, invariant}
use pg_task_scheduler.Ids.{WorkerId}
use pg_task_scheduler.Models.Runs.{
  StoredRunState, StoredAttemptOutcome, Lease, RunState, AttemptState, TaskAttempt,
}
use pg_task_scheduler.Db.{Db, Run, Attempt}
use pg_task_scheduler.Db.Monad.{M, continue, ◌>>=◌, lift, query}
use pg_task_scheduler.Store.Claim.{non_zero_or}

abbrev pub present : {A : Type 0} → Option A → Text → Result SchedulerError A
present o message = ok_or o (invariant message)

lease_of : Run → Result SchedulerError Lease
lease_of row =
    bind_result (present row.worker_id (codes "running task without worker")) λ worker_id.
      bind_result (present row.lease_token (codes "running task without token")) λ lease_token.
        bind_result (present row.lease_expires_at (codes "running task without expiry")) λ expires.
          bind_result (present row.started_at (codes "running task without start")) λ started_at.
            ok (record {
              worker_id = record { as_str = worker_id };
              lease_token = lease_token;
              lease_expires_at = expires;
              started_at = started_at;
            })

state_by : StoredRunState → Run → Result SchedulerError RunState
unfolding lease_of
state_by StoredRunState.pending row = ok RunState.pending
state_by StoredRunState.running row =
    bind_result (lease_of row) λ lease. ok (RunState.running lease)
state_by StoredRunState.completed row =
    bind_result (present row.finished_at (codes "completed task without finish"))
      λ finished_at. ok (RunState.completed finished_at)
state_by StoredRunState.failed row =
    bind_result (present row.finished_at (codes "failed task without finish")) λ finished_at.
      bind_result (present row.last_error (codes "failed task without error"))
        λ error. ok (RunState.failed finished_at error)
state_by StoredRunState.cancelled row =
    bind_result (present row.finished_at (codes "cancelled task without finish"))
      λ finished_at. ok (RunState.cancelled finished_at)

unfoldable pub state_of : Run → Result SchedulerError RunState
unfolding state_by
state_of row = state_by row.state row

-- `map(f).transpose()`.
abbrev pub transpose_map :
    {A B : Type 0} → (A → Result SchedulerError B) → Option A → Result SchedulerError (Option B)
transpose_map f none = ok none
transpose_map f (some a) = bind_result (f a) λ b. ok (some b)

unfoldable pub run_state : ℕ → M (Option RunState)
run_state run_id = do
  rows ← query (λ db. select (λ r. r.id == run_id) db.runs)
  lift (transpose_map state_of (get_last? rows))

unfoldable pub attempt_state : Option StoredAttemptOutcome → Option Text → AttemptState
attempt_state none error = AttemptState.running
attempt_state (some StoredAttemptOutcome.completed) error = AttemptState.completed
attempt_state (some StoredAttemptOutcome.failed) error = AttemptState.failed error
attempt_state (some StoredAttemptOutcome.expired) error = AttemptState.expired error
attempt_state (some StoredAttemptOutcome.cancelled) error = AttemptState.cancelled

unfoldable pub to_task_attempt : Attempt → Result SchedulerError TaskAttempt
unfolding attempt_state
to_task_attempt row =
    bind_result
      (non_zero_or (invariant (codes "attempt history contains a non-positive number"))
        row.attempt_number)
      λ attempt. ok (record {
        attempt = attempt;
        worker_id = record { as_str = row.worker_id };
        started_at = row.started_at;
        lease_expires_at = row.lease_expires_at;
        finished_at = row.finished_at;
        state = attempt_state row.outcome row.error;
      })

unfoldable pub task_attempts : ℕ → M (List TaskAttempt)
task_attempts run_id = do
  rows ← query (λ db.
      order_by (λ a b. leb a.attempt_number b.attempt_number)
        (select (λ a. a.run_id == run_id) db.attempts))
  lift (collect to_task_attempt rows)
