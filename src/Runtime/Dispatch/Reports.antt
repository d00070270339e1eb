-- ===== src/Runtime/Dispatch/Reports.antt =====
-- finalize_handler of src/runtime/worker.rs: what the report on a handler's result does.
use pg_task_scheduler.Prelude.{
  ◌≡◌, refl, ltb, ◌&&◌, List, [], ◌∷◌, Result, ok, err, if◌then◌else◌, select, Bool-cases,
  List-cases, inl, inr,
}
use pg_task_scheduler.Error.{JobError, is_retryable}
use pg_task_scheduler.Models.Runs.{ClaimedRun, Outcome}
use pg_task_scheduler.Db.{Env, Run}
use pg_task_scheduler.Consistency.{IsConsistent}
use pg_task_scheduler.Metrics.{incr, runs_completed, runs_requeued, runs_failed}
use pg_task_scheduler.Store.Finalize.{holds_lease, terminal}
use pg_task_scheduler.Store.Finalize.Completion.{
  finalized, finalize_run-held, finalize_run-not_held,
}
use pg_task_scheduler.Store.Finalize.Failure.{failed, fail_run_lem}
use pg_task_scheduler.Runtime.Dispatch.{World, Acquired, finalize_handler}

-- A report that holds the lease `r`: the run is completed, requeued or failed, and counted as such.
abbrev pub reported_on : Env → ClaimedRun → Result JobError (Unit {0}) → World → Run → World
reported_on e claimed (ok done) w r = record {
  db = finalized e claimed.run_id claimed.lease_token Outcome.completed w.db;
  counts = incr runs_completed w.counts;
}
reported_on e claimed (err error) w r = record {
  db = failed e claimed.run_id claimed.lease_token error.source error.retryable w.db;
  counts =
      incr
        (if error.retryable && ltb r.attempt_count r.max_attempts
          then runs_requeued
          else runs_failed)
        w.counts;
}

abbrev pub reported_of :
    Acquired → Env → ClaimedRun → Result JobError (Unit {0}) → World → List Run → World
reported_of (err error) e claimed result w held = w
reported_of (ok conn) e claimed result w [] = w
reported_of (ok conn) e claimed result w (r ∷ held) = reported_on e claimed result w r

-- The report on a handler's result, on consistent tables: it changes the tables exactly if there is a
-- connection and the run is still running under the task's token with a lease that is not over. The
-- run is then completed, or, if the handler failed, requeued if the error is retryable and attempts
-- are left and failed if not, and exactly that is counted; otherwise nothing is counted.
pub finalize_handler_lem :
    (acquired : Acquired) (e : Env) (claimed : ClaimedRun) (result : Result JobError (Unit {0}))
    (w : World)
    → IsConsistent w.db
    → finalize_handler acquired e claimed result w
      ≡ reported_of acquired e claimed result w
          (select (holds_lease e claimed.run_id claimed.lease_token) w.db.runs)
unfolding finalize_handler is_retryable
finalize_handler_lem (err error) e claimed result w c = refl
finalize_handler_lem (ok conn) e claimed (ok done) w c =
    let run = claimed.run_id in
    let token = claimed.lease_token in
    elim (List-cases (select (holds_lease e run token) w.db.runs)) [
      | inl idle ↦
          rw (idle, finalize_run-not_held e run token Outcome.completed w.db c.admitted idle)
            (elim (Bool-cases (terminal run w.db)) [
              | inl over ↦ rw over refl
              | inr live ↦ rw live refl
            ])
      | inr (y, ys, held) ↦
          rw (held, finalize_run-held e run token Outcome.completed w.db y ys c held) refl
    ]
finalize_handler_lem (ok conn) e claimed (err error) w c =
    let run = claimed.run_id in
    let token = claimed.lease_token in
    elim (List-cases (select (holds_lease e run token) w.db.runs)) [
      | inl idle ↦ rw (fail_run_lem e run token error.source error.retryable w.db c) (
          rw idle (elim (Bool-cases (terminal run w.db)) [
            | inl over ↦ rw over refl
            | inr live ↦ rw live refl
          ]))
      | inr (y, ys, held) ↦ rw (fail_run_lem e run token error.source error.retryable w.db c) (
          rw held (elim (Bool-cases (error.retryable && ltb y.attempt_count y.max_attempts)) [
            | inl again ↦ rw again refl
            | inr spent ↦ rw spent refl
          ]))
    ]
