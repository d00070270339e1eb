-- ===== src/Runtime/Dispatch/Steps.antt =====
-- dispatch of src/runtime/worker.rs: what each of its events may do to the tables.
use pg_task_scheduler.Prelude.{ℕ, ◌≡◌, ◌⊎◌, refl, inl, inr, ok, err}
use pg_task_scheduler.Error.{JobError, is_retryable}
use pg_task_scheduler.Models.Runs.{Outcome}
use pg_task_scheduler.Db.{Db, Env}
use pg_task_scheduler.Store.Finalize.{finalize_run, fail_run, renew_lease}
use pg_task_scheduler.Store.Finalize.Renewal.{HasStarted}
use pg_task_scheduler.Runtime.Dispatch.{
  World, InFlight, Phase, running, returned, lost, reported, DispatchEvent, handled, panicked,
  slept, connected, heartbeat, finalize_handler, dispatch_event,
}

-- The server's clock at a heartbeat is not behind the start of any run.
abbrev pub IsTimely : DispatchEvent → Db → Type 0
IsTimely (slept acquired e utc_now) db = HasStarted e db
IsTimely handled db = Unit
IsTimely panicked db = Unit
IsTimely (connected acquired e) db = Unit

-- What a task may do to the tables at an event, under the id and the token that it was claimed with:
-- a running one renews its lease at a heartbeat, and one whose handler has returned reports just that
-- result, each on a connection.
pub data TaskActs (t : InFlight) : DispatchEvent → Db → Db → Type 0 where
  renews :
      (e : Env) (utc_now expires : ℕ) (db : Db)
      → t.phase ≡ running expires
      → HasStarted e db
      → TaskActs t
          (slept (ok tt) e utc_now)
          db
          (renew_lease e t.claimed.run_id t.claimed.lease_token db).0
  completes :
      (e : Env) (db : Db)
      → t.phase ≡ returned (ok tt)
      → TaskActs t
          (connected (ok tt) e)
          db
          (finalize_run e t.claimed.run_id t.claimed.lease_token Outcome.completed db).0
  fails :
      (e : Env) (error : JobError) (db : Db)
      → t.phase ≡ returned (err error)
      → TaskActs t
          (connected (ok tt) e)
          db
          (fail_run e t.claimed.run_id t.claimed.lease_token error.source (is_retryable error) db).0

phase-acts :
    (phase : Phase) (event : DispatchEvent) (t : InFlight) (w : World)
    → t.phase ≡ phase
    → IsTimely event w.db
    → ((dispatch_event event t w).0.db ≡ w.db)
      ⊎ TaskActs t event w.db (dispatch_event event t w).0.db
unfolding dispatch_event heartbeat finalize_handler
phase-acts (running expires) handled t w h timely = rw h (inl refl)
phase-acts (running expires) panicked t w h timely = rw h (inl refl)
phase-acts (running expires) (slept (err error) e utc_now) t w h timely = rw h (inl refl)
phase-acts (running expires) (slept (ok conn) e utc_now) t w h timely =
    rw h (inr (renews e utc_now expires w.db refl timely))
phase-acts (running expires) (connected acquired e) t w h timely = rw h (inl refl)
phase-acts (returned result) handled t w h timely = rw h (inl refl)
phase-acts (returned result) panicked t w h timely = rw h (inl refl)
phase-acts (returned result) (slept acquired e utc_now) t w h timely = rw h (inl refl)
phase-acts (returned result) (connected (err error) e) t w h timely = rw h (inl refl)
phase-acts (returned (ok done)) (connected (ok conn) e) t w h timely =
    rw h (inr (completes e w.db refl))
phase-acts (returned (err error)) (connected (ok conn) e) t w h timely =
    rw h (inr (fails e error w.db refl))
phase-acts lost event t w h timely = rw h (inl refl)
phase-acts reported event t w h timely = rw h (inl refl)

-- At an event a task leaves the tables as they are, or does what it may.
pub dispatch_event-acts :
    (event : DispatchEvent) (t : InFlight) (w : World)
    → IsTimely event w.db
    → ((dispatch_event event t w).0.db ≡ w.db)
      ⊎ TaskActs t event w.db (dispatch_event event t w).0.db
dispatch_event-acts event t w timely = phase-acts t.phase event t w refl timely
