-- ===== src/Runtime/Dispatch/Fenced.antt =====
-- dispatch of src/runtime/worker.rs: heartbeats, and leases that are lost.
use pg_task_scheduler.Prelude.{
  ℕ, ◌+◌, ◌*◌, ◌≤◌, ◌<◌, ◌≡◌, refl, arith, ltb, leb, Text, Bool, true, false, List, [], ◌∷◌, Option,
  none, some, ok, err, map, any, select, List-cases, Bool-cases, ◌⊎◌, inl, inr, ◌∙◌, if◌then◌else◌,
}
use pg_task_scheduler.Db.{Db, Env, Run}
use pg_task_scheduler.Consistency.{IsConsistent}
use pg_task_scheduler.Models.Limits.{LeaseDuration, lease_as_duration}
use pg_task_scheduler.Models.Runs.{ClaimedRun}
use pg_task_scheduler.Store.Finalize.{holds_lease}
use pg_task_scheduler.Store.Finalize.Renewal.{HasStarted, renewed, new_expiry, renew_lease_lem}
use pg_task_scheduler.Runtime.Builder.{as_nanos}
use pg_task_scheduler.Runtime.Dispatch.{
  World, Acquired, InFlight, Phase, running, lost, reported, DispatchEvent, slept, heartbeat,
  heartbeat_interval, phase_at, dispatch_event, dispatch_events,
}

-- The heartbeat of a lease is a third of it, rounded down to a nanosecond: it is never zero, and
-- three of them fit into the lease.
pub heartbeat_interval_lem :
    (l : LeaseDuration)
    → 1 ≤ l.micros
    → (0 < as_nanos (heartbeat_interval (lease_as_duration l)))
      × (3 * as_nanos (heartbeat_interval (lease_as_duration l)) ≤ as_nanos (lease_as_duration l))
      × (as_nanos (lease_as_duration l)
          < 3 * (as_nanos (heartbeat_interval (lease_as_duration l)) + 1))
unfolding heartbeat_interval lease_as_duration
heartbeat_interval_lem l h = ground arith

-- What a heartbeat does: without a connection nothing, and with one the lease is renewed if some run
-- holds it, and found lost if not.
abbrev pub beaten : Acquired → Env → ClaimedRun → ℕ → Db → List Run → Db × Option ℕ
beaten (err error) e claimed expires db held = (db, some expires)
beaten (ok conn) e claimed expires db [] = (db, none)
beaten (ok conn) e claimed expires db (r ∷ held) =
    (renewed e claimed.run_id claimed.lease_token (new_expiry e r) db, some (new_expiry e r))

-- The handler goes on while the known expiry is ahead.
abbrev pub kept_until : ℕ → Option ℕ → Phase
kept_until utc_now none = lost
kept_until utc_now (some expires) = if ltb utc_now expires then running expires else lost

phase_at-kept_until :
    (utc_now : ℕ) (expiry : Option ℕ) → phase_at utc_now expiry ≡ kept_until utc_now expiry
phase_at-kept_until utc_now none = refl
phase_at-kept_until utc_now (some expires) = ground arith

abbrev pub beaten_task : InFlight → World → ℕ → Db × Option ℕ → World × InFlight
beaten_task task w utc_now (db, expiry) =
    (record w { db = db }, record task { phase = kept_until utc_now expiry })

-- A heartbeat of a running task, on consistent tables with a server's clock that is not behind any
-- start. Without a connection the tables and the known expiry stay. With one, the lease is renewed if
-- the run is still running under the task's token and its lease is not over, and is lost otherwise.
-- The handler goes on only if the host's clock is before the expiry that is then known.
pub heartbeat_lem :
    (acquired : Acquired) (e : Env) (utc_now expires : ℕ) (task : InFlight) (w : World)
    → task.phase ≡ running expires
    → HasStarted e w.db
    → IsConsistent w.db
    → dispatch_event (slept acquired e utc_now) task w
      ≡ beaten_task task w utc_now (
          beaten acquired e task.claimed expires w.db
            (select (holds_lease e task.claimed.run_id task.claimed.lease_token) w.db.runs))
unfolding dispatch_event heartbeat
heartbeat_lem (err error) e utc_now expires task w h s c =
    rw h (λ i. (w, record task { phase = phase_at-kept_until utc_now (some expires) i }))
heartbeat_lem (ok conn) e utc_now expires task w h s c =
    let run = task.claimed.run_id in
    let token = task.claimed.lease_token in
    rw h (elim (List-cases (select (holds_lease e run token) w.db.runs)) [
      | inl idle ↦ rw (renew_lease_lem e run token w.db s c) (rw idle refl)
      | inr (y, ys, held) ↦ rw (renew_lease_lem e run token w.db s c) (
          rw held (λ i. (
            record w { db = renewed e run token (new_expiry e y) w.db },
            record task { phase = phase_at-kept_until utc_now (some (new_expiry e y)) i },
          )))
    ])

dispatch_events-cons :
    (event : DispatchEvent) (events : List DispatchEvent) (task moved : InFlight) (w after : World)
    → dispatch_event event task w ≡ (after, moved)
    → dispatch_events (event ∷ events) task w ≡ dispatch_events events moved after
unfolding dispatch_events
dispatch_events-cons event events task moved w after h = rw h refl

silent :
    (events : List DispatchEvent) (task : InFlight) (w : World)
    → ((event : DispatchEvent) → dispatch_event event task w ≡ (w, task))
    → dispatch_events events task w ≡ (w, task)
unfolding dispatch_events
silent [] task w still = refl
silent (event ∷ events) task w still = rw (still event) (silent events task w still)

-- A task that has lost its lease, or has reported, does nothing more: whatever events come, it
-- neither changes the tables nor counts anything, so a handler that was cancelled never reports.
pub lost_silent :
    (events : List DispatchEvent) (task : InFlight) (w : World)
    → (task.phase ≡ lost) ⊎ (task.phase ≡ reported)
    → dispatch_events events task w ≡ (w, task)
unfolding dispatch_event
lost_silent events task w (inl h) = silent events task w (λ event. rw h refl)
lost_silent events task w (inr h) = silent events task w (λ event. rw h refl)

-- A heartbeat at the given time of the host that gets no connection, with the pool's error.
abbrev pub failed_heartbeat : Text × Env × ℕ → DispatchEvent
failed_heartbeat (error, e, utc_now) = slept (err error) e utc_now

beat_missed :
    (error : Text) (e : Env) (utc_now expires : ℕ) (late : Bool) (task : InFlight) (w : World)
    → task.phase ≡ running expires
    → leb expires utc_now ≡ late
    → dispatch_event (failed_heartbeat (error, e, utc_now)) task w
      ≡ (w, record task { phase = if late then lost else running expires })
unfolding dispatch_event heartbeat
beat_missed error e utc_now expires late task w h clock = rw (h, clock) refl

-- A worker that is cut off stops in time: while no heartbeat gets a connection, a running task goes on
-- with nothing changed, and once the host's clock is not before the expiry at one of them its handler
-- is cancelled, with no report.
pub cut_off_stops :
    (beats : List (Text × Env × ℕ)) (task : InFlight) (w : World) (expires : ℕ)
    → task.phase ≡ running expires
    → dispatch_events (map failed_heartbeat beats) task w ≡ (
      w,
      record task {
        phase = if any (λ beat. leb expires beat.2) beats then lost else running expires;
      },
    )
unfolding any dispatch_events
cut_off_stops [] task w expires h = λ i. (w, record task { phase = h i })
cut_off_stops ((error, e, utc_now) ∷ beats) task w expires h =
    elim (Bool-cases (leb expires utc_now)) [
      | inl over ↦ rw over (
          dispatch_events-cons (failed_heartbeat (error, e, utc_now)) (map failed_heartbeat beats)
            task (record task { phase = lost }) w w
            (beat_missed error e utc_now expires true task w h over)
          ∙ lost_silent (map failed_heartbeat beats) (record task { phase = lost }) w (inl refl))
      | inr early ↦ rw early (
          dispatch_events-cons (failed_heartbeat (error, e, utc_now)) (map failed_heartbeat beats)
            task (record task { phase = running expires }) w w
            (beat_missed error e utc_now expires false task w h early)
          ∙ cut_off_stops beats (record task { phase = running expires }) w expires refl)
    ]
