-- ===== src/Tests/Workers.antt =====
-- Runs of a worker on concrete tables.
use pg_task_scheduler.Prelude.{
  ℕ, true, ◌+◌, ◌*◌, ◌≤◌, ◌<◌, ◌≡◌, refl, arith, codes, Text, text_eq, [], ◌∷◌, none, ok, Result,
  select, any, map,
}
use pg_task_scheduler.Error.{SchedulerError, JobError}
use pg_task_scheduler.Ids.{JobName}
use pg_task_scheduler.Ids.Policy.{name_check, starts, ends, is_posix_space}
use pg_task_scheduler.Models.Limits.{lease_as_duration}
use pg_task_scheduler.Models.Runs.{ClaimedRun, Outcome}
use pg_task_scheduler.Metrics.{incr, runs_completed}
use pg_task_scheduler.Store.Finalize.{holds_lease}
use pg_task_scheduler.Store.Finalize.Completion.{finalized}
use pg_task_scheduler.Store.Claim.Leases.{claimed}
use pg_task_scheduler.Store.Claim.Batch.{claim_of, claimed_rows}
use pg_task_scheduler.Runtime.Registry.{
  JobContext, Registry, empty_registry, register, register_lem, registered, first_wins, handler_of,
  boxed, decoded, names, lookup, contains_key, is_empty,
}
use pg_task_scheduler.Runtime.Builder.{
  SchedulerBuilder, Config, as_nanos, builder, register_handler, build, scheduler_of, from_secs,
}
use pg_task_scheduler.Runtime.Configured.{Built, IsRunnable, build-IsRunnable}
use pg_task_scheduler.Runtime.Dispatch.{
  World, InFlight, running, lost, handled, slept, connected, dispatch_event, dispatch_events,
  finalize_handler, heartbeat_interval,
}
use pg_task_scheduler.Runtime.Dispatch.Reports.{finalize_handler_lem}
use pg_task_scheduler.Runtime.Dispatch.Fenced.{
  beaten, beaten_task, heartbeat_lem, heartbeat_interval_lem, failed_heartbeat, cut_off_stops,
}
use pg_task_scheduler.Runtime.Worker.{
  State, claiming, triggered, recovering, claims, task, aborted, cancelled, drained, timed_out,
  on_db, claim_and_dispatch, run, started,
}
use pg_task_scheduler.Runtime.Worker.Permits.{total, run-permits}
use pg_task_scheduler.Runtime.Worker.Claims.{Dispatched, claim_and_dispatch_lem}
use pg_task_scheduler.Runtime.Worker.Shutdown.{IsOver, shutdown-IsOver}
use pg_task_scheduler.Runtime.Worker.Drops.{drops}
use pg_task_scheduler.Tests.Data.{
  at_time, mail, mailer, waiting as waiting_db, busy, waiting-IsConsistent, busy-IsConsistent,
}
use pg_task_scheduler.Tests.Done.{hourly, waiting-IsFresh, busy-HasStarted}

abbrev mail_name : JobName
mail_name = record { as_str = mail }

abbrev send : JobContext → Text → Result JobError (Unit {0})
send ctx args = ok tt

abbrev as_text : Text → Result Text Text
as_text value = ok value

register_lem_example :
    ((register as_text mail_name send empty_registry).1
      ≡ registered as_text (handler_of empty_registry mail_name) mail_name)
    × (handler_of (register as_text mail_name send empty_registry).0 mail_name
        ≡ first_wins as_text
            (handler_of empty_registry mail_name)
            (λ ctx value. decoded as_text send ctx (ok value))
            (text_eq mail mail))
register_lem_example = register_lem as_text mail_name mail_name send empty_registry

abbrev mails : Registry
mails = record { handlers = (mail_name, send) ∷ [] }

abbrev settings : Config
settings = record {
  worker_id = mailer;
  poll_interval = from_secs 1;
  reaper_interval = from_secs 20;
  shutdown_timeout = from_secs 25;
  max_concurrency = 2;
}

heartbeat_interval_lem_example :
    (0 < as_nanos (heartbeat_interval (lease_as_duration (record { micros = 5 }))))
    × (3 * as_nanos (heartbeat_interval (lease_as_duration (record { micros = 5 })))
        ≤ as_nanos (lease_as_duration (record { micros = 5 })))
    × (as_nanos (lease_as_duration (record { micros = 5 }))
        < 3 * (as_nanos (heartbeat_interval (lease_as_duration (record { micros = 5 }))) + 1))
heartbeat_interval_lem_example = heartbeat_interval_lem (record { micros = 5 }) (omega arith)

-- The task of `busy`, in the hands of its worker.
abbrev claimed_mail : ClaimedRun
claimed_mail = record {
  run_id = 1000;
  job_id = none;
  job_name = mail_name;
  job_args = [];
  scheduled_for = 100;
  attempt = 1;
  lease_token = 2000;
  lease_expires_at = 300000201;
  lease_duration = record { micros = 300000000 };
}

abbrev sending : InFlight
sending = record {
  claimed = claimed_mail;
  handler = send;
  cancellation = 2000;
  phase = running 300000201;
}

abbrev busy_world : World
busy_world = record { db = busy; counts = [] }

finalize_handler_lem_example :
    finalize_handler (ok tt) (at_time 300) claimed_mail (ok tt) busy_world ≡ record {
      db = finalized (at_time 300) 1000 2000 Outcome.completed busy;
      counts = incr runs_completed [];
    }
unfolding select holds_lease
finalize_handler_lem_example =
    finalize_handler_lem (ok tt) (at_time 300) claimed_mail (ok tt) busy_world busy-IsConsistent

heartbeat_lem_example :
    dispatch_event (slept (ok tt) (at_time 300) 300) sending busy_world
    ≡ beaten_task sending busy_world 300 (
        beaten
          (ok tt)
          (at_time 300)
          claimed_mail
          300000201
          busy
          (select (holds_lease (at_time 300) 1000 2000) busy.runs))
heartbeat_lem_example =
    heartbeat_lem (ok tt) (at_time 300) 300 300000201 sending busy_world refl busy-HasStarted
      busy-IsConsistent

cut_off_stops_example :
    dispatch_events
      (map failed_heartbeat
        ((codes "no pool", at_time 300, 300) ∷ (codes "no pool", at_time 400, 400000000) ∷ []))
      sending
      busy_world
    ≡ (busy_world, record sending { phase = lost })
unfolding any
cut_off_stops_example =
    cut_off_stops
      ((codes "no pool", at_time 300, 300) ∷ (codes "no pool", at_time 400, 400000000) ∷ []) sending
      busy_world 300000201 refl

abbrev to_text : SchedulerError → Text
to_text error = codes "failed"

abbrev token_of : ClaimedRun → ℕ
token_of c = c.lease_token

run-permits_example :
    total (
      run hourly to_text token_of mails settings
        (triggered (recovering (ok tt) (at_time 200))
          ∷ claims (ok tt) (at_time 200)
          ∷ task 0 handled
          ∷ [])
        (started settings (record { db = waiting_db; counts = [] })))
    ≡ 2
run-permits_example =
    run-permits hourly to_text token_of mails settings
      (triggered (recovering (ok tt) (at_time 200))
        ∷ claims (ok tt) (at_time 200)
        ∷ task 0 handled
        ∷ [])
      (record { db = waiting_db; counts = [] })

-- A worker with two permits, about to claim.
abbrev eager : State
eager = record (started settings (record { db = waiting_db; counts = [] })) { stage = claiming }

claim_and_dispatch_lem_example :
    (after : State) × (claim_and_dispatch token_of mails settings (ok tt) (at_time 200) eager
      ≡ (after, none))
    × Dispatched mails
        (map claim_of (claimed_rows (at_time 200) (names mails) 2 waiting_db))
        (on_db eager (claimed (at_time 200) mailer (names mails) 2 waiting_db))
        after
unfolding started name_check starts ends is_posix_space
claim_and_dispatch_lem_example =
    claim_and_dispatch_lem token_of mails settings (at_time 200) 1 eager refl (omega arith) refl
      waiting-IsFresh waiting-IsConsistent

-- A worker whose only handler blocks at first; it is cancelled, and its time is up.
abbrev blocked : State
blocked = record (started settings busy_world) { in_flight = sending ∷ []; permits = 1 }

blocked_dropped :
    (n : ℕ)
    → n < 1
    → any (drops n) (task 0 (connected (ok tt) (at_time 300)) ∷ aborted 0 ∷ []) ≡ true
unfolding any
blocked_dropped n h = ground (arith, h)

shutdown-IsOver_example :
    IsOver 0 (
      run hourly to_text token_of mails settings
        (cancelled
          ∷ timed_out
          ∷ task 0 (connected (ok tt) (at_time 300))
          ∷ aborted 0
          ∷ drained
          ∷ [])
        blocked)
    × (run hourly to_text token_of mails settings
          (cancelled
            ∷ timed_out
            ∷ task 0 (connected (ok tt) (at_time 300))
            ∷ aborted 0
            ∷ drained
            ∷ task 0 handled
            ∷ [])
          blocked
        ≡ run hourly to_text token_of mails settings
            (cancelled
              ∷ timed_out
              ∷ task 0 (connected (ok tt) (at_time 300))
              ∷ aborted 0
              ∷ drained
              ∷ [])
            blocked)
unfolding started
shutdown-IsOver_example =
    shutdown-IsOver hourly to_text token_of mails settings []
      (task 0 (connected (ok tt) (at_time 300)) ∷ aborted 0 ∷ []) (task 0 handled ∷ []) blocked refl
      blocked_dropped

-- A builder with one handler.
abbrev built : SchedulerBuilder (Unit {0})
built = record (builder tt mailer) { registry = mails }

built-Built : Built built
unfolding register_handler register contains_key handler_of lookup empty_registry builder boxed
    name_check starts ends is_posix_space
built-Built =
    Built.registers (builder tt mailer) built as_text (ok mail_name) send refl
      (Built.starts tt mailer refl)

build-IsRunnable_example : IsRunnable (scheduler_of built)
unfolding build is_empty builder
build-IsRunnable_example = build-IsRunnable built (scheduler_of built) built-Built refl
