-- ===== src/Runtime/Worker/Shutdown.antt =====
-- run_until_shutdown of src/runtime/worker.rs after its cancellation.
use pg_task_scheduler.Prelude.{
  ℕ, ◌≡◌, ◌⊎◌, ◌<◌, ◌||◌, refl, ap, ◌∙◌, arith, Text, true, false, List, [], ◌∷◌, ◌++◌, none, any,
  length, count-not_any, select-none, Bool-cases, inl, inr,
}
use pg_task_scheduler.Error.{SchedulerError}
use pg_task_scheduler.Models.Runs.{ClaimedRun}
use pg_task_scheduler.Cron.{Croner}
use pg_task_scheduler.Runtime.Registry.{Registry}
use pg_task_scheduler.Runtime.Health.{stopped}
use pg_task_scheduler.Runtime.Builder.{Config}
use pg_task_scheduler.Runtime.Worker.{
  State, Stage, waiting, draining, aborting, ended, Event, triggered, claims, task, aborted,
  cancelled, drained, timed_out, is_active, join_ended, stop, abort_all, on_event, run,
}
use pg_task_scheduler.Runtime.Worker.Drops.{
  over_at, drops, task_event-over_at, drop_task-over_at, task_event-length, drop_task-length,
  all_over,
}

-- The worker has returned: no task is left, and the last word on its health is said, with the number
-- of cycles that had failed in a row.
pub record IsOver (failures : ℕ) (s : State) : Type 0 where
  pub stage : s.stage ≡ ended
  pub in_flight : s.in_flight ≡ []
  pub health :
      s.health ≡ record { status = stopped; consecutive_failures = failures; last_error = none }

-- The drain, or the joins after it, with so many tasks spawned.
record IsLeaving (stage : Stage) (failures spawned : ℕ) (s : State) : Type 0 where
  at : s.stage ≡ stage
  failed : s.failures ≡ failures
  tasks : length s.in_flight ≡ spawned

stop-IsOver :
    (failures : ℕ) (s : State)
    → s.failures ≡ failures
    → any is_active s.in_flight ≡ false
    → IsOver failures (stop s)
unfolding stop join_ended
stop-IsOver failures s h idle = record {
  stage = refl;
  in_flight = select-none is_active s.in_flight (count-not_any is_active s.in_flight idle);
  health = λ i. record { status = stopped; consecutive_failures = h i; last_error = none };
}

module _ (croner : Croner) (to_string : SchedulerError → Text) (cancellation : ClaimedRun → ℕ)
    (registry : Registry) (config : Config) where
  abbrev runs : List Event → State → State
  runs = run croner to_string cancellation registry config

  abbrev event_of : Event → State → State
  event_of = on_event croner to_string cancellation registry config

  over_silent : (event : Event) (s : State) → s.stage ≡ ended → event_of event s ≡ s
  unfolding on_event
  over_silent event s h = rw h refl

  over-run : (events : List Event) (s : State) → s.stage ≡ ended → runs events s ≡ s
  unfolding run
  over-run [] s h = refl
  over-run (event ∷ events) s h = ap (runs events) (over_silent event s h) ∙ over-run events s h

  run-append :
      (before after : List Event) (s : State)
      → runs (before ++ after) s ≡ runs after (runs before s)
  unfolding run
  run-append [] after s = refl
  run-append (event ∷ before) after s = run-append before after (event_of event s)

  module _ (failures spawned : ℕ) where
    abbrev Leaving : Stage → State → Type 0
    Leaving stage = IsLeaving stage failures spawned

    cancel-Leaving :
        (s : State)
        → s.stage ≡ waiting
        → s.failures ≡ failures
        → length s.in_flight ≡ spawned
        → Leaving draining (event_of cancelled s)
    unfolding on_event
    cancel-Leaving s h failed tasks = rw h (record { at = refl; failed = failed; tasks = tasks })

    drain-event :
        (event : Event) (s : State)
        → Leaving draining s
        → Leaving draining (event_of event s) ⊎ Leaving aborting (event_of event s)
    unfolding on_event abort_all
    drain-event (triggered t) s h =
        rw (h.at) (inl (record { at = refl; failed = h.failed; tasks = h.tasks }))
    drain-event (claims acquired e) s h =
        rw (h.at) (inl (record { at = refl; failed = h.failed; tasks = h.tasks }))
    drain-event (task n event) s h = rw (h.at) (
        inl (record {
          at = refl;
          failed = h.failed;
          tasks = task_event-length n event s.in_flight s.world ∙ h.tasks;
        }))
    drain-event (aborted n) s h =
        rw (h.at) (inl (record { at = refl; failed = h.failed; tasks = h.tasks }))
    drain-event cancelled s h =
        rw (h.at) (inl (record { at = refl; failed = h.failed; tasks = h.tasks }))
    drain-event drained s h = elim (Bool-cases (any is_active s.in_flight)) [
      | inl busy ↦ rw (h.at, busy) (inl (record { at = refl; failed = h.failed; tasks = h.tasks }))
      | inr idle ↦ rw (h.at, idle) (inr (record { at = refl; failed = h.failed; tasks = h.tasks }))
    ]
    drain-event timed_out s h =
        rw (h.at) (inr (record { at = refl; failed = h.failed; tasks = h.tasks }))

    time_out : (s : State) → Leaving draining s → Leaving aborting (event_of timed_out s)
    unfolding on_event abort_all
    time_out s h = rw (h.at) (record { at = refl; failed = h.failed; tasks = h.tasks })

    -- The tasks that are over stay so, and one that is dropped is over.
    abbrev Advances : Event → State → State → Type 0
    Advances event s after =
        Leaving aborting after
        × ((n : ℕ)
            → (over_at n s.in_flight || drops n event) ≡ true
            → over_at n after.in_flight ≡ true)

    abort-event :
        (event : Event) (s : State)
        → Leaving aborting s
        → Advances event s (event_of event s) ⊎ IsOver failures (event_of event s)
    unfolding on_event
    abort-event (triggered t) s h =
        rw (h.at)
          (inl (record { at = refl; failed = h.failed; tasks = h.tasks }, λ n k. ground (arith, k)))
    abort-event (claims acquired e) s h =
        rw (h.at)
          (inl (record { at = refl; failed = h.failed; tasks = h.tasks }, λ n k. ground (arith, k)))
    abort-event (task m event) s h = rw (h.at) (
        inl (
          record {
            at = refl;
            failed = h.failed;
            tasks = task_event-length m event s.in_flight s.world ∙ h.tasks;
          },
          λ n k. task_event-over_at n m event s.in_flight s.world (ground (arith, k)),
        ))
    abort-event (aborted m) s h = rw (h.at) (
        inl (
          record { at = refl; failed = h.failed; tasks = drop_task-length m s.in_flight ∙ h.tasks },
          λ n k. drop_task-over_at n m s.in_flight k,
        ))
    abort-event cancelled s h =
        rw (h.at)
          (inl (record { at = refl; failed = h.failed; tasks = h.tasks }, λ n k. ground (arith, k)))
    abort-event drained s h = elim (Bool-cases (any is_active s.in_flight)) [
      | inl busy ↦
          rw (h.at, busy)
            (inl
              (record { at = refl; failed = h.failed; tasks = h.tasks }, λ n k. ground (arith, k)))
      | inr idle ↦
          rw (h.at, idle) (inr (stop-IsOver failures (record s { stage = aborting }) h.failed idle))
    ]
    abort-event timed_out s h =
        rw (h.at)
          (inl (record { at = refl; failed = h.failed; tasks = h.tasks }, λ n k. ground (arith, k)))

    -- The last task is joined.
    joins :
        (s : State)
        → Leaving aborting s
        → ((n : ℕ) → n < spawned → over_at n s.in_flight ≡ true)
        → IsOver failures (event_of drained s)
    unfolding on_event
    joins s h over =
        let idle = all_over s.in_flight (λ n k. over n (omega (arith, k, h.tasks))) in
        rw (h.at, idle) (stop-IsOver failures (record s { stage = aborting }) h.failed idle)

    abort-run :
        (events : List Event) (s : State)
        → Leaving aborting s
        → ((n : ℕ) → n < spawned → (over_at n s.in_flight || any (drops n) events) ≡ true)
        → IsOver failures (runs (events ++ drained ∷ []) s)
    unfolding run any
    abort-run [] s h over = joins s h (λ n k. ground (arith, over n k))
    abort-run (event ∷ events) s h over = elim (abort-event event s h) [
      | inl (still, advances) ↦
          abort-run events (event_of event s) still (λ n k. ground (arith, over n k, advances n))
      | inr done ↦ rw (over-run (events ++ drained ∷ []) (event_of event s) done.stage) done
    ]

    -- In the joins, whatever comes before the time is up.
    waits-run :
        (during after : List Event) (s : State)
        → Leaving aborting s
        → ((n : ℕ) → n < spawned → any (drops n) after ≡ true)
        → IsOver failures (runs (during ++ timed_out ∷ after ++ drained ∷ []) s)
    unfolding run any
    waits-run [] after s h over =
        abort-run (timed_out ∷ after) s h (λ n k. ground (arith, over n k))
    waits-run (event ∷ during) after s h over = elim (abort-event event s h) [
      | inl (still, advances) ↦ waits-run during after (event_of event s) still over
      | inr done ↦
          rw (over-run (during ++ timed_out ∷ after ++ drained ∷ []) (event_of event s) done.stage)
            done
    ]

    drain-run :
        (during after : List Event) (s : State)
        → Leaving draining s
        → ((n : ℕ) → n < spawned → any (drops n) after ≡ true)
        → IsOver failures (runs (during ++ timed_out ∷ after ++ drained ∷ []) s)
    unfolding run
    drain-run [] after s h over =
        abort-run after (event_of timed_out s) (time_out s h) (λ n k. ground (arith, over n k))
    drain-run (event ∷ during) after s h over = elim (drain-event event s h) [
      | inl still ↦ drain-run during after (event_of event s) still over
      | inr gone ↦ waits-run during after (event_of event s) gone over
    ]

  -- The worker ends, if its handlers let it. Once it is cancelled between two cycles, whatever its
  -- tasks do during the drain and after it: when the shutdown's time is up and then every task that
  -- was in flight has come to an `.await`, where it is dropped, the worker has returned as soon as it
  -- is done with its joins. No task is left, its health says that it has stopped, and nothing that
  -- comes later changes its state or the tables, so no dropped handler ever reports.
  pub shutdown-IsOver :
      (during after later : List Event) (s : State)
      → s.stage ≡ waiting
      → ((n : ℕ) → n < length s.in_flight → any (drops n) after ≡ true)
      → IsOver s.failures (runs (cancelled ∷ during ++ timed_out ∷ after ++ drained ∷ []) s)
        × (runs ((cancelled ∷ during ++ timed_out ∷ after ++ drained ∷ []) ++ later) s
            ≡ runs (cancelled ∷ during ++ timed_out ∷ after ++ drained ∷ []) s)
  unfolding run
  shutdown-IsOver during after later s h dropped_all =
      let events = cancelled ∷ during ++ timed_out ∷ after ++ drained ∷ [] in
      let over =
        drain-run s.failures (length s.in_flight) during after (event_of cancelled s)
          (cancel-Leaving s.failures (length s.in_flight) s h refl refl) dropped_all in
      (over, run-append events later s ∙ over-run later (runs events s) over.stage)
