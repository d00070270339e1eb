-- ===== src/Runtime/Worker/Drops.antt =====
-- src/runtime/worker.rs: tasks that are over stay so, and one that is dropped is over.
use pg_task_scheduler.Prelude.{
  ℕ, zero, suc, ◌≡◌, ◌<◌, ◌==◌, ◌||◌, refl, ap, arith, Bool, true, false, not, List, [], ◌∷◌, any,
  length,
}
use pg_task_scheduler.Runtime.Dispatch.{
  World, InFlight, Phase, running, returned, lost, reported, DispatchEvent, dispatch_event,
}
use pg_task_scheduler.Runtime.Worker.{
  Event, aborted, has_ended, is_active, task_event, drop_task, dropped,
}

-- The n-th task, if there is one, is over.
abbrev pub over_at : ℕ → List InFlight → Bool
over_at n [] = true
over_at zero (t ∷ ts) = not (is_active t)
over_at (suc n) (t ∷ ts) = over_at n ts

-- The event is that the n-th task is dropped.
abbrev pub drops : ℕ → Event → Bool
drops n (aborted m) = n == m
drops n _ = false

over-silent :
    (phase : Phase) (event : DispatchEvent) (t : InFlight) (w : World)
    → t.phase ≡ phase
    → has_ended phase ≡ true
    → is_active (dispatch_event event t w).1 ≡ false
unfolding is_active dispatch_event
over-silent (running expires) event t w h over = absurd (ground (arith, over))
over-silent (returned result) event t w h over = absurd (ground (arith, over))
over-silent lost event t w h over = rw h refl
over-silent reported event t w h over = rw h refl

ended_phase : (t : InFlight) → not (is_active t) ≡ true → has_ended t.phase ≡ true
unfolding is_active
ended_phase t h = ground (arith, h)

dropped-over : (t : InFlight) → is_active (dropped t) ≡ false
unfolding is_active
dropped-over t = ground arith

pub task_event-over_at :
    (n m : ℕ) (event : DispatchEvent) (ts : List InFlight) (w : World)
    → over_at n ts ≡ true
    → over_at n (task_event m event ts w).1 ≡ true
unfolding task_event
task_event-over_at n m event [] w h = h
task_event-over_at zero zero event (t ∷ ts) w h =
    rw (over-silent t.phase event t w refl (ended_phase t h)) refl
task_event-over_at (suc n) zero event (t ∷ ts) w h = h
task_event-over_at zero (suc m) event (t ∷ ts) w h = h
task_event-over_at (suc n) (suc m) event (t ∷ ts) w h = task_event-over_at n m event ts w h

pub drop_task-over_at :
    (n m : ℕ) (ts : List InFlight)
    → (over_at n ts || n == m) ≡ true
    → over_at n (drop_task m ts).0 ≡ true
unfolding drop_task is_active
drop_task-over_at n m [] h = refl
drop_task-over_at zero zero (t ∷ ts) h = rw (dropped-over t) refl
drop_task-over_at (suc n) zero (t ∷ ts) h = ground (arith, h)
drop_task-over_at zero (suc m) (t ∷ ts) h = ground (arith, h)
drop_task-over_at (suc n) (suc m) (t ∷ ts) h = drop_task-over_at n m ts (ground (arith, h))

pub task_event-length :
    (m : ℕ) (event : DispatchEvent) (ts : List InFlight) (w : World)
    → length (task_event m event ts w).1 ≡ length ts
unfolding task_event
task_event-length m event [] w = refl
task_event-length zero event (t ∷ ts) w = refl
task_event-length (suc m) event (t ∷ ts) w = ap suc (task_event-length m event ts w)

pub drop_task-length : (m : ℕ) (ts : List InFlight) → length (drop_task m ts).0 ≡ length ts
unfolding drop_task
drop_task-length m [] = refl
drop_task-length zero (t ∷ ts) = refl
drop_task-length (suc m) (t ∷ ts) = ap suc (drop_task-length m ts)

pub all_over :
    (ts : List InFlight)
    → ((n : ℕ) → n < length ts → over_at n ts ≡ true)
    → any is_active ts ≡ false
unfolding any
all_over [] h = refl
all_over (t ∷ ts) h =
    ground (arith, h 0 (omega arith), all_over ts (λ n k. h (suc n) (omega (arith, k))))
