-- ===== src/Runtime/Configured.antt =====
-- src/runtime/builder.rs: what the types guarantee of a worker that its builder makes.
use pg_task_scheduler.Prelude.{
  ℕ, ◌≤◌, ◌<◌, ◌≡◌, arith, Text, length, true, false, List, [], ◌∷◌, map, Result, ok, err, inl, inr,
  subst, Bool-cases,
}
use pg_task_scheduler.Error.{JobError}
use pg_task_scheduler.Ids.{IdentifierError, JobName, WorkerId}
use pg_task_scheduler.Ids.Policy.{name_check}
use pg_task_scheduler.Models.Limits.{Duration}
use pg_task_scheduler.Runtime.Registry.{
  JobContext, Handler, is_empty, names, register, contains_key,
}
use pg_task_scheduler.Runtime.Builder.{
  SchedulerBuilder, Scheduler, as_nanos, builder, poll_interval, reaper_interval, shutdown_timeout,
  max_concurrency, register_handler, build, build_iff,
}

handlers-names :
    (entries : List (JobName × Handler))
    → is_empty (record { handlers = entries }) ≡ false
    → 0 < length (map (λ entry. entry.0.as_str) entries)
unfolding is_empty
handlers-names [] h = absurd (ground arith)
handlers-names (x ∷ xs) h = omega arith

module _ {P : Type 0} where
  -- A builder that its functions have made: a `WorkerId` has passed the identifier policy, and a
  -- `NonZeroUsize` is positive.
  pub data Built : SchedulerBuilder P → Type 1 where
    starts : (pool : P) (w : WorkerId) → name_check w.as_str ≡ true → Built (builder pool w)
    polls : (b : SchedulerBuilder P) (d : Duration) → Built b → Built (poll_interval d b)
    reaps : (b : SchedulerBuilder P) (d : Duration) → Built b → Built (reaper_interval d b)
    drains : (b : SchedulerBuilder P) (d : Duration) → Built b → Built (shutdown_timeout d b)
    limits : (b : SchedulerBuilder P) (n : ℕ) → 1 ≤ n → Built b → Built (max_concurrency n b)
    registers :
        {A : Type 0} (b after : SchedulerBuilder P) (from_value : Text → Result Text A)
        (name : Result IdentifierError JobName)
        (handler : JobContext → A → Result JobError (Unit {0}))
        → register_handler from_value name handler b ≡ ok after
        → Built b
        → Built after

  pub record IsRunnable (s : Scheduler P) : Type 0 where
    pub named : name_check s.config.worker_id.as_str ≡ true
    pub concurrent : 1 ≤ s.config.max_concurrency
    pub handles : 0 < length (names s.registry)
    pub polls : 0 < as_nanos s.config.poll_interval
    pub reaps : 0 < as_nanos s.config.reaper_interval

  registered-keeps :
      {A : Type 0} (b after : SchedulerBuilder P) (from_value : Text → Result Text A)
      (name : Result IdentifierError JobName)
      (handler : JobContext → A → Result JobError (Unit {0}))
      → register_handler from_value name handler b ≡ ok after
      → (after.worker_id ≡ b.worker_id) × (after.max_concurrency ≡ b.max_concurrency)
  unfolding register_handler register
  registered-keeps b after from_value (err e) handler h = ground arith
  registered-keeps b after from_value (ok name) handler h =
      elim (Bool-cases (contains_key b.registry name)) [
        | inl taken ↦ ground arith
        | inr free ↦ ground arith
      ]

  Built-named : (b : SchedulerBuilder P) → Built b → name_check b.worker_id.as_str ≡ true
  unfolding builder poll_interval reaper_interval shutdown_timeout max_concurrency
  Built-named b (starts pool w named) = named
  Built-named b (polls b' d built) = Built-named b' built
  Built-named b (reaps b' d built) = Built-named b' built
  Built-named b (drains b' d built) = Built-named b' built
  Built-named b (limits b' n h built) = Built-named b' built
  Built-named b (registers b' after from_value name handler h built) =
      rw ((registered-keeps b' b from_value name handler h).0) (Built-named b' built)

  Built-concurrent : (b : SchedulerBuilder P) → Built b → 1 ≤ b.max_concurrency
  unfolding builder poll_interval reaper_interval shutdown_timeout max_concurrency
  Built-concurrent b (starts pool w named) = omega arith
  Built-concurrent b (polls b' d built) = Built-concurrent b' built
  Built-concurrent b (reaps b' d built) = Built-concurrent b' built
  Built-concurrent b (drains b' d built) = Built-concurrent b' built
  Built-concurrent b (limits b' n h built) = h
  Built-concurrent b (registers b' after from_value name handler h built) =
      rw ((registered-keeps b' b from_value name handler h).1) (Built-concurrent b' built)

  -- A worker that a builder makes, whatever its functions were called with and in whatever order, can
  -- run: its id meets the database's CHECK, it may run at least one handler at a time and has one, and
  -- its intervals are not empty.
  pub build-IsRunnable :
      (b : SchedulerBuilder P) (s : Scheduler P) → Built b → build b ≡ ok s → IsRunnable s
  unfolding names
  build-IsRunnable b s built h =
      let (full, polling, reaping, same) = (build_iff b s).0 h in
      subst IsRunnable same (record {
        named = Built-named b built;
        concurrent = Built-concurrent b built;
        handles = handlers-names b.registry.handlers full;
        polls = polling;
        reaps = reaping;
      })
