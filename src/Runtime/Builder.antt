-- ===== src/Runtime/Builder.antt =====
-- src/runtime/builder.rs: the configuration of a worker, and the checks that it passes.
use pg_task_scheduler.Prelude.{
  ℕ, ◌+◌, ◌*◌, ◌<◌, ◌≡◌, ◌↔◌, arith, ◌==◌, Text, codes, Bool, false, ◌&&◌, if◌then◌else◌, Result,
  ok, err, map_err,
}
use pg_task_scheduler.Prelude.{◌>>=◌ as bind_result}
use pg_task_scheduler.Error.{SchedulerError, config, RegisterError, name_error, duplicate, JobError}
use pg_task_scheduler.Ids.{IdentifierError, JobName, WorkerId, job_name_try_from}
use pg_task_scheduler.Models.Limits.{Duration}
use pg_task_scheduler.Runtime.Registry.{JobContext, Registry, empty_registry, is_empty, register}
use pg_task_scheduler.Runtime.Health.{WorkerHealth, health_default}

abbrev pub from_secs : ℕ → Duration
from_secs n = record { secs = n; subsec_nanos = 0 }

-- `Duration::is_zero`.
abbrev pub is_zero : Duration → Bool
is_zero d = d.secs == 0 && d.subsec_nanos == 0

abbrev pub as_nanos : Duration → ℕ
as_nanos d = d.secs * 1000000000 + d.subsec_nanos

abbrev pub default_max_concurrency : ℕ
default_max_concurrency = 16

pub record Config : Type 0 where
  pub worker_id : WorkerId
  pub poll_interval : Duration
  pub reaper_interval : Duration
  pub shutdown_timeout : Duration
  pub max_concurrency : ℕ

pub record SchedulerBuilder (P : Type 0) : Type 0 where
  pub pool : P
  pub registry : Registry
  pub worker_id : WorkerId
  pub poll_interval : Duration
  pub reaper_interval : Duration
  pub shutdown_timeout : Duration
  pub max_concurrency : ℕ

-- `health` is the value in the watch channel.
pub record Scheduler (P : Type 0) : Type 0 where
  pub pool : P
  pub registry : Registry
  pub config : Config
  pub health : WorkerHealth

module _ {P : Type 0} where
  -- `Scheduler::builder`.
  unfoldable pub builder : P → WorkerId → SchedulerBuilder P
  unfolding empty_registry
  builder pool worker_id = record {
    pool = pool;
    registry = empty_registry;
    worker_id = worker_id;
    poll_interval = from_secs 1;
    reaper_interval = from_secs 20;
    shutdown_timeout = from_secs 25;
    max_concurrency = default_max_concurrency;
  }

  unfoldable pub poll_interval : Duration → SchedulerBuilder P → SchedulerBuilder P
  poll_interval d b = record b { poll_interval = d }

  unfoldable pub reaper_interval : Duration → SchedulerBuilder P → SchedulerBuilder P
  reaper_interval d b = record b { reaper_interval = d }

  unfoldable pub shutdown_timeout : Duration → SchedulerBuilder P → SchedulerBuilder P
  shutdown_timeout d b = record b { shutdown_timeout = d }

  unfoldable pub max_concurrency : ℕ → SchedulerBuilder P → SchedulerBuilder P
  max_concurrency n b = record b { max_concurrency = n }

  -- `SchedulerBuilder::register`, given what the conversion of the name yields.
  unfoldable pub register_handler :
      {A : Type 0}
      → (Text → Result Text A)
      → Result IdentifierError JobName
      → (JobContext → A → Result JobError (Unit {0}))
      → SchedulerBuilder P
      → Result RegisterError (SchedulerBuilder P)
  register_handler from_value name handler b = bind_result (map_err name_error name) λ name.
      let (registry, result) = register from_value name handler b.registry in
      bind_result (map_err duplicate result) λ _. ok (record b { registry = registry })

  unfoldable pub register_task :
      {A : Type 0}
      → (Text → Result Text A)
      → Text
      → (JobContext → A → Result JobError (Unit {0}))
      → SchedulerBuilder P
      → Result RegisterError (SchedulerBuilder P)
  register_task from_value task_name handler b =
      register_handler from_value (job_name_try_from task_name) handler b

  abbrev pub scheduler_of : SchedulerBuilder P → Scheduler P
  scheduler_of b = record {
    pool = b.pool;
    registry = b.registry;
    config = record {
      worker_id = b.worker_id;
      poll_interval = b.poll_interval;
      reaper_interval = b.reaper_interval;
      shutdown_timeout = b.shutdown_timeout;
      max_concurrency = b.max_concurrency;
    };
    health = health_default;
  }

  unfoldable pub build : SchedulerBuilder P → Result SchedulerError (Scheduler P)
  build b =
      if is_empty b.registry
      then err (config (codes "at least one handler must be registered"))
      else if is_zero b.poll_interval
      then err (config (codes "poll_interval must be greater than zero"))
      else if is_zero b.reaper_interval
      then err (config (codes "reaper_interval must be greater than zero"))
      else ok (scheduler_of b)

  -- A configuration is accepted exactly if some handler is registered and the poll and reaper
  -- intervals last at least a nanosecond, and the scheduler is then configured as the builder says.
  pub build_iff :
      (b : SchedulerBuilder P) (s : Scheduler P)
      → (build b ≡ ok s) ↔ (
          (is_empty b.registry ≡ false)
          × (0 < as_nanos b.poll_interval)
          × (0 < as_nanos b.reaper_interval)
          × (scheduler_of b ≡ s))
  unfolding build
  build_iff b s = ground arith
