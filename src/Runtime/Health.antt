-- ===== src/Runtime/Health.antt =====
-- src/runtime/health.rs, and update_health of src/runtime/worker.rs.
-- `SchedulerError::to_string` is an argument, since thiserror makes it.
use pg_task_scheduler.Prelude.{
  ℕ, ◌+◌, ◌≡◌, refl, arith, Text, ltb, Option, none, some, List, [], ◌∷◌, if◌then◌else◌,
}
use pg_task_scheduler.Error.{SchedulerError}

pub data HealthStatus : Type 0 where
  starting healthy degraded stopped : HealthStatus

pub record WorkerHealth : Type 0 where
  pub status : HealthStatus
  pub consecutive_failures : ℕ
  pub last_error : Option Text

unfoldable pub health_default : WorkerHealth
health_default = record { status = starting; consecutive_failures = 0; last_error = none }

abbrev pub u64_max : ℕ
u64_max = 18446744073709551615

-- `u64::saturating_add`.
unfoldable pub saturating_add : ℕ → ℕ → ℕ
saturating_add a b = if ltb u64_max (a + b) then u64_max else a + b

-- The value of the watch channel and the worker's own count of failures after a cycle.
unfoldable pub update_health :
    (SchedulerError → Text) → ℕ → Option SchedulerError → WorkerHealth × ℕ
update_health to_string failures (some error) =
    let n = saturating_add failures 1 in
    (record { status = degraded; consecutive_failures = n; last_error = some (to_string error) }, n)
update_health to_string failures none =
    (record { status = healthy; consecutive_failures = 0; last_error = none }, 0)

-- The health after cycles with these results, the last one first.
unfoldable pub health_after :
    (SchedulerError → Text) → List (Option SchedulerError) → WorkerHealth × ℕ
health_after to_string [] = (health_default, 0)
health_after to_string (result ∷ results) =
    update_health to_string (health_after to_string results).1 result

-- How many of the latest cycles failed in a row.
abbrev pub latest_failures : List (Option SchedulerError) → ℕ
latest_failures [] = 0
latest_failures (none ∷ results) = 0
latest_failures (some error ∷ results) = latest_failures results + 1

abbrev pub status_of : List (Option SchedulerError) → HealthStatus
status_of [] = starting
status_of (none ∷ results) = healthy
status_of (some error ∷ results) = degraded

abbrev pub reported_error : (SchedulerError → Text) → List (Option SchedulerError) → Option Text
reported_error to_string [] = none
reported_error to_string (none ∷ results) = none
reported_error to_string (some error ∷ results) = some (to_string error)

abbrev pub at_most_u64 : ℕ → ℕ
at_most_u64 n = if ltb u64_max n then u64_max else n

failures_lem :
    (to_string : SchedulerError → Text) (results : List (Option SchedulerError))
    → (health_after to_string results).1 ≡ at_most_u64 (latest_failures results)
unfolding health_after update_health saturating_add
failures_lem to_string [] = ground arith
failures_lem to_string (none ∷ results) = ground arith
failures_lem to_string (some error ∷ results) = ground (arith, failures_lem to_string results)

-- After any cycles a worker is healthy if the latest one went well and degraded, with that one's
-- error, if it failed, and it reports how many cycles have failed in a row up to then, or the largest
-- `u64` if there were more.
pub health_after_lem :
    (to_string : SchedulerError → Text) (results : List (Option SchedulerError))
    → (health_after to_string results).0 ≡ record {
      status = status_of results;
      consecutive_failures = at_most_u64 (latest_failures results);
      last_error = reported_error to_string results;
    }
unfolding health_after update_health health_default saturating_add
health_after_lem to_string [] = refl
health_after_lem to_string (none ∷ results) = refl
health_after_lem to_string (some error ∷ results) = ground (arith, failures_lem to_string results)
