-- ===== src/Models/Limits.antt =====
-- src/models.rs: the validated configuration values `MaxAttempts`, `LeaseDuration` and
-- `RetryBackoff`. A `NonZeroI32` or `NonZeroI64` that is positive is kept as a natural number.
pub mod RoundTrips
use pg_task_scheduler.Prelude.{
  ℕ, suc, ◌+◌, ◌*◌, ◌/◌, ◌%◌, ℤ, pos, negsuc, ltb_ℤ, is_zero_ℤ, ltb, ◌==◌, if◌then◌else◌, Bool, not,
  ◌&&◌, ◌||◌, Result, ok, err, Option, none, some, ok_or,
}

abbrev pub i32_max : ℕ
i32_max = 2147483647

abbrev pub i64_max : ℕ
i64_max = 9223372036854775807

-- `std::time::Duration`: whole seconds and the nanoseconds below a second.
pub record Duration : Type 0 where
  pub secs : ℕ
  pub subsec_nanos : ℕ

-- `Duration::as_micros`, in a `u128`.
abbrev pub as_micros : Duration → ℕ
as_micros d = d.secs * 1000000 + d.subsec_nanos / 1000

-- `Duration::from_micros`.
abbrev pub from_micros : ℕ → Duration
from_micros m = record { secs = m / 1000000; subsec_nanos = m % 1000000 * 1000 }

-- `diesel::pg::data_types::PgInterval`.
pub record PgInterval : Type 0 where
  pub microseconds : ℤ
  pub days : ℤ
  pub months : ℤ

abbrev pub from_microseconds : ℤ → PgInterval
from_microseconds m = record { microseconds = m; days = pos 0; months = pos 0 }

pub record MaxAttempts : Type 0 where
  pub count : ℕ

pub data MaxAttemptsError : Type 0 where
  non_positive too_large : MaxAttemptsError

-- `TryFrom<u32> for MaxAttempts`.
unfoldable pub max_attempts_try_from : ℕ → Result MaxAttemptsError MaxAttempts
max_attempts_try_from v =
    if ltb i32_max v
    then err too_large
    else if v == 0
    then err non_positive
    else ok (record { count = v })

unfoldable pub max_attempts_default : MaxAttempts
max_attempts_default = record { count = 3 }

-- `NonZeroI32::new(i).filter(|n| n.get() > 0)`.
unfoldable pub from_db_i32 : ℤ → Result MaxAttemptsError MaxAttempts
from_db_i32 (pos n) = if n == 0 then err non_positive else ok (record { count = n })
from_db_i32 (negsuc n) = err non_positive

unfoldable pub to_i32 : MaxAttempts → ℤ
to_i32 m = pos m.count

-- `MaxAttempts::get`: `unsigned_abs` of a positive number.
unfoldable pub get : MaxAttempts → ℕ
get m = m.count

pub record LeaseDuration : Type 0 where
  pub micros : ℕ

pub record RetryBackoff : Type 0 where
  pub micros : ℕ

pub data LeaseDurationError : Type 0 where
  zero_length precision_loss lease_too_large : LeaseDurationError
  calendar_component : ℤ → ℤ → LeaseDurationError
  negative : ℤ → LeaseDurationError

-- `TryFrom<Duration> for LeaseDuration`.
unfoldable pub lease_duration_try_from : Duration → Result LeaseDurationError LeaseDuration
lease_duration_try_from d =
    if not (d.subsec_nanos % 1000 == 0)
    then err precision_loss
    else if ltb i64_max (as_micros d)
    then err lease_too_large
    else if as_micros d == 0
    then err zero_length
    else ok (record { micros = as_micros d })

unfoldable pub lease_duration_default : LeaseDuration
lease_duration_default = record { micros = 300000000 }

unfoldable pub lease_to_pg_interval : LeaseDuration → PgInterval
lease_to_pg_interval l = from_microseconds (pos l.micros)

unfoldable pub lease_as_duration : LeaseDuration → Duration
lease_as_duration l = from_micros l.micros

lease_of_micros : ℤ → Result LeaseDurationError LeaseDuration
lease_of_micros (pos n) = if n == 0 then err zero_length else ok (record { micros = n })
lease_of_micros (negsuc n) = err (negative (negsuc n))

-- `LeaseDuration::from_pg_interval`.
unfoldable pub lease_from_pg_interval : PgInterval → Result LeaseDurationError LeaseDuration
unfolding lease_of_micros
lease_from_pg_interval iv =
    if not (is_zero_ℤ iv.months) || not (is_zero_ℤ iv.days)
    then err (calendar_component iv.months iv.days)
    else lease_of_micros iv.microseconds

-- `TryFrom<Duration> for RetryBackoff`.
unfoldable pub retry_backoff_try_from : Duration → Result LeaseDurationError RetryBackoff
retry_backoff_try_from d =
    if not (d.subsec_nanos % 1000 == 0)
    then err precision_loss
    else if ltb i64_max (as_micros d)
    then err lease_too_large
    else ok (record { micros = as_micros d })

unfoldable pub retry_backoff_default : RetryBackoff
retry_backoff_default = record { micros = 1000000 }

unfoldable pub backoff_to_pg_interval : RetryBackoff → PgInterval
backoff_to_pg_interval b = from_microseconds (pos b.micros)

unfoldable pub backoff_as_duration : RetryBackoff → Duration
backoff_as_duration b = from_micros b.micros

backoff_of_micros : ℤ → Result LeaseDurationError RetryBackoff
backoff_of_micros (pos n) = ok (record { micros = n })
backoff_of_micros (negsuc n) = err (negative (negsuc n))

-- `RetryBackoff::from_pg_interval`.
unfoldable pub backoff_from_pg_interval : PgInterval → Result LeaseDurationError RetryBackoff
unfolding backoff_of_micros
backoff_from_pg_interval iv =
    if not (is_zero_ℤ iv.months) || not (is_zero_ℤ iv.days)
    then err (calendar_component iv.months iv.days)
    else backoff_of_micros iv.microseconds
