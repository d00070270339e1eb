-- ===== src/Models/Limits/RoundTrips.antt =====
-- The configuration values of src/models.rs against their stored and their caller's forms.
use pg_task_scheduler.Prelude.{ℕ, ◌≤◌, ◌<◌, ◌≡◌, ◌↔◌, arith, ok}
use pg_task_scheduler.Models.Limits.{
  i32_max, i64_max, Duration, PgInterval, MaxAttempts, max_attempts_try_from, from_db_i32, to_i32,
  get, LeaseDuration, RetryBackoff, lease_duration_try_from, lease_to_pg_interval,
  lease_as_duration, lease_from_pg_interval, retry_backoff_try_from, backoff_to_pg_interval,
  backoff_from_pg_interval, backoff_as_duration,
}

-- Each number of attempts from 1 to `i32::MAX` is accepted, and reads back unchanged from the
-- database and for the caller; every other is refused.
pub max_attempts_roundtrip :
    (v : ℕ) (m : MaxAttempts)
    → (max_attempts_try_from v ≡ ok m)
      ↔ ((1 ≤ v) × (v ≤ i32_max) × (get m ≡ v) × (from_db_i32 (to_i32 m) ≡ ok m))
unfolding max_attempts_try_from get from_db_i32 to_i32
max_attempts_roundtrip v m = ground arith

-- A lease length that is accepted is between one microsecond and `i64::MAX` of them, and is exact:
-- the caller reads the same duration back, also after it went through the stored interval.
pub lease_duration_roundtrip :
    (d : Duration) (l : LeaseDuration)
    → d.subsec_nanos < 1000000000
    → lease_duration_try_from d ≡ ok l
    → (1 ≤ l.micros)
      × (l.micros ≤ i64_max)
      × (lease_as_duration l ≡ d)
      × (lease_from_pg_interval (lease_to_pg_interval l) ≡ ok l)
unfolding lease_duration_try_from lease_as_duration lease_from_pg_interval lease_to_pg_interval
lease_duration_roundtrip d l n h = ground arith

-- The same for a retry delay, which may be zero.
pub retry_backoff_roundtrip :
    (d : Duration) (b : RetryBackoff)
    → d.subsec_nanos < 1000000000
    → retry_backoff_try_from d ≡ ok b
    → (b.micros ≤ i64_max)
      × (backoff_as_duration b ≡ d)
      × (backoff_from_pg_interval (backoff_to_pg_interval b) ≡ ok b)
unfolding retry_backoff_try_from backoff_as_duration backoff_from_pg_interval backoff_to_pg_interval
retry_backoff_roundtrip d b n h = ground arith

-- The read boundary accepts exactly the intervals that the write boundary produces.
pub lease_from_pg_interval_iff :
    (iv : PgInterval) (l : LeaseDuration)
    → (lease_from_pg_interval iv ≡ ok l) ↔ ((iv ≡ lease_to_pg_interval l) × (1 ≤ l.micros))
unfolding lease_from_pg_interval lease_to_pg_interval
lease_from_pg_interval_iff iv l = ground arith
