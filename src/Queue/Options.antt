-- ===== src/Queue/Options.antt =====
-- The builders of `EnqueueOptions` in src/queue.rs, over the checked values of src/models.rs and
-- src/ids.rs.
use pg_task_scheduler.Prelude.{ℕ, ◌≤◌, ◌≡◌, refl, arith, Text, true, ok}
use pg_task_scheduler.Ids.{DeduplicationKey, deduplication_key_try_from}
use pg_task_scheduler.Ids.Policy.{validate_identifier-IsIdentifier}
use pg_task_scheduler.Models.Limits.{
  Duration, LeaseDuration, MaxAttempts, RetryBackoff, lease_duration_try_from,
  max_attempts_try_from, lease_duration_default, max_attempts_default,
}
use pg_task_scheduler.Db.{key_check}
use pg_task_scheduler.Queue.{
  Priority, EnqueueOptions, default_options, options_at, with_priority, with_lease_duration,
  with_max_attempts, with_retry_backoff, deduplicate,
}
use pg_task_scheduler.Queue.Enqueueing.{IsValidOptions}

key_try_from-key_check :
    (s : Text) (k : DeduplicationKey)
    → deduplication_key_try_from s ≡ ok k
    → key_check k.as_str ≡ true
unfolding deduplication_key_try_from
key_try_from-key_check s k h = ground (arith, validate_identifier-IsIdentifier s)

-- Options are valid however they are built: the default ones and those for a given time are, and
-- each builder keeps them valid when its value comes from the checked constructor of its type.
pub builders-IsValidOptions :
    (o : EnqueueOptions) (t : ℕ) (p : Priority) (b : RetryBackoff) (d : Duration)
    (l : LeaseDuration) (v : ℕ) (m : MaxAttempts) (s : Text) (k : DeduplicationKey)
    → IsValidOptions o
    → lease_duration_try_from d ≡ ok l
    → max_attempts_try_from v ≡ ok m
    → deduplication_key_try_from s ≡ ok k
    → IsValidOptions default_options
      × IsValidOptions (options_at t)
      × IsValidOptions (with_priority o p)
      × IsValidOptions (with_lease_duration o l)
      × IsValidOptions (with_max_attempts o m)
      × IsValidOptions (with_retry_backoff o b)
      × IsValidOptions (deduplicate o k)
unfolding default_options options_at with_priority with_lease_duration with_max_attempts
    with_retry_backoff deduplicate lease_duration_default max_attempts_default
    lease_duration_try_from max_attempts_try_from
builders-IsValidOptions o t p b d l v m s k valid lease attempts named =
    let positive : 1 ≤ l.micros = ground arith in
    let some_attempt : 1 ≤ m.count = ground arith in
    (
      record { lease = omega arith; attempts = omega arith; key = refl },
      record { lease = omega arith; attempts = omega arith; key = refl },
      record { lease = valid.lease; attempts = valid.attempts; key = valid.key },
      record { lease = positive; attempts = valid.attempts; key = valid.key },
      record { lease = valid.lease; attempts = some_attempt; key = valid.key },
      record { lease = valid.lease; attempts = valid.attempts; key = valid.key },
      record {
        lease = valid.lease;
        attempts = valid.attempts;
        key = key_try_from-key_check s k named;
      },
    )
