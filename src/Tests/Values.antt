-- ===== src/Tests/Values.antt =====
-- Runs of the checked constructors at concrete values.
use pg_task_scheduler.Prelude.{◌≡◌, ◌≤◌, ◌↔◌, refl, arith, true, ok, text_eq}
use pg_task_scheduler.Ids.{validate_identifier, trim, trim_end, trim_start, is_whitespace}
use pg_task_scheduler.Ids.Policy.{
  IsIdentifier, name_check, validate_identifier_iff, validate_identifier-name_check,
}
use pg_task_scheduler.Models.Limits.{
  LeaseDuration, lease_duration_try_from, lease_as_duration, lease_to_pg_interval,
  lease_from_pg_interval, i64_max,
}
use pg_task_scheduler.Models.Limits.RoundTrips.{lease_duration_roundtrip}
use pg_task_scheduler.Tests.Data.{mail}

validate_identifier_iff_example : (validate_identifier mail ≡ ok tt) ↔ IsIdentifier mail
validate_identifier_iff_example = validate_identifier_iff mail

abbrev five_minutes : LeaseDuration
five_minutes = record { micros = 300000000 }

lease_duration_roundtrip_example :
    (1 ≤ five_minutes.micros)
    × (five_minutes.micros ≤ i64_max)
    × (lease_as_duration five_minutes ≡ record { secs = 300; subsec_nanos = 0 })
    × (lease_from_pg_interval (lease_to_pg_interval five_minutes) ≡ ok five_minutes)
unfolding lease_duration_try_from
lease_duration_roundtrip_example =
    lease_duration_roundtrip (record { secs = 300; subsec_nanos = 0 }) five_minutes (omega arith)
      refl

validate_identifier-name_check_example : name_check mail ≡ true
unfolding validate_identifier text_eq trim trim_end trim_start is_whitespace
validate_identifier-name_check_example = validate_identifier-name_check mail refl
