-- ===== src/Metrics.antt =====
-- src/metrics.rs: the six counters. gnort keeps them, so a run of the program is the log of its calls.
use pg_task_scheduler.Prelude.{ℕ, Text, codes, ltb, if◌then◌else◌, List, ◌∷◌}

-- The calls of `Count::fetch_add` with their counters, the last one first.
abbrev pub Counts : Type 0
Counts = List (Text × ℕ)

-- `usize::MAX` on a 64-bit target.
abbrev usize_max : ℕ
usize_max = 18446744073709551615

abbrev pub incr_by : Text → ℕ → Counts → Counts
incr_by name n counts = (name, if ltb usize_max n then usize_max else n) ∷ counts

abbrev pub incr : Text → Counts → Counts
incr name counts = (name, 1) ∷ counts

abbrev pub runs_materialized : Text
runs_materialized = codes "pg_task_scheduler.runs.materialized"

abbrev pub runs_claimed : Text
runs_claimed = codes "pg_task_scheduler.runs.claimed"

abbrev pub runs_completed : Text
runs_completed = codes "pg_task_scheduler.runs.completed"

abbrev pub runs_failed : Text
runs_failed = codes "pg_task_scheduler.runs.failed"

abbrev pub runs_reaped : Text
runs_reaped = codes "pg_task_scheduler.runs.reaped"

abbrev pub runs_requeued : Text
runs_requeued = codes "pg_task_scheduler.runs.requeued"
