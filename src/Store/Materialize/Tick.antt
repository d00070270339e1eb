-- ===== src/Store/Materialize/Tick.antt =====
-- One tick of src/store/materialize.rs: materialize_one.
use pg_task_scheduler.Prelude.{
  ℕ, ◌≡◌, refl, arith, ◌==◌, any, all, select, order_by, head?, update_where, unique,
  all-update_where, unique-update_where, all-select, all-order_by, any-of_count, count-or-and,
  count_mono, count-not_any, All-of, Bool-cases, true, false, ◌||◌, List, [], ◌∷◌, Option, none,
  some, Result, Result-cases, ok, err, inl, inr, if◌then◌else◌, Option-cases, pos, pos_part, leb,
  not, ◌&&◌, Bool, Text,
}
use pg_task_scheduler.Error.{SchedulerError, cron}
use pg_task_scheduler.Models.Runs.{StoredRunState}
use pg_task_scheduler.Db.{
  same_value, Db, SchedulerJob, Run, Env, admits, job_check, job_conflict, run_check, run_conflict,
  attempts_check, state_check,
}
use pg_task_scheduler.Queue.Enqueueing.{IsNewId, inserted, references-inserted}
use pg_task_scheduler.Cron.{Croner, parse_cron, next_after}
use pg_task_scheduler.Store.Materialize.{
  is_due, due_order, due_job, occurrence, is_occurrence, insert_run, advance_row, advance,
  pause_row, pause, Ticked, processed, idle, materialize_one,
}

-- A schedule that moves on, and one that is paused.
abbrev pub advanced_row : Env → ℕ → SchedulerJob → SchedulerJob
advanced_row e next j = record j { next_run_at = next; updated_at = e.now }

abbrev pub suspended_row : Env → SchedulerJob → SchedulerJob
suspended_row e j = record j { is_paused = true; updated_at = e.now }

-- The first schedule that is due at the transaction's time, of those that are neither paused nor
-- locked.
abbrev pub first_due : Env → Db → Option SchedulerJob
first_due e db = head? (
    order_by (λ i j. leb i.next_run_at j.next_run_at)
      (select (λ j. leb j.next_run_at e.now && not j.is_paused && not (e.locked j.id)) db.jobs))

-- The pending run of a schedule for the time that is due.
abbrev pub run_of : Env → SchedulerJob → Run
run_of e j = record {
  id = e.uuid 0;
  job_id = some j.id;
  scheduled_for = j.next_run_at;
  attempt_count = 0;
  created_at = e.now;
  updated_at = e.now;
  job_name = j.name;
  job_args = j.job_args;
  available_at = j.next_run_at;
  priority = pos 0;
  state = StoredRunState.pending;
  max_attempts = pos_part j.max_attempts;
  lease_duration = j.lease_duration;
  retry_backoff = j.retry_backoff;
  worker_id = none;
  lease_token = none;
  lease_expires_at = none;
  started_at = none;
  finished_at = none;
  last_error = none;
  deduplication_key = none;
}

-- A run of the same schedule for the same time.
abbrev pub is_run_of : SchedulerJob → Run → Bool
is_run_of j r = same_value (some j.id) r.job_id && j.next_run_at == r.scheduled_for

-- The tables after the schedule with this id got a new row.
abbrev pub rescheduled : (SchedulerJob → SchedulerJob) → ℕ → Db → Db
rescheduled f id db = record db { jobs = update_where (λ j. j.id == id) f db.jobs }

pub admits-rescheduled :
    (f : SchedulerJob → SchedulerJob) (id : ℕ) (db : Db)
    → ((j : SchedulerJob) → job_check (f j) ≡ job_check j)
    → ((i j : SchedulerJob) → job_conflict (f i) j ≡ job_conflict i j)
    → ((i j : SchedulerJob) → job_conflict i (f j) ≡ job_conflict i j)
    → admits db ≡ true
    → admits (rescheduled f id db) ≡ true
unfolding admits
admits-rescheduled f id db same left right h = ground (
  arith,
  all-update_where job_check (λ j. j.id == id) f db.jobs
      (All-of db.jobs (λ j c hit. rw (same j) c)),
  unique-update_where job_conflict (λ j. j.id == id) f db.jobs left right,
)

pub admits-advanced :
    (e : Env) (n id : ℕ) (db : Db)
    → admits db ≡ true
    → admits (rescheduled (advanced_row e n) id db) ≡ true
unfolding job_check job_conflict
admits-advanced e n id db =
    admits-rescheduled (advanced_row e n) id db (λ j. refl) (λ i j. refl) (λ i j. refl)

pub admits-paused :
    (e : Env) (id : ℕ) (db : Db)
    → admits db ≡ true
    → admits (rescheduled (suspended_row e) id db) ≡ true
unfolding job_check job_conflict
admits-paused e id db =
    admits-rescheduled (suspended_row e) id db (λ j. refl) (λ i j. refl) (λ i j. refl)

occurrence-run_check :
    (e : Env) (j : SchedulerJob) → job_check j ≡ true → run_check (run_of e j) ≡ true
unfolding job_check run_check attempts_check state_check
occurrence-run_check e j h = ground arith

occurrence_apart :
    (e : Env) (j : SchedulerJob) (db : Db)
    → IsNewId e db
    → any (is_run_of j) db.runs ≡ false
    → any (run_conflict (run_of e j)) db.runs ≡ false
unfolding run_conflict
occurrence_apart e j db fresh first =
    let new = run_of e j in
    any-of_count (run_conflict new) db.runs (
      omega (
        arith,
        fresh,
        count-not_any (is_run_of j) db.runs first,
        count-or-and (λ (r : Run). r.id == e.uuid 0) (is_run_of j) db.runs,
        count_mono (run_conflict new) (λ (r : Run). r.id == e.uuid 0 || is_run_of j r) db.runs
            (λ r h. ground arith),
      ))

pub admits-occurrence :
    (e : Env) (j : SchedulerJob) (db : Db)
    → job_check j ≡ true
    → IsNewId e db
    → any (is_run_of j) db.runs ≡ false
    → admits db ≡ true
    → admits (inserted (run_of e j) db) ≡ true
unfolding admits all unique
admits-occurrence e j db checked fresh first h = ground (
  arith,
  occurrence-run_check e j checked,
  occurrence_apart e j db fresh first,
  references-inserted (run_of e j) db,
)

head-checked :
    (jobs : List SchedulerJob) (j : SchedulerJob)
    → head? jobs ≡ some j
    → all job_check jobs ≡ true
    → job_check j ≡ true
unfolding all
head-checked [] j h c = ground arith
head-checked (i ∷ jobs) j h c = ground arith

pub first_due-job_check :
    (e : Env) (db : Db) (j : SchedulerJob)
    → first_due e db ≡ some j
    → admits db ≡ true
    → job_check j ≡ true
unfolding admits
first_due-job_check e db j due h =
    head-checked
      (order_by (λ i j. leb i.next_run_at j.next_run_at)
        (select (λ j. leb j.next_run_at e.now && not j.is_paused && not (e.locked j.id)) db.jobs))
      j due (all-order_by job_check _ _ (all-select job_check _ db.jobs (ground arith)))

-- The tables with the occurrence, which is there already or is inserted.
abbrev pub occurred : Env → SchedulerJob → Db → Db
occurred e j db = if any (is_run_of j) db.runs then db else inserted (run_of e j) db

module _ (croner : Croner) where
  -- What the tick makes of a due schedule, by what the search for its next time and the parser
  -- answer, and whether there is one.
  abbrev pub tick_at : Env → SchedulerJob → Db → Result Text ℕ → Db × Result SchedulerError Ticked
  tick_at e j db (ok n) = (rescheduled (advanced_row e n) j.id (occurred e j db), ok processed)
  tick_at e j db (err x) = (db, err (cron x))

  abbrev pub tick_of :
      Env → SchedulerJob → Db → Result Text croner.Schedule → Db × Result SchedulerError Ticked
  tick_of e j db (ok schedule) = tick_at e j db (croner.find_next_occurrence schedule e.now)
  tick_of e j db (err x) = (rescheduled (suspended_row e) j.id db, ok processed)

  abbrev pub tick : Env → Db → Option SchedulerJob → Db × Result SchedulerError Ticked
  tick e db none = (db, ok idle)
  tick e db (some j) = tick_of e j db (croner.parse j.cron_expression)

  advanced :
      (e : Env) (db : Db) (j : SchedulerJob) (schedule : croner.Schedule) (n : ℕ)
      → first_due e db ≡ some j
      → croner.parse j.cron_expression ≡ ok schedule
      → croner.find_next_occurrence schedule e.now ≡ ok n
      → IsNewId e db
      → admits db ≡ true
      → materialize_one croner e db ≡ tick_at e j db (ok n)
  unfolding materialize_one due_job due_order is_due insert_run advance advance_row occurrence
      is_occurrence parse_cron next_after
  advanced e db j schedule n due parsed found fresh h =
      elim (Bool-cases (any (is_run_of j) db.runs)) [
        | inl there ↦
            rw (due, parsed) (rw (found, there, h) (rw (admits-advanced e n j.id db h) refl))
        | inr first ↦
            let kept = admits-occurrence e j db (first_due-job_check e db j due h) fresh first h in
            rw (due, parsed)
              (rw (found, first)
                (rw kept (rw (admits-advanced e n j.id (inserted (run_of e j) db) kept) refl)))
      ]

  stopped :
      (e : Env) (db : Db) (j : SchedulerJob) (schedule : croner.Schedule) (x : Text)
      → first_due e db ≡ some j
      → croner.parse j.cron_expression ≡ ok schedule
      → croner.find_next_occurrence schedule e.now ≡ err x
      → materialize_one croner e db ≡ (db, err (cron x))
  unfolding materialize_one due_job due_order is_due parse_cron next_after
  stopped e db j schedule x due parsed found = rw (due, parsed) (rw found refl)

  suspended :
      (e : Env) (db : Db) (j : SchedulerJob) (x : Text)
      → first_due e db ≡ some j
      → croner.parse j.cron_expression ≡ err x
      → admits db ≡ true
      → materialize_one croner e db ≡ (rescheduled (suspended_row e) j.id db, ok processed)
  unfolding materialize_one due_job due_order is_due pause pause_row parse_cron
  suspended e db j x due corrupt h = rw (due, corrupt) (rw (admits-paused e j.id db h) refl)

  nothing_due :
      (e : Env) (db : Db) → first_due e db ≡ none → materialize_one croner e db ≡ (db, ok idle)
  unfolding materialize_one due_job due_order is_due
  nothing_due e db due = rw due refl

  -- One tick on admitted tables, with a new id at hand, on every branch. If no schedule is due,
  -- nothing happens. If the cron expression of the first one due has a next time, then in one
  -- transaction the run for the time that was due is inserted, unless it is there already, and the
  -- schedule moves on. If the expression is corrupt the schedule is paused, and if it has no next time
  -- the error is returned and nothing changes. No constraint is ever in the way.
  pub materialize_one_lem :
      (e : Env) (db : Db)
      → IsNewId e db
      → admits db ≡ true
      → materialize_one croner e db ≡ tick e db (first_due e db)
  materialize_one_lem e db fresh h = elim (Option-cases (first_due e db)) [
    | inl due ↦ rw due (nothing_due e db due)
    | inr (j, due) ↦ rw due (elim (Result-cases (croner.parse j.cron_expression)) [
      | inl (x, corrupt) ↦ rw corrupt (suspended e db j x due corrupt h)
      | inr (schedule, parsed) ↦
          rw parsed (elim (Result-cases (croner.find_next_occurrence schedule e.now)) [
            | inl (x, found) ↦ rw found (stopped e db j schedule x due parsed found)
            | inr (n, found) ↦ rw found (advanced e db j schedule n due parsed found fresh h)
          ])
    ])
  ]
