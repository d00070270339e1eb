-- ===== src/Jobs/Moves.antt =====
-- src/jobs.rs: reschedule, pause and resume on every branch.
use pg_task_scheduler.Prelude.{
  ℕ, ◌≡◌, refl, ap, Text, Result-cases, arith, ◌==◌, Bool, true, false, not, List, [], ◌∷◌, Option,
  none, some, Result, ok, err, inl, inr, any, all, count, select, head?, update_where, map,
  order_by, all-order_by, all-select_of, Bool-cases, count-any, count-not_any, ltb, all-updated,
  all-select, unique-select, All-of, All-map, all-All, ◌||◌,
}
use pg_task_scheduler.Error.{SchedulerError, cron, corrupt_job, cron_text}
use pg_task_scheduler.Models.Jobs.{Job, job_try_from}
use pg_task_scheduler.Db.{Db, Env, SchedulerJob, admits, job_check, job_conflict}
use pg_task_scheduler.Cron.{Croner, parse_stored, next_after}
use pg_task_scheduler.Store.Inspect.{transpose_map}
use pg_task_scheduler.Store.Materialize.{is_due, due_order, due_job}
use pg_task_scheduler.Store.Materialize.Tick.{rescheduled, admits-rescheduled}
use pg_task_scheduler.Jobs.{
  ScheduleUpdate, reset_from_now, set_next_run_at, Applied, changed, not_found, find_job,
  move_cursor, reschedule_statement, paused_row, paused_statement, applied_from_affected,
  set_paused, delete_statement, delete, next_of_stored, next_cursor, move_to, reschedule,
}

-- A row that is due next at the given time.
abbrev pub due_at : Env → ℕ → SchedulerJob → SchedulerJob
due_at e t j = record j { next_run_at = t; updated_at = e.now }

-- A row that is paused or not.
abbrev pub with_paused : Env → Bool → SchedulerJob → SchedulerJob
with_paused e paused j = record j { is_paused = paused; updated_at = e.now }

module _ (croner : Croner) where
  -- The next time of a parsed cron expression, by what the parser and the search answer.
  abbrev pub searched : Result Text ℕ → Result SchedulerError (Option ℕ)
  searched (ok t) = ok (some t)
  searched (err detail) = err (cron detail)

  abbrev pub parsed_next :
      ℕ → ℕ → Text → Result Text croner.Schedule → Result SchedulerError (Option ℕ)
  parsed_next id now source (ok schedule) = searched (croner.find_next_occurrence schedule now)
  parsed_next id now source (err x) = err (corrupt_job id (cron_text (croner.detail source x)))

  -- The time asked for: as given, or the next one of the stored cron expression after the database's
  -- clock; none for an unknown id.
  abbrev pub wanted :
      Env → ℕ → ScheduleUpdate → List SchedulerJob → Result SchedulerError (Option ℕ)
  wanted e id (set_next_run_at t) met = ok (some t)
  wanted e id reset_from_now [] = ok none
  wanted e id reset_from_now (j ∷ rest) =
      parsed_next id e.now j.cron_expression (croner.parse j.cron_expression)

  abbrev pub moved :
      Env
      → ℕ
      → Db
      → Result SchedulerError (Option ℕ)
      → Db × Result SchedulerError (Option (Job croner))
  moved e id db (err x) = (db, err x)
  moved e id db (ok none) = (db, ok none)
  moved e id db (ok (some t)) = (
    rescheduled (due_at e t) id db,
    transpose_map (job_try_from croner)
        (head? (map (due_at e t) (select (λ j. j.id == id) db.jobs))),
  )

  admits-moved :
      (e : Env) (id t : ℕ) (db : Db)
      → admits db ≡ true
      → admits (rescheduled (due_at e t) id db) ≡ true
  unfolding job_check job_conflict
  admits-moved e id t db =
      admits-rescheduled (due_at e t) id db (λ j. refl) (λ i j. refl) (λ i j. refl)

  moved_lem :
      (e : Env) (id : ℕ) (update : ScheduleUpdate) (db : Db)
      (next : Result SchedulerError (Option ℕ))
      → admits db ≡ true
      → next_cursor croner e id update db ≡ (db, next)
      → reschedule croner e id update db ≡ moved e id db next
  unfolding reschedule move_to reschedule_statement move_cursor
  moved_lem e id update db (err x) h found = rw found refl
  moved_lem e id update db (ok none) h found = rw found refl
  moved_lem e id update db (ok (some t)) h found = rw found (rw (admits-moved e id t db h) refl)

  parsed-wanted :
      (e : Env) (id : ℕ) (j : SchedulerJob) (rest : List SchedulerJob)
      → next_of_stored croner e id (some j) ≡ wanted e id reset_from_now (j ∷ rest)
  unfolding next_of_stored parse_stored next_after
  parsed-wanted e id j rest = elim (Result-cases (croner.parse j.cron_expression)) [
    | inl (x, bad) ↦ rw bad refl
    | inr (schedule, good) ↦
        rw good (elim (Result-cases (croner.find_next_occurrence schedule e.now)) [
          | inl (x, never) ↦ rw never refl
          | inr (t, found) ↦ rw found refl
        ])
  ]

  reset-wanted :
      (e : Env) (id : ℕ) (db : Db) (met : List SchedulerJob)
      → select (λ j. j.id == id) db.jobs ≡ met
      → next_cursor croner e id reset_from_now db ≡ (db, wanted e id reset_from_now met)
  unfolding next_cursor find_job next_of_stored
  reset-wanted e id db [] h = rw h refl
  reset-wanted e id db (j ∷ rest) h = rw h (ap (λ r. (db, r)) (parsed-wanted e id j rest))

  -- Rescheduling on admitted tables, on every branch. If the stored cron expression is corrupt, or
  -- has no next time, the error is returned and nothing changes; an unknown id that is to be reset
  -- changes nothing. Otherwise exactly the rows with the id are due next at the time asked for, be it
  -- before or after the old one, and the row is returned, unless its projection fails, which does
  -- not undo the move. No constraint is ever in the way.
  pub reschedule_lem :
      (e : Env) (id : ℕ) (update : ScheduleUpdate) (db : Db)
      → admits db ≡ true
      → reschedule croner e id update db
        ≡ moved e id db (wanted e id update (select (λ j. j.id == id) db.jobs))
  unfolding next_cursor
  reschedule_lem e id (set_next_run_at t) db h =
      moved_lem e id (set_next_run_at t) db (ok (some t)) h refl
  reschedule_lem e id reset_from_now db h =
      moved_lem e id reset_from_now db
        (wanted e id reset_from_now (select (λ j. j.id == id) db.jobs)) h
        (reset-wanted e id db (select (λ j. j.id == id) db.jobs) refl)

abbrev pub applied : Bool → Applied
applied true = changed
applied false = not_found

affected-applied :
    (id : ℕ) (jobs : List SchedulerJob)
    → applied_from_affected (count (λ j. j.id == id) jobs) ≡ applied (any (λ j. j.id == id) jobs)
unfolding applied_from_affected
affected-applied id jobs = elim (Bool-cases (any (λ (j : SchedulerJob). j.id == id) jobs)) [
  | inl there ↦
      let counted = count-any (λ (j : SchedulerJob). j.id == id) jobs there in
      let positive : ltb 0 (count (λ (j : SchedulerJob). j.id == id) jobs) ≡ true = ground arith in
      rw there (rw positive refl)
  | inr missing ↦
      rw missing (rw (count-not_any (λ (j : SchedulerJob). j.id == id) jobs missing) refl)
]

-- Pausing and resuming on admitted tables: the flag of exactly the rows with the id is set, and the
-- answer tells whether there is one. No constraint is ever in the way.
pub set_paused_lem :
    (e : Env) (id : ℕ) (paused : Bool) (db : Db)
    → admits db ≡ true
    → set_paused e id paused db
      ≡ (rescheduled (with_paused e paused) id db, ok (applied (any (λ j. j.id == id) db.jobs)))
unfolding set_paused paused_statement applied_from_affected paused_row job_check job_conflict
set_paused_lem e id paused db h =
    let kept =
      admits-rescheduled (with_paused e paused) id db (λ j. refl) (λ i j. refl) (λ i j. refl) h in
    rw (kept, affected-applied id db.jobs) refl

abbrev pub is_of : ℕ → Option SchedulerJob → Bool
is_of id none = false
is_of id (some j) = j.id == id

head-other :
    (id : ℕ) (jobs : List SchedulerJob)
    → all (λ j. not (j.id == id)) jobs ≡ true
    → is_of id (head? jobs) ≡ false
unfolding all
head-other id [] h = refl
head-other id (j ∷ jobs) h = ground arith

-- A paused schedule does not run: on admitted tables, once a schedule is paused, no tick takes it for
-- due, at whatever time and however long it has been due.
pub pause-not_due :
    (e later : Env) (id : ℕ) (db : Db)
    → admits db ≡ true
    → is_of id (due_job later (set_paused e id true db).0) ≡ false
unfolding due_job is_due paused_row
pause-not_due e later id db h =
    let jobs = update_where (λ j. j.id == id) (with_paused e true) db.jobs in
    let idle =
      all-updated (λ j. not (is_due later j) || not (j.id == id)) (λ j. j.id == id)
        (with_paused e true) db.jobs
        (All-of db.jobs (λ j. elim (Bool-cases (j.id == id)) [
          | inl hit ↦ rw hit (ground arith)
          | inr other ↦ rw other (ground arith)
        ])) in
    rw (set_paused_lem e id true db h) (
      head-other id (order_by due_order (select (is_due later) jobs)) (
        all-order_by (λ j. not (j.id == id)) due_order (select (is_due later) jobs)
          (all-select_of (λ j. not (j.id == id)) (is_due later) jobs
            (All-map jobs (λ j a due. ground (arith, a))
              (all-All (λ j. not (is_due later j) || not (j.id == id)) jobs idle)))))

admits-deleted : (id : ℕ) (db : Db) → admits db ≡ true → admits (delete_statement id db).0 ≡ true
unfolding admits delete_statement
admits-deleted id db h = ground (
  arith,
  all-select job_check (λ j. not (j.id == id)) db.jobs,
  unique-select job_conflict (λ j. not (j.id == id)) db.jobs,
)

-- Deleting on admitted tables: exactly the rows with the id are gone, and the answer tells whether
-- there was one. No constraint is ever in the way, since runs do not refer to their schedule's row.
pub delete_lem :
    (id : ℕ) (db : Db)
    → admits db ≡ true
    → delete id db ≡ (
      record db { jobs = select (λ j. not (j.id == id)) db.jobs },
      ok (applied (any (λ j. j.id == id) db.jobs)),
    )
unfolding delete delete_statement
delete_lem id db h = rw (admits-deleted id db h, affected-applied id db.jobs) refl
