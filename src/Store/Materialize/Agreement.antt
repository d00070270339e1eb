-- ===== src/Store/Materialize/Agreement.antt =====
-- materialize_one of src/store/materialize.rs and the agreement of runs and attempts.
use pg_task_scheduler.Prelude.{
  ℕ, Text, ◌≡◌, arith, any, all, count, Bool-cases, Option-cases, true, some, Result, Result-cases,
  ok, err, inl, inr, [],
}
use pg_task_scheduler.Db.{Db, SchedulerJob, Env, admits}
use pg_task_scheduler.Queue.{default_options, enqueued_run}
use pg_task_scheduler.Queue.Enqueueing.{IsNewId, inserted, new_unattempted}
use pg_task_scheduler.Consistency.{IsConsistent, is_holder, is_counted}
use pg_task_scheduler.Cron.{Croner}
use pg_task_scheduler.Store.Materialize.{materialize_one}
use pg_task_scheduler.Store.Materialize.Tick.{
  rescheduled, admits-advanced, admits-paused, admits-occurrence, first_due, run_of, is_run_of,
  advanced_row, suspended_row, first_due-job_check, tick_at, materialize_one_lem,
}

rescheduled-IsConsistent :
    (f : SchedulerJob → SchedulerJob) (id : ℕ) (db : Db)
    → admits (rescheduled f id db) ≡ true
    → IsConsistent db
    → IsConsistent (rescheduled f id db)
rescheduled-IsConsistent f id db h c = record {
  admitted = h;
  linked = c.linked;
  counted = c.counted;
}

occurrence-is_counted :
    (e : Env) (j : SchedulerJob) (db : Db)
    → IsNewId e db
    → admits db ≡ true
    → is_counted db.attempts (run_of e j) ≡ true
unfolding is_counted enqueued_run
occurrence-is_counted e j db fresh h = new_unattempted e [] [] default_options db fresh h

occurrence-IsConsistent :
    (e : Env) (j : SchedulerJob) (db : Db)
    → admits (inserted (run_of e j) db) ≡ true
    → IsNewId e db
    → IsConsistent db
    → IsConsistent (inserted (run_of e j) db)
unfolding count is_holder all
occurrence-IsConsistent e j db h fresh c = record {
  admitted = h;
  linked = λ i t. ground (arith, c.linked i t);
  counted = ground (arith, c.counted, occurrence-is_counted e j db fresh c.admitted);
}

module _ (croner : Croner) where
  tick_at-IsConsistent :
      (e : Env) (db : Db) (j : SchedulerJob) (next : Result Text ℕ)
      → first_due e db ≡ some j
      → IsNewId e db
      → IsConsistent db
      → IsConsistent (tick_at croner e j db next).0
  tick_at-IsConsistent e db j (err x) due fresh c = c
  tick_at-IsConsistent e db j (ok n) due fresh c = elim (Bool-cases (any (is_run_of j) db.runs)) [
    | inl there ↦ rw there (
        rescheduled-IsConsistent (advanced_row e n) j.id db (admits-advanced e n j.id db c.admitted)
          c)
    | inr first ↦
        let kept =
          admits-occurrence e j db (first_due-job_check e db j due c.admitted) fresh first
            c.admitted in
        rw first (
          rescheduled-IsConsistent (advanced_row e n) j.id (inserted (run_of e j) db)
            (admits-advanced e n j.id (inserted (run_of e j) db) kept)
            (occurrence-IsConsistent e j db kept fresh c))
  ]

  -- A tick keeps the tables consistent.
  pub materialize_one-IsConsistent :
      (e : Env) (db : Db)
      → IsNewId e db
      → IsConsistent db
      → IsConsistent (materialize_one croner e db).0
  materialize_one-IsConsistent e db fresh c =
      rw (materialize_one_lem croner e db fresh c.admitted) (elim (Option-cases (first_due e db)) [
        | inl due ↦ rw due c
        | inr (j, due) ↦ rw due (elim (Result-cases (croner.parse j.cron_expression)) [
          | inl (x, corrupt) ↦ rw corrupt (
              rescheduled-IsConsistent (suspended_row e) j.id db
                (admits-paused e j.id db c.admitted) c)
          | inr (schedule, parsed) ↦
              rw parsed (
                tick_at-IsConsistent e db j (croner.find_next_occurrence schedule e.now) due fresh
                  c)
        ])
      ])
