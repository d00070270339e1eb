-- ===== src/History/Cursors.antt =====
-- The cursor invariant of src/jobs.rs: which operations move the `next_run_at` of a schedule.
use pg_task_scheduler.Prelude.{
  ℕ, ◌≡◌, refl, ◌≤◌, arith, ◌==◌, Bool, true, false, not, ◌&&◌, Option, none, some, Option-cases,
  Result-cases, Bool-cases, inl, inr, any, count, count_mono, count-select, count-update_where,
}
use pg_task_scheduler.Db.{Db, Env, SchedulerJob}
use pg_task_scheduler.Db.Frames.{Frame}
use pg_task_scheduler.Consistency.{IsConsistent}
use pg_task_scheduler.Queue.Enqueueing.{IsNewId}
use pg_task_scheduler.Cron.{Croner}
use pg_task_scheduler.Store.Materialize.{materialize_one, due_job, due_order, is_due}
use pg_task_scheduler.Store.Materialize.Tick.{
  first_due, is_run_of, advanced_row, suspended_row, materialize_one_lem,
}
use pg_task_scheduler.Jobs.{
  CreateJob, NewJob, ScheduleUpdate, insert_job, insert_or_reconcile, upsert_job, reconcile_row,
  move_cursor, reschedule_statement, paused_row, paused_statement, delete_statement, set_paused,
  pause, resume, delete, create, ensure_job, reschedule,
}
use pg_task_scheduler.Jobs.Moves.{is_of}
use pg_task_scheduler.Jobs.Frames.{
  set_paused-Holds, delete-Holds, create-Holds, ensure_job-Holds, reschedule-Holds,
}
use pg_task_scheduler.History.{
  Step, enqueues, claims, finalizes, fails, renews, recovers, cancels, materializes, prunes,
  creates, ensures, reschedules, pauses, resumes, deletes,
}
use pg_task_scheduler.History.Schedules.{
  enqueue-jobs, claim_batch-jobs, finalize_run-jobs, fail_run-jobs, renew_lease-jobs,
  recover_expired-jobs, cancel-jobs, prune_terminal-jobs,
}

-- The schedule with this id is due next at this time.
unfoldable pub has_cursor : ℕ → ℕ → SchedulerJob → Bool
has_cursor id t j = j.id == id && j.next_run_at == t

-- The steps that may move the cursor of this schedule: a tick for which it is the first one due, an
-- explicit reschedule of it, and its deletion.
unfoldable pub moves_cursor : {croner : Croner} {a b : Db} → ℕ → Step croner a b → Bool
moves_cursor id (materializes db e fresh) = is_of id (due_job e db)
moves_cursor id (reschedules db e other update) = other == id
moves_cursor id (deletes db other) = other == id
moves_cursor id _ = false

module _ (id t : ℕ) where
  -- No schedule with this cursor is lost.
  abbrev cursor : Frame
  cursor = record {
    Holds = λ a b. count (has_cursor id t) a.jobs ≤ count (has_cursor id t) b.jobs;
    unchanged = λ db. omega arith;
    composed = λ a b c k l. omega (arith, k, l);
  }

  same_jobs : (a b : Db) → b.jobs ≡ a.jobs → cursor.Holds a b
  same_jobs a b h = rw h (omega arith)

  upsert_job-cursor :
      (e : Env) (row : NewJob) (db : Db) (old : Option SchedulerJob)
      → cursor.Holds db (insert_or_reconcile e row db old).0
  unfolding insert_job count reconcile_row has_cursor
  upsert_job-cursor e row db none = omega arith
  upsert_job-cursor e row db (some old) =
      omega
        (arith, count-update_where (has_cursor id t) _ (reconcile_row e row) db.jobs (λ j h. refl))

  set_paused-cursor :
      (e : Env) (other : ℕ) (p : Bool) (db : Db) → cursor.Holds db (set_paused e other p db).0
  unfolding paused_statement paused_row has_cursor
  set_paused-cursor e other p = set_paused-Holds cursor e other p λ db h.
      omega (arith, count-update_where (has_cursor id t) _ (paused_row e p) db.jobs (λ j h. refl))

  delete-cursor :
      (other : ℕ) → (other == id) ≡ false → (db : Db) → cursor.Holds db (delete other db).0
  unfolding delete_statement has_cursor
  delete-cursor other apart = delete-Holds cursor other λ db h. omega (
    arith,
    count-select (has_cursor id t) (λ j. not (j.id == other)) db.jobs,
    count_mono (has_cursor id t) (λ j. has_cursor id t j && not (j.id == other)) db.jobs
        (λ j h. ground arith),
  )

  module _ (croner : Croner) (e : Env) where
    create-cursor :
        (spec : CreateJob croner) (db : Db) → cursor.Holds db (create croner e spec db).0
    unfolding insert_job count
    create-cursor spec = create-Holds cursor croner e spec (λ row db h. omega arith)

    ensure_job-cursor :
        (spec : CreateJob croner) (db : Db) → cursor.Holds db (ensure_job croner e spec db).0
    unfolding upsert_job
    ensure_job-cursor spec =
        ensure_job-Holds cursor croner e spec (λ row db h. upsert_job-cursor e row db _)

    reschedule-cursor :
        (other : ℕ) (update : ScheduleUpdate)
        → (other == id) ≡ false
        → (db : Db) → cursor.Holds db (reschedule croner e other update db).0
    unfolding reschedule_statement move_cursor has_cursor
    reschedule-cursor other update apart =
        reschedule-Holds cursor croner e other update λ next db h. omega (
          arith,
          count-update_where (has_cursor id t) (λ j. j.id == other) (move_cursor e next) db.jobs
              (λ j h. ground arith),
        )

    materialize-cursor :
        (db : Db)
        → IsNewId e db
        → IsConsistent db
        → is_of id (due_job e db) ≡ false
        → cursor.Holds db (materialize_one croner e db).0
    unfolding has_cursor due_job due_order is_due
    materialize-cursor db fresh c =
        rw (materialize_one_lem croner e db fresh c.admitted)
          (elim (Option-cases (first_due e db)) [
            | inl due ↦ rw due (λ _. omega arith)
            | inr (j, due) ↦ rw due (λ apart. elim (Result-cases (croner.parse j.cron_expression)) [
              | inl (x, corrupt) ↦ rw corrupt (
                  omega (
                    arith,
                    count-update_where (has_cursor id t) (λ i. i.id == j.id) (suspended_row e)
                        db.jobs (λ i h. refl),
                  ))
              | inr (schedule, parsed) ↦
                  rw parsed (elim (Result-cases (croner.find_next_occurrence schedule e.now)) [
                    | inl (x, found) ↦ rw found (omega arith)
                    | inr (n, found) ↦
                        let moved =
                          count-update_where (has_cursor id t) (λ i. i.id == j.id)
                            (advanced_row e n) db.jobs (λ i h. ground arith) in
                        rw found (elim (Bool-cases (any (is_run_of j) db.runs)) [
                          | inl there ↦ rw there (omega (arith, moved))
                          | inr first ↦ rw first (omega (arith, moved))
                        ])
                  ])
            ])
          ])

-- The cursor invariant. On consistent tables, an operation leaves the `next_run_at` of a schedule as
-- it is, unless it is a tick of the materializer for which that schedule is the first one due, an
-- explicit reschedule of it, or its deletion: creating, reconciling, pausing and resuming schedules
-- and every operation on tasks leave each stored cursor in place.
pub Step-keeps_cursor :
    (croner : Croner) (a b : Db) (step : Step croner a b) (id t : ℕ)
    → IsConsistent a
    → moves_cursor id step ≡ false
    → count (has_cursor id t) a.jobs ≤ count (has_cursor id t) b.jobs
unfolding moves_cursor pause resume
Step-keeps_cursor croner a b (enqueues db e task args o valid fresh) id t c kept =
    same_jobs id t db b (enqueue-jobs db c e task args o valid fresh)
Step-keeps_cursor croner a b (claims db e w names limit named fresh) id t c kept =
    same_jobs id t db b (claim_batch-jobs db c e w names limit named fresh)
Step-keeps_cursor croner a b (finalizes db e run token o) id t c kept =
    same_jobs id t db b (finalize_run-jobs db c e run token o)
Step-keeps_cursor croner a b (fails db e run token error retryable) id t c kept =
    same_jobs id t db b (fail_run-jobs db c e run token error retryable)
Step-keeps_cursor croner a b (renews db e run token s) id t c kept =
    same_jobs id t db b (renew_lease-jobs db c e run token s)
Step-keeps_cursor croner a b (recovers db e limit) id t c kept =
    same_jobs id t db b (recover_expired-jobs db c e limit)
Step-keeps_cursor croner a b (cancels db e run) id t c kept =
    same_jobs id t db b (cancel-jobs db c e run)
Step-keeps_cursor croner a b (materializes db e fresh) id t c kept =
    materialize-cursor id t croner e db fresh c kept
Step-keeps_cursor croner a b (prunes db e before limit) id t c kept =
    same_jobs id t db b (prune_terminal-jobs db c e before limit)
Step-keeps_cursor croner a b (creates db e spec) id t c kept = create-cursor id t croner e spec db
Step-keeps_cursor croner a b (ensures db e spec) id t c kept =
    ensure_job-cursor id t croner e spec db
Step-keeps_cursor croner a b (reschedules db e other update) id t c kept =
    reschedule-cursor id t croner e other update kept db
Step-keeps_cursor croner a b (pauses db e other) id t c kept =
    set_paused-cursor id t e other true db
Step-keeps_cursor croner a b (resumes db e other) id t c kept =
    set_paused-cursor id t e other false db
Step-keeps_cursor croner a b (deletes db other) id t c kept = delete-cursor id t other kept db
