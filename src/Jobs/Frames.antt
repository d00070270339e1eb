-- ===== src/Jobs/Frames.antt =====
-- src/jobs.rs: relations of the tables before and after that the operations on schedules keep.
use pg_task_scheduler.Prelude.{ℕ, ◌≡◌, true, Bool, Option, none, some}
use pg_task_scheduler.Db.{Db, Env, admits}
use pg_task_scheduler.Db.Monad.{◌>>=◌, return, lift, execute, transaction}
use pg_task_scheduler.Db.Frames.{Frame, bind-Holds, rollback-Holds, execute-Holds}
use pg_task_scheduler.Cron.{Croner}
use pg_task_scheduler.Models.Jobs.{job_try_from}
use pg_task_scheduler.Store.Inspect.{transpose_map}
use pg_task_scheduler.Jobs.{
  CreateJob, NewJob, ScheduleUpdate, reset_from_now, set_next_run_at, inserted_job, insert_job,
  upsert_job, reschedule_statement, paused_statement, delete_statement, applied_from_affected,
  set_paused, delete, new_job, create, ensure_job, next_cursor, move_to, reschedule,
}

module _ (frame : Frame) where
  pub set_paused-Holds :
      (e : Env) (id : ℕ) (paused : Bool)
      → ((db : Db)
          → admits (paused_statement e id paused db).0 ≡ true
          → frame.Holds db (paused_statement e id paused db).0)
      → (db : Db) → frame.Holds db (set_paused e id paused db).0
  unfolding set_paused
  set_paused-Holds e id paused keep =
      bind-Holds frame (execute (paused_statement e id paused))
        (λ n. return (applied_from_affected n))
        (execute-Holds frame (paused_statement e id paused) keep) (λ n. frame.unchanged)

  pub delete-Holds :
      (id : ℕ)
      → ((db : Db)
          → admits (delete_statement id db).0 ≡ true
          → frame.Holds db (delete_statement id db).0)
      → (db : Db) → frame.Holds db (delete id db).0
  unfolding delete
  delete-Holds id keep =
      bind-Holds frame (execute (delete_statement id)) (λ n. return (applied_from_affected n))
        (execute-Holds frame (delete_statement id) keep) (λ n. frame.unchanged)

  module _ (croner : Croner) where
    pub create-Holds :
        (e : Env) (spec : CreateJob croner)
        → ((row : NewJob) (db : Db)
            → admits (insert_job (inserted_job e row) db).0 ≡ true
            → frame.Holds db (insert_job (inserted_job e row) db).0)
        → (db : Db) → frame.Holds db (create croner e spec db).0
    unfolding create
    create-Holds e spec keep =
        bind-Holds frame
          (transaction
            (lift (new_job croner spec e.now) >>= λ row. execute (insert_job (inserted_job e row))))
          (λ row. lift (job_try_from croner row))
          (λ db. rollback-Holds frame db _ (
            bind-Holds frame (lift (new_job croner spec e.now))
              (λ row. execute (insert_job (inserted_job e row))) frame.unchanged
              (λ row. execute-Holds frame (insert_job (inserted_job e row)) (keep row)) db))
          (λ row. frame.unchanged)

    pub ensure_job-Holds :
        (e : Env) (spec : CreateJob croner)
        → ((row : NewJob) (db : Db)
            → admits (upsert_job e row db).0 ≡ true
            → frame.Holds db (upsert_job e row db).0)
        → (db : Db) → frame.Holds db (ensure_job croner e spec db).0
    unfolding ensure_job
    ensure_job-Holds e spec keep =
        bind-Holds frame
          (transaction (lift (new_job croner spec e.now) >>= λ row. execute (upsert_job e row)))
          (λ row. lift (job_try_from croner row))
          (λ db. rollback-Holds frame db _ (
            bind-Holds frame (lift (new_job croner spec e.now)) (λ row. execute (upsert_job e row))
              frame.unchanged (λ row. execute-Holds frame (upsert_job e row) (keep row)) db))
          (λ row. frame.unchanged)

    next_cursor-Holds :
        (e : Env) (id : ℕ) (update : ScheduleUpdate) (db : Db)
        → frame.Holds db (next_cursor croner e id update db).0
    unfolding next_cursor
    next_cursor-Holds e id reset_from_now db = frame.unchanged db
    next_cursor-Holds e id (set_next_run_at ts) db = frame.unchanged db

    move_to-Holds :
        (e : Env) (id : ℕ) (next : Option ℕ)
        → ((next : ℕ) (db : Db)
            → admits (reschedule_statement e id next db).0 ≡ true
            → frame.Holds db (reschedule_statement e id next db).0)
        → (db : Db) → frame.Holds db (move_to croner e id next db).0
    unfolding move_to
    move_to-Holds e id none keep = frame.unchanged
    move_to-Holds e id (some next) keep =
        execute-Holds frame (reschedule_statement e id next) (keep next)

    pub reschedule-Holds :
        (e : Env) (id : ℕ) (update : ScheduleUpdate)
        → ((next : ℕ) (db : Db)
            → admits (reschedule_statement e id next db).0 ≡ true
            → frame.Holds db (reschedule_statement e id next db).0)
        → (db : Db) → frame.Holds db (reschedule croner e id update db).0
    unfolding reschedule
    reschedule-Holds e id update keep =
        bind-Holds frame (transaction (next_cursor croner e id update >>= move_to croner e id))
          (λ row. lift (transpose_map (job_try_from croner) row))
          (λ db. rollback-Holds frame db _ (
            bind-Holds frame (next_cursor croner e id update) (move_to croner e id)
              (next_cursor-Holds e id update) (λ next. move_to-Holds e id next keep) db))
          (λ row. frame.unchanged)
