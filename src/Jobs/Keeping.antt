-- ===== src/Jobs/Keeping.antt =====
-- src/jobs.rs: the runs and the attempts under the operations on schedules.
use pg_task_scheduler.Prelude.{ℕ, ◌≡◌, refl, ◌∙◌, Bool, true, Option, none, some}
use pg_task_scheduler.Db.{Db, Env, SchedulerJob, admits}
use pg_task_scheduler.Db.Frames.{Frame}
use pg_task_scheduler.Consistency.{IsConsistent}
use pg_task_scheduler.Cron.{Croner}
use pg_task_scheduler.Jobs.{
  CreateJob, NewJob, ScheduleUpdate, insert_job, insert_or_reconcile, upsert_job,
  reschedule_statement, paused_statement, delete_statement, set_paused, delete, create, ensure_job,
  reschedule,
}
use pg_task_scheduler.Jobs.Frames.{
  set_paused-Holds, delete-Holds, create-Holds, ensure_job-Holds, reschedule-Holds,
}

-- The runs and the attempts are the same, and the constraints still hold.
pub record KeepsTasks (db after : Db) : Type 0 where
  pub runs : after.runs ≡ db.runs
  pub attempts : after.attempts ≡ db.attempts
  pub admitted : admits db ≡ true → admits after ≡ true

abbrev tasks : Frame
tasks = record {
  Holds = KeepsTasks;
  unchanged = λ db. record { runs = refl; attempts = refl; admitted = λ h. h };
  composed = λ a b c k l. record {
    runs = l.runs ∙ k.runs;
    attempts = l.attempts ∙ k.attempts;
    admitted = λ h. l.admitted (k.admitted h);
  };
}

upsert_job-KeepsTasks :
    (e : Env) (row : NewJob) (db : Db) (old : Option SchedulerJob)
    → admits (insert_or_reconcile e row db old).0 ≡ true
    → KeepsTasks db (insert_or_reconcile e row db old).0
unfolding insert_job
upsert_job-KeepsTasks e row db none h = record { runs = refl; attempts = refl; admitted = λ _. h }
upsert_job-KeepsTasks e row db (some old) h = record {
  runs = refl;
  attempts = refl;
  admitted = λ _. h;
}

pub set_paused-KeepsTasks :
    (e : Env) (id : ℕ) (paused : Bool) (db : Db) → KeepsTasks db (set_paused e id paused db).0
unfolding paused_statement
set_paused-KeepsTasks e id paused =
    set_paused-Holds tasks e id paused
      (λ db h. record { runs = refl; attempts = refl; admitted = λ _. h })

pub delete-KeepsTasks : (id : ℕ) (db : Db) → KeepsTasks db (delete id db).0
unfolding delete_statement
delete-KeepsTasks id =
    delete-Holds tasks id (λ db h. record { runs = refl; attempts = refl; admitted = λ _. h })

module _ (croner : Croner) (e : Env) where
  pub create-KeepsTasks :
      (spec : CreateJob croner) (db : Db) → KeepsTasks db (create croner e spec db).0
  unfolding insert_job
  create-KeepsTasks spec =
      create-Holds tasks croner e spec
        (λ row db h. record { runs = refl; attempts = refl; admitted = λ _. h })

  pub ensure_job-KeepsTasks :
      (spec : CreateJob croner) (db : Db) → KeepsTasks db (ensure_job croner e spec db).0
  unfolding upsert_job
  ensure_job-KeepsTasks spec =
      ensure_job-Holds tasks croner e spec (λ row db. upsert_job-KeepsTasks e row db _)

  pub reschedule-KeepsTasks :
      (id : ℕ) (update : ScheduleUpdate) (db : Db)
      → KeepsTasks db (reschedule croner e id update db).0
  unfolding reschedule_statement
  reschedule-KeepsTasks id update =
      reschedule-Holds tasks croner e id update
        (λ next db h. record { runs = refl; attempts = refl; admitted = λ _. h })

-- What holds of the runs and the attempts is not at stake.
pub KeepsTasks-IsConsistent :
    (db after : Db) → KeepsTasks db after → IsConsistent db → IsConsistent after
KeepsTasks-IsConsistent db after k c = record {
  admitted = k.admitted c.admitted;
  linked = λ id token. rw (k.runs, k.attempts) (c.linked id token);
  counted = rw (k.runs, k.attempts) c.counted;
}
