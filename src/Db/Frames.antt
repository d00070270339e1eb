-- ===== src/Db/Frames.antt =====
-- What every statement of an operation leaves alone, the operation does: a relation of the tables
-- before and after that holds when nothing changes, and across two changes when across each.
use pg_task_scheduler.Prelude.{◌≡◌, Bool-cases, true, inl, inr, Result, ok, err}
use pg_task_scheduler.Error.{SchedulerError}
use pg_task_scheduler.Db.{Db, admits}
use pg_task_scheduler.Db.Monad.{M, continue, admitted_or_refused, commit_or_rollback}

pub record Frame : Type 1 where
  pub Holds : Db → Db → Type 0
  pub unchanged : (db : Db) → Holds db db
  pub composed : (a b c : Db) → Holds a b → Holds b c → Holds a c

module _ (frame : Frame) {A : Type 0} where
  continue-Holds :
      {B : Type 0} (db : Db) (out : Db × Result SchedulerError A) (f : A → M B)
      → frame.Holds db out.0
      → ((a : A) (mid : Db) → frame.Holds mid (f a mid).0)
      → frame.Holds db (continue out f).0
  continue-Holds db (after, ok a) f k keep = frame.composed db after (f a after).0 k (keep a after)
  continue-Holds db (after, err e) f k keep = k

  pub bind-Holds :
      {B : Type 0} (m : M A) (f : A → M B)
      → ((db : Db) → frame.Holds db (m db).0)
      → ((a : A) (db : Db) → frame.Holds db (f a db).0)
      → (db : Db) → frame.Holds db (continue (m db) f).0
  bind-Holds m f k keep db = continue-Holds db (m db) f (k db) keep

  pub rollback-Holds :
      (db : Db) (out : Db × Result SchedulerError A)
      → frame.Holds db out.0
      → frame.Holds db (commit_or_rollback db out).0
  rollback-Holds db (after, ok a) k = k
  rollback-Holds db (after, err e) k = frame.unchanged db

  -- A statement is refused, or its result meets the constraints.
  pub execute-Holds :
      (f : Db → Db × A)
      → ((db : Db) → admits (f db).0 ≡ true → frame.Holds db (f db).0)
      → (db : Db) → frame.Holds db (admitted_or_refused db (f db)).0
  execute-Holds f keep db = elim (Bool-cases (admits (f db).0)) [
    | inl good ↦ rw good (keep db good)
    | inr bad ↦ rw bad (frame.unchanged db)
  ]
