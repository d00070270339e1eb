-- ===== src/Db/Monad.antt =====
-- Statements and transactions over the three tables: a result, and the database after it.
use pg_task_scheduler.Prelude.{if◌then◌else◌, Result, ok, err}
use pg_task_scheduler.Error.{SchedulerError, database, constraint_violation}
use pg_task_scheduler.Db.{Db, admits}

abbrev pub M : Type 0 → Type 0
M A = Db → Db × Result SchedulerError A

abbrev pub continue :
    {A B : Type 0} → Db × Result SchedulerError A → (A → M B) → Db × Result SchedulerError B
continue (db, ok a) f = f a db
continue (db, err e) f = (db, err e)

infixl 5 ◌>>=◌ ◌>>◌
abbrev pub ◌>>=◌ : {A B : Type 0} → M A → (A → M B) → M B
◌>>=◌ m f db = continue (m db) f

abbrev pub ◌>>◌ : {B : Type 0} → M (Unit {0}) → M B → M B
m >> k = m >>= λ _. k

abbrev pub return : {A : Type 0} → A → M A
return a db = (db, ok a)

abbrev pub throw : {A : Type 0} → SchedulerError → M A
throw e db = (db, err e)

-- A result that needs no database, under `?`.
abbrev pub lift : {A : Type 0} → Result SchedulerError A → M A
lift r db = (db, r)

-- A query: it reads, and changes nothing.
abbrev pub query : {A : Type 0} → (Db → A) → M A
query f db = (db, ok (f db))

-- A statement that writes: refused if a constraint would fail.
abbrev pub admitted_or_refused : {A : Type 0} → Db → Db × A → Db × Result SchedulerError A
admitted_or_refused db (db', a) =
    if admits db' then (db', ok a) else (db, err (database constraint_violation))

abbrev pub execute : {A : Type 0} → (Db → Db × A) → M A
execute f db = admitted_or_refused db (f db)

abbrev pub commit_or_rollback :
    {A : Type 0} → Db → Db × Result SchedulerError A → Db × Result SchedulerError A
commit_or_rollback db (db', ok a) = (db', ok a)
commit_or_rollback db (db', err e) = (db, err e)

-- `conn.transaction`: an error rolls every change back.
abbrev pub transaction : {A : Type 0} → M A → M A
transaction m db = commit_or_rollback db (m db)
