-- ===== src/Queue/Enqueueing.antt =====
-- enqueue of src/queue.rs.
use pg_task_scheduler.Prelude.{
  ◌≤◌, ◌≡◌, refl, ap, Text, ltb, ◌==◌, text_eq→≡, any, all, count, select, unique, List-cases,
  select-nil_count, update_where-same, count-any, count-or-and, any-of_count, all-All, count_mono,
  count-none_All, All-map, All-all, true, false, not, ◌&&◌, ◌||◌, List, [], ◌∷◌, Option, none, some,
  Bool-cases, inl, inr, arith, Result, ok,
}
use pg_task_scheduler.Error.{SchedulerError}
use pg_task_scheduler.Ids.{JobName, job_name_try_from}
use pg_task_scheduler.Ids.Policy.{name_check, job_name_try_from-name_check}
use pg_task_scheduler.Models.Limits.{get, lease_to_pg_interval, backoff_to_pg_interval}
use pg_task_scheduler.Db.{
  Db, Run, Env, admits, key_check, null_or, same_text, run_check, attempts_check, state_check,
  run_conflict, references,
}
use pg_task_scheduler.Db.Updates.{admits-Admitted}
use pg_task_scheduler.Consistency.{IsConsistent, is_holder, is_counted}
use pg_task_scheduler.Queue.{
  EnqueueOptions, EnqueuedTask, key_text, enqueued_run, is_duplicate, enqueue_statement, enqueue,
}

-- The options that the builders make: lease and attempts are positive, and a key is an identifier.
pub record IsValidOptions (o : EnqueueOptions) : Type 0 where
  pub lease : 1 ≤ o.lease_duration.micros
  pub attempts : 1 ≤ o.max_attempts.count
  pub key : null_or key_check (key_text o.deduplication) ≡ true

-- The generated id is that of no run.
abbrev pub IsNewId : Env → Db → Type 0
IsNewId e db = count (λ r. r.id == e.uuid 0) db.runs ≡ 0

enqueued_run-run_check :
    (e : Env) (name args : Text) (o : EnqueueOptions)
    → name_check name ≡ true
    → IsValidOptions o
    → run_check (enqueued_run e name args o) ≡ true
unfolding run_check attempts_check state_check enqueued_run get lease_to_pg_interval
    backoff_to_pg_interval
enqueued_run-run_check e name args o named valid = ground arith

-- The tables after the insertion of a row.
abbrev pub inserted : Run → Db → Db
inserted new db = record db { runs = new ∷ db.runs }

-- A run that is no duplicate and has a new id breaks no unique index.
no_conflict :
    (e : Env) (name args : Text) (o : EnqueueOptions) (db : Db)
    → IsNewId e db
    → count (is_duplicate (enqueued_run e name args o)) db.runs ≡ 0
    → any (run_conflict (enqueued_run e name args o)) db.runs ≡ false
unfolding run_conflict is_duplicate enqueued_run
no_conflict e name args o db fresh unique_key =
    let new = enqueued_run e name args o in
    any-of_count (run_conflict new) db.runs (
      omega (
        arith,
        fresh,
        unique_key,
        count-or-and (λ (r : Run). r.id == e.uuid 0) (is_duplicate new) db.runs,
        count_mono (run_conflict new) (λ (r : Run). r.id == e.uuid 0 || is_duplicate new r) db.runs
            (λ r h. ground arith),
      ))

pub references-inserted :
    (new : Run) (db : Db)
    → all (references db.runs) db.attempts ≡ true
    → all (references (new ∷ db.runs)) db.attempts ≡ true
unfolding references any
references-inserted new db h =
    All-all (references (new ∷ db.runs)) db.attempts
      (All-map db.attempts (λ a known. ground arith) (all-All (references db.runs) db.attempts h))

admits-inserted :
    (e : Env) (name args : Text) (o : EnqueueOptions) (db : Db)
    → name_check name ≡ true
    → IsValidOptions o
    → IsNewId e db
    → count (is_duplicate (enqueued_run e name args o)) db.runs ≡ 0
    → admits db ≡ true
    → admits (inserted (enqueued_run e name args o) db) ≡ true
unfolding admits all unique
admits-inserted e name args o db named valid fresh unique_key h = ground (
  arith,
  enqueued_run-run_check e name args o named valid,
  no_conflict e name args o db fresh unique_key,
  references-inserted (enqueued_run e name args o) db,
)

-- No attempt names a run that is not there.
pub new_unattempted :
    (e : Env) (name args : Text) (o : EnqueueOptions) (db : Db)
    → IsNewId e db
    → admits db ≡ true
    → is_counted db.attempts (enqueued_run e name args o) ≡ true
unfolding is_counted enqueued_run references
new_unattempted e name args o db fresh h = ap not (
    any-of_count (λ a. a.run_id == e.uuid 0 && ltb 0 a.attempt_number) db.attempts
      (count-none_All _ db.attempts (
        All-map db.attempts
          (λ a known. elim (Bool-cases (a.run_id == e.uuid 0 && ltb 0 a.attempt_number)) [
            | inr clear ↦ clear
            | inl clash ↦ absurd (
                omega (
                  arith,
                  fresh,
                  count-any (λ r. r.id == a.run_id) db.runs known,
                  count_mono (λ (r : Run). r.id == a.run_id) (λ (r : Run). r.id == e.uuid 0) db.runs
                      (λ r k. ground arith),
                ))
          ])
          (all-All (references db.runs) db.attempts (admits-Admitted db h).referenced))))

inserted-IsConsistent :
    (e : Env) (name args : Text) (o : EnqueueOptions) (db : Db)
    → name_check name ≡ true
    → IsValidOptions o
    → IsNewId e db
    → count (is_duplicate (enqueued_run e name args o)) db.runs ≡ 0
    → IsConsistent db
    → IsConsistent (inserted (enqueued_run e name args o) db)
unfolding count is_holder all enqueued_run
inserted-IsConsistent e name args o db named valid fresh unique_key c = record {
  admitted = admits-inserted e name args o db named valid fresh unique_key c.admitted;
  linked = λ i t. ground (arith, c.linked i t);
  counted = ground (arith, c.counted, new_unattempted e name args o db fresh c.admitted);
}

touch_same :
    (new r : Run)
    → is_duplicate new r ≡ true
    → record r { deduplication_key = new.deduplication_key } ≡ r
unfolding is_duplicate
touch_same new r h =
    ap (λ (k : Option Text). record r { deduplication_key = k }) (keys _ _ (ground arith))
  where
    keys : (a b : Option Text) → same_text a b ≡ true → a ≡ b
    keys none b h = cc
    keys (some s) none h = cc
    keys (some s) (some t) h = ap some (text_eq→≡ s t h)

-- The answer of ENQUEUE: the duplicates that it met, or none.
abbrev pub enqueued :
    Env → Text → Text → EnqueueOptions → Db → List Run → Db × Result SchedulerError EnqueuedTask
enqueued e name args o db [] = (
  inserted (enqueued_run e name args o) db,
  ok (record { task_id = (enqueued_run e name args o).id }),
)
enqueued e name args o db (old ∷ rest) = (db, ok (record { task_id = old.id }))

pub enqueue_lem :
    (e : Env) (task args : Text) (o : EnqueueOptions) (db : Db) (name : JobName)
    → job_name_try_from task ≡ ok name
    → IsValidOptions o
    → IsNewId e db
    → IsConsistent db
    → enqueue e task (ok args) o db
      ≡ enqueued e name.as_str args o db
          (select (is_duplicate (enqueued_run e name.as_str args o)) db.runs)
unfolding enqueue enqueue_statement
enqueue_lem e task args o db name named valid fresh c =
    let new = enqueued_run e name.as_str args o in
    elim (List-cases (select (is_duplicate new) db.runs)) [
      | inl none_ ↦
          rw (named, none_)
            (rw
              (admits-inserted e name.as_str args o db
                (job_name_try_from-name_check task name named) valid fresh
                (select-nil_count (is_duplicate new) db.runs none_) c.admitted)
              refl)
      | inr (old, rest, found) ↦
          rw (named, found)
            (rw
              (
                update_where-same (is_duplicate new)
                    (λ r. record r { deduplication_key = new.deduplication_key }) db.runs
                    (touch_same new),
                c.admitted,
              )
              refl)
    ]

-- Enqueueing keeps the tables consistent.
pub enqueue-IsConsistent :
    (e : Env) (task args : Text) (o : EnqueueOptions) (db : Db) (name : JobName)
    → job_name_try_from task ≡ ok name
    → IsValidOptions o
    → IsNewId e db
    → IsConsistent db
    → IsConsistent (enqueue e task (ok args) o db).0
enqueue-IsConsistent e task args o db name named valid fresh c =
    let new = enqueued_run e name.as_str args o in
    elim (List-cases (select (is_duplicate new) db.runs)) [
      | inl none_ ↦
          rw (enqueue_lem e task args o db name named valid fresh c, none_)
            (inserted-IsConsistent e name.as_str args o db
              (job_name_try_from-name_check task name named) valid fresh
              (select-nil_count (is_duplicate new) db.runs none_) c)
      | inr (old, rest, found) ↦ rw (enqueue_lem e task args o db name named valid fresh c, found) c
    ]
