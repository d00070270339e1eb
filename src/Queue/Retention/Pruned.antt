-- ===== src/Queue/Retention/Pruned.antt =====
-- prune_terminal of src/queue.rs: the tables after it.
use pg_task_scheduler.Prelude.{
  ℕ, ◌≤◌, ◌≡◌, refl, ap, ltb, ◌==◌, ==_iff, any, all, count, select, all-select, all-select_of,
  unique-select, any-select-not, all-All, count-and-const, length-select, count-any, count_mono,
  any-of_pos, count-select, All-map, All-all, Bool, true, false, not, ◌&&◌, Bool-cases, inl, inr,
  arith, ok,
}
use pg_task_scheduler.Models.Limits.{i64_max}
use pg_task_scheduler.Db.{
  Db, Run, Attempt, Env, admits, run_check, attempt_check, run_conflict, attempt_conflict,
  references,
}
use pg_task_scheduler.Db.Updates.{admits-Admitted}
use pg_task_scheduler.Consistency.{IsConsistent, is_holder, is_live_of, is_counted}
use pg_task_scheduler.Store.Claim.{is_chosen}
use pg_task_scheduler.Queue.{doomed, prune_statement, prune_terminal}

-- The tables after PRUNE.
abbrev pub is_doomed : Env → ℕ → ℕ → Db → Run → Bool
is_doomed e before limit db = is_chosen (doomed e before limit db)

abbrev pub is_doomed_attempt : Env → ℕ → ℕ → Db → Attempt → Bool
is_doomed_attempt e before limit db a = any (λ c. c.id == a.run_id) (doomed e before limit db)

abbrev pub pruned : Env → ℕ → ℕ → Db → Db
pruned e before limit db = record db {
  runs = select (λ r. not (is_doomed e before limit db r)) db.runs;
  attempts = select (λ a. not (is_doomed_attempt e before limit db a)) db.attempts;
}

linked-pruned :
    (e : Env) (before limit : ℕ) (db : Db)
    → IsConsistent db
    → (i t : ℕ)
    → count (is_holder i t) (pruned e before limit db).runs
      ≡ count (is_live_of i t) (pruned e before limit db).attempts
unfolding is_holder is_live_of is_chosen
linked-pruned e before limit db c i t =
    let doomed_id = λ (id : ℕ). any (λ x. x.id == id) (doomed e before limit db) in
    ground (
      arith,
      count-select (is_holder i t) (λ (r : Run). not (doomed_id r.id)) db.runs,
      count-select (is_live_of i t) (λ (a : Attempt). not (doomed_id a.run_id)) db.attempts,
      count-and-const (not (doomed_id i)) (is_holder i t) (λ (r : Run). not (doomed_id r.id))
          db.runs (λ r h. ap (λ (n : ℕ). not (doomed_id n)) ((==_iff r.id i).0 (ground arith))),
      count-and-const (not (doomed_id i)) (is_live_of i t)
          (λ (a : Attempt). not (doomed_id a.run_id)) db.attempts
          (λ a h. ap (λ (n : ℕ). not (doomed_id n)) ((==_iff a.run_id i).0 (ground arith))),
      c.linked i t,
    )

-- An attempt that is kept still has its run.
kept_reference :
    (e : Env) (before limit : ℕ) (db : Db) (a : Attempt)
    → references db.runs a ≡ true
    → not (is_doomed_attempt e before limit db a) ≡ true
    → references (select (λ r. not (is_doomed e before limit db r)) db.runs) a ≡ true
unfolding references is_chosen
kept_reference e before limit db a known kept =
    let doomed_id = λ (id : ℕ). any (λ x. x.id == id) (doomed e before limit db) in
    any-of_pos (λ r. r.id == a.run_id) _
      (omega (
        arith,
        count-any (λ r. r.id == a.run_id) db.runs known,
        count-select (λ (r : Run). r.id == a.run_id) (λ (r : Run). not (doomed_id r.id)) db.runs,
        count_mono (λ (r : Run). r.id == a.run_id)
            (λ (r : Run). r.id == a.run_id && not (doomed_id r.id)) db.runs
            (λ r k. rw (k, (==_iff r.id a.run_id).0 k) kept),
      ))

admits-pruned :
    (e : Env) (before limit : ℕ) (db : Db)
    → admits db ≡ true
    → admits (pruned e before limit db) ≡ true
unfolding admits
admits-pruned e before limit db h = ground (
  arith,
  all-select run_check (λ r. not (is_doomed e before limit db r)) db.runs,
  unique-select run_conflict (λ r. not (is_doomed e before limit db r)) db.runs,
  all-select attempt_check (λ a. not (is_doomed_attempt e before limit db a)) db.attempts,
  unique-select attempt_conflict (λ a. not (is_doomed_attempt e before limit db a)) db.attempts,
  referenced,
)
  where
    referenced :
        all
          (references (select (λ r. not (is_doomed e before limit db r)) db.runs))
          (select (λ a. not (is_doomed_attempt e before limit db a)) db.attempts)
        ≡ true
    referenced = all-select_of _ _ db.attempts (
        All-map db.attempts (kept_reference e before limit db)
          (all-All (references db.runs) db.attempts (admits-Admitted db h).referenced))

counted-pruned :
    (e : Env) (before limit : ℕ) (db : Db)
    → IsConsistent db
    → all (is_counted (pruned e before limit db).attempts) (pruned e before limit db).runs ≡ true
unfolding is_counted
counted-pruned e before limit db c =
    all-select (is_counted (pruned e before limit db).attempts) _ db.runs (
      All-all (is_counted (pruned e before limit db).attempts) db.runs (
        All-map db.runs
          (λ r within.
            any-select-not (λ a. a.run_id == r.id && ltb r.attempt_count a.attempt_number) _
              db.attempts (ground arith))
          (all-All (is_counted db.attempts) db.runs c.counted)))

pruned-IsConsistent :
    (e : Env) (before limit : ℕ) (db : Db)
    → IsConsistent db
    → IsConsistent (pruned e before limit db)
pruned-IsConsistent e before limit db c = record {
  admitted = admits-pruned e before limit db c.admitted;
  linked = linked-pruned e before limit db c;
  counted = counted-pruned e before limit db c;
}

pub pruned_lem :
    (e : Env) (before limit : ℕ) (db : Db)
    → limit ≤ i64_max
    → IsConsistent db
    → prune_terminal e before limit db
      ≡ (pruned e before limit db, ok (count (is_doomed e before limit db) db.runs))
unfolding prune_terminal prune_statement
pruned_lem e before limit db small c =
    rw (fits, admits-pruned e before limit db c.admitted)
      (rw (length-select (is_doomed e before limit db) db.runs) refl)
  where
    fits : ltb i64_max limit ≡ false
    fits = ground arith

-- Pruning keeps the tables consistent.
pub prune_terminal-IsConsistent :
    (e : Env) (before limit : ℕ) (db : Db)
    → IsConsistent db
    → IsConsistent (prune_terminal e before limit db).0
unfolding prune_terminal
prune_terminal-IsConsistent e before limit db c = elim (Bool-cases (ltb i64_max limit)) [
  | inl large ↦ rw (prune_terminal, large) c
  | inr small ↦
      rw (pruned_lem e before limit db (ground arith) c) (pruned-IsConsistent e before limit db c)
]
