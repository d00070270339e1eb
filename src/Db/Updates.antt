-- ===== src/Db/Updates.antt =====
-- An UPDATE that leaves the key columns alone meets the constraints when its rows do.
use pg_task_scheduler.Prelude.{
  ℕ, ◌≡◌, sym, ◌∙◌, ap, Bool, true, ◌==◌, List, All, All-of, all, any, unique, update_where,
  all-update_where, unique-update_where, any-update_where, arith,
}
use pg_task_scheduler.Db.{
  Db, Run, Attempt, run_check, attempt_check, run_conflict, attempt_conflict, references, admits,
}

-- The parts of `admits` as hypotheses.
pub record Admitted (db : Db) : Type 0 where
  pub runs_checked : all run_check db.runs ≡ true
  pub runs_unique : unique run_conflict db.runs ≡ true
  pub attempts_checked : all attempt_check db.attempts ≡ true
  pub attempts_unique : unique attempt_conflict db.attempts ≡ true
  pub referenced : all (references db.runs) db.attempts ≡ true

pub admits-Admitted : (db : Db) → admits db ≡ true → Admitted db
unfolding admits
admits-Admitted db h = ground arith

-- An update of runs keeps every column that a key or a reference reads.
pub record KeepsRunKeys (f : Run → Run) : Type 0 where
  pub id : (r : Run) → (f r).id ≡ r.id
  pub conflict_left : (r s : Run) → run_conflict (f r) s ≡ run_conflict r s
  pub conflict_right : (r s : Run) → run_conflict r (f s) ≡ run_conflict r s

pub record KeepsAttemptKeys (g : Attempt → Attempt) : Type 0 where
  pub run_id : (a : Attempt) → (g a).run_id ≡ a.run_id
  pub conflict_left : (a b : Attempt) → attempt_conflict (g a) b ≡ attempt_conflict a b
  pub conflict_right : (a b : Attempt) → attempt_conflict a (g b) ≡ attempt_conflict a b

pub references-update_where :
    (p : Run → Bool) (f : Run → Run) (runs : List Run)
    → KeepsRunKeys f
    → (a : Attempt) → references (update_where p f runs) a ≡ references runs a
unfolding references
references-update_where p f runs keeps a = any-update_where _ p f runs (λ r. rw (keeps.id r))

pub admits-update_runs :
    (db : Db) (p : Run → Bool) (f : Run → Run)
    → KeepsRunKeys f
    → All (λ r. run_check r ≡ true → p r ≡ true → run_check (f r) ≡ true) db.runs
    → admits db ≡ true
    → admits (record db { runs = update_where p f db.runs }) ≡ true
unfolding admits
admits-update_runs db p f keeps rows h = ground (
  arith,
  all-update_where run_check p f db.runs rows,
  unique-update_where run_conflict p f db.runs keeps.conflict_left keeps.conflict_right,
  all_references,
)
  where
    all_references :
        all (references db.runs) db.attempts
        ≡ all (references (update_where p f db.runs)) db.attempts
    all_references = λ i. all (λ a. sym (references-update_where p f db.runs keeps a) i) db.attempts

pub admits-update_attempts :
    (db : Db) (q : Attempt → Bool) (g : Attempt → Attempt)
    → KeepsAttemptKeys g
    → All (λ a. attempt_check a ≡ true → q a ≡ true → attempt_check (g a) ≡ true) db.attempts
    → admits db ≡ true
    → admits (record db { attempts = update_where q g db.attempts }) ≡ true
unfolding admits references
admits-update_attempts db q g keeps rows h = ground (
  arith,
  all-update_where attempt_check q g db.attempts rows,
  unique-update_where attempt_conflict q g db.attempts keeps.conflict_left keeps.conflict_right,
  all-update_where (references db.runs) q g db.attempts (All-of db.attempts referenced),
)
  where
    referenced :
        (a : Attempt) → references db.runs a ≡ true → q a ≡ true → references db.runs (g a) ≡ true
    referenced a known hit = ap (λ (n : ℕ). any (λ r. r.id == n) db.runs) (keeps.run_id a) ∙ known
