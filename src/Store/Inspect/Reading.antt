-- ===== src/Store/Inspect/Reading.antt =====
-- The reads of src/store/inspect.rs: what the CHECKs of the schema mean for them.
use pg_task_scheduler.Prelude.{
  ℕ, ◌≡◌, refl, sym, ap, leb, ◌==◌, ◌⊎◌, all, select, map, order_by, get_last?, any-of_count,
  select-nil_count, all-select, all-order_by, List-cases, Bool, true, false, ◌&&◌, List, [], ◌∷◌,
  Option, none, some, Result-cases, ok, collect-ok, inl, inr, arith,
}
use pg_task_scheduler.Models.Runs.{StoredRunState, RunState, TaskAttempt}
use pg_task_scheduler.Db.{Db, Run, Attempt, run_check, state_check, attempt_check}
use pg_task_scheduler.Db.Updates.{admits-Admitted}
use pg_task_scheduler.Consistency.{IsConsistent}
use pg_task_scheduler.Queue.{exists}
use pg_task_scheduler.Store.Inspect.{
  state_of, run_state, attempt_state, to_task_attempt, task_attempts,
}

-- The stored state that a read model stands for.
unfoldable pub stored_state : RunState → StoredRunState
stored_state RunState.pending = StoredRunState.pending
stored_state (RunState.running lease) = StoredRunState.running
stored_state (RunState.completed finished_at) = StoredRunState.completed
stored_state (RunState.failed finished_at error) = StoredRunState.failed
stored_state (RunState.cancelled finished_at) = StoredRunState.cancelled

-- A row that passes the CHECKs reads as its state.
pub state_of-stored_state :
    (r : Run)
    → run_check r ≡ true
    → (s : RunState) × (state_of r ≡ ok s) × (stored_state s ≡ r.state)
unfolding run_check state_check state_of stored_state
state_of-stored_state r h = elim (Result-cases (state_of r)) [
  | inl (e, bad) ↦ absurd (ground arith)
  | inr (s, good) ↦ (s, good, ground arith)
]

-- The read model of an attempt.
abbrev pub view : Attempt → TaskAttempt
view a = record {
  attempt = a.attempt_number;
  worker_id = record { as_str = a.worker_id };
  started_at = a.started_at;
  lease_expires_at = a.lease_expires_at;
  finished_at = a.finished_at;
  state = attempt_state a.outcome a.error;
}

to_task_attempt-view : (a : Attempt) → attempt_check a ≡ true → to_task_attempt a ≡ ok (view a)
unfolding attempt_check to_task_attempt
to_task_attempt-view a h = ground arith

abbrev pub by_number : Attempt → Attempt → Bool
by_number a b = leb a.attempt_number b.attempt_number

-- `task_attempts` never fails on a consistent database: it is the run's attempts by their number,
-- and changes nothing.
pub task_attempts_lem :
    (id : ℕ) (db : Db)
    → IsConsistent db
    → task_attempts id db
      ≡ (db, ok (map view (order_by by_number (select (λ a. a.run_id == id) db.attempts))))
unfolding task_attempts
task_attempts_lem id db c =
    ap (λ r. (db, r))
      (collect-ok to_task_attempt view attempt_check
        (order_by by_number (select (λ a. a.run_id == id) db.attempts)) to_task_attempt-view
        (all-order_by attempt_check by_number _ (
          all-select attempt_check (λ a. a.run_id == id) db.attempts
            (admits-Admitted db c.admitted).attempts_checked)))

get_last?-some :
    (c : Run → Bool) (x : Run) (xs : List Run)
    → all c (x ∷ xs) ≡ true
    → (y : Run) × (get_last? (x ∷ xs) ≡ some y) × (c y ≡ true)
unfolding get_last? all
get_last?-some c x [] h = (x, refl, ground arith)
get_last?-some c x (z ∷ xs) h = get_last?-some c z xs (ground arith)

-- The row with this id, of those that SELECT returns.
abbrev pub row_of : ℕ → Db → Option Run
row_of id db = get_last? (select (λ r. r.id == id) db.runs)

all-named :
    (id : ℕ) (runs : List Run) → all (λ r. r.id == id) (select (λ r. r.id == id) runs) ≡ true
unfolding all select
all-named id [] = refl
all-named id (r ∷ runs) = ground (arith, all-named id runs)

all-and :
    (c d : Run → Bool) (xs : List Run)
    → all c xs ≡ true
    → all d xs ≡ true
    → all (λ x. c x && d x) xs ≡ true
unfolding all
all-and c d [] hc hd = refl
all-and c d (x ∷ xs) hc hd = ground (arith, all-and c d xs)

row_of_sound :
    (id : ℕ) (db : Db) (y : Run) (ys : List Run)
    → IsConsistent db
    → select (λ r. r.id == id) db.runs ≡ y ∷ ys
    → (r : Run) × (row_of id db ≡ some r) × ((r.id == id && run_check r) ≡ true)
row_of_sound id db y ys c found =
    let sound =
      all-and (λ r. r.id == id) run_check (select (λ r. r.id == id) db.runs) (all-named id db.runs)
        (all-select run_check (λ r. r.id == id) db.runs
          (admits-Admitted db c.admitted).runs_checked) in
    rw found (get_last?-some (λ r. r.id == id && run_check r) y ys (rw (sym found) sound))

-- `run_state` never fails on a consistent database, and changes nothing: where no run has the id
-- the answer is none, and otherwise it is a state of the kind that the run's row stores, which
-- passes its CHECKs.
pub run_state_lem :
    (id : ℕ) (db : Db)
    → IsConsistent db
    → ((exists id db ≡ false) × (run_state id db ≡ (db, ok none)))
      ⊎ ((r : Run) × (s : RunState) × (row_of id db ≡ some r)
          × (r.id ≡ id)
          × (run_state id db ≡ (db, ok (some s)))
          × (stored_state s ≡ r.state)
          × (run_check r ≡ true)
          × (state_of r ≡ ok s))
unfolding run_state exists get_last?
run_state_lem id db c = elim (List-cases (select (λ r. r.id == id) db.runs)) [
  | inl none_ ↦ inl (
    any-of_count (λ r. r.id == id) db.runs (select-nil_count (λ r. r.id == id) db.runs none_),
    rw none_ refl,
  )
  | inr (y, ys, found) ↦
      let (r, last, sound) = row_of_sound id db y ys c found in
      let (s, reads, kind) = state_of-stored_state r (ground arith) in
      inr (r, s, last, ground arith, rw (last, reads) refl, kind, ground arith, reads)
]
