-- ===== src/Queue/Cancellation.antt =====
-- cancel of src/queue.rs, on every branch.
use pg_task_scheduler.Prelude.{
  ℕ, ◌<◌, ◌≡◌, refl, ◌∙◌, ◌==◌, any, count, select, update_where, update_where-none, any-of_pos,
  count-any, count_mono, count-select, count-witness, count-none, count-not_any, select-pos,
  select-none, all-counted, All-of, Bool, true, false, not, ◌&&◌, List, none, some, Bool-cases, ok,
  inl, inr, arith, if◌then◌else◌,
}
use pg_task_scheduler.Models.Runs.{StoredRunState, StoredAttemptOutcome, is_running, is_terminal}
use pg_task_scheduler.Db.{
  Db, Run, Attempt, Env, admits, is_value, outcome_check, run_check, attempts_check, state_check,
  run_conflict,
}
use pg_task_scheduler.Db.Updates.{
  admits-update_runs, admits-update_attempts, admits-Admitted, KeepsRunKeys,
}
use pg_task_scheduler.Consistency.{IsConsistent, is_holder, is_live_of}
use pg_task_scheduler.Consistency.Release.{linked-release, counted-update}
use pg_task_scheduler.Consistency.ManyLeases.{is_leased, same_leases, lost_recorded}
use pg_task_scheduler.Store.Finalize.{is_live, close_attempt}
use pg_task_scheduler.Store.Finalize.Rows.{
  close_attempt-attempt_check, close_attempt-KeepsAttemptKeys,
}
use pg_task_scheduler.Queue.{
  CancelOutcome, is_cancelled_attempt, is_cancelled, cancel_row, cancel_statement, exists,
  cancel_changed, cancel,
}

-- The rows of `target`, the token that they run under, and the rows of `attempt`.
abbrev pub targets : ℕ → Db → List Run
targets id db = select (λ r. r.id == id) db.runs

abbrev pub is_target_token : ℕ → Db → ℕ → Bool
is_target_token id db token =
    any (λ t. is_running t.state && is_value t.lease_token token) (targets id db)

abbrev pub closing : ℕ → Db → List Attempt
closing id db = select (is_cancelled_attempt (targets id db)) db.attempts

-- A task that is cancelled, and an attempt that is closed with it.
abbrev pub cancelled_row : Env → Run → Run
cancelled_row e r = record r {
  state = StoredRunState.cancelled;
  worker_id = none;
  lease_token = none;
  lease_expires_at = none;
  started_at = none;
  finished_at = some (e.clock r.id 1);
  last_error = none;
  updated_at = e.clock r.id 2;
}

abbrev pub cancelled_attempt : Env → Attempt → Attempt
cancelled_attempt e a = record a {
  finished_at = some (e.clock a.run_id 0);
  outcome = some StoredAttemptOutcome.cancelled;
  error = none;
}

-- The tables after CANCEL.
abbrev pub cancelled_runs : Env → ℕ → Db → Db
cancelled_runs e id db = record db {
  runs = update_where (is_cancelled id (closing id db)) (cancelled_row e) db.runs;
}

abbrev pub cancelled : Env → ℕ → Db → Db
cancelled e id db = record (cancelled_runs e id db) {
  attempts = update_where (is_cancelled_attempt (targets id db)) (cancelled_attempt e) db.attempts;
}

cancelled_row-run_check :
    (e : Env) (r : Run) → run_check r ≡ true → run_check (cancelled_row e r) ≡ true
unfolding run_check attempts_check state_check
cancelled_row-run_check e r c = ground arith

cancelled_row-KeepsRunKeys : (e : Env) → KeepsRunKeys (cancelled_row e)
unfolding run_conflict
cancelled_row-KeepsRunKeys e = record {
  id = λ r. refl;
  conflict_left = λ r s. refl;
  conflict_right = λ r s. refl;
}

admits-cancelled :
    (e : Env) (id : ℕ) (db : Db) → admits db ≡ true → admits (cancelled e id db) ≡ true
unfolding outcome_check close_attempt
admits-cancelled e id db h =
    admits-update_attempts (cancelled_runs e id db) (is_cancelled_attempt (targets id db)) _
      (close_attempt-KeepsAttemptKeys e 0 _ _)
      (All-of db.attempts (λ a c _. close_attempt-attempt_check e 0 _ _ a refl c))
      (admits-update_runs db _ _ (cancelled_row-KeepsRunKeys e)
        (All-of db.runs (λ r c _. cancelled_row-run_check e r c)) h)

pub target_held :
    (id : ℕ) (db : Db) (token : ℕ)
    → is_target_token id db token ≡ true
    → 0 < count (is_leased (λ i. i == id) token) db.runs
target_held id db token h = omega (
  arith,
  count-any (λ t. is_running t.state && is_value t.lease_token token) (targets id db) h,
  count-select (λ (t : Run). is_running t.state && is_value t.lease_token token)
      (λ (r : Run). r.id == id) db.runs,
  count_mono (λ (t : Run). (is_running t.state && is_value t.lease_token token) && t.id == id)
      (is_leased (λ i. i == id) token) db.runs (λ r e. ground arith),
)

pub held_target :
    (id : ℕ) (db : Db) (token : ℕ)
    → 0 < count (is_leased (λ i. i == id) token) db.runs
    → is_target_token id db token ≡ true
held_target id db token h =
    any-of_pos (λ t. is_running t.state && is_value t.lease_token token) (targets id db)
      (omega (
        arith,
        h,
        count-select (λ (t : Run). is_running t.state && is_value t.lease_token token)
            (λ (r : Run). r.id == id) db.runs,
        count_mono (is_leased (λ i. i == id) token)
            (λ (t : Run). (is_running t.state && is_value t.lease_token token) && t.id == id)
            db.runs (λ r e. ground arith),
      ))

stopped :
    (id : ℕ) (db : Db) (r : Run)
    → is_running r.state ≡ true
    → is_cancelled id (closing id db) r
      ≡ (r.id == id && any (λ a. a.run_id == r.id) (closing id db))
unfolding is_cancelled
stopped id db r h = ground arith

cancelled-IsConsistent :
    (e : Env) (id : ℕ) (db : Db) → IsConsistent db → IsConsistent (cancelled e id db)
unfolding is_cancelled_attempt is_live is_holder is_live_of
cancelled-IsConsistent e id db c = record {
  admitted = admits-cancelled e id db c.admitted;
  linked =
      linked-release db _ (cancelled_row e) _ (cancelled_attempt e) (λ i t r. ground arith)
        (λ i t a. ground arith)
        (same_leases db c (λ i. i == id) (is_target_token id db) (target_held id db)
          (held_target id db) (is_cancelled id (closing id db)) (stopped id db))
        c.linked;
  counted =
      counted-update db _ (cancelled_row e) _ (cancelled_attempt e) (λ r. refl) (λ r. refl)
        (λ a. refl) (λ a. refl) c.counted;
}

-- The task can still be cancelled.
unfoldable pub is_open : ℕ → Run → Bool
is_open id r = r.id == id && not (is_terminal r.state)

token_of_running :
    (r : Run) → run_check r ≡ true → is_running r.state ≡ true → (t : ℕ) × (r.lease_token ≡ some t)
unfolding run_check state_check
token_of_running r c h = ground arith

-- A running task in a consistent database has a live attempt for CANCEL to close.
pub running_is_cancelled :
    (id : ℕ) (db : Db) (x : Run)
    → IsConsistent db
    → run_check x ≡ true
    → ((q : Run → Bool) → q x ≡ true → 0 < count q db.runs)
    → is_open id x ≡ true
    → is_running x.state ≡ true
    → is_cancelled id (closing id db) x ≡ true
unfolding is_open is_holder is_cancelled_attempt
running_is_cancelled id db x c checked counted open_ running =
    let (t, held) = token_of_running x checked running in
    let named : (x.id == id) ≡ true = ground arith in
    let value : is_value x.lease_token t ≡ true = rw held (ground arith) in
    stopped id db x running
    ∙ ground (
      arith,
      lost_recorded db c (λ i. i == id) (is_target_token id db) (target_held id db)
          (held_target id db) (is_cancelled id (closing id db)) (stopped id db) x.id t
          (counted (is_holder x.id t) (ground arith))
          (held_target id db t (counted (is_leased (λ i. i == id) t) (ground arith))),
    )

pub pending_is_cancelled :
    (id : ℕ) (attempts : List Attempt) (x : Run)
    → is_open id x ≡ true
    → is_running x.state ≡ false
    → is_cancelled id attempts x ≡ true
unfolding is_open is_cancelled
pending_is_cancelled id attempts x h k = ground arith

open_cancelled :
    (id : ℕ) (db : Db)
    → IsConsistent db
    → 0 < count (is_open id) db.runs
    → 0 < count (is_cancelled id (closing id db)) db.runs
open_cancelled id db c h =
    let (x, open_, counted) = count-witness (is_open id) db.runs h in
    counted (is_cancelled id (closing id db)) (elim (Bool-cases (is_running x.state)) [
      | inl running ↦
          running_is_cancelled id db x c
            (all-counted run_check db.runs x (admits-Admitted db c.admitted).runs_checked counted)
            counted open_ running
      | inr idle ↦ pending_is_cancelled id (closing id db) x open_ idle
    ])

pub cancelled_open :
    (id : ℕ) (attempts : List Attempt) (r : Run)
    → is_cancelled id attempts r ≡ true
    → is_open id r ≡ true
unfolding is_open is_cancelled
cancelled_open id attempts r h = ground arith

-- With no open task nothing is closed either.
not_open_closes :
    (id : ℕ) (db : Db)
    → count (is_open id) db.runs ≡ 0
    → count (is_cancelled_attempt (targets id db)) db.attempts ≡ 0
unfolding is_cancelled_attempt is_open
not_open_closes id db h = count-none (is_cancelled_attempt (targets id db)) db.attempts (λ a.
    elim (Bool-cases (is_target_token id db a.lease_token)) [
      | inl hit ↦ absurd (
          omega (
            arith,
            target_held id db a.lease_token hit,
            count_mono (is_leased (λ i. i == id) a.lease_token) (is_open id) db.runs
                (λ r e. ground arith),
          ))
      | inr miss ↦ ground arith
    ])

cancel-open :
    (e : Env) (id : ℕ) (db : Db)
    → IsConsistent db
    → 0 < count (is_open id) db.runs
    → cancel e id db ≡ (cancelled e id db, ok CancelOutcome.cancelled)
unfolding cancel cancel_statement cancel_changed cancel_row close_attempt
cancel-open e id db c h =
    let (y, ys, found) =
      select-pos (is_cancelled id (closing id db)) db.runs (open_cancelled id db c h) in
    rw (found, admits-cancelled e id db c.admitted)

cancel-not_open :
    (e : Env) (id : ℕ) (db : Db)
    → admits db ≡ true
    → count (is_open id) db.runs ≡ 0
    → cancel e id db
      ≡ (db, ok (if exists id db then CancelOutcome.already_terminal else CancelOutcome.not_found))
unfolding cancel cancel_statement cancel_changed
cancel-not_open e id db ok_now h = rw (
  update_where-none (is_cancelled_attempt (targets id db)) _ db.attempts (not_open_closes id db h),
  update_where-none (is_cancelled id (closing id db)) (cancel_row e) db.runs idle,
  select-none (is_cancelled id (closing id db)) db.runs idle,
  ok_now,
)
  where
    idle : count (is_cancelled id (closing id db)) db.runs ≡ 0
    idle = omega (
      arith,
      h,
      count_mono (is_cancelled id (closing id db)) (is_open id) db.runs
          (cancelled_open id (closing id db)),
    )

-- `cancel` on a consistent database never fails. A task that is pending or running becomes cancelled,
-- with its live attempt closed, and the answer is `Cancelled`; otherwise nothing changes and the
-- answer tells a terminal task from one that does not exist.
pub cancel_lem :
    (e : Env) (id : ℕ) (db : Db)
    → IsConsistent db
    → cancel e id db ≡ (
        if any (is_open id) db.runs then (cancelled e id db, ok CancelOutcome.cancelled) else (
          db,
          ok (if exists id db then CancelOutcome.already_terminal else CancelOutcome.not_found),
        ))
cancel_lem e id db c = elim (Bool-cases (any (is_open id) db.runs)) [
  | inl hit ↦ rw hit (cancel-open e id db c (count-any (is_open id) db.runs hit))
  | inr miss ↦
      rw miss (cancel-not_open e id db c.admitted (count-not_any (is_open id) db.runs miss))
]

-- Cancelling keeps the tables consistent.
pub cancel-IsConsistent :
    (e : Env) (id : ℕ) (db : Db) → IsConsistent db → IsConsistent (cancel e id db).0
cancel-IsConsistent e id db c = elim (Bool-cases (any (is_open id) db.runs)) [
  | inl hit ↦ rw (cancel_lem e id db c, hit) (cancelled-IsConsistent e id db c)
  | inr miss ↦ rw (cancel_lem e id db c, miss) c
]
