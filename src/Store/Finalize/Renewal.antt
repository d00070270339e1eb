-- ===== src/Store/Finalize/Renewal.antt =====
-- renew_lease of src/store/finalize.rs, on every branch.
use pg_task_scheduler.Prelude.{
  ℕ, ◌≤◌, ◌<◌, ◌≡◌, refl, sym, ◌∙◌, count, select, update_where, update_where-none,
  select-nil_count, select-cons_count, select-head, List-cases, count_mono, count-update_where, All,
  All-map, true, List, [], ◌∷◌, some, Result, ok, inl, inr, arith,
}
use pg_task_scheduler.Models.Runs.{RenewalOutcome}
use pg_task_scheduler.Error.{SchedulerError}
use pg_task_scheduler.Db.{
  Db, Run, Attempt, Env, add_interval, admits, attempt_check, attempt_conflict, run_check,
}
use pg_task_scheduler.Db.Updates.{
  admits-update_runs, admits-update_attempts, admits-Admitted, KeepsAttemptKeys,
}
use pg_task_scheduler.Consistency.{IsConsistent, is_holder, is_live_of}
use pg_task_scheduler.Consistency.Facts.{live-of_holder}
use pg_task_scheduler.Consistency.Release.{counted-update}
use pg_task_scheduler.Store.Finalize.{
  holds_lease, renew_row, renew_statement, is_live, renew_attempt, renew_applied, renew_lease,
}
use pg_task_scheduler.Store.Finalize.Rows.{started_by, renew_row-run_check, renew_row-KeepsRunKeys}
use pg_task_scheduler.Store.Finalize.Completion.{holds_lease-is_holder}

-- The clock of the renewal is not behind any recorded start.
pub record HasStarted (e : Env) (db : Db) : Type 0 where
  pub runs : All (λ r. started_by r.started_at (e.clock r.id 1) ≡ true) db.runs
  pub attempts : All (λ a. (id : ℕ) → a.started_at ≤ e.clock id 1) db.attempts

abbrev pub new_expiry : Env → Run → ℕ
new_expiry e r = add_interval (e.clock r.id 1) r.lease_duration

-- A run whose lease goes on until the new expiry.
abbrev pub renewed_row : Env → Run → Run
renewed_row e r = record r { lease_expires_at = some (new_expiry e r); updated_at = e.clock r.id 2 }

abbrev extend : ℕ → Attempt → Attempt
extend expiry a = record a { lease_expires_at = expiry }

-- The tables after a renewal: the run's lease and its live attempt end at the new expiry.
abbrev pub renewed_runs : Env → ℕ → ℕ → Db → Db
renewed_runs e id token db = record db {
  runs = update_where (holds_lease e id token) (renewed_row e) db.runs;
}

abbrev pub renewed : Env → ℕ → ℕ → ℕ → Db → Db
renewed e id token expiry db = record (renewed_runs e id token db) {
  attempts = update_where (is_live token) (λ a. record a { lease_expires_at = expiry }) db.attempts;
}

admits-renewed_runs :
    (e : Env) (id token : ℕ) (db : Db)
    → HasStarted e db
    → admits db ≡ true
    → admits (renewed_runs e id token db) ≡ true
unfolding renew_row
admits-renewed_runs e id token db s h =
    admits-update_runs db _ _ (renew_row-KeepsRunKeys e)
      (All-map db.runs (renew_row-run_check e id token) s.runs) h

extend-KeepsAttemptKeys : (expiry : ℕ) → KeepsAttemptKeys (extend expiry)
unfolding attempt_conflict
extend-KeepsAttemptKeys expiry = record {
  run_id = λ a. refl;
  conflict_left = λ a b. refl;
  conflict_right = λ a b. refl;
}

grows : (t : ℕ) (r : Run) → run_check r ≡ true → t < add_interval t r.lease_duration
unfolding run_check
grows t r h = ground arith

extend-attempt_check :
    (expiry : ℕ) (a : Attempt)
    → a.started_at < expiry
    → attempt_check a ≡ true
    → attempt_check (extend expiry a) ≡ true
unfolding attempt_check
extend-attempt_check expiry a h c = ground arith

admits-renewed :
    (e : Env) (id token : ℕ) (db : Db) (y : Run)
    → run_check y ≡ true
    → HasStarted e db
    → admits db ≡ true
    → admits (renewed e id token (new_expiry e y) db) ≡ true
admits-renewed e id token db y c s h =
    admits-update_attempts (renewed_runs e id token db) (is_live token) _
      (extend-KeepsAttemptKeys (new_expiry e y))
      (All-map db.attempts
        (λ a started checked _.
          extend-attempt_check (new_expiry e y) a
            (omega (arith, started y.id, grows (e.clock y.id 1) y c)) checked)
        s.attempts)
      (admits-renewed_runs e id token db s h)

renew_lease-held :
    (e : Env) (id token : ℕ) (db : Db) (y : Run) (ys : List Run)
    → HasStarted e db
    → IsConsistent db
    → select (holds_lease e id token) db.runs ≡ y ∷ ys
    → renew_lease e id token db
      ≡ (renewed e id token (new_expiry e y) db, ok (RenewalOutcome.renewed (new_expiry e y)))
unfolding renew_lease renew_statement renew_applied renew_attempt renew_row
renew_lease-held e id token db y ys s c held =
    rw (held, admits-renewed_runs e id token db s c.admitted)
      (rw (admits-renewed e id token db y sound s c.admitted, live) refl)
  where
    sound : run_check y ≡ true
    sound =
        (select-head run_check (holds_lease e id token) db.runs y ys
          (admits-Admitted db c.admitted).runs_checked held).0

    live : count (is_live token) db.attempts ≡ 1
    live = live-of_holder db id token c (
        omega (
          arith,
          select-cons_count (holds_lease e id token) db.runs y ys held,
          count_mono (holds_lease e id token) (is_holder id token) db.runs
              (holds_lease-is_holder e id token),
        ))

pub renew_lease-not_held :
    (e : Env) (id token : ℕ) (db : Db)
    → admits db ≡ true
    → select (holds_lease e id token) db.runs ≡ []
    → renew_lease e id token db ≡ (db, ok RenewalOutcome.fenced)
unfolding renew_lease renew_statement renew_applied
renew_lease-not_held e id token db h idle = rw (
  update_where-none (holds_lease e id token) (renew_row e) db.runs
      (select-nil_count (holds_lease e id token) db.runs idle),
  idle,
  h,
)

abbrev pub renewal : Env → ℕ → ℕ → Db → List Run → Db × Result SchedulerError RenewalOutcome
renewal e id token db [] = (db, ok RenewalOutcome.fenced)
renewal e id token db (r ∷ rows) =
    (renewed e id token (new_expiry e r) db, ok (RenewalOutcome.renewed (new_expiry e r)))

-- `renew_lease` on a consistent database, with a clock that is not behind any start, never fails. If
-- some run holds the lease, the run and its live attempt get the same new expiry, which is the
-- answer. Otherwise nothing changes, and the caller is told that it is fenced off.
pub renew_lease_lem :
    (e : Env) (id token : ℕ) (db : Db)
    → HasStarted e db
    → IsConsistent db
    → renew_lease e id token db ≡ renewal e id token db (select (holds_lease e id token) db.runs)
renew_lease_lem e id token db s c = elim (List-cases (select (holds_lease e id token) db.runs)) [
  | inl idle ↦ rw idle (renew_lease-not_held e id token db c.admitted idle)
  | inr (y, ys, held) ↦ rw held (renew_lease-held e id token db y ys s c held)
]

renewed-IsConsistent :
    (e : Env) (id token expiry : ℕ) (db : Db)
    → IsConsistent db
    → admits (renewed e id token expiry db) ≡ true
    → IsConsistent (renewed e id token expiry db)
unfolding is_holder is_live_of is_live
renewed-IsConsistent e id token expiry db c h = record {
  admitted = h;
  linked = λ i t.
      count-update_where (is_holder i t) (holds_lease e id token) (renewed_row e) db.runs
        (λ r _. refl)
      ∙ c.linked i t
      ∙ sym (
          count-update_where (is_live_of i t) (is_live token) (extend expiry) db.attempts
            (λ a _. refl));
  counted =
      counted-update db (holds_lease e id token) (renewed_row e) (is_live token) (extend expiry)
        (λ r. refl) (λ r. refl) (λ a. refl) (λ a. refl) c.counted;
}

-- Renewing keeps the tables consistent, whoever calls it with whatever token.
pub renew_lease-IsConsistent :
    (e : Env) (id token : ℕ) (db : Db)
    → HasStarted e db
    → IsConsistent db
    → IsConsistent (renew_lease e id token db).0
renew_lease-IsConsistent e id token db s c =
    elim (List-cases (select (holds_lease e id token) db.runs)) [
      | inl idle ↦ rw (renew_lease-not_held e id token db c.admitted idle) c
      | inr (y, ys, held) ↦ rw (renew_lease-held e id token db y ys s c held) (
          renewed-IsConsistent e id token (new_expiry e y) db c (
            admits-renewed e id token db y
              (select-head run_check (holds_lease e id token) db.runs y ys
                (admits-Admitted db c.admitted).runs_checked held).0
              s c.admitted))
    ]
