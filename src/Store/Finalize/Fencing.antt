-- ===== src/Store/Finalize/Fencing.antt =====
-- The lease token of src/store/finalize.rs as a fence: what it is worth once its run is finalized.
use pg_task_scheduler.Prelude.{
  ℕ, ◌<◌, ◌≡◌, refl, sym, ◌∙◌, Text, ◌==◌, any, count, update_where, any-of_pos, select-none,
  count_mono, count-none, count-split, count-update_where_split, count-any, Bool-cases, Bool, true,
  false, not, ◌&&◌, Result, ok, inl, inr, arith, if◌then◌else◌,
}
use pg_task_scheduler.Models.Runs.{
  Outcome, FinalizeOutcome, FailureOutcome, RenewalOutcome, is_terminal,
}
use pg_task_scheduler.Error.{SchedulerError}
use pg_task_scheduler.Db.{Db, Env, Run}
use pg_task_scheduler.Consistency.{IsConsistent, is_holder}
use pg_task_scheduler.Consistency.Facts.{count-of_id}
use pg_task_scheduler.Store.Finalize.{
  holds_lease, finalize_row, finalize_run, fail_run, renew_lease, terminal, stored_outcome,
}
use pg_task_scheduler.Store.Finalize.Completion.{
  finalized, finalize_run_lem, finalize_run-not_held, admits-finalized, holds_lease-is_holder,
}
use pg_task_scheduler.Store.Finalize.Failure.{fail_run-not_held}
use pg_task_scheduler.Store.Finalize.Renewal.{renew_lease-not_held}

finalized_terminal :
    (e : Env) (o : Outcome) (r : Run)
    → is_terminal (finalize_row e (stored_outcome o).0 (stored_outcome o).2 r).state ≡ true
unfolding finalize_row
finalized_terminal e Outcome.completed r = refl
finalized_terminal e (Outcome.failed error) r = refl

pub terminal_not_held :
    (e : Env) (id token : ℕ) (r : Run)
    → is_terminal r.state ≡ true
    → holds_lease e id token r ≡ false
unfolding holds_lease
terminal_not_held e id token r h = ground arith

-- The only run that the token named has been released.
released :
    (e e' : Env) (id token : ℕ) (o : Outcome) (db : Db)
    → 0 < count (holds_lease e id token) db.runs
    → IsConsistent db
    → count (holds_lease e' id token) (finalized e id token o db).runs ≡ 0
unfolding is_holder
released e e' id token o db hit c =
    let p = holds_lease e id token in
    let f = finalize_row e (stored_outcome o).0 (stored_outcome o).2 in
    omega (
      arith,
      hit,
      count-update_where_split (holds_lease e' id token) p f db.runs,
      count_mono (λ (r : Run). holds_lease e' id token r && not (p r))
          (λ (r : Run). is_holder id token r && not (p r)) db.runs
          (λ r h. ground (arith, holds_lease-is_holder e' id token r)),
      count_mono (λ (r : Run). p r && holds_lease e' id token (f r)) (λ (r : Run). false) db.runs
          (λ r h. ground (arith, terminal_not_held e' id token (f r) (finalized_terminal e o r))),
      count-none (λ (r : Run). false) db.runs (λ r. refl),
      count_mono p (λ (r : Run). is_holder id token r && p r) db.runs
          (λ r h. ground (arith, holds_lease-is_holder e id token r h)),
      count-split (is_holder id token) p db.runs,
      count-of_id db id (is_holder id token) (λ r h. ground arith) c,
    )

now_terminal :
    (e : Env) (id token : ℕ) (o : Outcome) (db : Db)
    → 0 < count (holds_lease e id token) db.runs
    → terminal id (finalized e id token o db) ≡ true
unfolding terminal holds_lease finalize_row
now_terminal e id token o db hit =
    let p = holds_lease e id token in
    let f = finalize_row e (stored_outcome o).0 (stored_outcome o).2 in
    let done = λ (r : Run). r.id == id && is_terminal r.state in
    any-of_pos done (update_where p f db.runs) (
      omega (
        arith,
        hit,
        count-update_where_split done p f db.runs,
        count_mono p (λ (r : Run). p r && done (f r)) db.runs
            (λ r h. ground (arith, finalized_terminal e o r)),
      ))

abbrev refusal : Bool → Result SchedulerError FinalizeOutcome
refusal b = ok (if b then FinalizeOutcome.already_terminal else FinalizeOutcome.fenced)

refusal-applied : (b : Bool) → refusal b ≡ ok FinalizeOutcome.applied → ⊥
refusal-applied b h = ground arith

pub applied_held :
    (e : Env) (id token : ℕ) (o : Outcome) (db : Db)
    → IsConsistent db
    → (finalize_run e id token o db).1 ≡ ok FinalizeOutcome.applied
    → any (holds_lease e id token) db.runs ≡ true
applied_held e id token o db c h = elim (Bool-cases (any (holds_lease e id token) db.runs)) [
  | inl held ↦ held
  | inr idle ↦
      let refused : (finalize_run e id token o db).1 ≡ refusal (terminal id db) =
        rw (finalize_run_lem e id token o db c, idle) refl in
      absurd (refusal-applied (terminal id db) (sym refused ∙ h))
]

-- A token works once. After `finalize_run` has answered `Applied` on consistent tables, every further report under the
-- same token, at whatever time and with whatever outcome, changes nothing: completing and failing
-- again are told that the task is terminal already, and a heartbeat that it is fenced off.
pub finalize_run-once :
    (e e' : Env) (id token : ℕ) (o o' : Outcome) (error : Text) (retryable : Bool) (db : Db)
    → IsConsistent db
    → (finalize_run e id token o db).1 ≡ ok FinalizeOutcome.applied
    → (finalize_run e' id token o' (finalize_run e id token o db).0
        ≡ ((finalize_run e id token o db).0, ok FinalizeOutcome.already_terminal))
      × (fail_run e' id token error retryable (finalize_run e id token o db).0
          ≡ ((finalize_run e id token o db).0, ok FailureOutcome.already_terminal))
      × (renew_lease e' id token (finalize_run e id token o db).0
          ≡ ((finalize_run e id token o db).0, ok RenewalOutcome.fenced))
finalize_run-once e e' id token o o' error retryable db c h =
    let db' = finalized e id token o db in
    let held = applied_held e id token o db c h in
    let hit = count-any (holds_lease e id token) db.runs held in
    let idle = select-none (holds_lease e' id token) db'.runs (released e e' id token o db hit c) in
    let sound = admits-finalized e id token o db c.admitted in
    let done = now_terminal e id token o db hit in
    rw (finalize_run_lem e id token o db c, held)
      (
        rw (finalize_run-not_held e' id token o' db' sound idle, done) refl,
        rw (fail_run-not_held e' id token error retryable db' sound idle, done) refl,
        renew_lease-not_held e' id token db' sound idle,
      )
