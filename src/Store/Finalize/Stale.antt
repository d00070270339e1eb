-- ===== src/Store/Finalize/Stale.antt =====
-- Reports of a worker that has lost its lease (src/store/finalize.rs), by the row of its run.
use pg_task_scheduler.Prelude.{
  ℕ, ◌<◌, ◌≡◌, refl, Text, ◌==◌, ==_iff, count, any-of_count, select-none, count_mono, count-split,
  Bool, true, false, not, ◌&&◌, ok, arith,
}
use pg_task_scheduler.Models.Runs.{
  Outcome, FinalizeOutcome, FailureOutcome, RenewalOutcome, is_running, is_terminal,
}
use pg_task_scheduler.Db.{Db, Env, Run, is_value, is_after}
use pg_task_scheduler.Consistency.{IsConsistent}
use pg_task_scheduler.Consistency.Facts.{count-of_id}
use pg_task_scheduler.Store.Finalize.{holds_lease, finalize_run, fail_run, renew_lease, terminal}
use pg_task_scheduler.Store.Finalize.Completion.{finalize_run-not_held}
use pg_task_scheduler.Store.Finalize.Failure.{fail_run-not_held}
use pg_task_scheduler.Store.Finalize.Renewal.{renew_lease-not_held}

-- The row is in the table: every test that it passes is passed by some row.
abbrev pub IsStored : Run → Db → Type 0
IsStored r db = (q : Run → Bool) → q r ≡ true → 0 < count q db.runs

-- What is false of a stored row is true of no row with its id.
pub none_of_id :
    (db : Db) (r : Run) (p : Run → Bool)
    → IsConsistent db
    → IsStored r db
    → ((s : Run) → p s ≡ true → s.id ≡ r.id)
    → p r ≡ false
    → count p db.runs ≡ 0
none_of_id db r p c stored of_id miss = omega (
  arith,
  stored (λ (s : Run). s.id == r.id && not (p s)) (ground (arith, (==_iff r.id r.id).1 refl)),
  count-split (λ (s : Run). s.id == r.id) p db.runs,
  count_mono p (λ (s : Run). s.id == r.id && p s) db.runs
      (λ s h. ground (arith, (==_iff s.id r.id).1 (of_id s h))),
  count-of_id db r.id (λ (s : Run). s.id == r.id) (λ s h. (==_iff s.id r.id).0 h) c,
)

-- On consistent tables, a worker whose lease has run out, or whose token is not the one in the run's row, can change
-- nothing, although the run is running: its completion, its failure and its heartbeat are all
-- answered with `Fenced`.
pub stale_fenced :
    (e : Env) (r : Run) (token : ℕ) (o : Outcome) (error : Text) (retryable : Bool) (db : Db)
    → IsConsistent db
    → IsStored r db
    → is_running r.state ≡ true
    → (is_value r.lease_token token && is_after r.lease_expires_at (e.clock r.id 0)) ≡ false
    → (finalize_run e r.id token o db ≡ (db, ok FinalizeOutcome.fenced))
      × (fail_run e r.id token error retryable db ≡ (db, ok FailureOutcome.fenced))
      × (renew_lease e r.id token db ≡ (db, ok RenewalOutcome.fenced))
unfolding holds_lease terminal
stale_fenced e r token o error retryable db c stored running stale =
    let idle =
      select-none (holds_lease e r.id token) db.runs (
        none_of_id db r (holds_lease e r.id token) c stored (λ s h. ground arith) (ground arith)) in
    let open_ =
      any-of_count (λ s. s.id == r.id && is_terminal s.state) db.runs
        (none_of_id db r (λ s. s.id == r.id && is_terminal s.state) c stored (λ s h. ground arith)
          (ground arith)) in
    (
      rw (finalize_run-not_held e r.id token o db c.admitted idle, open_) refl,
      rw (fail_run-not_held e r.id token error retryable db c.admitted idle, open_) refl,
      renew_lease-not_held e r.id token db c.admitted idle,
    )
