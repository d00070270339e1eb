-- ===== src/Runtime/Worker/Claims.antt =====
-- claim_and_dispatch of src/runtime/worker.rs on consistent tables.
use pg_task_scheduler.Prelude.{
  ℕ, zero, suc, ◌+◌, ◌≤◌, ◌≡◌, refl, sym, ap, ◌∙◌, arith, Text, text_eq, true, List, [], ◌∷◌, ◌++◌,
  none, some, Option-cases, ok, any, all, All, map, length, map-append, append_assoc, append-nil,
  All-append, All-map, length-map, all-order_by, all-map-select, inl, inr,
}
use pg_task_scheduler.Ids.Policy.{name_check}
use pg_task_scheduler.Models.Limits.{i64_max}
use pg_task_scheduler.Models.Runs.{ClaimedRun}
use pg_task_scheduler.Db.{Db, Env}
use pg_task_scheduler.Consistency.{IsConsistent}
use pg_task_scheduler.Metrics.{Counts, incr, runs_claimed}
use pg_task_scheduler.Store.Claim.{ClaimedRow, claimable, claimed_row, returned_order}
use pg_task_scheduler.Store.Claim.Candidates.{chosen_claimable}
use pg_task_scheduler.Store.Claim.Leases.{IsFresh, is_claimed, claimed}
use pg_task_scheduler.Store.Claim.Batch.{
  claim_of, claimed_rows, claimed_rows-length, claim_batch_lem,
}
use pg_task_scheduler.Runtime.Registry.{Registry, Handler, names, names_iff, handler_of}
use pg_task_scheduler.Runtime.Builder.{Config}
use pg_task_scheduler.Runtime.Dispatch.{dispatch}
use pg_task_scheduler.Runtime.Worker.{
  State, on_db, spawn_with, spawn_each, claim_at_most, claim_and_dispatch,
}

abbrev pub claims_of : State → List ClaimedRun
claims_of s = map (λ t. t.claimed) s.in_flight

-- So many tasks counted as claimed.
abbrev pub counted_claims : ℕ → Counts → Counts
counted_claims zero counts = counts
counted_claims (suc n) counts = counted_claims n (incr runs_claimed counts)

-- Each task runs under the handler of its name.
abbrev pub IsHandled : Registry → State → Type 0
IsHandled registry s =
    All (λ t. handler_of registry t.claimed.job_name ≡ some t.handler) s.in_flight

-- The batch was dispatched whole: each of its tasks is in flight, in order and under the handler of
-- its name, took one permit, and was counted. The tables are as they were.
pub record Dispatched (registry : Registry) (batch : List ClaimedRun) (before after : State)
    : Type 0 where
  pub db : after.world.db ≡ before.world.db
  pub in_flight : claims_of after ≡ claims_of before ++ batch
  pub permits : after.permits + length batch ≡ before.permits
  pub counts : after.world.counts ≡ counted_claims (length batch) before.world.counts
  pub handled : IsHandled registry before → IsHandled registry after

one_less : (n : ℕ) → 1 ≤ n → (m : ℕ) × (n ≡ suc m)
one_less zero h = absurd (omega (arith, h))
one_less (suc m) h = (m, refl)

module _ (cancellation : ClaimedRun → ℕ) (registry : Registry) where
  abbrev spawned : ClaimedRun → ℕ → Handler → State → State
  spawned claimed permits handler s =
      (spawn_with cancellation registry claimed permits (some handler) s).0

  spawned-Dispatched :
      (claimed : ClaimedRun) (permits : ℕ) (handler : Handler) (s : State)
      → s.permits ≡ suc permits
      → handler_of registry claimed.job_name ≡ some handler
      → Dispatched registry (claimed ∷ []) s (spawned claimed permits handler s)
  unfolding dispatch
  spawned-Dispatched claimed permits handler s h found = record {
    db = refl;
    in_flight = map-append (λ t. t.claimed) s.in_flight _;
    permits = omega (arith, h);
    counts = refl;
    handled = λ before. All-append _ s.in_flight _ before (found, tt);
  }

  Dispatched-cons :
      (task : ClaimedRun) (rest : List ClaimedRun) (before mid after : State)
      → Dispatched registry (task ∷ []) before mid
      → Dispatched registry rest mid after
      → Dispatched registry (task ∷ rest) before after
  Dispatched-cons task rest before mid after first more = record {
    db = more.db ∙ first.db;
    in_flight =
        more.in_flight
        ∙ ap (λ ts. ts ++ rest) first.in_flight
        ∙ append_assoc (claims_of before) (task ∷ []) rest;
    permits = omega (arith, first.permits, more.permits);
    counts = more.counts ∙ ap (counted_claims (length rest)) first.counts;
    handled = λ h. more.handled (first.handled h);
  }

  abbrev IsKnown : ClaimedRun → Type 0
  IsKnown task = (handler : Handler) × (handler_of registry task.job_name ≡ some handler)

  spawn_each-cons :
      (task : ClaimedRun) (rest : List ClaimedRun) (permits : ℕ) (handler : Handler) (s : State)
      → s.permits ≡ suc permits
      → handler_of registry task.job_name ≡ some handler
      → spawn_each cancellation registry (task ∷ rest) s
        ≡ spawn_each cancellation registry rest (spawned task permits handler s)
  unfolding spawn_each
  spawn_each-cons task rest permits handler s h found = rw h (rw found refl)

  spawn_each-Dispatched :
      (batch : List ClaimedRun) (s : State)
      → All IsKnown batch
      → length batch ≤ s.permits
      → (after : State) × (spawn_each cancellation registry batch s ≡ (after, none))
        × Dispatched registry batch s after
  unfolding spawn_each
  spawn_each-Dispatched [] s known fits = (
    s,
    refl,
    record {
      db = refl;
      in_flight = sym (append-nil (claims_of s));
      permits = omega arith;
      counts = refl;
      handled = λ h. h;
    },
  )
  spawn_each-Dispatched (task ∷ rest) s known fits =
      let (permits, h) = one_less s.permits (omega (arith, fits)) in
      let (handler, found) = known.0 in
      let first = spawned-Dispatched task permits handler s h found in
      let (after, same, more) =
        spawn_each-Dispatched rest (spawned task permits handler s) known.1
          (omega (arith, fits, h)) in
      (
        after,
        spawn_each-cons task rest permits handler s h found ∙ same,
        Dispatched-cons task rest s (spawned task permits handler s) after first more,
      )

-- The rows that a claim returns are of tasks with a name in the claim.
claimed_rows-named :
    (e : Env) (names : List Text) (limit : ℕ) (db : Db)
    → IsConsistent db
    → all (λ row. any (text_eq row.job_name) names) (claimed_rows e names limit db) ≡ true
unfolding claimable claimed_row
claimed_rows-named e names limit db c =
    all-order_by (λ row. any (text_eq row.job_name) names) returned_order _
      (all-map-select (λ row. any (text_eq row.job_name) names) (is_claimed e names limit db)
        (claimed_row e) db.runs
        (All-map db.runs (λ r claim hit. ground (arith, claim hit))
          (chosen_claimable e names limit db c)))

known_of :
    (registry : Registry) (rows : List ClaimedRow)
    → all (λ row. any (text_eq row.job_name) (names registry)) rows ≡ true
    → All
        (λ task. (handler : Handler) × (handler_of registry task.job_name ≡ some handler))
        (map claim_of rows)
unfolding all
known_of registry [] h = tt
known_of registry (row ∷ rows) h = (
  elim (Option-cases (handler_of registry (claim_of row).job_name)) [
    | inr found ↦ found
    | inl unknown ↦ absurd (ground (arith, names_iff registry (claim_of row).job_name, unknown))
  ],
  known_of registry rows (ground arith),
)

claims_batch :
    (cancellation : ClaimedRun → ℕ) (registry : Registry) (config : Config) (e : Env) (limit : ℕ)
    (s : State)
    → suc limit ≤ i64_max
    → name_check config.worker_id.as_str ≡ true
    → IsFresh e s.world.db
    → IsConsistent s.world.db
    → claim_at_most cancellation registry config (ok tt) e (suc limit) s
      ≡ spawn_each cancellation registry
          (map claim_of (claimed_rows e (names registry) (suc limit) s.world.db))
          (on_db s (claimed e config.worker_id (names registry) (suc limit) s.world.db))
unfolding claim_at_most
claims_batch cancellation registry config e limit s small named fresh c =
    rw
      (claim_batch_lem e config.worker_id (names registry) (suc limit) s.world.db small named fresh
        c)
      refl

-- A claim with a connection and free permits, on consistent tables, with fresh tokens and a valid
-- worker id, never fails: the tables are those after the claim, and all claimed tasks, which are no
-- more than the free permits, are dispatched in order, each under the handler of its name. So no task
-- is claimed that the worker does not then run, and neither invariant that the code guards with an
-- error is ever violated.
pub claim_and_dispatch_lem :
    (cancellation : ClaimedRun → ℕ) (registry : Registry) (config : Config) (e : Env) (limit : ℕ)
    (s : State)
    → s.permits ≡ suc limit
    → suc limit ≤ i64_max
    → name_check config.worker_id.as_str ≡ true
    → IsFresh e s.world.db
    → IsConsistent s.world.db
    → (after : State) × (claim_and_dispatch cancellation registry config (ok tt) e s
        ≡ (after, none))
      × Dispatched registry
          (map claim_of (claimed_rows e (names registry) (suc limit) s.world.db))
          (on_db s (claimed e config.worker_id (names registry) (suc limit) s.world.db))
          after
unfolding claim_and_dispatch
claim_and_dispatch_lem cancellation registry config e limit s h small named fresh c =
    let db = s.world.db in
    let rows = claimed_rows e (names registry) (suc limit) db in
    let claim = claimed e config.worker_id (names registry) (suc limit) db in
    let (after, same, whole) =
      spawn_each-Dispatched cancellation registry (map claim_of rows) (on_db s claim)
        (known_of registry rows (claimed_rows-named e (names registry) (suc limit) db c))
        (omega (
          arith,
          h,
          length-map claim_of rows,
          claimed_rows-length e (names registry) (suc limit) db c,
        )) in
    (
      after,
      ap (λ n. claim_at_most cancellation registry config (ok tt) e n s) h
          ∙ claims_batch cancellation registry config e limit s small named fresh c
          ∙ same,
      whole,
    )
