-- ===== src/History/Terminal.antt =====
-- Terminal runs: what the operations of src/queue.rs and src/store leave of them.
use pg_task_scheduler.Prelude.{
  ℕ, ◌≡◌, ◌<◌, arith, ltb, Text, Bool, true, false, not, ◌&&◌, ◌||◌, List, [], ◌∷◌, Result,
  Result-cases, any, count, count-update_where_split, update_where, all-counted, All-all, All-map,
  Bool-cases, List-cases, select, inl, inr,
}
use pg_task_scheduler.Ids.{WorkerId, job_name_try_from}
use pg_task_scheduler.Ids.Policy.{name_check}
use pg_task_scheduler.Models.Runs.{is_terminal, Outcome}
use pg_task_scheduler.Models.Limits.{i64_max}
use pg_task_scheduler.Db.{Db, Env, Run}
use pg_task_scheduler.Consistency.{IsConsistent}
use pg_task_scheduler.Queue.{
  EnqueueOptions, enqueue, enqueued_run, is_duplicate, is_cancelled, cancel,
}
use pg_task_scheduler.Queue.Enqueueing.{IsValidOptions, IsNewId, enqueued, enqueue_lem}
use pg_task_scheduler.Queue.Cancellation.{cancel_lem, closing, is_open}
use pg_task_scheduler.Store.Claim.{claim_batch, claimable, candidates, is_chosen}
use pg_task_scheduler.Store.Claim.Leases.{IsFresh}
use pg_task_scheduler.Store.Claim.Candidates.{chosen_passes, chosen_claimable}
use pg_task_scheduler.Store.Claim.Batch.{claim_batch_lem}
use pg_task_scheduler.Store.Finalize.{holds_lease, finalize_run, fail_run, renew_lease}
use pg_task_scheduler.Store.Finalize.Completion.{finalize_run_lem}
use pg_task_scheduler.Store.Finalize.Failure.{fail_run_lem}
use pg_task_scheduler.Store.Finalize.Renewal.{HasStarted, renew_lease_lem}
use pg_task_scheduler.Store.Finalize.Fencing.{terminal_not_held}
use pg_task_scheduler.Store.Finalize.Stale.{IsStored}
use pg_task_scheduler.Store.Reap.{
  recover_expired, has_expired, expiry_order, expired_candidates, is_recovered,
}
use pg_task_scheduler.Store.Reap.Recovery.{recover_expired_lem, is_given_up}
use pg_task_scheduler.Prelude.{Option-cases}
use pg_task_scheduler.Cron.{Croner}
use pg_task_scheduler.Store.Materialize.{materialize_one}
use pg_task_scheduler.Store.Materialize.Tick.{first_due, is_run_of, materialize_one_lem}
use pg_task_scheduler.Jobs.{pause, resume}
use pg_task_scheduler.Jobs.Keeping.{
  KeepsTasks, create-KeepsTasks, ensure_job-KeepsTasks, reschedule-KeepsTasks,
  set_paused-KeepsTasks, delete-KeepsTasks,
}
use pg_task_scheduler.History.{
  Step, enqueues, claims, finalizes, fails, renews, recovers, cancels, materializes, prunes,
  creates, ensures, reschedules, pauses, resumes, deletes,
}

unfoldable pub is_prune : {croner : Croner} {a b : Db} → Step croner a b → Bool
is_prune (prunes db e before limit) = true
is_prune _ = false

-- An update that does not hit the row leaves it in the table.
untouched :
    (p : Run → Bool) (f : Run → Run) (runs : List Run) (r : Run)
    → ((q : Run → Bool) → q r ≡ true → 0 < count q runs)
    → p r ≡ false
    → (q : Run → Bool) → q r ≡ true
    → 0 < count q (update_where p f runs)
untouched p f runs r stored miss q h = omega (
  arith,
  stored (λ (s : Run). q s && not (p s)) (ground arith),
  count-update_where_split q p f runs,
)

module _ (r : Run) (done : is_terminal r.state ≡ true) (db : Db) (c : IsConsistent db)
    (stored : IsStored r db) where
  enqueued-keeps :
      (e : Env) (name text : Text) (o : EnqueueOptions) (met : List Run)
      → IsStored r (enqueued e name text o db met).0
  unfolding count
  enqueued-keeps e name text o [] = λ q h. omega (arith, stored q h)
  enqueued-keeps e name text o (old ∷ rest) = stored

  enqueue-keeps :
      (e : Env) (task : Text) (args : Result Text Text) (o : EnqueueOptions)
      → IsValidOptions o
      → IsNewId e db
      → IsStored r (enqueue e task args o db).0
  unfolding enqueue
  enqueue-keeps e task args o valid fresh = elim (Result-cases (job_name_try_from task)) [
    | inl (_, bad) ↦ rw bad stored
    | inr (name, named) ↦ elim (Result-cases args) [
      | inl (_, bad) ↦ rw (named, bad) stored
      | inr (text, good) ↦
          rw (good, enqueue_lem e task text o db name named valid fresh c)
            (enqueued-keeps e name.as_str text o
              (select (is_duplicate (enqueued_run e name.as_str text o)) db.runs))
    ]
  ]

  claim-misses :
      (e : Env) (names : List Text) (limit : ℕ) → is_chosen (candidates e names limit db) r ≡ false
  unfolding claimable
  claim-misses e names limit =
      let chosen = is_chosen (candidates e names limit db) in
      let passes =
        all-counted (λ (s : Run). not (chosen s) || claimable e names s) db.runs r
          (All-all (λ (s : Run). not (chosen s) || claimable e names s) db.runs
            (All-map db.runs (λ s h. ground (arith, h)) (chosen_claimable e names limit db c)))
          stored in
      ground arith

  recover-misses : (e : Env) (limit : ℕ) → is_given_up e limit db r ≡ false
  unfolding is_recovered has_expired expired_candidates
  recover-misses e limit =
      let chosen = is_chosen (expired_candidates e limit db) in
      let passes =
        all-counted (λ (s : Run). not (chosen s) || has_expired e s) db.runs r
          (All-all (λ (s : Run). not (chosen s) || has_expired e s) db.runs
            (All-map db.runs (λ s h. ground (arith, h))
              (chosen_passes (has_expired e) expiry_order limit db c)))
          stored in
      ground arith

  claim-keeps :
      (e : Env) (w : WorkerId) (names : List Text) (limit : ℕ)
      → name_check w.as_str ≡ true
      → IsFresh e db
      → IsStored r (claim_batch e w names limit db).0
  unfolding claim_batch
  claim-keeps e w names limit named fresh = elim (Bool-cases (ltb i64_max limit)) [
    | inl large ↦ rw (claim_batch, large) stored
    | inr small ↦
        rw (claim_batch_lem e w names limit db (ground arith) named fresh c)
          (untouched _ _ db.runs r stored (claim-misses e names limit))
  ]

  finalize-keeps :
      (e : Env) (id token : ℕ) (o : Outcome) → IsStored r (finalize_run e id token o db).0
  finalize-keeps e id token o = elim (Bool-cases (any (holds_lease e id token) db.runs)) [
    | inl hit ↦
        rw (finalize_run_lem e id token o db c, hit)
          (untouched _ _ db.runs r stored (terminal_not_held e id token r done))
    | inr idle ↦ rw (finalize_run_lem e id token o db c, idle) stored
  ]

  fail-keeps :
      (e : Env) (id token : ℕ) (error : Text) (retryable : Bool)
      → IsStored r (fail_run e id token error retryable db).0
  fail-keeps e id token error retryable =
      elim (List-cases (select (holds_lease e id token) db.runs)) [
        | inl idle ↦ rw (fail_run_lem e id token error retryable db c, idle) stored
        | inr (y, ys, held) ↦
            rw (fail_run_lem e id token error retryable db c, held)
              (untouched _ _ db.runs r stored (terminal_not_held e id token r done))
      ]

  renew-keeps :
      (e : Env) (id token : ℕ) → HasStarted e db → IsStored r (renew_lease e id token db).0
  renew-keeps e id token s = elim (List-cases (select (holds_lease e id token) db.runs)) [
    | inl idle ↦ rw (renew_lease_lem e id token db s c, idle) stored
    | inr (y, ys, held) ↦
        rw (renew_lease_lem e id token db s c, held)
          (untouched _ _ db.runs r stored (terminal_not_held e id token r done))
  ]

  recover-keeps : (e : Env) (limit : ℕ) → IsStored r (recover_expired e limit db).0
  unfolding recover_expired
  recover-keeps e limit = elim (Bool-cases (ltb i64_max limit)) [
    | inl large ↦ rw (recover_expired, large) stored
    | inr small ↦
        rw (recover_expired_lem e limit db (ground arith) c)
          (untouched _ _ db.runs r stored (recover-misses e limit))
  ]

  cancel-keeps : (e : Env) (id : ℕ) → IsStored r (cancel e id db).0
  unfolding is_cancelled
  cancel-keeps e id = elim (Bool-cases (any (is_open id) db.runs)) [
    | inl hit ↦
        rw (cancel_lem e id db c, hit)
          (untouched (is_cancelled id (closing id db)) _ db.runs r stored (ground arith))
    | inr miss ↦ rw (cancel_lem e id db c, miss) stored
  ]

  materialize-keeps :
      (croner : Croner) (e : Env) → IsNewId e db → IsStored r (materialize_one croner e db).0
  unfolding count
  materialize-keeps croner e fresh =
      rw (materialize_one_lem croner e db fresh c.admitted) (elim (Option-cases (first_due e db)) [
        | inl due ↦ rw due stored
        | inr (j, due) ↦ rw due (elim (Result-cases (croner.parse j.cron_expression)) [
          | inl (x, corrupt) ↦ rw corrupt stored
          | inr (schedule, parsed) ↦
              rw parsed (elim (Result-cases (croner.find_next_occurrence schedule e.now)) [
                | inl (x, found) ↦ rw found stored
                | inr (n, found) ↦ rw found (elim (Bool-cases (any (is_run_of j) db.runs)) [
                  | inl there ↦ rw there stored
                  | inr first ↦ rw first (λ q h. omega (arith, stored q h))
                ])
              ])
        ])
      ])

KeepsTasks-IsStored :
    (db after : Db) (r : Run) → KeepsTasks db after → IsStored r db → IsStored r after
KeepsTasks-IsStored db after r k stored q h = rw (k.runs) (stored q h)

-- A terminal run is final: on consistent tables, every operation but retention leaves its row as it
-- is, whatever tokens, outcomes and limits the operation is called with.
pub Step-keeps_terminal :
    (croner : Croner) (a b : Db) (step : Step croner a b) (r : Run)
    → IsConsistent a
    → is_terminal r.state ≡ true
    → is_prune step ≡ false
    → IsStored r a
    → IsStored r b
unfolding is_prune pause resume
Step-keeps_terminal croner a b (enqueues db e task args o valid fresh) r c done kept stored =
    enqueue-keeps r done db c stored e task args o valid fresh
Step-keeps_terminal croner a b (claims db e w names limit named fresh) r c done kept stored =
    claim-keeps r done db c stored e w names limit named fresh
Step-keeps_terminal croner a b (finalizes db e id token o) r c done kept stored =
    finalize-keeps r done db c stored e id token o
Step-keeps_terminal croner a b (fails db e id token error retryable) r c done kept stored =
    fail-keeps r done db c stored e id token error retryable
Step-keeps_terminal croner a b (renews db e id token s) r c done kept stored =
    renew-keeps r done db c stored e id token s
Step-keeps_terminal croner a b (recovers db e limit) r c done kept stored =
    recover-keeps r done db c stored e limit
Step-keeps_terminal croner a b (cancels db e id) r c done kept stored =
    cancel-keeps r done db c stored e id
Step-keeps_terminal croner a b (materializes db e fresh) r c done kept stored =
    materialize-keeps r done db c stored croner e fresh
Step-keeps_terminal croner a b (creates db e spec) r c done kept stored =
    KeepsTasks-IsStored db b r (create-KeepsTasks croner e spec db) stored
Step-keeps_terminal croner a b (ensures db e spec) r c done kept stored =
    KeepsTasks-IsStored db b r (ensure_job-KeepsTasks croner e spec db) stored
Step-keeps_terminal croner a b (reschedules db e id update) r c done kept stored =
    KeepsTasks-IsStored db b r (reschedule-KeepsTasks croner e id update db) stored
Step-keeps_terminal croner a b (pauses db e id) r c done kept stored =
    KeepsTasks-IsStored db b r (set_paused-KeepsTasks e id true db) stored
Step-keeps_terminal croner a b (resumes db e id) r c done kept stored =
    KeepsTasks-IsStored db b r (set_paused-KeepsTasks e id false db) stored
Step-keeps_terminal croner a b (deletes db id) r c done kept stored =
    KeepsTasks-IsStored db b r (delete-KeepsTasks id db) stored
Step-keeps_terminal croner a b (prunes db e before limit) r c done kept stored =
    absurd (ground arith)
