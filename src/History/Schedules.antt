-- ===== src/History/Schedules.antt =====
-- The schedules under the operations of src/queue.rs and src/store on tasks.
use pg_task_scheduler.Prelude.{
  ℕ, ◌≡◌, refl, arith, ltb, Text, Bool, true, List, [], ◌∷◌, Result, Result-cases, Bool-cases,
  List-cases, inl, inr, any, select,
}
use pg_task_scheduler.Ids.{WorkerId, job_name_try_from}
use pg_task_scheduler.Ids.Policy.{name_check}
use pg_task_scheduler.Models.Runs.{Outcome}
use pg_task_scheduler.Models.Limits.{i64_max}
use pg_task_scheduler.Db.{Db, Env}
use pg_task_scheduler.Consistency.{IsConsistent}
use pg_task_scheduler.Queue.{
  EnqueueOptions, enqueue, enqueued_run, is_duplicate, cancel, prune_terminal,
}
use pg_task_scheduler.Queue.Enqueueing.{IsValidOptions, IsNewId, enqueued, enqueue_lem}
use pg_task_scheduler.Queue.Cancellation.{cancel_lem, is_open}
use pg_task_scheduler.Queue.Retention.Pruned.{pruned_lem}
use pg_task_scheduler.Store.Claim.{claim_batch}
use pg_task_scheduler.Store.Claim.Leases.{IsFresh}
use pg_task_scheduler.Store.Claim.Batch.{claim_batch_lem}
use pg_task_scheduler.Store.Finalize.{holds_lease, finalize_run, fail_run, renew_lease}
use pg_task_scheduler.Store.Finalize.Completion.{finalize_run_lem}
use pg_task_scheduler.Store.Finalize.Failure.{fail_run_lem}
use pg_task_scheduler.Store.Finalize.Renewal.{HasStarted, renew_lease_lem}
use pg_task_scheduler.Store.Reap.{recover_expired}
use pg_task_scheduler.Store.Reap.Recovery.{recover_expired_lem}

-- The operations of src/queue.rs and src/store on tasks, on consistent tables.
module _ (db : Db) (c : IsConsistent db) where
  enqueued-jobs :
      (e : Env) (name text : Text) (o : EnqueueOptions) (met : _)
      → (enqueued e name text o db met).0.jobs ≡ db.jobs
  enqueued-jobs e name text o [] = refl
  enqueued-jobs e name text o (old ∷ rest) = refl

  pub enqueue-jobs :
      (e : Env) (task : Text) (args : Result Text Text) (o : EnqueueOptions)
      → IsValidOptions o
      → IsNewId e db
      → (enqueue e task args o db).0.jobs ≡ db.jobs
  unfolding enqueue
  enqueue-jobs e task args o valid fresh = elim (Result-cases (job_name_try_from task)) [
    | inl (_, bad) ↦ rw bad refl
    | inr (name, named) ↦ elim (Result-cases args) [
      | inl (_, bad) ↦ rw (named, bad) refl
      | inr (text, good) ↦
          rw (good, enqueue_lem e task text o db name named valid fresh c)
            (enqueued-jobs e name.as_str text o
              (select (is_duplicate (enqueued_run e name.as_str text o)) db.runs))
    ]
  ]

  pub claim_batch-jobs :
      (e : Env) (w : WorkerId) (names : List Text) (limit : ℕ)
      → name_check w.as_str ≡ true
      → IsFresh e db
      → (claim_batch e w names limit db).0.jobs ≡ db.jobs
  unfolding claim_batch
  claim_batch-jobs e w names limit named fresh = elim (Bool-cases (ltb i64_max limit)) [
    | inl large ↦ rw (claim_batch, large) refl
    | inr small ↦ rw (claim_batch_lem e w names limit db (ground arith) named fresh c) refl
  ]

  pub finalize_run-jobs :
      (e : Env) (id token : ℕ) (o : Outcome) → (finalize_run e id token o db).0.jobs ≡ db.jobs
  finalize_run-jobs e id token o = elim (Bool-cases (any (holds_lease e id token) db.runs)) [
    | inl hit ↦ rw (finalize_run_lem e id token o db c, hit) refl
    | inr idle ↦ rw (finalize_run_lem e id token o db c, idle) refl
  ]

  pub fail_run-jobs :
      (e : Env) (id token : ℕ) (error : Text) (retryable : Bool)
      → (fail_run e id token error retryable db).0.jobs ≡ db.jobs
  fail_run-jobs e id token error retryable =
      elim (List-cases (select (holds_lease e id token) db.runs)) [
        | inl idle ↦ rw (fail_run_lem e id token error retryable db c, idle) refl
        | inr (y, ys, held) ↦ rw (fail_run_lem e id token error retryable db c, held) refl
      ]

  pub renew_lease-jobs :
      (e : Env) (id token : ℕ) → HasStarted e db → (renew_lease e id token db).0.jobs ≡ db.jobs
  renew_lease-jobs e id token s = elim (List-cases (select (holds_lease e id token) db.runs)) [
    | inl idle ↦ rw (renew_lease_lem e id token db s c, idle) refl
    | inr (y, ys, held) ↦ rw (renew_lease_lem e id token db s c, held) refl
  ]

  pub recover_expired-jobs : (e : Env) (limit : ℕ) → (recover_expired e limit db).0.jobs ≡ db.jobs
  unfolding recover_expired
  recover_expired-jobs e limit = elim (Bool-cases (ltb i64_max limit)) [
    | inl large ↦ rw (recover_expired, large) refl
    | inr small ↦ rw (recover_expired_lem e limit db (ground arith) c) refl
  ]

  pub cancel-jobs : (e : Env) (id : ℕ) → (cancel e id db).0.jobs ≡ db.jobs
  cancel-jobs e id = elim (Bool-cases (any (is_open id) db.runs)) [
    | inl hit ↦ rw (cancel_lem e id db c, hit) refl
    | inr miss ↦ rw (cancel_lem e id db c, miss) refl
  ]

  pub prune_terminal-jobs :
      (e : Env) (before limit : ℕ) → (prune_terminal e before limit db).0.jobs ≡ db.jobs
  unfolding prune_terminal
  prune_terminal-jobs e before limit = elim (Bool-cases (ltb i64_max limit)) [
    | inl large ↦ rw (prune_terminal, large) refl
    | inr small ↦ rw (pruned_lem e before limit db (ground arith) c) refl
  ]
