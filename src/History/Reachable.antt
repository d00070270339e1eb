-- ===== src/History/Reachable.antt =====
-- What holds after any sequence of operations.
use pg_task_scheduler.Prelude.{
  ℕ, ◌≡◌, ◌≤◌, ◌<◌, refl, arith, ltb, ◌==◌, Text, Bool, true, false, ◌&&◌, Result, Result-cases,
  count, count_mono, count-witness, Bool-cases, inl, inr, all, not, ◌||◌, count-split, count-or-and,
  count-none,
}
use pg_task_scheduler.Ids.{job_name_try_from}
use pg_task_scheduler.Prelude.{List}
use pg_task_scheduler.Db.{SchedulerJob, Db, Env, Run, Attempt, admits}
use pg_task_scheduler.Consistency.{IsConsistent, is_holder, is_live_of}
use pg_task_scheduler.Consistency.Facts.{count-of_id, live-of_holder}
use pg_task_scheduler.Store.Finalize.{is_live}
use pg_task_scheduler.Queue.{EnqueueOptions, enqueue}
use pg_task_scheduler.Queue.Enqueueing.{IsValidOptions, IsNewId, enqueue-IsConsistent}
use pg_task_scheduler.Queue.Cancellation.{cancel-IsConsistent}
use pg_task_scheduler.Queue.Retention.Pruned.{prune_terminal-IsConsistent}
use pg_task_scheduler.Store.Claim.Batch.{claim_batch-IsConsistent}
use pg_task_scheduler.Store.Finalize.Completion.{finalize_run-IsConsistent}
use pg_task_scheduler.Store.Finalize.Failure.{fail_run-IsConsistent}
use pg_task_scheduler.Store.Finalize.Renewal.{renew_lease-IsConsistent}
use pg_task_scheduler.Store.Reap.Recovery.{recover_expired-IsConsistent}
use pg_task_scheduler.Cron.{Croner}
use pg_task_scheduler.Store.Materialize.Agreement.{materialize_one-IsConsistent}
use pg_task_scheduler.Jobs.{pause, resume}
use pg_task_scheduler.Jobs.Keeping.{
  KeepsTasks-IsConsistent, create-KeepsTasks, ensure_job-KeepsTasks, reschedule-KeepsTasks,
  set_paused-KeepsTasks, delete-KeepsTasks,
}
use pg_task_scheduler.History.{
  Step, enqueues, claims, finalizes, fails, renews, recovers, cancels, materializes, prunes,
  creates, ensures, reschedules, pauses, resumes, deletes, Reaches, start, next, idle_db,
}

pub idle_db-IsConsistent :
    (jobs : List SchedulerJob) → admits (idle_db jobs) ≡ true → IsConsistent (idle_db jobs)
unfolding count all
idle_db-IsConsistent jobs h = record { admitted = h; linked = λ i t. refl; counted = refl }

-- An invalid name, or arguments that do not serialize, change nothing.
enqueues-IsConsistent :
    (db : Db) (e : Env) (task : Text) (args : Result Text Text) (o : EnqueueOptions)
    → IsValidOptions o
    → IsNewId e db
    → IsConsistent db
    → IsConsistent (enqueue e task args o db).0
unfolding enqueue
enqueues-IsConsistent db e task args o valid fresh c =
    elim (Result-cases (job_name_try_from task)) [
      | inl (_, bad) ↦ rw bad c
      | inr (name, named) ↦ elim (Result-cases args) [
        | inl (_, bad) ↦ rw (named, bad) c
        | inr (text, good) ↦
            rw good (enqueue-IsConsistent e task text o db name named valid fresh c)
      ]
    ]

-- Every operation keeps the tables consistent.
pub Step-IsConsistent :
    (croner : Croner) (a b : Db) → Step croner a b → IsConsistent a → IsConsistent b
unfolding pause resume
Step-IsConsistent croner a b (enqueues db e task args o valid fresh) c =
    enqueues-IsConsistent db e task args o valid fresh c
Step-IsConsistent croner a b (claims db e w names limit named fresh) c =
    claim_batch-IsConsistent e w names limit db named fresh c
Step-IsConsistent croner a b (finalizes db e id token o) c =
    finalize_run-IsConsistent e id token o db c
Step-IsConsistent croner a b (fails db e id token error retryable) c =
    fail_run-IsConsistent e id token error retryable db c
Step-IsConsistent croner a b (renews db e id token s) c = renew_lease-IsConsistent e id token db s c
Step-IsConsistent croner a b (recovers db e limit) c = recover_expired-IsConsistent e limit db c
Step-IsConsistent croner a b (cancels db e id) c = cancel-IsConsistent e id db c
Step-IsConsistent croner a b (materializes db e fresh) c =
    materialize_one-IsConsistent croner e db fresh c
Step-IsConsistent croner a b (prunes db e before limit) c =
    prune_terminal-IsConsistent e before limit db c
Step-IsConsistent croner a b (creates db e spec) c =
    KeepsTasks-IsConsistent db b (create-KeepsTasks croner e spec db) c
Step-IsConsistent croner a b (ensures db e spec) c =
    KeepsTasks-IsConsistent db b (ensure_job-KeepsTasks croner e spec db) c
Step-IsConsistent croner a b (reschedules db e id update) c =
    KeepsTasks-IsConsistent db b (reschedule-KeepsTasks croner e id update db) c
Step-IsConsistent croner a b (pauses db e id) c =
    KeepsTasks-IsConsistent db b (set_paused-KeepsTasks e id true db) c
Step-IsConsistent croner a b (resumes db e id) c =
    KeepsTasks-IsConsistent db b (set_paused-KeepsTasks e id false db) c
Step-IsConsistent croner a b (deletes db id) c =
    KeepsTasks-IsConsistent db b (delete-KeepsTasks id db) c

Reaches-IsConsistent :
    (croner : Croner) (a b : Db) → Reaches croner a b → IsConsistent a → IsConsistent b
Reaches-IsConsistent croner a b (start db) c = c
Reaches-IsConsistent croner a b (next x y z path step) c =
    Step-IsConsistent croner y z step (Reaches-IsConsistent croner x y path c)

-- Whatever sequence of operations has run since the tables held schedules alone, within the
-- constraints, in any interleaving and with any tokens, the tables are consistent: every constraint
-- holds, running runs and live attempts are the same leases, and no attempt has a number above its
-- run's count.
pub reachable-IsConsistent :
    (croner : Croner) (jobs : List SchedulerJob) (db : Db)
    → admits (idle_db jobs) ≡ true
    → Reaches croner (idle_db jobs) db
    → IsConsistent db
reachable-IsConsistent croner jobs db h path =
    Reaches-IsConsistent croner (idle_db jobs) db path (idle_db-IsConsistent jobs h)

-- The live attempt of a run: no worker has reported on it, and it has not expired.
abbrev pub is_live_for : ℕ → Attempt → Bool
is_live_for id a = a.run_id == id && is_live a.lease_token a

-- Under each token that a live attempt of a run has, the run is running.
live_held :
    (db : Db) (id token : ℕ) (q : Attempt → Bool)
    → IsConsistent db
    → ((a : Attempt) → q a ≡ true → is_live_of id token a ≡ true)
    → 0 < count q db.attempts
    → 0 < count (is_holder id token) db.runs
live_held db id token q c sub h =
    omega (arith, c.linked id token, count_mono q (is_live_of id token) db.attempts sub)

-- A run is not running under two tokens.
one_token :
    (db : Db) (id s t : ℕ)
    → IsConsistent db
    → 0 < count (is_holder id s) db.runs
    → 0 < count (is_holder id t) db.runs
    → (s == t) ≡ true
unfolding is_holder
one_token db id s t c hs ht = elim (Bool-cases (s == t)) [
  | inl e ↦ e
  | inr ne ↦ absurd (
      omega (
        arith,
        hs,
        ht,
        count-or-and (is_holder id s) (is_holder id t) db.runs,
        count_mono (λ (r : Run). is_holder id s r && is_holder id t r) (λ (r : Run). false) db.runs
            (λ r h. ground arith),
        count-none (λ (r : Run). false) db.runs (λ r. refl),
        count-of_id db id (λ (r : Run). is_holder id s r || is_holder id t r) (λ r h. ground arith)
            c,
      ))
]

live_token : (id : ℕ) (a : Attempt) → is_live_for id a ≡ true → is_live_of id a.lease_token a ≡ true
unfolding is_live_of
live_token id a h = ground arith

-- Two live attempts of a run that have different tokens would make it running under both.
no_other_live :
    (db : Db) (id t : ℕ)
    → IsConsistent db
    → 0 < count (is_holder id t) db.runs
    → count (λ a. is_live_for id a && not (a.lease_token == t)) db.attempts ≡ 0
unfolding is_live_of
no_other_live db id t c held =
    let other = λ (a : Attempt). is_live_for id a && not (a.lease_token == t) in
    elim (Bool-cases (ltb 0 (count other db.attempts))) [
      | inr none_ ↦ ground arith
      | inl some_ ↦
          let (a, hit, counted) = count-witness other db.attempts (ground arith) in
          let holds =
            live_held db id a.lease_token (is_live_of id a.lease_token) c (λ b h. h)
              (counted (is_live_of id a.lease_token) (live_token id a (ground arith))) in
          let same = one_token db id a.lease_token t c holds held in ground arith
    ]

one_live : (db : Db) (id : ℕ) → IsConsistent db → count (is_live_for id) db.attempts ≤ 1
unfolding is_live is_live_of
one_live db id c = elim (Bool-cases (ltb 0 (count (is_live_for id) db.attempts))) [
  | inr none_ ↦ ground arith
  | inl some_ ↦
      let (a, hit, counted) = count-witness (is_live_for id) db.attempts (ground arith) in
      let t = a.lease_token in
      let holds =
        live_held db id t (is_live_of id t) c (λ b h. h)
          (counted (is_live_of id t) (live_token id a hit)) in
      omega (
        arith,
        count-split (is_live_for id) (λ (b : Attempt). b.lease_token == t) db.attempts,
        no_other_live db id t c holds,
        count_mono (λ (b : Attempt). is_live_for id b && b.lease_token == t) (is_live t) db.attempts
            (λ b h. ground arith),
        live-of_holder db id t c holds,
      )
]

-- After any sequence of operations, from tables that hold schedules alone, within the constraints, a
-- run has at most one live attempt: two workers never both own one task, however their claims, renewals, failures, expiries and cancellations interleave.
pub reachable-one_live :
    (croner : Croner) (jobs : List SchedulerJob) (db : Db) (id : ℕ)
    → admits (idle_db jobs) ≡ true
    → Reaches croner (idle_db jobs) db
    → count (is_live_for id) db.attempts ≤ 1
reachable-one_live croner jobs db id h path =
    one_live db id (reachable-IsConsistent croner jobs db h path)
