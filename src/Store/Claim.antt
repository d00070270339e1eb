-- ===== src/Store/Claim.antt =====
-- src/store/claim.rs: a batch of pending tasks becomes running under fresh lease tokens.
pub mod Candidates
pub mod Leases
pub mod Agreement
pub mod Batch
pub mod Priority
use pg_task_scheduler.Prelude.{
  ℕ, zero, suc, ◌+◌, Text, codes, text_eq, ltb, leb, ltb_ℤ, ◌==◌, if◌then◌else◌, select, any, take,
  order_by, get_last?, update_where, Bool, true, false, not, ◌&&◌, ◌||◌, List, [], ◌∷◌, ◌++◌,
  Option, none, some, map, Result, ok, err, ok_or, map_err, collect,
}
use pg_task_scheduler.Prelude.{◌>>=◌ as bind_result}
use pg_task_scheduler.Error.{SchedulerError, invariant, config}
use pg_task_scheduler.Ids.{JobName, WorkerId}
use pg_task_scheduler.Models.Limits.{i64_max, LeaseDuration, PgInterval, lease_from_pg_interval}
use pg_task_scheduler.Models.Runs.{StoredRunState, is_pending, ClaimedRun}
use pg_task_scheduler.Db.{Db, Run, Attempt, Env, add_interval}
use pg_task_scheduler.Db.Monad.{
  M, continue, ◌>>=◌, return, throw, lift, execute, admitted_or_refused,
}

-- The WHERE clause of `candidates`, with `SKIP LOCKED`.
unfoldable pub claimable : Env → List Text → Run → Bool
claimable e names r =
    is_pending r.state
    && leb r.available_at e.now
    && any (text_eq r.job_name) names
    && not (e.locked r.id)

-- `ORDER BY priority DESC, available_at ASC, id ASC`.
unfoldable pub claim_order : Run → Run → Bool
claim_order r s =
    ltb_ℤ s.priority r.priority
    || (not (ltb_ℤ r.priority s.priority)
        && (ltb r.available_at s.available_at
            || (r.available_at == s.available_at && leb r.id s.id)))

unfoldable pub candidates : Env → List Text → ℕ → Db → List Run
candidates e names limit db = take limit (order_by claim_order (select (claimable e names) db.runs))

-- `r.id = c.id` for a row `c` of the CTE.
unfoldable pub is_chosen : List Run → Run → Bool
is_chosen cs r = any (λ c. c.id == r.id) cs

-- The SET list of `claimed`.
unfoldable pub claim_row : Env → WorkerId → Run → Run
claim_row e worker r = record r {
  state = StoredRunState.running;
  attempt_count = r.attempt_count + 1;
  worker_id = some worker.as_str;
  lease_token = some (e.uuid r.id);
  started_at = some (e.clock r.id 0);
  lease_expires_at = some (add_interval (e.clock r.id 1) r.lease_duration);
  updated_at = e.clock r.id 2;
}

-- The row that `recorded` inserts for a claimed run: the columns that `claimed` returns.
unfoldable pub claim_attempt : Env → WorkerId → Run → Attempt
claim_attempt e worker r = record {
  run_id = r.id;
  attempt_number = r.attempt_count + 1;
  worker_id = worker.as_str;
  lease_token = e.uuid r.id;
  started_at = e.clock r.id 0;
  lease_expires_at = add_interval (e.clock r.id 1) r.lease_duration;
  finished_at = none;
  outcome = none;
  error = none;
}

-- A row that CLAIM_BATCH returns.
pub record ClaimedRow : Type 0 where
  pub run_id : ℕ
  pub job_id : Option ℕ
  pub job_name : Text
  pub job_args : Text
  pub scheduled_for : ℕ
  pub attempt : ℕ
  pub lease_token : ℕ
  pub lease_expires_at : ℕ
  pub lease_duration : PgInterval

unfoldable pub claimed_row : Env → Run → ClaimedRow
claimed_row e r = record {
  run_id = r.id;
  job_id = r.job_id;
  job_name = r.job_name;
  job_args = r.job_args;
  scheduled_for = r.scheduled_for;
  attempt = r.attempt_count + 1;
  lease_token = e.uuid r.id;
  lease_expires_at = add_interval (e.clock r.id 1) r.lease_duration;
  lease_duration = r.lease_duration;
}

-- `ORDER BY scheduled_for, run_id`.
unfoldable pub returned_order : ClaimedRow → ClaimedRow → Bool
returned_order r s =
    ltb r.scheduled_for s.scheduled_for
    || (r.scheduled_for == s.scheduled_for && leb r.run_id s.run_id)

-- CLAIM_BATCH.
unfoldable pub claim_statement : Env → WorkerId → List Text → ℕ → Db → Db × List ClaimedRow
claim_statement e worker names limit db =
    let cs = candidates e names limit db in
    let chosen = select (is_chosen cs) db.runs in
    let recorded = map (claim_attempt e worker) chosen in
    (
      record db {
        runs = update_where (is_chosen cs) (claim_row e worker) db.runs;
        attempts = db.attempts ++ recorded;
      },
      order_by returned_order
          (select (λ row. any (λ a. a.run_id == row.run_id) recorded) (map (claimed_row e) chosen)),
    )

-- `NonZeroU32::new` of the attempt, or the error.
abbrev pub non_zero_or : SchedulerError → ℕ → Result SchedulerError ℕ
non_zero_or e zero = err e
non_zero_or e (suc n) = ok (suc n)

unfoldable pub to_claimed_run : ClaimedRow → Result SchedulerError ClaimedRun
to_claimed_run row =
    bind_result
      (non_zero_or (invariant (codes "attempt_count must be positive after claim")) row.attempt)
      λ attempt.
        bind_result
          (map_err (λ _. invariant (codes "claimed task has invalid lease duration"))
            (lease_from_pg_interval row.lease_duration))
          λ lease_duration. ok (record {
            run_id = row.run_id;
            job_id = row.job_id;
            job_name = record { as_str = row.job_name };
            job_args = row.job_args;
            scheduled_for = row.scheduled_for;
            attempt = attempt;
            lease_token = row.lease_token;
            lease_expires_at = row.lease_expires_at;
            lease_duration = lease_duration;
          })

-- One statement outside a transaction: an error in a returned row leaves the claim committed.
unfoldable pub claim_batch : Env → WorkerId → List Text → ℕ → M (List ClaimedRun)
claim_batch e worker names limit =
    if ltb i64_max limit then throw (config (codes "claim batch is too large")) else do
      rows ← execute (claim_statement e worker names limit)
      lift (collect to_claimed_run rows)

unfoldable pub claim_one : Env → WorkerId → List Text → M (Option ClaimedRun)
claim_one e worker names = do claimed ← claim_batch e worker names 1; return (get_last? claimed)
