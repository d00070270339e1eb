-- ===== src/Store/Reap.antt =====
-- src/store/reap.rs: expired leases are given up, and their tasks run again or fail.
pub mod Recovery
use pg_task_scheduler.Prelude.{
  ℕ, ◌+◌, Text, codes, ltb, leb, ◌==◌, if◌then◌else◌, select, any, take, order_by, update_where,
  Bool, true, false, not, ◌&&◌, ◌||◌, List, [], ◌∷◌, Option, none, some, map, Result, ok, err,
}
use pg_task_scheduler.Prelude.{◌>>=◌ as bind_result}
use pg_task_scheduler.Error.{SchedulerError, invariant, config}
use pg_task_scheduler.Models.Limits.{i64_max}
use pg_task_scheduler.Models.Runs.{StoredRunState, StoredAttemptOutcome, is_running}
use pg_task_scheduler.Db.{Db, Run, Attempt, Env, is_value}
use pg_task_scheduler.Db.Monad.{
  M, continue, ◌>>=◌, return, throw, lift, execute, admitted_or_refused,
}
use pg_task_scheduler.Store.Claim.{is_chosen}
use pg_task_scheduler.Store.Finalize.{is_live, close_attempt}

pub record RecoverySummary : Type 0 where
  pub requeued : ℕ
  pub failed : ℕ

-- `lease_expires_at <= clock_timestamp()`.
abbrev pub is_over : Option ℕ → ℕ → Bool
is_over none t = false
is_over (some u) t = leb u t

-- The WHERE clause of `candidates`, with `SKIP LOCKED`.
unfoldable pub has_expired : Env → Run → Bool
has_expired e r =
    is_running r.state && is_over r.lease_expires_at (e.clock r.id 0) && not (e.locked r.id)

abbrev pub expiry : Run → ℕ
expiry r = elim r.lease_expires_at [ none ↦ 0 | some t ↦ t ]

-- `ORDER BY lease_expires_at, id`.
unfoldable pub expiry_order : Run → Run → Bool
expiry_order r s = ltb (expiry r) (expiry s) || (expiry r == expiry s && leb r.id s.id)

unfoldable pub expired_candidates : Env → ℕ → Db → List Run
expired_candidates e limit db = take limit (order_by expiry_order (select (has_expired e) db.runs))

-- `a.lease_token = c.lease_token AND a.outcome IS NULL` for a candidate `c`.
unfoldable pub is_lost : List Run → Attempt → Bool
is_lost cs a = is_live a.lease_token a && any (λ c. is_value c.lease_token a.lease_token) cs

-- The WHERE clause of `recovered`, given the rows of `recorded`.
unfoldable pub is_recovered : List Run → List Attempt → Run → Bool
is_recovered cs recorded r = is_chosen cs r && any (λ a. a.run_id == r.id) recorded

-- The SET list of `recovered`.
unfoldable pub recover_row : Env → Run → Run
recover_row e r =
    let again = ltb r.attempt_count r.max_attempts in
    record r {
      state = if again then StoredRunState.pending else StoredRunState.failed;
      available_at = if again then e.clock r.id 2 else r.available_at;
      worker_id = none;
      lease_token = none;
      lease_expires_at = none;
      started_at = none;
      finished_at = if again then none else some (e.clock r.id 3);
      last_error = if again then none else some (codes "lease expired; max attempts exhausted");
      updated_at = e.clock r.id 4;
    }

-- RECOVER, which returns the new states of the changed rows.
unfoldable pub recover_statement : Env → ℕ → Db → Db × List StoredRunState
recover_statement e limit db =
    let cs = expired_candidates e limit db in
    let recorded = select (is_lost cs) db.attempts in
    (
      record db {
        runs = update_where (is_recovered cs recorded) (recover_row e) db.runs;
        attempts =
            update_where (is_lost cs)
              (close_attempt e 1 StoredAttemptOutcome.expired (some (codes "lease expired")))
              db.attempts;
      },
      map (λ r. (recover_row e r).state) (select (is_recovered cs recorded) db.runs),
    )

-- The loop over the returned rows.
unfoldable pub summarize :
    RecoverySummary → List StoredRunState → Result SchedulerError RecoverySummary
summarize summary [] = ok summary
summarize summary (StoredRunState.pending ∷ rows) =
    summarize (record summary { requeued = summary.requeued + 1 }) rows
summarize summary (StoredRunState.failed ∷ rows) =
    summarize (record summary { failed = summary.failed + 1 }) rows
summarize summary (_ ∷ rows) = err (invariant (codes "expired recovery produced invalid state"))

unfoldable pub recover_expired : Env → ℕ → M RecoverySummary
recover_expired e limit =
    if ltb i64_max limit then throw (config (codes "recovery batch is too large")) else do
      rows ← execute (recover_statement e limit)
      lift (summarize (record { requeued = 0; failed = 0 }) rows)

unfoldable pub reap_expired : Env → M ℕ
reap_expired e = do summary ← recover_expired e 1000; return summary.failed
