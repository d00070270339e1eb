-- ===== src/Store/Reap/Recovery.antt =====
-- recover_expired and reap_expired of src/store/reap.rs.
use pg_task_scheduler.Prelude.{
  ℕ, ◌+◌, ◌≤◌, ◌<◌, ◌≡◌, refl, ◌∙◌, codes, ltb, ◌==◌, ==_iff, any, count, select, map, update_where,
  any-of_pos, count-any, count_mono, count-split, count-candidates, count-select, count-witness,
  All-of, Bool, true, false, not, ◌&&◌, List, [], ◌∷◌, some, Bool-cases, ok, inl, inr, arith,
}
use pg_task_scheduler.Models.Limits.{i64_max}
use pg_task_scheduler.Models.Runs.{StoredAttemptOutcome, is_running}
use pg_task_scheduler.Db.{
  Db, Run, Attempt, Env, admits, is_value, outcome_check, run_check, attempts_check, state_check,
  run_conflict,
}
use pg_task_scheduler.Db.Updates.{admits-update_runs, admits-update_attempts, KeepsRunKeys}
use pg_task_scheduler.Consistency.{IsConsistent, is_holder, is_live_of}
use pg_task_scheduler.Consistency.Facts.{count-of_id}
use pg_task_scheduler.Consistency.Release.{linked-release, counted-update}
use pg_task_scheduler.Consistency.ManyLeases.{is_leased, same_leases}
use pg_task_scheduler.Store.Claim.{is_chosen}
use pg_task_scheduler.Store.Finalize.{is_live, close_attempt}
use pg_task_scheduler.Store.Finalize.Rows.{
  close_attempt-attempt_check, close_attempt-KeepsAttemptKeys,
}
use pg_task_scheduler.Store.Reap.{
  RecoverySummary, has_expired, expiry_order, expired_candidates, is_lost, is_recovered,
  recover_row, recover_statement, summarize, recover_expired,
}

abbrev chosen_id : List Run → ℕ → Bool
chosen_id cs id = any (λ c. c.id == id) cs

abbrev lost_token : List Run → ℕ → Bool
lost_token cs token = any (λ c. is_value c.lease_token token) cs

-- The tables after RECOVER.
abbrev pub recovering : Env → ℕ → Db → List Attempt
recovering e limit db = select (is_lost (expired_candidates e limit db)) db.attempts

abbrev pub is_given_up : Env → ℕ → Db → Run → Bool
is_given_up e limit db = is_recovered (expired_candidates e limit db) (recovering e limit db)

abbrev pub recovered : Env → ℕ → Db → Db
recovered e limit db = record db {
  runs = update_where (is_given_up e limit db) (recover_row e) db.runs;
  attempts =
      update_where (is_lost (expired_candidates e limit db))
        (close_attempt e 1 StoredAttemptOutcome.expired (some (codes "lease expired"))) db.attempts;
}

recover_row-run_check :
    (e : Env) (r : Run) → run_check r ≡ true → run_check (recover_row e r) ≡ true
unfolding run_check attempts_check state_check recover_row
recover_row-run_check e r c = ground arith

recover_row-KeepsRunKeys : (e : Env) → KeepsRunKeys (recover_row e)
unfolding recover_row run_conflict
recover_row-KeepsRunKeys e = record {
  id = λ r. refl;
  conflict_left = λ r s. refl;
  conflict_right = λ r s. refl;
}

admits-recovered :
    (e : Env) (limit : ℕ) (db : Db) → admits db ≡ true → admits (recovered e limit db) ≡ true
unfolding outcome_check
admits-recovered e limit db h =
    admits-update_attempts
      (record db { runs = update_where (is_given_up e limit db) (recover_row e) db.runs })
      (is_lost (expired_candidates e limit db)) _ (close_attempt-KeepsAttemptKeys e 1 _ _)
      (All-of db.attempts (λ a c _. close_attempt-attempt_check e 1 _ _ a refl c))
      (admits-update_runs db _ _ (recover_row-KeepsRunKeys e)
        (All-of db.runs (λ r c _. recover_row-run_check e r c)) h)

-- A candidate is a row of the table whose lease has expired.
count-expired :
    (e : Env) (limit : ℕ) (db : Db) (q : Run → Bool)
    → count q (expired_candidates e limit db) ≤ count (λ r. q r && has_expired e r) db.runs
unfolding expired_candidates
count-expired e limit db q = count-candidates q (has_expired e) expiry_order limit db.runs

lost_held :
    (e : Env) (limit : ℕ) (db : Db) (token : ℕ)
    → lost_token (expired_candidates e limit db) token ≡ true
    → 0 < count (is_leased (chosen_id (expired_candidates e limit db)) token) db.runs
unfolding has_expired
lost_held e limit db token h =
    let cs = expired_candidates e limit db in
    let (x, value, counted) =
      count-witness (λ c. is_value c.lease_token token) cs
        (count-any (λ c. is_value c.lease_token token) cs h) in
    let chosen : chosen_id cs x.id ≡ true =
      any-of_pos (λ c. c.id == x.id) cs (counted (λ c. c.id == x.id) ((==_iff x.id x.id).1 refl)) in
    omega (
      arith,
      counted (λ (c : Run). c.id == x.id && is_value c.lease_token token)
          (ground (arith, (==_iff x.id x.id).1 refl)),
      count-expired e limit db (λ (c : Run). c.id == x.id && is_value c.lease_token token),
      count_mono (λ (r : Run). (r.id == x.id && is_value r.lease_token token) && has_expired e r)
          (is_leased (chosen_id cs) token) db.runs (λ r k. ground (arith, ==_iff r.id x.id)),
    )

held_lost :
    (e : Env) (limit : ℕ) (db : Db)
    → IsConsistent db
    → (token : ℕ) → 0 < count (is_leased (chosen_id (expired_candidates e limit db)) token) db.runs
    → lost_token (expired_candidates e limit db) token ≡ true
held_lost e limit db c token h =
    let cs = expired_candidates e limit db in
    let (x, leased, counted) = count-witness (is_leased (chosen_id cs) token) db.runs h in
    let named = (==_iff x.id x.id).1 refl in
    any-of_pos (λ c. is_value c.lease_token token) cs
      (omega (
        arith,
        count-any (λ c. c.id == x.id) cs (ground arith),
        count-split (λ (c : Run). c.id == x.id) (λ (c : Run). is_value c.lease_token token) cs,
        count_mono (λ (c : Run). c.id == x.id && is_value c.lease_token token)
            (λ (c : Run). is_value c.lease_token token) cs (λ r k. ground arith),
        count-expired e limit db (λ (c : Run). c.id == x.id && not (is_value c.lease_token token)),
        count_mono
            (λ (r : Run). (r.id == x.id && not (is_value r.lease_token token)) && has_expired e r)
            (λ (r : Run). r.id == x.id && not (is_value r.lease_token token)) db.runs
            (λ r k. ground arith),
        counted (λ (r : Run). r.id == x.id && is_value r.lease_token token) (ground arith),
        count-split (λ (r : Run). r.id == x.id) (λ (r : Run). is_value r.lease_token token) db.runs,
        count-of_id db x.id (λ (r : Run). r.id == x.id) (λ r k. (==_iff r.id x.id).0 k) c,
      ))

recover_row-stops : (e : Env) (r : Run) → is_running (recover_row e r).state ≡ false
unfolding recover_row
recover_row-stops e r = ground arith

recovered-IsConsistent :
    (e : Env) (limit : ℕ) (db : Db) → IsConsistent db → IsConsistent (recovered e limit db)
unfolding is_recovered is_chosen is_lost recover_row close_attempt is_live is_holder is_live_of
recovered-IsConsistent e limit db c = record {
  admitted = admits-recovered e limit db c.admitted;
  linked =
      linked-release db _ (recover_row e) _
        (close_attempt e 1 StoredAttemptOutcome.expired (some (codes "lease expired")))
        (λ i t r. ground (arith, recover_row-stops e r)) (λ i t a. ground arith)
        (same_leases db c (chosen_id (expired_candidates e limit db))
          (lost_token (expired_candidates e limit db)) (lost_held e limit db)
          (held_lost e limit db c) (is_given_up e limit db) (λ r _. refl))
        c.linked;
  counted =
      counted-update db _ (recover_row e) _
        (close_attempt e 1 StoredAttemptOutcome.expired (some (codes "lease expired"))) (λ r. refl)
        (λ r. refl) (λ a. refl) (λ a. refl) c.counted;
}

-- Attempts are left for this run.
abbrev pub has_retry : Run → Bool
has_retry r = ltb r.attempt_count r.max_attempts

abbrev tally : RecoverySummary → List Run → RecoverySummary
tally s rows = record {
  requeued = s.requeued + count has_retry rows;
  failed = s.failed + count (λ r. not (has_retry r)) rows;
}

summarize-map :
    (e : Env) (s : RecoverySummary) (rows : List Run)
    → summarize s (map (λ r. (recover_row e r).state) rows) ≡ ok (tally s rows)
unfolding summarize recover_row count
summarize-map e s [] = ground arith
summarize-map e s (r ∷ rows) = elim (Bool-cases (has_retry r)) [
  | inl again ↦
      rw again (summarize-map e (record s { requeued = s.requeued + 1 }) rows ∙ ground arith)
  | inr last ↦ rw last (summarize-map e (record s { failed = s.failed + 1 }) rows ∙ ground arith)
]

-- `recover_expired` with a limit that an `i64` holds never fails on a consistent database: the runs
-- that are given up are requeued while attempts are left and otherwise fail, their live attempts are
-- closed as expired, and the summary counts the two kinds.
pub recover_expired_lem :
    (e : Env) (limit : ℕ) (db : Db)
    → limit ≤ i64_max
    → IsConsistent db
    → recover_expired e limit db ≡ (
      recovered e limit db,
      ok (record {
        requeued = count (λ r. has_retry r && is_given_up e limit db r) db.runs;
        failed = count (λ r. not (has_retry r) && is_given_up e limit db r) db.runs;
      }),
    )
unfolding recover_expired recover_statement
recover_expired_lem e limit db small c =
    rw (fits, admits-recovered e limit db c.admitted)
      (rw
        (
          summarize-map e (record { requeued = 0; failed = 0 })
              (select (is_given_up e limit db) db.runs),
          count-select has_retry (is_given_up e limit db) db.runs,
          count-select (λ r. not (has_retry r)) (is_given_up e limit db) db.runs,
        )
        (ground arith))
  where
    fits : ltb i64_max limit ≡ false
    fits = ground arith

-- Recovery keeps the tables consistent.
pub recover_expired-IsConsistent :
    (e : Env) (limit : ℕ) (db : Db) → IsConsistent db → IsConsistent (recover_expired e limit db).0
unfolding recover_expired
recover_expired-IsConsistent e limit db c = elim (Bool-cases (ltb i64_max limit)) [
  | inl large ↦ rw (recover_expired, large) c
  | inr small ↦
      rw (recover_expired_lem e limit db (ground arith) c) (recovered-IsConsistent e limit db c)
]
