-- ===== src/Store/Claim/Batch.antt =====
-- claim_batch of src/store/claim.rs.
use pg_task_scheduler.Prelude.{
  ℕ, zero, suc, ◌≤◌, ◌≡◌, refl, sym, Text, ltb, leb, ◌==◌, ==_iff, any, all, count, select, map,
  take, length, order_by, any-of_pos, count-map, count-select, count-none, count-or-and, all-All,
  all-order_by, all-map-select, select-all, length-order_by, length-map, length-select, pos_part,
  All-map, All-counted, Bool, true, false, ◌&&◌, List, [], ◌∷◌, Bool-cases, inl, inr, arith, ok,
  collect-ok,
}
use pg_task_scheduler.Ids.{WorkerId}
use pg_task_scheduler.Ids.Policy.{name_check}
use pg_task_scheduler.Models.Limits.{i64_max, lease_from_pg_interval}
use pg_task_scheduler.Models.Runs.{ClaimedRun}
use pg_task_scheduler.Db.{Db, Run, Attempt, Env, run_check, lease_duration_check}
use pg_task_scheduler.Db.Updates.{admits-Admitted}
use pg_task_scheduler.Consistency.{IsConsistent}
use pg_task_scheduler.Consistency.Facts.{count-of_id}
use pg_task_scheduler.Store.Claim.{
  ClaimedRow, claimed_row, claim_order, claimable, candidates, is_chosen, claim_attempt,
  returned_order, claim_statement, to_claimed_run, claim_batch,
}
use pg_task_scheduler.Store.Claim.Leases.{
  IsFresh, is_claimed, new_attempts, claimed, admits-claimed,
}
use pg_task_scheduler.Store.Claim.Agreement.{claimed-IsConsistent}

-- The claim that a returned row stands for.
abbrev pub claim_of : ClaimedRow → ClaimedRun
claim_of row = record {
  run_id = row.run_id;
  job_id = row.job_id;
  job_name = record { as_str = row.job_name };
  job_args = row.job_args;
  scheduled_for = row.scheduled_for;
  attempt = row.attempt;
  lease_token = row.lease_token;
  lease_expires_at = row.lease_expires_at;
  lease_duration = record { micros = pos_part row.lease_duration.microseconds };
}

abbrev is_valid_row : ClaimedRow → Bool
is_valid_row row = lease_duration_check row.lease_duration && leb 1 row.attempt

to_claimed_run-claim_of :
    (row : ClaimedRow) → is_valid_row row ≡ true → to_claimed_run row ≡ ok (claim_of row)
unfolding to_claimed_run lease_from_pg_interval
to_claimed_run-claim_of row h = ground arith

claimed_row-valid : (e : Env) (r : Run) → run_check r ≡ true → is_valid_row (claimed_row e r) ≡ true
unfolding run_check claimed_row
claimed_row-valid e r h = ground arith

-- The rows that CLAIM_BATCH returns: one for each run that became running.
abbrev pub claimed_rows : Env → List Text → ℕ → Db → List ClaimedRow
claimed_rows e names limit db =
    order_by returned_order (map (claimed_row e) (select (is_claimed e names limit db) db.runs))

claimed_rows-valid :
    (e : Env) (names : List Text) (limit : ℕ) (db : Db)
    → IsConsistent db
    → all is_valid_row (claimed_rows e names limit db) ≡ true
claimed_rows-valid e names limit db c = all-order_by is_valid_row returned_order _ (
    all-map-select is_valid_row (is_claimed e names limit db) (claimed_row e) db.runs (
      All-map db.runs (λ r checked _. claimed_row-valid e r checked)
        (all-All run_check db.runs (admits-Admitted db c.admitted).runs_checked)))

-- Every claimed row has its attempt recorded.
rows_recorded :
    (e : Env) (w : WorkerId) (names : List Text) (limit : ℕ) (db : Db)
    → select
        (λ row. any (λ a. a.run_id == row.run_id) (new_attempts e w names limit db))
        (map (claimed_row e) (select (is_claimed e names limit db) db.runs))
      ≡ map (claimed_row e) (select (is_claimed e names limit db) db.runs)
unfolding claimed_row claim_attempt
rows_recorded e w names limit db =
    let p = is_claimed e names limit db in
    select-all _ _ (
      all-map-select (λ row. any (λ a. a.run_id == row.run_id) (new_attempts e w names limit db)) p
        (claimed_row e) db.runs
        (All-map db.runs
          (λ r in_table hit.
            any-of_pos (λ a. a.run_id == r.id) (new_attempts e w names limit db)
              (omega (
                arith,
                count-map (λ (a : Attempt). a.run_id == r.id) (claim_attempt e w)
                    (select p db.runs),
                count-select (λ (s : Run). s.id == r.id) p db.runs,
                in_table (λ (s : Run). s.id == r.id && p s)
                    (ground (arith, (==_iff r.id r.id).1 refl)),
              )))
          (All-counted db.runs)))

pub claim_batch_lem :
    (e : Env) (w : WorkerId) (names : List Text) (limit : ℕ) (db : Db)
    → limit ≤ i64_max
    → name_check w.as_str ≡ true
    → IsFresh e db
    → IsConsistent db
    → claim_batch e w names limit db
      ≡ (claimed e w names limit db, ok (map claim_of (claimed_rows e names limit db)))
unfolding claim_batch claim_statement
claim_batch_lem e w names limit db small named fresh c =
    rw (fits, admits-claimed e w names limit db named fresh c, rows_recorded e w names limit db)
      (rw
        (collect-ok to_claimed_run claim_of is_valid_row (claimed_rows e names limit db)
          to_claimed_run-claim_of (claimed_rows-valid e names limit db c))
        refl)
  where
    fits : ltb i64_max limit ≡ false
    fits = ground arith

-- Claiming keeps the tables consistent.
pub claim_batch-IsConsistent :
    (e : Env) (w : WorkerId) (names : List Text) (limit : ℕ) (db : Db)
    → name_check w.as_str ≡ true
    → IsFresh e db
    → IsConsistent db
    → IsConsistent (claim_batch e w names limit db).0
unfolding claim_batch
claim_batch-IsConsistent e w names limit db named fresh c = elim (Bool-cases (ltb i64_max limit)) [
  | inl large ↦ rw (claim_batch, large) c
  | inr small ↦
      rw (claim_batch_lem e w names limit db (ground arith) named fresh c)
        (claimed-IsConsistent e w names limit db named fresh c)
]

pub count-chosen_le :
    (db : Db) (cs : List Run) → IsConsistent db → count (is_chosen cs) db.runs ≤ length cs
unfolding is_chosen any
count-chosen_le db [] c = omega (arith, count-none (λ (r : Run). false) db.runs (λ r. refl))
count-chosen_le db (x ∷ cs) c = omega (
  arith,
  count-or-and (λ (r : Run). x.id == r.id) (is_chosen cs) db.runs,
  count-chosen_le db cs c,
  count-of_id db x.id (λ (r : Run). x.id == r.id) (λ r h. sym ((==_iff x.id r.id).0 h)) c,
)

pub length-take-le : (n : ℕ) (xs : List Run) → length (take n xs) ≤ n
length-take-le zero xs = omega arith
length-take-le (suc n) [] = omega arith
length-take-le (suc n) (x ∷ xs) = omega (arith, length-take-le n xs)

-- On consistent tables a batch is never larger than its limit.
pub claimed_rows-length :
    (e : Env) (names : List Text) (limit : ℕ) (db : Db)
    → IsConsistent db
    → length (claimed_rows e names limit db) ≤ limit
unfolding candidates
claimed_rows-length e names limit db c = omega (
  arith,
  length-order_by returned_order
      (map (claimed_row e) (select (is_claimed e names limit db) db.runs)),
  length-map (claimed_row e) (select (is_claimed e names limit db) db.runs),
  length-select (is_claimed e names limit db) db.runs,
  count-chosen_le db (candidates e names limit db) c,
  length-take-le limit (order_by claim_order (select (claimable e names) db.runs)),
)
