-- ===== src/Store/Claim/Priority.antt =====
-- The order in which claim_batch of src/store/claim.rs takes the pending tasks, and that of any batch
-- that is chosen as it is.
use pg_task_scheduler.Prelude.{
  ℕ, ◌<◌, ◌≡◌, refl, ◌==◌, ==_iff, count, select, take, order_by, length, count-any, count-not_any,
  count_mono, count-select, taken_first, left_full, Bool, true, false, ◌&&◌, List, arith, Text,
}
use pg_task_scheduler.Db.{Db, Env, Run}
use pg_task_scheduler.Consistency.{IsConsistent}
use pg_task_scheduler.Store.Claim.{claimable, claim_order, candidates, is_chosen}
use pg_task_scheduler.Store.Claim.Leases.{is_claimed}
use pg_task_scheduler.Store.Claim.Candidates.{same_row}
use pg_task_scheduler.Store.Finalize.Stale.{IsStored}

claim_order_total : (r s : Run) → claim_order r s ≡ false → claim_order s r ≡ true
unfolding claim_order
claim_order_total r s h = ground arith

claim_order_trans :
    (r s t : Run) → claim_order r s ≡ true → claim_order s t ≡ true → claim_order r t ≡ true
unfolding claim_order
claim_order_trans r s t h k = ground arith

-- A batch: the first rows of those that a WHERE clause lets through.
module _ (where_clause : Run → Bool) (order : Run → Run → Bool)
    (total : (r s : Run) → order r s ≡ false → order s r ≡ true)
    (trans : (r s t : Run) → order r s ≡ true → order s t ≡ true → order r t ≡ true) (limit : ℕ)
    (db : Db) (c : IsConsistent db) where
  abbrev passing : List Run
  passing = select where_clause db.runs

  abbrev batch : List Run
  batch = take limit (order_by order passing)

  -- A row that passes and is not chosen is one that the LIMIT leaves out.
  left_out :
      (r : Run)
      → IsStored r db
      → where_clause r ≡ true
      → is_chosen batch r ≡ false
      → count (λ x. x.id == r.id) batch < count (λ x. x.id == r.id) passing
  unfolding is_chosen
  left_out r stored h left = omega (
    arith,
    stored (λ (x : Run). x.id == r.id && where_clause x)
        (ground (arith, (==_iff r.id r.id).1 refl)),
    count-select (λ (x : Run). x.id == r.id) where_clause db.runs,
    count-not_any (λ x. x.id == r.id) batch left,
  )

  from_passing : (x : Run) → ((p : Run → Bool) → p x ≡ true → 0 < count p passing) → IsStored x db
  from_passing x within p h = omega (
    arith,
    within p h,
    count-select p where_clause db.runs,
    count_mono (λ (y : Run). p y && where_clause y) p db.runs (λ y k. ground arith),
  )

  pub chosen_first :
      (r s : Run)
      → IsStored r db
      → IsStored s db
      → where_clause r ≡ true
      → is_chosen batch r ≡ false
      → is_chosen batch s ≡ true
      → order s r ≡ true
  unfolding is_chosen
  chosen_first r s in_r in_s h left chosen =
      let (x, y, at_s, at_r, first, x_passes, y_passes) =
        taken_first order total trans limit passing (λ z. z.id == s.id) (λ z. z.id == r.id)
          (count-any (λ z. z.id == s.id) batch chosen) (left_out r in_r h left) in
      same_row db y r (order s) c (from_passing y y_passes) in_r (ground arith)
        (same_row db x s (λ z. order z y) c (from_passing x x_passes) in_s (ground arith) first)

  pub batch_full :
      (r : Run)
      → IsStored r db
      → where_clause r ≡ true
      → is_chosen batch r ≡ false
      → length batch ≡ limit
  batch_full r stored h left =
      left_full order total trans limit passing (λ x. x.id == r.id) (left_out r stored h left)

module _ (e : Env) (names : List Text) (limit : ℕ) (db : Db) (c : IsConsistent db) where
  -- On consistent tables, a claimable task is left only if as many candidates as the limit are taken.
  pub claim_batch-full :
      (r : Run)
      → IsStored r db
      → claimable e names r ≡ true
      → is_claimed e names limit db r ≡ false
      → length (candidates e names limit db) ≡ limit
  unfolding candidates
  claim_batch-full =
      batch_full (claimable e names) claim_order claim_order_total claim_order_trans limit db c
