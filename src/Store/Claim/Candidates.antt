-- ===== src/Store/Claim/Candidates.antt =====
-- The rows that CLAIM_BATCH of src/store/claim.rs chooses.
use pg_task_scheduler.Prelude.{
  ℕ, ◌<◌, ◌≡◌, refl, Text, ◌==◌, ==_iff, count, select, take, order_by, count-any, count-split,
  count-candidates, All, All-map, All-counted, Bool, true, not, ◌&&◌, List, Bool-cases, inl, inr,
  arith,
}
use pg_task_scheduler.Db.{Db, Run, Env}
use pg_task_scheduler.Consistency.{IsConsistent}
use pg_task_scheduler.Consistency.Facts.{count-of_id}
use pg_task_scheduler.Store.Claim.{claimable, claim_order, candidates, is_chosen}

-- Rows of the table with one id agree under every test.
pub same_row :
    (db : Db) (r : Run) (s : Run) (q : Run → Bool)
    → IsConsistent db
    → ((p : Run → Bool) → p r ≡ true → 0 < count p db.runs)
    → ((p : Run → Bool) → p s ≡ true → 0 < count p db.runs)
    → (s.id == r.id) ≡ true
    → q r ≡ true
    → q s ≡ true
same_row db r s q c in_r in_s same h = elim (Bool-cases (q s)) [
  | inl e ↦ e
  | inr e ↦ absurd (
      omega (
        arith,
        in_r (λ (x : Run). x.id == r.id && q x) (ground (arith, (==_iff r.id r.id).1 refl)),
        in_s (λ (x : Run). x.id == r.id && not (q x)) (ground arith),
        count-split (λ (x : Run). x.id == r.id) q db.runs,
        count-of_id db r.id (λ (x : Run). x.id == r.id) (λ x k. (==_iff x.id r.id).0 k) c,
      ))
]

-- A chosen row of the table is one that the WHERE clause lets through.
pub chosen_passes :
    (where_clause : Run → Bool) (order : Run → Run → Bool) (limit : ℕ) (db : Db)
    → IsConsistent db
    → All
        (λ r.
          is_chosen (take limit (order_by order (select where_clause db.runs))) r ≡ true
          → where_clause r ≡ true)
        db.runs
unfolding is_chosen
chosen_passes where_clause order limit db c =
    All-map db.runs
      (λ r counted chosen. elim (Bool-cases (where_clause r)) [
        | inl passes ↦ passes
        | inr fails ↦ absurd (
            omega (
              arith,
              count-any (λ x. x.id == r.id)
                  (take limit (order_by order (select where_clause db.runs))) chosen,
              count-candidates (λ (x : Run). x.id == r.id) where_clause order limit db.runs,
              counted (λ (x : Run). x.id == r.id && not (where_clause x))
                  (ground (arith, (==_iff r.id r.id).1 refl)),
              count-split (λ (x : Run). x.id == r.id) where_clause db.runs,
              count-of_id db r.id (λ (x : Run). x.id == r.id) (λ x k. (==_iff x.id r.id).0 k) c,
            ))
      ])
      (All-counted db.runs)

pub chosen_claimable :
    (e : Env) (names : List Text) (limit : ℕ) (db : Db)
    → IsConsistent db
    → All
        (λ r. is_chosen (candidates e names limit db) r ≡ true → claimable e names r ≡ true)
        db.runs
unfolding candidates
chosen_claimable e names limit db c = chosen_passes (claimable e names) claim_order limit db c
