-- ===== src/Store/Claim/Agreement.antt =====
-- CLAIM_BATCH of src/store/claim.rs keeps runs and attempts in agreement.
use pg_task_scheduler.Prelude.{
  ℕ, ◌+◌, ◌<◌, ◌≡◌, refl, sym, ◌∙◌, ap, Text, ltb, ◌==◌, ==_iff, any, all, count, select, count-any,
  count-append, any-append, any-mono_false, count-map, count-select, count-congr, count-split,
  count-update_where_split, count-none_All, count-witness, all-counted, all-updated, All-map,
  All-counted, Bool, true, not, ◌&&◌, List, Bool-cases, inl, inr, arith, if◌then◌else◌,
}
use pg_task_scheduler.Ids.{WorkerId}
use pg_task_scheduler.Ids.Policy.{name_check}
use pg_task_scheduler.Db.{Db, Run, Attempt, Env}
use pg_task_scheduler.Consistency.{IsConsistent, is_holder, is_live_of, is_counted}
use pg_task_scheduler.Store.Finalize.{is_live}
use pg_task_scheduler.Store.Claim.{claimable, candidates, is_chosen, claim_row, claim_attempt}
use pg_task_scheduler.Store.Claim.Candidates.{chosen_claimable, same_row}
use pg_task_scheduler.Store.Claim.Leases.{
  IsFresh, is_claimed, new_attempts, claimed, admits-claimed,
}

-- No chosen run was running before.
chosen_idle :
    (e : Env) (names : List Text) (limit : ℕ) (db : Db) (i t : ℕ)
    → IsConsistent db
    → count (λ r. is_holder i t r && is_claimed e names limit db r) db.runs ≡ 0
unfolding is_holder claimable
chosen_idle e names limit db i t c =
    count-none_All (λ r. is_holder i t r && is_claimed e names limit db r) db.runs
      (All-map db.runs (λ r claim. ground arith) (chosen_claimable e names limit db c))

linked-claimed :
    (e : Env) (w : WorkerId) (names : List Text) (limit : ℕ) (db : Db)
    → IsConsistent db
    → (i t : ℕ)
    → count (is_holder i t) (claimed e w names limit db).runs
      ≡ count (is_live_of i t) (claimed e w names limit db).attempts
unfolding is_holder is_live_of is_live claim_row claim_attempt
linked-claimed e w names limit db c i t =
    let p = is_claimed e names limit db in
    omega (
      arith,
      c.linked i t,
      chosen_idle e names limit db i t c,
      count-split (is_holder i t) p db.runs,
      count-update_where_split (is_holder i t) p (claim_row e w) db.runs,
      count-append (is_live_of i t) db.attempts (new_attempts e w names limit db),
      count-map (is_live_of i t) (claim_attempt e w) (select p db.runs),
      count-select (λ (r : Run). is_live_of i t (claim_attempt e w r)) p db.runs,
      count-congr (λ (r : Run). p r && is_holder i t (claim_row e w r))
          (λ (r : Run). is_live_of i t (claim_attempt e w r) && p r) db.runs (λ r. ground arith),
    )

abbrev overshoots : ℕ → ℕ → Attempt → Bool
overshoots id n a = a.run_id == id && ltb n a.attempt_number

-- The new attempts of a run in the table have the number after its count.
new_overshoots :
    (e : Env) (w : WorkerId) (names : List Text) (limit : ℕ) (db : Db) (r : Run) (n : ℕ)
    → IsConsistent db
    → ((q : Run → Bool) → q r ≡ true → 0 < count q db.runs)
    → any (overshoots r.id n) (new_attempts e w names limit db) ≡ true
    → (is_claimed e names limit db r ≡ true) × (n < r.attempt_count + 1)
unfolding claim_attempt is_chosen
new_overshoots e w names limit db r n c in_table h =
    let p = is_claimed e names limit db in
    let (s, hit, s_in_table) =
      count-witness (λ (s : Run). overshoots r.id n (claim_attempt e w s) && p s) db.runs
        (omega (
          arith,
          count-any (overshoots r.id n) (new_attempts e w names limit db) h,
          count-map (overshoots r.id n) (claim_attempt e w) (select p db.runs),
          count-select (λ (s : Run). overshoots r.id n (claim_attempt e w s)) p db.runs,
        )) in
    let named : (s.id == r.id) ≡ true = ground arith in
    let chosen : p s ≡ true = ground arith in
    let counts : (s.attempt_count == r.attempt_count) ≡ true =
      same_row db r s (λ x. x.attempt_count == r.attempt_count) c in_table s_in_table named
        ((==_iff r.attempt_count r.attempt_count).1 refl) in
    (
      ap (λ (k : ℕ). any (λ x. x.id == k) (candidates e names limit db))
            (sym ((==_iff s.id r.id).0 named))
          ∙ chosen,
      ground arith,
    )

-- A row of the table is still counted after the claim, whether it was chosen or not.
counted_row :
    (e : Env) (w : WorkerId) (names : List Text) (limit : ℕ) (db : Db) (r : Run)
    → IsConsistent db
    → ((q : Run → Bool) → q r ≡ true → 0 < count q db.runs)
    → is_counted
        (claimed e w names limit db).attempts
        (if is_claimed e names limit db r then claim_row e w r else r)
      ≡ true
unfolding is_counted claim_row
counted_row e w names limit db r c in_table = elim (Bool-cases (is_claimed e names limit db r)) [
  | inl hit ↦ rw hit (
      ground (
        arith,
        old,
        any-append (overshoots r.id (r.attempt_count + 1)) db.attempts
            (new_attempts e w names limit db),
        any-mono_false (overshoots r.id (r.attempt_count + 1)) (overshoots r.id r.attempt_count)
            db.attempts (λ a k. ground arith),
        new_overshoots e w names limit db r (r.attempt_count + 1) c in_table,
      ))
  | inr miss ↦ rw miss (
      ground (
        arith,
        old,
        any-append (overshoots r.id r.attempt_count) db.attempts (new_attempts e w names limit db),
        new_overshoots e w names limit db r r.attempt_count c in_table,
      ))
]
  where
    old : not (any (overshoots r.id r.attempt_count) db.attempts) ≡ true
    old = all-counted (is_counted db.attempts) db.runs r c.counted in_table

counted-claimed :
    (e : Env) (w : WorkerId) (names : List Text) (limit : ℕ) (db : Db)
    → IsConsistent db
    → all (is_counted (claimed e w names limit db).attempts) (claimed e w names limit db).runs
      ≡ true
counted-claimed e w names limit db c =
    all-updated (is_counted (claimed e w names limit db).attempts) (is_claimed e names limit db)
      (claim_row e w) db.runs
      (All-map db.runs (λ r in_table. counted_row e w names limit db r c in_table)
        (All-counted db.runs))

pub claimed-IsConsistent :
    (e : Env) (w : WorkerId) (names : List Text) (limit : ℕ) (db : Db)
    → name_check w.as_str ≡ true
    → IsFresh e db
    → IsConsistent db
    → IsConsistent (claimed e w names limit db)
claimed-IsConsistent e w names limit db named fresh c = record {
  admitted = admits-claimed e w names limit db named fresh c;
  linked = linked-claimed e w names limit db c;
  counted = counted-claimed e w names limit db c;
}
