-- ===== src/Store/Claim/Leases.antt =====
-- CLAIM_BATCH of src/store/claim.rs meets every constraint of the schema.
use pg_task_scheduler.Prelude.{
  ℕ, ◌≤◌, ◌<◌, ◌≡◌, refl, fun_ext, ◌∙◌, ap, Text, ltb, ◌==◌, ==_iff, any, all, count, select, map,
  update_where, all-append, all-update_where, all-All, all-map-select, unique-append,
  unique-map-select, unique-update_where, count-any, any-of_pos, count-map, count-select,
  count_mono, count-witness, all-counted, All, All-map, All-counted, Bool, true, false, ◌&&◌, List,
  ◌++◌, Bool-cases, inl, inr, arith,
}
use pg_task_scheduler.Ids.{WorkerId}
use pg_task_scheduler.Ids.Policy.{name_check}
use pg_task_scheduler.Db.{
  Db, Run, Attempt, Env, run_check, attempts_check, state_check, attempt_check, outcome_check,
  run_conflict, attempt_conflict, references, admits,
}
use pg_task_scheduler.Db.Updates.{admits-Admitted, KeepsRunKeys, references-update_where}
use pg_task_scheduler.Consistency.{IsConsistent, is_counted}
use pg_task_scheduler.Store.Claim.{claimable, candidates, is_chosen, claim_row, claim_attempt}
use pg_task_scheduler.Store.Claim.Candidates.{chosen_claimable}

-- What a claim takes from the server: its clock does not run backwards on a row, and the tokens that
-- it generates are new and differ from row to row.
pub record IsFresh (e : Env) (db : Db) : Type 0 where
  pub monotone : (id : ℕ) → e.clock id 0 ≤ e.clock id 1
  pub unused : (id : ℕ) → count (λ a. a.lease_token == e.uuid id) db.attempts ≡ 0
  pub distinct : (i j : ℕ) → e.uuid i ≡ e.uuid j → i ≡ j

abbrev pub is_claimed : Env → List Text → ℕ → Db → Run → Bool
is_claimed e names limit db = is_chosen (candidates e names limit db)

abbrev pub new_attempts : Env → WorkerId → List Text → ℕ → Db → List Attempt
new_attempts e w names limit db =
    map (claim_attempt e w) (select (is_claimed e names limit db) db.runs)

-- The tables after CLAIM_BATCH.
abbrev pub claimed : Env → WorkerId → List Text → ℕ → Db → Db
claimed e w names limit db = record db {
  runs = update_where (is_claimed e names limit db) (claim_row e w) db.runs;
  attempts = db.attempts ++ new_attempts e w names limit db;
}

claim_row-run_check :
    (e : Env) (w : WorkerId) (names : List Text) (r : Run)
    → name_check w.as_str ≡ true
    → e.clock r.id 0 ≤ e.clock r.id 1
    → claimable e names r ≡ true
    → run_check r ≡ true
    → run_check (claim_row e w r) ≡ true
unfolding run_check attempts_check state_check claim_row claimable
claim_row-run_check e w names r named later h c = ground arith

claim_attempt-attempt_check :
    (e : Env) (w : WorkerId) (r : Run)
    → name_check w.as_str ≡ true
    → e.clock r.id 0 ≤ e.clock r.id 1
    → run_check r ≡ true
    → attempt_check (claim_attempt e w r) ≡ true
unfolding run_check attempt_check outcome_check claim_attempt
claim_attempt-attempt_check e w r named later c = ground arith

pub claim_row-KeepsRunKeys : (e : Env) (w : WorkerId) → KeepsRunKeys (claim_row e w)
unfolding claim_row run_conflict
claim_row-KeepsRunKeys e w = record {
  id = λ r. refl;
  conflict_left = λ r s. refl;
  conflict_right = λ r s. refl;
}

-- Attempts that one claim inserts conflict only if their runs do.
claim_attempt-conflict :
    (e : Env) (w : WorkerId)
    → ((i j : ℕ) → e.uuid i ≡ e.uuid j → i ≡ j)
    → (r s : Run) → attempt_conflict (claim_attempt e w r) (claim_attempt e w s) ≡ true
    → run_conflict r s ≡ true
unfolding attempt_conflict run_conflict claim_attempt
claim_attempt-conflict e w distinct r s h = ground (arith, distinct r.id s.id)

-- An attempt of the table does not conflict with the next one of a run of the table.
old_new_apart :
    (e : Env) (w : WorkerId) (db : Db) (a : Attempt) (r : Run)
    → IsFresh e db
    → ((q : Attempt → Bool) → q a ≡ true → 0 < count q db.attempts)
    → is_counted db.attempts r ≡ true
    → attempt_conflict a (claim_attempt e w r) ≡ false
unfolding attempt_conflict claim_attempt is_counted
old_new_apart e w db a r fresh counted within = elim (Bool-cases (a.lease_token == e.uuid r.id)) [
  | inl hit ↦
      absurd (omega (arith, fresh.unused r.id, counted (λ b. b.lease_token == e.uuid r.id) hit))
  | inr miss ↦ elim (Bool-cases (a.run_id == r.id && ltb r.attempt_count a.attempt_number)) [
    | inl over ↦ ground (
      arith,
      any-of_pos (λ b. b.run_id == r.id && ltb r.attempt_count b.attempt_number) db.attempts
          (counted (λ b. b.run_id == r.id && ltb r.attempt_count b.attempt_number) over),
    )
    | inr under ↦ ground arith
  ]
]

new_apart :
    (e : Env) (w : WorkerId) (names : List Text) (limit : ℕ) (db : Db)
    → IsFresh e db
    → IsConsistent db
    → All (λ a. any (attempt_conflict a) (new_attempts e w names limit db) ≡ false) db.attempts
new_apart e w names limit db fresh c =
    All-map db.attempts
      (λ a counted. elim (Bool-cases (any (attempt_conflict a) (new_attempts e w names limit db))) [
        | inr clear ↦ clear
        | inl clash ↦
            let (r, hit, in_table) =
              count-witness (λ (r : Run). attempt_conflict a (claim_attempt e w r)) db.runs
                (omega (
                  arith,
                  count-any (attempt_conflict a) (new_attempts e w names limit db) clash,
                  count-map (attempt_conflict a) (claim_attempt e w)
                      (select (is_claimed e names limit db) db.runs),
                  count-select (λ (r : Run). attempt_conflict a (claim_attempt e w r))
                      (is_claimed e names limit db) db.runs,
                  count_mono
                      (λ (r : Run).
                        attempt_conflict a (claim_attempt e w r) && is_claimed e names limit db r)
                      (λ (r : Run). attempt_conflict a (claim_attempt e w r)) db.runs
                      (λ r k. ground arith),
                )) in
            let apart =
              old_new_apart e w db a r fresh counted
                (all-counted (is_counted db.attempts) db.runs r c.counted in_table) in
            cc (hit, apart)
      ])
      (All-counted db.attempts)

new_referenced :
    (e : Env) (w : WorkerId) (names : List Text) (limit : ℕ) (db : Db)
    → all (references db.runs) (new_attempts e w names limit db) ≡ true
unfolding references claim_attempt
new_referenced e w names limit db =
    all-map-select (references db.runs) (is_claimed e names limit db) (claim_attempt e w) db.runs (
      All-map db.runs
        (λ r counted _.
          any-of_pos (λ s. s.id == r.id) db.runs
            (counted (λ s. s.id == r.id) ((==_iff r.id r.id).1 refl)))
        (All-counted db.runs))

pub admits-claimed :
    (e : Env) (w : WorkerId) (names : List Text) (limit : ℕ) (db : Db)
    → name_check w.as_str ≡ true
    → IsFresh e db
    → IsConsistent db
    → admits (claimed e w names limit db) ≡ true
unfolding admits
admits-claimed e w names limit db named fresh c = ground (
  arith,
  c.admitted,
  all-update_where run_check (is_claimed e names limit db) (claim_row e w) db.runs (
      All-map db.runs
        (λ r claim checked hit.
          claim_row-run_check e w names r named (fresh.monotone r.id) (claim hit) checked)
        (chosen_claimable e names limit db c)),
  unique-update_where run_conflict (is_claimed e names limit db) (claim_row e w) db.runs
      (claim_row-KeepsRunKeys e w).conflict_left (claim_row-KeepsRunKeys e w).conflict_right,
  all-append attempt_check db.attempts (new_attempts e w names limit db),
  all-map-select attempt_check (is_claimed e names limit db) (claim_attempt e w) db.runs (
      All-map db.runs
        (λ r checked hit. claim_attempt-attempt_check e w r named (fresh.monotone r.id) checked)
        (all-All run_check db.runs (admits-Admitted db c.admitted).runs_checked)),
  unique-append attempt_conflict db.attempts (new_attempts e w names limit db)
      (admits-Admitted db c.admitted).attempts_unique
      (unique-map-select run_conflict attempt_conflict (is_claimed e names limit db)
        (claim_attempt e w) db.runs (claim_attempt-conflict e w fresh.distinct)
        (admits-Admitted db c.admitted).runs_unique)
      (new_apart e w names limit db fresh c),
  referenced,
)
  where
    referenced :
        all
          (references (update_where (is_claimed e names limit db) (claim_row e w) db.runs))
          (db.attempts ++ new_attempts e w names limit db)
        ≡ true
    referenced =
        ap (λ (q : Attempt → Bool). all q (db.attempts ++ new_attempts e w names limit db))
          (fun_ext (
            references-update_where (is_claimed e names limit db) (claim_row e w) db.runs
              (claim_row-KeepsRunKeys e w)))
        ∙ all-append (references db.runs) db.attempts (new_attempts e w names limit db)
            (admits-Admitted db c.admitted).referenced (new_referenced e w names limit db)
