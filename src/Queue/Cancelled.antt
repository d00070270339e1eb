-- ===== src/Queue/Cancelled.antt =====
-- cancel of src/queue.rs on consistent tables, by what is asked of it: its tests agree with the state
-- of the task and with the attempts that are under way.
use pg_task_scheduler.Prelude.{
  ℕ, ◌<◌, ◌≡◌, refl, sym, ◌∙◌, ◌==◌, ==_iff, any, count, update_where, count_mono, count-split,
  unique-count, All, All-map, All-counted, all-counted, Bool, true, false, not, ◌&&◌, List, [], ◌∷◌,
  none, some, Bool-cases, ok, inl, inr, arith, if◌then◌else◌,
}
use pg_task_scheduler.Models.Runs.{is_running}
use pg_task_scheduler.Db.{Db, Attempt, Env, run_check, attempt_conflict}
use pg_task_scheduler.Db.Updates.{admits-Admitted}
use pg_task_scheduler.Consistency.{IsConsistent, is_holder, is_live_of}
use pg_task_scheduler.Consistency.ManyLeases.{is_leased}
use pg_task_scheduler.Store.Finalize.{is_live}
use pg_task_scheduler.Queue.{CancelOutcome, is_cancelled_attempt, is_cancelled, exists, cancel}
use pg_task_scheduler.Queue.Cancellation.{
  targets, closing, cancelled_row, cancelled_attempt, is_open, is_target_token, target_held,
  held_target, running_is_cancelled, pending_is_cancelled, cancelled_open, cancel_lem,
}

module _ {A : Type 0} where
  update_where-agree :
      (p q : A → Bool) (f : A → A) (xs : List A)
      → All (λ x. p x ≡ q x) xs
      → update_where p f xs ≡ update_where q f xs
  unfolding update_where
  update_where-agree p q f [] same = refl
  update_where-agree p q f (x ∷ xs) same = rw (same.0, update_where-agree p q f xs same.1) refl

-- An attempt of the task that has no outcome yet.
abbrev pub is_unfinished : ℕ → Attempt → Bool
is_unfinished id a = elim a.outcome [ none ↦ a.run_id == id | some o ↦ false ]

-- The tables with the task and its unfinished attempts cancelled.
abbrev pub cancelled_task : Env → ℕ → Db → Db
cancelled_task e id db = record db {
  runs = update_where (is_open id) (cancelled_row e) db.runs;
  attempts = update_where (is_unfinished id) (cancelled_attempt e) db.attempts;
}

module _ (id : ℕ) (db : Db) (c : IsConsistent db) where
  runs_agree : All (λ r. is_cancelled id (closing id db) r ≡ is_open id r) db.runs
  runs_agree =
      All-map db.runs
        (λ r counted. elim (Bool-cases (is_open id r)) [
          | inr shut ↦ elim (Bool-cases (is_cancelled id (closing id db) r)) [
            | inl hit ↦ absurd (ground (arith, shut, cancelled_open id (closing id db) r hit))
            | inr miss ↦ miss ∙ sym shut
          ]
          | inl open_ ↦ elim (Bool-cases (is_running r.state)) [
            | inl running ↦
                running_is_cancelled id db r c
                  (all-counted run_check db.runs r (admits-Admitted db c.admitted).runs_checked
                    counted)
                  counted open_ running
                ∙ sym open_
            | inr idle ↦ pending_is_cancelled id (closing id db) r open_ idle ∙ sym open_
          ]
        ])
        (All-counted db.runs)

  -- The run of an unfinished attempt runs under its token.
  unfinished_targeted :
      (a : Attempt)
      → ((p : Attempt → Bool) → p a ≡ true → 0 < count p db.attempts)
      → is_unfinished id a ≡ true
      → is_target_token id db a.lease_token ≡ true
  unfolding is_holder is_live_of is_live
  unfinished_targeted a counted h = held_target id db a.lease_token (
      omega (
        arith,
        counted (is_live_of id a.lease_token)
            (ground (arith, h, (==_iff a.lease_token a.lease_token).1 refl)),
        c.linked id a.lease_token,
        count_mono (is_holder id a.lease_token) (is_leased (λ i. i == id) a.lease_token) db.runs
            (λ r k. ground (arith, k)),
      ))

  -- No other attempt has the token that the task runs under.
  targeted_own :
      (a : Attempt)
      → ((p : Attempt → Bool) → p a ≡ true → 0 < count p db.attempts)
      → is_target_token id db a.lease_token ≡ true
      → (a.run_id == id) ≡ true
  unfolding is_holder is_live_of is_live attempt_conflict
  targeted_own a counted h = elim (Bool-cases (a.run_id == id)) [
    | inl own ↦ own
    | inr other ↦
        let named = λ (x : Attempt). x.lease_token == a.lease_token in
        absurd (
          omega (
            arith,
            target_held id db a.lease_token h,
            count_mono (is_leased (λ i. i == id) a.lease_token) (is_holder id a.lease_token) db.runs
                (λ r k. ground (arith, k)),
            c.linked id a.lease_token,
            count_mono (is_live_of id a.lease_token) (λ x. named x && x.run_id == id) db.attempts
                (λ x k. ground (arith, k)),
            counted (λ x. named x && not (x.run_id == id))
                (ground (arith, other, (==_iff a.lease_token a.lease_token).1 refl)),
            count-split named (λ x. x.run_id == id) db.attempts,
            unique-count attempt_conflict named db.attempts (λ x y k l. ground (arith, k, l))
                (admits-Admitted db c.admitted).attempts_unique,
          ))
  ]

  attempt_agrees :
      (a : Attempt)
      → ((p : Attempt → Bool) → p a ≡ true → 0 < count p db.attempts)
      → is_cancelled_attempt (targets id db) a ≡ is_unfinished id a
  unfolding is_cancelled_attempt is_live
  attempt_agrees a counted = elim (Bool-cases (is_target_token id db a.lease_token)) [
    | inl hit ↦
        ground (arith, hit, targeted_own a counted hit, (==_iff a.lease_token a.lease_token).1 refl)
    | inr miss ↦ ground (arith, miss, unfinished_targeted a counted)
  ]

-- `cancel` on a consistent database never fails. A task that is pending or running becomes cancelled,
-- with its unfinished attempt, and nothing else changes; the answer is `Cancelled`. Otherwise nothing
-- changes at all, and the answer tells a terminal task from one that does not exist.
pub cancel-exact :
    (e : Env) (id : ℕ) (db : Db)
    → IsConsistent db
    → cancel e id db ≡ (
        if any (is_open id) db.runs then (cancelled_task e id db, ok CancelOutcome.cancelled) else (
          db,
          ok (if exists id db then CancelOutcome.already_terminal else CancelOutcome.not_found),
        ))
cancel-exact e id db c =
    rw
      (
        sym (update_where-agree _ _ (cancelled_row e) db.runs (runs_agree id db c)),
        sym (
            update_where-agree _ _ (cancelled_attempt e) db.attempts
              (All-map db.attempts (attempt_agrees id db c) (All-counted db.attempts))),
      )
      (cancel_lem e id db c)
