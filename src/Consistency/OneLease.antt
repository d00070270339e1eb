-- ===== src/Consistency/OneLease.antt =====
-- One lease given up: the run that holds it and the live attempt under its token go together.
use pg_task_scheduler.Prelude.{
  ℕ, ◌<◌, ◌≡◌, ◌==◌, ==_iff, count, update_where, Bool, true, false, not, ◌&&◌, count-split,
  count-none, count_mono, count-congr, arith, Bool-cases, inl, inr,
}
use pg_task_scheduler.Models.Runs.{is_running}
use pg_task_scheduler.Db.{Db, Run, Attempt, admits}
use pg_task_scheduler.Store.Finalize.{is_live}
use pg_task_scheduler.Consistency.{is_holder, is_live_of, IsConsistent}
use pg_task_scheduler.Consistency.Facts.{live-of_holder, count-of_id}
use pg_task_scheduler.Consistency.Release.{linked-release, counted-update}

module _ (db : Db) (id token : ℕ) (p : Run → Bool)
    (holds : (r : Run) → p r ≡ true → is_holder id token r ≡ true) (c : IsConsistent db)
    (hit : 0 < count p db.runs) where
  holders : count (is_holder id token) db.runs ≡ 1
  unfolding is_holder
  holders = omega (
    arith,
    count_mono p (is_holder id token) db.runs holds,
    count-of_id db id (is_holder id token) (λ r h. ground arith) c,
  )

  same_lease :
      count (λ r. is_holder id token r && p r) db.runs
      ≡ count (λ a. is_live_of id token a && is_live token a) db.attempts
  unfolding is_live_of
  same_lease = omega (
    arith,
    holders,
    hit,
    c.linked id token,
    count_mono p (λ (r : Run). is_holder id token r && p r) db.runs
        (λ r h. ground (arith, holds r)),
    count_mono (λ (r : Run). is_holder id token r && p r) (is_holder id token) db.runs
        (λ r h. ground arith),
    count-congr (λ (a : Attempt). is_live_of id token a && is_live token a) (is_live_of id token)
        db.attempts (λ a. ground arith),
  )

  other_id :
      (i : ℕ)
      → (i == id) ≡ false
      → count (λ r. is_holder i token r && p r) db.runs
        ≡ count (λ a. is_live_of i token a && is_live token a) db.attempts
  unfolding is_live_of is_holder
  other_id i ne = omega (
    arith,
    holders,
    c.linked id token,
    live-of_holder db id token c (omega (arith, holders)),
    count-none (λ (r : Run). is_holder i token r && p r) db.runs (λ r. ground (arith, holds r)),
    count-split (is_live token) (λ (a : Attempt). a.run_id == id) db.attempts,
    count_mono (is_live_of id token) (λ (a : Attempt). is_live token a && a.run_id == id)
        db.attempts (λ a h. ground arith),
    count_mono (λ (a : Attempt). is_live_of i token a && is_live token a)
        (λ (a : Attempt). is_live token a && not (a.run_id == id)) db.attempts
        (λ a h. ground arith),
  )

  other_token :
      (i t : ℕ)
      → (t == token) ≡ false
      → count (λ r. is_holder i t r && p r) db.runs
        ≡ count (λ a. is_live_of i t a && is_live token a) db.attempts
  unfolding is_live_of is_live is_holder
  other_token i t ne = omega (
    arith,
    count-none (λ (r : Run). is_holder i t r && p r) db.runs (λ r. ground (arith, holds r)),
    count-none (λ (a : Attempt). is_live_of i t a && is_live token a) db.attempts
        (λ a. ground arith),
  )

  pub same_lease_all :
      (i t : ℕ)
      → count (λ r. is_holder i t r && p r) db.runs
        ≡ count (λ a. is_live_of i t a && is_live token a) db.attempts
  same_lease_all i t = elim (Bool-cases (t == token)) [
    | inl e ↦ rw ((==_iff t token).0 e) (elim (Bool-cases (i == id)) [
      | inl e' ↦ rw ((==_iff i id).0 e') same_lease
      | inr ne ↦ other_id i ne
    ])
    | inr ne ↦ other_token i t ne
  ]

-- Consistency after a run gives its lease up and the attempt under the token is closed.
pub release-IsConsistent :
    (db : Db) (id token : ℕ) (p : Run → Bool) (f : Run → Run) (g : Attempt → Attempt)
    → ((r : Run) → p r ≡ true → is_holder id token r ≡ true)
    → ((r : Run) → is_running (f r).state ≡ false)
    → ((r : Run) → (f r).id ≡ r.id)
    → ((r : Run) → (f r).attempt_count ≡ r.attempt_count)
    → ((a : Attempt) (t : ℕ) → is_live t (g a) ≡ false)
    → ((a : Attempt) → (g a).run_id ≡ a.run_id)
    → ((a : Attempt) → (g a).attempt_number ≡ a.attempt_number)
    → 0 < count p db.runs
    → IsConsistent db
    → admits (record db {
      runs = update_where p f db.runs;
      attempts = update_where (is_live token) g db.attempts;
    })
      ≡ true
    → IsConsistent (record db {
      runs = update_where p f db.runs;
      attempts = update_where (is_live token) g db.attempts;
    })
unfolding is_holder is_live_of
release-IsConsistent db id token p f g holds stops id_kept counts closes run_id number hit c h =
    record {
      admitted = h;
      linked =
          linked-release db p f (is_live token) g (λ i t r. ground (arith, stops r))
            (λ i t a. ground (arith, closes a t)) (same_lease_all db id token p holds c hit)
            c.linked;
      counted = counted-update db p f (is_live token) g id_kept counts run_id number c.counted;
    }
