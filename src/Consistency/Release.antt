-- ===== src/Consistency/Release.antt =====
-- Giving leases up: runs that leave `running` together with the attempts that are closed.
use pg_task_scheduler.Prelude.{
  ℕ, ◌≡◌, fun_ext, ◌∙◌, ap, ltb, ◌==◌, all, count, update_where, Bool, true, false, not, ◌&&◌,
  All-of, all-update_where, count-split, count-update_where_split, count-none, any-update_where,
  arith,
}
use pg_task_scheduler.Db.{Db, Run, Attempt}
use pg_task_scheduler.Consistency.{is_holder, is_live_of, is_counted}

-- Where the runs that stop are those whose attempts are closed, the leases that are left agree.
pub linked-release :
    (db : Db) (p : Run → Bool) (f : Run → Run) (q : Attempt → Bool) (g : Attempt → Attempt)
    → ((id token : ℕ) (r : Run) → is_holder id token (f r) ≡ false)
    → ((id token : ℕ) (a : Attempt) → is_live_of id token (g a) ≡ false)
    → ((id token : ℕ)
        → count (λ r. is_holder id token r && p r) db.runs
          ≡ count (λ a. is_live_of id token a && q a) db.attempts)
    → ((id token : ℕ)
        → count (is_holder id token) db.runs ≡ count (is_live_of id token) db.attempts)
    → (id token : ℕ)
    → count (is_holder id token) (update_where p f db.runs)
      ≡ count (is_live_of id token) (update_where q g db.attempts)
linked-release db p f q g stop close same linked id token = omega (
  arith,
  count-update_where_split (is_holder id token) p f db.runs,
  count-update_where_split (is_live_of id token) q g db.attempts,
  count-none (λ (r : Run). p r && is_holder id token (f r)) db.runs
      (λ r. ground (arith, stop id token r)),
  count-none (λ (a : Attempt). q a && is_live_of id token (g a)) db.attempts
      (λ a. ground (arith, close id token a)),
  count-split (is_holder id token) p db.runs,
  count-split (is_live_of id token) q db.attempts,
  same id token,
  linked id token,
)

abbrev overshoots : Run → Attempt → Bool
overshoots r a = a.run_id == r.id && ltb r.attempt_count a.attempt_number

-- Neither side of the count moves when ids, numbers and counts stay.
pub counted-update :
    (db : Db) (p : Run → Bool) (f : Run → Run) (q : Attempt → Bool) (g : Attempt → Attempt)
    → ((r : Run) → (f r).id ≡ r.id)
    → ((r : Run) → (f r).attempt_count ≡ r.attempt_count)
    → ((a : Attempt) → (g a).run_id ≡ a.run_id)
    → ((a : Attempt) → (g a).attempt_number ≡ a.attempt_number)
    → all (is_counted db.attempts) db.runs ≡ true
    → all (is_counted (update_where q g db.attempts)) (update_where p f db.runs) ≡ true
unfolding is_counted
counted-update db p f q g id counts run_id number h =
    all-update_where (is_counted (update_where q g db.attempts)) p f db.runs (All-of db.runs kept)
      (ap (λ c. all c db.runs) (fun_ext attempts_kept) ∙ h)
  where
    attempts_kept :
        (r : Run) → is_counted (update_where q g db.attempts) r ≡ is_counted db.attempts r
    attempts_kept r =
        ap not (any-update_where (overshoots r) q g db.attempts (λ a. rw (run_id a, number a)))

    kept :
        (r : Run)
        → is_counted (update_where q g db.attempts) r ≡ true
        → p r ≡ true
        → is_counted (update_where q g db.attempts) (f r) ≡ true
    kept r known hit = rw (id r, counts r) known
