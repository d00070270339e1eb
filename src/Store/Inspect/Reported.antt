-- ===== src/Store/Inspect/Reported.antt =====
-- src/store/inspect.rs and src/store/finalize.rs: what `run_state` reads after a completion.
use pg_task_scheduler.Prelude.{
  ℕ, ◌≤◌, ◌<◌, ◌≡◌, refl, arith, ◌==◌, Bool, Bool-cases, true, List, [], ◌∷◌, some, ok, inl, inr,
  count, select, select-none, update_where, update_where-none, count_mono, count-any, get_last?,
}
use pg_task_scheduler.Models.Runs.{Outcome, FinalizeOutcome, RunState}
use pg_task_scheduler.Db.{Db, Env, Run}
use pg_task_scheduler.Consistency.{IsConsistent}
use pg_task_scheduler.Consistency.Facts.{count-of_id}
use pg_task_scheduler.Store.Finalize.{holds_lease, finalize_row, finalize_run, stored_outcome}
use pg_task_scheduler.Store.Finalize.Completion.{finalize_run_lem}
use pg_task_scheduler.Store.Finalize.Fencing.{applied_held}
use pg_task_scheduler.Store.Inspect.{state_of, run_state}

-- What an update makes of the one row that a key names, if the update is for that row.
sole-updated :
    {A : Type 0} (p q : A → Bool) (f : A → A) (xs : List A)
    → ((x : A) → p x ≡ true → q x ≡ true)
    → ((x : A) → q (f x) ≡ q x)
    → count q xs ≤ 1
    → 0 < count p xs
    → (x : A) × (p x ≡ true) × (select q (update_where p f xs) ≡ f x ∷ [])
unfolding count select update_where
sole-updated p q f [] sub same one hit = absurd (omega (arith, hit))
sole-updated p q f (x ∷ xs) sub same one hit = elim (Bool-cases (p x)) [
  | inl chosen ↦
      let alone : count q xs ≡ 0 = ground (arith, one, sub x chosen) in
      let none_left : count p xs ≡ 0 = omega (arith, alone, count_mono p q xs sub) in
      (
        x,
        chosen,
        rw (chosen, same x, sub x chosen, update_where-none p f xs none_left)
            (rw (select-none q xs alone) refl),
      )
  | inr other ↦
      let (y, chosen, only) =
        sole-updated p q f xs sub same (ground (arith, one)) (ground (arith, hit, other)) in
      (y, chosen, ground (arith, other, one, hit, count_mono p q xs sub, only))
]

-- The state that is read for an outcome that was reported at a time.
abbrev pub reported : Outcome → ℕ → RunState
reported Outcome.completed at = RunState.completed at
reported (Outcome.failed error) at = RunState.failed at error

finalize_row-reported :
    (e : Env) (o : Outcome) (r : Run)
    → state_of (finalize_row e (stored_outcome o).0 (stored_outcome o).2 r)
      ≡ ok (reported o (e.clock r.id 1))
unfolding state_of finalize_row
finalize_row-reported e Outcome.completed r = refl
finalize_row-reported e (Outcome.failed error) r = refl

finalize_row-same_id :
    (e : Env) (id : ℕ) (o : Outcome) (r : Run)
    → (finalize_row e (stored_outcome o).0 (stored_outcome o).2 r).id == id ≡ (r.id == id)
unfolding finalize_row
finalize_row-same_id e id o r = refl

-- What is reported is what is read. After `finalize_run` has answered `Applied` on consistent
-- tables, `run_state` reads the run as completed, or as failed with the error that was reported, at
-- the instant of the report.
pub finalize_run-run_state :
    (e : Env) (id token : ℕ) (o : Outcome) (db : Db)
    → IsConsistent db
    → (finalize_run e id token o db).1 ≡ ok FinalizeOutcome.applied
    → run_state id (finalize_run e id token o db).0
      ≡ ((finalize_run e id token o db).0, ok (some (reported o (e.clock id 1))))
unfolding run_state holds_lease get_last?
finalize_run-run_state e id token o db c h =
    let held = applied_held e id token o db c h in
    let (r, mine, only) =
      sole-updated (holds_lease e id token) (λ r. r.id == id)
        (finalize_row e (stored_outcome o).0 (stored_outcome o).2) db.runs
        (λ r m. ground (arith, m)) (finalize_row-same_id e id o)
        (count-of_id db id (λ r. r.id == id) (λ r m. ground (arith, m)) c)
        (count-any (holds_lease e id token) db.runs held) in
    let mine_id : r.id ≡ id = ground (arith, mine) in
    rw (finalize_run_lem e id token o db c, held)
      (rw (only, finalize_row-reported e o r, mine_id) refl)
