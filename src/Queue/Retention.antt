-- ===== src/Queue/Retention.antt =====
-- prune_terminal of src/queue.rs: which runs go.
pub mod Pruned
use pg_task_scheduler.Prelude.{
  List, [], ◌∷◌, sym, ◌∙◌, count-candidates, ℕ, ◌≤◌, ◌≡◌, refl, ap, ltb, ◌==◌, ==_iff, any, all,
  count, select, all-select, all-select_of, unique-select, any-select-not, all-All, count-and-const,
  length-select, count-any, count_mono, any-of_pos, count-select, All, All-map, All-all, Bool, true,
  false, not, ◌&&◌, Bool-cases, inl, inr, arith, ok, Option, some, none, take, order_by, length,
  leb, ◌||◌,
}
use pg_task_scheduler.Models.Limits.{i64_max}
use pg_task_scheduler.Db.{
  Db, Run, Attempt, Env, admits, run_check, attempt_check, run_conflict, attempt_conflict,
  references,
}
use pg_task_scheduler.Db.Updates.{admits-Admitted}
use pg_task_scheduler.Consistency.{IsConsistent, is_holder, is_live_of, is_counted}
use pg_task_scheduler.Store.Claim.{is_chosen}
use pg_task_scheduler.Models.Runs.{StoredRunState}
use pg_task_scheduler.Store.Claim.Candidates.{chosen_passes}
use pg_task_scheduler.Store.Claim.Priority.{chosen_first, batch_full}
use pg_task_scheduler.Store.Claim.Batch.{count-chosen_le, length-take-le}
use pg_task_scheduler.Store.Finalize.Stale.{IsStored}
use pg_task_scheduler.Queue.{is_prunable, finish_order, doomed, prune_statement, prune_terminal}
use pg_task_scheduler.Queue.Retention.Pruned.{pruned_lem}

-- What retention may delete: a completed, failed or cancelled run that finished before the given time
-- and is not locked.
abbrev pub is_over : StoredRunState → Bool
is_over StoredRunState.completed = true
is_over StoredRunState.failed = true
is_over StoredRunState.cancelled = true
is_over _ = false

abbrev pub is_earlier : Option ℕ → ℕ → Bool
is_earlier (some t) before = ltb t before
is_earlier none before = false

abbrev pub is_old : Env → ℕ → Run → Bool
is_old e before r = is_over r.state && is_earlier r.finished_at before && not (e.locked r.id)

-- The one that finished first comes first, and of two at one time the one with the lesser id. A run
-- that is old has a time.
abbrev pub finished_first : Option ℕ → Option ℕ → Bool → Bool
finished_first (some t) (some u) tie = ltb t u || (t == u && tie)
finished_first _ _ tie = true

abbrev pub without : (ℕ → Bool) → Db → Db
without gone db = record db {
  runs = select (λ r. not (gone r.id)) db.runs;
  attempts = select (λ a. not (gone a.run_id)) db.attempts;
}

-- The ids of the runs that go: those of runs that are old, the ones that finished first, and as many
-- as there are up to the limit.
pub record AreOldest (e : Env) (before limit : ℕ) (db : Db) (gone : ℕ → Bool) : Type 0 where
  pub old : All (λ r. gone r.id ≡ true → is_old e before r ≡ true) db.runs
  pub first :
      (r s : Run)
      → IsStored r db
      → IsStored s db
      → is_old e before r ≡ true
      → gone r.id ≡ false
      → gone s.id ≡ true
      → finished_first s.finished_at r.finished_at (leb s.id r.id) ≡ true
  pub bounded : count (λ r. gone r.id) db.runs ≤ limit
  pub full :
      (r : Run)
      → IsStored r db
      → is_old e before r ≡ true
      → gone r.id ≡ false
      → count (λ r. gone r.id) db.runs ≡ limit

prunable_old : (e : Env) (before : ℕ) (r : Run) → is_prunable e before r ≡ is_old e before r
unfolding is_prunable
prunable_old e before r = ground arith

finish_order_total : (r s : Run) → finish_order r s ≡ false → finish_order s r ≡ true
unfolding finish_order
finish_order_total r s h = ground arith

finish_order_trans :
    (r s t : Run) → finish_order r s ≡ true → finish_order s t ≡ true → finish_order r t ≡ true
unfolding finish_order
finish_order_trans r s t h k = ground arith

ordered_first :
    (r s : Run)
    → finish_order s r ≡ true
    → finished_first s.finished_at r.finished_at (leb s.id r.id) ≡ true
unfolding finish_order
ordered_first r s h = ground arith

count-every : (p : Run → Bool) (cs : List Run) → All (λ x. p x ≡ true) cs → count p cs ≡ length cs
unfolding count
count-every p [] h = refl
count-every p (x ∷ cs) h = ground (arith, h.0, count-every p cs h.1)

chosen_all : (cs : List Run) → All (λ x. is_chosen cs x ≡ true) cs
unfolding is_chosen any
chosen_all [] = tt
chosen_all (x ∷ cs) = (
  ground (arith, (==_iff x.id x.id).1 refl),
  All-map cs (λ y h. ground (arith, h)) (chosen_all cs),
)

module _ (e : Env) (before limit : ℕ) (db : Db) (c : IsConsistent db) where
  abbrev gone_ids : ℕ → Bool
  gone_ids id = any (λ x. x.id == id) (doomed e before limit db)

  gone_full :
      (r : Run)
      → IsStored r db
      → is_old e before r ≡ true
      → gone_ids r.id ≡ false
      → count (λ x. gone_ids x.id) db.runs ≡ limit
  unfolding doomed is_chosen
  gone_full r in_r h kept =
      let cs = doomed e before limit db in
      omega (
        arith,
        batch_full (is_prunable e before) finish_order finish_order_total finish_order_trans limit
            db c r in_r (prunable_old e before r ∙ h) kept,
        count-every (is_chosen cs) cs (chosen_all cs),
        count-candidates (is_chosen cs) (is_prunable e before) finish_order limit db.runs,
        count_mono (λ x. is_chosen cs x && is_prunable e before x) (is_chosen cs) db.runs
            (λ x k. ground (arith, k)),
        count-chosen_le db cs c,
      )

  doomed-AreOldest : AreOldest e before limit db gone_ids
  unfolding doomed is_chosen
  doomed-AreOldest = record {
    old =
        All-map db.runs (λ r passes h. sym (prunable_old e before r) ∙ passes h)
          (chosen_passes (is_prunable e before) finish_order limit db c);
    first = λ r s in_r in_s h kept goes. ordered_first r s (
        chosen_first (is_prunable e before) finish_order finish_order_total finish_order_trans limit
          db c r s in_r in_s (prunable_old e before r ∙ h) kept goes);
    bounded = omega (
      arith,
      count-chosen_le db (doomed e before limit db) c,
      length-take-le limit (order_by finish_order (select (is_prunable e before) db.runs)),
    );
    full = gone_full;
  }

  -- `prune_terminal` with a limit that an `i64` holds never fails on a consistent database: it
  -- deletes runs with all their attempts, and nothing else, and answers how many runs. What goes is
  -- completed, failed or cancelled, finished before the given time and is not locked; no such run
  -- that finished earlier is kept instead; and one is kept only if as many went as the limit.
  pub prune_terminal_lem :
      limit ≤ i64_max
      → (gone : ℕ → Bool) × (prune_terminal e before limit db
          ≡ (without gone db, ok (count (λ r. gone r.id) db.runs)))
        × AreOldest e before limit db gone
  unfolding is_chosen
  prune_terminal_lem small = (gone_ids, pruned_lem e before limit db small c, doomed-AreOldest)
