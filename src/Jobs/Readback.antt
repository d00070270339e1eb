-- ===== src/Jobs/Readback.antt =====
-- src/jobs.rs: what get reads after ensure_job.
use pg_task_scheduler.Prelude.{
  ℕ, Text, ◌≡◌, refl, sym, ap, arith, ◌==◌, Bool, Bool-cases, true, false, List, [], ◌∷◌,
  List-cases, some, Result, ok, inl, inr, any, unique, select, update_where, head?, text_eq→≡,
}
use pg_task_scheduler.Error.{SchedulerError}
use pg_task_scheduler.Models.Jobs.{Job, job_try_from}
use pg_task_scheduler.Db.{Db, Env, SchedulerJob, admits, job_conflict}
use pg_task_scheduler.Cron.{Croner, next_after}
use pg_task_scheduler.Jobs.{CreateJob, has_name, find_job, get, ensure_job}
use pg_task_scheduler.Jobs.Writes.{
  inserted-job_try_from, reconciled-job_try_from, IsValidSpec, IsNewJobId, declared_row, kept_row,
  created, reconciled, configured, ensure_job_lem,
}

module _ {A : Type 0} (p : A → Bool) where
  -- The first row that is selected does not meet a test that no row meets.
  first_selected-fails :
      (q : A → Bool) (rows : List A) (first : A) (rest : List A)
      → select p rows ≡ first ∷ rest
      → any q rows ≡ false
      → q first ≡ false
  unfolding select any
  first_selected-fails q [] first rest met never = ground (arith, met)
  first_selected-fails q (x ∷ rows) first rest met never =
      ground (arith, met, first_selected-fails q rows first rest)

  -- By a key that no two rows share, the first row that an update selects is found as it was left.
  find-updated :
      (key : A → ℕ) (f : A → A) (clash : A → A → Bool) (rows : List A) (first : A) (rest : List A)
      → ((x : A) → key (f x) ≡ key x)
      → ((x y : A) → key x == key y ≡ true → clash x y ≡ true)
      → unique clash rows ≡ true
      → select p rows ≡ first ∷ rest
      → head? (select (λ x. key x == key first) (update_where p f rows)) ≡ some (f first)
  unfolding select update_where unique
  find-updated key f clash [] first rest same keyed h met = ground (arith, met)
  find-updated key f clash (x ∷ rows) first rest same keyed h met = elim (Bool-cases (p x)) [
    | inl hit ↦ ground (arith, hit, met, same x)
    | inr miss ↦ ground (
      arith,
      miss,
      keyed x first,
      first_selected-fails (clash x) rows first rest,
      find-updated key f clash rows first rest same keyed,
    )
  ]

clash-same_id : (x y : SchedulerJob) → x.id == y.id ≡ true → job_conflict x y ≡ true
unfolding job_conflict
clash-same_id x y same = ground (arith, same)

unique_jobs : (db : Db) → admits db ≡ true → unique job_conflict db.jobs ≡ true
unfolding admits
unique_jobs db h = ground (arith, h)

get-found :
    (croner : Croner) (id : ℕ) (db : Db) (row : SchedulerJob) (j : Job croner)
    → find_job id db ≡ some row
    → job_try_from croner row ≡ ok j
    → get croner id db ≡ (db, ok (some j))
unfolding get
get-found croner id db row j found projected = rw found (rw projected refl)

-- The rows with a name have that name.
named-name :
    (name : Text) (rows : List SchedulerJob) (first : SchedulerJob) (rest : List SchedulerJob)
    → select (has_name name) rows ≡ first ∷ rest
    → has_name name first ≡ true
unfolding select
named-name name [] first rest met = ground (arith, met)
named-name name (x ∷ rows) first rest met = ground (arith, met, named-name name rows first rest)

module _ (croner : Croner) (e : Env) (spec : CreateJob croner) where
  -- A schedule that is as the specification asks for.
  abbrev pub IsDeclared : Job croner → Type 0
  IsDeclared j =
      (j.name ≡ spec.name)
      × (j.cron ≡ spec.cron)
      × (j.lease_duration ≡ spec.lease_duration)
      × (j.max_attempts ≡ spec.max_attempts)
      × (j.retry_backoff ≡ spec.retry_backoff)

  -- The answer is a schedule as asked for, and its id reads it back.
  abbrev pub IsReadBack : Db → Db × Result SchedulerError (Job croner) → Type 0
  IsReadBack db answer =
      (after : Db) × (j : Job croner) × (answer ≡ (after, ok j))
      × (get croner j.id after ≡ (after, ok (some j)))
      × IsDeclared j

  module _ (valid : IsValidSpec croner spec) (db : Db) where
    created-IsReadBack : (next : ℕ) → IsReadBack db (created croner e spec next db)
    unfolding find_job select
    created-IsReadBack next = (
      (created croner e spec next db).0,
      configured croner spec (declared_row croner e spec next),
      refl,
      get-found croner (e.uuid 0) (created croner e spec next db).0
          (declared_row croner e spec next)
          (configured croner spec (declared_row croner e spec next)) (ground arith)
          (inserted-job_try_from croner e spec valid next),
      (refl, refl, refl, refl, refl),
    )

    reconciled-IsReadBack :
        (old : SchedulerJob) (rest : List SchedulerJob)
        → admits db ≡ true
        → select (has_name spec.name.as_str) db.jobs ≡ old ∷ rest
        → IsReadBack db (reconciled croner e spec db old)
    unfolding find_job has_name
    reconciled-IsReadBack old rest h met = (
      (reconciled croner e spec db old).0,
      configured croner spec (kept_row croner e spec old),
      refl,
      get-found croner old.id (reconciled croner e spec db old).0 (kept_row croner e spec old)
          (configured croner spec (kept_row croner e spec old))
          (find-updated (has_name spec.name.as_str) (λ j. j.id) (kept_row croner e spec)
            job_conflict db.jobs old rest (λ x. refl) clash-same_id (unique_jobs db h) met)
          (reconciled-job_try_from croner e spec valid old.next_run_at old),
      (
        ap (λ s. record { as_str = s })
            (sym (text_eq→≡ _ _ (named-name spec.name.as_str db.jobs old rest met))),
        refl,
        refl,
        refl,
        refl,
      ),
    )

    -- A valid schedule whose expression has a next time, declared on admitted tables with a new id
    -- at hand, whether its name is new or taken: ensure_job answers with a schedule of that name,
    -- cron expression, lease, number of attempts and retry delay, and get reads that very schedule
    -- back by its id.
    pub ensure_job-get :
        (next : ℕ)
        → admits db ≡ true
        → IsNewJobId e db
        → next_after croner spec.cron e.now ≡ ok next
        → IsReadBack db (ensure_job croner e spec db)
    ensure_job-get next h fresh found = rw (ensure_job_lem croner e spec valid db h fresh) (
        rw found (elim (List-cases (select (has_name spec.name.as_str) db.jobs)) [
          | inl unmet ↦ rw unmet (created-IsReadBack next)
          | inr (old, rest, met) ↦ rw met (reconciled-IsReadBack old rest h met)
        ]))
