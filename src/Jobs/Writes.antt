-- ===== src/Jobs/Writes.antt =====
-- src/jobs.rs: create and ensure_job on every branch.
use pg_task_scheduler.Prelude.{
  ℕ, ◌≡◌, ◌≤◌, refl, arith, ◌==◌, ◌||◌, true, false, List, [], ◌∷◌, Result, Result-cases, ok, err,
  inl, inr, any, all, unique, count, select, update_where, count-or-and, count_mono, any-of_count,
  select-nil_count, List-cases, all-update_where, unique-update_where, All-of, any-of_pos,
  select-cons_count, ◌<◌,
}
use pg_task_scheduler.Error.{SchedulerError, database, constraint_violation}
use pg_task_scheduler.Ids.Policy.{name_check}
use pg_task_scheduler.Models.Limits.{
  lease_to_pg_interval, lease_from_pg_interval, backoff_to_pg_interval, backoff_from_pg_interval,
  to_i32, from_db_i32,
}
use pg_task_scheduler.Models.Jobs.{is_paused, from_paused, Job, job_try_from}
use pg_task_scheduler.Db.{Db, Env, SchedulerJob, admits, job_check, job_conflict}
use pg_task_scheduler.Cron.{Croner, parse_inner, parse_stored, next_after}
use pg_task_scheduler.Jobs.{
  CreateJob, inserted_job, insert_job, has_name, reconcile_row, upsert_job, new_job, create,
  ensure_job,
}

-- `gen_random_uuid()` gives an id that no schedule has.
abbrev pub IsNewJobId : Env → Db → Type 0
IsNewJobId e db = count (λ (j : SchedulerJob). j.id == e.uuid 0) db.jobs ≡ 0

module _ (croner : Croner) where
  -- What the types of a schedule's values guarantee.
  pub record IsValidSpec (spec : CreateJob croner) : Type 0 where
    pub named : name_check spec.name.as_str ≡ true
    pub parsed : parse_inner croner spec.cron.source ≡ ok spec.cron
    pub lease : 1 ≤ spec.lease_duration.micros
    pub attempts : 1 ≤ spec.max_attempts.count

  -- The row of a schedule with a new name.
  abbrev pub declared_row : Env → CreateJob croner → ℕ → SchedulerJob
  declared_row e spec next = record {
    id = e.uuid 0;
    name = spec.name.as_str;
    cron_expression = spec.cron.source;
    job_args = spec.args;
    next_run_at = next;
    lease_duration = lease_to_pg_interval spec.lease_duration;
    max_attempts = to_i32 spec.max_attempts;
    is_paused = is_paused spec.lifecycle;
    created_at = e.now;
    updated_at = e.now;
    retry_backoff = backoff_to_pg_interval spec.retry_backoff;
  }

  -- The row of a schedule that has the name: configured anew, with its identity, its cursor and its
  -- paused flag kept.
  abbrev pub kept_row : Env → CreateJob croner → SchedulerJob → SchedulerJob
  kept_row e spec old = record {
    id = old.id;
    name = old.name;
    cron_expression = spec.cron.source;
    job_args = spec.args;
    next_run_at = old.next_run_at;
    lease_duration = lease_to_pg_interval spec.lease_duration;
    max_attempts = to_i32 spec.max_attempts;
    is_paused = old.is_paused;
    created_at = old.created_at;
    updated_at = e.now;
    retry_backoff = backoff_to_pg_interval spec.retry_backoff;
  }

  -- The schedule that is returned: configured as asked for, with the identity, the cursor and the
  -- lifecycle of the row.
  abbrev pub configured : CreateJob croner → SchedulerJob → Job croner
  configured spec row = record {
    id = row.id;
    name = record { as_str = row.name };
    cron = spec.cron;
    lease_duration = spec.lease_duration;
    max_attempts = spec.max_attempts;
    retry_backoff = spec.retry_backoff;
    lifecycle = from_paused row.is_paused;
    next_run_at = row.next_run_at;
    created_at = row.created_at;
    updated_at = row.updated_at;
  }

  -- A schedule with a new name.
  abbrev pub created : Env → CreateJob croner → ℕ → Db → Db × Result SchedulerError (Job croner)
  created e spec next db =
      let new = declared_row e spec next in
      (record db { jobs = new ∷ db.jobs }, ok (configured spec new))

  -- The schedules that have the name, reconciled.
  abbrev pub reconciled :
      Env → CreateJob croner → Db → SchedulerJob → Db × Result SchedulerError (Job croner)
  reconciled e spec db old =
      let reconcile = kept_row e spec in
      (
        record db { jobs = update_where (has_name spec.name.as_str) reconcile db.jobs },
        ok (configured spec (reconcile old)),
      )

  abbrev pub created_of :
      Env
      → CreateJob croner
      → Db
      → Result SchedulerError ℕ
      → List SchedulerJob
      → Db × Result SchedulerError (Job croner)
  created_of e spec db (err x) met = (db, err x)
  created_of e spec db (ok next) [] = created e spec next db
  created_of e spec db (ok next) (old ∷ rest) = (db, err (database constraint_violation))

  abbrev pub ensured_of :
      Env
      → CreateJob croner
      → Db
      → Result SchedulerError ℕ
      → List SchedulerJob
      → Db × Result SchedulerError (Job croner)
  ensured_of e spec db (err x) met = (db, err x)
  ensured_of e spec db (ok next) [] = created e spec next db
  ensured_of e spec db (ok next) (old ∷ rest) = reconciled e spec db old

  module _ (e : Env) (spec : CreateJob croner) (valid : IsValidSpec spec) where
    pub inserted-job_try_from :
        (next : ℕ)
        → job_try_from croner (declared_row e spec next)
          ≡ ok (configured spec (declared_row e spec next))
    unfolding job_try_from parse_stored lease_from_pg_interval from_db_i32 backoff_from_pg_interval
        lease_to_pg_interval to_i32 backoff_to_pg_interval
    inserted-job_try_from next = rw (valid.parsed) (ground (arith, valid.lease, valid.attempts))

    pub reconciled-job_try_from :
        (next : ℕ) (old : SchedulerJob)
        → job_try_from croner (kept_row e spec old) ≡ ok (configured spec (kept_row e spec old))
    unfolding job_try_from parse_stored lease_from_pg_interval from_db_i32 backoff_from_pg_interval
        lease_to_pg_interval to_i32 backoff_to_pg_interval
    reconciled-job_try_from next old =
        rw (valid.parsed) (ground (arith, valid.lease, valid.attempts))

    created-job_check : (next : ℕ) → job_check (declared_row e spec next) ≡ true
    unfolding job_check lease_to_pg_interval backoff_to_pg_interval to_i32
    created-job_check next = ground (arith, valid.named, valid.lease, valid.attempts)

    reconciled-job_check :
        (next : ℕ) (old : SchedulerJob)
        → job_check old ≡ true
        → job_check (kept_row e spec old) ≡ true
    unfolding job_check lease_to_pg_interval backoff_to_pg_interval to_i32
    reconciled-job_check next old h = ground (arith, valid.lease, valid.attempts)

    module _ (db : Db) (h : admits db ≡ true) where
      new_name-apart :
          (next : ℕ)
          → IsNewJobId e db
          → count (has_name spec.name.as_str) db.jobs ≡ 0
          → any (job_conflict (declared_row e spec next)) db.jobs ≡ false
      unfolding job_conflict has_name
      new_name-apart next fresh unnamed =
          let new = declared_row e spec next in
          any-of_count (job_conflict new) db.jobs (
            omega (
              arith,
              fresh,
              unnamed,
              count-or-and (λ (j : SchedulerJob). j.id == e.uuid 0) (has_name new.name) db.jobs,
              count_mono (job_conflict new)
                  (λ (j : SchedulerJob). j.id == e.uuid 0 || has_name new.name j) db.jobs
                  (λ j c. ground arith),
            ))

      old_name-clash :
          (next : ℕ)
          → 0 < count (has_name spec.name.as_str) db.jobs
          → any (job_conflict (declared_row e spec next)) db.jobs ≡ true
      unfolding job_conflict has_name
      old_name-clash next named =
          let new = declared_row e spec next in
          any-of_pos (job_conflict new) db.jobs (
            omega (
              arith,
              named,
              count_mono (has_name new.name) (job_conflict new) db.jobs (λ j c. ground arith),
            ))

      admits-created :
          (next : ℕ)
          → any (job_conflict (declared_row e spec next)) db.jobs ≡ false
          → admits (created e spec next db).0 ≡ true
      unfolding admits all unique
      admits-created next apart = ground (arith, created-job_check next)

      refused-created :
          (next : ℕ)
          → any (job_conflict (declared_row e spec next)) db.jobs ≡ true
          → admits (created e spec next db).0 ≡ false
      unfolding admits all unique
      refused-created next clash = ground arith

      admits-reconciled :
          (next : ℕ) (old : SchedulerJob) → admits (reconciled e spec db old).0 ≡ true
      unfolding admits job_conflict
      admits-reconciled next old = ground (
        arith,
        all-update_where job_check (has_name spec.name.as_str) (kept_row e spec) db.jobs
            (All-of db.jobs (λ j c hit. reconciled-job_check next j c)),
        unique-update_where job_conflict (has_name spec.name.as_str) (kept_row e spec) db.jobs
            (λ i j. refl) (λ i j. refl),
      )

      -- create on admitted tables, for a valid specification, with a new id at hand, on every
      -- branch. Without a next time the error is returned and nothing changes. A name that is taken
      -- is refused by the database, and nothing changes. Otherwise the schedule is inserted as asked
      -- for, due at the next time after the database's clock, and returned.
      pub create_lem :
          IsNewJobId e db
          → create croner e spec db
            ≡ created_of e spec db
                (next_after croner spec.cron e.now)
                (select (has_name spec.name.as_str) db.jobs)
      unfolding create new_job insert_job inserted_job
      create_lem fresh = elim (Result-cases (next_after croner spec.cron e.now)) [
        | inl (x, never) ↦ rw never refl
        | inr (next, found) ↦
            rw found (elim (List-cases (select (has_name spec.name.as_str) db.jobs)) [
              | inl unmet ↦
                  rw
                    (
                      admits-created next
                          (new_name-apart next fresh (select-nil_count _ db.jobs unmet)),
                      unmet,
                    )
                    (rw (inserted-job_try_from next) refl)
              | inr (old, rest, met) ↦
                  rw
                    (
                      refused-created next
                          (old_name-clash next (select-cons_count _ db.jobs old rest met)),
                      met,
                    )
                    refl
            ])
      ]

      -- ensure_job on admitted tables, for a valid specification, with a new id at hand, on every
      -- branch. Without a next time the error is returned and nothing changes. A new name is inserted
      -- as by create. A schedule that has the name gets the cron expression, the arguments, the
      -- lease, the attempts and the retry delay asked for, and keeps its id, its `next_run_at` and
      -- its paused flag; it is returned so. No constraint is ever in the way.
      pub ensure_job_lem :
          IsNewJobId e db
          → ensure_job croner e spec db
            ≡ ensured_of e spec db
                (next_after croner spec.cron e.now)
                (select (has_name spec.name.as_str) db.jobs)
      unfolding ensure_job new_job upsert_job insert_job inserted_job reconcile_row
      ensure_job_lem fresh = elim (Result-cases (next_after croner spec.cron e.now)) [
        | inl (x, never) ↦ rw never refl
        | inr (next, found) ↦
            rw found (elim (List-cases (select (has_name spec.name.as_str) db.jobs)) [
              | inl unmet ↦ rw unmet (
                  rw
                    (admits-created next
                      (new_name-apart next fresh (select-nil_count _ db.jobs unmet)))
                    (rw (inserted-job_try_from next) refl))
              | inr (old, rest, met) ↦
                  rw met
                    (rw (admits-reconciled next old) (rw (reconciled-job_try_from next old) refl))
            ])
      ]
