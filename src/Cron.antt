-- ===== src/Cron.antt =====
-- src/cron.rs: cron expressions, over the croner crate, which is a parameter.
use pg_task_scheduler.Prelude.{ℕ, Text, Result, ok, map_err}
use pg_task_scheduler.Prelude.{◌>>=◌ as bind_result}
use pg_task_scheduler.Error.{SchedulerError, cron, corrupt_job, cron_text}

-- What the code calls of croner, with an error as its text, and the text of a parse failure.
pub record Croner : Type 1 where
  pub Schedule : Type 0
  pub parse : Text → Result Text Schedule
  pub find_next_occurrence : Schedule → ℕ → Result Text ℕ
  pub detail : Text → Text → Text

pub record CronExpression (croner : Croner) : Type 0 where
  pub source : Text
  pub schedule : croner.Schedule

module _ (croner : Croner) where
  unfoldable pub parse_inner : Text → Result Text (CronExpression croner)
  parse_inner source =
      bind_result (map_err (croner.detail source) (croner.parse source))
        λ schedule. ok (record { source = source; schedule = schedule })

  -- `CronExpression::parse`.
  unfoldable pub parse_cron : Text → Result SchedulerError (CronExpression croner)
  unfolding parse_inner
  parse_cron source = map_err cron (parse_inner source)

  unfoldable pub parse_stored : ℕ → Text → Result SchedulerError (CronExpression croner)
  unfolding parse_inner
  parse_stored job_id source =
      map_err (λ detail. corrupt_job job_id (cron_text detail)) (parse_inner source)

  unfoldable pub next_after : CronExpression croner → ℕ → Result SchedulerError ℕ
  next_after c after = map_err cron (croner.find_next_occurrence c.schedule after)
