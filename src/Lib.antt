-- ===== src/Lib.antt =====
-- A model of the task scheduler: its identifiers and configuration values, the tables that it keeps
-- in PostgreSQL, the operations that enqueue, claim, report on, recover, cancel, delete and read
-- tasks and that keep schedules, and the worker that runs the tasks.
--
-- The program is a library over three tables. `enqueue` (src/queue.rs) inserts a pending run. A
-- worker claims a batch of them (src/store/claim.rs): each becomes running under a fresh lease token,
-- and an attempt is recorded. The worker extends its lease and reports the end (src/store/finalize.rs),
-- each time under the token; a lease that has run out is given up by src/store/reap.rs, and a task is
-- cancelled or deleted by src/queue.rs. A schedule, which src/jobs.rs keeps, becomes a pending run by
-- src/store/materialize.rs when it is due. src/store/inspect.rs reads a run and its attempts.
-- src/runtime is the worker: `run_until_shutdown` materializes, recovers and claims by turns, spawns a
-- `dispatch` for each claimed task that calls its handler, renews its lease and reports its result, and
-- drains on shutdown. src/admin.rs has HTTP routes over schedules and tasks.
--
-- Files:
--   Prelude and its children: tests on numbers and texts, tables as lists with the counting of rows,
--     sorting, and Rust's `Result`.
--   Ids, Ids/Policy: src/ids.rs (`validate_identifier` and the `TryFrom`s), and the CHECK on names.
--   Error: src/error.rs.
--   Models/Limits, Models/Limits/RoundTrips: `MaxAttempts`, `LeaseDuration` and `RetryBackoff` of
--     src/models.rs. Models/Runs: its states, outcomes and read models. Models/Jobs: `JobLifecycle`
--     and `Job`.
--   Cron: src/cron.rs, with the croner crate as the parameter `Croner`.
--   Db: migrations/0001_create_scheduler_tables/up.sql and src/schema.rs. `admits` is the conjunction
--     of all constraints. Db/Monad: statements, queries and transactions. Db/Updates: what an UPDATE
--     does to the constraints. Db/Frames: what a sequence of statements leaves alone.
--   Store/Finalize: `finalize_run`, `fail_run` and `renew_lease`; its children take one of them each,
--     Fencing and Stale what a token is worth once its lease has ended.
--   Store/Claim: `claim_batch` and `claim_one`; Candidates, Leases and Agreement carry Batch, and
--     Priority is about the order. Store/Reap, Store/Reap/Recovery: `recover_expired`, `reap_expired`.
--   Store/Inspect, Store/Inspect/Reading: `run_state` and `task_attempts`. Store/Inspect/Reported:
--     `run_state` after `finalize_run`.
--   Store/Materialize: `materialize_one` and `materialize_due_jobs`; its children Tick, Agreement and
--     Rounds take one tick and the loop.
--   Queue: `EnqueueOptions`, `enqueue`, `cancel` and `prune_terminal`; Enqueueing, Options,
--     Cancellation and Retention take one each; Cancelled is about what a cancellation changes,
--     Retention/Pruned about the tables after a retention.
--   Consistency and its children: the invariant between the tables, and updates that end leases.
--   Jobs: src/jobs.rs (`create`, `ensure_job`, `reschedule`, `get`, `list`, `pause`, `resume`,
--     `delete`). Writes is about the first two, Moves about the next and the last ones, Readback about
--     `ensure_job` and `get`; Frames and Keeping are about what they all leave alone.
--   Metrics: src/metrics.rs. Admin, Admin/Statuses: src/admin.rs.
--   Runtime/Registry: src/runtime/registry.rs and context.rs. Runtime/Builder, Runtime/Configured:
--     src/runtime/builder.rs. Runtime/Health: src/runtime/health.rs and `update_health`.
--   Runtime/Dispatch: `dispatch`, `heartbeat_interval` and `finalize_handler` of
--     src/runtime/worker.rs; Reports is about the report, Fenced about heartbeats and a lost lease,
--     Steps about what a task may do to the tables.
--   Runtime/Worker: the rest of src/runtime/worker.rs; Permits, Claims, Drops and Shutdown take the
--     semaphore, the claim and the end, Steps and Histories what a worker may do to the tables.
--   History: the operations as steps of one database; Reachable, Terminal, Schedules and Cursors are
--     about them and their sequences. Tests and its children: concrete tables and runs.
--
-- How the code is read: an operation is a function from the database to a database and a result.
-- An SQL text is a function on the tables with one definition per WHERE, SET and ORDER BY clause; the
-- CTEs of one statement read the tables as they were before it, as in PostgreSQL. `?` is the bind of
-- the monad, and `conn.transaction` undoes everything on an error. `now()`, `clock_timestamp()`,
-- `gen_random_uuid()` and the rows that `SKIP LOCKED` leaves out are the `Env` of a statement: each
-- evaluation of the clock has its own number, so no two need be the same instant. Operations are
-- atomic, and concurrency is their interleaving.
-- A future is what it yields, and the moments at which futures are ready are events: a spawned task and
-- a worker are states that events move on, one call of the store at most in each, so the events of the
-- tasks of a worker, its own and the operations of others interleave in any order. The ticks of one
-- call of `materialize_due_jobs` follow each other within one event. An event that a state does not
-- wait for changes nothing. A `select!` takes any arm that is ready. What the pool answers,
-- what the server gives and the host's clock come with the event. After `abort_all` a task is dropped
-- at an event of its own, when it comes to an `.await`; one whose handler blocks has no such event
-- until it goes on, and the worker waits for it.
--
-- Numbers: UUIDs and timestamps are natural numbers, a timestamp in microseconds; a count that a
-- CHECK or a type keeps from being negative is a natural number, with the bound of its `i32` or `i64`
-- written out where the code tests it. Overflow of timestamps and of `attempt_count`, which its CHECK
-- keeps under `max_attempts`, is not modelled. A JSON value is its text. A text is the list of its
-- characters. The model has no fuel: every function is by recursion on a list, or on
-- the rounds that are left of the 100 that `materialize_due_jobs` does at most.
--
-- Not modelled: the timers of the worker (an event stands for a tick, and nothing is said of when it
-- comes), its logs, the routing and the JSON of src/admin.rs, and the crates behind metrics and the pool
-- (src/pool.rs, whose answers are arguments). Errors of the connection itself are not modelled; an error
-- of the database is a refused constraint.
mod Prelude
pub mod Ids
pub mod Models
pub mod Error
pub mod Cron
pub mod Db
pub mod Store
pub mod Queue
pub mod Consistency
pub mod Jobs
pub mod Metrics
pub mod Admin
pub mod Runtime
pub mod History
mod Tests
