-- ===== src/Runtime.antt =====
-- src/runtime: the registry of handlers, the builder, the dispatch of claimed tasks, and the worker.
-- Futures are what they yield, and the moments at which they are ready are the events of a worker.
pub mod Registry
pub mod Health
pub mod Builder
pub mod Configured
pub mod Dispatch
pub mod Worker
