-- ===== src/Store.antt =====
-- src/store: the operations on runs and their attempts.
pub mod Claim
pub mod Finalize
pub mod Reap
pub mod Inspect
pub mod Materialize
