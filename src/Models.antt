-- ===== src/Models.antt =====
-- src/models.rs: the configuration values, the stored states and the read models.
pub mod Limits
pub mod Runs
pub mod Jobs
