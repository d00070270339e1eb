-- ===== src/Tests.antt =====
-- Runs of the model at concrete inputs.
mod Data
mod Done
mod Operations
mod Schedules
mod Histories
mod Order
mod Values
mod Reconciled
mod Workers
