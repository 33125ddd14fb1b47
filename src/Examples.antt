-- ===== src/Examples.antt =====
-- The theorems at concrete ledgers, and runs of the model's operations.
mod Data
mod Runtime
mod Generations
mod Scheduler
mod Sessions
mod Alerts
mod Changes
mod Pagination
