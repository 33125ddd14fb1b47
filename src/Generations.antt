-- ===== src/Generations.antt =====
-- The fencing of workers: the generation of a run only ever grows, and a worker that was started
-- at a generation which has passed can change nothing any more.
pub mod Growth
pub mod Actions
pub mod Commands
pub mod Executor
pub mod Worker
pub mod Scheduling
pub mod Sessions
pub mod Steps
pub mod Stale
