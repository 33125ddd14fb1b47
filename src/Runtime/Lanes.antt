-- ===== src/Runtime/Lanes.antt =====
-- The unique index `uq_crawl_runs_active` of backend/src/marketmind/models.py, as an invariant:
-- the code of backend/src/marketmind/runtime.py never makes two active runs of one lane.
pub mod Basic
pub mod Creation
pub mod Actions
pub mod Commands
pub mod Queue
pub use Basic.*
pub use Creation.*
pub use Actions.*
pub use Commands.*
pub use Queue.*
