-- ===== src/Runtime.antt =====
-- The executor of a source, backend/src/marketmind/runtime.py: one supervised worker process per
-- source, with the ledger as the authority. Each function is the body of one transaction; the
-- clock is read once for each, as the argument `now`.
pub mod Results
pub mod Recovery
pub mod Commands
pub mod Processing
pub mod Claim
pub mod Supervision
pub mod Outcomes
pub mod Lanes
pub mod Restarts
pub mod Exits
unfoldable pub use Results.*
unfoldable pub use Recovery.*
unfoldable pub use Commands.*
unfoldable pub use Processing.*
unfoldable pub use Claim.*
unfoldable pub use Supervision.*
pub use Outcomes.*
