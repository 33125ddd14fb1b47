-- ===== src/Ingestion.antt =====
-- The short transaction in which a fetched page enters the database, `persist_page` of
-- backend/src/marketmind/ingestion.py.
pub mod News
pub mod Articles
pub mod Page
pub mod Pipeline
pub mod Outcomes
pub mod Counting
pub mod Progress
pub mod Bodies
unfoldable pub use News.*
unfoldable pub use Articles.*
unfoldable pub use Page.*
unfoldable pub use Pipeline.*
pub use Outcomes.*
