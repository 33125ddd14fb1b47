-- ===== src/Worker.antt =====
-- The page worker, backend/src/marketmind/scrapy_worker.py: the transactions in which it takes a
-- task, keeps its lease alive and reports a failure. Each first checks that the generations it was
-- started with are still the ledger's.
pub mod Lease
pub mod Failure
pub mod Reports
unfoldable pub use Lease.*
unfoldable pub use Failure.*
