-- ===== src/Ledger.antt =====
-- The work ledger: the rows of backend/src/marketmind/models.py and runtime_models.py that the
-- executor, the scheduler, the page worker and the sessions share, as one value.
-- A UUID is a number, a time is a number of microseconds. A JSON column is a record of the keys
-- that the code reads or writes; a key that may be missing is an `Option`.
mod Status
mod Rows
pub use Status.*
pub use Rows.*
use market_mind.Prelude.{List}

-- One PostgreSQL database, as one transaction sees it under its locks.
pub record Ledger : Type 0 where
  pub sources : List Source
  pub collectors : List Collector
  pub runs : List CrawlRun
  pub tasks : List CrawlTask
  pub runtimes : List SourceRuntime
  pub commands : List ControlCommand
  pub audits : List AuditEvent
