-- ===== src/Alerts.antt =====
-- Alerts and the notifications about them: backend/src/marketmind/alerts.py, alert_models.py and
-- notification_worker.py.
pub mod Rows
pub mod Kinds
pub mod Reports
pub mod Deliveries
pub mod Outage
pub mod Settings
pub mod Outbox
pub mod Incidents
pub mod Leases
pub mod Openings
pub mod Episodes
pub mod Repeats
pub use Rows.*
unfoldable pub use Kinds.*
unfoldable pub use Reports.*
unfoldable pub use Deliveries.*
unfoldable pub use Outage.*
unfoldable pub use Settings.*
