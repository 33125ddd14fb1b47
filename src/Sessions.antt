-- ===== src/Sessions.antt =====
-- Login sessions of a source: the administrator's handlers, backend/src/marketmind/sessions.py, and
-- the browser worker, backend/src/marketmind/session_worker.py. Each function is one transaction.
pub mod Rows
pub mod Pause
pub mod Attempts
pub mod Handlers
pub mod Publish
pub mod Boot
pub mod Advance
pub mod Expiry
pub mod Jobs
pub mod Keeping
pub mod Commits
pub mod Answers
pub mod Loading
pub mod Handling
pub mod Steps
pub mod Workers
pub mod Overtaken
pub use Rows.*
unfoldable pub use Pause.*
unfoldable pub use Attempts.*
unfoldable pub use Handlers.*
unfoldable pub use Publish.*
unfoldable pub use Boot.*
