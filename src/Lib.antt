-- ===== src/Lib.antt =====
-- A model of the core of the MarketMind backend, with the theorems that make it correct.
--
-- The program. The scheduler (backend/src/marketmind/scheduler.py) makes the runs that are due, one
-- transaction for each source. Each news source has one executor
-- (backend/src/marketmind/runtime.py), which works off the administrator's commands, claims the
-- next page of work, starts a worker process for it and supervises the worker. The worker
-- (backend/src/marketmind/scrapy_worker.py) takes the task, keeps its lease alive, fetches the page
-- and hands it to ingestion (backend/src/marketmind/ingestion.py), or reports the failure. All of them meet in one
-- PostgreSQL database, the ledger, where each acts in short transactions. A worker may outlive its
-- lease, so that every run and every source has a generation, and each transaction of a worker
-- first compares the generations that it was started with.
--
-- A source that needs a login has a session. The administrator asks for a login or revokes the
-- session (backend/src/marketmind/sessions.py), and the session worker
-- (backend/src/marketmind/session_worker.py) drives the browser; the session's generation fences
-- its jobs, and a session that ends pauses the runs of its source. Incidents become alerts
-- (backend/src/marketmind/alerts.py), each with a delivery that the notification worker
-- (backend/src/marketmind/notification_worker.py) sends. Readers follow the news by the change feed
-- (backend/src/marketmind/changes.py) and page through lists by cursors (pagination.py).
--
-- The model. A transaction is a function from the ledger to the ledger, with the time as an
-- argument: the row locks of the code let the transactions of one source run one after the other.
-- Where the code raises, a function returns `err` with the reason (a command), `raised` with the
-- code of the error (Replies, an administrator's handler), `none` (a page), or the ledger unchanged
-- (a worker's request), as the rollback leaves it.
--   Ledger: the rows of backend/src/marketmind/models.py and runtime_models.py.
--   Runtime: runtime.py. Recovery has runtime_row, create_run, fence_tasks and resume_run; Commands
--   and Processing have apply_command and commands; Claim has claim_batch; Supervision has a round
--   of supervise, record_exit, restart_budget and the takeover of execute_source.
--   Runtime/Lanes: the unique index on the active runs.
--   Runtime/Restarts: the budget of restarts. Runtime/Exits: the exit of a worker.
--   Worker: scrapy_worker.py, the transactions of download, heartbeat and failed.
--   Ingestion: ingestion.py, persist_page, with collection_types.py, and in Pipeline the worker's
--   call of it, process_item of scrapy_worker.py.
--   Scheduler: scheduler.py, schedule_once; the random spread of the intervals is a parameter.
--   Sessions: sessions.py, session_worker.py and session_models.py of backend/src/marketmind, the
--   login of a source by a QR code. Attempts and Handlers have the administrator's part, Publish
--   and Boot the worker's, Pause the effect on the source's runs, and Steps all of them as steps of
--   one relation. The bytes of the cipher and what the browsers found are arguments.
--   Alerts: alerts.py, alert_models.py and notification_worker.py of backend/src/marketmind. Reports
--   has persist_alert, Settings the administrator's handlers, Deliveries the outbox and Outage the
--   file that stands in for it while the database is gone. SHA-256 in hexadecimal, the cipher, the
--   environment and the outcome of a request are arguments.
--   Changes: changes.py, a page of the change feed. Order follows what it takes from each source,
--   Pages the page as a whole, Fairness the end of its loop.
--   Pagination: pagination.py, over parameters for base64, JSON, times and identifiers.
--   Generations: the transactions of scheduler.py, runtime.py, scrapy_worker.py and ingestion.py as
--   steps of one relation, in any order, with the pause and the release of runs by a login, and with
--   the extent of what is asked by hand: the API (controls.py) adds runs and commands and sets
--   sources and collectors, and the command-line tool (collect.py) adds or resumes a run.
--   Examples: a ledger at which the theorems are applied.
--
-- Numbers are natural numbers without a bound, as Python's are; identifiers are numbers, and times
-- are microseconds. `uuid4` is a parameter that returns an unused number, and the digest of an
-- article is a parameter. The loop of the change feed takes fuel: a round for each source and each
-- item of the page, and one more for each source, which is enough. All other loops are over lists.
--
-- Not modelled: the advisory lock and the child process of the executor, the fetching of pages, the
-- constraints of the database except the index on active runs, the steps in the login's browser,
-- the HTTP request of a notification, and the other parts of the backend: proxies, adapters, market
-- data, the API and the user interface.
pub mod Prelude
pub mod Ledger
pub mod Runtime
pub mod Worker
pub mod Generations
pub mod Ingestion
pub mod Scheduler
pub mod Replies
pub mod Sessions
pub mod Alerts
pub mod Changes
pub mod Pagination
pub mod Examples
