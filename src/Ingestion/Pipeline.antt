-- ===== src/Ingestion/Pipeline.antt =====
-- The worker's hand-over of a fetched page: `LedgerPipeline.process_item` of
-- backend/src/marketmind/scrapy_worker.py, up to the alerts that it resolves.
use market_mind.Prelude.{ℕ, Option, some}
use market_mind.Ledger.{Counts, Ledger}
use market_mind.Runtime.{Uuid4}
use market_mind.Worker.{Spider}
use market_mind.Ingestion.News.{PageResult, NewsStore}
use market_mind.Ingestion.Articles.{Hasher}
use market_mind.Ingestion.Page.{Lease, persist_page}

-- the generations of the worker and of its task
abbrev pub lease_of : Spider → ℕ → ℕ → Lease
lease_of s task generation = record {
  task_id = task;
  task_generation = generation;
  source_generation = some s.source_generation;
  run_generation = some s.run_generation;
}

unfoldable pub process_item :
    Uuid4
    → Hasher
    → ℕ
    → Spider
    → ℕ
    → ℕ
    → PageResult
    → Ledger × NewsStore
    → Option (Counts × Ledger × NewsStore)
process_item uuid hasher now s task generation page state =
    persist_page uuid hasher now (lease_of s task generation) page state
