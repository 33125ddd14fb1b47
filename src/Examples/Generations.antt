-- ===== src/Examples/Generations.antt =====
-- The fencing of workers, a failure and a page, at the example's ledger after a claim.
use market_mind.Prelude.{
  ◌<◌, ◌≡◌, refl, some, none, arith, find, get_or, holds, true, order_by, length, ◌+◌,
}
use market_mind.Ledger.{
  SourceErrorCode, TaskStatus, Ledger, Counts, CrawlTask, run_identity, task_identity,
}
use market_mind.Runtime.{claim_batch, commands, pick, runtime_row}
use market_mind.Worker.{Spider, Request, AlertKind, download, failed}
use market_mind.Worker.Reports.{IsReported, failed-IsReported}
use market_mind.Ingestion.{
  Lease, NewsStore, persist_page, validate, ingest_articles, ingest_article, no_counts,
}
use market_mind.Ingestion.Counting.{counted, persist_page-Accounts}
use market_mind.Ingestion.Bodies.{KeepsBody, persist_page-KeepsBody}
use market_mind.Sessions.{pause_source_runs, release_source_runs}
use market_mind.Generations.Growth.{generation}
use market_mind.Generations.Actions.{Later}
use market_mind.Generations.Steps.{Reach, here, next, run_queue, pause, release, Reach-Later}
use market_mind.Generations.Stale.{IsRefused, overtaken-IsRefused, stale-persist_page}
use market_mind.Examples.Data.{
  sum_uuid, importance_hasher, total, ledger, executor, old_spider, article, known_item, known_news,
  summary_page, first_task, page, no_news,
}
use market_mind.Examples.Runtime.{batch, claimed, claimed_ledger, ledger_unique}

-- after the claim the commands are run, and a login pauses the runs of the source and releases them
abbrev commanded_ledger : Ledger
commanded_ledger =
    release_source_runs 1 (pause_source_runs 1 (commands sum_uuid 2100 1 claimed_ledger).0)

steps : Reach sum_uuid importance_hasher claimed_ledger commanded_ledger
steps = next (next (next here (run_queue 2100 1)) (pause 1)) (release 1)

Reach-Later_example : Later claimed_ledger commanded_ledger
Reach-Later_example = Reach-Later sum_uuid importance_hasher steps

overtaken-IsRefused_example : IsRefused old_spider commanded_ledger
overtaken-IsRefused_example =
    overtaken-IsRefused sum_uuid importance_hasher 2000 1 executor none ledger claimed_ledger
      commanded_ledger batch old_spider ledger_unique claimed steps refl (omega arith)

abbrev old_lease : Lease
old_lease = record {
  task_id = 500;
  task_generation = 0;
  source_generation = none;
  run_generation = some 0;
}

abbrev queued_task : CrawlTask
queued_task = record first_task { status = TaskStatus.queued }

claimed_task : find 500 claimed_ledger.tasks ≡ some queued_task
unfolding claim_batch pick order_by total
claimed_task = refl

overtaken : 0 < generation 100 claimed_ledger.runs
unfolding claim_batch pick order_by total
overtaken = omega arith

stale-persist_page_example :
    persist_page sum_uuid importance_hasher 2200 old_lease page (claimed_ledger, no_news) ≡ none
stale-persist_page_example =
    stale-persist_page sum_uuid importance_hasher 2200 old_lease page claimed_ledger no_news 0
      queued_task refl claimed_task overtaken

-- the worker of the claim, which takes the task
abbrev spider : Spider
spider = record { run_id = 100; source_id = 1; source_generation = 1; run_generation = 1 }

abbrev request : Request
request = record { task_id = 500; source_generation = 1; run_generation = 1 }

abbrev downloading_ledger : Ledger
downloading_ledger = (download 2100 spider request claimed_ledger).1

abbrev failed_ledger : Ledger
failed_ledger =
    (failed 2200 spider 500 (some 1) SourceErrorCode.transport_error downloading_ledger).1

report :
    failed 2200 spider 500 (some 1) SourceErrorCode.transport_error downloading_ledger
    ≡ (some AlertKind.collection_failed, failed_ledger)
unfolding claim_batch pick order_by total download failed
report = refl

failed-IsReported_example :
    (t : CrawlTask) × (find 500 (runtime_row 1 downloading_ledger).1.tasks ≡ some t)
    × (holds (some 1) t.generation ≡ true)
    × IsReported 2200 SourceErrorCode.transport_error t spider failed_ledger
failed-IsReported_example =
    failed-IsReported 2200 spider 500 (some 1) SourceErrorCode.transport_error downloading_ledger
      failed_ledger AlertKind.collection_failed report

abbrev lease : Lease
lease = record {
  task_id = 500;
  task_generation = 1;
  source_generation = some 1;
  run_generation = some 1;
}

abbrev stored : Counts × Ledger × NewsStore
stored =
    get_or (persist_page sum_uuid importance_hasher 2200 lease page (downloading_ledger, no_news))
      (no_counts, ledger, no_news)

-- the first article is created, and the same again is a duplicate
abbrev page_counts : Counts
page_counts = record { created = 1; revised = 0; duplicate = 1; access_limited = 0 }

persisted :
    persist_page sum_uuid importance_hasher 2200 lease page (downloading_ledger, no_news)
    ≡ some (page_counts, stored.1, stored.2)
unfolding claim_batch pick order_by total download persist_page validate ingest_articles
    ingest_article
persisted = refl

persist_page-Accounts_example :
    (counted page_counts ≡ length page.articles)
    × (length stored.2.revisions
        ≡ length no_news.revisions + (page_counts.created + page_counts.revised))
    × (length stored.2.changes
        ≡ length no_news.changes + (page_counts.created + page_counts.revised))
    × (length stored.2.items ≡ length no_news.items + page_counts.created)
    × (length stored.2.documents ≡ length no_news.documents + 1)
persist_page-Accounts_example =
    persist_page-Accounts sum_uuid importance_hasher 2200 lease page downloading_ledger no_news
      page_counts stored.1 stored.2 persisted

abbrev restored : Counts × Ledger × NewsStore
restored =
    get_or
      (persist_page sum_uuid importance_hasher 2200 lease summary_page
        (downloading_ledger, known_news))
      (no_counts, ledger, no_news)

abbrev summary_counts : Counts
summary_counts = record { created = 0; revised = 0; duplicate = 0; access_limited = 1 }

summarised :
    persist_page sum_uuid importance_hasher 2200 lease summary_page (downloading_ledger, known_news)
    ≡ some (summary_counts, restored.1, restored.2)
unfolding claim_batch pick order_by total download persist_page validate ingest_articles
    ingest_article
summarised = refl

known_news-KeepsBody : KeepsBody 9 known_news
known_news-KeepsBody = record {
  unique_ids = λ j. ground arith;
  body = record {
    item = known_item;
    revision = record {
      revision_id = 8;
      news_id = 9;
      content = article;
      content_hash = 3;
      observed_at = 1000;
    };
    found = refl;
    current = refl;
    complete = refl;
  };
}

persist_page-KeepsBody_example : KeepsBody 9 restored.2
persist_page-KeepsBody_example =
    persist_page-KeepsBody sum_uuid importance_hasher 2200 lease summary_page downloading_ledger
      known_news summary_counts restored.1 restored.2 9 summarised known_news-KeepsBody
