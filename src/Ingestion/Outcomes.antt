-- ===== src/Ingestion/Outcomes.antt =====
-- What a page that is accepted has passed and done, of backend/src/marketmind/ingestion.py.
use market_mind.Prelude.{ℕ, ◌≡◌, true, some, inl, inr, arith, Option-cases, find}
use market_mind.Ledger.{
  Counts, Ledger, CrawlRun, CrawlTask, run_identity, task_identity, runtime_identity,
}
use market_mind.Runtime.{Uuid4}
use market_mind.Ingestion.News.{PageResult, NewsStore}
use market_mind.Ingestion.Articles.{Hasher, ingest_articles}
use market_mind.Ingestion.Page.{
  Lease, source_is_current, run_is_current, task_is_current, validate, no_counts, add_document,
  complete_page, persist_page,
}

-- The page was fetched under a lease that is still valid, all its articles went in, and the ledger
-- goes on from there.
pub record IsAccepted (uuid : Uuid4) (hasher : Hasher) (now : ℕ) (l : Lease) (page : PageResult)
    (db : Ledger) (news : NewsStore) (counts : Counts) (db' : Ledger) (news' : NewsStore)
    : Type 0 where
  pub task : CrawlTask
  pub run : CrawlRun
  pub valid : validate now l db ≡ some (task, run)
  pub stored : NewsStore
  pub ingested :
      ingest_articles uuid hasher task page.fetched_at page.articles (no_counts, news)
      ≡ some (counts, stored)
  pub completed : db' ≡ complete_page uuid now page counts task run db
  pub documented : news' ≡ add_document task page stored

pub persist_page-IsAccepted :
    (uuid : Uuid4) (hasher : Hasher) (now : ℕ) (l : Lease) (page : PageResult) (db : Ledger)
    (news : NewsStore) (counts : Counts) (db' : Ledger) (news' : NewsStore)
    → persist_page uuid hasher now l page (db, news) ≡ some (counts, db', news')
    → IsAccepted uuid hasher now l page db news counts db' news'
unfolding persist_page
persist_page-IsAccepted uuid hasher now l page db news counts db' news' e =
    elim (Option-cases (validate now l db)) [
      | inl bad ↦ absurd (ground arith)
      | inr ((t, r), good) ↦
          elim (Option-cases
            (ingest_articles uuid hasher t page.fetched_at page.articles (no_counts, news))) [
              | inl bad ↦ absurd (ground arith)
              | inr ((c, stored), all) ↦ record {
                task = t;
                run = r;
                valid = good;
                stored = stored;
                ingested = ground arith;
                completed = ground arith;
                documented = ground arith;
              }
            ]
    ]

-- What `validate` has tested.
pub validate-ok :
    (now : ℕ) (l : Lease) (db : Ledger) (t : CrawlTask) (r : CrawlRun)
    → validate now l db ≡ some (t, r)
    → (find l.task_id db.tasks ≡ some t)
      × (find t.run_id db.runs ≡ some r)
      × (source_is_current now l.source_generation (find t.source_id db.runtimes) ≡ true)
      × (run_is_current l.run_generation r ≡ true)
      × (task_is_current now l.task_generation t ≡ true)
unfolding validate
validate-ok now l db t r e = ground arith
