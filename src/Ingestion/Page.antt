-- ===== src/Ingestion/Page.antt =====
-- The page as a whole: the checks of the lease, the articles, and how the task and the run go on.
-- `persist_page` of backend/src/marketmind/ingestion.py.
use market_mind.Prelude.{
  ℕ, ◌+◌, ◌==◌, Bool, true, false, not, ◌&&◌, ◌||◌, Option, none, some, [], ◌∷◌, ◌++◌, map,
  if◌then◌else◌, get_or, holds, after, leb, find, modify,
}
use market_mind.Ledger.{
  RunStatus, RunType, TaskStatus, CoverageGap, is_running, Counts, Ledger, CrawlRun, CrawlTask,
  SourceRuntime, collector_identity, run_identity, task_identity, runtime_identity,
}
use market_mind.Runtime.{Uuid4, modify_run, modify_task}
use market_mind.Worker.{is_runtime_running, is_task_running}
use market_mind.Ingestion.News.{PageResult, NewsStore}
use market_mind.Ingestion.Articles.{Hasher, truthy, same_text, ingest_articles}
use Prim.Native.String.{String}

-- The generations that the page was fetched under; `collect` and the tests may leave them out.
pub record Lease : Type 0 where
  pub task_id : ℕ
  pub task_generation : ℕ
  pub source_generation : Option ℕ
  pub run_generation : Option ℕ

abbrev pub source_is_current : ℕ → Option ℕ → Option SourceRuntime → Bool
source_is_current now none rt = true
source_is_current now (some g) none = false
source_is_current now (some g) (some rt) =
    rt.generation == g && is_runtime_running rt.status && after rt.lease_expires_at now

abbrev pub run_is_current : Option ℕ → CrawlRun → Bool
run_is_current none r = is_running r.status
run_is_current (some g) r = is_running r.status && holds r.checkpoint.generation g

abbrev pub task_is_current : ℕ → ℕ → CrawlTask → Bool
task_is_current now g t =
    is_task_running t.status && t.generation == g && after t.lease_expires_at now

-- The task and the run of a lease that is still valid.
unfoldable pub validate : ℕ → Lease → Ledger → Option (CrawlTask × CrawlRun)
validate now l db = elim (find l.task_id db.tasks) [
  | none ↦ none
  | some t ↦ elim (find t.run_id db.runs) [
    | none ↦ none
    | some r ↦
        if source_is_current now l.source_generation (find t.source_id db.runtimes)
          && run_is_current l.run_generation r
          && task_is_current now l.task_generation t
        then some (t, r)
        else none
  ]
]

abbrev pub finish_task : ℕ → CrawlTask → CrawlTask
finish_task now t = record t {
  status = TaskStatus.succeeded;
  completed_at = some now;
  lease_owner = none;
  lease_expires_at = none;
  error_code = none;
  retry_at = none;
}

abbrev pub add_counts : Counts → Counts → Counts
add_counts a b = record {
  created = a.created + b.created;
  revised = a.revised + b.revised;
  duplicate = a.duplicate + b.duplicate;
  access_limited = a.access_limited + b.access_limited;
}

-- How the run goes on after a page: the four ways to end, the batch budget, or the next page.
pub data Continuation : Type 0 where
  adapter_gap : String → Continuation
  stuck : Continuation
  page_budget : Continuation
  done : Continuation
  batch_budget : Continuation
  next_page : Continuation

abbrev pub is_realtime : RunType → Bool
is_realtime RunType.realtime = true
is_realtime RunType.backfill = false

-- the cursor is missing or does not move
abbrev pub is_stuck : PageResult → CrawlTask → Bool
is_stuck page t =
    not (truthy page.next_cursor) || same_text page.next_cursor t.request_params.cursor

unfoldable pub continuation : PageResult → CrawlTask → CrawlRun → ℕ → Continuation
continuation page t r number = elim page.coverage_gap [
  | some gap ↦ adapter_gap gap
  | none ↦
      if page.exhausted
      then done
      else if is_stuck page t
      then stuck
      else if is_realtime r.run_type
      then if leb (get_or r.config_snapshot.max_pages 1) number then page_budget else next_page
      else if leb (get_or r.config_snapshot.max_pages 100 + get_or r.checkpoint.batch_start_page 0)
          number
      then batch_budget
      else next_page
]

-- the run with the page counted and its cursor advanced
abbrev pub advance : ℕ → PageResult → ℕ → Counts → CrawlRun → CrawlRun
advance now page number counts r = record r {
  checkpoint = record (r.checkpoint) { cursor = page.next_cursor; page = some number };
  statistics = add_counts r.statistics counts;
  heartbeat_at = some now;
}

abbrev pub add_gap : CoverageGap → CrawlRun → CrawlRun
add_gap gap r = record r { coverage_gaps = r.coverage_gaps ++ (gap ∷ []) }

abbrev pub finish_run : ℕ → RunStatus → CrawlRun → CrawlRun
finish_run now status r = record r { status = status; finished_at = some now }

unfoldable pub continue_run : ℕ → PageResult → ℕ → Continuation → CrawlRun → CrawlRun
continue_run now page number (adapter_gap gap) r =
    finish_run now RunStatus.partial_failed (add_gap (CoverageGap.adapter_gap gap number) r)
continue_run now page number stuck r =
    finish_run now RunStatus.partial_failed (add_gap (CoverageGap.pagination_unavailable number) r)
continue_run now page number page_budget r =
    finish_run now RunStatus.succeeded (add_gap (CoverageGap.page_limit page.next_cursor) r)
continue_run now page number done r = finish_run now RunStatus.succeeded r
continue_run now page number batch_budget r =
    add_gap (CoverageGap.batch_page_limit number page.next_cursor)
      (record r { status = RunStatus.paused })
continue_run now page number next_page r = r

abbrev pub next_task : ℕ → ℕ → PageResult → ℕ → CrawlTask → CrawlTask
next_task now k page number t = record {
  task_id = k;
  run_id = t.run_id;
  source_id = t.source_id;
  collector_id = t.collector_id;
  business_key = number;
  url = if truthy page.next_url then get_or page.next_url t.url else t.url;
  request_params = record { cursor = page.next_cursor; page = some number; retry_base = none };
  status = TaskStatus.pending;
  attempt = 0;
  generation = 0;
  lease_owner = none;
  lease_expires_at = none;
  retry_at = none;
  error_code = none;
  attempt_history = [];
  created_at = now;
  completed_at = none;
}

-- whether the next page becomes a task, and whether the collector has a success to record
abbrev pub goes_on : Continuation → Bool
goes_on batch_budget = true
goes_on next_page = true
goes_on _ = false

abbrev pub is_success : Continuation → Bool
is_success page_budget = true
is_success done = true
is_success _ = false

abbrev pub add_next_task : Uuid4 → ℕ → PageResult → ℕ → CrawlTask → Ledger → Ledger
add_next_task uuid now page number t db = record db {
  tasks =
      db.tasks ++ (next_task now (uuid.draw (map (λ x. x.task_id) db.tasks)) page number t ∷ []);
}

abbrev pub note_success : ℕ → ℕ → Ledger → Ledger
note_success now k db = record db {
  collectors = modify k (λ c. record c { last_success_at = some now }) db.collectors;
}

-- the number of the page that follows
abbrev pub page_number : CrawlTask → ℕ
page_number t = get_or t.request_params.page 0 + 1

-- the ledger after a page with these counts, when its run goes on like this
unfoldable pub settle_page :
    Continuation → Uuid4 → ℕ → PageResult → Counts → CrawlTask → CrawlRun → Ledger → Ledger
unfolding continue_run
settle_page how uuid now page counts t r db =
    let number = page_number t in
    let db1 =
      modify_run r.run_id
        (λ row. continue_run now page number how (advance now page number counts row))
        (modify_task t.task_id (finish_task now) db) in
    let db2 = if is_success how then note_success now t.collector_id db1 else db1 in
    if goes_on how then add_next_task uuid now page number t db2 else db2

unfoldable pub complete_page :
    Uuid4 → ℕ → PageResult → Counts → CrawlTask → CrawlRun → Ledger → Ledger
unfolding continuation settle_page
complete_page uuid now page counts t r db =
    settle_page (continuation page t r (page_number t)) uuid now page counts t r db

abbrev pub no_counts : Counts
no_counts = record { created = 0; revised = 0; duplicate = 0; access_limited = 0 }

-- the raw document of the page, which the transaction adds last
abbrev pub add_document : CrawlTask → PageResult → NewsStore → NewsStore
add_document t page news = record news {
  documents =
      news.documents
      ++ (record {
        task_id = t.task_id;
        url = t.url;
        response_status = page.response_status;
        content_type = page.content_type;
        content_text = page.raw_text;
        parser_version = page.parser_version;
        fetched_at = page.fetched_at;
      }
          ∷ []);
}

-- `none` where the code raises, which rolls the transaction back.
unfoldable pub persist_page :
    Uuid4
    → Hasher
    → ℕ
    → Lease
    → PageResult
    → Ledger × NewsStore
    → Option (Counts × Ledger × NewsStore)
persist_page uuid hasher now l page (db, news) = elim (validate now l db) [
  | none ↦ none
  | some (t, r) ↦
      elim (ingest_articles uuid hasher t page.fetched_at page.articles (no_counts, news)) [
        | none ↦ none
        | some (counts, news') ↦
            some (counts, complete_page uuid now page counts t r db, add_document t page news')
      ]
]
