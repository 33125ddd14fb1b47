-- ===== src/Examples/Data.antt =====
-- A source with two runs, an executor, a worker and a page, for the examples.
use market_mind.Prelude.{
  ℕ, suc, ◌+◌, ◌==◌, ◌≡◌, ◌<◌, refl, true, false, none, some, List, [], ◌∷◌, arith, any, get_or,
}
use market_mind.Ledger.{
  RunStatus, RunType, TriggerType, TaskStatus, CommandStatus, Action, SourceConfig, Source,
  Collector, CrawlRun, CrawlTask, ControlCommand, Ledger,
}
use market_mind.Runtime.{Uuid4, Executor, NewRun, build_run, new_runtime}
use market_mind.Worker.{Spider}
use market_mind.Ingestion.{NewsItem, Hasher, Article, BodyStatus, PageResult, NewsStore}

unfoldable pub total : List ℕ → ℕ
total [] = 0
total (k ∷ ks) = k + total ks

pub total-fresh : (ks : List ℕ) (n : ℕ) → total ks < n → any (λ k. k == n) ks ≡ false
unfolding total
total-fresh [] n h = refl
total-fresh (k ∷ ks) n h = ground (arith, total-fresh ks n)

abbrev pub sum_uuid : Uuid4
sum_uuid = record {
  draw = λ used. suc (total used);
  draw_fresh = λ used. total-fresh used (suc (total used)) (omega arith);
}

abbrev pub importance_hasher : Hasher
importance_hasher = record { digest = λ a. get_or a.importance 0 }

abbrev pub plain_config : SourceConfig
plain_config = record {
  request_interval_seconds = none;
  proxy_ids = [];
  failover_enabled = false;
  pause_on_exhausted = false;
}

abbrev pub cls : Source
cls = record {
  source_id = 1;
  code = "cls";
  enabled = true;
  permission_config = plain_config;
  config_version = 1;
}

abbrev pub telegraph : Collector
telegraph = record {
  collector_id = 10;
  source_id = 1;
  code = "cls_telegraph";
  entry_url = "https://www.cls.cn/telegraph";
  enabled = true;
  interval_seconds = 60;
  max_pages = some 5;
  last_success_at = none;
  next_run_at = none;
}

abbrev pub new_spec : RunType → NewRun
new_spec t = record {
  run_type = t;
  trigger_type = TriggerType.scheduled;
  start = none;
  end = none;
  max_pages = 2;
}

-- a queued realtime run, and a backfill that was interrupted at its first generation
abbrev pub realtime_run : CrawlRun
realtime_run = build_run 1000 100 telegraph cls (new_spec RunType.realtime)

abbrev pub backfill_run : CrawlRun
backfill_run =
    let r = build_run 900 101 telegraph cls (new_spec RunType.backfill) in
    record r {
      status = RunStatus.interrupted;
      checkpoint = record (r.checkpoint) { generation = some 1 };
    }

abbrev pub first_task : CrawlTask
first_task = record {
  task_id = 500;
  run_id = 100;
  source_id = 1;
  collector_id = 10;
  business_key = 0;
  url = "https://www.cls.cn/telegraph";
  request_params = record { cursor = none; page = some 0; retry_base = none };
  status = TaskStatus.pending;
  attempt = 0;
  generation = 0;
  lease_owner = none;
  lease_expires_at = none;
  retry_at = none;
  error_code = none;
  attempt_history = [];
  created_at = 1000;
  completed_at = none;
}

abbrev pub command_on : ℕ → Action → CommandStatus → ControlCommand
command_on k action status = record {
  command_id = k;
  admin_id = 7;
  collector_id = some 10;
  run_id = some 100;
  task_id = none;
  action = action;
  status = status;
  result = none;
  created_at = 1000 + k;
  completed_at = none;
}

-- the source at rest, with a pause and a resume of the realtime run waiting
abbrev pub ledger : Ledger
ledger = record {
  sources = cls ∷ [];
  collectors = telegraph ∷ [];
  runs = realtime_run ∷ backfill_run ∷ [];
  tasks = first_task ∷ [];
  runtimes = new_runtime 1 ∷ [];
  commands =
      command_on 2 Action.resume CommandStatus.pending
      ∷ command_on 1 Action.pause CommandStatus.pending
      ∷ [];
  audits = [];
}

abbrev pub executor : Executor
executor = record { owner = 77; node_id = "node-a" }

-- the worker of an earlier claim of the realtime run
abbrev pub old_spider : Spider
old_spider = record { run_id = 100; source_id = 1; source_generation = 0; run_generation = 0 }

abbrev pub article : Article
article = record {
  source_item_id = some "9001";
  canonical_url = "https://www.cls.cn/detail/9001";
  original_url = "https://www.cls.cn/detail/9001";
  title = "headline";
  summary = none;
  body_text = some "text";
  body_status = BodyStatus.complete;
  published_at = some 5;
  source_updated_at = none;
  source_time_text = none;
  source_timezone = none;
  author = none;
  source_tags = [];
  importance = some 3;
}

abbrev pub page : PageResult
page = record {
  articles = article ∷ article ∷ [];
  next_url = none;
  next_cursor = some "c2";
  exhausted = false;
  coverage_gap = none;
  raw_text = "{}";
  response_status = 200;
  content_type = "application/json";
  fetched_at = 1200;
  parser_version = "1";
}

abbrev pub no_news : NewsStore
no_news = record { items = []; revisions = []; changes = []; occurrences = []; documents = [] }

-- the article as it is already stored, and a page on which only its summary is left
abbrev pub known_item : NewsItem
known_item = record {
  news_id = 9;
  source_id = 1;
  source_item_id = some "9001";
  canonical_url = "https://www.cls.cn/detail/9001";
  original_url = "https://www.cls.cn/detail/9001";
  current_revision_id = some 8;
  first_seen_at = 1000;
  last_seen_at = 1000;
}

abbrev pub known_news : NewsStore
known_news = record no_news {
  items = known_item ∷ [];
  revisions =
      record {
        revision_id = 8;
        news_id = 9;
        content = article;
        content_hash = 3;
        observed_at = 1000;
      }
      ∷ [];
}

abbrev pub summary_page : PageResult
summary_page = record page {
  articles = record article { body_status = BodyStatus.summary_only; body_text = none } ∷ [];
}
