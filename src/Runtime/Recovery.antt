-- ===== src/Runtime/Recovery.antt =====
-- Rows that the executor and the scheduler create, and the release of a run's unfinished work:
-- `runtime_row`, `create_run`, `fence_tasks` and `resume_run` of
-- backend/src/marketmind/runtime.py.
use market_mind.Prelude.{
  ℕ, ◌+◌, ◌*◌, ◌==◌, ◌≡◌, Bool, false, not, ◌&&◌, Option, none, some, List, [], ◌∷◌, ◌++◌, map,
  if◌then◌else◌, get_or, any, head?, select, find, modify,
}
use market_mind.Ledger.{
  RunStatus, RunType, TriggerType, TaskStatus, RuntimeStatus, CommandError, is_active, is_completed,
  is_closed, same_type, Ledger, Source, Collector, CrawlRun, CrawlTask, SourceRuntime, Checkpoint,
  run_identity, runtime_identity,
}
use market_mind.Runtime.Results.{Result, ok, ◌>>◌, raise_if}

-- microseconds
abbrev pub seconds : ℕ → ℕ
seconds n = n * 1000000

abbrev pub lease_seconds : ℕ
lease_seconds = 90

-- `uuid4()`: an identifier that is not among those in use.
pub record Uuid4 : Type 0 where
  pub draw : List ℕ → ℕ
  pub draw_fresh : (used : List ℕ) → any (λ k. k == draw used) used ≡ false

abbrev pub modify_run : ℕ → (CrawlRun → CrawlRun) → Ledger → Ledger
modify_run k f db = record db { runs = modify k f db.runs }

abbrev pub modify_runtime : ℕ → (SourceRuntime → SourceRuntime) → Ledger → Ledger
modify_runtime k f db = record db { runtimes = modify k f db.runtimes }

-- `SourceRuntime(source_id=source_id)` with the columns' defaults
abbrev pub new_runtime : ℕ → SourceRuntime
new_runtime k = record {
  source_id = k;
  status = RuntimeStatus.idle;
  generation = 0;
  owner = none;
  node_id = none;
  heartbeat_at = none;
  lease_expires_at = none;
  restart_history = [];
  restart_pending = false;
  consecutive_failures = 0;
  retry_at = none;
  pause_reason = none;
  last_run_id = none;
  last_run_type = none;
  recovery_scheduled_at = none;
}

-- The row of a source, made on first use.
unfoldable pub runtime_row : ℕ → Ledger → SourceRuntime × Ledger
runtime_row k db = elim (find k db.runtimes) [
  | some row ↦ (row, db)
  | none ↦ (new_runtime k, record db { runtimes = db.runtimes ++ (new_runtime k ∷ []) })
]

-- the run is in one of the ACTIVE statuses, for this collector and type
abbrev pub in_lane : ℕ → RunType → CrawlRun → Bool
in_lane c t r = r.collector_id == c && same_type r.run_type t && is_active r.status

abbrev pub initial_checkpoint : Checkpoint
initial_checkpoint = record {
  generation = none;
  page = none;
  batch_start_page = none;
  cursor = none;
}

-- What the callers of `create_run` choose; `max_pages` is 1 where they leave it out.
pub record NewRun : Type 0 where
  pub run_type : RunType
  pub trigger_type : TriggerType
  pub start : Option ℕ
  pub end : Option ℕ
  pub max_pages : ℕ

abbrev pub build_run : ℕ → ℕ → Collector → Source → NewRun → CrawlRun
build_run now k collector source spec = record {
  run_id = k;
  source_id = source.source_id;
  collector_id = collector.collector_id;
  trigger_type = spec.trigger_type;
  run_type = spec.run_type;
  status = RunStatus.queued;
  node_id = none;
  config_snapshot = record {
    collector_code = collector.code;
    max_pages = some spec.max_pages;
    source_config = source.permission_config;
    collector_max_pages = collector.max_pages;
  };
  range_start_at = spec.start;
  range_end_at = spec.end;
  created_at = now;
  started_at = none;
  finished_at = none;
  heartbeat_at = none;
  checkpoint = initial_checkpoint;
  statistics = record { created = 0; revised = 0; duplicate = 0; access_limited = 0 };
  coverage_gaps = [];
}

-- The active run of the lane if there is one, else a new queued run.
unfoldable pub create_run : Uuid4 → ℕ → Collector → Source → NewRun → Ledger → CrawlRun × Ledger
create_run uuid now collector source spec db =
    elim (head? (select (in_lane collector.collector_id spec.run_type) db.runs)) [
      | some existing ↦ (existing, db)
      | none ↦
          let run = build_run now (uuid.draw (map (λ r. r.run_id) db.runs)) collector source spec in
          (run, record db { runs = db.runs ++ (run ∷ []) })
    ]

-- an unfinished task of the run
abbrev pub unfinished : ℕ → CrawlTask → Bool
unfinished k t = t.run_id == k && not (is_closed t.status)

abbrev pub release_task : Bool → CrawlTask → CrawlTask
release_task cancelled t = record t {
  generation = t.generation + 1;
  lease_owner = none;
  lease_expires_at = none;
  status = if cancelled then TaskStatus.cancelled else TaskStatus.pending;
  retry_at = none;
}

-- `{**run.checkpoint, "generation": int(run.checkpoint.get("generation", 0)) + 1}`
abbrev pub next_generation : CrawlRun → CrawlRun
next_generation r = record r {
  checkpoint = record (r.checkpoint) { generation = some (get_or r.checkpoint.generation 0 + 1) };
}

unfoldable pub fence_tasks : ℕ → Bool → Ledger → Ledger
fence_tasks k cancelled db = modify_run k next_generation (record db {
  tasks = map (λ t. if unfinished k t then release_task cancelled t else t) db.tasks;
})

-- another active run of the same collector and type
abbrev pub competes : CrawlRun → CrawlRun → Bool
competes run r = in_lane run.collector_id run.run_type r && not (r.run_id == run.run_id)

-- back into the queue, with a new budget of pages
abbrev pub requeue : CrawlRun → CrawlRun
requeue r = record r {
  checkpoint = record (r.checkpoint) { batch_start_page = some (get_or r.checkpoint.page 0) };
  status = RunStatus.queued;
  finished_at = none;
}

-- `run` is the row that the caller has read.
unfoldable pub resume_run : CrawlRun → Ledger → Result Ledger
unfolding fence_tasks
resume_run run db = do
  raise_if (is_completed run.status) CommandError.completed_run
  raise_if (any (competes run) db.runs) CommandError.active_run_conflict
  raise_if
      (not (any (unfinished run.run_id) db.tasks) && any (λ t. t.run_id == run.run_id) db.tasks)
      CommandError.no_resumable_task
  ok (modify_run run.run_id requeue (fence_tasks run.run_id false db))
