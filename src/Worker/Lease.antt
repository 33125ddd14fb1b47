-- ===== src/Worker/Lease.antt =====
-- How a worker takes a task and keeps its lease: the transactions of `download` and `heartbeat` in
-- backend/src/marketmind/scrapy_worker.py.
use market_mind.Prelude.{
  ℕ, ◌+◌, ◌==◌, Bool, true, false, not, ◌&&◌, ◌||◌, Option, none, some, [], ◌∷◌, ◌++◌,
  if◌then◌else◌, holds, after, find,
}
use market_mind.Ledger.{
  TaskStatus, RuntimeStatus, is_running, Ledger, CrawlRun, CrawlTask, SourceRuntime,
  runtime_identity, run_identity, task_identity,
}
use market_mind.Runtime.{seconds, lease_seconds, modify_run, modify_task, runtime_row}

-- `LedgerSpider`: one worker process, started for one batch
pub record Spider : Type 0 where
  pub run_id : ℕ
  pub source_id : ℕ
  pub source_generation : ℕ
  pub run_generation : ℕ

-- the `meta` of a request, which may come back from a persistent queue
pub record Request : Type 0 where
  pub task_id : ℕ
  pub source_generation : ℕ
  pub run_generation : ℕ

abbrev pub is_runtime_running : RuntimeStatus → Bool
is_runtime_running RuntimeStatus.running = true
is_runtime_running _ = false

abbrev pub is_task_running : TaskStatus → Bool
is_task_running TaskStatus.running = true
is_task_running _ = false

-- `status in ("pending", "queued", "retry_wait")`
abbrev pub is_waiting : TaskStatus → Bool
is_waiting TaskStatus.pending = true
is_waiting TaskStatus.queued = true
is_waiting TaskStatus.retry_wait = true
is_waiting _ = false

-- the source's lease and the run's generation are those of the worker
abbrev pub owns_run : Spider → SourceRuntime → CrawlRun → Bool
owns_run s rt r =
    rt.generation == s.source_generation
    && is_running r.status
    && holds r.checkpoint.generation s.run_generation

-- what `download` commits: the task as taken, its generation and its attempt
abbrev pub take_task : ℕ → Spider → CrawlTask → CrawlTask
take_task now s t = record t {
  generation = t.generation + 1;
  attempt = t.attempt + 1;
  status = TaskStatus.running;
  lease_owner = some s.source_generation;
  lease_expires_at = some (now + seconds lease_seconds);
  attempt_history =
      t.attempt_history
      ++ (record { attempt = t.attempt + 1; generation = t.generation + 1; started_at = now } ∷ []);
}

abbrev pub may_download : ℕ → Spider → SourceRuntime → CrawlRun → CrawlTask → Bool
may_download now s rt r t =
    owns_run s rt r
    && is_runtime_running rt.status
    && after rt.lease_expires_at now
    && is_waiting t.status
    && not (after t.retry_at now)

-- The transaction of `download`: the generation of the task that it takes, or `none` for an
-- IgnoreRequest, which is raised inside the transaction and rolls it back.
unfoldable pub download : ℕ → Spider → Request → Ledger → Option ℕ × Ledger
unfolding runtime_row
download now s q db =
    if not (q.source_generation == s.source_generation)
      || not (q.run_generation == s.run_generation)
    then (none, db)
    else let (rt, db') = runtime_row s.source_id db in
      elim (find s.run_id db'.runs) [
        | none ↦ (none, db)
        | some r ↦ elim (find q.task_id db'.tasks) [
          | none ↦ (none, db)
          | some t ↦
              if may_download now s rt r t
              then (some (t.generation + 1), modify_task t.task_id (take_task now s) db')
              else (none, db)
        ]
      ]

abbrev pub extend_lease : ℕ → CrawlTask → CrawlTask
extend_lease now t = record t { lease_expires_at = some (now + seconds lease_seconds) }

abbrev pub beat : ℕ → CrawlRun → CrawlRun
beat now r = record r { heartbeat_at = some now }

-- One round of `heartbeat`: whether it goes on.
unfoldable pub heartbeat : ℕ → Spider → ℕ → ℕ → Ledger → Bool × Ledger
unfolding runtime_row
heartbeat now s task generation db =
    let (rt, db') = runtime_row s.source_id db in
    elim (find s.run_id db'.runs) [
      | none ↦ (false, db')
      | some r ↦ elim (find task db'.tasks) [
        | none ↦ (false, db')
        | some t ↦
            if owns_run s rt r
              && after rt.lease_expires_at now
              && is_task_running t.status
              && t.generation == generation
            then (true, modify_run s.run_id (beat now) (modify_task task (extend_lease now) db'))
            else (false, db')
      ]
    ]
