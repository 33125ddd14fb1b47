-- ===== src/Sessions/Pause.antt =====
-- The effect of a session on the runs of its source: `pause_source_runs` of
-- backend/src/marketmind/sessions.py, and what `_publish_session` of
-- backend/src/marketmind/session_worker.py releases.
use market_mind.Prelude.{
  ℕ, ◌+◌, ◌==◌, Bool, true, false, ◌&&◌, none, some, List, map, if◌then◌else◌, any, modify,
}
use market_mind.Ledger.{
  RunStatus, TaskStatus, RuntimeStatus, PauseReason, SourceErrorCode, Ledger, CrawlRun, CrawlTask,
  SourceRuntime, runtime_identity,
}
use market_mind.Worker.{is_task_running}

abbrev pub is_paused : RuntimeStatus → Bool
is_paused RuntimeStatus.paused = true
is_paused _ = false

abbrev pub awaits_login : RuntimeStatus → Bool
awaits_login RuntimeStatus.waiting_login = true
awaits_login _ = false

abbrev pub run_awaits_login : RunStatus → Bool
run_awaits_login RunStatus.waiting_login = true
run_awaits_login _ = false

-- `status in ("queued", "running", "interrupted", "waiting_login")`
abbrev pub is_pausable : RunStatus → Bool
is_pausable RunStatus.queued = true
is_pausable RunStatus.running = true
is_pausable RunStatus.interrupted = true
is_pausable RunStatus.waiting_login = true
is_pausable _ = false

abbrev pub pause_runtime : SourceRuntime → SourceRuntime
pause_runtime rt = record rt {
  generation = rt.generation + 1;
  lease_expires_at = none;
  status = if is_paused rt.status then rt.status else RuntimeStatus.waiting_login;
  pause_reason = if is_paused rt.status then rt.pause_reason else some PauseReason.waiting_login;
}

abbrev pub is_source_run : ℕ → CrawlRun → Bool
is_source_run source r = r.source_id == source && is_pausable r.status

abbrev pub pause_run : ℕ → CrawlRun → CrawlRun
pause_run source r =
    if is_source_run source r then record r { status = RunStatus.waiting_login } else r

-- a running task of one of these runs
abbrev pub is_held_task : ℕ → List CrawlRun → CrawlTask → Bool
is_held_task source runs t =
    any (λ r. r.run_id == t.run_id && is_source_run source r) runs && is_task_running t.status

abbrev pub drop_task : CrawlTask → CrawlTask
drop_task t = record t {
  status = TaskStatus.pending;
  generation = t.generation + 1;
  lease_owner = none;
  lease_expires_at = none;
  error_code = some SourceErrorCode.waiting_login;
}

unfoldable pub pause_source_runs : ℕ → Ledger → Ledger
pause_source_runs source db = record db {
  runtimes = modify source pause_runtime db.runtimes;
  runs = map (pause_run source) db.runs;
  tasks = map (λ t. if is_held_task source db.runs t then drop_task t else t) db.tasks;
}

abbrev pub release_login : SourceRuntime → SourceRuntime
release_login rt =
    if awaits_login rt.status
    then record rt { status = RuntimeStatus.idle; pause_reason = none; retry_at = none }
    else rt

abbrev pub release_run : ℕ → CrawlRun → CrawlRun
release_run source r =
    if r.source_id == source && run_awaits_login r.status
    then record r { status = RunStatus.queued }
    else r

unfoldable pub release_source_runs : ℕ → Ledger → Ledger
release_source_runs source db = record db {
  runtimes = modify source release_login db.runtimes;
  runs = map (release_run source) db.runs;
}
