-- ===== src/Runtime/Processing.antt =====
-- One command as a whole, and the queue of a source's commands: `apply_command` and `commands` of
-- backend/src/marketmind/runtime.py. A flush checks the index `uq_crawl_runs_active` of
-- backend/src/marketmind/models.py; a command that raises is rolled back to its savepoint.
use market_mind.Prelude.{
  ℕ, ◌==◌, Bool, true, false, not, ◌&&◌, ◌||◌, Option, none, some, List, [], ◌∷◌, map,
  if◌then◌else◌, get_or, holds, leb, any, select, order_by, find,
}
use market_mind.Ledger.{
  RunType, TriggerType, RuntimeStatus, CommandStatus, CommandError, is_active, is_stalled, Ledger,
  Source, Collector, CrawlRun, CrawlTask, SourceRuntime, ControlCommand, AuditAction, TargetType,
  Outcome, AuditDetails, AuditEvent, source_identity, collector_identity,
}
use market_mind.Runtime.Results.{Result, ok, err, ◌>>=◌}
use market_mind.Runtime.Recovery.{Uuid4, NewRun, modify_runtime, runtime_row, in_lane, create_run}
use market_mind.Runtime.Commands.{
  modify_command, add_audits, result_of, is_recovery, is_restart, is_executing, is_open, idles,
  target_task, target_run, page_passed, in_baseline, apply_to_each,
}

-- `db.get(Collector, command.collector_id)`
abbrev pub get_collector : Option ℕ → Ledger → Option Collector
get_collector none db = none
get_collector (some k) db = find k db.collectors

abbrev pub manual_run : NewRun
manual_run = record {
  run_type = RunType.realtime;
  trigger_type = TriggerType.manual;
  start = none;
  end = none;
  max_pages = 1;
}

-- a new run for a restart that finds none; the source's row is there, as the runtime's is
unfoldable pub start_restart :
    Uuid4 → ℕ → ℕ → Option Collector → Option Source → Ledger → Result (List CrawlRun × Ledger)
start_restart uuid now source (some collector) (some row) db =
    let (run, db') = create_run uuid now collector row manual_run db in
    if collector.source_id == source then ok (run ∷ [], db') else err CommandError.missing_collector
start_restart _ _ _ _ _ _ = err CommandError.missing_collector

unfoldable pub runs_or_restart :
    Uuid4 → ℕ → ℕ → ControlCommand → List CrawlRun → Ledger → Result (List CrawlRun × Ledger)
runs_or_restart uuid now source c (r ∷ rs) db = ok (r ∷ rs, db)
runs_or_restart uuid now source c [] db =
    if is_restart c.action
    then start_restart uuid now source (get_collector c.collector_id db) (find source db.sources) db
    else err CommandError.missing_run

-- the runs that a command acts on
unfoldable pub command_runs :
    Uuid4 → ℕ → ℕ → ControlCommand → Option CrawlRun → Ledger → Result (List CrawlRun × Ledger)
command_runs uuid now source c (some run) db = ok (run ∷ [], db)
command_runs uuid now source c none db =
    runs_or_restart uuid now source c
      (select (λ r. holds c.collector_id r.collector_id && is_active r.status) db.runs) db

-- what a recovery resets in the source's runtime row
abbrev pub reset_runtime : SourceRuntime → SourceRuntime
reset_runtime rt = record rt {
  status = if idles rt.status then RuntimeStatus.idle else rt.status;
  pause_reason = none;
  restart_history = [];
  restart_pending = false;
  retry_at = none;
  consecutive_failures = 0;
}

-- whether the transport of the source is to be reset too
abbrev pub needs_reset : ℕ → Ledger → Bool
needs_reset source db = any (λ rt. rt.source_id == source && idles rt.status) db.runtimes

abbrev pub audit_applied : ControlCommand → CrawlRun → AuditEvent
audit_applied c run = record {
  admin_id = some c.admin_id;
  action = AuditAction.command_action c.action;
  target_type = TargetType.run;
  target_id = run.run_id;
  outcome = Outcome.succeeded;
  details = AuditDetails.applied_command c.command_id;
}

-- `command.status = "succeeded"` and what follows it
abbrev pub complete : ℕ → ControlCommand → List CrawlRun → Ledger → Ledger
complete now c runs db = add_audits (map (audit_applied c) runs) (
    modify_command c.command_id
      (λ row. record row {
        status = CommandStatus.succeeded;
        completed_at = some now;
        result = some (record (result_of c) { applied = true });
      })
      db)

-- a restart stays open, with the pages from which progress is counted
abbrev pub await_progress : ControlCommand → List CrawlRun → Ledger → Ledger
await_progress c runs db =
    modify_command c.command_id
      (λ row. record row {
        status = CommandStatus.running;
        result = some (record {
          request = (result_of c).request;
          run_id = none;
          baseline = map (λ r. (r.run_id, get_or r.checkpoint.page 0)) runs;
          applied = false;
          error = none;
        });
      })
      db

-- the first branch of `apply_command`: a restart that waits for its runs to pass the baseline
unfoldable pub check_restart : ℕ → ℕ → ControlCommand → Ledger → Result (Ledger × Bool)
check_restart now source c db =
    let baseline = (result_of c).baseline in
    let runs = select (in_baseline source baseline) db.runs in
    if any (page_passed baseline) runs then ok (complete now c runs db, false) else elim runs [
      | [] ↦ err CommandError.restart_without_progress
      | r ∷ rs ↦
          if any (λ x. is_stalled x.status) (r ∷ rs)
          then err CommandError.restart_without_progress
          else ok (db, false)
    ]

-- the second branch, once the runs have been changed
abbrev pub settle : ℕ → ℕ → ControlCommand → List CrawlRun → Ledger → Ledger × Bool
settle now source c runs db =
    let reset = is_recovery c.action && needs_reset source db in
    let db' = if is_recovery c.action then modify_runtime source reset_runtime db else db in
    (if is_restart c.action then await_progress c runs db' else complete now c runs db', reset)

-- the second branch of `apply_command`
unfoldable pub act :
    Uuid4
    → ℕ
    → ℕ
    → ControlCommand
    → Option CrawlTask
    → Option CrawlRun
    → Ledger
    → Result (Ledger × Bool)
act uuid now source c task run db = do
  found ← command_runs uuid now source c run db
  db' ← apply_to_each now c.action task found.0 found.1
  ok (settle now source c found.0 db')

unfoldable pub apply_command : Uuid4 → ℕ → ℕ → ControlCommand → Ledger → Result (Ledger × Bool)
apply_command uuid now source c db = do
  task ← target_task c db
  run ← target_run source c task db
  let waiting = is_executing c.status && is_restart c.action
  if waiting then check_restart now source c db else act uuid now source c task run db

-- the rows that the unique index `uq_crawl_runs_active` accepts
unfoldable pub has_unique_lanes : List CrawlRun → Bool
has_unique_lanes [] = true
has_unique_lanes (r ∷ rs) =
    not (is_active r.status && any (in_lane r.collector_id r.run_type) rs) && has_unique_lanes rs

-- `db.flush()`: a violated index is an IntegrityError, which is reported as a conflict
unfoldable pub flush : Ledger × Bool → Result (Ledger × Bool)
flush (db, reset) =
    if has_unique_lanes db.runs then ok (db, reset) else err CommandError.state_conflict

-- the `except` branch, on the ledger as it was at the savepoint
abbrev pub reject : ℕ → ControlCommand → CommandError → Ledger → Ledger
reject now c e db =
    add_audits
      (record {
        admin_id = some c.admin_id;
        action = AuditAction.command_action c.action;
        target_type = elim c.run_id [ none ↦ TargetType.command | some _ ↦ TargetType.run ];
        target_id = get_or c.run_id c.command_id;
        outcome = Outcome.failed;
        details = AuditDetails.rejected_command c.command_id e;
      }
        ∷ [])
      (modify_command c.command_id
        (λ row. record row {
          status = CommandStatus.failed;
          completed_at = some now;
          result = some (record (result_of c) { error = some e });
        })
        db)

unfoldable pub run_command : Uuid4 → ℕ → ℕ → ControlCommand → Ledger → Ledger × Bool
run_command uuid now source c db = elim (apply_command uuid now source c db >>= flush) [
  | ok r ↦ r
  | err e ↦ (reject now c e db, false)
]

-- the command's collector, run or task is one of the source's
abbrev pub belongs : Ledger → ℕ → ControlCommand → Bool
belongs db source c =
    any (λ r. r.source_id == source && holds c.collector_id r.collector_id) db.collectors
    || any (λ r. r.source_id == source && holds c.run_id r.run_id) db.runs
    || any (λ r. r.source_id == source && holds c.task_id r.task_id) db.tasks

unfoldable pub run_commands : Uuid4 → ℕ → ℕ → List ControlCommand → Bool → Ledger → Ledger × Bool
run_commands uuid now source [] reset db = (db, reset)
run_commands uuid now source (c ∷ cs) reset db =
    let (db', again) = run_command uuid now source c db in
    run_commands uuid now source cs (reset || again) db'

-- All open commands of the source, oldest first; the flag asks for `reset_source_transport`.
unfoldable pub commands : Uuid4 → ℕ → ℕ → Ledger → Ledger × Bool
unfolding run_commands runtime_row
commands uuid now source db =
    let (runtime, db') = runtime_row source db in
    run_commands uuid now source
      (order_by (λ a b. leb a.created_at b.created_at)
        (select (λ c. is_open c.status && belongs db' source c) db'.commands))
      false db'
