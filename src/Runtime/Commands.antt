-- ===== src/Runtime/Commands.antt =====
-- The administrator's commands: `apply_command` and `commands` of
-- backend/src/marketmind/runtime.py, and the unique index of backend/src/marketmind/models.py
-- that the flush after each command checks.
use market_mind.Prelude.{
  ℕ, ◌==◌, Bool, true, false, not, ◌&&◌, Option, none, some, List, [], ◌∷◌, ◌++◌, if◌then◌else◌,
  get_or, ltb, any, find, modify,
}
use market_mind.Ledger.{
  RunStatus, RuntimeStatus, CommandStatus, Action, CommandError, is_active, is_closed, Ledger,
  CrawlRun, CrawlTask, CommandResult, ControlCommand, AuditEvent, source_identity,
  collector_identity, run_identity, task_identity, command_identity,
}
use market_mind.Runtime.Results.{Result, ok, err, ◌>>=◌, ◌>>◌, raise_if}
use market_mind.Runtime.Recovery.{modify_run, fence_tasks, resume_run}

abbrev pub modify_task : ℕ → (CrawlTask → CrawlTask) → Ledger → Ledger
modify_task k f db = record db { tasks = modify k f db.tasks }

abbrev pub modify_command : ℕ → (ControlCommand → ControlCommand) → Ledger → Ledger
modify_command k f db = record db { commands = modify k f db.commands }

abbrev pub add_audits : List AuditEvent → Ledger → Ledger
add_audits events db = record db { audits = db.audits ++ events }

-- `command.result or {}`
abbrev pub result_of : ControlCommand → CommandResult
result_of c =
    get_or c.result
      (record { request = "{}"; run_id = none; baseline = []; applied = false; error = none })

abbrev pub is_recovery : Action → Bool
is_recovery Action.resume = true
is_recovery Action.restart = true
is_recovery Action.retry = true
is_recovery _ = false

abbrev pub is_restart : Action → Bool
is_restart Action.restart = true
is_restart _ = false

abbrev pub is_retry : Action → Bool
is_retry Action.retry = true
is_retry _ = false

abbrev pub is_executing : CommandStatus → Bool
is_executing CommandStatus.running = true
is_executing _ = false

-- `status in ("pending", "running")`
abbrev pub is_open : CommandStatus → Bool
is_open CommandStatus.pending = true
is_open CommandStatus.running = true
is_open _ = false

abbrev pub idles : RuntimeStatus → Bool
idles RuntimeStatus.running = false
idles _ = true

-- the task that the command names
unfoldable pub target_task : ControlCommand → Ledger → Result (Option CrawlTask)
target_task c db = elim c.task_id [
  | none ↦ ok none
  | some k ↦ elim (find k db.tasks) [
    | none ↦ err CommandError.missing_task
    | some t ↦
        if is_retry c.action && is_closed t.status
        then err CommandError.completed_task
        else ok (some t)
  ]
]

-- `command.run_id or (target_task.run_id if target_task else None)`, and what "run" asks for
unfoldable pub requested_run : Action → ControlCommand → Option CrawlTask → Result (Option ℕ)
requested_run Action.run c task = elim (result_of c).run_id [
  | none ↦ err CommandError.missing_run
  | some k ↦ ok (some k)
]
requested_run _ c task = elim c.run_id [
  | some k ↦ ok (some k)
  | none ↦ elim task [ none ↦ ok none | some t ↦ ok (some t.run_id) ]
]

-- the run of that identifier, which has to belong to the source
unfoldable pub owned_run : ℕ → Option ℕ → Ledger → Result (Option CrawlRun)
owned_run source none db = ok none
owned_run source (some k) db = elim (find k db.runs) [
  | none ↦ err CommandError.missing_run
  | some r ↦ if r.source_id == source then ok (some r) else err CommandError.missing_run
]

unfoldable pub target_run :
    ℕ → ControlCommand → Option CrawlTask → Ledger → Result (Option CrawlRun)
unfolding requested_run
target_run source c task db =
    requested_run c.action c task >>= λ requested. owned_run source requested db

-- `baseline.get(str(run.id), -1)` is below the run's page
abbrev pub page_passed : List (ℕ × ℕ) → CrawlRun → Bool
page_passed [] r = true
page_passed ((k, page) ∷ rest) r =
    if k == r.run_id then ltb page (get_or r.checkpoint.page 0) else page_passed rest r

abbrev pub in_baseline : ℕ → List (ℕ × ℕ) → CrawlRun → Bool
in_baseline source baseline r = r.source_id == source && any (λ e. e.0 == r.run_id) baseline

-- `target_task.request_params = {…, "retry_base": target_task.attempt}`
abbrev pub set_retry_base : Option CrawlTask → Ledger → Ledger
set_retry_base none db = db
set_retry_base (some t) db =
    modify_task t.task_id
      (λ row. record row {
        request_params = record (row.request_params) { retry_base = some t.attempt };
      })
      db

abbrev recover : Option CrawlTask → Ledger → CrawlRun → Result Ledger
recover task db run = resume_run run db >>= λ db'. ok (set_retry_base task db')

-- the body of `for run in runs`
unfoldable pub apply_action : ℕ → Action → Option CrawlTask → Ledger → CrawlRun → Result Ledger
apply_action now Action.pause task db run = do
  raise_if (not (is_active run.status)) CommandError.terminal_run
  ok (
      modify_run run.run_id (λ r. record r { status = RunStatus.paused })
        (fence_tasks run.run_id false db))
apply_action now Action.cancel task db run = elim run.status [
  | RunStatus.succeeded ↦ err CommandError.completed_run
  | _ ↦ ok (
      modify_run run.run_id (λ r. record r { status = RunStatus.cancelled; finished_at = some now })
        (fence_tasks run.run_id true db))
]
apply_action now Action.resume task db run = recover task db run
apply_action now Action.restart task db run = recover task db run
apply_action now Action.retry task db run = recover task db run
apply_action now Action.run task db run = elim run.status [
  | RunStatus.interrupted ↦
      ok (modify_run run.run_id (λ r. record r { status = RunStatus.queued }) db)
  | _ ↦ ok db
]
apply_action now Action.unsupported task db run = err CommandError.unsupported_action

unfoldable pub apply_to_each :
    ℕ → Action → Option CrawlTask → List CrawlRun → Ledger → Result Ledger
apply_to_each now a task [] db = ok db
apply_to_each now a task (r ∷ rs) db =
    apply_action now a task db r >>= λ db'. apply_to_each now a task rs db'
