-- ===== src/Ledger/Status.antt =====
-- The values of the ledger's status columns, and the groups of them that the queries test.
use market_mind.Prelude.{ℕ, Bool, true, false, not, ◌==◌}
use Prim.Native.String.{String}

pub data RunStatus : Type 0 where
  queued running waiting_login paused succeeded partial_failed failed cancelled interrupted :
      RunStatus

pub data RunType : Type 0 where
  realtime backfill : RunType

pub data TriggerType : Type 0 where
  scheduled manual recovery : TriggerType

pub data TaskStatus : Type 0 where
  pending queued running retry_wait succeeded failed cancelled : TaskStatus

pub data RuntimeStatus : Type 0 where
  idle running paused waiting_login : RuntimeStatus

pub data CommandStatus : Type 0 where
  pending running succeeded failed : CommandStatus

-- `unsupported` is any action that `apply_command` does not know.
pub data Action : Type 0 where
  run restart pause resume cancel retry unsupported : Action

-- The codes of `SourceError`; `request_failed` stands in for any other exception.
pub data SourceErrorCode : Type 0 where
  cls_replay_limit waiting_login proxy_exhausted parse_error structure_changed challenge :
      SourceErrorCode
  access_denied unsafe_target rate_limit_unavailable transport_error : SourceErrorCode
  transport_unconfigured request_failed : SourceErrorCode
  other : String → SourceErrorCode

-- The reasons that `commands` lets through to a command's result.
pub data CommandError : Type 0 where
  completed_run active_run_conflict no_resumable_task missing_task completed_task missing_run :
      CommandError
  restart_without_progress missing_collector terminal_run unsupported_action state_conflict :
      CommandError

pub data PauseReason : Type 0 where
  recovery_exhausted : PauseReason
  waiting_login : PauseReason
  source_error : SourceErrorCode → PauseReason

-- `process.returncode`: `signalled n` is -n, the signal that ended the process
pub data ReturnCode : Type 0 where
  exited : ℕ → ReturnCode
  signalled : ℕ → ReturnCode

-- `returncode != 0`
abbrev pub is_failure : ReturnCode → Bool
is_failure (exited n) = not (n == 0)
is_failure (signalled _) = true

-- `status in ACTIVE`, and the predicate of the index `uq_crawl_runs_active`
abbrev pub is_active : RunStatus → Bool
is_active RunStatus.queued = true
is_active RunStatus.running = true
is_active RunStatus.paused = true
is_active RunStatus.waiting_login = true
is_active RunStatus.interrupted = true
is_active _ = false

-- the statuses of a run that `claim_batch` may pick
abbrev pub is_runnable : RunStatus → Bool
is_runnable RunStatus.queued = true
is_runnable RunStatus.running = true
is_runnable RunStatus.interrupted = true
is_runnable _ = false

-- `status in ("succeeded", "cancelled")`, of a run
abbrev pub is_completed : RunStatus → Bool
is_completed RunStatus.succeeded = true
is_completed RunStatus.cancelled = true
is_completed _ = false

-- the statuses at which a restarted run counts as stuck
abbrev pub is_stalled : RunStatus → Bool
is_stalled RunStatus.failed = true
is_stalled RunStatus.partial_failed = true
is_stalled RunStatus.cancelled = true
is_stalled RunStatus.waiting_login = true
is_stalled RunStatus.paused = true
is_stalled _ = false

abbrev pub is_running : RunStatus → Bool
is_running RunStatus.running = true
is_running _ = false

-- `status in ("succeeded", "cancelled")`, of a task
abbrev pub is_closed : TaskStatus → Bool
is_closed TaskStatus.succeeded = true
is_closed TaskStatus.cancelled = true
is_closed _ = false

abbrev pub same_type : RunType → RunType → Bool
same_type RunType.realtime RunType.realtime = true
same_type RunType.backfill RunType.backfill = true
same_type _ _ = false
