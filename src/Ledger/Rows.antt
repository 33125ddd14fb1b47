-- ===== src/Ledger/Rows.antt =====
-- The rows of the ledger's tables, with the columns that the modelled code reads or writes.
use market_mind.Prelude.{ℕ, Bool, Option, List, Identity}
use market_mind.Ledger.Status.{
  RunStatus, RunType, TriggerType, TaskStatus, RuntimeStatus, CommandStatus, Action,
  SourceErrorCode, CommandError, PauseReason, ReturnCode,
}
use Prim.Native.String.{String}

-- `permission_config`, as far as the transport and the scheduler read it
pub record SourceConfig : Type 0 where
  pub request_interval_seconds : Option ℕ
  pub proxy_ids : List ℕ
  pub failover_enabled : Bool
  pub pause_on_exhausted : Bool

pub record Source : Type 0 where
  pub source_id : ℕ
  pub code : String
  pub enabled : Bool
  pub permission_config : SourceConfig
  pub config_version : ℕ

pub record Collector : Type 0 where
  pub collector_id : ℕ
  pub source_id : ℕ
  pub code : String
  pub entry_url : String
  pub enabled : Bool
  pub interval_seconds : ℕ
  pub max_pages : Option ℕ  -- of `config`
  pub last_success_at : Option ℕ
  pub next_run_at : Option ℕ

-- `CrawlRun.checkpoint`
pub record Checkpoint : Type 0 where
  pub generation : Option ℕ
  pub page : Option ℕ
  pub batch_start_page : Option ℕ
  pub cursor : Option String

pub record ConfigSnapshot : Type 0 where
  pub collector_code : String
  pub max_pages : Option ℕ
  pub source_config : SourceConfig
  pub collector_max_pages : Option ℕ  -- of `collector_config`

pub data CoverageGap : Type 0 where
  replay_gap : SourceErrorCode → Option String → CoverageGap
  adapter_gap : String → ℕ → CoverageGap
  pagination_unavailable : ℕ → CoverageGap
  page_limit : Option String → CoverageGap
  batch_page_limit : ℕ → Option String → CoverageGap
  older_than_automatic_window : ℕ → ℕ → CoverageGap

-- `CrawlRun.statistics`, and the counts of one page
pub record Counts : Type 0 where
  pub created : ℕ
  pub revised : ℕ
  pub duplicate : ℕ
  pub access_limited : ℕ

pub record CrawlRun : Type 0 where
  pub run_id : ℕ
  pub source_id : ℕ
  pub collector_id : ℕ
  pub trigger_type : TriggerType
  pub run_type : RunType
  pub status : RunStatus
  pub node_id : Option String
  pub config_snapshot : ConfigSnapshot
  pub range_start_at : Option ℕ
  pub range_end_at : Option ℕ
  pub created_at : ℕ
  pub started_at : Option ℕ
  pub finished_at : Option ℕ
  pub heartbeat_at : Option ℕ
  pub checkpoint : Checkpoint
  pub statistics : Counts
  pub coverage_gaps : List CoverageGap

-- `CrawlTask.request_params`
pub record RequestParams : Type 0 where
  pub cursor : Option String
  pub page : Option ℕ
  pub retry_base : Option ℕ

pub record Attempt : Type 0 where
  pub attempt : ℕ
  pub generation : ℕ
  pub started_at : ℕ

pub record CrawlTask : Type 0 where
  pub task_id : ℕ
  pub run_id : ℕ
  pub source_id : ℕ
  pub collector_id : ℕ
  pub business_key : ℕ  -- the n of "page:n"
  pub url : String
  pub request_params : RequestParams
  pub status : TaskStatus
  pub attempt : ℕ
  pub generation : ℕ
  pub lease_owner : Option ℕ  -- the n of "worker:n"
  pub lease_expires_at : Option ℕ
  pub retry_at : Option ℕ
  pub error_code : Option SourceErrorCode
  pub attempt_history : List Attempt
  pub created_at : ℕ
  pub completed_at : Option ℕ

-- `SourceRuntime`, one row for each source
pub record SourceRuntime : Type 0 where
  pub source_id : ℕ
  pub status : RuntimeStatus
  pub generation : ℕ
  pub owner : Option ℕ
  pub node_id : Option String
  pub heartbeat_at : Option ℕ
  pub lease_expires_at : Option ℕ
  pub restart_history : List ℕ
  pub restart_pending : Bool
  pub consecutive_failures : ℕ
  pub retry_at : Option ℕ
  pub pause_reason : Option PauseReason
  pub last_run_id : Option ℕ
  pub last_run_type : Option RunType
  pub recovery_scheduled_at : Option ℕ

-- `ControlCommand.result`: `request` is the JSON text, "{}" where the key is missing; `baseline`
-- holds the page of each run by its id, and is empty where the key is missing.
pub record CommandResult : Type 0 where
  pub request : String
  pub run_id : Option ℕ
  pub baseline : List (ℕ × ℕ)
  pub applied : Bool
  pub error : Option CommandError

pub record ControlCommand : Type 0 where
  pub command_id : ℕ
  pub admin_id : ℕ
  pub collector_id : Option ℕ
  pub run_id : Option ℕ
  pub task_id : Option ℕ
  pub action : Action
  pub status : CommandStatus
  pub result : Option CommandResult
  pub created_at : ℕ
  pub completed_at : Option ℕ

pub data AuditAction : Type 0 where
  command_action : Action → AuditAction
  batch_started batch_exited : AuditAction

pub data TargetType : Type 0 where
  run command : TargetType

pub data Outcome : Type 0 where
  succeeded failed running : Outcome

pub data AuditDetails : Type 0 where
  applied_command : ℕ → AuditDetails
  rejected_command : ℕ → CommandError → AuditDetails
  generations : ℕ → ℕ → AuditDetails
  exit_status : ReturnCode → RunStatus → AuditDetails

pub record AuditEvent : Type 0 where
  pub admin_id : Option ℕ
  pub action : AuditAction
  pub target_type : TargetType
  pub target_id : ℕ
  pub outcome : Outcome
  pub details : AuditDetails

instance abbrev pub source_identity : Identity Source
source_identity = record { id = λ r. r.source_id }

instance abbrev pub collector_identity : Identity Collector
collector_identity = record { id = λ r. r.collector_id }

instance abbrev pub run_identity : Identity CrawlRun
run_identity = record { id = λ r. r.run_id }

instance abbrev pub task_identity : Identity CrawlTask
task_identity = record { id = λ r. r.task_id }

instance abbrev pub runtime_identity : Identity SourceRuntime
runtime_identity = record { id = λ r. r.source_id }

instance abbrev pub command_identity : Identity ControlCommand
command_identity = record { id = λ r. r.command_id }
