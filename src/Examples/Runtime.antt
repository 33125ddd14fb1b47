-- ===== src/Examples/Runtime.antt =====
-- The executor's theorems at the example's ledger.
use market_mind.Prelude.{
  ℕ, ◌≤◌, ◌≡◌, refl, some, none, ◌∷◌, [], arith, rows_of, find, order_by, true, false,
}
use market_mind.Ledger.{
  Action, CommandStatus, RunType, ReturnCode, Ledger, CrawlRun, SourceRuntime, run_identity,
  runtime_identity,
}
use market_mind.Runtime.{
  Batch, pick, claim_batch, apply_command, flush, Result, ◌>>=◌, ok, err, runtime_row, apply_action,
  create_run, new_runtime, restart_budget, start_runtime, start_run, record_exit, is_held_back,
}
use market_mind.Runtime.Claim.Claimed.{IsClaimed}
use market_mind.Runtime.Claim.Currency.{
  Candidate, IsCurrentBatch, claim_batch-IsCurrentBatch, claim_batch-IsClaimed,
}
use market_mind.Runtime.Lanes.Basic.{IsConsistent}
use market_mind.Runtime.Lanes.Creation.{create_run-IsConsistent}
use market_mind.Runtime.Lanes.Actions.{Keeps, apply_action-Keeps}
use market_mind.Runtime.Lanes.Queue.{apply_command-flush}
use market_mind.Runtime.Restarts.{IsBounded, IsStamped, claim_batch-IsBounded}
use market_mind.Runtime.Exits.{IsExited, record_exit-IsExited}
use market_mind.Examples.Data.{
  sum_uuid, total, ledger, executor, command_on, cls, telegraph, new_spec, realtime_run,
}

pub ledger_unique : (k : ℕ) → rows_of k ledger.runs ≤ 1
ledger_unique k = ground arith

pub ledger-IsConsistent : IsConsistent ledger.runs
ledger-IsConsistent = record {
  unique_ids = ledger_unique;
  unique_lanes =
      λ c t. elim t [ RunType.realtime ↦ ground arith | RunType.backfill ↦ ground arith ];
}

abbrev value_of : Result Ledger → Ledger
value_of (ok db) = db
value_of (err _) = ledger

apply_command-flush_example :
    (apply_command sum_uuid 2000 1 (command_on 1 Action.pause CommandStatus.pending) ledger
      >>= flush)
    ≡ apply_command sum_uuid 2000 1 (command_on 1 Action.pause CommandStatus.pending) ledger
apply_command-flush_example =
    apply_command-flush sum_uuid 2000 1 (command_on 1 Action.pause CommandStatus.pending) ledger
      ledger-IsConsistent

create_run-IsConsistent_example :
    IsConsistent (create_run sum_uuid 2000 telegraph cls (new_spec RunType.backfill) ledger).1.runs
create_run-IsConsistent_example =
    create_run-IsConsistent sum_uuid 2000 telegraph cls (new_spec RunType.backfill) ledger
      ledger-IsConsistent

paused :
    apply_action 2000 Action.pause none ledger realtime_run
    ≡ ok (value_of (apply_action 2000 Action.pause none ledger realtime_run))
unfolding apply_action
paused = refl

apply_action-Keeps_example :
    Keeps 100 ledger (value_of (apply_action 2000 Action.pause none ledger realtime_run))
apply_action-Keeps_example =
    apply_action-Keeps 2000 Action.pause none ledger
      (value_of (apply_action 2000 Action.pause none ledger realtime_run)) realtime_run refl
      ledger-IsConsistent paused

-- the realtime run is served first
abbrev pub batch : Batch
batch = record { run_id = 100; source_generation = 1; run_generation = 1 }

abbrev pub claimed_ledger : Ledger
claimed_ledger = (claim_batch sum_uuid 2000 1 executor none ledger).1

pub claimed : claim_batch sum_uuid 2000 1 executor none ledger ≡ (some batch, claimed_ledger)
unfolding claim_batch pick order_by total
claimed = refl

row_unique : (k : ℕ) → rows_of k (runtime_row 1 ledger).1.runs ≤ 1
unfolding runtime_row
row_unique k = ledger_unique k

claim_batch-IsCurrentBatch_example : IsCurrentBatch 2000 1 executor batch ledger.runs claimed_ledger
claim_batch-IsCurrentBatch_example =
    claim_batch-IsCurrentBatch sum_uuid 2000 1 executor none ledger batch claimed_ledger
      ledger_unique claimed

claim_batch-IsClaimed_example :
    IsClaimed
      (Candidate 1 none (runtime_row 1 ledger).1)
      2000
      1
      executor
      (runtime_row 1 ledger).0
      (runtime_row 1 ledger).1
      batch
      claimed_ledger
    × (is_held_back 2000 (runtime_row 1 ledger).0 ≡ false)
claim_batch-IsClaimed_example =
    claim_batch-IsClaimed sum_uuid 2000 1 executor none ledger batch claimed_ledger row_unique
      claimed

-- a source whose worker has crashed once more
abbrev crashed_runtime : SourceRuntime
crashed_runtime = record (new_runtime 1) {
  restart_history = 900 ∷ 950 ∷ [];
  restart_pending = true;
}

abbrev crashed_ledger : Ledger
crashed_ledger = record ledger { runtimes = crashed_runtime ∷ [] }

abbrev restarted_ledger : Ledger
restarted_ledger =
    (claim_batch sum_uuid 2000 1 executor none (restart_budget 1990 1 crashed_ledger).1).1

claim_batch-IsBounded_example :
    (rt : SourceRuntime) × (find 1 restarted_ledger.runtimes ≡ some rt)
    × IsBounded 2000 rt
    × IsStamped 2000 crashed_runtime rt
unfolding claim_batch pick order_by total restart_budget
claim_batch-IsBounded_example =
    claim_batch-IsBounded sum_uuid 1990 2000 1 executor none crashed_ledger restarted_ledger batch
      crashed_runtime (omega arith) ledger_unique refl (omega arith) refl refl

abbrev started_runtime : SourceRuntime
started_runtime = start_runtime 2000 executor realtime_run (new_runtime 1)

abbrev started_run : CrawlRun
started_run = start_run 2000 executor realtime_run

pub claimed_runtime : find 1 claimed_ledger.runtimes ≡ some started_runtime
unfolding claim_batch pick order_by total
claimed_runtime = refl

pub claimed_run : find 100 claimed_ledger.runs ≡ some started_run
unfolding claim_batch pick order_by total
claimed_run = refl

record_exit-IsExited_example :
    IsExited 3000 1 batch
      (ReturnCode.exited 1)
      started_runtime
      started_run
      (record_exit 3000 1 batch (ReturnCode.exited 1) claimed_ledger).0
record_exit-IsExited_example =
    record_exit-IsExited 3000 1 batch (ReturnCode.exited 1) claimed_ledger started_runtime
      started_run claimed_runtime claimed_run refl
