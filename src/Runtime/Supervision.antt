-- ===== src/Runtime/Supervision.antt =====
-- The executor around its worker process: the tick of `supervise`, `record_exit`,
-- `restart_budget` and the takeover at the start of `execute_source`, of
-- backend/src/marketmind/runtime.py.
use market_mind.Prelude.{
  ℕ, ◌+◌, ◌-◌, ◌*◌, ◌^◌, ◌==◌, min, Bool, true, false, not, ◌&&◌, none, some, [], ◌∷◌,
  if◌then◌else◌, is_some, holds, get_or, after, leb, length, find,
}
use market_mind.Ledger.{
  RunStatus, RuntimeStatus, PauseReason, ReturnCode, is_failure, is_running, Ledger, CrawlRun,
  SourceRuntime, AuditAction, TargetType, Outcome, AuditDetails, run_identity,
}
use market_mind.Runtime.Recovery.{
  seconds, lease_seconds, modify_run, modify_runtime, runtime_row, fence_tasks,
}
use market_mind.Runtime.Commands.{add_audits}
use market_mind.Runtime.Claim.{Batch, recent}

-- the statuses at which a supervised worker may go on
abbrev pub is_supervised : RunStatus → Bool
is_supervised RunStatus.running = true
is_supervised RunStatus.succeeded = true
is_supervised RunStatus.partial_failed = true
is_supervised RunStatus.paused = true
is_supervised _ = false

-- the executor still owns the batch
abbrev pub is_current : ℕ → Batch → SourceRuntime → CrawlRun → Bool
is_current owner b rt r =
    holds rt.owner owner
    && rt.generation == b.source_generation
    && is_supervised r.status
    && holds r.checkpoint.generation b.run_generation

abbrev pub renew_lease : ℕ → SourceRuntime → SourceRuntime
renew_lease now rt = record rt {
  heartbeat_at = some now;
  lease_expires_at = some (now + seconds lease_seconds);
}

-- One round of the loop in `supervise`, after its commands: whether the worker goes on.
-- `elapsed` is the time since the worker's start. A missing run would be an error of the ledger's
-- foreign keys.
unfoldable pub supervise_tick : ℕ → ℕ → ℕ → ℕ → Batch → Ledger → Bool × Ledger
unfolding runtime_row
supervise_tick now elapsed source owner b db =
    let (rt, db') = runtime_row source db in
    elim (find b.run_id db'.runs) [
      | none ↦ (false, db')
      | some r ↦
          if is_current owner b rt r
          then (leb elapsed (seconds 660), modify_runtime source (renew_lease now) db')
          else (false, db')
    ]

-- `min(60, 5 * 2 ** min(failures, 4))` seconds
abbrev pub restart_delay : ℕ → ℕ
restart_delay failures = min 60 (5 * 2 ^ min failures 4)

abbrev pub note_crash : ℕ → SourceRuntime → SourceRuntime
note_crash now rt = record rt {
  restart_pending = true;
  consecutive_failures = rt.consecutive_failures + 1;
  retry_at = some (now + seconds (restart_delay (rt.consecutive_failures + 1)));
}

abbrev pub release_runtime : ℕ → SourceRuntime → SourceRuntime
release_runtime now rt = record rt {
  status = elim rt.status [ RuntimeStatus.running ↦ RuntimeStatus.idle | other ↦ other ];
  heartbeat_at = some now;
  lease_expires_at = none;
}

-- the worker failed while the batch was still its own
abbrev pub is_crash : Batch → ReturnCode → CrawlRun → Bool
is_crash b code r =
    is_failure code && is_running r.status && holds r.checkpoint.generation b.run_generation

abbrev pub interrupt : CrawlRun → CrawlRun
interrupt r = record r { status = RunStatus.interrupted }

unfoldable pub after_exit : ℕ → ℕ → Batch → ReturnCode → CrawlRun → Ledger → Ledger
after_exit now source b code r db =
    if is_crash b code r
    then modify_runtime source (note_crash now)
        (modify_run b.run_id interrupt (fence_tasks b.run_id false db))
    else db

-- The ledger after the worker's exit; the flag asks for the alert "collection_failed".
unfoldable pub record_exit : ℕ → ℕ → Batch → ReturnCode → Ledger → Ledger × Bool
unfolding runtime_row after_exit
record_exit now source b code db =
    let (rt, db') = runtime_row source db in
    elim (find b.run_id db'.runs) [
      | none ↦ (db', false)
      | some r ↦
          if rt.generation == b.source_generation
          then (
            add_audits
                (record {
                  admin_id = none;
                  action = AuditAction.batch_exited;
                  target_type = TargetType.run;
                  target_id = r.run_id;
                  outcome = if is_failure code then Outcome.failed else Outcome.succeeded;
                  details =
                      AuditDetails.exit_status code
                        (if is_crash b code r then RunStatus.interrupted else r.status);
                }
                  ∷ [])
                (modify_runtime source (release_runtime now) (after_exit now source b code r db')),
            is_crash b code r,
          )
          else (db', false)
    ]

-- What the budget says: claim, wait, or give up and raise the alert "recovery_exhausted".
pub data Budget : Type 0 where
  granted waiting exhausted : Budget

abbrev pub exhaust : SourceRuntime → SourceRuntime
exhaust rt = record rt {
  status = RuntimeStatus.paused;
  pause_reason = some PauseReason.recovery_exhausted;
}

abbrev pub budget_of : ℕ → SourceRuntime → Budget
budget_of now rt = elim rt.status [
  | RuntimeStatus.paused ↦ Budget.waiting
  | _ ↦
      if not rt.restart_pending
      then Budget.granted
      else if after rt.retry_at now
      then Budget.waiting
      else if leb 3 (length (recent now rt.restart_history))
      then Budget.exhausted
      else Budget.granted
]

unfoldable pub restart_budget : ℕ → ℕ → Ledger → Budget × Ledger
unfolding runtime_row
restart_budget now source db =
    let (rt, db') = runtime_row source db in
    elim (budget_of now rt) [
      | Budget.exhausted ↦ (Budget.exhausted, modify_runtime source exhaust db')
      | other ↦ (other, db')
    ]

-- How long a new executor waits for the lease of the one before it.
unfoldable pub takeover_delay : ℕ → ℕ → Ledger → ℕ × Ledger
unfolding runtime_row
takeover_delay now source db =
    let (rt, db') = runtime_row source db in
    (
      if is_some rt.owner && after rt.lease_expires_at now
          then get_or rt.lease_expires_at 0 - now
          else 0,
      db',
    )

abbrev pub seize : ℕ → SourceRuntime → SourceRuntime
seize owner rt = record rt {
  status = elim rt.status [ RuntimeStatus.running ↦ RuntimeStatus.idle | other ↦ other ];
  restart_pending = elim rt.status [ RuntimeStatus.running ↦ true | _ ↦ rt.restart_pending ];
  owner = some owner;
}

-- The row as the new executor takes it over.
unfoldable pub takeover : ℕ → ℕ → Ledger → Ledger
unfolding runtime_row
takeover source owner db = modify_runtime source (seize owner) (runtime_row source db).1
