-- ===== src/Worker/Failure.antt =====
-- How a worker reports a failure: `failed` of backend/src/marketmind/scrapy_worker.py.
use market_mind.Prelude.{
  ℕ, ◌+◌, ◌*◌, ◌^◌, min, Bool, true, false, ◌&&◌, Option, none, some, [], ◌∷◌, ◌++◌, if◌then◌else◌,
  holds, get_or, ltb, find,
}
use market_mind.Ledger.{
  RunStatus, TaskStatus, RuntimeStatus, SourceErrorCode, PauseReason, CoverageGap, Ledger, CrawlRun,
  CrawlTask, SourceRuntime, runtime_identity, run_identity, task_identity,
}
use market_mind.Runtime.{seconds, modify_run, modify_runtime, modify_task, runtime_row}
use Prim.Native.String.{String}
use market_mind.Worker.Lease.{Spider, is_task_running, owns_run}

-- the codes for which an administrator has to look at the source
abbrev pub needs_review : SourceErrorCode → Bool
needs_review SourceErrorCode.proxy_exhausted = true
needs_review SourceErrorCode.parse_error = true
needs_review SourceErrorCode.structure_changed = true
needs_review SourceErrorCode.challenge = true
needs_review SourceErrorCode.access_denied = true
needs_review SourceErrorCode.unsafe_target = true
needs_review _ = false

-- the branches of `failed`
pub data Verdict : Type 0 where
  replay_limit login review retry give_up : Verdict

abbrev pub may_retry : CrawlTask → Bool
may_retry t = ltb t.attempt (get_or t.request_params.retry_base 0 + 4)

abbrev pub judge : SourceErrorCode → CrawlTask → Verdict
judge SourceErrorCode.cls_replay_limit t = Verdict.replay_limit
judge SourceErrorCode.waiting_login t = Verdict.login
judge code t =
    if needs_review code
    then Verdict.review
    else if may_retry t
    then Verdict.retry
    else Verdict.give_up

-- `min(300, 10 * 2 ** min(attempt, 5))` seconds
abbrev pub retry_delay : ℕ → ℕ
retry_delay attempt = min 300 (10 * 2 ^ min attempt 5)

-- the lease is given back whatever the verdict
abbrev pub drop_lease : SourceErrorCode → CrawlTask → CrawlTask
drop_lease code t = record t { lease_owner = none; lease_expires_at = none; error_code = some code }

abbrev pub fail_task : ℕ → SourceErrorCode → Verdict → CrawlTask → CrawlTask
fail_task now code Verdict.replay_limit t = record (drop_lease code t) {
  status = TaskStatus.failed;
  completed_at = some now;
}
fail_task now code Verdict.login t = record (drop_lease code t) { status = TaskStatus.pending }
fail_task now code Verdict.review t = record (drop_lease code t) { status = TaskStatus.pending }
fail_task now code Verdict.retry t = record (drop_lease code t) {
  status = TaskStatus.retry_wait;
  retry_at = some (now + seconds (retry_delay t.attempt));
}
fail_task now code Verdict.give_up t = record (drop_lease code t) { status = TaskStatus.failed }

abbrev pub end_run : ℕ → SourceErrorCode → Option String → CrawlRun → CrawlRun
end_run now code cursor r = record r {
  status = RunStatus.partial_failed;
  finished_at = some now;
  coverage_gaps = r.coverage_gaps ++ (CoverageGap.replay_gap code cursor ∷ []);
}

abbrev pub fail_run : ℕ → SourceErrorCode → Option String → Verdict → CrawlRun → CrawlRun
fail_run now code cursor Verdict.replay_limit r = end_run now code cursor r
fail_run now code cursor Verdict.login r = record r { status = RunStatus.waiting_login }
fail_run now code cursor Verdict.review r = record r { status = RunStatus.paused }
fail_run now code cursor Verdict.retry r = record r { status = RunStatus.queued }
fail_run now code cursor Verdict.give_up r = end_run now code cursor r

abbrev pub fail_runtime : SourceErrorCode → Verdict → SourceRuntime → SourceRuntime
fail_runtime code Verdict.login rt = record rt { status = RuntimeStatus.waiting_login }
fail_runtime code Verdict.review rt = record rt {
  status = RuntimeStatus.paused;
  pause_reason = some (PauseReason.source_error code);
}
fail_runtime code _ rt = rt

-- The kinds of alert that `failed` raises.
pub data AlertKind : Type 0 where
  coverage_gap redis_unavailable parse_failed collection_failed : AlertKind
  waiting_login proxy_exhausted : AlertKind

unfoldable pub alert_kind : SourceErrorCode → AlertKind
alert_kind SourceErrorCode.cls_replay_limit = AlertKind.coverage_gap
alert_kind SourceErrorCode.rate_limit_unavailable = AlertKind.redis_unavailable
alert_kind SourceErrorCode.parse_error = AlertKind.parse_failed
alert_kind SourceErrorCode.structure_changed = AlertKind.parse_failed
alert_kind SourceErrorCode.waiting_login = AlertKind.waiting_login
alert_kind SourceErrorCode.proxy_exhausted = AlertKind.proxy_exhausted
alert_kind _ = AlertKind.collection_failed

abbrev pub apply_verdict : ℕ → Spider → SourceErrorCode → CrawlTask → Ledger → Ledger
apply_verdict now s code t db =
    let v = judge code t in
    modify_runtime s.source_id (fail_runtime code v) (
      modify_run s.run_id (fail_run now code t.request_params.cursor v)
        (modify_task t.task_id (fail_task now code v) db))

-- `failed` for an exception with this code: the alert that it raises, if it still owns the task.
unfoldable pub failed :
    ℕ → Spider → ℕ → Option ℕ → SourceErrorCode → Ledger → Option AlertKind × Ledger
unfolding runtime_row alert_kind
failed now s task generation code db =
    let (rt, db') = runtime_row s.source_id db in
    elim (find s.run_id db'.runs) [
      | none ↦ (none, db')
      | some r ↦ elim (find task db'.tasks) [
        | none ↦ (none, db')
        | some t ↦
            if owns_run s rt r && is_task_running t.status && holds generation t.generation
            then (some (alert_kind code), apply_verdict now s code t db')
            else (none, db')
      ]
    ]
