-- ===== src/Worker/Reports.antt =====
-- What a reported failure leaves of the task, the run and the source: `failed` of
-- backend/src/marketmind/scrapy_worker.py.
use Prim.Native.String.{String}
use market_mind.Prelude.{
  ℕ, Bool, true, false, ◌⊎◌, inl, inr, two_power, ◌+◌, ◌≤◌, ◌<◌, ◌≡◌, refl, Option, none, some,
  arith, find, find-modify_same, holds, get_or, min, Option-cases, find-id,
}
use market_mind.Ledger.{
  TaskStatus, SourceErrorCode, Ledger, CrawlRun, CrawlTask, runtime_identity, run_identity,
  task_identity, is_running,
}
use market_mind.Runtime.{seconds, runtime_row}
use market_mind.Worker.Lease.{Spider, is_task_running, owns_run}
use market_mind.Worker.Failure.{
  Verdict, judge, may_retry, retry_delay, fail_task, fail_run, AlertKind, apply_verdict, failed,
}

abbrev pub is_waiting_retry : TaskStatus → Bool
is_waiting_retry TaskStatus.retry_wait = true
is_waiting_retry _ = false

-- The task has lost its lease and keeps the code; if it is to be retried, it had attempts left and
-- waits for at most 300 seconds; and the run is no longer running.
pub record IsReported (now : ℕ) (code : SourceErrorCode) (t : CrawlTask) (s : Spider) (db' : Ledger)
    : Type 0 where
  pub task : CrawlTask
  pub run : CrawlRun
  pub found_task : find t.task_id db'.tasks ≡ some task
  pub found_run : find s.run_id db'.runs ≡ some run
  pub idle : is_task_running task.status ≡ false
  pub released : task.lease_expires_at ≡ none
  pub noted : task.error_code ≡ some code
  pub halted : is_running run.status ≡ false
  pub retried :
      (is_waiting_retry task.status ≡ false)
      ⊎ ((t.attempt < get_or t.request_params.retry_base 0 + 4)
          × (k : ℕ) × (task.retry_at ≡ some (now + seconds k))
          × (10 ≤ k)
          × (k ≤ 300))

retry_delay-bounds : (attempt : ℕ) → (10 ≤ retry_delay attempt) × (retry_delay attempt ≤ 300)
retry_delay-bounds n = (omega (arith, two_power (min n 5)), omega arith)

judge-retry :
    (code : SourceErrorCode) (t : CrawlTask) → judge code t ≡ Verdict.retry → may_retry t ≡ true
judge-retry code t h = ground arith

fail_task-IsIdle :
    (now : ℕ) (code : SourceErrorCode) (v : Verdict) (t : CrawlTask)
    → (is_task_running (fail_task now code v t).status ≡ false)
      × ((fail_task now code v t).lease_expires_at ≡ none)
      × ((fail_task now code v t).error_code ≡ some code)
      × ((fail_task now code v t).task_id ≡ t.task_id)
      × ((is_waiting_retry (fail_task now code v t).status ≡ false)
          ⊎ ((v ≡ Verdict.retry)
              × ((fail_task now code v t).retry_at ≡ some (now + seconds (retry_delay t.attempt)))))
fail_task-IsIdle now code Verdict.replay_limit t = (refl, refl, refl, refl, inl refl)
fail_task-IsIdle now code Verdict.login t = (refl, refl, refl, refl, inl refl)
fail_task-IsIdle now code Verdict.review t = (refl, refl, refl, refl, inl refl)
fail_task-IsIdle now code Verdict.retry t = (refl, refl, refl, refl, inr (refl, refl))
fail_task-IsIdle now code Verdict.give_up t = (refl, refl, refl, refl, inl refl)

fail_run-IsHalted :
    (now : ℕ) (code : SourceErrorCode) (cursor : Option String) (v : Verdict) (r : CrawlRun)
    → (is_running (fail_run now code cursor v r).status ≡ false)
      × ((fail_run now code cursor v r).run_id ≡ r.run_id)
fail_run-IsHalted now code cursor Verdict.replay_limit r = (refl, refl)
fail_run-IsHalted now code cursor Verdict.login r = (refl, refl)
fail_run-IsHalted now code cursor Verdict.review r = (refl, refl)
fail_run-IsHalted now code cursor Verdict.retry r = (refl, refl)
fail_run-IsHalted now code cursor Verdict.give_up r = (refl, refl)

-- the inversion of a report that is accepted
failed-accepted :
    (now : ℕ) (s : Spider) (task : ℕ) (g : Option ℕ) (code : SourceErrorCode) (db d : Ledger)
    (kind : AlertKind)
    → failed now s task g code db ≡ (some kind, d)
    → (r : CrawlRun) × (t : CrawlTask) × (find s.run_id (runtime_row s.source_id db).1.runs
        ≡ some r)
      × (find task (runtime_row s.source_id db).1.tasks ≡ some t)
      × (owns_run s (runtime_row s.source_id db).0 r ≡ true)
      × (holds g t.generation ≡ true)
      × (d ≡ apply_verdict now s code t (runtime_row s.source_id db).1)
unfolding failed
failed-accepted now s task g code db d kind e =
    elim (Option-cases (find s.run_id (runtime_row s.source_id db).1.runs)) [
      | inl bad ↦ absurd (ground arith)
      | inr (r, found_r) ↦ elim (Option-cases (find task (runtime_row s.source_id db).1.tasks)) [
        | inl bad ↦ absurd (ground arith)
        | inr (t, found_t) ↦ (r, t, found_r, found_t, ground arith, ground arith, ground arith)
      ]
    ]

-- A report that is accepted names the current generation of the task, takes the task's lease away, stops the
-- run, and schedules a retry only while attempts are left, 10 to 300 seconds later.
pub failed-IsReported :
    (now : ℕ) (s : Spider) (task : ℕ) (g : Option ℕ) (code : SourceErrorCode) (db d : Ledger)
    (kind : AlertKind)
    → failed now s task g code db ≡ (some kind, d)
    → (t : CrawlTask) × (find task (runtime_row s.source_id db).1.tasks ≡ some t)
      × (holds g t.generation ≡ true)
      × IsReported now code t s d
failed-IsReported now s task g code db d kind e =
    let (r, t, found_r, found_t, owner, held, result) =
      failed-accepted now s task g code db d kind e in
    let v = judge code t in
    let db1 = (runtime_row s.source_id db).1 in
    let (idle, released, noted, _, retry) = fail_task-IsIdle now code v t in
    let at : find t.task_id db1.tasks ≡ some t = rw (find-id task db1.tasks t found_t) found_t in
    let halted = fail_run-IsHalted now code t.request_params.cursor v r in
    (
      t,
      found_t,
      held,
      record {
        task = fail_task now code v t;
        run = fail_run now code t.request_params.cursor v r;
        found_task = rw result (
            find-modify_same t.task_id (fail_task now code v) db1.tasks t
              (λ x. (fail_task-IsIdle now code v x).3) at);
        found_run = rw result (
            find-modify_same s.run_id (fail_run now code t.request_params.cursor v) db1.runs r
              (λ x. (fail_run-IsHalted now code t.request_params.cursor v x).1) found_r);
        idle = idle;
        released = released;
        noted = noted;
        halted = halted.0;
        retried = elim retry [
          | inl calm ↦ inl calm
          | inr (verdict, delay) ↦ inr (
            ground (arith, judge-retry code t verdict),
            retry_delay t.attempt,
            delay,
            (retry_delay-bounds t.attempt).0,
            (retry_delay-bounds t.attempt).1,
          )
        ];
      },
    )
