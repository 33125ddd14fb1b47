-- ===== src/Runtime/Outcomes.antt =====
-- What an action that goes through has tested and done, of backend/src/marketmind/runtime.py.
use market_mind.Prelude.{ℕ, ◌≡◌, ◌⊎◌, Bool, true, false, Option, some, any, arith}
use market_mind.Ledger.{
  RunStatus, Action, is_active, is_completed, Ledger, CrawlRun, CrawlTask, ControlCommand,
}
use market_mind.Runtime.Results.{ok}
use market_mind.Runtime.Recovery.{
  competes, fence_tasks, modify_run, requeue, resume_run, runtime_row,
}
use market_mind.Runtime.Processing.{check_restart}
use market_mind.Runtime.Commands.{apply_action}

-- What a successful `resume_run` has tested and done.
pub resume_run-ok :
    (run : CrawlRun) (db db' : Ledger)
    → resume_run run db ≡ ok db'
    → (is_completed run.status ≡ false)
      × (any (competes run) db.runs ≡ false)
      × (db' ≡ modify_run run.run_id requeue (fence_tasks run.run_id false db))
unfolding resume_run
resume_run-ok run db db' h = ground arith

pub pause-ok :
    (now : ℕ) (task : Option CrawlTask) (db db' : Ledger) (run : CrawlRun)
    → apply_action now Action.pause task db run ≡ ok db'
    → (is_active run.status ≡ true)
      × (modify_run run.run_id
            (λ r. record r { status = RunStatus.paused })
            (fence_tasks run.run_id false db)
          ≡ db')
unfolding apply_action
pause-ok now task db db' run done = ground arith

pub cancel-ok :
    (now : ℕ) (task : Option CrawlTask) (db db' : Ledger) (run : CrawlRun)
    → apply_action now Action.cancel task db run ≡ ok db'
    → modify_run run.run_id
        (λ r. record r { status = RunStatus.cancelled; finished_at = some now })
        (fence_tasks run.run_id true db)
      ≡ db'
unfolding apply_action
cancel-ok now task db db' run done = ground arith

pub run-ok :
    (now : ℕ) (task : Option CrawlTask) (db db' : Ledger) (run : CrawlRun)
    → apply_action now Action.run task db run ≡ ok db'
    → (db ≡ db')
      ⊎ ((run.status ≡ RunStatus.interrupted)
          × (modify_run run.run_id (λ r. record r { status = RunStatus.queued }) db ≡ db'))
unfolding apply_action
run-ok now task db db' run done = ground arith

-- some steps leave the runs alone
pub check_restart-runs :
    (now source : ℕ) (c : ControlCommand) (db : Ledger) (r : Ledger × Bool)
    → check_restart now source c db ≡ ok r
    → r.0.runs ≡ db.runs
unfolding check_restart
check_restart-runs now source c db r done = ground arith

pub runtime_row-runs : (source : ℕ) (db : Ledger) → (runtime_row source db).1.runs ≡ db.runs
unfolding runtime_row
runtime_row-runs source db = ground arith
