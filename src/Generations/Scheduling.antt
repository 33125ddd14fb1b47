-- ===== src/Generations/Scheduling.antt =====
-- A round of the scheduler lets no generation fall: backend/src/marketmind/scheduler.py.
use market_mind.Prelude.{ℕ, ◌≤◌, ◌≡◌, arith, modify}
use market_mind.Ledger.{Ledger, Collector, CrawlRun, run_identity}
use market_mind.Runtime.{Uuid4, create_run}
use market_mind.Scheduler.{Jitter, note_window, schedule_once}
use market_mind.Scheduler.Keeps.{schedule_once-Keeps}
use market_mind.Generations.Growth.{generation_of, Grows, Grows-trans, Grows-refl, modify-Grows}
use market_mind.Generations.Actions.{Later, create_run-Grows}

note_window-grow :
    (start : ℕ) (c : Collector) (r : CrawlRun)
    → generation_of r ≤ generation_of (note_window start c r)
note_window-grow start c r = ground arith

note_window-same :
    (start : ℕ) (c : Collector) (r : CrawlRun) → (note_window start c r).run_id ≡ r.run_id
note_window-same start c r = ground arith

pub schedule_once-Grows :
    (uuid : Uuid4) (jitter : Jitter) (stamp : ℕ) (db : Ledger)
    → Later db (schedule_once uuid jitter stamp db)
schedule_once-Grows uuid jitter stamp db =
    schedule_once-Keeps uuid (Grows db.runs)
      (λ now c source spec d h.
        Grows-trans db.runs d.runs (create_run uuid now c source spec d).1.runs h
          (create_run-Grows uuid now c source spec d))
      (λ start c k runs h. Grows-trans db.runs runs (modify k (note_window start c) runs) h (
        modify-Grows k (note_window start c) runs (note_window-same start c)
          (note_window-grow start c)))
      jitter stamp db (Grows-refl db.runs)
