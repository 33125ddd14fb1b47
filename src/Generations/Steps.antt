-- ===== src/Generations/Steps.antt =====
-- The steps that the processes of the sources take on the ledger, in any order and interleaving:
-- the scheduler (backend/src/marketmind/scheduler.py), executors with their commands
-- (backend/src/marketmind/runtime.py), workers
-- (backend/src/marketmind/scrapy_worker.py), ingestion (backend/src/marketmind/ingestion.py), and
-- the pause and the release of runs by a login (backend/src/marketmind/sessions.py,
-- session_worker.py). Of the API (backend/src/marketmind/controls.py) a step has only the extent:
-- it adds any runs and commands, and sets the sources and the collectors to anything. The
-- command-line tool (backend/src/marketmind/collect.py) adds a run as well, or resumes one and sets
-- the row of its source.
use market_mind.Prelude.{ℕ, ◌≡◌, Option, some, List, ◌++◌, refl, subst, sym, ◌∙◌}
use market_mind.Ledger.{
  ReturnCode, SourceErrorCode, Counts, Ledger, CrawlRun, ControlCommand, Source, SourceRuntime,
  Collector,
}
use market_mind.Runtime.{
  Uuid4, ok, Ensures, resume_run, modify_runtime, runtime_row, runtime_row-runs, commands, Batch,
  Executor, claim_batch, supervise_tick, record_exit, restart_budget, takeover,
}
use market_mind.Worker.{Spider, Request, download, heartbeat, failed}
use market_mind.Ingestion.{Hasher, Lease, PageResult, NewsStore, persist_page}
use market_mind.Scheduler.{Jitter, schedule_once}
use market_mind.Sessions.{pause_source_runs, release_source_runs}
use market_mind.Generations.Scheduling.{schedule_once-Grows}
use market_mind.Generations.Sessions.{pause_source_runs-Grows, release_source_runs-Grows}
use market_mind.Generations.Growth.{Grows, Grows-trans, Grows-refl, append-Grows}
use market_mind.Generations.Actions.{Later, resume_run-Grows}
use market_mind.Generations.Commands.{commands-Grows}
use market_mind.Generations.Executor.{
  claim_batch-Grows, record_exit-Grows, supervise_tick-runs, restart_budget-runs, takeover-runs,
}
use market_mind.Generations.Worker.{
  download-Grows, heartbeat-Grows, failed-Grows, persist_page-Grows,
}

-- a step that leaves the runs of `runtime_row` alone
same-Grows :
    (source : ℕ) (db : Ledger) {runs : List CrawlRun}
    → runs ≡ (runtime_row source db).1.runs
    → Grows db.runs runs
same-Grows source db e =
    subst (Grows db.runs) (sym (e ∙ runtime_row-runs source db)) (Grows-refl db.runs)

module _ (uuid : Uuid4) (hasher : Hasher) where
  pub data Step (db : Ledger) : Ledger → Type 0 where
    run_queue : (now source : ℕ) → Step db (commands uuid now source db).0
    claim :
        (now source : ℕ) (e : Executor) (asked : Option ℕ)
        → Step db (claim_batch uuid now source e asked db).1
    tick :
        (now elapsed source owner : ℕ) (b : Batch)
        → Step db (supervise_tick now elapsed source owner b db).1
    exit :
        (now source : ℕ) (b : Batch) (code : ReturnCode)
        → Step db (record_exit now source b code db).0
    budget : (now source : ℕ) → Step db (restart_budget now source db).1
    schedule : (jitter : Jitter) (stamp : ℕ) → Step db (schedule_once uuid jitter stamp db)
    take_over : (source owner : ℕ) → Step db (takeover source owner db)
    fetch : (now : ℕ) (s : Spider) (q : Request) → Step db (download now s q db).1
    beat : (now : ℕ) (s : Spider) (task g : ℕ) → Step db (heartbeat now s task g db).1
    fail :
        (now : ℕ) (s : Spider) (task : ℕ) (g : Option ℕ) (code : SourceErrorCode)
        → Step db (failed now s task g code db).1
    request :
        (new : List CrawlRun) (cs : List ControlCommand)
        → Step db (record db { runs = db.runs ++ new; commands = db.commands ++ cs })
    resume :
        (source : ℕ) (run : CrawlRun) (f : SourceRuntime → SourceRuntime) (d : Ledger)
        → resume_run run (runtime_row source db).1 ≡ ok d
        → Step db (modify_runtime source f d)
    configure :
        (ss : List Source) (cs : List Collector)
        → Step db (record db { sources = ss; collectors = cs })
    pause : (source : ℕ) → Step db (pause_source_runs source db)
    release : (source : ℕ) → Step db (release_source_runs source db)
    persist :
        (now : ℕ) (l : Lease) (page : PageResult) (news : NewsStore) (counts : Counts)
        (db' : Ledger) (news' : NewsStore)
        → persist_page uuid hasher now l page (db, news) ≡ some (counts, db', news')
        → Step db db'

  pub data Reach (db : Ledger) : Ledger → Type 0 where
    here : Reach db db
    next : {d e : Ledger} → Reach db d → Step d e → Reach db e

  pub Step-Later : {db d : Ledger} → Step db d → Later db d
  Step-Later {db} (run_queue now source) = commands-Grows uuid now source db
  Step-Later {db} (claim now source e asked) = claim_batch-Grows uuid now source e asked db
  Step-Later {db} (tick now elapsed source owner b) =
      same-Grows source db (supervise_tick-runs now elapsed source owner b db)
  Step-Later {db} (exit now source b code) = record_exit-Grows now source b code db
  Step-Later {db} (budget now source) = same-Grows source db (restart_budget-runs now source db)
  Step-Later {db} (schedule jitter stamp) = schedule_once-Grows uuid jitter stamp db
  Step-Later {db} (take_over source owner) = same-Grows source db (takeover-runs source owner db)
  Step-Later {db} (fetch now s q) = download-Grows now s q db
  Step-Later {db} (beat now s task g) = heartbeat-Grows now s task g db
  Step-Later {db} (fail now s task g code) = failed-Grows now s task g code db
  Step-Later {db} (request new cs) = append-Grows new db.runs
  Step-Later {db} (resume source run f d e) =
      Grows-trans db.runs (runtime_row source db).1.runs d.runs (same-Grows source db refl) (
        subst (Ensures (Later (runtime_row source db).1)) e
          (resume_run-Grows run (runtime_row source db).1))
  Step-Later {db} (configure ss cs) = Grows-refl db.runs
  Step-Later {db} (pause source) = pause_source_runs-Grows source db
  Step-Later {db} (release source) = release_source_runs-Grows source db
  Step-Later {db} (persist now l page news counts db' news' e) =
      persist_page-Grows uuid hasher now l page db news counts db' news' e

  -- No sequence of steps of the scheduler, the executors, the workers and ingestion, of runs that are added or resumed by hand,
  -- and of runs that a login pauses or releases, lets the generation of a run fall.
  pub Reach-Later : {db d : Ledger} → Reach db d → Later db d
  Reach-Later {db} here = Grows-refl db.runs
  Reach-Later {db} (next {d = d} {e = e} r s) =
      Grows-trans db.runs d.runs e.runs (Reach-Later r) (Step-Later s)
