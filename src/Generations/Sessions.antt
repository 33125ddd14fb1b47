-- ===== src/Generations/Sessions.antt =====
-- The transactions of a login on the runs of its source let no generation fall:
-- `pause_source_runs` of backend/src/marketmind/sessions.py, and what
-- backend/src/marketmind/session_worker.py releases.
use market_mind.Prelude.{ℕ, arith}
use market_mind.Ledger.{Ledger}
use market_mind.Sessions.{pause_source_runs, pause_run, release_source_runs, release_run}
use market_mind.Generations.Growth.{map-Grows}
use market_mind.Generations.Actions.{Later}

pub pause_source_runs-Grows : (source : ℕ) (db : Ledger) → Later db (pause_source_runs source db)
unfolding pause_source_runs
pause_source_runs-Grows source db =
    map-Grows (pause_run source) db.runs (λ r. ground arith) (λ r. ground arith)

pub release_source_runs-Grows :
    (source : ℕ) (db : Ledger) → Later db (release_source_runs source db)
unfolding release_source_runs
release_source_runs-Grows source db =
    map-Grows (release_run source) db.runs (λ r. ground arith) (λ r. ground arith)
