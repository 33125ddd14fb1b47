-- ===== src/Sessions/Workers.antt =====
-- What a session's end does to the workers of its source: the runs wait for a login, whatever
-- lease a worker holds.
use market_mind.Prelude.{
  ℕ, ◌≡◌, refl, ap, ◌∙◌, true, false, none, some, List, [], ◌∷◌, map, arith, find, count-map_le,
  count-map_same, ◌==◌,
}
use market_mind.Ledger.{Ledger, CrawlRun, RunType, run_identity, is_running}
use market_mind.Runtime.{runtime_row, runtime_row-runs}
use market_mind.Runtime.Recovery.{in_lane}
use market_mind.Runtime.Lanes.Basic.{IsConsistent}
use market_mind.Worker.{Spider}
use market_mind.Generations.Stale.{IsRefused, disowned-IsRefused}
use market_mind.Sessions.{pause_source_runs, pause_run, release_source_runs, release_run}

-- a run of the source no longer runs once it is paused
pause_run-stops :
    (source : ℕ) (r : CrawlRun)
    → r.source_id ≡ source
    → is_running (pause_run source r).status ≡ false
pause_run-stops source r own = ground (arith, own)

find-pause_run :
    (k source : ℕ) (runs : List CrawlRun)
    → find k (map (pause_run source) runs)
      ≡ elim (find k runs) [ none ↦ none | some r ↦ some (pause_run source r) ]
find-pause_run k source [] = refl
find-pause_run k source (r ∷ rs) = ground (arith, find-pause_run k source rs)

-- Once the runs of a source are paused for a login, a worker of a run of that source takes no
-- task, extends no lease and reports no failure.
pub pause_source_runs-IsRefused :
    (s : Spider) (db : Ledger) (r : CrawlRun)
    → find s.run_id db.runs ≡ some r
    → r.source_id ≡ s.source_id
    → IsRefused s (pause_source_runs s.source_id db)
unfolding pause_source_runs
pause_source_runs-IsRefused s db r found own =
    let paused = pause_source_runs s.source_id db in
    let same : (runtime_row s.source_id paused).1.runs ≡ map (pause_run s.source_id) db.runs =
      runtime_row-runs s.source_id paused in
    let row : find s.run_id (runtime_row s.source_id paused).1.runs
        ≡ some (pause_run s.source_id r) =
      ap (find s.run_id) same ∙ rw (find-pause_run s.run_id s.source_id db.runs, found) refl in
    disowned-IsRefused s paused (ground (arith, row, pause_run-stops s.source_id r own))

-- Pausing the runs of a source for a login, and releasing them after it, keeps run identifiers
-- unique and every lane at one active run at most.
pub pause_source_runs-IsConsistent :
    (source : ℕ) (db : Ledger)
    → IsConsistent db.runs
    → IsConsistent (pause_source_runs source db).runs
      × IsConsistent (release_source_runs source db).runs
unfolding pause_source_runs release_source_runs
pause_source_runs-IsConsistent source db h = (
  held (pause_run source) (λ r. ground arith) (λ c t r. ground arith),
  held (release_run source) (λ r. ground arith) (λ c t r. ground arith),
)
  where
    held :
        (f : CrawlRun → CrawlRun)
        → ((r : CrawlRun) → (f r).run_id ≡ r.run_id)
        → ((c : ℕ) (t : RunType) (r : CrawlRun) → in_lane c t (f r) ≡ true → in_lane c t r ≡ true)
        → IsConsistent (map f db.runs)
    held f keep lane = record {
      unique_ids = λ k. omega (
        arith,
        h.unique_ids k,
        count-map_same (λ r. r.run_id == k) f db.runs (λ r. ground (arith, keep r)),
      );
      unique_lanes =
          λ c t. omega (arith, h.unique_lanes c t, count-map_le (in_lane c t) f db.runs (lane c t));
    }
