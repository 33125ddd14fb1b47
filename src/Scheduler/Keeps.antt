-- ===== src/Scheduler/Keeps.antt =====
-- A property of the runs that new runs and the note of a gap keep is kept by a round of the
-- scheduler, backend/src/marketmind/scheduler.py.
use market_mind.Prelude.{
  ℕ, Bool, true, false, not, ◌&&◌, Option, none, some, List, [], ◌∷◌, if◌then◌else◌, after, select,
  find, modify, subst, sym, ◌==◌,
}
use market_mind.Ledger.{
  Ledger, Source, Collector, CrawlRun, run_identity, collector_identity, source_identity,
}
use market_mind.Runtime.{
  Uuid4, NewRun, create_run, modify_runtime, runtime_row, runtime_row-runs, is_stopped,
}
use market_mind.Scheduler.{
  Jitter, realtime_spec, recovery_spec, window_start, note_window, needs_backfill, make_recovery,
  plan_next, schedule_collector, schedule_collectors, schedule_source, schedule_each, schedule_once,
  note_scheduled,
}

-- the uses that a round makes of the runs
module _ (uuid : Uuid4) (P : List CrawlRun → Type 0)
    (create : (now : ℕ) (c : Collector) (source : Source) (spec : NewRun) (db : Ledger)
      → P db.runs
      → P (create_run uuid now c source spec db).1.runs)
    (note : (start : ℕ) (c : Collector) (k : ℕ) (runs : List CrawlRun)
      → P runs
      → P (modify k (note_window start c) runs)) where
  make_recovery-Keeps :
      (stamp : ℕ) (c : Collector) (source : Source) (db : Ledger)
      → P db.runs
      → P (make_recovery uuid stamp c source db).runs
  make_recovery-Keeps stamp c source db h =
      let start = window_start stamp c in
      let (run, db') = create_run uuid stamp c source (recovery_spec start stamp) db in
      note start c run.run_id db'.runs (create stamp c source (recovery_spec start stamp) db h)

  schedule_collector-Keeps :
      (jitter : Jitter) (stamp : ℕ) (source : Source) (c : Collector) (db : Ledger)
      → P db.runs
      → P (schedule_collector uuid jitter stamp source c db).runs
  unfolding schedule_collector
  schedule_collector-Keeps jitter stamp source c db h =
      let (run, db1) = create_run uuid stamp c source (realtime_spec stamp c) db in
      let db2 : Ledger = record db1 {
        collectors = modify c.collector_id (plan_next jitter stamp) db1.collectors;
      } in
      let kept = create stamp c source (realtime_spec stamp c) db h in
      if-runs (after c.next_run_at stamp) db _ h (
        if-runs (needs_backfill stamp c db2.runs) (make_recovery uuid stamp c source db2) db2
          (make_recovery-Keeps stamp c source db2 kept) kept)
    where
      if-runs : (b : Bool) (d e : Ledger) → P d.runs → P e.runs → P (if b then d else e).runs
      if-runs true d e p q = p
      if-runs false d e p q = q

  schedule_collectors-Keeps :
      (jitter : Jitter) (stamp : ℕ) (source : Source) (cs : List Collector) (db : Ledger)
      → P db.runs
      → P (schedule_collectors uuid jitter stamp source cs db).runs
  unfolding schedule_collectors
  schedule_collectors-Keeps jitter stamp source [] db h = h
  schedule_collectors-Keeps jitter stamp source (c ∷ cs) db h =
      schedule_collectors-Keeps jitter stamp source cs
        (schedule_collector uuid jitter stamp source c db)
        (schedule_collector-Keeps jitter stamp source c db h)

  schedule_source-Keeps :
      (jitter : Jitter) (stamp k : ℕ) (db : Ledger)
      → P db.runs
      → P (schedule_source uuid jitter stamp k db).runs
  unfolding schedule_source
  schedule_source-Keeps jitter stamp k db h = go (find k db.sources)
    where
      row : P (runtime_row k db).1.runs
      row = subst P (sym (runtime_row-runs k db)) h

      scheduled : Source → Ledger
      scheduled source =
          schedule_collectors uuid jitter stamp source
            (select (λ c. c.source_id == k && c.enabled) (runtime_row k db).1.collectors)
            (runtime_row k db).1

      branch :
          (source : Source) (stopped : Bool)
          → P
              (if stopped
                then (runtime_row k db).1
                else modify_runtime k (note_scheduled stamp) (scheduled source)).runs
      branch source true = row
      branch source false =
          schedule_collectors-Keeps jitter stamp source
            (select (λ c. c.source_id == k && c.enabled) (runtime_row k db).1.collectors)
            (runtime_row k db).1 row

      enabled :
          (source : Source) (b : Bool)
          → P
              (if not b
                then db
                else if is_stopped (runtime_row k db).0.status
                then (runtime_row k db).1
                else modify_runtime k (note_scheduled stamp) (scheduled source)).runs
      enabled source true = branch source (is_stopped (runtime_row k db).0.status)
      enabled source false = h

      go :
          (found : Option Source)
          → P (
              let d : Ledger = elim found [
                | none ↦ db
                | some source ↦
                    if not source.enabled
                    then db
                    else if is_stopped (runtime_row k db).0.status
                    then (runtime_row k db).1
                    else modify_runtime k (note_scheduled stamp) (scheduled source)
              ] in
              d.runs)
      go none = h
      go (some source) = enabled source source.enabled

  schedule_each-Keeps :
      (jitter : Jitter) (stamp : ℕ) (ss : List Source) (db : Ledger)
      → P db.runs
      → P (schedule_each uuid jitter stamp ss db).runs
  unfolding schedule_each
  schedule_each-Keeps jitter stamp [] db h = h
  schedule_each-Keeps jitter stamp (s ∷ ss) db h =
      schedule_each-Keeps jitter stamp ss (schedule_source uuid jitter stamp s.source_id db)
        (schedule_source-Keeps jitter stamp s.source_id db h)

  pub schedule_once-Keeps :
      (jitter : Jitter) (stamp : ℕ) (db : Ledger)
      → P db.runs
      → P (schedule_once uuid jitter stamp db).runs
  unfolding schedule_once
  schedule_once-Keeps jitter stamp db h =
      schedule_each-Keeps jitter stamp (select (λ s. s.enabled) db.sources) db h
