-- ===== src/Runtime/Lanes/Commands.antt =====
-- A whole command and the queue of commands keep the index, so the flush after a command never
-- finds it violated.
use market_mind.Prelude.{
  ℕ, ◌≡◌, refl, sym, subst, Bool, ◌&&◌, Option, none, some, inl, inr, List, [], ◌∷◌, map, arith,
  if◌then◌else◌, select, head?, find, find-id, find-append_new, holds, AreHeld, head-AreHeld,
  select-AreHeld, Option-cases, Bool-cases,
}
use market_mind.Ledger.{
  is_active, Ledger, CrawlRun, CrawlTask, Collector, Source, run_identity, source_identity,
  ControlCommand,
}
use market_mind.Runtime.Results.{Result, ok, ◌>>=◌, >>=-ok}
use market_mind.Runtime.Recovery.{Uuid4, NewRun, in_lane, create_run, build_run}
use market_mind.Runtime.Commands.{
  apply_to_each, target_task, requested_run, owned_run, target_run, is_executing, is_restart,
}
use market_mind.Runtime.Processing.{
  manual_run, get_collector, start_restart, runs_or_restart, command_runs, check_restart, settle,
  act, apply_command,
}
use market_mind.Runtime.Outcomes.{check_restart-runs}
use market_mind.Runtime.Lanes.Basic.{IsConsistent}
use market_mind.Runtime.Lanes.Creation.{create_run-IsConsistent, rows_of_unused}
use market_mind.Runtime.Lanes.Actions.{apply_to_each-IsConsistent}

-- a run that `create_run` returns is a row of the table
create_run-held :
    (uuid : Uuid4) (now : ℕ) (collector : Collector) (source : Source) (spec : NewRun) (db : Ledger)
    → IsConsistent db.runs
    → let (run, db') = create_run uuid now collector source spec db in
      find run.run_id db'.runs ≡ some run
unfolding create_run
create_run-held uuid now collector source spec db h =
    elim (Option-cases (head? (select (in_lane collector.collector_id spec.run_type) db.runs))) [
      | inr (r, e) ↦
          rw (e, create_run)
            (head-AreHeld r db.runs (select (in_lane collector.collector_id spec.run_type) db.runs)
              e
              (select-AreHeld (in_lane collector.collector_id spec.run_type) db.runs h.unique_ids))
      | inl e ↦
          let k = uuid.draw (map (λ r. r.run_id) db.runs) in
          rw (e, create_run)
            (find-append_new (build_run now k collector source spec) db.runs
              (rows_of_unused k db.runs (uuid.draw_fresh (map (λ r. r.run_id) db.runs))))
    ]

-- what a command's runs are: rows of a table that keeps the index
abbrev IsReady : List CrawlRun × Ledger → Type 0
IsReady (runs, db) = AreHeld db.runs runs × IsConsistent db.runs

start_restart-IsReady :
    (uuid : Uuid4) (now source : ℕ) (collector : Option Collector) (row : Option Source)
    (db : Ledger) (found : List CrawlRun × Ledger)
    → IsConsistent db.runs
    → start_restart uuid now source collector row db ≡ ok found
    → IsReady found
unfolding start_restart
start_restart-IsReady uuid now source (some collector) (some row) db found h done =
    let same : (
      ((create_run uuid now collector row manual_run db).0 ∷ []),
      (create_run uuid now collector row manual_run db).1,
    )
        ≡ found =
      ground arith in
    subst IsReady same (
      (create_run-held uuid now collector row manual_run db h, refl, tt),
      create_run-IsConsistent uuid now collector row manual_run db h,
    )
start_restart-IsReady uuid now source (some collector) none db found h done = cc
start_restart-IsReady uuid now source none row db found h done = cc

runs_or_restart-IsReady :
    (uuid : Uuid4) (now source : ℕ) (c : ControlCommand) (runs : List CrawlRun) (db : Ledger)
    (found : List CrawlRun × Ledger)
    → AreHeld db.runs runs
    → IsConsistent db.runs
    → runs_or_restart uuid now source c runs db ≡ ok found
    → IsReady found
unfolding runs_or_restart
runs_or_restart-IsReady uuid now source c (r ∷ rs) db found held h done =
    let same : ◌≡◌ {A = List CrawlRun × Ledger} (r ∷ rs, db) found = ground arith in
    subst IsReady same (held, h)
runs_or_restart-IsReady uuid now source c [] db found held h done =
    start_restart-IsReady uuid now source (get_collector c.collector_id db) (find source db.sources)
      db found h (ground arith)

command_runs-IsReady :
    (uuid : Uuid4) (now source : ℕ) (c : ControlCommand) (run : Option CrawlRun) (db : Ledger)
    (found : List CrawlRun × Ledger)
    → ((r : CrawlRun) → run ≡ some r → find r.run_id db.runs ≡ some r)
    → IsConsistent db.runs
    → command_runs uuid now source c run db ≡ ok found
    → IsReady found
unfolding command_runs
command_runs-IsReady uuid now source c (some run) db found held h done =
    let same : ◌≡◌ {A = List CrawlRun × Ledger} (run ∷ [], db) found = ground arith in
    subst IsReady same ((held run refl, refl, tt), h)
command_runs-IsReady uuid now source c none db found held h done =
    runs_or_restart-IsReady uuid now source c
      (select (λ r. holds c.collector_id r.collector_id && is_active r.status) db.runs) db found
      (select-AreHeld (λ r. holds c.collector_id r.collector_id && is_active r.status) db.runs
        h.unique_ids)
      h done

-- the run that a command names is a row of the table
owned_run-held :
    (source : ℕ) (k : Option ℕ) (db : Ledger) (r : CrawlRun)
    → owned_run source k db ≡ ok (some r)
    → find r.run_id db.runs ≡ some r
unfolding owned_run
owned_run-held source none db r h = cc
owned_run-held source (some k) db r h = ground (arith, find-id k db.runs r)

target_run-held :
    (source : ℕ) (c : ControlCommand) (task : Option CrawlTask) (db : Ledger)
    (run : Option CrawlRun)
    → target_run source c task db ≡ ok run
    → (r : CrawlRun) → run ≡ some r
    → find r.run_id db.runs ≡ some r
unfolding target_run
target_run-held source c task db run done r e =
    let (k, _, owned) =
      >>=-ok (requested_run c.action c task) (λ requested. owned_run source requested db) done in
    owned_run-held source k db r (cc)

act-IsConsistent :
    (uuid : Uuid4) (now source : ℕ) (c : ControlCommand) (task : Option CrawlTask)
    (run : Option CrawlRun) (db : Ledger) (r : Ledger × Bool)
    → ((r : CrawlRun) → run ≡ some r → find r.run_id db.runs ≡ some r)
    → IsConsistent db.runs
    → act uuid now source c task run db ≡ ok r
    → IsConsistent r.0.runs
unfolding act
act-IsConsistent uuid now source c task run db r held h done =
    let (found, first, later) =
      >>=-ok (command_runs uuid now source c run db)
        (λ found. apply_to_each now c.action task found.0 found.1 >>= λ db'.
          ok (settle now source c found.0 db'))
        done in
    let (db', each, last) =
      >>=-ok (apply_to_each now c.action task found.0 found.1)
        (λ db'. ok (settle now source c found.0 db')) later in
    let ready : IsReady found = command_runs-IsReady uuid now source c run db found held h first in
    let same : db'.runs ≡ r.0.runs = ground arith in
    subst IsConsistent same
      (apply_to_each-IsConsistent now c.action task found.0 found.1 db' ready.0 ready.1 each)

-- A command that goes through keeps the index.
pub apply_command-IsConsistent :
    (uuid : Uuid4) (now source : ℕ) (c : ControlCommand) (db : Ledger) (r : Ledger × Bool)
    → IsConsistent db.runs
    → apply_command uuid now source c db ≡ ok r
    → IsConsistent r.0.runs
unfolding apply_command
apply_command-IsConsistent uuid now source c db r h done =
    let (task, _, rest) =
      >>=-ok (target_task c db) (λ task. target_run source c task db >>= λ run. proceed task run)
        done in
    let (run, named, last) = >>=-ok (target_run source c task db) (λ run. proceed task run) rest in
    elim (Bool-cases (is_executing c.status && is_restart c.action)) [
      | inl waiting ↦
          subst IsConsistent (sym (check_restart-runs now source c db r (ground arith))) h
      | inr fresh ↦
          act-IsConsistent uuid now source c task run db r
            (target_run-held source c task db run named) h (ground arith)
    ]
  where
    proceed : Option CrawlTask → Option CrawlRun → Result (Ledger × Bool)
    proceed task run =
        if is_executing c.status && is_restart c.action
        then check_restart now source c db
        else act uuid now source c task run db
