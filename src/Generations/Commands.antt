-- ===== src/Generations/Commands.antt =====
-- Whole commands and their queue let no generation fall.
use market_mind.Prelude.{
  ℕ, ◌≡◌, sym, subst, Bool, false, ◌&&◌, ◌||◌, Option, none, some, List, [], ◌∷◌, arith, ◌==◌,
  if◌then◌else◌, select, find, leb, order_by, holds,
}
use market_mind.Ledger.{
  CommandError, is_active, Ledger, CrawlRun, CrawlTask, Collector, Source, run_identity,
  source_identity, collector_identity, ControlCommand,
}
use market_mind.Runtime.{
  Result, ok, err, Ensures, Ensures-of, Ensures->>=, Ensures-any, ◌>>=◌, Uuid4, create_run,
  runtime_row, apply_to_each, target_task, target_run, is_executing, is_restart, start_restart,
  runs_or_restart, command_runs, check_restart, settle, act, apply_command, flush, run_command,
  run_commands, commands, reject, get_collector, manual_run, is_open, belongs, Ensures->>=,
  Ensures-any, Ensures-if, check_restart-runs, runtime_row-runs,
}
use market_mind.Generations.Growth.{Grows, Grows-trans, Grows-refl}
use market_mind.Generations.Actions.{Later, create_run-Grows, apply_to_each-Grows}

-- what a step returns beside a ledger
abbrev LaterPair : {A : Type 0} → Ledger → A × Ledger → Type 0
LaterPair db r = Later db r.1

abbrev LaterFlag : Ledger → Ledger × Bool → Type 0
LaterFlag db r = Later db r.0

start_restart-Grows :
    (uuid : Uuid4) (now source : ℕ) (collector : Option Collector) (row : Option Source)
    (db : Ledger)
    → Ensures (LaterPair db) (start_restart uuid now source collector row db)
unfolding start_restart
start_restart-Grows uuid now source (some collector) (some row) db =
    let (run, d) = create_run uuid now collector row manual_run db in
    Ensures-if (LaterPair db) (collector.source_id == source) (ok (run ∷ [], d))
      (err CommandError.missing_collector) (create_run-Grows uuid now collector row manual_run db)
      tt
start_restart-Grows uuid now source (some collector) none db = tt
start_restart-Grows uuid now source none row db = tt

runs_or_restart-Grows :
    (uuid : Uuid4) (now source : ℕ) (c : ControlCommand) (runs : List CrawlRun) (db : Ledger)
    → Ensures (LaterPair db) (runs_or_restart uuid now source c runs db)
unfolding runs_or_restart
runs_or_restart-Grows uuid now source c (r ∷ rs) db = Grows-refl db.runs
runs_or_restart-Grows uuid now source c [] db =
    let collector = get_collector c.collector_id db in
    let row = find source db.sources in
    Ensures-if (LaterPair db) (is_restart c.action) (start_restart uuid now source collector row db)
      (err CommandError.missing_run) (start_restart-Grows uuid now source collector row db) tt

command_runs-Grows :
    (uuid : Uuid4) (now source : ℕ) (c : ControlCommand) (run : Option CrawlRun) (db : Ledger)
    → Ensures (LaterPair db) (command_runs uuid now source c run db)
unfolding command_runs
command_runs-Grows uuid now source c (some run) db = Grows-refl db.runs
command_runs-Grows uuid now source c none db =
    runs_or_restart-Grows uuid now source c
      (select (λ r. holds c.collector_id r.collector_id && is_active r.status) db.runs) db

settle-runs :
    (now source : ℕ) (c : ControlCommand) (runs : List CrawlRun) (db : Ledger)
    → (settle now source c runs db).0.runs ≡ db.runs
settle-runs now source c runs db = ground arith

act-Grows :
    (uuid : Uuid4) (now source : ℕ) (c : ControlCommand) (task : Option CrawlTask)
    (run : Option CrawlRun) (db : Ledger)
    → Ensures (LaterFlag db) (act uuid now source c task run db)
unfolding act
act-Grows uuid now source c task run db =
    Ensures->>= (LaterPair db) (LaterFlag db) (command_runs uuid now source c run db)
      (λ found.
        apply_to_each now c.action task found.0 found.1 >>= λ d. ok (settle now source c found.0 d))
      (command_runs-Grows uuid now source c run db)
      (λ found first.
        Ensures->>= (Later found.1) (LaterFlag db) (apply_to_each now c.action task found.0 found.1)
          (λ d. ok (settle now source c found.0 d))
          (apply_to_each-Grows now c.action task found.0 found.1)
          (λ d each.
            subst (Grows db.runs) (sym (settle-runs now source c found.0 d))
              (Grows-trans db.runs found.1.runs d.runs first each)))

check_restart-Grows :
    (now source : ℕ) (c : ControlCommand) (db : Ledger)
    → Ensures (LaterFlag db) (check_restart now source c db)
check_restart-Grows now source c db =
    Ensures-of (LaterFlag db) (check_restart now source c db) (λ r done.
      subst (Grows db.runs) (sym (check_restart-runs now source c db r done)) (Grows-refl db.runs))

apply_command-Grows :
    (uuid : Uuid4) (now source : ℕ) (c : ControlCommand) (db : Ledger)
    → Ensures (LaterFlag db) (apply_command uuid now source c db)
unfolding apply_command
apply_command-Grows uuid now source c db =
    Ensures-any (LaterFlag db) (target_task c db)
      (λ task. target_run source c task db >>= λ run. proceed task run)
      (λ task.
        Ensures-any (LaterFlag db) (target_run source c task db) (λ run. proceed task run)
          (λ run.
            Ensures-if (LaterFlag db) (is_executing c.status && is_restart c.action)
              (check_restart now source c db) (act uuid now source c task run db)
              (check_restart-Grows now source c db) (act-Grows uuid now source c task run db)))
  where
    proceed : Option CrawlTask → Option CrawlRun → Result (Ledger × Bool)
    proceed task run =
        if is_executing c.status && is_restart c.action
        then check_restart now source c db
        else act uuid now source c task run db

run_command-Grows :
    (uuid : Uuid4) (now source : ℕ) (c : ControlCommand) (db : Ledger)
    → Later db (run_command uuid now source c db).0
unfolding run_command flush
run_command-Grows uuid now source c db =
    go (apply_command uuid now source c db) (apply_command-Grows uuid now source c db)
  where
    go :
        (m : Result (Ledger × Bool))
        → Ensures (LaterFlag db) m
        → Later db (
            let r : Ledger × Bool = elim (m >>= flush) [
              | ok x ↦ x
              | err e ↦ (reject now c e db, false)
            ] in
            r.0)
    go (ok r) h = ground (arith, h)
    go (err e) h = Grows-refl db.runs

run_commands-Grows :
    (uuid : Uuid4) (now source : ℕ) (cs : List ControlCommand) (reset : Bool) (db : Ledger)
    → Later db (run_commands uuid now source cs reset db).0
unfolding run_commands
run_commands-Grows uuid now source [] reset db = Grows-refl db.runs
run_commands-Grows uuid now source (c ∷ cs) reset db =
    let (d, again) = run_command uuid now source c db in
    Grows-trans db.runs d.runs (run_commands uuid now source cs (reset || again) d).0.runs
      (run_command-Grows uuid now source c db)
      (run_commands-Grows uuid now source cs (reset || again) d)

-- The processing of a source's commands lets no generation fall.
pub commands-Grows :
    (uuid : Uuid4) (now source : ℕ) (db : Ledger) → Later db (commands uuid now source db).0
unfolding commands
commands-Grows uuid now source db =
    subst (λ runs. Grows runs (commands uuid now source db).0.runs) (runtime_row-runs source db)
      (run_commands-Grows uuid now source
        (order_by (λ a b. leb a.created_at b.created_at)
          (select (λ c. is_open c.status && belongs (runtime_row source db).1 source c)
            (runtime_row source db).1.commands))
        false (runtime_row source db).1)
