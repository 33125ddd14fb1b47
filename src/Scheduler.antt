-- ===== src/Scheduler.antt =====
-- The scheduler, backend/src/marketmind/scheduler.py: `schedule_once` makes the runs that are due,
-- in one transaction for each source.
pub mod Keeps
pub mod Service
use market_mind.Prelude.{
  ℕ, ◌+◌, ◌-◌, ◌*◌, ◌≤◌, ◌==◌, max, Bool, true, false, not, ◌&&◌, ◌||◌, Option, none, some, List,
  [], ◌∷◌, ◌++◌, map, if◌then◌else◌, is_some, get_or, after, ltb, leb, head?, select, order_by,
  find, modify,
}
use market_mind.Ledger.{
  RunType, TriggerType, CoverageGap, same_type, Ledger, Source, Collector, CrawlRun, SourceRuntime,
  source_identity, collector_identity, run_identity, runtime_identity,
}
use market_mind.Runtime.{
  Uuid4, NewRun, seconds, in_lane, create_run, modify_run, modify_runtime, runtime_row, is_stopped,
}

-- `interval_seconds * random.uniform(0.8, 1.2)` in microseconds, for the collector of this identifier
pub record Jitter : Type 0 where
  pub delay : ℕ → ℕ → ℕ
  pub lower : (k interval : ℕ) → interval * 800000 ≤ delay k interval
  pub upper : (k interval : ℕ) → delay k interval ≤ interval * 1200000

abbrev pub minutes : ℕ → ℕ
minutes n = seconds (n * 60)

abbrev pub hours : ℕ → ℕ
hours n = seconds (n * 3600)

-- `stamp` is the present, so that no window begins before the year 1
abbrev pub realtime_spec : ℕ → Collector → NewRun
realtime_spec stamp c = record {
  run_type = RunType.realtime;
  trigger_type = TriggerType.scheduled;
  start = some (stamp - minutes 30);
  end = some stamp;
  max_pages = get_or c.max_pages 1;
}

abbrev pub recovery_spec : ℕ → ℕ → NewRun
recovery_spec start stamp = record {
  run_type = RunType.backfill;
  trigger_type = TriggerType.recovery;
  start = some start;
  end = some stamp;
  max_pages = 100;
}

abbrev pub is_recovery_trigger : TriggerType → Bool
is_recovery_trigger TriggerType.recovery = true
is_recovery_trigger _ = false

-- an automatic backfill of the collector
abbrev pub is_review : ℕ → CrawlRun → Bool
is_review k r =
    r.collector_id == k
    && same_type r.run_type RunType.backfill
    && is_recovery_trigger r.trigger_type

-- `order_by(CrawlRun.created_at.desc()).limit(1)`, of `created_at`
abbrev pub newest : List CrawlRun → Option ℕ
newest runs = elim (head? (order_by (λ a b. leb b.created_at a.created_at) runs)) [
  | none ↦ none
  | some r ↦ some r.created_at
]

-- when the collector's last automatic backfill was made
abbrev pub last_review : ℕ → List CrawlRun → Option ℕ
last_review k runs = newest (select (is_review k) runs)

-- a time that is missing, or lies more than `age` before `stamp`
abbrev pub is_older : ℕ → ℕ → Option ℕ → Bool
is_older age stamp none = true
is_older age stamp (some t) = ltb (t + age) stamp

abbrev pub is_offline : ℕ → Collector → Bool
is_offline stamp c = is_older (minutes 10) stamp c.last_success_at

-- the collector succeeded once, and no backfill was made since
abbrev pub is_unreviewed : Collector → Option ℕ → Bool
is_unreviewed c review = elim c.last_success_at [
  | none ↦ false
  | some t ↦ elim review [ none ↦ true | some v ↦ ltb v t ]
]

unfoldable pub needs_backfill : ℕ → Collector → List CrawlRun → Bool
needs_backfill stamp c runs =
    let review = last_review c.collector_id runs in
    not (is_some (head? (select (in_lane c.collector_id RunType.backfill) runs)))
    && (is_older (hours 24) stamp review || (is_offline stamp c && is_unreviewed c review))

-- 48 hours back for a collector that was offline, 24 for any other
abbrev pub window_start : ℕ → Collector → ℕ
window_start stamp c = stamp - hours (if is_offline stamp c then 48 else 24)

-- the part of the gap that the window does not reach
abbrev pub note_window : ℕ → Collector → CrawlRun → CrawlRun
note_window start c r = elim c.last_success_at [
  | none ↦ r
  | some t ↦
      if ltb t start
      then record r { coverage_gaps = CoverageGap.older_than_automatic_window t start ∷ [] }
      else r
]

abbrev pub plan_next : Jitter → ℕ → Collector → Collector
plan_next jitter stamp c = record c {
  next_run_at = some (stamp + max (seconds 3) (jitter.delay c.collector_id c.interval_seconds));
}

abbrev pub make_recovery : Uuid4 → ℕ → Collector → Source → Ledger → Ledger
make_recovery uuid stamp c source db =
    let start = window_start stamp c in
    let (run, db') = create_run uuid stamp c source (recovery_spec start stamp) db in
    modify_run run.run_id (note_window start c) db'

-- the body of `for collector in collectors`
unfoldable pub schedule_collector : Uuid4 → Jitter → ℕ → Source → Collector → Ledger → Ledger
unfolding needs_backfill
schedule_collector uuid jitter stamp source c db =
    if after c.next_run_at stamp
    then db
    else let db1 = (create_run uuid stamp c source (realtime_spec stamp c) db).1 in
      let db2 = record db1 {
        collectors = modify c.collector_id (plan_next jitter stamp) db1.collectors;
      } in
      if needs_backfill stamp c db2.runs then make_recovery uuid stamp c source db2 else db2

unfoldable pub schedule_collectors : Uuid4 → Jitter → ℕ → Source → List Collector → Ledger → Ledger
unfolding schedule_collector
schedule_collectors uuid jitter stamp source [] db = db
schedule_collectors uuid jitter stamp source (c ∷ cs) db =
    schedule_collectors uuid jitter stamp source cs
      (schedule_collector uuid jitter stamp source c db)

abbrev pub note_scheduled : ℕ → SourceRuntime → SourceRuntime
note_scheduled stamp rt = record rt { recovery_scheduled_at = some stamp }

-- the transaction of one source, which no other scheduler holds
unfoldable pub schedule_source : Uuid4 → Jitter → ℕ → ℕ → Ledger → Ledger
unfolding schedule_collectors runtime_row
schedule_source uuid jitter stamp k db = elim (find k db.sources) [
  | none ↦ db
  | some source ↦
      if not source.enabled
      then db
      else let (rt, db') = runtime_row k db in
        if is_stopped rt.status
        then db'
        else modify_runtime k (note_scheduled stamp) (
            schedule_collectors uuid jitter stamp source
              (select (λ c. c.source_id == k && c.enabled) db'.collectors) db')
]

unfoldable pub schedule_each : Uuid4 → Jitter → ℕ → List Source → Ledger → Ledger
schedule_each uuid jitter stamp [] db = db
schedule_each uuid jitter stamp (s ∷ ss) db =
    schedule_each uuid jitter stamp ss (schedule_source uuid jitter stamp s.source_id db)

unfoldable pub schedule_once : Uuid4 → Jitter → ℕ → Ledger → Ledger
unfolding schedule_each
schedule_once uuid jitter stamp db =
    schedule_each uuid jitter stamp (select (λ s. s.enabled) db.sources) db
