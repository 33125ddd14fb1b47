-- ===== src/Runtime/Claim.antt =====
-- The choice of the next page of work: `claim_batch` of backend/src/marketmind/runtime.py.
pub mod Claimed
pub mod Currency
use market_mind.Prelude.{
  ℕ, ◌+◌, ◌*◌, ◌==◌, Bool, true, false, not, ◌&&◌, ◌||◌, Option, none, some, List, [], ◌∷◌, ◌++◌,
  map, if◌then◌else◌, is_some, get_or, after, due, ltb, leb, any, head?, select, order_by, find,
  modify,
}
use market_mind.Ledger.{
  RunStatus, RunType, TaskStatus, RuntimeStatus, is_runnable, same_type, Ledger, Source, Collector,
  CrawlRun, CrawlTask, SourceRuntime, AuditAction, TargetType, Outcome, AuditDetails,
  source_identity, collector_identity, run_identity, task_identity,
}
use market_mind.Runtime.Recovery.{
  seconds, lease_seconds, Uuid4, modify_run, modify_runtime, runtime_row, next_generation,
}
use market_mind.Runtime.Commands.{modify_task, add_audits}
use Prim.Native.String.{String}

pub record Batch : Type 0 where
  pub run_id : ℕ
  pub source_generation : ℕ
  pub run_generation : ℕ

-- the executor that claims: its owner id and its node
pub record Executor : Type 0 where
  pub owner : ℕ
  pub node_id : String

-- `status in ("paused", "waiting_login")`, of a source
abbrev pub is_stopped : RuntimeStatus → Bool
is_stopped RuntimeStatus.paused = true
is_stopped RuntimeStatus.waiting_login = true
is_stopped _ = false

-- the source is stopped, or its retry is not due
abbrev pub is_held_back : ℕ → SourceRuntime → Bool
is_held_back now rt = is_stopped rt.status || after rt.retry_at now

abbrev pub source_enabled : ℕ → Ledger → Bool
source_enabled k db = elim (find k db.sources) [ none ↦ false | some s ↦ s.enabled ]

-- the join with the collector, which has to be enabled unless a run was asked for
abbrev pub collector_allows : Bool → CrawlRun → Ledger → Bool
collector_allows asked r db = elim (find r.collector_id db.collectors) [
  | none ↦ false
  | some c ↦ asked || c.enabled
]

abbrev pub asked_for : Option ℕ → CrawlRun → Bool
asked_for none r = true
asked_for (some k) r = r.run_id == k

abbrev pub is_candidate : ℕ → Option ℕ → Ledger → CrawlRun → Bool
is_candidate source asked db r =
    r.source_id == source
    && is_runnable r.status
    && asked_for asked r
    && collector_allows (is_some asked) r db

-- lanes alternate: after a realtime batch a backfill is preferred, and the other way round
abbrev pub preferred_type : SourceRuntime → RunType
preferred_type rt = elim rt.last_run_type [
  | some t ↦ elim t [ RunType.realtime ↦ RunType.backfill | RunType.backfill ↦ RunType.realtime ]
  | none ↦ RunType.realtime
]

-- the comparison of the keys (run_type != preferred, heartbeat_at, created_at, id); a missing
-- heartbeat is `datetime.min`
abbrev pub key_before : ℕ → CrawlRun → CrawlRun → Bool
key_before zero_time a b =
    let ha = get_or a.heartbeat_at zero_time in
    let hb = get_or b.heartbeat_at zero_time in
    if ltb ha hb
    then true
    else if ltb hb ha
    then false
    else if ltb a.created_at b.created_at
    then true
    else if ltb b.created_at a.created_at
    then false
    else leb a.run_id b.run_id

abbrev pub served_before : RunType → CrawlRun → CrawlRun → Bool
served_before preferred a b =
    let pa = same_type a.run_type preferred in
    let pb = same_type b.run_type preferred in
    if pa && not pb then true else if pb && not pa then false else key_before 0 a b

-- a worker still holds a task of the run
abbrev pub is_leased : ℕ → CrawlTask → Bool
is_leased now t = elim t.status [ TaskStatus.running ↦ after t.lease_expires_at now | _ ↦ false ]

abbrev pub is_claimable : ℕ → CrawlTask → Bool
is_claimable now t = elim t.status [
  | TaskStatus.pending ↦ true
  | TaskStatus.queued ↦ true
  | TaskStatus.retry_wait ↦ due t.retry_at now
  | TaskStatus.running ↦ due t.lease_expires_at now
  | _ ↦ false
]

abbrev pub of_run : ℕ → CrawlTask → Bool
of_run k t = t.run_id == k

-- what the loop finds at a run: nothing to do, a task to take, or no task yet
pub data Pick : Type 0 where
  skip : Pick
  take : CrawlTask → Pick
  first_page : Pick

unfoldable pub pick : ℕ → CrawlRun → Ledger → Pick
pick now r db =
    if any (λ t. of_run r.run_id t && is_leased now t) db.tasks
    then skip
    else elim (head? (
        order_by (λ a b. leb a.created_at b.created_at)
          (select (λ t. of_run r.run_id t && is_claimable now t) db.tasks))) [
            | some t ↦ take t
            | none ↦ if any (of_run r.run_id) db.tasks then skip else first_page
          ]

-- the first task of a run, at the page of its checkpoint
abbrev pub new_task : ℕ → ℕ → ℕ → CrawlRun → Ledger → CrawlTask
new_task now k source r db = record {
  task_id = k;
  run_id = r.run_id;
  source_id = source;
  collector_id = r.collector_id;
  business_key = get_or r.checkpoint.page 0;
  url = elim (find r.collector_id db.collectors) [ none ↦ "" | some c ↦ c.entry_url ];
  request_params = record {
    cursor = r.checkpoint.cursor;
    page = some (get_or r.checkpoint.page 0);
    retry_base = none;
  };
  status = TaskStatus.queued;
  attempt = 0;
  generation = 0;
  lease_owner = none;
  lease_expires_at = none;
  retry_at = none;
  error_code = none;
  attempt_history = [];
  created_at = now;
  completed_at = none;
}

abbrev pub queue_task : CrawlTask → CrawlTask
queue_task t = record t { status = TaskStatus.queued; lease_owner = none; lease_expires_at = none }

-- the stamps of the last 30 minutes
abbrev pub recent : ℕ → List ℕ → List ℕ
recent now = select (λ stamp. ltb now (stamp + seconds 1800))

abbrev pub start_runtime : ℕ → Executor → CrawlRun → SourceRuntime → SourceRuntime
start_runtime now e r rt = record rt {
  generation = rt.generation + 1;
  owner = some e.owner;
  node_id = some e.node_id;
  restart_history =
      if rt.restart_pending
      then recent now rt.restart_history ++ (now ∷ [])
      else rt.restart_history;
  restart_pending = false;
  status = RuntimeStatus.running;
  heartbeat_at = some now;
  lease_expires_at = some (now + seconds lease_seconds);
  last_run_id = some r.run_id;
  last_run_type = some r.run_type;
}

abbrev pub start_run : ℕ → Executor → CrawlRun → CrawlRun
start_run now e r = next_generation (record r {
  status = RunStatus.running;
  started_at = some (get_or r.started_at now);
  heartbeat_at = some now;
  node_id = some e.node_id;
})

abbrev pub batch_of : SourceRuntime → CrawlRun → Batch
batch_of rt r = record {
  run_id = r.run_id;
  source_generation = rt.generation + 1;
  run_generation = get_or r.checkpoint.generation 0 + 1;
}

-- the writes once a run and its task are chosen
unfoldable pub start_batch : ℕ → ℕ → Executor → SourceRuntime → CrawlRun → Ledger → Batch × Ledger
start_batch now source e rt r db =
    let b = batch_of rt r in
    (
      b,
      add_audits
          (record {
            admin_id = none;
            action = AuditAction.batch_started;
            target_type = TargetType.run;
            target_id = r.run_id;
            outcome = Outcome.running;
            details = AuditDetails.generations b.source_generation b.run_generation;
          }
            ∷ [])
          (modify_run r.run_id (start_run now e)
            (modify_runtime source (start_runtime now e r) db)),
    )

unfoldable pub claim_from :
    Uuid4 → ℕ → ℕ → Executor → SourceRuntime → List CrawlRun → Ledger → Option Batch × Ledger
unfolding start_batch
claim_from uuid now source e rt [] db = (none, db)
claim_from uuid now source e rt (r ∷ rs) db =
    let rest = claim_from uuid now source e rt rs db in
    elim (pick now r db) [
      | skip ↦ rest
      | take t ↦
          let (b, db') = start_batch now source e rt r (modify_task t.task_id queue_task db) in
          (some b, db')
      | first_page ↦
          let t = new_task now (uuid.draw (map (λ x. x.task_id) db.tasks)) source r db in
          let (b, db') =
            start_batch now source e rt r (record db { tasks = db.tasks ++ (t ∷ []) }) in
          (some b, db')
    ]

-- The next batch of the source, and the ledger with its lease; `none` where there is nothing to do.
unfoldable pub claim_batch : Uuid4 → ℕ → ℕ → Executor → Option ℕ → Ledger → Option Batch × Ledger
unfolding claim_from runtime_row
claim_batch uuid now source e asked db =
    let (rt, db') = runtime_row source db in
    if is_held_back now rt || (not (is_some asked) && not (source_enabled source db'))
    then (none, db')
    else claim_from uuid now source e rt
        (order_by (served_before (preferred_type rt)) (
          order_by (λ a b. leb a.created_at b.created_at)
            (select (is_candidate source asked db') db'.runs)))
        db'
