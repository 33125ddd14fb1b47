-- ===== src/Generations/Stale.antt =====
-- A worker whose run generation has passed: whatever the processes have done since, it takes no
-- task, extends no lease, reports no failure and stores no page.
use market_mind.Prelude.{
  ℕ, ◌≤◌, ◌<◌, ◌≡◌, refl, false, Option, none, some, inl, inr, Bool, arith, find, Option-cases,
  rows_of,
}
use market_mind.Ledger.{
  SourceErrorCode, Ledger, CrawlRun, CrawlTask, SourceRuntime, run_identity, task_identity,
}
use market_mind.Runtime.{Uuid4, Batch, Executor, runtime_row, runtime_row-runs, claim_batch}
use market_mind.Runtime.Claim.Currency.{claim_batch-IsCurrentBatch}
use market_mind.Worker.{Spider, Request, owns_run, download, heartbeat, failed}
use market_mind.Ingestion.{
  Hasher, Lease, PageResult, NewsStore, persist_page, persist_page-IsAccepted, validate-ok,
}
use market_mind.Generations.Growth.{generation, generation_in}
use market_mind.Generations.Steps.{Reach, Reach-Later}

-- The run of the worker, if it is found, is not the worker's.
abbrev pub owns_any : Spider → SourceRuntime → Option CrawlRun → Bool
owns_any s rt none = false
owns_any s rt (some r) = owns_run s rt r

-- a run at a later generation is not the worker's
stale_owns :
    (s : Spider) (rt : SourceRuntime) (o : Option CrawlRun)
    → s.run_generation < generation_in o
    → owns_any s rt o ≡ false
stale_owns s rt none h = refl
stale_owns s rt (some r) h = ground arith

-- What a stale worker can still do: nothing but the source's missing runtime row.
abbrev pub IsRefused : Spider → Ledger → Type 0
IsRefused s db =
    ((now : ℕ) (q : Request) → download now s q db ≡ (none, db))
    × ((now task g : ℕ) → heartbeat now s task g db ≡ (false, (runtime_row s.source_id db).1))
    × ((now task : ℕ) (g : Option ℕ) (code : SourceErrorCode)
        → failed now s task g code db ≡ (none, (runtime_row s.source_id db).1))

abbrev pub IsDisowned : Spider → Ledger → Type 0
IsDisowned s db =
    owns_any s (runtime_row s.source_id db).0 (find s.run_id (runtime_row s.source_id db).1.runs)
    ≡ false

disowned-download :
    (s : Spider) (db : Ledger) (now : ℕ) (q : Request)
    → IsDisowned s db
    → download now s q db ≡ (none, db)
unfolding download
disowned-download s db now q h = ground (arith, h)

disowned-heartbeat :
    (s : Spider) (db : Ledger) (now task g : ℕ)
    → IsDisowned s db
    → heartbeat now s task g db ≡ (false, (runtime_row s.source_id db).1)
unfolding heartbeat
disowned-heartbeat s db now task g h = ground (arith, h)

disowned-failed :
    (s : Spider) (db : Ledger) (now task : ℕ) (g : Option ℕ) (code : SourceErrorCode)
    → IsDisowned s db
    → failed now s task g code db ≡ (none, (runtime_row s.source_id db).1)
unfolding failed
disowned-failed s db now task g code h = ground (arith, h)

pub disowned-IsRefused : (s : Spider) (db : Ledger) → IsDisowned s db → IsRefused s db
disowned-IsRefused s db h = (
  λ now q. disowned-download s db now q h,
  λ now task g. disowned-heartbeat s db now task g h,
  λ now task g code. disowned-failed s db now task g code h,
)

pub stale-IsRefused :
    (s : Spider) (db : Ledger) → s.run_generation < generation s.run_id db.runs → IsRefused s db
stale-IsRefused s db h = disowned-IsRefused s db (
    stale_owns s (runtime_row s.source_id db).0 (find s.run_id (runtime_row s.source_id db).1.runs)
      (rw (runtime_row-runs s.source_id db) h))

-- A page whose lease names a generation of the task's run that has passed is not stored: the
-- transaction raises.
pub stale-persist_page :
    (uuid : Uuid4) (hasher : Hasher) (now : ℕ) (l : Lease) (page : PageResult) (db : Ledger)
    (news : NewsStore) (g : ℕ) (t : CrawlTask)
    → l.run_generation ≡ some g
    → find l.task_id db.tasks ≡ some t
    → g < generation t.run_id db.runs
    → persist_page uuid hasher now l page (db, news) ≡ none
stale-persist_page uuid hasher now l page db news g t lease found older =
    elim (Option-cases (persist_page uuid hasher now l page (db, news))) [
      | inl e ↦ e
      | inr ((counts, db', news'), e) ↦
          let a = persist_page-IsAccepted uuid hasher now l page db news counts db' news' e in
          let (found', run, _, current, _) = validate-ok now l db a.task a.run a.valid in
          absurd (ground arith)
    ]

-- Where run identifiers are unique: once a batch of a run is claimed, a worker of an earlier
-- generation of that run takes no task, extends no lease and reports no failure, at once and
-- after any steps of the scheduler, the executors, the workers and ingestion, of runs that are
-- added or resumed by hand, and of runs that a login pauses or releases.
pub overtaken-IsRefused :
    (uuid : Uuid4) (hasher : Hasher) (now source : ℕ) (e : Executor) (asked : Option ℕ)
    (db d later : Ledger) (b : Batch) (s : Spider)
    → ((k : ℕ) → rows_of k db.runs ≤ 1)
    → claim_batch uuid now source e asked db ≡ (some b, d)
    → Reach uuid hasher d later
    → s.run_id ≡ b.run_id
    → s.run_generation < b.run_generation
    → IsRefused s later
overtaken-IsRefused uuid hasher now source e asked db d later b s unique claimed steps same older =
    let c = claim_batch-IsCurrentBatch uuid now source e asked db b d unique claimed in
    let after_claim : b.run_generation ≤ generation b.run_id d.runs =
      ground (arith, c.found_after, c.accepted) in
    let now_at : generation b.run_id d.runs ≤ generation b.run_id later.runs =
      Reach-Later uuid hasher steps b.run_id in
    stale-IsRefused s later (rw same (omega (arith, after_claim, now_at, older)))
