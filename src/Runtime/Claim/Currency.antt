-- ===== src/Runtime/Claim/Currency.antt =====
-- A batch that is handed out is current: its generations are the ledger's, newer than any before,
-- the source's lease is the claimant's, and its supervisor accepts it.
use market_mind.Prelude.{
  ℕ, ◌+◌, ◌≡◌, ◌≤◌, subst, ap, refl, true, false, not, ◌&&◌, ◌||◌, Option, some, inl, inr, List,
  arith, is_some, select, order_by, leb, find, find-modify, get_or, All, All-both, order_by-All,
  select-All, select-AreHeld, AreHeld-All, find-append_missing, Bool-cases, Option-cases, eqb_refl,
  rows_of,
}
use market_mind.Ledger.{
  Ledger, CrawlRun, SourceRuntime, run_identity, runtime_identity, task_identity,
}
use market_mind.Runtime.Recovery.{Uuid4, new_runtime, runtime_row, seconds, lease_seconds}
use market_mind.Runtime.Claim.{
  Batch, Executor, is_candidate, is_held_back, source_enabled, served_before, preferred_type,
  start_runtime, start_run, claim_batch,
}
use market_mind.Runtime.Supervision.{is_current}
use market_mind.Runtime.Outcomes.{runtime_row-runs}
use market_mind.Runtime.Claim.Claimed.{IsClaimed, claim_from-IsClaimed}

pub runtime_row-find :
    (k : ℕ) (db : Ledger) → find k (runtime_row k db).1.runtimes ≡ some (runtime_row k db).0
unfolding runtime_row
runtime_row-find k db = elim (Option-cases (find k db.runtimes)) [
  | inl e ↦ rw (e, runtime_row) (find-append_missing k (new_runtime k) db.runtimes e refl)
  | inr (row, e) ↦ rw (e, runtime_row) e
]

-- the runs that `claim_batch` looks at are candidates, and rows of the table
abbrev pub Candidate : ℕ → Option ℕ → Ledger → CrawlRun → Type 0
Candidate source asked db r =
    (find r.run_id db.runs ≡ some r) × (is_candidate source asked db r ≡ true)

candidates_All :
    (source : ℕ) (asked : Option ℕ) (rt : SourceRuntime) (db : Ledger)
    → ((k : ℕ) → rows_of k db.runs ≤ 1)
    → All (Candidate source asked db) (
        order_by (served_before (preferred_type rt)) (
          order_by
            (λ a b. leb a.created_at b.created_at)
            (select (is_candidate source asked db) db.runs)))
candidates_All source asked rt db unique =
    order_by-All (Candidate source asked db) (served_before (preferred_type rt)) _ (
      order_by-All (Candidate source asked db) (λ a b. leb a.created_at b.created_at) _
        (All-both (λ r. find r.run_id db.runs ≡ some r) (λ r. is_candidate source asked db r ≡ true)
          (select (is_candidate source asked db) db.runs)
          (AreHeld-All db.runs (select (is_candidate source asked db) db.runs)
            (select-AreHeld (is_candidate source asked db) db.runs unique))
          (select-All (is_candidate source asked db) db.runs)))

-- Where run identifiers are unique, a batch that `claim_batch` returns is for a candidate run of
-- which no task has a live lease, the rows of the run and of the source are the ones written for
-- it, and the source was not held back.
pub claim_batch-IsClaimed :
    (uuid : Uuid4) (now source : ℕ) (e : Executor) (asked : Option ℕ) (db : Ledger) (b : Batch)
    (db' : Ledger)
    → ((k : ℕ) → rows_of k (runtime_row source db).1.runs ≤ 1)
    → claim_batch uuid now source e asked db ≡ (some b, db')
    → let (rt, db1) = runtime_row source db in
      IsClaimed (Candidate source asked db1) now source e rt db1 b db'
      × (is_held_back now rt ≡ false)
unfolding claim_batch
claim_batch-IsClaimed uuid now source e asked db b db' unique done =
    let (rt, db1) = runtime_row source db in
    elim (Bool-cases
      (is_held_back now rt || (not (is_some asked) && not (source_enabled source db1)))) [
        | inl held ↦ absurd (ground arith)
        | inr free ↦ (
          claim_from-IsClaimed (Candidate source asked db1) uuid now source e rt _ db1 b db'
              (candidates_All source asked rt db1 unique) (ground arith),
          ground arith,
        )
      ]

-- The batch is current in the ledger that comes with it, its lease runs for LEASE_SECONDS from now,
-- and its run generation is one above the run's generation before.
pub record IsCurrentBatch (now source : ℕ) (e : Executor) (b : Batch) (runs : List CrawlRun)
    (db' : Ledger) : Type 0 where
  pub before : CrawlRun
  pub after : CrawlRun
  pub runtime : SourceRuntime
  pub found_before : find b.run_id runs ≡ some before
  pub found_after : find b.run_id db'.runs ≡ some after
  pub found_runtime : find source db'.runtimes ≡ some runtime
  pub accepted : is_current e.owner b runtime after ≡ true
  pub leased : runtime.lease_expires_at ≡ some (now + seconds lease_seconds)
  pub newer : b.run_generation ≡ get_or before.checkpoint.generation 0 + 1

claimed-IsCurrentBatch :
    (now source : ℕ) (e : Executor) (asked : Option ℕ) (rt : SourceRuntime) (db1 : Ledger)
    (b : Batch) (db' : Ledger)
    → find source db1.runtimes ≡ some rt
    → IsClaimed (Candidate source asked db1) now source e rt db1 b db'
    → IsCurrentBatch now source e b db1.runs db'
claimed-IsCurrentBatch now source e asked rt db1 b db' found c =
    let run_id : b.run_id ≡ c.run.run_id = ap (λ x. x.run_id) c.batch in
    record {
      before = c.run;
      after = start_run now e c.run;
      runtime = start_runtime now e c.run rt;
      found_before = rw run_id c.chosen.0;
      found_after =
          rw (run_id, c.runs)
            (ground (
              arith,
              c.chosen.0,
              eqb_refl c.run.run_id,
              find-modify c.run.run_id c.run.run_id (start_run now e) db1.runs (λ r. refl),
            ));
      found_runtime = rw c.runtimes (
          ground (
            arith,
            eqb_refl source,
            find-modify source source (start_runtime now e c.run) db1.runtimes (λ r. refl),
          ));
      accepted = ground (arith, c.batch, eqb_refl e.owner);
      leased = refl;
      newer = ap (λ x. x.run_generation) c.batch;
    }

-- Where run identifiers are unique, a batch that `claim_batch` returns is one that its
-- supervisor accepts in the ledger that comes with it, the source's lease runs for LEASE_SECONDS
-- from now, and the batch's run generation is one above the run's generation before.
pub claim_batch-IsCurrentBatch :
    (uuid : Uuid4) (now source : ℕ) (e : Executor) (asked : Option ℕ) (db : Ledger) (b : Batch)
    (db' : Ledger)
    → ((k : ℕ) → rows_of k db.runs ≤ 1)
    → claim_batch uuid now source e asked db ≡ (some b, db')
    → IsCurrentBatch now source e b db.runs db'
claim_batch-IsCurrentBatch uuid now source e asked db b db' unique done =
    let (c, _) =
      claim_batch-IsClaimed uuid now source e asked db b db'
        (λ k. rw (runtime_row-runs source db) (unique k)) done in
    subst (λ runs. IsCurrentBatch now source e b runs db') (runtime_row-runs source db)
      (claimed-IsCurrentBatch now source e asked (runtime_row source db).0 (runtime_row source db).1
        b db' (runtime_row-find source db) c)
