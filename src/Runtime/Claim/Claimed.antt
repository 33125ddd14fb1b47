-- ===== src/Runtime/Claim/Claimed.antt =====
-- What a batch that `claim_batch` hands out stands for: the run that was chosen, and the rows that
-- were written for it.
use market_mind.Prelude.{ℕ, ◌≡◌, refl, false, ◌&&◌, some, List, [], ◌∷◌, arith, any, modify, All}
use market_mind.Ledger.{
  Ledger, CrawlRun, SourceRuntime, run_identity, runtime_identity, task_identity,
}
use market_mind.Runtime.Recovery.{Uuid4}
use market_mind.Runtime.Claim.{
  Batch, Executor, of_run, is_leased, Pick, skip, take, first_page, pick, start_runtime, start_run,
  batch_of, claim_from,
}

-- The chosen run satisfies `P`, no worker holds a live lease on a task of it, and the batch and
-- the written rows are the ones for this run.
pub record IsClaimed (P : CrawlRun → Type 0) (now source : ℕ) (e : Executor) (rt : SourceRuntime)
    (db : Ledger) (b : Batch) (db' : Ledger) : Type 0 where
  pub run : CrawlRun
  pub chosen : P run
  pub unleased : any (λ t. of_run run.run_id t && is_leased now t) db.tasks ≡ false
  pub batch : b ≡ batch_of rt run
  pub runs : db'.runs ≡ modify run.run_id (start_run now e) db.runs
  pub runtimes : db'.runtimes ≡ modify source (start_runtime now e run) db.runtimes

pick-unleased :
    (now : ℕ) (r : CrawlRun) (db : Ledger)
    → (pick now r db ≡ skip → ⊥)
    → any (λ t. of_run r.run_id t && is_leased now t) db.tasks ≡ false
unfolding pick
pick-unleased now r db h = ground arith

pub claim_from-IsClaimed :
    (P : CrawlRun → Type 0) (uuid : Uuid4) (now source : ℕ) (e : Executor) (rt : SourceRuntime)
    (rs : List CrawlRun) (db : Ledger) (b : Batch) (db' : Ledger)
    → All P rs
    → claim_from uuid now source e rt rs db ≡ (some b, db')
    → IsClaimed P now source e rt db b db'
unfolding claim_from
claim_from-IsClaimed P uuid now source e rt [] db b db' h done = absurd (ground arith)
claim_from-IsClaimed P uuid now source e rt (r ∷ rs) db b db' h done =
    go (pick now r db) refl (claim_from-IsClaimed P uuid now source e rt rs db b db' h.1)
  where
    go :
        (p : Pick)
        → pick now r db ≡ p
        → (claim_from uuid now source e rt rs db ≡ (some b, db')
            → IsClaimed P now source e rt db b db')
        → IsClaimed P now source e rt db b db'
    go skip q later = later (ground arith)
    go (take t) q later = record {
      run = r;
      chosen = h.0;
      unleased = pick-unleased now r db (λ s. cc);
      batch = ground arith;
      runs = ground arith;
      runtimes = ground arith;
    }
    go first_page q later = record {
      run = r;
      chosen = h.0;
      unleased = pick-unleased now r db (λ s. cc);
      batch = ground arith;
      runs = ground arith;
      runtimes = ground arith;
    }
