-- ===== src/Generations/Executor.antt =====
-- The executor's transactions let no generation fall.
use market_mind.Prelude.{
  ℕ, ◌≡◌, refl, sym, subst, ◌⊎◌, inl, inr, modify, false, not, ◌&&◌, ◌||◌, Option, List, [], ◌∷◌,
  arith, ◌==◌, find, is_some, Bool-cases, Option-cases,
}
use market_mind.Ledger.{
  ReturnCode, Ledger, CrawlRun, SourceRuntime, run_identity, runtime_identity, task_identity,
}
use market_mind.Runtime.{
  Uuid4, fence_tasks, runtime_row, runtime_row-runs, Batch, Executor, start_run, claim_from,
  claim_batch, supervise_tick, after_exit, is_crash, interrupt, record_exit, restart_budget,
  takeover, is_held_back, source_enabled,
}
use market_mind.Generations.Growth.{Grows, Grows-trans, Grows-refl, modify-Grows}
use market_mind.Generations.Actions.{Later, fence_tasks-Grows}

claim_from-runs :
    (uuid : Uuid4) (now source : ℕ) (e : Executor) (rt : SourceRuntime) (r : CrawlRun)
    (rs : List CrawlRun) (db : Ledger)
    → ((claim_from uuid now source e rt (r ∷ rs) db).1.runs
        ≡ (claim_from uuid now source e rt rs db).1.runs)
      ⊎ ((claim_from uuid now source e rt (r ∷ rs) db).1.runs
          ≡ modify r.run_id (start_run now e) db.runs)
unfolding claim_from
claim_from-runs uuid now source e rt r rs db = ground arith

claim_from-Grows :
    (uuid : Uuid4) (now source : ℕ) (e : Executor) (rt : SourceRuntime) (rs : List CrawlRun)
    (db : Ledger)
    → Later db (claim_from uuid now source e rt rs db).1
claim_from-Grows uuid now source e rt [] db = unfold claim_from in Grows-refl db.runs
claim_from-Grows uuid now source e rt (r ∷ rs) db =
    elim (claim_from-runs uuid now source e rt r rs db) [
      | inl same ↦ subst (Grows db.runs) (sym same) (claim_from-Grows uuid now source e rt rs db)
      | inr changed ↦
          subst (Grows db.runs) (sym changed)
            (modify-Grows r.run_id (start_run now e) db.runs (λ x. refl) (λ x. omega arith))
    ]

pub claim_batch-Grows :
    (uuid : Uuid4) (now source : ℕ) (e : Executor) (asked : Option ℕ) (db : Ledger)
    → Later db (claim_batch uuid now source e asked db).1
unfolding claim_batch
claim_batch-Grows uuid now source e asked db =
    subst (λ runs. Grows runs (claim_batch uuid now source e asked db).1.runs)
      (runtime_row-runs source db)
      (elim (Bool-cases
        (is_held_back now rt || (not (is_some asked) && not (source_enabled source db1)))) [
          | inl held ↦ rw (held, claim_batch) (Grows-refl db1.runs)
          | inr free ↦ rw (free, claim_batch) (claim_from-Grows uuid now source e rt _ db1)
        ])
  where
    rt : SourceRuntime
    rt = (runtime_row source db).0

    db1 : Ledger
    db1 = (runtime_row source db).1

-- an exit interrupts the run behind new generations
after_exit-Grows :
    (now source : ℕ) (b : Batch) (code : ReturnCode) (r : CrawlRun) (db : Ledger)
    → Later db (after_exit now source b code r db)
unfolding after_exit
after_exit-Grows now source b code r db = elim (Bool-cases (is_crash b code r)) [
  | inl crash ↦
      rw (crash, after_exit)
        (Grows-trans db.runs (fence_tasks b.run_id false db).runs _
          (fence_tasks-Grows b.run_id false db)
          (modify-Grows b.run_id interrupt (fence_tasks b.run_id false db).runs (λ x. refl)
            (λ x. omega arith)))
  | inr fine ↦ rw (fine, after_exit) (Grows-refl db.runs)
]

record_exit-runs :
    (now source : ℕ) (b : Batch) (code : ReturnCode) (db : Ledger)
    → ((record_exit now source b code db).0.runs ≡ (runtime_row source db).1.runs)
      ⊎ ((r : CrawlRun) × ((record_exit now source b code db).0.runs
            ≡ (after_exit now source b code r (runtime_row source db).1).runs))
unfolding record_exit
record_exit-runs now source b code db =
    elim (Option-cases (find b.run_id (runtime_row source db).1.runs)) [
      | inl e ↦ inl (rw (e, record_exit))
      | inr (r, e) ↦
          elim (Bool-cases ((runtime_row source db).0.generation == b.source_generation)) [
            | inl same ↦ inr (r, rw (e, record_exit) (rw same))
            | inr other ↦ inl (rw (e, record_exit) (rw other))
          ]
    ]

pub record_exit-Grows :
    (now source : ℕ) (b : Batch) (code : ReturnCode) (db : Ledger)
    → Later db (record_exit now source b code db).0
record_exit-Grows now source b code db =
    subst (λ runs. Grows runs (record_exit now source b code db).0.runs)
      (runtime_row-runs source db)
      (elim (record_exit-runs now source b code db) [
        | inl same ↦ subst (Grows db1.runs) (sym same) (Grows-refl db1.runs)
        | inr (r, changed) ↦
            subst (Grows db1.runs) (sym changed) (after_exit-Grows now source b code r db1)
      ])
  where
    db1 : Ledger
    db1 = (runtime_row source db).1

pub supervise_tick-runs :
    (now elapsed source owner : ℕ) (b : Batch) (db : Ledger)
    → (supervise_tick now elapsed source owner b db).1.runs ≡ (runtime_row source db).1.runs
unfolding supervise_tick
supervise_tick-runs now elapsed source owner b db = ground arith

pub restart_budget-runs :
    (now source : ℕ) (db : Ledger)
    → (restart_budget now source db).1.runs ≡ (runtime_row source db).1.runs
unfolding restart_budget
restart_budget-runs now source db = ground arith

pub takeover-runs :
    (source owner : ℕ) (db : Ledger)
    → (takeover source owner db).runs ≡ (runtime_row source db).1.runs
unfolding takeover
takeover-runs source owner db = refl
