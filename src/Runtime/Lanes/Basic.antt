-- ===== src/Runtime/Lanes/Basic.antt =====
-- The invariant on the table of runs, and the changes that keep it for simple reasons.
use market_mind.Prelude.{
  ℕ, ◌≤◌, ◌≡◌, refl, Bool, true, not, ◌&&◌, some, inl, inr, List, arith, ◌==◌, count, count_mono,
  modify, rows_of, rows_of-modify, count-modify_le, count-modify, Bool-cases, find,
}
use market_mind.Ledger.{RunType, Ledger, CrawlRun, run_identity}
use market_mind.Runtime.Recovery.{in_lane, competes, fence_tasks, requeue, next_generation}

-- Run identifiers are unique, and each lane (a collector and a type) has at most one active run.
pub record IsConsistent (runs : List CrawlRun) : Type 0 where
  pub unique_ids : (k : ℕ) → rows_of k runs ≤ 1
  pub unique_lanes : (c : ℕ) (t : RunType) → count (in_lane c t) runs ≤ 1

-- A change of a run that keeps its identifier and does not activate it keeps the invariant.
pub modify-IsConsistent :
    (k : ℕ) (f : CrawlRun → CrawlRun) (runs : List CrawlRun)
    → ((r : CrawlRun) → (f r).run_id ≡ r.run_id)
    → ((c : ℕ) (t : RunType) (r : CrawlRun) → in_lane c t (f r) ≡ true → in_lane c t r ≡ true)
    → IsConsistent runs
    → IsConsistent (modify k f runs)
modify-IsConsistent k f runs keep lane h = record {
  unique_ids = λ j. omega (arith, rows_of-modify j k f runs keep, h.unique_ids j);
  unique_lanes =
      λ c t. omega (arith, count-modify_le (in_lane c t) k f runs (lane c t), h.unique_lanes c t);
}

pub fence_tasks-IsConsistent :
    (k : ℕ) (b : Bool) (db : Ledger) → IsConsistent db.runs → IsConsistent (fence_tasks k b db).runs
unfolding fence_tasks
fence_tasks-IsConsistent k b db h =
    modify-IsConsistent k next_generation db.runs (λ r. refl) (λ c t r e. e) h

-- A run that enters its lane finds no other active run there.
lane_of_requeue :
    (run : CrawlRun) (c : ℕ) (t : RunType) (r : CrawlRun)
    → in_lane c t (requeue run) ≡ true
    → (in_lane c t r && not (r.run_id == run.run_id)) ≡ true
    → competes run r ≡ true
lane_of_requeue run c t r h k = ground arith

-- A change that activates one run keeps the invariant if no other run competes with it.
pub activate-IsConsistent :
    (run : CrawlRun) (f : CrawlRun → CrawlRun) (runs : List CrawlRun)
    → ((r : CrawlRun) → (f r).run_id ≡ r.run_id)
    → ((c : ℕ) (t : RunType) → in_lane c t (f run) ≡ true → in_lane c t (requeue run) ≡ true)
    → find run.run_id runs ≡ some run
    → count (competes run) runs ≡ 0
    → IsConsistent runs
    → IsConsistent (modify run.run_id f runs)
activate-IsConsistent run f runs keep lane found alone h = record {
  unique_ids = λ j. omega (arith, rows_of-modify j run.run_id f runs keep, h.unique_ids j);
  unique_lanes = bound;
}
  where
    others : (c : ℕ) (t : RunType) → ℕ
    others c t = count (λ r. in_lane c t r && not (r.run_id == run.run_id)) runs

    others_le : (c : ℕ) (t : RunType) → others c t ≤ 1
    others_le c t = omega (
      arith,
      count_mono (λ r. in_lane c t r && not (r.run_id == run.run_id)) (in_lane c t) runs
          (λ r e. ground arith),
      h.unique_lanes c t,
    )

    bound : (c : ℕ) (t : RunType) → count (in_lane c t) (modify run.run_id f runs) ≤ 1
    bound c t = elim (Bool-cases (in_lane c t (f run))) [
      | inl enters ↦
          rw (count-modify (in_lane c t) run.run_id f runs run found (h.unique_ids run.run_id)) (
            rw enters (
              omega (
                arith,
                alone,
                count_mono (λ r. in_lane c t r && not (r.run_id == run.run_id)) (competes run) runs
                    (λ r e. lane_of_requeue run c t r (lane c t enters) e),
              )))
      | inr stays ↦
          rw (count-modify (in_lane c t) run.run_id f runs run found (h.unique_ids run.run_id))
            (rw stays (omega (arith, others_le c t)))
    ]
