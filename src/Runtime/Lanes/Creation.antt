-- ===== src/Runtime/Lanes/Creation.antt =====
-- `create_run` and `resume_run` keep the index.
use market_mind.Prelude.{
  ℕ, ◌+◌, ◌≤◌, ◌≡◌, refl, Bool, false, none, some, inl, inr, List, [], ◌∷◌, ◌++◌, map, arith, ◌==◌,
  if◌then◌else◌, any, count, select, head?, count-append, count_of_none, count_mono, rows_of,
  count-modify_le, Option-cases, find, find-modify, eqb_refl,
}
use market_mind.Ledger.{RunType, Ledger, CrawlRun, Collector, Source, run_identity}
use market_mind.Runtime.Results.{ok}
use market_mind.Runtime.Recovery.{
  Uuid4, NewRun, in_lane, competes, create_run, build_run, fence_tasks, resume_run, requeue,
  next_generation,
}
use market_mind.Runtime.Lanes.Basic.{IsConsistent, activate-IsConsistent, fence_tasks-IsConsistent}
use market_mind.Runtime.Outcomes.{resume_run-ok}

pub rows_of_unused :
    (k : ℕ) (runs : List CrawlRun)
    → any (λ j. j == k) (map (λ r. r.run_id) runs) ≡ false
    → rows_of k runs ≡ 0
rows_of_unused k [] h = refl
rows_of_unused k (r ∷ rs) h = ground (arith, rows_of_unused k rs)

select_nothing :
    (p : CrawlRun → Bool) (runs : List CrawlRun) → head? (select p runs) ≡ none → count p runs ≡ 0
select_nothing p [] h = refl
select_nothing p (r ∷ rs) h = ground (arith, select_nothing p rs)

-- a new run is alone in its lane
lane_of_new :
    (now k : ℕ) (collector : Collector) (source : Source) (spec : NewRun) (c : ℕ) (t : RunType)
    (runs : List CrawlRun)
    → count (in_lane collector.collector_id spec.run_type) runs ≡ 0
    → count (in_lane c t) runs ≤ 1
    → count (in_lane c t) runs
        + (if in_lane c t (build_run now k collector source spec) then 1 else 0)
      ≤ 1
lane_of_new now k collector source spec c t runs empty le =
    ground (arith, count_mono (in_lane c t) (in_lane collector.collector_id spec.run_type) runs)

-- If run identifiers are unique and no lane has two active runs, `create_run` keeps that so.
pub create_run-IsConsistent :
    (uuid : Uuid4) (now : ℕ) (collector : Collector) (source : Source) (spec : NewRun) (db : Ledger)
    → IsConsistent db.runs
    → IsConsistent (create_run uuid now collector source spec db).1.runs
unfolding create_run
create_run-IsConsistent uuid now collector source spec db h =
    elim (Option-cases (head? (select (in_lane collector.collector_id spec.run_type) db.runs))) [
      | inr (r, e) ↦ rw (e, create_run) h
      | inl e ↦ rw (e, create_run) (record { unique_ids = ids; unique_lanes = lanes e })
    ]
  where
    new : CrawlRun
    new = build_run now (uuid.draw (map (λ r. r.run_id) db.runs)) collector source spec

    ids : (k : ℕ) → rows_of k (db.runs ++ (new ∷ [])) ≤ 1
    ids k = ground (
      arith,
      count-append (λ r. r.run_id == k) db.runs (new ∷ []),
      rows_of_unused new.run_id db.runs (uuid.draw_fresh (map (λ r. r.run_id) db.runs)),
      h.unique_ids k,
    )

    lanes :
        head? (select (in_lane collector.collector_id spec.run_type) db.runs) ≡ none
        → (c : ℕ) (t : RunType) → count (in_lane c t) (db.runs ++ (new ∷ [])) ≤ 1
    lanes e c t = omega (
      arith,
      count-append (in_lane c t) db.runs (new ∷ []),
      lane_of_new now new.run_id collector source spec c t db.runs
          (select_nothing (in_lane collector.collector_id spec.run_type) db.runs e)
          (h.unique_lanes c t),
    )

-- If run identifiers are unique and no lane has two active runs, resuming a run of the table,
-- where it succeeds, keeps that so.
pub resume_run-IsConsistent :
    (run : CrawlRun) (db db' : Ledger)
    → find run.run_id db.runs ≡ some run
    → resume_run run db ≡ ok db'
    → IsConsistent db.runs
    → IsConsistent db'.runs
unfolding fence_tasks
resume_run-IsConsistent run db db' found done h =
    let (_, alone, result) = resume_run-ok run db db' done in
    rw result (
      activate-IsConsistent (next_generation run) requeue (fence_tasks run.run_id false db).runs
        (λ r. refl) (λ c t e. e)
        (rw
          (find-modify run.run_id run.run_id next_generation db.runs (λ r. refl), eqb_refl, found))
        (omega (
          arith,
          count-modify_le (competes run) run.run_id next_generation db.runs (λ r e. e),
          count_of_none (competes run) db.runs alone,
        ))
        (fence_tasks-IsConsistent run.run_id false db h))
