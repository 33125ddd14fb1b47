-- ===== src/Generations/Worker.antt =====
-- The worker's transactions and the ingestion let no generation fall.
use Prim.Native.String.{String}
use market_mind.Prelude.{
  ℕ, ◌≤◌, ◌≡◌, refl, ap, sym, subst, ◌∙◌, ◌⊎◌, inl, inr, modify, ◌&&◌, Option, some, arith, find,
  holds, Bool-cases, Option-cases,
}
use market_mind.Ledger.{
  SourceErrorCode, Counts, Ledger, CrawlRun, CrawlTask, run_identity, runtime_identity,
  task_identity,
}
use market_mind.Runtime.{Uuid4, runtime_row, runtime_row-runs}
use market_mind.Worker.{
  Spider, Request, download, heartbeat, beat, failed, fail_run, Verdict, judge, apply_verdict,
  owns_run, is_task_running,
}
use market_mind.Ingestion.{
  Hasher, Lease, PageResult, NewsStore, continuation, page_number, continue_run, Continuation,
  advance, complete_page, persist_page, persist_page-IsAccepted,
}
use market_mind.Generations.Growth.{generation_of, Grows, Grows-refl, modify-Grows}
use market_mind.Generations.Actions.{Later}

-- the worker: taking a task and keeping its lease leave the generations of runs alone
download-runs :
    (now : ℕ) (s : Spider) (q : Request) (db : Ledger)
    → ((download now s q db).1.runs ≡ db.runs)
      ⊎ ((download now s q db).1.runs ≡ (runtime_row s.source_id db).1.runs)
unfolding download
download-runs now s q db = ground arith

heartbeat-runs :
    (now : ℕ) (s : Spider) (task g : ℕ) (db : Ledger)
    → ((heartbeat now s task g db).1.runs ≡ (runtime_row s.source_id db).1.runs)
      ⊎ ((heartbeat now s task g db).1.runs
          ≡ modify s.run_id (beat now) (runtime_row s.source_id db).1.runs)
unfolding heartbeat
heartbeat-runs now s task g db = ground arith

pub download-Grows :
    (now : ℕ) (s : Spider) (q : Request) (db : Ledger) → Later db (download now s q db).1
download-Grows now s q db = elim (download-runs now s q db) [
  | inl same ↦ subst (Grows db.runs) (sym same) (Grows-refl db.runs)
  | inr row ↦
      subst (Grows db.runs) (sym (row ∙ runtime_row-runs s.source_id db)) (Grows-refl db.runs)
]

pub heartbeat-Grows :
    (now : ℕ) (s : Spider) (task g : ℕ) (db : Ledger) → Later db (heartbeat now s task g db).1
heartbeat-Grows now s task g db = elim (heartbeat-runs now s task g db) [
  | inl same ↦
      subst (Grows db.runs) (sym (same ∙ runtime_row-runs s.source_id db)) (Grows-refl db.runs)
  | inr changed ↦
      subst (Grows db.runs)
        (sym (changed ∙ ap (modify s.run_id (beat now)) (runtime_row-runs s.source_id db)))
        (modify-Grows s.run_id (beat now) db.runs (λ x. refl) (λ x. omega arith))
]

-- a reported failure changes the run, not its generation
fail_run-keeps :
    (now : ℕ) (code : SourceErrorCode) (cursor : Option String) (v : Verdict) (r : CrawlRun)
    → ((fail_run now code cursor v r).run_id ≡ r.run_id)
      × (generation_of r ≤ generation_of (fail_run now code cursor v r))
fail_run-keeps now code cursor v r = ground arith

failed-runs :
    (now : ℕ) (s : Spider) (task : ℕ) (g : Option ℕ) (code : SourceErrorCode) (db : Ledger)
    → ((failed now s task g code db).1.runs ≡ (runtime_row s.source_id db).1.runs)
      ⊎ ((t : CrawlTask) × ((failed now s task g code db).1.runs
            ≡ (apply_verdict now s code t (runtime_row s.source_id db).1).runs))
unfolding failed
failed-runs now s task g code db =
    elim (Option-cases (find s.run_id (runtime_row s.source_id db).1.runs)) [
      | inl e ↦ inl (rw (e, failed))
      | inr (r, e) ↦ elim (Option-cases (find task (runtime_row s.source_id db).1.tasks)) [
        | inl f ↦ inl (rw (e, failed) (rw f))
        | inr (t, f) ↦
            elim (Bool-cases (
              owns_run s (runtime_row s.source_id db).0 r
              && is_task_running t.status
              && holds g t.generation)) [
                | inl current ↦ inr (t, rw (e, failed) (rw f (rw current)))
                | inr stale ↦ inl (rw (e, failed) (rw f (rw stale)))
              ]
      ]
    ]

pub failed-Grows :
    (now : ℕ) (s : Spider) (task : ℕ) (g : Option ℕ) (code : SourceErrorCode) (db : Ledger)
    → Later db (failed now s task g code db).1
failed-Grows now s task g code db = elim (failed-runs now s task g code db) [
  | inl same ↦
      subst (Grows db.runs) (sym (same ∙ runtime_row-runs s.source_id db)) (Grows-refl db.runs)
  | inr (t, changed) ↦
      let f = fail_run now code t.request_params.cursor (judge code t) in
      subst (Grows db.runs)
        (sym (changed ∙ ap (modify s.run_id f) (runtime_row-runs s.source_id db)))
        (modify-Grows s.run_id f db.runs
          (λ r. (fail_run-keeps now code t.request_params.cursor (judge code t) r).0)
          (λ r. (fail_run-keeps now code t.request_params.cursor (judge code t) r).1))
]

-- a persisted page moves the run's cursor, not its generation
continue_run-keeps :
    (now : ℕ) (page : PageResult) (number : ℕ) (counts : Counts) (how : Continuation) (r : CrawlRun)
    → ((continue_run now page number how (advance now page number counts r)).run_id ≡ r.run_id)
      × (generation_of r
          ≤ generation_of (continue_run now page number how (advance now page number counts r)))
unfolding continue_run
continue_run-keeps now page number counts how r = ground arith

complete_page-runs :
    (uuid : Uuid4) (now : ℕ) (page : PageResult) (counts : Counts) (t : CrawlTask) (r : CrawlRun)
    (db : Ledger)
    → (complete_page uuid now page counts t r db).runs
      ≡ modify r.run_id
          (λ row.
            continue_run now page
              (page_number t)
              (continuation page t r (page_number t))
              (advance now page (page_number t) counts row))
          db.runs
unfolding complete_page
complete_page-runs uuid now page counts t r db = ground arith

pub persist_page-Grows :
    (uuid : Uuid4) (hasher : Hasher) (now : ℕ) (l : Lease) (page : PageResult) (db : Ledger)
    (news : NewsStore) (counts : Counts) (db' : Ledger) (news' : NewsStore)
    → persist_page uuid hasher now l page (db, news) ≡ some (counts, db', news')
    → Later db db'
persist_page-Grows uuid hasher now l page db news counts db' news' e =
    let a = persist_page-IsAccepted uuid hasher now l page db news counts db' news' e in
    let n = page_number a.task in
    let how = continuation page a.task a.run n in
    subst (Later db) (sym a.completed) (
      subst (Grows db.runs) (sym (complete_page-runs uuid now page counts a.task a.run db)) (
        modify-Grows a.run.run_id
          (λ row. continue_run now page n how (advance now page n counts row)) db.runs
          (λ row. (continue_run-keeps now page n counts how row).0)
          (λ row. (continue_run-keeps now page n counts how row).1)))
