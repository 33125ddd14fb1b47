-- ===== src/Generations/Actions.antt =====
-- The actions of commands let no generation fall.
use market_mind.Prelude.{
  ℕ, ◌≤◌, ◌≡◌, refl, sym, subst, Bool, true, false, Option, none, some, inl, inr, List, [], ◌∷◌,
  arith, select, head?, Option-cases,
}
use market_mind.Ledger.{
  RunStatus, Action, Ledger, CrawlRun, CrawlTask, Collector, Source, run_identity, source_identity,
  collector_identity,
}
use market_mind.Runtime.{
  Result, ok, err, Ensures, Ensures-of, resume_run-ok, pause-ok, cancel-ok, run-ok, Ensures->>=,
  ◌>>=◌, Uuid4, NewRun, in_lane, create_run, fence_tasks, resume_run, requeue, next_generation,
  modify_run, apply_action, apply_to_each, set_retry_base,
}
use market_mind.Generations.Growth.{
  generation_of, Grows, Grows-trans, Grows-refl, modify-Grows, append-Grows,
}

pub create_run-Grows :
    (uuid : Uuid4) (now : ℕ) (collector : Collector) (source : Source) (spec : NewRun) (db : Ledger)
    → Grows db.runs (create_run uuid now collector source spec db).1.runs
unfolding create_run
create_run-Grows uuid now collector source spec db =
    elim (Option-cases (head? (select (in_lane collector.collector_id spec.run_type) db.runs))) [
      | inr (r, e) ↦ rw (e, create_run) (Grows-refl db.runs)
      | inl e ↦ rw (e, create_run) (append-Grows _ db.runs)
    ]

pub fence_tasks-Grows : (k : ℕ) (b : Bool) (db : Ledger) → Grows db.runs (fence_tasks k b db).runs
unfolding fence_tasks
fence_tasks-Grows k b db = modify-Grows k next_generation db.runs (λ r. refl) (λ r. omega arith)

-- fencing and a change that keeps the checkpoint's generation
fenced-Grows :
    (k : ℕ) (b : Bool) (f : CrawlRun → CrawlRun) (db : Ledger)
    → ((r : CrawlRun) → (f r).run_id ≡ r.run_id)
    → ((r : CrawlRun) → generation_of r ≤ generation_of (f r))
    → Grows db.runs (modify_run k f (fence_tasks k b db)).runs
fenced-Grows k b f db keep grow =
    Grows-trans db.runs (fence_tasks k b db).runs (modify_run k f (fence_tasks k b db)).runs
      (fence_tasks-Grows k b db) (modify-Grows k f (fence_tasks k b db).runs keep grow)

abbrev pub Later : Ledger → Ledger → Type 0
Later db d = Grows db.runs d.runs

pub resume_run-Grows : (run : CrawlRun) (db : Ledger) → Ensures (Later db) (resume_run run db)
resume_run-Grows run db = Ensures-of (Later db) (resume_run run db) (λ d done.
    subst (Later db) (sym (resume_run-ok run db d done).2)
      (fenced-Grows run.run_id false requeue db (λ r. refl) (λ r. omega arith)))

set_retry_base-Later :
    (task : Option CrawlTask) (db d : Ledger) → Later db d → Later db (set_retry_base task d)
set_retry_base-Later none db d h = h
set_retry_base-Later (some t) db d h = h

recover-Grows :
    (task : Option CrawlTask) (run : CrawlRun) (db : Ledger)
    → Ensures (Later db) (resume_run run db >>= λ d. ok (set_retry_base task d))
recover-Grows task run db =
    Ensures->>= (Later db) (Later db) (resume_run run db) (λ d. ok (set_retry_base task d))
      (resume_run-Grows run db) (λ d. set_retry_base-Later task db d)

run-Grows :
    (now : ℕ) (task : Option CrawlTask) (db : Ledger) (run : CrawlRun) (d : Ledger)
    → apply_action now Action.run task db run ≡ ok d
    → Later db d
run-Grows now task db run d done = elim (run-ok now task db d run done) [
  | inl same ↦ subst (Later db) same (Grows-refl db.runs)
  | inr (_, changed) ↦ subst (Later db) changed (
      modify-Grows run.run_id (λ r. record r { status = RunStatus.queued }) db.runs (λ r. refl)
        (λ r. omega arith))
]

apply_action-Grows :
    (now : ℕ) (a : Action) (task : Option CrawlTask) (db : Ledger) (run : CrawlRun)
    → Ensures (Later db) (apply_action now a task db run)
unfolding apply_action
apply_action-Grows now Action.pause task db run =
    Ensures-of (Later db) (apply_action now Action.pause task db run) (λ d done.
      subst (Later db) (pause-ok now task db d run done).1 (
        fenced-Grows run.run_id false (λ r. record r { status = RunStatus.paused }) db (λ r. refl)
          (λ r. omega arith)))
apply_action-Grows now Action.cancel task db run =
    Ensures-of (Later db) (apply_action now Action.cancel task db run) (λ d done.
      subst (Later db) (cancel-ok now task db d run done) (
        fenced-Grows run.run_id true
          (λ r. record r { status = RunStatus.cancelled; finished_at = some now }) db (λ r. refl)
          (λ r. omega arith)))
apply_action-Grows now Action.resume task db run = recover-Grows task run db
apply_action-Grows now Action.restart task db run = recover-Grows task run db
apply_action-Grows now Action.retry task db run = recover-Grows task run db
apply_action-Grows now Action.run task db run =
    Ensures-of (Later db) (apply_action now Action.run task db run) (run-Grows now task db run)
apply_action-Grows now Action.unsupported task db run = tt

pub apply_to_each-Grows :
    (now : ℕ) (a : Action) (task : Option CrawlTask) (rs : List CrawlRun) (db : Ledger)
    → Ensures (Later db) (apply_to_each now a task rs db)
unfolding apply_to_each
apply_to_each-Grows now a task [] db = Grows-refl db.runs
apply_to_each-Grows now a task (r ∷ rs) db =
    Ensures->>= (Later db) (Later db) (apply_action now a task db r)
      (λ d. apply_to_each now a task rs d) (apply_action-Grows now a task db r)
      (λ d grown.
        onward d grown (apply_to_each now a task rs d) (apply_to_each-Grows now a task rs d))
  where
    onward :
        (d : Ledger) → Later db d → (m : Result Ledger) → Ensures (Later d) m → Ensures (Later db) m
    onward d grown (ok e) h = Grows-trans db.runs d.runs e.runs grown h
    onward d grown (err x) h = tt
