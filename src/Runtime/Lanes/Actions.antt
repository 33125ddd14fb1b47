-- ===== src/Runtime/Lanes/Actions.antt =====
-- Commands keep the index: one action, the loop over a command's runs, a whole command, and the
-- queue. So the flush after a command never finds the index violated.
use market_mind.Prelude.{
  ℕ, ◌≡◌, ◌≢◌, refl, subst, Bool, true, false, Option, none, some, inl, inr, List, [], ◌∷◌, arith,
  rows_of-modify, count-modify_row, find, ◌∙◌, find-modify, eqb_refl, AreHeld, AreHeld-change,
}
use market_mind.Ledger.{RunStatus, RunType, Action, Ledger, CrawlRun, CrawlTask, run_identity}
use market_mind.Runtime.Results.{ok, ◌>>=◌, >>=-ok}
use market_mind.Runtime.Recovery.{
  in_lane, fence_tasks, resume_run, requeue, next_generation, modify_run,
}
use market_mind.Runtime.Commands.{apply_action, apply_to_each, set_retry_base}
use market_mind.Runtime.Lanes.Basic.{IsConsistent, fence_tasks-IsConsistent}
use market_mind.Runtime.Lanes.Creation.{resume_run-IsConsistent}
use market_mind.Runtime.Outcomes.{resume_run-ok, pause-ok, cancel-ok, run-ok}

-- What an action on one run leaves: a consistent table, which differs at this run only.
abbrev pub Keeps : ℕ → Ledger → Ledger → Type 0
Keeps k db db' = IsConsistent db'.runs × ((j : ℕ) → j ≢ k → find j db'.runs ≡ find j db.runs)

fence_tasks-others :
    (j k : ℕ) (b : Bool) (db : Ledger) → j ≢ k → find j (fence_tasks k b db).runs ≡ find j db.runs
unfolding fence_tasks
fence_tasks-others j k b db ne = ground (arith, find-modify j k next_generation db.runs (λ r. refl))

find-fence_tasks :
    (run : CrawlRun) (b : Bool) (db : Ledger)
    → find run.run_id db.runs ≡ some run
    → find run.run_id (fence_tasks run.run_id b db).runs ≡ some (next_generation run)
unfolding fence_tasks
find-fence_tasks run b db found = ground (
  arith,
  find-modify run.run_id run.run_id next_generation db.runs (λ r. refl),
  eqb_refl run.run_id,
)

-- a change of the held row that does not bring it into a lane
modify-Keeps :
    (run : CrawlRun) (f : CrawlRun → CrawlRun) (db : Ledger)
    → ((r : CrawlRun) → (f r).run_id ≡ r.run_id)
    → ((c : ℕ) (t : RunType) → in_lane c t (f run) ≡ true → in_lane c t run ≡ true)
    → find run.run_id db.runs ≡ some run
    → IsConsistent db.runs
    → Keeps run.run_id db (modify_run run.run_id f db)
modify-Keeps run f db keep lane found h = (
  record {
    unique_ids = λ j. omega (arith, rows_of-modify j run.run_id f db.runs keep, h.unique_ids j);
    unique_lanes = λ c t. omega (
      arith,
      count-modify_row (in_lane c t) run.run_id f db.runs run found (h.unique_ids run.run_id)
          (lane c t),
      h.unique_lanes c t,
    );
  },
  λ j ne. ground (arith, find-modify j run.run_id f db.runs keep),
)

-- the same after fencing
fenced-Keeps :
    (run : CrawlRun) (b : Bool) (f : CrawlRun → CrawlRun) (db : Ledger)
    → ((r : CrawlRun) → (f r).run_id ≡ r.run_id)
    → ((c : ℕ) (t : RunType)
        → in_lane c t (f (next_generation run)) ≡ true
        → in_lane c t (next_generation run) ≡ true)
    → find run.run_id db.runs ≡ some run
    → IsConsistent db.runs
    → Keeps run.run_id db (modify_run run.run_id f (fence_tasks run.run_id b db))
fenced-Keeps run b f db keep lane found h =
    let (kept, others) =
      modify-Keeps (next_generation run) f (fence_tasks run.run_id b db) keep lane
        (find-fence_tasks run b db found) (fence_tasks-IsConsistent run.run_id b db h) in
    (kept, λ j ne. others j ne ∙ fence_tasks-others j run.run_id b db ne)

set_retry_base-Keeps :
    (task : Option CrawlTask) (k : ℕ) (db d : Ledger)
    → Keeps k db d
    → Keeps k db (set_retry_base task d)
set_retry_base-Keeps none k db d h = h
set_retry_base-Keeps (some t) k db d h = h

resume_run-others :
    (run : CrawlRun) (db d : Ledger) (j : ℕ)
    → resume_run run db ≡ ok d
    → j ≢ run.run_id
    → find j d.runs ≡ find j db.runs
resume_run-others run db d j done ne =
    let (_, _, result) = resume_run-ok run db d done in
    rw result (
      ground (
        arith,
        find-modify j run.run_id requeue (fence_tasks run.run_id false db).runs (λ r. refl),
        fence_tasks-others j run.run_id false db ne,
      ))

recover-Keeps :
    (run : CrawlRun) (task : Option CrawlTask) (db db' : Ledger)
    → find run.run_id db.runs ≡ some run
    → IsConsistent db.runs
    → (resume_run run db >>= λ d. ok (set_retry_base task d)) ≡ ok db'
    → Keeps run.run_id db db'
recover-Keeps run task db db' found h done =
    let (d, resumed, last) = >>=-ok (resume_run run db) (λ d. ok (set_retry_base task d)) done in
    let same : set_retry_base task d ≡ db' = cc in
    subst (Keeps run.run_id db) same (
      set_retry_base-Keeps task run.run_id db d (
        resume_run-IsConsistent run db d found resumed h,
        λ j ne. resume_run-others run db d j resumed ne,
      ))

-- If run identifiers are unique and no lane has two active runs, an action that succeeds on a
-- run of the table keeps that so, and changes no other run.
pub apply_action-Keeps :
    (now : ℕ) (a : Action) (task : Option CrawlTask) (db db' : Ledger) (run : CrawlRun)
    → find run.run_id db.runs ≡ some run
    → IsConsistent db.runs
    → apply_action now a task db run ≡ ok db'
    → Keeps run.run_id db db'
unfolding apply_action
apply_action-Keeps now Action.pause task db db' run found h done =
    let (active, result) = pause-ok now task db db' run done in
    subst (Keeps run.run_id db) result (
      fenced-Keeps run false (λ r. record r { status = RunStatus.paused }) db (λ r. refl)
        (λ c t e. ground arith) found h)
apply_action-Keeps now Action.cancel task db db' run found h done =
    subst (Keeps run.run_id db) (cancel-ok now task db db' run done) (
      fenced-Keeps run true (λ r. record r { status = RunStatus.cancelled; finished_at = some now })
        db (λ r. refl) (λ c t e. ground arith) found h)
apply_action-Keeps now Action.resume task db db' run found h done =
    recover-Keeps run task db db' found h done
apply_action-Keeps now Action.restart task db db' run found h done =
    recover-Keeps run task db db' found h done
apply_action-Keeps now Action.retry task db db' run found h done =
    recover-Keeps run task db db' found h done
apply_action-Keeps now Action.run task db db' run found h done =
    elim (run-ok now task db db' run done) [
      | inl same ↦ subst (Keeps run.run_id db) same (h, λ j ne. refl)
      | inr (was, result) ↦ subst (Keeps run.run_id db) result (
          modify-Keeps run (λ r. record r { status = RunStatus.queued }) db (λ r. refl)
            (λ c t e. ground arith) found h)
    ]
apply_action-Keeps now Action.unsupported task db db' run found h done = cc

-- The loop over a command's runs keeps the index.
pub apply_to_each-IsConsistent :
    (now : ℕ) (a : Action) (task : Option CrawlTask) (runs : List CrawlRun) (db db' : Ledger)
    → AreHeld db.runs runs
    → IsConsistent db.runs
    → apply_to_each now a task runs db ≡ ok db'
    → IsConsistent db'.runs
unfolding apply_to_each
apply_to_each-IsConsistent now a task [] db db' held h done =
    let same : db ≡ db' = cc in subst {A = Ledger} (λ d. IsConsistent d.runs) same h
apply_to_each-IsConsistent now a task (r ∷ rs) db db' (found, distinct, rest) h done =
    let (d, first, later) =
      >>=-ok (apply_action now a task db r) (λ d. apply_to_each now a task rs d) done in
    let (kept, others) = apply_action-Keeps now a task db d r found h first in
    apply_to_each-IsConsistent now a task rs d db'
      (AreHeld-change r.run_id db.runs d.runs rs others distinct rest) kept later
