-- ===== src/Runtime/Restarts.antt =====
-- How often a crashing worker is started again: `restart_budget` and `claim_batch` of
-- backend/src/marketmind/runtime.py.
use market_mind.Prelude.{
  ℕ, if◌then◌else◌, ◌+◌, ◌≤◌, ◌<◌, ◌≡◌, refl, true, false, Option, some, inl, inr, List, [], ◌∷◌,
  ◌++◌, arith, length, find, find-modify_same, rows_of, ap, sym, ◌∙◌, subst, Bool-cases,
}
use market_mind.Ledger.{Ledger, CrawlRun, SourceRuntime, runtime_identity, run_identity}
use market_mind.Runtime.Recovery.{Uuid4, runtime_row}
use market_mind.Runtime.Claim.{Batch, Executor, recent, start_runtime, claim_batch}
use market_mind.Runtime.Claim.Currency.{claim_batch-IsClaimed}
use market_mind.Runtime.Supervision.{Budget, budget_of, restart_budget}
use market_mind.Runtime.Outcomes.{runtime_row-runs}

-- at most three restarts in the last 30 minutes
abbrev pub IsBounded : ℕ → SourceRuntime → Type 0
IsBounded now rt = length (recent now rt.restart_history) ≤ 3

recent-append :
    (now : ℕ) (xs ys : List ℕ)
    → length (recent now (xs ++ ys)) ≡ length (recent now xs) + length (recent now ys)
recent-append now [] ys = omega arith
recent-append now (x ∷ xs) ys = ground (arith, recent-append now xs ys)

recent-recent :
    (now : ℕ) (xs : List ℕ) → length (recent now (recent now xs)) ≡ length (recent now xs)
recent-recent now [] = refl
recent-recent now (x ∷ xs) = ground (arith, recent-recent now xs)

recent-later : (t1 t2 : ℕ) (xs : List ℕ) → t1 ≤ t2 → length (recent t2 xs) ≤ length (recent t1 xs)
recent-later t1 t2 [] h = omega arith
recent-later t1 t2 (x ∷ xs) h = ground (arith, recent-later t1 t2 xs h)

recent-one : (now : ℕ) → length (recent now (now ∷ [])) ≡ 1
recent-one now = ground arith

granted-few :
    (now : ℕ) (rt : SourceRuntime)
    → budget_of now rt ≡ Budget.granted
    → rt.restart_pending ≡ true
    → length (recent now rt.restart_history) < 3
granted-few now rt h pending = ground arith

-- Each restart has its stamp: there is one more if a restart was pending, and none is pending then.
pub record IsStamped (now : ℕ) (rt rt' : SourceRuntime) : Type 0 where
  pub settled : rt'.restart_pending ≡ false
  pub stamps :
      length (recent now rt'.restart_history)
      ≡ length (recent now rt.restart_history) + (if rt.restart_pending then 1 else 0)

start_runtime-IsStamped :
    (now : ℕ) (e : Executor) (r : CrawlRun) (rt : SourceRuntime)
    → IsStamped now rt (start_runtime now e r rt)
start_runtime-IsStamped now e r rt = record {
  settled = refl;
  stamps = elim (Bool-cases rt.restart_pending) [
    | inl pending ↦ rw pending (
        omega (
          arith,
          recent-append now (recent now rt.restart_history) (now ∷ []),
          recent-recent now rt.restart_history,
          recent-one now,
        ))
    | inr calm ↦ rw calm (omega arith)
  ];
}

start_runtime-IsBounded :
    (t1 t2 : ℕ) (e : Executor) (r : CrawlRun) (rt : SourceRuntime)
    → t1 ≤ t2
    → budget_of t1 rt ≡ Budget.granted
    → IsBounded t2 rt
    → IsBounded t2 (start_runtime t2 e r rt)
start_runtime-IsBounded t1 t2 e r rt le granted h = elim (Bool-cases rt.restart_pending) [
  | inl pending ↦ rw pending (
      omega (
        arith,
        recent-append t2 (recent t2 rt.restart_history) (t2 ∷ []),
        recent-recent t2 rt.restart_history,
        recent-later t1 t2 rt.restart_history le,
        recent-one t2,
        granted-few t1 rt granted pending,
      ))
  | inr calm ↦ rw calm h
]

granted-same :
    (now source : ℕ) (db : Ledger)
    → (restart_budget now source db).0 ≡ Budget.granted
    → (budget_of now (runtime_row source db).0 ≡ Budget.granted)
      × ((restart_budget now source db).1 ≡ (runtime_row source db).1)
unfolding restart_budget
granted-same now source db h = ground arith

pub runtime_row-same :
    (source : ℕ) (db : Ledger) (rt : SourceRuntime)
    → find source db.runtimes ≡ some rt
    → runtime_row source db ≡ (rt, db)
unfolding runtime_row
runtime_row-same source db rt h = rw (h, runtime_row) refl

-- Where run identifiers are unique and a source has at most three restarts in the last 30 minutes: a
-- batch that is claimed once its budget was granted, then or earlier, counts as one more of them if a
-- restart was pending, which it then is no longer, and they are still three at most.
pub claim_batch-IsBounded :
    (uuid : Uuid4) (t1 t2 source : ℕ) (e : Executor) (asked : Option ℕ) (db d : Ledger) (b : Batch)
    (rt : SourceRuntime)
    → t1 ≤ t2
    → ((k : ℕ) → rows_of k db.runs ≤ 1)
    → find source db.runtimes ≡ some rt
    → IsBounded t2 rt
    → (restart_budget t1 source db).0 ≡ Budget.granted
    → claim_batch uuid t2 source e asked (restart_budget t1 source db).1 ≡ (some b, d)
    → (rt' : SourceRuntime) × (find source d.runtimes ≡ some rt')
      × IsBounded t2 rt'
      × IsStamped t2 rt rt'
claim_batch-IsBounded uuid t1 t2 source e asked db d b rt le unique found h budget claimed =
    let row = runtime_row-same source db rt found in
    let (granted, same) = granted-same t1 source db budget in
    let same_db : (restart_budget t1 source db).1 ≡ db = same ∙ ap (λ x. x.1) row in
    let claimed' : claim_batch uuid t2 source e asked db ≡ (some b, d) =
      sym (ap (claim_batch uuid t2 source e asked) same_db) ∙ claimed in
    let (c, _) =
      claim_batch-IsClaimed uuid t2 source e asked db b d
        (λ k. rw (runtime_row-runs source db) (unique k)) claimed' in
    let same_rt : (runtime_row source db).0 ≡ rt = ap (λ x. x.0) row in
    (
      start_runtime t2 e c.run rt,
      rw (c.runtimes, row)
          (find-modify_same source (start_runtime t2 e c.run) db.runtimes rt (λ x. refl) found),
      start_runtime-IsBounded t1 t2 e c.run rt le
          (subst (λ x. budget_of t1 x ≡ Budget.granted) same_rt granted) h,
      start_runtime-IsStamped t2 e c.run rt,
    )
