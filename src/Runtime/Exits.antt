-- ===== src/Runtime/Exits.antt =====
-- The exit of a batch's worker: `record_exit` of backend/src/marketmind/runtime.py.
use market_mind.Prelude.{
  ℕ, zero, suc, ◌+◌, ◌*◌, ◌^◌, ◌≡◌, refl, Bool, true, false, Option, some, none, inl, inr, arith,
  find, modify, find-modify_same, min, ap, sym, ◌∙◌, ◌≢◌, ◌⊎◌, holds, get_or, eqb_refl, eqb→eq,
  Bool-cases,
}
use mathlib.Core.Bool.{false≢true}
use market_mind.Ledger.{
  RuntimeStatus, RunStatus, is_running, is_failure, ReturnCode, Ledger, CrawlRun, SourceRuntime,
  runtime_identity, run_identity,
}
use market_mind.Runtime.Recovery.{fence_tasks, next_generation}
use market_mind.Runtime.Claim.{Batch}
use market_mind.Runtime.Supervision.{
  is_crash, note_crash, release_runtime, after_exit, interrupt, record_exit,
}
use market_mind.Runtime.Restarts.{runtime_row-same}

abbrev pub is_busy : RuntimeStatus → Bool
is_busy RuntimeStatus.running = true
is_busy _ = false

-- The worker failed while its run was running at the batch's generation.
pub record IsCrash (b : Batch) (code : ReturnCode) (r : CrawlRun) : Type 0 where
  pub failed : code ≢ ReturnCode.exited 0
  pub running : r.status ≡ RunStatus.running
  pub own : r.checkpoint.generation ≡ some b.run_generation

-- What a crash leaves of the source's row and of the run.
pub record IsInterrupted (now : ℕ) (rt rt' : SourceRuntime) (r r' : CrawlRun) : Type 0 where
  pub stopped : r'.status ≡ RunStatus.interrupted
  pub fenced : r'.checkpoint.generation ≡ some (get_or r.checkpoint.generation 0 + 1)
  pub at_page : r'.checkpoint.page ≡ r.checkpoint.page
  pub pending : rt'.restart_pending ≡ true
  pub failures : rt'.consecutive_failures ≡ rt.consecutive_failures + 1
  pub delayed :
      rt'.retry_at ≡ some (now + min 60 (5 * 2 ^ min (rt.consecutive_failures + 1) 4) * 1000000)

-- What any other exit leaves of them.
pub record IsUndisturbed (rt rt' : SourceRuntime) (r r' : CrawlRun) : Type 0 where
  pub same_run : r' ≡ r
  pub pending : rt'.restart_pending ≡ rt.restart_pending
  pub failures : rt'.consecutive_failures ≡ rt.consecutive_failures
  pub delayed : rt'.retry_at ≡ rt.retry_at

-- What the exit of a batch's worker leaves of the source's row and of the run.
pub record IsExited (now source : ℕ) (b : Batch) (code : ReturnCode) (rt : SourceRuntime)
    (r : CrawlRun) (db' : Ledger) : Type 0 where
  pub runtime : SourceRuntime
  pub run : CrawlRun
  pub found_runtime : find source db'.runtimes ≡ some runtime
  pub found_run : find b.run_id db'.runs ≡ some run
  pub released : runtime.lease_expires_at ≡ none
  pub idle : runtime.status ≢ RuntimeStatus.running
  pub outcome :
      (IsCrash b code r × IsInterrupted now rt runtime r run)
      ⊎ ((¬ IsCrash b code r) × IsUndisturbed rt runtime r run)

is_running-eq : (s : RunStatus) → is_running s ≡ true → s ≡ RunStatus.running
is_running-eq s h = ground arith

holds-eq : (o : Option ℕ) (k : ℕ) → holds o k ≡ true → o ≡ some k
holds-eq none k h = absurd (cc)
holds-eq (some a) k h = ap some (eqb→eq a k h)

is_crash-IsCrash :
    (b : Batch) (code : ReturnCode) (r : CrawlRun) → is_crash b code r ≡ true → IsCrash b code r
is_crash-IsCrash b code r h = record {
  failed = failure code (ground (arith, h));
  running = is_running-eq r.status (ground (arith, h));
  own = holds-eq r.checkpoint.generation b.run_generation (ground (arith, h));
}
  where
    failure : (c : ReturnCode) → is_failure c ≡ true → c ≢ ReturnCode.exited 0
    failure c h e = absurd (false≢true (ap is_failure (sym e) ∙ h))

is_failure-exited : (c : ReturnCode) → c ≢ ReturnCode.exited 0 → is_failure c ≡ true
is_failure-exited (ReturnCode.exited zero) h = absurd (h refl)
is_failure-exited (ReturnCode.exited (suc n)) h = ground arith
is_failure-exited (ReturnCode.signalled n) h = refl

IsCrash-is_crash :
    (b : Batch) (code : ReturnCode) (r : CrawlRun) → IsCrash b code r → is_crash b code r ≡ true
IsCrash-is_crash b code r h =
    rw (is_failure-exited code h.failed, h.running, h.own) (eqb_refl b.run_generation)

record_exit-current :
    (now source : ℕ) (b : Batch) (code : ReturnCode) (db : Ledger) (rt : SourceRuntime)
    (r : CrawlRun)
    → find source db.runtimes ≡ some rt
    → find b.run_id db.runs ≡ some r
    → rt.generation ≡ b.source_generation
    → let db' = (record_exit now source b code db).0 in
      let after = after_exit now source b code r db in
      (db'.runtimes ≡ modify source (release_runtime now) after.runtimes) × (db'.runs ≡ after.runs)
unfolding record_exit
record_exit-current now source b code db rt r found_rt found_r current =
    ground (arith, runtime_row-same source db rt found_rt)

release_runtime-idle :
    (now : ℕ) (rt : SourceRuntime) → (release_runtime now rt).status ≢ RuntimeStatus.running
release_runtime-idle now rt e =
    let busy : is_busy (release_runtime now rt).status ≡ false = ground arith in
    false≢true (sym busy ∙ ap is_busy e)

-- The exit of the worker of a source's current batch gives the lease back, and the source is not running.
-- If the worker failed while its run was running at the batch's generation, the run is interrupted at the
-- generation after it and at the same page, a restart is pending and put off by 5 seconds doubled with
-- each failure, by a minute at most, and the failures count one more; any other exit leaves the run
-- as it is, and of the source's row the restart, its delay and the failures.
pub record_exit-IsExited :
    (now source : ℕ) (b : Batch) (code : ReturnCode) (db : Ledger) (rt : SourceRuntime)
    (r : CrawlRun)
    → find source db.runtimes ≡ some rt
    → find b.run_id db.runs ≡ some r
    → rt.generation ≡ b.source_generation
    → IsExited now source b code rt r (record_exit now source b code db).0
unfolding after_exit fence_tasks
record_exit-IsExited now source b code db rt r found_rt found_r current =
    let (rts, rs) = record_exit-current now source b code db rt r found_rt found_r current in
    elim (Bool-cases (is_crash b code r)) [
      | inl crash ↦ record {
        runtime = release_runtime now (note_crash now rt);
        run = interrupt (next_generation r);
        found_runtime =
            rw (rts, after_exit, crash)
              (find-modify_same source (release_runtime now)
                (modify source (note_crash now) db.runtimes) (note_crash now rt) (λ x. refl)
                (find-modify_same source (note_crash now) db.runtimes rt (λ x. refl) found_rt));
        found_run =
            rw (rs, after_exit, crash)
              (find-modify_same b.run_id interrupt (modify b.run_id next_generation db.runs)
                (next_generation r) (λ x. refl)
                (find-modify_same b.run_id next_generation db.runs r (λ x. refl) found_r));
        released = refl;
        idle = release_runtime-idle now (note_crash now rt);
        outcome = inl (
          is_crash-IsCrash b code r crash,
          record {
            stopped = refl;
            fenced = refl;
            at_page = refl;
            pending = refl;
            failures = refl;
            delayed = refl;
          },
        );
      }
      | inr calm ↦ record {
        runtime = release_runtime now rt;
        run = r;
        found_runtime =
            rw (rts, after_exit, calm)
              (find-modify_same source (release_runtime now) db.runtimes rt (λ x. refl) found_rt);
        found_run = rw (rs, after_exit, calm) found_r;
        released = refl;
        idle = release_runtime-idle now rt;
        outcome = inr (
          λ crash. false≢true (sym calm ∙ IsCrash-is_crash b code r crash),
          record { same_run = refl; pending = refl; failures = refl; delayed = refl },
        );
      }
    ]
