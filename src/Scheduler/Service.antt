-- ===== src/Scheduler/Service.antt =====
-- What the scheduler keeps and provides: backend/src/marketmind/scheduler.py.
use market_mind.Prelude.{
  ℕ, ◌⊎◌, ◌+◌, ◌≤◌, ◌≡◌, refl, Bool, true, false, some, inl, inr, List, [], ◌∷◌, ◌++◌, arith,
  if◌then◌else◌, after, any, head?, select, find, modify, subst, sym, ap, ◌∙◌, Bool-cases,
  Option-cases, eqb_refl, map, max, any-last, find-modify_same,
}
use market_mind.Ledger.{
  RunType, Ledger, Source, Collector, CrawlRun, run_identity, collector_identity, source_identity,
}
use market_mind.Runtime.{seconds, Uuid4, NewRun, in_lane, create_run, build_run}
use market_mind.Runtime.Lanes.Basic.{IsConsistent, modify-IsConsistent}
use market_mind.Runtime.Lanes.Queue.{same_type_refl}
use market_mind.Runtime.Lanes.Creation.{create_run-IsConsistent}
use market_mind.Scheduler.Keeps.{schedule_once-Keeps}
use market_mind.Scheduler.{
  Jitter, realtime_spec, recovery_spec, window_start, note_window, needs_backfill, make_recovery,
  plan_next, schedule_collector, schedule_once, is_older, is_review, hours, newest, last_review,
}

note_window-lane :
    (start : ℕ) (c : Collector) (k : ℕ) (t : RunType) (r : CrawlRun)
    → in_lane k t (note_window start c r) ≡ in_lane k t r
note_window-lane start c k t r = ground arith

note_window-id :
    (start : ℕ) (c : Collector) (r : CrawlRun) → (note_window start c r).run_id ≡ r.run_id
note_window-id start c r = ground arith

-- If run identifiers are unique and no lane has two active runs, a round of the scheduler keeps that
-- so, whatever sources and collectors are due.
pub schedule_once-IsConsistent :
    (uuid : Uuid4) (jitter : Jitter) (stamp : ℕ) (db : Ledger)
    → IsConsistent db.runs
    → IsConsistent (schedule_once uuid jitter stamp db).runs
schedule_once-IsConsistent uuid jitter stamp db h =
    schedule_once-Keeps uuid (λ runs. IsConsistent runs)
      (λ now c source spec d kept. create_run-IsConsistent uuid now c source spec d kept)
      (λ start c k runs kept.
        modify-IsConsistent k (note_window start c) runs (note_window-id start c)
          (λ j t r e. sym (note_window-lane start c j t r) ∙ e) kept)
      jitter stamp db h

-- A lane in which `create_run` was called has an active run.
any-select :
    (p : CrawlRun → Bool) (xs : List CrawlRun) (r : CrawlRun)
    → head? (select p xs) ≡ some r
    → any p xs ≡ true
any-select p [] r h = cc
any-select p (x ∷ xs) r h = ground (arith, any-select p xs r)

any-more :
    (p : CrawlRun → Bool) (xs : List CrawlRun) (x : CrawlRun)
    → any p xs ≡ true
    → any p (xs ++ (x ∷ [])) ≡ true
any-more p [] x h = ground arith
any-more p (y ∷ ys) x h = ground (arith, any-more p ys x)

create_run-any :
    (uuid : Uuid4) (now : ℕ) (c : Collector) (source : Source) (spec : NewRun) (db : Ledger)
    → any (in_lane c.collector_id spec.run_type) (create_run uuid now c source spec db).1.runs
      ≡ true
unfolding create_run
create_run-any uuid now c source spec db =
    elim (Option-cases (head? (select (in_lane c.collector_id spec.run_type) db.runs))) [
      | inr (r, e) ↦
          rw (e, create_run) (any-select (in_lane c.collector_id spec.run_type) db.runs r e)
      | inl e ↦
          rw (e, create_run)
            (any-last (in_lane c.collector_id spec.run_type) db.runs _
              (ground (arith, eqb_refl c.collector_id, same_type_refl spec.run_type)))
    ]

-- no lane is emptied by another run
create_run-keeps :
    (uuid : Uuid4) (now : ℕ) (c : Collector) (source : Source) (spec : NewRun) (db : Ledger)
    (p : CrawlRun → Bool)
    → any p db.runs ≡ true
    → any p (create_run uuid now c source spec db).1.runs ≡ true
unfolding create_run
create_run-keeps uuid now c source spec db p h =
    elim (Option-cases (head? (select (in_lane c.collector_id spec.run_type) db.runs))) [
      | inr (r, e) ↦ rw (e, create_run) h
      | inl e ↦ rw (e, create_run) (any-more p db.runs _ h)
    ]

any-modify :
    (p : CrawlRun → Bool) (k : ℕ) (f : CrawlRun → CrawlRun) (xs : List CrawlRun)
    → ((r : CrawlRun) → p (f r) ≡ p r)
    → any p (modify k f xs) ≡ any p xs
any-modify p k f [] h = refl
any-modify p k f (x ∷ xs) h = ground (arith, h x, any-modify p k f xs h)

-- a realtime run is no review
select-skip :
    (p : CrawlRun → Bool) (xs : List CrawlRun) (x : CrawlRun)
    → p x ≡ false
    → select p (xs ++ (x ∷ [])) ≡ select p xs
select-skip p [] x h = ground arith
select-skip p (y ∷ ys) x h = ground (arith, select-skip p ys x h)

create_run-review :
    (uuid : Uuid4) (stamp : ℕ) (c : Collector) (source : Source) (db : Ledger)
    → last_review c.collector_id (create_run uuid stamp c source (realtime_spec stamp c) db).1.runs
      ≡ last_review c.collector_id db.runs
unfolding create_run
create_run-review uuid stamp c source db =
    elim (Option-cases (head? (select (in_lane c.collector_id RunType.realtime) db.runs))) [
      | inr (r, e) ↦ rw (e, create_run) refl
      | inl e ↦
          rw (e, create_run)
            (ap newest (
              select-skip (is_review c.collector_id) db.runs
                (build_run stamp (uuid.draw (map (λ r. r.run_id) db.runs)) c source
                  (realtime_spec stamp c))
                (ground arith)))
    ]

-- What a due collector has after its turn: an active realtime run, a next turn in three seconds at the
-- earliest, and an active backfill if its last automatic one is missing or more than a day old.
pub record IsServed (stamp : ℕ) (c : Collector) (before after_turn : Ledger) : Type 0 where
  pub collector : Collector
  pub found : find c.collector_id after_turn.collectors ≡ some collector
  pub next_turn : (t : ℕ) × (collector.next_run_at ≡ some t) × (stamp + seconds 3 ≤ t)
  pub realtime : any (in_lane c.collector_id RunType.realtime) after_turn.runs ≡ true
  pub backfill :
      (is_older (hours 24) stamp (last_review c.collector_id before.runs) ≡ false)
      ⊎ (any (in_lane c.collector_id RunType.backfill) after_turn.runs ≡ true)

create_run-collectors :
    (uuid : Uuid4) (now : ℕ) (c : Collector) (source : Source) (spec : NewRun) (db : Ledger)
    → (create_run uuid now c source spec db).1.collectors ≡ db.collectors
unfolding create_run
create_run-collectors uuid now c source spec db =
    elim (Option-cases (head? (select (in_lane c.collector_id spec.run_type) db.runs))) [
      | inr (r, e) ↦ rw (e, create_run) refl
      | inl e ↦ rw (e, create_run) refl
    ]

-- a backfill that is due and not needed is there already
unneeded-any :
    (stamp : ℕ) (c : Collector) (runs : List CrawlRun)
    → is_older (hours 24) stamp (last_review c.collector_id runs) ≡ true
    → needs_backfill stamp c runs ≡ false
    → any (in_lane c.collector_id RunType.backfill) runs ≡ true
unfolding needs_backfill
unneeded-any stamp c runs older unneeded =
    elim (Option-cases (head? (select (in_lane c.collector_id RunType.backfill) runs))) [
      | inl e ↦ absurd (ground arith)
      | inr (r, e) ↦ any-select (in_lane c.collector_id RunType.backfill) runs r e
    ]

make_recovery-any :
    (uuid : Uuid4) (stamp : ℕ) (c : Collector) (source : Source) (db : Ledger)
    → (any (in_lane c.collector_id RunType.backfill) (make_recovery uuid stamp c source db).runs
        ≡ true)
      × (any (in_lane c.collector_id RunType.realtime) db.runs ≡ true
          → any
              (in_lane c.collector_id RunType.realtime)
              (make_recovery uuid stamp c source db).runs
            ≡ true)
make_recovery-any uuid stamp c source db =
    let start = window_start stamp c in
    let spec = recovery_spec start stamp in
    let (run, db') = create_run uuid stamp c source spec db in
    let same = λ (t : RunType).
      any-modify (in_lane c.collector_id t) run.run_id (note_window start c) db'.runs
        (λ r. note_window-lane start c c.collector_id t r) in
    (
      same RunType.backfill ∙ create_run-any uuid stamp c source spec db,
      λ h.
          same RunType.realtime
          ∙ create_run-keeps uuid stamp c source spec db (in_lane c.collector_id RunType.realtime)
              h,
    )

-- A collector, as the table has it, whose turn has come has an active realtime run after it, its next turn is three seconds
-- away at least, and it has an active backfill if its last automatic one is missing or more than a day
-- old.
pub schedule_collector-IsServed :
    (uuid : Uuid4) (jitter : Jitter) (stamp : ℕ) (source : Source) (c : Collector) (db : Ledger)
    → find c.collector_id db.collectors ≡ some c
    → after c.next_run_at stamp ≡ false
    → IsServed stamp c db (schedule_collector uuid jitter stamp source c db)
unfolding schedule_collector
schedule_collector-IsServed uuid jitter stamp source c db found due =
    let (_, db1) = create_run uuid stamp c source (realtime_spec stamp c) db in
    let db2 : Ledger = record db1 {
      collectors = modify c.collector_id (plan_next jitter stamp) db1.collectors;
    } in
    let live = create_run-any uuid stamp c source (realtime_spec stamp c) db in
    let review = create_run-review uuid stamp c source db in
    let planned : find c.collector_id db2.collectors ≡ some (plan_next jitter stamp c) =
      find-modify_same c.collector_id (plan_next jitter stamp) db1.collectors c (λ x. refl)
        (rw (create_run-collectors uuid stamp c source (realtime_spec stamp c) db) found) in
    let next : (t : ℕ) × ((plan_next jitter stamp c).next_run_at ≡ some t)
        × (stamp + seconds 3 ≤ t) =
      (
        stamp + max (seconds 3) (jitter.delay c.collector_id c.interval_seconds),
        refl,
        omega arith,
      ) in
    let whole : schedule_collector uuid jitter stamp source c db
        ≡ (if needs_backfill stamp c db2.runs then make_recovery uuid stamp c source db2 else db2) =
      rw (due, schedule_collector) refl in
    elim (Bool-cases (needs_backfill stamp c db2.runs)) [
      | inl needed ↦
          let extra = make_recovery-any uuid stamp c source db2 in
          subst (IsServed stamp c db) (sym whole) (
            rw needed (record {
              collector = plan_next jitter stamp c;
              found =
                  rw
                    (create_run-collectors uuid stamp c source
                      (recovery_spec (window_start stamp c) stamp) db2)
                    planned;
              next_turn = next;
              realtime = extra.1 live;
              backfill = inr extra.0;
            }))
      | inr unneeded ↦ subst (IsServed stamp c db) (sym whole) (
          rw unneeded (record {
            collector = plan_next jitter stamp c;
            found = planned;
            next_turn = next;
            realtime = live;
            backfill =
                elim (Bool-cases (is_older (hours 24) stamp (last_review c.collector_id db.runs))) [
                  | inl older ↦ inr (
                      unneeded-any stamp c db2.runs (ap (is_older (hours 24) stamp) review ∙ older)
                        unneeded)
                  | inr recent ↦ inl recent
                ];
          }))
    ]
