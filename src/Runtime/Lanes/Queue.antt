-- ===== src/Runtime/Lanes/Queue.antt =====
-- The flush after a command never finds the index violated: `commands` of
-- backend/src/marketmind/runtime.py.
use market_mind.Prelude.{
  ℕ, ◌≤◌, ◌≡◌, refl, Bool, true, false, List, [], ◌∷◌, arith, any, count, eqb_refl,
}
use market_mind.Ledger.{
  RunType, is_active, same_type, Ledger, CrawlRun, run_identity, source_identity, ControlCommand,
}
use market_mind.Runtime.Results.{Result, ok, err, ◌>>=◌}
use market_mind.Runtime.Recovery.{Uuid4, in_lane}
use market_mind.Runtime.Processing.{apply_command, has_unique_lanes, flush}
use market_mind.Runtime.Lanes.Basic.{IsConsistent}
use market_mind.Runtime.Lanes.Commands.{apply_command-IsConsistent}

pub same_type_refl : (t : RunType) → same_type t t ≡ true
same_type_refl RunType.realtime = refl
same_type_refl RunType.backfill = refl

-- the executable test of the index says what the invariant says
has_unique_lanes-head :
    (r : CrawlRun) (rs : List CrawlRun)
    → count (in_lane r.collector_id r.run_type) (r ∷ rs) ≤ 1
    → is_active r.status ≡ true
    → count (in_lane r.collector_id r.run_type) rs ≡ 0
has_unique_lanes-head r rs h active =
    ground (arith, eqb_refl r.collector_id, same_type_refl r.run_type)

none_of_count : (p : CrawlRun → Bool) (rs : List CrawlRun) → count p rs ≡ 0 → any p rs ≡ false
none_of_count p [] h = refl
none_of_count p (r ∷ rs) h = ground (arith, none_of_count p rs)

pub has_unique_lanes-true :
    (runs : List CrawlRun)
    → ((c : ℕ) (t : RunType) → count (in_lane c t) runs ≤ 1)
    → has_unique_lanes runs ≡ true
unfolding has_unique_lanes
has_unique_lanes-true [] h = refl
has_unique_lanes-true (r ∷ rs) h = ground (
  arith,
  has_unique_lanes-head r rs (h r.collector_id r.run_type),
  none_of_count (in_lane r.collector_id r.run_type) rs,
  has_unique_lanes-true rs (λ c t. omega (arith, h c t)),
)

flush-ok : (r : Ledger × Bool) → IsConsistent r.0.runs → flush r ≡ ok r
unfolding flush
flush-ok r h = rw (has_unique_lanes-true r.0.runs h.unique_lanes)

-- If run identifiers are unique and no lane has two active runs, the flush after a command never
-- reports a conflict: a command fails only by its own tests.
pub apply_command-flush :
    (uuid : Uuid4) (now source : ℕ) (c : ControlCommand) (db : Ledger)
    → IsConsistent db.runs
    → (apply_command uuid now source c db >>= flush) ≡ apply_command uuid now source c db
apply_command-flush uuid now source c db h = go (apply_command uuid now source c db) refl
  where
    go : (m : Result (Ledger × Bool)) → apply_command uuid now source c db ≡ m → (m >>= flush) ≡ m
    go (ok r) e = flush-ok r (apply_command-IsConsistent uuid now source c db r h e)
    go (err x) e = refl
