-- ===== src/Examples/Scheduler.antt =====
-- The scheduler's theorems at the example's ledger.
use market_mind.Prelude.{◌*◌, refl, arith}
use market_mind.Scheduler.{Jitter, schedule_once, schedule_collector}
use market_mind.Scheduler.Service.{
  IsServed, schedule_once-IsConsistent, schedule_collector-IsServed,
}
use market_mind.Runtime.Lanes.Basic.{IsConsistent}
use market_mind.Examples.Data.{sum_uuid, ledger, telegraph, cls}
use market_mind.Examples.Runtime.{ledger-IsConsistent}

-- no jitter
abbrev exact : Jitter
exact = record {
  delay = λ k interval. interval * 1000000;
  lower = λ k interval. omega arith;
  upper = λ k interval. omega arith;
}

schedule_once-IsConsistent_example :
    IsConsistent (schedule_once sum_uuid exact 200000000000 ledger).runs
schedule_once-IsConsistent_example =
    schedule_once-IsConsistent sum_uuid exact 200000000000 ledger ledger-IsConsistent

schedule_collector-IsServed_example :
    IsServed 200000000000 telegraph ledger
      (schedule_collector sum_uuid exact 200000000000 cls telegraph ledger)
schedule_collector-IsServed_example =
    schedule_collector-IsServed sum_uuid exact 200000000000 cls telegraph ledger refl refl
