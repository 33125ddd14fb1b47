-- ===== src/Generations/Growth.antt =====
-- Every transaction of the executor, of the commands and of the worker lets the generations of all
-- runs grow or stay.
use market_mind.Prelude.{
  ℕ, ◌≤◌, ◌≡◌, Option, none, some, List, [], ◌∷◌, ◌++◌, map, arith, get_or, modify, find,
}
use market_mind.Ledger.{CrawlRun, run_identity}

-- the generation of a run: 0 where the run or the key of its checkpoint is missing
abbrev pub generation_of : CrawlRun → ℕ
generation_of r = get_or r.checkpoint.generation 0

abbrev pub generation_in : Option CrawlRun → ℕ
generation_in none = 0
generation_in (some r) = generation_of r

abbrev pub generation : ℕ → List CrawlRun → ℕ
generation k runs = generation_in (find k runs)

-- No run's generation falls.
abbrev pub Grows : List CrawlRun → List CrawlRun → Type 0
Grows runs runs' = (k : ℕ) → generation k runs ≤ generation k runs'

pub Grows-trans : (a b c : List CrawlRun) → Grows a b → Grows b c → Grows a c
Grows-trans a b c p q k = omega (arith, p k, q k)

pub Grows-refl : (a : List CrawlRun) → Grows a a
Grows-refl a k = omega arith

pub modify-Grows :
    (k : ℕ) (f : CrawlRun → CrawlRun) (runs : List CrawlRun)
    → ((r : CrawlRun) → (f r).run_id ≡ r.run_id)
    → ((r : CrawlRun) → generation_of r ≤ generation_of (f r))
    → Grows runs (modify k f runs)
modify-Grows k f [] keep grow j = omega arith
modify-Grows k f (r ∷ rs) keep grow j =
    ground (arith, keep r, grow r, modify-Grows k f rs keep grow j)

pub map-Grows :
    (f : CrawlRun → CrawlRun) (runs : List CrawlRun)
    → ((r : CrawlRun) → (f r).run_id ≡ r.run_id)
    → ((r : CrawlRun) → generation_of r ≤ generation_of (f r))
    → Grows runs (map f runs)
map-Grows f [] keep grow j = omega arith
map-Grows f (r ∷ rs) keep grow j = ground (arith, keep r, grow r, map-Grows f rs keep grow j)

pub append-Grows : (new runs : List CrawlRun) → Grows runs (runs ++ new)
append-Grows new [] j = omega arith
append-Grows new (r ∷ rs) j = ground (arith, append-Grows new rs j)
