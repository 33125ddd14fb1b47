-- ===== src/Changes.antt =====
-- The change feed of backend/src/marketmind/changes.py: the changes of each source in the order of
-- their numbers, the sources taken in turn. The decoding of the cursor's text is library code; its
-- value is an argument.
pub mod Fairness
pub mod Order
pub mod Pages
use market_mind.Prelude.{
  ℕ, zero, suc, ◌+◌, ◌*◌, ◌%◌, ◌==◌, Bool, true, false, not, ◌&&◌, ◌||◌, Option, none, some, List,
  [], ◌∷◌, ◌++◌, map, if◌then◌else◌, leb, ltb, max, length, select, order_by, any,
}
use market_mind.Replies.{Reply, raised, answer}

-- a row of `NewsChange`, without its type and its time
pub record Change : Type 0 where
  pub source_id : ℕ
  pub change_id : ℕ
  pub news_id : ℕ
  pub revision_id : ℕ

-- A source with its offset and what is left of its queue.
pub record Lane : Type 0 where
  pub source_id : ℕ
  pub offset : ℕ
  pub queue : List Change

-- The variables of the loop.
pub record Feed : Type 0 where
  pub turn : ℕ
  pub idle : ℕ
  pub lanes : List Lane
  pub items : List Change

abbrev pub lane_at : ℕ → List Lane → Option Lane
lane_at _ [] = none
lane_at zero (l ∷ _) = some l
lane_at (suc n) (_ ∷ ls) = lane_at n ls

abbrev pub put_lane : ℕ → Lane → List Lane → List Lane
put_lane _ lane [] = []
put_lane zero lane (_ ∷ ls) = lane ∷ ls
put_lane (suc n) lane (l ∷ ls) = l ∷ put_lane n lane ls

-- one round for this source
abbrev pub serve : ℕ → Lane → List Change → Feed → Feed
serve n lane [] f = record f { turn = (f.turn + 1) % n; idle = f.idle + 1 }
serve n lane (row ∷ rest) f = record {
  turn = (f.turn + 1) % n;
  idle = 0;
  lanes = put_lane f.turn (record lane { offset = row.change_id; queue = rest }) f.lanes;
  items = f.items ++ (row ∷ []);
}

abbrev pub step : ℕ → Feed → Feed
step n f = elim (lane_at f.turn f.lanes) [ none ↦ f | some lane ↦ serve n lane lane.queue f ]

-- the negated condition of the loop
abbrev pub is_over : ℕ → ℕ → Feed → Bool
is_over limit n f = n == 0 || leb limit (length f.items) || leb n f.idle

-- The loop, on fuel; `enough` rounds come to its end.
unfoldable pub merge : ℕ → ℕ → ℕ → Feed → Feed
merge zero limit n f = f
merge (suc fuel) limit n f =
    let rest = merge fuel limit n (step n f) in if is_over limit n f then f else rest

abbrev pub enough : ℕ → ℕ → ℕ
enough limit n = limit * n + n

abbrev pub take_first : ℕ → List Change → List Change
take_first zero _ = []
take_first (suc n) [] = []
take_first (suc n) (c ∷ cs) = c ∷ take_first n cs

abbrev pub is_after : ℕ → ℕ → Change → Bool
is_after source offset c = c.source_id == source && ltb offset c.change_id

-- the query of a source
abbrev pub queue_of : ℕ → List Change → ℕ → ℕ → List Change
queue_of limit table source offset =
    take_first limit
      (order_by (λ a b. ltb a.change_id b.change_id) (select (is_after source offset) table))

-- The value of a cursor: an offset for each source, and whose turn it is.
pub record Cursor : Type 0 where
  pub offsets : List (ℕ × ℕ)
  pub turn : ℕ

abbrev pub start_cursor : List ℕ → Cursor
start_cursor sources = record { offsets = map (λ s. (s, 0)) sources; turn = 0 }

abbrev pub is_named : ℕ → List (ℕ × ℕ) → Bool
is_named s offsets = any (λ o. o.0 == s) offsets

abbrev pub all_named : List ℕ → List (ℕ × ℕ) → Bool
all_named [] offsets = true
all_named (s ∷ ss) offsets = is_named s offsets && all_named ss offsets

abbrev pub all_known : List (ℕ × ℕ) → List ℕ → Bool
all_known [] sources = true
all_known (o ∷ os) sources = any (λ s. s == o.0) sources && all_known os sources

-- the same set of sources, and a turn that is one of theirs
abbrev pub is_cursor_valid : List ℕ → Cursor → Bool
is_cursor_valid sources c =
    all_named sources c.offsets
    && all_known c.offsets sources
    && ltb c.turn (max 1 (length sources))

abbrev pub offset_of : ℕ → List (ℕ × ℕ) → ℕ
offset_of s [] = 0
offset_of s ((k, n) ∷ os) = if k == s then n else offset_of s os

abbrev pub open_feed : ℕ → List ℕ → List Change → Cursor → Feed
open_feed limit sources table c = record {
  turn = c.turn;
  idle = 0;
  lanes =
      map
        (λ s. record {
          source_id = s;
          offset = offset_of s c.offsets;
          queue = queue_of limit table s (offset_of s c.offsets);
        })
        sources;
  items = [];
}

abbrev pub next_cursor : Feed → Cursor
next_cursor f = record { offsets = map (λ l. (l.source_id, l.offset)) f.lanes; turn = f.turn }

pub data FeedError : Type 0 where
  invalid_cursor : FeedError

abbrev pub feed_page : ℕ → List ℕ → List Change → Cursor → List Change × Cursor
feed_page limit sources table c =
    let f =
      merge (enough limit (length sources)) limit (length sources)
        (open_feed limit sources table c) in
    (f.items, next_cursor f)

-- `sources` are in the order of their codes.
unfoldable pub changes :
    ℕ → List ℕ → List Change → Option Cursor → Reply FeedError (List Change × Cursor)
unfolding merge order_by
changes limit sources table none = answer (feed_page limit sources table (start_cursor sources))
changes limit sources table (some c) =
    if is_cursor_valid sources c
    then answer (feed_page limit sources table c)
    else raised invalid_cursor
