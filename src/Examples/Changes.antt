-- ===== src/Examples/Changes.antt =====
-- A page of the feed over two sources.
use market_mind.Prelude.{List, ℕ, ◌≡◌, refl, true, [], ◌∷◌, arith, order_by}
use market_mind.Changes.{Change, Feed, Cursor, is_over, merge, enough, feed_page, queue_of}
use market_mind.Changes.Fairness.{IsExhausted, merge-IsExhausted}
use market_mind.Changes.Pages.{IsPage, feed_page-IsPage, feed_page-queue_of}
use market_mind.Changes.Order.{delivered}

abbrev change : ℕ → ℕ → Change
change source k = record { source_id = source; change_id = k; news_id = k; revision_id = k }

abbrev feed : Feed
feed = record {
  turn = 1;
  idle = 0;
  lanes =
      record { source_id = 1; offset = 0; queue = change 1 1 ∷ change 1 2 ∷ [] }
      ∷ record { source_id = 2; offset = 4; queue = change 2 5 ∷ [] }
      ∷ [];
  items = [];
}

merge-IsExhausted_example :
    (is_over 3 2 (merge (enough 3 2) 3 2 feed) ≡ true) × IsExhausted 3 (merge (enough 3 2) 3 2 feed)
merge-IsExhausted_example = merge-IsExhausted 3 feed (omega arith) refl refl

abbrev table : List Change
table = change 1 1 ∷ change 2 5 ∷ change 1 2 ∷ []

abbrev sources : List ℕ
sources = 1 ∷ 2 ∷ []

abbrev cursor : Cursor
cursor = record { offsets = (1, 0) ∷ (2, 4) ∷ []; turn = 1 }

feed_page-IsPage_example : IsPage 3 sources table cursor (feed_page 3 sources table cursor).0
feed_page-IsPage_example = feed_page-IsPage 3 sources table cursor (λ k. ground arith)

-- a page with room for one more
feed_page-queue_of_example : delivered 1 (feed_page 4 sources table cursor).0 ≡ queue_of 4 table 1 0
unfolding merge order_by
feed_page-queue_of_example =
    feed_page-queue_of 4 sources table cursor 1 (λ k. ground arith) (omega arith) (omega arith)
      (omega arith)
