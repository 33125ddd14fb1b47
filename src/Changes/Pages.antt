-- ===== src/Changes/Pages.antt =====
-- A page of the feed from the table of changes and a cursor.
use market_mind.Prelude.{
  ℕ, zero, suc, ◌≤◌, ◌<◌, some, sym, subst, ◌==◌, ◌≡◌, refl, ap, ◌∙◌, true, List, [], ◌∷◌, ◌++◌,
  arith, leb, ltb, length, select, select-All, order_by, order_by-All, All, All-map, count,
  Bool-cases, eqb→eq, ◌⊎◌, inl, inr,
}
use market_mind.Changes.{
  Change, Lane, lane_at, merge, enough, take_first, is_after, queue_of, Cursor, offset_of,
  open_feed, feed_page,
}
use market_mind.Changes.Order.{
  delivered, queued, lanes_of, all_of, are_own, IsMerged, merge-IsMerged,
}
use market_mind.Changes.Fairness.{IsExhausted, merge-IsExhausted}
use mathlib.Core.List.{append-nil}

abbrev pub IsOwnRow : ℕ → Change → Type 0
IsOwnRow k c = (c.source_id == k) ≡ true

all_of-All : (k : ℕ) (xs : List Change) → All (IsOwnRow k) xs → all_of k xs ≡ true
all_of-All k [] h = refl
all_of-All k (x ∷ xs) h = ground (arith, h.0, all_of-All k xs h.1)

take_first-All :
    (k limit : ℕ) (xs : List Change) → All (IsOwnRow k) xs → All (IsOwnRow k) (take_first limit xs)
take_first-All k zero xs h = tt
take_first-All k (suc n) [] h = tt
take_first-All k (suc n) (x ∷ xs) h = (h.0, take_first-All k n xs h.1)

-- a query of a source finds its own changes
queue_of-all_of :
    (limit : ℕ) (table : List Change) (k offset : ℕ)
    → all_of k (queue_of limit table k offset) ≡ true
queue_of-all_of limit table k offset =
    let rows = select (is_after k offset) table in
    let before = λ (a b : Change). ltb a.change_id b.change_id in
    all_of-All k (queue_of limit table k offset) (
      take_first-All k limit (order_by before rows) (
        order_by-All (IsOwnRow k) before rows (
          All-map (λ c. is_after k offset c ≡ true) (IsOwnRow k) rows (λ c h. ground (arith, h))
            (select-All (is_after k offset) table))))

-- how often a source is listed
abbrev pub times : ℕ → List ℕ → ℕ
times k = count (λ s. s == k)

abbrev lanes_from : ℕ → List ℕ → List Change → Cursor → List Lane
lanes_from limit sources table c = (open_feed limit sources table c).lanes

lanes_from-lanes_of :
    (k limit : ℕ) (sources : List ℕ) (table : List Change) (c : Cursor)
    → lanes_of k (lanes_from limit sources table c) ≡ times k sources
lanes_from-lanes_of k limit [] table c = refl
lanes_from-lanes_of k limit (s ∷ ss) table c =
    ground (arith, lanes_from-lanes_of k limit ss table c)

lanes_from-are_own :
    (limit : ℕ) (sources : List ℕ) (table : List Change) (c : Cursor)
    → are_own (lanes_from limit sources table c) ≡ true
lanes_from-are_own limit [] table c = refl
lanes_from-are_own limit (s ∷ ss) table c =
    let mine = queue_of-all_of limit table s (offset_of s c.offsets) in
    rw mine (lanes_from-are_own limit ss table c)

lanes_from-length :
    (limit : ℕ) (sources : List ℕ) (table : List Change) (c : Cursor)
    → length (lanes_from limit sources table c) ≡ length sources
lanes_from-length limit [] table c = refl
lanes_from-length limit (s ∷ ss) table c = ground (arith, lanes_from-length limit ss table c)

lanes_from-queued :
    (k limit : ℕ) (sources : List ℕ) (table : List Change) (c : Cursor)
    → 1 ≤ times k sources
    → queued k (lanes_from limit sources table c) ≡ queue_of limit table k (offset_of k c.offsets)
lanes_from-queued k limit [] table c listed = absurd (omega (arith, listed))
lanes_from-queued k limit (s ∷ ss) table c listed = elim (Bool-cases (s == k)) [
  | inl e ↦
      let same : s ≡ k = eqb→eq s k e in
      rw e (ap (λ j. queue_of limit table j (offset_of j c.offsets)) same)
  | inr e ↦ rw e (lanes_from-queued k limit ss table c (ground (arith, e, listed)))
]

-- what the loop makes of a page that a cursor opens
opened-IsMerged :
    (limit : ℕ) (sources : List ℕ) (table : List Change) (c : Cursor)
    → ((k : ℕ) → times k sources ≤ 1)
    → IsMerged limit (open_feed limit sources table c) (
        merge
          (enough limit (length sources))
          limit
          (length sources)
          (open_feed limit sources table c))
opened-IsMerged limit sources table c distinct =
    merge-IsMerged (enough limit (length sources)) limit (length sources)
      (open_feed limit sources table c)
      (record {
        unique = λ k. omega (arith, distinct k, lanes_from-lanes_of k limit sources table c);
        own = lanes_from-are_own limit sources table c;
      })
      (omega arith)

-- A page is not longer than its limit, and what it has of a source is the beginning of what the
-- table has of it after the cursor's offset, in the order of its query.
pub record IsPage (limit : ℕ) (sources : List ℕ) (table : List Change) (c : Cursor)
    (items : List Change) : Type 0 where
  pub bounded : length items ≤ limit
  pub rest : ℕ → List Change
  pub from_table :
      (k : ℕ)
      → (times k sources ≡ 0)
        ⊎ (delivered k items ++ rest k ≡ queue_of limit table k (offset_of k c.offsets))

-- Where no source is listed twice: each page of the feed is within its limit and has of every source the
-- first of the changes that the query of the source finds after the cursor's offset, in their order,
-- with none left out between them.
pub feed_page-IsPage :
    (limit : ℕ) (sources : List ℕ) (table : List Change) (c : Cursor)
    → ((k : ℕ) → times k sources ≤ 1)
    → IsPage limit sources table c (feed_page limit sources table c).0
feed_page-IsPage limit sources table c distinct =
    let done = opened-IsMerged limit sources table c distinct in
    let n = length sources in
    record {
      bounded = done.bounded;
      rest = λ k. queued k (merge (enough limit n) limit n (open_feed limit sources table c)).lanes;
      from_table = λ k. elim (Bool-cases (leb 1 (times k sources))) [
        | inr e ↦ inl (ground (arith, e))
        | inl e ↦
            inr (done.in_order k ∙ lanes_from-queued k limit sources table c (ground (arith, e)))
      ];
    }

-- where no lane has anything left, no source has
queued_drained :
    (k : ℕ) (ls : List Lane)
    → ((j : ℕ) (l : Lane) → lane_at j ls ≡ some l → l.queue ≡ [])
    → queued k ls ≡ []
queued_drained k [] h = refl
queued_drained k (l ∷ ls) h = elim (Bool-cases (l.source_id == k)) [
  | inl e ↦ rw e (h 0 l refl)
  | inr e ↦ rw e (queued_drained k ls (λ j x found. h (suc j) x found))
]

-- Where no source is listed twice and the cursor's turn is one of the sources': a page of the feed that is
-- shorter than its limit has of every source all the changes that the query of the source finds after
-- the cursor's offset, in their order.
pub feed_page-queue_of :
    (limit : ℕ) (sources : List ℕ) (table : List Change) (c : Cursor) (k : ℕ)
    → ((j : ℕ) → times j sources ≤ 1)
    → c.turn < length sources
    → length (feed_page limit sources table c).0 < limit
    → 1 ≤ times k sources
    → delivered k (feed_page limit sources table c).0
      ≡ queue_of limit table k (offset_of k c.offsets)
feed_page-queue_of limit sources table c k distinct turn short listed =
    let start = open_feed limit sources table c in
    let end = merge (enough limit (length sources)) limit (length sources) start in
    let same = lanes_from-length limit sources table c in
    let (_, exhausted) =
      merge-IsExhausted limit start (subst (λ m. c.turn < m) (sym same) turn) refl refl in
    let ended : IsExhausted limit end =
      subst (λ m. IsExhausted limit (merge (enough limit m) limit m start)) same exhausted in
    elim ended [
      | inl full ↦ absurd (omega (arith, full, short))
      | inr empty ↦
          sym (append-nil (delivered k end.items))
          ∙ ap (λ xs. delivered k end.items ++ xs) (sym (queued_drained k end.lanes empty))
          ∙ (opened-IsMerged limit sources table c distinct).in_order k
          ∙ lanes_from-queued k limit sources table c listed
    ]
