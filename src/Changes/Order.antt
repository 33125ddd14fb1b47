-- ===== src/Changes/Order.antt =====
-- What a page of the feed takes from each source.
use market_mind.Prelude.{
  ℕ, zero, suc, ◌+◌, ◌≤◌, ◌<◌, ◌==◌, ◌≡◌, refl, ap, subst, ◌∙◌, Bool, true, false, ◌&&◌, some, inl,
  inr, List, [], ◌∷◌, ◌++◌, arith, if◌then◌else◌, length, length-append, select, Bool-cases,
  Option-cases, eqb_refl, eqb→eq,
}
use market_mind.Changes.{Change, Lane, Feed, lane_at, put_lane, serve, step, is_over, merge}

-- the changes of a source among the items
abbrev pub delivered : ℕ → List Change → List Change
delivered k = select (λ c. c.source_id == k)

-- what the sources before this place, and from it on, still have queued
abbrev pub queued : ℕ → List Lane → List Change
queued k [] = []
queued k (l ∷ ls) = if l.source_id == k then l.queue else queued k ls

abbrev pub lanes_of : ℕ → List Lane → ℕ
lanes_of k [] = 0
lanes_of k (l ∷ ls) = (if l.source_id == k then 1 else 0) + lanes_of k ls

-- every queue holds changes of its own source
abbrev pub all_of : ℕ → List Change → Bool
all_of k [] = true
all_of k (c ∷ cs) = c.source_id == k && all_of k cs

abbrev pub are_own : List Lane → Bool
are_own [] = true
are_own (l ∷ ls) = all_of l.source_id l.queue && are_own ls

-- Sources have one lane each, which holds their own changes.
pub record IsFeed (lanes : List Lane) : Type 0 where
  pub unique : (k : ℕ) → lanes_of k lanes ≤ 1
  pub own : are_own lanes ≡ true

delivered-append :
    (k : ℕ) (xs : List Change) (c : Change)
    → delivered k (xs ++ (c ∷ [])) ≡ delivered k xs ++ (if c.source_id == k then c ∷ [] else [])
delivered-append k [] c = ground arith
delivered-append k (x ∷ xs) c = ground (arith, delivered-append k xs c)

module _ (lane : Lane) (row : Change) (rest : List Change) (full : lane.queue ≡ row ∷ rest) where
  abbrev next_lane : Lane
  next_lane = record lane { offset = row.change_id; queue = rest }

  lanes_of-put_lane :
      (k t : ℕ) (ls : List Lane)
      → lane_at t ls ≡ some lane
      → lanes_of k (put_lane t next_lane ls) ≡ lanes_of k ls
  lanes_of-put_lane k t [] at = refl
  lanes_of-put_lane k zero (l ∷ ls) at = ground (arith, at)
  lanes_of-put_lane k (suc t) (l ∷ ls) at = ground (arith, lanes_of-put_lane k t ls at)

  lanes_of-lane_at :
      (t : ℕ) (ls : List Lane) → lane_at t ls ≡ some lane → 1 ≤ lanes_of lane.source_id ls
  lanes_of-lane_at t [] at = absurd (cc)
  lanes_of-lane_at zero (l ∷ ls) at = ground (arith, at, eqb_refl lane.source_id)
  lanes_of-lane_at (suc t) (l ∷ ls) at = omega (arith, lanes_of-lane_at t ls at)

  -- the queue of the lane in turn loses its first change, the others keep theirs
  queued-put_lane :
      (k t : ℕ) (ls : List Lane)
      → lane_at t ls ≡ some lane
      → lanes_of lane.source_id ls ≤ 1
      → queued k (put_lane t next_lane ls) ≡ (if lane.source_id == k then rest else queued k ls)
  queued-put_lane k t [] at one = absurd (cc)
  queued-put_lane k zero (l ∷ ls) at one = ground (arith, at)
  queued-put_lane k (suc t) (l ∷ ls) at one =
      let more = lanes_of-lane_at t ls at in
      ground (arith, more, one, eqb→eq lane.source_id k, queued-put_lane k t ls at)

  queued-lane_at :
      (t : ℕ) (ls : List Lane)
      → lane_at t ls ≡ some lane
      → lanes_of lane.source_id ls ≤ 1
      → queued lane.source_id ls ≡ lane.queue
  queued-lane_at t [] at one = absurd (cc)
  queued-lane_at zero (l ∷ ls) at one = ground (arith, at, eqb_refl lane.source_id)
  queued-lane_at (suc t) (l ∷ ls) at one =
      let more = lanes_of-lane_at t ls at in ground (arith, more, one, queued-lane_at t ls at)

  are_own-lane_at :
      (t : ℕ) (ls : List Lane)
      → lane_at t ls ≡ some lane
      → are_own ls ≡ true
      → (row.source_id ≡ lane.source_id) × (are_own (put_lane t next_lane ls) ≡ true)
  are_own-lane_at t [] at own = absurd (cc)
  are_own-lane_at zero (l ∷ ls) at own =
      let same : l ≡ lane = cc in
      let mine : all_of lane.source_id (row ∷ rest) ≡ true = ground (arith, at, full, own) in
      (eqb→eq row.source_id lane.source_id (ground (arith, mine)), ground (arith, mine, own))
  are_own-lane_at (suc t) (l ∷ ls) at own =
      let (mine, others) = are_own-lane_at t ls at (ground (arith, own)) in
      (mine, ground (arith, own, others))

append_one :
    (xs : List Change) (c : Change) (ys : List Change) → (xs ++ (c ∷ [])) ++ ys ≡ xs ++ (c ∷ ys)
append_one [] c ys = refl
append_one (x ∷ xs) c ys = ap (λ zs. x ∷ zs) (append_one xs c ys)

append_nothing : (xs : List Change) → xs ++ [] ≡ xs
append_nothing [] = refl
append_nothing (x ∷ xs) = ap (λ zs. x ∷ zs) (append_nothing xs)

-- What a source has delivered, with what it still has queued.
abbrev pub stream : ℕ → Feed → List Change
stream k f = delivered k f.items ++ queued k f.lanes

-- The page is not too long, and no source has lost, repeated or reordered a change.
pub record IsMerged (limit : ℕ) (old f : Feed) : Type 0 where
  pub feed : IsFeed f.lanes
  pub bounded : length f.items ≤ limit
  pub in_order : (k : ℕ) → stream k f ≡ stream k old

serve_empty :
    (limit n : ℕ) (lane : Lane) (old f : Feed)
    → IsMerged limit old f
    → IsMerged limit old (serve n lane [] f)
serve_empty limit n lane old f h = record {
  feed = h.feed;
  bounded = h.bounded;
  in_order = h.in_order;
}

serve-IsMerged :
    (limit n : ℕ) (lane : Lane) (queue : List Change) (old f : Feed)
    → lane.queue ≡ queue
    → lane_at f.turn f.lanes ≡ some lane
    → length f.items < limit
    → IsMerged limit old f
    → IsMerged limit old (serve n lane queue f)
serve-IsMerged limit n lane [] old f full at few h = serve_empty limit n lane old f h
serve-IsMerged limit n lane (row ∷ rest) old f full at few h =
    let one = h.feed.unique lane.source_id in
    let (mine, own) = are_own-lane_at lane row rest full f.turn f.lanes at h.feed.own in
    record {
      feed = record {
        unique = λ k.
            omega
              (arith, h.feed.unique k, lanes_of-put_lane lane row rest full k f.turn f.lanes at);
        own = own;
      };
      bounded = omega (arith, few, length-append f.items (row ∷ []));
      in_order = λ k. order k mine one ∙ h.in_order k;
    }
  where
    order :
        (k : ℕ)
        → row.source_id ≡ lane.source_id
        → lanes_of lane.source_id f.lanes ≤ 1
        → stream k (serve n lane (row ∷ rest) f) ≡ stream k f
    order k mine one =
        let after = queued-put_lane lane row rest full k f.turn f.lanes at one in
        let before = queued-lane_at lane row rest full f.turn f.lanes at one in
        let taken = delivered-append k f.items row in
        elim (Bool-cases (lane.source_id == k)) [
          | inl e ↦
              let same : lane.source_id ≡ k = eqb→eq lane.source_id k e in
              let hit : (row.source_id == k) ≡ true = ground (arith, mine, e) in
              let head : delivered k (f.items ++ (row ∷ [])) ≡ delivered k f.items ++ (row ∷ []) =
                rw (taken, hit) refl in
              let tail : queued k (put_lane f.turn (next_lane lane row rest full) f.lanes) ≡ rest =
                rw (after, e) refl in
              let whole : queued k f.lanes ≡ row ∷ rest =
                subst (λ j. queued j f.lanes ≡ row ∷ rest) same (before ∙ full) in
              rw (head, tail, whole) (append_one (delivered k f.items) row rest)
          | inr e ↦
              let missed : (row.source_id == k) ≡ false = ground (arith, mine, e) in
              let head : delivered k (f.items ++ (row ∷ [])) ≡ delivered k f.items =
                rw (taken, missed) (append_nothing (delivered k f.items)) in
              let tail : queued k (put_lane f.turn (next_lane lane row rest full) f.lanes)
                  ≡ queued k f.lanes =
                rw (after, e) refl in
              rw (head, tail) refl
        ]

merge_keeps :
    (fuel limit n : ℕ) (old f : Feed)
    → IsMerged limit old f
    → IsMerged limit old (merge fuel limit n f)
unfolding merge
merge_keeps zero limit n old f h = h
merge_keeps (suc fuel) limit n old f h = elim (Bool-cases (is_over limit n f)) [
  | inl over ↦ rw over h
  | inr more ↦ elim (Option-cases (lane_at f.turn f.lanes)) [
    | inl none_at ↦
        let still : step n f ≡ f = rw (step, none_at) refl in
        rw (more, still) (merge_keeps fuel limit n old f h)
    | inr (lane, at) ↦
        let served : step n f ≡ serve n lane lane.queue f = rw (step, at) refl in
        rw (more, served)
          (merge_keeps fuel limit n old (serve n lane lane.queue f)
            (serve-IsMerged limit n lane lane.queue old f refl at (ground (arith, more)) h))
  ]
]

-- Where sources have one lane each, which holds their own changes, and the page is not too long: however
-- many rounds are made, what each source has delivered, followed by what it still has queued, is what it
-- was before: changes of a source come out in the order of its queue, none is lost or repeated, and
-- the page stays within its limit.
pub merge-IsMerged :
    (fuel limit n : ℕ) (f : Feed)
    → IsFeed f.lanes
    → length f.items ≤ limit
    → IsMerged limit f (merge fuel limit n f)
merge-IsMerged fuel limit n f feed bounded =
    merge_keeps fuel limit n f f (record { feed = feed; bounded = bounded; in_order = λ k. refl })
