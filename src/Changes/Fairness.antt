-- ===== src/Changes/Fairness.antt =====
-- The loop of the feed: it comes to its end, and each source's changes come out in order.
use market_mind.Prelude.{
  ℕ, zero, suc, ◌+◌, ◌-◌, ◌*◌, ◌%◌, ◌≤◌, ◌<◌, ◌≡◌, refl, sym, ap, ◌∙◌, true, some, ◌⊎◌, inl, inr,
  List, [], ◌∷◌, arith, if◌then◌else◌, ltb, leb, length, length-append, Bool-cases,
}
use market_mind.Changes.{Change, Lane, Feed, lane_at, put_lane, serve, step, is_over, merge, enough}
use native.Mathlib.Nat.{mod-lt, mod-eq_of_lt, mod_self}

length-put_lane : (t : ℕ) (l : Lane) (ls : List Lane) → length (put_lane t l ls) ≡ length ls
length-put_lane t l [] = refl
length-put_lane zero l (x ∷ xs) = refl
length-put_lane (suc t) l (x ∷ xs) = ground (arith, length-put_lane t l xs)

lane_at-lt : (t : ℕ) (ls : List Lane) → t < length ls → (l : Lane) × (lane_at t ls ≡ some l)
lane_at-lt t [] h = absurd (omega (arith, h))
lane_at-lt zero (l ∷ ls) h = (l, refl)
lane_at-lt (suc t) (x ∷ ls) h = lane_at-lt t ls (omega (arith, h))

-- whose turn it is stays one of the sources
abbrev pub IsTurning : ℕ → Feed → Type 0
IsTurning n f = (length f.lanes ≡ n) × (f.turn < n)

serve-IsTurning :
    (n : ℕ) (lane : Lane) (queue : List Change) (f : Feed)
    → IsTurning n f
    → IsTurning n (serve n lane queue f)
serve-IsTurning n lane [] f (same, turn) = (same, mod-lt (f.turn + 1) (omega (arith, turn)))
serve-IsTurning n lane (row ∷ rest) f (same, turn) = (
  omega (
    arith,
    same,
    length-put_lane f.turn (record lane { offset = row.change_id; queue = rest }) f.lanes,
  ),
  mod-lt (f.turn + 1) (omega (arith, turn)),
)

-- what is left of the loop: rounds until every source is idle, for each item that may still come
serve-fewer :
    (limit n m fuel : ℕ) (lane : Lane) (queue : List Change) (f : Feed)
    → length f.items < limit
    → f.idle < n
    → limit ≤ m + length f.items
    → m * n + (n - f.idle) ≤ suc fuel
    → (k : ℕ) × (limit ≤ k + length (serve n lane queue f).items)
      × (k * n + (n - (serve n lane queue f).idle) ≤ fuel)
serve-fewer limit n m fuel lane [] f few busy bound rounds = (m, bound, omega (arith, busy, rounds))
serve-fewer limit n zero fuel lane (row ∷ rest) f few busy bound rounds =
    absurd (omega (arith, few, bound))
serve-fewer limit n (suc m) fuel lane (row ∷ rest) f few busy bound rounds =
    (m, omega (arith, bound, length-append f.items (row ∷ [])), omega (arith, busy, rounds))

merge_ends :
    (fuel limit n m : ℕ) (f : Feed)
    → IsTurning n f
    → limit ≤ m + length f.items
    → m * n + (n - f.idle) ≤ fuel
    → is_over limit n (merge fuel limit n f) ≡ true
unfolding merge
merge_ends zero limit n m f turning bound rounds = ground (arith, rounds)
merge_ends (suc fuel) limit n m f turning bound rounds = elim (Bool-cases (is_over limit n f)) [
  | inl over ↦ rw over over
  | inr more ↦
      let (lane, at) = lane_at-lt f.turn f.lanes (omega (arith, turning.0, turning.1)) in
      let (k, bound', rounds') =
        serve-fewer limit n m fuel lane lane.queue f (ground (arith, more)) (ground (arith, more))
          bound rounds in
      let served : step n f ≡ serve n lane lane.queue f = rw (step, at) refl in
      rw (more, served)
        (merge_ends fuel limit n k (serve n lane lane.queue f)
          (serve-IsTurning n lane lane.queue f turning) bound' rounds')
]

-- how many rounds ago it was this source's turn
abbrev pub behind : ℕ → ℕ → ℕ → ℕ
behind n turn k = if ltb k turn then turn - k else turn + n - k

-- The sources of the idle rounds have nothing left.
abbrev pub IsDrained : ℕ → Feed → Type 0
IsDrained n f =
    (k : ℕ) (l : Lane) → lane_at k f.lanes ≡ some l → behind n f.turn k ≤ f.idle → l.queue ≡ []

behind-pos : (n turn k : ℕ) → k < n → 1 ≤ behind n turn k
behind-pos n turn k h = ground arith

behind-le : (n turn k : ℕ) → turn < n → behind n turn k ≤ n
behind-le n turn k h = ground arith

next_turn : (n t : ℕ) → t < n → ((t + 1) % n ≡ (if ltb (t + 1) n then t + 1 else 0))
next_turn n t h = elim (Bool-cases (ltb (t + 1) n)) [
  | inl e ↦ rw e (mod-eq_of_lt (ground (arith, e)))
  | inr e ↦ let last : n ≡ t + 1 = ground (arith, e) in rw (e, last) (mod_self (t + 1))
]

behind-next : (n t k : ℕ) → t < n → k < n → (k ≡ t) ⊎ (behind n ((t + 1) % n) k ≡ behind n t k + 1)
behind-next n t k ht hk = ground (arith, next_turn n t ht)

lane_at-bound : (k : ℕ) (ls : List Lane) (l : Lane) → lane_at k ls ≡ some l → k < length ls
lane_at-bound k [] l h = absurd (cc)
lane_at-bound zero (x ∷ xs) l h = omega arith
lane_at-bound (suc k) (x ∷ xs) l h = omega (arith, lane_at-bound k xs l h)

serve-IsDrained :
    (n : ℕ) (lane : Lane) (queue : List Change) (f : Feed)
    → lane_at f.turn f.lanes ≡ some lane
    → lane.queue ≡ queue
    → IsTurning n f
    → IsDrained n f
    → IsDrained n (serve n lane queue f)
serve-IsDrained n lane [] f at empty (same, turn) h k l found near =
    elim (behind-next n f.turn k turn (omega (arith, same, lane_at-bound k f.lanes l found))) [
      | inl own ↦
          let both : some lane ≡ some l = sym at ∙ ap (λ j. lane_at j f.lanes) (sym own) ∙ found in
          cc
      | inr later ↦ h k l found (omega (arith, near, later))
    ]
serve-IsDrained n lane (row ∷ rest) f at empty (same, turn) h k l found near =
    let moved = record lane { offset = row.change_id; queue = rest } in
    let inside : k < n = omega (
      arith,
      same,
      length-put_lane f.turn moved f.lanes,
      lane_at-bound k (put_lane f.turn moved f.lanes) l found,
    ) in
    absurd (omega (arith, near, behind-pos n ((f.turn + 1) % n) k inside))

merge-IsDrained :
    (fuel limit n : ℕ) (f : Feed)
    → IsTurning n f
    → IsDrained n f
    → IsTurning n (merge fuel limit n f) × IsDrained n (merge fuel limit n f)
unfolding merge
merge-IsDrained zero limit n f turning h = (turning, h)
merge-IsDrained (suc fuel) limit n f turning h = elim (Bool-cases (is_over limit n f)) [
  | inl over ↦ rw over (turning, h)
  | inr more ↦
      let (lane, at) = lane_at-lt f.turn f.lanes (omega (arith, turning.0, turning.1)) in
      let served : step n f ≡ serve n lane lane.queue f = rw (step, at) refl in
      rw (more, served)
        (merge-IsDrained fuel limit n (serve n lane lane.queue f)
          (serve-IsTurning n lane lane.queue f turning)
          (serve-IsDrained n lane lane.queue f at refl turning h))
]

-- What the loop leaves: a full page, or no change in any queue.
abbrev pub IsExhausted : ℕ → Feed → Type 0
IsExhausted limit f =
    (limit ≤ length f.items) ⊎ ((k : ℕ) (l : Lane) → lane_at k f.lanes ≡ some l → l.queue ≡ [])

-- Where the turn is one of the sources', and no item has been taken yet: the rounds that the model allows
-- suffice for the loop to end by its own condition, and then the page is full or no source has a change
-- left in its queue.
pub merge-IsExhausted :
    (limit : ℕ) (f : Feed)
    → f.turn < length f.lanes
    → f.items ≡ []
    → f.idle ≡ 0
    → (is_over limit
          (length f.lanes)
          (merge (enough limit (length f.lanes)) limit (length f.lanes) f)
        ≡ true)
      × IsExhausted limit (merge (enough limit (length f.lanes)) limit (length f.lanes) f)
merge-IsExhausted limit f turn fresh rested =
    let n = length f.lanes in
    let end = merge (enough limit n) limit n f in
    let over : is_over limit n end ≡ true =
      merge_ends (enough limit n) limit n limit f (refl, turn) (omega arith)
        (omega (arith, rested)) in
    let start : IsDrained n f = λ k l found near.
      absurd
        (omega (arith, near, rested, behind-pos n f.turn k (lane_at-bound k f.lanes l found))) in
    let (turning, drained) = merge-IsDrained (enough limit n) limit n f (refl, turn) start in
    (
      over,
      elim (Bool-cases (leb limit (length end.items))) [
        | inl full ↦ inl (ground (arith, full))
        | inr short ↦
            let idle : n ≤ end.idle = ground (arith, over, short, turn) in
            inr (λ k l found.
              drained k l found (omega (arith, idle, behind-le n end.turn k turning.1)))
      ],
    )
