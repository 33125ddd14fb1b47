-- ===== src/Alerts/Leases.antt =====
-- A delivery whose lease another worker has taken over, and when a failed delivery is tried again.
use market_mind.Prelude.{
  ℕ, zero, suc, ◌+◌, ◌≤◌, ◌<◌, ◌==◌, ◌≡◌, refl, ap, sym, subst, ◌∙◌, true, false, Option, none,
  some, ◌⊎◌, inl, inr, List, [], ◌∷◌, any, arith, holds, get_or, max, head?, select, find, modify,
  two_power, eqb_refl, Bool-cases, eqb→eq, Option-cases,
}
use market_mind.Runtime.{Uuid4, seconds}
use market_mind.Alerts.{
  DeliveryStatus, NotificationDelivery, delivery_identity, SendResult, ClaimedDelivery,
  claim_delivery, finish_delivery, next_due, start_attempt, end_delivery, will_retry,
  delivery_delay, is_claim_of, tokens,
}

-- nothing passes the test of a claim whose token the row of its key does not have
none_claimed :
    (c : ClaimedDelivery) (f : NotificationDelivery → NotificationDelivery)
    (ds : List NotificationDelivery)
    → ((x : NotificationDelivery) → (f x).delivery_id ≡ x.delivery_id)
    → ((x : NotificationDelivery) → holds (f x).lease_token c.lease_token ≡ false)
    → head? (select (is_claim_of c) (modify c.delivery_id f ds)) ≡ none
none_claimed c f [] keep other = refl
none_claimed c f (x ∷ xs) keep other =
    ground (arith, keep x, other x, none_claimed c f xs keep other)

-- a token in use is none that is drawn next
token_in_use :
    (k : ℕ) (ds : List NotificationDelivery) (d : NotificationDelivery) (token : ℕ)
    → find k ds ≡ some d
    → d.lease_token ≡ some token
    → any (λ j. j == token) (tokens ds) ≡ true
token_in_use k [] d token found held = absurd (cc)
token_in_use k (x ∷ xs) d token found held =
    ground (arith, eqb_refl token, token_in_use k xs d token)

-- the row that a claim has taken
claim_delivery-row :
    (uuid : Uuid4) (now : ℕ) (ds ds' : List NotificationDelivery) (new : ClaimedDelivery)
    → claim_delivery uuid now ds ≡ (some new, ds')
    → (modify new.delivery_id (start_attempt now (uuid.draw (tokens ds))) ds ≡ ds')
unfolding claim_delivery
claim_delivery-row uuid now ds ds' new claimed = elim (Option-cases (next_due now ds)) [
  | inl e ↦ absurd (ground arith)
  | inr (x, e) ↦ ground arith
]

-- Once a delivery is claimed anew, the worker that holds the lease of an earlier claim of it can no
-- longer record an end, whatever its result is: the outbox stays as the new claim left it.
pub finish_delivery-claim_delivery :
    (uuid : Uuid4) (now later : ℕ) (old new : ClaimedDelivery) (r : SendResult)
    (ds ds' : List NotificationDelivery) (d : NotificationDelivery)
    → find old.delivery_id ds ≡ some d
    → d.lease_token ≡ some old.lease_token
    → claim_delivery uuid now ds ≡ (some new, ds')
    → new.delivery_id ≡ old.delivery_id
    → finish_delivery later old r ds' ≡ ds'
unfolding finish_delivery
finish_delivery-claim_delivery uuid now later old new r ds ds' d found held claimed same =
    let token = uuid.draw (tokens ds) in
    let used = token_in_use old.delivery_id ds d old.lease_token found held in
    let other : (token == old.lease_token) ≡ false =
      differ token old.lease_token used (uuid.draw_fresh (tokens ds)) in
    let row : modify old.delivery_id (start_attempt now token) ds ≡ ds' =
      ap (λ k. modify k (start_attempt now token) ds) (sym same)
      ∙ claim_delivery-row uuid now ds ds' new claimed in
    let missed : head? (select (is_claim_of old) ds') ≡ none =
      subst (λ rows. head? (select (is_claim_of old) rows) ≡ none) row
        (none_claimed old (start_attempt now token) ds (λ x. refl) (λ x. other)) in
    rw (finish_delivery, missed) refl
  where
    differ :
        (j k : ℕ)
        → any (λ i. i == k) (tokens ds) ≡ true
        → any (λ i. i == j) (tokens ds) ≡ false
        → (j == k) ≡ false
    differ j k hit miss = elim (Bool-cases (j == k)) [
      | inr e ↦ e
      | inl e ↦
          absurd (ground (arith, hit, miss, ap (λ n. any (λ i. i == n) (tokens ds)) (eqb→eq j k e)))
    ]

-- How a claimed delivery ends: its lease is free, and either it waits for another attempt or it is done.
pub record IsEnded (now : ℕ) (r : SendResult) (d d' : NotificationDelivery) : Type 0 where
  pub free : d'.lease_token ≡ none
  pub error : d'.last_error ≡ r.error
  pub settled :
      ((r.retryable ≡ true)
        × (d.attempts < 5)
        × (d'.status ≡ DeliveryStatus.retrying)
        × (now + seconds 15 ≤ d'.next_attempt_at)
        × (now + seconds (get_or r.retry_after 0) ≤ d'.next_attempt_at)
        × (d'.next_attempt_at ≤ now + max (seconds 900) (seconds (get_or r.retry_after 0))))
      ⊎ (((r.retryable ≡ false) ⊎ (5 ≤ d.attempts))
          × (d'.status ≡ r.status)
          × (d'.completed_at ≡ some now))

retry_delay_bounds :
    (attempts : ℕ) (asked : Option ℕ)
    → 1 ≤ attempts
    → (seconds 15 ≤ delivery_delay attempts asked)
      × (seconds (get_or asked 0) ≤ delivery_delay attempts asked)
      × (delivery_delay attempts asked ≤ max (seconds 900) (seconds (get_or asked 0)))
retry_delay_bounds zero asked h = absurd (omega arith)
retry_delay_bounds (suc n) asked h = (omega (arith, two_power n), omega arith, omega arith)

-- what keeps a failure from another attempt
no_retry : (r : SendResult) (n : ℕ) → will_retry r n ≡ false → (r.retryable ≡ false) ⊎ (5 ≤ n)
no_retry r n h = elim (Bool-cases r.retryable) [
  | inr final ↦ inl final
  | inl retryable ↦ inr (ground (arith, h, retryable))
]

-- When an attempt of a delivery, its first or a later one, ends: a retryable failure before the fifth
-- attempt is tried again no sooner than after 15 seconds and the server's own delay, and no later than after
-- 15 minutes or that delay; any other result gives the delivery its status and completes it now. The
-- lease is free in both cases.
pub end_delivery-IsEnded :
    (now : ℕ) (r : SendResult) (d : NotificationDelivery)
    → 1 ≤ d.attempts
    → IsEnded now r d (end_delivery now r d)
end_delivery-IsEnded now r d begun = record {
  free = ground arith;
  error = ground arith;
  settled = elim (Bool-cases (will_retry r d.attempts)) [
    | inl again ↦
        let (least, asked, most) = retry_delay_bounds d.attempts r.retry_after begun in
        rw again (
          inl (
            ground (arith, again),
            ground (arith, again),
            refl,
            omega (arith, least),
            omega (arith, asked),
            omega (arith, most),
          ))
    | inr over ↦ rw over (inr (no_retry r d.attempts over, refl, refl))
  ];
}
