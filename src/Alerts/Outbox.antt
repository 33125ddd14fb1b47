-- ===== src/Alerts/Outbox.antt =====
-- The outbox under any sequence of claims and of ends of deliveries: how often a delivery is sent,
-- what its history holds, and what a worker with a lost lease can do.
use market_mind.Prelude.{
  ℕ, suc, ◌+◌, ◌-◌, ◌*◌, ◌≤◌, ◌<◌, ◌==◌, ◌≡◌, refl, ap, subst, Bool, true, false, Option, some, inl,
  inr, List, [], ◌∷◌, ◌++◌, arith, if◌then◌else◌, leb, length, All, head?, select, find, modify,
  rows_of-modify, AreUnique, is_some, head-AreHeld, select-AreHeld, sum_of, sum_of-modify,
  All-modify, first_row, Bool-cases, Option-cases,
}
use market_mind.Runtime.{Uuid4}
use market_mind.Alerts.{
  DeliveryAttempt, NotificationDelivery, delivery_identity, max_attempts, SendResult,
  ClaimedDelivery, claim_delivery, finish_delivery, next_due, is_due, is_before, give_up,
  start_attempt, end_delivery, is_claim_of, tokens, change_last, history_of, new_entry, end_entry,
  expire_entry,
}

-- At most five attempts are made, and each has its entry in the history.
abbrev pub IsRecorded : NotificationDelivery → Type 0
IsRecorded d = (d.attempts ≤ max_attempts) × (d.attempts ≤ length d.attempt_history)

pub length-change_last :
    (f : DeliveryAttempt → DeliveryAttempt) (xs : List DeliveryAttempt)
    → length (change_last f xs) ≡ length xs
length-change_last f [] = refl
length-change_last f (a ∷ []) = refl
length-change_last f (a ∷ b ∷ rest) = ground (arith, length-change_last f (b ∷ rest))

length-history_of : (d : NotificationDelivery) → length (history_of d) ≡ length d.attempt_history
length-history_of d = ground (arith, length-change_last expire_entry d.attempt_history)

length_one :
    (xs : List DeliveryAttempt) (x : DeliveryAttempt) → length (xs ++ (x ∷ [])) ≡ suc (length xs)
length_one [] x = refl
length_one (y ∷ ys) x = ground (arith, length_one ys x)

-- how many attempts a delivery has left
abbrev pub left : NotificationDelivery → ℕ
left d = max_attempts - d.attempts

-- an outbox that the worker may find
pub record IsOutbox (ds : List NotificationDelivery) : Type 0 where
  pub unique : AreUnique ds
  pub recorded : All IsRecorded ds

module _ (uuid : Uuid4) (now : ℕ) (ds : List NotificationDelivery) (box : IsOutbox ds) where
  give_up-IsOutbox :
      (d : NotificationDelivery)
      → find d.delivery_id ds ≡ some d
      → IsRecorded d
      → IsOutbox (modify d.delivery_id (give_up now) ds)
  give_up-IsOutbox d found (few, kept) = record {
    unique = λ k.
        omega (arith, rows_of-modify k d.delivery_id (give_up now) ds (λ x. refl), box.unique k);
    recorded =
        All-modify IsRecorded d.delivery_id (give_up now) ds d found (box.unique d.delivery_id)
          (few, omega (arith, kept, length-history_of d)) box.recorded;
  }

  start_attempt-IsOutbox :
      (d : NotificationDelivery) (token : ℕ)
      → find d.delivery_id ds ≡ some d
      → IsRecorded d
      → d.attempts < max_attempts
      → IsOutbox (modify d.delivery_id (start_attempt now token) ds)
  start_attempt-IsOutbox d token found (few, kept) more = record {
    unique = λ k. omega (
      arith,
      rows_of-modify k d.delivery_id (start_attempt now token) ds (λ x. refl),
      box.unique k,
    );
    recorded =
        All-modify IsRecorded d.delivery_id (start_attempt now token) ds d found
          (box.unique d.delivery_id)
          (
            omega (arith, more),
            omega (
              arith,
              kept,
              length-history_of d,
              length_one (history_of d) (new_entry (d.attempts + 1) now),
            ),
          )
          box.recorded;
  }

  -- a change of the row that leaves its attempts alone
  same_left :
      (f : NotificationDelivery → NotificationDelivery) (d : NotificationDelivery)
      → find d.delivery_id ds ≡ some d
      → (f d).attempts ≡ d.attempts
      → sum_of left (modify d.delivery_id f ds) ≡ sum_of left ds
  same_left f d found same = omega (
    arith,
    sum_of-modify left d.delivery_id f ds d found (box.unique d.delivery_id),
    ap (λ n. max_attempts - n) same,
  )

  start_attempt-left :
      (d : NotificationDelivery) (token : ℕ)
      → find d.delivery_id ds ≡ some d
      → d.attempts < max_attempts
      → sum_of left (modify d.delivery_id (start_attempt now token) ds) + 1 ≡ sum_of left ds
  start_attempt-left d token found more = omega (
    arith,
    sum_of-modify left d.delivery_id (start_attempt now token) ds d found
        (box.unique d.delivery_id),
    more,
  )

-- What a claim comes to.
pub record IsClaimed (ds : List NotificationDelivery)
    (r : Option ClaimedDelivery × List NotificationDelivery) : Type 0 where
  pub outbox : IsOutbox r.1
  pub spent : (if is_some r.0 then 1 else 0) + sum_of left r.1 ≤ sum_of left ds

-- the found row keeps the record of the table
record_of_row :
    (k : ℕ) (ds : List NotificationDelivery) (d : NotificationDelivery)
    → find k ds ≡ some d
    → All IsRecorded ds
    → IsRecorded d
record_of_row k [] d e h = absurd (cc)
record_of_row k (x ∷ xs) d e h = go (x.delivery_id == k) refl (λ f. record_of_row k xs d f h.1)
  where
    go : (b : Bool) → (x.delivery_id == k) ≡ b → (find k xs ≡ some d → IsRecorded d) → IsRecorded d
    go true hit rest = let same : x ≡ d = ground arith in subst IsRecorded same h.0
    go false miss rest = rest (ground arith)

pub claim_delivery-IsClaimed :
    (uuid : Uuid4) (now : ℕ) (ds : List NotificationDelivery)
    → IsOutbox ds
    → IsClaimed ds (claim_delivery uuid now ds)
unfolding claim_delivery
claim_delivery-IsClaimed uuid now ds box = elim (Option-cases (next_due now ds)) [
  | inl e ↦ rw (claim_delivery, e) (record { outbox = box; spent = omega arith })
  | inr (d, e) ↦
      let (_, found) = first_row is_before (is_due now) ds d box.unique e in
      let kept = record_of_row d.delivery_id ds d found box.recorded in
      elim (Bool-cases (leb max_attempts d.attempts)) [
        | inl spent ↦
            rw (claim_delivery, e, spent)
              (record {
                outbox = give_up-IsOutbox uuid now ds box d found kept;
                spent = omega (arith, same_left uuid now ds box (give_up now) d found refl);
              })
        | inr more ↦
            let fewer : d.attempts < max_attempts = ground (arith, more) in
            rw (claim_delivery, e, more)
              (record {
                outbox =
                    start_attempt-IsOutbox uuid now ds box d (uuid.draw (tokens ds)) found kept
                      fewer;
                spent = omega (
                  arith,
                  start_attempt-left uuid now ds box d (uuid.draw (tokens ds)) found fewer,
                );
              })
      ]
]

end_delivery-attempts :
    (now : ℕ) (r : SendResult) (d : NotificationDelivery)
    → (end_delivery now r d).attempts ≡ d.attempts
end_delivery-attempts now r d = ground arith

end_delivery-delivery_id :
    (now : ℕ) (r : SendResult) (d : NotificationDelivery)
    → (end_delivery now r d).delivery_id ≡ d.delivery_id
end_delivery-delivery_id now r d = ground arith

end_delivery-history :
    (now : ℕ) (r : SendResult) (d : NotificationDelivery)
    → length (end_delivery now r d).attempt_history ≡ length d.attempt_history
end_delivery-history now r d =
    ground (arith, length-change_last (end_entry now r) d.attempt_history)

pub finish_delivery-IsOutbox :
    (uuid : Uuid4) (now : ℕ) (c : ClaimedDelivery) (r : SendResult) (ds : List NotificationDelivery)
    → IsOutbox ds
    → IsOutbox (finish_delivery now c r ds)
      × (sum_of left (finish_delivery now c r ds) ≡ sum_of left ds)
unfolding finish_delivery
finish_delivery-IsOutbox uuid now c r ds box =
    elim (Option-cases (head? (select (is_claim_of c) ds))) [
      | inl e ↦ rw (finish_delivery, e) (box, refl)
      | inr (d, e) ↦
          let found =
            head-AreHeld d ds (select (is_claim_of c) ds) e
              (select-AreHeld (is_claim_of c) ds box.unique) in
          let (few, kept) = record_of_row d.delivery_id ds d found box.recorded in
          rw (finish_delivery, e)
            (
              record {
                unique = λ k. omega (
                  arith,
                  rows_of-modify k d.delivery_id (end_delivery now r) ds
                      (end_delivery-delivery_id now r),
                  box.unique k,
                );
                recorded =
                    All-modify IsRecorded d.delivery_id (end_delivery now r) ds d found
                      (box.unique d.delivery_id)
                      (
                        omega (arith, few, end_delivery-attempts now r d),
                        omega (
                          arith,
                          kept,
                          end_delivery-attempts now r d,
                          end_delivery-history now r d,
                        ),
                      )
                      box.recorded;
              },
              same_left uuid now ds box (end_delivery now r) d found
                  (end_delivery-attempts now r d),
            )
    ]

-- Claims and ends of deliveries in any order, with the number of claims that gave a delivery.
pub data Sends (uuid : Uuid4) (ds : List NotificationDelivery)
    : ℕ → List NotificationDelivery → Type 0 where
  idle : Sends uuid ds 0 ds
  claim :
      {n : ℕ} {d : List NotificationDelivery} (now : ℕ)
      → Sends uuid ds n d
      → Sends uuid ds
          ((if is_some (claim_delivery uuid now d).0 then 1 else 0) + n)
          (claim_delivery uuid now d).1
  finish :
      {n : ℕ} {d : List NotificationDelivery} (now : ℕ) (c : ClaimedDelivery) (r : SendResult)
      → Sends uuid ds n d
      → Sends uuid ds n (finish_delivery now c r d)

Sends-spent :
    (uuid : Uuid4) (ds ds' : List NotificationDelivery) (n : ℕ)
    → IsOutbox ds
    → Sends uuid ds n ds'
    → IsOutbox ds' × (n + sum_of left ds' ≤ sum_of left ds)
Sends-spent uuid ds _ _ box idle = (box, omega arith)
Sends-spent uuid ds _ _ box (claim {n = n} {d = d} now s) =
    let (before, spent) = Sends-spent uuid ds d n box s in
    let c = claim_delivery-IsClaimed uuid now d before in (c.outbox, omega (arith, spent, c.spent))
Sends-spent uuid ds _ _ box (finish {n = n} {d = d} now c r s) =
    let (before, spent) = Sends-spent uuid ds d n box s in
    let (after, same) = finish_delivery-IsOutbox uuid now c r d before in
    (after, omega (arith, spent, same))

left_le : (ds : List NotificationDelivery) → sum_of left ds ≤ max_attempts * length ds
left_le [] = omega arith
left_le (d ∷ ds) = omega (arith, left_le ds)

-- From an outbox whose identifiers are unique and whose deliveries have at most five attempts, all
-- recorded: after any sequence of claims and ends of deliveries the same holds, and the claims that
-- gave a delivery to send were at most five for each delivery of the outbox.
pub Sends-IsOutbox :
    (uuid : Uuid4) (ds ds' : List NotificationDelivery) (n : ℕ)
    → IsOutbox ds
    → Sends uuid ds n ds'
    → IsOutbox ds' × (n ≤ max_attempts * length ds)
Sends-IsOutbox uuid ds ds' n box s =
    let (after, spent) = Sends-spent uuid ds ds' n box s in
    (after, omega (arith, spent, left_le ds))
