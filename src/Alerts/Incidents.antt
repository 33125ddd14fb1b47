-- ===== src/Alerts/Incidents.antt =====
-- The outage file over any sequence of probes, and the delivery that takes it over.
use market_mind.Prelude.{
  ℕ, ◌+◌, ◌≤◌, ◌≡◌, refl, Bool, true, false, not, ◌||◌, Option, none, some, ◌⊎◌, inl, inr, List, [],
  ◌∷◌, ◌++◌, map, select, arith, if◌then◌else◌, leb, ltb, max, length, length-append, Bool-cases,
  Option-cases, eqb_refl,
}
use market_mind.Runtime.{Uuid4}
use market_mind.Alerts.{
  DeliveryAttempt, NotificationDelivery, is_sending, is_sent, is_final, max_attempts, SendResult,
  expire_entry, new_entry, end_entry, Incident, IncidentFile, current, read_incident, open_incident,
  settle_entry, start_request, claim_incident, end_request, Probe, after_request, after_claim,
  handle_database_outage, is_imported, takes_over, take_over, import_entry, reconcile_delivery,
}
use market_mind.Alerts.Outbox.{length-change_last}

-- At most five requests were made, and each has its entry.
abbrev pub IsCounted : Incident → Type 0
IsCounted i = (i.attempts ≤ max_attempts) × (length i.attempt_history ≡ i.attempts)

settle_entry-length : (i : Incident) → length (settle_entry i) ≡ length i.attempt_history
settle_entry-length i = ground (arith, length-change_last expire_entry i.attempt_history)

abbrev pub requests_of : Bool → ℕ
requests_of b = if b then 1 else 0

end_request-attempts :
    (now : ℕ) (r : SendResult) (i : Incident)
    → ((end_request now r i).attempts ≡ i.attempts)
      × (length (end_request now r i).attempt_history ≡ length i.attempt_history)
unfolding end_request
end_request-attempts now r i =
    (ground arith, ground (arith, length-change_last (end_entry now r) i.attempt_history))

after_request-attempts :
    (p : Probe) (i : Incident)
    → ((after_request p i).attempts ≡ i.attempts)
      × (length (after_request p i).attempt_history ≡ length i.attempt_history)
after_request-attempts p i = elim (Option-cases p.result) [
  | inl e ↦ rw e (refl, refl)
  | inr (r, e) ↦ rw e (end_request-attempts p.later r i)
]

-- what a probe makes of an incident
abbrev probe : Probe → Incident → Bool × Incident
probe p i = after_claim p i (claim_incident p.now i)

probe-IsCounted :
    (p : Probe) (i : Incident)
    → IsCounted i
    → IsCounted (probe p i).1 × ((probe p i).1.attempts ≡ requests_of (probe p i).0 + i.attempts)
unfolding claim_incident
probe-IsCounted p i (few, kept) =
    elim (Bool-cases (is_final i.delivery_status || ltb p.now i.next_attempt_at)) [
      | inl still ↦ rw still ((few, kept), omega arith)
      | inr due ↦ elim (Bool-cases (leb max_attempts i.attempts)) [
        | inl spent ↦
            rw (due, spent) ((few, omega (arith, kept, settle_entry-length i)), omega arith)
        | inr more ↦
            let (same, long) = after_request-attempts p (start_request p.now i) in
            let grown = length-append (settle_entry i) (new_entry (i.attempts + 1) p.now ∷ []) in
            rw (due, more)
              (
                (
                  ground (arith, same, more),
                  omega (arith, kept, same, long, grown, settle_entry-length i),
                ),
                omega (arith, same),
              )
      ]
    ]

abbrev pub file_attempts : Option IncidentFile → ℕ
file_attempts none = 0
file_attempts (some file) = (read_incident file).attempts

abbrev pub IsCountedFile : Option IncidentFile → Type 0
IsCountedFile none = Unit {0}
IsCountedFile (some file) = IsCounted (read_incident file)

-- the probes of an outage: how many requests they make, and the file they leave
unfoldable pub outage : Uuid4 → List Probe → Option IncidentFile → ℕ × Option IncidentFile
unfolding handle_database_outage
outage uuid [] file = (0, file)
outage uuid (p ∷ ps) file =
    let (made, i) = handle_database_outage uuid p file in
    let (n, file') = outage uuid ps (some (current i)) in (requests_of made + n, file')

open_incident-IsCounted :
    (uuid : Uuid4) (now : ℕ) (file : Option IncidentFile)
    → IsCountedFile file
    → IsCounted (open_incident uuid now file)
      × ((open_incident uuid now file).attempts ≡ file_attempts file)
open_incident-IsCounted uuid now none h = ((omega arith, refl), refl)
open_incident-IsCounted uuid now (some file) h = (h, refl)

-- From no file, or one with at most five requests and an entry for each: however often an outage is
-- probed, and whether its requests come to an end or not, the file ends with an entry for each of its
-- requests, their number is that of the file before and of the requests made since, and it is five at most.
pub outage-IsCountedFile :
    (uuid : Uuid4) (ps : List Probe) (file : Option IncidentFile)
    → IsCountedFile file
    → IsCountedFile (outage uuid ps file).1
      × ((outage uuid ps file).0 + file_attempts file ≡ file_attempts (outage uuid ps file).1)
      × (file_attempts (outage uuid ps file).1 ≤ max_attempts)
unfolding outage handle_database_outage read_incident
outage-IsCountedFile uuid [] none h = (h, omega arith, omega arith)
outage-IsCountedFile uuid [] (some file) h = (h, omega arith, h.0)
outage-IsCountedFile uuid (p ∷ ps) file h =
    let (counted, same) = open_incident-IsCounted uuid p.now file h in
    let (after, more) = probe-IsCounted p (open_incident uuid p.now file) counted in
    let (last, all, few) =
      outage-IsCountedFile uuid ps (some (current (handle_database_outage uuid p file).1)) after in
    (last, omega (arith, same, more, all), few)

select_import :
    (k : ℕ) (xs ys : List DeliveryAttempt)
    → select
        (λ a. not (is_imported k a))
        (select (λ a. not (is_imported k a)) xs ++ map (import_entry k) ys)
      ≡ select (λ a. not (is_imported k a)) xs
select_import k [] [] = refl
select_import k [] (y ∷ ys) = ground (arith, eqb_refl k, select_import k [] ys)
select_import k (x ∷ xs) ys = ground (arith, select_import k xs ys)

take_over-twice :
    (now : ℕ) (i : Incident) (d : NotificationDelivery)
    → take_over now i (take_over now i d) ≡ take_over now i d
take_over-twice now i d =
    let same : max i.attempts (max i.attempts d.attempts) ≡ max i.attempts d.attempts =
      omega arith in
    rw (same, select_import i.incident_id d.attempt_history (settle_entry i)) refl

-- What the end of an outage does to the delivery of its alert.
pub record IsReconciled (i : Incident) (d d' : NotificationDelivery) : Type 0 where
  pub no_fewer : d.attempts ≤ d'.attempts
  pub bounded : d'.attempts ≤ max_attempts
  pub keeps_work : (is_sent d.status || is_sending d.status ≡ false) ⊎ (d' ≡ d)
  pub reports_success :
      (is_sent i.delivery_status ≡ false) ⊎ (is_sent d'.status || is_sending d'.status ≡ true)

-- Where file and delivery have at most five attempts: the delivery loses none of its attempts and stays within
-- five, one that is sent or being sent stays as it is, a success in the file leaves the delivery sent
-- or being sent, and to reconcile a second time at the same moment changes nothing.
pub reconcile_delivery-IsReconciled :
    (now : ℕ) (i : Incident) (d : NotificationDelivery)
    → i.attempts ≤ max_attempts
    → d.attempts ≤ max_attempts
    → IsReconciled i d (reconcile_delivery now i d)
      × (reconcile_delivery now i (reconcile_delivery now i d) ≡ reconcile_delivery now i d)
unfolding reconcile_delivery
reconcile_delivery-IsReconciled now i d few few' = elim (Bool-cases (takes_over i d)) [
  | inl over ↦ (
    record {
      no_fewer = rw (reconcile_delivery, over) (omega arith);
      bounded = rw (reconcile_delivery, over) (omega (arith, few, few'));
      keeps_work = inl (ground (arith, over));
      reports_success = rw (reconcile_delivery, over) (ground arith);
    },
    rw (reconcile_delivery, over) (go (takes_over i (take_over now i d))),
  )
  | inr kept ↦ (
    record {
      no_fewer = rw (reconcile_delivery, kept) (omega arith);
      bounded = rw (reconcile_delivery, kept) few';
      keeps_work = inr (rw (reconcile_delivery, kept) refl);
      reports_success = rw (reconcile_delivery, kept) (ground (arith, kept));
    },
    rw (reconcile_delivery, kept) (rw (reconcile_delivery, kept) refl),
  )
]
  where
    go :
        (b : Bool)
        → (if b then take_over now i (take_over now i d) else take_over now i d) ≡ take_over now i d
    go true = take_over-twice now i d
    go false = refl
