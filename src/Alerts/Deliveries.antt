-- ===== src/Alerts/Deliveries.antt =====
-- The outbox of backend/src/marketmind/notification_worker.py: `claim_delivery` and
-- `finish_delivery` on the table of deliveries.
use market_mind.Prelude.{
  ℕ, zero, suc, ◌+◌, ◌*◌, ◌^◌, min, max, ◌==◌, Bool, true, false, ◌&&◌, ◌||◌, Option, none, some,
  List, [], ◌∷◌, ◌++◌, map, if◌then◌else◌, leb, ltb, due, holds, get_or, head?, select, order_by,
  modify,
}
use market_mind.Runtime.{Uuid4, seconds}
use market_mind.Alerts.Rows.{
  EventStatus, DeliveryStatus, DeliveryError, Progress, DeliveryAttempt, NotificationDelivery,
  delivery_identity, is_sending, is_unsent,
}

abbrev pub max_attempts : ℕ
max_attempts = 5

abbrev pub send_lease : ℕ
send_lease = seconds 90

-- What `send_telegram` comes to.
pub record SendResult : Type 0 where
  pub status : DeliveryStatus
  pub error : Option DeliveryError
  pub retry_after : Option ℕ
  pub retryable : Bool

abbrev pub plain_result : DeliveryStatus → DeliveryError → Bool → SendResult
plain_result status error retryable = record {
  status = status;
  error = some error;
  retry_after = none;
  retryable = retryable;
}

-- The answer of the server: its status, what the body says, and the number of `retry_after`.
pub record TelegramReply : Type 0 where
  pub status_code : ℕ
  pub is_ok : Bool
  pub error_code : Option ℕ
  pub retry_after : Option ℕ

abbrev pub clamp : ℕ → ℕ
clamp delay = min (max delay 1) 3600

abbrev pub sent_result : SendResult
sent_result = record {
  status = DeliveryStatus.sent;
  error = none;
  retry_after = none;
  retryable = false;
}

abbrev pub rate_limited : Option ℕ → SendResult
rate_limited delay = record {
  status = DeliveryStatus.failed;
  error = some DeliveryError.telegram_rate_limited;
  retry_after = elim delay [ none ↦ none | some n ↦ some (clamp n) ];
  retryable = true;
}

-- the end of `send_telegram`, once a body of the allowed size has come
unfoldable pub classify : TelegramReply → SendResult
classify r =
    if r.status_code == 200 && r.is_ok
    then sent_result
    else if r.status_code == 429 || holds r.error_code 429
    then rate_limited r.retry_after
    else if leb 500 r.status_code
    then plain_result DeliveryStatus.failed DeliveryError.telegram_unavailable true
    else if r.status_code == 401 || r.status_code == 403
    then plain_result DeliveryStatus.failed DeliveryError.telegram_access_denied false
    else plain_result DeliveryStatus.failed DeliveryError.telegram_rejected false

-- The request as a whole: what keeps it from an answer, or the answer.
pub data Exchange : Type 0 where
  no_recipient no_key bad_proxy too_large network_error no_proxy_library : Exchange
  replied : TelegramReply → Exchange

unfoldable pub send_telegram : Exchange → SendResult
unfolding classify
send_telegram no_recipient =
    plain_result DeliveryStatus.not_configured DeliveryError.not_configured false
send_telegram no_key =
    plain_result DeliveryStatus.failed DeliveryError.encryption_key_unavailable false
send_telegram bad_proxy =
    plain_result DeliveryStatus.failed DeliveryError.telegram_proxy_invalid false
send_telegram too_large =
    plain_result DeliveryStatus.failed DeliveryError.telegram_response_too_large false
send_telegram network_error =
    plain_result DeliveryStatus.failed DeliveryError.telegram_network_error true
send_telegram no_proxy_library =
    plain_result DeliveryStatus.failed DeliveryError.telegram_proxy_dependency_unavailable false
send_telegram (replied r) = classify r

abbrev pub is_due : ℕ → NotificationDelivery → Bool
is_due now d =
    (is_unsent d.status && leb d.next_attempt_at now)
    || (is_sending d.status && due d.lease_expires_at now)

-- `order_by(next_attempt_at, id)`
abbrev pub is_before : NotificationDelivery → NotificationDelivery → Bool
is_before d e =
    ltb d.next_attempt_at e.next_attempt_at
    || (d.next_attempt_at == e.next_attempt_at && ltb d.delivery_id e.delivery_id)

-- a change of the last entry of a history; an empty one stays
abbrev pub change_last :
    (DeliveryAttempt → DeliveryAttempt) → List DeliveryAttempt → List DeliveryAttempt
change_last f [] = []
change_last f (a ∷ []) = f a ∷ []
change_last f (a ∷ b ∷ rest) = a ∷ change_last f (b ∷ rest)

abbrev pub expire_entry : DeliveryAttempt → DeliveryAttempt
expire_entry a = record a {
  status = Progress.unknown;
  error = some DeliveryError.delivery_lease_expired;
}

abbrev pub history_of : NotificationDelivery → List DeliveryAttempt
history_of d =
    if is_sending d.status then change_last expire_entry d.attempt_history else d.attempt_history

-- no attempt is left
abbrev pub give_up : ℕ → NotificationDelivery → NotificationDelivery
give_up now d = record d {
  status = DeliveryStatus.failed;
  last_error = some DeliveryError.delivery_lease_expired;
  completed_at = some now;
  lease_token = none;
  lease_expires_at = none;
  attempt_history = history_of d;
}

abbrev pub new_entry : ℕ → ℕ → DeliveryAttempt
new_entry attempt now = record {
  attempt = attempt;
  at = now;
  status = Progress.sending;
  error = none;
  completed_at = none;
  incident = none;
}

abbrev pub start_attempt : ℕ → ℕ → NotificationDelivery → NotificationDelivery
start_attempt now token d = record d {
  status = DeliveryStatus.sending;
  attempts = d.attempts + 1;
  lease_token = some token;
  lease_expires_at = some (now + send_lease);
  attempt_history = history_of d ++ (new_entry (d.attempts + 1) now ∷ []);
}

-- What the worker takes away; the text of the message is left out.
pub record ClaimedDelivery : Type 0 where
  pub delivery_id : ℕ
  pub lease_token : ℕ
  pub event_status : EventStatus

abbrev pub tokens : List NotificationDelivery → List ℕ
tokens ds = map (λ d. get_or d.lease_token 0) ds

abbrev pub next_due : ℕ → List NotificationDelivery → Option NotificationDelivery
next_due now ds = head? (order_by is_before (select (is_due now) ds))

unfoldable pub claim_delivery :
    Uuid4 → ℕ → List NotificationDelivery → Option ClaimedDelivery × List NotificationDelivery
unfolding order_by
claim_delivery uuid now ds = elim (next_due now ds) [
  | none ↦ (none, ds)
  | some d ↦
      if leb max_attempts d.attempts
      then (none, modify d.delivery_id (give_up now) ds)
      else let token = uuid.draw (tokens ds) in
        (
          some (record {
            delivery_id = d.delivery_id;
            lease_token = token;
            event_status = d.event_status;
          }),
          modify d.delivery_id (start_attempt now token) ds,
        )
]

-- `15 * 2 ** (attempts - 1)` seconds, which is 7.5 seconds at no attempts
abbrev pub backoff : ℕ → ℕ
backoff zero = 7500000
backoff (suc n) = seconds (15 * 2 ^ n)

abbrev pub delivery_delay : ℕ → Option ℕ → ℕ
delivery_delay attempts retry_after =
    max (min (backoff attempts) (seconds 900)) (seconds (get_or retry_after 0))

abbrev pub will_retry : SendResult → ℕ → Bool
will_retry r attempts = r.retryable && ltb attempts max_attempts

abbrev pub end_entry : ℕ → SendResult → DeliveryAttempt → DeliveryAttempt
end_entry now r a = record a {
  status = Progress.ended r.status;
  error = r.error;
  completed_at = some now;
}

abbrev pub end_delivery : ℕ → SendResult → NotificationDelivery → NotificationDelivery
end_delivery now r d =
    let d' = record d {
      last_error = r.error;
      attempt_history = change_last (end_entry now r) d.attempt_history;
      lease_token = none;
      lease_expires_at = none;
    } in
    if will_retry r d.attempts
    then record d' {
      status = DeliveryStatus.retrying;
      next_attempt_at = now + delivery_delay d.attempts r.retry_after;
    }
    else record d' { status = r.status; completed_at = some now }

abbrev pub is_claim_of : ClaimedDelivery → NotificationDelivery → Bool
is_claim_of c d =
    d.delivery_id == c.delivery_id && holds d.lease_token c.lease_token && is_sending d.status

unfoldable pub finish_delivery :
    ℕ → ClaimedDelivery → SendResult → List NotificationDelivery → List NotificationDelivery
finish_delivery now c r ds = elim (head? (select (is_claim_of c) ds)) [
  | none ↦ ds
  | some d ↦ modify d.delivery_id (end_delivery now r) ds
]
