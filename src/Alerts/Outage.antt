-- ===== src/Alerts/Outage.antt =====
-- The file of a database outage, backend/src/marketmind/notification_worker.py: `_read_incident`,
-- `handle_database_outage` and what `reconcile_database_outage` does to the delivery.
use market_mind.Prelude.{
  ℕ, ◌+◌, ◌==◌, max, Bool, true, false, not, ◌&&◌, ◌||◌, Option, none, some, List, [], ◌∷◌, ◌++◌,
  map, if◌then◌else◌, leb, ltb, holds, any, select, get_or,
}
use market_mind.Runtime.{Uuid4}
use market_mind.Alerts.Rows.{
  DeliveryStatus, DeliveryError, Progress, DeliveryAttempt, NotificationDelivery, is_sending,
  is_sent, is_final,
}
use market_mind.Alerts.Deliveries.{
  max_attempts, send_lease, SendResult, change_last, expire_entry, new_entry, end_entry, will_retry,
  delivery_delay,
}

pub record Incident : Type 0 where
  pub incident_id : ℕ
  pub observed_at : ℕ
  pub delivery_status : DeliveryStatus
  pub attempts : ℕ
  pub next_attempt_at : ℕ
  pub last_error : Option DeliveryError
  pub completed_at : Option ℕ
  pub attempt_history : List DeliveryAttempt

-- What the file holds: an old one has no attempts, and `not_attempted` among its statuses.
pub data IncidentFile : Type 0 where
  not_attempted : (incident_id observed_at : ℕ) → IncidentFile
  attempted : (incident_id observed_at : ℕ) → DeliveryStatus → IncidentFile
  current : Incident → IncidentFile

-- a failed first request of an old file may be repeated
abbrev pub upgrade_status : DeliveryStatus → DeliveryStatus
upgrade_status DeliveryStatus.failed = DeliveryStatus.retrying
upgrade_status s = s

abbrev pub is_complete_before : DeliveryStatus → Bool
is_complete_before DeliveryStatus.sent = true
is_complete_before DeliveryStatus.disabled = true
is_complete_before DeliveryStatus.not_configured = true
is_complete_before _ = false

abbrev pub old_entry : ℕ → DeliveryStatus → DeliveryAttempt
old_entry at status = record {
  attempt = 1;
  at = at;
  status = Progress.ended status;
  error = none;
  completed_at = none;
  incident = none;
}

abbrev pub new_incident : ℕ → ℕ → Incident
new_incident k at = record {
  incident_id = k;
  observed_at = at;
  delivery_status = DeliveryStatus.pending;
  attempts = 0;
  next_attempt_at = at;
  last_error = none;
  completed_at = none;
  attempt_history = [];
}

unfoldable pub read_incident : IncidentFile → Incident
read_incident (not_attempted k at) = new_incident k at
read_incident (attempted k at status) = record (new_incident k at) {
  delivery_status = upgrade_status status;
  attempts = 1;
  completed_at = if is_complete_before status then some at else none;
  attempt_history = old_entry at status ∷ [];
}
read_incident (current i) = i

-- the incident of this outage, made on first sight
abbrev pub open_incident : Uuid4 → ℕ → Option IncidentFile → Incident
open_incident uuid now none = new_incident (uuid.draw []) now
open_incident uuid now (some file) = read_incident file

-- an interrupted request keeps its entry
abbrev pub settle_entry : Incident → List DeliveryAttempt
settle_entry i =
    if is_sending i.delivery_status
    then change_last expire_entry i.attempt_history
    else i.attempt_history

-- What a round does before its request.
pub data Claim : Type 0 where
  waits : Claim
  gives_up request : Incident → Claim

abbrev pub give_up_incident : ℕ → Incident → Incident
give_up_incident now i = record i {
  delivery_status = DeliveryStatus.failed;
  last_error = some DeliveryError.delivery_lease_expired;
  completed_at = some now;
  attempt_history = settle_entry i;
}

abbrev pub start_request : ℕ → Incident → Incident
start_request now i = record i {
  attempts = i.attempts + 1;
  delivery_status = DeliveryStatus.sending;
  next_attempt_at = now + send_lease;
  attempt_history = settle_entry i ++ (new_entry (i.attempts + 1) now ∷ []);
}

unfoldable pub claim_incident : ℕ → Incident → Claim
claim_incident now i =
    if is_final i.delivery_status || ltb now i.next_attempt_at
    then waits
    else if leb max_attempts i.attempts
    then gives_up (give_up_incident now i)
    else request (start_request now i)

unfoldable pub end_request : ℕ → SendResult → Incident → Incident
end_request now r i =
    let i' = record i {
      last_error = r.error;
      attempt_history = change_last (end_entry now r) i.attempt_history;
    } in
    if will_retry r i.attempts
    then record i' {
      delivery_status = DeliveryStatus.retrying;
      completed_at = none;
      next_attempt_at = now + delivery_delay i.attempts r.retry_after;
    }
    else record i' { delivery_status = r.status; completed_at = some now }

-- One probe that finds the database gone, and the result of its request; none if the process
-- stops during the request.
pub record Probe : Type 0 where
  pub now : ℕ
  pub later : ℕ
  pub result : Option SendResult

abbrev pub after_request : Probe → Incident → Incident
after_request p i = elim p.result [ none ↦ i | some r ↦ end_request p.later r i ]

-- the file after a probe, and whether a request was made
abbrev pub after_claim : Probe → Incident → Claim → Bool × Incident
after_claim p i waits = (false, i)
after_claim p i (gives_up i') = (false, i')
after_claim p i (request i') = (true, after_request p i')

unfoldable pub handle_database_outage : Uuid4 → Probe → Option IncidentFile → Bool × Incident
unfolding read_incident claim_incident end_request
handle_database_outage uuid p file =
    let i = open_incident uuid p.now file in after_claim p i (claim_incident p.now i)

abbrev pub is_imported : ℕ → DeliveryAttempt → Bool
is_imported k a = holds a.incident k

-- whether the outbox takes over what the file says
abbrev pub takes_over : Incident → NotificationDelivery → Bool
takes_over i d =
    not (is_sent d.status || is_sending d.status)
    && (d.attempts == 0
        || is_sent i.delivery_status
        || (any (is_imported i.incident_id) d.attempt_history && ltb d.attempts i.attempts))

-- the status of a request that the outage's end has interrupted
abbrev pub import_status : Incident → DeliveryStatus
import_status i =
    if is_sending i.delivery_status
    then (if ltb i.attempts max_attempts then DeliveryStatus.retrying else DeliveryStatus.failed)
    else i.delivery_status

abbrev pub import_error : Incident → Option DeliveryError
import_error i =
    if is_sending i.delivery_status then some DeliveryError.delivery_lease_expired else i.last_error

abbrev pub import_entry : ℕ → DeliveryAttempt → DeliveryAttempt
import_entry k a = record a { incident = some k }

abbrev pub import_completed : ℕ → Incident → Option ℕ
import_completed now i =
    if is_final (import_status i) then some (get_or i.completed_at now) else none

abbrev pub take_over : ℕ → Incident → NotificationDelivery → NotificationDelivery
take_over now i d = record d {
  status = import_status i;
  attempts = max i.attempts d.attempts;
  last_error = import_error i;
  next_attempt_at = i.next_attempt_at;
  completed_at = import_completed now i;
  attempt_history =
      select (λ a. not (is_imported i.incident_id a)) d.attempt_history
      ++ map (import_entry i.incident_id) (settle_entry i);
}

unfoldable pub reconcile_delivery : ℕ → Incident → NotificationDelivery → NotificationDelivery
reconcile_delivery now i d = if takes_over i d then take_over now i d else d
