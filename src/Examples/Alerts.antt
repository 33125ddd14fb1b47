-- ===== src/Examples/Alerts.antt =====
-- Alerts, deliveries and an outage at which the theorems on notifications are applied.
use market_mind.Prelude.{
  ℕ, ◌+◌, ◌≤◌, ◌*◌, ◌≡◌, refl, true, false, none, some, ◌⊎◌, List, [], ◌∷◌, arith, length, order_by,
}
use market_mind.Replies.{Reply, answer}
use market_mind.Alerts.{
  DeliveryStatus, DeliveryError, NotificationDelivery, delivery_identity, Digest, safe_kind,
  test_delivery, claim_delivery, ClaimedDelivery, finish_delivery, new_entry, SendResult,
  plain_result, max_attempts, end_delivery, Probe, Incident, IncidentFile, new_incident,
  reconcile_delivery, AlertStore, Environment, Report, persist_alert, is_stored, EventStatus,
  AlertError, test_telegram, configured_settings, validate_token, validate_chat,
  reconcile_database_outage, attempted, read_incident,
}
use market_mind.Alerts.Outbox.{IsOutbox, Sends, idle, claim, Sends-IsOutbox}
use market_mind.Alerts.Leases.{finish_delivery-claim_delivery, IsEnded, end_delivery-IsEnded}
use market_mind.Alerts.Incidents.{
  IsCountedFile, file_attempts, outage, outage-IsCountedFile, IsReconciled,
  reconcile_delivery-IsReconciled,
}
use market_mind.Alerts.Episodes.{IsSettled, persist_alert-IsEpisodic}
use market_mind.Alerts.Openings.{IsEpisodic, active_of}
use market_mind.Alerts.Repeats.{test_telegram-test_telegram, reconcile_database_outage-IsSettled}
use market_mind.Examples.Data.{sum_uuid, total}

abbrev hex_digest : Digest
hex_digest = record {
  digest = λ k. "0123456789abcdef0123456789abcdef0123456789abcdef0123456789abcdef";
  digest_hex = λ k. refl;
}

-- one delivery that is due
abbrev waiting : NotificationDelivery
waiting = test_delivery 3 1000 7 "key"

abbrev box : List NotificationDelivery
box = waiting ∷ []

box-IsOutbox : IsOutbox box
box-IsOutbox = record { unique = λ k. ground arith; recorded = ((omega arith, omega arith), tt) }

abbrev sent_box : List NotificationDelivery
sent_box = (claim_delivery sum_uuid 2000 box).1

sent_once : Sends sum_uuid box 1 sent_box
unfolding claim_delivery order_by total
sent_once = claim 2000 idle

Sends-IsOutbox_example : IsOutbox sent_box × (1 ≤ max_attempts * length box)
Sends-IsOutbox_example = Sends-IsOutbox sum_uuid box sent_box 1 box-IsOutbox sent_once

abbrev old_claim : ClaimedDelivery
old_claim = record { delivery_id = 3; lease_token = 1; event_status = EventStatus.test }

abbrev new_claim : ClaimedDelivery
new_claim = record { delivery_id = 3; lease_token = 2; event_status = EventStatus.test }

-- the lease of the first claim has expired
abbrev resent_box : List NotificationDelivery
resent_box = (claim_delivery sum_uuid 90002000 sent_box).1

resent : claim_delivery sum_uuid 90002000 sent_box ≡ (some new_claim, resent_box)
unfolding claim_delivery order_by total
resent = refl

abbrev network_error : SendResult
network_error = plain_result DeliveryStatus.failed DeliveryError.telegram_network_error true

abbrev sending_row : NotificationDelivery
sending_row = record waiting {
  status = DeliveryStatus.sending;
  attempts = 1;
  lease_token = some 1;
  lease_expires_at = some 90002000;
  attempt_history = new_entry 1 2000 ∷ [];
}

finish_delivery-claim_delivery_example :
    finish_delivery 90003000 old_claim network_error resent_box ≡ resent_box
unfolding claim_delivery order_by total
finish_delivery-claim_delivery_example =
    finish_delivery-claim_delivery sum_uuid 90002000 90003000 old_claim new_claim network_error
      sent_box resent_box sending_row refl refl resent refl

end_delivery-IsEnded_example :
    IsEnded 3000 network_error sending_row (end_delivery 3000 network_error sending_row)
end_delivery-IsEnded_example = end_delivery-IsEnded 3000 network_error sending_row (omega arith)

abbrev probes : List Probe
probes =
    record { now = 1000; later = 1500; result = some network_error }
    ∷ record { now = 15001500; later = 15002000; result = none }
    ∷ []

outage-IsCountedFile_example :
    IsCountedFile (outage sum_uuid probes none).1
    × ((outage sum_uuid probes none).0 + 0 ≡ file_attempts (outage sum_uuid probes none).1)
    × (file_attempts (outage sum_uuid probes none).1 ≤ 5)
outage-IsCountedFile_example = outage-IsCountedFile sum_uuid probes none tt

abbrev interrupted : Incident
interrupted = record (new_incident 9 1000) { delivery_status = DeliveryStatus.sent; attempts = 1 }

reconcile_delivery-IsReconciled_example :
    IsReconciled interrupted waiting (reconcile_delivery 2000 interrupted waiting)
    × (reconcile_delivery 2000 interrupted (reconcile_delivery 2000 interrupted waiting)
        ≡ reconcile_delivery 2000 interrupted waiting)
reconcile_delivery-IsReconciled_example =
    reconcile_delivery-IsReconciled 2000 interrupted waiting (omega arith) (omega arith)

abbrev telegram : Environment
telegram = record {
  telegram_enabled = true;
  bot_token = some "123456:abcdefghijklmnopqrstuvwxyz";
  chat_id = some "-1001";
  encrypt = some (λ s. 1 ∷ []);
}

abbrev quiet_store : AlertStore
quiet_store = record { settings = none; alerts = []; deliveries = [] }

quiet_store-IsEpisodic : IsEpisodic quiet_store.alerts
quiet_store-IsEpisodic = record { unique = λ k. omega arith; one_active = λ s t. omega arith }

abbrev backlog : Report
backlog = record {
  source_id = some 2;
  kind = "queue_backlog";
  resolved = false;
  event_id = none;
  observed_at = none;
  now = 5000;
}

persist_alert-IsEpisodic_example :
    ((is_stored none quiet_store ≡ true)
      × (persist_alert sum_uuid hex_digest telegram backlog quiet_store ≡ (none, quiet_store)))
    ⊎ IsSettled
        (some 2)
        (safe_kind hex_digest "queue_backlog")
        false
        (persist_alert sum_uuid hex_digest telegram backlog quiet_store).1.alerts
persist_alert-IsEpisodic_example =
    persist_alert-IsEpisodic sum_uuid hex_digest telegram backlog quiet_store quiet_store-IsEpisodic

abbrev answered : Reply AlertError (ℕ × AlertStore) → AlertStore
answered (answer (_, st)) = st
answered _ = quiet_store

abbrev tested_store : AlertStore
tested_store = answered (test_telegram sum_uuid telegram (λ b. true) 5000 7 "key" quiet_store)

tested :
    test_telegram sum_uuid telegram (λ b. true) 5000 7 "key" quiet_store ≡ answer (1, tested_store)
unfolding test_telegram configured_settings validate_token validate_chat total
tested = refl

test_telegram-test_telegram_example :
    test_telegram sum_uuid telegram (λ b. true) 6000 7 "key" tested_store ≡ answer (1, tested_store)
test_telegram-test_telegram_example =
    test_telegram-test_telegram sum_uuid telegram (λ b. true) 7 "key" 5000 6000 1 quiet_store
      tested_store tested

abbrev outage_file : IncidentFile
outage_file = attempted 9 4000 DeliveryStatus.failed

abbrev reconciled_store : AlertStore
reconciled_store =
    reconcile_database_outage sum_uuid hex_digest telegram (λ k. 1000 + k) 5000 (some outage_file)
      quiet_store

reconcile_database_outage-IsSettled_example :
    IsEpisodic reconciled_store.alerts
    × (active_of none "database_unavailable" reconciled_store.alerts ≡ 0)
unfolding read_incident
reconcile_database_outage-IsSettled_example =
    reconcile_database_outage-IsSettled sum_uuid hex_digest telegram (λ k. 1000 + k) 5000
      outage_file quiet_store quiet_store-IsEpisodic refl refl
