-- ===== src/Alerts/Rows.antt =====
-- The rows of backend/src/marketmind/alert_models.py.
use market_mind.Prelude.{ℕ, Bool, true, false, Option, List, Identity}
use Prim.Native.String.{String}

pub data AlertStatus : Type 0 where
  active resolved : AlertStatus

pub data EventStatus : Type 0 where
  active resolved test : EventStatus

pub data DeliveryStatus : Type 0 where
  pending sending retrying sent failed disabled not_configured : DeliveryStatus

-- the codes of `last_error`
pub data DeliveryError : Type 0 where
  delivery_lease_expired disabled not_configured : DeliveryError
  notification_environment_invalid notification_key_unavailable : DeliveryError
  encryption_key_unavailable telegram_proxy_invalid telegram_response_too_large : DeliveryError
  telegram_rate_limited telegram_unavailable telegram_access_denied telegram_rejected :
      DeliveryError
  telegram_network_error telegram_proxy_dependency_unavailable : DeliveryError

-- how far one attempt to send has come
pub data Progress : Type 0 where
  sending unknown : Progress
  ended : DeliveryStatus → Progress

-- An entry of `attempt_history`; an entry of the outage file names its incident.
pub record DeliveryAttempt : Type 0 where
  pub attempt : ℕ
  pub at : ℕ
  pub status : Progress
  pub error : Option DeliveryError
  pub completed_at : Option ℕ
  pub incident : Option ℕ

pub record NotificationDelivery : Type 0 where
  pub delivery_id : ℕ
  pub alert_id : Option ℕ
  pub admin_id : Option ℕ
  pub idempotency_key : Option String
  pub event_status : EventStatus
  pub status : DeliveryStatus
  pub attempts : ℕ
  pub attempt_history : List DeliveryAttempt
  pub next_attempt_at : ℕ
  pub lease_token : Option ℕ
  pub lease_expires_at : Option ℕ
  pub last_error : Option DeliveryError
  pub completed_at : Option ℕ

instance abbrev pub delivery_identity : Identity NotificationDelivery
delivery_identity = record { id = λ d. d.delivery_id }

abbrev pub is_sending : DeliveryStatus → Bool
is_sending DeliveryStatus.sending = true
is_sending _ = false

abbrev pub is_sent : DeliveryStatus → Bool
is_sent DeliveryStatus.sent = true
is_sent _ = false

-- `status.in_(["pending", "retrying"])`
abbrev pub is_unsent : DeliveryStatus → Bool
is_unsent DeliveryStatus.pending = true
is_unsent DeliveryStatus.retrying = true
is_unsent _ = false

-- the statuses in which nothing is left to do
abbrev pub is_final : DeliveryStatus → Bool
is_final DeliveryStatus.sent = true
is_final DeliveryStatus.failed = true
is_final DeliveryStatus.disabled = true
is_final DeliveryStatus.not_configured = true
is_final _ = false
