-- ===== src/Alerts/Reports.antt =====
-- The store of alerts, its settings and `persist_alert` of backend/src/marketmind/alerts.py; the
-- audit of settings that come from the environment is left out.
use market_mind.Prelude.{
  ℕ, ◌+◌, ◌==◌, Bool, true, false, not, ◌&&◌, ◌||◌, Option, none, some, List, [], ◌∷◌, ◌++◌, map,
  if◌then◌else◌, is_some, Identity, find, modify, head?, select, get_or,
}
use market_mind.Runtime.{Uuid4}
use market_mind.Replies.{Reply, raised, answer}
use market_mind.Alerts.Rows.{
  AlertStatus, EventStatus, DeliveryStatus, DeliveryError, NotificationDelivery, delivery_identity,
}
use market_mind.Alerts.Kinds.{Digest, safe_kind, safe_summary, validate_chat, validate_token}
use Prim.Native.String.{String}
use text.Mathlib.Text.{◌==◌ as str_eq}

pub record TelegramSettings : Type 0 where
  pub settings_id : ℕ
  pub enabled : Bool
  pub chat_id : Option String
  pub token_ciphertext : Option (List ℕ)

pub record AlertEvent : Type 0 where
  pub alert_id : ℕ
  pub source_id : Option ℕ
  pub kind : String
  pub status : AlertStatus
  pub message : String
  pub related_alert_id : Option ℕ
  pub occurrences : ℕ
  pub created_at : ℕ
  pub last_seen_at : ℕ
  pub resolved_at : Option ℕ

instance abbrev pub alert_identity : Identity AlertEvent
alert_identity = record { id = λ a. a.alert_id }

pub record AlertStore : Type 0 where
  pub settings : Option TelegramSettings
  pub alerts : List AlertEvent
  pub deliveries : List NotificationDelivery

-- The environment of the process, and the cipher if its key is there.
pub record Environment : Type 0 where
  pub telegram_enabled : Bool
  pub bot_token : Option String
  pub chat_id : Option String
  pub encrypt : Option (String → List ℕ)

-- Python's truth of an optional text
abbrev pub is_present : Option String → Bool
is_present none = false
is_present (some s) = not (str_eq s "")

abbrev pub has_token : TelegramSettings → Bool
has_token s = is_some s.token_ciphertext

abbrev pub initial_delivery_status : Option TelegramSettings → DeliveryStatus
initial_delivery_status none = DeliveryStatus.not_configured
initial_delivery_status (some s) =
    if not (has_token s) || not (is_present s.chat_id)
    then DeliveryStatus.not_configured
    else if s.enabled
    then DeliveryStatus.pending
    else DeliveryStatus.disabled

abbrev pub are_valid : Option String → Option String → Bool
are_valid (some token) (some chat) = validate_token token && validate_chat chat
are_valid _ _ = false

-- settings of the environment, enciphered
abbrev pub bootstrap_settings : Uuid4 → Environment → Reply DeliveryError (Option TelegramSettings)
bootstrap_settings uuid env =
    if not (are_valid env.bot_token env.chat_id)
    then raised DeliveryError.notification_environment_invalid
    else elim env.encrypt [
      | none ↦ raised DeliveryError.notification_key_unavailable
      | some encrypt ↦ answer (
          some (record {
            settings_id = uuid.draw [];
            enabled = true;
            chat_id = env.chat_id;
            token_ciphertext = some (encrypt (get_or env.bot_token ""));
          }))
    ]

unfoldable pub configured_settings :
    Uuid4 → Environment → Option TelegramSettings → Reply DeliveryError (Option TelegramSettings)
configured_settings uuid env (some s) = answer (some s)
configured_settings uuid env none =
    if not env.telegram_enabled
    then answer none
    else if not (is_present env.bot_token) || not (is_present env.chat_id)
    then answer none
    else bootstrap_settings uuid env

-- What a caller reports, at the database's time.
pub record Report : Type 0 where
  pub source_id : Option ℕ
  pub kind : String
  pub resolved : Bool
  pub event_id : Option ℕ
  pub observed_at : Option ℕ
  pub now : ℕ

-- `observed_at or datetime.now(UTC)`
abbrev pub seen_at : Report → ℕ
seen_at r = get_or r.observed_at r.now

abbrev pub is_open_alert : AlertStatus → Bool
is_open_alert AlertStatus.active = true
is_open_alert AlertStatus.resolved = false

-- SQLAlchemy compares a source of None by IS NULL
abbrev pub same_source : Option ℕ → Option ℕ → Bool
same_source none none = true
same_source (some a) (some b) = a == b
same_source _ _ = false

abbrev pub is_active_of : Option ℕ → String → AlertEvent → Bool
is_active_of source kind a =
    same_source a.source_id source && str_eq a.kind kind && is_open_alert a.status

abbrev pub seen_again : ℕ → AlertEvent → AlertEvent
seen_again now a = record a { last_seen_at = now; occurrences = a.occurrences + 1 }

abbrev pub resolve : ℕ → AlertEvent → AlertEvent
resolve now a = record a { status = AlertStatus.resolved; resolved_at = some now }

abbrev pub alert_ids : AlertStore → List ℕ
alert_ids st = map (λ a. a.alert_id) st.alerts

abbrev pub new_event : ℕ → String → Report → Option AlertEvent → AlertEvent
new_event k kind r active = record {
  alert_id = k;
  source_id = r.source_id;
  kind = kind;
  status = if r.resolved then AlertStatus.resolved else AlertStatus.active;
  message = safe_summary kind r.resolved;
  related_alert_id = elim active [ none ↦ none | some a ↦ some a.alert_id ];
  occurrences = 1;
  created_at = seen_at r;
  last_seen_at = seen_at r;
  resolved_at = if r.resolved then some (seen_at r) else none;
}

abbrev pub new_delivery :
    ℕ → Report → AlertEvent → DeliveryStatus → Option DeliveryError → NotificationDelivery
new_delivery k r event status error = record {
  delivery_id = k;
  alert_id = some event.alert_id;
  admin_id = none;
  idempotency_key = none;
  event_status = elim event.status [
    | AlertStatus.active ↦ EventStatus.active
    | AlertStatus.resolved ↦ EventStatus.resolved
  ];
  status = status;
  attempts = 0;
  attempt_history = [];
  next_attempt_at = r.now;
  lease_token = none;
  lease_expires_at = none;
  last_error = error;
  completed_at = elim status [ DeliveryStatus.pending ↦ none | _ ↦ some (seen_at r) ];
}

abbrev pub first_error : DeliveryStatus → Option DeliveryError
first_error DeliveryStatus.disabled = some DeliveryError.disabled
first_error DeliveryStatus.not_configured = some DeliveryError.not_configured
first_error _ = none

-- the delivery of a new event; settings that cannot be read do not lose the event
abbrev pub add_delivery :
    ℕ
    → Report
    → AlertEvent
    → Reply DeliveryError (Option TelegramSettings)
    → AlertStore
    → AlertStore
add_delivery k r event (raised code) st = record st {
  deliveries = st.deliveries ++ (new_delivery k r event DeliveryStatus.failed (some code) ∷ []);
}
add_delivery k r event (answer settings) st =
    let status = initial_delivery_status settings in
    record st {
      settings = settings;
      deliveries = st.deliveries ++ (new_delivery k r event status (first_error status) ∷ []);
    }

abbrev pub add_event :
    Uuid4 → Environment → ℕ → String → Report → Option AlertEvent → AlertStore → AlertStore
add_event uuid env k kind r active st =
    let event = new_event k kind r active in
    add_delivery (uuid.draw (map (λ d. d.delivery_id) st.deliveries)) r event
      (configured_settings uuid env st.settings) (record st { alerts = st.alerts ++ (event ∷ []) })

abbrev pub event_key : Uuid4 → Report → AlertStore → ℕ
event_key uuid r st = elim r.event_id [ none ↦ uuid.draw (alert_ids st) | some k ↦ k ]

-- the report of an event that is not stored yet
abbrev pub settle_report :
    Uuid4
    → Environment
    → ℕ
    → String
    → Report
    → AlertStore
    → Option AlertEvent
    → Option ℕ × AlertStore
settle_report uuid env k kind r st none =
    if r.resolved then (none, st) else (some k, add_event uuid env k kind r none st)
settle_report uuid env k kind r st (some a) =
    if not r.resolved
    then (
      some a.alert_id,
      record st { alerts = modify a.alert_id (seen_again (seen_at r)) st.alerts },
    )
    else (
      some k,
      add_event uuid env k kind r (some a)
          (record st { alerts = modify a.alert_id (resolve (seen_at r)) st.alerts }),
    )

-- whether the event of the report is stored
abbrev pub is_stored : Option ℕ → AlertStore → Bool
is_stored none st = false
is_stored (some k) st = is_some (find k st.alerts)

unfoldable pub persist_alert :
    Uuid4 → Digest → Environment → Report → AlertStore → Option ℕ × AlertStore
unfolding safe_kind configured_settings
persist_alert uuid digest env r st =
    let kind = safe_kind digest r.kind in
    if is_stored r.event_id st
    then (r.event_id, st)
    else settle_report uuid env (event_key uuid r st) kind r st
        (head? (select (is_active_of r.source_id kind) st.alerts))
