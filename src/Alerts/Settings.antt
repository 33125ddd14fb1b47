-- ===== src/Alerts/Settings.antt =====
-- The administrator's handlers of backend/src/marketmind/alerts.py on the settings and on test
-- notifications, and the end of an outage, `reconcile_database_outage` of
-- backend/src/marketmind/notification_worker.py.
use market_mind.Prelude.{
  ℕ, Bool, true, false, not, ◌&&◌, Option, none, some, List, [], ◌∷◌, ◌++◌, map, if◌then◌else◌,
  is_some, holds, head?, select, find,
}
use market_mind.Runtime.{Uuid4}
use market_mind.Replies.{Reply, raised, answer, and_then}
use market_mind.Alerts.Rows.{
  EventStatus, DeliveryStatus, DeliveryError, NotificationDelivery, delivery_identity, is_unsent,
}
use market_mind.Alerts.Kinds.{Digest, validate_chat, validate_token}
use market_mind.Alerts.Reports.{
  TelegramSettings, AlertStore, Environment, is_present, configured_settings, Report, persist_alert,
}
use market_mind.Alerts.Outage.{IncidentFile, read_incident, reconcile_delivery}
use Prim.Native.String.{String}
use text.Mathlib.Text.{◌==◌ as str_eq}

-- The codes of `ApiError`.
pub data AlertError : Type 0 where
  environment_invalid key_unavailable invalid_patch not_configured delivery_not_found : AlertError

abbrev pub environment_error : {A : Type 0} → Reply DeliveryError A → Reply AlertError A
environment_error (answer a) = answer a
environment_error (raised DeliveryError.notification_environment_invalid) =
    raised AlertError.environment_invalid
environment_error (raised _) = raised AlertError.key_unavailable

-- Each field is one that the request names, or not; a chat or a token may be named to clear it.
pub record TelegramPatch : Type 0 where
  pub enabled : Option Bool
  pub chat_id : Option (Option String)
  pub token : Option (Option String)

abbrev pub is_field_valid : (String → Bool) → Option (Option String) → Bool
is_field_valid valid (some (some s)) = valid s
is_field_valid valid _ = true

abbrev pub is_patch_valid : TelegramPatch → Bool
is_patch_valid p = is_field_valid validate_chat p.chat_id && is_field_valid validate_token p.token

abbrev pub empty_settings : Uuid4 → TelegramSettings
empty_settings uuid = record {
  settings_id = uuid.draw [];
  enabled = false;
  chat_id = none;
  token_ciphertext = none;
}

-- the new ciphertext of a named token
abbrev pub encrypt_token :
    Environment → Option (Option String) → Option (List ℕ) → Reply AlertError (Option (List ℕ))
encrypt_token env none old = answer old
encrypt_token env (some none) old = answer none
encrypt_token env (some (some token)) old = elim env.encrypt [
  | none ↦ raised AlertError.key_unavailable
  | some encrypt ↦ answer (some (encrypt token))
]

abbrev pub patch_chat : Option (Option String) → Option String → Option String
patch_chat none old = old
patch_chat (some chat) old = chat

abbrev pub patch_enabled : Option Bool → Bool → Bool
patch_enabled none old = old
patch_enabled (some b) old = b

-- settings that are enabled have a recipient and a token that can be read
abbrev pub check_settings : (List ℕ → Bool) → TelegramSettings → Reply AlertError TelegramSettings
check_settings can_decrypt s =
    if not s.enabled
    then answer s
    else if not (is_present s.chat_id)
    then raised AlertError.not_configured
    else elim s.token_ciphertext [
      | none ↦ raised AlertError.not_configured
      | some bytes ↦ if can_decrypt bytes then answer s else raised AlertError.key_unavailable
    ]

abbrev pub patched : TelegramPatch → Option (List ℕ) → TelegramSettings → TelegramSettings
patched p token s = record s {
  enabled = patch_enabled p.enabled s.enabled;
  chat_id = patch_chat p.chat_id s.chat_id;
  token_ciphertext = token;
}

abbrev pub settings_or : Uuid4 → Option TelegramSettings → TelegramSettings
settings_or uuid none = empty_settings uuid
settings_or uuid (some s) = s

unfoldable pub patch_telegram_settings :
    Uuid4 → Environment → (List ℕ → Bool) → TelegramPatch → AlertStore → Reply AlertError AlertStore
unfolding configured_settings validate_chat validate_token
patch_telegram_settings uuid env can_decrypt p st =
    if not (is_patch_valid p)
    then raised AlertError.invalid_patch
    else and_then (environment_error (configured_settings uuid env st.settings)) λ found.
      let s = settings_or uuid found in
      and_then (encrypt_token env p.token s.token_ciphertext) λ token.
        and_then (check_settings can_decrypt (patched p token s))
          λ s'. answer (record st { settings = some s' })

-- What is shown of the settings: never the token.
pub record SettingsView : Type 0 where
  pub enabled : Bool
  pub chat_id : Option String
  pub has_token : Bool

abbrev pub settings_view : Option TelegramSettings → SettingsView
settings_view none = record { enabled = false; chat_id = none; has_token = false }
settings_view (some s) = record {
  enabled = s.enabled;
  chat_id = s.chat_id;
  has_token = is_some s.token_ciphertext;
}

abbrev pub same_key : Option String → String → Bool
same_key none key = false
same_key (some k) key = str_eq k key

abbrev pub is_same_test : ℕ → String → NotificationDelivery → Bool
is_same_test admin key d = holds d.admin_id admin && same_key d.idempotency_key key

abbrev pub test_delivery : ℕ → ℕ → ℕ → String → NotificationDelivery
test_delivery k now admin key = record {
  delivery_id = k;
  alert_id = none;
  admin_id = some admin;
  idempotency_key = some key;
  event_status = EventStatus.test;
  status = DeliveryStatus.pending;
  attempts = 0;
  attempt_history = [];
  next_attempt_at = now;
  lease_token = none;
  lease_expires_at = none;
  last_error = none;
  completed_at = none;
}

abbrev pub can_send : (List ℕ → Bool) → Option TelegramSettings → Reply AlertError (Unit {0})
can_send can_decrypt none = raised AlertError.not_configured
can_send can_decrypt (some s) =
    if not (is_present s.chat_id)
    then raised AlertError.not_configured
    else elim s.token_ciphertext [
      | none ↦ raised AlertError.not_configured
      | some bytes ↦ if can_decrypt bytes then answer tt else raised AlertError.key_unavailable
    ]

-- the settings that the test needs, and its delivery
abbrev pub add_test : ℕ → ℕ → ℕ → String → Option TelegramSettings → AlertStore → ℕ × AlertStore
add_test k now admin key settings st = (
  k,
  record st {
    settings = settings;
    deliveries = st.deliveries ++ (test_delivery k now admin key ∷ []);
  },
)

unfoldable pub queue_test :
    Uuid4
    → Environment
    → (List ℕ → Bool)
    → ℕ
    → ℕ
    → String
    → AlertStore
    → Reply AlertError (ℕ × AlertStore)
unfolding configured_settings
queue_test uuid env can_decrypt now admin key st =
    and_then (environment_error (configured_settings uuid env st.settings)) λ settings.
      and_then (can_send can_decrypt settings) λ _.
        answer
          (add_test (uuid.draw (map (λ d. d.delivery_id) st.deliveries)) now admin key settings st)

unfoldable pub test_telegram :
    Uuid4
    → Environment
    → (List ℕ → Bool)
    → ℕ
    → ℕ
    → String
    → AlertStore
    → Reply AlertError (ℕ × AlertStore)
unfolding queue_test
test_telegram uuid env can_decrypt now admin key st =
    elim (head? (select (is_same_test admin key) st.deliveries)) [
      | some d ↦ answer (d.delivery_id, st)
      | none ↦ queue_test uuid env can_decrypt now admin key st
    ]

-- when a delivery is tried next, if it is
abbrev pub shown_next_attempt : NotificationDelivery → Option ℕ
shown_next_attempt d = if is_unsent d.status then some d.next_attempt_at else none

unfoldable pub get_delivery : ℕ → AlertStore → Reply AlertError (NotificationDelivery × Option ℕ)
get_delivery k st = elim (find k st.deliveries) [
  | none ↦ raised AlertError.delivery_not_found
  | some d ↦ answer (d, shown_next_attempt d)
]

-- a report of the database's outage or of its end
abbrev pub outage_report : ℕ → ℕ → Option ℕ → Bool → Report
outage_report k now observed over = record {
  source_id = none;
  kind = "database_unavailable";
  resolved = over;
  event_id = some k;
  observed_at = observed;
  now = now;
}

abbrev pub is_delivery_of : Option ℕ → NotificationDelivery → Bool
is_delivery_of none d = false
is_delivery_of (some k) d = holds d.alert_id k

-- `uuid5(identifier, "recovered")` is an argument; the file is removed at the end.
unfoldable pub reconcile_database_outage :
    Uuid4 → Digest → Environment → (ℕ → ℕ) → ℕ → Option IncidentFile → AlertStore → AlertStore
unfolding persist_alert read_incident reconcile_delivery
reconcile_database_outage uuid digest env recovered now none st = st
reconcile_database_outage uuid digest env recovered now (some file) st =
    let i = read_incident file in
    let (event, begun) =
      persist_alert uuid digest env (outage_report i.incident_id now (some i.observed_at) false)
        st in
    let settled = record begun {
      deliveries =
          map (λ d. if is_delivery_of event d then reconcile_delivery now i d else d)
            begun.deliveries;
    } in
    (persist_alert uuid digest env (outage_report (recovered i.incident_id) now none true)
      settled).1
