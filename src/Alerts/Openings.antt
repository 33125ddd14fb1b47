-- ===== src/Alerts/Openings.antt =====
-- The order of the alerts, and what a new event adds to it.
use market_mind.Prelude.{
  ℕ, ◌+◌, ◌≤◌, ◌==◌, ◌≡◌, refl, ap, subst, Bool, true, false, Option, none, some, ◌⊎◌, inl, inr,
  List, [], ◌∷◌, ◌++◌, map, arith, is_some, head?, select, find, count, count-append, rows_of,
  AreUnique, Bool-cases, eqb_refl, eqb→eq, length, length-append,
}
use market_mind.Runtime.{Uuid4}
use market_mind.Replies.{Reply, raised, answer}
use market_mind.Alerts.{
  NotificationDelivery, AlertEvent, alert_identity, AlertStore, Environment, Report,
  TelegramSettings, DeliveryError, configured_settings, is_open_alert, same_source, is_active_of,
  new_event, add_delivery, add_event,
}
use Prim.Native.String.{String}
use text.Mathlib.Text.{◌==◌ as str_eq}
use text.Mathlib.TextEquality.{eq_iff}

-- how many active alerts a source has of a kind
abbrev pub active_of : Option ℕ → String → List AlertEvent → ℕ
active_of source kind = count (is_active_of source kind)

-- Alerts have their own identifiers, and one alert at most is active for a source and a kind.
pub record IsEpisodic (alerts : List AlertEvent) : Type 0 where
  pub unique : AreUnique alerts
  pub one_active : (source : Option ℕ) (kind : String) → active_of source kind alerts ≤ 1

same_source-eq : (a b : Option ℕ) → same_source a b ≡ true → a ≡ b
same_source-eq none none h = refl
same_source-eq none (some b) h = cc
same_source-eq (some a) none h = cc
same_source-eq (some a) (some b) h = ap some (eqb→eq a b h)

pub same_source_refl : (a : Option ℕ) → same_source a a ≡ true
same_source_refl none = refl
same_source_refl (some a) = eqb_refl a

text_eq : (s t : String) → str_eq s t ≡ true → s ≡ t
text_eq s t = (eq_iff s t).0

pub text_refl : (s : String) → str_eq s s ≡ true
text_refl s = (eq_iff s s).1 refl

pub select_nothing :
    (p : AlertEvent → Bool) (xs : List AlertEvent) → head? (select p xs) ≡ none → count p xs ≡ 0
select_nothing p [] h = refl
select_nothing p (x ∷ xs) h = ground (arith, select_nothing p xs)

pub find_none : (k : ℕ) (xs : List AlertEvent) → is_some (find k xs) ≡ false → rows_of k xs ≡ 0
find_none k [] h = refl
find_none k (x ∷ xs) h = ground (arith, find_none k xs)

pub select_first :
    (p : AlertEvent → Bool) (xs : List AlertEvent) (a : AlertEvent)
    → head? (select p xs) ≡ some a
    → p a ≡ true
select_first p [] a h = absurd (cc)
select_first p (x ∷ xs) a h = ground (arith, select_first p xs a)

-- an event of a new identifier, where it is the only active one if it is active
pub append-IsEpisodic :
    (xs : List AlertEvent) (event : AlertEvent)
    → IsEpisodic xs
    → rows_of event.alert_id xs ≡ 0
    → (is_open_alert event.status ≡ false) ⊎ (active_of event.source_id event.kind xs ≡ 0)
    → IsEpisodic (xs ++ (event ∷ []))
append-IsEpisodic xs event h fresh alone = record {
  unique =
      λ k. ground (arith, fresh, h.unique k, count-append (λ a. a.alert_id == k) xs (event ∷ []));
  one_active = λ source kind.
      let both = count-append (is_active_of source kind) xs (event ∷ []) in
      elim (Bool-cases (is_active_of source kind event)) [
        | inr other ↦ ground (arith, both, other, h.one_active source kind)
        | inl same ↦ elim alone [
          | inl over ↦ absurd (ground (arith, same, over))
          | inr none_active ↦
              let at_source : event.source_id ≡ source =
                same_source-eq event.source_id source (ground (arith, same)) in
              let at_kind : event.kind ≡ kind = text_eq event.kind kind (ground (arith, same)) in
              let zero_before : active_of source kind xs ≡ 0 =
                subst (λ s. active_of s kind xs ≡ 0) at_source
                  (subst (λ t. active_of event.source_id t xs ≡ 0) at_kind none_active) in
              ground (arith, both, zero_before, same)
        ]
      ];
}

one_more :
    (xs : List NotificationDelivery) (x : NotificationDelivery)
    → length (xs ++ (x ∷ [])) ≡ length xs + 1
one_more xs x = omega (arith, length-append xs (x ∷ []))

pub add_event-alerts :
    (uuid : Uuid4) (env : Environment) (k : ℕ) (kind : String) (r : Report)
    (active : Option AlertEvent) (st : AlertStore)
    → ((add_event uuid env k kind r active st).alerts
        ≡ st.alerts ++ (new_event k kind r active ∷ []))
      × (length (add_event uuid env k kind r active st).deliveries ≡ length st.deliveries + 1)
add_event-alerts uuid env k kind r active st = go (configured_settings uuid env st.settings)
  where
    go :
        (s : Reply DeliveryError (Option TelegramSettings))
        → let d = uuid.draw (map (λ d. d.delivery_id) st.deliveries) in
          let event = new_event k kind r active in
          let after = add_delivery d r event s (record st { alerts = st.alerts ++ (event ∷ []) }) in
          (after.alerts ≡ st.alerts ++ (event ∷ []))
          × (length after.deliveries ≡ length st.deliveries + 1)
    go (raised code) = (refl, one_more st.deliveries _)
    go (answer settings) = (refl, one_more st.deliveries _)
