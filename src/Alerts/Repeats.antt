-- ===== src/Alerts/Repeats.antt =====
-- Requests that are repeated, and the end of an outage on the store of alerts.
use market_mind.Prelude.{
  ℕ, ◌≡◌, refl, subst, Bool, true, false, Option, none, some, inl, inr, List, [], ◌∷◌, ◌++◌, map,
  arith, if◌then◌else◌, head?, select, eqb_refl, Option-cases, Bool-cases, is_some, find, modify,
  sym, ◌==◌,
}
use market_mind.Runtime.{Uuid4}
use market_mind.Replies.{answer, and_then, and_then-answer}
use market_mind.Alerts.{
  NotificationDelivery, TelegramSettings, AlertStore, alert_identity, Environment, Digest,
  configured_settings, environment_error, can_send, is_same_test, test_delivery, test_telegram,
  queue_test, add_test, persist_alert, Report, outage_report, AlertEvent, safe_kind, is_stored,
  is_active_of, new_event, seen_again, seen_at, IncidentFile, read_incident, is_delivery_of,
  reconcile_delivery, reconcile_database_outage, delivery_identity,
}
use market_mind.Alerts.Episodes.{IsSettled, persist_alert-IsEpisodic}
use market_mind.Alerts.Openings.{IsEpisodic, active_of, add_event-alerts, text_refl}
use Prim.Native.String.{String}

-- the first row that passes, where only the added one does
select_added :
    (p : NotificationDelivery → Bool) (xs : List NotificationDelivery) (x : NotificationDelivery)
    → head? (select p xs) ≡ none
    → p x ≡ true
    → head? (select p (xs ++ (x ∷ []))) ≡ some x
select_added p [] x absent pass = ground arith
select_added p (y ∷ ys) x absent pass = ground (arith, select_added p ys x)

module _ (uuid : Uuid4) (env : Environment) (can_decrypt : List ℕ → Bool) (admin : ℕ)
    (key : String) where
  -- a test that is stored is found again
  found_again :
      (now k : ℕ) (st : AlertStore) (d : NotificationDelivery)
      → head? (select (is_same_test admin key) st.deliveries) ≡ some d
      → d.delivery_id ≡ k
      → test_telegram uuid env can_decrypt now admin key st ≡ answer (k, st)
  unfolding test_telegram
  found_again now k st d found same = rw (test_telegram, found, same) refl

  -- what a queued test has stored
  queue_test-answer :
      (now : ℕ) (st : AlertStore) (r : ℕ × AlertStore)
      → queue_test uuid env can_decrypt now admin key st ≡ answer r
      → (settings : Option TelegramSettings) × (add_test
            (uuid.draw (map (λ d. d.delivery_id) st.deliveries))
            now
            admin
            key
            settings
            st
          ≡ r)
  unfolding queue_test
  queue_test-answer now st r done =
      let (settings, _, rest) =
        and_then-answer (environment_error (configured_settings uuid env st.settings))
          (λ settings. and_then (can_send can_decrypt settings) λ _. answer (
            add_test (uuid.draw (map (λ d. d.delivery_id) st.deliveries)) now admin key settings
              st))
          r done in
      let (_, _, last) =
        and_then-answer (can_send can_decrypt settings)
          (λ _. answer (
            add_test (uuid.draw (map (λ d. d.delivery_id) st.deliveries)) now admin key settings
              st))
          r rest in
      (settings, cc)

  -- A test notification that was accepted is accepted again under its key, at any later time, with the
  -- same identifier, and no second delivery is made.
  pub test_telegram-test_telegram :
      (now later k : ℕ) (st st' : AlertStore)
      → test_telegram uuid env can_decrypt now admin key st ≡ answer (k, st')
      → test_telegram uuid env can_decrypt later admin key st' ≡ answer (k, st')
  unfolding test_telegram
  test_telegram-test_telegram now later k st st' done =
      elim (Option-cases (head? (select (is_same_test admin key) st.deliveries))) [
        | inr (d, e) ↦
            let old : d.delivery_id ≡ k = ground arith in
            let same : st ≡ st' = ground arith in
            subst (λ s. test_telegram uuid env can_decrypt later admin key s ≡ answer (k, s)) same
              (found_again later k st d e old)
        | inl e ↦
            let id = uuid.draw (map (λ d. d.delivery_id) st.deliveries) in
            let new = test_delivery id now admin key in
            let queued : queue_test uuid env can_decrypt now admin key st ≡ answer (k, st') =
              ground arith in
            let (settings, same) = queue_test-answer now st (k, st') queued in
            let added =
              select_added (is_same_test admin key) st.deliveries new e
                (ground (arith, eqb_refl admin, text_refl key)) in
            subst (λ r. test_telegram uuid env can_decrypt later admin key r.1 ≡ answer r) same
              (found_again later id (add_test id now admin key settings st).1 new added refl)
      ]

-- the order of the alerts after any report
episodic :
    (uuid : Uuid4) (digest : Digest) (env : Environment) (r : Report) (st : AlertStore)
    → IsEpisodic st.alerts
    → IsEpisodic (persist_alert uuid digest env r st).1.alerts
episodic uuid digest env r st h = elim (persist_alert-IsEpisodic uuid digest env r st h) [
  | inl (_, same) ↦ rw same h
  | inr settled ↦ settled.0
]

-- the outage's kind is one of the known ones
outage_kind-IsSettled :
    (digest : Digest) (xs : List AlertEvent)
    → IsSettled none (safe_kind digest "database_unavailable") true xs
    → IsSettled none "database_unavailable" true xs
unfolding safe_kind
outage_kind-IsSettled digest xs h = h

-- an added event of another identifier
find-append_other :
    (k : ℕ) (xs : List AlertEvent) (x : AlertEvent)
    → is_some (find k xs) ≡ false
    → x.alert_id == k ≡ false
    → is_some (find k (xs ++ (x ∷ []))) ≡ false
find-append_other k [] x h other = ground (arith, other)
find-append_other k (y ∷ ys) x h other = ground (arith, find-append_other k ys x)

find-modify_none :
    (k j : ℕ) (f : AlertEvent → AlertEvent) (xs : List AlertEvent)
    → ((x : AlertEvent) → (f x).alert_id ≡ x.alert_id)
    → is_some (find k xs) ≡ false
    → is_some (find k (modify j f xs)) ≡ false
find-modify_none k j f [] keep h = refl
find-modify_none k j f (x ∷ xs) keep h = ground (arith, keep x, find-modify_none k j f xs keep)

-- the report of an outage stores no other event than its own
persist_alert-unstored :
    (uuid : Uuid4) (digest : Digest) (env : Environment) (i now k : ℕ) (seen : Option ℕ)
    (st : AlertStore)
    → i == k ≡ false
    → is_stored (some k) st ≡ false
    → is_stored (some k) (persist_alert uuid digest env (outage_report i now seen false) st).1
      ≡ false
unfolding persist_alert
persist_alert-unstored uuid digest env i now k seen st other unknown =
    let r = outage_report i now seen false in
    let kind = safe_kind digest r.kind in
    elim (Bool-cases (is_stored r.event_id st)) [
      | inl known ↦ rw (persist_alert, known) unknown
      | inr new ↦ elim (Option-cases (head? (select (is_active_of none kind) st.alerts))) [
        | inl e ↦
            let (alerts, _) = add_event-alerts uuid env i kind r none st in
            rw (persist_alert, new, e)
              (subst (λ xs. is_some (find k xs) ≡ false) (sym alerts)
                (find-append_other k st.alerts (new_event i kind r none) unknown other))
        | inr (a, e) ↦
            rw (persist_alert, new, e)
              (find-modify_none k a.alert_id (seen_again (seen_at r)) st.alerts (λ x. refl) unknown)
      ]
    ]

-- Where alerts have their own identifiers and one at most is active for each source and kind, and the
-- recovery of an incident has an identifier of its own and no event yet: after the end of the outage is
-- reconciled with the incident's file, the order is kept and no alert of the database is active,
-- whatever the file says.
pub reconcile_database_outage-IsSettled :
    (uuid : Uuid4) (digest : Digest) (env : Environment) (recovered : ℕ → ℕ) (now : ℕ)
    (file : IncidentFile) (st : AlertStore)
    → IsEpisodic st.alerts
    → (read_incident file).incident_id == recovered (read_incident file).incident_id ≡ false
    → is_stored (some (recovered (read_incident file).incident_id)) st ≡ false
    → IsEpisodic (reconcile_database_outage uuid digest env recovered now (some file) st).alerts
      × (active_of none "database_unavailable"
            (reconcile_database_outage uuid digest env recovered now (some file) st).alerts
          ≡ 0)
unfolding reconcile_database_outage
reconcile_database_outage-IsSettled uuid digest env recovered now file st h other unknown =
    let i = read_incident file in
    let first = outage_report i.incident_id now (some i.observed_at) false in
    let r = persist_alert uuid digest env first st in
    let settled = record r.1 {
      deliveries =
          map (λ d. if is_delivery_of r.0 d then reconcile_delivery now i d else d) r.1.deliveries;
    } in
    let last = outage_report (recovered i.incident_id) now none true in
    let absent =
      persist_alert-unstored uuid digest env i.incident_id now (recovered i.incident_id)
        (some i.observed_at) st other unknown in
    elim (persist_alert-IsEpisodic uuid digest env last settled
      (episodic uuid digest env first st h)) [
        | inl (stored, _) ↦ absurd (ground (arith, stored, absent))
        | inr over ↦ outage_kind-IsSettled digest _ over
      ]
