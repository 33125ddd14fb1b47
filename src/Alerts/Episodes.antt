-- ===== src/Alerts/Episodes.antt =====
-- Episodes of alerts: one alert at most is active for a source and a kind, whatever is reported.
use market_mind.Prelude.{
  ℕ, ◌≡◌, refl, sym, subst, Bool, true, false, not, Option, none, some, ◌⊎◌, inl, inr, List, [],
  ◌∷◌, arith, if◌then◌else◌, head?, select, find, modify, count-append, count-modify,
  count-modify_le, count-modify_fail, rows_of, rows_of-modify, rows_of_fresh, head-AreHeld,
  select-AreHeld, Bool-cases, Option-cases,
}
use market_mind.Runtime.{Uuid4}
use market_mind.Alerts.{
  AlertEvent, alert_identity, AlertStore, Environment, Report, Digest, safe_kind, is_active_of,
  seen_again, resolve, seen_at, alert_ids, new_event, add_event, event_key, settle_report,
  is_stored, persist_alert,
}
use Prim.Native.String.{String}
use market_mind.Alerts.Openings.{
  active_of, IsEpisodic, same_source_refl, text_refl, select_nothing, find_none, select_first,
  append-IsEpisodic, add_event-alerts,
}

-- the identifier of a new event is new
event_key-fresh :
    (uuid : Uuid4) (r : Report) (st : AlertStore)
    → is_stored r.event_id st ≡ false
    → rows_of (event_key uuid r st) st.alerts ≡ 0
event_key-fresh uuid r st unknown = go r.event_id unknown
  where
    go :
        (o : Option ℕ)
        → is_stored o st ≡ false
        → rows_of (elim o [ none ↦ uuid.draw (alert_ids st) | some k ↦ k ]) st.alerts ≡ 0
    go none e = rows_of_fresh (uuid.draw (alert_ids st)) st.alerts (uuid.draw_fresh (alert_ids st))
    go (some k) e = find_none k st.alerts e

-- What a report comes to: the alerts stay in order, and the source has an active alert of the kind
-- after a fault and none after a recovery.
abbrev pub IsSettled : Option ℕ → String → Bool → List AlertEvent → Type 0
IsSettled source kind over alerts =
    IsEpisodic alerts × (active_of source kind alerts ≡ (if over then 0 else 1))

by_outcome :
    (source : Option ℕ) (kind : String) (over : Bool) (x y : Option ℕ × AlertStore)
    → (over ≡ true → IsSettled source kind true x.1.alerts)
    → (over ≡ false → IsSettled source kind false y.1.alerts)
    → IsSettled source kind over (if over then x else y).1.alerts
      × IsSettled source kind over (if not over then y else x).1.alerts
by_outcome source kind true x y f g = (f refl, f refl)
by_outcome source kind false x y f g = (g refl, g refl)

module _ (uuid : Uuid4) (env : Environment) (kind : String) (r : Report) (st : AlertStore)
    (h : IsEpisodic st.alerts) where
  -- an active event, where the source has none of the kind
  after_fault :
      (k : ℕ)
      → rows_of k st.alerts ≡ 0
      → active_of r.source_id kind st.alerts ≡ 0
      → r.resolved ≡ false
      → IsSettled r.source_id kind false (add_event uuid env k kind r none st).alerts
  after_fault k fresh quiet e =
      let event = new_event k kind r none in
      let (alerts, _) = add_event-alerts uuid env k kind r none st in
      let counted = count-append (is_active_of r.source_id kind) st.alerts (event ∷ []) in
      let same_place = same_source_refl r.source_id in
      let same_kind = text_refl kind in
      subst (IsSettled r.source_id kind false) (sym alerts) (
        append-IsEpisodic st.alerts event h fresh (inr quiet),
        ground (arith, counted, quiet, same_place, same_kind, e),
      )

  after_first :
      (k : ℕ)
      → rows_of k st.alerts ≡ 0
      → active_of r.source_id kind st.alerts ≡ 0
      → IsSettled r.source_id kind r.resolved (settle_report uuid env k kind r st none).1.alerts
  after_first k fresh quiet =
      (by_outcome r.source_id kind r.resolved (none, st)
        (some k, add_event uuid env k kind r none st) (λ _. (h, quiet))
        (after_fault k fresh quiet)).0

  -- the event of a recovery, beside the alert that it resolves
  after_recovery :
      (k : ℕ) (a : AlertEvent)
      → rows_of k st.alerts ≡ 0
      → find a.alert_id st.alerts ≡ some a
      → is_active_of r.source_id kind a ≡ true
      → r.resolved ≡ true
      → IsSettled r.source_id kind true
          (add_event uuid env k kind r
            (some a)
            (record st { alerts = modify a.alert_id (resolve (seen_at r)) st.alerts })).alerts
  after_recovery k a fresh found own e =
      let xs = modify a.alert_id (resolve (seen_at r)) st.alerts in
      let event = new_event k kind r (some a) in
      let (alerts, _) = add_event-alerts uuid env k kind r (some a) (record st { alerts = xs }) in
      let gone =
        count-modify_fail (is_active_of r.source_id kind) a.alert_id (resolve (seen_at r)) st.alerts
          a found (h.unique a.alert_id) own (ground arith) in
      let kept : IsEpisodic xs = record {
        unique = λ j. omega (
          arith,
          rows_of-modify j a.alert_id (resolve (seen_at r)) st.alerts (λ x. refl),
          h.unique j,
        );
        one_active = λ s t. omega (
          arith,
          h.one_active s t,
          count-modify_le (is_active_of s t) a.alert_id (resolve (seen_at r)) st.alerts
              (λ x. ground arith),
        );
      } in
      let absent = rows_of-modify k a.alert_id (resolve (seen_at r)) st.alerts (λ x. refl) in
      subst (IsSettled r.source_id kind true) (sym alerts) (
        append-IsEpisodic xs event kept (omega (arith, absent, fresh)) (inl (ground (arith, e))),
        ground (
          arith,
          e,
          gone,
          h.one_active r.source_id kind,
          count-append (is_active_of r.source_id kind) xs (event ∷ []),
        ),
      )

  after_more :
      (k : ℕ) (a : AlertEvent)
      → rows_of k st.alerts ≡ 0
      → find a.alert_id st.alerts ≡ some a
      → is_active_of r.source_id kind a ≡ true
      → IsSettled r.source_id kind r.resolved (settle_report uuid env k kind r st (some a)).1.alerts
  after_more k a fresh found own =
      (by_outcome r.source_id kind r.resolved
        (
          some k,
          add_event uuid env k kind r (some a)
              (record st { alerts = modify a.alert_id (resolve (seen_at r)) st.alerts }),
        )
        (
          some a.alert_id,
          record st { alerts = modify a.alert_id (seen_again (seen_at r)) st.alerts },
        )
        (after_recovery k a fresh found own)
        (λ _. (
          record {
            unique = λ j. omega (
              arith,
              rows_of-modify j a.alert_id (seen_again (seen_at r)) st.alerts (λ x. refl),
              h.unique j,
            );
            one_active = λ s t. omega (
              arith,
              h.one_active s t,
              count-modify_le (is_active_of s t) a.alert_id (seen_again (seen_at r)) st.alerts
                  (λ x e. e),
            );
          },
          still_active a found own,
        ))).1
    where
      still_active :
          (b : AlertEvent)
          → find b.alert_id st.alerts ≡ some b
          → is_active_of r.source_id kind b ≡ true
          → active_of r.source_id kind (modify b.alert_id (seen_again (seen_at r)) st.alerts) ≡ 1
      still_active b held mine = ground (
        arith,
        mine,
        h.one_active r.source_id kind,
        count-modify (is_active_of r.source_id kind) b.alert_id (seen_again (seen_at r)) st.alerts b
            held (h.unique b.alert_id),
        count-modify_le (is_active_of r.source_id kind) b.alert_id (seen_again (seen_at r))
            st.alerts (λ x e. e),
      )

-- Where alerts have their own identifiers and one at most is active for each source and kind, this holds
-- after every report. A report of an event that is stored changes nothing; after any other, the source has
-- exactly one active alert of the kind if the report is of a fault, and none if it is of a recovery.
pub persist_alert-IsEpisodic :
    (uuid : Uuid4) (digest : Digest) (env : Environment) (r : Report) (st : AlertStore)
    → IsEpisodic st.alerts
    → ((is_stored r.event_id st ≡ true) × (persist_alert uuid digest env r st ≡ (r.event_id, st)))
      ⊎ IsSettled r.source_id
          (safe_kind digest r.kind)
          r.resolved
          (persist_alert uuid digest env r st).1.alerts
unfolding persist_alert
persist_alert-IsEpisodic uuid digest env r st h = elim (Bool-cases (is_stored r.event_id st)) [
  | inl known ↦ inl (known, rw (persist_alert, known) refl)
  | inr unknown ↦
      let kind = safe_kind digest r.kind in
      let k = event_key uuid r st in
      let fresh = event_key-fresh uuid r st unknown in
      let rows = select (is_active_of r.source_id kind) st.alerts in
      inr (elim (Option-cases (head? rows)) [
        | inl e ↦
            rw (persist_alert, unknown, e)
              (after_first uuid env kind r st h k fresh
                (select_nothing (is_active_of r.source_id kind) st.alerts e))
        | inr (a, e) ↦
            rw (persist_alert, unknown, e)
              (after_more uuid env kind r st h k a fresh
                (head-AreHeld a st.alerts rows e
                  (select-AreHeld (is_active_of r.source_id kind) st.alerts h.unique))
                (select_first (is_active_of r.source_id kind) st.alerts a e))
      ])
]
