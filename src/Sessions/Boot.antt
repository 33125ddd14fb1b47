-- ===== src/Sessions/Boot.antt =====
-- The session worker on its own: `bootstrap`, `_schedule` and `_discard_contexts` of
-- backend/src/marketmind/session_worker.py, for one source each.
use market_mind.Prelude.{
  ℕ, ◌+◌, ◌==◌, Bool, true, false, not, ◌&&◌, ◌||◌, Option, none, some, List, ◌++◌, map,
  if◌then◌else◌, is_some, leb, ltb, any, head?, select, change_all, order_by,
}
use market_mind.Ledger.{Ledger}
use market_mind.Runtime.{seconds}
use market_mind.Sessions.Rows.{
  SessionStatus, AttemptStatus, DomainStatus, AttemptError, all_domains, SourceSession,
  LoginAttempt, SessionAction, SessionDetails, SessionEvent, SessionStore, is_live, is_browsing,
  is_queued, is_qr_pending, is_verifying, is_revoked,
}
use market_mind.Sessions.Pause.{pause_source_runs}
use market_mind.Replies.{Reply, answer}
use market_mind.Sessions.Publish.{transact}
use market_mind.Sessions.Attempts.{
  SessionError, Work, log, end_attempt, next_generations, login_event, expire_attempts,
}
use text.Mathlib.Text.{◌==◌ as str_eq}

-- `select(Source.id).where(Source.code == "jin10")`
unfoldable pub login_sources : Ledger → List ℕ
login_sources db = map (λ s. s.source_id) (select (λ s. str_eq s.code "jin10") db.sources)

abbrev pub is_browsing_of : ℕ → LoginAttempt → Bool
is_browsing_of k a = a.source_id == k && is_browsing a.status

-- the attempts whose browser is lost; each at the session's generation ends the generation
unfoldable pub interrupt_attempts : AttemptError → ℕ → Work → Work
interrupt_attempts why now (s, st) =
    let lost = select (is_browsing_of s.source_id) st.attempts in
    (
      record s { generation = next_generations lost s.generation },
      record st {
        attempts =
            change_all (is_browsing_of s.source_id)
              (end_attempt now AttemptStatus.failed (some why)) st.attempts;
        events = st.events ++ map (login_event SessionAction.login_interrupted none false) lost;
      },
    )

-- no QR code outlives its attempt
abbrev pub is_ended_of : ℕ → LoginAttempt → Bool
is_ended_of k a = a.source_id == k && not (is_live a.status)

abbrev pub clear_qr : LoginAttempt → LoginAttempt
clear_qr a = record a { encrypted_qr = none }

abbrev pub clear_qrs : Work → Work
clear_qrs (s, st) =
    (s, record st { attempts = change_all (is_ended_of s.source_id) clear_qr st.attempts })

-- The private file of the command line, if one is configured, as the cipher's bytes.
pub data LocalFile : Type 0 where
  not_configured unavailable : LocalFile
  imported : List ℕ → LocalFile

abbrev pub import_event : SessionAction → Bool → ℕ → SessionEvent
import_event action succeeded k = record {
  admin_id = none;
  action = action;
  target_id = k;
  succeeded = succeeded;
  details = SessionDetails.no_details;
}

abbrev pub is_untouched : SourceSession → Bool
is_untouched s = not (is_some s.encrypted_state) && s.generation == 0 && not (is_some s.revoked_at)

abbrev pub import_local : LocalFile → Work → Work
import_local not_configured w = w
import_local unavailable (s, st) =
    (s, log (import_event SessionAction.local_import_unavailable false s.source_id) st)
import_local (imported bytes) (s, st) = (
  record s { encrypted_state = some bytes },
  log (import_event SessionAction.local_imported true s.source_id) st,
)

-- nothing that was authenticated before the restart is
abbrev pub distrust : ℕ → SourceSession → SourceSession
distrust now s =
    if is_some s.encrypted_state
    then record s {
      status = SessionStatus.verifying;
      validated_at = none;
      domains = all_domains DomainStatus.verifying;
      updated_at = now;
    }
    else if not (is_revoked s.status)
    then record s {
      status = SessionStatus.unauthenticated;
      domains = all_domains DomainStatus.unauthenticated;
      updated_at = now;
    }
    else record s { updated_at = now }

abbrev pub hold_runs : Work → Work
hold_runs (s, st) = (
  s,
  if is_some s.encrypted_state || is_some s.revoked_at
      then record st { ledger = pause_source_runs s.source_id st.ledger }
      else st,
)

abbrev pub start_session : LocalFile → ℕ → Work → Work
start_session file now w =
    let (s, st) = if is_untouched w.0 then import_local file w else w in
    hold_runs (distrust now s, st)

unfoldable pub bootstrap : LocalFile → ℕ → Work → Work
unfolding expire_attempts interrupt_attempts pause_source_runs
bootstrap file now w =
    start_session file now
      (clear_qrs (interrupt_attempts AttemptError.worker_restarted now (expire_attempts now w)))

-- `order_by(LoginAttempt.created_at, LoginAttempt.id)`
abbrev pub is_earlier_attempt : LoginAttempt → LoginAttempt → Bool
is_earlier_attempt a b =
    ltb a.created_at b.created_at || (a.created_at == b.created_at && ltb a.attempt_id b.attempt_id)

abbrev pub first_queued : ℕ → List LoginAttempt → Option LoginAttempt
first_queued k attempts =
    head?
      (order_by is_earlier_attempt (select (λ a. a.source_id == k && is_queued a.status) attempts))

-- The job that a source gets.
pub data Job : Type 0 where
  login : (attempt generation : ℕ) → Job
  recheck : (generation : ℕ) → List ℕ → Job

-- `state.validated_at or state.updated_at`
abbrev pub last_seen : SourceSession → ℕ
last_seen s = elim s.validated_at [ none ↦ s.updated_at | some t ↦ t ]

abbrev pub is_recheck_due : ℕ → SourceSession → Bool
is_recheck_due now s =
    not (is_revoked s.status) && (is_verifying s.status || leb (last_seen s + seconds 300) now)

abbrev pub recheck_of : ℕ → SourceSession → Option Job
recheck_of now s = elim s.encrypted_state [
  | none ↦ none
  | some bytes ↦ if is_recheck_due now s then some (recheck s.generation bytes) else none
]

abbrev pub job_of : ℕ → Work → Option Job
job_of now (s, st) = elim (first_queued s.source_id st.attempts) [
  | none ↦ recheck_of now s
  | some a ↦
      if a.generation == s.generation
      then some (login a.attempt_id s.generation)
      else recheck_of now s
]

unfoldable pub schedule : ℕ → Work → Option Job × Work
unfolding expire_attempts order_by
schedule now w = let w' = expire_attempts now w in (job_of now w', w')

-- a source with a job gets no second one
unfoldable pub schedule_job :
    List ℕ → ℕ → ℕ → SessionStore → Reply SessionError (Option Job × SessionStore)
unfolding schedule transact
schedule_job busy now source st =
    if any (λ k. k == source) busy then answer (none, st) else transact (schedule now) now source st

-- the attempts of a worker that stops
unfoldable pub discard_contexts : ℕ → Work → Work
unfolding interrupt_attempts
discard_contexts now w =
    let (s, st) = interrupt_attempts AttemptError.worker_stopped now w in
    (
      if is_qr_pending s.status
          then record s { status = SessionStatus.failed; updated_at = now }
          else s,
      st,
    )
