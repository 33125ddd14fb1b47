-- ===== src/Sessions/Attempts.antt =====
-- The life of login attempts: `locked_state`, `expire_attempts` and `_new_attempt` of
-- backend/src/marketmind/sessions.py. A transaction holds the row of its session beside the store.
use market_mind.Prelude.{
  ℕ, suc, ◌+◌, ◌==◌, Bool, true, not, ◌&&◌, Option, none, some, List, [], ◌∷◌, ◌++◌, map,
  if◌then◌else◌, leb, head?, select, change_all, find, modify,
}
use market_mind.Ledger.{Ledger, source_identity}
use market_mind.Runtime.{Uuid4, seconds}
use market_mind.Replies.{Reply, raised, answer, and_then}
use market_mind.Sessions.Rows.{
  SessionStatus, AttemptStatus, AttemptError, SourceSession, LoginAttempt, SessionAction,
  SessionDetails, SessionEvent, SessionStore, session_identity, attempt_identity, is_live,
  is_authenticated, is_qr_pending,
}
use Prim.Native.Char.{code}
use Prim.Native.String.{String}
use text.Mathlib.Text.{◌==◌ as str_eq}

-- The codes of `ApiError`.
pub data SessionError : Type 0 where
  source_not_found session_not_supported login_attempt_not_found idempotency_key_required :
      SessionError
  idempotency_conflict unexpected_login_fields session_key_unavailable qr_unavailable : SessionError
  session_revoke_failed : SessionError

-- the session's row, which the transaction holds, and the rest of the database
abbrev pub Work : Type 0
Work = SourceSession × SessionStore

abbrev pub new_session : ℕ → ℕ → SourceSession
new_session now k = record {
  source_id = k;
  status = SessionStatus.unauthenticated;
  generation = 0;
  encrypted_state = none;
  domains = [];
  egress_id = none;
  validated_at = none;
  revoked_at = none;
  updated_at = now;
}

-- `_source`: only this source signs in by a QR code
unfoldable pub check_source : ℕ → Ledger → Reply SessionError (Unit {0})
check_source k db = elim (find k db.sources) [
  | none ↦ raised source_not_found
  | some s ↦ if str_eq s.code "jin10" then answer tt else raised session_not_supported
]

-- the row of the session, made on first use
unfoldable pub session_row : ℕ → ℕ → SessionStore → Work
session_row now k st = elim (find k st.sessions) [
  | some s ↦ (s, st)
  | none ↦ (new_session now k, record st { sessions = st.sessions ++ (new_session now k ∷ []) })
]

unfoldable pub locked_state : ℕ → ℕ → SessionStore → Reply SessionError Work
unfolding check_source session_row
locked_state now k st = and_then (check_source k st.ledger) (λ _. answer (session_row now k st))

-- the commit: the session's row is written back
abbrev pub save : Work → SessionStore
save (s, st) = record st { sessions = modify s.source_id (λ _. s) st.sessions }

abbrev pub log : SessionEvent → SessionStore → SessionStore
log e st = record st { events = st.events ++ (e ∷ []) }

abbrev pub is_live_of : ℕ → LoginAttempt → Bool
is_live_of k a = a.source_id == k && is_live a.status

abbrev pub is_expired_of : ℕ → ℕ → LoginAttempt → Bool
is_expired_of now k a = is_live_of k a && leb a.expires_at now

-- an attempt that has ended
abbrev pub end_attempt : ℕ → AttemptStatus → Option AttemptError → LoginAttempt → LoginAttempt
end_attempt now status code a = record a {
  status = status;
  encrypted_qr = none;
  completed_at = some now;
  updated_at = now;
  error_code = code;
}

abbrev pub expire : ℕ → LoginAttempt → LoginAttempt
expire now = end_attempt now AttemptStatus.expired (some AttemptError.qr_expired)

-- each attempt at the session's generation, as it is then, ends the generation
abbrev pub next_generations : List LoginAttempt → ℕ → ℕ
next_generations [] g = g
next_generations (a ∷ more) g = next_generations more (if a.generation == g then g + 1 else g)

abbrev pub login_event : SessionAction → Option ℕ → Bool → LoginAttempt → SessionEvent
login_event action admin succeeded a = record {
  admin_id = admin;
  action = action;
  target_id = a.source_id;
  succeeded = succeeded;
  details = SessionDetails.of_attempt a.attempt_id;
}

-- the session after the attempts of this list have expired
abbrev pub expire_session : ℕ → List LoginAttempt → SourceSession → SourceSession
expire_session now [] s = s
expire_session now (a ∷ rest) s =
    let s' = record s { generation = next_generations (a ∷ rest) s.generation } in
    if is_qr_pending s.status
    then record s' { status = SessionStatus.expired; updated_at = now }
    else s'

unfoldable pub expire_attempts : ℕ → Work → Work
expire_attempts now (s, st) =
    let expired = select (is_expired_of now s.source_id) st.attempts in
    (
      expire_session now expired s,
      record st {
        attempts = change_all (is_expired_of now s.source_id) (expire now) st.attempts;
        events = st.events ++ map (login_event SessionAction.login_expired none true) expired;
      },
    )

-- What a handler reads of its request; the number of the SHA-256 digest of its body, and whether
-- the body has fields.
pub record LoginRequest : Type 0 where
  pub admin_id : ℕ
  pub route : String
  pub key : String
  pub body_hash : ℕ
  pub has_fields : Bool

abbrev pub text_length : String → ℕ
text_length String.[] = 0
text_length (String.◌∷◌ c s) = suc (text_length s)

abbrev pub is_valid_key : String → Bool
is_valid_key key = not (text_length key == 0) && leb (text_length key) 200

abbrev pub is_same_request : LoginRequest → LoginAttempt → Bool
is_same_request q a =
    a.admin_id == q.admin_id && str_eq a.route q.route && str_eq a.idempotency_key q.key

abbrev pub login_lifetime : ℕ
login_lifetime = seconds 300

abbrev pub queued_attempt : ℕ → ℕ → LoginRequest → SourceSession → LoginAttempt
queued_attempt now k q s = record {
  attempt_id = k;
  source_id = s.source_id;
  admin_id = q.admin_id;
  route = q.route;
  idempotency_key = q.key;
  request_hash = q.body_hash;
  generation = s.generation;
  status = AttemptStatus.queued;
  encrypted_qr = none;
  domains = [];
  error_code = none;
  created_at = now;
  updated_at = now;
  expires_at = now + login_lifetime;
  completed_at = none;
}

-- all live attempts of the source, ended by this reason
abbrev pub cancel_live : ℕ → ℕ → AttemptError → SessionStore → SessionStore
cancel_live now k why st = record st {
  attempts =
      change_all (is_live_of k) (end_attempt now AttemptStatus.cancelled (some why)) st.attempts;
}

abbrev pub reopen : ℕ → SourceSession → SourceSession
reopen now s = record s {
  generation = s.generation + 1;
  updated_at = now;
  status = if is_authenticated s.status then s.status else SessionStatus.qr_pending;
}

-- the attempt that takes the place of all others
unfoldable pub replace_attempt : Uuid4 → ℕ → LoginRequest → Work → ℕ × Work
unfolding expire_attempts
replace_attempt uuid now q w =
    let (s, st) = expire_attempts now w in
    let s' = reopen now s in
    let st' = cancel_live now s.source_id AttemptError.superseded st in
    let a = queued_attempt now (uuid.draw (map (λ x. x.attempt_id) st'.attempts)) q s' in
    (
      a.attempt_id,
      (
        s',
        log (login_event SessionAction.login_requested (some q.admin_id) true a)
            (record st' { attempts = st'.attempts ++ (a ∷ []) }),
      ),
    )

-- a request with a key that was used before repeats that request or is refused
unfoldable pub repeat_or_start :
    Uuid4 → Bool → ℕ → LoginRequest → Work → Option LoginAttempt → Reply SessionError (ℕ × Work)
unfolding replace_attempt
repeat_or_start uuid has_cipher now q w (some existing) =
    if not (existing.request_hash == q.body_hash)
    then raised idempotency_conflict
    else answer (existing.attempt_id, expire_attempts now w)
repeat_or_start uuid has_cipher now q w none =
    if q.has_fields
    then raised unexpected_login_fields
    else if not has_cipher
    then raised session_key_unavailable
    else answer (replace_attempt uuid now q w)

-- The attempt of a request: the one that it made before, or a new one.
unfoldable pub new_attempt : Uuid4 → Bool → ℕ → LoginRequest → Work → Reply SessionError (ℕ × Work)
unfolding repeat_or_start
new_attempt uuid has_cipher now q w =
    if not (is_valid_key q.key)
    then raised idempotency_key_required
    else repeat_or_start uuid has_cipher now q w (head? (select (is_same_request q) w.1.attempts))
