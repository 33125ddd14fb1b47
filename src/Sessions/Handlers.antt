-- ===== src/Sessions/Handlers.antt =====
-- The administrator's handlers of backend/src/marketmind/sessions.py. What a handler has not
-- committed when it raises is lost.
use market_mind.Prelude.{
  is_some, map, ℕ, ◌+◌, ◌==◌, Bool, true, false, ◌&&◌, Option, none, some, List, [], ◌∷◌,
  if◌then◌else◌, ltb, find, modify,
}
use Prim.Native.String.{String}
use text.Mathlib.Text.{◌==◌ as str_eq}
use market_mind.Runtime.{Uuid4, seconds}
use market_mind.Replies.{Reply, raised, answer, and_then}
use market_mind.Sessions.Rows.{
  SessionStatus, AttemptStatus, DomainStatus, AttemptError, Domains, all_domains, SourceSession,
  LoginAttempt, SessionAction, SessionDetails, SessionStore, session_identity, attempt_identity,
  is_live, is_authenticated, is_qr_pending, is_qr_attempt,
}
use market_mind.Sessions.Pause.{pause_source_runs}
use market_mind.Sessions.Attempts.{
  SessionError, check_source, login_attempt_not_found, qr_unavailable, session_revoke_failed, Work,
  locked_state, save, log, expire_attempts, LoginRequest, new_attempt, end_attempt, login_event,
  cancel_live,
}

-- what is due has expired, and the attempt is read again
unfoldable pub reload : ℕ → ℕ → Work → Reply SessionError (LoginAttempt × Work)
unfolding expire_attempts
reload now k w =
    let w' = expire_attempts now w in
    elim (find k w'.1.attempts) [ none ↦ raised login_attempt_not_found | some a ↦ answer (a, w') ]

-- `_get_attempt`: the attempt and the session of its source
unfoldable pub load_attempt : ℕ → ℕ → SessionStore → Reply SessionError (LoginAttempt × Work)
unfolding reload
load_attempt now k st = elim (find k st.attempts) [
  | none ↦ raised login_attempt_not_found
  | some row ↦ and_then (locked_state now row.source_id st) (reload now k)
]

unfoldable pub create_attempt :
    Uuid4 → Bool → ℕ → ℕ → LoginRequest → SessionStore → Reply SessionError (ℕ × SessionStore)
create_attempt uuid has_cipher now source q st =
    and_then (locked_state now source st)
      λ w. and_then (new_attempt uuid has_cipher now q w) λ r. answer (r.0, save r.1)

unfoldable pub get_attempt : ℕ → ℕ → SessionStore → Reply SessionError (LoginAttempt × SessionStore)
unfolding load_attempt
get_attempt now k st = and_then (load_attempt now k st) λ r. answer (r.0, save r.1)

-- a missing or empty image
abbrev pub has_image : Option (List ℕ) → Bool
has_image none = false
has_image (some []) = false
has_image (some (_ ∷ _)) = true

abbrev pub shows_qr : LoginAttempt → SourceSession → Bool
shows_qr a s = is_qr_attempt a.status && a.generation == s.generation && has_image a.encrypted_qr

-- What `decrypt` returns stands for the library's cipher; `none` where it raises. The expiry is
-- committed before the handler refuses a QR code that is gone.
abbrev pub read_image :
    (List ℕ → Option (List ℕ))
    → Option (List ℕ)
    → Work
    → SessionStore
    → Reply SessionError (List ℕ) × SessionStore
read_image decrypt none w st = (raised qr_unavailable, save w)
read_image decrypt (some image) w st = elim (decrypt image) [
  | none ↦ (raised qr_unavailable, st)
  | some png ↦ (answer png, save w)
]

abbrev pub answer_qr :
    (List ℕ → Option (List ℕ))
    → SessionStore
    → Reply SessionError (LoginAttempt × Work)
    → Reply SessionError (List ℕ) × SessionStore
answer_qr decrypt st (raised e) = (raised e, st)
answer_qr decrypt st (answer (a, w)) =
    read_image decrypt (if shows_qr a w.0 then a.encrypted_qr else none) w st

unfoldable pub get_qr :
    (List ℕ → Option (List ℕ)) → ℕ → ℕ → SessionStore → Reply SessionError (List ℕ) × SessionStore
unfolding load_attempt
get_qr decrypt now k st = answer_qr decrypt st (load_attempt now k st)

unfoldable pub refresh_attempt :
    Uuid4 → Bool → ℕ → ℕ → LoginRequest → SessionStore → Reply SessionError (ℕ × SessionStore)
unfolding load_attempt
refresh_attempt uuid has_cipher now k q st =
    and_then (load_attempt now k st)
      λ l. and_then (new_attempt uuid has_cipher now q l.1) λ r. answer (r.0, save r.1)

-- a cancelled attempt at the session's generation ends the generation
abbrev pub close_generation : ℕ → LoginAttempt → SourceSession → SourceSession
close_generation now a s =
    if a.generation == s.generation
    then record s {
      generation = s.generation + 1;
      status = if is_qr_pending s.status then SessionStatus.unauthenticated else s.status;
      updated_at = now;
    }
    else s

abbrev pub cancel_row : ℕ → LoginAttempt → LoginAttempt
cancel_row now row = end_attempt now AttemptStatus.cancelled row.error_code row

abbrev pub cancel_one : ℕ → ℕ → LoginAttempt → Work → Work
cancel_one now admin a (s, st) = (
  close_generation now a s,
  log (login_event SessionAction.login_cancelled (some admin) true a)
      (record st { attempts = modify a.attempt_id (cancel_row now) st.attempts }),
)

unfoldable pub cancel_loaded : ℕ → ℕ → LoginAttempt → Work → Work
cancel_loaded now admin a w = if is_live a.status then cancel_one now admin a w else w

unfoldable pub cancel_attempt : ℕ → ℕ → ℕ → SessionStore → Reply SessionError SessionStore
unfolding load_attempt cancel_loaded
cancel_attempt now admin k st =
    and_then (load_attempt now k st) λ l. answer (save (cancel_loaded now admin l.0 l.1))

abbrev pub revoke : ℕ → SourceSession → SourceSession
revoke now s = record s {
  generation = s.generation + 1;
  status = SessionStatus.revoked;
  encrypted_state = none;
  validated_at = none;
  revoked_at = some now;
  updated_at = now;
  egress_id = none;
  domains = all_domains DomainStatus.unauthenticated;
}

unfoldable pub revoke_loaded : ℕ → ℕ → Work → Work
unfolding pause_source_runs
revoke_loaded now admin (s, st) =
    let st' = cancel_live now s.source_id AttemptError.session_revoked st in
    (
      revoke now s,
      log
          (record {
            admin_id = some admin;
            action = SessionAction.revoked;
            target_id = s.source_id;
            succeeded = true;
            details = SessionDetails.no_details;
          })
          (record st' { ledger = pause_source_runs s.source_id st'.ledger }),
    )

-- `unlinked` says whether the local copy is gone, if one is configured.
unfoldable pub revoke_session : Bool → ℕ → ℕ → ℕ → SessionStore → Reply SessionError SessionStore
unfolding revoke_loaded
revoke_session unlinked now admin source st = and_then (locked_state now source st) λ w.
    if unlinked then answer (save (revoke_loaded now admin w)) else raised session_revoke_failed

-- `domains.get(domain, "unauthenticated")`
abbrev pub domain_status : String → Domains → DomainStatus
domain_status host [] = DomainStatus.unauthenticated
domain_status host ((h, s) ∷ rest) = if str_eq h host then s else domain_status host rest

abbrev pub shown_domains : Domains → Domains
shown_domains domains =
    map (λ d. (d.0, domain_status d.0 domains)) (all_domains DomainStatus.unauthenticated)

-- What `_attempt_response` shows of an attempt.
pub record AttemptView : Type 0 where
  pub id : ℕ
  pub source_id : ℕ
  pub status : AttemptStatus
  pub expires_at : ℕ
  pub qr_available : Bool
  pub domains : Domains
  pub error_code : Option AttemptError

abbrev pub attempt_view : LoginAttempt → AttemptView
attempt_view a = record {
  id = a.attempt_id;
  source_id = a.source_id;
  status = a.status;
  expires_at = a.expires_at;
  qr_available = is_qr_attempt a.status && is_some a.encrypted_qr;
  domains = shown_domains a.domains;
  error_code = a.error_code;
}

-- an old validation counts as none
abbrev pub is_old_validation : ℕ → Option ℕ → Bool
is_old_validation now none = true
is_old_validation now (some t) = ltb (t + seconds 600) now

-- what `get_session` shows of a session
abbrev pub session_view : ℕ → Option SourceSession → SessionStatus × Domains
session_view now none = (SessionStatus.unauthenticated, shown_domains [])
session_view now (some s) =
    if is_authenticated s.status && is_old_validation now s.validated_at
    then (SessionStatus.verifying, shown_domains (all_domains DomainStatus.verifying))
    else (s.status, shown_domains s.domains)

unfoldable pub get_session : ℕ → ℕ → SessionStore → Reply SessionError (SessionStatus × Domains)
unfolding check_source
get_session now source st =
    and_then (check_source source st.ledger)
      λ _. answer (session_view now (find source st.sessions))
