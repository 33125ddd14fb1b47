-- ===== src/Sessions/Rows.antt =====
-- The rows of backend/src/marketmind/session_models.py, and the store on which the handlers of
-- backend/src/marketmind/sessions.py and the session worker act.
use market_mind.Prelude.{ℕ, Bool, true, false, Option, List, [], ◌∷◌, Identity}
use market_mind.Ledger.{Ledger}
use Prim.Native.String.{String}

pub data SessionStatus : Type 0 where
  unauthenticated qr_pending verifying authenticated expired failed revoked : SessionStatus

pub data AttemptStatus : Type 0 where
  queued qr_pending verifying authenticated expired failed cancelled action_required : AttemptStatus

pub data DomainStatus : Type 0 where
  unauthenticated verifying authenticated failed : DomainStatus

pub data AttemptError : Type 0 where
  qr_expired superseded session_revoked worker_restarted worker_stopped : AttemptError
  domain_verification_failed fresh_browser_verification_failed confirmation_required : AttemptError
  login_transport_unavailable official_login_unavailable : AttemptError

abbrev pub Domains : Type 0
Domains = List (String × DomainStatus)

-- the hosts of ORIGINS, all with one status
abbrev pub all_domains : DomainStatus → Domains
all_domains s = ("www.jin10.com", s) ∷ ("xnews.jin10.com", s) ∷ []

-- Encrypted columns are lists of bytes.
pub record SourceSession : Type 0 where
  pub source_id : ℕ
  pub status : SessionStatus
  pub generation : ℕ
  pub encrypted_state : Option (List ℕ)
  pub domains : Domains
  pub egress_id : Option String
  pub validated_at : Option ℕ
  pub revoked_at : Option ℕ
  pub updated_at : ℕ

pub record LoginAttempt : Type 0 where
  pub attempt_id : ℕ
  pub source_id : ℕ
  pub admin_id : ℕ
  pub route : String
  pub idempotency_key : String
  pub request_hash : ℕ
  pub generation : ℕ
  pub status : AttemptStatus
  pub encrypted_qr : Option (List ℕ)
  pub domains : Domains
  pub error_code : Option AttemptError
  pub created_at : ℕ
  pub updated_at : ℕ
  pub expires_at : ℕ
  pub completed_at : Option ℕ

pub data SessionAction : Type 0 where
  login_expired login_requested login_cancelled revoked login_interrupted : SessionAction
  local_imported local_import_unavailable login_completed verified verification_failed :
      SessionAction

pub data SessionDetails : Type 0 where
  no_details : SessionDetails
  of_attempt : ℕ → SessionDetails
  of_completion : ℕ → AttemptStatus → Option AttemptError → SessionDetails
  of_domains : Domains → SessionDetails
  of_generation : Domains → ℕ → SessionDetails

-- an audit event of a session
pub record SessionEvent : Type 0 where
  pub admin_id : Option ℕ
  pub action : SessionAction
  pub target_id : ℕ
  pub succeeded : Bool
  pub details : SessionDetails

pub record SessionStore : Type 0 where
  pub sessions : List SourceSession
  pub attempts : List LoginAttempt
  pub events : List SessionEvent
  pub ledger : Ledger

instance abbrev pub session_identity : Identity SourceSession
session_identity = record { id = λ s. s.source_id }

instance abbrev pub attempt_identity : Identity LoginAttempt
attempt_identity = record { id = λ a. a.attempt_id }

-- `status in ACTIVE_ATTEMPTS`
abbrev pub is_live : AttemptStatus → Bool
is_live AttemptStatus.queued = true
is_live AttemptStatus.qr_pending = true
is_live AttemptStatus.verifying = true
is_live _ = false

-- the statuses in which a browser of the worker holds the attempt
abbrev pub is_browsing : AttemptStatus → Bool
is_browsing AttemptStatus.qr_pending = true
is_browsing AttemptStatus.verifying = true
is_browsing _ = false

abbrev pub is_queued : AttemptStatus → Bool
is_queued AttemptStatus.queued = true
is_queued _ = false

abbrev pub is_qr_attempt : AttemptStatus → Bool
is_qr_attempt AttemptStatus.qr_pending = true
is_qr_attempt _ = false

abbrev pub is_verifying_attempt : AttemptStatus → Bool
is_verifying_attempt AttemptStatus.verifying = true
is_verifying_attempt _ = false

abbrev pub is_authenticated : SessionStatus → Bool
is_authenticated SessionStatus.authenticated = true
is_authenticated _ = false

abbrev pub is_qr_pending : SessionStatus → Bool
is_qr_pending SessionStatus.qr_pending = true
is_qr_pending _ = false

abbrev pub is_verifying : SessionStatus → Bool
is_verifying SessionStatus.verifying = true
is_verifying _ = false

abbrev pub is_revoked : SessionStatus → Bool
is_revoked SessionStatus.revoked = true
is_revoked _ = false
