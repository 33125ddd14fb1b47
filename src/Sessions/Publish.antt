-- ===== src/Sessions/Publish.antt =====
-- What a job of the session worker commits: `_current`, `_publish_qr`, `_confirming`,
-- `_finish_attempt`, `_publish_session` and the failure of `_verify` in
-- backend/src/marketmind/session_worker.py. Each takes the work of its transaction, where the
-- session's row is held, and answers whether the job goes on.
use market_mind.Prelude.{
  ℕ, ◌+◌, ◌==◌, Bool, true, false, not, ◌&&◌, ◌||◌, Option, none, some, List, [], ◌∷◌,
  if◌then◌else◌, leb, any, find, modify,
}
use market_mind.Runtime.{seconds}
use market_mind.Replies.{Reply, answer, and_then}
use market_mind.Sessions.Rows.{
  SessionStatus, AttemptStatus, DomainStatus, AttemptError, Domains, all_domains, SourceSession,
  LoginAttempt, SessionAction, SessionDetails, SessionStore, attempt_identity, is_live,
  is_qr_attempt, is_verifying_attempt, is_authenticated, is_revoked,
}
use market_mind.Sessions.Pause.{pause_source_runs, release_source_runs}
use market_mind.Sessions.Attempts.{SessionError, Work, locked_state, save, log, expire_attempts}
use Prim.Native.String.{String}

-- a job's transaction from its first statement to its commit
unfoldable pub transact :
    {A : Type 0} → (Work → A × Work) → ℕ → ℕ → SessionStore → Reply SessionError (A × SessionStore)
transact step now source st =
    and_then (locked_state now source st) λ w. let r = step w in answer (r.0, save r.1)

-- The end of a transaction that may also return before its commit, which rolls it back.
pub data Commit : Type 0 where
  rolled_back : Commit
  committed : Bool → Work → Commit

abbrev pub commit : SessionStore → Commit → Bool × SessionStore
commit st rolled_back = (false, st)
commit st (committed done w) = (done, save w)

unfoldable pub transact_or_roll_back :
    (Work → Commit) → ℕ → ℕ → SessionStore → Reply SessionError (Bool × SessionStore)
transact_or_roll_back step now source st =
    and_then (locked_state now source st) λ w. answer (commit st (step w))

-- whether the attempt is there, in a status that passes the test
abbrev pub is_attempt_in : (AttemptStatus → Bool) → ℕ → List LoginAttempt → Bool
is_attempt_in test k attempts = elim (find k attempts) [ none ↦ false | some a ↦ test a.status ]

-- Python's truth of an optional attempt's test: without an attempt, a session that is not revoked
unfoldable pub is_job_current : Option ℕ → ℕ → Work → Bool
is_job_current none g (s, st) = s.generation == g && not (is_revoked s.status)
is_job_current (some k) g (s, st) = s.generation == g && is_attempt_in is_live k st.attempts

unfoldable pub current : Option ℕ → ℕ → ℕ → Work → Bool × Work
unfolding is_job_current
current attempt g now w = let w' = expire_attempts now w in (is_job_current attempt g w', w')

-- a job's assignments to its attempt, if the session is still at the job's generation
abbrev pub change_attempt :
    (AttemptStatus → Bool) → ℕ → ℕ → (LoginAttempt → LoginAttempt) → ℕ → Work → Bool × Work
change_attempt test k g f now w =
    let (s, st) = expire_attempts now w in
    if s.generation == g && is_attempt_in test k st.attempts
    then (true, (s, record st { attempts = modify k f st.attempts }))
    else (false, (s, st))

abbrev pub earliest : ℕ → ℕ → ℕ
earliest m n = if leb m n then m else n

abbrev pub show_qr : ℕ → List ℕ → LoginAttempt → LoginAttempt
show_qr now image a = record a {
  encrypted_qr = some image;
  status = AttemptStatus.qr_pending;
  expires_at = earliest a.expires_at (now + seconds 180);
  updated_at = now;
}

unfoldable pub publish_qr : ℕ → ℕ → List ℕ → ℕ → Work → Bool × Work
unfolding expire_attempts
publish_qr k g image now = change_attempt is_live k g (show_qr now image) now

abbrev pub confirm : ℕ → LoginAttempt → LoginAttempt
confirm now a = record a {
  status = AttemptStatus.verifying;
  encrypted_qr = none;
  updated_at = now;
  expires_at = now + seconds 300;
}

unfoldable pub confirming : ℕ → ℕ → ℕ → Work → Bool × Work
unfolding expire_attempts
confirming k g now = change_attempt is_qr_attempt k g (confirm now) now

abbrev pub complete_attempt :
    ℕ → AttemptStatus → Option AttemptError → Domains → LoginAttempt → LoginAttempt
complete_attempt now status code domains a = record a {
  status = status;
  error_code = code;
  encrypted_qr = none;
  domains = domains;
  updated_at = now;
  completed_at = some now;
}

-- How a login ends without a session: the statuses that `_login` passes on.
pub data LoginFailure : Type 0 where
  login_failed : AttemptError → LoginFailure
  action_required : LoginFailure

abbrev pub failure_status : LoginFailure → AttemptStatus
failure_status (login_failed _) = AttemptStatus.failed
failure_status action_required = AttemptStatus.action_required

abbrev pub failure_code : LoginFailure → AttemptError
failure_code (login_failed code) = code
failure_code action_required = AttemptError.confirmation_required

-- `domains or {...}`
abbrev pub domains_or : Domains → Domains → Domains
domains_or [] other = other
domains_or (d ∷ ds) other = d ∷ ds

abbrev pub fail_session : ℕ → Domains → SourceSession → SourceSession
fail_session now domains s = if is_authenticated s.status then s else record s {
  status = SessionStatus.failed;
  domains = domains_or domains (all_domains DomainStatus.unauthenticated);
  updated_at = now;
}

abbrev pub close_login : ℕ → LoginFailure → Domains → ℕ → Work → Work
close_login k why domains now (s, st) = (
  fail_session now domains s,
  log
      (record {
        admin_id = none;
        action = SessionAction.login_completed;
        target_id = s.source_id;
        succeeded = false;
        details = SessionDetails.of_completion k (failure_status why) (some (failure_code why));
      })
      st,
)

unfoldable pub finish_attempt : ℕ → ℕ → LoginFailure → Domains → ℕ → Work → Bool × Work
unfolding expire_attempts
finish_attempt k g why domains now w =
    let done =
      change_attempt is_live k g
        (complete_attempt now (failure_status why) (some (failure_code why)) domains) now w in
    if done.0 then (true, close_login k why domains now done.1) else done

-- What two fresh browsers have verified; the cipher's bytes of the browser's state.
pub record Verified : Type 0 where
  pub encrypted : List ℕ
  pub domains : Domains
  pub egress_id : String

abbrev pub authenticate : ℕ → Verified → SourceSession → SourceSession
authenticate now v s = record s {
  encrypted_state = some v.encrypted;
  status = SessionStatus.authenticated;
  domains = v.domains;
  egress_id = some v.egress_id;
  validated_at = some now;
  revoked_at = none;
  updated_at = now;
}

abbrev pub open_session : ℕ → ℕ → Verified → Work → Work
open_session g now v (s, st) = (
  authenticate now v s,
  log
      (record {
        admin_id = none;
        action = SessionAction.verified;
        target_id = s.source_id;
        succeeded = true;
        details = SessionDetails.of_generation v.domains g;
      })
      (record st { ledger = release_source_runs s.source_id st.ledger }),
)

-- the end of a login, by its attempt
unfoldable pub publish_login : ℕ → ℕ → Verified → ℕ → Work → Bool × Work
unfolding expire_attempts release_source_runs
publish_login k g v now w =
    let done =
      change_attempt is_verifying_attempt k g
        (complete_attempt now AttemptStatus.authenticated none v.domains) now w in
    if done.0 then (true, open_session g now v done.1) else done

-- the end of a recheck, which has no attempt
unfoldable pub publish_check : ℕ → Verified → ℕ → Work → Commit
unfolding expire_attempts release_source_runs
publish_check g v now w =
    let w' = expire_attempts now w in
    if not (w'.0.generation == g)
    then committed false w'
    else if is_revoked w'.0.status
    then rolled_back
    else committed true (open_session g now v w')

abbrev pub is_unauthenticated_domain : (String × DomainStatus) → Bool
is_unauthenticated_domain (_, DomainStatus.unauthenticated) = true
is_unauthenticated_domain (_, _) = false

abbrev pub close_session : ℕ → Domains → SourceSession → SourceSession
close_session now domains s = record s {
  status =
      if any is_unauthenticated_domain domains then SessionStatus.expired else SessionStatus.failed;
  domains = domains;
  validated_at = none;
  updated_at = now;
}

abbrev pub close_check : Domains → ℕ → Work → Work
close_check domains now (s, st) = (
  close_session now domains s,
  log
      (record {
        admin_id = none;
        action = SessionAction.verification_failed;
        target_id = s.source_id;
        succeeded = false;
        details = SessionDetails.of_domains domains;
      })
      (record st { ledger = pause_source_runs s.source_id st.ledger }),
)

-- a recheck that has failed
unfoldable pub fail_check : ℕ → Domains → ℕ → Work → Commit
unfolding pause_source_runs
fail_check g domains now w =
    if not (w.0.generation == g) || is_revoked w.0.status
    then rolled_back
    else committed true (close_check domains now w)
