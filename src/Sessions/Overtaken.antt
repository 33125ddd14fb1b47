-- ===== src/Sessions/Overtaken.antt =====
-- A job of the session worker whose session has moved on.
use market_mind.Prelude.{
  ℕ, ◌≤◌, ◌<◌, ◌==◌, ◌≡◌, refl, ap, Bool, true, false, none, some, List, arith, if◌then◌else◌,
}
use market_mind.Runtime.{Uuid4}
use market_mind.Replies.{Reply, raised, answer, and_then}
use market_mind.Sessions.{
  LoginAttempt, SessionStore, SessionError, AttemptStatus, Work, Domains, locked_state, session_row,
  check_source, save, transact, transact_or_roll_back, commit, committed, rolled_back,
  expire_attempts, change_attempt, is_live, is_qr_attempt, is_verifying_attempt, show_qr,
  publish_qr, confirm, confirming, complete_attempt, failure_status, failure_code, close_login,
  LoginFailure, finish_attempt, Verified, publish_login, open_session, publish_check, fail_check,
  revoke_session,
}
use market_mind.Sessions.Expiry.{expire_attempts-Advances}
use market_mind.Sessions.Commits.{
  IsSound, session_row-Holds, session_row-source_id, Holds-IsExclusive, held_generation,
  session_generation,
}
use market_mind.Sessions.Handling.{revoke_session-Moves, revoke_session-rises}
use market_mind.Sessions.Steps.{SessionReach, SessionReach-Moves}

-- All that a job has committed is the expiry of what was due.
abbrev pub ExpiresOnly : ℕ → ℕ → SessionStore → Reply SessionError (Bool × SessionStore) → Type 0
ExpiresOnly now source st (raised _) = Unit {0}
ExpiresOnly now source st (answer (b, st')) =
    (b ≡ false) × (st' ≡ save (expire_attempts now (session_row now source st)))

-- A job has committed nothing.
abbrev pub CommitsNothing : SessionStore → Reply SessionError (Bool × SessionStore) → Type 0
CommitsNothing st (raised _) = Unit {0}
CommitsNothing st (answer (b, st')) = (b ≡ false) × (st' ≡ st)

-- What each commit of a job comes to.
pub record IsOvertaken (source g : ℕ) (st : SessionStore) : Type 0 where
  pub no_qr :
      (k : ℕ) (image : List ℕ) (now : ℕ)
      → ExpiresOnly now source st (transact (publish_qr k g image now) now source st)
  pub no_scan :
      (k now : ℕ) → ExpiresOnly now source st (transact (confirming k g now) now source st)
  pub no_end :
      (k : ℕ) (why : LoginFailure) (domains : Domains) (now : ℕ)
      → ExpiresOnly now source st (transact (finish_attempt k g why domains now) now source st)
  pub no_login :
      (k : ℕ) (v : Verified) (now : ℕ)
      → ExpiresOnly now source st (transact (publish_login k g v now) now source st)
  pub no_check :
      (v : Verified) (now : ℕ)
      → ExpiresOnly now source st (transact_or_roll_back (publish_check g v now) now source st)
  pub no_failed_check :
      (domains : Domains) (now : ℕ)
      → CommitsNothing st (transact_or_roll_back (fail_check g domains now) now source st)

-- the session of the transaction is past the job's generation
passed :
    (now source g : ℕ) (st : SessionStore)
    → IsSound st
    → g < session_generation source st.sessions
    → ((expire_attempts now (session_row now source st)).0.generation == g ≡ false)
      × ((session_row now source st).0.generation == g ≡ false)
passed now source g st h late =
    let held = session_row-Holds now source st in
    let w = session_row now source st in
    let own = held_generation st w h held in
    let same = session_row-source_id now source st in
    let older : g < w.0.generation =
      omega (arith, late, ap (λ k. session_generation k st.sessions) same, own) in
    let kept = (expire_attempts-Advances now w (Holds-IsExclusive st w h held)).no_earlier in
    (ground (arith, older, kept), ground (arith, older))

-- a job's commit at a session that is past its generation
module _ (now source g : ℕ) (st : SessionStore)
    (late : ((expire_attempts now (session_row now source st)).0.generation == g) ≡ false) where
  only_expires :
      (step : Work → Bool × Work)
      → step (session_row now source st) ≡ (false, expire_attempts now (session_row now source st))
      → ExpiresOnly now source st (transact step now source st)
  unfolding transact locked_state
  only_expires step e = go (check_source source st.ledger)
    where
      go :
          (r : Reply SessionError (Unit {0}))
          → ExpiresOnly now source st (
              and_then
                (and_then r (λ _. answer (session_row now source st)))
                (λ w. let r = step w in answer (r.0, save r.1)))
      go (raised x) = tt
      go (answer _) = (ap (λ r. r.0) e, ap (λ r. save r.1) e)

  unchanged :
      (test : AttemptStatus → Bool) (k : ℕ) (f : LoginAttempt → LoginAttempt)
      → change_attempt test k g f now (session_row now source st)
        ≡ (false, expire_attempts now (session_row now source st))
  unchanged test k f = rw late refl

  -- what follows a changed attempt does not come about
  unfollowed :
      (test : AttemptStatus → Bool) (k : ℕ) (f : LoginAttempt → LoginAttempt) (next : Work → Work)
      → (let done = change_attempt test k g f now (session_row now source st) in
          if done.0 then (true, next done.1) else done)
        ≡ (false, expire_attempts now (session_row now source st))
  unfollowed test k f next = rw late refl

  overtaken-publish_qr :
      (k : ℕ) (image : List ℕ)
      → ExpiresOnly now source st (transact (publish_qr k g image now) now source st)
  unfolding publish_qr
  overtaken-publish_qr k image =
      only_expires (publish_qr k g image now) (unchanged is_live k (show_qr now image))

  overtaken-confirming :
      (k : ℕ) → ExpiresOnly now source st (transact (confirming k g now) now source st)
  unfolding confirming
  overtaken-confirming k =
      only_expires (confirming k g now) (unchanged is_qr_attempt k (confirm now))

  overtaken-finish_attempt :
      (k : ℕ) (why : LoginFailure) (domains : Domains)
      → ExpiresOnly now source st (transact (finish_attempt k g why domains now) now source st)
  unfolding finish_attempt
  overtaken-finish_attempt k why domains = only_expires (finish_attempt k g why domains now) (
      unfollowed is_live k
        (complete_attempt now (failure_status why) (some (failure_code why)) domains)
        (close_login k why domains now))

  overtaken-publish_login :
      (k : ℕ) (v : Verified)
      → ExpiresOnly now source st (transact (publish_login k g v now) now source st)
  unfolding publish_login
  overtaken-publish_login k v = only_expires (publish_login k g v now) (
      unfollowed is_verifying_attempt k
        (complete_attempt now AttemptStatus.authenticated none v.domains) (open_session g now v))

  overtaken-publish_check :
      (v : Verified)
      → ExpiresOnly now source st (transact_or_roll_back (publish_check g v now) now source st)
  unfolding transact_or_roll_back locked_state publish_check
  overtaken-publish_check v = go (check_source source st.ledger)
    where
      refused :
          publish_check g v now (session_row now source st)
          ≡ committed false (expire_attempts now (session_row now source st))
      refused = rw late refl

      go :
          (r : Reply SessionError (Unit {0}))
          → ExpiresOnly now source st (
              and_then
                (and_then r (λ _. answer (session_row now source st)))
                (λ w. answer (commit st (publish_check g v now w))))
      go (raised x) = tt
      go (answer _) = (ap (λ c. (commit st c).0) refused, ap (λ c. (commit st c).1) refused)

-- a failed recheck is compared before anything expires
overtaken-fail_check :
    (now source g : ℕ) (st : SessionStore) (domains : Domains)
    → (session_row now source st).0.generation == g ≡ false
    → CommitsNothing st (transact_or_roll_back (fail_check g domains now) now source st)
unfolding transact_or_roll_back locked_state fail_check
overtaken-fail_check now source g st domains late = go (check_source source st.ledger)
  where
    refused : fail_check g domains now (session_row now source st) ≡ rolled_back
    refused = rw late refl

    go :
        (r : Reply SessionError (Unit {0}))
        → CommitsNothing st (
            and_then
              (and_then r (λ _. answer (session_row now source st)))
              (λ w. answer (commit st (fail_check g domains now w))))
    go (raised x) = tt
    go (answer _) = (ap (λ c. (commit st c).0) refused, ap (λ c. (commit st c).1) refused)

pub IsSound-IsOvertaken :
    (source g : ℕ) (st : SessionStore)
    → IsSound st
    → g < session_generation source st.sessions
    → IsOvertaken source g st
IsSound-IsOvertaken source g st h late = record {
  no_qr =
      λ k image now. overtaken-publish_qr now source g st (passed now source g st h late).0 k image;
  no_scan = λ k now. overtaken-confirming now source g st (passed now source g st h late).0 k;
  no_end = λ k why domains now.
      overtaken-finish_attempt now source g st (passed now source g st h late).0 k why domains;
  no_login =
      λ k v now. overtaken-publish_login now source g st (passed now source g st h late).0 k v;
  no_check = λ v now. overtaken-publish_check now source g st (passed now source g st h late).0 v;
  no_failed_check =
      λ domains now. overtaken-fail_check now source g st domains (passed now source g st h late).1;
}

-- From a sound store: when a source's session is revoked, whatever administrators and the worker
-- do next, a job that began at the generation before the revocation or earlier publishes no QR code,
-- confirms no scan, ends no attempt, publishes no session and records no outcome of a recheck: it
-- commits expiries at most.
pub revoke_session-IsOvertaken :
    (uuid : Uuid4) (unlinked : Bool) (now admin source g : ℕ) (st st' later : SessionStore)
    → IsSound st
    → revoke_session unlinked now admin source st ≡ answer st'
    → SessionReach uuid st' later
    → g ≤ session_generation source st.sessions
    → IsOvertaken source g later
revoke_session-IsOvertaken uuid unlinked now admin source g st st' later h revoked steps older =
    let first = revoke_session-Moves unlinked now admin source st st' h revoked in
    let after = SessionReach-Moves uuid st' later first.sound steps in
    let rises = revoke_session-rises unlinked now admin source st st' h revoked in
    IsSound-IsOvertaken source g later after.sound (omega (arith, older, rises, after.later source))
