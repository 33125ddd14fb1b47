-- ===== src/Sessions/Steps.antt =====
-- The transactions that administrators and the session worker commit on the sessions of all
-- sources, in any order: backend/src/marketmind/sessions.py and
-- backend/src/marketmind/session_worker.py.
use market_mind.Prelude.{ℕ, ◌≡◌, Bool, Option, List, arith}
use market_mind.Runtime.{Uuid4}
use market_mind.Replies.{answer}
use market_mind.Sessions.{
  LoginAttempt, SessionStore, Work, Domains, transact, transact_or_roll_back, LoginRequest,
  create_attempt, get_attempt, get_qr, refresh_attempt, cancel_attempt, revoke_session, current,
  publish_qr, confirming, LoginFailure, finish_attempt, Verified, publish_login, publish_check,
  fail_check, LocalFile, bootstrap, Job, schedule, discard_contexts, expire_attempts,
}
use market_mind.Sessions.Expiry.{expire_attempts-Advances}
use market_mind.Sessions.Jobs.{
  publish_qr-Advances, confirming-Advances, finish_attempt-Advances, publish_login-Advances,
  publish_check-CommitsAdvance, fail_check-CommitsAdvance, bootstrap-Advances,
  discard_contexts-Advances,
}
use market_mind.Sessions.Keeping.{Advances-Keeps}
use market_mind.Sessions.Commits.{IsSound, Moves}
use market_mind.Sessions.Answers.{transact-Moves, transact_or_roll_back-Moves, Moves-refl}
use market_mind.Sessions.Handling.{
  create_attempt-Moves, get_attempt-Moves, get_qr-Moves, refresh_attempt-Moves,
  cancel_attempt-Moves, revoke_session-Moves,
}

-- work without an answer
abbrev pub silent : (Work → Work) → Work → Unit {0} × Work
silent step w = (tt, step w)

module _ (uuid : Uuid4) where
  pub data SessionStep (st : SessionStore) : SessionStore → Type 0 where
    create :
        (has_cipher : Bool) (now source k : ℕ) (q : LoginRequest) (st' : SessionStore)
        → create_attempt uuid has_cipher now source q st ≡ answer (k, st')
        → SessionStep st st'
    read :
        (now k : ℕ) (a : LoginAttempt) (st' : SessionStore)
        → get_attempt now k st ≡ answer (a, st')
        → SessionStep st st'
    read_qr :
        (decrypt : List ℕ → Option (List ℕ)) (now k : ℕ)
        → SessionStep st (get_qr decrypt now k st).1
    refresh :
        (has_cipher : Bool) (now k made : ℕ) (q : LoginRequest) (st' : SessionStore)
        → refresh_attempt uuid has_cipher now k q st ≡ answer (made, st')
        → SessionStep st st'
    cancel :
        (now admin k : ℕ) (st' : SessionStore)
        → cancel_attempt now admin k st ≡ answer st'
        → SessionStep st st'
    sign_out :
        (unlinked : Bool) (now admin source : ℕ) (st' : SessionStore)
        → revoke_session unlinked now admin source st ≡ answer st'
        → SessionStep st st'
    guard :
        (attempt : Option ℕ) (g now source : ℕ) (b : Bool) (st' : SessionStore)
        → transact (current attempt g now) now source st ≡ answer (b, st')
        → SessionStep st st'
    show :
        (k g : ℕ) (image : List ℕ) (now source : ℕ) (b : Bool) (st' : SessionStore)
        → transact (publish_qr k g image now) now source st ≡ answer (b, st')
        → SessionStep st st'
    scan :
        (k g now source : ℕ) (b : Bool) (st' : SessionStore)
        → transact (confirming k g now) now source st ≡ answer (b, st')
        → SessionStep st st'
    fail :
        (k g : ℕ) (why : LoginFailure) (domains : Domains) (now source : ℕ) (b : Bool)
        (st' : SessionStore)
        → transact (finish_attempt k g why domains now) now source st ≡ answer (b, st')
        → SessionStep st st'
    succeed :
        (k g : ℕ) (v : Verified) (now source : ℕ) (b : Bool) (st' : SessionStore)
        → transact (publish_login k g v now) now source st ≡ answer (b, st')
        → SessionStep st st'
    renew :
        (g : ℕ) (v : Verified) (now source : ℕ) (b : Bool) (st' : SessionStore)
        → transact_or_roll_back (publish_check g v now) now source st ≡ answer (b, st')
        → SessionStep st st'
    lapse :
        (g : ℕ) (domains : Domains) (now source : ℕ) (b : Bool) (st' : SessionStore)
        → transact_or_roll_back (fail_check g domains now) now source st ≡ answer (b, st')
        → SessionStep st st'
    boot :
        (file : LocalFile) (now source : ℕ) (st' : SessionStore)
        → transact (silent (bootstrap file now)) now source st ≡ answer (tt, st')
        → SessionStep st st'
    plan :
        (now source : ℕ) (job : Option Job) (st' : SessionStore)
        → transact (schedule now) now source st ≡ answer (job, st')
        → SessionStep st st'
    discard :
        (now source : ℕ) (st' : SessionStore)
        → transact (silent (discard_contexts now)) now source st ≡ answer (tt, st')
        → SessionStep st st'

  pub data SessionReach (st : SessionStore) : SessionStore → Type 0 where
    here : SessionReach st st
    next : {d e : SessionStore} → SessionReach st d → SessionStep d e → SessionReach st e

  pub SessionStep-Moves : (st st' : SessionStore) → IsSound st → SessionStep st st' → Moves st st'
  unfolding current schedule
  SessionStep-Moves st _ h (create has_cipher now source k q st' e) =
      create_attempt-Moves uuid has_cipher now source q st st' k h e
  SessionStep-Moves st _ h (read now k a st' e) = get_attempt-Moves now k st st' a h e
  SessionStep-Moves st _ h (read_qr decrypt now k) = get_qr-Moves decrypt now k st h
  SessionStep-Moves st _ h (refresh has_cipher now k made q st' e) =
      refresh_attempt-Moves uuid has_cipher now k q st st' made h e
  SessionStep-Moves st _ h (cancel now admin k st' e) = cancel_attempt-Moves now admin k st st' h e
  SessionStep-Moves st _ h (sign_out unlinked now admin source st' e) =
      revoke_session-Moves unlinked now admin source st st' h e
  SessionStep-Moves st _ h (guard attempt g now source b st' e) =
      transact-Moves (current attempt g now) now source st st' b
        (λ w i u. Advances-Keeps w (expire_attempts now w) (expire_attempts-Advances now w i) i u) h
        e
  SessionStep-Moves st _ h (show k g image now source b st' e) =
      transact-Moves (publish_qr k g image now) now source st st' b
        (λ w i u.
          Advances-Keeps w (publish_qr k g image now w).1 (publish_qr-Advances w i u k g image now)
            i u)
        h e
  SessionStep-Moves st _ h (scan k g now source b st' e) =
      transact-Moves (confirming k g now) now source st st' b
        (λ w i u. Advances-Keeps w (confirming k g now w).1 (confirming-Advances w i u k g now) i u)
        h e
  SessionStep-Moves st _ h (fail k g why domains now source b st' e) =
      transact-Moves (finish_attempt k g why domains now) now source st st' b
        (λ w i u.
          Advances-Keeps w (finish_attempt k g why domains now w).1
            (finish_attempt-Advances w i u k g why domains now) i u)
        h e
  SessionStep-Moves st _ h (succeed k g v now source b st' e) =
      transact-Moves (publish_login k g v now) now source st st' b
        (λ w i u.
          Advances-Keeps w (publish_login k g v now w).1 (publish_login-Advances w i u k g v now) i
            u)
        h e
  SessionStep-Moves st _ h (renew g v now source b st' e) =
      transact_or_roll_back-Moves (publish_check g v now) now source st st' b
        (publish_check-CommitsAdvance g v now) h e
  SessionStep-Moves st _ h (lapse g domains now source b st' e) =
      transact_or_roll_back-Moves (fail_check g domains now) now source st st' b
        (λ w i. fail_check-CommitsAdvance g domains now w) h e
  SessionStep-Moves st _ h (boot file now source st' e) =
      transact-Moves (silent (bootstrap file now)) now source st st' tt
        (λ w i u. Advances-Keeps w (bootstrap file now w) (bootstrap-Advances file now w i) i u) h e
  SessionStep-Moves st _ h (plan now source job st' e) =
      transact-Moves (schedule now) now source st st' job
        (λ w i u. Advances-Keeps w (expire_attempts now w) (expire_attempts-Advances now w i) i u) h
        e
  SessionStep-Moves st _ h (discard now source st' e) =
      transact-Moves (silent (discard_contexts now)) now source st st' tt
        (λ w i u. Advances-Keeps w (discard_contexts now w) (discard_contexts-Advances now w i) i u)
        h e

  -- From a sound store, after any sequence of steps of administrators and of the session worker,
  -- each source has at most one live login attempt, which is at the generation of the source's
  -- session, attempts have their own identifiers, and no session's generation has fallen.
  pub SessionReach-Moves : (st st' : SessionStore) → IsSound st → SessionReach st st' → Moves st st'
  SessionReach-Moves st _ h here = Moves-refl st h
  SessionReach-Moves st st' h (next {d = d} r s) =
      let before = SessionReach-Moves st d h r in
      let last = SessionStep-Moves d st' before.sound s in
      record { sound = last.sound; later = λ k. omega (arith, before.later k, last.later k) }
