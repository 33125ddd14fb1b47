-- ===== src/Sessions/Jobs.antt =====
-- What the jobs of the session worker and the handlers of the administrator do to the attempts and
-- to the session's generation.
use market_mind.Prelude.{
  ℕ, ◌≤◌, ◌==◌, ◌≡◌, refl, Bool, true, not, ◌&&◌, ◌||◌, none, some, inl, inr, List, arith,
  if◌then◌else◌, find, modify, rows_of, count-modify_row, rows_of-modify, Bool-cases, Option-cases,
}
use market_mind.Sessions.{
  SourceSession, LoginAttempt, SessionStore, Work, AttemptStatus, AttemptError, Domains,
  attempt_identity, is_live, is_live_of, is_qr_attempt, is_revoked, is_verifying_attempt,
  expire_attempts, change_attempt, is_attempt_in, show_qr, publish_qr, confirm, confirming,
  complete_attempt, finish_attempt, LoginFailure, failure_status, failure_code, close_login,
  publish_check, fail_check, close_check, Commit, rolled_back, committed, Verified, publish_login,
  open_session, clear_qrs, is_ended_of, clear_qr, start_session, LocalFile, bootstrap,
  interrupt_attempts, discard_contexts,
}
use market_mind.Sessions.Advance.{
  Advances, Advances-trans, Advances-IsExclusive, IsExclusive, HasUniqueAttempts, is_stray, Fades,
  Fades-refl, change_all-Fades,
}
use market_mind.Sessions.Expiry.{expire_attempts-Advances, interrupt_attempts-Advances}

-- a transaction that leaves the attempts and the generation alone
pub still-Advances :
    (w w' : Work)
    → w'.0.source_id ≡ w.0.source_id
    → w'.0.generation ≡ w.0.generation
    → w'.1.sessions ≡ w.1.sessions
    → w'.1.attempts ≡ w.1.attempts
    → Advances w w'
still-Advances w w' source generation sessions attempts = record {
  same_source = source;
  same_sessions = sessions;
  no_earlier = omega (arith, generation);
  fades = rw attempts (Fades-refl w.1.attempts);
  ends = inl generation;
}

-- a change of an attempt that keeps its keys
abbrev pub IsUpdate : (LoginAttempt → LoginAttempt) → Type 0
IsUpdate f =
    (a : LoginAttempt)
    → ((f a).attempt_id ≡ a.attempt_id)
      × ((f a).source_id ≡ a.source_id)
      × ((f a).generation ≡ a.generation)

pub modify-Fades :
    (k : ℕ) (f : LoginAttempt → LoginAttempt) (xs : List LoginAttempt) (a : LoginAttempt)
    → find k xs ≡ some a
    → rows_of k xs ≤ 1
    → is_live a.status ≡ true
    → IsUpdate f
    → Fades xs (modify k f xs)
modify-Fades k f xs a found unique alive keep j g = (
  count-modify_row (is_live_of j) k f xs a found unique (ground (arith, keep a)),
  count-modify_row (is_stray j g) k f xs a found unique (ground (arith, keep a)),
  rows_of-modify j k f xs (λ x. (keep x).0),
)

pub modify-Advances :
    (k : ℕ) (f : LoginAttempt → LoginAttempt) (s : SourceSession) (st : SessionStore)
    (a : LoginAttempt)
    → find k st.attempts ≡ some a
    → rows_of k st.attempts ≤ 1
    → is_live a.status ≡ true
    → IsUpdate f
    → Advances (s, st) (s, record st { attempts = modify k f st.attempts })
modify-Advances k f s st a found unique alive keep = record {
  same_source = refl;
  same_sessions = refl;
  no_earlier = omega arith;
  fades = modify-Fades k f st.attempts a found unique alive keep;
  ends = inl refl;
}

-- the attempt that a job may change
pub is_attempt_in-find :
    (test : AttemptStatus → Bool) (k : ℕ) (xs : List LoginAttempt)
    → is_attempt_in test k xs ≡ true
    → (a : LoginAttempt) × (find k xs ≡ some a) × (test a.status ≡ true)
is_attempt_in-find test k xs h = elim (Option-cases (find k xs)) [
  | inl e ↦ absurd (ground arith)
  | inr (a, e) ↦ (a, e, ground arith)
]

pub change_attempt-Advances :
    (test : AttemptStatus → Bool) (k g : ℕ) (f : LoginAttempt → LoginAttempt) (now : ℕ) (w : Work)
    → ((t : AttemptStatus) → test t ≡ true → is_live t ≡ true)
    → IsUpdate f
    → IsExclusive w
    → HasUniqueAttempts w.1.attempts
    → Advances w (change_attempt test k g f now w).1
change_attempt-Advances test k g f now w within keep h unique =
    let w' = expire_attempts now w in
    let first = expire_attempts-Advances now w h in
    let (_, _, same) = first.fades k 0 in
    elim (Bool-cases (w'.0.generation == g && is_attempt_in test k w'.1.attempts)) [
      | inl matched ↦
          let (a, found, passes) =
            is_attempt_in-find test k w'.1.attempts (ground (arith, matched)) in
          rw matched (
            Advances-trans w w' (w'.0, record w'.1 { attempts = modify k f w'.1.attempts }) first
              (modify-Advances k f w'.0 w'.1 a found (omega (arith, same, unique k))
                (within a.status passes) keep))
      | inr missed ↦ rw missed first
    ]

pub close_login-Advances :
    (k : ℕ) (why : LoginFailure) (domains : Domains) (now : ℕ) (w : Work)
    → Advances w (close_login k why domains now w)
close_login-Advances k why domains now (s, st) =
    still-Advances (s, st) (close_login k why domains now (s, st)) (ground arith) (ground arith)
      refl refl

module _ (w : Work) (h : IsExclusive w) (unique : HasUniqueAttempts w.1.attempts) where
  pub publish_qr-Advances :
      (k g : ℕ) (image : List ℕ) (now : ℕ) → Advances w (publish_qr k g image now w).1
  unfolding publish_qr
  publish_qr-Advances k g image now =
      change_attempt-Advances is_live k g (show_qr now image) now w (λ t e. e)
        (λ a. (refl, refl, refl)) h unique

  pub confirming-Advances : (k g now : ℕ) → Advances w (confirming k g now w).1
  unfolding confirming
  confirming-Advances k g now =
      change_attempt-Advances is_qr_attempt k g (confirm now) now w (λ t e. ground arith)
        (λ a. (refl, refl, refl)) h unique

  -- what follows a changed attempt leaves the attempts alone
  after_change :
      (test : AttemptStatus → Bool) (k g : ℕ) (f : LoginAttempt → LoginAttempt) (now : ℕ)
      (next : Work → Work)
      → ((t : AttemptStatus) → test t ≡ true → is_live t ≡ true)
      → IsUpdate f
      → ((v : Work) → Advances v (next v))
      → Advances w
          (let done = change_attempt test k g f now w in
            if done.0 then (true, next done.1) else done).1
  after_change test k g f now next within keep still =
      let done = change_attempt test k g f now w in
      let first = change_attempt-Advances test k g f now w within keep h unique in
      elim (Bool-cases done.0) [
        | inl e ↦ rw e (Advances-trans w done.1 (next done.1) first (still done.1))
        | inr e ↦ rw e first
      ]

  pub finish_attempt-Advances :
      (k g : ℕ) (why : LoginFailure) (domains : Domains) (now : ℕ)
      → Advances w (finish_attempt k g why domains now w).1
  unfolding finish_attempt
  finish_attempt-Advances k g why domains now =
      after_change is_live k g
        (complete_attempt now (failure_status why) (some (failure_code why)) domains) now
        (close_login k why domains now) (λ t e. e) (λ a. (refl, refl, refl))
        (close_login-Advances k why domains now)

  pub publish_login-Advances :
      (k g : ℕ) (v : Verified) (now : ℕ) → Advances w (publish_login k g v now w).1
  unfolding publish_login
  publish_login-Advances k g v now =
      after_change is_verifying_attempt k g
        (complete_attempt now AttemptStatus.authenticated none v.domains) now (open_session g now v)
        (λ t e. ground arith) (λ a. (refl, refl, refl))
        (λ u. still-Advances u (open_session g now v u) refl refl refl refl)

-- What a transaction that may be rolled back commits, if it commits.
abbrev pub CommitsAdvance : Work → Commit → Type 0
CommitsAdvance w rolled_back = Unit {0}
CommitsAdvance w (committed _ w') = Advances w w'

pub publish_check-CommitsAdvance :
    (g : ℕ) (v : Verified) (now : ℕ) (w : Work)
    → IsExclusive w
    → CommitsAdvance w (publish_check g v now w)
unfolding publish_check
publish_check-CommitsAdvance g v now w h =
    let w' = expire_attempts now w in
    let first = expire_attempts-Advances now w h in
    elim (Bool-cases (not (w'.0.generation == g))) [
      | inl stale ↦ rw stale first
      | inr fits ↦ elim (Bool-cases (is_revoked w'.0.status)) [
        | inl gone ↦ rw (fits, gone) tt
        | inr kept ↦
            rw (fits, kept)
              (Advances-trans w w' (open_session g now v w') first
                (still-Advances w' (open_session g now v w') refl refl refl refl))
      ]
    ]

pub fail_check-CommitsAdvance :
    (g : ℕ) (domains : Domains) (now : ℕ) (w : Work) → CommitsAdvance w (fail_check g domains now w)
unfolding fail_check
fail_check-CommitsAdvance g domains now w =
    elim (Bool-cases (not (w.0.generation == g) || is_revoked w.0.status)) [
      | inl stale ↦ rw stale tt
      | inr fits ↦ rw fits (still-Advances w (close_check domains now w) refl refl refl refl)
    ]

pub clear_qrs-Advances : (w : Work) → Advances w (clear_qrs w)
clear_qrs-Advances (s, st) = record {
  same_source = refl;
  same_sessions = refl;
  no_earlier = omega arith;
  fades =
      change_all-Fades (is_ended_of s.source_id) clear_qr st.attempts
        (λ a. (refl, refl, refl, inr refl));
  ends = inl refl;
}

start_session-Advances :
    (file : LocalFile) (now : ℕ) (w : Work) → Advances w (start_session file now w)
start_session-Advances file now w =
    still-Advances w (start_session file now w) (ground arith) (ground arith) (ground arith)
      (ground arith)

pub bootstrap-Advances :
    (file : LocalFile) (now : ℕ) (w : Work) → IsExclusive w → Advances w (bootstrap file now w)
unfolding bootstrap
bootstrap-Advances file now w h =
    let expired = expire_attempts now w in
    let lost = interrupt_attempts AttemptError.worker_restarted now expired in
    let first = expire_attempts-Advances now w h in
    let second =
      interrupt_attempts-Advances AttemptError.worker_restarted now expired
        (Advances-IsExclusive w expired first h) in
    Advances-trans w expired (start_session file now (clear_qrs lost)) first (
      Advances-trans expired lost (start_session file now (clear_qrs lost)) second (
        Advances-trans lost (clear_qrs lost) (start_session file now (clear_qrs lost))
          (clear_qrs-Advances lost) (start_session-Advances file now (clear_qrs lost))))

pub discard_contexts-Advances :
    (now : ℕ) (w : Work) → IsExclusive w → Advances w (discard_contexts now w)
unfolding discard_contexts
discard_contexts-Advances now w h =
    let lost = interrupt_attempts AttemptError.worker_stopped now w in
    Advances-trans w lost (discard_contexts now w)
      (interrupt_attempts-Advances AttemptError.worker_stopped now w h)
      (still-Advances lost (discard_contexts now w) (ground arith) (ground arith) refl refl)
