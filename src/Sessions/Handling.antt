-- ===== src/Sessions/Handling.antt =====
-- What the administrator's handlers commit where they answer.
use market_mind.Prelude.{
  ℕ, ◌==◌, ◌<◌, ◌≡◌, ap, eqb_refl, refl, sym, subst, Bool, false, not, Option, none, some, ◌⊎◌, inl,
  inr, List, arith, if◌then◌else◌, head?, select, find, find-id, Option-cases,
}
use market_mind.Runtime.{Uuid4}
use market_mind.Replies.{Reply, raised, answer, and_then, and_then-answer}
use market_mind.Sessions.{
  LoginAttempt, SessionStore, SessionError, Work, attempt_identity, locked_state, save,
  load_attempt, expire_attempts, LoginRequest, is_valid_key, is_same_request, new_attempt,
  repeat_or_start, replace_attempt, create_attempt, get_attempt, get_qr, answer_qr, read_image,
  shows_qr, refresh_attempt, cancel_attempt, cancel_loaded, revoke_session, revoke_loaded,
  idempotency_key_required, idempotency_conflict, unexpected_login_fields, session_key_unavailable,
  session_revoke_failed,
}
use market_mind.Sessions.Advance.{Advances, Advances-IsExclusive, IsExclusive, HasUniqueAttempts}
use market_mind.Sessions.Expiry.{expire_attempts-Advances}
use market_mind.Sessions.Jobs.{still-Advances}
use market_mind.Sessions.Keeping.{
  Keeps, Advances-Keeps, Fades-HasUniqueAttempts, replace_attempt-Keeps, cancel_loaded-Advances,
  revoke_loaded-Advances,
}
use market_mind.Sessions.Commits.{
  IsSound, Holds, saved_generation, held_generation, session_generation, Moves, locked_state-Holds,
  Holds-IsExclusive, Holds-HasUniqueAttempts, commit-Moves,
}
use market_mind.Sessions.Loading.{Loads, load_attempt-Loads}
use market_mind.Sessions.Answers.{Advances-Keeps_trans, Moves-refl}

-- a loaded attempt's transaction up to there
pub Loads-Advances :
    (now k : ℕ) (st : SessionStore) (a : LoginAttempt) (w : Work) (h : IsSound st)
    (l : Loads now k st a w)
    → Advances l.before w
Loads-Advances now k st a w h l =
    subst (Advances l.before) l.expired
      (expire_attempts-Advances now l.before (Holds-IsExclusive st l.before h l.held))

-- the commit of work that follows a loaded attempt
pub Loads-Moves :
    (now k : ℕ) (st : SessionStore) (a : LoginAttempt) (w w' : Work)
    → IsSound st
    → Loads now k st a w
    → (IsExclusive w → HasUniqueAttempts w.1.attempts → Keeps w w')
    → Moves st (save w')
Loads-Moves now k st a w w' h l keeps =
    let first = Loads-Advances now k st a w h l in
    let exclusive = Holds-IsExclusive st l.before h l.held in
    let unique = Holds-HasUniqueAttempts st l.before h l.held in
    commit-Moves st l.before h l.held w' (
      Advances-Keeps_trans l.before w w' first (
        keeps (Advances-IsExclusive l.before w first exclusive)
          (Fades-HasUniqueAttempts l.before.1.attempts w.1.attempts first.fades unique)))

abbrev pub still_Keeps : (w : Work) → IsExclusive w → HasUniqueAttempts w.1.attempts → Keeps w w
still_Keeps w = Advances-Keeps w w (still-Advances w w refl refl refl refl)

pub get_attempt-Moves :
    (now k : ℕ) (st st' : SessionStore) (a : LoginAttempt)
    → IsSound st
    → get_attempt now k st ≡ answer (a, st')
    → Moves st st'
unfolding get_attempt
get_attempt-Moves now k st st' a h done =
    let ((b, w), loaded, e) =
      and_then-answer (load_attempt now k st) (λ l. answer (l.0, save l.1)) (a, st') done in
    let same : save w ≡ st' = cc in
    subst (Moves st) same
      (Loads-Moves now k st b w w h (load_attempt-Loads now k st b w h loaded) (still_Keeps w))

pub cancel_attempt-Moves :
    (now admin k : ℕ) (st st' : SessionStore)
    → IsSound st
    → cancel_attempt now admin k st ≡ answer st'
    → Moves st st'
unfolding cancel_attempt
cancel_attempt-Moves now admin k st st' h done =
    let ((a, w), loaded, e) =
      and_then-answer (load_attempt now k st) (λ l. answer (save (cancel_loaded now admin l.0 l.1)))
        st' done in
    let l = load_attempt-Loads now k st a w h loaded in
    let same : save (cancel_loaded now admin a w) ≡ st' = cc in
    let found : find a.attempt_id w.1.attempts ≡ some a =
      subst (λ j. find j w.1.attempts ≡ some a) (sym (find-id k w.1.attempts a l.found)) l.found in
    subst (Moves st) same (
      Loads-Moves now k st a w (cancel_loaded now admin a w) h l (λ exclusive unique.
        Advances-Keeps w (cancel_loaded now admin a w)
          (cancel_loaded-Advances now admin a w exclusive unique found l.own) exclusive unique))

-- an answer that stands behind two refusals
behind :
    {A : Type 0} (b c : Bool) (x y : SessionError) (value r : A)
    → (if b then raised x else if c then raised y else answer value) ≡ answer r
    → value ≡ r
behind b c x y value r done = ground arith

accepted :
    {A : Type 0} (b : Bool) (x : SessionError) (rest : Reply SessionError A) (r : A)
    → (if b then raised x else rest) ≡ answer r
    → rest ≡ answer r
accepted b x rest r done = ground arith

repeat_or_start-cases :
    (uuid : Uuid4) (has_cipher : Bool) (now : ℕ) (q : LoginRequest) (w : Work)
    (found : Option LoginAttempt) (r : ℕ × Work)
    → repeat_or_start uuid has_cipher now q w found ≡ answer r
    → (expire_attempts now w ≡ r.1) ⊎ (replace_attempt uuid now q w ≡ r)
unfolding repeat_or_start
repeat_or_start-cases uuid has_cipher now q w (some a) r done = inl (
    ground (
      arith,
      behind (not (a.request_hash == q.body_hash)) false idempotency_conflict idempotency_conflict
          (a.attempt_id, expire_attempts now w) r done,
    ))
repeat_or_start-cases uuid has_cipher now q w none r done = inr (
    behind q.has_fields (not has_cipher) unexpected_login_fields session_key_unavailable
      (replace_attempt uuid now q w) r done)

new_attempt-cases :
    (uuid : Uuid4) (has_cipher : Bool) (now : ℕ) (q : LoginRequest) (w : Work) (r : ℕ × Work)
    → new_attempt uuid has_cipher now q w ≡ answer r
    → (expire_attempts now w ≡ r.1) ⊎ (replace_attempt uuid now q w ≡ r)
unfolding new_attempt
new_attempt-cases uuid has_cipher now q w r done =
    let found = head? (select (is_same_request q) w.1.attempts) in
    repeat_or_start-cases uuid has_cipher now q w found r (
      accepted (not (is_valid_key q.key)) idempotency_key_required
        (repeat_or_start uuid has_cipher now q w found) r done)

-- a new attempt or the one of an earlier request
pub new_attempt-Keeps :
    (uuid : Uuid4) (has_cipher : Bool) (now : ℕ) (q : LoginRequest) (w w' : Work) (k : ℕ)
    → IsExclusive w
    → HasUniqueAttempts w.1.attempts
    → new_attempt uuid has_cipher now q w ≡ answer (k, w')
    → Keeps w w'
new_attempt-Keeps uuid has_cipher now q w w' k h unique done =
    elim (new_attempt-cases uuid has_cipher now q w (k, w') done) [
      | inl e ↦
          subst (Keeps w) e
            (Advances-Keeps w (expire_attempts now w) (expire_attempts-Advances now w h) h unique)
      | inr e ↦ subst (λ r. Keeps w r.1) e (replace_attempt-Keeps uuid now q w h unique)
    ]

pub create_attempt-Moves :
    (uuid : Uuid4) (has_cipher : Bool) (now source : ℕ) (q : LoginRequest) (st st' : SessionStore)
    (k : ℕ)
    → IsSound st
    → create_attempt uuid has_cipher now source q st ≡ answer (k, st')
    → Moves st st'
unfolding create_attempt
create_attempt-Moves uuid has_cipher now source q st st' k h done =
    let (w, read, e) =
      and_then-answer (locked_state now source st)
        (λ w. and_then (new_attempt uuid has_cipher now q w) λ r. answer (r.0, save r.1)) (k, st')
        done in
    let ((j, w'), made, e') =
      and_then-answer (new_attempt uuid has_cipher now q w) (λ r. answer (r.0, save r.1)) (k, st')
        e in
    let (held, _) = locked_state-Holds now source st w read in
    let same : save w' ≡ st' = cc in
    subst (Moves st) same (
      commit-Moves st w h held w' (
        new_attempt-Keeps uuid has_cipher now q w w' j (Holds-IsExclusive st w h held)
          (Holds-HasUniqueAttempts st w h held) made))

pub refresh_attempt-Moves :
    (uuid : Uuid4) (has_cipher : Bool) (now k : ℕ) (q : LoginRequest) (st st' : SessionStore)
    (made : ℕ)
    → IsSound st
    → refresh_attempt uuid has_cipher now k q st ≡ answer (made, st')
    → Moves st st'
unfolding refresh_attempt
refresh_attempt-Moves uuid has_cipher now k q st st' made h done =
    let ((a, w), loaded, e) =
      and_then-answer (load_attempt now k st)
        (λ l. and_then (new_attempt uuid has_cipher now q l.1) λ r. answer (r.0, save r.1))
        (made, st') done in
    let ((j, w'), new, e') =
      and_then-answer (new_attempt uuid has_cipher now q w) (λ r. answer (r.0, save r.1))
        (made, st') e in
    let same : save w' ≡ st' = cc in
    subst (Moves st) same (
      Loads-Moves now k st a w w' h (load_attempt-Loads now k st a w h loaded)
        (λ exclusive unique. new_attempt-Keeps uuid has_cipher now q w w' j exclusive unique new))

-- what a revocation commits: the session's next generation
revoked_work :
    (b : Bool) (x y : SessionStore)
    → (if b then answer x else raised session_revoke_failed) ≡ answer y
    → x ≡ y
revoked_work b x y e = ground arith

module _ (unlinked : Bool) (now admin source : ℕ) (st st' : SessionStore) (h : IsSound st)
    (done : revoke_session unlinked now admin source st ≡ answer st') where
  -- the work of the revocation
  revocation :
      (w : Work) × Holds st w
      × (w.0.source_id ≡ source)
      × (save (revoke_loaded now admin w) ≡ st')
      × Keeps w (revoke_loaded now admin w)
  unfolding revoke_session
  revocation =
      let (w, read, e) =
        and_then-answer (locked_state now source st)
          (λ w.
            if unlinked
            then answer (save (revoke_loaded now admin w))
            else raised session_revoke_failed)
          st' done in
      let (held, own) = locked_state-Holds now source st w read in
      (
        w,
        held,
        own,
        revoked_work unlinked (save (revoke_loaded now admin w)) st' e,
        Advances-Keeps w (revoke_loaded now admin w) (revoke_loaded-Advances now admin w)
            (Holds-IsExclusive st w h held) (Holds-HasUniqueAttempts st w h held),
      )

  pub revoke_session-Moves : Moves st st'
  revoke_session-Moves =
      let (w, held, _, same, keeps) = revocation in
      subst (Moves st) same (commit-Moves st w h held (revoke_loaded now admin w) keeps)

  pub revoke_session-rises :
      session_generation source st.sessions < session_generation source st'.sessions
  unfolding revoke_loaded
  revoke_session-rises =
      let (w, held, own, same, keeps) = revocation in
      let at = saved_generation st w h held (revoke_loaded now admin w) keeps source in
      subst (λ x. session_generation source st.sessions < session_generation source x.sessions) same
        (ground (
          arith,
          at,
          own,
          eqb_refl source,
          held_generation st w h held,
          ap (λ k. session_generation k st.sessions) own,
        ))

pub get_qr-Moves :
    (decrypt : List ℕ → Option (List ℕ)) (now k : ℕ) (st : SessionStore)
    → IsSound st
    → Moves st (get_qr decrypt now k st).1
unfolding get_qr
get_qr-Moves decrypt now k st h = go (load_attempt now k st) refl
  where
    read :
        (w : Work) (o : Option (List ℕ))
        → Moves st (save w)
        → Moves st (read_image decrypt o w st).1
    read w none saved = saved
    read w (some image) saved = elim (Option-cases (decrypt image)) [
      | inl e ↦ rw (read_image, e) (Moves-refl st h)
      | inr (png, e) ↦ rw (read_image, e) saved
    ]

    go :
        (r : Reply SessionError (LoginAttempt × Work))
        → load_attempt now k st ≡ r
        → Moves st (answer_qr decrypt st r).1
    go (raised x) e = Moves-refl st h
    go (answer (a, w)) e =
        read w (if shows_qr a w.0 then a.encrypted_qr else none)
          (Loads-Moves now k st a w w h (load_attempt-Loads now k st a w h e) (still_Keeps w))
