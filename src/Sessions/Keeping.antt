-- ===== src/Sessions/Keeping.antt =====
-- A transaction of a session that keeps its source exclusive and the other sources alone: new
-- logins, cancellations and revocations.
use market_mind.Prelude.{
  ℕ, ◌≤◌, ◌==◌, ◌≡◌, refl, subst, some, ◌⊎◌, inl, inr, List, [], ◌∷◌, ◌++◌, map, arith, find,
  count-append, count_mono, rows_of_fresh, count-modify_fail, eqb→eq, Bool-cases,
}
use market_mind.Runtime.{Uuid4}
use market_mind.Sessions.{
  SourceSession, LoginAttempt, SessionStore, Work, AttemptError, attempt_identity, is_live,
  is_live_of, expire_attempts, LoginRequest, queued_attempt, replace_attempt, reopen, cancel_live,
  cancel_loaded, cancel_row, revoke_loaded,
}
use market_mind.Sessions.Advance.{
  Advances, Advances-IsExclusive, IsExclusive, HasUniqueAttempts, live, strays, is_stray, Fades,
  Fades-trans,
}
use market_mind.Sessions.Expiry.{expire_attempts-Advances, cancel_live-live, cancel_live-Fades}
use market_mind.Sessions.Jobs.{modify-Fades, still-Advances}

-- What a commit needs of a transaction's work.
pub record Keeps (w w' : Work) : Type 0 where
  pub same_source : w'.0.source_id ≡ w.0.source_id
  pub same_sessions : w'.1.sessions ≡ w.1.sessions
  pub no_earlier : w.0.generation ≤ w'.0.generation
  pub exclusive : IsExclusive w'
  pub unique : HasUniqueAttempts w'.1.attempts
  pub others :
      (k g : ℕ)
      → (k ≡ w.0.source_id)
        ⊎ ((live k w'.1.attempts ≤ live k w.1.attempts)
            × (strays k g w'.1.attempts ≤ strays k g w.1.attempts))

pub Fades-HasUniqueAttempts :
    (xs ys : List LoginAttempt) → Fades xs ys → HasUniqueAttempts xs → HasUniqueAttempts ys
Fades-HasUniqueAttempts xs ys f unique k = let (_, _, same) = f k 0 in omega (arith, same, unique k)

pub Advances-Keeps :
    (w w' : Work) → Advances w w' → IsExclusive w → HasUniqueAttempts w.1.attempts → Keeps w w'
Advances-Keeps w w' a h unique = record {
  same_source = a.same_source;
  same_sessions = a.same_sessions;
  no_earlier = a.no_earlier;
  exclusive = Advances-IsExclusive w w' a h;
  unique = Fades-HasUniqueAttempts w.1.attempts w'.1.attempts a.fades unique;
  others = λ k g. let (l, m, _) = a.fades k g in inr (l, m);
}

pub revoke_loaded-Advances : (now admin : ℕ) (w : Work) → Advances w (revoke_loaded now admin w)
unfolding revoke_loaded
revoke_loaded-Advances now admin (s, st) = record {
  same_source = refl;
  same_sessions = refl;
  no_earlier = omega arith;
  fades = cancel_live-Fades now s.source_id AttemptError.session_revoked st;
  ends = inr (cancel_live-live now s.source_id AttemptError.session_revoked st);
}

pub cancel_loaded-Advances :
    (now admin : ℕ) (a : LoginAttempt) (w : Work)
    → IsExclusive w
    → HasUniqueAttempts w.1.attempts
    → find a.attempt_id w.1.attempts ≡ some a
    → a.source_id ≡ w.0.source_id
    → Advances w (cancel_loaded now admin a w)
unfolding cancel_loaded
cancel_loaded-Advances now admin a (s, st) h unique found own =
    elim (Bool-cases (is_live a.status)) [
      | inr over ↦ rw over (still-Advances (s, st) (s, st) refl refl refl refl)
      | inl alive ↦ rw alive (record {
        same_source = ground arith;
        same_sessions = refl;
        no_earlier = ground arith;
        fades =
            modify-Fades a.attempt_id (cancel_row now) st.attempts a found (unique a.attempt_id)
              alive (λ row. (refl, refl, refl));
        ends = inr (
            ground (
              arith,
              own,
              alive,
              h.0,
              count-modify_fail (is_live_of s.source_id) a.attempt_id (cancel_row now) st.attempts a
                  found (unique a.attempt_id),
            ));
      })
    ]

-- no attempt of the source is live in the list to which a new login is added
replaced :
    (now : ℕ) (w : Work)
    → IsExclusive w
    → live w.0.source_id
        (cancel_live now
          (expire_attempts now w).0.source_id
          AttemptError.superseded
          (expire_attempts now w).1).attempts
      ≡ 0
replaced now w h =
    let w' = expire_attempts now w in
    subst (λ k. live k (cancel_live now w'.0.source_id AttemptError.superseded w'.1).attempts ≡ 0)
      (expire_attempts-Advances now w h).same_source
      (cancel_live-live now w'.0.source_id AttemptError.superseded w'.1)

replaced-Fades :
    (now : ℕ) (w : Work)
    → IsExclusive w
    → Fades w.1.attempts
        (cancel_live now
          (expire_attempts now w).0.source_id
          AttemptError.superseded
          (expire_attempts now w).1).attempts
replaced-Fades now w h =
    let w' = expire_attempts now w in
    Fades-trans w.1.attempts w'.1.attempts
      (cancel_live now w'.0.source_id AttemptError.superseded w'.1).attempts
      (expire_attempts-Advances now w h).fades
      (cancel_live-Fades now w'.0.source_id AttemptError.superseded w'.1)

added-HasUniqueAttempts :
    (uuid : Uuid4) (xs : List LoginAttempt) (a : LoginAttempt)
    → a.attempt_id ≡ uuid.draw (map (λ x. x.attempt_id) xs)
    → HasUniqueAttempts xs
    → HasUniqueAttempts (xs ++ (a ∷ []))
added-HasUniqueAttempts uuid xs a drawn unique k =
    let none_at =
      rows_of_fresh a.attempt_id xs (rw drawn (uuid.draw_fresh (map (λ x. x.attempt_id) xs))) in
    ground (arith, none_at, unique k, count-append (λ x. x.attempt_id == k) xs (a ∷ []))

strays_le : (k g : ℕ) (xs : List LoginAttempt) → strays k g xs ≤ live k xs
strays_le k g xs = count_mono (is_stray k g) (is_live_of k) xs (λ x. ground arith)

-- one attempt at the session's generation, where no other is live
alone-IsExclusive :
    (s : SourceSession) (st : SessionStore) (xs : List LoginAttempt) (a : LoginAttempt)
    → live s.source_id xs ≡ 0
    → a.generation ≡ s.generation
    → st.attempts ≡ xs ++ (a ∷ [])
    → IsExclusive (s, st)
alone-IsExclusive s st xs a over current adds =
    let few = strays_le s.source_id s.generation xs in
    (
      ground (arith, adds, over, count-append (is_live_of s.source_id) xs (a ∷ [])),
      ground (
        arith,
        adds,
        over,
        few,
        current,
        count-append (is_stray s.source_id s.generation) xs (a ∷ []),
      ),
    )

-- a new login, where no attempt of its source is live
add_login-Keeps :
    (uuid : Uuid4) (w : Work) (s : SourceSession) (xs : List LoginAttempt) (st : SessionStore)
    (a : LoginAttempt)
    → s.source_id ≡ w.0.source_id
    → w.0.generation ≤ s.generation
    → st.sessions ≡ w.1.sessions
    → Fades w.1.attempts xs
    → live w.0.source_id xs ≡ 0
    → HasUniqueAttempts w.1.attempts
    → a.attempt_id ≡ uuid.draw (map (λ x. x.attempt_id) xs)
    → a.source_id ≡ s.source_id
    → a.generation ≡ s.generation
    → st.attempts ≡ xs ++ (a ∷ [])
    → Keeps w (s, st)
add_login-Keeps uuid w s xs st a same grows sessions fades over unique drawn own current adds =
    record {
      same_source = same;
      same_sessions = sessions;
      no_earlier = grows;
      exclusive = alone-IsExclusive s st xs a (rw same over) current adds;
      unique = rw adds (
          added-HasUniqueAttempts uuid xs a drawn
            (Fades-HasUniqueAttempts w.1.attempts xs fades unique));
      others = λ k g.
          let (l, m, _) = fades k g in
          elim (Bool-cases (s.source_id == k)) [
            | inl e ↦ inl (ground (arith, same, eqb→eq s.source_id k e))
            | inr e ↦ inr (
              ground (arith, adds, l, e, own, count-append (is_live_of k) xs (a ∷ [])),
              ground (arith, adds, m, e, own, count-append (is_stray k g) xs (a ∷ [])),
            )
          ];
    }

pub replace_attempt-Keeps :
    (uuid : Uuid4) (now : ℕ) (q : LoginRequest) (w : Work)
    → IsExclusive w
    → HasUniqueAttempts w.1.attempts
    → Keeps w (replace_attempt uuid now q w).1
unfolding replace_attempt
replace_attempt-Keeps uuid now q w h unique =
    let w' = expire_attempts now w in
    let first = expire_attempts-Advances now w h in
    let xs = (cancel_live now w'.0.source_id AttemptError.superseded w'.1).attempts in
    let s = reopen now w'.0 in
    add_login-Keeps uuid w s xs (replace_attempt uuid now q w).1.1
      (queued_attempt now (uuid.draw (map (λ x. x.attempt_id) xs)) q s) first.same_source
      (omega (arith, first.no_earlier)) first.same_sessions (replaced-Fades now w h)
      (replaced now w h) unique refl refl refl refl
