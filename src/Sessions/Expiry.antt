-- ===== src/Sessions/Expiry.antt =====
-- The transactions that end attempts in bulk: what has expired, what a worker has lost, and what a
-- new login or a revocation cancels.
use market_mind.Prelude.{
  ℕ, ◌+◌, ◌≤◌, ◌≡◌, refl, ap, Bool, true, false, Option, some, ◌⊎◌, inl, inr, List, [], ◌∷◌, arith,
  select, length, change_all, count-select, count-change_all_split,
}
use market_mind.Sessions.{
  SourceSession, LoginAttempt, SessionStore, Work, AttemptStatus, AttemptError, is_live, is_live_of,
  is_expired_of, expire, end_attempt, expire_attempts, next_generations, expire_session,
  interrupt_attempts, is_browsing_of, cancel_live,
}
use market_mind.Sessions.Advance.{Advances, IsExclusive, IsTame, live, Fades, change_all-Fades}

pub next_generations_le : (xs : List LoginAttempt) (g : ℕ) → g ≤ next_generations xs g
next_generations_le [] g = omega arith
next_generations_le (x ∷ xs) g =
    ground (arith, next_generations_le xs g, next_generations_le xs (g + 1))

pub expire_session-generation :
    (now : ℕ) (xs : List LoginAttempt) (s : SourceSession)
    → (expire_session now xs s).generation ≡ next_generations xs s.generation
expire_session-generation now [] s = refl
expire_session-generation now (x ∷ xs) s = ground arith

pub expire_session-source_id :
    (now : ℕ) (xs : List LoginAttempt) (s : SourceSession)
    → (expire_session now xs s).source_id ≡ s.source_id
expire_session-source_id now [] s = refl
expire_session-source_id now (x ∷ xs) s = ground arith

pub end_attempt-IsTame :
    (now : ℕ) (status : AttemptStatus) (code : Option AttemptError)
    → is_live status ≡ false
    → IsTame (end_attempt now status code)
end_attempt-IsTame now status code over a = (refl, refl, refl, inl over)

-- Where one attempt at most is live, ending the live ones of a test leaves none, or the test found none.
ended :
    (k : ℕ) (e : LoginAttempt → Bool) (f : LoginAttempt → LoginAttempt) (xs : List LoginAttempt)
    → ((x : LoginAttempt) → e x ≡ true → is_live_of k x ≡ true)
    → ((x : LoginAttempt) → is_live (f x).status ≡ false)
    → live k xs ≤ 1
    → (select e xs ≡ []) ⊎ (live k (change_all e f xs) ≡ 0)
ended k e f xs within over one = go (select e xs) refl
  where
    go :
        (found : List LoginAttempt)
        → select e xs ≡ found
        → (select e xs ≡ []) ⊎ (live k (change_all e f xs) ≡ 0)
    go [] q = inl q
    go (y ∷ ys) q = inr (
        omega (
          arith,
          ap length q,
          count-select e xs,
          count-change_all_split (is_live_of k) e f xs within (λ x. ground (arith, over x)),
          one,
        ))

pub expire_attempts-Advances :
    (now : ℕ) (w : Work) → IsExclusive w → Advances w (expire_attempts now w)
unfolding expire_attempts
expire_attempts-Advances now (s, st) h = record {
  same_source = expire_session-source_id now (select (is_expired_of now s.source_id) st.attempts) s;
  same_sessions = refl;
  no_earlier = omega (
    arith,
    expire_session-generation now (select (is_expired_of now s.source_id) st.attempts) s,
    next_generations_le (select (is_expired_of now s.source_id) st.attempts) s.generation,
  );
  fades =
      change_all-Fades (is_expired_of now s.source_id) (expire now) st.attempts
        (end_attempt-IsTame now AttemptStatus.expired (some AttemptError.qr_expired) refl);
  ends =
      elim (ended s.source_id (is_expired_of now s.source_id) (expire now) st.attempts
        (λ x. ground arith) (λ x. refl) h.0) [ inl e ↦ inl (rw e refl) | inr e ↦ inr e ];
}

pub interrupt_attempts-Advances :
    (why : AttemptError) (now : ℕ) (w : Work)
    → IsExclusive w
    → Advances w (interrupt_attempts why now w)
unfolding interrupt_attempts
interrupt_attempts-Advances why now (s, st) h = record {
  same_source = refl;
  same_sessions = refl;
  no_earlier = next_generations_le (select (is_browsing_of s.source_id) st.attempts) s.generation;
  fades =
      change_all-Fades (is_browsing_of s.source_id)
        (end_attempt now AttemptStatus.failed (some why)) st.attempts
        (end_attempt-IsTame now AttemptStatus.failed (some why) refl);
  ends =
      elim (ended s.source_id (is_browsing_of s.source_id)
        (end_attempt now AttemptStatus.failed (some why)) st.attempts (λ x. ground arith)
        (λ x. refl) h.0) [ inl e ↦ inl (rw e refl) | inr e ↦ inr e ];
}

-- no attempt of the source is live once they are cancelled
pub cancel_live-live :
    (now k : ℕ) (why : AttemptError) (st : SessionStore)
    → live k (cancel_live now k why st).attempts ≡ 0
cancel_live-live now k why st = omega (
  arith,
  count-change_all_split (is_live_of k) (is_live_of k)
      (end_attempt now AttemptStatus.cancelled (some why)) st.attempts (λ x h. h)
      (λ x. ground arith),
)

pub cancel_live-Fades :
    (now k : ℕ) (why : AttemptError) (st : SessionStore)
    → Fades st.attempts (cancel_live now k why st).attempts
cancel_live-Fades now k why st =
    change_all-Fades (is_live_of k) (end_attempt now AttemptStatus.cancelled (some why)) st.attempts
      (end_attempt-IsTame now AttemptStatus.cancelled (some why) refl)
