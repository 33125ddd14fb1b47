-- ===== src/Sessions/Loading.antt =====
-- What `_get_attempt` reads.
use market_mind.Prelude.{
  ℕ, ◌≡◌, refl, sym, subst, ◌∙◌, Bool, some, inl, inr, List, [], ◌∷◌, arith, find, change_all,
  Option-cases,
}
use market_mind.Replies.{answer, and_then, and_then-answer}
use market_mind.Sessions.{
  LoginAttempt, SessionStore, Work, attempt_identity, locked_state, load_attempt, reload,
  expire_attempts, is_expired_of, expire,
}
use market_mind.Sessions.Expiry.{expire_attempts-Advances}
use market_mind.Sessions.Commits.{IsSound, Holds, locked_state-Holds, Holds-IsExclusive}

find-change_all :
    (k : ℕ) (e : LoginAttempt → Bool) (f : LoginAttempt → LoginAttempt) (xs : List LoginAttempt)
    (row a : LoginAttempt)
    → ((x : LoginAttempt) → (f x).attempt_id ≡ x.attempt_id)
    → ((x : LoginAttempt) → (f x).source_id ≡ x.source_id)
    → find k xs ≡ some row
    → find k (change_all e f xs) ≡ some a
    → a.source_id ≡ row.source_id
find-change_all k e f [] row a keep same found after = cc
find-change_all k e f (x ∷ xs) row a keep same found after =
    ground (arith, keep x, same x, find-change_all k e f xs row a keep same)

-- What `_get_attempt` answers: the session's row is held, what is due has expired, and the attempt
-- is one of this source.
pub record Loads (now k : ℕ) (st : SessionStore) (a : LoginAttempt) (w : Work) : Type 0 where
  pub before : Work
  pub held : Holds st before
  pub expired : expire_attempts now before ≡ w
  pub found : find k w.1.attempts ≡ some a
  pub own : a.source_id ≡ w.0.source_id

reload-answer :
    (now k : ℕ) (w v : Work) (a : LoginAttempt)
    → reload now k w ≡ answer (a, v)
    → (expire_attempts now w ≡ v) × (find k (expire_attempts now w).1.attempts ≡ some a)
unfolding reload
reload-answer now k w v a done = (ground arith, ground arith)

expire_attempts-row :
    (now k : ℕ) (w : Work) (row a : LoginAttempt)
    → find k w.1.attempts ≡ some row
    → find k (expire_attempts now w).1.attempts ≡ some a
    → a.source_id ≡ row.source_id
unfolding expire_attempts
expire_attempts-row now k (s, st) row a found after =
    find-change_all k (is_expired_of now s.source_id) (expire now) st.attempts row a (λ x. refl)
      (λ x. refl) found after

pub load_attempt-Loads :
    (now k : ℕ) (st : SessionStore) (a : LoginAttempt) (w : Work)
    → IsSound st
    → load_attempt now k st ≡ answer (a, w)
    → Loads now k st a w
unfolding load_attempt
load_attempt-Loads now k st a w h done = elim (Option-cases (find k st.attempts)) [
  | inl e ↦ absurd (ground arith)
  | inr (row, e) ↦
      let chain : and_then (locked_state now row.source_id st) (reload now k) ≡ answer (a, w) =
        ground arith in
      let (u, read, last) =
        and_then-answer (locked_state now row.source_id st) (reload now k) (a, w) chain in
      let (held, source) = locked_state-Holds now row.source_id st u read in
      let (same, found) = reload-answer now k u w a last in
      let advances = expire_attempts-Advances now u (Holds-IsExclusive st u h held) in
      let row_before : find k u.1.attempts ≡ some row = rw held.attempts e in
      record {
        before = u;
        held = held;
        expired = same;
        found = subst (λ v. find k v.1.attempts ≡ some a) same found;
        own =
            subst (λ v. a.source_id ≡ v.0.source_id) same
              (expire_attempts-row now k u row a row_before found
                ∙ sym source
                ∙ sym advances.same_source);
      }
]
