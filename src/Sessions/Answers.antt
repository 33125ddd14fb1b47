-- ===== src/Sessions/Answers.antt =====
-- From work to commit: a transaction whose work keeps the invariant leaves a sound store.
use market_mind.Prelude.{ℕ, ◌≡◌, subst, Bool, inl, inr, arith}
use market_mind.Replies.{answer, and_then-answer}
use market_mind.Sessions.{
  SessionStore, Work, attempt_identity, locked_state, save, transact, Commit, rolled_back,
  committed, commit, transact_or_roll_back,
}
use market_mind.Sessions.Advance.{Advances, IsExclusive, HasUniqueAttempts}
use market_mind.Sessions.Jobs.{CommitsAdvance}
use market_mind.Sessions.Keeping.{Keeps, Advances-Keeps}
use market_mind.Sessions.Commits.{
  IsSound, Moves, Holds, locked_state-Holds, Holds-IsExclusive, Holds-HasUniqueAttempts,
  commit-Moves,
}

pub Advances-Keeps_trans : (u v w : Work) → Advances u v → Keeps v w → Keeps u w
Advances-Keeps_trans u v w a b = record {
  same_source = cc;
  same_sessions = cc;
  no_earlier = omega (arith, a.no_earlier, b.no_earlier);
  exclusive = b.exclusive;
  unique = b.unique;
  others = λ k g.
      let (l, m, _) = a.fades k g in
      elim (b.others k g) [
        | inl e ↦ inl cc
        | inr (l', m') ↦ inr (omega (arith, l, l'), omega (arith, m, m'))
      ];
}

-- the commit of a transaction whose work keeps the invariant
pub transact-Moves :
    {A : Type 0} (step : Work → A × Work) (now source : ℕ) (st st' : SessionStore) (r : A)
    → ((w : Work) → IsExclusive w → HasUniqueAttempts w.1.attempts → Keeps w (step w).1)
    → IsSound st
    → transact step now source st ≡ answer (r, st')
    → Moves st st'
unfolding transact
transact-Moves step now source st st' r keeps h done =
    let (w, read, e) =
      and_then-answer (locked_state now source st) (λ w. let r = step w in answer (r.0, save r.1))
        (r, st') done in
    let (held, _) = locked_state-Holds now source st w read in
    let same : save (step w).1 ≡ st' = cc in
    subst (Moves st) same (
      commit-Moves st w h held (step w).1
        (keeps w (Holds-IsExclusive st w h held) (Holds-HasUniqueAttempts st w h held)))

pub Moves-refl : (st : SessionStore) → IsSound st → Moves st st
Moves-refl st h = record { sound = h; later = λ k. omega arith }

pub transact_or_roll_back-Moves :
    (step : Work → Commit) (now source : ℕ) (st st' : SessionStore) (r : Bool)
    → ((w : Work) → IsExclusive w → CommitsAdvance w (step w))
    → IsSound st
    → transact_or_roll_back step now source st ≡ answer (r, st')
    → Moves st st'
unfolding transact_or_roll_back
transact_or_roll_back-Moves step now source st st' r advances h done =
    let (w, read, e) =
      and_then-answer (locked_state now source st) (λ w. answer (commit st (step w))) (r, st')
        done in
    let (held, _) = locked_state-Holds now source st w read in
    let same : (commit st (step w)).1 ≡ st' = cc in
    subst (Moves st) same (go w held (step w) (advances w (Holds-IsExclusive st w h held)))
  where
    go : (w : Work) → Holds st w → (c : Commit) → CommitsAdvance w c → Moves st (commit st c).1
    go w held rolled_back _ = Moves-refl st h
    go w held (committed b w') a = commit-Moves st w h held w' (
        Advances-Keeps w w' a (Holds-IsExclusive st w h held) (Holds-HasUniqueAttempts st w h held))
