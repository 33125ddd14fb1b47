-- ===== src/Sessions/Commits.antt =====
-- From the work of one transaction to the store of all sessions: what `locked_state` reads, and
-- what the commit writes back.
use market_mind.Prelude.{
  ℕ, ◌≤◌, ◌==◌, ◌≡◌, refl, ap, sym, subst, ◌∙◌, Option, none, some, inl, inr, List, [], ◌∷◌, ◌++◌,
  arith, if◌then◌else◌, find, find-replace, find-id, find-append_missing, eqb→eq, eqb_refl,
  Bool-cases, Option-cases,
}
use market_mind.Replies.{answer, and_then-answer}
use market_mind.Sessions.{
  SourceSession, SessionStore, Work, session_identity, attempt_identity, locked_state, session_row,
  check_source, new_session, save,
}
use market_mind.Sessions.Advance.{IsExclusive, HasUniqueAttempts, live, strays}
use market_mind.Sessions.Keeping.{Keeps}

-- the generation of a session that may have no row yet
abbrev pub generation_in : Option SourceSession → ℕ
generation_in none = 0
generation_in (some s) = s.generation

abbrev pub session_generation : ℕ → List SourceSession → ℕ
session_generation k sessions = generation_in (find k sessions)

-- Attempts have their own identifiers, each source has one live attempt at most, and that attempt
-- is at the generation of the source's session.
pub record IsSound (st : SessionStore) : Type 0 where
  pub unique : HasUniqueAttempts st.attempts
  pub one_live : (k : ℕ) → live k st.attempts ≤ 1
  pub current : (k : ℕ) → strays k (session_generation k st.sessions) st.attempts ≡ 0

-- A store that is sound, with no session at an earlier generation than before.
pub record Moves (st st' : SessionStore) : Type 0 where
  pub sound : IsSound st'
  pub later : (k : ℕ) → session_generation k st.sessions ≤ session_generation k st'.sessions

-- What a transaction that has read its session's row holds of the store.
pub record Holds (st : SessionStore) (w : Work) : Type 0 where
  pub attempts : w.1.attempts ≡ st.attempts
  pub generations : (k : ℕ) → session_generation k w.1.sessions ≡ session_generation k st.sessions
  pub own : find w.0.source_id w.1.sessions ≡ some w.0

-- a session without a row counts as one at generation 0
session_generation-append :
    (k : ℕ) (s : SourceSession) (xs : List SourceSession)
    → s.generation ≡ 0
    → session_generation k (xs ++ (s ∷ [])) ≡ session_generation k xs
session_generation-append k s [] fresh = ground (arith, fresh)
session_generation-append k s (x ∷ xs) fresh =
    ground (arith, session_generation-append k s xs fresh)

pub session_row-Holds : (now source : ℕ) (st : SessionStore) → Holds st (session_row now source st)
unfolding session_row
session_row-Holds now source st = elim (Option-cases (find source st.sessions)) [
  | inr (s, e) ↦
      rw (session_row, e)
        (record {
          attempts = refl;
          generations = λ k. refl;
          own = subst (λ k. find k st.sessions ≡ some s) (sym (find-id source st.sessions s e)) e;
        })
  | inl e ↦
      rw (session_row, e)
        (record {
          attempts = refl;
          generations = λ k. session_generation-append k (new_session now source) st.sessions refl;
          own = find-append_missing source (new_session now source) st.sessions e refl;
        })
]

pub session_row-source_id :
    (now source : ℕ) (st : SessionStore) → (session_row now source st).0.source_id ≡ source
unfolding session_row
session_row-source_id now source st = elim (Option-cases (find source st.sessions)) [
  | inr (s, e) ↦ rw (session_row, e) (find-id source st.sessions s e)
  | inl e ↦ rw (session_row, e) refl
]

-- The row that the transaction holds is the only thing `locked_state` changes.
pub locked_state-Holds :
    (now source : ℕ) (st : SessionStore) (w : Work)
    → locked_state now source st ≡ answer w
    → Holds st w × (w.0.source_id ≡ source)
unfolding locked_state
locked_state-Holds now source st w done =
    let (_, _, e) =
      and_then-answer (check_source source st.ledger) (λ _. answer (session_row now source st)) w
        done in
    let same : session_row now source st ≡ w = cc in
    subst (λ v. Holds st v × (v.0.source_id ≡ source)) same
      (session_row-Holds now source st, session_row-source_id now source st)

module _ (st : SessionStore) (w : Work) (h : IsSound st) (held : Holds st w) where
  -- the row's generation is the store's
  pub held_generation : session_generation w.0.source_id st.sessions ≡ w.0.generation
  held_generation = sym (held.generations w.0.source_id) ∙ ap generation_in held.own

  pub Holds-IsExclusive : IsExclusive w
  Holds-IsExclusive =
      let one = h.one_live w.0.source_id in
      let none_stray = h.current w.0.source_id in
      (rw held.attempts one, rw (held.attempts, sym held_generation) none_stray)

  pub Holds-HasUniqueAttempts : HasUniqueAttempts w.1.attempts
  Holds-HasUniqueAttempts = rw held.attempts h.unique

  -- after the commit, the session of the transaction is the row it wrote
  pub saved_generation :
      (w' : Work)
      → Keeps w w'
      → (k : ℕ)
      → session_generation k (save w').sessions
        ≡ (if w.0.source_id == k then w'.0.generation else session_generation k st.sessions)
  saved_generation w' keeps k =
      let before = held.generations k in
      ground (
        arith,
        before,
        keeps.same_source,
        keeps.same_sessions,
        held.own,
        find-replace k w'.0 w'.1.sessions,
        eqb→eq w.0.source_id k,
      )

  pub commit-Moves : (w' : Work) → Keeps w w' → Moves st (save w')
  commit-Moves w' keeps = record {
    sound = record {
      unique = keeps.unique;
      one_live = λ k. elim (keeps.others k 0) [
        | inl own ↦ rw (own, sym keeps.same_source) keeps.exclusive.0
        | inr (l, _) ↦ omega (arith, l, h.one_live k, ap (live k) held.attempts)
      ];
      current = λ k. strays_saved k;
    };
    later = λ k. ground (
      arith,
      saved_generation w' keeps k,
      keeps.no_earlier,
      held_generation,
      eqb→eq w.0.source_id k,
    );
  }
    where
      strays_saved : (k : ℕ) → strays k (session_generation k (save w').sessions) w'.1.attempts ≡ 0
      strays_saved k = rw (saved_generation w' keeps k) (elim (Bool-cases (w.0.source_id == k)) [
        | inl own ↦ rw own (
            subst (λ j. strays j w'.0.generation w'.1.attempts ≡ 0)
              (keeps.same_source ∙ eqb→eq w.0.source_id k own) keeps.exclusive.1)
        | inr other ↦ rw other (elim (keeps.others k (session_generation k st.sessions)) [
          | inl own ↦ absurd (ground (arith, own, other, eqb_refl k))
          | inr (_, m) ↦ omega (
            arith,
            m,
            h.current k,
            ap (strays k (session_generation k st.sessions)) held.attempts,
          )
        ])
      ])
