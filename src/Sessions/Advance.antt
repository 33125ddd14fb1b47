-- ===== src/Sessions/Advance.antt =====
-- What a transaction on a session may do: live attempts end or stay, the session's generation does
-- not fall, and where it rises no attempt of the source is left alive.
use market_mind.Prelude.{
  ℕ, ◌≤◌, ◌==◌, ◌≡◌, refl, subst, Bool, false, not, ◌&&◌, ◌⊎◌, inl, inr, List, arith, count,
  rows_of, change_all, count-change_all_le, count-change_all_same, count_mono,
}
use market_mind.Sessions.{LoginAttempt, Work, is_live, is_live_of, attempt_identity}

abbrev pub is_stray : ℕ → ℕ → LoginAttempt → Bool
is_stray k g a = is_live_of k a && not (a.generation == g)

-- how many attempts of the source are live
abbrev pub live : ℕ → List LoginAttempt → ℕ
live k = count (is_live_of k)

-- how many of them are not at this generation
abbrev pub strays : ℕ → ℕ → List LoginAttempt → ℕ
strays k g = count (is_stray k g)

-- At most one attempt of the session's source is live, and it is at the session's generation.
abbrev pub IsExclusive : Work → Type 0
IsExclusive (s, st) =
    (live s.source_id st.attempts ≤ 1) × (strays s.source_id s.generation st.attempts ≡ 0)

abbrev pub HasUniqueAttempts : List LoginAttempt → Type 0
HasUniqueAttempts attempts = (k : ℕ) → rows_of k attempts ≤ 1

-- No source gains a live attempt, or one at another generation than before.
abbrev pub Fades : List LoginAttempt → List LoginAttempt → Type 0
Fades old new =
    (k g : ℕ)
    → (live k new ≤ live k old)
      × (strays k g new ≤ strays k g old)
      × (rows_of k new ≡ rows_of k old)

pub Fades-refl : (xs : List LoginAttempt) → Fades xs xs
Fades-refl xs k g = (omega arith, omega arith, refl)

pub Fades-trans : (xs ys zs : List LoginAttempt) → Fades xs ys → Fades ys zs → Fades xs zs
Fades-trans xs ys zs f h k g =
    let (a, b, c) = f k g in
    let (d, e, i) = h k g in (omega (arith, a, d), omega (arith, b, e), omega (arith, c, i))

pub record Advances (w w' : Work) : Type 0 where
  pub same_source : w'.0.source_id ≡ w.0.source_id
  pub same_sessions : w'.1.sessions ≡ w.1.sessions
  pub no_earlier : w.0.generation ≤ w'.0.generation
  pub fades : Fades w.1.attempts w'.1.attempts
  pub ends : (w'.0.generation ≡ w.0.generation) ⊎ (live w.0.source_id w'.1.attempts ≡ 0)

pub Advances-IsExclusive : (w w' : Work) → Advances w w' → IsExclusive w → IsExclusive w'
Advances-IsExclusive (s, st) (s', st') a (one, none_stray) =
    let (l, m, _) = a.fades s.source_id s.generation in
    let few =
      count_mono (is_stray s.source_id s'.generation) (is_live_of s.source_id) st'.attempts
        (λ x h. ground (arith, h)) in
    elim a.ends [
      | inl e ↦ rw (a.same_source, e) (omega (arith, l, one), omega (arith, m, none_stray))
      | inr e ↦ rw a.same_source (omega (arith, l, one), omega (arith, few, e))
    ]

pub Advances-trans : (u v w : Work) → Advances u v → Advances v w → Advances u w
Advances-trans u v w a b = record {
  same_source = cc;
  same_sessions = cc;
  no_earlier = omega (arith, a.no_earlier, b.no_earlier);
  fades = Fades-trans u.1.attempts v.1.attempts w.1.attempts a.fades b.fades;
  ends =
      let (l, _, _) = b.fades u.0.source_id 0 in
      elim b.ends [
        | inr e ↦ inr (subst (λ k. live k w.1.attempts ≡ 0) a.same_source e)
        | inl e ↦ elim a.ends [ inl e' ↦ inl cc | inr e' ↦ inr (omega (arith, l, e')) ]
      ];
}

-- a change that keeps an attempt's keys and revives no attempt
abbrev pub IsTame : (LoginAttempt → LoginAttempt) → Type 0
IsTame f =
    (a : LoginAttempt)
    → ((f a).attempt_id ≡ a.attempt_id)
      × ((f a).source_id ≡ a.source_id)
      × ((f a).generation ≡ a.generation)
      × ((is_live (f a).status ≡ false) ⊎ (is_live (f a).status ≡ is_live a.status))

pub change_all-Fades :
    (e : LoginAttempt → Bool) (f : LoginAttempt → LoginAttempt) (xs : List LoginAttempt)
    → IsTame f
    → Fades xs (change_all e f xs)
change_all-Fades e f xs tame k g = (
  count-change_all_le (is_live_of k) e f xs (λ x. ground (arith, tame x)),
  count-change_all_le (is_stray k g) e f xs (λ x. ground (arith, tame x)),
  count-change_all_same (λ x. x.attempt_id == k) e f xs (λ x. ground (arith, tame x)),
)
