-- ===== src/Replies.antt =====
-- The answer of a handler that may raise `ApiError`, with the error's code as data; a handler that
-- raises leaves its transaction rolled back.
use market_mind.Prelude.{◌≡◌, refl}

pub data Reply (E A : Type 0) : Type 0 where
  raised : E → Reply E A
  answer : A → Reply E A

module _ {E A B : Type 0} where
  -- the steps after one that may raise
  abbrev pub and_then : Reply E A → (A → Reply E B) → Reply E B
  and_then (raised code) next = raised code
  and_then (answer value) next = next value

  -- both steps of a chain that has answered
  pub and_then-answer :
      (first : Reply E A) (next : A → Reply E B) (value : B)
      → and_then first next ≡ answer value
      → (a : A) × (first ≡ answer a) × (next a ≡ answer value)
  and_then-answer (raised code) next value done = cc
  and_then-answer (answer a) next value done = (a, refl, done)
