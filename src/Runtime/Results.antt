-- ===== src/Runtime/Results.antt =====
-- The outcome of a step that may raise `ValueError`, with the reason as data.
use market_mind.Prelude.{◌≡◌, refl, Bool, true, false, if◌then◌else◌}
use market_mind.Ledger.{CommandError}

pub data Result (A : Type 0) : Type 0 where
  err : CommandError → Result A
  ok : A → Result A

-- `if c: raise ValueError(e)`
abbrev pub raise_if : Bool → CommandError → Result (Unit {0})
raise_if true e = err e
raise_if false _ = ok tt

-- A property of the value of a step that succeeds.
abbrev pub Ensures : {A : Type 0} → (A → Type 0) → Result A → Type 0
Ensures P (ok a) = P a
Ensures P (err _) = Unit

infixl 5 ◌>>=◌
abbrev pub ◌>>=◌ : {A B : Type 0} → Result A → (A → Result B) → Result B
m >>= f = elim m [ err e ↦ err e | ok a ↦ f a ]

-- a step of which only the success matters
infixl 5 ◌>>◌
abbrev pub ◌>>◌ : {B : Type 0} → Result (Unit {0}) → Result B → Result B
m >> rest = elim m [ err e ↦ err e | ok _ ↦ rest ]

-- the two steps of a chain that has succeeded
pub >>=-ok :
    {A B : Type 0} (step : Result A) (rest : A → Result B) {value : B}
    → (step >>= rest) ≡ ok value
    → (a : A) × (step ≡ ok a) × (rest a ≡ ok value)
>>=-ok (err e) rest done = cc
>>=-ok (ok a) rest done = (a, refl, done)

pub Ensures->>= :
    {A B : Type 0} (P : A → Type 0) (Q : B → Type 0) (m : Result A) (f : A → Result B)
    → Ensures P m
    → ((a : A) → P a → Ensures Q (f a))
    → Ensures Q (m >>= f)
Ensures->>= P Q (ok a) f h k = k a h
Ensures->>= P Q (err e) f h k = tt

pub Ensures->> :
    {B : Type 0} (Q : B → Type 0) (m : Result (Unit {0})) (k : Result B)
    → Ensures Q k
    → Ensures Q (m >> k)
Ensures->> Q (ok _) k h = h
Ensures->> Q (err e) k h = tt

pub Ensures-any :
    {A B : Type 0} (Q : B → Type 0) (m : Result A) (f : A → Result B)
    → ((a : A) → Ensures Q (f a))
    → Ensures Q (m >>= f)
Ensures-any Q (ok a) f k = k a
Ensures-any Q (err e) f k = tt

pub Ensures-of :
    {A : Type 0} (P : A → Type 0) (m : Result A) → ((a : A) → m ≡ ok a → P a) → Ensures P m
Ensures-of P (ok a) h = h a refl
Ensures-of P (err e) h = tt

pub Ensures-if :
    {A : Type 0} (P : A → Type 0) (b : Bool) (m n : Result A)
    → Ensures P m
    → Ensures P n
    → Ensures P (if b then m else n)
Ensures-if P true m n h k = h
Ensures-if P false m n h k = k
