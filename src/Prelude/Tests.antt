-- ===== src/Prelude/Tests.antt =====
-- Boolean tests on the native numbers, the conditional, and what the code does with `None`.
use Prim.Native.Nat.{ℕ, zero, suc, ◌≤◌, ◌<◌, ◌^◌, compare, Ordering}
use mathlib.Core.Path.{◌≡◌, refl}
use mathlib.Core.Logic.{◌⊎◌, inl, inr}
use mathlib.Core.Bool.{Bool, true, false}
use mathlib.Core.Option.{Option, none, some}
use native.Mathlib.Omega.{arith}

abbrev pub ltb : ℕ → ℕ → Bool
ltb a b = elim (compare a b) [ Ordering.lt ↦ true | _ ↦ false ]

abbrev pub leb : ℕ → ℕ → Bool
leb a b = elim (compare a b) [ Ordering.gt ↦ false | _ ↦ true ]

infix 50 ◌==◌
abbrev pub ◌==◌ : ℕ → ℕ → Bool
a == b = elim (compare a b) [ Ordering.eq ↦ true | _ ↦ false ]

infix 1 if◌then◌else◌
abbrev pub if◌then◌else◌ {ℓ} : {A : Type ℓ} → Bool → A → A → A
if true then x else _ = x
if false then _ else y = y

pub ltb→lt : (a b : ℕ) → ltb a b ≡ true → a < b
ltb→lt a b h = ground arith

pub leb→le : (a b : ℕ) → leb a b ≡ true → a ≤ b
leb→le a b h = ground arith

pub eqb→eq : (a b : ℕ) → (a == b) ≡ true → a ≡ b
eqb→eq a b h = ground arith

pub eqb_refl : (a : ℕ) → (a == a) ≡ true
eqb_refl a = ground arith

pub Bool-cases : (b : Bool) → (b ≡ true) ⊎ (b ≡ false)
Bool-cases true = inl refl
Bool-cases false = inr refl

pub Option-cases {ℓ} : {A : Type ℓ} (o : Option A) → (o ≡ none) ⊎ ((a : A) × (o ≡ some a))
Option-cases none = inl refl
Option-cases (some a) = inr (a, refl)

module _ {ℓ} {A : Type ℓ} where
  -- `o is not None`
  abbrev pub is_some : Option A → Bool
  is_some none = false
  is_some (some _) = true

  -- `o or d`, and the `get` of a key with a default
  abbrev pub get_or : Option A → A → A
  get_or none d = d
  get_or (some a) _ = a

-- `o == some k`
abbrev pub holds : Option ℕ → ℕ → Bool
holds none _ = false
holds (some a) k = a == k

-- `o and o > t`: a time that is set and lies after `t`
abbrev pub after : Option ℕ → ℕ → Bool
after none _ = false
after (some a) t = ltb t a

-- a time column compared with `<= t`; a NULL compares as false
abbrev pub due : Option ℕ → ℕ → Bool
due none _ = false
due (some a) t = leb a t

pub two_power : (k : ℕ) → 1 ≤ 2 ^ k
two_power zero = omega arith
two_power (suc k) = omega (arith, two_power k)
