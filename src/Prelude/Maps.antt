-- ===== src/Prelude/Maps.antt =====
-- Updates of all rows that pass a test, and what they do to the counts of rows.
use Prim.Native.Nat.{◌+◌, ◌≤◌}
use mathlib.Core.Path.{◌≡◌, refl}
use mathlib.Core.Bool.{Bool, true, false}
use mathlib.Core.List.{List, [], ◌∷◌, map}
use native.Mathlib.Omega.{arith}
use market_mind.Prelude.Tests.{if◌then◌else◌}
use market_mind.Prelude.Lists.{count, select, length}

module _ {A : Type 0} where
  -- an `update` statement: the rows that pass the test are changed
  abbrev pub change_all : (A → Bool) → (A → A) → List A → List A
  change_all e f = map (λ a. if e a then f a else a)

  pub count-map_le :
      (p : A → Bool) (f : A → A) (xs : List A)
      → ((x : A) → p (f x) ≡ true → p x ≡ true)
      → count p (map f xs) ≤ count p xs
  count-map_le p f [] h = omega arith
  count-map_le p f (x ∷ xs) h = ground (arith, h x, count-map_le p f xs h)

  pub count-map_same :
      (p : A → Bool) (f : A → A) (xs : List A)
      → ((x : A) → p (f x) ≡ p x)
      → count p (map f xs) ≡ count p xs
  count-map_same p f [] h = refl
  count-map_same p f (x ∷ xs) h = ground (arith, h x, count-map_same p f xs h)

  pub count-select : (e : A → Bool) (xs : List A) → length (select e xs) ≡ count e xs
  count-select e [] = refl
  count-select e (x ∷ xs) = ground (arith, count-select e xs)

  -- a change that makes no row pass a test raises no count
  pub count-change_all_le :
      (p e : A → Bool) (f : A → A) (xs : List A)
      → ((x : A) → p (f x) ≡ true → p x ≡ true)
      → count p (change_all e f xs) ≤ count p xs
  count-change_all_le p e f [] h = omega arith
  count-change_all_le p e f (x ∷ xs) h = ground (arith, h x, count-change_all_le p e f xs h)

  pub count-change_all_same :
      (p e : A → Bool) (f : A → A) (xs : List A)
      → ((x : A) → p (f x) ≡ p x)
      → count p (change_all e f xs) ≡ count p xs
  count-change_all_same p e f [] h = refl
  count-change_all_same p e f (x ∷ xs) h = ground (arith, h x, count-change_all_same p e f xs h)

  -- rows that pass a test, and that the change makes fail it, are no longer counted
  pub count-change_all_split :
      (p e : A → Bool) (f : A → A) (xs : List A)
      → ((x : A) → e x ≡ true → p x ≡ true)
      → ((x : A) → p (f x) ≡ false)
      → count p (change_all e f xs) + count e xs ≡ count p xs
  count-change_all_split p e f [] h k = refl
  count-change_all_split p e f (x ∷ xs) h k =
      ground (arith, h x, k x, count-change_all_split p e f xs h k)
