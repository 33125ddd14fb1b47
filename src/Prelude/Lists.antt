-- ===== src/Prelude/Lists.antt =====
-- Lists measured by native numbers, counts of the members that pass a test, and sorting.
use Prim.Native.Nat.{ℕ, suc, ◌+◌, ◌≤◌}
use mathlib.Core.Path.{◌≡◌, refl}
use mathlib.Core.Bool.{Bool, true, false, ◌||◌}
use mathlib.Core.List.{List, [], ◌∷◌, ◌++◌}
use mathlib.Core.Option.{Option, none, some}
use native.Mathlib.Omega.{arith}
use market_mind.Prelude.Tests.{if◌then◌else◌}

module _ {ℓ} {A : Type ℓ} where
  abbrev pub length : List A → ℕ
  length [] = 0
  length (_ ∷ xs) = suc (length xs)

  abbrev pub any : (A → Bool) → List A → Bool
  any p [] = false
  any p (x ∷ xs) = p x || any p xs

  -- the members that pass the test, in order: a `where` clause or a comprehension
  abbrev pub select : (A → Bool) → List A → List A
  select p [] = []
  select p (x ∷ xs) = let rest = select p xs in if p x then x ∷ rest else rest

  abbrev pub head? : List A → Option A
  head? [] = none
  head? (x ∷ _) = some x

  -- how many members pass the test
  abbrev pub count : (A → Bool) → List A → ℕ
  count p [] = 0
  count p (x ∷ xs) = (if p x then 1 else 0) + count p xs

  abbrev pub All {κ} : (A → Type κ) → List A → Type κ
  All P [] = Unit
  All P (x ∷ xs) = P x × All P xs

  -- `order by`, by insertion; `before x y` says that x is to stand before y
  insert_by : (A → A → Bool) → A → List A → List A
  insert_by before x [] = x ∷ []
  insert_by before x (y ∷ ys) = if before y x then y ∷ insert_by before x ys else x ∷ y ∷ ys

  unfoldable pub order_by : (A → A → Bool) → List A → List A
  unfolding insert_by
  order_by before [] = []
  order_by before (x ∷ xs) = insert_by before x (order_by before xs)

module _ {ℓ} {A : Type ℓ} where
  pub length-append : (xs ys : List A) → length (xs ++ ys) ≡ length xs + length ys
  length-append [] ys = omega arith
  length-append (x ∷ xs) ys = omega (arith, length-append xs ys)

  pub any-last : (p : A → Bool) (xs : List A) (x : A) → p x ≡ true → any p (xs ++ (x ∷ [])) ≡ true
  any-last p [] x h = ground arith
  any-last p (y ∷ ys) x h = ground (arith, any-last p ys x h)

  pub count-append : (p : A → Bool) (xs ys : List A) → count p (xs ++ ys) ≡ count p xs + count p ys
  count-append p [] ys = omega arith
  count-append p (x ∷ xs) ys = omega (arith, count-append p xs ys)

  -- nothing passes a test that no member passes
  pub count_of_none : (p : A → Bool) (xs : List A) → any p xs ≡ false → count p xs ≡ 0
  count_of_none p [] h = refl
  count_of_none p (x ∷ xs) h = ground (arith, count_of_none p xs)

  pub count_mono :
      (p q : A → Bool) (xs : List A) → ((x : A) → p x ≡ true → q x ≡ true) → count p xs ≤ count q xs
  count_mono p q [] h = omega arith
  count_mono p q (x ∷ xs) h = ground (arith, h x, count_mono p q xs h)

  insert_by-count :
      (before : A → A → Bool) (p : A → Bool) (x : A) (ys : List A)
      → count p (insert_by before x ys) ≡ count p (x ∷ ys)
  unfolding insert_by
  insert_by-count before p x [] = refl
  insert_by-count before p x (y ∷ ys) = ground (arith, insert_by-count before p x ys)

  -- sorting loses and invents nothing
  pub order_by-count :
      (before : A → A → Bool) (p : A → Bool) (xs : List A)
      → count p (order_by before xs) ≡ count p xs
  unfolding order_by
  order_by-count before p [] = refl
  order_by-count before p (x ∷ xs) =
      ground (arith, insert_by-count before p x (order_by before xs), order_by-count before p xs)

  insert_by-All {κ} :
      (P : A → Type κ) (before : A → A → Bool) (x : A) (ys : List A)
      → P x
      → All P ys
      → All P (insert_by before x ys)
  unfolding insert_by
  insert_by-All P before x [] p h = (p, tt)
  insert_by-All P before x (y ∷ ys) p h =
      split (before y x) (h.0, insert_by-All P before x ys p h.1) (p, h)
    where
      split :
          (b : Bool)
          → All P (y ∷ insert_by before x ys)
          → All P (x ∷ y ∷ ys)
          → All P (if b then y ∷ insert_by before x ys else x ∷ y ∷ ys)
      split true u v = u
      split false u v = v

  -- what holds of all members holds of all members in order
  pub order_by-All {κ} :
      (P : A → Type κ) (before : A → A → Bool) (xs : List A) → All P xs → All P (order_by before xs)
  unfolding order_by
  order_by-All P before [] h = tt
  order_by-All P before (x ∷ xs) h =
      insert_by-All P before x (order_by before xs) h.0 (order_by-All P before xs h.1)

  pub All-map {κ μ} :
      (P : A → Type κ) (Q : A → Type μ) (xs : List A) → ((x : A) → P x → Q x) → All P xs → All Q xs
  All-map P Q [] f h = tt
  All-map P Q (x ∷ xs) f h = (f x h.0, All-map P Q xs f h.1)

  -- what a query selects passes its test
  pub select-All : (p : A → Bool) (xs : List A) → All (λ x. p x ≡ true) (select p xs)
  select-All p [] = tt
  select-All p (x ∷ xs) = go (p x) refl (select-All p xs)
    where
      go :
          (b : Bool)
          → p x ≡ b
          → All (λ y. p y ≡ true) (select p xs)
          → All (λ y. p y ≡ true) (if b then x ∷ select p xs else select p xs)
      go true e rest = (e, rest)
      go false e rest = rest

  pub All-both {κ μ} :
      (P : A → Type κ) (Q : A → Type μ) (xs : List A)
      → All P xs
      → All Q xs
      → All (λ x. P x × Q x) xs
  All-both P Q [] h k = tt
  All-both P Q (x ∷ xs) h k = ((h.0, k.0), All-both P Q xs h.1 k.1)
