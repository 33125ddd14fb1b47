-- ===== src/Prelude/Held.antt =====
-- Rows that a session holds: read from a table, distinct, and still as the table has them.
use Prim.Native.Nat.{ℕ, ◌≤◌}
use mathlib.Core.Path.{◌≡◌, refl}
use mathlib.Core.Logic.{◌≢◌}
use mathlib.Core.Bool.{Bool, true, false}
use mathlib.Core.List.{List, [], ◌∷◌, ◌++◌, map}
use mathlib.Core.Option.{none, some}
use native.Mathlib.Omega.{arith}
use market_mind.Prelude.Tests.{if◌then◌else◌, eqb_refl, ◌==◌}
use market_mind.Prelude.Lists.{All, any, head?, select}
use market_mind.Prelude.Tables.{Identity, find, rows_of}

module _ {A : Type 0} ⦃i : Identity A⦄ where
  -- `rows` are distinct rows of the table
  abbrev pub AreHeld : List A → List A → Type 0
  AreHeld table [] = Unit
  AreHeld table (x ∷ xs) =
      (find (i.id x) table ≡ some x) × (rows_of (i.id x) xs ≡ 0) × AreHeld table xs

  abbrev pub AreUnique : List A → Type 0
  AreUnique table = (k : ℕ) → rows_of k table ≤ 1

  pub find-rows_of : (k : ℕ) (xs : List A) (x : A) → find k xs ≡ some x → 1 ≤ rows_of k xs
  find-rows_of k [] x h = cc
  find-rows_of k (y ∷ ys) x h = ground (arith, find-rows_of k ys x)

  -- a table that differs at one key only still holds the rows of the other keys
  pub AreHeld-change :
      (k : ℕ) (table table' rows : List A)
      → ((j : ℕ) → j ≢ k → find j table' ≡ find j table)
      → rows_of k rows ≡ 0
      → AreHeld table rows
      → AreHeld table' rows
  AreHeld-change k table table' [] same absent held = tt
  AreHeld-change k table table' (x ∷ xs) same absent (found, distinct, rest) = (
    ground (arith, same (i.id x)),
    distinct,
    AreHeld-change k table table' xs same (ground arith) rest,
  )

module _ {A : Type 0} ⦃i : Identity A⦄ where
  rows_of-select : (p : A → Bool) (k : ℕ) (xs : List A) → rows_of k (select p xs) ≤ rows_of k xs
  rows_of-select p k [] = omega arith
  rows_of-select p k (x ∷ xs) = ground (arith, rows_of-select p k xs)

  AreHeld-cons :
      (x : A) (table rows : List A)
      → rows_of (i.id x) table ≡ 0
      → AreHeld table rows
      → AreHeld (x ∷ table) rows
  AreHeld-cons x table [] absent held = tt
  AreHeld-cons x table (y ∷ ys) absent (found, distinct, rest) =
      (ground (arith, find-rows_of (i.id y) table y), distinct, AreHeld-cons x table ys absent rest)

  unique_tail : (x : A) (xs : List A) → AreUnique (x ∷ xs) → AreUnique xs
  unique_tail x xs h k = omega (arith, h k)

  unique_head : (x : A) (xs : List A) → AreUnique (x ∷ xs) → rows_of (i.id x) xs ≡ 0
  unique_head x xs h = ground (arith, h (i.id x))

  -- what a query selects from a table is held
  pub select-AreHeld :
      (p : A → Bool) (table : List A) → AreUnique table → AreHeld table (select p table)
  select-AreHeld p [] h = tt
  select-AreHeld p (x ∷ xs) h = go (p x) (
      AreHeld-cons x xs (select p xs) (unique_head x xs h)
        (select-AreHeld p xs (unique_tail x xs h)))
    where
      go :
          (b : Bool)
          → AreHeld (x ∷ xs) (select p xs)
          → AreHeld (x ∷ xs) (if b then x ∷ select p xs else select p xs)
      go false held = held
      go true held = (
        ground (arith, eqb_refl (i.id x)),
        ground (arith, unique_head x xs h, rows_of-select p (i.id x) xs),
        held,
      )

  -- a row that is added under a new key is found under it
  pub find-append_new :
      (x : A) (xs : List A) → rows_of (i.id x) xs ≡ 0 → find (i.id x) (xs ++ (x ∷ [])) ≡ some x
  find-append_new x [] h = ground (arith, eqb_refl (i.id x))
  find-append_new x (y ∷ ys) h = ground (arith, find-append_new x ys)

  -- the first row that a query selects is a row of the table
  pub head-AreHeld :
      (x : A) (table rows : List A)
      → head? rows ≡ some x
      → AreHeld table rows
      → find (i.id x) table ≡ some x
  head-AreHeld x table [] h held = cc
  head-AreHeld x table (y ∷ ys) h held = ground arith

  pub AreHeld-All :
      (table rows : List A) → AreHeld table rows → All (λ x. find (i.id x) table ≡ some x) rows
  AreHeld-All table [] held = tt
  AreHeld-All table (x ∷ xs) (found, _, rest) = (found, AreHeld-All table xs rest)

  pub find-append_missing :
      (k : ℕ) (x : A) (xs : List A)
      → find k xs ≡ none
      → i.id x ≡ k
      → find k (xs ++ (x ∷ [])) ≡ some x
  find-append_missing k x [] h e = ground arith
  find-append_missing k x (y ∷ ys) h e = ground (arith, find-append_missing k x ys)

  -- a row that is found stays found when rows are added
  pub find-append_old :
      (k : ℕ) (xs ys : List A) (x : A) → find k xs ≡ some x → find k (xs ++ ys) ≡ some x
  find-append_old k [] ys x h = cc
  find-append_old k (y ∷ xs) ys x h = ground (arith, find-append_old k xs ys x)

  pub rows_of_fresh :
      (k : ℕ) (xs : List A) → any (λ j. j == k) (map (λ x. i.id x) xs) ≡ false → rows_of k xs ≡ 0
  rows_of_fresh k [] h = refl
  rows_of_fresh k (x ∷ xs) h = ground (arith, rows_of_fresh k xs)
