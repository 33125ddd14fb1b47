-- ===== src/Prelude/Totals.antt =====
-- Sums over the rows of a table, what holds of all its rows, and rows that a query puts first.
use Prim.Native.Nat.{ℕ, ◌+◌, ◌≤◌}
use mathlib.Core.Path.{◌≡◌, refl, sym, subst}
use mathlib.Core.Bool.{Bool, true, false}
use mathlib.Core.List.{List, [], ◌∷◌}
use mathlib.Core.Option.{some}
use native.Mathlib.Omega.{arith}
use market_mind.Prelude.Tests.{if◌then◌else◌, ◌==◌}
use market_mind.Prelude.Lists.{All, All-both, head?, select, select-All, order_by, order_by-All}
use market_mind.Prelude.Tables.{Identity, find, modify, rows_of}
use market_mind.Prelude.Held.{AreHeld-All, AreUnique, select-AreHeld}

module _ {A : Type 0} where
  abbrev pub sum_of : (A → ℕ) → List A → ℕ
  sum_of f [] = 0
  sum_of f (x ∷ xs) = f x + sum_of f xs

  pub All-head {κ} : (P : A → Type κ) (xs : List A) (x : A) → All P xs → head? xs ≡ some x → P x
  All-head P [] x h e = absurd cc
  All-head P (y ∷ ys) x h e = go (cc) h.0
    where
      go : y ≡ x → P y → P x
      go same p = subst P same p

module _ {A : Type 0} ⦃i : Identity A⦄ where
  sum_of-absent :
      (f : A → ℕ) (k : ℕ) (g : A → A) (xs : List A)
      → rows_of k xs ≡ 0
      → sum_of f (modify k g xs) ≡ sum_of f xs
  sum_of-absent f k g [] h = refl
  sum_of-absent f k g (x ∷ xs) h = ground (arith, sum_of-absent f k g xs)

  -- where a key has one row, a change of that row changes a sum by what the row contributes
  pub sum_of-modify :
      (f : A → ℕ) (k : ℕ) (g : A → A) (xs : List A) (x : A)
      → find k xs ≡ some x
      → rows_of k xs ≤ 1
      → sum_of f (modify k g xs) + f x ≡ sum_of f xs + f (g x)
  sum_of-modify f k g [] x found unique = absurd cc
  sum_of-modify f k g (y ∷ ys) x found unique =
      ground (arith, sum_of-absent f k g ys, sum_of-modify f k g ys x)

  All-absent {κ} :
      (P : A → Type κ) (k : ℕ) (g : A → A) (xs : List A)
      → rows_of k xs ≡ 0
      → All P xs
      → All P (modify k g xs)
  All-absent P k g [] none_at h = tt
  All-absent P k g (x ∷ xs) none_at h =
      go (i.id x == k) refl (All-absent P k g xs (ground arith) h.1)
    where
      go :
          (b : Bool)
          → (i.id x == k) ≡ b
          → All P (modify k g xs)
          → P (if b then g x else x) × All P (modify k g xs)
      go true e rest = absurd (ground arith)
      go false e rest = (h.0, rest)

  -- what holds of all rows holds after a change of the one row of a key, if it holds of that row
  pub All-modify {κ} :
      (P : A → Type κ) (k : ℕ) (g : A → A) (xs : List A) (x : A)
      → find k xs ≡ some x
      → rows_of k xs ≤ 1
      → P (g x)
      → All P xs
      → All P (modify k g xs)
  All-modify P k g [] x found unique p h = tt
  All-modify P k g (y ∷ ys) x found unique p h =
      go (i.id y == k) refl (λ f u. All-modify P k g ys x f u p h.1)
    where
      go :
          (b : Bool)
          → (i.id y == k) ≡ b
          → (find k ys ≡ some x → rows_of k ys ≤ 1 → All P (modify k g ys))
          → P (if b then g y else y) × All P (modify k g ys)
      go true e rest =
          let same : y ≡ x = ground arith in
          (subst (λ z. P (g z)) (sym same) p, All-absent P k g ys (ground arith) h.1)
      go false e rest = (h.0, rest (ground arith) (ground arith))

  -- the first row of a sorted query passes the query's test and is the table's row of its key
  pub first_row :
      (before : A → A → Bool) (p : A → Bool) (xs : List A) (x : A)
      → AreUnique xs
      → head? (order_by before (select p xs)) ≡ some x
      → (p x ≡ true) × (find (i.id x) xs ≡ some x)
  first_row before p xs x unique e =
      All-head (λ y. (p y ≡ true) × (find (i.id y) xs ≡ some y)) (order_by before (select p xs)) x
        (order_by-All (λ y. (p y ≡ true) × (find (i.id y) xs ≡ some y)) before (select p xs)
          (All-both (λ y. p y ≡ true) (λ y. find (i.id y) xs ≡ some y) (select p xs)
            (select-All p xs) (AreHeld-All xs (select p xs) (select-AreHeld p xs unique))))
        e
