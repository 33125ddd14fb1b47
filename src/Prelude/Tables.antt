-- ===== src/Prelude/Tables.antt =====
-- A table of rows with an integer key, as the session of an ORM sees it: rows are read by key,
-- and an assignment to a row's attributes is written back to the row of that key.
use Prim.Native.Nat.{ℕ, ◌+◌, ◌≤◌}
use mathlib.Core.Path.{◌≡◌, refl, ap}
use mathlib.Core.Bool.{Bool, true, false, ◌&&◌, not}
use mathlib.Core.List.{List, [], ◌∷◌}
use mathlib.Core.Option
use mathlib.Core.Option.{Option, none, some}
use native.Mathlib.Omega.{arith}
use market_mind.Prelude.Tests.{if◌then◌else◌, ◌==◌, eqb_refl}
use market_mind.Prelude.Lists.{count, length}

-- the mixin `Identity`: every row has an `id`
pub record Identity (A : Type 0) : Type 0 where
  pub id : A → ℕ

module _ {A : Type 0} ⦃i : Identity A⦄ where
  -- `db.get(Model, key)`
  abbrev pub find : ℕ → List A → Option A
  find k [] = none
  find k (x ∷ xs) = if i.id x == k then some x else find k xs

  -- an assignment to attributes of the row with this key
  abbrev pub modify : ℕ → (A → A) → List A → List A
  modify k f [] = []
  modify k f (x ∷ xs) = (if i.id x == k then f x else x) ∷ modify k f xs

  -- how many rows have this key
  abbrev pub rows_of : ℕ → List A → ℕ
  rows_of k = count (λ x. i.id x == k)

  pub find-modify :
      (j k : ℕ) (f : A → A) (xs : List A)
      → ((x : A) → i.id (f x) ≡ i.id x)
      → find j (modify k f xs) ≡ (if k == j then Option.map f (find j xs) else find j xs)
  find-modify j k f [] keep = ground arith
  find-modify j k f (x ∷ xs) keep = ground (arith, keep x, find-modify j k f xs keep)

  -- a changed row is found as it was changed
  pub find-modify_same :
      (k : ℕ) (f : A → A) (xs : List A) (x : A)
      → ((y : A) → i.id (f y) ≡ i.id y)
      → find k xs ≡ some x
      → find k (modify k f xs) ≡ some (f x)
  find-modify_same k f xs x keep h = rw (find-modify k k f xs keep, eqb_refl k, h) refl

  pub rows_of-modify :
      (j k : ℕ) (f : A → A) (xs : List A)
      → ((x : A) → i.id (f x) ≡ i.id x)
      → rows_of j (modify k f xs) ≡ rows_of j xs
  rows_of-modify j k f [] keep = refl
  rows_of-modify j k f (x ∷ xs) keep = ground (arith, keep x, rows_of-modify j k f xs keep)

  pub length-modify : (k : ℕ) (f : A → A) (xs : List A) → length (modify k f xs) ≡ length xs
  length-modify k f [] = refl
  length-modify k f (x ∷ xs) = ground (arith, length-modify k f xs)

  -- a change that lets no new row pass a test raises no count
  pub count-modify_le :
      (p : A → Bool) (k : ℕ) (f : A → A) (xs : List A)
      → ((x : A) → p (f x) ≡ true → p x ≡ true)
      → count p (modify k f xs) ≤ count p xs
  count-modify_le p k f [] h = omega arith
  count-modify_le p k f (x ∷ xs) h = ground (arith, h x, count-modify_le p k f xs h)

  -- whatever a change does, it adds at most the rows with its key
  pub count-modify_add :
      (p : A → Bool) (k : ℕ) (f : A → A) (xs : List A)
      → count p (modify k f xs) ≤ count (λ x. p x && not (i.id x == k)) xs + rows_of k xs
  count-modify_add p k f [] = omega arith
  count-modify_add p k f (x ∷ xs) = ground (arith, count-modify_add p k f xs)

module _ {A : Type 0} ⦃i : Identity A⦄ where
  pub find-id : (k : ℕ) (xs : List A) (x : A) → find k xs ≡ some x → i.id x ≡ k
  find-id k [] x h = cc
  find-id k (y ∷ ys) x h = ground (arith, find-id k ys x)

  count-modify_absent :
      (p : A → Bool) (k : ℕ) (f : A → A) (xs : List A)
      → rows_of k xs ≡ 0
      → count p (modify k f xs) ≡ count (λ x. p x && not (i.id x == k)) xs
  count-modify_absent p k f [] h = refl
  count-modify_absent p k f (x ∷ xs) h = ground (arith, count-modify_absent p k f xs)

  -- where a key has one row, a change of that row counts for this row alone
  pub count-modify :
      (p : A → Bool) (k : ℕ) (f : A → A) (xs : List A) (x : A)
      → find k xs ≡ some x
      → rows_of k xs ≤ 1
      → count p (modify k f xs)
        ≡ count (λ y. p y && not (i.id y == k)) xs + (if p (f x) then 1 else 0)
  count-modify p k f [] x h u = cc
  count-modify p k f (y ∷ ys) x h u =
      ground (arith, count-modify_absent p k f ys, count-modify p k f ys x)

module _ {A : Type 0} ⦃i : Identity A⦄ where
  modify-same : (k : ℕ) (xs : List A) → modify k (λ x. x) xs ≡ xs
  modify-same k [] = refl
  modify-same k (x ∷ xs) = ground (arith, modify-same k xs)

  -- a change of one row that does not make it pass a test raises no count
  pub count-modify_row :
      (p : A → Bool) (k : ℕ) (f : A → A) (xs : List A) (x : A)
      → find k xs ≡ some x
      → rows_of k xs ≤ 1
      → (p (f x) ≡ true → p x ≡ true)
      → count p (modify k f xs) ≤ count p xs
  count-modify_row p k f xs x found unique h =
      rw (count-modify p k f xs x found unique) (
        ground
          (arith, ap (count p) (modify-same k xs), count-modify p k (λ y. y) xs x found unique))

  -- a change that makes the one row of its key fail a test takes it out of the count
  pub count-modify_fail :
      (p : A → Bool) (k : ℕ) (f : A → A) (xs : List A) (x : A)
      → find k xs ≡ some x
      → rows_of k xs ≤ 1
      → p x ≡ true
      → p (f x) ≡ false
      → count p (modify k f xs) + 1 ≡ count p xs
  count-modify_fail p k f xs x found unique pass fail = ground (
    arith,
    ap (count p) (modify-same k xs),
    count-modify p k f xs x found unique,
    count-modify p k (λ y. y) xs x found unique,
  )

  -- the row of a key replaced
  pub find-replace :
      (j : ℕ) (row : A) (xs : List A)
      → find j (modify (i.id row) (λ _. row) xs)
        ≡ (if i.id row == j then Option.map (λ _. row) (find j xs) else find j xs)
  find-replace j row [] = ground arith
  find-replace j row (x ∷ xs) = ground (arith, find-replace j row xs)
