-- ===== src/Prelude/Insert.antt =====
-- What a row at the end of a table adds to each query.
use Prim.Native.Nat.{ℕ, ◌+◌}
use mathlib.Core.Path.{◌≡◌, refl}
use mathlib.Core.Bool.{Bool, true, false, ◌||◌}
use mathlib.Core.Option.{some}
use mathlib.Core.List.{List, [], ◌∷◌, ◌++◌}
use native.Mathlib.Omega.{arith}
use package.arqs.Prelude.Tests.{if◌then◌else◌}
use package.arqs.Prelude.Rows.{has_row, find_row, count_rows, sum_rows, select_rows, All}

module _ {ℓ} {A : Type ℓ} (p : A → Bool) where
  pub has_row-insert : (xs : List A) (x : A) → has_row p (xs ++ x ∷ []) ≡ (has_row p xs || p x)
  has_row-insert [] x = ground arith
  has_row-insert (y ∷ xs) x = ground (arith, has_row-insert xs x)

  pub has_row-append : (xs ys : List A) → has_row p (xs ++ ys) ≡ (has_row p xs || has_row p ys)
  has_row-append [] ys = ground arith
  has_row-append (y ∷ xs) ys = ground (arith, has_row-append xs ys)

  -- A row that was there stays.
  pub has_row-insert_old :
      (xs : List A) (x : A) → has_row p xs ≡ true → has_row p (xs ++ x ∷ []) ≡ true
  has_row-insert_old xs x h = ground (arith, has_row-insert xs x)

  pub has_row-insert_new : (xs : List A) (x : A) → p x ≡ true → has_row p (xs ++ x ∷ []) ≡ true
  has_row-insert_new xs x h = ground (arith, has_row-insert xs x)

  pub count_rows-insert :
      (xs : List A) (x : A) → count_rows p (xs ++ x ∷ []) ≡ count_rows p xs + (if p x then 1 else 0)
  count_rows-insert [] x = omega arith
  count_rows-insert (y ∷ xs) x = omega (arith, count_rows-insert xs x)

  pub sum_rows-insert :
      (f : A → ℕ) (xs : List A) (x : A)
      → sum_rows p f (xs ++ x ∷ []) ≡ sum_rows p f xs + (if p x then f x else 0)
  sum_rows-insert f [] x = omega arith
  sum_rows-insert f (y ∷ xs) x = omega (arith, sum_rows-insert f xs x)

  pub find_row-insert_ne :
      (xs : List A) (x : A) → p x ≡ false → find_row p (xs ++ x ∷ []) ≡ find_row p xs
  find_row-insert_ne [] x h = rw h
  find_row-insert_ne (y ∷ xs) x h = rw (find_row-insert_ne xs x h)

  pub find_row-insert_new :
      (xs : List A) (x : A) → has_row p xs ≡ false → p x ≡ true → find_row p (xs ++ x ∷ []) ≡ some x
  find_row-insert_new [] x h e = rw e
  find_row-insert_new (y ∷ xs) x h e = ground (arith, find_row-insert_new xs x)

  pub find_row-insert_old :
      (xs : List A) (x y : A) → find_row p xs ≡ some y → find_row p (xs ++ x ∷ []) ≡ some y
  find_row-insert_old [] x y h = ground arith
  find_row-insert_old (z ∷ xs) x y h = ground (arith, find_row-insert_old xs x y)

  pub select_rows-insert :
      (xs : List A) (x : A)
      → select_rows p (xs ++ x ∷ [])
        ≡ (if p x then select_rows p xs ++ x ∷ [] else select_rows p xs)
  select_rows-insert [] x = refl
  select_rows-insert (y ∷ xs) x = ground (arith, select_rows-insert xs x)

pub All-insert {ℓ κ} :
    {A : Type ℓ} (P : A → Type κ) (xs : List A) (x : A) → All P xs → P x → All P (xs ++ x ∷ [])
All-insert P [] x h hx = (hx, tt)
All-insert P (y ∷ xs) x h hx = (h.0, All-insert P xs x h.1 hx)

pub All-imp {ℓ κ μ} :
    {A : Type ℓ} (P : A → Type κ) (Q : A → Type μ) (xs : List A)
    → ((x : A) → P x → Q x)
    → All P xs
    → All Q xs
All-imp P Q [] f h = tt
All-imp P Q (x ∷ xs) f h = (f x h.0, All-imp P Q xs f h.1)
