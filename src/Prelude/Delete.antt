-- ===== src/Prelude/Delete.antt =====
-- What a DELETE leaves of each query.
use Prim.Native.Nat.{ℕ, ◌+◌, ◌≤◌}
use mathlib.Core.Path.{◌≡◌, refl, subst}
use mathlib.Core.Logic.{inl, inr}
use mathlib.Core.Bool.{Bool, true, false, ◌&&◌, ◌||◌}
use mathlib.Core.List.{List, [], ◌∷◌}
use mathlib.Core.Option.{none, some}
use native.Mathlib.Omega.{arith}
use package.arqs.Prelude.Tests.{if◌then◌else◌, Bool-cases}
use package.arqs.Prelude.Rows.{
  length, has_row, find_row, count_rows, sum_rows, select_rows, delete_rows, All,
}

module _ {ℓ} {A : Type ℓ} (p : A → Bool) where
  -- A query that no deleted row answers has the answer that it had.
  pub find_row-delete :
      (q : A → Bool) (xs : List A)
      → has_row (λ x. p x && q x) xs ≡ false
      → find_row q (delete_rows p xs) ≡ find_row q xs
  find_row-delete q [] h = refl
  find_row-delete q (x ∷ xs) h = ground (arith, find_row-delete q xs)

  pub has_row-delete :
      (q : A → Bool) (xs : List A)
      → has_row (λ x. p x && q x) xs ≡ false
      → has_row q (delete_rows p xs) ≡ has_row q xs
  has_row-delete q [] h = refl
  has_row-delete q (x ∷ xs) h = ground (arith, has_row-delete q xs)

  pub has_row-delete_none :
      (q : A → Bool) (xs : List A) → has_row q xs ≡ false → has_row q (delete_rows p xs) ≡ false
  has_row-delete_none q [] h = refl
  has_row-delete_none q (x ∷ xs) h = ground (arith, has_row-delete_none q xs)

  pub count_rows-delete-le :
      (q : A → Bool) (xs : List A) → count_rows q (delete_rows p xs) ≤ count_rows q xs
  count_rows-delete-le q [] = omega arith
  count_rows-delete-le q (x ∷ xs) = ground (arith, count_rows-delete-le q xs)

  pub count_rows-select-delete-le :
      (act q : A → Bool) (xs : List A)
      → count_rows q (select_rows act (delete_rows p xs)) ≤ count_rows q (select_rows act xs)
  count_rows-select-delete-le act q [] = omega arith
  count_rows-select-delete-le act q (x ∷ xs) = ground (arith, count_rows-select-delete-le act q xs)

  pub sum_rows-select-delete-le :
      (act q : A → Bool) (f : A → ℕ) (xs : List A)
      → sum_rows q f (select_rows act (delete_rows p xs)) ≤ sum_rows q f (select_rows act xs)
  sum_rows-select-delete-le act q f [] = omega arith
  sum_rows-select-delete-le act q f (x ∷ xs) = ground (arith, sum_rows-select-delete-le act q f xs)

  -- The row count of a DELETE is what the table loses.
  pub length-delete_rows : (xs : List A) → count_rows p xs + length (delete_rows p xs) ≡ length xs
  length-delete_rows [] = omega arith
  length-delete_rows (x ∷ xs) = ground (arith, length-delete_rows xs)

  pub All-delete {κ} : (P : A → Type κ) (xs : List A) → All P xs → All P (delete_rows p xs)
  All-delete P [] h = tt
  All-delete P (x ∷ xs) h = keep_or_drop (p x) h.0 (All-delete P xs h.1)
    where
      keep_or_drop :
          (b : Bool)
          → P x
          → All P (delete_rows p xs)
          → All P (if b then delete_rows p xs else x ∷ delete_rows p xs)
      keep_or_drop true hx rest = rest
      keep_or_drop false hx rest = (hx, rest)

module _ {ℓ} {A : Type ℓ} where
  pub delete_rows-congr :
      (p q : A → Bool) (xs : List A) → All (λ x. p x ≡ q x) xs → delete_rows p xs ≡ delete_rows q xs
  delete_rows-congr p q [] h = refl
  delete_rows-congr p q (x ∷ xs) h = ground (arith, delete_rows-congr p q xs h.1, h.0)

  pub select_rows-delete :
      (p q : A → Bool) (xs : List A)
      → select_rows q (delete_rows p xs) ≡ delete_rows p (select_rows q xs)
  select_rows-delete p q [] = refl
  select_rows-delete p q (x ∷ xs) = ground (arith, select_rows-delete p q xs)

  pub delete_rows-delete :
      (p q : A → Bool) (xs : List A)
      → delete_rows p (delete_rows q xs) ≡ delete_rows (λ x. q x || p x) xs
  delete_rows-delete p q [] = refl
  delete_rows-delete p q (x ∷ xs) = ground (arith, delete_rows-delete p q xs)

  pub find_row-delete_imp :
      (p q : A → Bool) (xs : List A)
      → All (λ x. q x ≡ true → p x ≡ true) xs
      → find_row q (delete_rows p xs) ≡ none
  find_row-delete_imp p q [] h = refl
  find_row-delete_imp p q (x ∷ xs) h = ground (arith, find_row-delete_imp p q xs h.1, h.0)

  pub All-select {κ} :
      (P : A → Type κ) (q : A → Bool) (xs : List A) → All P xs → All P (select_rows q xs)
  All-select P q [] h = tt
  All-select P q (x ∷ xs) h = keep_or_drop (q x) h.0 (All-select P q xs h.1)
    where
      keep_or_drop :
          (b : Bool)
          → P x
          → All P (select_rows q xs)
          → All P (if b then x ∷ select_rows q xs else select_rows q xs)
      keep_or_drop true hx rest = (hx, rest)
      keep_or_drop false hx rest = rest

  pub find_row-All {κ} :
      (P : A → Type κ) (q : A → Bool) (xs : List A) (x : A)
      → All P xs
      → find_row q xs ≡ some x
      → P x
  find_row-All P q [] x h e = absurd (cc)
  find_row-All P q (y ∷ xs) x h e = elim (Bool-cases (q y)) [
    | inl hit ↦ subst P (ground arith) h.0
    | inr miss ↦ find_row-All P q xs x h.1 (ground arith)
  ]

  pub find_row-holds : (q : A → Bool) (xs : List A) (x : A) → find_row q xs ≡ some x → q x ≡ true
  find_row-holds q [] x e = cc
  find_row-holds q (y ∷ xs) x e = ground (arith, find_row-holds q xs x)

  pub find_row-has_row :
      (q : A → Bool) (xs : List A) (x : A) → find_row q xs ≡ some x → has_row q xs ≡ true
  find_row-has_row q [] x e = cc
  find_row-has_row q (y ∷ xs) x e = ground (arith, find_row-has_row q xs x)
