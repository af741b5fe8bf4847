-- ===== src/Prelude/Rows.antt =====
-- A table is the list of its rows. These are the queries and updates that the SQL of the program
-- is made of: WHERE, COUNT, SUM, UPDATE, DELETE, ORDER BY ... ASC and LIMIT.
use Prim.Native.Nat.{ℕ, zero, suc, ◌+◌}
use mathlib.Core.Bool.{Bool, false, ◌||◌}
use mathlib.Core.Option.{Option, none, some}
use mathlib.Core.List.{List, [], ◌∷◌}
use package.arqs.Prelude.Tests.{leb, if◌then◌else◌}

module _ {ℓ} {A : Type ℓ} where
  abbrev pub length : List A → ℕ
  length [] = 0
  length (x ∷ xs) = suc (length xs)

  abbrev pub take : ℕ → List A → List A
  take zero rows = []
  take (suc limit) (row ∷ rows) = row ∷ take limit rows
  take (suc limit) [] = []

  -- The first row that the test accepts.
  abbrev pub find_row : (A → Bool) → List A → Option A
  find_row p [] = none
  find_row p (x ∷ xs) = if p x then some x else find_row p xs

  abbrev pub has_row : (A → Bool) → List A → Bool
  has_row p [] = false
  has_row p (x ∷ xs) = p x || has_row p xs

  abbrev pub select_rows : (A → Bool) → List A → List A
  select_rows p [] = []
  select_rows p (x ∷ xs) = let rest = select_rows p xs in if p x then x ∷ rest else rest

  abbrev pub delete_rows : (A → Bool) → List A → List A
  delete_rows p [] = []
  delete_rows p (x ∷ xs) = let rest = delete_rows p xs in if p x then rest else x ∷ rest

  abbrev pub update_rows : (A → Bool) → (A → A) → List A → List A
  update_rows p f [] = []
  update_rows p f (x ∷ xs) = (if p x then f x else x) ∷ update_rows p f xs

  abbrev pub count_rows : (A → Bool) → List A → ℕ
  count_rows p [] = 0
  count_rows p (x ∷ xs) = (if p x then 1 else 0) + count_rows p xs

  abbrev pub sum_rows : (A → Bool) → (A → ℕ) → List A → ℕ
  sum_rows p f [] = 0
  sum_rows p f (x ∷ xs) = (if p x then f x else 0) + sum_rows p f xs

  -- Stable insertion by a key.
  abbrev pub insert_by : (A → ℕ) → A → List A → List A
  insert_by k x [] = x ∷ []
  insert_by k x (y ∷ ys) = if leb (k x) (k y) then x ∷ y ∷ ys else y ∷ insert_by k x ys

  abbrev pub order_by : (A → ℕ) → List A → List A
  order_by k [] = []
  order_by k (x ∷ xs) = insert_by k x (order_by k xs)

  -- ORDER BY ... DESC; rows with equal keys stay in the order of the table.
  abbrev pub insert_by_desc : (A → ℕ) → A → List A → List A
  insert_by_desc k x [] = x ∷ []
  insert_by_desc k x (y ∷ ys) = if leb (k y) (k x) then x ∷ y ∷ ys else y ∷ insert_by_desc k x ys

  abbrev pub order_by_desc : (A → ℕ) → List A → List A
  order_by_desc k [] = []
  order_by_desc k (x ∷ xs) = insert_by_desc k x (order_by_desc k xs)

-- Every row has the property.
abbrev pub All {ℓ κ} : {Row : Type ℓ} → (Row → Type κ) → List Row → Type κ
All Holds (row ∷ rows) = Holds row × All Holds rows
All Holds [] = Unit
