-- ===== src/Prelude/Update.antt =====
-- What an UPDATE leaves of each query.
use mathlib.Core.Path.{◌≡◌, refl}
use mathlib.Core.Bool.{Bool, true, false, not, ◌&&◌}
use mathlib.Core.List.{List, [], ◌∷◌}
use native.Mathlib.Omega.{arith}
use package.arqs.Prelude.Tests.{if◌then◌else◌}
use package.arqs.Prelude.Rows.{length, has_row, update_rows, All}

module _ {ℓ} {A : Type ℓ} (p : A → Bool) (f : A → A) where
  -- A query that an updated row does not answer is answered by the rows left as they were.
  pub has_row-update :
      (q : A → Bool) (xs : List A)
      → ((x : A) → p x ≡ true → q (f x) ≡ false)
      → has_row q (update_rows p f xs) ≡ has_row (λ x. q x && not (p x)) xs
  has_row-update q [] h = refl
  has_row-update q (x ∷ xs) h = ground (arith, has_row-update q xs h, h x)

  -- A query that reads nothing of what is updated.
  pub has_row-update_other :
      (q : A → Bool) (xs : List A)
      → ((x : A) → q (f x) ≡ q x)
      → has_row q (update_rows p f xs) ≡ has_row q xs
  has_row-update_other q [] h = refl
  has_row-update_other q (x ∷ xs) h = ground (arith, has_row-update_other q xs h, h x)

  pub All-update {κ} :
      (P : A → Type κ) (xs : List A)
      → ((x : A) → P x → P (f x))
      → All P xs
      → All P (update_rows p f xs)
  All-update P [] h a = tt
  All-update P (x ∷ xs) h a = (pick (p x) a.0, All-update P xs h a.1)
    where
      pick : (b : Bool) → P x → P (if b then f x else x)
      pick true px = h x px
      pick false px = px

  pub length-update : (xs : List A) → length (update_rows p f xs) ≡ length xs
  length-update [] = refl
  length-update (x ∷ xs) = rw (length-update xs) refl
