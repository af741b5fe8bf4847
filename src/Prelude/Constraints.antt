-- ===== src/Prelude/Constraints.antt =====
-- Foreign keys and primary keys of tables, and what the statements leave of them.
use Prim.Native.Nat.{ℕ}
use mathlib.Core.Path.{◌≡◌, refl, ◌∙◌}
use mathlib.Core.Logic.{inl, inr}
use mathlib.Core.Bool.{Bool, true, false, ◌&&◌}
use mathlib.Core.List.{List, [], ◌∷◌, ◌++◌}
use native.Mathlib.Omega.{arith}
use package.arqs.Prelude.Tests.{is_some, ◌==◌, ==→≡, Bool-cases}
use package.arqs.Prelude.Rows.{find_row, has_row, delete_rows, update_rows, All}
use package.arqs.Prelude.Insert.{has_row-insert, has_row-insert_old, All-imp}
use package.arqs.Prelude.Delete.{has_row-delete, has_row-delete_none}
use package.arqs.Prelude.Update.{has_row-update_other}

-- No two rows have the same key.
abbrev pub HasUnique {ℓ} : {A : Type ℓ} → (A → ℕ) → List A → Type 0
HasUnique key [] = Unit
HasUnique key (x ∷ xs) = (has_row (λ y. key y == key x) xs ≡ false) × HasUnique key xs

module _ {ℓ} {A : Type ℓ} (key : A → ℕ) where
  pub HasUnique-insert :
      (xs : List A) (x : A)
      → has_row (λ y. key y == key x) xs ≡ false
      → HasUnique key xs
      → HasUnique key (xs ++ x ∷ [])
  HasUnique-insert [] x h u = (refl, tt)
  HasUnique-insert (y ∷ xs) x h u = (
    ground (arith, has_row-insert (λ z. key z == key y) xs x, u.0),
    HasUnique-insert xs x (ground arith) u.1,
  )

  pub HasUnique-delete :
      (p : A → Bool) (xs : List A) → HasUnique key xs → HasUnique key (delete_rows p xs)
  HasUnique-delete p [] u = tt
  HasUnique-delete p (x ∷ xs) u = elim (Bool-cases (p x)) [
    | inl b ↦ rw b (HasUnique-delete p xs u.1)
    | inr b ↦ rw b (has_row-delete_none p (λ y. key y == key x) xs u.0, HasUnique-delete p xs u.1)
  ]

  pub HasUnique-update :
      (p : A → Bool) (f : A → A) (xs : List A)
      → ((x : A) → key (f x) ≡ key x)
      → HasUnique key xs
      → HasUnique key (update_rows p f xs)
  HasUnique-update p f [] same u = tt
  HasUnique-update p f (x ∷ xs) same u = (
    elim (Bool-cases (p x)) [
      | inl b ↦
          rw (b, same x)
            (has_row-update_other p f (λ y. key y == key x) xs (λ y. rw (same y) refl) ∙ u.0)
      | inr b ↦
          rw b (has_row-update_other p f (λ y. key y == key x) xs (λ y. rw (same y) refl) ∙ u.0)
    ],
    HasUnique-update p f xs same u.1,
  )

-- FOREIGN KEY: every row of `xs` names a row of `ys`.
abbrev pub Refers {ℓ κ} : {A : Type ℓ} {B : Type κ} → (A → ℕ) → (B → ℕ) → List B → List A → Type 0
Refers key id ys xs = All (λ x. has_row (λ y. id y == key x) ys ≡ true) xs

module _ {ℓ κ} {A : Type ℓ} {B : Type κ} (key : A → ℕ) (id : B → ℕ) where
  pub Refers-insert_target :
      (ys : List B) (y : B) (xs : List A) → Refers key id ys xs → Refers key id (ys ++ y ∷ []) xs
  Refers-insert_target ys y xs =
      All-imp _ _ xs (λ x h. has_row-insert_old (λ z. id z == key x) ys y h)

  pub Refers-update_target :
      (p : B → Bool) (f : B → B) (ys : List B) (xs : List A)
      → ((y : B) → id (f y) ≡ id y)
      → Refers key id ys xs
      → Refers key id (update_rows p f ys) xs
  Refers-update_target p f ys xs same =
      All-imp _ _ xs
        (λ x h. has_row-update_other p f (λ z. id z == key x) ys (λ z. rw (same z) refl) ∙ h)

  -- ON DELETE CASCADE: with the rows of `ys` go at least the rows of `xs` that name one of them.
  pub Refers-cascade :
      (p : B → Bool) (q : A → Bool) (ys : List B) (xs : List A)
      → ((x : A) → q x ≡ false → has_row (λ y. p y && (id y == key x)) ys ≡ false)
      → Refers key id ys xs
      → Refers key id (delete_rows p ys) (delete_rows q xs)
  Refers-cascade p q ys [] taken h = tt
  Refers-cascade p q ys (x ∷ xs) taken h = elim (Bool-cases (q x)) [
    | inl b ↦ rw b (Refers-cascade p q ys xs taken h.1)
    | inr b ↦ rw b (
      has_row-delete p (λ y. id y == key x) ys (taken x b) ∙ h.0,
      Refers-cascade p q ys xs taken h.1,
    )
  ]

pub not_gone {κ} :
    {B : Type κ} (gone : ℕ → Bool) (id : B → ℕ) (a : ℕ) (ys : List B)
    → gone a ≡ false
    → has_row (λ y. gone (id y) && (id y == a)) ys ≡ false
not_gone gone id a [] h = refl
not_gone gone id a (y ∷ ys) h = elim (Bool-cases (id y == a)) [
  | inl e ↦ rw (==→≡ (id y) a e, h) (not_gone gone id a ys h)
  | inr e ↦ ground (arith, not_gone gone id a ys h)
]

pub has_row-is_some {ℓ} :
    {A : Type ℓ} (p : A → Bool) (xs : List A) → has_row p xs ≡ is_some (find_row p xs)
has_row-is_some p [] = refl
has_row-is_some p (x ∷ xs) = ground (arith, has_row-is_some p xs)

pub All-append {ℓ κ} :
    {A : Type ℓ} (P : A → Type κ) (xs ys : List A) → All P xs → All P ys → All P (xs ++ ys)
All-append P [] ys hx hy = hy
All-append P (x ∷ xs) ys hx hy = (hx.0, All-append P xs ys hx.1 hy)
