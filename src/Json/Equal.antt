-- ===== src/Json/Equal.antt =====
-- A JSON value equals itself, where no dict holds a key twice and no value is NaN.
use arqs.Prelude.{
  String, str_eq, eq_iff, eq_refl, ◌≡◌, refl, Bool, true, false, some, arith, if◌then◌else◌,
  ==_refl,
}
use arqs.Json.{
  nan, ℤ, pos, negsuc, Json, null, bool, int, str, arr, obj, Items, nil, cons, Fields, end, field,
  get_field, count_fields, int_eq, json_eq, items_eq, fields_in, dict_eq,
}

unfoldable pub has_key : String → Fields → Bool
has_key k end = false
has_key k (field j v fs) = if str_eq j k then true else has_key k fs

-- What `json.loads` returns, every dict with each key once, and no NaN.
unfoldable mutual
  pub IsDistinct : Json → Type 0
  IsDistinct (arr xs) = IsDistinctItems xs
  IsDistinct (obj fs) = IsDistinctFields fs
  IsDistinct nan = ⊥
  IsDistinct _ = Unit

  pub IsDistinctItems : Items → Type 0
  IsDistinctItems nil = Unit
  IsDistinctItems (cons x xs) = IsDistinct x × IsDistinctItems xs

  pub IsDistinctFields : Fields → Type 0
  IsDistinctFields end = Unit
  IsDistinctFields (field k v fs) = (has_key k fs ≡ false) × IsDistinct v × IsDistinctFields fs

-- Each field of the first dict is the one that the second holds under its key.
abbrev FoundIn : Fields → Fields → Type 0
FoundIn end gs = Unit
FoundIn (field k v fs) gs = (get_field k gs ≡ some v) × FoundIn fs gs

FoundIn-field :
    (fs gs : Fields) (k : String) (w : Json)
    → has_key k fs ≡ false
    → FoundIn fs gs
    → FoundIn fs (field k w gs)
unfolding has_key get_field
FoundIn-field end gs k w h f = tt
FoundIn-field (field j v fs) gs k w h f =
    (ground (arith, eq_iff k j, eq_iff j k), FoundIn-field fs gs k w (ground (arith)) f.1)

FoundIn-self : (fs : Fields) → IsDistinctFields fs → FoundIn fs fs
unfolding IsDistinct get_field
FoundIn-self end d = tt
FoundIn-self (field k v fs) d =
    (rw (eq_refl k) refl, FoundIn-field fs fs k v d.0 (FoundIn-self fs d.2))

int_eq_refl : (n : ℤ) → int_eq n n ≡ true
unfolding int_eq
int_eq_refl (pos a) = ==_refl a
int_eq_refl (negsuc a) = ==_refl a

mutual
  unfolding json_eq IsDistinct

  json_eq_self : (v : Json) → IsDistinct v → json_eq v v ≡ true
  json_eq_self null d = refl
  json_eq_self (bool true) d = refl
  json_eq_self (bool false) d = refl
  json_eq_self (int n) d = int_eq_refl n
  json_eq_self nan d = elim d [ ]
  json_eq_self (str s) d = eq_refl s
  json_eq_self (arr xs) d = items_eq_self xs d
  json_eq_self (obj fs) d =
      rw (==_refl (count_fields fs)) (fields_in_self fs fs d (FoundIn-self fs d))

  items_eq_self : (xs : Items) → IsDistinctItems xs → items_eq xs xs ≡ true
  items_eq_self nil d = refl
  items_eq_self (cons x xs) d = rw (json_eq_self x d.0) (items_eq_self xs d.1)

  fields_in_self : (fs gs : Fields) → IsDistinctFields fs → FoundIn fs gs → fields_in fs gs ≡ true
  fields_in_self end gs d f = refl
  fields_in_self (field k v fs) gs d f = rw (f.0, json_eq_self v d.1) (fields_in_self fs gs d.2 f.1)

pub dict_eq_self : (fs : Fields) → IsDistinctFields fs → dict_eq fs fs ≡ true
unfolding dict_eq
dict_eq_self fs d = rw (==_refl (count_fields fs)) (fields_in_self fs fs d (FoundIn-self fs d))
