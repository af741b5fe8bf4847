-- ===== src/Json.antt =====
-- The JSON values of a packet: what `dict[str, Any]` holds after a request is parsed, Python's `==`
-- on them (services.packet_matches), and the size that arqs-server/app/services.py computes with
-- `json.dumps(..., separators=(",", ":"), ensure_ascii=False).encode("utf-8")`. Of the numbers
-- there are the integers and NaN, which `json.loads` also reads and which does not equal itself;
-- other floats are left out. A dict is the list of its fields.
pub mod Equal
use Prim.Native.Char.{code}
use Prim.Native.String
use arqs.Prelude.{
  ℕ, zero, suc, ◌+◌, ◌/◌, String, str_eq, Bool, true, false, ◌&&◌, ◌||◌, Option, none, some, ltb,
  ◌==◌, if◌then◌else◌,
}

-- `negsuc n` is -(n + 1).
pub data ℤ : Type 0 where
  pos : ℕ → ℤ
  negsuc : ℕ → ℤ

mutual
  pub data Json : Type 0 where
    null : Json
    bool : Bool → Json
    int : ℤ → Json
    nan : Json
    str : String → Json
    arr : Items → Json
    obj : Fields → Json

  pub data Items : Type 0 where
    nil : Items
    cons : Json → Items → Items

  pub data Fields : Type 0 where
    end : Fields
    field : String → Json → Fields → Fields

unfoldable pub get_field : String → Fields → Option Json
get_field k end = none
get_field k (field j v fs) = if str_eq j k then some v else get_field k fs

unfoldable pub count_fields : Fields → ℕ
count_fields end = 0
count_fields (field k v fs) = suc (count_fields fs)

-- `not data`, the test of an empty dict.
abbrev pub is_empty : Fields → Bool
is_empty end = true
is_empty (field k v fs) = false

int_eq : ℤ → ℤ → Bool
int_eq (pos a) (pos b) = a == b
int_eq (negsuc a) (negsuc b) = a == b
int_eq _ _ = false

-- `True == 1` and `False == 0` in Python.
abbrev bool_int : Bool → ℤ
bool_int true = pos 1
bool_int false = pos 0

is_int : ℤ → Json → Bool
unfolding int_eq
is_int n (int m) = int_eq n m
is_int n (bool b) = int_eq n (bool_int b)
is_int n _ = false

is_str : String → Json → Bool
is_str s (str t) = str_eq s t
is_str s _ = false

is_null : Json → Bool
is_null null = true
is_null _ = false

abbrev as_items : Json → Option Items
as_items (arr xs) = some xs
as_items _ = none

abbrev as_fields : Json → Option Fields
as_fields (obj fs) = some fs
as_fields _ = none

-- Lists are compared item by item; of dicts, the keys and the value at each key, whatever the order.
unfoldable mutual
  unfolding is_null is_int is_str

  pub json_eq : Json → Json → Bool
  json_eq null w = is_null w
  json_eq (bool b) w = is_int (bool_int b) w
  json_eq (int n) w = is_int n w
  json_eq nan w = false
  json_eq (str s) w = is_str s w
  json_eq (arr xs) w = elim (as_items w) [ none ↦ false | some ys ↦ items_eq xs ys ]
  json_eq (obj fs) w = elim (as_fields w) [
    | none ↦ false
    | some gs ↦ (count_fields fs == count_fields gs) && fields_in fs gs
  ]

  pub items_eq : Items → Items → Bool
  items_eq nil nil = true
  items_eq nil (cons y ys) = false
  items_eq (cons x xs) nil = false
  items_eq (cons x xs) (cons y ys) = json_eq x y && items_eq xs ys

  pub fields_in : Fields → Fields → Bool
  fields_in end gs = true
  fields_in (field k v fs) gs =
      elim (get_field k gs) [ none ↦ false | some w ↦ json_eq v w ] && fields_in fs gs

unfoldable pub dict_eq : Fields → Fields → Bool
unfolding fields_in count_fields
dict_eq fs gs = (count_fields fs == count_fields gs) && fields_in fs gs

-- The bytes that one character takes in a JSON text encoded in UTF-8.
char_size : ℕ → ℕ
char_size c =
    if (c == b'"') || (c == 0x5c) || (c == 8) || (c == 9) || (c == 10) || (c == 12) || (c == 13)
    then 2
    else if ltb c 0x20
    then 6
    else if ltb c 0x80
    then 1
    else if ltb c 0x800
    then 2
    else if ltb c 0x10000
    then 3
    else 4

chars_size : String → ℕ
chars_size String.[] = 0
chars_size (String.◌∷◌ c s) = char_size (code c) + chars_size s

-- Decimal digits; the fuel `suc n` is enough, since a division by 10 makes a positive number smaller.
digit_count : ℕ → ℕ → ℕ
digit_count zero n = 1
digit_count (suc f) n = elim (ltb n 10) [ true ↦ 1 | false ↦ suc (digit_count f (n / 10)) ]

int_size : ℤ → ℕ
int_size (pos n) = digit_count (suc n) n
int_size (negsuc n) = suc (digit_count (suc (suc n)) (suc n))

-- `comma` is 0 before the first entry and 1 before a later one.
unfoldable mutual
  unfolding char_size chars_size digit_count int_size

  pub dumps_size : Json → ℕ
  dumps_size null = 4
  dumps_size (bool b) = if b then 4 else 5
  dumps_size (int n) = int_size n
  dumps_size nan = 3
  dumps_size (str s) = 2 + chars_size s
  dumps_size (arr xs) = 2 + items_size 0 xs
  dumps_size (obj fs) = 2 + fields_size 0 fs

  pub items_size : ℕ → Items → ℕ
  items_size comma nil = 0
  items_size comma (cons x xs) = comma + dumps_size x + items_size 1 xs

  pub fields_size : ℕ → Fields → ℕ
  fields_size comma end = 0
  fields_size comma (field k v fs) =
      comma + (2 + chars_size k) + 1 + dumps_size v + fields_size 1 fs
