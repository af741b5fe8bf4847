-- ===== src/Conventions.antt =====
-- apis/arqs_conventions.py: the headers of a packet and how a client reads a body. A header's value is a
-- JSON value; the text of a header is compared as the list of its characters' codes.
pub mod Decode
pub mod Headers
pub mod Receipts
pub mod Render
pub mod RoundTrip
pub mod Views
use arqs.Json.{
  nan, is_empty, obj, negsuc, pos, int, arr, end, null, bool, cons, field, nil, str, get_field,
  Fields, Items, Json,
}
use arqs.Auth.{is_space, strip, text_eq, Text}
use Prim.Native.Char.{code}
use Prim.Native.String
use text.Mathlib.Text.{starts_with}
use arqs.Prelude.{
  ◌==◌, not, ◌+◌, ◌&&◌, false, leb, str_eq, true, ◌∷◌, Bool, List, [], if◌then◌else◌, map, none,
  some, Option, String, ℕ, ◌≡◌,
}

-- str(text)'s characters
abbrev pub codes : String → Text
codes String.[] = []
codes (String.◌∷◌ c s) = code c ∷ codes s

-- What `bytes.decode` does: `unknown_charset` is any error but UnicodeDecodeError.
pub data Decoding : Type 0 where
  decoded : String → Decoding
  undecodable : Decoding
  unknown_charset : Decoding

-- The standard library: `str` of a value that is no text, `str(uuid.UUID(...))`, base64, gzip and the
-- codecs. `none` is the exception.
pub record Python : Type 0 where
  pub repr : Json → String
  pub uuid : String → Option String
  pub b64decode : String → Option (List ℕ)
  pub gunzip : List ℕ → Option (List ℕ)
  pub utf8 : String → Option (List ℕ)
  pub decode : Text → List ℕ → Decoding

-- ASCII only: the words that a header is compared with have no letter that another character's
-- lower case has.
lower_code : ℕ → ℕ
lower_code c = if leb 65 c && leb c 90 then c + 32 else c

-- text.strip().lower()
unfoldable pub word : String → Text
unfolding lower_code
word s = map lower_code (strip (codes s))

unfoldable pub lowered : Text → Text
unfolding lower_code
lowered = map lower_code

-- str(value)
unfoldable pub value_text : Python → Json → String
value_text py (str s) = s
value_text py v = py.repr v

-- _normalize_header_value, of headers.get(name)
unfoldable pub header_value : Python → Option Json → Option String
unfolding value_text
header_value py none = none
header_value py (some null) = none
header_value py (some (str s)) = if str_eq s "" then none else some s
header_value py (some v) = some (value_text py v)

unfoldable pub get_packet_type : Python → Fields → Option String
unfolding header_value
get_packet_type py headers = header_value py (get_field "arqs_type" headers)

-- _normalize_optional_uuid_header_value
unfoldable pub uuid_value : Python → Option String → Option String
uuid_value py none = none
uuid_value py (some s) = py.uuid s

unfoldable pub get_correlation_id : Python → Fields → Option String
unfolding uuid_value header_value
get_correlation_id py headers = uuid_value py (header_value py (get_field "correlation_id" headers))

unfoldable pub get_causation_id : Python → Fields → Option String
unfolding uuid_value header_value
get_causation_id py headers = uuid_value py (header_value py (get_field "causation_id" headers))

unfoldable pub is_receipt_type : Option String → Bool
is_receipt_type none = false
is_receipt_type (some t) = starts_with t "receipt."

unfoldable pub should_ignore_receipt_request : Python → Fields → Bool
unfolding is_receipt_type get_packet_type
should_ignore_receipt_request py headers = is_receipt_type (get_packet_type py headers)

-- str(headers.get("arqs_envelope") or "").strip().lower() == "v1"; `or` passes over every value that is
-- false in Python.
unfoldable pub falsy : Json → Bool
falsy null = true
falsy (bool b) = not b
falsy (int (pos n)) = n == 0
falsy (int (negsuc n)) = false
falsy nan = false
falsy (str s) = str_eq s ""
falsy (arr nil) = true
falsy (arr (cons x xs)) = false
falsy (obj fs) = is_empty fs

unfoldable pub text_or_empty : Python → Option Json → String
unfolding falsy value_text
text_or_empty py none = ""
text_or_empty py (some v) = if falsy v then "" else value_text py v

unfoldable pub is_convention_v1 : Python → Fields → Bool
unfolding word text_or_empty
is_convention_v1 py headers =
    text_eq (word (text_or_empty py (get_field "arqs_envelope" headers))) (codes "v1")

-- headers[key] = value
unfoldable pub set_field : String → Json → Fields → Fields
set_field k v end = field k v end
set_field k v (field j w fs) = if str_eq j k then field j v fs else field j w (set_field k v fs)

strip_text_left : String → String
strip_text_left String.[] = String.[]
strip_text_left (String.◌∷◌ c s) =
    let rest = strip_text_left s in if is_space (code c) then rest else String.◌∷◌ c s

strip_text_right : String → String
strip_text_right String.[] = String.[]
strip_text_right (String.◌∷◌ c s) =
    let rest = strip_text_right s in
    if is_space (code c) && str_eq rest "" then String.[] else String.◌∷◌ c rest

unfoldable pub strip_text : String → String
unfolding strip_text_left strip_text_right
strip_text s = strip_text_left (strip_text_right s)

-- _normalize_receipt_request of a list; any other value counts as the empty list.
unfoldable pub receipt_items : Python → Items → Items
unfolding header_value strip_text
receipt_items py nil = nil
receipt_items py (cons x xs) =
    let rest = receipt_items py xs in
    elim (header_value py (some x)) [
      | none ↦ rest
      | some t ↦ if str_eq (strip_text t) "" then rest else cons (str (strip_text t)) rest
    ]

-- headers["receipt_request"] = ..., if any is left
unfoldable pub set_receipt_request : Items → Fields → Fields
set_receipt_request nil headers = headers
set_receipt_request (cons x xs) headers = set_field "receipt_request" (arr (cons x xs)) headers

-- _normalize_uuid_header_value, and the header if there is one; `none` is the ValueError of a text that
-- is no UUID.
unfoldable pub set_uuid : Python → String → Option String → Fields → Option Fields
set_uuid py name none headers = some headers
set_uuid py name (some v) headers =
    if str_eq v ""
    then some headers
    else elim (py.uuid v) [ none ↦ none | some u ↦ some (set_field name (str u) headers) ]

-- The arguments of build_v1_headers.
pub record V1 : Type 0 where
  pub arqs_type : String
  pub content_type : String
  pub content_transfer_encoding : String
  pub content_encoding : String
  pub encryption : String
  pub receipt_request : Items
  pub correlation_id : Option String
  pub causation_id : Option String
  pub extra_headers : Fields

-- The core headers come after the extra ones and replace them.
unfoldable pub core_headers : V1 → Fields
unfolding set_field
core_headers v = set_field "encryption" (str v.encryption) (
    set_field "content_encoding" (str v.content_encoding) (
      set_field "content_transfer_encoding" (str v.content_transfer_encoding) (
        set_field "content_type" (str v.content_type) (
          set_field "arqs_type" (str v.arqs_type)
            (set_field "arqs_envelope" (str "v1") v.extra_headers)))))

unfoldable pub build_v1_headers : Python → V1 → Option Fields
unfolding core_headers set_uuid set_receipt_request receipt_items
build_v1_headers py v =
    elim (set_uuid py "correlation_id" v.correlation_id
      (set_receipt_request (receipt_items py v.receipt_request) (core_headers v))) [
        | none ↦ none
        | some headers ↦ set_uuid py "causation_id" v.causation_id headers
      ]

-- The defaults of build_v1_headers.
abbrev pub v1 : String → String → V1
v1 arqs_type content_type = record {
  arqs_type = arqs_type;
  content_type = content_type;
  content_transfer_encoding = "utf-8";
  content_encoding = "identity";
  encryption = "none";
  receipt_request = nil;
  correlation_id = none;
  causation_id = none;
  extra_headers = end;
}

unfoldable pub build_receipt_headers : Python → String → Fields → String → Option Fields
unfolding build_v1_headers get_correlation_id
build_receipt_headers py receipt_type original packet_id =
    build_v1_headers py (record (v1 receipt_type "application/json") {
      correlation_id = get_correlation_id py original;
      causation_id = some packet_id;
    })
