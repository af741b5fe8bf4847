-- ===== src/Conventions/Decode.antt =====
-- decode_packet_view and render_packet_text of apis/arqs_conventions.py. An error is a value that names
-- its message; the texts in a message are those of the headers.
use arqs.Json.{get_field, Fields}
use arqs.Conventions.{
  unknown_charset, lowered, undecodable, decoded, is_convention_v1, value_text, word, Decoding,
  codes, get_packet_type, header_value, Python,
}
use arqs.Auth.{is_empty_text, text_eq, strip, split_once, Text}
use arqs.Prelude.{
  not, ◌&&◌, ◌==◌, [], false, if◌then◌else◌, some, ◌||◌, String, none, true, ◌∷◌, Bool, List,
  Option, ℕ,
}

pub data DecodeError : Type 0 where
  missing_headers : List String → DecodeError
  unsupported_encryption : String → DecodeError
  unencodable_body invalid_base64 invalid_gzip : DecodeError
  unsupported_transfer_encoding unsupported_content_encoding : String → DecodeError
  undecodable_text : Text → DecodeError

pub record DecodedPacketView : Type 0 where
  pub is_v1 : Bool
  pub arqs_type : Option String
  pub content_type : Option String
  pub body_text : Option String
  pub body_bytes : Option (List ℕ)
  pub errors : List DecodeError

-- A call returns a view or raises: UnicodeEncodeError for a body that has no UTF-8, which the source
-- catches in a v1 packet only, or the error of a charset that is none.
pub data DecodeOutcome : Type 0 where
  view : DecodedPacketView → DecodeOutcome
  raised_encode_error raised_charset_error : DecodeOutcome

-- A step of the decoding returns bytes or raises the ValueError that the caller puts into the view.
pub data Bytes : Type 0 where
  decoded_bytes : List ℕ → Bytes
  failed : DecodeError → Bytes

abbrev pub core_v1_headers : List String
core_v1_headers =
    "arqs_envelope" ∷ "arqs_type" ∷ "content_type" ∷ "content_transfer_encoding"
    ∷ "content_encoding" ∷ "encryption" ∷ []

unfoldable pub missing_names : Python → Fields → List String → List String
missing_names py headers [] = []
missing_names py headers (name ∷ names) =
    let rest = missing_names py headers names in
    elim (header_value py (get_field name headers)) [ none ↦ name ∷ rest | some v ↦ rest ]

unfoldable pub header_text : Python → String → Fields → String
header_text py name headers = elim (get_field name headers) [ none ↦ "" | some v ↦ value_text py v ]

unfoldable pub decode_transfer_encoding : Python → Option String → String → Bytes
decode_transfer_encoding py none encoding = decoded_bytes []
decode_transfer_encoding py (some body) encoding =
    if text_eq (word encoding) (codes "utf-8")
    then elim (py.utf8 body) [ none ↦ failed unencodable_body | some bs ↦ decoded_bytes bs ]
    else if text_eq (word encoding) (codes "base64")
    then elim (py.b64decode body) [ none ↦ failed invalid_base64 | some bs ↦ decoded_bytes bs ]
    else failed (unsupported_transfer_encoding encoding)

unfoldable pub decode_content_encoding : Python → List ℕ → String → Bytes
decode_content_encoding py raw encoding =
    if text_eq (word encoding) (codes "identity")
    then decoded_bytes raw
    else if text_eq (word encoding) (codes "gzip")
    then elim (py.gunzip raw) [ none ↦ failed invalid_gzip | some bs ↦ decoded_bytes bs ]
    else failed (unsupported_content_encoding encoding)

unfoldable pub is_prefix : Text → Text → Bool
is_prefix [] cs = true
is_prefix (p ∷ ps) [] = false
is_prefix (p ∷ ps) (c ∷ cs) = (p == c) && is_prefix ps cs

unfoldable pub has_infix : Text → Text → Bool
unfolding is_prefix
has_infix p [] = is_prefix p []
has_infix p (c ∷ cs) = is_prefix p (c ∷ cs) || has_infix p cs

unfoldable pub is_textual_content_type : Option String → Bool
is_textual_content_type none = false
is_textual_content_type (some content_type) =
    let kind = word content_type in
    is_prefix (codes "text/") kind
    || is_prefix (codes "application/json") kind
    || has_infix (codes "+json") kind

-- text.split(";")
unfoldable pub split_parts : ℕ → Text → List Text
split_parts sep [] = [] ∷ []
split_parts sep (c ∷ cs) =
    let rest = split_parts sep cs in
    if c == sep
    then [] ∷ rest
    else elim rest [ [] ↦ (c ∷ []) ∷ [] | part ∷ parts ↦ (c ∷ part) ∷ parts ]

abbrev tail_parts : List Text → List Text
tail_parts [] = []
tail_parts (part ∷ parts) = parts

-- text.strip(c) of a character
strip_char_left : ℕ → Text → Text
strip_char_left q [] = []
strip_char_left q (c ∷ cs) = let rest = strip_char_left q cs in if c == q then rest else c ∷ cs

strip_char_right : ℕ → Text → Text
strip_char_right q [] = []
strip_char_right q (c ∷ cs) =
    let rest = strip_char_right q cs in if (c == q) && is_empty_text rest then [] else c ∷ rest

unfoldable pub unquote : Text → Text
unfolding strip_char_left strip_char_right
unquote value =
    strip_char_left 39 (strip_char_right 39 (strip_char_left 34 (strip_char_right 34 value)))

-- part.strip().partition("=") with the key "charset" and a value
unfoldable pub charset_of : Text → Option Text
charset_of part = elim (split_once 61 (strip part)) [
  | none ↦ none
  | some (key, value) ↦
      if text_eq (lowered (strip key)) (codes "charset") && not (is_empty_text (strip value))
      then some (unquote (strip value))
      else none
]

unfoldable pub first_charset : List Text → Option Text
first_charset [] = none
first_charset (part ∷ parts) =
    let rest = first_charset parts in elim (charset_of part) [ none ↦ rest | some c ↦ some c ]

-- _content_charset(content_type) or "utf-8"
unfoldable pub content_charset : Option String → Text
content_charset none = codes "utf-8"
content_charset (some content_type) =
    elim (first_charset (tail_parts (split_parts 59 (codes content_type)))) [
      | none ↦ codes "utf-8"
      | some [] ↦ codes "utf-8"
      | some (c ∷ cs) ↦ c ∷ cs
    ]

unfoldable pub failed_view : Option String → Option String → DecodeError → DecodeOutcome
failed_view arqs_type content_type error = view (record {
  is_v1 = true;
  arqs_type = arqs_type;
  content_type = content_type;
  body_text = none;
  body_bytes = none;
  errors = error ∷ [];
})

unfoldable pub read_view :
    Bool → Option String → Option String → Option String → Option (List ℕ) → DecodeOutcome
read_view is_v1 arqs_type content_type body_text body_bytes = view (record {
  is_v1 = is_v1;
  arqs_type = arqs_type;
  content_type = content_type;
  body_text = body_text;
  body_bytes = body_bytes;
  errors = [];
})

unfoldable pub legacy_view : Python → Option String → Option String → Option String → DecodeOutcome
legacy_view py none arqs_type content_type = read_view false arqs_type content_type none none
legacy_view py (some body) arqs_type content_type = elim (py.utf8 body) [
  | none ↦ raised_encode_error
  | some bs ↦ read_view false arqs_type content_type (some body) (some bs)
]

unfoldable pub text_view : Option String → Option String → Text → List ℕ → Decoding → DecodeOutcome
text_view arqs_type content_type charset bs (decoded body) =
    read_view true arqs_type content_type (some body) (some bs)
text_view arqs_type content_type charset bs undecodable = view (record {
  is_v1 = true;
  arqs_type = arqs_type;
  content_type = content_type;
  body_text = none;
  body_bytes = some bs;
  errors = undecodable_text charset ∷ [];
})
text_view arqs_type content_type charset bs unknown_charset = raised_charset_error

unfoldable pub decoded_view : Python → Option String → Option String → Bytes → DecodeOutcome
decoded_view py arqs_type content_type (failed e) = failed_view arqs_type content_type e
decoded_view py arqs_type content_type (decoded_bytes bs) =
    if is_textual_content_type content_type
    then text_view arqs_type content_type (content_charset content_type) bs
        (py.decode (content_charset content_type) bs)
    else read_view true arqs_type content_type none (some bs)

unfoldable pub transferred_view :
    Python → Option String → Option String → String → Bytes → DecodeOutcome
transferred_view py arqs_type content_type encoding (failed e) =
    failed_view arqs_type content_type e
transferred_view py arqs_type content_type encoding (decoded_bytes raw) =
    decoded_view py arqs_type content_type (decode_content_encoding py raw encoding)

-- What follows the test of the missing headers.
unfoldable pub v1_view :
    Python → Option String → Fields → Option String → Option String → DecodeOutcome
v1_view py body headers arqs_type content_type =
    if text_eq (word (header_text py "encryption" headers)) (codes "none")
    then transferred_view py arqs_type content_type (header_text py "content_encoding" headers)
        (decode_transfer_encoding py body (header_text py "content_transfer_encoding" headers))
    else failed_view arqs_type content_type
        (unsupported_encryption (header_text py "encryption" headers))

unfoldable pub checked_view :
    Python → Option String → Fields → Option String → Option String → List String → DecodeOutcome
checked_view py body headers arqs_type content_type [] =
    v1_view py body headers arqs_type content_type
checked_view py body headers arqs_type content_type (name ∷ names) =
    failed_view arqs_type content_type (missing_headers (name ∷ names))

unfoldable pub decode_packet_view : Python → Option String → Fields → DecodeOutcome
decode_packet_view py body headers =
    let arqs_type = get_packet_type py headers in
    let content_type = header_value py (get_field "content_type" headers) in
    if is_convention_v1 py headers
    then checked_view py body headers arqs_type content_type
        (missing_names py headers core_v1_headers)
    else legacy_view py body arqs_type content_type
