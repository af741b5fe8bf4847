-- ===== src/Tests/Texts.antt =====
-- Headers and bodies of packets. The library in these tests knows two UUIDs and decodes one text.
use arqs.Auth.{text_eq, strip, keep, split_once, strip_left, strip_right}
use arqs.Conventions.Decode.{
  raised_charset_error, decode_packet_view, checked_view, missing_names, v1_view, header_text,
  transferred_view, is_prefix, charset_of, content_charset, failed_view, first_charset, has_infix,
  is_textual_content_type, split_parts, unquote, decoded_view, decode_content_encoding,
  decode_transfer_encoding, text_view,
}
use arqs.Conventions.Receipts.{build_receipt_headers_lem, IsUuid}
use arqs.Conventions.Views.{decode_packet_view-IsOutcome, IsOutcome}
use arqs.Prelude.{
  inr, sym, subst, arith, inl, ◌||◌, Bool-cases, Option, str_eq, String, if◌then◌else◌, ◌≡◌, refl,
  some, none, false, true,
}
use arqs.Json.{Fields, end, field, str, get_field}
use arqs.Conventions.{
  get_correlation_id, get_causation_id, set_field, should_ignore_receipt_request, Python, decoded,
  undecodable, unknown_charset, codes, v1, is_convention_v1, header_value, word, lowered,
  value_text, text_or_empty, get_packet_type,
}

abbrev known_uuid : String → Option String
known_uuid s = if str_eq s "U1" || str_eq s "u1" then some "u1" else none

abbrev pub tiny_python : Python
tiny_python = record {
  repr = λ v. "?";
  uuid = known_uuid;
  b64decode = λ s. some (codes s);
  gunzip = λ bs. none;
  utf8 = λ s. some (codes s);
  decode = λ charset bs.
      if text_eq charset (codes "utf-8")
      then (if text_eq bs (codes "hello") then decoded "hello" else undecodable)
      else unknown_charset;
}

abbrev pub message_headers : Fields
message_headers = field "arqs_envelope" (str "v1") (
    field "arqs_type" (str "message.v1") (
      field "content_type" (str "text/plain") (
        field "content_transfer_encoding" (str "utf-8") (
          field "content_encoding" (str "identity")
            (field "encryption" (str "none") (field "correlation_id" (str "u1") end))))))

-- A charset that no codec has.
abbrev strange_headers : Fields
strange_headers = set_field "content_type" (str "text/plain; Charset='foo'") message_headers

strange : decode_packet_view tiny_python (some "hello") strange_headers ≡ raised_charset_error
unfolding decode_packet_view is_convention_v1 text_eq strip get_field set_field checked_view
    missing_names header_value v1_view header_text transferred_view is_prefix keep split_once
    strip_left strip_right charset_of content_charset failed_view first_charset has_infix
    is_textual_content_type split_parts unquote decoded_view decode_content_encoding
    decode_transfer_encoding text_view word lowered value_text text_or_empty get_packet_type
strange = refl

decode_packet_view-IsOutcome_example :
    IsOutcome tiny_python
      (some "hello")
      strange_headers
      (decode_packet_view tiny_python (some "hello") strange_headers)
decode_packet_view-IsOutcome_example =
    decode_packet_view-IsOutcome tiny_python (some "hello") strange_headers

known_uuid_idem : (s u : String) → known_uuid s ≡ some u → known_uuid u ≡ some u
known_uuid_idem s u h = elim (Bool-cases (str_eq s "U1" || str_eq s "u1")) [
  | inl e ↦ let same : u ≡ "u1" = ground arith in subst (λ x. known_uuid x ≡ some x) (sym same) refl
  | inr e ↦ absurd (ground arith)
]

known_uuid-some : (s u : String) → known_uuid s ≡ some u → str_eq u "" ≡ false
known_uuid-some s u h = elim (Bool-cases (str_eq s "U1" || str_eq s "u1")) [
  | inl e ↦ let same : u ≡ "u1" = ground arith in subst (λ x. str_eq x "" ≡ false) (sym same) refl
  | inr e ↦ absurd (ground arith)
]

tiny_python-IsUuid : IsUuid tiny_python
tiny_python-IsUuid = record {
  uuid_idem = known_uuid_idem;
  uuid_some = known_uuid-some;
  uuid_empty = refl;
}

abbrev receipt_headers : Fields
receipt_headers = field "arqs_envelope" (str "v1") (
    field "arqs_type" (str "receipt.read.v1") (
      field "content_type" (str "application/json") (
        field "content_transfer_encoding" (str "utf-8") (
          field "content_encoding" (str "identity") (
            field "encryption" (str "none")
              (field "correlation_id" (str "u1") (field "causation_id" (str "u1") end)))))))

build_receipt_headers_lem_example :
    (should_ignore_receipt_request tiny_python receipt_headers ≡ true)
    × ((get_causation_id tiny_python receipt_headers ≡ some "u1")
        × (get_correlation_id tiny_python receipt_headers
            ≡ get_correlation_id tiny_python message_headers))
unfolding arqs.Conventions.build_receipt_headers get_field
build_receipt_headers_lem_example =
    build_receipt_headers_lem tiny_python "receipt.read.v1" "U1" "u1" message_headers
      receipt_headers tiny_python-IsUuid refl refl refl
