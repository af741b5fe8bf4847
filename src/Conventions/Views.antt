-- ===== src/Conventions/Views.antt =====
-- What decode_packet_view (apis/arqs_conventions.py) returns, whatever a sender has put into the packet.
use arqs.Auth.{text_eq}
use arqs.Json.{get_field, Fields}
use arqs.Conventions.{
  undecodable, codes, decoded, unknown_charset, Decoding, word, get_packet_type, header_value,
  is_convention_v1, Python,
}
use arqs.Conventions.Decode.{
  failed, raised_charset_error, decoded_bytes, raised_encode_error, DecodeOutcome, missing_headers,
  undecodable_text, content_charset, decode_content_encoding, header_text, is_textual_content_type,
  Bytes, v1_view, DecodeError, checked_view, decoded_view, failed_view, read_view, text_view,
  transferred_view, view, decode_packet_view, legacy_view, DecodedPacketView,
}
use arqs.Prelude.{
  refl, refl, refl, refl, refl, refl, refl, refl, refl, refl, refl, refl, refl, refl, refl, refl,
  refl, refl, refl, refl, refl, refl, refl, Option-cases, some, sym, ℕ, List, false, inl, inr, ◌∷◌,
  Bool-cases, none, true, String, ◌⊎◌, Option, [], ◌≡◌,
}

-- Exactly one error and no text, or no error.
abbrev pub IsView : DecodedPacketView → Type 0
IsView v =
    (v.errors ≡ [])
    ⊎ ((v.is_v1 ≡ true) × (v.body_text ≡ none) × ((e : DecodeError) × (v.errors ≡ e ∷ [])))

-- The only calls that raise: a legacy body without UTF-8, and a charset that no codec has in a v1 packet
-- with a textual content type.
abbrev pub IsOutcome : Python → Option String → Fields → DecodeOutcome → Type 0
IsOutcome py body headers (view v) = IsView v × (v.is_v1 ≡ is_convention_v1 py headers)
IsOutcome py body headers raised_encode_error =
    (is_convention_v1 py headers ≡ false) × ((b : String) × (body ≡ some b) × (py.utf8 b ≡ none))
IsOutcome py body headers raised_charset_error =
    let content_type = header_value py (get_field "content_type" headers) in
    (is_convention_v1 py headers ≡ true)
    × (is_textual_content_type content_type ≡ true)
    × ((bs : List ℕ) × (py.decode (content_charset content_type) bs ≡ unknown_charset))

module _ (py : Python) (body : Option String) (headers : Fields) where
  legacy_view-IsOutcome :
      (arqs_type content_type : Option String) (b : Option String)
      → body ≡ b
      → is_convention_v1 py headers ≡ false
      → IsOutcome py body headers (legacy_view py b arqs_type content_type)
  unfolding legacy_view read_view
  legacy_view-IsOutcome t c none e legacy = (inl refl, sym legacy)
  legacy_view-IsOutcome t c (some b) e legacy = elim (Option-cases (py.utf8 b)) [
    | inl u ↦ rw (u, IsOutcome) (legacy, (b, e, u))
    | inr (bs, u) ↦ rw (u, IsOutcome) (inl refl, sym legacy)
  ]

  module _ (v1 : is_convention_v1 py headers ≡ true) (t : Option String) where
    abbrev content_type : Option String
    content_type = header_value py (get_field "content_type" headers)

    failed_view-IsOutcome :
        (e : DecodeError) → IsOutcome py body headers (failed_view t content_type e)
    unfolding failed_view
    failed_view-IsOutcome e = (inr (refl, refl, (e, refl)), sym v1)

    text_view-IsOutcome :
        (bs : List ℕ) (d : Decoding)
        → is_textual_content_type content_type ≡ true
        → py.decode (content_charset content_type) bs ≡ d
        → IsOutcome py body headers (text_view t content_type (content_charset content_type) bs d)
    unfolding text_view read_view
    text_view-IsOutcome bs (decoded b) textual e = (inl refl, sym v1)
    text_view-IsOutcome bs undecodable textual e =
        (inr (refl, refl, (undecodable_text (content_charset content_type), refl)), sym v1)
    text_view-IsOutcome bs unknown_charset textual e = (v1, textual, (bs, e))

    decoded_view-IsOutcome :
        (bs : Bytes) → IsOutcome py body headers (decoded_view py t content_type bs)
    unfolding decoded_view read_view
    decoded_view-IsOutcome (failed e) = failed_view-IsOutcome e
    decoded_view-IsOutcome (decoded_bytes bs) =
        elim (Bool-cases (is_textual_content_type content_type)) [
          | inl b ↦ rw b (text_view-IsOutcome bs _ b refl)
          | inr b ↦ rw b (inl refl, sym v1)
        ]

    transferred_view-IsOutcome :
        (encoding : String) (bs : Bytes)
        → IsOutcome py body headers (transferred_view py t content_type encoding bs)
    unfolding transferred_view
    transferred_view-IsOutcome encoding (failed e) = failed_view-IsOutcome e
    transferred_view-IsOutcome encoding (decoded_bytes raw) =
        decoded_view-IsOutcome (decode_content_encoding py raw encoding)

    checked_view-IsOutcome :
        (names : List String)
        → IsOutcome py body headers (checked_view py body headers t content_type names)
    unfolding checked_view v1_view
    checked_view-IsOutcome [] =
        elim (Bool-cases (text_eq (word (header_text py "encryption" headers)) (codes "none"))) [
          | inl b ↦ rw b (transferred_view-IsOutcome _ _)
          | inr b ↦ rw b (failed_view-IsOutcome _)
        ]
    checked_view-IsOutcome (name ∷ names) = failed_view-IsOutcome (missing_headers (name ∷ names))

  -- Whatever the headers and the body are, decode_packet_view returns a view that has no error, or one
  -- error and no text; it marks the view as v1 exactly if the headers name that envelope. It raises
  -- only for a legacy body that has no UTF-8, and for a v1 packet of a textual content type whose
  -- charset no codec knows.
  pub decode_packet_view-IsOutcome : IsOutcome py body headers (decode_packet_view py body headers)
  unfolding decode_packet_view
  decode_packet_view-IsOutcome = elim (Bool-cases (is_convention_v1 py headers)) [
    | inl b ↦ rw b (checked_view-IsOutcome b (get_packet_type py headers) _)
    | inr b ↦ rw b (legacy_view-IsOutcome _ _ body refl b)
  ]
