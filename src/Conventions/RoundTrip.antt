-- ===== src/Conventions/RoundTrip.antt =====
-- What build_v1_headers wrote, decode_packet_view reads (apis/arqs_conventions.py).
use arqs.Auth.{text_eq, strip}
use arqs.Json.{Fields}
use arqs.Conventions.{
  value_text, word, text_or_empty, get_packet_type, header_value, is_convention_v1, Python, V1,
}
use arqs.Prelude.{true, refl, false, some, str_eq, ◌≡◌}
use arqs.Conventions.Headers.{IsBuilt}

module _ (py : Python) (v : V1) (built : Fields) (b : IsBuilt v built) where
  pub built-v1 : is_convention_v1 py built ≡ true
  unfolding is_convention_v1 text_or_empty value_text word strip text_eq
  built-v1 = rw b.envelope refl

  pub built-packet_type :
      str_eq v.arqs_type "" ≡ false → get_packet_type py built ≡ some v.arqs_type
  unfolding get_packet_type header_value
  built-packet_type h = rw (b.arqs_type, h) refl
