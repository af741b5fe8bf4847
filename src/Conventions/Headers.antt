-- ===== src/Conventions/Headers.antt =====
-- The headers that build_v1_headers (apis/arqs_conventions.py) writes are those that decode_packet_view and
-- the receipts read.
use arqs.Json.{end, nil, arr, cons, field, str, Json, Fields, Items, get_field}
use arqs.Conventions.{
  receipt_items, v1, build_v1_headers, set_field, set_receipt_request, set_uuid, Python, V1,
  core_headers,
}
use arqs.Prelude.{
  inr, inl, Option-cases, eq_iff, none, arith, refl, false, if◌then◌else◌, ◌∙◌, Option, some,
  str_eq, String, ◌≡◌,
}

-- headers[j] = v changes the value of j and no other.
pub get_field-set_field :
    (k j : String) (v : Json) (fs : Fields)
    → get_field k (set_field j v fs) ≡ (if str_eq j k then some v else get_field k fs)
unfolding get_field set_field
get_field-set_field k j v end = refl
get_field-set_field k j v (field i w fs) =
    ground (arith, eq_iff j k, eq_iff i j, eq_iff i k, get_field-set_field k j v fs)

module _ (py : Python) (k : String) where
  pub set_uuid-other :
      (name : String) (value : Option String) (headers built : Fields)
      → str_eq name k ≡ false
      → set_uuid py name value headers ≡ some built
      → get_field k built ≡ get_field k headers
  unfolding set_uuid
  set_uuid-other name none headers built other h = ground arith
  set_uuid-other name (some v) headers built other h = elim (Option-cases (py.uuid v)) [
    | inl e ↦ ground arith
    | inr (u, e) ↦ ground (arith, get_field-set_field k name (str u) headers)
  ]

  set_receipt_request-other :
      (xs : Items) (headers : Fields)
      → str_eq "receipt_request" k ≡ false
      → get_field k (set_receipt_request xs headers) ≡ get_field k headers
  unfolding set_receipt_request
  set_receipt_request-other nil headers other = refl
  set_receipt_request-other (cons x xs) headers other =
      rw (get_field-set_field k "receipt_request" (arr (cons x xs)) headers, other) refl

  -- A header that is none of the three optional ones is that of the core.
  pub build_v1_headers-core :
      (v : V1) (built : Fields)
      → str_eq "receipt_request" k ≡ false
      → str_eq "correlation_id" k ≡ false
      → str_eq "causation_id" k ≡ false
      → build_v1_headers py v ≡ some built
      → get_field k built ≡ get_field k (core_headers v)
  unfolding build_v1_headers
  build_v1_headers-core v built r c a h = go _ refl h
    where
      go :
          (o : Option Fields)
          → set_uuid py "correlation_id" v.correlation_id
              (set_receipt_request (receipt_items py v.receipt_request) (core_headers v))
            ≡ o
          → elim o [
            | none ↦ none
            | some headers ↦ set_uuid py "causation_id" v.causation_id headers
          ]
            ≡ some built
          → get_field k built ≡ get_field k (core_headers v)
      go none e x = cc
      go (some headers) e x =
          set_uuid-other "causation_id" v.causation_id headers built a x
          ∙ set_uuid-other "correlation_id" v.correlation_id _ headers c e
          ∙ set_receipt_request-other (receipt_items py v.receipt_request) (core_headers v) r

-- The value of each core header.
pub record IsBuilt (v : V1) (built : Fields) : Type 0 where
  pub envelope : get_field "arqs_envelope" built ≡ some (str "v1")
  pub arqs_type : get_field "arqs_type" built ≡ some (str v.arqs_type)
  pub content_type : get_field "content_type" built ≡ some (str v.content_type)
  pub transfer :
      get_field "content_transfer_encoding" built ≡ some (str v.content_transfer_encoding)
  pub encoding : get_field "content_encoding" built ≡ some (str v.content_encoding)
  pub encryption : get_field "encryption" built ≡ some (str v.encryption)

pub build_v1_headers-IsBuilt :
    (py : Python) (v : V1) (built : Fields) → build_v1_headers py v ≡ some built → IsBuilt v built
unfolding core_headers
build_v1_headers-IsBuilt py v built h = record {
  envelope =
      build_v1_headers-core py "arqs_envelope" v built refl refl refl h ∙ simp get_field-set_field;
  arqs_type =
      build_v1_headers-core py "arqs_type" v built refl refl refl h ∙ simp get_field-set_field;
  content_type =
      build_v1_headers-core py "content_type" v built refl refl refl h ∙ simp get_field-set_field;
  transfer =
      build_v1_headers-core py "content_transfer_encoding" v built refl refl refl h
      ∙ simp get_field-set_field;
  encoding =
      build_v1_headers-core py "content_encoding" v built refl refl refl h
      ∙ simp get_field-set_field;
  encryption =
      build_v1_headers-core py "encryption" v built refl refl refl h ∙ simp get_field-set_field;
}

-- The headers of a packet with the default encodings.
abbrev pub plain_v1 : String → String → Items → Option String → Option String → Fields → V1
plain_v1 arqs_type content_type receipts correlation causation extra =
    record (v1 arqs_type content_type) {
      receipt_request = receipts;
      correlation_id = correlation;
      causation_id = causation;
      extra_headers = extra;
    }
