-- ===== src/Conventions/Receipts.antt =====
-- The headers of a receipt (apis/arqs_conventions.py): whom it answers, and that nobody answers it.
use text.Mathlib.Text.{starts_with}
use arqs.Json.{str, Fields, get_field}
use arqs.Conventions.{
  is_receipt_type, uuid_value, get_correlation_id, get_causation_id, should_ignore_receipt_request,
  build_receipt_headers, header_value, v1, build_v1_headers, set_field, set_uuid, Python, V1,
  core_headers,
}
use arqs.Prelude.{
  eq_refl, ap, subst, false≢true, Bool-cases, inr, inl, true, Option-cases, eq_iff, none, arith,
  refl, false, ◌∙◌, Option, some, str_eq, String, ◌≡◌,
}
use arqs.Conventions.Headers.{build_v1_headers-IsBuilt, set_uuid-other, get_field-set_field}
use arqs.Conventions.RoundTrip.{built-packet_type}

-- What uuid.UUID promises: the text of a UUID is read as itself, and is not empty.
pub record IsUuid (py : Python) : Type 0 where
  pub uuid_idem : (s u : String) → py.uuid s ≡ some u → py.uuid u ≡ some u
  pub uuid_some : (s u : String) → py.uuid s ≡ some u → str_eq u "" ≡ false
  pub uuid_empty : py.uuid "" ≡ none

set_uuid-written :
    (py : Python) (name value u : String) (headers built : Fields)
    → IsUuid py
    → py.uuid value ≡ some u
    → set_uuid py name (some value) headers ≡ some built
    → uuid_value py (header_value py (get_field name built)) ≡ some u
unfolding set_uuid uuid_value header_value
set_uuid-written py name value u headers built is_uuid known h =
    let nonempty : str_eq value "" ≡ false = elim (Bool-cases (str_eq value "")) [
      | inl e ↦
          let empty : value ≡ "" = ground (arith, eq_iff value "") in
          absurd (cc (is_uuid.uuid_empty, known, ap py.uuid empty))
      | inr e ↦ e
    ] in
    let written : built ≡ set_field name (str u) headers = ground arith in
    rw
      (
        written,
        get_field-set_field name name (str u) headers,
        eq_refl name,
        is_uuid.uuid_some value u known,
      )
      (is_uuid.uuid_idem value u known)

correlation-uuid :
    (py : Python) (headers : Fields) (u : String)
    → IsUuid py
    → get_correlation_id py headers ≡ some u
    → py.uuid u ≡ some u
unfolding get_correlation_id uuid_value
correlation-uuid py headers u is_uuid h =
    elim (Option-cases (header_value py (get_field "correlation_id" headers))) [
      | inl e ↦ absurd (ground arith)
      | inr (s, e) ↦ is_uuid.uuid_idem s u (ground arith)
    ]

nonempty_receipt : (t : String) → starts_with t "receipt." ≡ true → str_eq t "" ≡ false
nonempty_receipt t h = elim (Bool-cases (str_eq t "")) [
  | inl e ↦
      let empty : t ≡ "" = ground (arith, eq_iff t "") in
      absurd (false≢true (subst (λ s. starts_with s "receipt." ≡ true) empty h))
  | inr e ↦ e
]

module _ (py : Python) (t : String) (packet_id id : String) (built : Fields) (is_uuid : IsUuid py)
    (known : py.uuid packet_id ≡ some id) where
  -- The receipt before the cause is set.
  abbrev receipt_core : Option String → Fields
  receipt_core correlation = core_headers (record (v1 t "application/json") {
    correlation_id = correlation;
    causation_id = some packet_id;
  })

  correlated :
      (correlation : Option String) (headers : Fields)
      → ((c : String) → correlation ≡ some c → py.uuid c ≡ some c)
      → set_uuid py "correlation_id" correlation (receipt_core correlation) ≡ some headers
      → set_uuid py "causation_id" (some packet_id) headers ≡ some built
      → (get_causation_id py built ≡ some id) × (get_correlation_id py built ≡ correlation)
  unfolding get_causation_id get_correlation_id
  correlated none headers c e h = (
    set_uuid-written py "causation_id" packet_id id headers built is_uuid known h,
    ap (λ o. uuid_value py (header_value py o))
          (set_uuid-other py "correlation_id" "causation_id" (some packet_id) headers built refl h
            ∙ set_uuid-other py "correlation_id" "other" none (receipt_core none) headers refl
                (unfold set_uuid in e))
        ∙ unfold core_headers set_field get_field uuid_value header_value in refl,
  )
  correlated (some c) headers is_id e h = (
    set_uuid-written py "causation_id" packet_id id headers built is_uuid known h,
    ap (λ o. uuid_value py (header_value py o))
          (set_uuid-other py "correlation_id" "causation_id" (some packet_id) headers built refl h)
        ∙ set_uuid-written py "correlation_id" c c _ headers is_uuid (is_id c refl) e,
  )

-- The headers of a receipt name the packet that it is for as their cause, keep the correlation id of
-- that packet, or its absence, and mark the receipt so that no receipt is sent for it. The type of the
-- receipt starts with "receipt.", and the packet has a UUID for an id.
pub build_receipt_headers_lem :
    (py : Python) (receipt_type packet_id id : String) (original built : Fields)
    → IsUuid py
    → starts_with receipt_type "receipt." ≡ true
    → py.uuid packet_id ≡ some id
    → build_receipt_headers py receipt_type original packet_id ≡ some built
    → (should_ignore_receipt_request py built ≡ true)
      × ((get_causation_id py built ≡ some id)
          × (get_correlation_id py built ≡ get_correlation_id py original))
unfolding build_receipt_headers build_v1_headers
build_receipt_headers_lem py t packet_id id original built u starts known h =
    let v : V1 = record (v1 t "application/json") {
      correlation_id = get_correlation_id py original;
      causation_id = some packet_id;
    } in
    let b = build_v1_headers-IsBuilt py v built h in
    (
      unfold should_ignore_receipt_request is_receipt_type in
          (rw (built-packet_type py v built b (nonempty_receipt t starts)) starts),
      caused _ refl h,
    )
  where
    caused :
        (o : Option Fields)
        → set_uuid py "correlation_id"
            (get_correlation_id py original)
            (receipt_core py t packet_id id built u known (get_correlation_id py original))
          ≡ o
        → elim o [
          | none ↦ none
          | some headers ↦ set_uuid py "causation_id" (some packet_id) headers
        ]
          ≡ some built
        → (get_causation_id py built ≡ some id)
          × (get_correlation_id py built ≡ get_correlation_id py original)
    caused none e x = cc
    caused (some headers) e x =
        correlated py t packet_id id built u known (get_correlation_id py original) headers
          (λ c k. correlation-uuid py original c u k) e x
