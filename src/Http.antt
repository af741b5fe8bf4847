-- ===== src/Http.antt =====
-- The errors that the server raises, `HTTPException(status_code, detail)`, one constructor for each
-- detail (arqs-server/app/main.py, services.py and auth.py), and what a transaction leaves behind.
use arqs.Prelude.{ℕ, Bool, true, false, if◌then◌else◌, leb}

-- Node.status
pub data NodeStatus : Type 0 where
  active disabled revoked : NodeStatus

pub data HttpError : Type 0 where
  node_inactive : NodeStatus → HttpError
  missing_api_key invalid_api_key node_disabled node_revoked node_blacklisted : HttpError
  endpoint_not_found endpoint_not_owned endpoint_not_active : HttpError
  default_endpoint_deletion endpoint_linked_or_queued : HttpError
  link_code_allocation link_code_not_found link_code_expired link_code_not_active : HttpError
  self_link source_endpoint_unavailable duplicate_active_link active_route_exists_already :
      HttpError
  link_not_found link_not_visible : HttpError
  destination_not_found destination_not_active destination_node_not_active : HttpError
  no_active_route packet_too_large packet_id_reused packet_id_collision : HttpError
  rate_limit_exceeded endpoint_packet_cap endpoint_byte_cap node_byte_cap : HttpError
  global_packet_cap global_byte_cap storage_cap : HttpError
  delivery_not_found delivery_not_owned : HttpError
  observability_off invalid_observability_mode : HttpError

pub data Result {ℓ} (A : Type ℓ) : Type ℓ where
  ok : A → Result A
  err : HttpError → Result A

infixl 5 ◌>>=◌ ◌>>◌
abbrev pub ◌>>=◌ {ℓ κ} : {A : Type ℓ} {B : Type κ} → Result A → (A → Result B) → Result B
err refused >>= next = err refused
ok value >>= next = next value

-- A check goes first and has no value.
abbrev pub ◌>>◌ {κ} : {B : Type κ} → Result (Unit {0}) → Result B → Result B
err refused >> next = err refused
ok checked >> next = next

-- `if refused: raise HTTPException(...)`
abbrev pub refuse_if : Bool → HttpError → Result (Unit {0})
refuse_if true e = err e
refuse_if false e = ok tt

-- The status code of each error.
pub status_code : HttpError → ℕ
status_code (node_inactive s) = 403
status_code missing_api_key = 401
status_code invalid_api_key = 401
status_code node_disabled = 403
status_code node_revoked = 403
status_code node_blacklisted = 403
status_code endpoint_not_found = 404
status_code endpoint_not_owned = 403
status_code endpoint_not_active = 403
status_code link_code_allocation = 500
status_code link_code_not_found = 404
status_code link_not_found = 404
status_code link_not_visible = 403
status_code destination_not_found = 404
status_code destination_not_active = 403
status_code destination_node_not_active = 403
status_code no_active_route = 403
status_code packet_too_large = 400
status_code rate_limit_exceeded = 429
status_code delivery_not_found = 404
status_code delivery_not_owned = 403
status_code observability_off = 404
status_code invalid_observability_mode = 500
status_code _ = 409

pub data LogLevel : Type 0 where
  info warning error : LogLevel

-- _request_log_level
pub request_log_level : ℕ → LogLevel
request_log_level status =
    if leb 500 status then error else if leb 400 status then warning else info
