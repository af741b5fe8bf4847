-- ===== src/Access/Client.antt =====
-- Who sends a request, and the middleware that lets it in: get_client_ip, _extract_api_key and
-- require_node of arqs-server/app/auth.py, and enforce_ip_policy_and_no_store of
-- arqs-server/app/main.py. A text is the list of its characters' codes.
use arqs.Access.{is_ip_allowed_cached, RuntimeAccessSnapshot, AccessConfig}
use arqs.Models.{Node, Db}
use arqs.Http.{ok, missing_api_key, err, Result}
use arqs.Auth.{authenticate_node, strip, is_empty_text, text_eq, split_once, Crypto, Text}
use arqs.Prelude.{false, ◌==◌, [], has_row, if◌then◌else◌, none, ◌∷◌, Bool, some, List, Option, ℕ}
use arqs.Http.{◌>>=◌}
use arqs.Conventions.{codes, lowered}

-- network.trusted_proxies and network.trusted_forwarded_headers
pub record NetworkConfig : Type 0 where
  pub trusted_proxies : List Text
  pub trusted_forwarded_headers : List Text

-- `client` is request.client.host, if there is one, and `header` is request.headers.get.
pub record Request : Type 0 where
  pub client : Option Text
  pub header : Text → Option Text

-- What is after a prefix in lower case, which the text is compared with as in `a.lower()`.
unfoldable pub after_prefix : Text → Text → Option Text
after_prefix [] cs = some cs
after_prefix (p ∷ ps) [] = none
after_prefix (p ∷ ps) (c ∷ cs) =
    let rest = after_prefix ps cs in if text_eq (lowered (c ∷ [])) (p ∷ []) then rest else none

unfoldable pub bearer_key : Option Text → Result Text
bearer_key none = err missing_api_key
bearer_key (some authorization) = elim (after_prefix (codes "bearer ") authorization) [
  | some key ↦ ok (strip key)
  | none ↦ err missing_api_key
]

-- _extract_api_key of the header X-ARQS-API-Key and the header Authorization. An empty one counts as
-- missing, and an empty authorization has no "bearer ".
unfoldable pub extract_api_key : Option Text → Option Text → Result Text
extract_api_key none authorization = bearer_key authorization
extract_api_key (some key) authorization =
    if is_empty_text key then bearer_key authorization else ok (strip key)

unfoldable pub require_node : Crypto → List ℕ → Option Text → Option Text → Db → Result Node
require_node crypto blacklist key authorization db = do
  api_key ← extract_api_key key authorization
  authenticate_node crypto blacklist api_key db

abbrev slash : ℕ
slash = 47

abbrev comma : ℕ
comma = 44

-- raw.split(",", 1)[0]
unfoldable pub first_part : Text → Text
first_part raw = elim (split_once comma raw) [ none ↦ raw | some (first, rest) ↦ first ]

unfoldable pub peer_ip : Option Text → Text
peer_ip none = codes "unknown"
peer_ip (some host) = host

-- `parse` is ipaddress.ip_address and `in_network a n` says whether the network that the text `n`
-- names has the address; `none` is ValueError.
module _ (parse : Text → Option ℕ) (in_network : ℕ → Text → Option Bool) where
  unfoldable pub is_trusted_proxy : ℕ → Text → Bool
  is_trusted_proxy direct candidate =
      if has_row (λ c. c == slash) candidate
      then elim (in_network direct candidate) [ none ↦ false | some b ↦ b ]
      else elim (parse candidate) [ none ↦ false | some a ↦ a == direct ]

  unfoldable pub forwarded_ip : Request → Text → List Text → Text
  forwarded_ip request direct_ip [] = direct_ip
  forwarded_ip request direct_ip (name ∷ names) =
      let rest = forwarded_ip request direct_ip names in
      elim (request.header name) [
        | none ↦ rest
        | some raw ↦
            if is_empty_text raw
            then rest
            else if text_eq (lowered name) (codes "x-forwarded-for")
            then strip (first_part raw)
            else strip raw
      ]

  unfoldable pub get_client_ip : NetworkConfig → Request → Text
  get_client_ip cfg request =
      let direct_ip = peer_ip request.client in
      elim (parse direct_ip) [
        | none ↦ direct_ip
        | some direct ↦
            if has_row (is_trusted_proxy direct) cfg.trusted_proxies
            then forwarded_ip request direct_ip cfg.trusted_forwarded_headers
            else direct_ip
      ]

-- The content of a reply: {"detail": ...}, or what the handler made.
pub data Content (B : Type 0) : Type 0 where
  detail : Text → Content B
  made : B → Content B

pub record Response (B : Type 0) : Type 0 where
  pub status_code : ℕ
  pub content : Content B
  pub cache_control : Option Text

-- A handler returns a response or raises an exception of some class.
pub data Outcome (B : Type 0) : Type 0 where
  response : Response B → Outcome B
  raised : Text → Outcome B

-- The call of _log_request_event, less the request's method, path and query, the times and the port.
pub record RequestEvent : Type 0 where
  pub message : Text
  pub status : ℕ
  pub direct_peer_ip : Text
  pub effective_client_ip : Text
  pub failure : Option Text

module _ {B S : Type 0} where
  -- The handler's outcome with the header and the event.
  unfoldable pub finish : Text → Text → Outcome B × S → Outcome B × List RequestEvent × S
  finish peer ip (response r, s) = (
    response (record r { cache_control = some (codes "no-store") }),
    record {
      message = codes "request_complete";
      status = r.status_code;
      direct_peer_ip = peer;
      effective_client_ip = ip;
      failure = none;
    }
        ∷ [],
    s,
  )
  finish peer ip (raised name, s) = (
    raised name,
    record {
      message = codes "request_exception";
      status = 500;
      direct_peer_ip = peer;
      effective_client_ip = ip;
      failure = some name;
    }
        ∷ [],
    s,
  )

  unfoldable pub denied : Text → Text → S → Outcome B × List RequestEvent × S
  denied peer ip s = (
    response (record {
      status_code = 403;
      content = detail (codes "client IP denied");
      cache_control = some (codes "no-store");
    }),
    record {
      message = codes "request_denied";
      status = 403;
      direct_peer_ip = peer;
      effective_client_ip = ip;
      failure = some (codes "client IP denied");
    }
        ∷ [],
    s,
  )

module _ (parse : Text → Option ℕ) (text : ℕ → Text) (in_network : ℕ → Text → Option Bool)
    (network : NetworkConfig) (access : AccessConfig Text) {B S : Type 0} where
  -- `call_next` is the handler on the server's state.
  unfoldable pub enforce_ip_policy_and_no_store :
      Option RuntimeAccessSnapshot
      → Request
      → (S → Outcome B × S)
      → S
      → Outcome B × List RequestEvent × S
  enforce_ip_policy_and_no_store snapshot request call_next s =
      let peer = peer_ip request.client in
      let ip = get_client_ip parse in_network network request in
      if is_ip_allowed_cached parse text access snapshot ip
      then finish peer ip (call_next s)
      else denied peer ip s
