-- ===== src/Server/Links.antt =====
-- request_link_code, redeem_link_code, list_links and revoke_link of arqs-server/app/main.py.
pub mod Redeem
pub mod Routes
pub mod Closed
pub mod Once
use arqs.Prelude.{
  ℕ, ◌+◌, Bool, true, false, not, ◌&&◌, ◌||◌, Option, none, some, List, [], ◌∷◌, ◌++◌, String,
  str_eq, ◌==◌, leb, if◌then◌else◌, has_row, find_row, select_rows, update_rows, take,
  order_by_desc,
}
use arqs.Http.{
  Result, ok, err, ◌>>=◌, ◌>>◌, refuse_if, link_code_allocation, link_code_not_found,
  link_code_expired, link_code_not_active, self_link, source_endpoint_unavailable,
  duplicate_active_link, active_route_exists_already, link_not_found, link_not_visible,
}
use arqs.Models.{
  Node, Endpoint, Link, LinkMode, LinkStatus, DirectedRoute, LinkCode, CodeStatus, Db,
  is_active_code, is_active_endpoint, is_active_link,
}
use arqs.Models.Cascade.{owns_endpoint}
use arqs.Services.{
  ensure_node_active, ensure_node_owns_endpoint, get_endpoint, active_route_exists,
  exact_active_link_exists, resolve_redeem_routes,
}
use arqs.Txn.{atomically}

-- The first candidate that no stored code has.
unfoldable pub free_code : List String → List LinkCode → Option String
free_code [] codes = none
free_code (c ∷ cs) codes =
    if has_row (λ k. str_eq k.code c) codes then free_code cs codes else some c

check_code : Option String → Result String
check_code none = err link_code_allocation
check_code (some c) = ok c

-- `candidates` is what generate_link_code returns; 20 of them are tried.
unfoldable pub request_link_code :
    ℕ → ℕ → ℕ → List String → ℕ → LinkMode → Node → Db → Result LinkCode × Db
unfolding ensure_node_active ensure_node_owns_endpoint check_code
request_link_code now ttl link_code_id candidates source_id mode node db = atomically db do
  ensure_node_active node
  source ← ensure_node_owns_endpoint db node.node_id source_id
  code ← check_code (free_code (take 20 candidates) db.link_codes)
  let row : LinkCode = record {
    link_code_id = link_code_id;
    code = code;
    source_endpoint_id = source_id;
    requested_mode = mode;
    created_at = now;
    expires_at = now + ttl;
    status = CodeStatus.active;
  }
  ok (row, record db { link_codes = db.link_codes ++ row ∷ [] })

unfoldable pub set_code_status : ℕ → CodeStatus → Db → Db
set_code_status link_code_id status db = record db {
  link_codes =
      update_rows (λ c. c.link_code_id == link_code_id) (λ c. record c { status = status })
        db.link_codes;
}

-- UPDATE link_codes SET status = 'used' WHERE link_code_id AND status = 'active'; `false` is a
-- row count other than 1.
unfoldable pub claim : ℕ → Db → Bool × Db
claim link_code_id db =
    let open_code = λ (c : LinkCode). (c.link_code_id == link_code_id) && is_active_code c.status in
    (
      has_row open_code db.link_codes,
      record db {
        link_codes =
            update_rows open_code (λ c. record c { status = CodeStatus.used }) db.link_codes;
      },
    )

unfoldable pub source_unavailable : Option Endpoint → Bool
source_unavailable none = true
source_unavailable (some e) = not (is_active_endpoint e.status)

unfoldable pub any_route_exists : Db → List (ℕ × ℕ) → Bool
any_route_exists db [] = false
any_route_exists db ((a, b) ∷ routes) = active_route_exists db a b || any_route_exists db routes

unfoldable pub new_routes : ℕ → ℕ → List ℕ → List (ℕ × ℕ) → List DirectedRoute
new_routes now link_id (route_id ∷ ids) ((a, b) ∷ routes) =
    record {
      route_id = route_id;
      from_endpoint_id = a;
      to_endpoint_id = b;
      created_at = now;
      status = LinkStatus.active;
      created_by_link_id = some link_id;
    }
    ∷ new_routes now link_id ids routes
new_routes now link_id _ _ = []

-- What follows the claim of the code, in the same transaction.
unfoldable pub connect : ℕ → ℕ → List ℕ → LinkCode → ℕ → Db → Result (Link × Db)
connect now link_id route_ids code dest_id db = do
  refuse_if (source_unavailable (get_endpoint db code.source_endpoint_id))
      source_endpoint_unavailable
  refuse_if (exact_active_link_exists db code.source_endpoint_id dest_id code.requested_mode)
      duplicate_active_link
  let routes = resolve_redeem_routes code.source_endpoint_id dest_id code.requested_mode
  refuse_if (any_route_exists db routes) active_route_exists_already
  let link : Link = record {
    link_id = link_id;
    endpoint_a_id = code.source_endpoint_id;
    endpoint_b_id = dest_id;
    mode = code.requested_mode;
    created_at = now;
    status = LinkStatus.active;
  }
  ok (
    link,
    record db {
      links = db.links ++ link ∷ [];
      routes = db.routes ++ new_routes now link_id route_ids routes;
    },
  )

-- The code that was read from `db`; the writes go to `at_write`, which another request may have
-- changed in between. An expired code is committed as such, and the error is raised after that.
unfoldable pub redeem_code : ℕ → ℕ → List ℕ → ℕ → Option LinkCode → Db → Result Link × Db
redeem_code now link_id route_ids dest_id none at_write = (err link_code_not_found, at_write)
redeem_code now link_id route_ids dest_id (some code) at_write =
    if leb code.expires_at now
    then (err link_code_expired, set_code_status code.link_code_id CodeStatus.expired at_write)
    else atomically at_write do
      refuse_if (not (is_active_code code.status)) link_code_not_active
      refuse_if (code.source_endpoint_id == dest_id) self_link
      refuse_if (not (claim code.link_code_id at_write).0) link_code_not_active
      connect now link_id route_ids code dest_id (claim code.link_code_id at_write).1

unfoldable pub redeem_checked : Result Endpoint → (Db → Result Link × Db) → Db → Result Link × Db
redeem_checked (err e) rest at_write = (err e, at_write)
redeem_checked (ok endpoint) rest at_write = rest at_write

unfoldable pub redeem_link_code : ℕ → ℕ → List ℕ → String → ℕ → Node → Db → Db → Result Link × Db
redeem_link_code now link_id route_ids code dest_id node db at_write =
    redeem_checked (do ensure_node_active node; ensure_node_owns_endpoint db node.node_id dest_id)
      (redeem_code now link_id route_ids dest_id (find_row (λ c. str_eq c.code code) db.link_codes))
      at_write

-- Newest first.
unfoldable pub list_links : Node → Db → List Link
list_links node db =
    let owned = owns_endpoint db node.node_id in
    order_by_desc (λ l. l.created_at)
      (select_rows
        (λ l. is_active_link l.status && (owned l.endpoint_a_id || owned l.endpoint_b_id)) db.links)

check_link : Option Link → Result Link
check_link none = err link_not_found
check_link (some l) = ok l

-- DirectedRoute.created_by_link_id == link_id
unfoldable pub created_by : ℕ → DirectedRoute → Bool
created_by link_id r = elim r.created_by_link_id [ none ↦ false | some l ↦ l == link_id ]

unfoldable pub revoke_link : ℕ → Node → Db → Result ℕ × Db
unfolding check_link
revoke_link link_id node db = atomically db do
  link ← check_link (find_row (λ l. l.link_id == link_id) db.links)
  let owned = owns_endpoint db node.node_id
  refuse_if (not (owned link.endpoint_a_id || owned link.endpoint_b_id)) link_not_visible
  ok (
    link_id,
    record db {
      links =
          update_rows (λ l. l.link_id == link_id) (λ l. record l { status = LinkStatus.revoked })
            db.links;
      routes =
          update_rows (created_by link_id) (λ r. record r { status = LinkStatus.revoked })
            db.routes;
    },
  )
