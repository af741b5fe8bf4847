-- ===== src/Server/Endpoints.antt =====
-- list_endpoints, create_endpoint and delete_endpoint of arqs-server/app/main.py.
pub mod Deleted
use arqs.Prelude.{
  ℕ, Bool, false, ◌&&◌, ◌||◌, Option, none, some, List, [], ◌∷◌, ◌++◌, String, str_eq, ◌==◌, ltb,
  count_rows, select_rows, order_by,
}
use arqs.Json.{Fields, end}
use arqs.Http.{
  Result, ok, ◌>>=◌, ◌>>◌, refuse_if, default_endpoint_deletion, endpoint_linked_or_queued,
}
use arqs.Models.{Node, Endpoint, EndpointStatus, Link, Db, is_active_link}
use arqs.Models.Cascade.{delete_endpoints}
use arqs.Services.{
  ensure_node_active, ensure_node_owns_endpoint, live_deliveries, queued_packets, for_endpoint,
}
use arqs.Txn.{atomically}

unfoldable pub list_endpoints : Node → Db → List Endpoint
list_endpoints node db =
    order_by (λ e. e.created_at) (select_rows (λ e. e.node_id == node.node_id) db.endpoints)

abbrev or_empty : Option Fields → Fields
or_empty none = end
or_empty (some fs) = fs

unfoldable pub create_endpoint :
    ℕ → ℕ → Option String → Option String → Option Fields → Node → Db → Result Endpoint × Db
unfolding ensure_node_active
create_endpoint now endpoint_id name kind meta node db = atomically db do
  ensure_node_active node
  let endpoint : Endpoint = record {
    endpoint_id = endpoint_id;
    node_id = node.node_id;
    endpoint_name = name;
    kind = kind;
    meta = some (or_empty meta);
    created_at = now;
    status = EndpointStatus.active;
  }
  ok (endpoint, record db { endpoints = db.endpoints ++ endpoint ∷ [] })

abbrev is_default : Option String → Bool
is_default none = false
is_default (some name) = str_eq name "default"

abbrev pub links_endpoint : ℕ → Link → Bool
links_endpoint a l = is_active_link l.status && ((l.endpoint_a_id == a) || (l.endpoint_b_id == a))

unfoldable pub delete_endpoint : ℕ → ℕ → Node → Db → Result ℕ × Db
unfolding ensure_node_owns_endpoint delete_endpoints
delete_endpoint now endpoint_id node db = atomically db do
  endpoint ← ensure_node_owns_endpoint db node.node_id endpoint_id
  refuse_if (is_default endpoint.endpoint_name) default_endpoint_deletion
  refuse_if
      (ltb 0 (count_rows (links_endpoint endpoint_id) db.links)
        || ltb 0 (queued_packets (for_endpoint endpoint_id) (live_deliveries now db)))
      endpoint_linked_or_queued
  ok (endpoint_id, delete_endpoints (λ a. a == endpoint_id) db)
