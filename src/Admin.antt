-- ===== src/Admin.antt =====
-- The operator's view of the server, arqs-server/app/admin_services.py: node states, listings and statistics. A
-- listing returns the rows; the source then renames their columns. A limit is a number, of which only 0
-- is refused, and a status filter is one of the values that the source accepts.
pub mod States
pub mod Totals
pub mod Codes
use arqs.Server.Endpoints.{links_endpoint}
use arqs.Services.{
  queued_packets, queued_bytes, for_node, for_endpoint, effective_link_code_status,
  active_link_code, get_endpoint, live_deliveries,
}
use arqs.Models.Cascade.{owns_endpoint}
use arqs.Server.Links.{created_by}
use arqs.Http.{NodeStatus}
use arqs.Models.{
  is_active_code, is_active_link, Link, Node, Db, LinkCode, Packet, is_active_endpoint, CodeStatus,
  Delivery, Endpoint, LinkStatus,
}
use arqs.Prelude.{
  leb, ◌&&◌, min, [], count_rows, none, order_by, order_by_desc, select_rows, update_rows, ◌+◌,
  ◌||◌, false, find_row, has_row, map, some, take, ◌==◌, ◌∷◌, List, if◌then◌else◌, true, Bool,
  Option, ℕ, ◌≡◌,
}

-- AdminNotFoundError and AdminValidationError.
pub data AdminResult {ℓ} (A : Type ℓ) : Type ℓ where
  answer : A → AdminResult A
  not_found invalid : AdminResult A

-- _validate_positive_int
unfoldable pub with_limit {ℓ} : {A : Type ℓ} → ℕ → (ℕ → A) → AdminResult A
with_limit limit query = if limit == 0 then invalid else answer (query limit)

abbrev pub same_node_status : NodeStatus → NodeStatus → Bool
same_node_status NodeStatus.active NodeStatus.active = true
same_node_status NodeStatus.disabled NodeStatus.disabled = true
same_node_status NodeStatus.revoked NodeStatus.revoked = true
same_node_status _ _ = false

abbrev pub same_link_status : LinkStatus → LinkStatus → Bool
same_link_status LinkStatus.active LinkStatus.active = true
same_link_status LinkStatus.revoked LinkStatus.revoked = true
same_link_status _ _ = false

abbrev pub same_code_status : CodeStatus → CodeStatus → Bool
same_code_status CodeStatus.active CodeStatus.active = true
same_code_status CodeStatus.used CodeStatus.used = true
same_code_status CodeStatus.expired CodeStatus.expired = true
same_code_status CodeStatus.revoked CodeStatus.revoked = true
same_code_status _ _ = false

-- `.where(...)` only if the filter is given.
abbrev pub filtered {ℓ κ} : {A : Type ℓ} {B : Type κ} → (B → A → Bool) → Option B → List A → List A
filtered test none rows = rows
filtered test (some b) rows = select_rows (test b) rows

unfoldable pub list_nodes : Option NodeStatus → ℕ → Db → AdminResult (List Node)
unfolding with_limit
list_nodes status limit db = with_limit limit (λ n. take n (
    order_by_desc (λ x. x.created_at)
      (filtered (λ s x. same_node_status x.status s) status db.nodes)))

-- The values of `status` are those of a node; an endpoint's status is "active" or none of them.
abbrev endpoint_has_status : NodeStatus → Endpoint → Bool
endpoint_has_status NodeStatus.active e = is_active_endpoint e.status
endpoint_has_status _ e = false

unfoldable pub list_endpoints_admin :
    Option ℕ → Option NodeStatus → ℕ → Db → AdminResult (List Endpoint)
unfolding with_limit
list_endpoints_admin node_id status limit db = with_limit limit (λ n. take n (
    order_by_desc (λ x. x.created_at)
      (filtered endpoint_has_status status
        (filtered (λ a x. x.node_id == a) node_id db.endpoints))))

unfoldable pub list_links_admin : Option LinkStatus → ℕ → Db → AdminResult (List Link)
unfolding with_limit
list_links_admin status limit db = with_limit limit (λ n. take n (
    order_by_desc (λ x. x.created_at)
      (filtered (λ s x. same_link_status x.status s) status db.links)))

-- The clause of each filter.
unfoldable pub code_clause : ℕ → CodeStatus → LinkCode → Bool
code_clause now CodeStatus.active c = active_link_code now c
code_clause now CodeStatus.expired c =
    same_code_status c.status CodeStatus.expired
    || (is_active_code c.status && leb c.expires_at now)
code_clause now status c = same_code_status c.status status

-- Each code with the status that it is shown with.
unfoldable pub list_link_codes_admin :
    ℕ → Option CodeStatus → ℕ → Db → AdminResult (List (LinkCode × CodeStatus))
unfolding with_limit code_clause
list_link_codes_admin now status limit db = with_limit limit (λ n.
    map (λ c. (c, effective_link_code_status now c))
      (take n
        (order_by_desc (λ c. c.created_at) (filtered (code_clause now) status db.link_codes))))

unfoldable pub set_node_status : ℕ → NodeStatus → Db → AdminResult Db
set_node_status node_id status db =
    if has_row (λ n. n.node_id == node_id) db.nodes
    then answer (record db {
      nodes = update_rows (λ n. n.node_id == node_id) (λ n. record n { status = status }) db.nodes;
    })
    else not_found

abbrev pub disable_node : ℕ → Db → AdminResult Db
disable_node node_id = set_node_status node_id NodeStatus.disabled

abbrev pub enable_node : ℕ → Db → AdminResult Db
enable_node node_id = set_node_status node_id NodeStatus.active

abbrev pub revoke_node : ℕ → Db → AdminResult Db
revoke_node node_id = set_node_status node_id NodeStatus.revoked

-- The count of the routes is reported.
unfoldable pub revoke_link_admin : ℕ → Db → AdminResult (ℕ × Db)
unfolding created_by
revoke_link_admin link_id db =
    if has_row (λ l. l.link_id == link_id) db.links
    then answer (
      count_rows (created_by link_id) db.routes,
      record db {
        links =
            update_rows (λ l. l.link_id == link_id) (λ l. record l { status = LinkStatus.revoked })
              db.links;
        routes =
            update_rows (created_by link_id) (λ r. record r { status = LinkStatus.revoked })
              db.routes;
      },
    )
    else not_found

-- One row of GROUP BY: the key, COUNT, SUM and MIN.
pub record QueueStats : Type 0 where
  pub key : ℕ
  pub queued_packets : ℕ
  pub queued_bytes : ℕ
  pub oldest_queued_at : ℕ

unfoldable pub add_to_group : (Delivery → ℕ) → Delivery × Packet → List QueueStats → List QueueStats
add_to_group key r [] =
    record {
      key = key r.0;
      queued_packets = 1;
      queued_bytes = r.1.payload_bytes;
      oldest_queued_at = r.0.queued_at;
    }
    ∷ []
add_to_group key r (g ∷ gs) =
    let rest = add_to_group key r gs in
    if g.key == key r.0
    then record g {
      queued_packets = g.queued_packets + 1;
      queued_bytes = g.queued_bytes + r.1.payload_bytes;
      oldest_queued_at = min g.oldest_queued_at r.0.queued_at;
    }
      ∷ gs
    else g ∷ rest

unfoldable pub group_rows : (Delivery → ℕ) → List (Delivery × Packet) → List QueueStats
unfolding add_to_group
group_rows key [] = []
group_rows key (r ∷ rs) = add_to_group key r (group_rows key rs)

-- ORDER BY count DESC, bytes DESC
unfoldable pub queue_stats : (Delivery → ℕ) → ℕ → ℕ → Db → AdminResult (List QueueStats)
unfolding with_limit group_rows
queue_stats key now limit db = with_limit limit (λ n. take n (
    order_by_desc (λ g. g.queued_packets)
      (order_by_desc (λ g. g.queued_bytes) (group_rows key (live_deliveries now db)))))

unfoldable pub get_queue_stats_by_node : ℕ → ℕ → Db → AdminResult (List QueueStats)
unfolding queue_stats
get_queue_stats_by_node = queue_stats (λ d. d.destination_node_id)

unfoldable pub get_queue_stats_by_endpoint : ℕ → ℕ → Db → AdminResult (List QueueStats)
unfolding queue_stats
get_queue_stats_by_endpoint = queue_stats (λ d. d.destination_endpoint_id)

unfoldable pub get_oldest_queued_delivery_info : ℕ → Db → Option (Delivery × Packet)
get_oldest_queued_delivery_info now db =
    find_row (λ r. true) (order_by (λ r. r.0.queued_at) (live_deliveries now db))

pub record NodeDetail : Type 0 where
  pub endpoint_count : ℕ
  pub active_link_count : ℕ
  pub active_link_code_count : ℕ
  pub queued_inbound_packets : ℕ
  pub queued_inbound_bytes : ℕ

-- Without endpoints `owns_endpoint` accepts nothing, which are the zeros of the source.
unfoldable pub get_node_detail : ℕ → ℕ → Db → AdminResult NodeDetail
unfolding owns_endpoint
get_node_detail now node_id db =
    let owned = owns_endpoint db node_id in
    let live = live_deliveries now db in
    if has_row (λ n. n.node_id == node_id) db.nodes
    then answer (record {
      endpoint_count = count_rows (λ e. e.node_id == node_id) db.endpoints;
      active_link_count =
          count_rows
            (λ l. is_active_link l.status && (owned l.endpoint_a_id || owned l.endpoint_b_id))
            db.links;
      active_link_code_count =
          count_rows (λ c. active_link_code now c && owned c.source_endpoint_id) db.link_codes;
      queued_inbound_packets = queued_packets (for_node node_id) live;
      queued_inbound_bytes = queued_bytes (for_node node_id) live;
    })
    else not_found

pub record EndpointDetail : Type 0 where
  pub endpoint : Endpoint
  pub queued_inbound_packets : ℕ
  pub queued_inbound_bytes : ℕ
  pub active_link_count : ℕ

unfoldable pub get_endpoint_detail : ℕ → ℕ → Db → AdminResult EndpointDetail
get_endpoint_detail now endpoint_id db = elim (get_endpoint db endpoint_id) [
  | none ↦ not_found
  | some e ↦ answer (record {
    endpoint = e;
    queued_inbound_packets = queued_packets (for_endpoint endpoint_id) (live_deliveries now db);
    queued_inbound_bytes = queued_bytes (for_endpoint endpoint_id) (live_deliveries now db);
    active_link_count = count_rows (links_endpoint endpoint_id) db.links;
  })
]
