-- ===== src/Services.antt =====
-- arqs-server/app/services.py. The time is an argument of each call.
pub mod Live
pub mod Cleanup
use arqs.Prelude.{
  ℕ, ◌+◌, ◌*◌, ◌-◌, Bool, true, false, not, ◌&&◌, ◌||◌, Option, none, some, List, [], ◌∷◌, String,
  str_eq, ◌==◌, leb, ltb, if◌then◌else◌, has_row, find_row, delete_rows, select_rows, update_rows,
  count_rows, sum_rows, is_some, ◌++◌,
}
use arqs.Json.{Json, null, str, obj, Fields, end, field, dumps_size, dict_eq}
use arqs.Http.{
  NodeStatus, HttpError, Result, ok, err, ◌>>=◌, ◌>>◌, refuse_if, node_inactive, endpoint_not_found,
  endpoint_not_owned, endpoint_not_active, rate_limit_exceeded, endpoint_packet_cap,
  endpoint_byte_cap, node_byte_cap, global_packet_cap, global_byte_cap, storage_cap,
}
use arqs.Models.{
  Node, Endpoint, Link, LinkMode, bidirectional, a_to_b, b_to_a, DirectedRoute, LinkCode,
  CodeStatus, Packet, Delivery, SendEvent, Db, is_active_node, is_active_endpoint, is_active_link,
  is_active_code, same_mode,
}
use arqs.Models.Cascade.{delete_packets}
use arqs.Config.{RetentionConfig, RuntimeSettings}

body_json : Option String → Json
body_json none = null
body_json (some s) = str s

-- The compact JSON text of the envelope, in bytes.
unfoldable pub payload_size_bytes : Fields → Option String → Fields → Fields → ℕ
unfolding body_json dumps_size
payload_size_bytes headers body payload meta = dumps_size (
    obj (
      field "headers" (obj headers)
        (field "body" (body_json body) (field "data" (obj payload) (field "meta" (obj meta) end)))))

unfoldable pub get_endpoint : Db → ℕ → Option Endpoint
get_endpoint db endpoint_id = find_row (λ e. e.endpoint_id == endpoint_id) db.endpoints

unfoldable pub get_node : Db → ℕ → Option Node
get_node db node_id = find_row (λ n. n.node_id == node_id) db.nodes

unfoldable pub get_packet : Db → ℕ → Option Packet
get_packet db packet_id = find_row (λ p. p.packet_id == packet_id) db.packets

check_endpoint : ℕ → Option Endpoint → Result Endpoint
check_endpoint node_id none = err endpoint_not_found
check_endpoint node_id (some e) =
    if not (e.node_id == node_id)
    then err endpoint_not_owned
    else if not (is_active_endpoint e.status)
    then err endpoint_not_active
    else ok e

unfoldable pub ensure_node_owns_endpoint : Db → ℕ → ℕ → Result Endpoint
unfolding check_endpoint get_endpoint
ensure_node_owns_endpoint db node_id endpoint_id =
    check_endpoint node_id (get_endpoint db endpoint_id)

unfoldable pub ensure_node_active : Node → Result (Unit {0})
ensure_node_active node = refuse_if (not (is_active_node node.status)) (node_inactive node.status)

-- active_packet_clause: no expiry, or one after the current time
abbrev pub active_packet : ℕ → Packet → Bool
active_packet now p = elim p.expires_at [ none ↦ true | some t ↦ ltb now t ]

abbrev pub is_packet_expired : ℕ → Packet → Bool
is_packet_expired now p = elim p.expires_at [ none ↦ false | some t ↦ leb t now ]

-- active_link_code_clause
abbrev pub active_link_code : ℕ → LinkCode → Bool
active_link_code now c = is_active_code c.status && ltb now c.expires_at

unfoldable pub effective_link_code_status : ℕ → LinkCode → CodeStatus
effective_link_code_status now c =
    if is_active_code c.status && leb c.expires_at now then CodeStatus.expired else c.status

-- JOIN packets ON packets.packet_id = deliveries.packet_id
unfoldable pub join_packets : List Packet → List Delivery → List (Delivery × Packet)
join_packets packets [] = []
join_packets packets (d ∷ ds) =
    let rest = join_packets packets ds in
    elim (find_row (λ p. p.packet_id == d.packet_id) packets) [
      | none ↦ rest
      | some p ↦ (d, p) ∷ rest
    ]

-- The queued deliveries that are not expired, with their packets.
unfoldable pub live_deliveries : ℕ → Db → List (Delivery × Packet)
unfolding join_packets
live_deliveries now db =
    select_rows (λ r. active_packet now r.1) (join_packets db.packets db.deliveries)

pub record CleanupCounts : Type 0 where
  pub expired_link_codes : ℕ
  pub expired_packets : ℕ
  pub pruned_send_events : ℕ

unfoldable pub cleanup_expired : ℕ → RuntimeSettings → Db → CleanupCounts × Db
unfolding delete_packets
cleanup_expired now settings db =
    let stale_code = λ (c : LinkCode). is_active_code c.status && leb c.expires_at now in
    let stale_event =
      λ (e : SendEvent). ltb (e.created_at + settings.send_window_seconds * 2) now in
    let swept = delete_packets (is_packet_expired now) db in
    (
      record {
        expired_link_codes = count_rows stale_code db.link_codes;
        expired_packets = count_rows (is_packet_expired now) db.packets;
        pruned_send_events = count_rows stale_event db.send_events;
      },
      record swept {
        link_codes =
            update_rows stale_code (λ c. record c { status = CodeStatus.expired }) db.link_codes;
        send_events = delete_rows stale_event db.send_events;
      },
    )

unfoldable pub packet_expiry : ℕ → RetentionConfig → Option ℕ → Option ℕ
packet_expiry now cfg none =
    if cfg.no_expiry then none else some (now + cfg.default_packet_ttl_seconds)
packet_expiry now cfg (some ttl) = some (now + ttl)

-- The events of the node that the current window still counts.
abbrev pub recent_event : ℕ → RuntimeSettings → ℕ → SendEvent → Bool
recent_event now settings node_id e =
    (e.node_id == node_id) && leb now (e.created_at + settings.send_window_seconds)

-- `event_id` is the new uuid of the event that an allowed send adds.
unfoldable pub enforce_send_rate_limit : ℕ → RuntimeSettings → ℕ → ℕ → Db → Result Db
enforce_send_rate_limit now settings node_id event_id db = do
  refuse_if
      (leb settings.max_sends_per_window
        (count_rows (recent_event now settings node_id) db.send_events))
      rate_limit_exceeded
  ok (record db {
    send_events =
        db.send_events ++ record { event_id = event_id; node_id = node_id; created_at = now } ∷ [];
  })

-- COUNT(delivery_id) and SUM(payload_bytes) over the live deliveries that the test accepts.
abbrev pub queued_packets : (Delivery → Bool) → List (Delivery × Packet) → ℕ
queued_packets p = count_rows (λ r. p r.0)

abbrev pub queued_bytes : (Delivery → Bool) → List (Delivery × Packet) → ℕ
queued_bytes p = sum_rows (λ r. p r.0) (λ r. r.1.payload_bytes)

abbrev pub for_endpoint : ℕ → Delivery → Bool
for_endpoint a d = d.destination_endpoint_id == a

abbrev pub for_node : ℕ → Delivery → Bool
for_node a d = d.destination_node_id == a

abbrev pub for_any : Delivery → Bool
for_any d = true

-- `storage_bytes` is current_storage_usage_bytes: the sizes of the database's files.
unfoldable pub enforce_queue_limits : ℕ → RuntimeSettings → ℕ → ℕ → ℕ → ℕ → Db → Result (Unit {0})
enforce_queue_limits now settings storage_bytes dest_endpoint_id dest_node_id packet_bytes db =
    let live = live_deliveries now db in
    do
      refuse_if
          (leb settings.max_queued_packets_per_endpoint
            (queued_packets (for_endpoint dest_endpoint_id) live))
          endpoint_packet_cap
      refuse_if
          (ltb settings.max_queued_bytes_per_endpoint
            (queued_bytes (for_endpoint dest_endpoint_id) live + packet_bytes))
          endpoint_byte_cap
      refuse_if
          (ltb settings.max_queued_bytes_per_node
            (queued_bytes (for_node dest_node_id) live + packet_bytes))
          node_byte_cap
      refuse_if (leb settings.max_total_queued_packets (queued_packets for_any live))
          global_packet_cap
      refuse_if (ltb settings.max_total_queued_bytes (queued_bytes for_any live + packet_bytes))
          global_byte_cap
      refuse_if
          (leb settings.max_storage_bytes storage_bytes
            || ltb settings.max_storage_bytes (storage_bytes + packet_bytes))
          storage_cap

abbrev pub is_route : ℕ → ℕ → DirectedRoute → Bool
is_route from_id to_id r =
    (r.from_endpoint_id == from_id) && (r.to_endpoint_id == to_id) && is_active_link r.status

unfoldable pub active_route_exists : Db → ℕ → ℕ → Bool
active_route_exists db from_id to_id = has_row (is_route from_id to_id) db.routes

-- `LinkMode` has no value for which the source raises "invalid link mode".
unfoldable pub resolve_redeem_routes : ℕ → ℕ → LinkMode → List (ℕ × ℕ)
resolve_redeem_routes source dest bidirectional = (source, dest) ∷ (dest, source) ∷ []
resolve_redeem_routes source dest a_to_b = (source, dest) ∷ []
resolve_redeem_routes source dest b_to_a = (dest, source) ∷ []

abbrev joins : ℕ → ℕ → Link → Bool
joins a b l = (l.endpoint_a_id == a) && (l.endpoint_b_id == b)

unfoldable pub exact_active_link_exists : Db → ℕ → ℕ → LinkMode → Bool
exact_active_link_exists db source dest bidirectional =
    has_row
      (λ l.
        is_active_link l.status
        && same_mode l.mode bidirectional
        && (joins source dest l || joins dest source l))
      db.links
exact_active_link_exists db source dest mode =
    has_row (λ l. is_active_link l.status && same_mode l.mode mode && joins source dest l) db.links

unfoldable pub body_eq : Option String → Option String → Bool
body_eq none none = true
body_eq (some s) (some t) = str_eq s t
body_eq _ _ = false

unfoldable pub packet_matches :
    Packet → ℕ → ℕ → ℕ → Fields → Option String → Fields → Fields → ℕ → Bool
packet_matches existing sender_node_id from_id to_id headers body payload meta version =
    (existing.sender_node_id == sender_node_id)
    && (existing.from_endpoint_id == from_id)
    && (existing.to_endpoint_id == to_id)
    && dict_eq existing.headers headers
    && body_eq existing.body body
    && dict_eq existing.payload payload
    && dict_eq existing.meta meta
    && (existing.version == version)
