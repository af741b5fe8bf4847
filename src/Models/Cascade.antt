-- ===== src/Models/Cascade.antt =====
-- What `ON DELETE CASCADE` and `ON DELETE SET NULL` of arqs-server/app/models.py remove, with
-- `PRAGMA foreign_keys=ON` (arqs-server/app/db.py).
use arqs.Prelude.{
  ℕ, Bool, ◌&&◌, ◌||◌, none, some, List, ◌==◌, has_row, delete_rows, map, if◌then◌else◌,
}
use arqs.Models.{Link, DirectedRoute, Packet, Db}

-- DELETE FROM packets WHERE p, and the deliveries of those packets.
unfoldable pub delete_packets : (Packet → Bool) → Db → Db
delete_packets p db = record db {
  packets = delete_rows p db.packets;
  deliveries =
      delete_rows (λ d. has_row (λ k. p k && (k.packet_id == d.packet_id)) db.packets)
        db.deliveries;
}

-- A route outlives the link that created it only without the reference.
unfoldable pub forget_link : (Link → Bool) → List Link → DirectedRoute → DirectedRoute
forget_link p links r = elim r.created_by_link_id [
  | none ↦ r
  | some l ↦
      if has_row (λ k. p k && (k.link_id == l)) links
      then record r { created_by_link_id = none }
      else r
]

-- DELETE FROM endpoints WHERE gone endpoint_id, and the rows of the other tables that name one.
unfoldable pub delete_endpoints : (ℕ → Bool) → Db → Db
unfolding delete_packets forget_link
delete_endpoints gone db =
    let dead_link = λ (l : Link). gone l.endpoint_a_id || gone l.endpoint_b_id in
    let swept = delete_packets (λ k. gone k.from_endpoint_id || gone k.to_endpoint_id) db in
    record swept {
      endpoints = delete_rows (λ e. gone e.endpoint_id) db.endpoints;
      links = delete_rows dead_link db.links;
      routes =
          map (forget_link dead_link db.links)
            (delete_rows (λ r. gone r.from_endpoint_id || gone r.to_endpoint_id) db.routes);
      link_codes = delete_rows (λ c. gone c.source_endpoint_id) db.link_codes;
      deliveries = delete_rows (λ d. gone d.destination_endpoint_id) swept.deliveries;
    }

-- Endpoint.endpoint_id of the node's endpoints
unfoldable pub owns_endpoint : Db → ℕ → ℕ → Bool
owns_endpoint db node_id endpoint_id =
    has_row (λ e. (e.endpoint_id == endpoint_id) && (e.node_id == node_id)) db.endpoints

-- DELETE FROM nodes WHERE node_id, with its endpoints, its packets, its deliveries and its events.
unfoldable pub delete_node : ℕ → Db → Db
unfolding delete_endpoints owns_endpoint delete_packets
delete_node node_id db =
    let swept =
      delete_packets (λ k. k.sender_node_id == node_id)
        (delete_endpoints (owns_endpoint db node_id) db) in
    record swept {
      nodes = delete_rows (λ n. n.node_id == node_id) swept.nodes;
      deliveries = delete_rows (λ d. d.destination_node_id == node_id) swept.deliveries;
      send_events = delete_rows (λ e. e.node_id == node_id) swept.send_events;
    }
