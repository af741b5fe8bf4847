-- ===== src/Server/Consistent/Inserts.antt =====
-- A row whose keys the constraints accept can be added, and an update of what no constraint reads
-- changes nothing.
use arqs.Server.Consistent.{IsConsistent, knows_link}
use arqs.Models.{Delivery, Packet, Db, DirectedRoute, Endpoint, Link, LinkCode, Node, SendEvent}
use arqs.Server.Packets.{can_insert, insert_packet}
use arqs.Prelude.{
  All-append, All, Refers-insert_target, has_row-insert, All-insert, [], inr, All-imp, arith, inl,
  ◌∷◌, HasUnique-insert, Option-cases, false, ◌++◌, true, ◌==◌, has_row, List, ◌≡◌,
}

pub add_node-IsConsistent :
    (n : Node) (db : Db)
    → has_row (λ m. m.node_id == n.node_id) db.nodes ≡ false
    → IsConsistent db
    → IsConsistent (record db { nodes = db.nodes ++ n ∷ [] })
add_node-IsConsistent n db fresh c = record {
  registry = record {
    unique_nodes = HasUnique-insert (λ m. m.node_id) db.nodes n fresh c.registry.unique_nodes;
    unique_endpoints = c.registry.unique_endpoints;
    endpoint_node = Refers-insert_target _ _ db.nodes n db.endpoints c.registry.endpoint_node;
  };
  topology = c.topology;
  queue = record {
    unique_packets = c.queue.unique_packets;
    unique_deliveries = c.queue.unique_deliveries;
    unique_delivery_ids = c.queue.unique_delivery_ids;
    packet_sender = Refers-insert_target _ _ db.nodes n db.packets c.queue.packet_sender;
    packet_from = c.queue.packet_from;
    packet_to = c.queue.packet_to;
    delivery_packet = c.queue.delivery_packet;
    delivery_node = Refers-insert_target _ _ db.nodes n db.deliveries c.queue.delivery_node;
    delivery_endpoint = c.queue.delivery_endpoint;
  };
  unique_events = c.unique_events;
  event_node = Refers-insert_target _ _ db.nodes n db.send_events c.event_node;
}

pub add_endpoint-IsConsistent :
    (e : Endpoint) (db : Db)
    → has_row (λ f. f.endpoint_id == e.endpoint_id) db.endpoints ≡ false
    → has_row (λ n. n.node_id == e.node_id) db.nodes ≡ true
    → IsConsistent db
    → IsConsistent (record db { endpoints = db.endpoints ++ e ∷ [] })
add_endpoint-IsConsistent e db fresh owner c = record {
  registry = record {
    unique_nodes = c.registry.unique_nodes;
    unique_endpoints =
        HasUnique-insert (λ f. f.endpoint_id) db.endpoints e fresh c.registry.unique_endpoints;
    endpoint_node = All-insert _ db.endpoints e c.registry.endpoint_node owner;
  };
  topology = record {
    unique_links = c.topology.unique_links;
    unique_codes = c.topology.unique_codes;
    link_a = Refers-insert_target _ _ db.endpoints e db.links c.topology.link_a;
    link_b = Refers-insert_target _ _ db.endpoints e db.links c.topology.link_b;
    route_from = Refers-insert_target _ _ db.endpoints e db.routes c.topology.route_from;
    route_to = Refers-insert_target _ _ db.endpoints e db.routes c.topology.route_to;
    route_link = c.topology.route_link;
    code_source = Refers-insert_target _ _ db.endpoints e db.link_codes c.topology.code_source;
  };
  queue = record {
    unique_packets = c.queue.unique_packets;
    unique_deliveries = c.queue.unique_deliveries;
    unique_delivery_ids = c.queue.unique_delivery_ids;
    packet_sender = c.queue.packet_sender;
    packet_from = Refers-insert_target _ _ db.endpoints e db.packets c.queue.packet_from;
    packet_to = Refers-insert_target _ _ db.endpoints e db.packets c.queue.packet_to;
    delivery_packet = c.queue.delivery_packet;
    delivery_node = c.queue.delivery_node;
    delivery_endpoint =
        Refers-insert_target _ _ db.endpoints e db.deliveries c.queue.delivery_endpoint;
  };
  unique_events = c.unique_events;
  event_node = c.event_node;
}

pub add_code-IsConsistent :
    (k : LinkCode) (db : Db)
    → has_row (λ e. e.endpoint_id == k.source_endpoint_id) db.endpoints ≡ true
    → has_row (λ c. c.link_code_id == k.link_code_id) db.link_codes ≡ false
    → IsConsistent db
    → IsConsistent (record db { link_codes = db.link_codes ++ k ∷ [] })
add_code-IsConsistent k db source fresh c = record {
  registry = c.registry;
  topology = record {
    unique_links = c.topology.unique_links;
    unique_codes =
        HasUnique-insert (λ c. c.link_code_id) db.link_codes k fresh c.topology.unique_codes;
    link_a = c.topology.link_a;
    link_b = c.topology.link_b;
    route_from = c.topology.route_from;
    route_to = c.topology.route_to;
    route_link = c.topology.route_link;
    code_source = All-insert _ db.link_codes k c.topology.code_source source;
  };
  queue = c.queue;
  unique_events = c.unique_events;
  event_node = c.event_node;
}

pub add_event-IsConsistent :
    (e : SendEvent) (db : Db)
    → has_row (λ n. n.node_id == e.node_id) db.nodes ≡ true
    → has_row (λ x. x.event_id == e.event_id) db.send_events ≡ false
    → IsConsistent db
    → IsConsistent (record db { send_events = db.send_events ++ e ∷ [] })
add_event-IsConsistent e db sender fresh c = record {
  registry = c.registry;
  topology = c.topology;
  queue = c.queue;
  unique_events = HasUnique-insert (λ x. x.event_id) db.send_events e fresh c.unique_events;
  event_node = All-insert _ db.send_events e c.event_node sender;
}

knows_link-insert :
    (l : Link) (links : List Link) (r : DirectedRoute)
    → knows_link links r ≡ true
    → knows_link (links ++ l ∷ []) r ≡ true
knows_link-insert l links r h = elim (Option-cases r.created_by_link_id) [
  | inl e ↦ ground arith
  | inr (i, e) ↦ ground (arith, has_row-insert (λ k. k.link_id == i) links l)
]

pub add_link-IsConsistent :
    (l : Link) (db : Db)
    → has_row (λ e. e.endpoint_id == l.endpoint_a_id) db.endpoints ≡ true
    → has_row (λ e. e.endpoint_id == l.endpoint_b_id) db.endpoints ≡ true
    → has_row (λ k. k.link_id == l.link_id) db.links ≡ false
    → IsConsistent db
    → IsConsistent (record db { links = db.links ++ l ∷ [] })
add_link-IsConsistent l db a b fresh c = record {
  registry = c.registry;
  topology = record {
    unique_links = HasUnique-insert (λ k. k.link_id) db.links l fresh c.topology.unique_links;
    unique_codes = c.topology.unique_codes;
    link_a = All-insert _ db.links l c.topology.link_a a;
    link_b = All-insert _ db.links l c.topology.link_b b;
    route_from = c.topology.route_from;
    route_to = c.topology.route_to;
    route_link =
        All-imp _ _ db.routes (λ r h. knows_link-insert l db.links r h) c.topology.route_link;
    code_source = c.topology.code_source;
  };
  queue = c.queue;
  unique_events = c.unique_events;
  event_node = c.event_node;
}

-- Both ends of the route are stored, and the link that it names.
abbrev pub IsRoute : List Endpoint → List Link → DirectedRoute → Type 0
IsRoute endpoints links r =
    (has_row (λ e. e.endpoint_id == r.from_endpoint_id) endpoints ≡ true)
    × (has_row (λ e. e.endpoint_id == r.to_endpoint_id) endpoints ≡ true)
    × (knows_link links r ≡ true)

pub add_routes-IsConsistent :
    (rs : List DirectedRoute) (db : Db)
    → All (IsRoute db.endpoints db.links) rs
    → IsConsistent db
    → IsConsistent (record db { routes = db.routes ++ rs })
add_routes-IsConsistent rs db h c = record {
  registry = c.registry;
  topology = record {
    unique_links = c.topology.unique_links;
    unique_codes = c.topology.unique_codes;
    link_a = c.topology.link_a;
    link_b = c.topology.link_b;
    route_from = All-append _ db.routes rs c.topology.route_from (All-imp _ _ rs (λ r x. x.0) h);
    route_to = All-append _ db.routes rs c.topology.route_to (All-imp _ _ rs (λ r x. x.1) h);
    route_link = All-append _ db.routes rs c.topology.route_link (All-imp _ _ rs (λ r x. x.2) h);
    code_source = c.topology.code_source;
  };
  queue = c.queue;
  unique_events = c.unique_events;
  event_node = c.event_node;
}

pub insert_packet-IsConsistent :
    (p : Packet) (d : Delivery) (db : Db)
    → d.packet_id ≡ p.packet_id
    → can_insert p d db ≡ true
    → IsConsistent db
    → IsConsistent (insert_packet p d db)
unfolding insert_packet can_insert
insert_packet-IsConsistent p d db same h c = record {
  registry = c.registry;
  topology = c.topology;
  queue = record {
    unique_packets =
        HasUnique-insert (λ k. k.packet_id) db.packets p (ground arith) c.queue.unique_packets;
    unique_deliveries =
        HasUnique-insert (λ e. e.packet_id) db.deliveries d (ground arith)
          c.queue.unique_deliveries;
    unique_delivery_ids =
        HasUnique-insert (λ e. e.delivery_id) db.deliveries d (ground arith)
          c.queue.unique_delivery_ids;
    packet_sender = All-insert _ db.packets p c.queue.packet_sender (ground arith);
    packet_from = All-insert _ db.packets p c.queue.packet_from (ground arith);
    packet_to = All-insert _ db.packets p c.queue.packet_to (ground arith);
    delivery_packet =
        All-insert _ db.deliveries d
          (Refers-insert_target _ _ db.packets p db.deliveries c.queue.delivery_packet)
          (ground (arith, has_row-insert (λ k. k.packet_id == d.packet_id) db.packets p, same));
    delivery_node = All-insert _ db.deliveries d c.queue.delivery_node (ground arith);
    delivery_endpoint = All-insert _ db.deliveries d c.queue.delivery_endpoint (ground arith);
  };
  unique_events = c.unique_events;
  event_node = c.event_node;
}
