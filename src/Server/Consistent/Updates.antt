-- ===== src/Server/Consistent/Updates.antt =====
-- An update of what no constraint reads changes nothing.
use arqs.Server.Consistent.{IsConsistent, knows_link}
use arqs.Models.{LinkStatus, Db, DirectedRoute, Link, LinkCode, Node}
use arqs.Prelude.{
  ◌==◌, has_row-update_other, inr, arith, refl, All-imp, Refers-update_target, inl, All-update,
  HasUnique-update, Option-cases, true, update_rows, List, Bool, ◌≡◌,
}

-- UPDATE of a column that is no key.
pub update_nodes-IsConsistent :
    (p : Node → Bool) (f : Node → Node) (db : Db)
    → ((n : Node) → (f n).node_id ≡ n.node_id)
    → IsConsistent db
    → IsConsistent (record db { nodes = update_rows p f db.nodes })
update_nodes-IsConsistent p f db same c = record {
  registry = record {
    unique_nodes = HasUnique-update (λ n. n.node_id) p f db.nodes same c.registry.unique_nodes;
    unique_endpoints = c.registry.unique_endpoints;
    endpoint_node =
        Refers-update_target _ _ p f db.nodes db.endpoints same c.registry.endpoint_node;
  };
  topology = c.topology;
  queue = record {
    unique_packets = c.queue.unique_packets;
    unique_deliveries = c.queue.unique_deliveries;
    unique_delivery_ids = c.queue.unique_delivery_ids;
    packet_sender = Refers-update_target _ _ p f db.nodes db.packets same c.queue.packet_sender;
    packet_from = c.queue.packet_from;
    packet_to = c.queue.packet_to;
    delivery_packet = c.queue.delivery_packet;
    delivery_node = Refers-update_target _ _ p f db.nodes db.deliveries same c.queue.delivery_node;
    delivery_endpoint = c.queue.delivery_endpoint;
  };
  unique_events = c.unique_events;
  event_node = Refers-update_target _ _ p f db.nodes db.send_events same c.event_node;
}

pub update_codes-IsConsistent :
    (p : LinkCode → Bool) (f : LinkCode → LinkCode) (db : Db)
    → ((k : LinkCode) → (f k).source_endpoint_id ≡ k.source_endpoint_id)
    → ((k : LinkCode) → (f k).link_code_id ≡ k.link_code_id)
    → IsConsistent db
    → IsConsistent (record db { link_codes = update_rows p f db.link_codes })
update_codes-IsConsistent p f db same same_id c = record {
  registry = c.registry;
  topology = record {
    unique_links = c.topology.unique_links;
    unique_codes =
        HasUnique-update (λ k. k.link_code_id) p f db.link_codes same_id c.topology.unique_codes;
    link_a = c.topology.link_a;
    link_b = c.topology.link_b;
    route_from = c.topology.route_from;
    route_to = c.topology.route_to;
    route_link = c.topology.route_link;
    code_source = All-update p f _ db.link_codes (λ k h. rw (same k) h) c.topology.code_source;
  };
  queue = c.queue;
  unique_events = c.unique_events;
  event_node = c.event_node;
}

knows_link-update :
    (p : Link → Bool) (f : Link → Link) (links : List Link) (r : DirectedRoute)
    → ((l : Link) → (f l).link_id ≡ l.link_id)
    → knows_link links r ≡ true
    → knows_link (update_rows p f links) r ≡ true
knows_link-update p f links r same h = elim (Option-cases r.created_by_link_id) [
  | inl e ↦ ground arith
  | inr (i, e) ↦
      ground (arith, has_row-update_other p f (λ k. k.link_id == i) links (λ k. rw (same k)))
]

-- The links and the routes that a revocation marks.
pub revoke-IsConsistent :
    (p : Link → Bool) (q : DirectedRoute → Bool) (db : Db)
    → IsConsistent db
    → IsConsistent (record db {
      links = update_rows p (λ l. record l { status = LinkStatus.revoked }) db.links;
      routes = update_rows q (λ r. record r { status = LinkStatus.revoked }) db.routes;
    })
revoke-IsConsistent p q db c = record {
  registry = c.registry;
  topology = record {
    unique_links =
        HasUnique-update (λ l. l.link_id) p _ db.links (λ l. refl) c.topology.unique_links;
    unique_codes = c.topology.unique_codes;
    link_a = All-update p _ _ db.links (λ l h. h) c.topology.link_a;
    link_b = All-update p _ _ db.links (λ l h. h) c.topology.link_b;
    route_from = All-update q _ _ db.routes (λ r h. h) c.topology.route_from;
    route_to = All-update q _ _ db.routes (λ r h. h) c.topology.route_to;
    route_link =
        All-update q _ _ db.routes (λ r h. h)
          (All-imp _ _ db.routes (λ r h. knows_link-update p _ db.links r (λ l. refl) h)
            c.topology.route_link);
    code_source = c.topology.code_source;
  };
  queue = c.queue;
  unique_events = c.unique_events;
  event_node = c.event_node;
}
