-- ===== src/Server/Consistent/Deletes.antt =====
-- The deletes of arqs-server/app/models.py keep the constraints: what ON DELETE CASCADE and ON DELETE
-- SET NULL are for.
use arqs.Server.Identity.Deleted.{owned_by}
use arqs.Server.Consistent.{OfNode, IsConsistent, knows_link}
use arqs.Models.Cascade.{delete_node, owns_endpoint, delete_endpoints, delete_packets, forget_link}
use arqs.Prelude.{
  delete_rows-congr, [], ◌∷◌, not_gone, or→right, refl, ◌∙◌, Refers-cascade, arith, has_row-delete,
  or→left, All-delete, Refers, delete_rows, inr, ◌==◌, HasUnique-delete, false, inl, true, ◌&&◌,
  ◌||◌, Option-cases, has_row, Bool, map, All, ℕ, ◌≡◌, List,
}
use arqs.Models.{Node, Delivery, SendEvent, Endpoint, Packet, DirectedRoute, Link, Db}

abbrev pub SameEnds : (DirectedRoute → DirectedRoute) → Type 0
SameEnds f =
    (r : DirectedRoute)
    → ((f r).from_endpoint_id ≡ r.from_endpoint_id) × ((f r).to_endpoint_id ≡ r.to_endpoint_id)

pub All-map {ℓ κ} :
    {A : Type ℓ} (P : A → Type κ) (Q : A → Type κ) (f : A → A) (xs : List A)
    → ((x : A) → P x → Q (f x))
    → All P xs
    → All Q (map f xs)
All-map P Q f [] h a = tt
All-map P Q f (x ∷ xs) h a = (h x a.0, All-map P Q f xs h a.1)

forget_link-SameEnds : (p : Link → Bool) (links : List Link) → SameEnds (forget_link p links)
unfolding forget_link
forget_link-SameEnds p links r = elim (Option-cases r.created_by_link_id) [
  | inl e ↦ rw e (refl, refl)
  | inr (l, e) ↦ (ground arith, ground arith)
]

-- A link with the id that is not deleted, if none with the id is.
has_row-kept :
    (p : Link → Bool) (l : ℕ) (links : List Link)
    → has_row (λ k. p k && (k.link_id == l)) links ≡ false
    → has_row (λ k. k.link_id == l) links ≡ true
    → has_row (λ k. k.link_id == l) (delete_rows p links) ≡ true
has_row-kept p l links none_gone h = has_row-delete p (λ k. k.link_id == l) links none_gone ∙ h

forget_link-known :
    (p : Link → Bool) (links : List Link) (r : DirectedRoute)
    → knows_link links r ≡ true
    → knows_link (delete_rows p links) (forget_link p links r) ≡ true
unfolding forget_link
forget_link-known p links r h = elim (Option-cases r.created_by_link_id) [
  | inl e ↦ ground arith
  | inr (l, e) ↦ ground (arith, has_row-kept p l links)
]

pub delete_packets-IsConsistent :
    (p : Packet → Bool) (db : Db) → IsConsistent db → IsConsistent (delete_packets p db)
unfolding delete_packets
delete_packets-IsConsistent p db c = record {
  registry = c.registry;
  topology = c.topology;
  queue = record {
    unique_packets = HasUnique-delete (λ k. k.packet_id) p db.packets c.queue.unique_packets;
    unique_deliveries =
        HasUnique-delete (λ d. d.packet_id) _ db.deliveries c.queue.unique_deliveries;
    unique_delivery_ids =
        HasUnique-delete (λ d. d.delivery_id) _ db.deliveries c.queue.unique_delivery_ids;
    packet_sender = All-delete p _ db.packets c.queue.packet_sender;
    packet_from = All-delete p _ db.packets c.queue.packet_from;
    packet_to = All-delete p _ db.packets c.queue.packet_to;
    delivery_packet =
        Refers-cascade (λ d. d.packet_id) (λ k. k.packet_id) p _ db.packets db.deliveries (λ d h. h)
          c.queue.delivery_packet;
    delivery_node = All-delete _ _ db.deliveries c.queue.delivery_node;
    delivery_endpoint = All-delete _ _ db.deliveries c.queue.delivery_endpoint;
  };
  unique_events = c.unique_events;
  event_node = c.event_node;
}

-- No row that is left names an endpoint that goes.
module _ (gone : ℕ → Bool) (es : List Endpoint) {A : Type 0} (key : A → ℕ) (q : A → Bool)
    (at_least : (x : A) → q x ≡ false → gone (key x) ≡ false) where
  endpoint-cascade :
      (xs : List A)
      → Refers key (λ (e : Endpoint). e.endpoint_id) es xs
      → Refers key
          (λ (e : Endpoint). e.endpoint_id)
          (delete_rows (λ e. gone e.endpoint_id) es)
          (delete_rows q xs)
  endpoint-cascade xs =
      Refers-cascade key (λ (e : Endpoint). e.endpoint_id) (λ e. gone e.endpoint_id) q es xs
        (λ x h. not_gone gone (λ (e : Endpoint). e.endpoint_id) (key x) es (at_least x h))

pub delete_endpoints-IsConsistent :
    (gone : ℕ → Bool) (db : Db) → IsConsistent db → IsConsistent (delete_endpoints gone db)
unfolding delete_endpoints delete_packets
delete_endpoints-IsConsistent gone db c =
    let dead = λ (l : Link). gone l.endpoint_a_id || gone l.endpoint_b_id in
    let on_packet = λ (k : Packet). gone k.from_endpoint_id || gone k.to_endpoint_id in
    let on_route = λ (r : DirectedRoute). gone r.from_endpoint_id || gone r.to_endpoint_id in
    let s = delete_packets-IsConsistent on_packet db c in
    let swept = delete_packets on_packet db in
    let es' = delete_rows (λ (e : Endpoint). gone e.endpoint_id) db.endpoints in
    record {
      registry = record {
        unique_nodes = c.registry.unique_nodes;
        unique_endpoints =
            HasUnique-delete (λ e. e.endpoint_id) (λ e. gone e.endpoint_id) db.endpoints
              c.registry.unique_endpoints;
        endpoint_node = All-delete _ _ db.endpoints c.registry.endpoint_node;
      };
      topology = record {
        unique_links = HasUnique-delete (λ l. l.link_id) dead db.links c.topology.unique_links;
        unique_codes =
            HasUnique-delete (λ k. k.link_code_id) (λ k. gone k.source_endpoint_id) db.link_codes
              c.topology.unique_codes;
        link_a =
            endpoint-cascade gone db.endpoints (λ l. l.endpoint_a_id) dead (λ l h. or→left _ _ h)
              db.links c.topology.link_a;
        link_b =
            endpoint-cascade gone db.endpoints (λ l. l.endpoint_b_id) dead (λ l h. or→right _ _ h)
              db.links c.topology.link_b;
        route_from =
            All-map _ _ (forget_link dead db.links) (delete_rows on_route db.routes)
              (λ r h. rw (forget_link-SameEnds dead db.links r).0 h)
              (endpoint-cascade gone db.endpoints (λ r. r.from_endpoint_id) on_route
                (λ r h. or→left _ _ h) db.routes c.topology.route_from);
        route_to =
            All-map _ _ (forget_link dead db.links) (delete_rows on_route db.routes)
              (λ r h. rw (forget_link-SameEnds dead db.links r).1 h)
              (endpoint-cascade gone db.endpoints (λ r. r.to_endpoint_id) on_route
                (λ r h. or→right _ _ h) db.routes c.topology.route_to);
        route_link =
            All-map _ _ (forget_link dead db.links) (delete_rows on_route db.routes)
              (λ r h. forget_link-known dead db.links r h)
              (All-delete on_route _ db.routes c.topology.route_link);
        code_source =
            endpoint-cascade gone db.endpoints (λ k. k.source_endpoint_id)
              (λ k. gone k.source_endpoint_id) (λ k h. h) db.link_codes c.topology.code_source;
      };
      queue = record {
        unique_packets = s.queue.unique_packets;
        unique_deliveries =
            HasUnique-delete (λ d. d.packet_id) (λ d. gone d.destination_endpoint_id)
              swept.deliveries s.queue.unique_deliveries;
        unique_delivery_ids =
            HasUnique-delete (λ d. d.delivery_id) (λ d. gone d.destination_endpoint_id)
              swept.deliveries s.queue.unique_delivery_ids;
        packet_sender = s.queue.packet_sender;
        packet_from =
            endpoint-cascade gone db.endpoints (λ k. k.from_endpoint_id) on_packet
              (λ k h. or→left _ _ h) db.packets c.queue.packet_from;
        packet_to =
            endpoint-cascade gone db.endpoints (λ k. k.to_endpoint_id) on_packet
              (λ k h. or→right _ _ h) db.packets c.queue.packet_to;
        delivery_packet = All-delete _ _ swept.deliveries s.queue.delivery_packet;
        delivery_node = All-delete _ _ swept.deliveries s.queue.delivery_node;
        delivery_endpoint =
            endpoint-cascade gone db.endpoints (λ d. d.destination_endpoint_id)
              (λ d. gone d.destination_endpoint_id) (λ d h. h) swept.deliveries
              s.queue.delivery_endpoint;
      };
      unique_events = c.unique_events;
      event_node = c.event_node;
    }

pub delete_events-IsConsistent :
    (p : SendEvent → Bool) (db : Db)
    → IsConsistent db
    → IsConsistent (record db { send_events = delete_rows p db.send_events })
delete_events-IsConsistent p db c = record {
  registry = c.registry;
  topology = c.topology;
  queue = c.queue;
  unique_events = HasUnique-delete (λ e. e.event_id) p db.send_events c.unique_events;
  event_node = All-delete p _ db.send_events c.event_node;
}

pub delete_deliveries-IsConsistent :
    (p : Delivery → Bool) (db : Db)
    → IsConsistent db
    → IsConsistent (record db { deliveries = delete_rows p db.deliveries })
delete_deliveries-IsConsistent p db c = record {
  registry = c.registry;
  topology = c.topology;
  queue = record {
    unique_packets = c.queue.unique_packets;
    unique_deliveries =
        HasUnique-delete (λ d. d.packet_id) p db.deliveries c.queue.unique_deliveries;
    unique_delivery_ids =
        HasUnique-delete (λ d. d.delivery_id) p db.deliveries c.queue.unique_delivery_ids;
    packet_sender = c.queue.packet_sender;
    packet_from = c.queue.packet_from;
    packet_to = c.queue.packet_to;
    delivery_packet = All-delete p _ db.deliveries c.queue.delivery_packet;
    delivery_node = All-delete p _ db.deliveries c.queue.delivery_node;
    delivery_endpoint = All-delete p _ db.deliveries c.queue.delivery_endpoint;
  };
  unique_events = c.unique_events;
  event_node = c.event_node;
}

-- No row that is left names the node that goes.
module _ (a : ℕ) (nodes : List Node) {A : Type 0} (key : A → ℕ) where
  node-cascade :
      (xs : List A)
      → OfNode nodes key xs
      → OfNode (delete_rows (λ n. n.node_id == a) nodes) key (delete_rows (λ x. key x == a) xs)
  node-cascade xs =
      Refers-cascade key (λ (n : Node). n.node_id) (λ n. n.node_id == a) (λ x. key x == a) nodes xs
        (λ x h. not_gone (λ b. b == a) (λ (n : Node). n.node_id) (key x) nodes h)

-- With unique endpoint ids, the endpoints that go are those whose row names the node.
endpoints-deleted :
    (a : ℕ) (db : Db)
    → IsConsistent db
    → OfNode
        (delete_rows (λ n. n.node_id == a) db.nodes)
        (λ (e : Endpoint). e.node_id)
        (delete_rows (λ e. owns_endpoint db a e.endpoint_id) db.endpoints)
unfolding owns_endpoint
endpoints-deleted a db c =
    rw
      (delete_rows-congr _ (λ e. e.node_id == a) db.endpoints
        (owned_by a db.endpoints c.registry.unique_endpoints))
      (node-cascade a db.nodes (λ (e : Endpoint). e.node_id) db.endpoints c.registry.endpoint_node)

pub delete_node-IsConsistent :
    (node_id : ℕ) (db : Db) → IsConsistent db → IsConsistent (delete_node node_id db)
unfolding delete_node delete_endpoints delete_packets
delete_node-IsConsistent a db c =
    let sent = λ (k : Packet). k.sender_node_id == a in
    let mid = delete_endpoints (owns_endpoint db a) db in
    let m = delete_endpoints-IsConsistent (owns_endpoint db a) db c in
    let s = delete_packets-IsConsistent sent mid m in
    let swept = delete_packets sent mid in
    record {
      registry = record {
        unique_nodes =
            HasUnique-delete (λ n. n.node_id) (λ n. n.node_id == a) db.nodes
              c.registry.unique_nodes;
        unique_endpoints = s.registry.unique_endpoints;
        endpoint_node = endpoints-deleted a db c;
      };
      topology = s.topology;
      queue = record {
        unique_packets = s.queue.unique_packets;
        unique_deliveries =
            HasUnique-delete (λ d. d.packet_id) (λ d. d.destination_node_id == a) swept.deliveries
              s.queue.unique_deliveries;
        unique_delivery_ids =
            HasUnique-delete (λ d. d.delivery_id) (λ d. d.destination_node_id == a) swept.deliveries
              s.queue.unique_delivery_ids;
        packet_sender =
            node-cascade a db.nodes (λ k. k.sender_node_id) mid.packets m.queue.packet_sender;
        packet_from = s.queue.packet_from;
        packet_to = s.queue.packet_to;
        delivery_packet = All-delete _ _ swept.deliveries s.queue.delivery_packet;
        delivery_node =
            node-cascade a db.nodes (λ d. d.destination_node_id) swept.deliveries
              s.queue.delivery_node;
        delivery_endpoint = All-delete _ _ swept.deliveries s.queue.delivery_endpoint;
      };
      unique_events =
          HasUnique-delete (λ e. e.event_id) (λ e. e.node_id == a) db.send_events c.unique_events;
      event_node = node-cascade a db.nodes (λ e. e.node_id) db.send_events c.event_node;
    }
