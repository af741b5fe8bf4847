-- ===== src/Server/Consistent/Steps.antt =====
-- The databases that a server reaches from an empty one, one committed request at a time.
use arqs.Auth.{Text, Crypto}
use arqs.Services.{join_packets, cleanup_expired}
use arqs.Config.{RuntimeSettings}
use arqs.Server.Inbox.{ack_packet, AckRequest}
use arqs.Server.Packets.{send_packet, SendRequest, SendEnv}
use arqs.Server.Links.{revoke_link, redeem_link_code, request_link_code}
use arqs.Server.Endpoints.{delete_endpoint, create_endpoint}
use arqs.Json.{Fields}
use arqs.Server.Consistent.Sends.{send_packet-IsConsistent}
use arqs.Server.Consistent.Links.{redeem_link_code-IsConsistent}
use arqs.Server.Identity.{delete_identity, self_rotate_key, register}
use arqs.Server.Consistent.Requests.{
  cleanup_expired-IsConsistent, ack_packet-IsConsistent, revoke_link-IsConsistent,
  request_link_code-IsConsistent, delete_endpoint-IsConsistent, create_endpoint-IsConsistent,
  delete_identity-IsConsistent, self_rotate_key-IsConsistent, register-IsConsistent,
}
use arqs.Server.Consistent.{IsConsistent}
use arqs.Models.{Delivery, Packet, LinkMode, Node, empty_db, Db}
use arqs.Prelude.{
  refl, [], has_row-is_some, arith, ◌∷◌, Refers, map, List, true, false, ◌==◌, has_row, String,
  Option, ℕ, ◌≡◌,
}

-- A step is one handler or a cleanup. A read view `db` may differ from the database `at_write` that
-- the writes go to. New uuids are fresh, and a row that another one names is stored, where the
-- database would refuse the write otherwise.
pub data Step (at_write : Db) : Db → Type 0 where
  registering :
      (crypto : Crypto) (now node_id endpoint_id : ℕ) (key_id secret : Text) (salt : List ℕ)
      (name : Option String)
      → has_row (λ n. n.node_id == node_id) at_write.nodes ≡ false
      → has_row (λ e. e.endpoint_id == endpoint_id) at_write.endpoints ≡ false
      → Step at_write (register crypto now node_id endpoint_id key_id secret salt name at_write).1
  rotating :
      (crypto : Crypto) (secret : Text) (salt : List ℕ) (node : Node)
      → Step at_write (self_rotate_key crypto secret salt node at_write).1
  leaving : (node : Node) → Step at_write (delete_identity node at_write).1
  creating :
      (now endpoint_id : ℕ) (name kind : Option String) (meta : Option Fields) (node : Node)
      → has_row (λ e. e.endpoint_id == endpoint_id) at_write.endpoints ≡ false
      → has_row (λ n. n.node_id == node.node_id) at_write.nodes ≡ true
      → Step at_write (create_endpoint now endpoint_id name kind meta node at_write).1
  deleting :
      (now endpoint_id : ℕ) (node : Node)
      → Step at_write (delete_endpoint now endpoint_id node at_write).1
  requesting :
      (now ttl link_code_id : ℕ) (candidates : List String) (source_id : ℕ) (mode : LinkMode)
      (node : Node)
      → has_row (λ c. c.link_code_id == link_code_id) at_write.link_codes ≡ false
      → Step at_write
          (request_link_code now ttl link_code_id candidates source_id mode node at_write).1
  redeeming :
      (now link_id : ℕ) (route_ids : List ℕ) (code : String) (dest_id : ℕ) (node : Node) (db : Db)
      → has_row (λ e. e.endpoint_id == dest_id) at_write.endpoints ≡ true
      → has_row (λ l. l.link_id == link_id) at_write.links ≡ false
      → Step at_write (redeem_link_code now link_id route_ids code dest_id node db at_write).1
  revoking : (link_id : ℕ) (node : Node) → Step at_write (revoke_link link_id node at_write).1
  sending :
      (env : SendEnv) (node : Node) (req : SendRequest) (views : List Db) (db : Db)
      → has_row (λ e. e.event_id == env.event_id) at_write.send_events ≡ false
      → Step at_write (send_packet env node req views db at_write).1
  acknowledging :
      (now : ℕ) (req : AckRequest) (node : Node)
      → Step at_write (ack_packet now req node at_write).1
  cleaning :
      (now : ℕ) (settings : RuntimeSettings)
      → Step at_write (cleanup_expired now settings at_write).1

pub data Reach : Db → Type 0 where
  start : Reach empty_db
  next : {db db' : Db} → Reach db → Step db db' → Reach db'

pub Step-IsConsistent : {db db' : Db} → IsConsistent db → Step db db' → IsConsistent db'
Step-IsConsistent c (registering crypto now n e key secret salt name fn fe) =
    register-IsConsistent crypto now n e key secret salt name _ fn fe c
Step-IsConsistent c (rotating crypto secret salt node) =
    self_rotate_key-IsConsistent crypto secret salt node _ c
Step-IsConsistent c (leaving node) = delete_identity-IsConsistent node _ c
Step-IsConsistent c (creating now e name kind meta node fresh owner) =
    create_endpoint-IsConsistent now e name kind meta node _ fresh owner c
Step-IsConsistent c (deleting now e node) = delete_endpoint-IsConsistent now e node _ c
Step-IsConsistent c (requesting now ttl id candidates source mode node new) =
    request_link_code-IsConsistent now ttl id candidates source mode node _ new c
Step-IsConsistent c (redeeming now id ids code dest node db known new) =
    redeem_link_code-IsConsistent now id ids code dest node db _ known new c
Step-IsConsistent c (revoking id node) = revoke_link-IsConsistent id node _ c
Step-IsConsistent c (sending env node req views db new) =
    send_packet-IsConsistent env node req views db _ new c
Step-IsConsistent c (acknowledging now req node) = ack_packet-IsConsistent now req node _ c
Step-IsConsistent c (cleaning now settings) = cleanup_expired-IsConsistent now settings _ c

empty_db-IsConsistent : IsConsistent empty_db
empty_db-IsConsistent = record {
  registry = record { unique_nodes = tt; unique_endpoints = tt; endpoint_node = tt };
  topology = record {
    unique_links = tt;
    unique_codes = tt;
    link_a = tt;
    link_b = tt;
    route_from = tt;
    route_to = tt;
    route_link = tt;
    code_source = tt;
  };
  queue = record {
    unique_packets = tt;
    unique_deliveries = tt;
    unique_delivery_ids = tt;
    packet_sender = tt;
    packet_from = tt;
    packet_to = tt;
    delivery_packet = tt;
    delivery_node = tt;
    delivery_endpoint = tt;
  };
  unique_events = tt;
  event_node = tt;
}

-- In every database that the server reaches from an empty one by its handlers and cleanups, in any
-- order and with any interleaving of a send's or a redemption's reads with other requests, the ids
-- of the nodes, endpoints, links, link codes, packets, deliveries and send events are unique, no
-- packet has two deliveries, and every row that names a node, an endpoint, a packet or a link names
-- one that is stored.
pub Reach-IsConsistent : (db : Db) → Reach db → IsConsistent db
Reach-IsConsistent db start = empty_db-IsConsistent
Reach-IsConsistent db (next r s) = Step-IsConsistent (Reach-IsConsistent _ r) s

joined :
    (packets : List Packet) (ds : List Delivery)
    → Refers (λ (d : Delivery). d.packet_id) (λ (p : Packet). p.packet_id) packets ds
    → map (λ r. r.0) (join_packets packets ds) ≡ ds
unfolding join_packets
joined packets [] h = refl
joined packets (d ∷ ds) h = ground (
  arith,
  joined packets ds h.1,
  has_row-is_some (λ (p : Packet). p.packet_id == d.packet_id) packets,
  h.0,
)

-- In every database that the server reaches, each delivery finds its packet: the join that the inbox,
-- the limits and the statistics read loses no delivery and repeats none.
pub Reach-join_packets :
    (db : Db) → Reach db → map (λ r. r.0) (join_packets db.packets db.deliveries) ≡ db.deliveries
Reach-join_packets db r =
    joined db.packets db.deliveries (Reach-IsConsistent db r).queue.delivery_packet
