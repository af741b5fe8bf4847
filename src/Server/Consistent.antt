-- ===== src/Server/Consistent.antt =====
-- The foreign keys of the tables of arqs-server/app/models.py as one invariant of the database, with
-- the primary keys, but for that of the routes, and the unique constraint of the deliveries. That the
-- texts of the codes and the key ids are unique is not part of it.
mod Deletes
mod Inserts
mod Updates
mod Requests
mod Links
mod Sends
pub mod Steps
use arqs.Prelude.{ℕ, ◌≡◌, Bool, true, none, some, List, ◌==◌, has_row, All, HasUnique, Refers}
use arqs.Models.{Node, Endpoint, Link, DirectedRoute, LinkCode, Packet, Delivery, SendEvent, Db}

-- The link that created the route is stored, or the route names none.
abbrev pub knows_link : List Link → DirectedRoute → Bool
knows_link links r = elim r.created_by_link_id [
  | none ↦ true
  | some l ↦ has_row (λ k. k.link_id == l) links
]

abbrev pub OfNode {ℓ} : {A : Type ℓ} → List Node → (A → ℕ) → List A → Type 0
OfNode nodes key = Refers key (λ n. n.node_id) nodes

abbrev pub OfEndpoint {ℓ} : {A : Type ℓ} → List Endpoint → (A → ℕ) → List A → Type 0
OfEndpoint endpoints key = Refers key (λ e. e.endpoint_id) endpoints

pub record IsRegistry (nodes : List Node) (endpoints : List Endpoint) : Type 0 where
  pub unique_nodes : HasUnique (λ n. n.node_id) nodes
  pub unique_endpoints : HasUnique (λ e. e.endpoint_id) endpoints
  pub endpoint_node : OfNode nodes (λ (e : Endpoint). e.node_id) endpoints

pub record IsTopology (endpoints : List Endpoint) (links : List Link) (routes : List DirectedRoute)
    (codes : List LinkCode) : Type 0 where
  pub unique_links : HasUnique (λ l. l.link_id) links
  pub unique_codes : HasUnique (λ c. c.link_code_id) codes
  pub link_a : OfEndpoint endpoints (λ l. l.endpoint_a_id) links
  pub link_b : OfEndpoint endpoints (λ l. l.endpoint_b_id) links
  pub route_from : OfEndpoint endpoints (λ r. r.from_endpoint_id) routes
  pub route_to : OfEndpoint endpoints (λ r. r.to_endpoint_id) routes
  pub route_link : All (λ r. knows_link links r ≡ true) routes
  pub code_source : OfEndpoint endpoints (λ c. c.source_endpoint_id) codes

pub record IsQueue (nodes : List Node) (endpoints : List Endpoint) (packets : List Packet)
    (deliveries : List Delivery) : Type 0 where
  pub unique_packets : HasUnique (λ p. p.packet_id) packets
  pub unique_deliveries : HasUnique (λ d. d.packet_id) deliveries
  pub unique_delivery_ids : HasUnique (λ d. d.delivery_id) deliveries
  pub packet_sender : OfNode nodes (λ p. p.sender_node_id) packets
  pub packet_from : OfEndpoint endpoints (λ p. p.from_endpoint_id) packets
  pub packet_to : OfEndpoint endpoints (λ p. p.to_endpoint_id) packets
  pub delivery_packet :
      Refers (λ (d : Delivery). d.packet_id) (λ (p : Packet). p.packet_id) packets deliveries
  pub delivery_node : OfNode nodes (λ d. d.destination_node_id) deliveries
  pub delivery_endpoint : OfEndpoint endpoints (λ d. d.destination_endpoint_id) deliveries

pub record IsConsistent (db : Db) : Type 0 where
  pub registry : IsRegistry db.nodes db.endpoints
  pub topology : IsTopology db.endpoints db.links db.routes db.link_codes
  pub queue : IsQueue db.nodes db.endpoints db.packets db.deliveries
  pub unique_events : HasUnique (λ e. e.event_id) db.send_events
  pub event_node : OfNode db.nodes (λ (e : SendEvent). e.node_id) db.send_events
