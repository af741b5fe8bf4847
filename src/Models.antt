-- ===== src/Models.antt =====
-- The tables of arqs-server/app/models.py and the database that holds them. An identifier (a UUID
-- string in the source) is only ever compared for equality and is a number here; a `datetime` is a
-- number of seconds. A table is the list of its rows, in insertion order.
pub mod Cascade
use arqs.Prelude.{
  ℕ, Bool, true, false, not, ◌&&◌, ◌||◌, Option, none, some, List, [], ◌∷◌, String, ◌==◌, has_row,
  delete_rows, select_rows, update_rows, find_row, map, if◌then◌else◌,
}
use arqs.Json.{Fields}
use arqs.Http.{NodeStatus}

pub record Node : Type 0 where
  pub node_id : ℕ
  pub key_id : List ℕ
  pub api_key_hash : List ℕ
  pub node_name : Option String
  pub created_at : ℕ
  pub status : NodeStatus

-- Endpoint.status: the server writes "active" only; any other text counts as not active.
pub data EndpointStatus : Type 0 where
  active inactive : EndpointStatus

pub record Endpoint : Type 0 where
  pub endpoint_id : ℕ
  pub node_id : ℕ
  pub endpoint_name : Option String
  pub kind : Option String
  pub meta : Option Fields
  pub created_at : ℕ
  pub status : EndpointStatus

-- LinkMode of schemas.py
pub data LinkMode : Type 0 where
  bidirectional a_to_b b_to_a : LinkMode

pub data LinkStatus : Type 0 where
  active revoked : LinkStatus

pub record Link : Type 0 where
  pub link_id : ℕ
  pub endpoint_a_id : ℕ
  pub endpoint_b_id : ℕ
  pub mode : LinkMode
  pub created_at : ℕ
  pub status : LinkStatus

pub record DirectedRoute : Type 0 where
  pub route_id : ℕ
  pub from_endpoint_id : ℕ
  pub to_endpoint_id : ℕ
  pub created_at : ℕ
  pub status : LinkStatus
  pub created_by_link_id : Option ℕ

pub data CodeStatus : Type 0 where
  active used expired revoked : CodeStatus

pub record LinkCode : Type 0 where
  pub link_code_id : ℕ
  pub code : String
  pub source_endpoint_id : ℕ
  pub requested_mode : LinkMode
  pub created_at : ℕ
  pub expires_at : ℕ
  pub status : CodeStatus

pub record Packet : Type 0 where
  pub packet_id : ℕ
  pub version : ℕ
  pub sender_node_id : ℕ
  pub from_endpoint_id : ℕ
  pub to_endpoint_id : ℕ
  pub headers : Fields
  pub body : Option String
  pub payload : Fields
  pub meta : Fields
  pub created_at : ℕ
  pub expires_at : Option ℕ
  pub payload_bytes : ℕ

-- Delivery.state: the server writes "queued" only.
pub data DeliveryState : Type 0 where
  queued other : DeliveryState

pub record Delivery : Type 0 where
  pub delivery_id : ℕ
  pub packet_id : ℕ
  pub destination_node_id : ℕ
  pub destination_endpoint_id : ℕ
  pub queued_at : ℕ
  pub state : DeliveryState
  pub last_attempt_at : Option ℕ

pub record SendEvent : Type 0 where
  pub event_id : ℕ
  pub node_id : ℕ
  pub created_at : ℕ

pub record Db : Type 0 where
  pub nodes : List Node
  pub endpoints : List Endpoint
  pub links : List Link
  pub routes : List DirectedRoute
  pub link_codes : List LinkCode
  pub packets : List Packet
  pub deliveries : List Delivery
  pub send_events : List SendEvent

abbrev pub empty_db : Db
empty_db = record {
  nodes = [];
  endpoints = [];
  links = [];
  routes = [];
  link_codes = [];
  packets = [];
  deliveries = [];
  send_events = [];
}

abbrev pub is_active_node : NodeStatus → Bool
is_active_node NodeStatus.active = true
is_active_node _ = false

abbrev pub is_active_endpoint : EndpointStatus → Bool
is_active_endpoint EndpointStatus.active = true
is_active_endpoint _ = false

abbrev pub is_active_link : LinkStatus → Bool
is_active_link LinkStatus.active = true
is_active_link _ = false

abbrev pub is_active_code : CodeStatus → Bool
is_active_code CodeStatus.active = true
is_active_code _ = false

abbrev pub is_queued : DeliveryState → Bool
is_queued queued = true
is_queued other = false

abbrev pub same_mode : LinkMode → LinkMode → Bool
same_mode bidirectional bidirectional = true
same_mode a_to_b a_to_b = true
same_mode b_to_a b_to_a = true
same_mode _ _ = false

abbrev pub mem_id : ℕ → List ℕ → Bool
mem_id a [] = false
mem_id a (x ∷ xs) = (x == a) || mem_id a xs
