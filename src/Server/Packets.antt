-- ===== src/Server/Packets.antt =====
-- send_packet of arqs-server/app/main.py, with the request of schemas.PacketSendRequest. The reads
-- see `db`; the writes go to `at_write`, which is `db` unless another request was committed in
-- between. `views` are the databases that the reads after an IntegrityError see.
pub mod Accept
pub mod Caps
pub mod Bounded
pub mod Stored
pub mod Resend
use arqs.Prelude.{
  ℕ, zero, suc, Bool, true, false, not, ◌&&◌, ◌||◌, Option, none, some, List, [], ◌∷◌, ◌++◌, String,
  str_eq, ◌==◌, ltb, if◌then◌else◌, has_row, find_row, take,
}
use arqs.Json.{Fields, is_empty}
use arqs.Http.{
  HttpError, Result, ok, err, ◌>>=◌, ◌>>◌, refuse_if, destination_not_found, destination_not_active,
  destination_node_not_active, no_active_route, packet_too_large, packet_id_reused,
  packet_id_collision,
}
use arqs.Models.{Node, Endpoint, Packet, Delivery, queued, Db, is_active_endpoint, is_active_node}
use arqs.Models.Cascade.{delete_packets}
use arqs.Config.{RetentionConfig, RuntimeSettings}
use arqs.Services.{
  ensure_node_active, ensure_node_owns_endpoint, get_endpoint, get_node, get_packet,
  active_route_exists, payload_size_bytes, is_packet_expired, packet_matches,
  enforce_send_rate_limit, enforce_queue_limits, packet_expiry,
}

pub record SendRequest : Type 0 where
  pub version : ℕ
  pub packet_id : ℕ
  pub from_endpoint_id : ℕ
  pub to_endpoint_id : ℕ
  pub headers : Fields
  pub body : Option String
  pub payload : Fields
  pub meta : Fields
  pub ttl_seconds : Option ℕ

abbrev no_body : Option String → Bool
no_body none = true
no_body (some s) = str_eq s ""

-- PacketSendRequest.validate_payload and the bound of `ttl_seconds`
unfoldable pub validate_payload : SendRequest → Bool
validate_payload req =
    (req.version == 1)
    && not (no_body req.body && is_empty req.payload)
    && not (elim req.ttl_seconds [ none ↦ false | some t ↦ t == 0 ])

-- What a send reads from the clock, the settings and the file system, and its new uuids.
pub record SendEnv : Type 0 where
  pub now : ℕ
  pub settings : RuntimeSettings
  pub retention : RetentionConfig
  pub storage_bytes : ℕ
  pub event_id : ℕ
  pub delivery_id : ℕ

pub data SendResult : Type 0 where
  accepted duplicate : SendResult

pub record SendResponse : Type 0 where
  pub result : SendResult
  pub packet_id : ℕ
  pub delivery_id : Option ℕ
  pub expires_at : Option ℕ

check_destination : Option Endpoint → Result Endpoint
check_destination none = err destination_not_found
check_destination (some e) =
    if is_active_endpoint e.status then ok e else err destination_not_active

check_destination_node : Option Node → Result Node
check_destination_node none = err destination_node_not_active
check_destination_node (some n) =
    if is_active_node n.status then ok n else err destination_node_not_active

-- The checks up to the packet id; the reply is the destination's node and the packet's size.
unfoldable pub authorize : SendEnv → Node → SendRequest → Db → Result (Node × ℕ)
unfolding check_destination check_destination_node ensure_node_active ensure_node_owns_endpoint
authorize env node req db = do
  ensure_node_active node
  source ← ensure_node_owns_endpoint db node.node_id req.from_endpoint_id
  dest ← check_destination (get_endpoint db req.to_endpoint_id)
  dest_node ← check_destination_node (get_node db dest.node_id)
  refuse_if (not (active_route_exists db req.from_endpoint_id req.to_endpoint_id)) no_active_route
  let bytes = payload_size_bytes req.headers req.body req.payload req.meta
  refuse_if (ltb env.settings.max_packet_bytes bytes) packet_too_large
  ok (dest_node, bytes)

unfoldable pub matches_request : Node → SendRequest → Packet → Bool
unfolding packet_matches
matches_request node req p =
    packet_matches p node.node_id req.from_endpoint_id req.to_endpoint_id req.headers req.body
      req.payload req.meta req.version

-- The id of the first delivery of the packet.
unfoldable pub delivery_of : ℕ → List Delivery → Option ℕ
delivery_of packet_id [] = none
delivery_of packet_id (d ∷ ds) =
    if d.packet_id == packet_id then some d.delivery_id else delivery_of packet_id ds

unfoldable pub duplicate_reply : Db → Packet → SendResponse
duplicate_reply db p = record {
  result = duplicate;
  packet_id = p.packet_id;
  delivery_id = delivery_of p.packet_id db.deliveries;
  expires_at = p.expires_at;
}

-- A packet that is stored and not expired answers the request: with its own reply or with 409.
unfoldable pub answer_existing : Node → SendRequest → Db → Packet → Result SendResponse
unfolding duplicate_reply
answer_existing node req db p =
    if matches_request node req p then ok (duplicate_reply db p) else err packet_id_reused

unfoldable pub new_packet : SendEnv → Node → SendRequest → ℕ → Packet
unfolding packet_expiry
new_packet env node req bytes = record {
  packet_id = req.packet_id;
  version = req.version;
  sender_node_id = node.node_id;
  from_endpoint_id = req.from_endpoint_id;
  to_endpoint_id = req.to_endpoint_id;
  headers = req.headers;
  body = req.body;
  payload = req.payload;
  meta = req.meta;
  created_at = env.now;
  expires_at = packet_expiry env.now env.retention req.ttl_seconds;
  payload_bytes = bytes;
}

unfoldable pub new_delivery : SendEnv → SendRequest → Node → Delivery
new_delivery env req dest_node = record {
  delivery_id = env.delivery_id;
  packet_id = req.packet_id;
  destination_node_id = dest_node.node_id;
  destination_endpoint_id = req.to_endpoint_id;
  queued_at = env.now;
  state = queued;
  last_attempt_at = none;
}

-- The constraints of the two tables that an insert can break: primary keys, uq_deliveries_packet_id
-- and the foreign keys.
unfoldable pub can_insert : Packet → Delivery → Db → Bool
can_insert p d db =
    not (has_row (λ k. k.packet_id == p.packet_id) db.packets)
    && not (has_row (λ e. e.delivery_id == d.delivery_id) db.deliveries)
    && not (has_row (λ e. e.packet_id == d.packet_id) db.deliveries)
    && has_row (λ n. n.node_id == p.sender_node_id) db.nodes
    && has_row (λ e. e.endpoint_id == p.from_endpoint_id) db.endpoints
    && has_row (λ e. e.endpoint_id == p.to_endpoint_id) db.endpoints
    && has_row (λ n. n.node_id == d.destination_node_id) db.nodes
    && has_row (λ e. e.endpoint_id == d.destination_endpoint_id) db.endpoints

unfoldable pub insert_packet : Packet → Delivery → Db → Db
insert_packet p d db = record db {
  packets = db.packets ++ p ∷ [];
  deliveries = db.deliveries ++ d ∷ [];
}

-- The five reads after an IntegrityError. An expired packet is deleted in the open transaction, so
-- that the later reads find nothing.
unfoldable pub recover : ℕ → Node → SendRequest → List Db → Result SendResponse
recover now node req [] = err packet_id_collision
recover now node req (view ∷ views) =
    let rest = recover now node req views in
    elim (get_packet view req.packet_id) [
      | none ↦ rest
      | some p ↦
          if is_packet_expired now p
          then err packet_id_collision
          else answer_existing node req view p
    ]

-- The packet that the send has read under its id has expired.
unfoldable pub read_expired : ℕ → SendRequest → Db → Bool
read_expired now req db = elim (get_packet db req.packet_id) [
  | none ↦ false
  | some p ↦ is_packet_expired now p
]

-- `delete(existing)` of an expired packet with the id of the request. It deletes by the id, also a
-- packet that another request has stored under it since.
unfoldable pub drop_expired : ℕ → SendRequest → Db → Db → Db
unfolding delete_packets read_expired
drop_expired now req db at_write =
    if read_expired now req db
    then delete_packets (λ p. p.packet_id == req.packet_id) at_write
    else at_write

unfoldable pub commit_send :
    SendEnv → Node → SendRequest → Node → ℕ → List Db → Db → Db → Result SendResponse × Db
commit_send env node req dest_node bytes views rollback_to at_write =
    let p = new_packet env node req bytes in
    let d = new_delivery env req dest_node in
    if can_insert p d at_write
    then (
      ok (record {
        result = accepted;
        packet_id = p.packet_id;
        delivery_id = some d.delivery_id;
        expires_at = p.expires_at;
      }),
      insert_packet p d at_write,
    )
    else (recover env.now node req (take 5 views), rollback_to)

-- The limits are read from `db`, the event is added to `at_write`.
unfoldable pub admit : SendEnv → Node → SendRequest → Node → ℕ → Db → Db → Result Db
admit env node req dest_node bytes db at_write = do
  counted ← enforce_send_rate_limit env.now env.settings node.node_id env.event_id db
  enforce_queue_limits env.now env.settings env.storage_bytes req.to_endpoint_id dest_node.node_id
      bytes db
  ok (record at_write {
    send_events =
        at_write.send_events
        ++ record { event_id = env.event_id; node_id = node.node_id; created_at = env.now } ∷ [];
  })

unfoldable pub send_admitted :
    SendEnv → Node → SendRequest → Node → ℕ → List Db → Db → Result Db → Result SendResponse × Db
send_admitted env node req dest_node bytes views at_write (err e) = (err e, at_write)
send_admitted env node req dest_node bytes views at_write (ok ready) =
    commit_send env node req dest_node bytes views at_write ready

-- A new packet, or one whose id an expired packet had.
unfoldable pub send_new :
    SendEnv → Node → SendRequest → Node → ℕ → List Db → Db → Db → Result SendResponse × Db
send_new env node req dest_node bytes views db at_write =
    send_admitted env node req dest_node bytes views at_write (
      admit env node req dest_node bytes (drop_expired env.now req db db)
        (drop_expired env.now req db at_write))

unfoldable pub send_authorized :
    SendEnv → Node → SendRequest → List Db → Db → Db → Result (Node × ℕ) → Result SendResponse × Db
send_authorized env node req views db at_write (err e) = (err e, at_write)
send_authorized env node req views db at_write (ok (dest_node, bytes)) =
    elim (get_packet db req.packet_id) [
      | none ↦ send_new env node req dest_node bytes views db at_write
      | some p ↦
          if is_packet_expired env.now p
          then send_new env node req dest_node bytes views db at_write
          else (answer_existing node req db p, at_write)
    ]

unfoldable pub send_packet :
    SendEnv → Node → SendRequest → List Db → Db → Db → Result SendResponse × Db
send_packet env node req views db at_write =
    send_authorized env node req views db at_write (authorize env node req db)
