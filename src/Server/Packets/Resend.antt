-- ===== src/Server/Packets/Resend.antt =====
-- Sending the same packet again: the reply of the first send, and nothing more is stored.
use arqs.Prelude.{
  inr, inl, Bool-cases, ℕ, ◌≡◌, refl, ◌∙◌, ap, Bool, true, false, not, Option, none, some, List, [],
  ◌∷◌, ◌++◌, ◌==◌, arith, String, eq_refl, ==_refl, has_row, find_row-insert_new, leb,
}
use arqs.Json.Equal.{IsDistinctFields, dict_eq_self}
use arqs.Http.{ok}
use arqs.Models.{Node, Packet, Delivery, Db}
use arqs.Models.Cascade.{delete_packets}
use arqs.Services.{
  get_packet, is_packet_expired, body_eq, get_endpoint, get_node, active_route_exists,
  ensure_node_owns_endpoint,
}
use arqs.Server.Packets.{
  read_expired, SendEnv, SendRequest, SendResponse, accepted, duplicate, send_packet, new_packet,
  new_delivery, drop_expired, insert_packet, authorize, delivery_of, duplicate_reply,
  answer_existing, matches_request, send_authorized,
}
use arqs.Server.Packets.Accept.{Accepted, send_packet-Accepted}
use arqs.Server.Packets.Caps.{admit-Admitted, can_insert-Fits}

-- The JSON objects of the request have each key once, as a parsed request has, and hold no NaN.
pub record IsParsed (req : SendRequest) : Type 0 where
  pub headers : IsDistinctFields req.headers
  pub payload : IsDistinctFields req.payload
  pub meta : IsDistinctFields req.meta

body_eq_self : (o : Option String) → body_eq o o ≡ true
unfolding body_eq
body_eq_self none = refl
body_eq_self (some s) = eq_refl s

new_packet-matches :
    (env : SendEnv) (node : Node) (req : SendRequest) (bytes : ℕ)
    → IsParsed req
    → matches_request node req (new_packet env node req bytes) ≡ true
unfolding matches_request new_packet
new_packet-matches env node req bytes parsed = ground (
  arith,
  dict_eq_self req.headers parsed.headers,
  dict_eq_self req.payload parsed.payload,
  dict_eq_self req.meta parsed.meta,
  body_eq_self req.body,
)

delivery_of-insert :
    (ds : List Delivery) (d : Delivery)
    → has_row (λ e. e.packet_id == d.packet_id) ds ≡ false
    → delivery_of d.packet_id (ds ++ d ∷ []) ≡ some d.delivery_id
unfolding delivery_of
delivery_of-insert [] d h = ground arith
delivery_of-insert (e ∷ ds) d h = ground (arith, delivery_of-insert ds d)

-- The checks of a send read the settings' packet size, the endpoints, the nodes and the routes.
authorize-same :
    (env later : SendEnv) (node : Node) (req : SendRequest) (db db' : Db)
    → later.settings ≡ env.settings
    → db'.endpoints ≡ db.endpoints
    → db'.nodes ≡ db.nodes
    → db'.routes ≡ db.routes
    → authorize later node req db' ≡ authorize env node req db
unfolding authorize ensure_node_owns_endpoint get_endpoint get_node active_route_exists
authorize-same env later node req db db' s e n r = rw (s, e, n, r)

-- The reply to the first send, if its packet is still there.
abbrev pub is_unexpired : ℕ → Option ℕ → Bool
is_unexpired now none = true
is_unexpired now (some t) = not (leb t now)

module _ (env : SendEnv) (node : Node) (req : SendRequest) (db : Db) (resp : SendResponse)
    (db' : Db) (a : Accepted env node req db db resp db') where
  ready-event :
      a.ready ≡ record (drop_expired env.now req db db) { send_events = a.ready.send_events }
  ready-event =
      let e = (admit-Admitted env node req a.dest_node a.bytes _ _ a.ready a.admitted).event in cc e

  same_tables : (db'.endpoints ≡ db.endpoints) × (db'.nodes ≡ db.nodes) × (db'.routes ≡ db.routes)
  unfolding insert_packet drop_expired delete_packets
  same_tables = elim (Bool-cases (read_expired env.now req db)) [
    | inl b ↦ (
      rw (a.stored, ready-event, b) refl,
      rw (a.stored, ready-event, b) refl,
      rw (a.stored, ready-event, b) refl,
    )
    | inr b ↦ (
      rw (a.stored, ready-event, b) refl,
      rw (a.stored, ready-event, b) refl,
      rw (a.stored, ready-event, b) refl,
    )
  ]

  get_packet-stored : get_packet db' req.packet_id ≡ some (new_packet env node req a.bytes)
  unfolding get_packet insert_packet new_packet
  get_packet-stored = rw (a.stored) (
      find_row-insert_new (λ (p : Packet). p.packet_id == req.packet_id) a.ready.packets
        (new_packet env node req a.bytes) (can_insert-Fits _ _ a.ready a.fits).new_packet_id
        (==_refl req.packet_id))

  delivery_of-stored : delivery_of req.packet_id db'.deliveries ≡ some env.delivery_id
  unfolding insert_packet new_delivery new_packet
  delivery_of-stored = rw (a.stored) (
      delivery_of-insert a.ready.deliveries (new_delivery env req a.dest_node)
        (can_insert-Fits _ _ a.ready a.fits).unnamed)

  reply_stored :
      duplicate_reply db' (new_packet env node req a.bytes) ≡ record resp { result = duplicate }
  unfolding duplicate_reply new_packet
  reply_stored = cc (a.replied, delivery_of-stored)

  answer_stored :
      IsParsed req
      → answer_existing node req db' (new_packet env node req a.bytes)
        ≡ ok (record resp { result = duplicate })
  unfolding answer_existing
  answer_stored parsed = rw (new_packet-matches env node req a.bytes parsed) (ap ok reply_stored)

  authorize-stored :
      (later : SendEnv)
      → later.settings ≡ env.settings
      → authorize later node req db' ≡ ok (a.dest_node, a.bytes)
  authorize-stored later s =
      authorize-same env later node req db db' s same_tables.0 same_tables.1 same_tables.2
      ∙ a.authorized

  expires_at-stored : (new_packet env node req a.bytes).expires_at ≡ resp.expires_at
  expires_at-stored = cc (a.replied)

  still_fresh :
      (now : ℕ)
      → is_unexpired now resp.expires_at ≡ true
      → is_packet_expired now (new_packet env node req a.bytes) ≡ false
  still_fresh now h = ground (arith, expires_at-stored)

-- A send is accepted with no other request between its reads and its writes. The next request of
-- the server is the same one again, under the same settings, before the packet expires, and its JSON
-- holds no NaN. It is answered as a duplicate with the packet id, the delivery id and the expiry of
-- the first reply, and the database stays as it is.
pub send_packet-resend :
    (env later : SendEnv) (node : Node) (req : SendRequest) (views views' : List Db) (db : Db)
    (resp : SendResponse) (db' : Db)
    → IsParsed req
    → later.settings ≡ env.settings
    → send_packet env node req views db db ≡ (ok resp, db')
    → resp.result ≡ accepted
    → is_unexpired later.now resp.expires_at ≡ true
    → send_packet later node req views' db' db' ≡ (ok (record resp { result = duplicate }), db')
unfolding send_packet send_authorized
send_packet-resend env later node req views views' db resp db' parsed s sent is_accepted fresh =
    let a = send_packet-Accepted env node req views db db resp db' is_accepted sent in
    rw (
      authorize-stored env node req db resp db' a later s,
      get_packet-stored env node req db resp db' a,
      still_fresh env node req db resp db' a later.now fresh,
      answer_stored env node req db resp db' a parsed,
      send_authorized,
    )
