-- ===== src/Server/Packets/Stored.antt =====
-- What a send leaves in the database: the delivery and the packet of the request, or nothing.
use arqs.Services.Live.{live-delete_id}
use arqs.Prelude.{
  find_row-holds, ==→≡, sym, Option-cases, inr, ◌==◌, delete_rows, inl, Bool-cases, if◌then◌else◌,
  ℕ, ◌<◌, ◌≡◌, refl, ◌∙◌, ap, Bool, true, false, some, List, [], ◌∷◌, ◌++◌, arith,
}
use arqs.Http.{Result, ok, err}
use arqs.Models.{Endpoint, Node, Packet, Delivery, queued, Db}
use arqs.Services.{get_node, get_endpoint, live_deliveries, active_packet, packet_expiry}
use arqs.Server.Packets.{
  read_expired, authorize, SendEnv, SendRequest, SendResponse, accepted, duplicate, send_packet,
  new_packet, new_delivery, drop_expired, validate_payload, commit_send, send_new, send_admitted,
  send_authorized,
}
use arqs.Server.Packets.Accept.{Accepted, send_packet-Accepted}
use arqs.Server.Packets.Caps.{admit-Admitted, live-insert}

-- The packet of a valid request has not expired when it is stored.
new_packet-active :
    (env : SendEnv) (node : Node) (req : SendRequest) (bytes : ℕ)
    → validate_payload req ≡ true
    → 0 < env.retention.default_packet_ttl_seconds
    → active_packet env.now (new_packet env node req bytes) ≡ true
unfolding new_packet packet_expiry validate_payload
new_packet-active env node req bytes v h = ground arith

-- A delivery to the node of the endpoint and a packet that carry what the request says.
pub record Carries (env : SendEnv) (node : Node) (req : SendRequest) (dest : Endpoint)
    (d : Delivery) (p : Packet) : Type 0 where
  pub version : p.version ≡ req.version
  pub packet_id : p.packet_id ≡ req.packet_id
  pub sender : p.sender_node_id ≡ node.node_id
  pub from_endpoint : p.from_endpoint_id ≡ req.from_endpoint_id
  pub to_endpoint : p.to_endpoint_id ≡ req.to_endpoint_id
  pub headers : p.headers ≡ req.headers
  pub body : p.body ≡ req.body
  pub payload : p.payload ≡ req.payload
  pub meta : p.meta ≡ req.meta
  pub delivered : d.packet_id ≡ req.packet_id
  pub to_node : d.destination_node_id ≡ dest.node_id
  pub at_endpoint : d.destination_endpoint_id ≡ req.to_endpoint_id
  pub at_time : d.queued_at ≡ env.now
  pub state : d.state ≡ queued

-- The node that an authorized send delivers to is the one of the endpoint.
authorize-destination :
    (env : SendEnv) (node : Node) (req : SendRequest) (db : Db) (dest_node : Node) (bytes : ℕ)
    → authorize env node req db ≡ ok (dest_node, bytes)
    → (dest : Endpoint) × (get_endpoint db req.to_endpoint_id ≡ some dest)
      × (dest_node.node_id ≡ dest.node_id)
unfolding authorize get_node
authorize-destination env node req db dest_node bytes h =
    elim (Option-cases (get_endpoint db req.to_endpoint_id)) [
      | inl none_there ↦ absurd (ground arith)
      | inr (dest, found) ↦ elim (Option-cases (get_node db dest.node_id)) [
        | inl nobody ↦ absurd (ground arith)
        | inr (n, known) ↦
            let same : n ≡ dest_node = ground arith in
            (
              dest,
              found,
              ap (λ (m : Node). m.node_id) (sym same)
                  ∙ ==→≡ n.node_id dest.node_id
                      (find_row-holds (λ m. m.node_id == dest.node_id) db.nodes n known),
            )
      ]
    ]

new_packet-Carries :
    (env : SendEnv) (node dest_node : Node) (req : SendRequest) (bytes : ℕ) (dest : Endpoint)
    → dest_node.node_id ≡ dest.node_id
    → Carries env node req dest (new_delivery env req dest_node) (new_packet env node req bytes)
unfolding new_packet new_delivery
new_packet-Carries env node dest_node req bytes dest same = record {
  version = refl;
  packet_id = refl;
  sender = refl;
  from_endpoint = refl;
  to_endpoint = refl;
  headers = refl;
  body = refl;
  payload = refl;
  meta = refl;
  delivered = refl;
  to_node = same;
  at_endpoint = refl;
  at_time = refl;
  state = refl;
}

-- The live deliveries that the send leaves standing.
abbrev pub spared : SendEnv → SendRequest → Db → Db → List (Delivery × Packet)
spared env req db at_write =
    let live = live_deliveries env.now at_write in
    if read_expired env.now req db
    then delete_rows (λ r. r.0.packet_id == req.packet_id) live
    else live

live-drop_expired :
    (env : SendEnv) (req : SendRequest) (db at_write : Db)
    → live_deliveries env.now (drop_expired env.now req db at_write) ≡ spared env req db at_write
unfolding drop_expired
live-drop_expired env req db at_write = elim (Bool-cases (read_expired env.now req db)) [
  | inl b ↦ rw b (live-delete_id env.now req.packet_id at_write)
  | inr b ↦ rw b refl
]

module _ (env : SendEnv) (node : Node) (req : SendRequest) (db at_write : Db) (resp : SendResponse)
    (db' : Db) (a : Accepted env node req db at_write resp db') where
  live-ready :
      live_deliveries env.now a.ready
      ≡ live_deliveries env.now (drop_expired env.now req db at_write)
  unfolding live_deliveries
  live-ready = rw (admit-Admitted env node req a.dest_node a.bytes _ _ a.ready a.admitted).event

  live-stored :
      active_packet env.now (new_packet env node req a.bytes) ≡ true
      → live_deliveries env.now db'
        ≡ live_deliveries env.now (drop_expired env.now req db at_write)
          ++ (new_delivery env req a.dest_node, new_packet env node req a.bytes) ∷ []
  live-stored active =
      rw (a.stored, ← live-ready)
        (live-insert env.now (new_packet env node req a.bytes) (new_delivery env req a.dest_node)
            a.ready (unfold new_packet new_delivery in refl) a.fits
          ∙ rw active refl)

-- After an accepted valid request, whatever was committed between its reads and its writes, the
-- live deliveries are those of the database that it wrote to, and at the end one new delivery to the
-- node of the endpoint, which carries the request and whose id is in the reply. If the send had read
-- an expired packet with its id, it has removed the delivery of that id, even one that another
-- request has queued since.
pub send_packet-live :
    (env : SendEnv) (node : Node) (req : SendRequest) (views : List Db) (db at_write : Db)
    (resp : SendResponse) (db' : Db)
    → validate_payload req ≡ true
    → 0 < env.retention.default_packet_ttl_seconds
    → send_packet env node req views db at_write ≡ (ok resp, db')
    → resp.result ≡ accepted
    → (dest : Endpoint) × (d : Delivery) × (p : Packet) × (get_endpoint db req.to_endpoint_id
        ≡ some dest)
      × (live_deliveries env.now db' ≡ spared env req db at_write ++ (d, p) ∷ [])
      × Carries env node req dest d p
      × (resp.delivery_id ≡ some d.delivery_id)
unfolding new_delivery
send_packet-live env node req views db at_write resp db' v h sent is_accepted =
    let a = send_packet-Accepted env node req views db at_write resp db' is_accepted sent in
    let (dest, found, same) =
      authorize-destination env node req db a.dest_node a.bytes a.authorized in
    (
      dest,
      new_delivery env req a.dest_node,
      new_packet env node req a.bytes,
      found,
      live-stored env node req db at_write resp db' a (new_packet-active env node req a.bytes v h)
          ∙ ap (λ l. l ++ (new_delivery env req a.dest_node, new_packet env node req a.bytes) ∷ [])
              (live-drop_expired env req db at_write),
      new_packet-Carries env node a.dest_node req a.bytes dest same,
      ap (λ (r : SendResponse). r.delivery_id) a.replied,
    )

abbrev pub is_acceptance : Result SendResponse → Bool
is_acceptance (err e) = false
is_acceptance (ok resp) = elim resp.result [ accepted ↦ true | duplicate ↦ false ]

module _ (env : SendEnv) (node : Node) (req : SendRequest) (views : List Db) (at_write : Db) where
  commit_send-unchanged :
      (dest_node : Node) (bytes : ℕ) (ready : Db)
      → is_acceptance (commit_send env node req dest_node bytes views at_write ready).0 ≡ false
      → (commit_send env node req dest_node bytes views at_write ready).1 ≡ at_write
  unfolding commit_send
  commit_send-unchanged dest_node bytes ready h = ground arith

  send_admitted-unchanged :
      (dest_node : Node) (bytes : ℕ) (r : Result Db)
      → is_acceptance (send_admitted env node req dest_node bytes views at_write r).0 ≡ false
      → (send_admitted env node req dest_node bytes views at_write r).1 ≡ at_write
  unfolding send_admitted
  send_admitted-unchanged dest_node bytes (err e) h = refl
  send_admitted-unchanged dest_node bytes (ok ready) h =
      commit_send-unchanged dest_node bytes ready h

  send_new-unchanged :
      (dest_node : Node) (bytes : ℕ) (db : Db)
      → is_acceptance (send_new env node req dest_node bytes views db at_write).0 ≡ false
      → (send_new env node req dest_node bytes views db at_write).1 ≡ at_write
  unfolding send_new
  send_new-unchanged dest_node bytes db h = send_admitted-unchanged dest_node bytes _ h

  send_authorized-unchanged :
      (db : Db) (r : Result (Node × ℕ))
      → is_acceptance (send_authorized env node req views db at_write r).0 ≡ false
      → (send_authorized env node req views db at_write r).1 ≡ at_write
  unfolding send_authorized
  send_authorized-unchanged db (err e) h = refl
  send_authorized-unchanged db (ok (dest_node, bytes)) h =
      ground (arith, send_new-unchanged dest_node bytes db)

-- A send that is not accepted, refused at any check, answered as a duplicate or lost to another
-- request that took the id, leaves the database as that other request has left it.
pub send_packet-unchanged :
    (env : SendEnv) (node : Node) (req : SendRequest) (views : List Db) (db at_write : Db)
    → is_acceptance (send_packet env node req views db at_write).0 ≡ false
    → (send_packet env node req views db at_write).1 ≡ at_write
unfolding send_packet
send_packet-unchanged env node req views db at_write h =
    send_authorized-unchanged env node req views at_write db _ h
