-- ===== src/Server/Packets/Bounded.antt =====
-- The caps and the rate limit that a send keeps, from the checks that it makes.
use arqs.Prelude.{
  ℕ, ◌+◌, ◌≤◌, ◌≡◌, refl, subst, ==→≡, Bool-cases, inl, inr, Bool, false, List, ◌==◌, arith,
  if◌then◌else◌, count_rows, count_rows-insert,
}
use arqs.Http.{ok}
use arqs.Models.{Node, Delivery, Db}
use arqs.Services.{
  live_deliveries, queued_packets, queued_bytes, for_endpoint, for_node, for_any, recent_event,
}
use arqs.Server.Packets.{
  SendEnv, SendRequest, SendResponse, accepted, send_packet, new_packet, new_delivery, drop_expired,
  insert_packet,
}
use arqs.Server.Packets.Accept.{Accepted, send_packet-Accepted}
use arqs.Server.Packets.Caps.{
  Admitted, admit-Admitted, queued_packets-insert, queued_bytes-insert, queued_packets-drop_expired,
  queued_bytes-drop_expired, WithinCaps,
}

-- A bound at one id and at all others is a bound at every id.
at_target :
    (f : ℕ → ℕ) (target x : ℕ) {cap : ℕ}
    → f target ≤ cap
    → ((target == x) ≡ false → f x ≤ cap)
    → f x ≤ cap
at_target f target x {cap} here there = elim (Bool-cases (target == x)) [
  | inl e ↦ subst (λ y. f y ≤ cap) (==→≡ target x e) here
  | inr e ↦ there e
]

module _ (env : SendEnv) (node : Node) (req : SendRequest) (db : Db) (resp : SendResponse)
    (db' : Db) (a : Accepted env node req db db resp db') where
  admitted :
      Admitted env node req a.dest_node a.bytes
        (drop_expired env.now req db db)
        (drop_expired env.now req db db)
        a.ready
  admitted = admit-Admitted env node req a.dest_node a.bytes _ _ a.ready a.admitted

  live-ready :
      live_deliveries env.now a.ready ≡ live_deliveries env.now (drop_expired env.now req db db)
  unfolding live_deliveries
  live-ready = rw admitted.event

  -- The queues grow by the new delivery and by nothing else.
  packets_grow :
      (q : Delivery → Bool)
      → queued_packets q (live_deliveries env.now db')
        ≤ queued_packets q (live_deliveries env.now (drop_expired env.now req db db))
          + (if q (new_delivery env req a.dest_node) then 1 else 0)
  packets_grow q =
      rw (a.stored, ← live-ready)
        (queued_packets-insert q env.now (new_packet env node req a.bytes)
          (new_delivery env req a.dest_node) a.ready (unfold new_packet new_delivery in refl)
          a.fits)

  bytes_grow :
      (q : Delivery → Bool)
      → queued_bytes q (live_deliveries env.now db')
        ≤ queued_bytes q (live_deliveries env.now (drop_expired env.now req db db))
          + (if q (new_delivery env req a.dest_node) then a.bytes else 0)
  unfolding new_packet
  bytes_grow q =
      rw (a.stored, ← live-ready)
        (queued_bytes-insert q env.now (new_packet env node req a.bytes)
          (new_delivery env req a.dest_node) a.ready (unfold new_packet new_delivery in refl)
          a.fits)

  stays_within : WithinCaps env.now env.settings db → WithinCaps env.now env.settings db'
  unfolding new_delivery
  stays_within w = record {
    endpoint_packets = λ x.
        at_target (λ y. queued_packets (for_endpoint y) (live_deliveries env.now db'))
          req.to_endpoint_id x
          (ground (arith, packets_grow (for_endpoint req.to_endpoint_id), admitted.room))
          λ e. ground (
            arith,
            packets_grow (for_endpoint x),
            queued_packets-drop_expired (for_endpoint x) env.now req db,
            w.endpoint_packets x,
          );
    endpoint_bytes = λ x.
        at_target (λ y. queued_bytes (for_endpoint y) (live_deliveries env.now db'))
          req.to_endpoint_id x
          (ground (arith, bytes_grow (for_endpoint req.to_endpoint_id), admitted.room))
          λ e. ground (
            arith,
            bytes_grow (for_endpoint x),
            queued_bytes-drop_expired (for_endpoint x) env.now req db,
            w.endpoint_bytes x,
          );
    node_bytes = λ x.
        at_target (λ y. queued_bytes (for_node y) (live_deliveries env.now db')) a.dest_node.node_id
          x (ground (arith, bytes_grow (for_node a.dest_node.node_id), admitted.room))
          λ e. ground (
            arith,
            bytes_grow (for_node x),
            queued_bytes-drop_expired (for_node x) env.now req db,
            w.node_bytes x,
          );
    total_packets = ground (arith, packets_grow for_any, admitted.room);
    total_bytes = ground (arith, bytes_grow for_any, admitted.room);
  }

  kept_rate :
      count_rows (recent_event env.now env.settings node.node_id) db'.send_events
      ≤ env.settings.max_sends_per_window
  unfolding insert_packet drop_expired
  kept_rate =
      rw (a.stored, admitted.event)
        (ground (
          arith,
          admitted.rate,
          count_rows-insert (recent_event env.now env.settings node.node_id) db.send_events
              (record { event_id = env.event_id; node_id = node.node_id; created_at = env.now }),
        ))

-- If no queue of live deliveries is over its cap before a send that no other request interrupts,
-- none is after it is accepted: for every endpoint in packets and bytes, for every node in bytes,
-- and in total in packets and bytes.
pub send_packet-WithinCaps :
    (env : SendEnv) (node : Node) (req : SendRequest) (views : List Db) (db : Db)
    (resp : SendResponse) (db' : Db)
    → send_packet env node req views db db ≡ (ok resp, db')
    → resp.result ≡ accepted
    → WithinCaps env.now env.settings db
    → WithinCaps env.now env.settings db'
send_packet-WithinCaps env node req views db resp db' sent is_accepted =
    stays_within env node req db resp db'
      (send_packet-Accepted env node req views db db resp db' is_accepted sent)

-- An accepted send that no other request interrupts leaves the sender with at most
-- `max_sends_per_window` events in the window, the one of this send included.
pub send_packet-rate_limit :
    (env : SendEnv) (node : Node) (req : SendRequest) (views : List Db) (db : Db)
    (resp : SendResponse) (db' : Db)
    → send_packet env node req views db db ≡ (ok resp, db')
    → resp.result ≡ accepted
    → count_rows (recent_event env.now env.settings node.node_id) db'.send_events
      ≤ env.settings.max_sends_per_window
send_packet-rate_limit env node req views db resp db' sent is_accepted =
    kept_rate env node req db resp db'
      (send_packet-Accepted env node req views db db resp db' is_accepted sent)
