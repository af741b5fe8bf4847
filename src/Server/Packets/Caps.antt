-- ===== src/Server/Packets/Caps.antt =====
-- An accepted send keeps every queue within the caps of enforce_queue_limits.
use arqs.Prelude.{
  inl, inr, Bool-cases, ℕ, ◌+◌, ◌≤◌, ◌<◌, ◌≡◌, ◌∙◌, ap, Bool, true, false, ◌&&◌, List, [], ◌∷◌,
  ◌++◌, ◌==◌, arith, if◌then◌else◌, has_row, count_rows, select_rows, count_rows-insert,
  sum_rows-insert, find_row-insert_new, select_rows-insert, count_rows-select-delete-le,
  sum_rows-select-delete-le,
}
use arqs.Http.{ok}
use arqs.Models.{Node, Packet, Delivery, Db}
use arqs.Config.{RuntimeSettings}
use arqs.Services.{
  join_packets, live_deliveries, active_packet, enforce_queue_limits, enforce_send_rate_limit,
  queued_packets, queued_bytes, for_endpoint, for_node, for_any, recent_event,
}
use arqs.Services.Live.{of_packet, join-insert_packet, join-insert_delivery, live-delete}
use arqs.Server.Packets.{
  read_expired, SendEnv, SendRequest, admit, can_insert, insert_packet, drop_expired,
}

-- What can_insert has found.
pub record Fits (p : Packet) (d : Delivery) (db : Db) : Type 0 where
  pub new_packet_id : has_row (λ k. k.packet_id == p.packet_id) db.packets ≡ false
  pub new_delivery_id : has_row (λ e. e.delivery_id == d.delivery_id) db.deliveries ≡ false
  pub unnamed : has_row (λ e. e.packet_id == d.packet_id) db.deliveries ≡ false
  pub sender : has_row (λ n. n.node_id == p.sender_node_id) db.nodes ≡ true
  pub from_endpoint : has_row (λ e. e.endpoint_id == p.from_endpoint_id) db.endpoints ≡ true
  pub to_endpoint : has_row (λ e. e.endpoint_id == p.to_endpoint_id) db.endpoints ≡ true
  pub to_node : has_row (λ n. n.node_id == d.destination_node_id) db.nodes ≡ true
  pub at_endpoint : has_row (λ e. e.endpoint_id == d.destination_endpoint_id) db.endpoints ≡ true

pub can_insert-Fits : (p : Packet) (d : Delivery) (db : Db) → can_insert p d db ≡ true → Fits p d db
unfolding can_insert
can_insert-Fits p d db h = ground arith

-- The queue of live deliveries gets the new one at its end, if its packet is not expired already.
pub live-insert :
    (now : ℕ) (p : Packet) (d : Delivery) (db : Db)
    → d.packet_id ≡ p.packet_id
    → can_insert p d db ≡ true
    → live_deliveries now (insert_packet p d db) ≡ (
        if active_packet now p
        then live_deliveries now db ++ (d, p) ∷ []
        else live_deliveries now db)
unfolding live_deliveries insert_packet
live-insert now p d db same fits =
    ap (select_rows (λ (r : Delivery × Packet). active_packet now r.1)) (
      join-insert_delivery (db.packets ++ p ∷ []) db.deliveries d p (
        find_row-insert_new (of_packet d) db.packets p
          (rw same (can_insert-Fits p d db fits).new_packet_id) (ground arith))
      ∙ ap (λ (l : List (Delivery × Packet)). l ++ (d, p) ∷ [])
          (join-insert_packet db.packets p db.deliveries
            (rw (← same) (can_insert-Fits p d db fits).unnamed)))
    ∙ select_rows-insert (λ r. active_packet now r.1) (join_packets db.packets db.deliveries) (d, p)

-- What the checks of enforce_queue_limits say of the queues before the send.
pub record HasRoom (now : ℕ) (s : RuntimeSettings) (storage endpoint node bytes : ℕ) (db : Db)
    : Type 0 where
  pub endpoint_packets :
      queued_packets (for_endpoint endpoint) (live_deliveries now db)
      < s.max_queued_packets_per_endpoint
  pub endpoint_bytes :
      queued_bytes (for_endpoint endpoint) (live_deliveries now db) + bytes
      ≤ s.max_queued_bytes_per_endpoint
  pub node_bytes :
      queued_bytes (for_node node) (live_deliveries now db) + bytes ≤ s.max_queued_bytes_per_node
  pub total_packets : queued_packets for_any (live_deliveries now db) < s.max_total_queued_packets
  pub total_bytes : queued_bytes for_any (live_deliveries now db) + bytes ≤ s.max_total_queued_bytes
  pub storage_room : storage + bytes ≤ s.max_storage_bytes

enforce_queue_limits-HasRoom :
    (now : ℕ) (s : RuntimeSettings) (storage endpoint node bytes : ℕ) (db : Db)
    → enforce_queue_limits now s storage endpoint node bytes db ≡ ok tt
    → HasRoom now s storage endpoint node bytes db
unfolding enforce_queue_limits
enforce_queue_limits-HasRoom now s storage endpoint node bytes db h = ground arith

pub record Admitted (env : SendEnv) (node : Node) (req : SendRequest) (dest_node : Node) (bytes : ℕ)
    (db at_write ready : Db) : Type 0 where
  pub room :
      HasRoom env.now env.settings env.storage_bytes req.to_endpoint_id dest_node.node_id bytes db
  pub rate :
      count_rows (recent_event env.now env.settings node.node_id) db.send_events
      < env.settings.max_sends_per_window
  pub event : ready ≡ record at_write {
    send_events =
        at_write.send_events
        ++ record { event_id = env.event_id; node_id = node.node_id; created_at = env.now } ∷ [];
  }

pub admit-Admitted :
    (env : SendEnv) (node : Node) (req : SendRequest) (dest_node : Node) (bytes : ℕ)
    (db at_write ready : Db)
    → admit env node req dest_node bytes db at_write ≡ ok ready
    → Admitted env node req dest_node bytes db at_write ready
unfolding admit enforce_send_rate_limit
admit-Admitted env node req dest_node bytes db at_write ready h = record {
  room =
      enforce_queue_limits-HasRoom env.now env.settings env.storage_bytes req.to_endpoint_id
        dest_node.node_id bytes db (ground arith);
  rate = ground arith;
  event = ground arith;
}

-- One insert adds at most its own packet to a queue that it is in.
module _ (q : Delivery → Bool) (now : ℕ) (p : Packet) (d : Delivery) (db : Db)
    (same : d.packet_id ≡ p.packet_id) (fits : can_insert p d db ≡ true) where
  pub queued_packets-insert :
      queued_packets q (live_deliveries now (insert_packet p d db))
      ≤ queued_packets q (live_deliveries now db) + (if q d then 1 else 0)
  queued_packets-insert = rw (live-insert now p d db same fits) (
      ground (
        arith,
        count_rows-insert (λ (r : Delivery × Packet). q r.0) (live_deliveries now db) (d, p),
      ))

  pub queued_bytes-insert :
      queued_bytes q (live_deliveries now (insert_packet p d db))
      ≤ queued_bytes q (live_deliveries now db) + (if q d then p.payload_bytes else 0)
  queued_bytes-insert = rw (live-insert now p d db same fits) (
      ground (
        arith,
        sum_rows-insert (λ (r : Delivery × Packet). q r.0)
            (λ (r : Delivery × Packet). r.1.payload_bytes) (live_deliveries now db) (d, p),
      ))

module _ (q : Delivery → Bool) (now : ℕ) (req : SendRequest) (db : Db) where
  pub queued_packets-drop_expired :
      queued_packets q (live_deliveries now (drop_expired now req db db))
      ≤ queued_packets q (live_deliveries now db)
  unfolding drop_expired live_deliveries
  queued_packets-drop_expired =
      let gone = λ (k : Packet). k.packet_id == req.packet_id in
      elim (Bool-cases (read_expired now req db)) [
        | inr b ↦ rw b (omega arith)
        | inl b ↦
            rw (b, live-delete now gone db)
              (count_rows-select-delete-le
                (λ (r : Delivery × Packet). has_row (λ k. gone k && of_packet r.0 k) db.packets)
                (λ r. active_packet now r.1) (λ r. q r.0) (join_packets db.packets db.deliveries))
      ]

  pub queued_bytes-drop_expired :
      queued_bytes q (live_deliveries now (drop_expired now req db db))
      ≤ queued_bytes q (live_deliveries now db)
  unfolding drop_expired live_deliveries
  queued_bytes-drop_expired =
      let gone = λ (k : Packet). k.packet_id == req.packet_id in
      elim (Bool-cases (read_expired now req db)) [
        | inr b ↦ rw b (omega arith)
        | inl b ↦
            rw (b, live-delete now gone db)
              (sum_rows-select-delete-le
                (λ (r : Delivery × Packet). has_row (λ k. gone k && of_packet r.0 k) db.packets)
                (λ r. active_packet now r.1) (λ r. q r.0) (λ r. r.1.payload_bytes)
                (join_packets db.packets db.deliveries))
      ]

-- No queue is over its cap: for each endpoint, for each node and in total.
pub record WithinCaps (now : ℕ) (s : RuntimeSettings) (db : Db) : Type 0 where
  pub endpoint_packets :
      (a : ℕ)
      → queued_packets (for_endpoint a) (live_deliveries now db) ≤ s.max_queued_packets_per_endpoint
  pub endpoint_bytes :
      (a : ℕ)
      → queued_bytes (for_endpoint a) (live_deliveries now db) ≤ s.max_queued_bytes_per_endpoint
  pub node_bytes :
      (a : ℕ) → queued_bytes (for_node a) (live_deliveries now db) ≤ s.max_queued_bytes_per_node
  pub total_packets : queued_packets for_any (live_deliveries now db) ≤ s.max_total_queued_packets
  pub total_bytes : queued_bytes for_any (live_deliveries now db) ≤ s.max_total_queued_bytes
