-- ===== src/Server/Inbox.antt =====
-- _fetch_inbox_deliveries, poll_inbox and ack_packet of arqs-server/app/main.py.
pub mod Fetch
pub mod Ack
use arqs.Prelude.{
  ◌-◌, ℕ, ◌+◌, min, Bool, true, false, not, ◌&&◌, Option, none, some, List, [], ◌∷◌, ◌==◌, leb,
  if◌then◌else◌, find_row, select_rows, delete_rows, order_by, take,
}
use arqs.Http.{Result, ok, err, ◌>>=◌, ◌>>◌, refuse_if, delivery_not_found, delivery_not_owned}
use arqs.Models.{Node, Packet, Delivery, Db, is_queued}
use arqs.Models.Cascade.{delete_packets}
use arqs.Config.{RuntimeSettings}
use arqs.Services.{ensure_node_active, live_deliveries}
use arqs.Txn.{atomically}

-- The live deliveries of the node, oldest first, at most `limit` of them.
unfoldable pub fetch_inbox_deliveries : ℕ → ℕ → ℕ → Db → List (Delivery × Packet)
unfolding live_deliveries
fetch_inbox_deliveries now node_id limit db = take limit (
    order_by (λ r. r.0.queued_at)
      (select_rows (λ r. (r.0.destination_node_id == node_id) && is_queued r.0.state)
        (live_deliveries now db)))

-- What a poll meets, by the monotonic clock: the database and the time of day.
pub record World : Type 0 where
  pub view : ℕ → Db
  pub now : ℕ → ℕ

-- One round of the loop of poll_inbox: how long its fetch takes, what passes between the two
-- readings of the clock after it, and when, if ever, the node is notified once the poll waits.
pub record Round : Type 0 where
  pub fetch_time : ℕ
  pub pause : ℕ
  pub notified : Option ℕ

-- How long `wait_for_change(timeout=...)` takes.
unfoldable pub wait_time : ℕ → Option ℕ → ℕ
wait_time timeout none = timeout
wait_time timeout (some t) = min t timeout

-- The clock when the round after this one begins: with no time left the loop goes on at once.
unfoldable pub next_round : ℕ → ℕ → Round → ℕ
unfolding wait_time
next_round deadline clock r =
    let later = clock + r.fetch_time + r.pause in
    if leb deadline later then later else later + wait_time (deadline - later) r.notified

-- A round that is quick and waits until its timeout.
abbrev pub quiet : Round
quiet = record { fetch_time = 0; pause = 0; notified = none }

-- The loop, from a round that begins at `clock`. After the given rounds nobody notifies the node any
-- more, so that the poll waits until its timeout and fetches a last time.
unfoldable pub poll_rounds : World → ℕ → ℕ → ℕ → ℕ → List Round → List (Delivery × Packet)
unfolding next_round
poll_rounds world node_id limit deadline clock [] =
    elim (fetch_inbox_deliveries (world.now clock) node_id limit (world.view clock)) [
      | [] ↦
          if leb deadline clock
          then []
          else let last = next_round deadline clock quiet in
            fetch_inbox_deliveries (world.now last) node_id limit (world.view last)
      | d ∷ ds ↦ d ∷ ds
    ]
poll_rounds world node_id limit deadline clock (r ∷ rs) =
    let rest = poll_rounds world node_id limit deadline (next_round deadline clock r) rs in
    elim (fetch_inbox_deliveries (world.now clock) node_id limit (world.view clock)) [
      | [] ↦ if leb deadline (clock + r.fetch_time) then [] else rest
      | d ∷ ds ↦ d ∷ ds
    ]

-- `start` is the monotonic clock at the call; both parameters of the request are capped.
unfoldable pub poll_inbox :
    RuntimeSettings → ℕ → ℕ → ℕ → Node → World → List Round → Result (List (Delivery × Packet))
unfolding ensure_node_active
poll_inbox settings start wait limit node world rounds = do
  ensure_node_active node
  ok (
      poll_rounds world node.node_id (min limit settings.max_inbox_batch)
        (start + min wait settings.long_poll_max_seconds) start rounds)

pub data AckStatus : Type 0 where
  received handled rejected failed invalid unsupported : AckStatus

pub record AckRequest : Type 0 where
  pub delivery_id : Option ℕ
  pub packet_id : Option ℕ
  pub status : AckStatus

-- PacketAckRequest.validate_reference
unfoldable pub validate_reference : AckRequest → Bool
validate_reference req = elim req.delivery_id [
  | some d ↦ true
  | none ↦ elim req.packet_id [ some p ↦ true | none ↦ false ]
]

-- The delivery id comes first; the packet id is read only without one.
unfoldable pub acked_by : Option ℕ → Option ℕ → Delivery × Packet → Bool
acked_by (some d) packet_id r = r.0.delivery_id == d
acked_by none (some p) r = r.1.packet_id == p
acked_by none none r = false

unfoldable pub find_acked : ℕ → AckRequest → Db → Option (Delivery × Packet)
find_acked now req db = find_row (acked_by req.delivery_id req.packet_id) (live_deliveries now db)

check_delivery : Option (Delivery × Packet) → Result (Delivery × Packet)
check_delivery none = err delivery_not_found
check_delivery (some r) = ok r

unfoldable pub remove_delivery : Delivery → Packet → Db → Db
unfolding delete_packets
remove_delivery d p db =
    delete_packets (λ k. k.packet_id == p.packet_id)
      (record db { deliveries = delete_rows (λ e. e.delivery_id == d.delivery_id) db.deliveries })

pub record AckResponse : Type 0 where
  pub packet_id : ℕ
  pub status : AckStatus

unfoldable pub ack_packet : ℕ → AckRequest → Node → Db → Result AckResponse × Db
unfolding ensure_node_active check_delivery remove_delivery
ack_packet now req node db = atomically db do
  ensure_node_active node
  row ← check_delivery (find_acked now req db)
  refuse_if (not (row.0.destination_node_id == node.node_id)) delivery_not_owned
  ok (record { packet_id = row.0.packet_id; status = req.status }, remove_delivery row.0 row.1 db)
