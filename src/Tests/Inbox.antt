-- ===== src/Tests/Inbox.antt =====
-- Bob's inbox after Alice has sent a packet.
use mathlib.Core.List.{Perm}
use arqs.Prelude.{
  leb, arith, if◌then◌else◌, find_row, select_rows, take, ℕ, ◌+◌, ◌≡◌, ◌≤◌, refl, none, some, [],
  ◌∷◌, List, length, min, ◌||◌, ◌==◌, delete_rows,
}
use arqs.Http.{ok, err, delivery_not_found}
use arqs.Models.{Db, Delivery, Packet}
use arqs.Config.{default_settings}
use arqs.Services.{live_deliveries}
use arqs.Server.Inbox.{
  World, AckRequest, AckResponse, ack_packet, Round, poll_inbox, fetch_inbox_deliveries, AckStatus,
}
use arqs.Server.Inbox
use arqs.Server.Inbox.Ack.{ack_packet-live, ack_packet-twice}
use arqs.Server.Inbox.Fetch.{
  Polled, fetch_inbox_deliveries-oldest, IsAscending, for_inbox, poll_inbox-ends,
}
use arqs.Tests.Scene.{bob, linked}
use arqs.Tests.Packets.{after_hello}

abbrev got_it : AckRequest
got_it = record { delivery_id = none; packet_id = some 40; status = AckStatus.handled }

abbrev got_it_reply : AckResponse
got_it_reply = record { packet_id = 40; status = AckStatus.handled }

abbrev after_ack : Db
after_ack = record after_hello { packets = []; deliveries = [] }

acked : ack_packet 110 got_it bob after_hello ≡ (ok got_it_reply, after_ack)
unfolding ack_packet Inbox.find_acked live_deliveries Inbox.acked_by
acked = refl

ack_packet-live_example :
    (d : Delivery) × (p : Packet) × (find_row
        (Inbox.acked_by got_it.delivery_id got_it.packet_id)
        (live_deliveries 110 after_hello)
      ≡ some (d, p))
    × (d.destination_node_id ≡ 2)
    × (40 ≡ d.packet_id)
    × ((t : ℕ)
        → live_deliveries t after_ack
          ≡ delete_rows
              (λ r. (r.0.delivery_id == d.delivery_id) || (r.0.packet_id == d.packet_id))
              (live_deliveries t after_hello))
ack_packet-live_example = ack_packet-live 110 got_it bob after_hello got_it_reply after_ack acked

ack_packet-twice_example : (ack_packet 120 got_it bob after_ack).0 ≡ err delivery_not_found
ack_packet-twice_example =
    ack_packet-twice 110 120 got_it bob bob after_hello got_it_reply after_ack acked refl

-- The packet comes with a notification during the first wait, at 3 on the clock.
abbrev world : World
world = record { view = λ c. if leb 3 c then after_hello else linked; now = λ c. 98 + c }

abbrev rounds : List Round
rounds = record { fetch_time = 1; pause = 0; notified = some 2 } ∷ []

poll_inbox-ends_example :
    (rows : List (Delivery × Packet)) × (poll_inbox default_settings 0 20 5 bob world rounds
      ≡ ok rows)
    × Polled world 2
        (min 5 default_settings.max_inbox_batch)
        (0 + min 20 default_settings.long_poll_max_seconds)
        1
        0
        rows
    × (length rows ≤ 5)
    × (length rows ≤ default_settings.max_inbox_batch)
poll_inbox-ends_example =
    poll_inbox-ends default_settings 0 20 5 1 bob world rounds refl (omega arith, tt)

woken :
    poll_inbox default_settings 0 20 5 bob world rounds
    ≡ ok (fetch_inbox_deliveries 101 2 5 after_hello)
unfolding poll_inbox fetch_inbox_deliveries Inbox.poll_rounds
woken = refl

timed_out :
    poll_inbox default_settings 0 1 5 bob (record world { view = λ c. linked }) rounds ≡ ok []
unfolding poll_inbox Inbox.poll_rounds fetch_inbox_deliveries
timed_out = refl

fetch_inbox_deliveries-oldest_example :
    (queue : List (Delivery × Packet)) × (fetch_inbox_deliveries 110 2 5 after_hello ≡ take 5 queue)
    × Perm queue (select_rows (for_inbox 2) (live_deliveries 110 after_hello))
    × IsAscending (λ r. r.0.queued_at) queue
    × (length (fetch_inbox_deliveries 110 2 5 after_hello) ≤ 5)
fetch_inbox_deliveries-oldest_example = fetch_inbox_deliveries-oldest 110 2 5 after_hello
