-- ===== src/Server/Inbox/Ack.antt =====
-- An acknowledgement removes one delivery with its packet, and nothing else.
use arqs.Prelude.{
  find_row, All-imp, find_row-delete_imp, find_row-holds, refl, true, delete_rows-delete,
  select_rows-delete, select_rows, List, ap, ◌∙◌, none, ◌||◌, find_row-All, ◌==◌, arith,
  delete_rows, some, Option, ◌≡◌, ℕ,
}
use arqs.Http.{ok, err, delivery_not_found}
use arqs.Models.{Node, Packet, Delivery, Db, is_active_node}
use arqs.Services.{live_deliveries, join_packets, active_packet}
use arqs.Services.Live.{live-IsPair, IsPair, live-delete_id, join-delete_deliveries}
use arqs.Server.Inbox.{AckRequest, AckResponse, ack_packet, find_acked, remove_delivery, acked_by}

-- The row that an accepted acknowledgement has found.
pub record Acked (now : ℕ) (req : AckRequest) (node : Node) (db : Db) (resp : AckResponse)
    (db' : Db) : Type 0 where
  pub delivery : Delivery
  pub packet : Packet
  pub found : find_acked now req db ≡ some (delivery, packet)
  pub owned : delivery.destination_node_id ≡ node.node_id
  pub answered : resp.packet_id ≡ delivery.packet_id
  pub removed : db' ≡ remove_delivery delivery packet db

pub ack_packet-cases :
    (now : ℕ) (req : AckRequest) (node : Node) (db : Db) (o : Option (Delivery × Packet))
    (resp : AckResponse) (db' : Db)
    → find_acked now req db ≡ o
    → ack_packet now req node db ≡ (ok resp, db')
    → Acked now req node db resp db'
unfolding ack_packet
ack_packet-cases now req node db none resp db' e h = absurd (ground arith)
ack_packet-cases now req node db (some (d, p)) resp db' e h = record {
  delivery = d;
  packet = p;
  found = e;
  owned = ground arith;
  answered = ground arith;
  removed = ground arith;
}

-- The row that is acknowledged is one of the live pairs.
find_acked-IsPair :
    (now : ℕ) (req : AckRequest) (db : Db) (d : Delivery) (p : Packet)
    → find_acked now req db ≡ some (d, p)
    → IsPair db.packets (d, p)
unfolding find_acked
find_acked-IsPair now req db d p h =
    find_row-All (IsPair db.packets) (acked_by req.delivery_id req.packet_id)
      (live_deliveries now db) (d, p) (live-IsPair now db) h

live-remove_delivery :
    (t : ℕ) (d : Delivery) (p : Packet) (db : Db)
    → p.packet_id ≡ d.packet_id
    → live_deliveries t (remove_delivery d p db)
      ≡ delete_rows
          (λ r. (r.0.delivery_id == d.delivery_id) || (r.0.packet_id == d.packet_id))
          (live_deliveries t db)
unfolding remove_delivery live_deliveries
live-remove_delivery t d p db same =
    let db0 : Db = record db {
      deliveries = delete_rows (λ e. e.delivery_id == d.delivery_id) db.deliveries;
    } in
    rw same (
      live-delete_id t d.packet_id db0
      ∙ ap
          (λ (l : List (Delivery × Packet)).
            delete_rows (λ r. r.0.packet_id == d.packet_id)
              (select_rows (λ r. active_packet t r.1) l))
          (join-delete_deliveries db.packets (λ e. e.delivery_id == d.delivery_id) db.deliveries)
      ∙ ap (delete_rows (λ (r : Delivery × Packet). r.0.packet_id == d.packet_id)) (
          select_rows-delete (λ (r : Delivery × Packet). r.0.delivery_id == d.delivery_id)
            (λ r. active_packet t r.1) (join_packets db.packets db.deliveries))
      ∙ delete_rows-delete (λ (r : Delivery × Packet). r.0.packet_id == d.packet_id)
          (λ r. r.0.delivery_id == d.delivery_id) (live_deliveries t db))

-- An accepted acknowledgement is for a live delivery, the first that its delivery id names, or
-- without one its packet id; the delivery is to the node that sends the acknowledgement. Afterwards,
-- at any time, the live deliveries are those from before without the rows that have the id of this
-- delivery or of its packet.
pub ack_packet-live :
    (now : ℕ) (req : AckRequest) (node : Node) (db : Db) (resp : AckResponse) (db' : Db)
    → ack_packet now req node db ≡ (ok resp, db')
    → (d : Delivery) × (p : Packet) × (find_row
          (acked_by req.delivery_id req.packet_id)
          (live_deliveries now db)
        ≡ some (d, p))
      × (d.destination_node_id ≡ node.node_id)
      × (resp.packet_id ≡ d.packet_id)
      × ((t : ℕ)
          → live_deliveries t db'
            ≡ delete_rows
                (λ r. (r.0.delivery_id == d.delivery_id) || (r.0.packet_id == d.packet_id))
                (live_deliveries t db))
unfolding find_acked
ack_packet-live now req node db resp db' h =
    let a = ack_packet-cases now req node db (find_acked now req db) resp db' refl h in
    (
      a.delivery,
      a.packet,
      a.found,
      a.owned,
      a.answered,
      λ t.
          ap (live_deliveries t) a.removed
          ∙ live-remove_delivery t a.delivery a.packet db
              (find_acked-IsPair now req db a.delivery a.packet a.found).0,
    )

acked_by-same :
    (o q : Option ℕ) (d : Delivery) (p : Packet) (r : Delivery × Packet)
    → p.packet_id ≡ d.packet_id
    → acked_by o q (d, p) ≡ true
    → r.1.packet_id ≡ r.0.packet_id
    → acked_by o q r ≡ true
    → ((r.0.delivery_id == d.delivery_id) || (r.0.packet_id == d.packet_id)) ≡ true
unfolding acked_by
acked_by-same (some x) q d p r same h pair e = ground arith
acked_by-same none (some x) d p r same h pair e = ground arith
acked_by-same none none d p r same h pair e = cc

find_acked-again :
    (now later : ℕ) (req : AckRequest) (node : Node) (db : Db) (resp : AckResponse) (db' : Db)
    → Acked now req node db resp db'
    → find_acked later req db' ≡ none
unfolding find_acked
find_acked-again now later req node db resp db' a =
    let same = (find_acked-IsPair now req db a.delivery a.packet a.found).0 in
    let hit =
      find_row-holds (acked_by req.delivery_id req.packet_id) (live_deliveries now db)
        (a.delivery, a.packet) a.found in
    rw (a.removed, live-remove_delivery later a.delivery a.packet db same)
      (find_row-delete_imp
        (λ r.
          (r.0.delivery_id == a.delivery.delivery_id) || (r.0.packet_id == a.delivery.packet_id))
        (acked_by req.delivery_id req.packet_id) (live_deliveries later db)
        (All-imp (IsPair db.packets) _ (live_deliveries later db)
          (λ r pair e.
            acked_by-same req.delivery_id req.packet_id a.delivery a.packet r same hit pair.0 e)
          (live-IsPair later db)))

-- After an acknowledgement is accepted, the same request is answered with 404 by every active node,
-- at any later time: neither the delivery id nor the packet id finds the row again.
pub ack_packet-twice :
    (now later : ℕ) (req : AckRequest) (node node' : Node) (db : Db) (resp : AckResponse) (db' : Db)
    → ack_packet now req node db ≡ (ok resp, db')
    → is_active_node node'.status ≡ true
    → (ack_packet later req node' db').0 ≡ err delivery_not_found
unfolding ack_packet
ack_packet-twice now later req node node' db resp db' h active =
    let a = ack_packet-cases now req node db (find_acked now req db) resp db' refl h in
    ground (arith, find_acked-again now later req node db resp db' a)
