-- ===== src/Services/Live.antt =====
-- How the live deliveries, the join of the two tables, follow the inserts and deletes on them.
use arqs.Prelude.{
  All-select, none, ap, Option, true, ◌∙◌, All, All-imp, delete_rows-congr, select_rows-delete,
  find_row-holds, find_row-has_row, ==→≡, inl, inr, Bool-cases, ℕ, ◌≡◌, refl, Bool, false, ◌&&◌,
  some, List, [], ◌∷◌, ◌++◌, ◌==◌, arith, has_row, find_row, delete_rows, select_rows,
  find_row-insert_ne, find_row-delete,
}
use arqs.Models.{Packet, Delivery, Db}
use arqs.Models.Cascade.{delete_packets}
use arqs.Services.{join_packets, live_deliveries, active_packet}

abbrev pub of_packet : Delivery → Packet → Bool
of_packet d k = k.packet_id == d.packet_id

-- A packet that no delivery names adds nothing.
pub join-insert_packet :
    (packets : List Packet) (p : Packet) (ds : List Delivery)
    → has_row (λ e. e.packet_id == p.packet_id) ds ≡ false
    → join_packets (packets ++ p ∷ []) ds ≡ join_packets packets ds
unfolding join_packets
join-insert_packet packets p [] h = refl
join-insert_packet packets p (d ∷ ds) h =
    ground (arith, find_row-insert_ne (of_packet d) packets p, join-insert_packet packets p ds)

pub join-insert_delivery :
    (packets : List Packet) (ds : List Delivery) (d : Delivery) (p : Packet)
    → find_row (of_packet d) packets ≡ some p
    → join_packets packets (ds ++ d ∷ []) ≡ join_packets packets ds ++ (d, p) ∷ []
unfolding join_packets
join-insert_delivery packets [] d p h = ground arith
join-insert_delivery packets (e ∷ ds) d p h = ground (arith, join-insert_delivery packets ds d p h)

-- The deliveries that go with deleted packets are the ones that leave the join.
pub join-delete :
    (gone : Packet → Bool) (packets : List Packet) (ds : List Delivery)
    → join_packets
        (delete_rows gone packets)
        (delete_rows (λ d. has_row (λ k. gone k && of_packet d k) packets) ds)
      ≡ delete_rows
          (λ r. has_row (λ k. gone k && of_packet r.0 k) packets)
          (join_packets packets ds)
unfolding join_packets
join-delete gone packets [] = refl
join-delete gone packets (d ∷ ds) =
    ground (arith, join-delete gone packets ds, find_row-delete gone (of_packet d) packets)

pub live-delete :
    (now : ℕ) (gone : Packet → Bool) (db : Db)
    → live_deliveries now (delete_packets gone db)
      ≡ select_rows
          (λ r. active_packet now r.1)
          (delete_rows
            (λ r. has_row (λ k. gone k && of_packet r.0 k) db.packets)
            (join_packets db.packets db.deliveries))
unfolding live_deliveries delete_packets
live-delete now gone db = rw (join-delete gone db.packets db.deliveries)

pub join-delete_deliveries :
    (packets : List Packet) (gone : Delivery → Bool) (ds : List Delivery)
    → join_packets packets (delete_rows gone ds)
      ≡ delete_rows (λ r. gone r.0) (join_packets packets ds)
unfolding join_packets
join-delete_deliveries packets gone [] = refl
join-delete_deliveries packets gone (d ∷ ds) =
    ground (arith, join-delete_deliveries packets gone ds)

-- A row of the join pairs a delivery with the stored packet that it names.
abbrev pub IsPair : List Packet → Delivery × Packet → Type 0
IsPair packets r = (r.1.packet_id ≡ r.0.packet_id) × (has_row (of_packet r.0) packets ≡ true)

pub join_packets-IsPair :
    (packets : List Packet) (ds : List Delivery) → All (IsPair packets) (join_packets packets ds)
unfolding join_packets
join_packets-IsPair packets [] = tt
join_packets-IsPair packets (d ∷ ds) =
    pair (find_row (of_packet d) packets) refl (join_packets-IsPair packets ds)
  where
    pair :
        (o : Option Packet)
        → find_row (of_packet d) packets ≡ o
        → All (IsPair packets) (join_packets packets ds)
        → All
            (IsPair packets)
            (elim o [ none ↦ join_packets packets ds | some p ↦ (d, p) ∷ join_packets packets ds ])
    pair none e rest = rest
    pair (some p) e rest = (
      (
        ==→≡ p.packet_id d.packet_id (find_row-holds (of_packet d) packets p e),
        find_row-has_row (of_packet d) packets p e,
      ),
      rest,
    )

has_no_id :
    (a : ℕ) (d : Delivery) (packets : List Packet)
    → has_row (of_packet d) packets ≡ false
    → has_row (λ k. (k.packet_id == a) && of_packet d k) packets ≡ false
has_no_id a d [] h = refl
has_no_id a d (k ∷ packets) h = ground (arith, has_no_id a d packets)

has_id :
    (a : ℕ) (d : Delivery) (packets : List Packet)
    → has_row (of_packet d) packets ≡ true
    → has_row (λ k. (k.packet_id == a) && of_packet d k) packets ≡ (d.packet_id == a)
has_id a d [] h = cc
has_id a d (k ∷ packets) h = elim (Bool-cases (has_row (of_packet d) packets)) [
  | inl e ↦ ground (arith, has_id a d packets e)
  | inr e ↦ ground (arith, has_no_id a d packets e)
]

-- Deleting the packets with one id takes the deliveries of that id out of the live ones.
pub live-delete_id :
    (now a : ℕ) (db : Db)
    → live_deliveries now (delete_packets (λ k. k.packet_id == a) db)
      ≡ delete_rows (λ r. r.0.packet_id == a) (live_deliveries now db)
unfolding live_deliveries
live-delete_id now a db =
    live-delete now (λ k. k.packet_id == a) db
    ∙ ap (select_rows (λ (r : Delivery × Packet). active_packet now r.1)) (
        delete_rows-congr
          (λ (r : Delivery × Packet).
            has_row (λ k. (k.packet_id == a) && of_packet r.0 k) db.packets)
          (λ r. r.0.packet_id == a) (join_packets db.packets db.deliveries)
          (All-imp (IsPair db.packets) _ (join_packets db.packets db.deliveries)
            (λ r h. has_id a r.0 db.packets h.1) (join_packets-IsPair db.packets db.deliveries)))
    ∙ select_rows-delete (λ r. r.0.packet_id == a) (λ r. active_packet now r.1)
        (join_packets db.packets db.deliveries)

pub live-IsPair : (now : ℕ) (db : Db) → All (IsPair db.packets) (live_deliveries now db)
unfolding live_deliveries
live-IsPair now db =
    All-select (IsPair db.packets) (λ r. active_packet now r.1)
      (join_packets db.packets db.deliveries) (join_packets-IsPair db.packets db.deliveries)
