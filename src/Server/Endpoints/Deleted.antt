-- ===== src/Server/Endpoints/Deleted.antt =====
-- What the deletion of an endpoint (arqs-server/app/main.py) takes out of the queue.
use arqs.Services.Live.{join-delete, join-delete_deliveries, of_packet}
use arqs.Services.{queued_packets}
use arqs.Http.{ok}
use arqs.Services.Cleanup.{found_gone, HasUniqueIds}
use arqs.Models.Cascade.{delete_packets, delete_endpoints}
use arqs.Models.{Db, Delivery, Node, Packet}
use arqs.Server.Endpoints.{links_endpoint, delete_endpoint}
use arqs.Services.{for_endpoint, active_packet, join_packets, live_deliveries}
use arqs.Prelude.{
  select_rows-delete, some, delete_rows-congr, none, find_row, Option, sym, ◌∙◌, refl, [],
  select_rows, ◌&&◌, ap, arith, has_row, All, ◌∷◌, delete_rows, ◌||◌, count_rows, ◌==◌, List, Bool,
  ℕ, ◌≡◌,
}

-- With unique ids, a row of the join goes with the packets exactly if its own packet goes.
join-gone :
    (gone : Packet → Bool) (ps : List Packet) (ds : List Delivery)
    → HasUniqueIds ps
    → All (λ r. has_row (λ k. gone k && of_packet r.0 k) ps ≡ gone r.1) (join_packets ps ds)
unfolding join_packets
join-gone gone ps [] unique = tt
join-gone gone ps (d ∷ ds) unique =
    keep (find_row (of_packet d) ps) refl (join-gone gone ps ds unique)
  where
    keep :
        (o : Option Packet)
        → find_row (of_packet d) ps ≡ o
        → All (λ r. has_row (λ k. gone k && of_packet r.0 k) ps ≡ gone r.1) (join_packets ps ds)
        → All
            (λ r. has_row (λ k. gone k && of_packet r.0 k) ps ≡ gone r.1)
            (elim o [ none ↦ join_packets ps ds | some p ↦ (d, p) ∷ join_packets ps ds ])
    keep none e rest = rest
    keep (some p) e rest = (found_gone gone d p ps unique e, rest)

delete_rows-nothing {ℓ} :
    {A : Type ℓ} (p q : A → Bool) (xs : List A)
    → count_rows p xs ≡ 0
    → delete_rows p (delete_rows q xs) ≡ delete_rows q xs
delete_rows-nothing p q [] h = refl
delete_rows-nothing p q (x ∷ xs) h = ground (arith, delete_rows-nothing p q xs)

-- The packet is from the endpoint or to it.
abbrev pub touches : ℕ → Packet → Bool
touches a k = (k.from_endpoint_id == a) || (k.to_endpoint_id == a)

live-delete_endpoints :
    (now a : ℕ) (db : Db)
    → HasUniqueIds db.packets
    → live_deliveries now (delete_endpoints (λ b. b == a) db)
      ≡ delete_rows
          (λ r. r.0.destination_endpoint_id == a)
          (delete_rows (λ r. touches a r.1) (live_deliveries now db))
unfolding live_deliveries delete_endpoints delete_packets
live-delete_endpoints now a db unique =
    let act = λ (r : Delivery × Packet). active_packet now r.1 in
    let dest = λ (r : Delivery × Packet). r.0.destination_endpoint_id == a in
    let mine = λ (r : Delivery × Packet). touches a r.1 in
    let rows = join_packets db.packets db.deliveries in
    ap (select_rows act) (
      join-delete_deliveries (delete_rows (touches a) db.packets)
        (λ d. d.destination_endpoint_id == a) _
      ∙ ap (delete_rows dest) (
          join-delete (touches a) db.packets db.deliveries
          ∙ delete_rows-congr _ mine rows (join-gone (touches a) db.packets db.deliveries unique)))
    ∙ select_rows-delete dest act (delete_rows mine rows)
    ∙ ap (delete_rows dest) (select_rows-delete mine act rows)

-- An endpoint that is deleted has no active link, and no live delivery was to
-- it. Of the live deliveries exactly those are lost whose packet names the endpoint as its source or
-- its destination: the packets that it has sent and that are still queued elsewhere go with it. Packet
-- ids are unique.
pub delete_endpoint-live :
    (now endpoint_id : ℕ) (node : Node) (db : Db) (a : ℕ) (db' : Db)
    → HasUniqueIds db.packets
    → delete_endpoint now endpoint_id node db ≡ (ok a, db')
    → (count_rows (links_endpoint endpoint_id) db.links ≡ 0)
      × (queued_packets (for_endpoint endpoint_id) (live_deliveries now db) ≡ 0)
      × (live_deliveries now db'
          ≡ delete_rows (λ r. touches endpoint_id r.1) (live_deliveries now db))
unfolding delete_endpoint
delete_endpoint-live now endpoint_id node db a db' unique h =
    let idle : queued_packets (for_endpoint endpoint_id) (live_deliveries now db) ≡ 0 =
      ground arith in
    let written : delete_endpoints (λ b. b == endpoint_id) db ≡ db' = ground arith in
    (
      ground arith,
      idle,
      ap (live_deliveries now) (sym written)
          ∙ live-delete_endpoints now endpoint_id db unique
          ∙ delete_rows-nothing (λ r. r.0.destination_endpoint_id == endpoint_id)
              (λ r. touches endpoint_id r.1) (live_deliveries now db) idle,
    )
