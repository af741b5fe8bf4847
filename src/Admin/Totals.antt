-- ===== src/Admin/Totals.antt =====
-- The groups of the queue statistics (arqs-server/app/admin_services.py) are the queues of the nodes
-- or of the endpoints.
use arqs.Services.{live_deliveries, for_node, for_endpoint, queued_bytes, queued_packets}
use arqs.Models.{Db, Packet, Delivery}
use arqs.Admin.{
  answer, with_limit, queue_stats, get_queue_stats_by_node, get_queue_stats_by_endpoint, QueueStats,
  add_to_group, group_rows,
}
use arqs.Prelude.{
  false, Bool, if◌then◌else◌, ◌==◌, sym, zero, ◌∙◌, ap, refl, [], arith, take, suc, ◌+◌, ◌∷◌, ◌≤◌,
  insert_by_desc, length, order_by_desc, sum_rows, List, ℕ, ◌≡◌,
}

-- The sum over the groups of one id.
abbrev pub total : ℕ → (QueueStats → ℕ) → List QueueStats → ℕ
total x f gs = sum_rows (λ g. g.key == x) f gs

abbrev of_key : (Delivery → ℕ) → ℕ → Delivery → Bool
of_key key x d = key d == x

total-insert_by_desc :
    (x : ℕ) (f k : QueueStats → ℕ) (g : QueueStats) (gs : List QueueStats)
    → total x f (insert_by_desc k g gs) ≡ total x f (g ∷ gs)
total-insert_by_desc x f k g [] = refl
total-insert_by_desc x f k g (h ∷ gs) = ground (arith, total-insert_by_desc x f k g gs)

total-order_by_desc :
    (x : ℕ) (f k : QueueStats → ℕ) (gs : List QueueStats)
    → total x f (order_by_desc k gs) ≡ total x f gs
total-order_by_desc x f k [] = refl
total-order_by_desc x f k (g ∷ gs) =
    ground (arith, total-insert_by_desc x f k g (order_by_desc k gs), total-order_by_desc x f k gs)

take-all : (n : ℕ) (gs : List QueueStats) → length gs ≤ n → take n gs ≡ gs
take-all zero [] h = refl
take-all zero (g ∷ gs) h = absurd (omega arith)
take-all (suc n) [] h = refl
take-all (suc n) (g ∷ gs) h = ap (λ rest. g ∷ rest) (take-all n gs (omega arith))

length-insert_by_desc :
    (k : QueueStats → ℕ) (g : QueueStats) (gs : List QueueStats)
    → length (insert_by_desc k g gs) ≡ suc (length gs)
length-insert_by_desc k g [] = refl
length-insert_by_desc k g (h ∷ gs) = ground (arith, length-insert_by_desc k g gs)

length-order_by_desc :
    (k : QueueStats → ℕ) (gs : List QueueStats) → length (order_by_desc k gs) ≡ length gs
length-order_by_desc k [] = refl
length-order_by_desc k (g ∷ gs) =
    omega (arith, length-insert_by_desc k g (order_by_desc k gs), length-order_by_desc k gs)

length-add :
    (key : Delivery → ℕ) (r : Delivery × Packet) (gs : List QueueStats)
    → length (add_to_group key r gs) ≤ suc (length gs)
unfolding add_to_group
length-add key r [] = omega arith
length-add key r (g ∷ gs) = ground (arith, length-add key r gs)

length-group_rows :
    (key : Delivery → ℕ) (rs : List (Delivery × Packet)) → length (group_rows key rs) ≤ length rs
unfolding group_rows
length-group_rows key [] = omega arith
length-group_rows key (r ∷ rs) =
    omega (arith, length-add key r (group_rows key rs), length-group_rows key rs)

packets-add :
    (key : Delivery → ℕ) (x : ℕ) (r : Delivery × Packet) (gs : List QueueStats)
    → total x (λ g. g.queued_packets) (add_to_group key r gs)
      ≡ (if key r.0 == x then 1 else 0) + total x (λ g. g.queued_packets) gs
unfolding add_to_group
packets-add key x r [] = ground arith
packets-add key x r (g ∷ gs) = ground (arith, packets-add key x r gs)

bytes-add :
    (key : Delivery → ℕ) (x : ℕ) (r : Delivery × Packet) (gs : List QueueStats)
    → total x (λ g. g.queued_bytes) (add_to_group key r gs)
      ≡ (if key r.0 == x then r.1.payload_bytes else 0) + total x (λ g. g.queued_bytes) gs
unfolding add_to_group
bytes-add key x r [] = ground arith
bytes-add key x r (g ∷ gs) = ground (arith, bytes-add key x r gs)

packets-group_rows :
    (key : Delivery → ℕ) (x : ℕ) (rs : List (Delivery × Packet))
    → total x (λ g. g.queued_packets) (group_rows key rs) ≡ queued_packets (of_key key x) rs
unfolding group_rows
packets-group_rows key x [] = refl
packets-group_rows key x (r ∷ rs) =
    ground (arith, packets-add key x r (group_rows key rs), packets-group_rows key x rs)

bytes-group_rows :
    (key : Delivery → ℕ) (x : ℕ) (rs : List (Delivery × Packet))
    → total x (λ g. g.queued_bytes) (group_rows key rs) ≡ queued_bytes (of_key key x) rs
unfolding group_rows
bytes-group_rows key x [] = refl
bytes-group_rows key x (r ∷ rs) =
    ground (arith, bytes-add key x r (group_rows key rs), bytes-group_rows key x rs)

others-add :
    (key : Delivery → ℕ) (x : ℕ) (r : Delivery × Packet) (gs : List QueueStats)
    → (key r.0 == x) ≡ false
    → total x (λ g. 1) (add_to_group key r gs) ≡ total x (λ g. 1) gs
unfolding add_to_group
others-add key x r [] h = ground arith
others-add key x r (g ∷ gs) h = ground (arith, others-add key x r gs)

once-add :
    (key : Delivery → ℕ) (x : ℕ) (r : Delivery × Packet) (gs : List QueueStats)
    → total x (λ g. 1) gs ≤ 1
    → total x (λ g. 1) (add_to_group key r gs) ≤ 1
unfolding add_to_group
once-add key x r [] h = ground arith
once-add key x r (g ∷ gs) h = ground (arith, once-add key x r gs, others-add key x r gs)

once-group_rows :
    (key : Delivery → ℕ) (x : ℕ) (rs : List (Delivery × Packet))
    → total x (λ g. 1) (group_rows key rs) ≤ 1
unfolding group_rows
once-group_rows key x [] = omega arith
once-group_rows key x (r ∷ rs) = once-add key x r (group_rows key rs) (once-group_rows key x rs)

-- The groups that are listed, if the limit takes them all in.
listed :
    (x : ℕ) (f : QueueStats → ℕ) (key : Delivery → ℕ) (n : ℕ) (rs : List (Delivery × Packet))
    → length rs ≤ n
    → total x f (
        take n (
          order_by_desc
            (λ g. g.queued_packets)
            (order_by_desc (λ g. g.queued_bytes) (group_rows key rs))))
      ≡ total x f (group_rows key rs)
listed x f key n rs fits =
    let by_bytes = order_by_desc (λ (g : QueueStats). g.queued_bytes) (group_rows key rs) in
    let all = order_by_desc (λ (g : QueueStats). g.queued_packets) by_bytes in
    ap (total x f) (
      take-all n all (
        omega (
          arith,
          length-order_by_desc (λ g. g.queued_packets) by_bytes,
          length-order_by_desc (λ g. g.queued_bytes) (group_rows key rs),
          length-group_rows key rs,
        )))
    ∙ total-order_by_desc x f (λ g. g.queued_packets) by_bytes
    ∙ total-order_by_desc x f (λ g. g.queued_bytes) (group_rows key rs)

queue_stats-of_key :
    (key : Delivery → ℕ) (now limit : ℕ) (db : Db) (gs : List QueueStats) (x : ℕ)
    → length (live_deliveries now db) ≤ limit
    → queue_stats key now limit db ≡ answer gs
    → (total x (λ g. g.queued_packets) gs ≡ queued_packets (of_key key x) (live_deliveries now db))
      × (total x (λ g. g.queued_bytes) gs ≡ queued_bytes (of_key key x) (live_deliveries now db))
      × (total x (λ g. 1) gs ≤ 1)
unfolding queue_stats with_limit
queue_stats-of_key key now limit db gs x fits h =
    let live = live_deliveries now db in
    let same : take limit (
          order_by_desc (λ g. g.queued_packets)
            (order_by_desc (λ g. g.queued_bytes) (group_rows key live)))
        ≡ gs =
      ground arith in
    (
      ap (total x (λ g. g.queued_packets)) (sym same)
          ∙ listed x (λ g. g.queued_packets) key limit live fits
          ∙ packets-group_rows key x live,
      ap (total x (λ g. g.queued_bytes)) (sym same)
          ∙ listed x (λ g. g.queued_bytes) key limit live fits
          ∙ bytes-group_rows key x live,
      rw (ap (total x (λ g. 1)) (sym same) ∙ listed x (λ g. 1) key limit live fits)
          (once-group_rows key x live),
    )

-- The statistics by node say for every node, and those by endpoint for every endpoint, how many
-- packets and bytes are queued for it, with nothing listed as none: the counts that the caps of a
-- send are checked against. No node and no endpoint is listed twice. The limit is no less than the number of live deliveries.
pub queue_stats-queues :
    (now limit : ℕ) (db : Db) (by_node by_endpoint : List QueueStats) (node_id endpoint_id : ℕ)
    → length (live_deliveries now db) ≤ limit
    → get_queue_stats_by_node now limit db ≡ answer by_node
    → get_queue_stats_by_endpoint now limit db ≡ answer by_endpoint
    → let live = live_deliveries now db in
      (total node_id (λ g. g.queued_packets) by_node ≡ queued_packets (for_node node_id) live)
      × (total node_id (λ g. g.queued_bytes) by_node ≡ queued_bytes (for_node node_id) live)
      × (total endpoint_id (λ g. g.queued_packets) by_endpoint
          ≡ queued_packets (for_endpoint endpoint_id) live)
      × (total endpoint_id (λ g. g.queued_bytes) by_endpoint
          ≡ queued_bytes (for_endpoint endpoint_id) live)
      × (total node_id (λ g. 1) by_node ≤ 1)
      × (total endpoint_id (λ g. 1) by_endpoint ≤ 1)
unfolding get_queue_stats_by_node get_queue_stats_by_endpoint
queue_stats-queues now limit db by_node by_endpoint node_id endpoint_id fits h k =
    let n = queue_stats-of_key (λ d. d.destination_node_id) now limit db by_node node_id fits h in
    let e =
      queue_stats-of_key (λ d. d.destination_endpoint_id) now limit db by_endpoint endpoint_id fits
        k in
    (n.0, n.1, e.0, e.1, n.2, e.2)
