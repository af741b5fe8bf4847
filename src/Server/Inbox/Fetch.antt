-- ===== src/Server/Inbox/Fetch.antt =====
-- What a poll of the inbox returns, and when it returns.
use arqs.Prelude.{
  none, ◌<◌, All-imp, min, inr, leb→le, some, sym, zero, ◌+◌, inl, suc, true, ◌⊎◌, Bool-cases, [],
  arith, leb, refl, select_rows, ◌&&◌, ◌∷◌, ◌≤◌, All, insert_by, length, order_by, take, ◌==◌, ◌≡◌,
  Bool, List, ℕ,
}
use mathlib.Core.List.{Perm}
use mathlib.Core.List.Perm
use arqs.Models.{is_active_node, Node, Packet, Delivery, Db, is_queued}
use arqs.Config.{RuntimeSettings}
use arqs.Http.{ok}
use arqs.Services.{live_deliveries}
use arqs.Server.Inbox.{
  quiet, wait_time, World, next_round, fetch_inbox_deliveries, Round, poll_rounds, poll_inbox,
}

-- Keys never fall along the list.
abbrev pub IsAscending {ℓ} : {A : Type ℓ} → (A → ℕ) → List A → Type 0
IsAscending k [] = Unit
IsAscending k (x ∷ xs) = All (λ y. k x ≤ k y) xs × IsAscending k xs

module _ {ℓ} {A : Type ℓ} (k : A → ℕ) where
  All-insert_by {κ} :
      (P : A → Type κ) (x : A) (ys : List A) → P x → All P ys → All P (insert_by k x ys)
  All-insert_by P x [] hx h = (hx, tt)
  All-insert_by P x (y ∷ ys) hx h = elim (Bool-cases (leb (k x) (k y))) [
    | inl e ↦ rw e (hx, h)
    | inr e ↦ rw e (h.0, All-insert_by P x ys hx h.1)
  ]

  IsAscending-insert_by :
      (x : A) (ys : List A) → IsAscending k ys → IsAscending k (insert_by k x ys)
  IsAscending-insert_by x [] h = (tt, tt)
  IsAscending-insert_by x (y ∷ ys) h = elim (Bool-cases (leb (k x) (k y))) [
    | inl e ↦ rw e (
      (
        leb→le (k x) (k y) e,
        All-imp (λ z. k y ≤ k z) (λ z. k x ≤ k z) ys (λ z le. omega (arith, leb→le (k x) (k y) e))
            h.0,
      ),
      h,
    )
    | inr e ↦
        rw e
          (All-insert_by (λ z. k y ≤ k z) x ys (ground arith) h.0, IsAscending-insert_by x ys h.1)
  ]

  IsAscending-order_by : (xs : List A) → IsAscending k (order_by k xs)
  IsAscending-order_by [] = tt
  IsAscending-order_by (x ∷ xs) = IsAscending-insert_by x (order_by k xs) (IsAscending-order_by xs)

  insert_by-perm : (x : A) (ys : List A) → Perm (insert_by k x ys) (x ∷ ys)
  insert_by-perm x [] = Perm.refl (x ∷ [])
  insert_by-perm x (y ∷ ys) = elim (Bool-cases (leb (k x) (k y))) [
    | inl e ↦ rw e (Perm.refl (x ∷ y ∷ ys))
    | inr e ↦ rw e (Perm.trans (Perm.cons y (insert_by-perm x ys)) (Perm.swap x y ys))
  ]

  order_by-perm : (xs : List A) → Perm (order_by k xs) xs
  order_by-perm [] = Perm.refl []
  order_by-perm (x ∷ xs) =
      Perm.trans (insert_by-perm x (order_by k xs)) (Perm.cons x (order_by-perm xs))

module _ {ℓ} {A : Type ℓ} where
  All-take {κ} : (P : A → Type κ) (n : ℕ) (xs : List A) → All P xs → All P (take n xs)
  All-take P zero xs h = tt
  All-take P (suc n) [] h = tt
  All-take P (suc n) (x ∷ xs) h = (h.0, All-take P n xs h.1)

  IsAscending-take :
      (k : A → ℕ) (n : ℕ) (xs : List A) → IsAscending k xs → IsAscending k (take n xs)
  IsAscending-take k zero xs h = tt
  IsAscending-take k (suc n) [] h = tt
  IsAscending-take k (suc n) (x ∷ xs) h =
      (All-take (λ y. k x ≤ k y) n xs h.0, IsAscending-take k n xs h.1)

  length-take-le : (n : ℕ) (xs : List A) → length (take n xs) ≤ n
  length-take-le zero xs = omega arith
  length-take-le (suc n) [] = omega arith
  length-take-le (suc n) (x ∷ xs) = omega (arith, length-take-le n xs)

-- The rows of a node's queue.
abbrev pub for_inbox : ℕ → Delivery × Packet → Bool
for_inbox node_id r = (r.0.destination_node_id == node_id) && is_queued r.0.state

-- A fetch returns at most `limit` rows, oldest first: the first ones of a list that holds exactly
-- the live queued deliveries to the node and is in the order of `queued_at`.
pub fetch_inbox_deliveries-oldest :
    (now node_id limit : ℕ) (db : Db)
    → (queue : List (Delivery × Packet)) × (fetch_inbox_deliveries now node_id limit db
        ≡ take limit queue)
      × Perm queue (select_rows (for_inbox node_id) (live_deliveries now db))
      × IsAscending (λ r. r.0.queued_at) queue
      × (length (fetch_inbox_deliveries now node_id limit db) ≤ limit)
unfolding fetch_inbox_deliveries
fetch_inbox_deliveries-oldest now node_id limit db =
    let rows = select_rows (for_inbox node_id) (live_deliveries now db) in
    (
      order_by (λ r. r.0.queued_at) rows,
      refl,
      order_by-perm (λ (r : Delivery × Packet). r.0.queued_at) rows,
      IsAscending-order_by (λ (r : Delivery × Packet). r.0.queued_at) rows,
      length-take-le limit (order_by (λ (r : Delivery × Packet). r.0.queued_at) rows),
    )

-- The fetch at `c` that a poll returns, which began at `clock`: it is made before the deadline but for
-- what one round takes, and it has no rows only at the deadline.
abbrev pub Polled : World → ℕ → ℕ → ℕ → ℕ → ℕ → List (Delivery × Packet) → Type 0
Polled world node_id limit deadline slack clock rows =
    (c : ℕ) × (rows ≡ fetch_inbox_deliveries (world.now c) node_id limit (world.view c))
    × (clock ≤ c)
    × (c ≤ deadline + slack)
    × ((1 ≤ length rows) ⊎ (deadline ≤ c + slack))

-- A round takes no longer than that, its wait apart.
abbrev pub IsQuick : ℕ → Round → Type 0
IsQuick slack r = r.fetch_time + r.pause ≤ slack

next_round-later : (deadline clock : ℕ) (r : Round) → clock ≤ next_round deadline clock r
unfolding next_round
next_round-later deadline clock r = ground arith

next_round-bounded :
    (deadline clock slack : ℕ) (r : Round)
    → IsQuick slack r
    → (clock + r.fetch_time) < deadline
    → next_round deadline clock r ≤ deadline + slack
unfolding next_round wait_time
next_round-bounded deadline clock slack r q h = elim r.notified [
  | none ↦ ground arith
  | some t ↦ ground arith
]

last_round : (deadline clock : ℕ) → clock < deadline → next_round deadline clock quiet ≡ deadline
unfolding next_round wait_time
last_round deadline clock h = ground arith

module _ (world : World) (node_id limit deadline slack : ℕ) where
  abbrev fetch : ℕ → List (Delivery × Packet)
  fetch c = fetch_inbox_deliveries (world.now c) node_id limit (world.view c)

  -- A round that returns what it has fetched.
  here :
      (clock : ℕ) (rows : List (Delivery × Packet))
      → clock ≤ deadline + slack
      → fetch clock ≡ rows
      → (1 ≤ length rows) ⊎ (deadline ≤ clock + slack)
      → Polled world node_id limit deadline slack clock rows
  here clock rows le e why = (clock, sym e, omega arith, le, why)

  some_rows : (d : Delivery × Packet) (ds : List (Delivery × Packet)) → 1 ≤ length (d ∷ ds)
  some_rows d ds = omega arith

  one_round :
      (clock : ℕ) (r : Round) (rs : List Round)
      → clock ≤ deadline + slack
      → IsQuick slack r
      → (rows : List (Delivery × Packet)) → fetch clock ≡ rows
      → (next_round deadline clock r ≤ deadline + slack
          → Polled world node_id limit deadline slack
              (next_round deadline clock r)
              (poll_rounds world node_id limit deadline (next_round deadline clock r) rs))
      → Polled world node_id limit deadline slack clock
          (poll_rounds world node_id limit deadline clock (r ∷ rs))
  unfolding poll_rounds fetch_inbox_deliveries
  one_round clock r rs le quick (d ∷ ds) e rest =
      rw (poll_rounds, e) (here clock (d ∷ ds) le e (inl (some_rows d ds)))
  one_round clock r rs le quick [] e rest =
      elim (Bool-cases (leb deadline (clock + r.fetch_time))) [
        | inl b ↦ rw (poll_rounds, e, b) (here clock [] le e (inr (ground (arith, quick))))
        | inr b ↦
            let (c, found, later, bounded, why) =
              rest (next_round-bounded deadline clock slack r quick (ground arith)) in
            rw (poll_rounds, e, b)
              (c, found, omega (arith, later, next_round-later deadline clock r), bounded, why)
      ]

  poll_rounds-Polled :
      (clock : ℕ) (rounds : List Round)
      → clock ≤ deadline + slack
      → All (IsQuick slack) rounds
      → Polled world node_id limit deadline slack clock
          (poll_rounds world node_id limit deadline clock rounds)
  unfolding poll_rounds fetch_inbox_deliveries
  poll_rounds-Polled clock [] le q = go (fetch clock) refl
    where
      go :
          (rows : List (Delivery × Packet))
          → fetch clock ≡ rows
          → Polled world node_id limit deadline slack clock
              (poll_rounds world node_id limit deadline clock [])
      go (d ∷ ds) e = rw (poll_rounds, e) (here clock (d ∷ ds) le e (inl (some_rows d ds)))
      go [] e = elim (Bool-cases (leb deadline clock)) [
        | inl b ↦ rw (poll_rounds, e, b) (here clock [] le e (inr (ground arith)))
        | inr b ↦
            rw (poll_rounds, e, b, last_round deadline clock (ground arith))
              (deadline, refl, ground arith, omega arith, inr (omega arith))
      ]
  poll_rounds-Polled clock (r ∷ rs) le q =
      one_round clock r rs le q.0 (fetch clock) refl
        (λ le'. poll_rounds-Polled (next_round deadline clock r) rs le' q.1)

-- A long poll of an active node returns, however often the node is notified: the rows that one fetch
-- found, which began after the call and no later than the smaller of the wait asked for and the
-- configured maximum, but for `slack`, what a round takes apart from its wait. It returns no rows
-- only at that deadline, and never more than were asked for or than the batch limit.
pub poll_inbox-ends :
    (settings : RuntimeSettings) (start wait limit slack : ℕ) (node : Node) (world : World)
    (rounds : List Round)
    → is_active_node node.status ≡ true
    → All (IsQuick slack) rounds
    → (rows : List (Delivery × Packet)) × (poll_inbox settings start wait limit node world rounds
        ≡ ok rows)
      × Polled world node.node_id
          (min limit settings.max_inbox_batch)
          (start + min wait settings.long_poll_max_seconds)
          slack
          start
          rows
      × (length rows ≤ limit)
      × (length rows ≤ settings.max_inbox_batch)
unfolding poll_inbox
poll_inbox-ends settings start wait limit slack node world rounds active quick =
    let deadline = start + min wait settings.long_poll_max_seconds in
    let batch = min limit settings.max_inbox_batch in
    let rows = poll_rounds world node.node_id batch deadline start rounds in
    let polled =
      poll_rounds-Polled world node.node_id batch deadline slack start rounds (omega arith) quick in
    let (c, found, later, bounded, why) = polled in
    let short : length rows ≤ batch =
      rw found (fetch_inbox_deliveries-oldest (world.now c) node.node_id batch (world.view c)).4 in
    (rows, rw active refl, polled, omega (arith, short), omega (arith, short))
