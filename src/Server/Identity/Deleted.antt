-- ===== src/Server/Identity/Deleted.antt =====
-- What delete_identity removes, and the counts that it reports.
use arqs.Prelude.{
  HasUnique, delete_rows-congr, subst, All, ℕ, ◌+◌, ◌≤◌, ◌≡◌, refl, Bool, true, false, ◌&&◌, ◌||◌,
  List, [], ◌∷◌, map, ◌==◌, arith, has_row, delete_rows, count_rows, length, length-delete_rows,
}
use arqs.Http.{err, Result, ok}
use arqs.Models.{Node, Endpoint, Packet, Delivery, Db}
use arqs.Models.Cascade.{delete_node, delete_endpoints, delete_packets, owns_endpoint}
use arqs.Server.Identity.{delete_identity, DeleteIdentityResponse}

-- Every row of the two kinds is counted once.
sum_deleted {ℓ} :
    {A : Type ℓ} (p q c : A → Bool) (xs : List A)
    → ((x : A) → c x ≡ (p x || q x))
    → count_rows c xs + length (delete_rows q (delete_rows p xs)) ≡ length xs
sum_deleted p q c [] h = refl
sum_deleted p q c (x ∷ xs) h = ground (arith, sum_deleted p q c xs h, h x)

has_row-deleted {ℓ} :
    {A : Type ℓ} (p q : A → Bool) (xs : List A)
    → ((x : A) → q x ≡ true → p x ≡ true)
    → has_row q (delete_rows p xs) ≡ false
has_row-deleted p q [] h = refl
has_row-deleted p q (x ∷ xs) h = ground (arith, has_row-deleted p q xs h, h x)

length-map {ℓ κ} :
    {A : Type ℓ} {B : Type κ} (f : A → B) (xs : List A) → length (map f xs) ≡ length xs
length-map f [] = refl
length-map f (x ∷ xs) = ground (arith, length-map f xs)

-- The endpoints of a node are deleted by their ids, which are unique.
abbrev pub HasUniqueEndpoints : List Endpoint → Type 0
HasUniqueEndpoints = HasUnique (λ e. e.endpoint_id)

no_id :
    (id node_id : ℕ) (es : List Endpoint)
    → has_row (λ f. f.endpoint_id == id) es ≡ false
    → has_row (λ f. (f.endpoint_id == id) && (f.node_id == node_id)) es ≡ false
no_id id node_id [] h = refl
no_id id node_id (e ∷ es) h = ground (arith, no_id id node_id es)

owned_tail :
    (node_id : ℕ) (x : Endpoint) (all es : List Endpoint)
    → has_row (λ f. f.endpoint_id == x.endpoint_id) es ≡ false
    → All
        (λ e.
          has_row (λ f. (f.endpoint_id == e.endpoint_id) && (f.node_id == node_id)) all
          ≡ (e.node_id == node_id))
        es
    → All
        (λ e.
          has_row (λ f. (f.endpoint_id == e.endpoint_id) && (f.node_id == node_id)) (x ∷ all)
          ≡ (e.node_id == node_id))
        es
owned_tail node_id x all [] h a = tt
owned_tail node_id x all (e ∷ es) h a =
    (ground (arith, a.0), owned_tail node_id x all es (ground arith) a.1)

-- An endpoint's id is one of the node's exactly if its row names the node.
pub owned_by :
    (node_id : ℕ) (es : List Endpoint)
    → HasUniqueEndpoints es
    → All
        (λ e.
          has_row (λ f. (f.endpoint_id == e.endpoint_id) && (f.node_id == node_id)) es
          ≡ (e.node_id == node_id))
        es
owned_by node_id [] u = tt
owned_by node_id (x ∷ es) u = (
  ground (arith, no_id x.endpoint_id node_id es u.0),
  owned_tail node_id x es es u.0 (owned_by node_id es u.1),
)

-- Four deletes in a row remove at least what the second or the last test accepts.
lost_by_four {ℓ} :
    {A : Type ℓ} (p q r s c : A → Bool) (xs : List A)
    → ((x : A) → c x ≡ true → (q x || s x) ≡ true)
    → count_rows c xs + length (delete_rows s (delete_rows r (delete_rows q (delete_rows p xs))))
      ≤ length xs
lost_by_four p q r s c [] h = omega arith
lost_by_four p q r s c (x ∷ xs) h = ground (arith, lost_by_four p q r s c xs h, h x)

-- The delivery is for one of the packets that go.
abbrev loses : (Packet → Bool) → List Packet → Delivery → Bool
loses gone packets d = has_row (λ k. gone k && (k.packet_id == d.packet_id)) packets

-- No row of the node is left, and the counts are what the tables lose; of the deliveries at least
-- as many are lost as are reported.
abbrev pub Deleted : ℕ → Db → DeleteIdentityResponse → Db → Type 0
Deleted node_id db resp db' =
    (has_row (λ n. n.node_id == node_id) db'.nodes ≡ false)
    × (has_row (λ d. d.destination_node_id == node_id) db'.deliveries ≡ false)
    × (has_row (λ p. p.sender_node_id == node_id) db'.packets ≡ false)
    × (has_row (λ e. e.node_id == node_id) db'.send_events ≡ false)
    × (resp.endpoints_deleted + length db'.endpoints ≡ length db.endpoints)
    × (resp.links_deleted + length db'.links ≡ length db.links)
    × (resp.routes_deleted + length db'.routes ≡ length db.routes)
    × (resp.link_codes_deleted + length db'.link_codes ≡ length db.link_codes)
    × (resp.packets_deleted + length db'.packets ≡ length db.packets)
    × (resp.deliveries_deleted + length db'.deliveries ≤ length db.deliveries)
    × (resp.send_events_deleted + length db'.send_events ≡ length db.send_events)

DeletedResult : ℕ → Db → Result DeleteIdentityResponse × Db → Type 0
DeletedResult node_id db (ok resp, db') = Deleted node_id db resp db'
DeletedResult node_id db (err e, db') = Unit

delete_identity-DeletedResult :
    (node : Node) (db : Db)
    → HasUniqueEndpoints db.endpoints
    → DeletedResult node.node_id db (delete_identity node db)
unfolding delete_identity delete_node delete_endpoints delete_packets owns_endpoint DeletedResult
delete_identity-DeletedResult node db unique =
    let a = node.node_id in
    let owned = owns_endpoint db a in
    let on_endpoints = λ (p : Packet). owned p.from_endpoint_id || owned p.to_endpoint_id in
    let sent = λ (p : Packet). p.sender_node_id == a in
    (
      has_row-deleted (λ n. n.node_id == a) (λ n. n.node_id == a) db.nodes (λ x h. h),
      has_row-deleted (λ d. d.destination_node_id == a) (λ d. d.destination_node_id == a) _
          (λ x h. h),
      has_row-deleted (λ p. p.sender_node_id == a) (λ p. p.sender_node_id == a) _ (λ x h. h),
      has_row-deleted (λ e. e.node_id == a) (λ e. e.node_id == a) db.send_events (λ x h. h),
      rw (delete_rows-congr _ (λ e. e.node_id == a) db.endpoints (owned_by a db.endpoints unique))
          (length-delete_rows (λ e. e.node_id == a) db.endpoints),
      length-delete_rows _ db.links,
      rw (length-map _ (delete_rows _ db.routes)) (length-delete_rows _ db.routes),
      length-delete_rows _ db.link_codes,
      sum_deleted on_endpoints sent _ db.packets (λ p. ground arith),
      lost_by_four (loses on_endpoints db.packets) (λ d. owned d.destination_endpoint_id)
          (loses sent (delete_rows on_endpoints db.packets)) (λ d. d.destination_node_id == a) _
          db.deliveries (λ d e. ground arith),
      length-delete_rows (λ e. e.node_id == a) db.send_events,
    )

-- A deletion of an identity leaves no row of the node among the nodes, the packets, the deliveries
-- and the send events, and the counts of the reply are what the tables lose; of the deliveries at
-- least as many are lost as are reported. The endpoints have unique ids.
pub delete_identity-Deleted :
    (node : Node) (db : Db) (resp : DeleteIdentityResponse) (db' : Db)
    → HasUniqueEndpoints db.endpoints
    → delete_identity node db ≡ (ok resp, db')
    → Deleted node.node_id db resp db'
unfolding DeletedResult
delete_identity-Deleted node db resp db' unique h =
    subst (DeletedResult node.node_id db) h (delete_identity-DeletedResult node db unique)
