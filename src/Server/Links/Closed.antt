-- ===== src/Server/Links/Closed.antt =====
-- No handler of the server opens a link code again that is not open.
use arqs.Server.Packets.Caps.{admit-Admitted}
use arqs.Server.Packets.Stored.{send_packet-unchanged}
use arqs.Server.Packets.Accept.{send_packet-Accepted, Accepted}
use arqs.Server.Packets.{
  duplicate, accepted, SendResult, read_expired, SendResponse, send_packet, SendRequest,
  drop_expired, SendEnv, insert_packet,
}
use arqs.Txn.{atomically}
use arqs.Json.{Fields}
use arqs.Auth.{Text, Crypto}
use arqs.Config.{RuntimeSettings}
use arqs.Models.Cascade.{owns_endpoint, delete_packets, delete_endpoints, delete_node}
use arqs.Services.{ensure_node_owns_endpoint, ensure_node_active, cleanup_expired}
use arqs.Server.Inbox.{AckRequest, remove_delivery, ack_packet}
use arqs.Server.Endpoints.{create_endpoint, delete_endpoint}
use arqs.Server.Identity.{delete_identity, self_rotate_key}
use arqs.Models.{is_active_code, Endpoint, Link, CodeStatus, LinkMode, Node, Db, LinkCode}
use arqs.Server.Links.{
  connect, redeem_checked, redeem_code, redeem_link_code, set_code_status, request_link_code,
  revoke_link, claim,
}
use arqs.Prelude.{
  not, none, ap, inr, inl, leb, sym, Bool-cases, str_eq, ◌∙◌, find_row, has_row-insert, some, ◌++◌,
  [], has_row-delete_none, ◌==◌, ◌∷◌, arith, refl, update_rows, Option, String, false, subst, Bool,
  has_row, ◌≡◌, List, ℕ,
}
use arqs.Server.Links.Redeem.{connect-link_codes, IsClaimed, is_open}
use arqs.Http.{self_link, link_code_not_active, refuse_if, ◌>>◌, Result, ok, err, HttpError}

-- The codes are other ones or fewer, but none with this id is open that was not.
abbrev pub Closed : ℕ → List LinkCode → Type 0
Closed id codes = has_row (is_open id) codes ≡ false

pub Closed-IsClaimed : (id : ℕ) (db : Db) → Closed id db.link_codes → IsClaimed id db
unfolding claim
Closed-IsClaimed id db h = h

pub IsClaimed-Closed : (id : ℕ) (db : Db) → IsClaimed id db → Closed id db.link_codes
unfolding claim
IsClaimed-Closed id db h = h

update_rows-Closed :
    (id : ℕ) (p : LinkCode → Bool) (f : LinkCode → LinkCode) (codes : List LinkCode)
    → ((c : LinkCode) → is_open id (f c) ≡ false)
    → Closed id codes
    → Closed id (update_rows p f codes)
update_rows-Closed id p f [] h k = refl
update_rows-Closed id p f (c ∷ codes) h k = ground (arith, update_rows-Closed id p f codes h, h c)

-- A transaction that keeps the property if it commits keeps it.
transaction-Closed {ℓ} :
    {A : Type ℓ} (id : ℕ) (t : Result A × Db) (db : Db)
    → ((a : A) (db' : Db) → t ≡ (ok a, db') → Closed id db'.link_codes)
    → ((e : HttpError) (db' : Db) → t ≡ (err e, db') → db ≡ db')
    → Closed id db.link_codes
    → Closed id t.1.link_codes
transaction-Closed id (ok a, db') db h k c = h a db' refl
transaction-Closed id (err e, db') db h k c =
    subst (λ (d : Db). Closed id d.link_codes) (k e db' refl) c

module _ (id : ℕ) (db : Db) (c : Closed id db.link_codes) where
  atomically-Closed {ℓ} :
      {A : Type ℓ} (r : Result (A × Db))
      → ((a : A) (db' : Db) → r ≡ ok (a, db') → Closed id db'.link_codes)
      → Closed id (atomically db r).1.link_codes
  atomically-Closed (ok (a, db')) h = h a db' refl
  atomically-Closed (err e) h = c

  pub rotating-Closed :
      (crypto : Crypto) (secret : Text) (salt : List ℕ) (node : Node)
      → Closed id (self_rotate_key crypto secret salt node db).1.link_codes
  unfolding self_rotate_key
  rotating-Closed crypto secret salt node = ground arith

  pub leaving-Closed : (node : Node) → Closed id (delete_identity node db).1.link_codes
  unfolding delete_identity delete_node delete_endpoints delete_packets
  leaving-Closed node =
      has_row-delete_none (λ k. owns_endpoint db node.node_id k.source_endpoint_id) (is_open id)
        db.link_codes c

  pub creating-Closed :
      (now endpoint_id : ℕ) (name kind : Option String) (meta : Option Fields) (node : Node)
      → Closed id (create_endpoint now endpoint_id name kind meta node db).1.link_codes
  unfolding create_endpoint
  creating-Closed now endpoint_id name kind meta node = ground arith

  pub deleting-Closed :
      (now endpoint_id : ℕ) (node : Node)
      → Closed id (delete_endpoint now endpoint_id node db).1.link_codes
  unfolding delete_endpoint delete_endpoints delete_packets
  deleting-Closed now endpoint_id node = ground (
    arith,
    has_row-delete_none (λ (k : LinkCode). k.source_endpoint_id == endpoint_id) (is_open id)
        db.link_codes c,
  )

  pub requesting-Closed :
      (now ttl link_code_id : ℕ) (candidates : List String) (source_id : ℕ) (mode : LinkMode)
      (node : Node)
      → (link_code_id == id) ≡ false
      → Closed id
          (request_link_code now ttl link_code_id candidates source_id mode node db).1.link_codes
  unfolding request_link_code
  requesting-Closed now ttl link_code_id candidates source_id mode node other =
      transaction-Closed id
        (request_link_code now ttl link_code_id candidates source_id mode node db) db
        (λ k db' h.
          let named : (k.link_code_id == id) ≡ false = ground arith in
          let stored : (record db { link_codes = db.link_codes ++ k ∷ [] }) ≡ db' = ground arith in
          subst (λ (d : Db). Closed id d.link_codes) stored
            (has_row-insert (is_open id) db.link_codes k ∙ ground arith))
        (λ e db' h. ground arith) c

  pub revoking-Closed :
      (link_id : ℕ) (node : Node) → Closed id (revoke_link link_id node db).1.link_codes
  unfolding revoke_link
  revoking-Closed link_id node = ground arith

  pub acknowledging-Closed :
      (now : ℕ) (req : AckRequest) (node : Node)
      → Closed id (ack_packet now req node db).1.link_codes
  unfolding ack_packet remove_delivery delete_packets
  acknowledging-Closed now req node = ground arith

  pub cleaning-Closed :
      (now : ℕ) (settings : RuntimeSettings)
      → Closed id (cleanup_expired now settings db).1.link_codes
  unfolding cleanup_expired
  cleaning-Closed now settings =
      update_rows-Closed id _ (λ k. record k { status = CodeStatus.expired }) db.link_codes
        (λ k. ground arith) c

  claiming-Closed : (k : ℕ) → Closed id (claim k db).1.link_codes
  unfolding claim
  claiming-Closed k =
      update_rows-Closed id (is_open k) (λ e. record e { status = CodeStatus.used }) db.link_codes
        (λ e. ground arith) c

  expiring-Closed : (k : ℕ) → Closed id (set_code_status k CodeStatus.expired db).link_codes
  unfolding set_code_status
  expiring-Closed k =
      update_rows-Closed id (λ e. e.link_code_id == k)
        (λ e. record e { status = CodeStatus.expired }) db.link_codes (λ e. ground arith) c

  connecting-Closed :
      (now link_id : ℕ) (route_ids : List ℕ) (code : LinkCode) (dest_id : ℕ) (link : Link)
      (db' : Db)
      → connect now link_id route_ids code dest_id (claim code.link_code_id db).1 ≡ ok (link, db')
      → Closed id db'.link_codes
  connecting-Closed now link_id route_ids code dest_id link db' h =
      rw (connect-link_codes now link_id route_ids code dest_id _ link db' h)
        (claiming-Closed code.link_code_id)

  redeeming_code-Closed :
      (now link_id : ℕ) (route_ids : List ℕ) (dest_id : ℕ) (o : Option LinkCode)
      → Closed id (redeem_code now link_id route_ids dest_id o db).1.link_codes
  unfolding redeem_code
  redeeming_code-Closed now link_id route_ids dest_id none = c
  redeeming_code-Closed now link_id route_ids dest_id (some code) =
      elim (Bool-cases (leb code.expires_at now)) [
        | inl b ↦ rw b (expiring-Closed code.link_code_id)
        | inr b ↦ rw b (
            atomically-Closed
              (do
                refuse_if (not (is_active_code code.status)) link_code_not_active
                refuse_if (code.source_endpoint_id == dest_id) self_link
                refuse_if (not (claim code.link_code_id db).0) link_code_not_active
                connect now link_id route_ids code dest_id (claim code.link_code_id db).1)
              (λ link db' h.
                ground (arith, connecting-Closed now link_id route_ids code dest_id link db')))
      ]

  checked-Closed :
      (r : Result Endpoint) (rest : Db → Result Link × Db)
      → Closed id (rest db).1.link_codes
      → Closed id (redeem_checked r rest db).1.link_codes
  unfolding redeem_checked
  checked-Closed (err e) rest h = c
  checked-Closed (ok e) rest h = h

  pub redeeming-Closed :
      (now link_id : ℕ) (route_ids : List ℕ) (code : String) (dest_id : ℕ) (node : Node) (view : Db)
      → Closed id (redeem_link_code now link_id route_ids code dest_id node view db).1.link_codes
  unfolding redeem_link_code
  redeeming-Closed now link_id route_ids code dest_id node view =
      let row = find_row (λ (k : LinkCode). str_eq k.code code) view.link_codes in
      checked-Closed
        (do ensure_node_active node; ensure_node_owns_endpoint view node.node_id dest_id)
        (redeem_code now link_id route_ids dest_id row)
        (redeeming_code-Closed now link_id route_ids dest_id row)

  accepting-Closed :
      (env : SendEnv) (node : Node) (req : SendRequest) (view : Db) (resp : SendResponse) (db' : Db)
      → Accepted env node req view db resp db'
      → Closed id db'.link_codes
  unfolding insert_packet drop_expired delete_packets
  accepting-Closed env node req view resp db' a =
      let e = (admit-Admitted env node req a.dest_node a.bytes _ _ a.ready a.admitted).event in
      elim (Bool-cases (read_expired env.now req view)) [
        | inl b ↦ rw (a.stored, e, b) c
        | inr b ↦ rw (a.stored, e, b) c
      ]

  pub sending-Closed :
      (env : SendEnv) (node : Node) (req : SendRequest) (views : List Db) (view : Db)
      → Closed id (send_packet env node req views view db).1.link_codes
  sending-Closed env node req views view = go (send_packet env node req views view db) refl
    where
      go :
          (t : Result SendResponse × Db)
          → send_packet env node req views view db ≡ t
          → Closed id t.1.link_codes
      go (err x, db') h =
          subst (λ (d : Db). Closed id d.link_codes)
            (sym (send_packet-unchanged env node req views view db (rw h refl))
              ∙ ap (λ (r : Result SendResponse × Db). r.1) h)
            c
      go (ok resp, db') h = by_result resp.result refl
        where
          by_result : (r : SendResult) → resp.result ≡ r → Closed id db'.link_codes
          by_result accepted e =
              accepting-Closed env node req view resp db'
                (send_packet-Accepted env node req views view db resp db' e h)
          by_result duplicate e =
              subst (λ (d : Db). Closed id d.link_codes)
                (sym (send_packet-unchanged env node req views view db (rw (h, e) refl))
                  ∙ ap (λ (r : Result SendResponse × Db). r.1) h)
                c
