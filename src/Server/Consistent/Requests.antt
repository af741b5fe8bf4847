-- ===== src/Server/Consistent/Requests.antt =====
-- Each handler of arqs-server/app/main.py keeps the constraints of the tables.
use arqs.Auth.{generate_api_key, hash_api_key, Text, Crypto}
use arqs.Server.Consistent.Inserts.{
  add_node-IsConsistent, add_endpoint-IsConsistent, add_code-IsConsistent,
}
use arqs.Json.{Fields}
use arqs.Server.Inbox.Ack.{ack_packet-cases}
use arqs.Server.Consistent.Deletes.{
  delete_node-IsConsistent, delete_deliveries-IsConsistent, delete_packets-IsConsistent,
  delete_endpoints-IsConsistent, delete_events-IsConsistent,
}
use arqs.Config.{RuntimeSettings}
use arqs.Server.Consistent.{IsConsistent}
use arqs.Http.{HttpError, Result}
use arqs.Models.{LinkCode, CodeStatus, LinkMode, Node, Db}
use arqs.Server.Endpoints.{create_endpoint, delete_endpoint}
use arqs.Services.{is_packet_expired, cleanup_expired}
use arqs.Server.Identity.{delete_identity, register, self_rotate_key}
use arqs.Server.Links.{created_by, request_link_code, revoke_link}
use arqs.Server.Inbox.{find_acked, AckRequest, remove_delivery, ack_packet}
use arqs.Http.{Result, ok, err}
use arqs.Prelude.{
  has_row-is_some, ==_refl, has_row-insert_new, refl, refl, false, sym, true, arith, ◌==◌, String,
  has_row, subst, List, Option, ℕ, ◌≡◌,
}
use arqs.Server.Consistent.Updates.{
  update_nodes-IsConsistent, update_codes-IsConsistent, revoke-IsConsistent,
}

-- What a transaction commits is consistent, or nothing changes.
pub transaction-IsConsistent {ℓ} :
    {A : Type ℓ} (t : Result A × Db) (db : Db)
    → ((a : A) (db' : Db) → t ≡ (ok a, db') → IsConsistent db')
    → ((e : HttpError) (db' : Db) → t ≡ (err e, db') → db ≡ db')
    → IsConsistent db
    → IsConsistent t.1
transaction-IsConsistent (ok a, db') db h k c = h a db' refl
transaction-IsConsistent (err e, db') db h k c = subst IsConsistent (k e db' refl) c

pub register-IsConsistent :
    (crypto : Crypto) (now node_id endpoint_id : ℕ) (key_id secret : Text) (salt : List ℕ)
    (name : Option String) (db : Db)
    → has_row (λ n. n.node_id == node_id) db.nodes ≡ false
    → has_row (λ e. e.endpoint_id == endpoint_id) db.endpoints ≡ false
    → IsConsistent db
    → IsConsistent (register crypto now node_id endpoint_id key_id secret salt name db).1
unfolding register
register-IsConsistent crypto now node_id endpoint_id key_id secret salt name db new_node
      new_endpoint c =
    add_endpoint-IsConsistent _ (record db { nodes = _ }) new_endpoint
      (has_row-insert_new (λ (n : Node). n.node_id == node_id) db.nodes _ (==_refl node_id))
      (add_node-IsConsistent _ db new_node c)

pub self_rotate_key-IsConsistent :
    (crypto : Crypto) (secret : Text) (salt : List ℕ) (node : Node) (db : Db)
    → IsConsistent db
    → IsConsistent (self_rotate_key crypto secret salt node db).1
unfolding self_rotate_key
self_rotate_key-IsConsistent crypto secret salt node db c =
    transaction-IsConsistent (self_rotate_key crypto secret salt node db) db
      (λ a db' h. subst IsConsistent (ground arith) (
        update_nodes-IsConsistent (λ n. n.node_id == node.node_id)
          (λ n. record n {
            api_key_hash = hash_api_key crypto salt (generate_api_key crypto node.key_id secret);
          })
          db (λ n. refl) c))
      (λ e db' h. ground arith) c

pub delete_identity-IsConsistent :
    (node : Node) (db : Db) → IsConsistent db → IsConsistent (delete_identity node db).1
unfolding delete_identity
delete_identity-IsConsistent node = delete_node-IsConsistent node.node_id

pub create_endpoint-IsConsistent :
    (now endpoint_id : ℕ) (name kind : Option String) (meta : Option Fields) (node : Node) (db : Db)
    → has_row (λ e. e.endpoint_id == endpoint_id) db.endpoints ≡ false
    → has_row (λ n. n.node_id == node.node_id) db.nodes ≡ true
    → IsConsistent db
    → IsConsistent (create_endpoint now endpoint_id name kind meta node db).1
unfolding create_endpoint
create_endpoint-IsConsistent now endpoint_id name kind meta node db fresh owner c =
    transaction-IsConsistent (create_endpoint now endpoint_id name kind meta node db) db
      (λ e db' h.
        subst IsConsistent (ground arith)
          (add_endpoint-IsConsistent e db (ground arith) (ground arith) c))
      (λ e db' h. ground arith) c

pub delete_endpoint-IsConsistent :
    (now endpoint_id : ℕ) (node : Node) (db : Db)
    → IsConsistent db
    → IsConsistent (delete_endpoint now endpoint_id node db).1
unfolding delete_endpoint
delete_endpoint-IsConsistent now endpoint_id node db c =
    transaction-IsConsistent (delete_endpoint now endpoint_id node db) db
      (λ a db' h.
        subst IsConsistent (ground arith)
          (delete_endpoints-IsConsistent (λ a. a == endpoint_id) db c))
      (λ e db' h. ground arith) c

pub request_link_code-IsConsistent :
    (now ttl link_code_id : ℕ) (candidates : List String) (source_id : ℕ) (mode : LinkMode)
    (node : Node) (db : Db)
    → has_row (λ c. c.link_code_id == link_code_id) db.link_codes ≡ false
    → IsConsistent db
    → IsConsistent (request_link_code now ttl link_code_id candidates source_id mode node db).1
unfolding request_link_code
request_link_code-IsConsistent now ttl link_code_id candidates source_id mode node db fresh c =
    transaction-IsConsistent
      (request_link_code now ttl link_code_id candidates source_id mode node db) db
      (λ k db' h.
        let source : source_id ≡ k.source_endpoint_id = ground arith in
        let named : link_code_id ≡ k.link_code_id = ground arith in
        subst IsConsistent (ground arith) (
          add_code-IsConsistent k db
            (subst (λ a. has_row (λ e. e.endpoint_id == a) db.endpoints ≡ true) source
              (ground (arith, has_row-is_some (λ f. f.endpoint_id == source_id) db.endpoints)))
            (subst (λ a. has_row (λ (x : LinkCode). x.link_code_id == a) db.link_codes ≡ false)
              named fresh)
            c))
      (λ e db' h. ground arith) c

pub revoke_link-IsConsistent :
    (link_id : ℕ) (node : Node) (db : Db)
    → IsConsistent db
    → IsConsistent (revoke_link link_id node db).1
unfolding revoke_link
revoke_link-IsConsistent link_id node db c =
    transaction-IsConsistent (revoke_link link_id node db) db
      (λ a db' h.
        subst IsConsistent (ground arith)
          (revoke-IsConsistent (λ l. l.link_id == link_id) (created_by link_id) db c))
      (λ e db' h. ground arith) c

pub cleanup_expired-IsConsistent :
    (now : ℕ) (settings : RuntimeSettings) (db : Db)
    → IsConsistent db
    → IsConsistent (cleanup_expired now settings db).1
unfolding cleanup_expired
cleanup_expired-IsConsistent now settings db c = delete_events-IsConsistent _ _ (
    update_codes-IsConsistent _ (λ k. record k { status = CodeStatus.expired }) _ (λ k. refl)
      (λ k. refl) (delete_packets-IsConsistent (is_packet_expired now) db c))

pub ack_packet-IsConsistent :
    (now : ℕ) (req : AckRequest) (node : Node) (db : Db)
    → IsConsistent db
    → IsConsistent (ack_packet now req node db).1
unfolding ack_packet remove_delivery
ack_packet-IsConsistent now req node db c =
    transaction-IsConsistent (ack_packet now req node db) db
      (λ a db' h.
        let x = ack_packet-cases now req node db (find_acked now req db) a db' refl h in
        subst IsConsistent (sym x.removed) (
          delete_packets-IsConsistent _ _
            (delete_deliveries-IsConsistent (λ e. e.delivery_id == x.delivery.delivery_id) db c)))
      (λ e db' h. ground arith) c
