-- ===== src/Server/Packets/Accept.antt =====
-- What a send that is accepted has checked, and what it stores.
use arqs.Prelude.{ℕ, ◌≡◌, refl, ap, true, inl, inr, some, List, [], ◌∷◌, take, arith, Bool-cases}
use arqs.Http.{Result, ok, err}
use arqs.Models.{Node, Packet, Db}
use arqs.Server.Packets.{
  SendEnv, SendRequest, SendResponse, accepted, duplicate, authorize, admit, recover, commit_send,
  send_new, send_admitted, send_authorized, send_packet, new_packet, new_delivery, can_insert,
  insert_packet, answer_existing, duplicate_reply, drop_expired,
}

answer_existing-duplicate :
    (node : Node) (req : SendRequest) (db : Db) (p : Packet) (resp : SendResponse)
    → answer_existing node req db p ≡ ok resp
    → resp.result ≡ duplicate
unfolding answer_existing
answer_existing-duplicate node req db p resp h = ground arith

pub recover-duplicate :
    (now : ℕ) (node : Node) (req : SendRequest) (views : List Db) (resp : SendResponse)
    → recover now node req views ≡ ok resp
    → resp.result ≡ duplicate
unfolding recover answer_existing
recover-duplicate now node req [] resp h = cc
recover-duplicate now node req (view ∷ views) resp h =
    ground (arith, recover-duplicate now node req views resp)

-- The checks that an accepted send has passed, and the database that it leaves.
pub record Accepted (env : SendEnv) (node : Node) (req : SendRequest) (db at_write : Db)
    (resp : SendResponse) (db' : Db) : Type 0 where
  pub dest_node : Node
  pub bytes : ℕ
  pub ready : Db
  pub authorized : authorize env node req db ≡ ok (dest_node, bytes)
  pub admitted :
      admit env node req dest_node bytes
        (drop_expired env.now req db db)
        (drop_expired env.now req db at_write)
      ≡ ok ready
  pub fits :
      can_insert (new_packet env node req bytes) (new_delivery env req dest_node) ready ≡ true
  pub stored :
      db' ≡ insert_packet (new_packet env node req bytes) (new_delivery env req dest_node) ready
  pub replied : resp ≡ record {
    result = accepted;
    packet_id = req.packet_id;
    delivery_id = some env.delivery_id;
    expires_at = (new_packet env node req bytes).expires_at;
  }

module _ (env : SendEnv) (node : Node) (req : SendRequest) (views : List Db) (db at_write : Db)
    (resp : SendResponse) (db' : Db) (is_accepted : resp.result ≡ accepted) where
  commit_send-cases :
      (dest_node : Node) (bytes : ℕ) (ready : Db)
      → authorize env node req db ≡ ok (dest_node, bytes)
      → admit env node req dest_node bytes
          (drop_expired env.now req db db)
          (drop_expired env.now req db at_write)
        ≡ ok ready
      → commit_send env node req dest_node bytes views at_write ready ≡ (ok resp, db')
      → Accepted env node req db at_write resp db'
  unfolding commit_send new_packet new_delivery
  commit_send-cases dest_node bytes ready a b h =
      elim (Bool-cases
        (can_insert (new_packet env node req bytes) (new_delivery env req dest_node) ready)) [
          | inl e ↦ record {
            dest_node = dest_node;
            bytes = bytes;
            ready = ready;
            authorized = a;
            admitted = b;
            fits = e;
            stored = cc (ap (λ (r : Result SendResponse × Db). r.1) (rw e at h));
            replied = cc (rw e at h);
          }
          | inr e ↦ absurd (ground (arith, recover-duplicate env.now node req (take 5 views) resp))
        ]

  send_new-cases :
      (dest_node : Node) (bytes : ℕ)
      → authorize env node req db ≡ ok (dest_node, bytes)
      → send_new env node req dest_node bytes views db at_write ≡ (ok resp, db')
      → Accepted env node req db at_write resp db'
  unfolding send_new send_admitted
  send_new-cases dest_node bytes a h =
      go
        (admit env node req dest_node bytes (drop_expired env.now req db db)
          (drop_expired env.now req db at_write))
        refl h
    where
      go :
          (r : Result Db)
          → admit env node req dest_node bytes
              (drop_expired env.now req db db)
              (drop_expired env.now req db at_write)
            ≡ r
          → send_admitted env node req dest_node bytes views at_write r ≡ (ok resp, db')
          → Accepted env node req db at_write resp db'
      go (err x) b k = cc
      go (ok ready) b k = commit_send-cases dest_node bytes ready a b k

  send_authorized-cases :
      (r : Result (Node × ℕ))
      → authorize env node req db ≡ r
      → send_authorized env node req views db at_write r ≡ (ok resp, db')
      → Accepted env node req db at_write resp db'
  unfolding send_authorized answer_existing duplicate_reply
  send_authorized-cases (err x) a h = cc
  send_authorized-cases (ok (dest_node, bytes)) a h =
      ground (arith, send_new-cases dest_node bytes a)

  pub send_packet-Accepted :
      send_packet env node req views db at_write ≡ (ok resp, db')
      → Accepted env node req db at_write resp db'
  unfolding send_packet
  send_packet-Accepted h = send_authorized-cases (authorize env node req db) refl h
