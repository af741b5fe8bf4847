-- ===== src/Server/Consistent/Sends.antt =====
-- A send (arqs-server/app/main.py) keeps the constraints: what can_insert tests is what they ask.
use arqs.Models.Cascade.{delete_packets}
use arqs.Services.{is_packet_expired, get_packet}
use arqs.Server.Consistent.Inserts.{insert_packet-IsConsistent, add_event-IsConsistent}
use arqs.Http.{err, ok, Result}
use arqs.Server.Consistent.Deletes.{delete_packets-IsConsistent}
use arqs.Server.Consistent.{IsConsistent}
use arqs.Models.{Db, Node}
use arqs.Server.Packets.{
  read_expired, can_insert, new_delivery, admit, new_packet, authorize, commit_send, drop_expired,
  send_admitted, send_authorized, send_new, send_packet, SendRequest, SendEnv,
}
use arqs.Prelude.{
  false, refl, inr, inl, Bool-cases, Option-cases, [], arith, subst, true, ◌∷◌, ℕ, ◌++◌, ◌==◌,
  has_row, List, ◌≡◌,
}

module _ (env : SendEnv) (node : Node) (req : SendRequest) (views : List Db) (db at_write : Db)
    (new_event : has_row (λ e. e.event_id == env.event_id) at_write.send_events ≡ false)
    (c : IsConsistent at_write) where
  -- The open transaction after `admit`.
  abbrev admitted : Db
  admitted =
      let dropped = drop_expired env.now req db at_write in
      record dropped {
        send_events =
            dropped.send_events
            ++ record { event_id = env.event_id; node_id = node.node_id; created_at = env.now }
              ∷ [];
      }

  drop_expired-IsConsistent : IsConsistent (drop_expired env.now req db at_write)
  unfolding drop_expired
  drop_expired-IsConsistent = elim (Bool-cases (read_expired env.now req db)) [
    | inl b ↦ rw b (delete_packets-IsConsistent _ at_write c)
    | inr b ↦ rw b c
  ]

  new_event_dropped :
      has_row (λ e. e.event_id == env.event_id) (drop_expired env.now req db at_write).send_events
      ≡ false
  unfolding drop_expired delete_packets
  new_event_dropped = elim (Bool-cases (read_expired env.now req db)) [
    | inl b ↦ rw b new_event
    | inr b ↦ rw b new_event
  ]

  admitted-IsConsistent :
      has_row (λ n. n.node_id == node.node_id) (drop_expired env.now req db at_write).nodes ≡ true
      → IsConsistent admitted
  admitted-IsConsistent sender =
      add_event-IsConsistent
        (record { event_id = env.event_id; node_id = node.node_id; created_at = env.now })
        (drop_expired env.now req db at_write) sender new_event_dropped drop_expired-IsConsistent

  commit_send-IsConsistent :
      (dest_node : Node) (bytes : ℕ)
      → IsConsistent (commit_send env node req dest_node bytes views at_write admitted).1
  unfolding commit_send
  commit_send-IsConsistent dest_node bytes =
      let p = new_packet env node req bytes in
      let d = new_delivery env req dest_node in
      elim (Bool-cases (can_insert p d admitted)) [
        | inl e ↦ rw e (
            insert_packet-IsConsistent p d admitted (unfold new_packet new_delivery in refl) e
              (admitted-IsConsistent (unfold can_insert new_packet in (ground arith))))
        | inr e ↦ rw e c
      ]

  send_admitted-IsConsistent :
      (dest_node : Node) (bytes : ℕ) (r : Result Db)
      → ((ready : Db) → r ≡ ok ready → admitted ≡ ready)
      → IsConsistent (send_admitted env node req dest_node bytes views at_write r).1
  unfolding send_admitted
  send_admitted-IsConsistent dest_node bytes (err e) h = c
  send_admitted-IsConsistent dest_node bytes (ok ready) h =
      subst (λ d. IsConsistent (commit_send env node req dest_node bytes views at_write d).1)
        (h ready refl) (commit_send-IsConsistent dest_node bytes)

  send_new-IsConsistent :
      (dest_node : Node) (bytes : ℕ)
      → IsConsistent (send_new env node req dest_node bytes views db at_write).1
  unfolding send_new
  send_new-IsConsistent dest_node bytes =
      send_admitted-IsConsistent dest_node bytes
        (admit env node req dest_node bytes (drop_expired env.now req db db)
          (drop_expired env.now req db at_write))
        (λ ready h. unfold admit in (ground arith))

  send_authorized-IsConsistent :
      (r : Result (Node × ℕ)) → IsConsistent (send_authorized env node req views db at_write r).1
  unfolding send_authorized
  send_authorized-IsConsistent (err e) = c
  send_authorized-IsConsistent (ok (dest_node, bytes)) =
      elim (Option-cases (get_packet db req.packet_id)) [
        | inl e ↦ rw (e, send_authorized) (send_new-IsConsistent dest_node bytes)
        | inr (p, e) ↦ elim (Bool-cases (is_packet_expired env.now p)) [
          | inl x ↦ rw (e, x, send_authorized) (send_new-IsConsistent dest_node bytes)
          | inr x ↦ rw (e, x, send_authorized) c
        ]
      ]

  pub send_packet-IsConsistent : IsConsistent (send_packet env node req views db at_write).1
  unfolding send_packet
  send_packet-IsConsistent = send_authorized-IsConsistent (authorize env node req db)
