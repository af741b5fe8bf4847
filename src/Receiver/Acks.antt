-- ===== src/Receiver/Acks.antt =====
-- The deliveries of a poll (apis/appkit/receiver.py).
use arqs.Conventions.Decode.{
  raised_charset_error, raised_encode_error, decode_packet_view, view, DecodeOutcome,
}
use arqs.Receiver.Scripts.{and_then-returned, and_then-has, is_ack}
use arqs.Receiver.Deliveries.{
  charset_error, encode_error, received_packet, to_received_packet, Incoming, poll_once, receive,
  App,
}
use arqs.Receiver.{ClientEffect, threw, Ran, and_then, returned, Work, ReceivedPacket, World}
use arqs.Conventions.{Python}
use arqs.Prelude.{sym, [], All, ◌∷◌, List, arith, ap, subst, refl, Bool, true, has_row, ◌≡◌}
use arqs.Receiver.Handling.{acknowledges, handle_delivery-Keeps, handle_delivery-acked}

module _ (py : Python) (world : World) (app : App) where
  receive-has :
      (r : Ran ReceivedPacket) (s : Work) (p : ClientEffect → Bool)
      → has_row p s.effects ≡ true
      → has_row p (receive py world app r s).1.effects ≡ true
  unfolding receive
  receive-has (threw x) s p h = h
  receive-has (returned packet) s p h = (handle_delivery-Keeps py world app packet s).has p h

  poll_once-has :
      (ds : List Incoming) (s : Work) (p : ClientEffect → Bool)
      → has_row p s.effects ≡ true
      → has_row p (poll_once py world app ds s).1.effects ≡ true
  unfolding poll_once and_then
  poll_once-has [] s p h = h
  poll_once-has (d ∷ ds) s p h =
      and_then-has p (receive py world app (to_received_packet py d) s) _
        (receive-has (to_received_packet py d) s p h) (λ done t k. poll_once-has ds t p k)

  to_received_packet-id :
      (d : Incoming) (packet : ReceivedPacket)
      → to_received_packet py d ≡ returned packet
      → packet.delivery_id ≡ d.delivery_id
  unfolding to_received_packet received_packet
  to_received_packet-id d packet h = go (decode_packet_view py d.body d.headers) h
    where
      go :
          (o : DecodeOutcome)
          → elim o [
            | view v ↦ returned (received_packet py d v)
            | raised_encode_error ↦ threw encode_error
            | raised_charset_error ↦ threw charset_error
          ]
            ≡ returned packet
          → packet.delivery_id ≡ d.delivery_id
      go (view v) k =
          let same : received_packet py d v ≡ packet = ground arith in
          ap (λ (q : ReceivedPacket). q.delivery_id) (sym same)
      go raised_encode_error k = cc
      go raised_charset_error k = cc

  receive-acked :
      (d : Incoming) (r : Ran ReceivedPacket) (s t : Work)
      → acknowledges app ≡ true
      → to_received_packet py d ≡ r
      → receive py world app r s ≡ (returned tt, t)
      → has_row (is_ack d.delivery_id) t.effects ≡ true
  unfolding receive
  receive-acked d (threw x) s t policy e h = cc
  receive-acked d (returned packet) s t policy e h =
      subst (λ id. has_row (is_ack id) t.effects ≡ true) (to_received_packet-id d packet e)
        (handle_delivery-acked py world app packet s t policy h)

  -- Under every policy but "manual", a poll that returns has acknowledged each of its deliveries,
  -- whatever the handlers and the network do.
  pub poll_once-acked :
      (ds : List Incoming) (s s' : Work)
      → acknowledges app ≡ true
      → poll_once py world app ds s ≡ (returned tt, s')
      → All (λ d. has_row (is_ack d.delivery_id) s'.effects ≡ true) ds
  unfolding poll_once
  poll_once-acked [] s s' policy h = tt
  poll_once-acked (d ∷ ds) s s' policy h =
      let (t, e, k) = and_then-returned _ _ s' h in
      (
        subst (λ (r : Ran (Unit {0}) × Work). has_row (is_ack d.delivery_id) r.1.effects ≡ true) k
            (poll_once-has ds t (is_ack d.delivery_id)
              (receive-acked d (to_received_packet py d) s t policy refl e)),
        poll_once-acked ds t s' policy k,
      )
