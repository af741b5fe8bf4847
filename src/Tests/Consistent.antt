-- ===== src/Tests/Consistent.antt =====
-- A run of the handlers from an empty database: two registrations, a link code that is redeemed, and a
-- packet that is sent.
use arqs.Models.Cascade.{delete_packets}
use arqs.Json.{dumps_size}
use arqs.Server.Links.{
  any_route_exists, claim, connect, free_code, new_routes, redeem_checked, redeem_code,
  redeem_link_code, request_link_code, source_unavailable,
}
use arqs.Server.Packets.{
  admit, authorize, can_insert, commit_send, drop_expired, insert_packet, new_delivery, new_packet,
  send_admitted, send_authorized, send_new, send_packet,
}
use arqs.Services.{
  active_route_exists, enforce_queue_limits, enforce_send_rate_limit, ensure_node_active,
  ensure_node_owns_endpoint, exact_active_link_exists, get_endpoint, get_node, get_packet,
  join_packets, live_deliveries, packet_expiry, payload_size_bytes, resolve_redeem_routes,
}
use arqs.Server.Identity.{register}
use arqs.Server.Consistent.{IsConsistent}
use arqs.Server.Consistent.Steps.{
  sending, redeeming, requesting, registering, start, next, Reach-IsConsistent, Reach-join_packets,
  Reach,
}
use arqs.Models.{bidirectional, empty_db, Db}
use arqs.Prelude.{true, some, ◌≡◌, refl, none, [], ◌∷◌, map}
use arqs.Auth.{Crypto}
use arqs.Tests.Scene.{alice, bob, hello, send_env}

abbrev plain : Crypto
plain = record {
  pbkdf2 = λ key salt n. key;
  b64encode = λ bs. bs;
  b64decode = some;
  int_text = λ n. n ∷ [];
  parse_int = λ t. none;
  is_uuid = λ t. true;
}

abbrev after_first : Db
after_first = (register plain 5 1 10 (101 ∷ []) (7 ∷ []) [] none empty_db).1

abbrev after_second : Db
after_second = (register plain 5 2 20 (102 ∷ []) (8 ∷ []) [] none after_first).1

abbrev after_request : Db
after_request = (request_link_code 6 600 70 ("ABC234" ∷ []) 10 bidirectional alice after_second).1

abbrev after_redeem : Db
after_redeem = (redeem_link_code 7 30 (31 ∷ 32 ∷ []) "ABC234" 20 bob after_request after_request).1

abbrev after_send : Db
after_send = (send_packet send_env alice hello [] after_redeem after_redeem).1

after_send-Reach : Reach after_send
unfolding register request_link_code arqs.Server.Links.free_code redeem_link_code redeem_checked
    redeem_code claim connect source_unavailable exact_active_link_exists any_route_exists
    resolve_redeem_routes active_route_exists
after_send-Reach =
    next
      (next
        (next
          (next (next start (registering plain 5 1 10 (101 ∷ []) (7 ∷ []) [] none refl refl))
            (registering plain 5 2 20 (102 ∷ []) (8 ∷ []) [] none refl refl))
          (requesting 6 600 70 ("ABC234" ∷ []) 10 bidirectional alice refl))
        (redeeming 7 30 (31 ∷ 32 ∷ []) "ABC234" 20 bob after_request refl refl))
      (sending send_env alice hello [] after_redeem refl)

Reach-IsConsistent_example : IsConsistent after_send
Reach-IsConsistent_example = Reach-IsConsistent after_send after_send-Reach

-- The delivery is there.
sent_one : map (λ d. d.delivery_id) after_send.deliveries ≡ 60 ∷ []
unfolding send_packet send_authorized authorize redeem_link_code redeem_checked request_link_code
    register free_code redeem_code claim connect source_unavailable exact_active_link_exists
    get_node dumps_size delete_packets new_routes admit commit_send new_packet new_delivery
    can_insert insert_packet drop_expired send_new send_admitted packet_expiry
    enforce_send_rate_limit enforce_queue_limits live_deliveries join_packets payload_size_bytes
    resolve_redeem_routes get_packet get_endpoint ensure_node_active ensure_node_owns_endpoint
    active_route_exists any_route_exists
sent_one = refl

Reach-join_packets_example :
    map (λ r. r.0) (join_packets after_send.packets after_send.deliveries) ≡ after_send.deliveries
Reach-join_packets_example = Reach-join_packets after_send after_send-Reach
