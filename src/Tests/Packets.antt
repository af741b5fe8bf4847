-- ===== src/Tests/Packets.antt =====
-- Sends between two linked nodes.
use arqs.Prelude.{true, map, ◌≡◌, ◌≤◌, refl, none, some, [], ◌∷◌, ◌++◌, arith, count_rows}
use arqs.Http.{packet_id_reused, err, ok}
use arqs.Json.{nan, field, end, dict_eq, get_field}
use arqs.Json.Equal.{IsDistinctFields, has_key}
use arqs.Models.{Endpoint, Db, Delivery, Packet, queued}
use arqs.Services.{
  queued_packets, for_endpoint, for_endpoint, get_endpoint, recent_event, live_deliveries,
  join_packets,
}
use arqs.Services
use arqs.Models.Cascade.{delete_packets}
use arqs.Server.Packets
use arqs.Server.Packets.{SendRequest, SendResponse, accepted, duplicate, send_packet, drop_expired}
use arqs.Server.Packets.Stored.{
  spared, is_acceptance, Carries, send_packet-live, send_packet-unchanged,
}
use arqs.Server.Packets.Resend.{send_packet-resend}
use arqs.Server.Packets.{SendEnv}
use arqs.Server.Packets.Caps.{WithinCaps}
use arqs.Server.Packets.Bounded.{send_packet-WithinCaps, send_packet-rate_limit}
use arqs.Tests.Scene.{alice, linked, hello, send_env}

abbrev pub hello_packet : Packet
hello_packet = record {
  packet_id = 40;
  version = 1;
  sender_node_id = 1;
  from_endpoint_id = 10;
  to_endpoint_id = 20;
  headers = hello.headers;
  body = some "hello";
  payload = end;
  meta = end;
  created_at = 100;
  expires_at = some 160;
  payload_bytes = 73;
}

abbrev pub hello_delivery : Delivery
hello_delivery = record {
  delivery_id = 60;
  packet_id = 40;
  destination_node_id = 2;
  destination_endpoint_id = 20;
  queued_at = 100;
  state = queued;
  last_attempt_at = none;
}

abbrev pub after_hello : Db
after_hello = record linked {
  packets = hello_packet ∷ [];
  deliveries = hello_delivery ∷ [];
  send_events = record { event_id = 50; node_id = 1; created_at = 100 } ∷ [];
}

abbrev hello_reply : SendResponse
hello_reply = record {
  result = accepted;
  packet_id = 40;
  delivery_id = some 60;
  expires_at = some 160;
}

pub hello_sent : send_packet send_env alice hello [] linked linked ≡ (ok hello_reply, after_hello)
unfolding send_packet Packets.send_authorized Packets.authorize Services.get_node
    Services.active_route_exists Services.payload_size_bytes Services.get_packet
    Services.get_endpoint Services.ensure_node_active Services.ensure_node_owns_endpoint
    Services.packet_expiry Services.enforce_send_rate_limit Services.enforce_queue_limits
    live_deliveries join_packets Packets.send_new Packets.send_admitted Packets.admit drop_expired
    Packets.commit_send Packets.can_insert Packets.new_packet Packets.new_delivery
    Packets.insert_packet delete_packets
hello_sent = refl

nothing_queued : WithinCaps 100 send_env.settings linked
unfolding live_deliveries join_packets
nothing_queued = record {
  endpoint_packets = λ a. omega arith;
  endpoint_bytes = λ a. omega arith;
  node_bytes = λ a. omega arith;
  total_packets = omega arith;
  total_bytes = omega arith;
}

send_packet-WithinCaps_example : WithinCaps 100 send_env.settings after_hello
send_packet-WithinCaps_example =
    send_packet-WithinCaps send_env alice hello [] linked hello_reply after_hello hello_sent refl
      nothing_queued

send_packet-rate_limit_example :
    count_rows (recent_event 100 send_env.settings 1) after_hello.send_events ≤ 600
send_packet-rate_limit_example =
    send_packet-rate_limit send_env alice hello [] linked hello_reply after_hello hello_sent refl

send_packet-live_example :
    (dest : Endpoint) × (d : Delivery) × (p : Packet) × (get_endpoint linked hello.to_endpoint_id
      ≡ some dest)
    × (live_deliveries 100 after_hello ≡ spared send_env hello linked linked ++ (d, p) ∷ [])
    × Carries send_env alice hello dest d p
    × (some 60 ≡ some d.delivery_id)
send_packet-live_example =
    send_packet-live send_env alice hello [] linked linked hello_reply after_hello
      (unfold Packets.validate_payload in refl) (omega arith) hello_sent refl

-- Ten seconds later, with new uuids.
abbrev later_env : SendEnv
later_env = record send_env { now = 110; event_id = 51; delivery_id = 61 }

send_packet-resend_example :
    send_packet later_env alice hello [] after_hello after_hello
    ≡ (ok (record hello_reply { result = duplicate }), after_hello)
unfolding has_key
send_packet-resend_example =
    send_packet-resend send_env later_env alice hello [] [] linked hello_reply after_hello
      (unfold IsDistinctFields in record { headers = (refl, tt, tt); payload = tt; meta = tt }) refl
      hello_sent refl refl

-- Another request took the packet id between the reads and the write.
lost_race :
    (send_packet later_env alice hello (after_hello ∷ []) linked after_hello).0
    ≡ ok (record hello_reply { result = duplicate })
unfolding send_packet Packets.send_authorized Packets.authorize Services.get_node
    Services.active_route_exists Services.payload_size_bytes Services.get_packet
    Services.get_endpoint Services.ensure_node_active Services.ensure_node_owns_endpoint
    Services.packet_expiry Services.enforce_send_rate_limit Services.enforce_queue_limits
    live_deliveries join_packets Packets.send_new Packets.send_admitted Packets.admit drop_expired
    Packets.commit_send Packets.can_insert Packets.new_packet Packets.new_delivery
    Packets.insert_packet delete_packets Packets.recover Packets.answer_existing
    Packets.matches_request Packets.duplicate_reply Packets.delivery_of Services.packet_matches
    Services.body_eq dict_eq get_field
lost_race = refl

send_packet-unchanged_example :
    (send_packet later_env alice hello (after_hello ∷ []) linked after_hello).1 ≡ after_hello
send_packet-unchanged_example =
    send_packet-unchanged later_env alice hello (after_hello ∷ []) linked after_hello
      (rw lost_race refl)

-- Two sends that both counted one free place: with room for one packet, both are accepted.
abbrev tight : SendEnv
tight = record send_env {
  settings = record send_env.settings { max_queued_packets_per_endpoint = 1 };
  event_id = 51;
  delivery_id = 61;
}

abbrev second_hello : SendRequest
second_hello = record hello { packet_id = 41 }

race_accepted : is_acceptance (send_packet tight alice second_hello [] linked after_hello).0 ≡ true
unfolding send_packet Packets.send_authorized Packets.authorize Services.get_node
    Services.active_route_exists Services.payload_size_bytes Services.get_packet
    Services.get_endpoint Services.ensure_node_active Services.ensure_node_owns_endpoint
    Services.packet_expiry Services.enforce_send_rate_limit Services.enforce_queue_limits
    live_deliveries join_packets Packets.send_new Packets.send_admitted Packets.admit drop_expired
    Packets.commit_send Packets.can_insert Packets.new_packet Packets.new_delivery
    Packets.insert_packet delete_packets Packets.read_expired
race_accepted = refl

race_exceeds :
    queued_packets
      (for_endpoint 20)
      (live_deliveries 100 (send_packet tight alice second_hello [] linked after_hello).1)
    ≡ 2
unfolding send_packet Packets.send_authorized Packets.authorize Services.get_node
    Services.active_route_exists Services.payload_size_bytes Services.get_packet
    Services.get_endpoint Services.ensure_node_active Services.ensure_node_owns_endpoint
    Services.packet_expiry Services.enforce_send_rate_limit Services.enforce_queue_limits
    live_deliveries join_packets Packets.send_new Packets.send_admitted Packets.admit drop_expired
    Packets.commit_send Packets.can_insert Packets.new_packet Packets.new_delivery
    Packets.insert_packet delete_packets Packets.read_expired
race_exceeds = refl

-- The send read an expired packet; another request has stored a fresh one under the same id since.
abbrev expired_hello : Db
expired_hello = record linked {
  packets = map (λ (p : Packet). record p { expires_at = some 99 }) after_hello.packets;
}

race_deletes :
    map
      (λ r. r.0.delivery_id)
      (live_deliveries 100 (send_packet tight alice hello [] expired_hello after_hello).1)
    ≡ 61 ∷ []
unfolding send_packet Packets.send_authorized Packets.authorize Services.get_node
    Services.active_route_exists Services.payload_size_bytes Services.get_packet
    Services.get_endpoint Services.ensure_node_active Services.ensure_node_owns_endpoint
    Services.packet_expiry Services.enforce_send_rate_limit Services.enforce_queue_limits
    live_deliveries join_packets Packets.send_new Packets.send_admitted Packets.admit drop_expired
    Packets.commit_send Packets.can_insert Packets.new_packet Packets.new_delivery
    Packets.insert_packet delete_packets Packets.read_expired
race_deletes = refl

-- NaN does not equal itself: the same request again is no duplicate.
abbrev odd_hello : SendRequest
odd_hello = record hello { payload = field "x" nan end }

nan_reused :
    let after = (send_packet send_env alice odd_hello [] linked linked).1 in
    (send_packet later_env alice odd_hello [] after after).0 ≡ err packet_id_reused
unfolding send_packet Packets.send_authorized Packets.authorize Services.get_node
    Services.active_route_exists Services.payload_size_bytes Services.get_packet
    Services.get_endpoint Services.ensure_node_active Services.ensure_node_owns_endpoint
    Services.packet_expiry Services.enforce_send_rate_limit Services.enforce_queue_limits
    live_deliveries join_packets Packets.send_new Packets.send_admitted Packets.admit drop_expired
    Packets.commit_send Packets.can_insert Packets.new_packet Packets.new_delivery
    Packets.insert_packet delete_packets Packets.recover Packets.answer_existing
    Packets.matches_request Packets.duplicate_reply Packets.delivery_of Services.packet_matches
    Services.body_eq dict_eq get_field Packets.read_expired arqs.Json.dumps_size arqs.Json.json_eq
nan_reused = refl
