-- ===== src/Tests/Upkeep.antt =====
-- The cleanup of an expired packet, and Bob's deletion of his identity.
use arqs.Prelude.{arith, ℕ, ◌≡◌, refl, [], ◌∷◌, map, count_rows, false, has_row, ◌+◌, length}
use arqs.Http.{ok}
use arqs.Models.{Db}
use arqs.Config.{default_settings}
use arqs.Services.{
  cleanup_expired, live_deliveries, recent_event, effective_link_code_status, is_packet_expired,
}
use arqs.Services.Cleanup.{cleanup_expired_unseen, cleanup_expired_complete, stale_code}
use arqs.Server.Identity.{delete_identity, DeleteIdentityResponse}
use arqs.Server.Identity.Deleted.{Deleted, delete_identity-Deleted}
use arqs.Tests.Scene.{alice, bob, alice_endpoint}
use arqs.Tests.Packets.{after_hello}

-- The packet expired at 160.
cleanup_expired_unseen_example :
    (live_deliveries 300 (cleanup_expired 200 default_settings after_hello).1
      ≡ live_deliveries 300 after_hello)
    × ((node_id : ℕ)
        → count_rows
            (recent_event 300 default_settings node_id)
            (cleanup_expired 200 default_settings after_hello).1.send_events
          ≡ count_rows (recent_event 300 default_settings node_id) after_hello.send_events)
    × (map
          (effective_link_code_status 300)
          (cleanup_expired 200 default_settings after_hello).1.link_codes
        ≡ map (effective_link_code_status 300) after_hello.link_codes)
cleanup_expired_unseen_example =
    cleanup_expired_unseen 200 300 default_settings after_hello (omega arith) (refl, tt)

cleanup_expired_complete_example :
    let (counts, db') = cleanup_expired 200 default_settings after_hello in
    (has_row (is_packet_expired 200) db'.packets ≡ false)
    × (has_row (stale_code 200) db'.link_codes ≡ false)
    × (counts.expired_packets + length db'.packets ≡ 1)
    × (counts.pruned_send_events + length db'.send_events ≡ 1)
    × (length db'.link_codes ≡ 0)
cleanup_expired_complete_example = cleanup_expired_complete 200 default_settings after_hello

abbrev alone : Db
alone = record after_hello {
  nodes = alice ∷ [];
  endpoints = alice_endpoint ∷ [];
  links = [];
  routes = [];
  packets = [];
  deliveries = [];
}

abbrev bob_reply : DeleteIdentityResponse
bob_reply = record {
  node_id = 2;
  endpoints_deleted = 1;
  links_deleted = 1;
  routes_deleted = 2;
  link_codes_deleted = 0;
  packets_deleted = 1;
  deliveries_deleted = 1;
  send_events_deleted = 0;
}

bob_leaves : delete_identity bob after_hello ≡ (ok bob_reply, alone)
unfolding delete_identity
bob_leaves = refl

delete_identity-Deleted_example : Deleted 2 after_hello bob_reply alone
delete_identity-Deleted_example =
    delete_identity-Deleted bob after_hello bob_reply alone (refl, (refl, tt)) bob_leaves

-- Alice's deletion takes her packet and with it the delivery to Bob, which the reply does not count.
alice_leaves :
    ((delete_identity alice after_hello).0
      ≡ ok (record bob_reply { node_id = 1; deliveries_deleted = 0; send_events_deleted = 1 }))
    × ((delete_identity alice after_hello).1.deliveries ≡ [])
unfolding delete_identity
alice_leaves = (refl, refl)
