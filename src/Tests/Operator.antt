-- ===== src/Tests/Operator.antt =====
-- What an operator sees of the queue, and the deletion of an endpoint whose packet is still queued.
use arqs.Server.Endpoints.Deleted.{delete_endpoint-live, touches}
use arqs.Admin.Codes.{list_link_codes_admin-status}
use arqs.Services.{for_node, live_deliveries, for_any, for_endpoint, queued_bytes, queued_packets}
use arqs.Http.{ok}
use arqs.Admin.{
  get_queue_stats_by_endpoint, QueueStats, answer, get_queue_stats_by_node, list_link_codes_admin,
}
use arqs.Server.Endpoints.{links_endpoint, delete_endpoint}
use arqs.Admin.Totals.{queue_stats-queues, total}
use arqs.Models.{CodeStatus, bidirectional, Db, LinkCode}
use arqs.Prelude.{◌≤◌, arith, delete_rows, List, count_rows, ◌≡◌, refl, [], ◌∷◌, some}
use arqs.Tests.Scene.{alice, alice_endpoint, bob_endpoint}
use arqs.Tests.Packets.{after_hello}

-- Alice's endpoint has another name and its link is gone; its packet to Bob waits.
abbrev unlinked : Db
unlinked = record after_hello {
  endpoints = record alice_endpoint { endpoint_name = some "work" } ∷ bob_endpoint ∷ [];
  links = [];
}

abbrev work_deleted : Db
work_deleted = record unlinked {
  endpoints = bob_endpoint ∷ [];
  routes = [];
  packets = [];
  deliveries = [];
}

work_goes : delete_endpoint 110 10 alice unlinked ≡ (ok 10, work_deleted)
unfolding delete_endpoint arqs.Services.live_deliveries
work_goes = refl

delete_endpoint-live_example :
    (count_rows (links_endpoint 10) unlinked.links ≡ 0)
    × (queued_packets (for_endpoint 10) (live_deliveries 110 unlinked) ≡ 0)
    × (live_deliveries 110 work_deleted
        ≡ delete_rows (λ r. touches 10 r.1) (live_deliveries 110 unlinked))
delete_endpoint-live_example =
    delete_endpoint-live 110 10 alice unlinked 10 work_deleted (refl, tt) work_goes

-- Bob's queue.
abbrev by_node : List QueueStats
by_node = record { key = 2; queued_packets = 1; queued_bytes = 73; oldest_queued_at = 100 } ∷ []

stats_by_node : get_queue_stats_by_node 110 50 after_hello ≡ answer by_node
unfolding get_queue_stats_by_node live_deliveries
stats_by_node = refl

abbrev by_endpoint : List QueueStats
by_endpoint =
    record { key = 20; queued_packets = 1; queued_bytes = 73; oldest_queued_at = 100 } ∷ []

stats_by_endpoint : get_queue_stats_by_endpoint 110 50 after_hello ≡ answer by_endpoint
unfolding get_queue_stats_by_endpoint live_deliveries
stats_by_endpoint = refl

queue_stats-queues_example :
    let live = live_deliveries 110 after_hello in
    (total 2 (λ g. g.queued_packets) by_node ≡ queued_packets (for_node 2) live)
    × (total 2 (λ g. g.queued_bytes) by_node ≡ queued_bytes (for_node 2) live)
    × (total 20 (λ g. g.queued_packets) by_endpoint ≡ queued_packets (for_endpoint 20) live)
    × (total 20 (λ g. g.queued_bytes) by_endpoint ≡ queued_bytes (for_endpoint 20) live)
    × (total 2 (λ g. 1) by_node ≤ 1)
    × (total 20 (λ g. 1) by_endpoint ≤ 1)
unfolding live_deliveries
queue_stats-queues_example =
    queue_stats-queues 110 50 after_hello by_node by_endpoint 2 20 (omega arith) stats_by_node
      stats_by_endpoint

-- A code that is marked active and has expired.
abbrev old_code : LinkCode
old_code = record {
  link_code_id = 70;
  code = "ABC234";
  source_endpoint_id = 10;
  requested_mode = bidirectional;
  created_at = 5;
  expires_at = 50;
  status = CodeStatus.active;
}

abbrev with_code : Db
with_code = record after_hello { link_codes = old_code ∷ [] }

list_link_codes_admin-status_example :
    list_link_codes_admin 110 (some CodeStatus.expired) 100 with_code
    ≡ answer ((old_code, CodeStatus.expired) ∷ [])
unfolding arqs.Services.effective_link_code_status
list_link_codes_admin-status_example =
    list_link_codes_admin-status 110 100 CodeStatus.expired with_code refl
