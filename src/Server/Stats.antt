-- ===== src/Server/Stats.antt =====
-- _enforce_observability_mode, health and stats of arqs-server/app/main.py. `authenticated` is the
-- result of require_node on the request.
use arqs.Prelude.{ℕ, String, str_eq, if◌then◌else◌, length, count_rows}
use arqs.Http.{Result, ok, err, ◌>>◌, observability_off, invalid_observability_mode}
use arqs.Models.{Node, Db, is_active_link}
use arqs.Services.{active_link_code, live_deliveries, queued_packets, queued_bytes, for_any}

abbrev discard : Result Node → Result (Unit {0})
discard (ok n) = ok tt
discard (err e) = err e

unfoldable pub enforce_observability_mode : String → Result Node → Result (Unit {0})
enforce_observability_mode mode authenticated =
    if str_eq mode "off"
    then err observability_off
    else if str_eq mode "public"
    then ok tt
    else if str_eq mode "node_api_key"
    then discard authenticated
    else err invalid_observability_mode

pub record HealthResponse : Type 0 where
  pub time : ℕ

unfoldable pub health : String → Result Node → ℕ → Result HealthResponse
unfolding enforce_observability_mode
health mode authenticated now = do
  enforce_observability_mode mode authenticated
  ok (record { time = now })

pub record StatsResponse : Type 0 where
  pub nodes_total : ℕ
  pub endpoints_total : ℕ
  pub active_links_total : ℕ
  pub queued_packets_total : ℕ
  pub queued_bytes_total : ℕ
  pub link_codes_active_total : ℕ
  pub time : ℕ

unfoldable pub stats : String → Result Node → ℕ → Db → Result StatsResponse
unfolding enforce_observability_mode
stats mode authenticated now db = do
  enforce_observability_mode mode authenticated
  ok (record {
    nodes_total = length db.nodes;
    endpoints_total = length db.endpoints;
    active_links_total = count_rows (λ l. is_active_link l.status) db.links;
    queued_packets_total = queued_packets for_any (live_deliveries now db);
    queued_bytes_total = queued_bytes for_any (live_deliveries now db);
    link_codes_active_total = count_rows (active_link_code now) db.link_codes;
    time = now;
  })
