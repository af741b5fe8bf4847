-- ===== src/Config.antt =====
-- The settings that the handlers read: arqs-server/app/config.py (RetentionConfig, LimitsConfig,
-- RateLimitConfig, ObservabilityConfig, BlacklistConfig) and the row of runtime settings whose
-- defaults arqs-server/app/admin_services.py takes from them.
use arqs.Prelude.{ℕ, ◌*◌, Bool, false, String, str_eq, ◌||◌}

pub record RetentionConfig : Type 0 where
  pub default_packet_ttl_seconds : ℕ
  pub no_expiry : Bool
  pub link_code_ttl_seconds : ℕ

abbrev pub default_retention : RetentionConfig
default_retention = record {
  default_packet_ttl_seconds = 30 * 24 * 60 * 60;
  no_expiry = false;
  link_code_ttl_seconds = 10 * 60;
}

-- LimitsConfig and RateLimitConfig, the fields of `runtime_settings`
pub record RuntimeSettings : Type 0 where
  pub max_storage_bytes : ℕ
  pub max_packet_bytes : ℕ
  pub max_queued_packets_per_endpoint : ℕ
  pub max_queued_bytes_per_endpoint : ℕ
  pub max_queued_bytes_per_node : ℕ
  pub max_total_queued_packets : ℕ
  pub max_total_queued_bytes : ℕ
  pub max_inbox_batch : ℕ
  pub long_poll_max_seconds : ℕ
  pub send_window_seconds : ℕ
  pub max_sends_per_window : ℕ

abbrev pub default_settings : RuntimeSettings
default_settings = record {
  max_storage_bytes = 40 * 1024 * 1024 * 1024;
  max_packet_bytes = 256 * 1024;
  max_queued_packets_per_endpoint = 10_000;
  max_queued_bytes_per_endpoint = 1 * 1024 * 1024 * 1024;
  max_queued_bytes_per_node = 5 * 1024 * 1024 * 1024;
  max_total_queued_packets = 100_000;
  max_total_queued_bytes = 40 * 1024 * 1024 * 1024;
  max_inbox_batch = 200;
  long_poll_max_seconds = 30;
  send_window_seconds = 60;
  max_sends_per_window = 600;
}

-- _OBSERVABILITY_MODES
unfoldable pub is_observability_mode : String → Bool
is_observability_mode m = str_eq m "public" || str_eq m "node_api_key" || str_eq m "off"
