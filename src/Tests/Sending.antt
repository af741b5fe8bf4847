-- ===== src/Tests/Sending.antt =====
-- An outbox with one packet of two attempts, and a server that does not answer.
use arqs.Outbox.Retry.{
  flush_entry-row, flush_times-dead_letter, next_row, flush_times, DeadAfter, has_id,
}
use arqs.Prelude.{find_row, arith, ◌≡◌, refl, none, some, [], ◌∷◌, true, false}
use arqs.Json.{end}
use arqs.Outbox.{
  classify_send_error, Enqueue, OutboxEntry, enqueue, queued, connection_error, bounded,
}
use arqs.Outbox.Flush.{flush_entry, Attempt, raised, flush_due}
use arqs.Outbox.WellFormed.{WellFormed, flush_due-WellFormed, enqueue-WellFormed}
use arqs.Transport.{Policy, Scheme, Probe, TransportResolution, https, http, allow_http}
use arqs.Transport

abbrev greeting : Enqueue
greeting = record {
  from_endpoint_id = 10;
  to_endpoint_id = 20;
  headers = end;
  body = some "hello";
  payload = end;
  meta = end;
  retry_policy = bounded;
  max_attempts = some 2;
  expires_after_seconds = none;
}

abbrev greeting_entry : OutboxEntry
greeting_entry = record {
  outbox_id = 1;
  packet_id = 40;
  from_endpoint_id = 10;
  to_endpoint_id = 20;
  headers = end;
  body = some "hello";
  payload = end;
  meta = end;
  status = queued;
  created_at = 100;
  updated_at = 100;
  next_attempt_at = 100;
  attempts = 0;
  max_attempts = some 2;
  expires_at = none;
  last_error = none;
}

enqueued : enqueue 100 1 40 greeting [] ≡ some (greeting_entry, greeting_entry ∷ [])
unfolding enqueue
enqueued = refl

enqueue-WellFormed_example : WellFormed (greeting_entry ∷ [])
enqueue-WellFormed_example =
    enqueue-WellFormed 100 1 40 greeting [] greeting_entry (greeting_entry ∷ []) enqueued
      (record { keys = tt; attempts = tt })

no_answer : OutboxEntry → Attempt
no_answer e = record {
  started = 100;
  outcome = raised connection_error;
  failed_at = 105;
  jitter = 3;
}

flush_due-WellFormed_example : WellFormed (flush_due no_answer 100 10 (greeting_entry ∷ [])).1
flush_due-WellFormed_example =
    flush_due-WellFormed no_answer 100 10 (greeting_entry ∷ [])
      (record { keys = (refl, tt); attempts = ((omega arith, λ w. omega arith), tt) })

-- A URL is its scheme; the host is local and only HTTP answers.
abbrev local_probe : Probe Scheme
local_probe = record {
  http_reachable = true;
  https_reachable = false;
  normalized_http_base_url = some http;
  normalized_https_base_url = some https;
}

abbrev over_http : TransportResolution Scheme
over_http = record {
  base_url = http;
  transport_policy = allow_http;
  allow_local_http_auth = true;
  remembers_http = true;
}

abbrev timeout : Attempt
timeout = record { started = 100; outcome = raised connection_error; failed_at = 105; jitter = 3 }

flush_entry-row_example :
    find_row (has_id 1) (flush_entry timeout greeting_entry (greeting_entry ∷ [])).1
    ≡ next_row timeout greeting_entry
flush_entry-row_example = flush_entry-row timeout greeting_entry (greeting_entry ∷ []) refl

flush_times-dead_letter_example :
    DeadAfter 2 1 (flush_times (timeout ∷ timeout ∷ []) 1 (greeting_entry ∷ []))
unfolding classify_send_error
flush_times-dead_letter_example =
    flush_times-dead_letter (timeout ∷ []) timeout 1 2 (greeting_entry ∷ []) greeting_entry refl
      refl refl refl (refl, (refl, tt))
