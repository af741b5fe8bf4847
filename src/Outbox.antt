-- ===== src/Outbox.antt =====
-- SQLiteOutbox of apis/appkit/outbox.py: the queue of a client that sends with retries. The table is
-- the list of its rows; ids are numbers and times are seconds. The message of an exception is the
-- exception itself. The client is a parameter: a function that gives the outcome of a send.
pub mod Flush
pub mod Attempts
pub mod Retry
pub mod WellFormed
pub mod Keys
use arqs.Prelude.{
  ℕ, suc, ◌+◌, ◌^◌, min, Bool, true, false, ◌&&◌, ◌||◌, not, Option, none, some, List, [], ◌∷◌,
  ◌++◌, String, ◌==◌, leb, if◌then◌else◌, has_row, find_row, select_rows, delete_rows, update_rows,
  order_by, order_by_desc, take,
}
use arqs.Json.{Fields}

pub data RetryPolicy : Type 0 where
  once bounded until_expired forever : RetryPolicy

-- The exceptions that classify_send_error tells apart, in the order of its tests. An HTTP error has
-- its status code.
pub data SendError : Type 0 where
  http_error : ℕ → SendError
  connection_error insecure_transport value_or_type_error arqs_error other_error : SendError

pub data Message : Type 0 where
  expired_before_attempt : Message
  of_error : SendError → Message

-- OutboxEntry.status
pub data Status : Type 0 where
  queued sending failed dead_letter : Status

pub record OutboxEntry : Type 0 where
  pub outbox_id : ℕ
  pub packet_id : ℕ
  pub from_endpoint_id : ℕ
  pub to_endpoint_id : ℕ
  pub headers : Fields
  pub body : Option String
  pub payload : Fields
  pub meta : Fields
  pub status : Status
  pub created_at : ℕ
  pub updated_at : ℕ
  pub next_attempt_at : ℕ
  pub attempts : ℕ
  pub max_attempts : Option ℕ
  pub expires_at : Option ℕ
  pub last_error : Option Message

pub data Class : Type 0 where
  retryable permanent : Class

unfoldable pub classify_send_error : SendError → Class
classify_send_error (http_error code) =
    if (code == 429) || (code == 500) || (code == 502) || (code == 503) || (code == 504)
    then retryable
    else permanent
classify_send_error connection_error = retryable
classify_send_error insecure_transport = permanent
classify_send_error value_or_type_error = permanent
classify_send_error arqs_error = permanent
classify_send_error other_error = retryable

-- `jitter` is random.randint(0, 5).
unfoldable pub backoff_seconds : ℕ → ℕ → ℕ
backoff_seconds jitter attempts =
    if leb attempts 1
    then 0
    else if attempts == 2
    then 10
    else if attempts == 3
    then 30
    else if attempts == 4
    then 60
    else min 300 (2 ^ min attempts 8) + jitter

-- The arguments of enqueue; `max_attempts` and `expires_after_seconds` may be None.
pub record Enqueue : Type 0 where
  pub from_endpoint_id : ℕ
  pub to_endpoint_id : ℕ
  pub headers : Fields
  pub body : Option String
  pub payload : Fields
  pub meta : Fields
  pub retry_policy : RetryPolicy
  pub max_attempts : Option ℕ
  pub expires_after_seconds : Option ℕ

unfoldable pub normalized_max_attempts : RetryPolicy → Option ℕ → Option ℕ
normalized_max_attempts once max = some 1
normalized_max_attempts forever max = none
normalized_max_attempts _ max = max

unfoldable pub normalized_expiry : RetryPolicy → Option ℕ → Option ℕ
normalized_expiry forever seconds = none
normalized_expiry _ seconds = seconds

-- None and 0 are no expiry.
unfoldable pub entry_expiry : ℕ → Option ℕ → Option ℕ
entry_expiry created_at none = none
entry_expiry created_at (some seconds) = if seconds == 0 then none else some (created_at + seconds)

unfoldable pub new_entry : ℕ → ℕ → ℕ → Enqueue → OutboxEntry
unfolding normalized_max_attempts normalized_expiry entry_expiry
new_entry now outbox_id packet_id req = record {
  outbox_id = outbox_id;
  packet_id = packet_id;
  from_endpoint_id = req.from_endpoint_id;
  to_endpoint_id = req.to_endpoint_id;
  headers = req.headers;
  body = req.body;
  payload = req.payload;
  meta = req.meta;
  status = queued;
  created_at = now;
  updated_at = now;
  next_attempt_at = now;
  attempts = 0;
  max_attempts = normalized_max_attempts req.retry_policy req.max_attempts;
  expires_at = entry_expiry now (normalized_expiry req.retry_policy req.expires_after_seconds);
  last_error = none;
}

-- `none` is the IntegrityError of a key that the table has.
unfoldable pub enqueue :
    ℕ → ℕ → ℕ → Enqueue → List OutboxEntry → Option (OutboxEntry × List OutboxEntry)
unfolding new_entry
enqueue now outbox_id packet_id req table =
    if has_row (λ e. (e.outbox_id == outbox_id) || (e.packet_id == packet_id)) table
    then none
    else some
        (new_entry now outbox_id packet_id req, table ++ new_entry now outbox_id packet_id req ∷ [])

-- `next_attempt_at or utc_now()`
unfoldable pub set_status :
    ℕ → ℕ → Status → ℕ → Option ℕ → Option Message → List OutboxEntry → List OutboxEntry
set_status now outbox_id status attempts next_attempt_at last_error =
    update_rows (λ e. e.outbox_id == outbox_id)
      (λ e. record e {
        status = status;
        updated_at = now;
        next_attempt_at = elim next_attempt_at [ none ↦ now | some t ↦ t ];
        attempts = attempts;
        last_error = last_error;
      })

unfoldable pub mark_dead_letter : ℕ → ℕ → Message → Option ℕ → List OutboxEntry → List OutboxEntry
mark_dead_letter now outbox_id last_error attempts =
    update_rows (λ e. e.outbox_id == outbox_id)
      (λ e. record e {
        status = dead_letter;
        updated_at = now;
        next_attempt_at = now;
        attempts = elim attempts [ none ↦ e.attempts | some n ↦ n ];
        last_error = some last_error;
      })

abbrev pub is_waiting : Status → Bool
is_waiting queued = true
is_waiting failed = true
is_waiting _ = false

abbrev pub is_dead : Status → Bool
is_dead dead_letter = true
is_dead _ = false

unfoldable pub select_due : ℕ → ℕ → List OutboxEntry → List OutboxEntry
select_due now limit table = take limit (
    order_by (λ e. e.created_at)
      (select_rows (λ e. is_waiting e.status && leb e.next_attempt_at now) table))

unfoldable pub list_dead_letters : ℕ → List OutboxEntry → List OutboxEntry
list_dead_letters limit table =
    take limit (order_by_desc (λ e. e.updated_at) (select_rows (λ e. is_dead e.status) table))
