-- ===== src/Outbox/Flush.antt =====
-- _flush_entry, _handle_send_failure and what calls them, of apis/appkit/outbox.py.
use arqs.Prelude.{
  ℕ, suc, ◌+◌, Bool, true, false, Option, none, some, List, [], ◌∷◌, ◌==◌, leb, if◌then◌else◌,
  find_row, delete_rows,
}
use arqs.Outbox.{
  OutboxEntry, SendError, Message, expired_before_attempt, of_error, queued, sending, Class,
  retryable, permanent, classify_send_error, backoff_seconds, set_status, mark_dead_letter,
  select_due,
}

-- What the client's send_packet does: it returns or raises.
pub data Outcome : Type 0 where
  sent : Outcome
  raised : SendError → Outcome

-- One attempt: the time at its start, the outcome of the send, the time and the jitter after it.
pub record Attempt : Type 0 where
  pub started : ℕ
  pub outcome : Outcome
  pub failed_at : ℕ
  pub jitter : ℕ

-- SendResult.status
pub data ResultStatus : Type 0 where
  accepted_by_server still_queued dead missing : ResultStatus

pub record SendResult : Type 0 where
  pub packet_id : ℕ
  pub status : ResultStatus
  pub outbox_id : Option ℕ
  pub attempts : ℕ
  pub error : Option Message

abbrev pub reached : Option ℕ → ℕ → Bool
reached none n = false
reached (some limit) n = leb limit n

unfoldable pub can_retry : ℕ → OutboxEntry → ℕ → Bool
can_retry now entry attempts =
    if reached entry.max_attempts attempts
    then false
    else if reached entry.expires_at now
    then false
    else true

unfoldable pub should_retry : Class → Bool → Bool
should_retry retryable can = can
should_retry permanent can = false

unfoldable pub handle_send_failure :
    Attempt → OutboxEntry → SendError → List OutboxEntry → SendResult × List OutboxEntry
unfolding should_retry classify_send_error can_retry set_status backoff_seconds mark_dead_letter
handle_send_failure a entry exc table =
    let next_attempts = suc entry.attempts in
    if should_retry (classify_send_error exc) (can_retry a.failed_at entry next_attempts)
    then (
      record {
        packet_id = entry.packet_id;
        status = still_queued;
        outbox_id = some entry.outbox_id;
        attempts = next_attempts;
        error = some (of_error exc);
      },
      set_status a.failed_at entry.outbox_id queued next_attempts
          (some (a.failed_at + backoff_seconds a.jitter next_attempts)) (some (of_error exc)) table,
    )
    else (
      record {
        packet_id = entry.packet_id;
        status = dead;
        outbox_id = some entry.outbox_id;
        attempts = next_attempts;
        error = some (of_error exc);
      },
      mark_dead_letter a.failed_at entry.outbox_id (of_error exc) (some next_attempts) table,
    )

-- The row is marked before the client is called.
unfoldable pub begin_sending : ℕ → OutboxEntry → List OutboxEntry → List OutboxEntry
unfolding set_status
begin_sending now entry =
    set_status now entry.outbox_id sending entry.attempts none entry.last_error

unfoldable pub after_send :
    Attempt → OutboxEntry → Outcome → List OutboxEntry → SendResult × List OutboxEntry
unfolding handle_send_failure
after_send a entry (raised exc) table = handle_send_failure a entry exc table
after_send a entry sent table = (
  record {
    packet_id = entry.packet_id;
    status = accepted_by_server;
    outbox_id = some entry.outbox_id;
    attempts = suc entry.attempts;
    error = none;
  },
  delete_rows (λ e. e.outbox_id == entry.outbox_id) table,
)

unfoldable pub flush_entry :
    Attempt → OutboxEntry → List OutboxEntry → SendResult × List OutboxEntry
unfolding after_send begin_sending mark_dead_letter
flush_entry a entry table =
    if reached entry.expires_at a.started
    then (
      record {
        packet_id = entry.packet_id;
        status = dead;
        outbox_id = some entry.outbox_id;
        attempts = entry.attempts;
        error = some expired_before_attempt;
      },
      mark_dead_letter a.started entry.outbox_id expired_before_attempt none table,
    )
    else after_send a entry a.outcome (begin_sending a.started entry table)

-- `client` gives each selected entry its attempt.
unfoldable pub flush_entries :
    (OutboxEntry → Attempt)
    → List OutboxEntry
    → List OutboxEntry
    → List SendResult × List OutboxEntry
unfolding flush_entry
flush_entries client [] table = ([], table)
flush_entries client (e ∷ entries) table =
    let first = flush_entry (client e) e table in
    let rest = flush_entries client entries first.1 in (first.0 ∷ rest.0, rest.1)

unfoldable pub flush_due :
    (OutboxEntry → Attempt) → ℕ → ℕ → List OutboxEntry → List SendResult × List OutboxEntry
unfolding flush_entries select_due
flush_due client now limit table = flush_entries client (select_due now limit table) table

unfoldable pub get_by_packet_id : ℕ → List OutboxEntry → Option OutboxEntry
get_by_packet_id packet_id = find_row (λ e. e.packet_id == packet_id)

unfoldable pub flush_packet : Attempt → ℕ → List OutboxEntry → SendResult × List OutboxEntry
unfolding flush_entry get_by_packet_id
flush_packet a packet_id table = elim (get_by_packet_id packet_id table) [
  | none ↦ (
    record {
      packet_id = packet_id;
      status = missing;
      outbox_id = none;
      attempts = 0;
      error = none;
    },
    table,
  )
  | some entry ↦ flush_entry a entry table
]
