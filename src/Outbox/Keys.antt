-- ===== src/Outbox/Keys.antt =====
-- The keys of the outbox: each id names one row, before and after every operation.
use arqs.Prelude.{
  ◌∙◌, ℕ, suc, ◌+◌, ◌≡◌, refl, inl, inr, Bool, false, ◌||◌, Option, none, some, List, [], ◌∷◌, ◌++◌,
  ◌==◌, has_row, update_rows, delete_rows, has_row-update_other, has_row-insert,
  has_row-delete_none, Bool-cases, arith,
}
use arqs.Outbox.{
  OutboxEntry, Message, of_error, expired_before_attempt, Status, queued, sending, set_status,
  mark_dead_letter, classify_send_error, backoff_seconds, enqueue, new_entry, Enqueue,
}
use arqs.Outbox.Flush.{
  Attempt, Outcome, sent, raised, flush_entry, flush_entries, after_send, begin_sending,
  handle_send_failure, can_retry, reached, should_retry,
}

abbrev pub same_key : OutboxEntry → OutboxEntry → Bool
same_key e r = (r.outbox_id == e.outbox_id) || (r.packet_id == e.packet_id)

-- An id of the table names one row.
abbrev pub HasUniqueEntries : List OutboxEntry → Type 0
HasUniqueEntries [] = Unit
HasUniqueEntries (e ∷ es) = (has_row (same_key e) es ≡ false) × HasUniqueEntries es

update-HasUniqueEntries :
    (p : OutboxEntry → Bool) (f : OutboxEntry → OutboxEntry) (es : List OutboxEntry)
    → ((e : OutboxEntry) → (f e).outbox_id ≡ e.outbox_id)
    → ((e : OutboxEntry) → (f e).packet_id ≡ e.packet_id)
    → HasUniqueEntries es
    → HasUniqueEntries (update_rows p f es)
update-HasUniqueEntries p f [] out pkt u = tt
update-HasUniqueEntries p f (e ∷ es) out pkt u = (
  elim (Bool-cases (p e)) [
    | inl b ↦
        rw (b, out e, pkt e)
          (has_row-update_other p f (same_key e) es (λ r. rw (out r, pkt r) refl) ∙ u.0)
    | inr b ↦ rw b (has_row-update_other p f (same_key e) es (λ r. rw (out r, pkt r) refl) ∙ u.0)
  ],
  update-HasUniqueEntries p f es out pkt u.1,
)

delete-HasUniqueEntries :
    (p : OutboxEntry → Bool) (es : List OutboxEntry)
    → HasUniqueEntries es
    → HasUniqueEntries (delete_rows p es)
delete-HasUniqueEntries p [] u = tt
delete-HasUniqueEntries p (e ∷ es) u = elim (Bool-cases (p e)) [
  | inl b ↦ rw b (delete-HasUniqueEntries p es u.1)
  | inr b ↦ rw b (has_row-delete_none p (same_key e) es u.0, delete-HasUniqueEntries p es u.1)
]

pub set_status-HasUniqueEntries :
    (now id : ℕ) (status : Status) (n : ℕ) (next : Option ℕ) (err : Option Message)
    (table : List OutboxEntry)
    → HasUniqueEntries table
    → HasUniqueEntries (set_status now id status n next err table)
unfolding set_status
set_status-HasUniqueEntries now id status n next err table u =
    update-HasUniqueEntries (λ r. r.outbox_id == id) _ table (λ e. refl) (λ e. refl) u

mark_dead_letter-HasUniqueEntries :
    (now id : ℕ) (err : Message) (n : Option ℕ) (table : List OutboxEntry)
    → HasUniqueEntries table
    → HasUniqueEntries (mark_dead_letter now id err n table)
unfolding mark_dead_letter
mark_dead_letter-HasUniqueEntries now id err n table u =
    update-HasUniqueEntries (λ r. r.outbox_id == id) _ table (λ e. refl) (λ e. refl) u

after_send-HasUniqueEntries :
    (a : Attempt) (e : OutboxEntry) (o : Outcome) (table : List OutboxEntry)
    → HasUniqueEntries table
    → HasUniqueEntries (after_send a e o table).1
unfolding after_send handle_send_failure
after_send-HasUniqueEntries a e sent table u =
    delete-HasUniqueEntries (λ r. r.outbox_id == e.outbox_id) table u
after_send-HasUniqueEntries a e (raised exc) table u =
    let n = suc e.attempts in
    elim (Bool-cases (should_retry (classify_send_error exc) (can_retry a.failed_at e n))) [
      | inl b ↦ rw b (
          set_status-HasUniqueEntries a.failed_at e.outbox_id queued n
            (some (a.failed_at + backoff_seconds a.jitter n)) (some (of_error exc)) table u)
      | inr b ↦ rw b (
          mark_dead_letter-HasUniqueEntries a.failed_at e.outbox_id (of_error exc) (some n) table u)
    ]

pub flush_entry-HasUniqueEntries :
    (a : Attempt) (e : OutboxEntry) (table : List OutboxEntry)
    → HasUniqueEntries table
    → HasUniqueEntries (flush_entry a e table).1
unfolding flush_entry begin_sending
flush_entry-HasUniqueEntries a e table u = elim (Bool-cases (reached e.expires_at a.started)) [
  | inl b ↦
      rw b (
        mark_dead_letter-HasUniqueEntries a.started e.outbox_id expired_before_attempt none table u)
  | inr b ↦ rw b (
      after_send-HasUniqueEntries a e a.outcome _ (
        set_status-HasUniqueEntries a.started e.outbox_id sending e.attempts none e.last_error table
          u))
]

pub flush_entries-HasUniqueEntries :
    (client : OutboxEntry → Attempt) (entries table : List OutboxEntry)
    → HasUniqueEntries table
    → HasUniqueEntries (flush_entries client entries table).1
unfolding flush_entries
flush_entries-HasUniqueEntries client [] table u = u
flush_entries-HasUniqueEntries client (e ∷ entries) table u =
    flush_entries-HasUniqueEntries client entries (flush_entry (client e) e table).1
      (flush_entry-HasUniqueEntries (client e) e table u)

insert-HasUniqueEntries :
    (es : List OutboxEntry) (x : OutboxEntry)
    → has_row (same_key x) es ≡ false
    → HasUniqueEntries es
    → HasUniqueEntries (es ++ x ∷ [])
insert-HasUniqueEntries [] x h u = (refl, tt)
insert-HasUniqueEntries (e ∷ es) x h u = (
  ground (arith, has_row-insert (same_key e) es x, u.0),
  insert-HasUniqueEntries es x (ground arith) u.1,
)

-- What an accepted enqueue has checked and done.
pub record Enqueued (now id packet_id : ℕ) (req : Enqueue) (table : List OutboxEntry)
    (e : OutboxEntry) (table' : List OutboxEntry) : Type 0 where
  pub entry : e ≡ new_entry now id packet_id req
  pub stored : table' ≡ table ++ new_entry now id packet_id req ∷ []
  pub fresh : has_row (λ r. (r.outbox_id == id) || (r.packet_id == packet_id)) table ≡ false

pub enqueue-Enqueued :
    (now id packet_id : ℕ) (req : Enqueue) (table : List OutboxEntry) (e : OutboxEntry)
    (table' : List OutboxEntry)
    → enqueue now id packet_id req table ≡ some (e, table')
    → Enqueued now id packet_id req table e table'
unfolding enqueue
enqueue-Enqueued now id packet_id req table e table' h = record {
  entry = ground arith;
  stored = ground arith;
  fresh = ground arith;
}

pub enqueue-HasUniqueEntries :
    (now id packet_id : ℕ) (req : Enqueue) (table : List OutboxEntry) (e : OutboxEntry)
    (table' : List OutboxEntry)
    → enqueue now id packet_id req table ≡ some (e, table')
    → HasUniqueEntries table
    → HasUniqueEntries table'
unfolding new_entry
enqueue-HasUniqueEntries now id packet_id req table e table' h u =
    let a = enqueue-Enqueued now id packet_id req table e table' h in
    rw a.stored (insert-HasUniqueEntries table (new_entry now id packet_id req) a.fresh u)
