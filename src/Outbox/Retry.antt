-- ===== src/Outbox/Retry.antt =====
-- What a flush does to the row of its entry, and where a packet ends that is never delivered.
use arqs.Prelude.{
  subst, find_row-holds, ==→≡, leb, ℕ, suc, ◌+◌, ◌≡◌, refl, ◌∙◌, ap, Bool, true, false, Option,
  none, some, List, [], ◌∷◌, ◌==◌, if◌then◌else◌, length, find_row, update_rows, delete_rows, All,
  Bool-cases, inl, inr, arith,
}
use arqs.Outbox.{
  OutboxEntry, SendError, Message, expired_before_attempt, of_error, Status, queued, sending,
  dead_letter, retryable, permanent, classify_send_error, backoff_seconds, set_status,
  mark_dead_letter,
}
use arqs.Outbox.Flush.{
  Attempt, Outcome, sent, raised, flush_entry, after_send, begin_sending, handle_send_failure,
  can_retry, reached, should_retry,
}

abbrev pub has_id : ℕ → OutboxEntry → Bool
has_id id e = e.outbox_id == id

find_row-update_hit {ℓ} :
    {A : Type ℓ} (p : A → Bool) (f : A → A) (xs : List A) (x : A)
    → ((y : A) → p y ≡ true → p (f y) ≡ true)
    → find_row p xs ≡ some x
    → find_row p (update_rows p f xs) ≡ some (f x)
find_row-update_hit p f [] x keep h = absurd (ground arith)
find_row-update_hit p f (y ∷ xs) x keep h =
    ground (arith, find_row-update_hit p f xs x keep, keep y)

find_row-deleted {ℓ} :
    {A : Type ℓ} (p : A → Bool) (xs : List A) → find_row p (delete_rows p xs) ≡ none
find_row-deleted p [] = refl
find_row-deleted p (x ∷ xs) = ground (arith, find_row-deleted p xs)

-- A failed attempt, with its message.
abbrev pub retried : Attempt → SendError → OutboxEntry → OutboxEntry
retried a exc e = record e {
  status = queued;
  updated_at = a.failed_at;
  next_attempt_at = a.failed_at + backoff_seconds a.jitter (suc e.attempts);
  attempts = suc e.attempts;
  last_error = some (of_error exc);
}

abbrev pub dropped : ℕ → Message → ℕ → OutboxEntry → OutboxEntry
dropped now message attempts e = record e {
  status = dead_letter;
  updated_at = now;
  next_attempt_at = now;
  attempts = attempts;
  last_error = some message;
}

abbrev pub retries : Attempt → SendError → OutboxEntry → Bool
retries a exc e = should_retry (classify_send_error exc) (can_retry a.failed_at e (suc e.attempts))

abbrev pub next_after : Attempt → Outcome → OutboxEntry → Option OutboxEntry
next_after a sent e = none
next_after a (raised exc) e =
    if retries a exc e
    then some (retried a exc e)
    else some (dropped a.failed_at (of_error exc) (suc e.attempts) e)

-- The life of one entry, without its table: delivered and gone, dead, or waiting for another attempt.
abbrev pub next_row : Attempt → OutboxEntry → Option OutboxEntry
next_row a e =
    if reached e.expires_at a.started
    then some (dropped a.started expired_before_attempt e.attempts e)
    else next_after a a.outcome e

set_status-row :
    (now : ℕ) (status : Status) (n : ℕ) (next : Option ℕ) (err : Option Message) (id : ℕ)
    (table : List OutboxEntry) (e : OutboxEntry)
    → find_row (has_id id) table ≡ some e
    → find_row (has_id id) (set_status now id status n next err table)
      ≡ some (record e {
        status = status;
        updated_at = now;
        next_attempt_at = elim next [ none ↦ now | some t ↦ t ];
        attempts = n;
        last_error = err;
      })
unfolding set_status
set_status-row now status n next err id table e h =
    find_row-update_hit (has_id id) _ table e (λ y p. p) h

mark_dead_letter-row :
    (now : ℕ) (message : Message) (n : Option ℕ) (id : ℕ) (table : List OutboxEntry)
    (e : OutboxEntry)
    → find_row (has_id id) table ≡ some e
    → find_row (has_id id) (mark_dead_letter now id message n table)
      ≡ some (dropped now message (elim n [ none ↦ e.attempts | some k ↦ k ]) e)
unfolding mark_dead_letter
mark_dead_letter-row now message n id table e h =
    find_row-update_hit (has_id id) _ table e (λ y p. p) h

after_send-row :
    (a : Attempt) (e : OutboxEntry) (o : Outcome) (table : List OutboxEntry) (row : OutboxEntry)
    → find_row (has_id e.outbox_id) table ≡ some row
    → row ≡ record e { status = sending; updated_at = a.started; next_attempt_at = a.started }
    → find_row (has_id e.outbox_id) (after_send a e o table).1 ≡ next_after a o e
unfolding after_send handle_send_failure
after_send-row a e sent table row h same = find_row-deleted (has_id e.outbox_id) table
after_send-row a e (raised exc) table row h same = elim (Bool-cases (retries a exc e)) [
  | inl b ↦ rw b (
      set_status-row a.failed_at queued (suc e.attempts)
        (some (a.failed_at + backoff_seconds a.jitter (suc e.attempts))) (some (of_error exc))
        e.outbox_id table row h
      ∙ ap (λ (r : OutboxEntry). some (retried a exc (record r { attempts = e.attempts }))) same)
  | inr b ↦ rw b (
      mark_dead_letter-row a.failed_at (of_error exc) (some (suc e.attempts)) e.outbox_id table row
        h
      ∙ ap (λ (r : OutboxEntry). some (dropped a.failed_at (of_error exc) (suc e.attempts) r)) same)
]

-- A flush of an entry that the table has makes the entry's row what the life of one entry says: gone
-- when it was sent, a dead letter when it was expired or may not be retried, and otherwise queued
-- again with one attempt more.
pub flush_entry-row :
    (a : Attempt) (e : OutboxEntry) (table : List OutboxEntry)
    → find_row (has_id e.outbox_id) table ≡ some e
    → find_row (has_id e.outbox_id) (flush_entry a e table).1 ≡ next_row a e
unfolding flush_entry begin_sending
flush_entry-row a e table h = elim (Bool-cases (reached e.expires_at a.started)) [
  | inl b ↦ rw b (mark_dead_letter-row a.started expired_before_attempt none e.outbox_id table e h)
  | inr b ↦ rw b (
      after_send-row a e a.outcome _ _
        (set_status-row a.started sending e.attempts none e.last_error e.outbox_id table e h) refl)
]

-- The attempt fails with an error that is worth another one.
abbrev pub fails : Attempt → Bool
fails a = elim a.outcome [
  | sent ↦ false
  | raised exc ↦ elim (classify_send_error exc) [ retryable ↦ true | permanent ↦ false ]
]

-- One flush after the other of the entry with the id, each of the row as it then is.
unfoldable pub flush_times : List Attempt → ℕ → List OutboxEntry → List OutboxEntry
unfolding flush_entry
flush_times [] id table = table
flush_times (a ∷ rest) id table = elim (find_row (has_id id) table) [
  | none ↦ table
  | some e ↦ flush_times rest id (flush_entry a e table).1
]

outcome-fails :
    (a : Attempt) (e : OutboxEntry) (o : Outcome) (m : ℕ)
    → a.outcome ≡ o
    → fails a ≡ true
    → e.max_attempts ≡ some m
    → e.expires_at ≡ none
    → (exc : SendError) × (next_after a o e ≡ (
        if leb m (suc e.attempts)
        then some (dropped a.failed_at (of_error exc) (suc e.attempts) e)
        else some (retried a exc e)))
unfolding should_retry can_retry
outcome-fails a e sent m is f max ex = absurd (ground arith)
outcome-fails a e (raised exc) m is f max ex = (exc, ground arith)

next_row-fails :
    (a : Attempt) (e : OutboxEntry) (m : ℕ)
    → fails a ≡ true
    → e.max_attempts ≡ some m
    → e.expires_at ≡ none
    → (exc : SendError) × (next_row a e ≡ (
        if leb m (suc e.attempts)
        then some (dropped a.failed_at (of_error exc) (suc e.attempts) e)
        else some (retried a exc e)))
next_row-fails a e m f max ex =
    let (exc, next) = outcome-fails a e a.outcome m refl f max ex in
    (
      exc,
      ap {B = Option OutboxEntry}
            (λ (o : Option ℕ).
              if reached o a.started
              then some (dropped a.started expired_before_attempt e.attempts e)
              else next_after a a.outcome e)
            ex
          ∙ next,
    )

-- The row that is found by the id has that id.
flushed_row :
    (a : Attempt) (id : ℕ) (e : OutboxEntry) (table : List OutboxEntry)
    → find_row (has_id id) table ≡ some e
    → find_row (has_id id) (flush_entry a e table).1 ≡ next_row a e
flushed_row a id e table found =
    subst
      (λ i.
        find_row (has_id i) table ≡ some e
        → find_row (has_id i) (flush_entry a e table).1 ≡ next_row a e)
      (==→≡ e.outbox_id id (find_row-holds (has_id id) table e found)) (flush_entry-row a e table)
      found

-- The entry is a dead letter after m attempts.
abbrev pub DeadAfter : ℕ → ℕ → List OutboxEntry → Type 0
DeadAfter m id table =
    (e : OutboxEntry) × (find_row (has_id id) table ≡ some e)
    × (e.status ≡ dead_letter)
    × (e.attempts ≡ m)

flush_times-cons :
    (a : Attempt) (rest : List Attempt) (id : ℕ) (table : List OutboxEntry) (e : OutboxEntry)
    → find_row (has_id id) table ≡ some e
    → flush_times (a ∷ rest) id table ≡ flush_times rest id (flush_entry a e table).1
unfolding flush_times
flush_times-cons a rest id table e found =
    ap
      (λ (o : Option OutboxEntry). elim o as (λ _. List OutboxEntry) [
        | none ↦ table
        | some r ↦ flush_times rest id (flush_entry a r table).1
      ])
      found

-- A packet that cannot be delivered does not stay in the queue: an entry with m attempts at most that
-- never expires is a dead letter after m attempts, of which every one has failed with an error that
-- is worth a retry.
pub flush_times-dead_letter :
    (rest : List Attempt) (a : Attempt) (id m : ℕ) (table : List OutboxEntry) (e : OutboxEntry)
    → find_row (has_id id) table ≡ some e
    → e.max_attempts ≡ some m
    → e.expires_at ≡ none
    → e.attempts + length (a ∷ rest) ≡ m
    → All (λ b. fails b ≡ true) (a ∷ rest)
    → DeadAfter m id (flush_times (a ∷ rest) id table)
flush_times-dead_letter [] a id m table e found max ex count f =
    let (exc, next) = next_row-fails a e m f.0 max ex in
    (
      dropped a.failed_at (of_error exc) (suc e.attempts) e,
      rw (flush_times-cons a [] id table e found)
          (unfold flush_times in flushed_row a id e table found ∙ next ∙ ground (arith, count)),
      refl,
      omega (arith, count),
    )
flush_times-dead_letter (b ∷ rest) a id m table e found max ex count f =
    let (exc, next) = next_row-fails a e m f.0 max ex in
    rw (flush_times-cons a (b ∷ rest) id table e found) (
      flush_times-dead_letter rest b id m (flush_entry a e table).1 (retried a exc e)
        (flushed_row a id e table found ∙ next ∙ ground (arith, count)) max ex
        (omega (arith, count)) f.1)
