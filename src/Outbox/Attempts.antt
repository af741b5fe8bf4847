-- ===== src/Outbox/Attempts.antt =====
-- The number of attempts that the background flush makes for a packet.
use arqs.Prelude.{
  false≢true, ℕ, suc, ◌+◌, ◌<◌, ◌≤◌, ◌≡◌, refl, inl, inr, Bool, true, false, Option, none, some,
  List, [], ◌∷◌, ◌==◌, leb, if◌then◌else◌, update_rows, All, All-imp, All-update, All-delete,
  Bool-cases, arith,
}
use arqs.Outbox.{
  of_error, backoff_seconds, classify_send_error, expired_before_attempt, SendError, OutboxEntry,
  Status, queued, sending, Message, is_waiting, set_status, mark_dead_letter, Class, retryable,
  permanent,
}
use arqs.Outbox.Flush.{
  Attempt, Outcome, sent, raised, flush_entry, flush_entries, after_send, begin_sending,
  handle_send_failure, can_retry, reached, should_retry,
}

-- An entry is always sent once, whatever its limit says.
abbrev pub bound : ℕ → ℕ
bound m = if leb m 1 then 1 else m

abbrev Below : ℕ → Option ℕ → Type 0
Below n none = Unit
Below n (some m) = n < bound m

abbrev UpTo : ℕ → Option ℕ → Type 0
UpTo n none = Unit
UpTo n (some m) = n ≤ bound m

-- No more attempts than the limit, and fewer while the flush may still select the entry.
abbrev pub Within : OutboxEntry → Type 0
Within e =
    UpTo e.attempts e.max_attempts × (is_waiting e.status ≡ true → Below e.attempts e.max_attempts)

-- The rows with the entry's id have its limit.
abbrev pub Agrees : OutboxEntry → List OutboxEntry → Type 0
Agrees e = All (λ r. (r.outbox_id == e.outbox_id) ≡ true → r.max_attempts ≡ e.max_attempts)

if_both {ℓ κ} :
    {A : Type ℓ} (P : A → Type κ) (b : Bool) (x y : A)
    → (b ≡ true → P x)
    → (b ≡ false → P y)
    → P (if b then x else y)
if_both P true x y hx hy = hx refl
if_both P false x y hx hy = hy refl

All-update_with {ℓ κ μ} :
    {A : Type ℓ} (p : A → Bool) (f : A → A) (Q : A → Type κ) (P : A → Type μ) (xs : List A)
    → ((x : A) → p x ≡ true → Q x → P x → P (f x))
    → All Q xs
    → All P xs
    → All P (update_rows p f xs)
All-update_with p f Q P [] h q a = tt
All-update_with p f Q P (x ∷ xs) h q a =
    (if_both P (p x) (f x) x (λ e. h x e q.0 a.0) (λ e. a.0), All-update_with p f Q P xs h q.1 a.1)

UpTo-suc : (n : ℕ) (o : Option ℕ) → Below n o → UpTo (suc n) o
UpTo-suc n none h = tt
UpTo-suc n (some m) h = h

pub Below-zero : (o : Option ℕ) → Below 0 o
Below-zero none = tt
Below-zero (some m) = ground arith

pub UpTo-Below : (n : ℕ) (o : Option ℕ) → Below n o → UpTo n o
UpTo-Below n none h = tt
UpTo-Below n (some m) h = omega (arith, h)

Below-reached : (n : ℕ) (o : Option ℕ) → reached o n ≡ false → Below n o
Below-reached n none h = tt
Below-reached n (some m) h = ground arith

can_retry-Below : (now n : ℕ) (e : OutboxEntry) → can_retry now e n ≡ true → Below n e.max_attempts
unfolding can_retry
can_retry-Below now n e h = Below-reached n e.max_attempts (ground arith)

module _ (e : OutboxEntry) (table : List OutboxEntry) (agrees : Agrees e table)
    (within : All Within table) where
  set_status-Within :
      (now : ℕ) (status : Status) (n : ℕ) (next : Option ℕ) (err : Option Message)
      → UpTo n e.max_attempts
      → (is_waiting status ≡ true → Below n e.max_attempts)
      → All Within (set_status now e.outbox_id status n next err table)
  unfolding set_status
  set_status-Within now status n next err up below =
      All-update_with (λ r. r.outbox_id == e.outbox_id) _ _ Within table
        (λ r same q h. rw (q same) (up, below)) agrees within

  mark_dead_letter-Within :
      (now : ℕ) (err : Message) (n : ℕ)
      → UpTo n e.max_attempts
      → All Within (mark_dead_letter now e.outbox_id err (some n) table)
  unfolding mark_dead_letter
  mark_dead_letter-Within now err n up =
      All-update_with (λ r. r.outbox_id == e.outbox_id) _ _ Within table
        (λ r same q h. rw (q same) (up, λ w. absurd (false≢true w))) agrees within

  expired-Within :
      (now : ℕ) (err : Message) → All Within (mark_dead_letter now e.outbox_id err none table)
  unfolding mark_dead_letter
  expired-Within now err =
      All-update_with (λ r. r.outbox_id == e.outbox_id) _ _ Within table
        (λ r same q h. (h.0, λ w. absurd (false≢true w))) agrees within

-- Updates and deletes keep the ids and the limits of the rows.
module _ (k : OutboxEntry) where
  set_status-Agrees :
      (now id : ℕ) (status : Status) (n : ℕ) (next : Option ℕ) (err : Option Message)
      (table : List OutboxEntry)
      → Agrees k table
      → Agrees k (set_status now id status n next err table)
  unfolding set_status
  set_status-Agrees now id status n next err table h =
      All-update (λ r. r.outbox_id == id) _ _ table (λ r q. q) h

  mark_dead_letter-Agrees :
      (now id : ℕ) (err : Message) (n : Option ℕ) (table : List OutboxEntry)
      → Agrees k table
      → Agrees k (mark_dead_letter now id err n table)
  unfolding mark_dead_letter
  mark_dead_letter-Agrees now id err n table h =
      All-update (λ r. r.outbox_id == id) _ _ table (λ r q. q) h

should_retry-true : (c : Class) (b : Bool) → should_retry c b ≡ true → b ≡ true
unfolding should_retry
should_retry-true retryable b h = h
should_retry-true permanent b h = absurd (false≢true h)

handle_send_failure-Agrees :
    (k : OutboxEntry) (a : Attempt) (e : OutboxEntry) (exc : SendError) (table : List OutboxEntry)
    → Agrees k table
    → Agrees k (handle_send_failure a e exc table).1
unfolding handle_send_failure
handle_send_failure-Agrees k a e exc table h =
    elim (Bool-cases
      (should_retry (classify_send_error exc) (can_retry a.failed_at e (suc e.attempts)))) [
        | inl b ↦ rw b (
            set_status-Agrees k a.failed_at e.outbox_id queued (suc e.attempts)
              (some (a.failed_at + backoff_seconds a.jitter (suc e.attempts))) (some (of_error exc))
              table h)
        | inr b ↦ rw b (
            mark_dead_letter-Agrees k a.failed_at e.outbox_id (of_error exc) (some (suc e.attempts))
              table h)
      ]

after_send-Agrees :
    (k : OutboxEntry) (a : Attempt) (e : OutboxEntry) (o : Outcome) (table : List OutboxEntry)
    → Agrees k table
    → Agrees k (after_send a e o table).1
unfolding after_send
after_send-Agrees k a e sent table h = All-delete (λ r. r.outbox_id == e.outbox_id) _ table h
after_send-Agrees k a e (raised exc) table h = handle_send_failure-Agrees k a e exc table h

flush_entry-Agrees :
    (k : OutboxEntry) (a : Attempt) (e : OutboxEntry) (table : List OutboxEntry)
    → Agrees k table
    → Agrees k (flush_entry a e table).1
unfolding flush_entry begin_sending
flush_entry-Agrees k a e table h = elim (Bool-cases (reached e.expires_at a.started)) [
  | inl b ↦
      rw b (mark_dead_letter-Agrees k a.started e.outbox_id expired_before_attempt none table h)
  | inr b ↦ rw b (
      after_send-Agrees k a e a.outcome _
        (set_status-Agrees k a.started e.outbox_id sending e.attempts none e.last_error table h))
]

handle_send_failure-Within :
    (a : Attempt) (e : OutboxEntry) (exc : SendError) (table : List OutboxEntry)
    → Below e.attempts e.max_attempts
    → Agrees e table
    → All Within table
    → All Within (handle_send_failure a e exc table).1
unfolding handle_send_failure
handle_send_failure-Within a e exc table below agrees h =
    let up = UpTo-suc e.attempts e.max_attempts below in
    elim (Bool-cases
      (should_retry (classify_send_error exc) (can_retry a.failed_at e (suc e.attempts)))) [
        | inl b ↦ rw b (
            set_status-Within e table agrees h a.failed_at queued (suc e.attempts)
              (some (a.failed_at + backoff_seconds a.jitter (suc e.attempts))) (some (of_error exc))
              up
              (λ w. can_retry-Below a.failed_at (suc e.attempts) e (
                should_retry-true (classify_send_error exc)
                  (can_retry a.failed_at e (suc e.attempts)) b)))
        | inr b ↦ rw b (
            mark_dead_letter-Within e table agrees h a.failed_at (of_error exc) (suc e.attempts) up)
      ]

after_send-Within :
    (a : Attempt) (e : OutboxEntry) (o : Outcome) (table : List OutboxEntry)
    → Below e.attempts e.max_attempts
    → Agrees e table
    → All Within table
    → All Within (after_send a e o table).1
unfolding after_send
after_send-Within a e sent table below agrees h =
    All-delete (λ r. r.outbox_id == e.outbox_id) Within table h
after_send-Within a e (raised exc) table below agrees h =
    handle_send_failure-Within a e exc table below agrees h

flush_entry-Within :
    (a : Attempt) (e : OutboxEntry) (table : List OutboxEntry)
    → Below e.attempts e.max_attempts
    → Agrees e table
    → All Within table
    → All Within (flush_entry a e table).1
unfolding flush_entry begin_sending
flush_entry-Within a e table below agrees h =
    let up = UpTo-Below e.attempts e.max_attempts below in
    elim (Bool-cases (reached e.expires_at a.started)) [
      | inl b ↦ rw b (expired-Within e table agrees h a.started expired_before_attempt)
      | inr b ↦ rw b (
          after_send-Within a e a.outcome _ below
            (set_status-Agrees e a.started e.outbox_id sending e.attempts none e.last_error table
              agrees)
            (set_status-Within e table agrees h a.started sending e.attempts none e.last_error up
              (λ w. absurd (false≢true w))))
    ]

-- The entry may be attempted again, and the table has its limit.
abbrev pub Ready : List OutboxEntry → OutboxEntry → Type 0
Ready table e = Below e.attempts e.max_attempts × Agrees e table

pub flush_entries-Within :
    (client : OutboxEntry → Attempt) (entries table : List OutboxEntry)
    → All (Ready table) entries
    → All Within table
    → All Within (flush_entries client entries table).1
unfolding flush_entries
flush_entries-Within client [] table ready h = h
flush_entries-Within client (e ∷ entries) table ready h =
    flush_entries-Within client entries (flush_entry (client e) e table).1
      (All-imp (Ready table) _ entries (λ k r. (r.0, flush_entry-Agrees k (client e) e table r.1))
        ready.1)
      (flush_entry-Within (client e) e table ready.0.0 ready.0.1 h)
