-- ===== src/Outbox/WellFormed.antt =====
-- The invariant of the outbox and the operations that keep it.
use arqs.Outbox.Keys.{
  enqueue-Enqueued, HasUniqueEntries, enqueue-HasUniqueEntries, flush_entries-HasUniqueEntries,
  same_key,
}
use arqs.Prelude.{
  and→left, ◌&&◌, zero, false≢true, ℕ, suc, ◌≡◌, refl, sym, ◌∙◌, inl, inr, Bool, true, false, some,
  List, [], ◌∷◌, ◌==◌, leb, has_row, select_rows, order_by, insert_by, take, All, All-imp,
  All-insert, Bool-cases, arith,
}
use arqs.Outbox.{OutboxEntry, Enqueue, is_waiting, select_due, enqueue, new_entry}
use arqs.Outbox.Flush.{Attempt, flush_due}
use arqs.Outbox.Attempts.{UpTo-Below, flush_entries-Within, Agrees, Ready, Below-zero, Within}

module _ {ℓ κ} {A : Type ℓ} (P : A → Type κ) where
  All-take : (n : ℕ) (xs : List A) → All P xs → All P (take n xs)
  All-take zero xs h = tt
  All-take (suc n) [] h = tt
  All-take (suc n) (x ∷ xs) h = (h.0, All-take n xs h.1)

  All-insert_by : (k : A → ℕ) (x : A) (xs : List A) → P x → All P xs → All P (insert_by k x xs)
  All-insert_by k x [] hx h = (hx, tt)
  All-insert_by k x (y ∷ xs) hx h = elim (Bool-cases (leb (k x) (k y))) [
    | inl b ↦ rw b (hx, h)
    | inr b ↦ rw b (h.0, All-insert_by k x xs hx h.1)
  ]

  All-order_by : (k : A → ℕ) (xs : List A) → All P xs → All P (order_by k xs)
  All-order_by k [] h = tt
  All-order_by k (x ∷ xs) h = All-insert_by k x (order_by k xs) h.0 (All-order_by k xs h.1)

-- The rows that a query selects satisfy it.
All-selected {ℓ κ} :
    {A : Type ℓ} (P Q : A → Type κ) (p : A → Bool) (xs : List A)
    → ((x : A) → p x ≡ true → P x → Q x)
    → All P xs
    → All Q (select_rows p xs)
All-selected P Q p [] f h = tt
All-selected P Q p (x ∷ xs) f h = elim (Bool-cases (p x)) [
  | inl b ↦ rw b (f x b h.0, All-selected P Q p xs f h.1)
  | inr b ↦ rw b (All-selected P Q p xs f h.1)
]

other_key :
    (e : OutboxEntry) (es : List OutboxEntry)
    → has_row (same_key e) es ≡ false
    → All (λ r. ((r.outbox_id == e.outbox_id) ≡ false) × ((e.outbox_id == r.outbox_id) ≡ false)) es
other_key e [] h = tt
other_key e (r ∷ es) h = ((ground arith, ground arith), other_key e es (ground arith))

Agrees-cons :
    (e : OutboxEntry) (es all : List OutboxEntry)
    → All (λ r. ((r.outbox_id == e.outbox_id) ≡ false) × ((e.outbox_id == r.outbox_id) ≡ false)) es
    → All (λ k. Agrees k all) es
    → All (λ k. Agrees k (e ∷ all)) es
Agrees-cons e [] all n h = tt
Agrees-cons e (r ∷ es) all n h =
    ((λ same. absurd (false≢true (sym n.0.1 ∙ same)), h.0), Agrees-cons e es all n.1 h.1)

-- With unique ids every row agrees with the table.
Agrees-All : (table : List OutboxEntry) → HasUniqueEntries table → All (λ k. Agrees k table) table
Agrees-All [] u = tt
Agrees-All (e ∷ es) u =
    let others = other_key e es u.0 in
    (
      (λ same. refl, All-imp _ _ es (λ r n same. absurd (false≢true (sym n.0 ∙ same))) others),
      Agrees-cons e es es others (Agrees-All es u.1),
    )

All-and {ℓ κ μ} :
    {A : Type ℓ} (P : A → Type κ) (Q : A → Type μ) (xs : List A)
    → All P xs
    → All Q xs
    → All (λ x. P x × Q x) xs
All-and P Q [] h k = tt
All-and P Q (x ∷ xs) h k = ((h.0, k.0), All-and P Q xs h.1 k.1)

-- The rows that a flush selects may be attempted again.
select_due-Ready :
    (now limit : ℕ) (table : List OutboxEntry)
    → HasUniqueEntries table
    → All Within table
    → All (Ready table) (select_due now limit table)
unfolding select_due
select_due-Ready now limit table u h = All-take (Ready table) limit _ (
    All-order_by (Ready table) (λ e. e.created_at) _
      (All-selected (λ e. Within e × Agrees e table) (Ready table)
        (λ e. is_waiting e.status && leb e.next_attempt_at now) table
        (λ e b w. (w.0.1 (and→left (is_waiting e.status) _ b), w.1))
        (All-and Within (λ e. Agrees e table) table h (Agrees-All table u))))

-- The invariant of the outbox: keys are unique, no entry has more attempts than its limit allows (or
-- than one), and an entry that waits has fewer.
pub record WellFormed (table : List OutboxEntry) : Type 0 where
  pub keys : HasUniqueEntries table
  pub attempts : All Within table

-- A flush keeps the invariant, whatever the client does with each send: no packet is attempted more
-- often than its limit (and at least once), and what waits for another attempt has one left.
pub flush_due-WellFormed :
    (client : OutboxEntry → Attempt) (now limit : ℕ) (table : List OutboxEntry)
    → WellFormed table
    → WellFormed (flush_due client now limit table).1
unfolding flush_due
flush_due-WellFormed client now limit table w = record {
  keys = flush_entries-HasUniqueEntries client (select_due now limit table) table w.keys;
  attempts =
      flush_entries-Within client (select_due now limit table) table
        (select_due-Ready now limit table w.keys w.attempts) w.attempts;
}

new_entry-Within : (now id packet_id : ℕ) (req : Enqueue) → Within (new_entry now id packet_id req)
unfolding new_entry
new_entry-Within now id packet_id req = (UpTo-Below 0 _ (Below-zero _), λ w. Below-zero _)

-- An accepted enqueue keeps the invariant.
pub enqueue-WellFormed :
    (now id packet_id : ℕ) (req : Enqueue) (table : List OutboxEntry) (e : OutboxEntry)
    (table' : List OutboxEntry)
    → enqueue now id packet_id req table ≡ some (e, table')
    → WellFormed table
    → WellFormed table'
enqueue-WellFormed now id packet_id req table e table' h w = record {
  keys = enqueue-HasUniqueEntries now id packet_id req table e table' h w.keys;
  attempts =
      rw (enqueue-Enqueued now id packet_id req table e table' h).stored
        (All-insert Within table _ w.attempts (new_entry-Within now id packet_id req));
}
