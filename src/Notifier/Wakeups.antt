-- ===== src/Notifier/Wakeups.antt =====
-- A waiting future, and what a notification does to it.
use arqs.Prelude.{
  ℕ, suc, ◌<◌, ◌≡◌, refl, ◌⊎◌, inl, inr, Bool, true, false, Option, some, List, [], ◌∷◌, ◌==◌, ==→≡,
  if◌then◌else◌, has_row, Bool-cases, arith, has_row-insert, find_row-insert_old,
  find_row-insert_new,
}
use arqs.Notifier.{
  Notifier, Slot, Event, get_slot, put_slot, is_done, result_of, set_results, remove_waiter,
  notify_in_loop, run_calls, wait, timed_out, clean_up,
}

abbrev pub waits : ℕ → List ℕ → Bool
waits f fs = has_row (λ g. g == f) fs

pub get_slot-node_id : (n : ℕ) (slots : List Slot) → (get_slot n slots).node_id ≡ n
unfolding get_slot
get_slot-node_id n [] = refl
get_slot-node_id n (s ∷ slots) = ground (arith, get_slot-node_id n slots)

pub get_slot-put_slot :
    (n : ℕ) (t : Slot) (slots : List Slot)
    → get_slot n (put_slot t slots) ≡ (if t.node_id == n then t else get_slot n slots)
unfolding get_slot put_slot
get_slot-put_slot n t [] = ground arith
get_slot-put_slot n t (s ∷ slots) = ground (arith, get_slot-put_slot n t slots)

-- Putting back a slot with another list of waiters.
get_slot-put_same :
    (n m : ℕ) (slots : List Slot)
    → get_slot n (put_slot (get_slot m slots) slots) ≡ get_slot n slots
get_slot-put_same n m slots =
    ground (arith, get_slot-put_slot n (get_slot m slots) slots, get_slot-node_id m slots)

pub set_results-old :
    (f v w : ℕ) (o : Option ℕ) (fs : List ℕ) (done : List (ℕ × Option ℕ))
    → result_of f done ≡ some (w, o)
    → result_of f (set_results v fs done) ≡ some (w, o)
unfolding set_results is_done
set_results-old f v w o [] done h = h
set_results-old f v w o (g ∷ fs) done h =
    set_results-old f v w o fs _
      (ground (arith, find_row-insert_old (λ r. r.0 == f) done (g, some v) (w, o)))

set_results-new :
    (f v : ℕ) (fs : List ℕ) (done : List (ℕ × Option ℕ))
    → is_done f done ≡ false
    → waits f fs ≡ true
    → result_of f (set_results v fs done) ≡ some (f, some v)
unfolding set_results is_done
set_results-new f v [] done h w = absurd (ground arith)
set_results-new f v (g ∷ fs) done h w = elim (Bool-cases (g == f)) [
  | inl e ↦
      set_results-old f v f (some v) fs _
        (ground (arith, find_row-insert_new (λ r. r.0 == f) done (g, some v)))
  | inr e ↦
      set_results-new f v fs _ (ground (arith, has_row-insert (λ r. r.0 == f) done (g, some v)))
        (ground arith)
]

set_results-other :
    (f v : ℕ) (fs : List ℕ) (done : List (ℕ × Option ℕ))
    → is_done f done ≡ false
    → waits f fs ≡ false
    → is_done f (set_results v fs done) ≡ false
unfolding set_results is_done
set_results-other f v [] done h w = h
set_results-other f v (g ∷ fs) done h w =
    set_results-other f v fs _ (ground (arith, has_row-insert (λ r. r.0 == f) done (g, some v)))
      (ground arith)

pub waits-remove :
    (f g : ℕ) (fs : List ℕ) → (g == f) ≡ false → waits f (remove_waiter g fs) ≡ waits f fs
unfolding remove_waiter
waits-remove f g [] e = refl
waits-remove f g (x ∷ fs) e = ground (arith, waits-remove f g fs e)

-- The future has a version that is newer than the one its waiter knew.
abbrev pub Woken : ℕ → ℕ → List (ℕ × Option ℕ) → Type 0
Woken v f done = (w : ℕ) × (v < w) × (result_of f done ≡ some (f, some w))

-- The future is among the node's waiters and the node still has the version that its waiter knew.
pub record Asleep (n v f : ℕ) (slots : List Slot) (done : List (ℕ × Option ℕ)) : Type 0 where
  pub version : (get_slot n slots).version ≡ v
  pub waiting : waits f (get_slot n slots).waiters ≡ true
  pub nowhere_else : (m : ℕ) → (m == n) ≡ false → waits f (get_slot m slots).waiters ≡ false
  pub pending : is_done f done ≡ false

abbrev pub Watched : ℕ → ℕ → ℕ → Notifier → Type 0
Watched n v f s = Woken v f s.done ⊎ Asleep n v f s.slots s.done

-- A slot is written back with its version, and with the future where it was.
pub Asleep-put_slot :
    (n v f m : ℕ) (fs : List ℕ) (slots : List Slot) (done : List (ℕ × Option ℕ))
    → waits f fs ≡ waits f (get_slot m slots).waiters
    → Asleep n v f slots done
    → Asleep n v f (put_slot (record (get_slot m slots) { waiters = fs }) slots) done
Asleep-put_slot n v f m fs slots done e a =
    let t : Slot = record (get_slot m slots) { waiters = fs } in
    record {
      version =
          ground
            (arith, get_slot-put_slot n t slots, get_slot-node_id m slots, a.version, ==→≡ m n);
      waiting =
          ground
            (arith, get_slot-put_slot n t slots, get_slot-node_id m slots, a.waiting, ==→≡ m n);
      nowhere_else = λ k ne. ground (
        arith,
        get_slot-put_slot k t slots,
        get_slot-node_id m slots,
        a.nowhere_else k ne,
        ==→≡ m k,
      );
      pending = a.pending;
    }

module _ (n v f m : ℕ) (slots : List Slot) (done : List (ℕ × Option ℕ)) where
  abbrev bumped : Slot
  bumped = record (get_slot m slots) { version = suc (get_slot m slots).version; waiters = [] }

  -- Another node is notified.
  Asleep-other :
      (m == n) ≡ false
      → Asleep n v f slots done
      → Asleep n v f
          (put_slot bumped slots)
          (set_results (suc (get_slot m slots).version) (get_slot m slots).waiters done)
  Asleep-other ne a = record {
    version = ground (arith, get_slot-put_slot n bumped slots, get_slot-node_id m slots, a.version);
    waiting = ground (arith, get_slot-put_slot n bumped slots, get_slot-node_id m slots, a.waiting);
    nowhere_else = λ k e.
        ground
          (arith, get_slot-put_slot k bumped slots, get_slot-node_id m slots, a.nowhere_else k e);
    pending =
        set_results-other f (suc (get_slot m slots).version) (get_slot m slots).waiters done
          a.pending (a.nowhere_else m ne);
  }

  -- The node itself is notified.
  Woken-same :
      (m == n) ≡ true
      → Asleep n v f slots done
      → Woken v f (set_results (suc (get_slot m slots).version) (get_slot m slots).waiters done)
  Woken-same e a = (
    suc (get_slot m slots).version,
    rw (==→≡ m n e, a.version) (omega arith),
    set_results-new f (suc (get_slot m slots).version) (get_slot m slots).waiters done a.pending
        (rw (==→≡ m n e) a.waiting),
  )

pub notify_in_loop-Watched :
    (n v f m : ℕ) (s : Notifier) → Watched n v f s → Watched n v f (notify_in_loop m s)
unfolding notify_in_loop
notify_in_loop-Watched n v f m s (inl (w, lt, h)) = inl (
  w,
  lt,
  set_results-old f (suc (get_slot m s.slots).version) f (some w) (get_slot m s.slots).waiters
      s.done h,
)
notify_in_loop-Watched n v f m s (inr a) = elim (Bool-cases (m == n)) [
  | inl e ↦ inl (Woken-same n v f m s.slots s.done e a)
  | inr e ↦ inr (Asleep-other n v f m s.slots s.done e a)
]

pub run_calls-Watched :
    (n v f : ℕ) (calls : List ℕ) (s : Notifier)
    → Watched n v f s
    → Watched n v f (run_calls calls s)
unfolding run_calls
run_calls-Watched n v f [] s h = h
run_calls-Watched n v f (m ∷ calls) s h =
    run_calls-Watched n v f calls (notify_in_loop m s) (notify_in_loop-Watched n v f m s h)

-- The event ends or repeats the wait on the future: its timeout, the removal after that, or another
-- wait on the same future.
abbrev pub is_about : ℕ → Event → Bool
is_about f (wait n v g) = g == f
is_about f (timed_out g) = g == f
is_about f (clean_up n g) = g == f
is_about f e = false
