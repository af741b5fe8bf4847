-- ===== src/Notifier/Waiting.antt =====
-- A future that waits goes on waiting, or is woken, whatever happens to the notifier.
use arqs.Prelude.{
  ==_refl, ℕ, ◌≡◌, refl, ◌⊎◌, inl, inr, Bool, true, false, none, some, List, [], ◌∷◌, ◌++◌, ◌==◌,
  has_row, Bool-cases, arith, has_row-insert, find_row-insert_old,
}
use arqs.Notifier.{
  Loop, Notifier, Slot, Event, get_slot, put_slot, is_done, remove_waiter, step, run, snapshot,
  wait_for_change, cancel, forget, notify, running, closed, unbound, take_snapshot, wait, timed_out,
  clean_up, notified, drain, close, bind_running_loop,
}
use arqs.Notifier.Wakeups.{
  Asleep, run_calls-Watched, notify_in_loop-Watched, Watched, waits-remove, is_about,
  Asleep-put_slot, Woken, get_slot-node_id, get_slot-put_slot, waits,
}

put_slot-Watched :
    (n v f m : ℕ) (fs : List ℕ) (s : Notifier)
    → waits f fs ≡ waits f (get_slot m s.slots).waiters
    → Watched n v f s
    → Watched n v f
        (record s { slots = put_slot (record (get_slot m s.slots) { waiters = fs }) s.slots })
put_slot-Watched n v f m fs s e (inl h) = inl h
put_slot-Watched n v f m fs s e (inr a) = inr (Asleep-put_slot n v f m fs s.slots s.done e a)

wait_for_change-Watched :
    (n v f m u g : ℕ) (s : Notifier)
    → (g == f) ≡ false
    → Watched n v f s
    → Watched n v f (wait_for_change m u g s).1
unfolding wait_for_change bind_running_loop
wait_for_change-Watched n v f m u g s ne h =
    let fs = (get_slot m s.slots).waiters in
    elim (Bool-cases ((get_slot m s.slots).version == u)) [
      | inl e ↦ rw e (
          put_slot-Watched n v f m (fs ++ g ∷ []) s
            (ground (arith, has_row-insert (λ x. x == f) fs g)) h)
      | inr e ↦ rw e (put_slot-Watched n v f m fs s refl h)
    ]

forget-Watched :
    (n v f m g : ℕ) (s : Notifier)
    → (g == f) ≡ false
    → Watched n v f s
    → Watched n v f (forget m g s)
unfolding forget
forget-Watched n v f m g s ne h = elim (Bool-cases (has_row (λ t. t.node_id == m) s.slots)) [
  | inl e ↦ rw e (
      put_slot-Watched n v f m (remove_waiter g (get_slot m s.slots).waiters) s
        (waits-remove f g (get_slot m s.slots).waiters ne) h)
  | inr e ↦ rw e h
]

cancel-Watched :
    (n v f g : ℕ) (s : Notifier) → (g == f) ≡ false → Watched n v f s → Watched n v f (cancel g s)
unfolding cancel is_done
cancel-Watched n v f g s ne (inl (w, lt, h)) =
    inl (w, lt, ground (arith, find_row-insert_old (λ r. r.0 == f) s.done (g, none) (f, some w)))
cancel-Watched n v f g s ne (inr a) = elim (Bool-cases (is_done g s.done)) [
  | inl e ↦ rw e (inr a)
  | inr e ↦ rw e (
      inr (record {
        version = a.version;
        waiting = a.waiting;
        nowhere_else = a.nowhere_else;
        pending = ground (arith, has_row-insert (λ r. r.0 == f) s.done (g, none), a.pending);
      }))
]

pub notify-Watched :
    (n v f m : ℕ) (on_loop : Bool) (s : Notifier) (l : Loop)
    → s.loop ≡ l
    → Watched n v f s
    → Watched n v f (notify on_loop m s)
unfolding notify
notify-Watched n v f m true s running e h = rw e (notify_in_loop-Watched n v f m s h)
notify-Watched n v f m false s running e h = rw e h
notify-Watched n v f m on_loop s unbound e h = rw e h
notify-Watched n v f m on_loop s closed e h = rw e h

step-Watched :
    (n v f : ℕ) (e : Event) (s : Notifier)
    → is_about f e ≡ false
    → Watched n v f s
    → Watched n v f (step e s)
unfolding step snapshot bind_running_loop
step-Watched n v f (take_snapshot m) s a h =
    put_slot-Watched n v f m (get_slot m s.slots).waiters s refl h
step-Watched n v f (wait m u g) s a h = wait_for_change-Watched n v f m u g s a h
step-Watched n v f (timed_out g) s a h = cancel-Watched n v f g s a h
step-Watched n v f (clean_up m g) s a h = forget-Watched n v f m g s a h
step-Watched n v f (notified on_loop m) s a h = notify-Watched n v f m on_loop s s.loop refl h
step-Watched n v f drain s a h = run_calls-Watched n v f s.calls s h
step-Watched n v f close s a h = h

pub run-Watched :
    (n v f : ℕ) (es : List Event) (s : Notifier)
    → has_row (is_about f) es ≡ false
    → Watched n v f s
    → Watched n v f (run es s)
unfolding run
run-Watched n v f [] s a h = h
run-Watched n v f (e ∷ es) s a h =
    run-Watched n v f es (step e s) (ground arith) (step-Watched n v f e s (ground arith) h)

-- A new future that waits for nothing yet.
abbrev pub IsFresh : ℕ → Notifier → Type 0
IsFresh f s = (is_done f s.done ≡ false) × ((m : ℕ) → waits f (get_slot m s.slots).waiters ≡ false)

pub wait_for_change-Asleep :
    (n v f : ℕ) (s : Notifier)
    → IsFresh f s
    → (get_slot n s.slots).version ≡ v
    → Asleep n v f (wait_for_change n v f s).1.slots (wait_for_change n v f s).1.done
unfolding wait_for_change bind_running_loop
wait_for_change-Asleep n v f s fresh e =
    let fs = (get_slot n s.slots).waiters in
    let t : Slot = record (get_slot n s.slots) { waiters = fs ++ f ∷ [] } in
    rw (e, ==_refl v)
      (record {
        version =
            ground (arith, get_slot-put_slot n t s.slots, get_slot-node_id n s.slots, ==_refl n, e);
        waiting = ground (
          arith,
          get_slot-put_slot n t s.slots,
          get_slot-node_id n s.slots,
          ==_refl n,
          ==_refl f,
          has_row-insert (λ x. x == f) fs f,
        );
        nowhere_else = λ k ne.
            ground (arith, get_slot-put_slot k t s.slots, get_slot-node_id n s.slots, fresh.1 k);
        pending = fresh.0;
      })

-- After a wait with a new future on the version v of a node, and any events but this future's
-- timeout or cancellation, either the future has been given a version above v or the node still
-- has version v.
pub wait_for_change-wakes :
    (n v f : ℕ) (es : List Event) (s : Notifier)
    → IsFresh f s
    → (wait_for_change n v f s).0 ≡ none
    → has_row (is_about f) es ≡ false
    → Woken v f (run es (wait_for_change n v f s).1).done
      ⊎ ((get_slot n (run es (wait_for_change n v f s).1).slots).version ≡ v)
wait_for_change-wakes n v f es s fresh waited others =
    elim (run-Watched n v f es (wait_for_change n v f s).1 others
      (inr (wait_for_change-Asleep n v f s fresh (unfold wait_for_change in ground arith)))) [
        | inl w ↦ inl w
        | inr a ↦ inr a.version
      ]
