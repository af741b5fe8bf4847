-- ===== src/Notifier/Versions.antt =====
-- A notification raises the version of its node, and so wakes every poll that waits on it.
use arqs.Prelude.{
  ap, ==→≡, ℕ, suc, ◌+◌, ◌<◌, ◌≡◌, refl, inl, inr, Bool, true, false, none, some, List, [], ◌∷◌,
  ◌++◌, ◌==◌, if◌then◌else◌, has_row, count_rows, count_rows-insert, arith, ==_refl,
}
use arqs.Notifier.{
  Notifier, Slot, Event, get_slot, notify_in_loop, run_calls, step, run, wait_for_change, notify,
  running, drain,
}
use arqs.Notifier.Wakeups.{
  get_slot-put_slot, get_slot-node_id, set_results-old, Woken, Watched, is_about, run_calls-Watched,
}
use arqs.Notifier.Waiting.{IsFresh, run-Watched, wait_for_change-Asleep, notify-Watched}

abbrev pub version_of : ℕ → Notifier → ℕ
version_of n s = (get_slot n s.slots).version

notify_in_loop-version :
    (n m : ℕ) (s : Notifier)
    → version_of n (notify_in_loop m s) ≡ version_of n s + (if m == n then 1 else 0)
unfolding notify_in_loop
notify_in_loop-version n m s =
    let t : Slot = record (get_slot m s.slots) {
      version = suc (get_slot m s.slots).version;
      waiters = [];
    } in
    ground (arith, get_slot-put_slot n t s.slots, get_slot-node_id m s.slots, ==→≡ m n)

run_calls-version :
    (n : ℕ) (calls : List ℕ) (s : Notifier)
    → version_of n (run_calls calls s) ≡ version_of n s + count_rows (λ m. m == n) calls
unfolding run_calls
run_calls-version n [] s = omega arith
run_calls-version n (m ∷ calls) s =
    omega (arith, run_calls-version n calls (notify_in_loop m s), notify_in_loop-version n m s)

notify-running :
    (n : ℕ) (on_loop : Bool) (s : Notifier)
    → s.loop ≡ running
    → notify on_loop n s
      ≡ (if on_loop then notify_in_loop n s else record s { calls = s.calls ++ n ∷ [] })
unfolding notify
notify-running n on_loop s h = ground arith

-- While the loop runs, a notification from any thread is worth exactly one version of its node, and
-- none of another, by the time the loop has run its callbacks.
pub notify-version :
    (n m : ℕ) (on_loop : Bool) (s : Notifier)
    → s.loop ≡ running
    → version_of m (step drain (notify on_loop n s))
      ≡ version_of m (step drain s) + (if n == m then 1 else 0)
unfolding step
notify-version n m true s h = rw (notify-running n true s h) (
    omega (
      arith,
      run_calls-version m s.calls s,
      run_calls-version m s.calls (notify_in_loop n s),
      notify_in_loop-version m n s,
    ))
notify-version n m false s h = rw (notify-running n false s h) (
    omega (
      arith,
      run_calls-version m s.calls s,
      run_calls-version m (s.calls ++ n ∷ []) (record s { calls = s.calls ++ n ∷ [] }),
      count_rows-insert (λ k. k == m) s.calls n,
    ))

notify_in_loop-Woken :
    (v f m : ℕ) (s : Notifier) → Woken v f s.done → Woken v f (notify_in_loop m s).done
unfolding notify_in_loop
notify_in_loop-Woken v f m s (w, lt, h) = (
  w,
  lt,
  set_results-old f (suc (get_slot m s.slots).version) f (some w) (get_slot m s.slots).waiters
      s.done h,
)

run_calls-Woken :
    (v f : ℕ) (calls : List ℕ) (s : Notifier)
    → Woken v f s.done
    → Woken v f (run_calls calls s).done
unfolding run_calls
run_calls-Woken v f [] s h = h
run_calls-Woken v f (m ∷ calls) s h =
    run_calls-Woken v f calls (notify_in_loop m s) (notify_in_loop-Woken v f m s h)

notify-Woken :
    (v f m : ℕ) (on_loop : Bool) (s : Notifier)
    → s.loop ≡ running
    → Woken v f s.done
    → Woken v f (notify on_loop m s).done
notify-Woken v f m true s loops h =
    rw (notify-running m true s loops) (notify_in_loop-Woken v f m s h)
notify-Woken v f m false s loops h = rw (notify-running m false s loops) h

newer :
    (n : ℕ) (on_loop : Bool) (s : Notifier)
    → s.loop ≡ running
    → version_of n s < version_of n (step drain (notify on_loop n s))
unfolding step
newer n on_loop s loops = omega (
  arith,
  notify-version n n on_loop s loops,
  run_calls-version n s.calls s,
  ap {B = ℕ} (λ b. if b then 1 else 0) (==_refl n),
)

drained :
    (n v f : ℕ) (on_loop : Bool) (s : Notifier)
    → s.loop ≡ running
    → Watched n v f s
    → Woken v f (step drain (notify on_loop n s)).done
unfolding step
drained n v f on_loop s loops (inl h) =
    run_calls-Woken v f (notify on_loop n s).calls (notify on_loop n s)
      (notify-Woken v f n on_loop s loops h)
drained n v f on_loop s loops (inr a) =
    elim (run_calls-Watched n v f (notify on_loop n s).calls (notify on_loop n s)
      (notify-Watched n v f n on_loop s s.loop refl (inr a))) [
        | inl w ↦ w
        | inr b ↦ absurd (omega (arith, newer n on_loop s loops, a.version, b.version))
      ]

-- A poll that waits is woken: after a wait with a new future on the version v of a node, any events
-- but this future's timeout or cancellation, and then a notification of the node from any thread
-- while the loop runs, the future has been given a version above v once the loop has run its
-- callbacks.
pub notify-wakes :
    (n v f : ℕ) (es : List Event) (on_loop : Bool) (s : Notifier)
    → IsFresh f s
    → (wait_for_change n v f s).0 ≡ none
    → has_row (is_about f) es ≡ false
    → (run es (wait_for_change n v f s).1).loop ≡ running
    → Woken v f (step drain (notify on_loop n (run es (wait_for_change n v f s).1))).done
notify-wakes n v f es on_loop s fresh waited others loops =
    drained n v f on_loop (run es (wait_for_change n v f s).1) loops (
      run-Watched n v f es (wait_for_change n v f s).1 others
        (inr (wait_for_change-Asleep n v f s fresh (unfold wait_for_change in ground arith))))
