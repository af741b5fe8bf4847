-- ===== src/Notifier.antt =====
-- InboxNotifier of arqs-server/app/inbox_notifier.py: versions that wake the long polls. Every
-- access to the slots is under the lock, so that each method, up to its `await`, is one step. A
-- future is a number; the event loop's bookkeeping of futures is the list of those that are done.
pub mod Wakeups
pub mod Waiting
pub mod Versions
use arqs.Prelude.{
  ℕ, suc, Bool, true, false, ◌&&◌, Option, none, some, List, [], ◌∷◌, ◌++◌, ◌==◌, if◌then◌else◌,
  has_row, find_row,
}

-- _NodeSlot, with the key that it has in `_slots`
pub record Slot : Type 0 where
  pub node_id : ℕ
  pub version : ℕ
  pub waiters : List ℕ

-- _loop: none yet, running, or closed
pub data Loop : Type 0 where
  unbound running closed : Loop

-- `done` has a future with its result, or with `none` when it was cancelled. `calls` are the
-- callbacks that call_soon_threadsafe has queued and the loop has not run.
pub record Notifier : Type 0 where
  pub loop : Loop
  pub slots : List Slot
  pub done : List (ℕ × Option ℕ)
  pub calls : List ℕ

-- setdefault(node_id, _NodeSlot())
unfoldable pub get_slot : ℕ → List Slot → Slot
get_slot node_id [] = record { node_id = node_id; version = 0; waiters = [] }
get_slot node_id (s ∷ slots) = if s.node_id == node_id then s else get_slot node_id slots

unfoldable pub put_slot : Slot → List Slot → List Slot
put_slot slot [] = slot ∷ []
put_slot slot (s ∷ slots) =
    if s.node_id == slot.node_id then slot ∷ slots else s ∷ put_slot slot slots

-- future.done()
unfoldable pub is_done : ℕ → List (ℕ × Option ℕ) → Bool
is_done future done = has_row (λ r. r.0 == future) done

abbrev pub result_of : ℕ → List (ℕ × Option ℕ) → Option (ℕ × Option ℕ)
result_of future done = find_row (λ r. r.0 == future) done

-- `_bind_running_loop` of a method that runs on the loop; a second loop is an error of the caller
-- and is not modelled.
unfoldable pub bind_running_loop : Notifier → Notifier
bind_running_loop s = record s { loop = running }

unfoldable pub snapshot : ℕ → Notifier → ℕ × Notifier
unfolding bind_running_loop get_slot put_slot
snapshot node_id s =
    let slot = get_slot node_id s.slots in
    (slot.version, record (bind_running_loop s) { slots = put_slot slot s.slots })

-- What wait_for_change does before its `await`: it returns the version, or leaves the new future
-- among the waiters.
unfoldable pub wait_for_change : ℕ → ℕ → ℕ → Notifier → Option ℕ × Notifier
unfolding bind_running_loop get_slot put_slot
wait_for_change node_id after_version future s =
    let slot = get_slot node_id s.slots in
    if slot.version == after_version
    then (
      none,
      record (bind_running_loop s) {
        slots = put_slot (record slot { waiters = slot.waiters ++ future ∷ [] }) s.slots;
      },
    )
    else (some slot.version, record (bind_running_loop s) { slots = put_slot slot s.slots })

-- The timeout or the cancellation of the task cancels the future.
unfoldable pub cancel : ℕ → Notifier → Notifier
unfolding is_done
cancel future s =
    if is_done future s.done then s else record s { done = s.done ++ (future, none) ∷ [] }

-- slot.waiters.remove(future): the first one, or ValueError, which is dropped.
unfoldable pub remove_waiter : ℕ → List ℕ → List ℕ
remove_waiter future [] = []
remove_waiter future (f ∷ fs) = if f == future then fs else f ∷ remove_waiter future fs

-- The handlers of TimeoutError and CancelledError of wait_for_change.
unfoldable pub forget : ℕ → ℕ → Notifier → Notifier
unfolding remove_waiter get_slot put_slot
forget node_id future s =
    let slot = get_slot node_id s.slots in
    let waiters = remove_waiter future slot.waiters in
    if has_row (λ t. t.node_id == node_id) s.slots
    then record s { slots = put_slot (record slot { waiters = waiters }) s.slots }
    else s

-- for future in waiters: if not future.done(): future.set_result(version)
unfoldable pub set_results : ℕ → List ℕ → List (ℕ × Option ℕ) → List (ℕ × Option ℕ)
unfolding is_done
set_results version [] done = done
set_results version (f ∷ fs) done =
    set_results version fs (if is_done f done then done else done ++ (f, some version) ∷ [])

unfoldable pub notify_in_loop : ℕ → Notifier → Notifier
unfolding set_results get_slot put_slot
notify_in_loop node_id s =
    let slot = get_slot node_id s.slots in
    let version = suc slot.version in
    record s {
      slots = put_slot (record slot { version = version; waiters = [] }) s.slots;
      done = set_results version slot.waiters s.done;
    }

-- `on_loop`: the caller is on the thread of the loop.
unfoldable pub notify : Bool → ℕ → Notifier → Notifier
unfolding notify_in_loop
notify on_loop node_id s = elim s.loop [
  | running ↦
      if on_loop then notify_in_loop node_id s else record s { calls = s.calls ++ node_id ∷ [] }
  | _ ↦ s
]

-- The loop runs the callbacks that wait, in their order.
unfoldable pub run_calls : List ℕ → Notifier → Notifier
unfolding notify_in_loop
run_calls [] s = record s { calls = [] }
run_calls (node_id ∷ calls) s = run_calls calls (notify_in_loop node_id s)

-- What can happen to a notifier; `drain` is a turn of the loop.
pub data Event : Type 0 where
  take_snapshot : ℕ → Event
  wait : ℕ → ℕ → ℕ → Event
  timed_out : ℕ → Event
  clean_up : ℕ → ℕ → Event
  notified : Bool → ℕ → Event
  drain : Event
  close : Event

unfoldable pub step : Event → Notifier → Notifier
unfolding snapshot wait_for_change cancel forget notify run_calls
step (take_snapshot n) s = (snapshot n s).1
step (wait n v f) s = (wait_for_change n v f s).1
step (timed_out f) s = cancel f s
step (clean_up n f) s = forget n f s
step (notified on_loop n) s = notify on_loop n s
step drain s = run_calls s.calls s
step close s = record s { loop = closed }

unfoldable pub run : List Event → Notifier → Notifier
unfolding step
run [] s = s
run (e ∷ es) s = run es (step e s)
