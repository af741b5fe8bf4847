-- ===== src/Tests/Wakeups.antt =====
-- A poll of node 2 that waits while node 1 and node 2 are notified.
use arqs.Prelude.{◌≡◌, ◌⊎◌, refl, none, [], ◌∷◌, List, false}
use arqs.Notifier
use arqs.Notifier.{
  Notifier, Event, notified, drain, take_snapshot, wait_for_change, run, step, running, get_slot,
  notify,
}
use arqs.Notifier.Wakeups.{Woken}
use arqs.Notifier.Waiting.{wait_for_change-wakes}
use arqs.Notifier.Versions.{notify-wakes}

abbrev pub idle : Notifier
idle = record { loop = running; slots = []; done = []; calls = [] }

-- The other node is notified from a thread, and the loop has not run the call yet.
abbrev pub meanwhile : List Event
meanwhile = take_snapshot 2 ∷ notified false 1 ∷ []

pub waited : (wait_for_change 2 0 7 idle).0 ≡ none
unfolding wait_for_change
waited = refl

pub loop_runs : (run meanwhile (wait_for_change 2 0 7 idle).1).loop ≡ running
unfolding wait_for_change run
loop_runs = refl

wait_for_change-wakes_example :
    Woken 0 7 (run meanwhile (wait_for_change 2 0 7 idle).1).done
    ⊎ ((get_slot 2 (run meanwhile (wait_for_change 2 0 7 idle).1).slots).version ≡ 0)
wait_for_change-wakes_example =
    wait_for_change-wakes 2 0 7 meanwhile idle
      (unfold Notifier.is_done Notifier.get_slot in (refl, λ m. refl)) waited refl

notify-wakes_example :
    Woken 0 7 (step drain (notify false 2 (run meanwhile (wait_for_change 2 0 7 idle).1))).done
notify-wakes_example =
    notify-wakes 2 0 7 meanwhile false idle
      (unfold Notifier.is_done Notifier.get_slot in (refl, λ m. refl)) waited refl loop_runs
