-- ===== src/Tests/Delivery.antt =====
-- Bob's poll waits while Alice sends to his endpoint.
use arqs.Prelude.{refl, [], false}
use arqs.Notifier
use arqs.Notifier.{step, drain, run, wait_for_change}
use arqs.Notifier.Wakeups.{Woken}
use arqs.Services
use arqs.Server.Delivery.{send_and_notify, send_and_notify-wakes}
use arqs.Tests.Scene.{alice, linked, hello, send_env, bob_endpoint}
use arqs.Tests.Packets.{hello_sent}
use arqs.Tests.Wakeups.{idle, meanwhile, waited, loop_runs}

send_and_notify-wakes_example :
    Woken 0 7
      (step drain
        (send_and_notify send_env alice hello [] linked linked false
          (run meanwhile (wait_for_change 2 0 7 idle).1)).1).done
send_and_notify-wakes_example =
    send_and_notify-wakes send_env alice hello [] linked linked false bob_endpoint 2 0 7 meanwhile
      idle (rw hello_sent refl) (unfold Services.get_endpoint in refl) refl
      (unfold Notifier.is_done Notifier.get_slot in (refl, λ m. refl)) waited refl loop_runs
