-- ===== src/Server/Delivery.antt =====
-- send_packet of arqs-server/app/main.py with the notification that follows its commit, and the polls
-- that wait for it.
use arqs.Prelude.{ℕ, ◌≡◌, Bool, true, false, Option, none, some, List, has_row}
use arqs.Http.{Result}
use arqs.Models.{Node, Endpoint, Db}
use arqs.Services.{get_endpoint}
use arqs.Server.Packets.{SendEnv, SendRequest, SendResponse, send_packet}
use arqs.Server.Packets.Stored.{is_acceptance}
use arqs.Notifier.{Notifier, Event, notify, wait_for_change, run, step, drain, running}
use arqs.Notifier.Wakeups.{Woken, is_about}
use arqs.Notifier.Waiting.{IsFresh}
use arqs.Notifier.Versions.{notify-wakes}

-- inbox_notifier.notify(dest_node.node_id), after a commit only. The destination node is the one that
-- the endpoint's row names.
unfoldable pub notify_destination : Bool → Bool → Option Endpoint → Notifier → Notifier
notify_destination on_loop true (some dest) s = notify on_loop dest.node_id s
notify_destination on_loop true none s = s
notify_destination on_loop false dest s = s

unfoldable pub send_and_notify :
    SendEnv
    → Node
    → SendRequest
    → List Db
    → Db
    → Db
    → Bool
    → Notifier
    → (Result SendResponse × Db) × Notifier
unfolding notify_destination
send_and_notify env node req views db at_write on_loop s =
    let answer = send_packet env node req views db at_write in
    (
      answer,
      notify_destination on_loop (is_acceptance answer.0) (get_endpoint db req.to_endpoint_id) s,
    )

notified-wakes :
    (n v f : ℕ) (es : List Event) (on_loop accepts : Bool) (dest : Endpoint) (s : Notifier)
    → accepts ≡ true
    → dest.node_id ≡ n
    → IsFresh f s
    → (wait_for_change n v f s).0 ≡ none
    → has_row (is_about f) es ≡ false
    → (run es (wait_for_change n v f s).1).loop ≡ running
    → Woken v f
        (step drain (
          notify_destination on_loop accepts (some dest) (run es (wait_for_change n v f s).1))).done
unfolding notify_destination
notified-wakes n v f es on_loop accepts dest s accepting to_n fresh waited others loops =
    rw (accepting, to_n) (notify-wakes n v f es on_loop s fresh waited others loops)

-- A packet that is accepted for an endpoint of a node wakes a poll of that node that waits with a new
-- future, whatever happened to the notifier since but this future's timeout or cancellation: once the
-- loop, which still runs, has run its callbacks, the future has a version above the one it waited on.
pub send_and_notify-wakes :
    (env : SendEnv) (node : Node) (req : SendRequest) (views : List Db) (db at_write : Db)
    (on_loop : Bool) (dest : Endpoint) (n v f : ℕ) (es : List Event) (s : Notifier)
    → is_acceptance (send_packet env node req views db at_write).0 ≡ true
    → get_endpoint db req.to_endpoint_id ≡ some dest
    → dest.node_id ≡ n
    → IsFresh f s
    → (wait_for_change n v f s).0 ≡ none
    → has_row (is_about f) es ≡ false
    → (run es (wait_for_change n v f s).1).loop ≡ running
    → Woken v f
        (step drain
          (send_and_notify env node req views db at_write on_loop
            (run es (wait_for_change n v f s).1)).1).done
unfolding send_and_notify
send_and_notify-wakes env node req views db at_write on_loop dest n v f es s accepts to_dest to_n
      fresh waited others loops =
    rw to_dest (notified-wakes n v f es on_loop _ dest s accepts to_n fresh waited others loops)
