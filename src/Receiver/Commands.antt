-- ===== src/Receiver/Commands.antt =====
-- apis/appkit/commands.py: commands from other nodes and the responses that callers wait for.
use Prim.Native.String.{◌++◌}
use arqs.Receiver.{
  did_reply, perform, run_script, must, returned, threw, Ran, Reply, Script, CommandResponse, Exn,
  ReceivedPacket, Work, World,
}
use arqs.Json.{bool, obj, str, field, end, get_field, Fields, Json}
use arqs.Conventions.{falsy, header_value, Python, get_correlation_id, text_or_empty}
use arqs.Conventions.Render.{stripped}
use arqs.Prelude.{
  true, [], not, str_eq, false, if◌then◌else◌, some, ◌∷◌, Bool, none, List, Option, String,
}

-- self._handlers
abbrev pub Commands : Type 0
Commands = String → Option (Fields → ReceivedPacket → Script Json)

unfoldable pub command_reply : Python → ReceivedPacket → String → Fields → Reply
unfolding get_correlation_id
command_reply py packet body payload = record {
  from_endpoint_id = packet.to_endpoint_id;
  to_endpoint_id = packet.from_endpoint_id;
  arqs_type = "command.response.v1";
  body = body;
  payload = payload;
  correlation_id = get_correlation_id py packet.headers;
  causation_id = some packet.packet_id;
}

unfoldable pub success_response : Python → World → ReceivedPacket → String → String → Json → Reply
unfolding command_reply
success_response py world packet name command_id result =
    command_reply py packet ("command " ++ (name ++ " ok")) (
      field "command_id" (str command_id)
        (field "ok" (bool true) (field "responded_at" (str world.now) (field "result" result end))))

unfoldable pub error_response : Python → World → ReceivedPacket → String → Exn → Reply
unfolding command_reply
error_response py world packet command_id x =
    command_reply py packet ("command failed: " ++ x.message) (
      field "command_id" (str command_id) (
        field "ok" (bool false) (
          field "error_type" (str x.name)
            (field "error_message" (str x.message) (field "responded_at" (str world.now) end)))))

unfoldable pub unknown_command : String → Exn
unknown_command name = record {
  name = "LookupError";
  message = "unknown command: " ++ (if str_eq name "" then "<missing>" else name);
}

abbrev args_of : Option Json → Fields
args_of none = end
args_of (some (obj fs)) = fs
args_of (some v) = end

-- The response to a command that ran, or that raised.
unfoldable pub response_of : Python → World → ReceivedPacket → String → String → Ran Json → Reply
unfolding success_response error_response
response_of py world packet name command_id (returned result) =
    success_response py world packet name command_id result
response_of py world packet name command_id (threw x) = error_response py world packet command_id x

unfoldable pub run_command : Python → World → Commands → ReceivedPacket → Work → Ran Json × Work
unfolding unknown_command stripped
run_command py world commands packet s =
    let name = stripped py "command" packet.payload in
    elim (commands name) [
      | none ↦ (threw (unknown_command name), s)
      | some handler ↦
          run_script world packet.delivery_id
            (handler (args_of (get_field "args" packet.payload)) packet) s
    ]

-- _handle_command: the exception of a handler is caught, that of the reply is not.
unfoldable pub handle_command :
    Python → World → Commands → ReceivedPacket → Work → Ran (Unit {0}) × Work
unfolding text_or_empty stripped
handle_command py world commands packet s =
    let name = stripped py "command" packet.payload in
    let command_id = text_or_empty py (get_field "command_id" packet.payload) in
    let r = run_command py world commands packet s in
    must world (perform world (did_reply (response_of py world packet name command_id r.0)) r.1)

-- bool(data.get("ok"))
unfoldable pub truthy : Option Json → Bool
truthy none = false
truthy (some v) = not (falsy v)

unfoldable pub read_response : Python → String → Fields → CommandResponse
unfolding truthy text_or_empty header_value
read_response py correlation_id payload = record {
  success = truthy (get_field "ok" payload);
  command_id = text_or_empty py (get_field "command_id" payload);
  correlation_id = correlation_id;
  result = get_field "result" payload;
  error_type = header_value py (get_field "error_type" payload);
  error_message = header_value py (get_field "error_message" payload);
}

-- The waiter of the id gets the response; there is at most one.
unfoldable pub set_response :
    String
    → CommandResponse
    → List (String × Option CommandResponse)
    → List (String × Option CommandResponse)
set_response id response [] = []
set_response id response ((key, old) ∷ rest) =
    let others = set_response id response rest in
    if str_eq key id then (key, some response) ∷ rest else (key, old) ∷ others

-- _handle_response
unfoldable pub handle_response : Python → ReceivedPacket → Work → Work
unfolding read_response set_response get_correlation_id
handle_response py packet s = elim (get_correlation_id py packet.headers) [
  | none ↦ s
  | some id ↦ record s { waiters = set_response id (read_response py id packet.payload) s.waiters }
]

abbrev pub has_type : String → ReceivedPacket → Bool
has_type t packet = elim packet.arqs_type [ none ↦ false | some u ↦ str_eq u t ]

unfoldable pub maybe_handle :
    Python → World → Commands → ReceivedPacket → Work → Ran (Unit {0}) × Work
maybe_handle py world commands packet s =
    if has_type "command.response.v1" packet
    then (returned tt, handle_response py packet s)
    else if has_type "command.v1" packet
    then handle_command py world commands packet s
    else (returned tt, s)

-- send_command: the waiter is there before the command is sent and is taken away when the wait ends,
-- with the response that was set, if any.
unfoldable pub add_waiter :
    String → List (String × Option CommandResponse) → List (String × Option CommandResponse)
add_waiter id [] = (id, none) ∷ []
add_waiter id ((key, old) ∷ rest) =
    if str_eq key id then (key, none) ∷ rest else (key, old) ∷ add_waiter id rest

unfoldable pub find_waiter :
    String → List (String × Option CommandResponse) → Option (Option CommandResponse)
find_waiter id [] = none
find_waiter id ((key, old) ∷ rest) = if str_eq key id then some old else find_waiter id rest

unfoldable pub pop_waiter :
    String → List (String × Option CommandResponse) → List (String × Option CommandResponse)
pop_waiter id [] = []
pop_waiter id ((key, old) ∷ rest) =
    let others = pop_waiter id rest in if str_eq key id then rest else (key, old) ∷ others

-- The end of the wait; no response is the TimeoutError.
unfoldable pub take_response : String → Work → Option CommandResponse × Work
take_response id s = (
  elim (find_waiter id s.waiters) [ none ↦ none | some r ↦ r ],
  record s { waiters = pop_waiter id s.waiters },
)
