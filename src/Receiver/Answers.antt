-- ===== src/Receiver/Answers.antt =====
-- A command gets one response, and the caller that waits for it gets that response
-- (apis/appkit/commands.py).
use arqs.Conventions.Render.{stripped}
use arqs.Receiver.Silent.{has_returned}
use arqs.Json.{bool, get_field, str, Json}
use arqs.Receiver.{
  threw, did_reply, returned, Reply, Work, CommandResponse, Ran, ReceivedPacket, World, perform,
  must,
}
use arqs.Receiver.Commands.{
  truthy, command_reply, run_command, set_response, Commands, error_response, find_waiter,
  success_response, take_response, handle_command, handle_response, read_response, response_of,
}
use arqs.Conventions.{header_value, get_correlation_id, value_text, falsy, Python, text_or_empty}
use arqs.Prelude.{
  eq_refl, ◌∙◌, ap, [], refl, eq_iff, false, ◌∷◌, arith, none, str_eq, ◌++◌, List, Option,
  if◌then◌else◌, true, some, String, ◌≡◌,
}

-- What the response to a command says.
pub record IsAnswer (py : Python) (packet : ReceivedPacket) (outcome : Ran Json) (reply : Reply)
    : Type 0 where
  pub kind : reply.arqs_type ≡ "command.response.v1"
  pub back : reply.to_endpoint_id ≡ packet.from_endpoint_id
  pub correlated : reply.correlation_id ≡ get_correlation_id py packet.headers
  pub caused : reply.causation_id ≡ some packet.packet_id
  pub verdict : get_field "ok" reply.payload ≡ some (bool (has_returned outcome))

response_of-IsAnswer :
    (py : Python) (world : World) (packet : ReceivedPacket) (name command_id : String)
    (outcome : Ran Json)
    → IsAnswer py packet outcome (response_of py world packet name command_id outcome)
unfolding response_of success_response error_response command_reply get_field
response_of-IsAnswer py world packet name command_id (returned result) = record {
  kind = refl;
  back = refl;
  correlated = refl;
  caused = refl;
  verdict = refl;
}
response_of-IsAnswer py world packet name command_id (threw x) = record {
  kind = refl;
  back = refl;
  correlated = refl;
  caused = refl;
  verdict = refl;
}

must_reply :
    (world : World) (reply : Reply) (t : Work)
    → (must world (perform world (did_reply reply) t)).1.effects ≡ (
        if world.accepts t.effects (did_reply reply)
        then t.effects ++ did_reply reply ∷ []
        else t.effects)
unfolding must perform
must_reply world reply t = ground arith

-- After the handler of a command has returned or raised, or where no handler has the command's name, the
-- receiver makes exactly one more call: the response goes to the sender of the command with its correlation
-- id, names the command as its cause, and is positive exactly if the handler has returned. If
-- the network refuses that call, none is made.
pub handle_command-answers :
    (py : Python) (world : World) (commands : Commands) (packet : ReceivedPacket) (s : Work)
    → (reply : Reply) × (IsAnswer py packet (run_command py world commands packet s).0 reply)
      × ((handle_command py world commands packet s).1.effects ≡ (
          let t = (run_command py world commands packet s).1 in
          if world.accepts t.effects (did_reply reply)
          then t.effects ++ did_reply reply ∷ []
          else t.effects))
unfolding handle_command
handle_command-answers py world commands packet s =
    let r = run_command py world commands packet s in
    (
      response_of py world packet (stripped py "command" packet.payload)
          (text_or_empty py (get_field "command_id" packet.payload)) r.0,
      response_of-IsAnswer py world packet _ _ r.0,
      must_reply world _ r.1,
    )

-- The response as the caller reads it.
pub expected_response : String → String → Ran Json → CommandResponse
expected_response correlation_id command_id (returned result) = record {
  success = true;
  command_id = command_id;
  correlation_id = correlation_id;
  result = some result;
  error_type = none;
  error_message = none;
}
expected_response correlation_id command_id (threw x) = record {
  success = false;
  command_id = command_id;
  correlation_id = correlation_id;
  result = none;
  error_type = if str_eq x.name "" then none else some x.name;
  error_message = if str_eq x.message "" then none else some x.message;
}

text_or_empty-str : (py : Python) (s : String) → text_or_empty py (some (str s)) ≡ s
unfolding text_or_empty falsy value_text
text_or_empty-str py s = ground (arith, eq_iff s "")

-- What a command's handler returns, or the name and the text of the exception that it raises, is what
-- the caller reads from the response, with the command's id; an empty name or text reads as none.
pub read_response-response_of :
    (py : Python) (world : World) (packet : ReceivedPacket) (name command_id id : String)
    (outcome : Ran Json)
    → read_response py id (response_of py world packet name command_id outcome).payload
      ≡ expected_response id command_id outcome
unfolding read_response response_of success_response error_response command_reply get_field truthy
    falsy header_value expected_response
read_response-response_of py world packet name command_id id (returned result) =
    rw (text_or_empty-str py command_id) refl
read_response-response_of py world packet name command_id id (threw x) =
    rw (text_or_empty-str py command_id) refl

module _ (id : String) (response : CommandResponse) where
  find_waiter-set_response :
      (k : String) (old : Option CommandResponse) (ws : List (String × Option CommandResponse))
      → find_waiter id ws ≡ some old
      → find_waiter k (set_response id response ws)
        ≡ (if str_eq id k then some (some response) else find_waiter k ws)
  unfolding find_waiter set_response
  find_waiter-set_response k old [] h = cc
  find_waiter-set_response k old ((j, w) ∷ ws) h =
      ground (arith, eq_iff id k, eq_iff j id, eq_iff j k, find_waiter-set_response k old ws)

  find_waiter-set_other :
      (k : String) (ws : List (String × Option CommandResponse))
      → str_eq id k ≡ false
      → find_waiter k (set_response id response ws) ≡ find_waiter k ws
  unfolding find_waiter set_response
  find_waiter-set_other k [] h = refl
  find_waiter-set_other k ((j, w) ∷ ws) h =
      ground (arith, eq_iff id k, eq_iff j id, eq_iff j k, find_waiter-set_other k ws)

  set_response-none :
      (ws : List (String × Option CommandResponse))
      → find_waiter id ws ≡ none
      → set_response id response ws ≡ ws
  unfolding find_waiter set_response
  set_response-none [] h = refl
  set_response-none ((j, w) ∷ ws) h = ground (arith, set_response-none ws)

take_response-found :
    (id : String) (s : Work) (r : CommandResponse)
    → find_waiter id s.waiters ≡ some (some r)
    → (take_response id s).0 ≡ some r
unfolding take_response
take_response-found id s r h = ground arith

handled_as :
    (py : Python) (packet : ReceivedPacket) (s : Work) (id : String)
    → get_correlation_id py packet.headers ≡ some id
    → handle_response py packet s
      ≡ record s { waiters = set_response id (read_response py id packet.payload) s.waiters }
unfolding handle_response
handled_as py packet s id h = ground arith

-- A response wakes the caller that waits for its correlation id, which then takes this response, and no
-- other waiter; if nobody waits for the id any more, nothing changes.
handle_response-waiters :
    (py : Python) (packet : ReceivedPacket) (s : Work) (id : String)
    → get_correlation_id py packet.headers ≡ some id
    → let s' = handle_response py packet s in
      ((old : Option CommandResponse)
        → find_waiter id s.waiters ≡ some old
        → (take_response id s').0 ≡ some (read_response py id packet.payload))
      × ((k : String) → str_eq id k ≡ false → find_waiter k s'.waiters ≡ find_waiter k s.waiters)
      × (find_waiter id s.waiters ≡ none → s' ≡ s)
unfolding take_response
handle_response-waiters py packet s id h =
    let r = read_response py id packet.payload in
    let same = handled_as py packet s id h in
    (
      λ old waits.
          ap (λ (t : Work). (take_response id t).0) same
          ∙ take_response-found id (record s { waiters = set_response id r s.waiters }) r
              (find_waiter-set_response id r id old s.waiters waits ∙ rw (eq_refl id) refl),
      λ k other.
          ap (λ (t : Work). find_waiter k t.waiters) same
          ∙ find_waiter-set_other id r k s.waiters other,
      λ nobody.
          same ∙ ap (λ ws. record s { waiters = ws }) (set_response-none id r s.waiters nobody),
    )
