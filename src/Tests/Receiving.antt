-- ===== src/Tests/Receiving.antt =====
-- A client that receives a message and a command.
use arqs.Conventions.Render.{emoji_label, reaction_display_value, render_data, render_packet_text}
use arqs.Auth.{text_eq, strip, keep, split_once, strip_left, strip_right}
use arqs.Conventions.{is_convention_v1, header_value}
use arqs.Conventions.Decode.{
  decode_packet_view, checked_view, missing_names, v1_view, decode_content_encoding, charset_of,
  content_charset, failed_view, first_charset, header_text, transferred_view, has_infix,
  legacy_view, unquote,
}
use arqs.Receiver.Acks.{poll_once-acked}
use arqs.Server.Inbox.{handled}
use arqs.Json.{pos, Json, int, str, end, field, Fields, get_field}
use arqs.Receiver.Answers.{
  handle_command-answers, read_response-response_of, expected_response, IsAnswer,
}
use arqs.Receiver.Scripts.{is_ack}
use arqs.Receiver.Commands.{
  take_response, find_waiter, handle_command, run_command, response_of, handle_response,
  read_response,
}
use arqs.Receiver.Silent.{IsSilent, handle_delivery-count, IsSilentApp}
use arqs.Receiver.{
  did_reply, finish, throw, CommandResponse, Script, returned, Handler, did_ack, ReceivedPacket,
  Reply, Work, World, and_then, ack,
}
use arqs.Receiver.Deliveries.{handlers_for, handle_delivery, App, Incoming, poll_once, receive}
use arqs.Prelude.{
  inr, inl, subst, Bool-cases, ◌++◌, refl, str_eq, false, if◌then◌else◌, Option, [], has_row, none,
  some, true, ◌∷◌, All, List, String, count_rows, ◌≡◌,
}
use arqs.Tests.Texts.{tiny_python, message_headers}

abbrev online : World
online = record {
  accepts = λ es e. true;
  failure = record { name = "ARQSConnectionError"; message = "offline" };
  now = "2025-01-01T00:00:00Z";
}

-- The command "double" answers, every other one is unknown.
abbrev doubling : String → Option (Fields → ReceivedPacket → Script Json)
doubling name = if str_eq name "double" then some (λ args packet. finish (int (pos 4))) else none

-- Messages of one type are refused by their handler.
abbrev picky : String → List Handler
picky t =
    if str_eq t "script.failure.v1"
    then (λ packet. throw (record { name = "ValueError"; message = "refused" })) ∷ []
    else []

abbrev careful_app : App
careful_app = record { ack_policy = "after_handler_success"; commands = doubling; handlers = picky }

abbrev idle : Work
idle = record { effects = []; acked = false; waiters = [] }

abbrev hello_delivery : Incoming
hello_delivery = record {
  delivery_id = "d1";
  packet_id = "p1";
  from_endpoint_id = "e1";
  to_endpoint_id = "e2";
  headers = message_headers;
  body = some "hello";
  payload = end;
  meta = end;
}

abbrev two_deliveries : List Incoming
two_deliveries = hello_delivery ∷ record hello_delivery { delivery_id = "d2" } ∷ []

abbrev after_poll : Work
after_poll = record {
  effects = did_ack "d1" handled ∷ did_ack "d2" handled ∷ [];
  acked = true;
  waiters = [];
}

poll_once-acked_example :
    All (λ d. has_row (is_ack d.delivery_id) after_poll.effects ≡ true) two_deliveries
unfolding poll_once and_then receive decode_packet_view is_convention_v1 text_eq strip get_field
    checked_view missing_names header_value v1_view decode_content_encoding keep split_once
    strip_left strip_right charset_of content_charset failed_view first_charset header_text
    transferred_view ack has_infix legacy_view unquote emoji_label reaction_display_value
    render_data render_packet_text arqs.Conventions.Decode.decode_transfer_encoding
    arqs.Conventions.Decode.decoded_view arqs.Conventions.Decode.is_textual_content_type
    arqs.Conventions.Decode.text_view arqs.Conventions.Decode.split_parts
    arqs.Conventions.Decode.read_view handle_delivery arqs.Receiver.Deliveries.conclude
    arqs.Receiver.Deliveries.run_handlers arqs.Receiver.Commands.maybe_handle
    arqs.Conventions.get_packet_type arqs.Receiver.dispatch_handlers arqs.Receiver.must
poll_once-acked_example =
    poll_once-acked tiny_python online careful_app two_deliveries idle after_poll refl refl

abbrev command_packet : ReceivedPacket
command_packet = record {
  delivery_id = "d3";
  packet_id = "u1";
  from_endpoint_id = "e1";
  to_endpoint_id = "e2";
  arqs_type = some "command.v1";
  headers = message_headers;
  body = none;
  text = none;
  payload = field "command" (str "double") (field "command_id" (str "c1") end);
  meta = end;
  decode_errors = [];
}

abbrev failure_packet : ReceivedPacket
failure_packet = record command_packet { arqs_type = some "script.failure.v1" }

SilentCommand : Fields → Option (Fields → ReceivedPacket → Script Json) → Type 0
SilentCommand args none = Unit
SilentCommand args (some handler) = IsSilent (handler args failure_packet)

doubling-silent : (name : String) (args : Fields) → SilentCommand args (doubling name)
unfolding SilentCommand
doubling-silent name args = elim (Bool-cases (str_eq name "double")) [
  | inl e ↦ rw e tt
  | inr e ↦ rw e tt
]

careful_app-IsSilentApp : IsSilentApp careful_app failure_packet
unfolding handlers_for SilentCommand
careful_app-IsSilentApp = record {
  commands = λ name handler args h. subst (SilentCommand args) h (doubling-silent name args);
  handlers = (tt, tt);
}

handle_delivery-count_example :
    count_rows
      (is_ack "d3")
      (handle_delivery tiny_python online careful_app failure_packet idle).1.effects
    ≡ 0
unfolding handle_delivery arqs.Receiver.and_then arqs.Receiver.Deliveries.conclude
    arqs.Receiver.Deliveries.run_handlers arqs.Receiver.Commands.maybe_handle
    arqs.Receiver.dispatch_handlers arqs.Receiver.run_script
handle_delivery-count_example =
    handle_delivery-count tiny_python online careful_app failure_packet careful_app-IsSilentApp idle
      refl

handle_command-answers_example :
    (reply : Reply) × (IsAnswer tiny_python command_packet
      (run_command tiny_python online doubling command_packet idle).0
      reply)
    × ((handle_command tiny_python online doubling command_packet idle).1.effects ≡ (
        let t = (run_command tiny_python online doubling command_packet idle).1 in
        if online.accepts t.effects (did_reply reply)
        then t.effects ++ did_reply reply ∷ []
        else t.effects))
handle_command-answers_example =
    handle_command-answers tiny_python online doubling command_packet idle

read_response-response_of_example :
    read_response tiny_python "u1"
      (response_of tiny_python online command_packet "double" "c1" (returned (int (pos 4)))).payload
    ≡ expected_response "u1" "c1" (returned (int (pos 4)))
read_response-response_of_example =
    read_response-response_of tiny_python online command_packet "double" "c1" "u1"
      (returned (int (pos 4)))
