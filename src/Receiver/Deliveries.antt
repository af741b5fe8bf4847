-- ===== src/Receiver/Deliveries.antt =====
-- _to_received_packet, _handle_delivery and poll_once of apis/appkit/receiver.py.
use arqs.Server.Inbox.{failed, handled}
use arqs.Json.{Fields}
use arqs.Receiver.Commands.{maybe_handle, Commands}
use arqs.Conventions.Decode.{
  raised_charset_error, raised_encode_error, view, decode_packet_view, DecodedPacketView,
}
use arqs.Conventions.Render.{empty_message, render_packet_text, shown, Rendered}
use arqs.Receiver.{
  ack, did_store, perform, dispatch_handlers, must, Handler, and_then, returned, threw, Ran, Work,
  Exn, ReceivedPacket, World,
}
use arqs.Conventions.{get_packet_type, Python}
use arqs.Prelude.{
  ◌||◌, not, [], ◌&&◌, false, str_eq, ◌++◌, ◌∷◌, if◌then◌else◌, none, List, some, Option, String,
}

-- A delivery of the server with its packet.
pub record Incoming : Type 0 where
  pub delivery_id : String
  pub packet_id : String
  pub from_endpoint_id : String
  pub to_endpoint_id : String
  pub headers : Fields
  pub body : Option String
  pub payload : Fields
  pub meta : Fields

-- "[empty message]" gives way to the body's text.
unfoldable pub received_text : Rendered → Option String → Option Rendered
received_text empty_message none = none
received_text empty_message (some body) = some (shown body)
received_text rendered body = some rendered

unfoldable pub received_packet : Python → Incoming → DecodedPacketView → ReceivedPacket
unfolding received_text
received_packet py d v = record {
  delivery_id = d.delivery_id;
  packet_id = d.packet_id;
  from_endpoint_id = d.from_endpoint_id;
  to_endpoint_id = d.to_endpoint_id;
  arqs_type = get_packet_type py d.headers;
  headers = d.headers;
  body = d.body;
  text = received_text (render_packet_text py v d.payload) v.body_text;
  payload = d.payload;
  meta = d.meta;
  decode_errors = v.errors;
}

abbrev pub encode_error : Exn
encode_error = record { name = "UnicodeEncodeError"; message = "" }

abbrev pub charset_error : Exn
charset_error = record { name = "LookupError"; message = "" }

unfoldable pub to_received_packet : Python → Incoming → Ran ReceivedPacket
unfolding received_packet
to_received_packet py d = elim (decode_packet_view py d.body d.headers) [
  | view v ↦ returned (received_packet py d v)
  | raised_encode_error ↦ threw encode_error
  | raised_charset_error ↦ threw charset_error
]

-- The application: its configuration and what it has registered.
pub record App : Type 0 where
  pub ack_policy : String
  pub commands : Commands
  pub handlers : String → List Handler

abbrev type_or_empty : Option String → String
type_or_empty none = ""
type_or_empty (some t) = t

unfoldable pub handlers_for : App → ReceivedPacket → List Handler
handlers_for app packet = app.handlers (type_or_empty packet.arqs_type) ++ app.handlers "*"

-- Before the handlers run.
unfoldable pub store_first : World → App → ReceivedPacket → Work → Ran (Unit {0}) × Work
store_first world app packet s =
    if str_eq app.ack_policy "after_store"
    then and_then (must world (perform world (did_store packet) s))
        (λ done s'. must world (ack world packet.delivery_id handled s'))
    else (returned tt, s)

unfoldable pub run_handlers : Python → World → App → ReceivedPacket → Work → Ran (Unit {0}) × Work
unfolding handlers_for
run_handlers py world app packet s =
    and_then (maybe_handle py world app.commands packet s)
      (λ done s'. dispatch_handlers world packet (handlers_for app packet) s')

-- The exception of the handlers goes on, unless the acknowledgement raises its own.
unfoldable pub conclude :
    World → App → ReceivedPacket → Ran (Unit {0}) × Work → Ran (Unit {0}) × Work
conclude world app packet (threw x, s) =
    if str_eq app.ack_policy "always" && not s.acked
    then and_then (must world (ack world packet.delivery_id failed s)) (λ done s'. (threw x, s'))
    else (threw x, s)
conclude world app packet (returned done, s) =
    if (str_eq app.ack_policy "after_handler_success" || str_eq app.ack_policy "always")
      && not s.acked
    then must world (ack world packet.delivery_id handled s)
    else (returned tt, s)

unfoldable pub handle_delivery :
    Python → World → App → ReceivedPacket → Work → Ran (Unit {0}) × Work
unfolding store_first
handle_delivery py world app packet s =
    and_then (store_first world app packet (record s { acked = false }))
      (λ done s'. conclude world app packet (run_handlers py world app packet s'))

unfoldable pub receive : Python → World → App → Ran ReceivedPacket → Work → Ran (Unit {0}) × Work
receive py world app (threw x) s = (threw x, s)
receive py world app (returned packet) s = handle_delivery py world app packet s

-- The deliveries of one answer, in their order; an exception leaves the rest for the next poll.
unfoldable pub poll_once : Python → World → App → List Incoming → Work → Ran (Unit {0}) × Work
unfolding to_received_packet
poll_once py world app [] s = (returned tt, s)
poll_once py world app (d ∷ ds) s =
    and_then (receive py world app (to_received_packet py d) s)
      (λ done s'. poll_once py world app ds s')
