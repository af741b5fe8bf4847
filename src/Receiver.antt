-- ===== src/Receiver.antt =====
-- apis/appkit/receiver.py: how a client handles the deliveries of a poll. A handler is the application's code:
-- a script of the calls that it makes through its context, each of which may fail, and of what it does
-- then. The server and the network are a parameter that says which calls succeed.
pub mod Commands
pub mod Deliveries
pub mod Scripts
pub mod Handling
pub mod Acks
pub mod Answers
pub mod Silent
use arqs.Conventions.Decode.{DecodeError}
use arqs.Conventions.Render.{Rendered}
use arqs.Json.{Json, Fields}
use arqs.Server.Inbox.{AckStatus}
use arqs.Prelude.{[], false, ◌++◌, true, Option, if◌then◌else◌, ◌∷◌, Bool, List, String, ◌≡◌}

pub record ReceivedPacket : Type 0 where
  pub delivery_id : String
  pub packet_id : String
  pub from_endpoint_id : String
  pub to_endpoint_id : String
  pub arqs_type : Option String
  pub headers : Fields
  pub body : Option String
  pub text : Option Rendered
  pub payload : Fields
  pub meta : Fields
  pub decode_errors : List DecodeError

-- An exception's class and text.
pub record Exn : Type 0 where
  pub name : String
  pub message : String

-- The arguments of ctx.reply, which is app.send_type with the ends of the packet turned round.
pub record Reply : Type 0 where
  pub from_endpoint_id : String
  pub to_endpoint_id : String
  pub arqs_type : String
  pub body : String
  pub payload : Fields
  pub correlation_id : Option String
  pub causation_id : Option String

pub data ClientEffect : Type 0 where
  did_store : ReceivedPacket → ClientEffect
  did_ack : String → AckStatus → ClientEffect
  did_reply : Reply → ClientEffect

-- The body of a handler. A call takes what follows when it succeeds (`true`) and when it raises.
pub data Script (A : Type 0) : Type 0 where
  finish : A → Script A
  throw : Exn → Script A
  ask_ack : AckStatus → (Bool → Script A) → Script A
  ask_reply : Reply → (Bool → Script A) → Script A

pub record CommandResponse : Type 0 where
  pub success : Bool
  pub command_id : String
  pub correlation_id : String
  pub result : Option Json
  pub error_type : Option String
  pub error_message : Option String

-- What the receiver changes: the calls so far, `acked` of the delivery in hand, and the dispatcher's
-- waiters, each with its response if it is set.
pub record Work : Type 0 where
  pub effects : List ClientEffect
  pub acked : Bool
  pub waiters : List (String × Option CommandResponse)

pub record World : Type 0 where
  pub accepts : List ClientEffect → ClientEffect → Bool
  pub failure : Exn
  pub now : String

pub data Ran (A : Type 0) : Type 0 where
  returned : A → Ran A
  threw : Exn → Ran A

unfoldable pub perform : World → ClientEffect → Work → Bool × Work
perform world e s =
    if world.accepts s.effects e
    then (true, record s { effects = s.effects ++ e ∷ [] })
    else (false, s)

mark : Bool × Work → Bool × Work
mark (true, s) = (true, record s { acked = true })
mark (false, s) = (false, s)

-- The closure `ack`, and ctx.ack.
unfoldable pub ack : World → String → AckStatus → Work → Bool × Work
unfolding perform mark
ack world delivery_id status s = mark (perform world (did_ack delivery_id status) s)

unfoldable pub run_script : {A : Type 0} → World → String → Script A → Work → Ran A × Work
run_script world d (finish a) s = (returned a, s)
run_script world d (throw x) s = (threw x, s)
run_script world d (ask_ack status next) s =
    let r = ack world d status s in run_script world d (next r.0) r.1
run_script world d (ask_reply reply next) s =
    let r = perform world (did_reply reply) s in run_script world d (next r.0) r.1

-- A call whose exception is not caught.
unfoldable pub must : World → Bool × Work → Ran (Unit {0}) × Work
must world (true, s) = (returned tt, s)
must world (false, s) = (threw world.failure, s)

unfoldable pub and_then : {A B : Type 0} → Ran A × Work → (A → Work → Ran B × Work) → Ran B × Work
and_then (returned a, s) next = next a s
and_then (threw x, s) next = (threw x, s)

abbrev pub Handler : Type 0
Handler = ReceivedPacket → Script (Unit {0})

-- The handlers of the packet's type, then those of "*", which the caller has put together.
unfoldable pub dispatch_handlers :
    World → ReceivedPacket → List Handler → Work → Ran (Unit {0}) × Work
dispatch_handlers world packet [] s = (returned tt, s)
dispatch_handlers world packet (handler ∷ handlers) s =
    and_then (run_script world packet.delivery_id (handler packet) s)
      (λ done s'. dispatch_handlers world packet handlers s')
