-- ===== src/Receiver/Silent.antt =====
-- What the receiver (apis/appkit/receiver.py) acknowledges itself, where no handler does.
use arqs.Conventions.Render.{stripped}
use arqs.Receiver.Scripts.{is_ack}
use arqs.Server.Inbox.{handled}
use arqs.Json.{Json, Fields}
use arqs.Receiver.Commands.{has_type, handle_command, handle_response, maybe_handle, run_command}
use arqs.Receiver.Deliveries.{
  store_first, conclude, handle_delivery, handlers_for, run_handlers, App,
}
use arqs.Receiver.{
  did_ack, did_reply, ask_reply, Handler, ask_ack, threw, ClientEffect, ack, returned, throw, Ran,
  ReceivedPacket, World, finish, Script, Work, and_then, dispatch_handlers, must, perform,
  run_script,
}
use arqs.Conventions.{get_correlation_id, Python}
use arqs.Prelude.{
  not, ◌&&◌, ◌||◌, subst, str_eq, ap, eq_refl, if◌then◌else◌, count_rows-insert, refl, [], arith,
  inr, inl, sym, ◌∷◌, All, Bool-cases, false, false≢true, some, ◌+◌, Option-cases, true, Bool, List,
  count_rows, String, ◌∙◌, ◌≡◌,
}

-- The script makes no call of ctx.ack.
abbrev pub IsSilent : {A : Type 0} → Script A → Type 0
IsSilent (finish a) = Unit
IsSilent (throw x) = Unit
IsSilent (ask_ack status next) = true ≡ false
IsSilent (ask_reply reply next) = (b : Bool) → IsSilent (next b)

pub record IsSilentApp (app : App) (packet : ReceivedPacket) : Type 0 where
  pub commands :
      (name : String) (handler : Fields → ReceivedPacket → Script Json) (args : Fields)
      → app.commands name ≡ some handler
      → IsSilent (handler args packet)
  pub handlers : All (λ (h : Handler). IsSilent (h packet)) (handlers_for app packet)

-- No acknowledgement is new, and the mark is as it was.
pub record SameAcks (s s' : Work) : Type 0 where
  pub mark : s'.acked ≡ s.acked
  pub count : (d : String) → count_rows (is_ack d) s'.effects ≡ count_rows (is_ack d) s.effects

SameAcks-self : (s : Work) → SameAcks s s
SameAcks-self s = record { mark = refl; count = λ d. refl }

SameAcks-trans : (s t u : Work) → SameAcks s t → SameAcks t u → SameAcks s u
SameAcks-trans s t u a b = record { mark = b.mark ∙ a.mark; count = λ d. b.count d ∙ a.count d }

abbrev pub has_returned : {A : Type 0} → Ran A → Bool
has_returned (returned a) = true
has_returned (threw x) = false

perform-SameAcks :
    (world : World) (e : ClientEffect) (s : Work)
    → ((d : String) → is_ack d e ≡ false)
    → SameAcks s (perform world e s).1
unfolding perform
perform-SameAcks world e s other = elim (Bool-cases (world.accepts s.effects e)) [
  | inl b ↦ rw b (record {
    mark = refl;
    count = λ d. ground (arith, count_rows-insert (is_ack d) s.effects e, other d);
  })
  | inr b ↦ rw b (SameAcks-self s)
]

run_script-SameAcks :
    {A : Type 0} (world : World) (d : String) (script : Script A) (s : Work)
    → IsSilent script
    → SameAcks s (run_script world d script s).1
unfolding run_script
run_script-SameAcks world d (finish a) s silent = (SameAcks-self s)
run_script-SameAcks world d (throw x) s silent = (SameAcks-self s)
run_script-SameAcks world d (ask_ack status next) s silent = absurd (false≢true (sym silent))
run_script-SameAcks world d (ask_reply reply next) s silent =
    let r = perform world (did_reply reply) s in
    SameAcks-trans s r.1 _ (perform-SameAcks world (did_reply reply) s (λ e. refl))
      (run_script-SameAcks world d (next r.0) r.1 (silent r.0))

and_then-SameAcks :
    {A B : Type 0} (s : Work) (r : Ran A × Work) (next : A → Work → Ran B × Work)
    → SameAcks s r.1
    → ((a : A) (t : Work) → SameAcks t (next a t).1)
    → SameAcks s (and_then r next).1
unfolding and_then
and_then-SameAcks s (returned a, t) next k h = SameAcks-trans s t _ k (h a t)
and_then-SameAcks s (threw x, t) next k h = k

must-SameAcks :
    (world : World) (s : Work) (r : Bool × Work) → SameAcks s r.1 → SameAcks s (must world r).1
unfolding must
must-SameAcks world s (true, t) k = k
must-SameAcks world s (false, t) k = k

dispatch_handlers-SameAcks :
    (world : World) (packet : ReceivedPacket) (handlers : List Handler) (s : Work)
    → All (λ (h : Handler). IsSilent (h packet)) handlers
    → SameAcks s (dispatch_handlers world packet handlers s).1
unfolding dispatch_handlers
dispatch_handlers-SameAcks world packet [] s silent = (SameAcks-self s)
dispatch_handlers-SameAcks world packet (h ∷ hs) s silent =
    and_then-SameAcks s (run_script world packet.delivery_id (h packet) s)
      (λ done t. dispatch_handlers world packet hs t)
      (run_script-SameAcks world packet.delivery_id (h packet) s silent.0)
      (λ done t. dispatch_handlers-SameAcks world packet hs t silent.1)

module _ (py : Python) (world : World) (app : App) (packet : ReceivedPacket)
    (silent : IsSilentApp app packet) where
  run_command-SameAcks : (s : Work) → SameAcks s (run_command py world app.commands packet s).1
  unfolding run_command
  run_command-SameAcks s =
      elim (Option-cases (app.commands (stripped py "command" packet.payload))) [
        | inl e ↦ rw (e, run_command) (SameAcks-self s)
        | inr (handler, e) ↦
            rw (e, run_command)
              (run_script-SameAcks world packet.delivery_id _ s (silent.commands _ handler _ e))
      ]

  handle_response-SameAcks : (s : Work) → SameAcks s (handle_response py packet s)
  unfolding handle_response
  handle_response-SameAcks s = elim (Option-cases (get_correlation_id py packet.headers)) [
    | inl e ↦ rw (e, handle_response) (SameAcks-self s)
    | inr (id, e) ↦ rw (e, handle_response) (record { mark = refl; count = λ d. refl })
  ]

  maybe_handle-SameAcks : (s : Work) → SameAcks s (maybe_handle py world app.commands packet s).1
  unfolding maybe_handle handle_command
  maybe_handle-SameAcks s = elim (Bool-cases (has_type "command.response.v1" packet)) [
    | inl b ↦ rw b (handle_response-SameAcks s)
    | inr b ↦ elim (Bool-cases (has_type "command.v1" packet)) [
      | inl c ↦
          let r = run_command py world app.commands packet s in
          rw (b, c)
            (SameAcks-trans s r.1 _ (run_command-SameAcks s) (
              must-SameAcks world r.1 (perform world _ r.1)
                (perform-SameAcks world _ r.1 (λ d. refl))))
      | inr c ↦ rw (b, c) (SameAcks-self s)
    ]
  ]

  run_handlers-SameAcks : (s : Work) → SameAcks s (run_handlers py world app packet s).1
  unfolding run_handlers
  run_handlers-SameAcks s =
      and_then-SameAcks s (maybe_handle py world app.commands packet s) _ (maybe_handle-SameAcks s)
        (λ done t.
          dispatch_handlers-SameAcks world packet (handlers_for app packet) t silent.handlers)

  -- The final acknowledgement is logged once, or it raises and is not logged.
  must-ack-count :
      (s : Work)
      → count_rows
          (is_ack packet.delivery_id)
          (must world (ack world packet.delivery_id handled s)).1.effects
        ≡ count_rows (is_ack packet.delivery_id) s.effects
          + (if has_returned (must world (ack world packet.delivery_id handled s)).0 then 1 else 0)
  unfolding must ack perform
  must-ack-count s =
      elim (Bool-cases (world.accepts s.effects (did_ack packet.delivery_id handled))) [
        | inl b ↦ rw b (
            ground (
              arith,
              count_rows-insert (is_ack packet.delivery_id) s.effects
                  (did_ack packet.delivery_id handled),
              eq_refl packet.delivery_id,
            ))
        | inr b ↦ rw b (omega arith)
      ]

  policy_test :
      (name : String) (b : Bool)
      → app.ack_policy ≡ "after_handler_success"
      → str_eq "after_handler_success" name ≡ b
      → str_eq app.ack_policy name ≡ b
  policy_test name b policy h = subst (λ q. str_eq q name ≡ b) (sym policy) h

  conclude-count :
      (r : Ran (Unit {0})) (s : Work)
      → app.ack_policy ≡ "after_handler_success"
      → s.acked ≡ false
      → count_rows (is_ack packet.delivery_id) (conclude world app packet (r, s)).1.effects
        ≡ count_rows (is_ack packet.delivery_id) s.effects
          + (if has_returned (conclude world app packet (r, s)).0 then 1 else 0)
  unfolding conclude
  conclude-count (threw x) s policy unmarked =
      rw (policy_test "always" false policy refl) (omega arith)
  conclude-count (returned done) s policy unmarked =
      let test : ((str_eq app.ack_policy "after_handler_success" || str_eq app.ack_policy "always")
            && not s.acked)
          ≡ true =
        ground (arith, policy_test "after_handler_success" true policy refl) in
      rw test (must-ack-count s)

  -- Under the policy "after_handler_success", where no handler acknowledges the packet itself, a
  -- delivery that is handled is acknowledged once if the handlers and the call succeed, and not at
  -- all if an exception leaves the receiver: the server keeps the delivery then.
  pub handle_delivery-count :
      (s : Work)
      → app.ack_policy ≡ "after_handler_success"
      → count_rows (is_ack packet.delivery_id) (handle_delivery py world app packet s).1.effects
        ≡ count_rows (is_ack packet.delivery_id) s.effects
          + (if has_returned (handle_delivery py world app packet s).0 then 1 else 0)
  unfolding handle_delivery store_first and_then
  handle_delivery-count s policy =
      let fresh : Work = record s { acked = false } in
      let r = run_handlers py world app packet fresh in
      let same = run_handlers-SameAcks fresh in
      let counted = conclude-count r.0 r.1 policy same.mark in
      let before = same.count packet.delivery_id in
      let kept =
        ap (λ n. n + (if has_returned (conclude world app packet r).0 then 1 else 0)) before in
      rw (policy_test "after_store" false policy refl) (counted ∙ kept)
