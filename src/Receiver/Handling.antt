-- ===== src/Receiver/Handling.antt =====
-- One delivery: what its handling keeps, and when it is acknowledged (apis/appkit/receiver.py).
use arqs.Conventions.Render.{stripped}
use arqs.Server.Inbox.{handled, failed, AckStatus}
use arqs.Receiver.Scripts.{
  Marked, ack-logged, perform-Keeps, Keeps-trans, is_ack, run_script-Keeps, Keeps-self, ack-Keeps,
  must-Keeps, dispatch_handlers-Keeps, and_then-Keeps, Keeps,
}
use arqs.Receiver.Deliveries.{
  handle_delivery, store_first, conclude, handlers_for, run_handlers, App,
}
use arqs.Receiver.{
  did_store, threw, Ran, and_then, perform, returned, ack, must, Work, ReceivedPacket, World,
}
use arqs.Receiver.Commands.{
  has_type, handle_response, run_command, Commands, handle_command, maybe_handle,
}
use arqs.Conventions.{get_correlation_id, Python}
use arqs.Prelude.{
  sym, false≢true, if◌then◌else◌, not, ◌&&◌, ◌||◌, arith, str_eq, ◌∙◌, ap, subst, refl, false, Bool,
  true, has_row, inr, inl, Option-cases, Bool-cases, String, ◌≡◌,
}

run_command-Keeps :
    (py : Python) (world : World) (commands : Commands) (packet : ReceivedPacket) (s : Work)
    → Keeps packet.delivery_id s (run_command py world commands packet s).1
unfolding run_command
run_command-Keeps py world commands packet s =
    elim (Option-cases (commands (stripped py "command" packet.payload))) [
      | inl e ↦ rw (e, run_command) (Keeps-self packet.delivery_id s)
      | inr (handler, e) ↦ rw (e, run_command) (run_script-Keeps world packet.delivery_id _ s)
    ]

handle_response-Keeps :
    (py : Python) (packet : ReceivedPacket) (s : Work)
    → Keeps packet.delivery_id s (handle_response py packet s)
unfolding handle_response
handle_response-Keeps py packet s = elim (Option-cases (get_correlation_id py packet.headers)) [
  | inl e ↦ rw (e, handle_response) (Keeps-self packet.delivery_id s)
  | inr (id, e) ↦ rw (e, handle_response) (record { has = λ p h. h; marked = λ m a. m a })
]

maybe_handle-Keeps :
    (py : Python) (world : World) (commands : Commands) (packet : ReceivedPacket) (s : Work)
    → Keeps packet.delivery_id s (maybe_handle py world commands packet s).1
unfolding maybe_handle handle_command
maybe_handle-Keeps py world commands packet s =
    elim (Bool-cases (has_type "command.response.v1" packet)) [
      | inl b ↦ rw b (handle_response-Keeps py packet s)
      | inr b ↦ elim (Bool-cases (has_type "command.v1" packet)) [
        | inl c ↦
            let r = run_command py world commands packet s in
            rw (b, c)
              (Keeps-trans packet.delivery_id s r.1 _ (run_command-Keeps py world commands packet s)
                (must-Keeps packet.delivery_id world r.1 (perform world _ r.1)
                  (perform-Keeps packet.delivery_id world _ r.1)))
        | inr c ↦ rw (b, c) (Keeps-self packet.delivery_id s)
      ]
    ]

-- The policies that acknowledge a delivery whose handlers succeed.
abbrev pub acknowledges : App → Bool
acknowledges app =
    str_eq app.ack_policy "after_store"
    || (str_eq app.ack_policy "after_handler_success" || str_eq app.ack_policy "always")

module _ (py : Python) (world : World) (app : App) (packet : ReceivedPacket) where
  abbrev id : String
  id = packet.delivery_id

  run_handlers-Keeps : (s : Work) → Keeps id s (run_handlers py world app packet s).1
  unfolding run_handlers
  run_handlers-Keeps s =
      and_then-Keeps id s (maybe_handle py world app.commands packet s) _
        (maybe_handle-Keeps py world app.commands packet s)
        (λ done t. dispatch_handlers-Keeps world packet (handlers_for app packet) t)

  must-ack-Keeps :
      (status : AckStatus) (s : Work) → Keeps id s (must world (ack world id status s)).1
  must-ack-Keeps status s =
      must-Keeps id world s (ack world id status s) (ack-Keeps world id status s)

  must-ack-logged :
      (status : AckStatus) (s s' : Work)
      → must world (ack world id status s) ≡ (returned tt, s')
      → has_row (is_ack id) s'.effects ≡ true
  unfolding must
  must-ack-logged status s s' h = go (ack world id status s) refl h
    where
      go :
          (r : Bool × Work)
          → ack world id status s ≡ r
          → must world r ≡ (returned tt, s')
          → has_row (is_ack id) s'.effects ≡ true
      go (true, t) e k =
          let same : t ≡ s' = ground arith in
          subst (λ (u : Work). has_row (is_ack id) u.effects ≡ true)
            (ap (λ (r : Bool × Work). r.1) e ∙ same)
            (ack-logged world id status s (ap (λ (r : Bool × Work). r.0) e))
      go (false, t) e k = cc

  conclude-Keeps : (r : Ran (Unit {0})) (s : Work) → Keeps id s (conclude world app packet (r, s)).1
  unfolding conclude and_then
  conclude-Keeps (threw x) s = elim (Bool-cases (str_eq app.ack_policy "always" && not s.acked)) [
    | inl b ↦ rw b (
        and_then-Keeps id s (must world (ack world id failed s)) (λ done t. (threw x, t))
          (must-ack-Keeps failed s) (λ done t. Keeps-self id t))
    | inr b ↦ rw b (Keeps-self id s)
  ]
  conclude-Keeps (returned done) s =
      elim (Bool-cases (
        (str_eq app.ack_policy "after_handler_success" || str_eq app.ack_policy "always")
        && not s.acked)) [
          | inl b ↦ rw b (must-ack-Keeps handled s)
          | inr b ↦ rw b (Keeps-self id s)
        ]

  -- Under the two policies that acknowledge in the end, a delivery that is not marked is acknowledged.
  conclude-acked :
      (r : Ran (Unit {0})) (s s' : Work)
      → (str_eq app.ack_policy "after_handler_success" || str_eq app.ack_policy "always") ≡ true
      → Marked id s
      → conclude world app packet (r, s) ≡ (returned tt, s')
      → has_row (is_ack id) s'.effects ≡ true
  unfolding conclude and_then
  conclude-acked (threw x) s s' policy m h =
      absurd (false≢true (sym (threw_stays (must world (ack world id failed s)) h)))
    where
      threw_stays :
          (q : Ran (Unit {0}) × Work)
          → (if str_eq app.ack_policy "always" && not s.acked
              then and_then q (λ done t. (threw x, t))
              else (threw x, s))
            ≡ (returned tt, s')
          → true ≡ false
      threw_stays (returned done, t) k = ground arith
      threw_stays (threw y, t) k = ground arith
  conclude-acked (returned done) s s' policy m h = elim (Bool-cases s.acked) [
    | inl a ↦
        let same : s ≡ s' = ground arith in
        subst (λ (u : Work). has_row (is_ack id) u.effects ≡ true) same (m a)
    | inr a ↦ must-ack-logged handled s s' (ground arith)
  ]

  store_first-Keeps : (s : Work) → Keeps id s (store_first world app packet s).1
  unfolding store_first
  store_first-Keeps s = elim (Bool-cases (str_eq app.ack_policy "after_store")) [
    | inl b ↦ rw b (
        and_then-Keeps id s (must world (perform world (did_store packet) s)) _
          (must-Keeps id world s (perform world (did_store packet) s)
            (perform-Keeps id world (did_store packet) s))
          (λ done t. must-ack-Keeps handled t))
    | inr b ↦ rw b (Keeps-self id s)
  ]

  abbrev rest : Work → Ran (Unit {0}) × Work
  rest s = conclude world app packet (run_handlers py world app packet s)

  rest-Keeps : (s : Work) → Keeps id s (rest s).1
  rest-Keeps s =
      let r = run_handlers py world app packet s in
      Keeps-trans id s r.1 _ (run_handlers-Keeps s) (conclude-Keeps r.0 r.1)

  pub handle_delivery-Keeps :
      (s : Work) → Keeps id (record s { acked = false }) (handle_delivery py world app packet s).1
  unfolding handle_delivery
  handle_delivery-Keeps s =
      and_then-Keeps id (record s { acked = false }) (store_first world app packet _)
        (λ done t. rest t) (store_first-Keeps (record s { acked = false })) (λ done t. rest-Keeps t)

  -- The delivery is acknowledged before the handlers run.
  store_first-logged :
      (s t : Work) (done : Unit {0})
      → str_eq app.ack_policy "after_store" ≡ true
      → store_first world app packet s ≡ (returned done, t)
      → has_row (is_ack id) t.effects ≡ true
  unfolding store_first and_then
  store_first-logged s t done policy h =
      go (must world (perform world (did_store packet) s)) (rw policy at h)
    where
      go :
          (q : Ran (Unit {0}) × Work)
          → and_then q (λ d u. must world (ack world id handled u)) ≡ (returned tt, t)
          → has_row (is_ack id) t.effects ≡ true
      go (returned d, u) k = must-ack-logged handled u t k
      go (threw x, u) k = cc

  pub handle_delivery-acked :
      (s s' : Work)
      → acknowledges app ≡ true
      → handle_delivery py world app packet s ≡ (returned tt, s')
      → has_row (is_ack id) s'.effects ≡ true
  unfolding handle_delivery and_then
  handle_delivery-acked s s' policy h =
      go (store_first world app packet (record s { acked = false })) refl h
    where
      go :
          (q : Ran (Unit {0}) × Work)
          → store_first world app packet (record s { acked = false }) ≡ q
          → and_then q (λ done t. rest t) ≡ (returned tt, s')
          → has_row (is_ack id) s'.effects ≡ true
      go (threw x, t) e k = cc
      go (returned done, t) e k = elim (Bool-cases (str_eq app.ack_policy "after_store")) [
        | inl b ↦
            subst (λ (r : Ran (Unit {0}) × Work). has_row (is_ack id) r.1.effects ≡ true) k
              ((rest-Keeps t).has (is_ack id)
                (store_first-logged (record s { acked = false }) t done b e))
        | inr b ↦
            let r = run_handlers py world app packet t in
            conclude-acked r.0 r.1 s' (ground arith)
              ((run_handlers-Keeps t).marked (
                subst (λ (r : Ran (Unit {0}) × Work). Marked id r.1) e
                  ((store_first-Keeps (record s { acked = false })).marked (λ a. cc))))
              k
      ]
