-- ===== src/Receiver/Scripts.antt =====
-- What the calls of a handler leave of the log of the calls, and of the mark that the delivery is acked.
use arqs.Server.Inbox.{AckStatus}
use arqs.Receiver.{
  ask_reply, did_reply, ask_ack, did_store, Handler, threw, throw, did_ack, finish, returned, Ran,
  ReceivedPacket, Script, ClientEffect, Work, World, ack, and_then, dispatch_handlers, must,
  perform, run_script,
}
use arqs.Prelude.{
  refl, [], eq_refl, inr, has_row-insert_new, has_row-insert_old, ◌∷◌, false, inl, str_eq,
  Bool-cases, List, has_row, ◌∙◌, Bool, arith, sym, true, String, ◌≡◌,
}

abbrev pub is_ack : String → ClientEffect → Bool
is_ack d (did_ack e status) = str_eq e d
is_ack d (did_store packet) = false
is_ack d (did_reply reply) = false

-- `acked` is set only if the log has the acknowledgement.
abbrev pub Marked : String → Work → Type 0
Marked d s = s.acked ≡ true → has_row (is_ack d) s.effects ≡ true

-- The log only grows, and the mark stays true to it.
pub record Keeps (d : String) (s s' : Work) : Type 0 where
  pub has : (p : ClientEffect → Bool) → has_row p s.effects ≡ true → has_row p s'.effects ≡ true
  pub marked : Marked d s → Marked d s'

pub Keeps-self : (d : String) (s : Work) → Keeps d s s
Keeps-self d s = record { has = λ p h. h; marked = λ m. m }

pub Keeps-trans : (d : String) (s t u : Work) → Keeps d s t → Keeps d t u → Keeps d s u
Keeps-trans d s t u a b = record {
  has = λ p h. b.has p (a.has p h);
  marked = λ m. b.marked (a.marked m);
}

pub perform-has :
    (world : World) (e : ClientEffect) (s : Work) (p : ClientEffect → Bool)
    → has_row p s.effects ≡ true
    → has_row p (perform world e s).1.effects ≡ true
unfolding perform
perform-has world e s p h = elim (Bool-cases (world.accepts s.effects e)) [
  | inl b ↦ rw b (has_row-insert_old p s.effects e h)
  | inr b ↦ rw b h
]

perform-acked :
    (world : World) (e : ClientEffect) (s : Work) → (perform world e s).1.acked ≡ s.acked
unfolding perform
perform-acked world e s = ground arith

pub perform-Keeps :
    (d : String) (world : World) (e : ClientEffect) (s : Work) → Keeps d s (perform world e s).1
perform-Keeps d world e s = record {
  has = perform-has world e s;
  marked = λ m a. perform-has world e s (is_ack d) (m (sym (perform-acked world e s) ∙ a));
}

pub ack-Keeps :
    (world : World) (d : String) (status : AckStatus) (s : Work)
    → Keeps d s (ack world d status s).1
unfolding ack perform
ack-Keeps world d status s = elim (Bool-cases (world.accepts s.effects (did_ack d status))) [
  | inl b ↦ rw b (record {
    has = λ p h. has_row-insert_old p s.effects (did_ack d status) h;
    marked = λ m a. has_row-insert_new (is_ack d) s.effects (did_ack d status) (eq_refl d);
  })
  | inr b ↦ rw b (Keeps-self d s)
]

-- A call that succeeds is in the log.
pub ack-logged :
    (world : World) (d : String) (status : AckStatus) (s : Work)
    → (ack world d status s).0 ≡ true
    → has_row (is_ack d) (ack world d status s).1.effects ≡ true
unfolding ack perform
ack-logged world d status s h = elim (Bool-cases (world.accepts s.effects (did_ack d status))) [
  | inl b ↦ rw b (has_row-insert_new (is_ack d) s.effects (did_ack d status) (eq_refl d))
  | inr b ↦ absurd (ground arith)
]

pub run_script-Keeps :
    {A : Type 0} (world : World) (d : String) (script : Script A) (s : Work)
    → Keeps d s (run_script world d script s).1
unfolding run_script
run_script-Keeps world d (finish a) s = Keeps-self d s
run_script-Keeps world d (throw x) s = Keeps-self d s
run_script-Keeps world d (ask_ack status next) s =
    let r = ack world d status s in
    Keeps-trans d s r.1 _ (ack-Keeps world d status s) (run_script-Keeps world d (next r.0) r.1)
run_script-Keeps world d (ask_reply reply next) s =
    let r = perform world (did_reply reply) s in
    Keeps-trans d s r.1 _ (perform-Keeps d world (did_reply reply) s)
      (run_script-Keeps world d (next r.0) r.1)

pub and_then-Keeps :
    {A B : Type 0} (d : String) (s : Work) (r : Ran A × Work) (next : A → Work → Ran B × Work)
    → Keeps d s r.1
    → ((a : A) (t : Work) → Keeps d t (next a t).1)
    → Keeps d s (and_then r next).1
unfolding and_then
and_then-Keeps d s (returned a, t) next k h = Keeps-trans d s t _ k (h a t)
and_then-Keeps d s (threw x, t) next k h = k

pub must-Keeps :
    (d : String) (world : World) (s : Work) (r : Bool × Work)
    → Keeps d s r.1
    → Keeps d s (must world r).1
unfolding must
must-Keeps d world s (true, t) k = k
must-Keeps d world s (false, t) k = k

pub dispatch_handlers-Keeps :
    (world : World) (packet : ReceivedPacket) (handlers : List Handler) (s : Work)
    → Keeps packet.delivery_id s (dispatch_handlers world packet handlers s).1
unfolding dispatch_handlers
dispatch_handlers-Keeps world packet [] s = Keeps-self packet.delivery_id s
dispatch_handlers-Keeps world packet (h ∷ hs) s =
    and_then-Keeps packet.delivery_id s (run_script world packet.delivery_id (h packet) s)
      (λ done t. dispatch_handlers world packet hs t)
      (run_script-Keeps world packet.delivery_id (h packet) s)
      (λ done t. dispatch_handlers-Keeps world packet hs t)

pub and_then-has :
    {A B : Type 0} (p : ClientEffect → Bool) (r : Ran A × Work) (next : A → Work → Ran B × Work)
    → has_row p r.1.effects ≡ true
    → ((a : A) (t : Work) → has_row p t.effects ≡ true → has_row p (next a t).1.effects ≡ true)
    → has_row p (and_then r next).1.effects ≡ true
unfolding and_then
and_then-has p (returned a, t) next k h = h a t k
and_then-has p (threw x, t) next k h = k

-- What returns has run both parts.
pub and_then-returned :
    (r : Ran (Unit {0}) × Work) (next : Unit {0} → Work → Ran (Unit {0}) × Work) (s' : Work)
    → and_then r next ≡ (returned tt, s')
    → (t : Work) × (r ≡ (returned tt, t)) × (next tt t ≡ (returned tt, s'))
unfolding and_then
and_then-returned (returned done, t) next s' h = (t, refl, h)
and_then-returned (threw x, t) next s' h = absurd (cc)
