-- ===== src/Delivery.antt =====
-- The way of messages through a connector from streaming to streaming: the callbacks of
-- server/core/stan2stan.go, with the outgoing server that answers when it wants to.
pub mod Direct
pub mod Relay
pub mod Published
use mathlib.Core.List.{Mem, mem-cons_self, mem-cons_of_mem}
use nats_replicator.Prelude.{
  ℕ, ◌+◌, ◌%◌, ◌^◌, ◌≡◌, refl, sym, ap, subst, ◌⊎◌, inl, inr, Option, none, some, List, [], ◌∷◌,
  ◌++◌, All, arith, length, length-append,
}
use nats_replicator.Prelude.Int.{add64}
use nats_replicator.Prelude.Outcome.{done}
use nats_replicator.Float.{Float}
use nats_replicator.Result.{Error}
use nats_replicator.Client.{
  Message, Effect, publish, publish_async, ack, unsubscribe, close_subscription, close_nats,
  close_stan,
}
use nats_replicator.Stats.{add_message_in, add_request}
use nats_replicator.Connector.{Connector, Handled}
use nats_replicator.Connector.StanToStan.{on_message, on_ack}

-- The messages that a list of calls acknowledges to the incoming server.
abbrev pub acks : List Effect → List Message
acks [] = []
acks (ack m ∷ es) = m ∷ acks es
acks (_ ∷ es) = acks es

acks-append : (es fs : List Effect) → acks (es ++ fs) ≡ acks es ++ acks fs
acks-append [] fs = refl
acks-append (ack m ∷ es) fs = ap (λ ms. m ∷ ms) (acks-append es fs)
acks-append (publish c s p ∷ es) fs = acks-append es fs
acks-append (publish_async c s p ∷ es) fs = acks-append es fs
acks-append (unsubscribe h ∷ es) fs = acks-append es fs
acks-append (close_subscription h ∷ es) fs = acks-append es fs
acks-append (close_nats c ∷ es) fs = acks-append es fs
acks-append (close_stan c ∷ es) fs = acks-append es fs

module _ ⦃fl : Float⦄ where
  -- A connector at work. `in_flight` are the messages that were passed to the outgoing server and
  -- whose ack handler was not yet called; `confirmed` those that it has confirmed, newest first;
  -- `received` counts the messages that came in.
  pub record Flow : Type 0 where
    pub connector : Connector
    pub effects : List Effect
    pub in_flight : List Message
    pub confirmed : List Message
    pub received : ℕ

  abbrev pub idle : Connector → Flow
  idle conn = record {
    connector = conn;
    effects = [];
    in_flight = [];
    confirmed = [];
    received = 0;
  }

  -- Without an error of PublishAsync the message is in flight.
  abbrev launched : Option Error → Message → List Message → List Message
  launched none msg ms = msg ∷ ms
  launched (some e) msg ms = ms

  abbrev pub receive : Flow → ℕ → Message → Option Error → Flow
  receive f target msg answer =
      let h = on_message f.connector target msg answer in
      record f {
        connector = h.connector;
        effects = f.effects ++ h.effects;
        in_flight = launched answer msg f.in_flight;
        received = f.received + 1;
      }

  -- An ack handler that is called without an error is the confirmation of the outgoing server.
  abbrev confirms : Option Error → Message → List Message → List Message
  confirms none msg ms = msg ∷ ms
  confirms (some e) msg ms = ms

  abbrev pub settle : Flow → Handled → Option Error → Message → List Message → Flow
  settle f h answer msg rest = record f {
    connector = h.connector;
    effects = f.effects ++ h.effects;
    in_flight = rest;
    confirmed = confirms answer msg f.confirmed;
  }

  -- Messages come in at any time, and answers in any order.
  pub data Step (f : Flow) : Flow → Type 0 where
    receives :
        (target : ℕ) (msg : Message) (answer : Option Error) → Step f (receive f target msg answer)
    settles :
        (before after : List Message) (msg : Message) (answer ack_answer : Option Error)
        (elapsed : ℕ) (h : Handled)
        → f.in_flight ≡ before ++ msg ∷ after
        → on_ack f.connector msg answer ack_answer elapsed ≡ done h
        → Step f (settle f h answer msg (before ++ after))

  pub data Reach (f : Flow) : Flow → Type 0 where
    here : Reach f f
    next : {g k : Flow} → Reach f g → Step g k → Reach f k

  -- The ack handler acknowledges its message if it was called without an error, or nothing.
  on_ack-acks :
      (conn : Connector) (msg : Message) (answer ack_answer : Option Error) (elapsed : ℕ)
      (h : Handled)
      → on_ack conn msg answer ack_answer elapsed ≡ done h
      → ((answer ≡ none) × (acks h.effects ≡ msg ∷ [])) ⊎ (acks h.effects ≡ [])
  unfolding on_ack
  on_ack-acks conn msg (some e) ack_answer elapsed h p = ground arith
  on_ack-acks conn msg none (some e) elapsed h p = ground arith
  on_ack-acks conn msg none none elapsed h p = ground arith

  -- Whatever the outcome, it counts one message in.
  on_ack_counts :
      (conn : Connector) (msg : Message) (answer ack_answer : Option Error) (elapsed : ℕ)
      (h : Handled)
      → on_ack conn msg answer ack_answer elapsed ≡ done h
      → h.connector.stats.stats.messages_in ≡ add64 conn.stats.stats.messages_in 1
  unfolding on_ack add_message_in add_request
  on_ack_counts conn msg (some e) ack_answer elapsed h p = ground arith
  on_ack_counts conn msg none (some e) elapsed h p = ground arith
  on_ack_counts conn msg none none elapsed h p = ground arith

  abbrev pub Confirmed : List Message → List Message → Type 0
  Confirmed ms confirmed = All (λ (m : Message). Mem m confirmed) ms

  Confirmed-append :
      (ms ns confirmed : List Message)
      → Confirmed ms confirmed
      → Confirmed ns confirmed
      → Confirmed (ms ++ ns) confirmed
  Confirmed-append [] ns confirmed a b = b
  Confirmed-append (m ∷ ms) ns confirmed (h, a) b = (h, Confirmed-append ms ns confirmed a b)

  Confirmed-confirms :
      (ms confirmed : List Message) (answer : Option Error) (msg : Message)
      → Confirmed ms confirmed
      → Confirmed ms (confirms answer msg confirmed)
  Confirmed-confirms [] confirmed answer msg a = tt
  Confirmed-confirms (m ∷ ms) confirmed none msg (h, a) =
      (mem-cons_of_mem _ h, Confirmed-confirms ms confirmed none msg a)
  Confirmed-confirms (m ∷ ms) confirmed (some e) msg (h, a) =
      (h, Confirmed-confirms ms confirmed (some e) msg a)

  -- What was acknowledged was confirmed, and every message that came in is in flight or counted.
  pub record IsHonest (f : Flow) : Type 0 where
    pub acked : Confirmed (acks f.effects) f.confirmed
    pub counted :
        (f.connector.stats.stats.messages_in + length f.in_flight) % 2 ^ 64 ≡ f.received % 2 ^ 64

  receive-acks :
      (conn : Connector) (target : ℕ) (msg : Message) (answer : Option Error)
      → acks (on_message conn target msg answer).effects ≡ []
  unfolding on_message
  receive-acks conn target msg none = refl
  receive-acks conn target msg (some e) = refl

  receive-counted :
      (f : Flow) (target : ℕ) (msg : Message) (answer : Option Error)
      → IsHonest f
      → ((receive f target msg answer).connector.stats.stats.messages_in
            + length (receive f target msg answer).in_flight)
          % 2 ^ 64
        ≡ (f.received + 1) % 2 ^ 64
  unfolding on_message add_message_in
  receive-counted f target msg none h = omega (arith, h.counted)
  receive-counted f target msg (some e) h = omega (arith, h.counted)

  settle-acked :
      (f : Flow) (msg : Message) (answer : Option Error) (h : Handled)
      → IsHonest f
      → ((answer ≡ none) × (acks h.effects ≡ msg ∷ [])) ⊎ (acks h.effects ≡ [])
      → Confirmed (acks h.effects) (confirms answer msg f.confirmed)
  settle-acked f msg none h k (inl (a, e)) =
      subst (λ ms. Confirmed ms (msg ∷ f.confirmed)) (sym e) (mem-cons_self, tt)
  settle-acked f msg (some x) h k (inl (a, e)) = cc
  settle-acked f msg answer h k (inr e) =
      subst (λ ms. Confirmed ms (confirms answer msg f.confirmed)) (sym e) tt

  Step-IsHonest : {f g : Flow} → Step f g → IsHonest f → IsHonest g
  Step-IsHonest {f} (receives target msg answer) h = record {
    acked =
        subst (λ ms. Confirmed ms f.confirmed)
          (sym (acks-append f.effects (on_message f.connector target msg answer).effects))
          (Confirmed-append (acks f.effects) _ f.confirmed h.acked (
            subst (λ ms. Confirmed ms f.confirmed)
              (sym (receive-acks f.connector target msg answer)) tt));
    counted = receive-counted f target msg answer h;
  }
  Step-IsHonest {f} (settles before after msg answer ack_answer elapsed r e p) h = record {
    acked =
        subst (λ ms. Confirmed ms (confirms answer msg f.confirmed))
          (sym (acks-append f.effects r.effects))
          (Confirmed-append (acks f.effects) (acks r.effects) (confirms answer msg f.confirmed)
            (Confirmed-confirms (acks f.effects) f.confirmed answer msg h.acked)
            (settle-acked f msg answer r h
              (on_ack-acks f.connector msg answer ack_answer elapsed r p)));
    counted = omega (
      arith,
      h.counted,
      on_ack_counts f.connector msg answer ack_answer elapsed r p,
      ap length e,
      length-append before (msg ∷ after),
      length-append before after,
    );
  }

  -- Whatever messages come in to a connector from streaming to streaming that has counted none
  -- before, and in whatever order the servers answer: a message is acknowledged to the incoming
  -- server only if the outgoing server has confirmed it, and each message that came in is in
  -- flight or was counted once, on success and on failure.
  pub Reach-IsHonest :
      (conn : Connector) (f : Flow)
      → conn.stats.stats.messages_in ≡ 0
      → Reach (idle conn) f
      → IsHonest f
  Reach-IsHonest conn f z here = record { acked = tt; counted = omega arith }
  Reach-IsHonest conn f z (next r st) = Step-IsHonest st (Reach-IsHonest conn _ z r)
