-- ===== src/Delivery/Published.antt =====
-- The messages of a connector from NATS to streaming: the callbacks of server/core/nats2stan.go,
-- with the outgoing server that answers when it wants to.
pub mod Tally
use mathlib.Core.List.{append-nil}
use mathlib.Core.Path.{ap₂}
use nats_replicator.Prelude.{
  ℕ, ◌+◌, ◌≤◌, String, ◌≡◌, refl, sym, ap, subst, ◌∙◌, Option, none, some, List, [], ◌∷◌, ◌++◌, map,
  All, arith, length, length-append,
}
use nats_replicator.Prelude.Outcome.{
  Outcome, done, panics, blocks, ◌>>=◌, done-injective, >>=-eq-done,
}
use nats_replicator.Float.{Float, FloatLaws, exact_limit}
use nats_replicator.Result.{Error}
use nats_replicator.Conf.{ConnectorConfig}
use nats_replicator.Client.{Message, Effect, publish_async}
use nats_replicator.Stats.{ConnectorStatsHolder, add_message_in, new_connector_stats_holder}
use nats_replicator.Stats.Requests.{
  Report, failed, replicated, apply, apply_all, count_all, no_reports, Shows, IsTimed,
  apply_all-append,
}
use nats_replicator.Connector.{Connector, Handled}
use nats_replicator.Connector.NatsToStan.{on_message, on_ack}

-- What a callback reports, by the answer of the outgoing server.
abbrev pub report_for : Option Error → Message → ℕ → Report
report_for none msg elapsed = replicated (length msg.payload) elapsed
report_for (some e) msg elapsed = failed (length msg.payload)

module _ ⦃fl : Float⦄ where
  -- A connector at work: the messages that came in, those of them whose ack handler was not yet
  -- called, and the reports of the others, each in order.
  pub record Flow : Type 0 where
    pub connector : Connector
    pub effects : List Effect
    pub in_flight : List Message
    pub received : List Message
    pub reports : List Report

  abbrev pub idle : Connector → Flow
  idle conn = record { connector = conn; effects = []; in_flight = []; received = []; reports = [] }

  -- A message whose PublishAsync has failed is reported at once; another one is in flight.
  abbrev pub receive : Flow → ℕ → Message → Option Error → Flow
  receive f target msg answer =
      let h = on_message f.connector target msg answer in
      record f {
        connector = h.connector;
        effects = f.effects ++ h.effects;
        received = f.received ++ msg ∷ [];
        in_flight = elim answer [ none ↦ msg ∷ f.in_flight | some e ↦ f.in_flight ];
        reports = elim answer [
          | none ↦ f.reports
          | some e ↦ f.reports ++ report_for (some e) msg 0 ∷ []
        ];
      }

  abbrev pub settle : Flow → Handled → Option Error → Message → ℕ → List Message → Flow
  settle f h answer msg elapsed rest = record f {
    connector = h.connector;
    effects = f.effects ++ h.effects;
    in_flight = rest;
    reports = f.reports ++ report_for answer msg elapsed ∷ [];
  }

module _ ⦃fl : Float⦄ (laws : FloatLaws ⦃fl = fl⦄) (target : ℕ) where
  -- Messages come in at any time, and answers in any order.
  pub data Step (f : Flow) : Flow → Type 0 where
    receives : (msg : Message) (answer : Option Error) → Step f (receive f target msg answer)
    settles :
        (before after : List Message) (msg : Message) (answer : Option Error) (elapsed : ℕ)
        (h : Handled)
        → f.in_flight ≡ before ++ msg ∷ after
        → IsTimed laws (report_for answer msg elapsed)
        → on_ack f.connector msg answer elapsed ≡ done h
        → Step f (settle f h answer msg elapsed (before ++ after))

  pub data Reach (f : Flow) : Flow → Type 0 where
    here : Reach f f
    next : {g k : Flow} → Reach f g → Step g k → Reach f k

-- The calls that publish the messages, one for each, in order.
abbrev pub publications : String → ℕ → List Message → List Effect
publications channel target = map (λ (m : Message). publish_async target channel m.payload)

module _ ⦃fl : Float⦄ where
  bind_done : (m : Outcome ConnectorStatsHolder) → (m >>= λ s. done s) ≡ m
  bind_done (done s) = refl
  bind_done panics = refl
  bind_done blocks = refl

  apply_one : (s : ConnectorStatsHolder) (r : Report) → apply_all s (r ∷ []) ≡ apply s r
  unfolding apply_all
  apply_one s r = bind_done (apply s r)

  -- One more report.
  apply_all-snoc :
      (s s' : ConnectorStatsHolder) (rs : List Report) (r : Report)
      → apply_all s rs ≡ done s'
      → apply_all s (rs ++ r ∷ []) ≡ apply s' r
  apply_all-snoc s s' rs r h = apply_all-append s s' rs (r ∷ []) h ∙ apply_one s' r

  -- A failed PublishAsync is reported, and nothing else changes the connector.
  on_message-apply :
      (conn : Connector) (target : ℕ) (msg : Message) (e : Error)
      → apply conn.stats (report_for (some e) msg 0)
        ≡ done (on_message conn target msg (some e)).connector.stats
  unfolding on_message apply
  on_message-apply conn target msg e = refl

  on_message_lem :
      (conn : Connector) (target : ℕ) (msg : Message) (answer : Option Error)
      → ((on_message conn target msg answer).effects
          ≡ publish_async target conn.config.outgoing_channel msg.payload ∷ [])
        × ((on_message conn target msg answer).connector.config ≡ conn.config)
  unfolding on_message
  on_message_lem conn target msg none = (refl, refl)
  on_message_lem conn target msg (some e) = (refl, refl)

  on_message_launched :
      (conn : Connector) (target : ℕ) (msg : Message)
      → (on_message conn target msg none).connector ≡ conn
  unfolding on_message
  on_message_launched conn target msg = refl

  -- The ack handler reports its message, by the answer that it got.
  on_ack-apply :
      (conn : Connector) (msg : Message) (answer : Option Error) (elapsed : ℕ) (h : Handled)
      → on_ack conn msg answer elapsed ≡ done h
      → (apply conn.stats (report_for answer msg elapsed) ≡ done h.connector.stats)
        × (h.effects ≡ [])
        × (h.connector.config ≡ conn.config)
  unfolding on_ack apply
  on_ack-apply conn msg (some e) elapsed h p = ground arith
  on_ack-apply conn msg none elapsed h p = ground arith

  -- It ends when its report does.
  on_ack_ends :
      (conn : Connector) (msg : Message) (answer : Option Error) (elapsed : ℕ)
      (st : ConnectorStatsHolder)
      → apply conn.stats (report_for answer msg elapsed) ≡ done st
      → (h : Handled) × (on_ack conn msg answer elapsed ≡ done h)
  unfolding on_ack apply
  on_ack_ends conn msg (some e) elapsed st p = (
    record {
      connector = record conn { stats = add_message_in conn.stats (length msg.payload) };
      effects = [];
      failure = some e;
    },
    refl,
  )
  on_ack_ends conn msg none elapsed st p =
      (record { connector = record conn { stats = st }; effects = []; failure = none }, rw p refl)
