-- ===== src/Delivery/Direct.antt =====
-- The messages of a connector to NATS: the callbacks of server/core/stan2nats.go and nats2nats.go,
-- called for one message after the other.
use nats_replicator.Prelude.{
  ℕ, ◌+◌, ◌++◌, sym, length-append, inl, inr, Option-cases, String, ◌≤◌, ◌≡◌, refl, ap, ◌∙◌, Option,
  none, some, List, [], ◌∷◌, map, All, arith, length,
}
use nats_replicator.Prelude.Outcome.{done, done-injective}
use nats_replicator.Float.{Float, FloatLaws, exact_limit}
use nats_replicator.Result.{Error}
use nats_replicator.Conf.{ConnectorConfig}
use nats_replicator.Client.{Message, Effect, publish, ack}
use nats_replicator.Stats.{ConnectorStatsHolder, new_connector_stats_holder}
use nats_replicator.Stats.Requests.{
  apply, apply_all, count_all, no_reports, Shows, IsTimed, apply_all-Shows, Report, All-append,
  apply_all-append,
}
use nats_replicator.Connector.{Connector}
use nats_replicator.Connector.StanToNats
use nats_replicator.Connector.NatsToNats
use nats_replicator.Delivery.{acks}
use nats_replicator.Delivery.Relay.{
  Incoming, delivered, report_for, report_of, length-map, receive_all, all_calls, receive_all_lem,
}

-- The calls that publish the messages that come in, one for each.
abbrev pub relayed : String → ℕ → List Incoming → List Effect
relayed subject target = map (λ (i : Incoming). publish target subject i.msg.payload)

-- Every message is published; one from streaming is acknowledged if Publish has taken it.
abbrev stan_calls : ConnectorConfig → ℕ → Message → Option Error → List Effect
stan_calls config target msg none =
    publish target config.outgoing_subject msg.payload ∷ ack msg ∷ []
stan_calls config target msg (some e) = publish target config.outgoing_subject msg.payload ∷ []

abbrev nats_calls : ConnectorConfig → ℕ → Message → Option Error → List Effect
nats_calls config target msg answer = publish target config.outgoing_subject msg.payload ∷ []

acks-stan_calls :
    (config : ConnectorConfig) (target : ℕ) (is : List Incoming)
    → acks (all_calls stan_calls config target is) ≡ delivered is
acks-stan_calls config target [] = refl
acks-stan_calls config target (i ∷ more) = elim (Option-cases i.answer) [
  | inl e ↦ rw e (ap (λ ms. i.msg ∷ ms) (acks-stan_calls config target more))
  | inr (x, e) ↦ rw e (acks-stan_calls config target more)
]

all_calls-relayed :
    (config : ConnectorConfig) (target : ℕ) (is : List Incoming)
    → all_calls nats_calls config target is ≡ relayed config.outgoing_subject target is
all_calls-relayed config target [] = refl
all_calls-relayed config target (i ∷ more) =
    ap (λ es. publish target config.outgoing_subject i.msg.payload ∷ es)
      (all_calls-relayed config target more)

module _ ⦃fl : Float⦄ where
  stan_apply :
      (conn : Connector) (target : ℕ) (msg : Message) (answer : Option Error) (elapsed : ℕ)
      (st : ConnectorStatsHolder)
      → apply conn.stats (report_for answer (length msg.payload) elapsed) ≡ done st
      → StanToNats.on_message conn target msg answer elapsed
        ≡ done (record {
          connector = record conn { stats = st };
          effects = stan_calls conn.config target msg answer;
          failure = none;
        })
  unfolding StanToNats.on_message apply
  stan_apply conn target msg none elapsed st h = rw h refl
  stan_apply conn target msg (some e) elapsed st h =
      ap
        (λ (s : ConnectorStatsHolder). done (record {
          connector = record conn { stats = s };
          effects = stan_calls conn.config target msg (some e);
          failure = none;
        }))
        (done-injective h)

  nats_apply :
      (conn : Connector) (target : ℕ) (msg : Message) (answer : Option Error) (elapsed : ℕ)
      (st : ConnectorStatsHolder)
      → apply conn.stats (report_for answer (length msg.payload) elapsed) ≡ done st
      → NatsToNats.on_message conn target msg answer elapsed
        ≡ done (record {
          connector = record conn { stats = st };
          effects = nats_calls conn.config target msg answer;
          failure = none;
        })
  unfolding NatsToNats.on_message apply
  nats_apply conn target msg none elapsed st h = rw h refl
  nats_apply conn target msg (some e) elapsed st h =
      ap
        (λ (s : ConnectorStatsHolder). done (record {
          connector = record conn { stats = s };
          effects = nats_calls conn.config target msg (some e);
          failure = none;
        }))
        (done-injective h)

-- A connector, and what it has reported from its creation up to now: its opened subscription, and
-- whatever came before.
module _ ⦃fl : Float⦄ (laws : FloatLaws ⦃fl = fl⦄) (conn : Connector) (name id : String)
    (earlier : List Report)
    (before : apply_all (new_connector_stats_holder name id) earlier ≡ done conn.stats)
    (timed_before : All (IsTimed laws) earlier) (target : ℕ) (is : List Incoming)
    (timed : All (IsTimed laws) (map report_of is))
    (lim : length earlier + length is ≤ exact_limit) where
  reported :
      (st : ConnectorStatsHolder) × (apply_all conn.stats (map report_of is) ≡ done st)
      × Shows st (count_all no_reports (earlier ++ map report_of is))
  reported =
      let (st, e, shows) =
        apply_all-Shows laws name id (earlier ++ map report_of is)
          (All-append (IsTimed laws) earlier (map report_of is) timed_before timed)
          (omega (arith, lim, length-map is, length-append earlier (map report_of is))) in
      (
        st,
        sym (
              apply_all-append (new_connector_stats_holder name id) conn.stats earlier
                (map report_of is) before)
            ∙ e,
        shows,
      )

  -- A connector from streaming to NATS, whose statistics are those of what it has reported since
  -- it was created, of the opened subscription and what came after it, gets messages with times
  -- that the histogram takes, with the reports at most 2^53: no callback panics, exactly the
  -- messages that Publish has taken are acknowledged, in order, and the statistics show the tally
  -- of the earlier reports and of all the messages.
  pub receive_all-Shows :
      (conn' : Connector) × (es : List Effect) × (receive_all StanToNats.on_message conn target is
        ≡ done (conn', es))
      × (acks es ≡ delivered is)
      × Shows conn'.stats (count_all no_reports (earlier ++ map report_of is))
  receive_all-Shows =
      let (st, e, shows) = reported in
      (
        record conn { stats = st },
        all_calls stan_calls conn.config target is,
        receive_all_lem StanToNats.on_message stan_calls stan_apply conn target is st e,
        acks-stan_calls conn.config target is,
        shows,
      )

  -- A connector from NATS to NATS, whose statistics are those of what it has reported since it
  -- was created, of the opened subscription and what came after it, gets messages with times that
  -- the histogram takes, with the reports at most 2^53: no callback panics, each message is
  -- published once, in order, and nothing else is called, and the statistics show the tally of
  -- the earlier reports and of all the messages.
  pub receive_all-relayed :
      (conn' : Connector) × (es : List Effect) × (receive_all NatsToNats.on_message conn target is
        ≡ done (conn', es))
      × (es ≡ relayed conn.config.outgoing_subject target is)
      × Shows conn'.stats (count_all no_reports (earlier ++ map report_of is))
  receive_all-relayed =
      let (st, e, shows) = reported in
      (
        record conn { stats = st },
        all_calls nats_calls conn.config target is,
        receive_all_lem NatsToNats.on_message nats_calls nats_apply conn target is st e,
        all_calls-relayed conn.config target is,
        shows,
      )
