-- ===== src/Connector/Lifecycle.antt =====
-- Start, Shutdown and CheckConnections of the four kinds of connector, together.
use nats_replicator.Prelude.{
  ℕ, String, ◌≡◌, sym, subst, ◌⊎◌, inl, inr, Option-cases, Bool, true, false, Option, none, some,
  List, arith,
}
use nats_replicator.Float.{Float}
use nats_replicator.Result.{Error, Result, ok, err}
use nats_replicator.Conf.{ConnectorConfig}
use nats_replicator.Client.{Client, SubscriptionOption}
use nats_replicator.Stats.{add_connect, add_disconnect}
use nats_replicator.Nats.{Connections, nats_conn, stan_conn, check_nats, check_stan}
use nats_replicator.Connector.{
  Kind, nats2nats, nats2stan, stan2nats, stan2stan, Connector, Subscription,
}
use nats_replicator.Connector.NatsToNats
use nats_replicator.Connector.NatsToStan
use nats_replicator.Connector.StanToNats
use nats_replicator.Connector.StanToStan
use nats_replicator.Connector.Methods.{start, shutdown, check_connections, start_of, check_of}

module _ ⦃fl : Float⦄ where
  -- What stays fixed for the life of a connector.
  pub record SameConnector (conn conn' : Connector) : Type 0 where
    pub kind : conn'.kind ≡ conn.kind
    pub config : conn'.config ≡ conn.config
    pub id : conn'.stats.stats.id ≡ conn.stats.stats.id
    pub name : conn'.stats.stats.name ≡ conn.stats.stats.name

  abbrev pub is_subscribed : Connector → Bool
  is_subscribed conn = elim conn.subscription [ none ↦ false | some s ↦ true ]

  -- The connection that the callback of a subscription publishes to.
  abbrev pub captured_conn : Option Subscription → Option ℕ
  captured_conn none = none
  captured_conn (some s) = some s.target

  abbrev pub outgoing_conn : Kind → Connections → Connector → Option ℕ
  outgoing_conn nats2nats cs conn = nats_conn cs conn.config.outgoing_connection
  outgoing_conn stan2nats cs conn = nats_conn cs conn.config.outgoing_connection
  outgoing_conn nats2stan cs conn = stan_conn cs conn.config.outgoing_connection
  outgoing_conn stan2stan cs conn = stan_conn cs conn.config.outgoing_connection

  pub record Started (kind : Kind) (client : Client) (cs : Connections) (conn conn' : Connector)
      : Type 0 where
    pub checked : check_of kind client cs conn ≡ none
    pub subscribed : is_subscribed conn' ≡ true
    pub captured : captured_conn conn'.subscription ≡ outgoing_conn kind cs conn
    pub counted : conn'.stats ≡ add_connect conn.stats
    pub same : SameConnector conn conn'

  start_of-Started :
      (kind : Kind) (client : Client) (cs : Connections) (conn : Connector)
      → (start_of kind client cs conn).1 ≡ none
      → Started kind client cs conn (start_of kind client cs conn).0
  unfolding add_connect NatsToNats.start NatsToStan.start StanToNats.start StanToStan.start
      NatsToNats.check_connections NatsToStan.check_connections StanToNats.check_connections
      StanToStan.check_connections
  start_of-Started nats2nats client cs conn h = ground arith
  start_of-Started nats2stan client cs conn h = ground arith
  start_of-Started stan2nats client cs conn h = ground arith
  start_of-Started stan2stan client cs conn h = ground arith

  -- A Start with an error has counted no connect, and has left no subscription that was not there.
  pub record NotStarted (conn conn' : Connector) : Type 0 where
    pub uncounted : conn'.stats ≡ conn.stats
    pub unsubscribed : (conn'.subscription ≡ none) ⊎ (conn'.subscription ≡ conn.subscription)
    pub same : SameConnector conn conn'

  start_of-NotStarted :
      (kind : Kind) (client : Client) (cs : Connections) (conn : Connector) (e : Error)
      → (start_of kind client cs conn).1 ≡ some e
      → NotStarted conn (start_of kind client cs conn).0
  unfolding NatsToNats.start NatsToStan.start StanToNats.start StanToStan.start
  start_of-NotStarted nats2nats client cs conn e h = ground arith
  start_of-NotStarted nats2stan client cs conn e h = ground arith
  start_of-NotStarted stan2nats client cs conn e h = ground arith
  start_of-NotStarted stan2stan client cs conn e h = ground arith

  -- A Start of a connector of any kind without an error: the connections that it requires were
  -- there, the subscription stands, its callback publishes to the outgoing connection, one
  -- connect is counted, and kind, configuration, id and name are kept.
  pub start-Started :
      (client : Client) (cs : Connections) (conn : Connector)
      → (start client cs conn).1 ≡ none
      → Started conn.kind client cs conn (start client cs conn).0
  unfolding start
  start-Started client cs conn h = start_of-Started conn.kind client cs conn h

  -- A Start with an error counts no connect, keeps kind, configuration, id and name, and leaves
  -- the connector without a subscription or with the one that it had.
  pub start-NotStarted :
      (client : Client) (cs : Connections) (conn : Connector) (e : Error)
      → (start client cs conn).1 ≡ some e
      → NotStarted conn (start client cs conn).0
  unfolding start
  start-NotStarted client cs conn e h = start_of-NotStarted conn.kind client cs conn e h

  pub start-SameConnector :
      (client : Client) (cs : Connections) (conn : Connector)
      → SameConnector conn (start client cs conn).0
  start-SameConnector client cs conn = elim (Option-cases (start client cs conn).1) [
    | inl e ↦ (start-Started client cs conn e).same
    | inr (x, e) ↦ (start-NotStarted client cs conn x e).same
  ]

  -- The settings that the kind requires are there.
  abbrev pub configured_of : Kind → ConnectorConfig → Bool
  configured_of nats2nats = NatsToNats.is_configured
  configured_of nats2stan = NatsToStan.is_configured
  configured_of stan2nats = StanToNats.is_configured
  configured_of stan2stan = StanToStan.is_configured

  abbrev pub is_ok : Result ℕ → Bool
  is_ok (ok handle) = true
  is_ok (err e) = false

  -- The servers grant every subscription.
  pub record Grants (client : Client) : Type 0 where
    pub subscribes : (nc : ℕ) (subject : String) → is_ok (client.subscribe nc subject) ≡ true
    pub queues :
        (nc : ℕ) (subject queue : String) → is_ok (client.queue_subscribe nc subject queue) ≡ true
    pub streams :
        (sc : ℕ) (channel : String) (options : List SubscriptionOption)
        → is_ok (client.stan_subscribe sc channel options) ≡ true

  start_of_ready :
      (kind : Kind) (client : Client) (cs : Connections) (conn : Connector)
      → Grants client
      → configured_of kind conn.config ≡ true
      → check_of kind client cs conn ≡ none
      → (start_of kind client cs conn).1 ≡ none
  unfolding NatsToNats.start NatsToStan.start StanToNats.start StanToStan.start
      NatsToNats.check_connections NatsToStan.check_connections StanToNats.check_connections
      StanToStan.check_connections check_nats check_stan
  start_of_ready nats2nats client cs conn g c h = grind (arith, g.subscribes, g.queues)
  start_of_ready nats2stan client cs conn g c h = grind (arith, g.subscribes, g.queues)
  start_of_ready stan2nats client cs conn g c h = grind (arith, g.streams)
  start_of_ready stan2stan client cs conn g c h = grind (arith, g.streams)

  -- A connector with its settings, whose CheckConnections finds nothing, starts without an error,
  -- if the servers grant the subscriptions.
  pub start_ready :
      (client : Client) (cs : Connections) (conn : Connector)
      → Grants client
      → configured_of conn.kind conn.config ≡ true
      → check_connections client cs conn ≡ none
      → (start client cs conn).1 ≡ none
  unfolding start check_connections
  start_ready client cs conn g c h = start_of_ready conn.kind client cs conn g c h

  pub record Stopped (conn conn' : Connector) : Type 0 where
    pub unsubscribed : conn'.subscription ≡ none
    pub counted : conn'.stats ≡ add_disconnect conn.stats
    pub same : SameConnector conn conn'

  -- Shutdown of a connector of any kind always counts a disconnect, leaves no subscription, and
  -- keeps kind, configuration, id and name.
  pub shutdown-Stopped : (conn : Connector) → Stopped conn (shutdown conn).0
  unfolding shutdown NatsToNats.shutdown NatsToStan.shutdown StanToNats.shutdown StanToStan.shutdown
      add_disconnect
  shutdown-Stopped conn = ground arith

  -- The connector has its settings, and its connections are up.
  pub record Ready (client : Client) (cs : Connections) (conn : Connector) : Type 0 where
    pub configured : configured_of conn.kind conn.config ≡ true
    pub up : check_connections client cs conn ≡ none

  start_of_up :
      (kind : Kind) (client : Client) (cs : Connections) (conn : Connector)
      → check_of kind client cs conn ≡ none
      → check_of kind client cs (start_of kind client cs conn).0 ≡ none
  unfolding NatsToNats.start NatsToStan.start StanToNats.start StanToStan.start
      NatsToNats.check_connections NatsToStan.check_connections StanToNats.check_connections
      StanToStan.check_connections
  start_of_up nats2nats client cs conn h = ground arith
  start_of_up nats2stan client cs conn h = ground arith
  start_of_up stan2nats client cs conn h = ground arith
  start_of_up stan2stan client cs conn h = ground arith

  -- A connector that is ready stays so when it is started.
  pub start-Ready :
      (client : Client) (cs : Connections) (conn : Connector)
      → Ready client cs conn
      → Ready client cs (start client cs conn).0
  unfolding start check_connections
  start-Ready client cs conn r = record { configured = configured; up = up }
    where
      same : SameConnector conn (start client cs conn).0
      same = start-SameConnector client cs conn

      configured :
          configured_of (start client cs conn).0.kind (start client cs conn).0.config ≡ true
      configured =
          subst (λ k. configured_of k (start client cs conn).0.config ≡ true) (sym same.kind)
            (subst (λ c. configured_of conn.kind c ≡ true) (sym same.config) r.configured)

      up : check_connections client cs (start client cs conn).0 ≡ none
      up =
          subst (λ k. check_of k client cs (start client cs conn).0 ≡ none) (sym same.kind)
            (start_of_up conn.kind client cs conn r.up)
