-- ===== src/Connector/StanToNats.antt =====
-- server/core/stan2nats.go: a connector from a streaming channel to a NATS subject.
use nats_replicator.Prelude.{
  ℕ, ◌==◌, Bool, not, ◌||◌, Option, none, some, List, [], ◌∷◌, length, if◌then◌else◌,
}
use nats_replicator.Prelude.Outcome.{Outcome, done, ◌>>=◌}
use nats_replicator.Float.{Float}
use nats_replicator.Result.{
  Error, Result, ok, err, improperly_configured, requires_nats, requires_stan,
}
use nats_replicator.Conf.{ConnectorConfig}
use nats_replicator.Client.{Client, Message, Effect, publish, ack, close_subscription}
use nats_replicator.Stats.{add_message_in, add_request, add_connect, add_disconnect}
use nats_replicator.Nats.{Connections, nats_conn, stan_conn, check_nats, check_stan}
use nats_replicator.Connector.{Connector, Handled, connector_name, create_subscriber_options}

module _ ⦃fl : Float⦄ where
  open_subscription : Client → ConnectorConfig → ℕ → Result ℕ
  open_subscription client config sc =
      client.stan_subscribe sc config.incoming_channel (create_subscriber_options config)

  -- The settings that Start requires.
  unfoldable pub is_configured : ConnectorConfig → Bool
  is_configured config = not (
      config.incoming_connection == ""
      || config.outgoing_connection == ""
      || config.incoming_channel == ""
      || config.outgoing_subject == "")

  -- The last part of Start: subscribe, with a callback that has captured the outgoing connection.
  subscribe_to : Client → Connector → ℕ → ℕ → Connector × Option Error
  unfolding open_subscription
  subscribe_to client conn incoming target = elim (open_subscription client conn.config incoming) [
    | err e ↦ (conn, some e)
    | ok handle ↦ (
      record conn {
        subscription = some (record { handle = handle; target = target });
        stats = add_connect conn.stats;
      },
      none,
    )
  ]

  -- Start
  unfoldable pub start : Client → Connections → Connector → Connector × Option Error
  unfolding subscribe_to
  start client cs conn =
      let config = conn.config in
      let name = connector_name conn in
      if not (is_configured config)
      then (conn, some (improperly_configured name))
      else if not (check_stan cs config.incoming_connection)
      then (conn, some (requires_nats name config.incoming_connection))
      else if not (check_nats client cs config.outgoing_connection)
      then (conn, some (requires_stan name config.outgoing_connection))
      else elim (nats_conn cs config.outgoing_connection) [
        | none ↦ (conn, some (requires_nats name config.outgoing_connection))
        | some target ↦ elim (stan_conn cs config.incoming_connection) [
          | none ↦ (conn, some (requires_stan name config.incoming_connection))
          | some incoming ↦ subscribe_to client conn incoming target
        ]
      ]

  -- Shutdown: the error of the client library is dropped.
  unfoldable pub shutdown : Connector → Connector × List Effect
  shutdown conn = (
    record conn { stats = add_disconnect conn.stats; subscription = none },
    elim conn.subscription [ none ↦ [] | some s ↦ close_subscription s.handle ∷ [] ],
  )

  -- CheckConnections
  unfoldable pub check_connections : Client → Connections → Connector → Option Error
  check_connections client cs conn =
      let config = conn.config in
      if not (check_stan cs config.incoming_connection)
      then some (requires_stan (connector_name conn) config.incoming_connection)
      else if not (check_nats client cs config.outgoing_connection)
      then some (requires_nats (connector_name conn) config.outgoing_connection)
      else none

  -- The callback of Start: `answer` is the error of Publish. The error of `msg.Ack` is dropped.
  unfoldable pub on_message : Connector → ℕ → Message → Option Error → ℕ → Outcome Handled
  on_message conn target msg answer elapsed =
      let l = length msg.payload in
      let sent = publish target conn.config.outgoing_subject msg.payload in
      elim answer [
        | some e ↦ done (record {
          connector = record conn { stats = add_message_in conn.stats l };
          effects = sent ∷ [];
          failure = none;
        })
        | none ↦ add_request conn.stats l l elapsed >>= λ stats. done (record {
          connector = record conn { stats = stats };
          effects = sent ∷ ack msg ∷ [];
          failure = none;
        })
      ]
