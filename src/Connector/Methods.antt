-- ===== src/Connector/Methods.antt =====
-- The interface Connector of server/core/connector.go: each call goes to the method of the kind.
use nats_replicator.Prelude.{Option, List}
use nats_replicator.Float.{Float}
use nats_replicator.Result.{Error}
use nats_replicator.Client.{Client, Effect}
use nats_replicator.Nats.{Connections}
use nats_replicator.Connector.{Kind, nats2nats, nats2stan, stan2nats, stan2stan, Connector}
use nats_replicator.Connector.NatsToNats
use nats_replicator.Connector.NatsToStan
use nats_replicator.Connector.StanToNats
use nats_replicator.Connector.StanToStan

module _ ⦃fl : Float⦄ where
  abbrev pub start_of : Kind → Client → Connections → Connector → Connector × Option Error
  start_of nats2nats = NatsToNats.start
  start_of nats2stan = NatsToStan.start
  start_of stan2nats = StanToNats.start
  start_of stan2stan = StanToStan.start

  abbrev pub shutdown_of : Kind → Connector → Connector × List Effect
  shutdown_of nats2nats = NatsToNats.shutdown
  shutdown_of nats2stan = NatsToStan.shutdown
  shutdown_of stan2nats = StanToNats.shutdown
  shutdown_of stan2stan = StanToStan.shutdown

  abbrev pub check_of : Kind → Client → Connections → Connector → Option Error
  check_of nats2nats = NatsToNats.check_connections
  check_of nats2stan = NatsToStan.check_connections
  check_of stan2nats = StanToNats.check_connections
  check_of stan2stan = StanToStan.check_connections

  -- Start, Shutdown and CheckConnections of the interface
  unfoldable pub start : Client → Connections → Connector → Connector × Option Error
  start client cs conn = start_of conn.kind client cs conn

  unfoldable pub shutdown : Connector → Connector × List Effect
  shutdown conn = shutdown_of conn.kind conn

  unfoldable pub check_connections : Client → Connections → Connector → Option Error
  check_connections client cs conn = check_of conn.kind client cs conn
