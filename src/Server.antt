-- ===== src/Server.antt =====
-- server/core/server.go, and the handlers of server/core/nats.go that call into it: connectors that
-- fail are shut down and kept for a restart.
pub mod Startup
pub mod Ticker
pub mod Marks
pub mod Errors
pub mod Checks
pub mod Recovery
pub mod Running
pub mod Closing
pub mod Deadlock
pub mod Tidy
pub mod Restarts
pub mod Flags
pub mod Starting
pub mod Waiting
pub mod Twins
pub mod Threads
pub mod Keys
pub mod Settled
use nats_replicator.Prelude.{
  ℕ, zero, suc, String, Bool, true, false, Option, none, some, List, [], ◌∷◌, ◌++◌, map, get_elem?,
  set, if◌then◌else◌,
}
use nats_replicator.Prelude.Assoc.{Assoc, insert, delete, contains}
use nats_replicator.Prelude.Outcome.{Outcome, done, panics, blocks, ◌>>=◌}
use nats_replicator.Float.{Float}
use nats_replicator.Result.{Error, Result, ok, err}
use nats_replicator.Conf.{NatsConfig, ConnectorConfig, NatsReplicatorConfig}
use nats_replicator.Client.{Client, Effect, close_nats, close_stan}
use nats_replicator.Nats.{Connections, check_nats, connect_to_nats, connect_to_stan, forget_stan}
use nats_replicator.Connector.{Connector, connector_id, create_connector}
use nats_replicator.Connector.Methods
use nats_replicator.State.{Server, Monitor}
use nats_replicator.Monitoring.{Network, start_monitoring, stop_monitoring}

module _ ⦃fl : Float⦄ where
  -- connectorLock.Lock(): a lock that is held and that nobody frees blocks the caller.
  abbrev pub lock_connectors : Server → Outcome Server
  lock_connectors s =
      if s.connector_locked then blocks else done (record s { connector_locked = true })

  abbrev pub unlock_connectors : Server → Server
  unlock_connectors s = record s { connector_locked = false }

  -- Mark the connector at place i for a restart, and shut it down.
  unfoldable pub mark_broken : Server → ℕ → Connector → Server
  mark_broken s i conn =
      let (conn', effects) = Methods.shutdown conn in
      record s {
        need_reconnect = insert (connector_id conn) i s.need_reconnect;
        connectors = set s.connectors i conn';
        effects = s.effects ++ effects;
      }

  -- ConnectorError behind its test of `running`, for the connector at place i.
  abbrev pub error_section : Server → ℕ → Outcome Server
  error_section s i = lock_connectors s >>= λ s'. elim (get_elem? s'.connectors i) [
    | none ↦ panics
    | some conn ↦
        if contains (connector_id conn) s'.need_reconnect
        then done (unlock_connectors s')
        else done (unlock_connectors (mark_broken s' i conn))
  ]

  -- ConnectorError. The error itself is only logged.
  unfoldable pub connector_error : Server → ℕ → Outcome Server
  unfolding mark_broken
  connector_error s i = let locked = error_section s i in if s.running then locked else done s

  -- One round of the loop of checkConnections.
  unfoldable pub check_one : Client → Server → ℕ → Connector → Server
  unfolding mark_broken
  check_one client s i conn =
      if contains (connector_id conn) s.need_reconnect
      then s
      else elim (Methods.check_connections client s.connections conn) [
        | none ↦ s
        | some e ↦ mark_broken s i conn
      ]

  -- The loop of checkConnections: `rest` are the connectors from place i on, which no earlier round
  -- has touched.
  unfoldable pub check_loop : Client → Server → ℕ → List Connector → Server
  unfolding check_one
  check_loop client s i [] = s
  check_loop client s i (conn ∷ rest) = check_loop client (check_one client s i conn) (suc i) rest

  -- checkConnections behind its test of `running`.
  abbrev pub check_section : Client → Server → Outcome Server
  check_section client s =
      lock_connectors s >>= λ s'. done (unlock_connectors (check_loop client s' 0 s'.connectors))

  -- checkConnections
  unfoldable pub check_connections : Client → Server → Outcome Server
  unfolding check_loop
  check_connections client s =
      let locked = check_section client s in if s.running then locked else done s

  -- natsDisconnectErrHandler
  unfoldable pub nats_disconnected : Client → Server → Outcome Server
  unfolding check_connections
  nats_disconnected client s = if s.running then check_connections client s else done s

  -- The handler that connectToSTAN sets for a lost connection `sc` of that name.
  unfoldable pub stan_connection_lost : Client → String → ℕ → Server → Outcome Server
  unfolding check_connections
  stan_connection_lost client name sc s =
      let s' = record s {
        connections = forget_stan name s.connections;
        effects = s.effects ++ close_stan sc ∷ [];
      } in
      if s.running then check_connections client s' else done s
