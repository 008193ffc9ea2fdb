-- ===== src/State.antt =====
-- The state of the server: NATSReplicator of server/core/server.go.
use nats_replicator.Prelude.{ℕ, String, Bool, Option, List}
use nats_replicator.Prelude.Assoc.{Assoc}
use nats_replicator.Float.{Float}
use nats_replicator.Conf.{NatsReplicatorConfig}
use nats_replicator.Client.{Effect}
use nats_replicator.Nats.{Connections}
use nats_replicator.Connector.{Connector}

-- The HTTP side. `http_req_stats` is a map that is nil until monitoring starts; `http` stands for
-- the server and its handler, which are set and cleared together.
pub record Monitor : Type 0 where
  pub http_req_stats : Option (Assoc ℕ)
  pub listener : Option ℕ
  pub http : Option ℕ
  pub monitoring_url : String

-- The slice of connectors holds pointers: a connector is known by its place in it, also in
-- `need_reconnect`. `connector_locked` says that `connectorLock` is held, `cancel` how many values
-- wait in the channel `cancelReconnect`. The calls to the client libraries are kept in `effects`.
pub record Server ⦃fl : Float⦄ : Type 0 where
  pub running : Bool
  pub start_time : ℕ  -- nanoseconds
  pub config : NatsReplicatorConfig
  pub connections : Connections
  pub connectors : List Connector
  pub need_reconnect : Assoc ℕ
  pub connector_locked : Bool
  pub cancel : ℕ
  pub monitor : Monitor
  pub effects : List Effect
