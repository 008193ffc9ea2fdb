-- ===== src/Server/Startup.antt =====
-- Start and Stop of server/core/server.go.
use nats_replicator.Prelude.{
  length, ℕ, ◌+◌, true, false, Option, none, some, List, [], ◌∷◌, ◌++◌, eqb, if◌then◌else◌,
}
use nats_replicator.Prelude.Assoc.{Assoc}
use nats_replicator.Prelude.Outcome.{Outcome, done, blocks, ◌>>=◌}
use nats_replicator.Float.{Float}
use nats_replicator.Result.{Error, ok, err}
use nats_replicator.Conf.{ConnectorConfig}
use nats_replicator.Client.{Client, Effect, close_nats, close_stan}
use nats_replicator.Nats.{Connections, connect_to_nats, connect_to_stan}
use nats_replicator.Connector.{Connector, create_connector}
use nats_replicator.Connector.Methods
use nats_replicator.State.{Server}
use nats_replicator.Monitoring.{Network, start_monitoring, stop_monitoring}
use nats_replicator.Server.{lock_connectors, unlock_connectors}

module _ ⦃fl : Float⦄ where
  -- A step of Start that may end it with an error.
  abbrev pub and_then :
      Server × Option Error → (Server → Server × Option Error) → Server × Option Error
  and_then (s, none) next = next s
  and_then (s, some e) next = (s, some e)

  -- initializeConnectors: the loop over the configurations. Each connector has its own call of
  -- nuid.Next.
  unfoldable pub initialize_connectors :
      Client → List ConnectorConfig → List Connector → List Connector × Option Error
  initialize_connectors client [] conns = (conns, none)
  initialize_connectors client (config ∷ rest) conns =
      elim (create_connector client (length conns) config) [
        | err e ↦ (conns, some e)
        | ok conn ↦ initialize_connectors client rest (conns ++ conn ∷ [])
      ]

  -- startConnectors: the first error ends the loop.
  unfoldable pub start_connectors :
      Client → Connections → List Connector → List Connector × Option Error
  start_connectors client cs [] = ([], none)
  start_connectors client cs (conn ∷ rest) =
      let (conn', e) = Methods.start client cs conn in
      let (rest', e') = start_connectors client cs rest in
      elim e [ none ↦ (conn' ∷ rest', e') | some x ↦ (conn' ∷ rest, some x) ]

  -- The steps of Start, each on the server.
  abbrev pub reset : ℕ → Server → Server
  reset now s = record s {
    running = true;
    start_time = now;
    connectors = [];
    need_reconnect = [];
    cancel = 0;
  }

  abbrev pub nats_step : Client → Server → Server × Option Error
  nats_step client s =
      let (cs, e) = connect_to_nats client s.config.nats s.connections in
      (record s { connections = cs }, e)

  abbrev pub stan_step : Client → Server → Server × Option Error
  stan_step client s =
      let (cs, e) = connect_to_stan client s.config.stan s.connections in
      (record s { connections = cs }, e)

  abbrev pub initialize_step : Client → Server → Server × Option Error
  initialize_step client s =
      let (conns, e) = initialize_connectors client s.config.connect s.connectors in
      (record s { connectors = conns }, e)

  abbrev pub start_step : Client → Server → Server × Option Error
  start_step client s =
      let (conns, e) = start_connectors client s.connections s.connectors in
      (record s { connectors = conns }, e)

  abbrev pub monitor_step : Network → Server → Server × Option Error
  monitor_step net s =
      let (mon, e) = start_monitoring net s.config.monitoring s.monitor in
      (record s { monitor = mon }, e)

  -- Start, at the time `now`. The ticker starts when there is no error.
  unfoldable pub start : Client → Network → ℕ → Server → Server × Option Error
  start client net now s =
      and_then
        (and_then
          (and_then (and_then (nats_step client (reset now s)) (stan_step client))
            (initialize_step client))
          (start_step client))
        (monitor_step net)

  -- The loop of Stop over the connectors.
  unfoldable pub shutdown_all : List Connector → List Connector × List Effect
  shutdown_all [] = ([], [])
  shutdown_all (conn ∷ rest) =
      let (conn', effects) = Methods.shutdown conn in
      let (rest', effects') = shutdown_all rest in (conn' ∷ rest', effects ++ effects')

  -- The loops of Stop over the maps of connections, which never hold nil: only the connections that
  -- a call has returned are entered.
  abbrev pub close_each : (ℕ → Effect) → Assoc (Option ℕ) → List Effect
  close_each close [] = []
  close_each close ((name, none) ∷ m) = close_each close m
  close_each close ((name, some c) ∷ m) = close c ∷ close_each close m

  -- Stop, up to the send to `cancelReconnect`, which has room for one value.
  unfoldable pub stop_begin : Server → Outcome Server
  stop_begin s =
      let s' = record s { running = false; cancel = s.cancel + 1 } in
      if eqb s.cancel 0 then done s' else blocks

  -- Stop closes the connectors, under `connectorLock`.
  unfoldable pub close_connectors : Server → Outcome Server
  unfolding shutdown_all
  close_connectors s = lock_connectors s >>= λ s'.
      let (conns, effects) = shutdown_all s'.connectors in
      done (unlock_connectors (record s' { connectors = conns; effects = s'.effects ++ effects }))

  -- It closes the connections, under `natsLock`.
  unfoldable pub close_connections : Server → Server
  close_connections s = record s {
    effects =
        s.effects
        ++ (close_each close_stan s.connections.stan ++ close_each close_nats s.connections.nats);
  }

  -- It ends the HTTP server, under the lock of the server; `answer` is the error of its Shutdown.
  unfoldable pub end_monitoring : Option Error → Server → Server
  end_monitoring answer s = record s { monitor = (stop_monitoring answer s.monitor).0 }

  -- The rest of Stop, when no other thread runs between its parts.
  unfoldable pub stop_finish : Option Error → Server → Outcome Server
  unfolding close_connectors close_connections end_monitoring
  stop_finish answer s =
      close_connectors s >>= λ s'. done (end_monitoring answer (close_connections s'))

  -- Stop, when no other thread runs between its parts: Server.Threads has them in any order.
  unfoldable pub stop : Option Error → Server → Outcome Server
  unfolding stop_begin stop_finish
  stop answer s =
      let stopped = stop_begin s >>= stop_finish answer in if s.running then stopped else done s

  -- natsClosed: a closed NATS connection stops a running server, in a thread of its own.
  unfoldable pub nats_closed : Option Error → Server → Outcome Server
  unfolding stop
  nats_closed answer s = if s.running then stop answer s else done s
