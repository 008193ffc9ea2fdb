-- ===== src/Server/Ticker.antt =====
-- The reconnect ticker of server/core/server.go.
use nats_replicator.Prelude.{
  ℕ, String, Bool, true, false, none, some, List, [], ◌∷◌, get_elem?, set, if◌then◌else◌,
}
use nats_replicator.Prelude.Assoc.{Assoc, delete}
use nats_replicator.Prelude.Outcome.{Outcome, done, panics, ◌>>=◌}
use nats_replicator.Float.{Float}
use nats_replicator.Conf.{NatsConfig}
use nats_replicator.Client.{Client}
use nats_replicator.Nats.{Connections, check_nats, connect_to_stan}
use nats_replicator.Connector.Methods
use nats_replicator.State.{Server}
use nats_replicator.Server.{lock_connectors, unlock_connectors}

module _ ⦃fl : Float⦄ where
  -- The first loop of a tick: every configured NATS connection is up.
  unfoldable pub all_nats_up : Client → Connections → List NatsConfig → Bool
  all_nats_up client cs [] = true
  all_nats_up client cs (config ∷ rest) =
      if check_nats client cs config.name then all_nats_up client cs rest else false

  -- One round of the loop over `needReconnect`, behind its test: restart the connector at place i.
  unfoldable pub restart_one : Client → Server → String → ℕ → Outcome Server
  restart_one client s id i = elim (get_elem? s.connectors i) [
    | none ↦ panics
    | some conn ↦
        let (conn', e) = Methods.start client s.connections conn in
        let s' = record s { connectors = set s.connectors i conn' } in
        elim e [
          | some x ↦ done s'
          | none ↦ done (record s' { need_reconnect = delete id s'.need_reconnect })
        ]
  ]

  -- The loop over `needReconnect`, over the entries that it meets. When the server is no longer
  -- running the code goes back to its select statement, and keeps the lock.
  unfoldable pub restart_loop : Client → Server → Assoc ℕ → Outcome Server
  restart_loop client s [] = done (unlock_connectors s)
  restart_loop client s ((id, i) ∷ rest) =
      let next = restart_one client s id i >>= λ s'. restart_loop client s' rest in
      if s.running then next else done s

  -- The part of a tick before the lock: none, if it ends there.
  unfoldable pub tick_begin : Client → Server → Server × Bool
  tick_begin client s =
      let (cs, e) = connect_to_stan client s.config.stan s.connections in
      let s' = record s { connections = cs } in
      if all_nats_up client s.connections s.config.nats
      then elim e [ none ↦ (s', true) | some x ↦ (s', false) ]
      else (s, false)

  -- One round of the ticker's loop, on a tick, with no other thread in between.
  unfoldable pub tick : Client → Server → Outcome Server
  tick client s =
      let (s', goes_on) = tick_begin client s in
      let restarts = lock_connectors s' >>= λ s''. restart_loop client s'' s''.need_reconnect in
      if goes_on then restarts else done s'
