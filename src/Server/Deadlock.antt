-- ===== src/Server/Deadlock.antt =====
-- Stop of server/core/server.go against the reconnect ticker, which share the lock `connectorLock`.
use nats_replicator.Prelude.{ℕ, String, ◌≡◌, true, false, Option}
use nats_replicator.Prelude.Assoc.{Assoc}
use nats_replicator.Prelude.Outcome.{done}
use nats_replicator.Float.{Float}
use nats_replicator.Result.{Error}
use nats_replicator.Client.{Client}
use nats_replicator.State.{Server}
use nats_replicator.Server.{
  connector_error, check_connections, nats_disconnected, stan_connection_lost,
}
use nats_replicator.Server.Startup.{stop_finish}
use nats_replicator.Server.Ticker.{tick}

module _ ⦃fl : Float⦄ where
  -- What the other threads do: handlers, ticks, and the end of Stop. Each is one step, for the lock
  -- is held in it from its first access to the connectors to its last.
  pub data Step (s : Server) : Server → Type 0 where
    errs : {s' : Server} (i : ℕ) → connector_error s i ≡ done s' → Step s s'
    checks : {s' : Server} (client : Client) → check_connections client s ≡ done s' → Step s s'
    disconnects : {s' : Server} (client : Client) → nats_disconnected client s ≡ done s' → Step s s'
    loses :
        {s' : Server} (client : Client) (name : String) (sc : ℕ)
        → stan_connection_lost client name sc s ≡ done s'
        → Step s s'
    ticks : {s' : Server} (client : Client) → tick client s ≡ done s' → Step s s'
    finishes : {s' : Server} (answer : Option Error) → stop_finish answer s ≡ done s' → Step s s'

  pub data Reach (s : Server) : Server → Type 0 where
    here : Reach s s
    next : {t u : Server} → Reach s t → Step t u → Reach s u

  -- Stopped, with the lock left behind.
  pub record IsStuck (s : Server) : Type 0 where
    pub stopped : s.running ≡ false
    pub held : s.connector_locked ≡ true
