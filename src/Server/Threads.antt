-- ===== src/Server/Threads.antt =====
-- The threads of server/core: handlers of the client libraries and of HTTP, the callbacks of the
-- connectors, the reconnect ticker and Stop. Each section under a lock is a step of its own.
pub mod Alike
pub mod Sane
pub mod Kept
pub mod Safe
pub mod Stops
pub mod Reached
pub mod Waits
pub mod Quiet
pub mod Rounds
pub mod Ends
use nats_replicator.Prelude.{
  ℕ, String, ◌≡◌, Bool, true, false, Option, none, some, List, [], ◌∷◌, ◌++◌, get_elem?, set, eqb,
  ◌+◌, ◌-◌, if◌then◌else◌,
}
use Prim.Native.Char.{Char}
use nats_replicator.Prelude.Assoc.{Assoc}
use nats_replicator.Prelude.Outcome.{Outcome, done, blocks, ◌>>=◌}
use nats_replicator.Float.{Float}
use nats_replicator.Result.{Error}
use nats_replicator.Client.{Client, Message, close_stan}
use nats_replicator.Nats.{forget_stan, connect_to_stan}
use nats_replicator.Connector.{Kind, nats2nats, nats2stan, stan2nats, stan2stan, Connector, Handled}
use nats_replicator.Connector.NatsToNats
use nats_replicator.Connector.NatsToStan
use nats_replicator.Connector.StanToNats
use nats_replicator.Connector.StanToStan
use nats_replicator.State.{Server}
use nats_replicator.Monitoring.{Response}
use nats_replicator.Monitoring.Counts.{Request, handle}
use nats_replicator.Server.{lock_connectors, unlock_connectors, error_section, check_section}
use nats_replicator.Server.Startup.{close_connectors, close_connections, end_monitoring}
use nats_replicator.Server.Ticker.{all_nats_up, restart_one}

-- Where the goroutine of the ticker is: at its select statement, before connectToSTAN, before
-- `connectorLock`, in its loop with the entries that are left, behind the test of `running` for one
-- of them, or at its end.
pub data Ticker : Type 0 where
  selecting connecting locking : Ticker
  restarting : Assoc ℕ → Ticker
  chosen : String → ℕ → Assoc ℕ → Ticker
  ended : Ticker

-- Where Stop is: not called yet, before the send to `cancelReconnect`, before it closes the
-- connectors, before the connections, before the HTTP server, or at its end.
pub data Stopping : Type 0 where
  idle cancelling closing disconnecting unmonitoring stopped : Stopping

-- A handler behind its test of `running`: ConnectorError for a place, the handler for a lost
-- streaming connection, or checkConnections.
pub data Handler : Type 0 where
  erring : ℕ → Handler
  losing : String → ℕ → Handler
  checking : Handler

module _ ⦃fl : Float⦄ where
  -- The next part of the ticker's loop, on a tick. Between two restarts it may leave the loop with
  -- the lock held.
  unfoldable pub ticker_part : Client → Ticker → Server → Outcome (Ticker × Server)
  ticker_part client selecting s =
      done (if all_nats_up client s.connections s.config.nats then connecting else selecting, s)
  ticker_part client connecting s =
      let (cs, e) = connect_to_stan client s.config.stan s.connections in
      done (elim e [ none ↦ locking | some x ↦ selecting ], record s { connections = cs })
  ticker_part client locking s = lock_connectors s >>= λ s'. done (restarting s'.need_reconnect, s')
  ticker_part client (restarting []) s = done (selecting, unlock_connectors s)
  ticker_part client (restarting ((id, i) ∷ rest)) s =
      done (if s.running then chosen id i rest else selecting, s)
  ticker_part client (chosen id i rest) s =
      restart_one client s id i >>= λ s'. done (restarting rest, s')
  ticker_part client ended s = blocks

  -- The next part of Stop; `answer` is the error of the HTTP server's Shutdown.
  unfoldable pub stop_part : Option Error → Stopping → Server → Outcome (Stopping × Server)
  stop_part answer idle s =
      done (if s.running then (cancelling, record s { running = false }) else (idle, s))
  stop_part answer cancelling s =
      if eqb s.cancel 0 then done (closing, record s { cancel = s.cancel + 1 }) else blocks
  stop_part answer closing s = close_connectors s >>= λ s'. done (disconnecting, s')
  stop_part answer disconnecting s = done (unmonitoring, close_connections s)
  stop_part answer unmonitoring s = done (stopped, end_monitoring answer s)
  stop_part answer stopped s = done (stopped, s)

  -- What a handler does behind its test. The one for a lost connection goes on to checkConnections,
  -- which tests again.
  unfoldable pub section : Client → Handler → Server → Outcome Server
  section client (erring i) s = error_section s i
  section client (losing name sc) s = done (record s {
    connections = forget_stan name s.connections;
    effects = s.effects ++ close_stan sc ∷ [];
  })
  section client checking s = check_section client s

  -- A callback of the connector's kind, or an ack handler of a message that it has published.
  pub data Callback (conn : Connector) (h : Handled) : Type 0 where
    nats2nats_message :
        (target : ℕ) (msg : Message) (answer : Option Error) (elapsed : ℕ)
        → conn.kind ≡ nats2nats
        → NatsToNats.on_message conn target msg answer elapsed ≡ done h
        → Callback conn h
    nats2stan_message :
        (target : ℕ) (msg : Message) (answer : Option Error)
        → conn.kind ≡ nats2stan
        → NatsToStan.on_message conn target msg answer ≡ h
        → Callback conn h
    nats2stan_ack :
        (msg : Message) (answer : Option Error) (elapsed : ℕ)
        → conn.kind ≡ nats2stan
        → NatsToStan.on_ack conn msg answer elapsed ≡ done h
        → Callback conn h
    stan2nats_message :
        (target : ℕ) (msg : Message) (answer : Option Error) (elapsed : ℕ)
        → conn.kind ≡ stan2nats
        → StanToNats.on_message conn target msg answer elapsed ≡ done h
        → Callback conn h
    stan2stan_message :
        (target : ℕ) (msg : Message) (answer : Option Error)
        → conn.kind ≡ stan2stan
        → StanToStan.on_message conn target msg answer ≡ h
        → Callback conn h
    stan2stan_ack :
        (msg : Message) (answer ack_answer : Option Error) (elapsed : ℕ)
        → conn.kind ≡ stan2stan
        → StanToStan.on_ack conn msg answer ack_answer elapsed ≡ done h
        → Callback conn h

  -- The server, and the threads with their places; `late` are the handlers that have tested
  -- `running` and have not taken their lock yet.
  pub record World : Type 0 where
    pub server : Server
    pub ticker : Ticker
    pub stopping : Stopping
    pub late : List Handler

  -- After Start.
  abbrev pub launched : Server → World
  launched s = record { server = s; ticker = selecting; stopping = idle; late = [] }

  abbrev pub after_callback : Server → ℕ → Handled → Server
  after_callback s i h = record s {
    connectors = set s.connectors i h.connector;
    effects = s.effects ++ h.effects;
  }

  -- One part of one thread. Stop is called by main or by the handler for a closed NATS connection.
  pub data Step (w : World) : World → Type 0 where
    receives :
        (i : ℕ) (conn : Connector) (h : Handled)
        → get_elem? w.server.connectors i ≡ some conn
        → Callback conn h
        → Step w (record w { server = after_callback w.server i h })
    serves :
        (wide : Char → Char) (r : Request) (s : Server) (response : Response)
        → handle wide r w.server ≡ done (s, response)
        → Step w (record w { server = s })
    tests : (h : Handler) → w.server.running ≡ true → Step w (record w { late = h ∷ w.late })
    acts :
        (client : Client) (before after : List Handler) (h : Handler) (s : Server)
        → w.late ≡ before ++ h ∷ after
        → section client h w.server ≡ done s
        → Step w (record w { server = s; late = before ++ after })
    ticks :
        (client : Client) (t : Ticker) (s : Server)
        → ticker_part client w.ticker w.server ≡ done (t, s)
        → Step w (record w { server = s; ticker = t })
    cancels :
        w.ticker ≡ selecting
        → eqb w.server.cancel 0 ≡ false
        → Step w
            (record w { server = record w.server { cancel = w.server.cancel - 1 }; ticker = ended })
    stops :
        (answer : Option Error) (p : Stopping) (s : Server)
        → stop_part answer w.stopping w.server ≡ done (p, s)
        → Step w (record w { server = s; stopping = p })

  pub data Reach (w : World) : World → Type 0 where
    here : Reach w w
    next : {v u : World} → Reach w v → Step v u → Reach w u
