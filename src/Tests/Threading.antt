-- ===== src/Tests/Threading.antt =====
-- The theorems on the threads of the server, at the installation.
use nats_replicator.Prelude.{◌≡◌, ◌⊎◌, refl, false, true, none, some, [], ◌∷◌, get_elem?}
use nats_replicator.Prelude.Int.{milliseconds}
use nats_replicator.Prelude.Assoc.{lookup, insert, contains}
use nats_replicator.Prelude.Text.{to_lower}
use nats_replicator.Prelude.Outcome.{done}
use nats_replicator.Result as Errors
use nats_replicator.Client.{Message, publish}
use nats_replicator.Stats.{add_message_in, add_connect}
use nats_replicator.Connector.{Connector, Handled, create_connector, new_stan2stan, new_nats2nats}
use nats_replicator.Connector.Methods
use nats_replicator.Connector.NatsToNats
use nats_replicator.Connector.StanToStan
use nats_replicator.Nats.{check_nats, check_stan, connect_to_nats, connect_to_stan, connect_stan}
use nats_replicator.Monitoring.{start_monitoring}
use nats_replicator.State.{Server}
use nats_replicator.Server.{unlock_connectors, mark_broken}
use nats_replicator.Server.Startup
use nats_replicator.Server.Starting.{start_server, start_reconnect_ticker}
use nats_replicator.Server.Ticker.{all_nats_up}
use nats_replicator.Server.Tidy.{IsTidy}
use nats_replicator.Server.Keys.{Distinct}
use nats_replicator.Server.Settled.{Restart}
use nats_replicator.Server.Threads.{
  Ticker, connecting, locking, restarting, chosen, ended, cancelling, closing, disconnecting,
  erring, ticker_part, stop_part, section, World, launched, after_callback, nats2nats_message,
  receives, tests, acts, ticks, stops, Reach, here, next,
}
use nats_replicator.Server.Threads.Sane.{holding, is_unsent}
use nats_replicator.Server.Threads.Reached.{start_server-safe, start_server-Restart}
use nats_replicator.Server.Threads.Waits.{WaitsOn, start_server-WaitsOn}
use nats_replicator.Server.Threads.Quiet.{Closed}
use nats_replicator.Server.Threads.Ends.{GoesOn, stop_ends}
use nats_replicator.Tests.Stopping.{closed, closes}
use nats_replicator.Tests.Numbers.{nat_float}
use nats_replicator.Tests.Samples.{client, network, fresh, connections, nats_config}

-- The installation after its Start.
abbrev started : Server
started = (Startup.start client network 7 fresh).0

started_lem : start_server client network 7 fresh ≡ done (started, none)
unfolding start_server start_reconnect_ticker milliseconds Startup.start
    Startup.initialize_connectors Startup.start_connectors create_connector Methods.start
    StanToStan.start StanToStan.is_configured check_stan lookup connect_to_nats connect_to_stan
    connect_stan start_monitoring insert to_lower new_stan2stan new_nats2nats NatsToNats.start
    NatsToNats.is_configured check_nats
started_lem = refl

-- The NATS connector gets a message that it cannot publish.
abbrev nats_started : Connector
nats_started = (Methods.start client connections (new_nats2nats client 1 nats_config)).0

abbrev one_message : Message
one_message = record { number = 1; payload = 5 ∷ [] }

abbrev refused : Handled
refused = record {
  connector = record nats_started { stats = add_message_in nats_started.stats 1 };
  effects = publish 1 "out" (5 ∷ []) ∷ [];
  failure = none;
}

abbrev one_refused : World
one_refused = record (launched started) { server = after_callback started 1 refused }

Reach-refused : Reach (launched started) one_refused
unfolding Startup.start Startup.initialize_connectors Startup.start_connectors create_connector
    Methods.start StanToStan.start StanToStan.is_configured check_stan lookup connect_to_nats
    connect_to_stan connect_stan start_monitoring insert to_lower new_stan2stan new_nats2nats
    NatsToNats.start NatsToNats.is_configured check_nats NatsToNats.on_message
Reach-refused = next here (
    receives 1 nats_started refused refl
      (nats2nats_message 1 one_message (some (Errors.client "closed")) 0 refl refl))

-- ConnectorError enters it in the map.
abbrev marked_server : Server
marked_server =
    unlock_connectors
      (mark_broken (record one_refused.server { connector_locked = true }) 1 refused.connector)

abbrev one_marked : World
one_marked = record one_refused { server = marked_server }

Reach-marked : Reach (launched started) one_marked
unfolding Startup.start Startup.initialize_connectors Startup.start_connectors create_connector
    Methods.start StanToStan.start StanToStan.is_configured check_stan lookup connect_to_nats
    connect_to_stan connect_stan start_monitoring insert to_lower new_stan2stan new_nats2nats
    NatsToNats.start NatsToNats.is_configured check_nats section mark_broken contains
Reach-marked =
    next (next Reach-refused (tests (erring 1) refl))
      (acts client [] [] (erring 1) marked_server refl refl)

start_server-safe_example :
    (one_marked.server.connector_locked ≡ holding one_marked.ticker)
    × IsTidy one_marked.server
    × Distinct one_marked.server.need_reconnect
    × ((x : Ticker × Server) × (ticker_part client one_marked.ticker one_marked.server ≡ done x))
unfolding Startup.start Startup.initialize_connectors Startup.start_connectors create_connector
    Methods.start StanToStan.start StanToStan.is_configured check_stan lookup connect_to_nats
    connect_to_stan connect_stan start_monitoring insert to_lower new_stan2stan new_nats2nats
    NatsToNats.start NatsToNats.is_configured check_nats mark_broken add_message_in add_connect
start_server-safe_example =
    start_server-safe client client network 7 fresh started one_marked refl started_lem Reach-marked
      refl

-- A tick comes, and its thread has tested `running` for the restart of that connector.
abbrev one_chosen : World
one_chosen = record one_marked {
  server = record marked_server { connector_locked = true };
  ticker = chosen "N1" 1 [];
}

Reach-chosen : Reach (launched started) one_chosen
unfolding Startup.start Startup.initialize_connectors Startup.start_connectors create_connector
    Methods.start StanToStan.start StanToStan.is_configured check_stan lookup connect_to_nats
    connect_to_stan connect_stan start_monitoring insert to_lower new_stan2stan new_nats2nats
    NatsToNats.start NatsToNats.is_configured check_nats mark_broken add_message_in add_connect
    ticker_part all_nats_up
Reach-chosen =
    next
      (next
        (next (next Reach-marked (ticks client connecting marked_server refl))
          (ticks client locking marked_server refl))
        (ticks client (restarting (("N1", 1) ∷ []))
          (record marked_server { connector_locked = true }) refl))
      (ticks client (chosen "N1" 1 []) (record marked_server { connector_locked = true }) refl)

start_server-Restart_example :
    (conn : Connector) × (get_elem? one_chosen.server.connectors 1 ≡ some conn)
    × (conn.subscription ≡ none)
    × ((s' : Server) × (ticker_part client one_chosen.ticker one_chosen.server
          ≡ done (restarting [], s'))
        × Restart "N1" 1
            (Methods.start client one_chosen.server.connections conn).0
            one_chosen.server
            s')
start_server-Restart_example =
    start_server-Restart client client network 7 fresh started one_chosen "N1" 1 [] refl started_lem
      Reach-chosen refl

-- The next handler finds the connector waiting.
start_server-WaitsOn_example : WaitsOn one_marked.server "N1" 1
unfolding Startup.start Startup.initialize_connectors Startup.start_connectors create_connector
    Methods.start StanToStan.start StanToStan.is_configured check_stan lookup connect_to_nats
    connect_to_stan connect_stan start_monitoring insert to_lower new_stan2stan new_nats2nats
    NatsToNats.start NatsToNats.is_configured check_nats mark_broken add_message_in add_connect
start_server-WaitsOn_example =
    start_server-WaitsOn client network 7 fresh started one_marked
      (record one_marked { late = erring 0 ∷ [] }) "N1" 1 refl started_lem Reach-marked refl
      (tests (erring 0) refl)

-- Stop is called after the message; it has sent to the ticker when a tick comes.
abbrev one_stopping : World
one_stopping = record one_refused {
  server = record one_refused.server { running = false };
  stopping = cancelling;
}

abbrev one_sent : World
one_sent = record one_stopping {
  server = record one_stopping.server { cancel = 1 };
  stopping = closing;
  ticker = connecting;
}

Reach-sent : Reach one_stopping one_sent
unfolding Startup.start Startup.initialize_connectors Startup.start_connectors create_connector
    Methods.start StanToStan.start StanToStan.is_configured check_stan lookup connect_to_nats
    connect_to_stan connect_stan start_monitoring insert to_lower new_stan2stan new_nats2nats
    NatsToNats.start NatsToNats.is_configured check_nats ticker_part all_nats_up stop_part
Reach-sent =
    next (next here (stops none closing (record one_stopping.server { cancel = 1 }) refl))
      (ticks client connecting (record one_stopping.server { cancel = 1 }) refl)

-- It closes the connectors before the ticker reaches its lock.
abbrev one_closed : World
one_closed = record one_sent { server = closed one_sent.server; stopping = disconnecting }

Reach-closed : Reach one_stopping one_closed
unfolding stop_part Startup.start Startup.initialize_connectors Startup.start_connectors
    create_connector Methods.start StanToStan.start StanToStan.is_configured check_stan lookup
    connect_to_nats connect_to_stan connect_stan start_monitoring insert to_lower new_stan2stan
    new_nats2nats NatsToNats.start NatsToNats.is_configured check_nats
Reach-closed =
    next Reach-sent
      (stops none disconnecting (closed one_sent.server) (rw (closes one_sent.server refl) refl))

stop_ends_example :
    GoesOn none one_closed
    × (one_closed.server.running ≡ false)
    × ((is_unsent one_closed.stopping ≡ true)
        ⊎ ((one_closed.ticker ≡ ended) ⊎ (one_closed.server.cancel ≡ 1)))
    × Closed one_closed.stopping one_refused.server.connectors one_closed.server
unfolding Startup.start Startup.initialize_connectors Startup.start_connectors create_connector
    Methods.start StanToStan.start StanToStan.is_configured check_stan lookup connect_to_nats
    connect_to_stan connect_stan start_monitoring insert to_lower new_stan2stan new_nats2nats
    NatsToNats.start NatsToNats.is_configured check_nats stop_part
stop_ends_example =
    stop_ends client network 7 none fresh started one_stopping.server one_refused one_closed refl
      started_lem Reach-refused refl refl refl refl Reach-closed
