-- ===== src/Tests/Lifetimes.antt =====
-- The theorem on Start with its ticker, at the installation.
use nats_replicator.Prelude.{◌≡◌, ◌↔◌, refl, false, none, arith}
use nats_replicator.Prelude.Int.{pos, is_positive}
use nats_replicator.Prelude.Assoc.{lookup, insert}
use nats_replicator.Prelude.Text.{to_lower}
use nats_replicator.Prelude.Outcome.{panics}
use nats_replicator.Connector.{create_connector, new_stan2stan, new_nats2nats}
use nats_replicator.Connector.Methods
use nats_replicator.Connector.NatsToNats
use nats_replicator.Connector.StanToStan
use nats_replicator.Nats.{check_nats, check_stan, connect_to_nats, connect_to_stan, connect_stan}
use nats_replicator.Monitoring.{start_monitoring}
use nats_replicator.State.{Server}
use nats_replicator.Server.Startup
use nats_replicator.Server.Starting.{start_server, start_server-panics}
use nats_replicator.Tests.Numbers.{nat_float}
use nats_replicator.Tests.Samples.{client, network, fresh, replicator_config}

-- The installation with an interval of 0 for the reconnect ticker.
abbrev hurried : Server
hurried = record fresh { config = record replicator_config { reconnect_interval = pos 0 } }

start_server-panics_example :
    (start_server client network 7 hurried ≡ panics)
    ↔ (((Startup.start client network 7 hurried).1 ≡ none) × (is_positive (pos 0) ≡ false))
start_server-panics_example = start_server-panics client network 7 hurried (omega arith)

-- Its Start has no error before the ticker, so it panics.
hurried_panics : start_server client network 7 hurried ≡ panics
unfolding Startup.start Startup.initialize_connectors Startup.start_connectors create_connector
    Methods.start StanToStan.start StanToStan.is_configured check_stan lookup connect_to_nats
    connect_to_stan connect_stan start_monitoring insert to_lower new_stan2stan new_nats2nats
    NatsToNats.start NatsToNats.is_configured check_nats
hurried_panics = (start_server-panics client network 7 hurried (omega arith)).1 (refl, refl)
