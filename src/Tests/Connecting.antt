-- ===== src/Tests/Connecting.antt =====
-- Connections and connectors: the theorems on nats.go and on the connectors at the installation.
use nats_replicator.Prelude.{◌≡◌, refl, none, some, [], ◌∷◌}
use nats_replicator.Prelude.Int.{pos}
use nats_replicator.Result.{Error, requires_stan, err}
use nats_replicator.Client.{Client, start_at_time, set_manual_ack_mode}
use nats_replicator.Nats.{Connections, check_stan, connect_stan, connect_to_stan}
use nats_replicator.Prelude.Assoc.{lookup}
use nats_replicator.Prelude.Text.{to_lower}
use nats_replicator.Connector.StanToStan
use nats_replicator.Nats.Streams.{connect_to_stan_again}
use nats_replicator.Connector.{
  stan2stan, create_connector, new_stan2stan, create_subscriber_options,
}
use nats_replicator.Connector.Methods
use nats_replicator.Connector.Lifecycle.{
  Started, NotStarted, Grants, start-Started, start-NotStarted, start_ready,
}
use nats_replicator.Connector.Options.{
  Created, start_positions, manual_acks, create_subscriber_options_lem, create_connector-Created,
}
use nats_replicator.Tests.Numbers.{nat_float}
use nats_replicator.Tests.Samples.{client, stan_one, stan_config, connections, stan_connector}

abbrev no_connections : Connections
no_connections = record { nats = []; stan = [] }

abbrev only_nats : Connections
only_nats = record { nats = ("nats", some 1) ∷ []; stan = [] }

-- A client whose servers are away.
abbrev away : Client
away = record client { stan_connect = λ cluster id options. err (Error.client "timeout") }

connect_to_stan_again_example :
    connect_to_stan away (stan_one ∷ []) (connect_to_stan client (stan_one ∷ []) only_nats).0
    ≡ ((connect_to_stan client (stan_one ∷ []) only_nats).0, none)
unfolding connect_to_stan connect_stan lookup
connect_to_stan_again_example = connect_to_stan_again client away (stan_one ∷ []) only_nats refl

pub client-Grants : Grants client
client-Grants = record {
  subscribes = λ nc subject. refl;
  queues = λ nc subject queue. refl;
  streams = λ sc channel options. refl;
}

start-Started_example :
    Started stan2stan client connections stan_connector
      (Methods.start client connections stan_connector).0
unfolding Methods.start StanToStan.start StanToStan.is_configured check_stan lookup
start-Started_example = start-Started client connections stan_connector refl

start_ready_example : (Methods.start client connections stan_connector).1 ≡ none
unfolding Methods.check_connections StanToStan.check_connections StanToStan.is_configured check_stan
    lookup
start_ready_example = start_ready client connections stan_connector client-Grants refl refl

start-NotStarted_example :
    NotStarted stan_connector (Methods.start client only_nats stan_connector).0
unfolding Methods.start StanToStan.start StanToStan.is_configured check_stan lookup
start-NotStarted_example =
    start-NotStarted client only_nats stan_connector (requires_stan "Stan:in to Stan:out" "stan")
      refl

create_subscriber_options_lem_example :
    (start_positions (create_subscriber_options stan_config) ≡ start_at_time (pos 1553090000) ∷ [])
    × (manual_acks (create_subscriber_options stan_config) ≡ set_manual_ack_mode ∷ [])
create_subscriber_options_lem_example = create_subscriber_options_lem stan_config

create_connector-Created_example : Created client 0 stan_config stan_connector
unfolding create_connector to_lower new_stan2stan
create_connector-Created_example = create_connector-Created client 0 stan_config stan_connector refl
