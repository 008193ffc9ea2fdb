-- ===== src/Bench/Replicator.antt =====
-- startReplicator of the benchmarks: a replicator for one connector, in the process of the benchmark.
use nats_replicator.Prelude.{
  ℕ, String, ◌≡◌, refl, Bool, false, Option, none, some, List, [], ◌∷◌, arith,
}
use nats_replicator.Prelude.Int.{pos, negsuc, ℤ}
use Prim.Native.String.{◌++◌ as concat}
use nats_replicator.Prelude.Outcome.{Outcome, done, panics, blocks, ◌>>=◌}
use nats_replicator.Float.{Float}
use nats_replicator.Result.{Error}
use nats_replicator.Conf.{
  NatsConfig, NatsStreamingConfig, ConnectorConfig, NatsReplicatorConfig, TlsConf, default_config,
}
use nats_replicator.Conf.Structs.{zero_streaming}
use nats_replicator.Client.{Client}
use nats_replicator.Monitoring.{Network}
use nats_replicator.State.{Server}
use nats_replicator.Server.Flags.{initialize_from_config}
use nats_replicator.Server.Starting.{start_server}
use nats_replicator.Server.Startup.{stop}
use nats_replicator.Main.{new_nats_replicator}

abbrev no_tls : TlsConf
no_tls = record { key = ""; cert = ""; root = "" }

-- A NATS connection of the benchmark.
abbrev pub nats_side : String → String → NatsConfig
nats_side name url = record {
  name = name;
  servers = url ∷ [];
  connect_timeout = pos 5000;
  reconnect_wait = pos 5000;
  max_reconnects = pos 5;
  no_random = false;
  no_echo = false;
  tls = no_tls;
  user_credentials = "";
  client_name = "";
}

-- A streaming connection of the benchmark; `id` is from nuid.Next.
abbrev pub stan_side : String → String → String → String → ℤ → NatsStreamingConfig
stan_side name nats_name cluster_id id max_pub_acks = record zero_streaming {
  cluster_id = cluster_id;
  client_id = concat "perf_test_" id;
  name = name;
  nats_connection = nats_name;
  max_pub_acks_inflight = max_pub_acks;
}

-- The configuration: `hide` is the flag, and the URLs are those of the two connections.
unfoldable pub bench_config :
    Bool → String → String → List NatsStreamingConfig → List ConnectorConfig → NatsReplicatorConfig
unfolding default_config
bench_config hide url url2 streaming connections =
    let config = default_config in
    record config {
      logging = record config.logging { debug = false; trace = false; colors = false; hide = hide };
      monitoring = record {
        http_host = "";
        http_port = negsuc 0;
        https_port = pos 0;
        tls = no_tls;
        read_timeout = pos 0;
        write_timeout = pos 0;
      };
      nats = nats_side "nats" url ∷ nats_side "nats2" url2 ∷ [];
      stan = streaming;
      connect = connections;
    }

module _ ⦃fl : Float⦄ where
  -- The replicator, or the error that Start had: it is stopped then.
  abbrev pub or_stopped : Option Error → Server × Option Error → Outcome (Server × Option Error)
  or_stopped answer (s, none) = done (s, none)
  or_stopped answer (s, some e) = stop answer s >>= λ s'. done (s', some e)

  -- The end of startReplicator, on its configuration; `answer` is that of the HTTP server when it
  -- has to stop.
  unfoldable pub start_replicator :
      Client → Network → ℕ → Option Error → NatsReplicatorConfig → Outcome (Server × Option Error)
  unfolding initialize_from_config
  start_replicator client net now answer config =
      start_server client net now (initialize_from_config config new_nats_replicator)
      >>= or_stopped answer

  pub start_replicator_started :
      (client : Client) (net : Network) (now : ℕ) (answer : Option Error)
      (config : NatsReplicatorConfig) (s₀ : Server)
      → start_replicator client net now answer config ≡ done (s₀, none)
      → start_server client net now (initialize_from_config config new_nats_replicator)
        ≡ done (s₀, none)
  unfolding start_replicator
  start_replicator_started client net now answer config s₀ h =
      split (start_server client net now (initialize_from_config config new_nats_replicator)) h
    where
      split :
          (o : Outcome (Server × Option Error))
          → (o >>= or_stopped answer) ≡ done (s₀, none)
          → o ≡ done (s₀, none)
      split (done (s, none)) p = p
      split (done (s, some e)) p = ground arith
      split panics p = cc
      split blocks p = cc

  pub new_lock :
      (config : NatsReplicatorConfig)
      → (initialize_from_config config new_nats_replicator).connector_locked ≡ false
  unfolding initialize_from_config
  new_lock config = refl
