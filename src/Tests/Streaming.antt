-- ===== src/Tests/Streaming.antt =====
-- The theorems on the benchmark over streaming, on a run of ten messages.
use nats_replicator.Prelude.{
  ◌≡◌, ◌↔◌, refl, true, false, Option, none, some, List, [], ◌∷◌, ◌++◌, arith, All, if◌then◌else◌,
  eqb, ltb,
}
use nats_replicator.Prelude.Int.{pos, milliseconds}
use nats_replicator.Prelude.Assoc.{lookup, insert}
use nats_replicator.Prelude.Text.{to_lower}
use nats_replicator.Prelude.Outcome
use nats_replicator.Result.{Error, ok}
use nats_replicator.Conf.{default_config}
use nats_replicator.Client.{publish_async}
use nats_replicator.Nats.{
  check_nats, check_stan, connect_to_nats, connect_to_stan, connect_stan, nats_conn, stan_conn,
}
use nats_replicator.Connector.{create_connector, new_stan2stan}
use nats_replicator.Connector.Methods
use nats_replicator.Connector.StanToStan
use nats_replicator.Monitoring.{start_monitoring}
use nats_replicator.State.{Server}
use nats_replicator.Server.Startup
use nats_replicator.Server.Starting.{start_server, start_reconnect_ticker}
use nats_replicator.Server.Flags.{initialize_from_config}
use nats_replicator.Main.{new_nats_replicator}
use nats_replicator.Bench.{returns, fails, panic, stuck}
use nats_replicator.Bench.Watch.{ticked, timed_out, request_count, ends, replicated_at}
use nats_replicator.Bench.Rates.{test_failed}
use nats_replicator.Bench.Replicator.{bench_config, start_replicator}
use nats_replicator.Bench.World.{World}
use nats_replicator.Bench.NatsNats.Publishing.{copies}
use nats_replicator.Bench.NatsNats.Runs.{all_parts}
use nats_replicator.Bench.StanStan
use nats_replicator.Bench.StanStan.Runs
use nats_replicator.Bench.StanStan.Acks.{unacked, await_acks-Settled}
use nats_replicator.Server.Threads.{Reach, launched}
use nats_replicator.Monitoring.{safe_stats, stats, collect, request_total}
use nats_replicator.Stats
use nats_replicator.Histogram
use nats_replicator.Stats.{
  add_request_time, add_message_in, add_message_out, add_request, add_connect,
}
use nats_replicator.Server.Threads.Rounds.{joined}
use nats_replicator.Tests.Copying.{many, many_lem}
use nats_replicator.Tests.Stopping.{left, Reach-left, left_stopped}
use nats_replicator.Tests.Numbers.{nat_float}
use nats_replicator.Tests.Samples.{client, network}
use nats_replicator.Tests.Benchmarks.{ten_sizes, client2, bare}

-- Ten acks without an error.
abbrev ten_acks : List (Option Error)
ten_acks = none ∷ none ∷ none ∷ none ∷ none ∷ none ∷ none ∷ none ∷ none ∷ none ∷ []

no_errors : All (λ (e : Option Error). e ≡ none) ten_acks
no_errors = (refl, (refl, (refl, (refl, (refl, (refl, (refl, (refl, (refl, (refl, tt))))))))))

await_acks-Settled_example :
    (a : StanStan.Acked) × (StanStan.await_acks (pos 10) true ten_acks (unacked 10)
      ≡ (if eqb 10 10 then returns a else if ltb 10 10 then fails stuck else fails panic))
    × (a.pub_count ≡ 10)
await_acks-Settled_example = await_acks-Settled 10 true (omega arith) ten_acks no_errors

-- The flags of the streaming benchmark.
abbrev stan_base : StanStan.Options
stan_base = record {
  iterations = pos 1000;
  message_size = pos 1024;
  max_pub_acks = pos 1;
  max_out = pos 100;
  nats_url = "one";
  cluster_id = "test-cluster";
  nats_url2 = "two";
  cluster_id2 = "";
  modes = all_parts;
  pub_first = true;
  show_stats = false;
  hide_replicator_log = true;
  show_progress = true;
  in_name = "in";
  out_name = "out";
}

abbrev stan_bare : World
stan_bare = record bare {
  acks = ten_acks;
  client2 = record client2 { stan_connect = λ cluster id options. ok 3 };
}

abbrev stan_replicator : Server
stan_replicator =
    (Startup.start client network 4 (
      initialize_from_config (Runs.replicated_config stan_base stan_bare 10 3)
        new_nats_replicator)).0

-- It has copied ten messages when the watching goroutine sees it, and then Stop runs.
abbrev stan_busy : Server
stan_busy = many 10 stan_replicator

abbrev stan_world : World
stan_world = record stan_bare {
  events = ticked 5 stan_busy ∷ timed_out ∷ [];
  after_stop = some (left stan_busy).server;
}

stan_world_ends : ends (pos 10) stan_world.events ≡ true
unfolding ends request_count safe_stats stats collect request_total Stats.stats
    initialize_from_config bench_config default_config Startup.start Startup.initialize_connectors
    Startup.start_connectors create_connector Methods.start lookup connect_to_nats connect_to_stan
    connect_stan stan_conn start_monitoring insert to_lower new_stan2stan StanToStan.start
    StanToStan.is_configured check_stan check_nats nats_conn StanToStan.on_ack add_request_time
    add_message_in add_message_out add_request add_connect Histogram.add
stan_world_ends = refl

stan_replicator_started :
    start_replicator client network 4 none (Runs.replicated_config stan_base stan_bare 10 3)
    ≡ Outcome.done (stan_replicator, none)
unfolding start_replicator start_server start_reconnect_ticker initialize_from_config bench_config
    default_config milliseconds Startup.start Startup.initialize_connectors Startup.start_connectors
    create_connector Methods.start lookup connect_to_nats connect_to_stan connect_stan stan_conn
    start_monitoring insert to_lower new_stan2stan StanToStan.start StanToStan.is_configured
    check_stan check_nats nats_conn
stan_replicator_started = refl

stan_left : Reach (launched stan_replicator) (left stan_busy)
unfolding initialize_from_config bench_config default_config Startup.start
    Startup.initialize_connectors Startup.start_connectors create_connector Methods.start lookup
    connect_to_nats connect_to_stan connect_stan stan_conn start_monitoring insert to_lower
    new_stan2stan StanToStan.start StanToStan.is_configured check_stan check_nats nats_conn
    StanToStan.on_ack add_request_time add_message_in add_message_out add_request add_connect
    Histogram.add
stan_left = joined (many_lem 10 stan_replicator) (Reach-left stan_busy refl refl refl)

stan_main-returns_example :
    (r : StanStan.Finished) × (StanStan.main (Runs.full_run stan_base 10 3) stan_world ≡ returns r)
    × (r.effects ≡ copies 10 (publish_async 2 "in" (97 ∷ 97 ∷ 97 ∷ [])) ++ StanStan.closing 1 2 2 3)
    × ((r.ending ≡ test_failed) ↔ (replicated_at (pos 10) stan_world.events ≡ none))
    × ((t : Server) × (r.stopped ≡ some t) × (t.running ≡ false))
stan_main-returns_example =
    Runs.stan_main-returns stan_base stan_world 10 3 1 2 2 3 9 stan_replicator (left stan_busy)
      (omega arith) refl refl refl refl refl stan_replicator_started stan_left
      (left_stopped stan_busy) refl ((launched stan_busy, many_lem 10 stan_replicator, refl), tt)
      (λ i. refl) no_errors refl ten_sizes (omega arith) stan_world_ends
