-- ===== src/Tests/Benchmarks.antt =====
-- The theorems on the benchmarks, on runs of ten messages.
use nats_replicator.Prelude.{
  ℕ, ◌+◌, ◌*◌, ◌≤◌, ◌<◌, ◌≡◌, ◌↔◌, refl, true, false, none, some, List, [], ◌∷◌, ◌++◌, arith, All,
  leb, length, if◌then◌else◌,
}
use nats_replicator.Prelude.Int.{pos, milliseconds}
use nats_replicator.Prelude.Assoc.{lookup, insert}
use nats_replicator.Prelude.Text.{to_lower}
use nats_replicator.Prelude.Outcome
use nats_replicator.Result.{ok}
use nats_replicator.Conf.{default_config}
use nats_replicator.Client.{Client, publish, close_nats}
use nats_replicator.Nats.{check_nats, connect_to_nats, connect_to_stan, nats_conn}
use nats_replicator.Connector.{create_connector, new_nats2nats}
use nats_replicator.Connector.Methods
use nats_replicator.Connector.NatsToNats
use nats_replicator.Monitoring.{start_monitoring}
use nats_replicator.State.{Server}
use nats_replicator.Server.Startup
use nats_replicator.Server.Starting.{start_server, start_reconnect_ticker}
use nats_replicator.Server.Flags.{initialize_from_config}
use nats_replicator.Main.{new_nats_replicator}
use nats_replicator.Bench.{returns, fails, panic, stuck}
use nats_replicator.Bench.Subscriber.{
  Delivery, Subscriber, unheard, receive, await, await-Counts, first_time,
}
use nats_replicator.Bench.Timeout.{timeout_goroutine, timeout_goroutine_lem, period, second}
use nats_replicator.Bench.Watch.{request_count, ticked, ends, replicated_at}
use nats_replicator.Bench.Rates.{test_failed}
use nats_replicator.Bench.Replicator.{bench_config, start_replicator}
use nats_replicator.Bench.World.{World}
use nats_replicator.Bench.NatsNats
use nats_replicator.Bench.NatsNats.Publishing.{copies}
use nats_replicator.Bench.NatsNats.Runs
use nats_replicator.Bench.NatsNats.Few
use nats_replicator.Server.Threads.{Reach, launched}
use nats_replicator.Monitoring.{safe_stats, stats, collect, request_total}
use nats_replicator.Stats
use nats_replicator.Histogram
use nats_replicator.Stats.{
  add_request_time, add_message_in, add_message_out, add_request, add_connect,
}
use nats_replicator.Server.Threads.Rounds.{joined}
use nats_replicator.Tests.Copying.{many, many_lem}
use nats_replicator.Tests.Stopping.{left, Reach-left, left_stopped}
use nats_replicator.Tests.Numbers.{nat_float}
use nats_replicator.Tests.Samples.{client, network}

-- Ten messages of three bytes, one in each second.
abbrev pub delivery : ℕ → Delivery
delivery n = record { time = n * second; size = 3 }

abbrev pub ten : List Delivery
ten =
    delivery 1
    ∷ delivery 2
    ∷ delivery 3
    ∷ delivery 4
    ∷ delivery 5
    ∷ delivery 6
    ∷ delivery 7
    ∷ delivery 8
    ∷ delivery 9
    ∷ delivery 10
    ∷ []

pub ten_sizes : All (λ (d : Delivery). d.size ≡ 3) ten
ten_sizes = omega arith

await-Counts_example :
    (s : Subscriber) × (receive (pos 10) 3 true ten (unheard 10) ≡ returns s)
    × (await (pos 10) 3 true ten (unheard 10)
        ≡ (if leb 10 (length ten) then returns s else fails stuck))
    × (s.sub_count ≡ length ten)
    × (s.start_sub ≡ first_time ten)
await-Counts_example = await-Counts 10 3 true (omega arith) ten ten_sizes

-- A ticker that is never late.
abbrev punctual : ℕ → ℕ
punctual k = 7 + (k + 1) * period

timeout_goroutine_lem_example :
    (j : ℕ) × (timeout_goroutine punctual 7 21 ≡ some j)
    × (j ≤ 20)
    × (7 + 10 * second < punctual j)
    × ((i : ℕ) → i < j → punctual i ≤ 7 + 10 * second)
timeout_goroutine_lem_example = timeout_goroutine_lem punctual 7 21 (λ k. omega arith) (omega arith)

-- The flags, with the two URLs and the subjects.
abbrev base : NatsNats.Options
base = record {
  iterations = pos 1000;
  message_size = pos 1024;
  nats_url = "one";
  nats_url2 = "two";
  modes = NatsNats.Runs.all_parts;
  show_stats = false;
  hide_replicator_log = true;
  show_progress = true;
  in_name = "in";
  out_name = "out";
}

-- A client whose connection is 2.
abbrev pub client2 : Client
client2 = record client { nats_connect = λ servers options. ok 2 }

abbrev pub bare : World
bare = record {
  client = client;
  client2 = client2;
  replicator_client = client;
  network = network;
  ids = λ k. "id";
  published = λ i. none;
  acks = [];
  deliveries = ten;
  events = [];
  after_stop = none;
  answer = none;
  publish_start = 1;
  publish_end = 2;
  subscribe_end = 3;
  replicator_start = 4;
}

-- The replicator of the benchmark, after its Start.
abbrev replicator : Server
replicator =
    (Startup.start client network 4 (
      initialize_from_config (NatsNats.Runs.replicated_config base bare 10 3)
        new_nats_replicator)).0

-- It has copied ten messages when the watching goroutine sees it, and then Stop runs.
abbrev busy : Server
busy = many 10 replicator

abbrev world : World
world = record bare { events = ticked 5 busy ∷ []; after_stop = some (left busy).server }

world_ends : ends (pos 10) world.events ≡ true
unfolding ends request_count safe_stats stats collect request_total Stats.stats
    initialize_from_config bench_config default_config Startup.start Startup.initialize_connectors
    Startup.start_connectors create_connector Methods.start lookup connect_to_nats connect_to_stan
    start_monitoring insert to_lower new_nats2nats NatsToNats.start NatsToNats.is_configured
    check_nats nats_conn NatsToNats.on_message add_request_time add_message_in add_message_out
    add_request add_connect Histogram.add
world_ends = refl

replicator_started :
    start_replicator client network 4 none (NatsNats.Runs.replicated_config base bare 10 3)
    ≡ Outcome.done (replicator, none)
unfolding start_replicator start_server start_reconnect_ticker initialize_from_config bench_config
    default_config milliseconds Startup.start Startup.initialize_connectors Startup.start_connectors
    create_connector Methods.start lookup connect_to_nats connect_to_stan start_monitoring insert
    to_lower new_nats2nats NatsToNats.start NatsToNats.is_configured check_nats nats_conn
replicator_started = refl

replicator_left : Reach (launched replicator) (left busy)
unfolding initialize_from_config bench_config default_config Startup.start
    Startup.initialize_connectors Startup.start_connectors create_connector Methods.start lookup
    connect_to_nats connect_to_stan start_monitoring insert to_lower new_nats2nats NatsToNats.start
    NatsToNats.is_configured check_nats nats_conn NatsToNats.on_message add_request_time
    add_message_in add_message_out add_request add_connect Histogram.add
replicator_left = joined (many_lem 10 replicator) (Reach-left busy refl refl refl)

nats_main-returns_example :
    (r : NatsNats.Finished) × (NatsNats.main (NatsNats.Runs.full_run base 10 3) world ≡ returns r)
    × (r.effects
        ≡ copies 10 (publish 1 "in" (97 ∷ 97 ∷ 97 ∷ []))
          ++ close_nats 2 ∷ close_nats 1 ∷ close_nats 1 ∷ close_nats 1 ∷ [])
    × ((r.ending ≡ test_failed) ↔ (replicated_at (pos 10) world.events ≡ none))
    × ((t : Server) × (r.stopped ≡ some t) × (t.running ≡ false))
nats_main-returns_example =
    NatsNats.Runs.nats_main-returns base world 10 3 1 2 7 replicator (left busy) (omega arith) refl
      refl refl replicator_started replicator_left (left_stopped busy) refl
      ((launched busy, many_lem 10 replicator, refl), tt) (λ i. refl) ten_sizes (omega arith)
      world_ends

nats_main-panics_example : NatsNats.main (NatsNats.Runs.full_run base 4 3) world ≡ fails panic
nats_main-panics_example =
    NatsNats.Few.nats_main-panics base world 3 3 1 2 7 replicator (omega arith) refl refl refl
      replicator_started refl
