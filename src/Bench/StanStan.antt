-- ===== src/Bench/StanStan.antt =====
-- performance/stan_stan_bench/main.go.
pub mod Acks
pub mod Runs
use nats_replicator.Prelude.{
  ℕ, zero, suc, String, ◌==◌, Bool, true, false, not, ◌&&◌, ◌||◌, Option, none, some, List, [], ◌∷◌,
  ◌++◌, if◌then◌else◌, eqb, length,
}
use nats_replicator.Prelude.Int.{ℤ, pos}
use nats_replicator.Float.{Float}
use nats_replicator.Result.{Error}
use nats_replicator.Conf.{ConnectorConfig, NatsStreamingConfig, stan_to_stan}
use nats_replicator.Conf.Structs.{zero_connector}
use nats_replicator.Client.{
  Client, StanOptions, Effect, publish_async, close_nats, close_stan, deliver_all_available,
  max_inflight,
}
use nats_replicator.State.{Server}
use nats_replicator.Bench.{
  Run, returns, fails, fatal, stuck, ◌>>=◌, from_outcome, or_fatal, add_wait, done_wait,
  interval_of, is_multiple, is_count,
}
use nats_replicator.Bench.Subscriber.{Subscriber, unheard, await}
use nats_replicator.Bench.Watch.{Watch, unwatched, watch, stan_tick}
use nats_replicator.Bench.Rates.{Modes, Clock, Ending, ending, stopped_clock}
use nats_replicator.Bench.Replicator.{stan_side, bench_config, start_replicator}
use nats_replicator.Bench.World.{or_stuck, World, message, connect, or_exit, rounds}

-- The flags.
pub record Options : Type 0 where
  pub iterations : ℤ
  pub message_size : ℤ
  pub max_pub_acks : ℤ
  pub max_out : ℤ
  pub nats_url : String
  pub cluster_id : String
  pub nats_url2 : String
  pub cluster_id2 : String
  pub modes : Modes
  pub pub_first : Bool
  pub show_stats : Bool
  pub hide_replicator_log : Bool
  pub show_progress : Bool
  pub in_name : String
  pub out_name : String

-- The flags that are not given.
abbrev pub default_options : Options
default_options = record {
  iterations = pos 1000;
  message_size = pos 1024;
  max_pub_acks = pos 1;
  max_out = pos 100;
  nats_url = "nats://localhost:4222";
  cluster_id = "test-cluster";
  nats_url2 = "";
  cluster_id2 = "";
  modes = record { direct = false; pub_only = false; sub_only = false; rep_only = false };
  pub_first = false;
  show_stats = false;
  hide_replicator_log = false;
  show_progress = true;
  in_name = "";
  out_name = "";
}

-- What main makes of them: natsURL2, stanClusterID2, the modes with direct, incoming and outgoing.
pub record Plan : Type 0 where
  pub url2 : String
  pub cluster_id2 : String
  pub modes : Modes
  pub incoming : String
  pub outgoing : String

-- `id` and `id2` are the first two values of nuid.Next.
unfoldable pub plan : Options → String → String → Plan
plan o id id2 =
    let wished = o.modes.direct || (o.modes.pub_only || o.modes.sub_only) in
    let direct = if o.modes.rep_only then false else wished in
    let url2 = if o.nats_url2 == "" then o.nats_url else o.nats_url2 in
    let cluster_id2 = if o.cluster_id2 == "" then o.cluster_id else o.cluster_id2 in
    let incoming = if o.in_name == "" then id else o.in_name in
    let outgoing = if o.out_name == "" then id2 else o.out_name in
    record {
      url2 = if direct then o.nats_url else url2;
      cluster_id2 = if direct then o.cluster_id else cluster_id2;
      modes = record o.modes { direct = direct };
      incoming = incoming;
      outgoing = if direct && (o.in_name == "") && (o.out_name == "") then incoming else outgoing;
    }

-- stan.Connect in main, over a NATS connection; the options that are not set have their defaults.
abbrev pub stan_options : Client → ℕ → ℤ → StanOptions
stan_options client nc max_pub_acks = record {
  nats_conn = nc;
  pub_ack_wait = client.default_ack_wait;
  max_pub_acks_inflight = max_pub_acks;
  connect_wait = client.default_connect_wait;
  ping_interval = client.default_ping_interval;
  ping_max_out = client.default_ping_max_out;
  discover_prefix = "_STAN.discover";
}

unfoldable pub connect_stan : Client → String → String → ℕ → ℤ → Run ℕ
connect_stan client cluster_id id nc max_pub_acks =
    or_fatal (client.stan_connect cluster_id id (stan_options client nc max_pub_acks))

-- The connector of the replicator, and its streaming connections.
abbrev pub bench_connector : Options → Plan → ConnectorConfig
bench_connector o p = record zero_connector {
  type = stan_to_stan;
  incoming_connection = "stan";
  outgoing_connection = "stan2";
  incoming_channel = p.incoming;
  outgoing_channel = p.outgoing;
  incoming_start_at_sequence = pos 0;
  incoming_max_inflight = o.max_out;
}

abbrev pub bench_streaming : Options → Plan → String → String → List NatsStreamingConfig
bench_streaming o p id id2 =
    stan_side "stan" "nats" o.cluster_id id o.max_pub_acks
    ∷ stan_side "stan2" "nats2" p.cluster_id2 id2 o.max_pub_acks
    ∷ []

-- The loop that publishes: `left` messages from the i-th on.
unfoldable pub publish_async_loop :
    (ℕ → Option Error) → Effect → ℕ → ℕ → List Effect → Run (List Effect)
publish_async_loop published effect zero i sent = returns sent
publish_async_loop published effect (suc left) i sent = elim (published i) [
  | some e ↦ fails fatal
  | none ↦ publish_async_loop published effect left (suc i) (sent ++ effect ∷ [])
]

-- pubCount, the counter of pubwg, and the counts that are logged.
pub record Acked : Type 0 where
  pub pub_count : ℕ
  pub waiting : ℕ
  pub progress : List ℕ

module _ (iterations : ℤ) (show_progress : Bool) where
  -- The ack handler.
  unfoldable pub on_ack : Option Error → Acked → Run Acked
  unfolding is_multiple add_wait
  on_ack (some e) a = fails fatal
  on_ack none a =
      let count = suc a.pub_count in
      is_multiple count (interval_of iterations) >>= λ multiple. done_wait a.waiting >>= λ w.
      returns (record {
        pub_count = count;
        waiting = w;
        progress =
            if (multiple || is_count count iterations) && show_progress
            then a.progress ++ count ∷ []
            else a.progress;
      })

  unfoldable pub receive_acks : List (Option Error) → Acked → Run Acked
  receive_acks [] a = returns a
  receive_acks (e ∷ es) a = on_ack e a >>= receive_acks es

  -- pubwg.Wait, with all acks that arrive.
  unfoldable pub await_acks : List (Option Error) → Acked → Run Acked
  await_acks es a = receive_acks es a >>= λ a'. if eqb a'.waiting 0 then returns a' else fails stuck

module _ ⦃fl : Float⦄ where
  -- The part that publishes, which stands twice in main.
  unfoldable pub publish_all : Options → World → Plan → ℕ → List ℕ → Run (List Effect × Clock)
  unfolding add_wait
  publish_all o w p sc msg = add_wait 0 o.iterations >>= λ n.
      publish_async_loop w.published (publish_async sc p.incoming msg) (rounds o.iterations) 0 []
      >>= λ sent.
          await_acks o.iterations o.show_progress w.acks
            (record { pub_count = 0; waiting = n; progress = [] })
          >>= λ a. returns (
            sent,
            record stopped_clock { start_pub = some w.publish_start; end_pub = some w.publish_end },
          )

  -- Before the subscription, and after the start of the replicator.
  abbrev pub publishes_first : Options → Bool
  publishes_first o = o.pub_first || o.modes.pub_only

  unfoldable pub publish_before : Options → World → Plan → ℕ → List ℕ → Run (List Effect × Clock)
  publish_before o w p sc msg =
      let sent = publish_all o w p sc msg in
      if publishes_first o then sent else returns ([], stopped_clock)

  unfoldable pub publish_after :
      Options → World → Plan → ℕ → List ℕ → List Effect × Clock → Run (List Effect × Clock)
  publish_after o w p sc msg before =
      let sent = publish_all o w p sc msg in
      if not o.pub_first && not o.modes.pub_only && not o.modes.sub_only && not o.modes.rep_only
      then sent
      else returns before

  -- The part that subscribes, on the second connection: the count of subwg.
  unfoldable pub subscribe : Options → World → Plan → ℕ → Run ℕ
  unfolding add_wait
  subscribe o w p sc2 =
      let wanted = add_wait 0 o.iterations >>= λ n.
      or_fatal (
        w.client2.stan_subscribe sc2 p.outgoing
          (deliver_all_available ∷ max_inflight o.max_out ∷ []))
      >>= λ subscription. returns n in
      if not p.modes.pub_only && not p.modes.rep_only then wanted else returns 0

  -- The part that starts the replicator; its streaming clients have the next two ids.
  unfoldable pub replicate : Options → World → Plan → Run (Option Server)
  replicate o w p =
      let config =
        bench_config o.hide_replicator_log o.nats_url p.url2
          (bench_streaming o p (w.ids 4) (w.ids 5)) (bench_connector o p ∷ []) in
      let started =
        from_outcome
          (start_replicator w.replicator_client w.network w.replicator_start w.answer config)
        >>= or_exit
        >>= λ s. returns (some s) in
      if not p.modes.direct then started else returns none

  -- The wait for the subscriber.
  unfoldable pub await_messages : Options → World → Plan → List ℕ → ℕ → Clock → Run Clock
  await_messages o w p msg waiting clock =
      let heard =
        await o.iterations (length msg) o.show_progress w.deliveries (unheard waiting) >>= λ s.
        returns (record clock { start_sub = s.start_sub; end_sub = some w.subscribe_end }) in
      if not p.modes.pub_only && not p.modes.rep_only then heard else returns clock

  -- The wait for the replicator, and its Stop.
  unfoldable pub await_replicator : Options → World → Plan → Clock → Run (Clock × Option Server)
  await_replicator o w p clock =
      let seen = watch (stan_tick o.iterations o.show_progress) w.events unwatched >>= λ v.
      or_stuck w.after_stop >>= λ s.
      returns (record clock { start_rep = v.start_rep; end_rep = v.end_rep }, some s) in
      if not p.modes.direct then seen else returns (clock, none)

  -- What main has done when it returns; nc is closed three times, twice by a defer.
  pub record Finished : Type 0 where
    pub ending : Ending
    pub pushed_first : Bool
    pub effects : List Effect
    pub stopped : Option Server

  -- The calls of Close at the end.
  abbrev pub closing : ℕ → ℕ → ℕ → ℕ → List Effect
  closing nc sc nc2 sc2 =
      close_stan sc2
      ∷ close_stan sc
      ∷ close_nats nc2
      ∷ close_nats nc
      ∷ close_nats nc
      ∷ close_nats nc
      ∷ []

  -- The end of main, behind the replicator.
  abbrev pub finish : Options → Plan → List Effect → Clock → Option Server → Finished
  finish o p effects clock stopped = record {
    ending = ending o.iterations o.message_size p.modes clock;
    pushed_first = o.pub_first;
    effects = effects;
    stopped = stopped;
  }

  unfoldable pub main : Options → World → Run Finished
  main o w = message o.message_size >>= λ msg.
      let p = plan o (w.ids 0) (w.ids 1) in
      connect w.client o.nats_url >>= λ nc.
      connect_stan w.client o.cluster_id (w.ids 2) nc o.max_pub_acks >>= λ sc.
      connect w.client2 p.url2 >>= λ nc2.
      connect_stan w.client2 p.cluster_id2 (w.ids 3) nc2 o.max_pub_acks >>= λ sc2.
      publish_before o w p sc msg >>= λ before. subscribe o w p sc2 >>= λ waiting.
      replicate o w p >>= λ replicator. publish_after o w p sc msg before >>= λ (sent, published).
      await_messages o w p msg waiting published >>= λ heard.
      await_replicator o w p heard >>= λ (clock, stopped).
      returns (finish o p (sent ++ closing nc sc nc2 sc2) clock stopped)
