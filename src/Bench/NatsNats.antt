-- ===== src/Bench/NatsNats.antt =====
-- performance/nats_nats_bench/main.go.
pub mod Publishing
pub mod Runs
pub mod Few
use nats_replicator.Prelude.{
  ℕ, zero, suc, String, ◌==◌, ◌≡◌, refl, Bool, true, false, not, ◌&&◌, ◌||◌, Option, none, some,
  List, [], ◌∷◌, ◌++◌, if◌then◌else◌, length,
}
use nats_replicator.Prelude.Int.{ℤ, pos, negsuc}
use nats_replicator.Float.{Float}
use nats_replicator.Result.{Error}
use nats_replicator.Conf.{ConnectorConfig, nats_to_nats}
use nats_replicator.Conf.Structs.{zero_connector}
use nats_replicator.Client.{Client, Effect, publish, close_nats}
use nats_replicator.State.{Server}
use nats_replicator.Bench.{
  Run, returns, fails, fatal, ◌>>=◌, from_outcome, or_fatal, add_wait, interval_of, is_multiple,
}
use nats_replicator.Bench.Subscriber.{Subscriber, unheard, await}
use nats_replicator.Bench.Watch.{Watch, unwatched, watch, nats_tick}
use nats_replicator.Bench.Rates.{Modes, Clock, Report, Ending, ending, report, stopped_clock}
use nats_replicator.Bench.Replicator.{bench_config, start_replicator}
use nats_replicator.Bench.World.{or_stuck, World, message, connect, or_exit, rounds}

-- The flags.
pub record Options : Type 0 where
  pub iterations : ℤ
  pub message_size : ℤ
  pub nats_url : String
  pub nats_url2 : String
  pub modes : Modes
  pub show_stats : Bool
  pub hide_replicator_log : Bool
  pub show_progress : Bool
  pub in_name : String
  pub out_name : String

-- The flags that are not given.
abbrev pub default_options : Options
default_options = record {
  iterations = pos 1000;
  message_size = pos 1024;
  nats_url = "nats://localhost:4222";
  nats_url2 = "";
  modes = record { direct = false; pub_only = false; sub_only = false; rep_only = false };
  show_stats = false;
  hide_replicator_log = false;
  show_progress = true;
  in_name = "";
  out_name = "";
}

-- What main makes of them: natsURL2, the modes with direct, incoming and outgoing.
pub record Plan : Type 0 where
  pub url2 : String
  pub modes : Modes
  pub incoming : String
  pub outgoing : String

-- `id` and `id2` are the first two values of nuid.Next.
unfoldable pub plan : Options → String → String → Plan
plan o id id2 =
    let direct = o.modes.direct || (o.modes.pub_only || o.modes.sub_only) in
    let url2 = if o.nats_url2 == "" then o.nats_url else o.nats_url2 in
    let incoming = if o.in_name == "" then id else o.in_name in
    let outgoing = if o.out_name == "" then id2 else o.out_name in
    record {
      url2 = if direct then o.nats_url else url2;
      modes = record o.modes { direct = direct };
      incoming = incoming;
      outgoing = if direct && (o.in_name == "") && (o.out_name == "") then incoming else outgoing;
    }

-- The connector of the replicator.
abbrev pub bench_connector : Plan → ConnectorConfig
bench_connector p = record zero_connector {
  type = nats_to_nats;
  incoming_connection = "nats";
  outgoing_connection = "nats2";
  incoming_subject = p.incoming;
  outgoing_subject = p.outgoing;
}

-- What was published, and the counts that are logged.
pub record Sent : Type 0 where
  pub effects : List Effect
  pub progress : List ℕ

-- The loop that publishes: `left` messages from the i-th on.
unfoldable pub publish_loop : (ℕ → Option Error) → Effect → ℤ → Bool → ℕ → ℕ → Sent → Run Sent
unfolding is_multiple
publish_loop published effect iterations show_progress zero i s = returns s
publish_loop published effect iterations show_progress (suc left) i s = elim (published i) [
  | some e ↦ fails fatal
  | none ↦ is_multiple i (interval_of iterations) >>= λ multiple.
      publish_loop published effect iterations show_progress left (suc i) (record {
        effects = s.effects ++ effect ∷ [];
        progress = if multiple && show_progress then s.progress ++ i ∷ [] else s.progress;
      })
]

module _ ⦃fl : Float⦄ where
  -- The part of main that subscribes, on the first connection: the count of subwg.
  unfoldable pub subscribe : Options → World → Plan → ℕ → Run ℕ
  unfolding add_wait
  subscribe o w p nc =
      let wanted = add_wait 0 o.iterations >>= λ n.
      or_fatal (w.client.subscribe nc p.outgoing) >>= λ subscription. returns n in
      if not p.modes.pub_only && not p.modes.rep_only then wanted else returns 0

  -- The part that starts the replicator.
  unfoldable pub replicate : Options → World → Plan → Run (Option Server)
  replicate o w p =
      let config =
        bench_config o.hide_replicator_log o.nats_url p.url2 [] (bench_connector p ∷ []) in
      let started =
        from_outcome
          (start_replicator w.replicator_client w.network w.replicator_start w.answer config)
        >>= or_exit
        >>= λ s. returns (some s) in
      if not p.modes.direct then started else returns none

  -- The part that publishes, on the first connection.
  unfoldable pub publish_all : Options → World → Plan → ℕ → List ℕ → Run (Sent × Clock)
  unfolding add_wait
  publish_all o w p nc msg =
      let begun : Sent = record { effects = []; progress = [] } in
      let sent = add_wait 0 o.iterations >>= λ n.
      publish_loop w.published (publish nc p.incoming msg) o.iterations o.show_progress
        (rounds o.iterations) 0 begun
      >>= λ s. returns (
        s,
        record stopped_clock { start_pub = some w.publish_start; end_pub = some w.publish_end },
      ) in
      if not p.modes.sub_only && not p.modes.rep_only then sent else returns (begun, stopped_clock)

  -- The wait for the subscriber.
  unfoldable pub await_messages : Options → World → Plan → List ℕ → ℕ → Clock → Run Clock
  await_messages o w p msg waiting clock =
      let heard =
        await o.iterations (length msg) o.show_progress w.deliveries (unheard waiting) >>= λ s.
        returns (record clock { start_sub = s.start_sub; end_sub = some w.subscribe_end }) in
      if not p.modes.pub_only && not p.modes.rep_only then heard else returns clock

  -- The wait for the replicator, and its Stop.
  unfoldable pub await_replicator : Options → World → Plan → Clock → Run (Clock × Option Server)
  await_replicator o w p clock =
      let seen = watch (nats_tick o.iterations o.show_progress) w.events unwatched >>= λ v.
      or_stuck w.after_stop >>= λ s.
      returns (record clock { start_rep = v.start_rep; end_rep = v.end_rep }, some s) in
      if not p.modes.direct then seen else returns (clock, none)

  -- What main has done when it returns: nc2 is closed once, and nc three times, twice by a defer.
  pub record Finished : Type 0 where
    pub ending : Ending
    pub effects : List Effect
    pub stopped : Option Server

  -- The end of main, behind the replicator.
  abbrev pub finish : Options → Plan → ℕ → ℕ → List Effect → Clock → Option Server → Finished
  finish o p nc nc2 sent clock stopped = record {
    ending = ending o.iterations o.message_size p.modes clock;
    effects = sent ++ close_nats nc2 ∷ close_nats nc ∷ close_nats nc ∷ close_nats nc ∷ [];
    stopped = stopped;
  }

  unfoldable pub main : Options → World → Run Finished
  main o w = message o.message_size >>= λ msg.
      let p = plan o (w.ids 0) (w.ids 1) in
      connect w.client o.nats_url >>= λ nc. connect w.client2 p.url2 >>= λ nc2.
      subscribe o w p nc >>= λ waiting. replicate o w p >>= λ replicator.
      publish_all o w p nc msg >>= λ (sent, published).
      await_messages o w p msg waiting published >>= λ heard.
      await_replicator o w p heard >>= λ (clock, stopped).
      returns (finish o p nc nc2 sent.effects clock stopped)
