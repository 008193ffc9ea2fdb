-- ===== src/Bench/NatsNats/Runs.antt =====
-- A whole run of performance/nats_bench/main.go, with the replicator in between.
use native.Mathlib.Nat.{zero-add}
use nats_replicator.Prelude.{
  ℕ, ◌≤◌, ◌==◌, ◌≡◌, ◌∙◌, refl, ap, true, false, Option, none, some, List, [], ◌∷◌, ◌++◌,
  if◌then◌else◌, length, leb, All, arith, ◌↔◌,
}
use nats_replicator.Prelude.Int.{pos}
use nats_replicator.Prelude.Outcome
use nats_replicator.Float.{Float}
use nats_replicator.Result.{ok}
use nats_replicator.Client.{publish, close_nats}
use nats_replicator.Conf.{NatsReplicatorConfig}
use nats_replicator.Server.Flags.{initialize_from_config}
use nats_replicator.Server.Threads
use nats_replicator.Server.Threads.{Reach, launched, stopped}
use nats_replicator.Server.Threads.Reached.{start-Sane}
use nats_replicator.Server.Threads.Sane.{is_idle}
use nats_replicator.Main.{new_nats_replicator}
use nats_replicator.State.{Server}
use nats_replicator.Bench.{returns}
use nats_replicator.Bench.Subscriber.{Delivery, await-Counts, first_time}
use nats_replicator.Bench.Watch.{
  unwatched, nats_tick, nats_tick-IsTick, watch_lem, ends, replicated_at,
}
use nats_replicator.Bench.Rates.{Modes, Clock, stopped_clock, ending, test_failed, ending-failed}
use nats_replicator.Bench.Replicator.{
  bench_config, start_replicator, start_replicator_started, new_lock,
}
use nats_replicator.Bench.World.{AllSeen, World, repeat, connect_options, connect_lem}
use nats_replicator.Bench.NatsNats.{
  Options, Plan, plan, Sent, subscribe, replicate, publish_all, await_messages, await_replicator,
  main, Finished, bench_connector,
}
use nats_replicator.Bench.NatsNats.Publishing.{copies, logged, publish_loop_lem, length-repeat}

-- Nothing is left out: no flag -direct, -pub, -sub or -rep.
abbrev pub all_parts : Modes
all_parts = record { direct = false; pub_only = false; sub_only = false; rep_only = false }

-- The flags of a run of all parts, of n messages of size k.
abbrev pub full_run : Options → ℕ → ℕ → Options
full_run base n k = record base { iterations = pos n; message_size = pos k; modes = all_parts }

module _ ⦃fl : Float⦄ (base : Options) (w : World) (n k : ℕ) where
  abbrev pub flags : Options
  flags = full_run base n k

  -- What main makes of the flags: names that are not set are new ones.
  abbrev pub planned : Plan
  planned = record {
    url2 = if base.nats_url2 == "" then base.nats_url else base.nats_url2;
    modes = all_parts;
    incoming = if base.in_name == "" then w.ids 0 else base.in_name;
    outgoing = if base.out_name == "" then w.ids 1 else base.out_name;
  }

  -- The configuration of the replicator.
  abbrev pub replicated_config : NatsReplicatorConfig
  replicated_config =
      bench_config base.hide_replicator_log base.nats_url planned.url2 []
        (bench_connector planned ∷ [])

  pub subscribe_lem :
      (nc subscription : ℕ)
      → w.client.subscribe nc planned.outgoing ≡ ok subscription
      → subscribe flags w planned nc ≡ returns n
  unfolding subscribe
  subscribe_lem nc subscription e = rw (e, zero-add) refl

  pub replicate_lem :
      (s₀ : Server)
      → start_replicator w.replicator_client w.network w.replicator_start w.answer replicated_config
        ≡ Outcome.done (s₀, none)
      → replicate flags w planned ≡ returns (some s₀)
  unfolding replicate
  replicate_lem s₀ e = rw e refl

  -- Of a run of all parts, with its first messages.
  abbrev pub payload : List ℕ
  payload = repeat k b'a'

  abbrev pub published_clock : Clock
  published_clock = record stopped_clock {
    start_pub = some w.publish_start;
    end_pub = some w.publish_end;
  }

  publish_all_lem :
      (nc : ℕ)
      → 10 ≤ n
      → ((i : ℕ) → w.published i ≡ none)
      → (progress : List ℕ) × (publish_all flags w planned nc payload
          ≡ returns (
            record {
              effects = copies n (publish nc planned.incoming payload);
              progress = progress;
            },
            published_clock,
          ))
  unfolding publish_all
  publish_all_lem nc big all =
      let effect = publish nc planned.incoming payload in
      let begun : Sent = record { effects = []; progress = [] } in
      (
        logged w.published effect n base.show_progress big all n 0 [],
        rw (publish_loop_lem w.published effect n base.show_progress big all n 0 begun) refl,
      )

  await_messages_lem :
      (clock : Clock)
      → 10 ≤ n
      → All (λ (d : Delivery). d.size ≡ k) w.deliveries
      → n ≤ length w.deliveries
      → await_messages flags w planned payload n clock
        ≡ returns
            (record clock { start_sub = first_time w.deliveries; end_sub = some w.subscribe_end })
  unfolding await_messages
  await_messages_lem clock big all enough =
      let (s, _, e, _, t) = await-Counts n k base.show_progress big w.deliveries all in
      let enough' : leb n (length w.deliveries) ≡ true = ground arith in
      rw (length-repeat k b'a', e, enough')
        (ap (λ time. returns (record clock { start_sub = time; end_sub = some w.subscribe_end })) t)

  await_replicator_lem :
      (clock : Clock) (t : Server)
      → 10 ≤ n
      → ends (pos n) w.events ≡ true
      → w.after_stop ≡ some t
      → (start : Option ℕ) × (await_replicator flags w planned clock
          ≡ returns (
            record clock { start_rep = start; end_rep = replicated_at (pos n) w.events },
            some t,
          ))
  unfolding await_replicator
  await_replicator_lem clock t big e left =
      let tick = nats_tick (pos n) base.show_progress in
      let (v, p, q) =
        watch_lem (pos n) tick (nats_tick-IsTick n base.show_progress big) w.events unwatched refl
          e in
      (
        v.start_rep,
        rw (p, left)
            (ap (λ time. returns (record clock { start_rep = v.start_rep; end_rep = time }, some t))
              q),
      )

  -- A run of all parts of the NATS benchmark, of n messages, n at least 10: when the servers
  -- grant the two connections and the subscription, the replicator starts, each tick of the
  -- watching goroutine sees it in a state that its threads reach, Stop has come to its end in
  -- such a state, no publish fails, at least n messages of the published size arrive, and the
  -- watching goroutine sees all messages replicated or a timeout, then main returns; it has
  -- published exactly n messages, the replicator is stopped, and the test has failed exactly when
  -- no tick before a timeout has seen all messages replicated.
  pub nats_main-returns :
      (nc nc2 subscription : ℕ) (s₀ : Server) (v : Threads.World)
      → 10 ≤ n
      → w.client.nats_connect (base.nats_url ∷ []) connect_options ≡ ok nc
      → w.client2.nats_connect (planned.url2 ∷ []) connect_options ≡ ok nc2
      → w.client.subscribe nc planned.outgoing ≡ ok subscription
      → start_replicator w.replicator_client w.network w.replicator_start w.answer replicated_config
        ≡ Outcome.done (s₀, none)
      → Reach (launched s₀) v
      → v.stopping ≡ stopped
      → w.after_stop ≡ some v.server
      → AllSeen s₀ w.events
      → ((i : ℕ) → w.published i ≡ none)
      → All (λ (d : Delivery). d.size ≡ k) w.deliveries
      → n ≤ length w.deliveries
      → ends (pos n) w.events ≡ true
      → (r : Finished) × (main flags w ≡ returns r)
        × (r.effects
            ≡ copies n (publish nc planned.incoming payload)
              ++ close_nats nc2 ∷ close_nats nc ∷ close_nats nc ∷ close_nats nc ∷ [])
        × ((r.ending ≡ test_failed) ↔ (replicated_at (pos n) w.events ≡ none))
        × ((t : Server) × (r.stopped ≡ some t) × (t.running ≡ false))
  unfolding main plan
  nats_main-returns nc nc2 subscription s₀ v big c c2 sub started reached at_end left seen_by all
        sizes enough e =
      let config = replicated_config in
      let new = initialize_from_config config new_nats_replicator in
      let up =
        start_replicator_started w.replicator_client w.network w.replicator_start w.answer config s₀
          started in
      let t = v.server in
      let off =
        (start-Sane w.replicator_client w.network w.replicator_start new s₀ v (new_lock config) up
          reached).runs
        ∙ ap is_idle at_end in
      let (progress, sent) = publish_all_lem nc big all in
      let heard = record published_clock {
        start_sub = first_time w.deliveries;
        end_sub = some w.subscribe_end;
      } in
      let (start, seen) = await_replicator_lem heard t big e left in
      let clock = record heard { start_rep = start; end_rep = replicated_at (pos n) w.events } in
      (
        record {
          ending = ending flags.iterations flags.message_size all_parts clock;
          effects =
              copies n (publish nc planned.incoming payload)
              ++ close_nats nc2 ∷ close_nats nc ∷ close_nats nc ∷ close_nats nc ∷ [];
          stopped = some t;
        },
        rw
            (
              connect_lem w.client base.nats_url nc c,
              connect_lem w.client2 planned.url2 nc2 c2,
              subscribe_lem nc subscription sub,
              replicate_lem s₀ started,
              sent,
              await_messages_lem published_clock big sizes enough,
              seen,
            )
            refl,
        refl,
        ending-failed flags.iterations flags.message_size all_parts clock refl,
        (t, refl, off),
      )
