-- ===== src/Bench/StanStan/Runs.antt =====
-- A whole run of performance/stan_stan_bench/main.go, with the replicator in between.
use native.Mathlib.Nat.{zero-add}
use nats_replicator.Prelude.{
  ℕ, ◌≤◌, String, ◌==◌, ◌≡◌, ◌∙◌, ◌↔◌, refl, ap, true, false, Option, none, some, List, [], ◌∷◌,
  ◌++◌, if◌then◌else◌, length, leb, eqb, All, arith, inl, inr, Bool-cases,
}
use nats_replicator.Prelude.Int.{pos}
use nats_replicator.Prelude.Outcome
use nats_replicator.Float.{Float}
use nats_replicator.Result.{Error, ok}
use nats_replicator.Client.{Client, Effect, publish_async, deliver_all_available, max_inflight}
use nats_replicator.Conf.{NatsReplicatorConfig}
use nats_replicator.Server.Flags.{initialize_from_config}
use nats_replicator.Server.Threads
use nats_replicator.Server.Threads.{Reach, launched, stopped}
use nats_replicator.Server.Threads.Reached.{start-Sane}
use nats_replicator.Server.Threads.Sane.{is_idle}
use nats_replicator.Main.{new_nats_replicator}
use nats_replicator.State.{Server}
use nats_replicator.Bench.{returns}
use nats_replicator.Bench.Subscriber.{Delivery, await-Counts, first_time}
use nats_replicator.Bench.Watch.{
  unwatched, stan_tick, stan_tick-IsTick, watch_lem, ends, replicated_at,
}
use nats_replicator.Bench.Rates.{Clock, stopped_clock, ending, test_failed, ending-failed}
use nats_replicator.Bench.Replicator.{
  bench_config, start_replicator, start_replicator_started, new_lock,
}
use nats_replicator.Bench.World.{AllSeen, World, repeat, connect_options, connect_lem}
use nats_replicator.Bench.NatsNats.Publishing.{copies, length-repeat}
use nats_replicator.Bench.NatsNats.Runs.{all_parts}
use nats_replicator.Bench.StanStan.Acks.{await_acks-Settled, publish_async_loop_lem}
use nats_replicator.Bench.StanStan.{
  Options, Plan, plan, stan_options, connect_stan, bench_connector, bench_streaming, subscribe,
  replicate, publish_all, publish_before, publish_after, await_messages, await_replicator, Finished,
  closing, main,
}

-- The flags of a run of all parts, of n messages of size k, which are published first or last.
abbrev pub full_run : Options → ℕ → ℕ → Options
full_run base n k = record base { iterations = pos n; message_size = pos k; modes = all_parts }

module _ ⦃fl : Float⦄ (base : Options) (w : World) (n k : ℕ) where
  abbrev pub flags : Options
  flags = full_run base n k

  -- What main makes of the flags: names that are not set are new ones.
  abbrev pub planned : Plan
  planned = record {
    url2 = if base.nats_url2 == "" then base.nats_url else base.nats_url2;
    cluster_id2 = if base.cluster_id2 == "" then base.cluster_id else base.cluster_id2;
    modes = all_parts;
    incoming = if base.in_name == "" then w.ids 0 else base.in_name;
    outgoing = if base.out_name == "" then w.ids 1 else base.out_name;
  }

  -- The configuration of the replicator.
  abbrev pub replicated_config : NatsReplicatorConfig
  replicated_config =
      bench_config base.hide_replicator_log base.nats_url planned.url2
        (bench_streaming flags planned (w.ids 4) (w.ids 5)) (bench_connector flags planned ∷ [])

  connect_stan_lem :
      (client : Client) (cluster_id id : String) (nc sc : ℕ)
      → client.stan_connect cluster_id id (stan_options client nc base.max_pub_acks) ≡ ok sc
      → connect_stan client cluster_id id nc base.max_pub_acks ≡ returns sc
  unfolding connect_stan
  connect_stan_lem client cluster_id id nc sc e = rw e refl

  subscribe_lem :
      (sc2 subscription : ℕ)
      → w.client2.stan_subscribe sc2 planned.outgoing
          (deliver_all_available ∷ max_inflight base.max_out ∷ [])
        ≡ ok subscription
      → subscribe flags w planned sc2 ≡ returns n
  unfolding subscribe
  subscribe_lem sc2 subscription e = rw (e, zero-add) refl

  replicate_lem :
      (s₀ : Server)
      → start_replicator w.replicator_client w.network w.replicator_start w.answer replicated_config
        ≡ Outcome.done (s₀, none)
      → replicate flags w planned ≡ returns (some s₀)
  unfolding replicate
  replicate_lem s₀ e = rw e refl

  abbrev payload : List ℕ
  payload = repeat k b'a'

  abbrev pub published_clock : Clock
  published_clock = record stopped_clock {
    start_pub = some w.publish_start;
    end_pub = some w.publish_end;
  }

  -- What the part that publishes returns.
  abbrev published : ℕ → List Effect × Clock
  published sc = (copies n (publish_async sc planned.incoming payload), published_clock)

  publish_all_lem :
      (sc : ℕ)
      → 10 ≤ n
      → ((i : ℕ) → w.published i ≡ none)
      → All (λ (e : Option Error). e ≡ none) w.acks
      → length w.acks ≡ n
      → publish_all flags w planned sc payload ≡ returns (published sc)
  unfolding publish_all
  publish_all_lem sc big all acks count =
      let effect = publish_async sc planned.incoming payload in
      let (a, e, _) = await_acks-Settled n base.show_progress big w.acks acks in
      let same : eqb (length w.acks) n ≡ true = ground arith in
      rw (zero-add, publish_async_loop_lem w.published effect n 0 [] all, e, same) refl

  -- Published first, or last, as the flag says.
  publish_once :
      (sc : ℕ)
      → publish_all flags w planned sc payload ≡ returns (published sc)
      → (before : List Effect × Clock) × (publish_before flags w planned sc payload
          ≡ returns before)
        × (publish_after flags w planned sc payload before ≡ returns (published sc))
  unfolding publish_before publish_after publish_all
  publish_once sc e = elim (Bool-cases base.pub_first) [
    | inl f ↦ (published sc, rw (f, e) refl, rw f refl)
    | inr f ↦ (([], stopped_clock), rw f refl, rw (f, e) refl)
  ]

  await_messages_lem :
      (clock : Clock)
      → 10 ≤ n
      → All (λ (d : Delivery). d.size ≡ k) w.deliveries
      → n ≤ length w.deliveries
      → await_messages flags w planned payload n clock
        ≡ returns
            (record clock { start_sub = first_time w.deliveries; end_sub = some w.subscribe_end })
  unfolding await_messages
  await_messages_lem clock big all enough =
      let (s, _, e, _, t) = await-Counts n k base.show_progress big w.deliveries all in
      let enough' : leb n (length w.deliveries) ≡ true = ground arith in
      rw (length-repeat k b'a', e, enough')
        (ap (λ time. returns (record clock { start_sub = time; end_sub = some w.subscribe_end })) t)

  await_replicator_lem :
      (clock : Clock) (t : Server)
      → 10 ≤ n
      → ends (pos n) w.events ≡ true
      → w.after_stop ≡ some t
      → (start : Option ℕ) × (await_replicator flags w planned clock
          ≡ returns (
            record clock { start_rep = start; end_rep = replicated_at (pos n) w.events },
            some t,
          ))
  unfolding await_replicator
  await_replicator_lem clock t big e left =
      let tick = stan_tick (pos n) base.show_progress in
      let (v, p, q) =
        watch_lem (pos n) tick (stan_tick-IsTick n base.show_progress big) w.events unwatched refl
          e in
      (
        v.start_rep,
        rw (p, left)
            (ap (λ time. returns (record clock { start_rep = v.start_rep; end_rep = time }, some t))
              q),
      )

  -- A run of all parts of the streaming benchmark, of n messages, n at least 10, which are
  -- published first or last: when the servers grant the four connections and the subscription,
  -- the replicator starts, each tick of the watching goroutine sees it in a state that its
  -- threads reach, Stop has come to its end in such a state, no publish fails, n acks without an
  -- error and at least n messages of the published size arrive, and the watching goroutine sees
  -- all messages replicated or a timeout, then main returns; it has published exactly n messages,
  -- the replicator is stopped, and the test has failed exactly when no tick before a timeout has
  -- seen all messages replicated.
  pub stan_main-returns :
      (nc sc nc2 sc2 subscription : ℕ) (s₀ : Server) (v : Threads.World)
      → 10 ≤ n
      → w.client.nats_connect (base.nats_url ∷ []) connect_options ≡ ok nc
      → w.client.stan_connect base.cluster_id (w.ids 2) (stan_options w.client nc base.max_pub_acks)
        ≡ ok sc
      → w.client2.nats_connect (planned.url2 ∷ []) connect_options ≡ ok nc2
      → w.client2.stan_connect planned.cluster_id2
          (w.ids 3)
          (stan_options w.client2 nc2 base.max_pub_acks)
        ≡ ok sc2
      → w.client2.stan_subscribe sc2 planned.outgoing
          (deliver_all_available ∷ max_inflight base.max_out ∷ [])
        ≡ ok subscription
      → start_replicator w.replicator_client w.network w.replicator_start w.answer replicated_config
        ≡ Outcome.done (s₀, none)
      → Reach (launched s₀) v
      → v.stopping ≡ stopped
      → w.after_stop ≡ some v.server
      → AllSeen s₀ w.events
      → ((i : ℕ) → w.published i ≡ none)
      → All (λ (e : Option Error). e ≡ none) w.acks
      → length w.acks ≡ n
      → All (λ (d : Delivery). d.size ≡ k) w.deliveries
      → n ≤ length w.deliveries
      → ends (pos n) w.events ≡ true
      → (r : Finished) × (main flags w ≡ returns r)
        × (r.effects
            ≡ copies n (publish_async sc planned.incoming payload) ++ closing nc sc nc2 sc2)
        × ((r.ending ≡ test_failed) ↔ (replicated_at (pos n) w.events ≡ none))
        × ((t : Server) × (r.stopped ≡ some t) × (t.running ≡ false))
  unfolding main plan
  stan_main-returns nc sc nc2 sc2 subscription s₀ v big c cs c2 cs2 sub started reached at_end left
        seen_by all acks count sizes enough e =
      let config = replicated_config in
      let new = initialize_from_config config new_nats_replicator in
      let up =
        start_replicator_started w.replicator_client w.network w.replicator_start w.answer config s₀
          started in
      let t = v.server in
      let off =
        (start-Sane w.replicator_client w.network w.replicator_start new s₀ v (new_lock config) up
          reached).runs
        ∙ ap is_idle at_end in
      let (before, first, after) = publish_once sc (publish_all_lem sc big all acks count) in
      let heard = record published_clock {
        start_sub = first_time w.deliveries;
        end_sub = some w.subscribe_end;
      } in
      let (start, seen) = await_replicator_lem heard t big e left in
      let clock = record heard { start_rep = start; end_rep = replicated_at (pos n) w.events } in
      (
        record {
          ending = ending flags.iterations flags.message_size all_parts clock;
          pushed_first = base.pub_first;
          effects = copies n (publish_async sc planned.incoming payload) ++ closing nc sc nc2 sc2;
          stopped = some t;
        },
        rw
            (
              connect_lem w.client base.nats_url nc c,
              connect_stan_lem w.client base.cluster_id (w.ids 2) nc sc cs,
              connect_lem w.client2 planned.url2 nc2 c2,
              connect_stan_lem w.client2 planned.cluster_id2 (w.ids 3) nc2 sc2 cs2,
              first,
              subscribe_lem sc2 subscription sub,
              replicate_lem s₀ started,
              after,
              await_messages_lem published_clock big sizes enough,
              seen,
            )
            refl,
        refl,
        ending-failed flags.iterations flags.message_size all_parts clock refl,
        (t, refl, off),
      )
