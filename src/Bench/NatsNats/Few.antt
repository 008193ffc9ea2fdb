-- ===== src/Bench/NatsNats/Few.antt =====
-- Runs of performance/nats_nats_bench/main.go with fewer than ten messages, or with flags that
-- exclude each other.
use nats_replicator.Prelude.{
  ℕ, Bool, suc, ◌<◌, ◌≡◌, refl, true, false, Option, none, [], ◌∷◌, arith,
}
use nats_replicator.Prelude.Int.{pos}
use nats_replicator.Prelude.Outcome
use nats_replicator.Float.{Float}
use nats_replicator.Result.{Error, ok}
use nats_replicator.Client.{Effect, publish, close_nats}
use nats_replicator.State.{Server}
use nats_replicator.Bench.{returns, fails, panic}
use nats_replicator.Bench.Rates.{stopped_clock, ending}
use nats_replicator.Bench.Replicator.{start_replicator}
use nats_replicator.Bench.World.{World, connect_options, connect_lem}
use nats_replicator.Bench.NatsNats.{
  Options, plan, Sent, publish_loop, subscribe, publish_all, replicate, await_messages,
  await_replicator, main,
}
use nats_replicator.Bench.NatsNats.Runs.{
  full_run, flags, planned, payload, replicated_config, subscribe_lem, replicate_lem,
}

publish_loop_panics :
    (published : ℕ → Option Error) (effect : Effect) (n left : ℕ) (show_progress : Bool) (s : Sent)
    → n < 10
    → published 0 ≡ none
    → publish_loop published effect (pos n) show_progress (suc left) 0 s ≡ fails panic
unfolding publish_loop
publish_loop_panics published effect n left show_progress s h e = ground arith

module _ ⦃fl : Float⦄ (base : Options) (w : World) (n k : ℕ) where
  publish_all_panics :
      (nc : ℕ)
      → suc n < 10
      → w.published 0 ≡ none
      → publish_all
          (flags base w (suc n) k)
          w
          (planned base w (suc n) k)
          nc
          (payload base w (suc n) k)
        ≡ fails panic
  unfolding publish_all
  publish_all_panics nc h e =
      rw
        (publish_loop_panics w.published
          (publish nc (planned base w (suc n) k).incoming (payload base w (suc n) k)) (suc n) n
          base.show_progress (record { effects = []; progress = [] }) h e)
        refl

  -- A run of all parts of the NATS benchmark, of 1 to 9 messages, panics when the servers grant
  -- the connections and the subscription, the replicator starts, and the first publish does not
  -- fail.
  pub nats_main-panics :
      (nc nc2 subscription : ℕ) (s₀ : Server)
      → suc n < 10
      → w.client.nats_connect (base.nats_url ∷ []) connect_options ≡ ok nc
      → w.client2.nats_connect ((planned base w (suc n) k).url2 ∷ []) connect_options ≡ ok nc2
      → w.client.subscribe nc (planned base w (suc n) k).outgoing ≡ ok subscription
      → start_replicator w.replicator_client w.network w.replicator_start w.answer
          (replicated_config base w (suc n) k)
        ≡ Outcome.done (s₀, none)
      → w.published 0 ≡ none
      → main (full_run base (suc n) k) w ≡ fails panic
  unfolding main plan
  nats_main-panics nc nc2 subscription s₀ h c c2 sub started e =
      rw
        (
          connect_lem w.client base.nats_url nc c,
          connect_lem w.client2 (planned base w (suc n) k).url2 nc2 c2,
          subscribe_lem base w (suc n) k nc subscription sub,
          replicate_lem base w (suc n) k s₀ started,
          publish_all_panics nc h e,
        )
        refl

  -- The flags -rep and -pub together.
  abbrev contradicting : Options
  contradicting = record base {
    iterations = pos n;
    message_size = pos k;
    modes = record { direct = false; pub_only = true; sub_only = false; rep_only = true };
  }

  -- With -rep and -pub together main connects, publishes nothing, starts no replicator, and still
  -- reports n messages as sent, in no time.
  pub idle_run :
      (nc nc2 : ℕ)
      → w.client.nats_connect (base.nats_url ∷ []) connect_options ≡ ok nc
      → w.client2.nats_connect (base.nats_url ∷ []) connect_options ≡ ok nc2
      → main contradicting w
        ≡ returns (record {
          ending =
              ending
                (pos n)
                (pos k)
                (record { direct = true; pub_only = true; sub_only = false; rep_only = true })
                stopped_clock;
          effects = close_nats nc2 ∷ close_nats nc ∷ close_nats nc ∷ close_nats nc ∷ [];
          stopped = none;
        })
  unfolding main plan subscribe replicate publish_all await_messages await_replicator
  idle_run nc nc2 c c2 =
      rw (connect_lem w.client base.nats_url nc c, connect_lem w.client2 base.nats_url nc2 c2) refl
