-- ===== src/Bench/StanStan/Acks.antt =====
-- The acks of performance/stan_stan_bench/main.go, and its loop that publishes.
use mathlib.Core.List.{append_assoc, append-nil}
use nats_replicator.Prelude.{
  ℕ, zero, suc, ◌+◌, ◌-◌, ◌/◌, ◌%◌, ◌≤◌, ◌≡◌, ◌∙◌, Bool, ◌&&◌, ◌||◌, Option, none, List, [], ◌∷◌,
  ◌++◌, if◌then◌else◌, eqb, ltb, length, All, arith,
}
use nats_replicator.Prelude.Int.{pos}
use nats_replicator.Result.{Error}
use nats_replicator.Client.{Effect}
use nats_replicator.Bench.{Run, returns, fails, stuck, panic}
use nats_replicator.Bench.StanStan.{Acked, on_ack, receive_acks, await_acks, publish_async_loop}
use nats_replicator.Bench.NatsNats.Publishing.{copies}

abbrev pub unacked : ℕ → Acked
unacked n = record { pub_count = 0; waiting = n; progress = [] }

module _ (n : ℕ) (show_progress : Bool) (big : 10 ≤ n) where
  -- After one more ack.
  abbrev acked : Acked → Acked
  acked a = record {
    pub_count = suc a.pub_count;
    waiting = a.waiting - 1;
    progress =
        if (eqb (suc a.pub_count % (n / 10)) 0 || eqb (suc a.pub_count) n) && show_progress
        then a.progress ++ suc a.pub_count ∷ []
        else a.progress;
  }

  on_ack_lem :
      (a : Acked)
      → on_ack (pos n) show_progress none a
        ≡ (if ltb 0 a.waiting then returns (acked a) else fails panic)
  unfolding on_ack
  on_ack_lem a = ground arith

  -- What acks without an error do to a counter.
  abbrev Settles : ℕ → Acked → Run Acked → Type 0
  Settles m a r =
      (a' : Acked) × (r ≡ (if ltb a.waiting m then fails panic else returns a'))
      × (a'.pub_count ≡ a.pub_count + m)
      × (a'.waiting ≡ a.waiting - m)

  receive_acks-Settles :
      (es : List (Option Error)) (a : Acked)
      → All (λ (e : Option Error). e ≡ none) es
      → Settles (length es) a (receive_acks (pos n) show_progress es a)
  unfolding receive_acks
  receive_acks-Settles [] a all = (a, ground arith, omega arith, omega arith)
  receive_acks-Settles (e ∷ es) a (none_e, all) =
      let (a', r, c, w) = receive_acks-Settles es (acked a) all in
      (a', rw (none_e, on_ack_lem a) (ground (arith, r)), omega arith, omega arith)

  -- .
  pub await_acks-Settled :
      (es : List (Option Error))
      → All (λ (e : Option Error). e ≡ none) es
      → (a : Acked) × (await_acks (pos n) show_progress es (unacked n) ≡ (
          if eqb (length es) n
          then returns a
          else if ltb (length es) n
          then fails stuck
          else fails panic))
        × (a.pub_count ≡ length es)
  unfolding await_acks
  await_acks-Settled es all =
      let (a, r, c, w) = receive_acks-Settles es (unacked n) all in
      (a, rw r (ground arith), omega arith)

-- The loop publishes each message, when no call of PublishAsync fails.
pub publish_async_loop_lem :
    (published : ℕ → Option Error) (effect : Effect) (left i : ℕ) (sent : List Effect)
    → ((i : ℕ) → published i ≡ none)
    → publish_async_loop published effect left i sent ≡ returns (sent ++ copies left effect)
unfolding publish_async_loop
publish_async_loop_lem published effect zero i sent all = simp append-nil
publish_async_loop_lem published effect (suc left) i sent all =
    rw (all i, publish_async_loop)
      (publish_async_loop_lem published effect left (suc i) (sent ++ effect ∷ []) all
        ∙ simp append_assoc)
