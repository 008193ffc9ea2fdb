-- ===== src/Bench/World.antt =====
-- What the two benchmarks share besides: what they get from outside, and their connections.
use nats_replicator.Prelude.{
  ℕ, ◌≡◌, refl, String, zero, suc, ◌*◌, Option, none, some, List, [], ◌∷◌,
}
use nats_replicator.Prelude.Int.{ℤ, pos, negsuc}
use nats_replicator.Float.{Float}
use nats_replicator.Result.{Error, ok}
use nats_replicator.Client.{Client, NatsOption, timeout, max_reconnects, reconnect_wait}
use nats_replicator.Monitoring.{Network}
use nats_replicator.State.{Server}
use nats_replicator.Server.Threads
use nats_replicator.Server.Threads.{Reach, launched}
use nats_replicator.Bench.{Run, returns, fails, stuck, fatal, panic, or_fatal}
use nats_replicator.Bench.Subscriber.{Delivery}
use nats_replicator.Bench.Watch.{Event, ticked, timed_out}
use nats_replicator.Bench.Timeout.{second}

-- The goroutines of a benchmark share nothing but its wait groups and the times that main reads
-- after them, so what happens is given by thread: the answer to the i-th publish, the acks, the
-- messages that arrive until the connections are closed, and what the watching goroutine receives.
-- `after_stop` is the replicator when its Stop returns to main, if it does.
pub record World ⦃fl : Float⦄ : Type 0 where
  pub client : Client  -- for the first connection of main, and what is asked over it
  pub client2 : Client  -- for the second one
  pub replicator_client : Client
  pub network : Network
  pub ids : ℕ → String  -- nuid.Next
  pub published : ℕ → Option Error
  pub acks : List (Option Error)
  pub deliveries : List Delivery
  pub events : List Event
  pub after_stop : Option Server
  pub answer : Option Error
  -- time.Now
  pub publish_start : ℕ
  pub publish_end : ℕ
  pub subscribe_end : ℕ
  pub replicator_start : ℕ

-- []byte(strings.Repeat("a", messageSize)), which panics for a negative size.
abbrev pub repeat : ℕ → ℕ → List ℕ
repeat zero c = []
repeat (suc n) c = c ∷ repeat n c

abbrev pub message : ℤ → Run (List ℕ)
message (pos n) = returns (repeat n b'a')
message (negsuc n) = fails panic

-- nats.Connect in main
abbrev pub connect_options : List NatsOption
connect_options =
    timeout (pos (5 * second)) ∷ max_reconnects (pos 5) ∷ reconnect_wait (pos (5 * second)) ∷ []

unfoldable pub connect : Client → String → Run ℕ
connect client url = or_fatal (client.nats_connect (url ∷ []) connect_options)

-- for i := 0; i < iterations
abbrev pub rounds : ℤ → ℕ
rounds (pos n) = n
rounds (negsuc n) = 0

-- The replicator, or the end of the program by log.Fatalf.
module _ ⦃fl : Float⦄ where
  abbrev pub or_exit : Server × Option Error → Run Server
  or_exit (s, none) = returns s
  or_exit (s, some e) = fails fatal

pub connect_lem :
    (client : Client) (url : String) (c : ℕ)
    → client.nats_connect (url ∷ []) connect_options ≡ ok c
    → connect client url ≡ returns c
unfolding connect
connect_lem client url c e = rw e refl

-- A call that may never return.
abbrev pub or_stuck {ℓ} : {A : Type ℓ} → Option A → Run A
or_stuck none = fails stuck
or_stuck (some a) = returns a

module _ ⦃fl : Float⦄ where
  -- The server of each tick is that of the started replicator at some time.
  abbrev pub AllSeen : Server → List Event → Type 0
  AllSeen s₀ [] = Unit
  AllSeen s₀ (timed_out ∷ events) = AllSeen s₀ events
  AllSeen s₀ (ticked time server ∷ events) =
      ((u : Threads.World) × Reach (launched s₀) u × (u.server ≡ server)) × AllSeen s₀ events
