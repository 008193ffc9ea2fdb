-- ===== src/Bench/NatsNats/Publishing.antt =====
-- The loop that publishes in performance/nats_nats_bench/main.go.
use mathlib.Core.List.{append_assoc, append-nil}
use nats_replicator.Prelude.{
  ℕ, zero, suc, ◌/◌, ◌%◌, ◌≤◌, ◌≡◌, refl, ◌∙◌, Bool, ◌&&◌, Option, none, List, [], ◌∷◌, ◌++◌,
  if◌then◌else◌, length, eqb, arith,
}
use nats_replicator.Prelude.Int.{pos}
use nats_replicator.Result.{Error}
use nats_replicator.Client.{Effect}
use nats_replicator.Bench.{returns}
use nats_replicator.Bench.World.{repeat}
use nats_replicator.Bench.NatsNats.{Sent, publish_loop}

-- n times the same.
abbrev pub copies : ℕ → Effect → List Effect
copies zero e = []
copies (suc n) e = e ∷ copies n e

module _ (published : ℕ → Option Error) (effect : Effect) (n : ℕ) (show_progress : Bool)
    (big : 10 ≤ n) (all : (i : ℕ) → published i ≡ none) where
  -- What is logged.
  pub logged : ℕ → ℕ → List ℕ → List ℕ
  logged zero i progress = progress
  logged (suc left) i progress =
      logged left (suc i)
        (if eqb (i % (n / 10)) 0 && show_progress then progress ++ i ∷ [] else progress)

  -- One round of the loop.
  abbrev sent_one : ℕ → Sent → Sent
  sent_one i s = record {
    effects = s.effects ++ effect ∷ [];
    progress = if eqb (i % (n / 10)) 0 && show_progress then s.progress ++ i ∷ [] else s.progress;
  }

  publish_loop_step :
      (left i : ℕ) (s : Sent)
      → publish_loop published effect (pos n) show_progress (suc left) i s
        ≡ publish_loop published effect (pos n) show_progress left (suc i) (sent_one i s)
  unfolding publish_loop
  publish_loop_step left i s = ground (arith, all i)

  publish_loop_nil :
      (i : ℕ) (s : Sent) → publish_loop published effect (pos n) show_progress zero i s ≡ returns s
  unfolding publish_loop
  publish_loop_nil i s = refl

  pub publish_loop_lem :
      (left i : ℕ) (s : Sent)
      → publish_loop published effect (pos n) show_progress left i s
        ≡ returns (record {
          effects = s.effects ++ copies left effect;
          progress = logged left i s.progress;
        })
  unfolding logged
  publish_loop_lem zero i s = publish_loop_nil i s ∙ simp append-nil
  publish_loop_lem (suc left) i s =
      publish_loop_step left i s ∙ publish_loop_lem left (suc i) (sent_one i s) ∙ simp append_assoc

pub length-repeat : (n c : ℕ) → length (repeat n c) ≡ n
length-repeat zero c = refl
length-repeat (suc n) c = omega (arith, length-repeat n c)
