-- ===== src/Bench.antt =====
-- The benchmarks performance/nats_nats_bench/main.go and performance/stan_stan_bench/main.go: how
-- their runs end, and the counters that they wait for.
pub mod Subscriber
pub mod Watch
pub mod Timeout
pub mod Rates
pub mod Replicator
pub mod World
pub mod NatsNats
pub mod StanStan
use nats_replicator.Prelude.{
  ℕ, zero, suc, ◌+◌, ◌-◌, ◌*◌, ◌/◌, ◌%◌, ◌^◌, Bool, true, false, if◌then◌else◌, ltb, leb, eqb,
  String, ◌≡◌, refl,
}
use nats_replicator.Prelude.Int.{ℤ, pos, negsuc}
use nats_replicator.Prelude.Outcome.{Outcome, done, panics, blocks}
use nats_replicator.Result.{Result, ok, err}

-- A run exits by log.Fatalf, panics, or waits for what never comes.
pub data Fault : Type 0 where
  fatal panic stuck : Fault

pub data Run {ℓ} (A : Type ℓ) : Type ℓ where
  returns : A → Run A
  fails : Fault → Run A

infixl 5 ◌>>=◌
abbrev pub ◌>>=◌ {ℓ κ} : {A : Type ℓ} {B : Type κ} → Run A → (A → Run B) → Run B
returns a >>= f = f a
fails x >>= f = fails x

abbrev pub from_outcome {ℓ} : {A : Type ℓ} → Outcome A → Run A
from_outcome (done a) = returns a
from_outcome panics = fails panic
from_outcome blocks = fails stuck

-- An error ends the program by log.Fatalf.
abbrev pub or_fatal {ℓ} : {A : Type ℓ} → Result A → Run A
or_fatal (ok a) = returns a
or_fatal (err e) = fails fatal

-- Add of a sync.WaitGroup: it panics when the counter would be negative. Done is Add(-1).
unfoldable pub add_wait : ℕ → ℤ → Run ℕ
add_wait counter (pos n) = returns (counter + n)
add_wait counter (negsuc n) = if ltb n counter then returns (counter - suc n) else fails panic

abbrev pub done_wait : ℕ → Run ℕ
done_wait counter = add_wait counter (negsuc 0)

-- -n
abbrev pub negative : ℕ → ℤ
negative zero = pos 0
negative (suc n) = negsuc n

abbrev pub magnitude : ℤ → ℕ
magnitude (pos n) = n
magnitude (negsuc n) = suc n

-- z / n and z % n for a positive n: Go rounds towards 0.
abbrev pub quotient : ℤ → ℕ → ℤ
quotient (pos z) n = pos (z / n)
quotient (negsuc z) n = negative (suc z / n)

abbrev pub remainder : ℤ → ℕ → ℤ
remainder (pos z) n = pos (z % n)
remainder (negsuc z) n = negative (suc z % n)

-- interval := int(iterations / 10)
abbrev pub interval_of : ℤ → ℤ
interval_of iterations = quotient iterations 10

-- count % interval == 0: a panic for an interval of 0.
unfoldable pub is_multiple : ℕ → ℤ → Run Bool
is_multiple count interval =
    let n = magnitude interval in if eqb n 0 then fails panic else returns (eqb (count % n) 0)

-- x >= y, for integers
abbrev pub geb : ℤ → ℤ → Bool
geb (pos m) (pos n) = leb n m
geb (pos m) (negsuc n) = true
geb (negsuc m) (pos n) = false
geb (negsuc m) (negsuc n) = leb m n

-- x == y and x <= y, for a count x
abbrev pub is_count : ℕ → ℤ → Bool
is_count n (pos m) = eqb n m
is_count n (negsuc m) = false

abbrev pub within : ℕ → ℤ → Bool
within n (pos m) = leb n m
within n (negsuc m) = false
