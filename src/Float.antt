-- ===== src/Float.antt =====
-- `float64`, which the source computes with and the language has not: its operations as an
-- interface, and the facts of IEEE 754 arithmetic that the theorems use, by name.
use nats_replicator.Prelude.{ℕ, ◌+◌, ◌-◌, ◌^◌, ◌≤◌, ◌≡◌, Bool, true, ◌||◌}

pub record Float : Type 1 where
  pub F : Type 0
  pub add : F → F → F
  pub sub : F → F → F
  pub mul : F → F → F
  pub div : F → F → F
  pub lt : F → F → Bool  -- a < b
  pub eq : F → F → Bool  -- a == b
  pub of_uint64 : ℕ → F  -- float64(u)
  pub of_int64 : ℕ → F  -- float64(i), i given by its pattern
  pub decimal : ℕ → ℕ → F  -- the literal n / 10^k
  pub minus_one : F
  pub huge : F  -- 1e99

module _ ⦃fl : Float⦄ where
  -- a <= b
  abbrev pub le : fl.F → fl.F → Bool
  le a b = fl.lt a b || fl.eq a b

  -- The whole number n as a literal.
  abbrev pub whole : ℕ → fl.F
  whole n = fl.of_uint64 n

-- Whole numbers up to this one are represented exactly.
abbrev pub exact_limit : ℕ
exact_limit = 2 ^ 53

-- `IsNs` stands for the times that enter the histogram, whole nanoseconds from 0 to 2^64, and
-- the weighted means of such; rounding is monotone and keeps 2^64, so a mean stays in the range.
-- `IsFraction` stands for the quantiles asked for, from 0 to 1.
pub record FloatLaws ⦃fl : Float⦄ : Type 1 where
  pub IsNs : fl.F → Type 0
  pub IsFraction : fl.F → Type 0
  pub add_exact : (m n : ℕ) → m + n ≤ exact_limit → fl.add (whole m) (whole n) ≡ whole (m + n)
  pub delta_small : (a b : fl.F) → IsNs a → IsNs b → fl.lt (fl.sub b a) fl.huge ≡ true
  pub mean_ns :
      (a b : fl.F) (m n : ℕ)
      → IsNs a
      → IsNs b
      → 1 ≤ m
      → 1 ≤ n
      → m + n ≤ exact_limit
      → IsNs (fl.div (fl.add (fl.mul a (whole m)) (fl.mul b (whole n))) (whole (m + n)))
  pub scale_le :
      (q : fl.F) (n : ℕ) → IsFraction q → n ≤ exact_limit → le (fl.mul q (whole n)) (whole n) ≡ true
  pub sub_le :
      (x : fl.F) (m n : ℕ)
      → n ≤ m
      → m ≤ exact_limit
      → le x (whole m) ≡ true
      → le (fl.sub x (whole n)) (whole (m - n)) ≡ true
