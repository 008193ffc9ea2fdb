-- ===== src/Tests/Numbers.antt =====
-- Whole numbers in place of `float64`, to show that the facts asked of it can hold together.
use nats_replicator.Prelude.{
  ℕ, ◌+◌, ◌-◌, ◌*◌, ◌/◌, ◌^◌, ◌≤◌, ◌≡◌, refl, true, ◌||◌, arith, ltb, eqb, lt→ltb,
}
use native.Mathlib.Nat.{div-le_of_le-mul}
use nats_replicator.Float.{Float, FloatLaws}

instance abbrev pub nat_float : Float
nat_float = record {
  F = ℕ;
  add = λ a b. a + b;
  sub = λ a b. a - b;
  mul = λ a b. a * b;
  div = λ a b. a / b;
  lt = ltb;
  eq = eqb;
  of_uint64 = λ n. n;
  of_int64 = λ n. n;
  decimal = λ n k. n / 10 ^ k;
  minus_one = 0;
  huge = 10 ^ 99;
}

abbrev two64 : ℕ
two64 = 2 ^ 64

pub test_le : (a b : ℕ) → a ≤ b → (ltb a b || eqb a b) ≡ true
test_le a b h = ground arith

pub le_of_test : (a b : ℕ) → (ltb a b || eqb a b) ≡ true → a ≤ b
le_of_test a b h = ground arith

pub div_le : (x d k : ℕ) → 1 ≤ d → x ≤ k * d → x / d ≤ k
div_le x d k p h = div-le_of_le-mul d (omega arith)

pub mean_le : (a b m n k : ℕ) → a ≤ k → b ≤ k → a * m + b * n ≤ k * (m + n)
mean_le a b m n k ha hb = grind arith

pub mul_le : (q n : ℕ) → q ≤ 1 → q * n ≤ n
mul_le q n hq = grind arith

abbrev pub nat_laws : FloatLaws
nat_laws = record {
  IsNs = λ x. x ≤ two64;
  IsFraction = λ q. q ≤ 1;
  add_exact = λ m n h. refl;
  delta_small = λ a b ha hb. lt→ltb (b - a) (10 ^ 99) (omega arith);
  mean_ns = λ a b m n ha hb pm pn h.
      div_le (a * m + b * n) (m + n) two64 (omega arith) (mean_le a b m n two64 ha hb);
  scale_le = λ q n hq h. test_le (q * n) n (mul_le q n hq);
  sub_le = λ x m n h lim e. test_le (x - n) (m - n) (omega (arith, le_of_test x m e));
}
