-- ===== src/Prelude/Int.antt =====
-- Go's signed integers, and its 64-bit words as two's-complement patterns.
use Prim.Native.Nat.{ℕ, suc, ◌+◌, ◌-◌, ◌*◌, ◌%◌, ◌^◌}
use mathlib.Core.Path.{◌≡◌, refl}
use mathlib.Core.Bool.{Bool, false}
use nats_replicator.Prelude.Tests.{ltb, eqb, if◌then◌else◌}

-- `negsuc n` is -(n + 1).
pub data ℤ : Type 0 where
  pos : ℕ → ℤ
  negsuc : ℕ → ℤ

-- x > 0
abbrev pub is_positive : ℤ → Bool
is_positive (pos n) = ltb 0 n
is_positive (negsuc n) = false

-- x == 0
abbrev pub is_zero : ℤ → Bool
is_zero (pos n) = eqb n 0
is_zero (negsuc n) = false

-- x == -1
abbrev pub is_minus_one : ℤ → Bool
is_minus_one (pos n) = false
is_minus_one (negsuc n) = eqb n 0

-- The number that a 64-bit signed word holds after an operation whose exact result is the argument.
unfoldable pub wrap64 : ℤ → ℤ
wrap64 (pos n) = let m = n % 2 ^ 64 in if ltb m (2 ^ 63) then pos m else negsuc (2 ^ 64 - 1 - m)
wrap64 (negsuc n) = let m = n % 2 ^ 64 in if ltb m (2 ^ 63) then negsuc m else pos (2 ^ 64 - 1 - m)

abbrev million : ℕ
million = 1000000

-- time.Duration(x) * time.Millisecond
unfoldable pub milliseconds : ℤ → ℤ
unfolding wrap64
milliseconds (pos n) = wrap64 (pos (n * million))
milliseconds (negsuc n) = wrap64 (negsuc (suc n * million - 1))

-- uint64(x): the pattern of a signed word.
unfoldable pub as_uint64 : ℤ → ℕ
as_uint64 (pos n) = n % 2 ^ 64
as_uint64 (negsuc n) = 2 ^ 64 - 1 - n % 2 ^ 64

-- a + b and a - b on 64-bit patterns, signed or not.
abbrev pub add64 : ℕ → ℕ → ℕ
add64 a b = (a + b) % 2 ^ 64

abbrev pub sub64 : ℕ → ℕ → ℕ
sub64 a b = (a + (2 ^ 64 - b % 2 ^ 64)) % 2 ^ 64

minute_in_ns : milliseconds (pos 60000) ≡ pos 60000000000
unfolding milliseconds
minute_in_ns = refl

wraps_negative : wrap64 (pos (2 ^ 63)) ≡ negsuc (2 ^ 63 - 1)
unfolding wrap64
wraps_negative = refl
