-- ===== src/Prelude/Atoi.antt =====
-- `strconv.Atoi` of Go's standard library, on a 64-bit machine.
use Prim.Native.Nat.{ℕ, zero, suc, ◌+◌, ◌-◌, ◌*◌, ◌^◌}
use Prim.Native.Char.{code}
use Prim.Native.String.{String, [], ◌∷◌}
use mathlib.Core.Path.{◌≡◌, refl}
use mathlib.Core.Bool.{◌&&◌}
use mathlib.Core.Option.{Option, none, some}
use nats_replicator.Prelude.Tests.{leb, ltb, eqb, if◌then◌else◌}
use nats_replicator.Prelude.Int.{ℤ, pos, negsuc}

-- The number that the digits spell, behind `n`.
digits : ℕ → String → Option ℕ
digits n [] = some n
digits n (c ∷ s) =
    let more = digits (n * 10 + (code c - b'0')) s in
    if leb b'0' (code c) && leb (code c) b'9' then more else none

number : String → Option ℕ
unfolding digits
number [] = none
number (c ∷ s) = digits 0 (c ∷ s)

-- Out of range is an error.
positive : Option ℕ → Option ℤ
positive none = none
positive (some n) = if ltb n (2 ^ 63) then some (pos n) else none

opposite : ℕ → ℤ
opposite zero = pos 0
opposite (suc n) = negsuc n

negative : Option ℕ → Option ℤ
unfolding opposite
negative none = none
negative (some n) = if leb n (2 ^ 63) then some (opposite n) else none

unfoldable pub atoi : String → Option ℤ
unfolding number positive negative
atoi [] = none
atoi (c ∷ s) =
    if eqb (code c) b'-'
    then negative (number s)
    else if eqb (code c) b'+'
    then positive (number s)
    else positive (number (c ∷ s))

reads : atoi "-120" ≡ some (negsuc 119)
unfolding atoi
reads = refl

reads_no_unit : atoi "5s" ≡ none
unfolding atoi
reads_no_unit = refl

reads_no_sign : atoi "+" ≡ none
unfolding atoi
reads_no_sign = refl

reads_no_overflow : atoi "9223372036854775808" ≡ none
unfolding atoi
reads_no_overflow = refl
