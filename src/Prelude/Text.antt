-- ===== src/Prelude/Text.antt =====
-- `strings.ToLower`. Above ASCII it goes by a table of the language's `unicode` package, which is
-- an argument here.
use Prim.Native.Nat.{ℕ, zero, suc, ◌-◌}
use Prim.Native.Char.{Char, code}
use Prim.Native.String.{String, [], ◌∷◌}
use mathlib.Core.Path.{◌≡◌, refl}
use mathlib.Core.Bool.{◌&&◌}
use nats_replicator.Prelude.Tests.{leb, ltb, if◌then◌else◌}

-- The character at an index, or `c` behind the end.
char_or : Char → String → ℕ → Char
char_or c [] i = c
char_or c (d ∷ s) zero = d
char_or c (d ∷ s) (suc i) = char_or c s i

unfoldable pub lower_char : (Char → Char) → Char → Char
unfolding char_or
lower_char wide c =
    if leb b'A' (code c) && leb (code c) b'Z'
    then char_or c "abcdefghijklmnopqrstuvwxyz" (code c - b'A')
    else if ltb (code c) 128
    then c
    else wide c

unfoldable pub to_lower : (Char → Char) → String → String
unfolding lower_char
to_lower wide [] = []
to_lower wide (c ∷ s) = lower_char wide c ∷ to_lower wide s

lowers : to_lower (λ c. c) "NATSToStan_1" ≡ "natstostan_1"
unfolding to_lower
lowers = refl
