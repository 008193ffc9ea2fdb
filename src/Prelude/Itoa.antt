-- ===== src/Prelude/Itoa.antt =====
-- `strconv.Itoa` and `net.JoinHostPort` of Go's standard library.
use Prim.Native.Nat.{ℕ, zero, suc, ◌+◌, ◌/◌, ◌%◌}
use Prim.Native.Char.{Char, code}
use Prim.Native.String.{String, [], ◌∷◌, ◌++◌}
use mathlib.Core.Path.{◌≡◌, refl}
use mathlib.Core.Bool.{Bool, false, ◌||◌}
use nats_replicator.Prelude.Tests.{ltb, eqb, if◌then◌else◌}
use nats_replicator.Prelude.Int.{ℤ, pos, negsuc}

digit : ℕ → Char
digit zero = "0"
digit (suc zero) = "1"
digit (suc (suc zero)) = "2"
digit (suc (suc (suc zero))) = "3"
digit (suc (suc (suc (suc zero)))) = "4"
digit (suc (suc (suc (suc (suc zero))))) = "5"
digit (suc (suc (suc (suc (suc (suc zero)))))) = "6"
digit (suc (suc (suc (suc (suc (suc (suc zero))))))) = "7"
digit (suc (suc (suc (suc (suc (suc (suc (suc zero)))))))) = "8"
digit _ = "9"

-- The digits of n before `s`. A number has fewer digits than 64, up to 10^64.
decimal : ℕ → ℕ → String → String
unfolding digit
decimal zero n s = s
decimal (suc fuel) n s =
    let more = decimal fuel (n / 10) (digit (n % 10) ∷ s) in if ltb n 10 then digit n ∷ s else more

unfoldable pub itoa : ℤ → String
unfolding decimal
itoa (pos n) = decimal 64 n []
itoa (negsuc n) = "-" ++ decimal 64 (n + 1) []

-- The byte is in the text.
has_code : ℕ → String → Bool
has_code k [] = false
has_code k (c ∷ s) = eqb (code c) k || has_code k s

unfoldable pub join_host_port : String → String → String
unfolding has_code
join_host_port host port =
    if has_code b':' host || has_code b'%' host
    then "[" ++ host ++ "]:" ++ port
    else host ++ ":" ++ port

prints : itoa (pos 59744) ≡ "59744"
unfolding itoa
prints = refl

joins : join_host_port "" (itoa (pos 0)) ≡ ":0"
unfolding join_host_port itoa
joins = refl

joins_v6 : join_host_port "::1" "80" ≡ "[::1]:80"
unfolding join_host_port
joins_v6 = refl
