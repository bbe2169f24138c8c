-- ===== src/Prelude/Text.antt =====
-- Texts as the bytes of their characters: string literals, `hex::encode`, and `to_string` of a
-- number.
use Prim.Native.Nat.{ℕ, zero, suc, ◌+◌, ◌/◌, ◌%◌}
use Prim.Native.Char.{code}
use Prim.Native.String.{String}
use mathlib.Core.List.{[], ◌∷◌}
use veil_vpn.Prelude.Tests.{ltb, if◌then◌else◌}
use veil_vpn.Prelude.Bytes.{Bytes}

-- The bytes of a literal in ASCII.
abbrev pub codes : String → Bytes
codes String.[] = []
codes (String.◌∷◌ c s) = code c ∷ codes s

unfoldable pub hex_digit : ℕ → ℕ
hex_digit n = if ltb n 10 then 48 + n else 87 + n

-- `hex::encode`: two lower-case digits for each byte.
unfoldable pub encode_hex : Bytes → Bytes
unfolding hex_digit
encode_hex [] = []
encode_hex (b ∷ bs) = hex_digit (b / 16) ∷ (hex_digit (b % 16) ∷ encode_hex bs)

-- The decimal digits of a number, on fuel: a number has fewer digits than its successor is large.
unfoldable pub decimal : ℕ → ℕ → Bytes → Bytes
decimal zero n acc = acc
decimal (suc fuel) n acc =
    let digits = (48 + n % 10) ∷ acc in
    let rest = decimal fuel (n / 10) digits in if ltb n 10 then digits else rest

unfoldable pub to_string : ℕ → Bytes
unfolding decimal
to_string n = decimal (suc n) n []
