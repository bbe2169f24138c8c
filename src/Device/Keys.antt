-- ===== src/Device/Keys.antt =====
-- serialization.rs, `KeyBytes`: a key in hexadecimal or base64. Texts are their bytes in UTF-8, and
-- the base64 crate is a parameter.
use veil_vpn.Prelude.{
  ℕ, ◌+◌, ◌*◌, ◌-◌, ◌&&◌, ◌||◌, Bool, Option, none, some, [], ◌∷◌, ltb, leb, ◌==◌, if◌then◌else◌,
  length, get_or, replicate, ◌>>=◌,
}
use veil_vpn.Prelude.Bytes.{Bytes}

pub data ParsedKey : Type 0 where
  parsed : Bytes → ParsedKey
  illegal_character illegal_size : ParsedKey

-- The digit of a character in base 16.
unfoldable pub hex_value : ℕ → Option ℕ
hex_value c =
    if leb 48 c && leb c 57
    then some (c - 48)
    else if leb 97 c && leb c 102
    then some (c - 87)
    else if leb 65 c && leb c 70
    then some (c - 55)
    else none

-- `u8::from_str_radix` of two characters: a plus sign may stand before a single digit.
unfoldable pub hex_byte : ℕ → ℕ → Option ℕ
unfolding hex_value
hex_byte a b = elim (hex_value b) [
  | none ↦ none
  | some low ↦
      if a == 43
      then some low
      else elim (hex_value a) [ none ↦ none | some high ↦ some (16 * high + low) ]
]

-- The byte does not start a character, so that a text cannot be cut before it.
unfoldable pub continues : ℕ → Bool
continues b = leb 128 b && ltb b 192

-- The pairs of characters in turn; `none` is the panic of a cut within a character, and the result
-- within is `none` at an illegal character.
unfoldable pub hex_pairs : Bytes → Option (Option Bytes)
unfolding hex_byte continues
hex_pairs [] = some (some [])
hex_pairs (a ∷ []) = some none
hex_pairs (a ∷ (b ∷ rest)) =
    let later = hex_pairs rest in
    if continues a || continues (get_or rest 0 0) then none else elim (hex_byte a b) [
      | none ↦ some none
      | some byte ↦ do bytes ← later; some (elim bytes [ none ↦ none | some bs ↦ some (byte ∷ bs) ])
    ]

unfoldable pub of_hex : Option Bytes → ParsedKey
of_hex none = illegal_character
of_hex (some key) = parsed key

-- A text that is no base64 leaves the key as it was, all zeros.
unfoldable pub of_base64 : Option Bytes → ParsedKey
of_base64 none = parsed (replicate 32 0)
of_base64 (some key) = if length key == 32 then parsed key else illegal_character

unfoldable pub from_str : (Bytes → Option Bytes) → Bytes → Option ParsedKey
unfolding hex_pairs of_hex of_base64
from_str base64_decode s =
    if length s == 64
    then (do key ← hex_pairs s; some (of_hex key))
    else some
        (if length s == 43 || length s == 44 then of_base64 (base64_decode s) else illegal_size)
