-- ===== src/Device/IndexLfsr.antt =====
-- device/mod.rs, `IndexLfsr`: the shift register that gives each peer its index. A panic is `none`;
-- the random words of the operating system are a list that is read from the front.
pub mod Step
pub mod Distinct
use Prim.Native.Nat.{bit_and, bit_xor}
use veil_vpn.Prelude.{
  ℕ, zero, suc, ◌+◌, ◌-◌, ◌/◌, ◌%◌, ◌^◌, ◌<◌, Option, none, some, List, [], ◌∷◌, ltb, ◌==◌,
  if◌then◌else◌, ◌>>=◌,
}

abbrev pub lfsr_max : ℕ
lfsr_max = 0xffffff

abbrev pub lfsr_poly : ℕ
lfsr_poly = 0xd80000

pub record IndexLfsr : Type 0 where
  pub initial : ℕ
  pub lfsr : ℕ
  pub mask : ℕ

-- The first of the words whose lower 24 bits are not 0, and the words after it; `none` when the
-- list ends first.
unfoldable pub random_index : List ℕ → Option (ℕ × List ℕ)
random_index [] = none
random_index (w ∷ ws) =
    let rest = random_index ws in
    if ltb 0 (bit_and w lfsr_max) then some (bit_and w lfsr_max, ws) else rest

unfoldable pub default : List ℕ → Option (IndexLfsr × List ℕ)
unfolding random_index
default words = do
  (seed, rest) ← random_index words
  (mask, rest') ← random_index rest
  some (record { initial = seed; lfsr = seed; mask = mask }, rest')

-- The register one position on: `l & 1` negated is a mask of ones or zeros.
unfoldable pub shifted : ℕ → ℕ
shifted l = bit_xor (l / 2) (bit_and ((2 ^ 32 - l % 2) % 2 ^ 32) lfsr_poly)

unfoldable pub next : IndexLfsr → Option (IndexLfsr × ℕ)
unfolding shifted
next l =
    let value = (l.lfsr + 2 ^ 32 - 1) % 2 ^ 32 in
    if shifted l.lfsr == l.initial
    then none
    else some (record l { lfsr = shifted l.lfsr }, bit_xor value l.mask)
