-- ===== src/Prelude/Bits.antt =====
-- Bits of machine words: a word is a native number, and bit `i` of `w` is `(w >> i) & 1`. The
-- laws of `|`, `&` and `!` at variables, from the digit recursion of the native operations.
use Prim.Native.Nat.{
  ℕ, zero, suc, ◌+◌, ◌-◌, ◌*◌, ◌/◌, ◌%◌, ◌^◌, ◌≤◌, ◌<◌, min, max, bit_and, bit_or, digits,
  bit_and-bitwise, bit_or-bitwise,
}
use mathlib.Core.Path.{◌≡◌, refl, sym, ap, ◌∙◌}
use mathlib.Core.Bool.{Bool, false, ◌&&◌, ◌||◌, not}
use native.Mathlib.Omega.{arith}
use native.Mathlib.Nat.{pow-succ', div-div-eq-div-mul, div-one}
use veil_vpn.Prelude.Tests.{◌==◌}

-- `((w >> i) & 1) == 1`
unfoldable pub test_bit : ℕ → ℕ → Bool
test_bit w i = w / 2 ^ i % 2 == 1

div-pow_suc : (w i : ℕ) → w / 2 ^ suc i ≡ w / 2 / 2 ^ i
div-pow_suc w i = rw (pow-succ' 2 i) (sym (div-div-eq-div-mul w 2 (2 ^ i)))

test_bit-suc : (w i : ℕ) → test_bit w (suc i) ≡ test_bit (w / 2) i
unfolding test_bit
test_bit-suc w i = rw (div-pow_suc w i)

-- The digit recursion at enough fuel: a digit of both words at a time, until the first is 0.
module _ (base : ℕ → ℕ) (op : ℕ → ℕ → ℕ) where
  one_more : (n a b : ℕ) → a ≤ n → digits base op (suc n) a b ≡ digits base op n a b
  one_more zero zero b h = refl
  one_more zero (suc a) b h = absurd (omega arith)
  one_more (suc n) zero b h = refl
  one_more (suc n) (suc a) b h =
      ap (λ k. k * 2 + op (suc a % 2) (b % 2)) (one_more n (suc a / 2) (b / 2) (omega arith))

  spare_fuel : (d a b : ℕ) → digits base op (a + d) a b ≡ digits base op a a b
  spare_fuel zero a b = ap (λ n. digits base op n a b) (omega arith)
  spare_fuel (suc d) a b =
      let shift : a + suc d ≡ suc (a + d) = omega arith in
      ap (λ n. digits base op n a b) shift ∙ one_more (a + d) a b (omega arith) ∙ spare_fuel d a b

  pub next_digit :
      (a b : ℕ)
      → digits base op (suc a) (suc a) b
        ≡ digits base op (suc a / 2) (suc a / 2) (b / 2) * 2 + op (suc a % 2) (b % 2)
  next_digit a b =
      let enough : a ≡ suc a / 2 + (a - suc a / 2) = omega arith in
      ap (λ n. digits base op n (suc a / 2) (b / 2) * 2 + op (suc a % 2) (b % 2)) enough
      ∙ ap (λ k. k * 2 + op (suc a % 2) (b % 2)) (spare_fuel (a - suc a / 2) (suc a / 2) (b / 2))

bit_and_step : (a b : ℕ) → bit_and a b ≡ bit_and (a / 2) (b / 2) * 2 + min (a % 2) (b % 2)
bit_and_step zero b = omega (arith, bit_and-bitwise (0 / 2) (b / 2), bit_and-bitwise 0 b)
bit_and_step (suc a) b =
    bit_and-bitwise (suc a) b
    ∙ next_digit (λ _. 0) min a b
    ∙ ap (λ k. k * 2 + min (suc a % 2) (b % 2)) (sym (bit_and-bitwise (suc a / 2) (b / 2)))

bit_or_step : (a b : ℕ) → bit_or a b ≡ bit_or (a / 2) (b / 2) * 2 + max (a % 2) (b % 2)
bit_or_step zero b = omega (arith, bit_or-bitwise (0 / 2) (b / 2), bit_or-bitwise 0 b)
bit_or_step (suc a) b =
    bit_or-bitwise (suc a) b
    ∙ next_digit (λ x. x) max a b
    ∙ ap (λ k. k * 2 + max (suc a % 2) (b % 2)) (sym (bit_or-bitwise (suc a / 2) (b / 2)))

test_bit-zero : (w : ℕ) → test_bit w 0 ≡ (w % 2 == 1)
unfolding test_bit
test_bit-zero w = rw div-one

bit_or-zero : (a b : ℕ) → test_bit (bit_or a b) 0 ≡ (test_bit a 0 || test_bit b 0)
bit_or-zero a b =
    rw (test_bit-zero (bit_or a b), test_bit-zero a, test_bit-zero b)
      (ground (arith, bit_or_step a b))

-- Bit `i` of `a | b`.
pub test_bit-bit_or : (i a b : ℕ) → test_bit (bit_or a b) i ≡ (test_bit a i || test_bit b i)
test_bit-bit_or zero a b = bit_or-zero a b
test_bit-bit_or (suc i) a b =
    rw (test_bit-suc (bit_or a b) i, test_bit-suc a i, test_bit-suc b i)
      (ap (λ w. test_bit w i) (omega (arith, bit_or_step a b)) ∙ test_bit-bit_or i (a / 2) (b / 2))

bit_and-zero : (a b : ℕ) → test_bit (bit_and a b) 0 ≡ (test_bit a 0 && test_bit b 0)
bit_and-zero a b =
    rw (test_bit-zero (bit_and a b), test_bit-zero a, test_bit-zero b)
      (ground (arith, bit_and_step a b))

-- Bit `i` of `a & b`.
pub test_bit-bit_and : (i a b : ℕ) → test_bit (bit_and a b) i ≡ (test_bit a i && test_bit b i)
test_bit-bit_and zero a b = bit_and-zero a b
test_bit-bit_and (suc i) a b =
    rw (test_bit-suc (bit_and a b) i, test_bit-suc a i, test_bit-suc b i)
      (ap (λ w. test_bit w i) (omega (arith, bit_and_step a b))
        ∙ test_bit-bit_and i (a / 2) (b / 2))

-- No bit of 0 is set.
pub test_bit-of_zero : (i : ℕ) → test_bit 0 i ≡ false
test_bit-of_zero zero = test_bit-zero 0
test_bit-of_zero (suc i) = test_bit-suc 0 i ∙ test_bit-of_zero i

pow_half : (n : ℕ) → 2 ^ suc n / 2 ≡ 2 ^ n
pow_half n = rw (pow-succ' 2 n) (omega arith)

-- Bit `i` of `1 << n`.
pub test_bit-pow : (i n : ℕ) → test_bit (2 ^ n) i ≡ (n == i)
test_bit-pow zero zero = test_bit-zero 1
test_bit-pow zero (suc n) = test_bit-zero (2 ^ suc n) ∙ rw (pow-succ' 2 n) (ground arith)
test_bit-pow (suc i) zero = test_bit-suc 1 i ∙ test_bit-of_zero i ∙ ground arith
test_bit-pow (suc i) (suc n) =
    test_bit-suc (2 ^ suc n) i
    ∙ ap (λ w. test_bit w i) (pow_half n)
    ∙ test_bit-pow i n
    ∙ ground arith

-- `!w` of an n-bit word.
unfoldable pub bit_not : ℕ → ℕ → ℕ
bit_not n w = 2 ^ n - 1 - w

-- Bit `i` of `!w`.
pub test_bit-bit_not :
    (i n w : ℕ) → i < n → w < 2 ^ n → test_bit (bit_not n w) i ≡ not (test_bit w i)
unfolding bit_not
test_bit-bit_not i zero w h k = absurd (omega arith)
test_bit-bit_not zero (suc n) w h k =
    rw (test_bit-zero (2 ^ suc n - 1 - w), test_bit-zero w) (ground (arith, pow-succ' 2 n))
test_bit-bit_not (suc i) (suc n) w h k =
    rw (test_bit-suc (2 ^ suc n - 1 - w) i, test_bit-suc w i)
      (ap (λ v. test_bit v i) (omega (arith, pow-succ' 2 n))
        ∙ test_bit-bit_not i n (w / 2) (omega arith) (omega (arith, pow-succ' 2 n)))

-- Nothing is left under an empty mask: halving ends at 0.
under_nothing : (bound w : ℕ) → w < 2 ^ bound → bit_and w 0 ≡ 0
under_nothing zero w h =
    let none_left : w ≡ 0 = omega arith in ap (λ v. bit_and v 0) none_left ∙ bit_and-bitwise 0 0
under_nothing (suc bound) w h =
    let half : w / 2 < 2 ^ bound = omega (arith, pow-succ' 2 bound) in
    omega (arith, under_nothing bound (w / 2) half, bit_and_step w 0)

-- A mask of n ones keeps an n-bit word.
pub bit_and-mask : (n a : ℕ) → a < 2 ^ n → bit_and a (2 ^ n - 1) ≡ a
bit_and-mask zero a h = omega (arith, under_nothing 0 a h)
bit_and-mask (suc n) a h = omega (
  arith,
  bit_and_step a (2 ^ suc n - 1),
  pow-succ' 2 n,
  bit_and-mask n (a / 2) (omega (arith, pow-succ' 2 n)),
  ap (bit_and (a / 2)) (halve n),
)
  where
    halve : (n : ℕ) → (2 ^ suc n - 1) / 2 ≡ 2 ^ n - 1
    halve n = omega (arith, pow-succ' 2 n)

-- `a & -64` rounds a 64-bit word down to a multiple of 64.
pub bit_and-align : (a : ℕ) → a < 2 ^ 64 → bit_and a (2 ^ 64 - 64) ≡ a / 64 * 64
bit_and-align a h = omega (
  arith,
  bit_and_step a (2 ^ 64 - 64),
  bit_and_step (a / 2) (2 ^ 63 - 32),
  bit_and_step (a / 2 / 2) (2 ^ 62 - 16),
  bit_and_step (a / 2 / 2 / 2) (2 ^ 61 - 8),
  bit_and_step (a / 2 / 2 / 2 / 2) (2 ^ 60 - 4),
  bit_and_step (a / 2 / 2 / 2 / 2 / 2) (2 ^ 59 - 2),
  bit_and-mask 58 (a / 2 / 2 / 2 / 2 / 2 / 2) (omega arith),
)

-- A mask bounds what it keeps.
pub bit_and-lt : (n a b : ℕ) → b < 2 ^ n → bit_and a b < 2 ^ n
bit_and-lt zero a b h =
    let none_left : b ≡ 0 = omega arith in
    rw none_left (omega (arith, under_nothing a a (lt_pow a)))
  where
    lt_pow : (a : ℕ) → a < 2 ^ a
    lt_pow zero = omega arith
    lt_pow (suc a) = omega (arith, lt_pow a, pow-succ' 2 a)
bit_and-lt (suc n) a b h = omega (
  arith,
  bit_and_step a b,
  pow-succ' 2 n,
  bit_and-lt n (a / 2) (b / 2) (omega (arith, pow-succ' 2 n)),
)
