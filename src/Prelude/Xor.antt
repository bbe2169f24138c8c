-- ===== src/Prelude/Xor.antt =====
-- The exclusive or of machine words: it is undone by itself, and stays within its width.
use Prim.Native.Nat.{
  ℕ, zero, suc, ◌+◌, ◌*◌, ◌/◌, ◌%◌, ◌^◌, ◌≤◌, ◌<◌, bit_xor, bit_xor-bitwise, differ,
}
use mathlib.Core.Path.{◌≡◌, refl, sym, ap, ◌∙◌}
use native.Mathlib.Omega.{arith}
use native.Mathlib.Nat.{pow-succ'}
use veil_vpn.Prelude.Bits.{next_digit}

differ_lem : (x y : ℕ) → x < 2 → y < 2 → differ x y ≡ (x + y) % 2
differ_lem zero y h k = omega arith
differ_lem (suc zero) zero h k = refl
differ_lem (suc zero) (suc zero) h k = refl
differ_lem (suc zero) (suc (suc y)) h k = absurd (omega arith)
differ_lem (suc (suc x)) y h k = absurd (omega arith)

pub bit_xor_step : (a b : ℕ) → bit_xor a b ≡ bit_xor (a / 2) (b / 2) * 2 + (a + b) % 2
bit_xor_step zero b = omega (arith, bit_xor-bitwise (0 / 2) (b / 2), bit_xor-bitwise 0 b)
bit_xor_step (suc a) b =
    bit_xor-bitwise (suc a) b
    ∙ next_digit (λ x. x) differ a b
    ∙ ap (λ k. k * 2 + differ (suc a % 2) (b % 2)) (sym (bit_xor-bitwise (suc a / 2) (b / 2)))
    ∙ omega (arith, differ_lem (suc a % 2) (b % 2) (omega arith) (omega arith))

pub bit_xor-zero : (n a : ℕ) → a < 2 ^ n → bit_xor a 0 ≡ a
bit_xor-zero zero a h = let e : a ≡ 0 = omega arith in ap (λ k. bit_xor k 0) e ∙ sym e
bit_xor-zero (suc n) a h =
    omega (arith, bit_xor_step a 0, bit_xor-zero n (a / 2) (omega (arith, pow-succ' 2 n)))

-- An n-bit word stays one.
pub bit_xor-lt : (n a b : ℕ) → a < 2 ^ n → b < 2 ^ n → bit_xor a b < 2 ^ n
bit_xor-lt zero a b h k =
    let e : a ≡ 0 = omega arith in let e' : b ≡ 0 = omega arith in rw (e, e') (omega arith)
bit_xor-lt (suc n) a b h k = omega (
  arith,
  bit_xor_step a b,
  pow-succ' 2 n,
  bit_xor-lt n (a / 2) (b / 2) (omega (arith, pow-succ' 2 n)) (omega (arith, pow-succ' 2 n)),
)

-- The top bit of one word stays where the other has none.
pub bit_xor_top : (n a b : ℕ) → a < 2 ^ n → 2 ^ n ≤ b → b < 2 ^ suc n → 2 ^ n ≤ bit_xor a b
bit_xor_top zero a b h k l =
    let e : a ≡ 0 = omega arith in let e' : b ≡ 1 = omega arith in rw (e, e') (omega arith)
bit_xor_top (suc n) a b h k l = omega (
  arith,
  bit_xor_step a b,
  pow-succ' 2 n,
  pow-succ' 2 (suc n),
  bit_xor_top n (a / 2) (b / 2) (omega (arith, pow-succ' 2 n)) (omega (arith, pow-succ' 2 n))
      (omega (arith, pow-succ' 2 n, pow-succ' 2 (suc n))),
)

-- Twice the same word gives the first one back.
pub bit_xor_undo : (n a b : ℕ) → a < 2 ^ n → b < 2 ^ n → bit_xor (bit_xor a b) b ≡ a
bit_xor_undo zero a b h k =
    let e : a ≡ 0 = omega arith in let e' : b ≡ 0 = omega arith in rw (e, e') refl
bit_xor_undo (suc n) a b h k =
    let half : bit_xor a b / 2 ≡ bit_xor (a / 2) (b / 2) = omega (arith, bit_xor_step a b) in
    omega (
      arith,
      bit_xor_step (bit_xor a b) b,
      bit_xor_step a b,
      ap (λ k. bit_xor k (b / 2)) half,
      bit_xor_undo n (a / 2) (b / 2) (omega (arith, pow-succ' 2 n)) (omega (arith, pow-succ' 2 n)),
    )

-- So it is injective in the first word.
pub bit_xor_inj :
    (n a b m : ℕ) → a < 2 ^ n → b < 2 ^ n → m < 2 ^ n → bit_xor a m ≡ bit_xor b m → a ≡ b
bit_xor_inj n a b m ha hb hm h =
    sym (bit_xor_undo n a m ha hm) ∙ ap (λ k. bit_xor k m) h ∙ bit_xor_undo n b m hb hm
