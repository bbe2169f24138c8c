-- ===== src/Device/IndexLfsr/Step.antt =====
-- The register of 24 bits is never 0, and its step can be undone.
use Prim.Native.Nat.{bit_and, bit_xor}
use veil_vpn.Prelude.{ℕ, ◌-◌, ◌/◌, ◌%◌, ◌^◌, ◌≤◌, ◌<◌, ◌≡◌, sym, ap, ◌∙◌, inl, inr, ◌⊎◌, arith}
use veil_vpn.Prelude.Xor.{bit_xor-zero, bit_xor-lt, bit_xor_top, bit_xor_inj}
use veil_vpn.Device.IndexLfsr.{lfsr_poly, shifted}

-- A register of 24 bits that is not 0.
pub record IsRegister (l : ℕ) : Type 0 where
  pub not_zero : 0 < l
  pub is_small : l < 2 ^ 24

-- An even register is halved; an odd one is halved and gets the polynomial.
shifted-even : (l : ℕ) → IsRegister l → l % 2 ≡ 0 → shifted l ≡ l / 2
unfolding shifted
shifted-even l w h =
    ap (λ b. bit_xor (l / 2) (bit_and ((2 ^ 32 - b) % 2 ^ 32) lfsr_poly)) h
    ∙ bit_xor-zero 23 (l / 2) (omega (arith, w.is_small))

shifted-odd : (l : ℕ) → l % 2 ≡ 1 → shifted l ≡ bit_xor (l / 2) lfsr_poly
unfolding shifted
shifted-odd l h = ap (λ b. bit_xor (l / 2) (bit_and ((2 ^ 32 - b) % 2 ^ 32) lfsr_poly)) h

odd_top : (l : ℕ) → IsRegister l → l % 2 ≡ 1 → 2 ^ 23 ≤ shifted l
odd_top l w h =
    rw (shifted-odd l h)
      (bit_xor_top 23 (l / 2) lfsr_poly (omega (arith, w.is_small)) (omega arith) (omega arith))

parity : (l : ℕ) → (l % 2 ≡ 0) ⊎ (l % 2 ≡ 1)
parity l = ground arith

pub shifted-IsRegister : (l : ℕ) → IsRegister l → IsRegister (shifted l)
shifted-IsRegister l w = elim (parity l) [
  | inl even ↦ record {
    not_zero = omega (arith, shifted-even l w even, w.not_zero);
    is_small = omega (arith, shifted-even l w even, w.is_small);
  }
  | inr odd ↦ record {
    not_zero = omega (arith, odd_top l w odd);
    is_small = omega (
      arith,
      shifted-odd l odd,
      bit_xor-lt 24 (l / 2) lfsr_poly (omega (arith, w.is_small)) (omega arith),
    );
  }
]

-- The top bit tells whether the register was odd, so no two registers step to the same one.
pub shifted_inj : (l m : ℕ) → IsRegister l → IsRegister m → shifted l ≡ shifted m → l ≡ m
shifted_inj l m w u h = elim (parity l) [
  | inl even ↦ elim (parity m) [
    | inl even' ↦ omega (arith, shifted-even l w even, shifted-even m u even', h)
    | inr odd' ↦ absurd (omega (arith, shifted-even l w even, w.is_small, odd_top m u odd', h))
  ]
  | inr odd ↦ elim (parity m) [
    | inl even' ↦ absurd (omega (arith, shifted-even m u even', u.is_small, odd_top l w odd, h))
    | inr odd' ↦
        let halves : l / 2 ≡ m / 2 =
          bit_xor_inj 24 (l / 2) (m / 2) lfsr_poly (omega (arith, w.is_small))
            (omega (arith, u.is_small)) (omega arith)
            (sym (shifted-odd l odd) ∙ h ∙ shifted-odd m odd') in
        omega arith
  ]
]
