-- ===== src/Payment/Protocol/Checksum.antt =====
-- payment/protocol.rs, `ip_checksum`: a header that carries its own checksum sums to all ones.
use veil_vpn.Prelude.{
  ℕ, zero, suc, ◌+◌, ◌-◌, ◌*◌, ◌/◌, ◌%◌, ◌^◌, ◌≤◌, ◌<◌, ◌≡◌, refl, ◌∙◌, inl, inr, [], ◌∷◌, ◌++◌,
  arith, length, ◌==◌, All, Bool-cases,
}
use veil_vpn.Prelude.Bytes.{Bytes, IsByte, to_be_bytes, to_le_bytes}
use veil_vpn.Payment.Protocol.{sum_words, fold_carries, ip_checksum}

-- The sum of the words without a bound.
abbrev words : Bytes → ℕ
words (a ∷ (b ∷ bs)) = a * 256 + b + words bs
words (a ∷ []) = a * 256
words [] = 0

sum_words-words :
    (bs : Bytes) (sum : ℕ) → sum + words bs < 2 ^ 32 → sum_words bs sum ≡ sum + words bs
unfolding sum_words
sum_words-words [] sum h = omega arith
sum_words-words (a ∷ []) sum h = omega arith
sum_words-words (a ∷ (b ∷ bs)) sum h =
    let step : (sum + (a * 256 + b)) % 2 ^ 32 ≡ sum + (a * 256 + b) = omega (arith, h) in
    rw step (omega (arith, sum_words-words bs (sum + (a * 256 + b)) (omega (arith, h))))

words-append : (xs bs : Bytes) → length xs % 2 ≡ 0 → words (xs ++ bs) ≡ words xs + words bs
words-append [] bs even = omega arith
words-append (a ∷ []) bs even = absurd (omega (arith, even))
words-append (a ∷ (b ∷ xs)) bs even = omega (arith, words-append xs bs (omega (arith, even)))

words-bound : (bs : Bytes) → All IsByte bs → words bs ≤ 65536 * length bs
words-bound [] h = omega arith
words-bound (a ∷ []) h = omega (arith, h.0)
words-bound (a ∷ (b ∷ bs)) h = omega (arith, h.0, h.1.0, words-bound bs h.1.1)

-- Folding the carries keeps the sum modulo 65535, and a sum above 0 above 0.
fold_carries-mod : (fuel sum : ℕ) → (k : ℕ) × (sum ≡ fold_carries fuel sum + 65535 * k)
unfolding fold_carries
fold_carries-mod zero sum = (0, omega arith)
fold_carries-mod (suc fuel) sum = elim (Bool-cases (sum / 2 ^ 16 == 0)) [
  | inl e ↦ (0, rw e (omega arith))
  | inr e ↦
      let (k, ih) = fold_carries-mod fuel (sum % 2 ^ 16 + sum / 2 ^ 16) in
      (k + sum / 2 ^ 16, rw e (omega (arith, ih)))
]

fold_carries-pos : (fuel sum : ℕ) → 0 < sum → 0 < fold_carries fuel sum
unfolding fold_carries
fold_carries-pos zero sum h = h
fold_carries-pos (suc fuel) sum h = elim (Bool-cases (sum / 2 ^ 16 == 0)) [
  | inl e ↦ rw e h
  | inr e ↦ rw e (fold_carries-pos fuel (sum % 2 ^ 16 + sum / 2 ^ 16) (omega (arith, h)))
]

-- The carries of a sum of 32 bits are gone after the rounds that the fuel allows.
fold_carries-lt : (sum : ℕ) → sum < 2 ^ 32 → fold_carries 3 sum < 2 ^ 16
unfolding fold_carries
fold_carries-lt sum h = ground arith

-- The folded sum with its complement added is all ones.
complement-fold :
    (sum : ℕ) → sum + 65535 < 2 ^ 32 → fold_carries 3 (sum + (65535 - fold_carries 3 sum)) ≡ 65535
complement-fold sum h =
    let (k, e) = fold_carries-mod 3 sum in
    let total = sum + (65535 - fold_carries 3 sum) in
    let (j, f) = fold_carries-mod 3 total in
    let below = fold_carries-lt sum (omega (arith, h)) in
    let below_total = fold_carries-lt total (omega (arith, h)) in
    omega (arith, e, f, below, below_total, fold_carries-pos 3 total (omega (arith, below, e)))

words-to_be_bytes : (n : ℕ) (bs : Bytes) → n < 2 ^ 16 → words (to_be_bytes 2 n ++ bs) ≡ n + words bs
unfolding to_be_bytes to_le_bytes
words-to_be_bytes n bs h = omega (arith, h)

-- The checksum of a header in which the checksum of the header with that field zeroed stands, at an
-- even offset, is 0, which is what a receiver checks; the header is of bytes, at most 60.
pub ip_checksum-valid :
    (front back : Bytes)
    → All IsByte front
    → All IsByte back
    → length front % 2 ≡ 0
    → length front + length back ≤ 60
    → ip_checksum (front ++ (to_be_bytes 2 (ip_checksum (front ++ (0 ∷ 0 ∷ back))) ++ back)) ≡ 0
unfolding ip_checksum
ip_checksum-valid front back f b even short =
    let bound_f = words-bound front f in
    let bound_b = words-bound back b in
    let sum = words front + words back in
    let zeroed : sum_words (front ++ (0 ∷ 0 ∷ back)) 0 ≡ sum =
      let split = words-append front (0 ∷ 0 ∷ back) even in
      sum_words-words (front ++ (0 ∷ 0 ∷ back)) 0 (omega (arith, split, bound_f, bound_b))
      ∙ omega (arith, split) in
    let below = fold_carries-lt sum (omega (arith, bound_f, bound_b)) in
    let cksum : 2 ^ 16 - 1 - fold_carries 3 sum % 2 ^ 16 ≡ 65535 - fold_carries 3 sum =
      omega (arith, below) in
    let whole = front ++ (to_be_bytes 2 (65535 - fold_carries 3 sum) ++ back) in
    let split = words-append front (to_be_bytes 2 (65535 - fold_carries 3 sum) ++ back) even in
    let here = words-to_be_bytes (65535 - fold_carries 3 sum) back (omega arith) in
    let full : sum_words whole 0 ≡ sum + (65535 - fold_carries 3 sum) =
      sum_words-words whole 0 (omega (arith, split, here, bound_f, bound_b))
      ∙ omega (arith, split, here) in
    let ones = complement-fold sum (omega (arith, bound_f, bound_b)) in
    rw (zeroed, cksum, full, ones) refl
