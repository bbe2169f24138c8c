-- ===== src/Noise/Window/Bitmap.antt =====
-- What each write to the bitmap does to the bit of every counter.
use Prim.Native.Nat.{bit_and, bit_or}
use native.Mathlib.Nat.{pow-le-pow_right}
use veil_vpn.Prelude.{
  ℕ, ◌%◌, ◌^◌, ◌<◌, ◌≡◌, refl, ap, ◌∙◌, zero, suc, ◌&&◌, ◌||◌, not, List, ◌==◌, arith, get_or,
  length, get_or-set, length-set, false, replicate,
}
use veil_vpn.Prelude.Bits.{
  test_bit, bit_not, test_bit-bit_or, test_bit-bit_and, test_bit-bit_not, test_bit-pow,
  test_bit-of_zero,
}
use veil_vpn.Noise.Window.{
  set_bit, clear_bit, clear_word, check_bit, word_idx, bit_idx, n_bits, n_words,
}

-- The bitmap is an array of `N_WORDS` words.
abbrev pub IsBitmap : List ℕ → Type 0
IsBitmap bitmap = length bitmap ≡ n_words

-- The mask of a bit is a 64-bit word.
bit_idx-pow : (i : ℕ) → 2 ^ bit_idx i < 2 ^ 64
bit_idx-pow i =
    omega (arith, pow-le-pow_right {n = 2} (omega arith) {i = bit_idx i} {j = 63} (omega arith))

module _ (bitmap : List ℕ) (i : ℕ) where
  pub set_bit-IsBitmap : IsBitmap bitmap → IsBitmap (set_bit bitmap i)
  unfolding set_bit
  set_bit-IsBitmap h = rw length-set h

  pub clear_bit-IsBitmap : IsBitmap bitmap → IsBitmap (clear_bit bitmap i)
  unfolding clear_bit
  clear_bit-IsBitmap h = rw length-set h

  pub clear_word-IsBitmap : IsBitmap bitmap → IsBitmap (clear_word bitmap i)
  unfolding clear_word
  clear_word-IsBitmap h = rw length-set h

  pub check_bit-set_bit :
      (j : ℕ)
      → IsBitmap bitmap
      → check_bit (set_bit bitmap i) j ≡ (i % n_bits == j % n_bits || check_bit bitmap j)
  unfolding set_bit check_bit
  check_bit-set_bit j h = ground (
    arith,
    get_or-set bitmap (word_idx i) (word_idx j)
        (bit_or (get_or bitmap (word_idx i) 0) (2 ^ bit_idx i)) 0,
    test_bit-bit_or (bit_idx j) (get_or bitmap (word_idx i) 0) (2 ^ bit_idx i),
    test_bit-pow (bit_idx j) (bit_idx i),
  )

  pub check_bit-clear_bit :
      (j : ℕ)
      → IsBitmap bitmap
      → check_bit (clear_bit bitmap i) j ≡ (not (i % n_bits == j % n_bits) && check_bit bitmap j)
  unfolding clear_bit check_bit
  check_bit-clear_bit j h = ground (
    arith,
    get_or-set bitmap (word_idx i) (word_idx j)
        (bit_and (get_or bitmap (word_idx i) 0) (bit_not 64 (2 ^ bit_idx i))) 0,
    test_bit-bit_and (bit_idx j) (get_or bitmap (word_idx i) 0) (bit_not 64 (2 ^ bit_idx i)),
    test_bit-bit_not (bit_idx j) 64 (2 ^ bit_idx i) (omega arith) (bit_idx-pow i),
    test_bit-pow (bit_idx j) (bit_idx i),
  )

  pub check_bit-clear_word :
      (j : ℕ)
      → IsBitmap bitmap
      → check_bit (clear_word bitmap i) j ≡ (not (word_idx i == word_idx j) && check_bit bitmap j)
  unfolding clear_word check_bit
  check_bit-clear_word j h =
      ground (arith, get_or-set bitmap (word_idx i) (word_idx j) 0 0, test_bit-of_zero (bit_idx j))

get_or-replicate : (n i : ℕ) → get_or {A = ℕ} (replicate n 0) i 0 ≡ 0
get_or-replicate zero i = refl
get_or-replicate (suc n) zero = refl
get_or-replicate (suc n) (suc i) = get_or-replicate n i

-- Every bit of a zeroed bitmap is unused.
pub check_bit-replicate : (j : ℕ) → check_bit (replicate n_words 0) j ≡ false
unfolding check_bit
check_bit-replicate j =
    ap (λ w. test_bit w (bit_idx j)) (get_or-replicate n_words (word_idx j))
    ∙ test_bit-of_zero (bit_idx j)
