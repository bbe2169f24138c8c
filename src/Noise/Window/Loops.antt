-- ===== src/Noise/Window/Loops.antt =====
-- The three loops of `mark_did_receive`: with enough fuel they leave unused every counter of the
-- gap, and no other counter of the window changes.
use Prim.Native.Nat.{bit_and}
use mathlib.Core.Path.{subst}
use veil_vpn.Prelude.{
  ℕ, zero, suc, ◌+◌, ◌-◌, ◌%◌, ◌^◌, ◌≤◌, ◌<◌, ◌≡◌, refl, ◌⊎◌, inl, inr, false, ◌∙◌, List, ltb, ◌==◌,
  not, ◌&&◌, arith, Bool-cases,
}
use veil_vpn.Prelude.Bits.{bit_and-align}
use veil_vpn.Noise.Window.{
  clear_bit, clear_word, check_bit, clear_to_aligned, clear_words, clear_to, clear_gap, n_bits,
  word_size,
}
use veil_vpn.Noise.Window.Bitmap.{
  IsBitmap, clear_bit-IsBitmap, clear_word-IsBitmap, check_bit-clear_bit, check_bit-clear_word,
}

-- From the bitmap `b` the counters `i`, .., `j - 1` were made unused, on the way to `counter`.
pub record Clears (counter i : ℕ) (b : List ℕ) (j : ℕ) (b' : List ℕ) : Type 0 where
  pub from_le : i ≤ j
  pub to_le : j ≤ counter
  pub sized : IsBitmap b'
  pub kept : (c : ℕ) → c < i → counter ≤ c + n_bits → check_bit b' c ≡ check_bit b c
  pub cleared : (c : ℕ) → i ≤ c → c < j → check_bit b' c ≡ false

module _ (counter : ℕ) where
  Clears-refl : (i : ℕ) (b : List ℕ) → i ≤ counter → IsBitmap b → Clears counter i b i b
  Clears-refl i b h s = record {
    from_le = omega arith;
    to_le = h;
    sized = s;
    kept = λ c _ _. refl;
    cleared = λ c p q. absurd (omega arith);
  }

  Clears-trans :
      (i j k : ℕ) (a b c : List ℕ)
      → counter ≤ i + n_bits
      → Clears counter i a j b
      → Clears counter j b k c
      → Clears counter i a k c
  Clears-trans i j k a b c g l r = record {
    from_le = omega arith;
    to_le = r.to_le;
    sized = r.sized;
    kept = λ x p q. r.kept x (omega arith) q ∙ l.kept x p q;
    cleared = λ x p q. elim (Bool-cases (ltb x j)) [
      | inl e ↦ r.kept x (ground arith) (omega arith) ∙ l.cleared x p (ground arith)
      | inr e ↦ r.cleared x (ground arith) q
    ];
  }

  clear_bit-Clears :
      (i : ℕ) (b : List ℕ)
      → i < counter
      → counter ≤ i + n_bits
      → IsBitmap b
      → Clears counter i b (i + 1) (clear_bit b i)
  clear_bit-Clears i b h g s = record {
    from_le = omega arith;
    to_le = omega arith;
    sized = clear_bit-IsBitmap b i s;
    kept = λ c p q. ground (arith, check_bit-clear_bit b i c s);
    cleared = λ c p q. ground (arith, check_bit-clear_bit b i c s);
  }

  -- A whole word goes only where the counter is aligned and the word ends before `counter`.
  clear_word-Clears :
      (i : ℕ) (b : List ℕ)
      → i + word_size < counter
      → counter ≤ i + n_bits
      → i % word_size ≡ 0
      → IsBitmap b
      → Clears counter i b (i + word_size) (clear_word b i)
  clear_word-Clears i b h g al s = record {
    from_le = omega arith;
    to_le = omega arith;
    sized = clear_word-IsBitmap b i s;
    kept = λ c p q. ground (arith, check_bit-clear_word b i c s);
    cleared = λ c p q. ground (arith, check_bit-clear_word b i c s);
  }

  -- The last loop, which reaches `counter`.
  clear_to-Clears :
      (fuel i : ℕ) (b : List ℕ)
      → counter ≤ i + fuel
      → i ≤ counter
      → counter ≤ i + n_bits
      → IsBitmap b
      → Clears counter i b counter (clear_to fuel counter i b).1
  unfolding clear_to
  clear_to-Clears zero i b f h g s =
      subst (λ k. Clears counter i b k b) (omega arith) (Clears-refl i b h s)
  clear_to-Clears (suc fuel) i b f h g s = elim (Bool-cases (ltb i counter)) [
    | inl e ↦
        let one = clear_bit-Clears i b (ground arith) g s in
        rw e (
          Clears-trans i (i + 1) counter b (clear_bit b i) _ g one (
            clear_to-Clears fuel (i + 1) (clear_bit b i) (omega arith) (ground arith) (omega arith)
              one.sized))
    | inr e ↦ rw e (subst (λ k. Clears counter i b k b) (ground arith) (Clears-refl i b h s))
  ]

  -- The first loop, which stops at a word boundary or at `counter`.
  clear_to_aligned-Clears :
      (fuel i : ℕ) (b : List ℕ)
      → counter ≤ i + fuel
      → i ≤ counter
      → counter ≤ i + n_bits
      → IsBitmap b
      → let (j, b') = clear_to_aligned fuel counter i b in
        Clears counter i b j b' × ((j % word_size ≡ 0) ⊎ (j ≡ counter))
  unfolding clear_to_aligned
  clear_to_aligned-Clears zero i b f h g s = (Clears-refl i b h s, inr (omega arith))
  clear_to_aligned-Clears (suc fuel) i b f h g s =
      elim (Bool-cases (not (i % word_size == 0) && ltb i counter)) [
        | inl e ↦
            let one = clear_bit-Clears i b (ground arith) g s in
            let rest =
              clear_to_aligned-Clears fuel (i + 1) (clear_bit b i) (omega arith) (ground arith)
                (omega arith) one.sized in
            rw e (Clears-trans i (i + 1) _ b (clear_bit b i) _ g one rest.0, rest.1)
        | inr e ↦ rw e (Clears-refl i b h s, ground arith)
      ]

  -- The second loop, which stops within a word of `counter`.
  clear_words-Clears :
      (fuel i : ℕ) (b : List ℕ)
      → counter < 2 ^ 64
      → counter ≤ i + fuel
      → i ≤ counter
      → counter ≤ i + n_bits
      → (i % word_size ≡ 0) ⊎ (i ≡ counter)
      → IsBitmap b
      → let (j, b') = clear_words fuel counter i b in Clears counter i b j b'
  unfolding clear_words
  clear_words-Clears zero i b w f h g al s = Clears-refl i b h s
  clear_words-Clears (suc fuel) i b w f h g al s = elim (Bool-cases (ltb (i + word_size) counter)) [
    | inl e ↦
        let aligned : i % word_size ≡ 0 = ground arith in
        let one = clear_word-Clears i b (ground arith) g aligned s in
        let step : bit_and (i + word_size) (2 ^ 64 - word_size) ≡ i + word_size =
          ground (arith, bit_and-align (i + word_size)) in
        let rest =
          clear_words-Clears fuel (i + word_size) (clear_word b i) w (omega arith) (ground arith)
            (omega arith) (inl (omega arith)) one.sized in
        rw (e, step) (Clears-trans i (i + word_size) _ b (clear_word b i) _ g one rest)
    | inr e ↦ rw e (Clears-refl i b h s)
  ]

-- The loops together: every counter of the gap is unused, and the rest of the window is as before.
pub clear_gap-Clears :
    (next counter : ℕ) (b : List ℕ)
    → counter < 2 ^ 64
    → next ≤ counter
    → counter ≤ next + n_bits
    → IsBitmap b
    → Clears counter next b counter (clear_gap next counter b)
unfolding clear_gap
clear_gap-Clears next counter b w h g s =
    let fuel = counter - next in
    let (i, b1) = clear_to_aligned fuel counter next b in
    let one = clear_to_aligned-Clears counter fuel next b (omega arith) h g s in
    let (j, b2) = clear_words fuel counter i b1 in
    let two =
      clear_words-Clears counter fuel i b1 w (omega (arith, one.0.from_le)) one.0.to_le
        (omega (arith, one.0.from_le)) one.1 one.0.sized in
    let three =
      clear_to-Clears counter fuel j b2 (omega (arith, one.0.from_le, two.from_le)) two.to_le
        (omega (arith, one.0.from_le, two.from_le)) two.sized in
    Clears-trans counter next i counter b b1 _ g one.0
      (Clears-trans counter i j counter b1 b2 _ (omega (arith, one.0.from_le)) two three)
