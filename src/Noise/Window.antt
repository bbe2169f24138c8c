-- ===== src/Noise/Window.antt =====
-- noise/session.rs, `ReceivingKeyCounterValidator`: the sliding window against replays, a bitmap of
-- 16 words of 64 bits with the counter that is expected next. The loops take fuel, at most
-- `counter - next` rounds, which Window/Loops proves to be enough.
pub mod Bitmap
pub mod Loops
pub mod Refinement
pub mod Replay
use Prim.Native.Nat.{bit_and, bit_or}
use veil_vpn.Prelude.{
  ℕ, zero, suc, ◌+◌, ◌-◌, ◌/◌, ◌%◌, ◌^◌, Bool, true, false, ◌&&◌, not, List, ltb, leb, ◌==◌,
  if◌then◌else◌, get_or, set, replicate, add_u64,
}
use veil_vpn.Prelude.Bits.{test_bit, bit_not}
use veil_vpn.Noise.Errors.{Result, ok, err, invalid_counter, duplicate_counter}

abbrev pub word_size : ℕ
word_size = 64

abbrev pub n_words : ℕ
n_words = 16

abbrev pub n_bits : ℕ
n_bits = 1024

pub record ReceivingKeyCounterValidator : Type 0 where
  pub next : ℕ
  pub receive_cnt : ℕ
  pub bitmap : List ℕ

abbrev pub default : ReceivingKeyCounterValidator
default = record { next = 0; receive_cnt = 0; bitmap = replicate n_words 0 }

abbrev pub word_idx : ℕ → ℕ
word_idx idx = idx % n_bits / word_size

abbrev pub bit_idx : ℕ → ℕ
bit_idx idx = idx % n_bits % word_size

unfoldable pub set_bit : List ℕ → ℕ → List ℕ
set_bit bitmap idx =
    set bitmap (word_idx idx) (bit_or (get_or bitmap (word_idx idx) 0) (2 ^ bit_idx idx))

unfoldable pub clear_bit : List ℕ → ℕ → List ℕ
clear_bit bitmap idx =
    set bitmap (word_idx idx)
      (bit_and (get_or bitmap (word_idx idx) 0) (bit_not 64 (2 ^ bit_idx idx)))

-- Clear the word that contains idx.
unfoldable pub clear_word : List ℕ → ℕ → List ℕ
clear_word bitmap idx = set bitmap (word_idx idx) 0

unfoldable pub check_bit : List ℕ → ℕ → Bool
check_bit bitmap idx = test_bit (get_or bitmap (word_idx idx) 0) (bit_idx idx)

unfoldable pub will_accept : ReceivingKeyCounterValidator → ℕ → Result (Unit {0})
unfolding add_u64
will_accept v counter =
    if leb v.next counter
    then ok tt
    else if ltb (add_u64 counter n_bits) v.next
    then err invalid_counter
    else if not (check_bit v.bitmap counter)
    then ok tt
    else err duplicate_counter

-- `while i % WORD_SIZE != 0 && i < counter { self.clear_bit(i); i += 1; }`
unfoldable pub clear_to_aligned : ℕ → ℕ → ℕ → List ℕ → ℕ × List ℕ
clear_to_aligned zero counter i bitmap = (i, bitmap)
clear_to_aligned (suc fuel) counter i bitmap =
    let rest = clear_to_aligned fuel counter (i + 1) (clear_bit bitmap i) in
    if not (i % word_size == 0) && ltb i counter then rest else (i, bitmap)

-- `while i + WORD_SIZE < counter { self.clear_word(i); i = (i + WORD_SIZE) & -WORD_SIZE; }`
unfoldable pub clear_words : ℕ → ℕ → ℕ → List ℕ → ℕ × List ℕ
clear_words zero counter i bitmap = (i, bitmap)
clear_words (suc fuel) counter i bitmap =
    let rest =
      clear_words fuel counter (bit_and (i + word_size) (2 ^ 64 - word_size))
        (clear_word bitmap i) in
    if ltb (i + word_size) counter then rest else (i, bitmap)

-- `while i < counter { self.clear_bit(i); i += 1; }`
unfoldable pub clear_to : ℕ → ℕ → ℕ → List ℕ → ℕ × List ℕ
clear_to zero counter i bitmap = (i, bitmap)
clear_to (suc fuel) counter i bitmap =
    let rest = clear_to fuel counter (i + 1) (clear_bit bitmap i) in
    if ltb i counter then rest else (i, bitmap)

-- The three loops in turn: what was skipped becomes unused.
unfoldable pub clear_gap : ℕ → ℕ → List ℕ → List ℕ
clear_gap next counter bitmap =
    let fuel = counter - next in
    let (i, b) = clear_to_aligned fuel counter next bitmap in
    let (j, c) = clear_words fuel counter i b in (clear_to fuel counter j c).1

-- The bitmap that `mark_did_receive` leaves for a counter beyond `next`.
unfoldable pub skip_to : ReceivingKeyCounterValidator → ℕ → List ℕ
skip_to v counter =
    if leb n_bits (counter - v.next) then replicate n_words 0 else clear_gap v.next counter v.bitmap

unfoldable pub mark_did_receive :
    ReceivingKeyCounterValidator → ℕ → ReceivingKeyCounterValidator × Result (Unit {0})
unfolding add_u64
mark_did_receive v counter =
    if ltb (add_u64 counter n_bits) v.next
    then (v, err invalid_counter)
    else if counter == v.next
    then (record v { bitmap = set_bit v.bitmap counter; next = add_u64 v.next 1 }, ok tt)
    else if ltb counter v.next
    then (if check_bit v.bitmap counter
        then (v, err invalid_counter)
        else (record v { bitmap = set_bit v.bitmap counter }, ok tt))
    else (
      record v { bitmap = set_bit (skip_to v counter) counter; next = add_u64 counter 1 },
      ok tt,
    )
