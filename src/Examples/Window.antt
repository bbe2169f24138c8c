-- ===== src/Examples/Window.antt =====
-- The window of noise/session.rs on concrete counters, after the source's own test.
use veil_vpn.Prelude.{ℕ, ◌≡◌, refl, ◌↔◌, List, [], ◌∷◌, arith, add_u64}
use veil_vpn.Prelude.Bits.{test_bit, bit_not}
use veil_vpn.Noise.Errors.{ok, err, invalid_counter, duplicate_counter}
use veil_vpn.Noise.Window.{
  default, set_bit, clear_bit, clear_word, check_bit, clear_to_aligned, clear_words, clear_to,
  clear_gap, skip_to, mark_did_receive, will_accept,
}
use veil_vpn.Noise.Window.Refinement.{
  no_history, accept, Refines, mark_did_receive-accept, will_accept_iff,
}
use veil_vpn.Noise.Window.Replay.{marks, default-Refines, no_replay, unseen_passes}

abbrev arrivals : List ℕ
arrivals = 0 ∷ 1 ∷ 63 ∷ 15 ∷ 1100 ∷ []

late_in_window : (mark_did_receive (marks default arrivals) 80).1 ≡ ok tt
unfolding marks mark_did_receive set_bit check_bit clear_gap clear_to_aligned clear_words clear_to
    clear_bit clear_word skip_to test_bit bit_not add_u64
late_in_window = refl

too_far_back : (mark_did_receive (marks default arrivals) 15).1 ≡ err invalid_counter
unfolding marks mark_did_receive set_bit check_bit clear_gap clear_to_aligned clear_words clear_to
    clear_bit clear_word skip_to test_bit bit_not add_u64
too_far_back = refl

duplicate : will_accept (marks default arrivals) 1100 ≡ err duplicate_counter
unfolding marks mark_did_receive will_accept set_bit check_bit clear_gap clear_to_aligned
    clear_words clear_to clear_bit clear_word skip_to test_bit bit_not add_u64
duplicate = refl

mark_did_receive-accept_example :
    ((mark_did_receive default 70).1 ≡ (accept no_history 70).1)
    × Refines (mark_did_receive default 70).0 (accept no_history 70).0
mark_did_receive-accept_example =
    mark_did_receive-accept default no_history 70 (omega arith) default-Refines

will_accept_iff_example : (will_accept default 5 ≡ ok tt) ↔ ((mark_did_receive default 5).1 ≡ ok tt)
will_accept_iff_example = will_accept_iff default 5 (omega arith)

no_replay_example :
    (mark_did_receive
      (marks (mark_did_receive (marks default arrivals) 80).0 (1101 ∷ 90 ∷ []))
      80).1
    ≡ err invalid_counter
no_replay_example =
    no_replay arrivals 80 (omega arith) (omega arith) (1101 ∷ 90 ∷ []) (omega arith) late_in_window

next_after : (marks default arrivals).next ≡ 1101
unfolding marks mark_did_receive set_bit check_bit clear_gap clear_to_aligned clear_words clear_to
    clear_bit clear_word skip_to test_bit bit_not add_u64
next_after = refl

unseen_passes_example : (mark_did_receive (marks default arrivals) 80).1 ≡ ok tt
unseen_passes_example =
    unseen_passes arrivals 80 (omega arith) (omega arith) (omega arith) (omega (arith, next_after))
