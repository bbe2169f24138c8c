-- ===== src/Examples/Session.antt =====
-- noise/session.rs between two ends, and packets as bytes.
use veil_vpn.Prelude.{◌+◌, ◌≡◌, ◌≢◌, refl, some, [], ◌∷◌, ◌++◌, arith, add_u64, replicate}
use veil_vpn.Prelude.Bits.{test_bit, bit_not}
use veil_vpn.Prelude.Bytes.{Bytes}
use veil_vpn.Noise.Errors.{ok, err, wrong_index}
use veil_vpn.Noise.Packet.{PacketData, packet_data, parse_incoming_packet}
use veil_vpn.Noise.Window.{
  default, set_bit, clear_bit, clear_word, check_bit, clear_to_aligned, clear_words, clear_to,
  clear_gap, skip_to, mark_did_receive, will_accept,
}
use veil_vpn.Noise.Window.Refinement.{no_history}
use veil_vpn.Noise.Window.Replay.{default-Refines}
use veil_vpn.Noise.Session.{
  Session, receive_packet_data, decrypt, mark_decrypted, receiving_counter_mark,
  receiving_counter_quick_check, count_received, format_packet_data,
}
use veil_vpn.Noise.Session.Replay.{done, receive-err, no_replay_session}
use veil_vpn.Noise.Session.Exchange.{delivery}
use veil_vpn.Examples.Crypto.{toy, toy-CryptoLaws, toy_open}

abbrev key_a : Bytes
key_a = 1 ∷ []

abbrev key_b : Bytes
key_b = 2 ∷ []

abbrev pub alice : Session
alice = record {
  receiving_index = 11;
  sending_index = 22;
  receiver = key_a;
  sender = key_b;
  sending_key_counter = 0;
  receiving_key_counter = default;
}

abbrev pub bob : Session
bob = record {
  receiving_index = 22;
  sending_index = 11;
  receiver = key_b;
  sender = key_a;
  sending_key_counter = 0;
  receiving_key_counter = default;
}

abbrev text : Bytes
text = 104 ∷ 105 ∷ []

delivery_example :
    (a' b' : Session) × (datagram : Bytes) × (p : PacketData) × (format_packet_data toy alice text
        64
      ≡ some (a', datagram))
    × (a'.sending_key_counter ≡ 0 + 1)
    × (parse_incoming_packet datagram ≡ ok (packet_data p))
    × (receive_packet_data toy bob p 64 ≡ some (b', ok text))
delivery_example =
    delivery toy toy-CryptoLaws alice bob text 64 64 no_history refl refl (omega arith)
      (omega arith) (omega arith) (omega arith) default-Refines (omega arith) refl

-- The packet that carries the text, and what it leaves at the receiver.
abbrev hi : PacketData
hi = record {
  receiver_idx = 22;
  counter = 0;
  encrypted_encapsulated_packet = text ++ replicate 16 0;
}

abbrev bob_after : Session
bob_after = (receiving_counter_mark bob 0).0

taken : receive_packet_data toy bob hi 64 ≡ some (bob_after, ok text)
unfolding receive_packet_data decrypt mark_decrypted receiving_counter_mark count_received
    receiving_counter_quick_check will_accept mark_did_receive set_bit check_bit clear_gap
    clear_to_aligned clear_words clear_to clear_bit clear_word skip_to test_bit bit_not toy_open
    add_u64
taken = refl

no_replay_session_example : receive_packet_data toy bob_after hi 64 ≢ some (bob_after, ok text)
no_replay_session_example =
    no_replay_session toy bob bob_after bob_after bob_after hi hi text 64 64 no_history
      default-Refines (omega arith) taken done refl text

abbrev misled : PacketData
misled = record { receiver_idx = 23; counter = 0; encrypted_encapsulated_packet = text }

misled_refused : receive_packet_data toy bob misled 64 ≡ some (bob, err wrong_index)
unfolding receive_packet_data
misled_refused = refl

receive-err_example : bob ≡ bob
receive-err_example = receive-err toy bob bob misled 64 wrong_index misled_refused
