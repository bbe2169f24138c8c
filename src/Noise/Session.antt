-- ===== src/Noise/Session.antt =====
-- noise/session.rs, `Session`: one pair of transport keys with its counters. The mutex makes each
-- use of the window one step; a call that panics is `none`.
pub mod Exchange
pub mod Replay
use veil_vpn.Prelude.{
  ℕ, ◌+◌, Bool, Option, none, some, ltb, ◌==◌, not, if◌then◌else◌, [], ◌++◌, length, add_u64,
}
use veil_vpn.Prelude.Bytes.{Bytes, to_le_bytes}
use veil_vpn.Noise.Errors.{Result, ok, err, wrong_index, invalid_aead_tag}
use veil_vpn.Noise.Crypto.{Crypto, nonce_of}
use veil_vpn.Noise.Packet.{PacketData, data_type, data_overhead_sz}
use veil_vpn.Noise.Window.{ReceivingKeyCounterValidator, default, will_accept, mark_did_receive}

pub record Session : Type 0 where
  pub receiving_index : ℕ
  pub sending_index : ℕ
  pub receiver : Bytes
  pub sender : Bytes
  pub sending_key_counter : ℕ
  pub receiving_key_counter : ReceivingKeyCounterValidator

unfoldable pub new : ℕ → ℕ → Bytes → Bytes → Session
new local_index peer_index receiving_key sending_key = record {
  receiving_index = local_index;
  sending_index = peer_index;
  receiver = receiving_key;
  sender = sending_key;
  sending_key_counter = 0;
  receiving_key_counter = default;
}

unfoldable pub receiving_counter_quick_check : Session → ℕ → Result (Unit {0})
receiving_counter_quick_check s counter = will_accept s.receiving_key_counter counter

-- What `receiving_counter_mark` does with the validator's answer.
unfoldable pub count_received :
    Session → ReceivingKeyCounterValidator × Result (Unit {0}) → Session × Result (Unit {0})
unfolding add_u64
count_received s (v, ok _) =
    (record s { receiving_key_counter = record v { receive_cnt = add_u64 v.receive_cnt 1 } }, ok tt)
count_received s (v, err e) = (record s { receiving_key_counter = v }, err e)

unfoldable pub receiving_counter_mark : Session → ℕ → Session × Result (Unit {0})
unfolding count_received
receiving_counter_mark s counter =
    count_received s (mark_did_receive s.receiving_key_counter counter)

module _ (c : Crypto) where
  -- The datagram, and the session with its counter moved on.
  unfoldable pub format_packet_data : Session → Bytes → ℕ → Option (Session × Bytes)
  unfolding add_u64
  format_packet_data s src dst_len =
      let counter = s.sending_key_counter in
      if ltb dst_len (length src + data_overhead_sz)
      then none
      else some (
        record s { sending_key_counter = add_u64 counter 1 },
        to_le_bytes 4 data_type
            ++ (to_le_bytes 4 s.sending_index
                ++ (to_le_bytes 8 counter ++ c.seal s.sender (nonce_of counter) [] src)),
      )

  -- After decryption the counter is checked again, and marked.
  unfoldable pub mark_decrypted : Session → ℕ → Bytes → Session × Result Bytes
  unfolding receiving_counter_mark
  mark_decrypted s counter plaintext =
      let (s', marked) = receiving_counter_mark s counter in
      (s', elim marked [ ok _ ↦ ok plaintext | err e ↦ err e ])

  unfoldable pub decrypt : Session → PacketData → Session × Result Bytes
  unfolding mark_decrypted
  decrypt s packet =
      elim (c.open_sealed s.receiver (nonce_of packet.counter) []
        packet.encrypted_encapsulated_packet) [
          | none ↦ (s, err invalid_aead_tag)
          | some plaintext ↦ mark_decrypted s packet.counter plaintext
        ]

  unfoldable pub receive_packet_data : Session → PacketData → ℕ → Option (Session × Result Bytes)
  unfolding decrypt receiving_counter_quick_check
  receive_packet_data s packet dst_len =
      if ltb dst_len (length packet.encrypted_encapsulated_packet)
      then none
      else if not (packet.receiver_idx == s.receiving_index)
      then some (s, err wrong_index)
      else some (elim (receiving_counter_quick_check s packet.counter) [
        | ok _ ↦ decrypt s packet
        | err e ↦ (s, err e)
      ])

unfoldable pub current_packet_cnt : Session → ℕ × ℕ
current_packet_cnt s = (s.receiving_key_counter.next, s.receiving_key_counter.receive_cnt)
