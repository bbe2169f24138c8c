-- ===== src/Noise/Session/Exchange.antt =====
-- Two sessions with each other's keys: what one formats, the other receives.
use veil_vpn.Prelude.{
  ℕ, ◌+◌, ◌^◌, ◌≤◌, ◌<◌, ◌≡◌, ◌∙◌, ◌⊎◌, inl, inr, false, none, some, [], ltb, arith, length,
  add_u64, add_u64-no_wrap, Bool-cases,
}
use veil_vpn.Prelude.Bytes.{Bytes}
use veil_vpn.Noise.Errors.{ok}
use veil_vpn.Noise.Crypto.{Crypto, CryptoLaws, nonce_of}
use veil_vpn.Noise.Packet.{PacketData, packet_data, parse_incoming_packet}
use veil_vpn.Noise.Packet.Layout.{data_layout, parse-data_layout}
use veil_vpn.Noise.Window.{n_bits, will_accept, mark_did_receive}
use veil_vpn.Noise.Window.Refinement.{History, Refines, mark_did_receive-accept, will_accept_iff}
use veil_vpn.Noise.Window.Replay.{IsCounter}
use veil_vpn.Noise.Session.{
  Session, format_packet_data, receive_packet_data, receiving_counter_mark,
}

module _ (c : Crypto) where
  abbrev pub sealed : Session → Bytes → Bytes
  sealed s src = c.seal s.sender (nonce_of s.sending_key_counter) [] src

  -- A buffer that is too small panics, and any other takes the datagram and moves the counter on.
  pub format_cases :
      (s : Session) (src : Bytes) (dst_len : ℕ)
      → ((dst_len < length src + 32) × (format_packet_data c s src dst_len ≡ none))
        ⊎ ((length src + 32 ≤ dst_len)
            × (format_packet_data c s src dst_len
                ≡ some (
                  record s { sending_key_counter = add_u64 s.sending_key_counter 1 },
                  data_layout s.sending_index s.sending_key_counter (sealed s src),
                )))
  unfolding format_packet_data
  format_cases s src dst_len = elim (Bool-cases (ltb dst_len (length src + 32))) [
    | inl e ↦ inl (ground arith, rw e)
    | inr e ↦ inr (ground arith, rw e)
  ]

  module _ (laws : CryptoLaws c) (a b : Session) (src : Bytes) where
    pub packet_from : PacketData
    packet_from = record {
      receiver_idx = a.sending_index;
      counter = a.sending_key_counter;
      encrypted_encapsulated_packet = sealed a src;
    }

    parse-format :
        a.sending_index < 2 ^ 32
        → a.sending_key_counter < 2 ^ 64
        → parse_incoming_packet (data_layout a.sending_index a.sending_key_counter (sealed a src))
          ≡ ok (packet_data packet_from)
    unfolding packet_from
    parse-format i k =
        parse-data_layout a.sending_index a.sending_key_counter (sealed a src) i k
          (omega (arith, laws.length-seal a.sender (nonce_of a.sending_key_counter) [] src))

    receive-packet_from :
        (dst_len : ℕ)
        → a.sender ≡ b.receiver
        → a.sending_index ≡ b.receiving_index
        → length src + 16 ≤ dst_len
        → will_accept b.receiving_key_counter a.sending_key_counter ≡ ok tt
        → (mark_did_receive b.receiving_key_counter a.sending_key_counter).1 ≡ ok tt
        → receive_packet_data c b packet_from dst_len
          ≡ some ((receiving_counter_mark b a.sending_key_counter).0, ok src)
    unfolding receive_packet_data packet_from receiving_counter_mark
    receive-packet_from dst_len key idx room quick mark = ground (
      arith,
      laws.length-seal a.sender (nonce_of a.sending_key_counter) [] src,
      laws.open-seal a.sender (nonce_of a.sending_key_counter) [] src,
    )

  -- Delivery: a session that holds the peer's keys and index decrypts what the peer formatted to
  -- the packet that was sent, whenever the counter is new and within the window.
  pub delivery :
      CryptoLaws c
      → (a b : Session) (src : Bytes) (n m : ℕ) (w : History) → a.sender ≡ b.receiver
      → a.sending_index ≡ b.receiving_index
      → a.sending_index < 2 ^ 32
      → length src + 32 ≤ n
      → length src + 16 ≤ m
      → IsCounter a.sending_key_counter
      → Refines b.receiving_key_counter w
      → b.receiving_key_counter.next ≤ a.sending_key_counter + n_bits
      → w.seen a.sending_key_counter ≡ false
      → (a' b' : Session) × (datagram : Bytes) × (p : PacketData) × (format_packet_data c a src n
          ≡ some (a', datagram))
        × (a'.sending_key_counter ≡ a.sending_key_counter + 1)
        × (parse_incoming_packet datagram ≡ ok (packet_data p))
        × (receive_packet_data c b p m ≡ some (b', ok src))
  delivery laws a b src n m w key idx i n_ok m_ok k r near new =
      let counter = a.sending_key_counter in
      let mark : (mark_did_receive b.receiving_key_counter counter).1 ≡ ok tt =
        (mark_did_receive-accept b.receiving_key_counter w counter k r).0
        ∙ ground (arith, r.next_eq) in
      let quick = (will_accept_iff b.receiving_key_counter counter k).1 mark in
      (
        record a { sending_key_counter = add_u64 counter 1 },
        (receiving_counter_mark b counter).0,
        data_layout a.sending_index counter (sealed a src),
        packet_from laws a b src,
        elim (format_cases a src n) [ inl e ↦ absurd (omega arith) | inr e ↦ e.1 ],
        add_u64-no_wrap counter 1 (omega arith),
        parse-format laws a b src i (omega arith),
        receive-packet_from laws a b src m key idx m_ok quick mark,
      )
