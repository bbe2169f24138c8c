-- ===== src/Noise/Handshake/Messages.antt =====
-- The two messages of a handshake as bytes: each is parsed into the packet that was meant.
use mathlib.Core.List.{append_assoc}
use veil_vpn.Prelude.{
  ℕ, ◌+◌, ◌^◌, ◌≤◌, ◌<◌, ◌≡◌, ap, ◌∙◌, false, [], ◌++◌, arith, length, length-append, ltb,
  Option-cases, inl, inr, replicate,
}
use veil_vpn.Prelude.Bytes.{Bytes, to_le_bytes, length-to_be_bytes, to_be_bytes}
use veil_vpn.Noise.Errors.{ok}
use veil_vpn.Noise.Crypto.{Crypto, CryptoLaws, aead_chacha20_seal, b2s_keyed_mac_16, nonce_of}
use veil_vpn.Noise.Packet.{
  handshake_init, handshake_response, parse_incoming_packet, handshake_init_sz, handshake_resp_type,
}
use veil_vpn.Noise.Packet.Layout.Handshake.{
  init_layout, response_layout, parse-init_layout, parse-response_layout,
}
use veil_vpn.Noise.Session
use veil_vpn.Noise.Session.{Session}
use veil_vpn.Noise.Handshake.State.{
  Handshake, HandshakeInitSentState, InitReceived, init_sent, stamp, inc_index,
  append_mac1_and_mac2,
}
use veil_vpn.Noise.Handshake.Initiation.{
  Inputs, Initiation, seal_initiation, initiation_message, format_handshake_initiation,
}
use veil_vpn.Noise.Handshake.Response.{respond}
use veil_vpn.Noise.Handshake.Chain.{Derived, derive}
use veil_vpn.Noise.Handshake.Opening.{IsEnd, packet_of}

-- The index that a handshake hands out next.
pub next_of : Handshake → ℕ
next_of h = (inc_index h).1

pub next_of-lt : (h : Handshake) → h.next_index < 2 ^ 32 → next_of h < 2 ^ 32
unfolding next_of inc_index
next_of-lt h b = omega arith

module _ (c : Crypto) (laws : CryptoLaws c) where
  length-macs :
      (h : Handshake) (idx : ℕ) (msg : Bytes) → length (append_mac1_and_mac2 c h idx msg).1 ≡ 32
  unfolding append_mac1_and_mac2 b2s_keyed_mac_16
  length-macs h idx msg =
      let mac1 = b2s_keyed_mac_16 c h.params.sending_mac1_key msg in
      elim (Option-cases h.cookies.write_cookie) [
        | inl e ↦
            rw (e, append_mac1_and_mac2)
              (omega
                (arith, length-append mac1 (replicate 16 0), mac_16 h.params.sending_mac1_key msg))
        | inr (cookie, e) ↦
            rw (e, append_mac1_and_mac2)
              (omega (
                arith,
                length-append mac1 (b2s_keyed_mac_16 c cookie (msg ++ mac1)),
                mac_16 h.params.sending_mac1_key msg,
                mac_16 cookie (msg ++ mac1),
              ))
      ]
    where
      mac_16 : (k m : Bytes) → length (b2s_keyed_mac_16 c k m) ≡ 16
      mac_16 k m = laws.length-blake2s_mac 16 k m

  length-chacha :
      (key : Bytes) (n : ℕ) (msg aad : Bytes)
      → length (aead_chacha20_seal c key n msg aad) ≡ length msg + 16
  unfolding aead_chacha20_seal
  length-chacha key n msg aad = laws.length-seal key (nonce_of n) aad msg

  length-stamp : (secs nanos : ℕ) → length (stamp secs nanos) ≡ 12
  unfolding stamp
  length-stamp secs nanos = omega (
    arith,
    length-append (to_be_bytes 8 (secs + (2 ^ 62 + 37))) (to_be_bytes 4 nanos),
    length-to_be_bytes 8 (secs + (2 ^ 62 + 37)),
    length-to_be_bytes 4 nanos,
  )

  initiation-layout :
      (idx : ℕ) (ephemeral : Bytes) (m : Initiation) (macs : Bytes)
      → initiation_message c idx ephemeral m ++ macs
        ≡ init_layout idx ephemeral m.encrypted_static m.encrypted_timestamp macs
  unfolding initiation_message
  initiation-layout idx ephemeral m macs = simp append_assoc

  module _ (h : Handshake) (own peer : Bytes) (end : IsEnd c h.params own peer) (i : Inputs) where
    unfoldable pub sent_state : HandshakeInitSentState
    sent_state =
        let m = seal_initiation c h.params i in
        record {
          local_index = next_of h;
          hash = m.hash;
          chaining_key = m.chaining_key;
          ephemeral_private = i.ephemeral_private;
          time_sent = i.now;
        }

    unfoldable pub waiting : Handshake
    waiting = record h { next_index = next_of h; previous = h.state; state = init_sent sent_state }

    -- The state with the MACs of the message noted, and those MACs.
    unfoldable pub waiting_with_macs : Handshake × Bytes
    waiting_with_macs = append_mac1_and_mac2 c waiting (next_of h) (
        initiation_message c (next_of h) (c.public_key i.ephemeral_private)
          (seal_initiation c h.params i))

    pub init_datagram : Bytes
    init_datagram =
        init_layout (next_of h) (c.public_key i.ephemeral_private)
          (seal_initiation c h.params i).encrypted_static
          (seal_initiation c h.params i).encrypted_timestamp waiting_with_macs.1

    pub format-layout :
        (n : ℕ)
        → handshake_init_sz ≤ n
        → format_handshake_initiation c h i n ≡ (waiting_with_macs.0, ok init_datagram)
    unfolding format_handshake_initiation next_of waiting sent_state waiting_with_macs inc_index
        init_datagram
    format-layout n room =
        let fits : ltb n handshake_init_sz ≡ false = ground arith in
        rw fits (
          ap (λ b. (waiting_with_macs.0, ok b))
            (initiation-layout (next_of h) (c.public_key i.ephemeral_private)
              (seal_initiation c h.params i) waiting_with_macs.1))

    -- The responder parses exactly the packet that was meant.
    pub parse-init :
        h.next_index < 2 ^ 32
        → parse_incoming_packet init_datagram
          ≡ ok (handshake_init (packet_of c h.params i (next_of h)))
    unfolding init_datagram packet_of
    parse-init b =
        parse-init_layout (next_of h) (c.public_key i.ephemeral_private)
          (seal_initiation c h.params i).encrypted_static
          (seal_initiation c h.params i).encrypted_timestamp waiting_with_macs.1 (next_of-lt h b)
          (laws.length-public_key i.ephemeral_private) sealed_static sealed_stamp macs
      where
        macs : length waiting_with_macs.1 ≡ 32
        macs = unfold waiting_with_macs in length-macs waiting (next_of h) _

        sealed_static : length (seal_initiation c h.params i).encrypted_static ≡ 48
        sealed_static =
            unfold seal_initiation in
            length-chacha _ 0 h.params.static_public _
            ∙ ap (λ k. k + 16) (ap length end.public_eq ∙ laws.length-public_key own)

        sealed_stamp : length (seal_initiation c h.params i).encrypted_timestamp ≡ 28
        sealed_stamp =
            unfold seal_initiation in
            length-chacha _ 0 (stamp i.stamp_secs i.stamp_nanos) _
            ∙ ap (λ k. k + 16) (length-stamp i.stamp_secs i.stamp_nanos)

  module _ (r : Handshake) (s : InitReceived) (ephemeral : Bytes) where
    unfoldable pub answer : Derived
    answer =
        derive c s.hash s.chaining_key (c.public_key ephemeral)
          (c.diffie_hellman ephemeral s.peer_ephemeral_public)
          (c.diffie_hellman ephemeral r.params.peer_static_public) r.params.preshared_key

    unfoldable pub nothing : Bytes
    nothing = aead_chacha20_seal c answer.key 0 [] answer.hash

    response_message : Bytes
    response_message =
        to_le_bytes 4 handshake_resp_type
        ++ (to_le_bytes 4 (next_of r)
            ++ (to_le_bytes 4 s.peer_index ++ (c.public_key ephemeral ++ nothing)))

    pub answered_with_macs : Handshake × Bytes
    answered_with_macs = append_mac1_and_mac2 c (inc_index r).0 (next_of r) response_message

    pub response_datagram : Bytes
    response_datagram =
        response_layout (next_of r) s.peer_index (c.public_key ephemeral) nothing
          answered_with_macs.1

    -- The response as a layout, and the responder's session.
    pub respond-layout : respond c r s ephemeral ≡ (
      answered_with_macs.0,
      ok (response_datagram, Session.new (next_of r) s.peer_index answer.temp2 answer.temp3),
    )
    unfolding respond answer nothing response_message answered_with_macs response_datagram next_of
        inc_index
    respond-layout =
        ap
          (λ b. (
            answered_with_macs.0,
            ok (b, Session.new (next_of r) s.peer_index answer.temp2 answer.temp3),
          ))
          (simp append_assoc)

    -- The initiator parses exactly the packet that was meant.
    pub parse-response :
        r.next_index < 2 ^ 32
        → s.peer_index < 2 ^ 32
        → parse_incoming_packet response_datagram
          ≡ ok (
              handshake_response (record {
                sender_idx = next_of r;
                receiver_idx = s.peer_index;
                unencrypted_ephemeral = c.public_key ephemeral;
                encrypted_nothing = nothing;
              }))
    unfolding response_datagram
    parse-response b p =
        parse-response_layout (next_of r) s.peer_index (c.public_key ephemeral) nothing
          answered_with_macs.1 (next_of-lt r b) p (laws.length-public_key ephemeral)
          (unfold nothing in length-chacha answer.key 0 [] answer.hash)
          (unfold answered_with_macs in length-macs (inc_index r).0 (next_of r) response_message)
