-- ===== src/Noise/Handshake/Response.antt =====
-- noise/handshake.rs: the second message. `receive_handshake_initialization` answers an initiation,
-- `receive_handshake_response` completes the handshake, `receive_cookie_reply` stores a cookie.
use veil_vpn.Prelude.{
  ℕ, ◌-◌, ◌/◌, ◌%◌, ◌^◌, Bool, true, false, Option, none, some, [], ltb, ◌==◌, if◌then◌else◌, not,
  ◌++◌, length,
}
use veil_vpn.Prelude.Bytes.{Bytes, to_le_bytes, bytes_eq}
use veil_vpn.Noise.Errors.{
  Result, ok, err, destination_buffer_too_small, wrong_key, wrong_tai64n_timestamp,
  unexpected_packet, wrong_index, invalid_aead_tag, invalid_packet,
}
use veil_vpn.Noise.Crypto.{Crypto, b2s_hash, aead_chacha20_seal, aead_chacha20_open}
use veil_vpn.Noise.Packet.{
  HandshakeInit, HandshakeResponse, PacketCookieReply, handshake_resp_type, handshake_resp_sz,
}
use veil_vpn.Noise.Session
use veil_vpn.Noise.Session.{Session}
use veil_vpn.Noise.Handshake.State.{
  Handshake, HandshakeState, HandshakeInitSentState, InitReceived, idle, init_sent, init_received,
  append_mac1_and_mac2, inc_index, tai64n_parse, after, label_cookie,
}
use veil_vpn.Noise.Handshake.Chain.{
  initial_chain_key, initial_hash, mix_chaining_key, mix_key, derive,
}
use veil_vpn.Noise.Handshake.Initiation.{open_static}

module _ (c : Crypto) where
  -- The response to the initiation that the state holds; the message and the responder's session.
  unfoldable pub respond : Handshake → InitReceived → Bytes → Handshake × Result (Bytes × Session)
  respond h s ephemeral_private =
      let (h1, local_index) = inc_index h in
      let p = h1.params in
      let ephemeral = c.public_key ephemeral_private in
      let d =
        derive c s.hash s.chaining_key ephemeral
          (c.diffie_hellman ephemeral_private s.peer_ephemeral_public)
          (c.diffie_hellman ephemeral_private p.peer_static_public) p.preshared_key in
      let msg =
        to_le_bytes 4 handshake_resp_type
        ++ (to_le_bytes 4 local_index
            ++ (to_le_bytes 4 s.peer_index
                ++ (ephemeral ++ aead_chacha20_seal c d.key 0 [] d.hash))) in
      let (h2, macs) = append_mac1_and_mac2 c h1 local_index msg in
      (h2, ok (msg ++ macs, Session.new local_index s.peer_index d.temp2 d.temp3))

  respond_from : Handshake → HandshakeState → Bytes → Option (Handshake × Result (Bytes × Session))
  respond_from h (init_received s) ephemeral_private =
      some (respond (record h { state = idle }) s ephemeral_private)
  respond_from h _ ephemeral_private = none

  unfoldable pub format_handshake_response :
      Handshake → ℕ → Bytes → Option (Handshake × Result (Bytes × Session))
  unfolding respond_from
  format_handshake_response h dst_len ephemeral_private =
      if ltb dst_len handshake_resp_sz
      then some (h, err destination_buffer_too_small)
      else respond_from h h.state ephemeral_private

  -- The initiation past its timestamp: it replaces the state, and is answered.
  unfoldable pub receive_timestamp :
      Handshake
      → HandshakeInit
      → Bytes
      → Bytes
      → Bytes
      → ℕ
      → Bytes
      → Option (Handshake × Result (Bytes × Session))
  receive_timestamp h packet hash chaining_key buf dst_len ephemeral_private =
      let timestamp = tai64n_parse buf in
      if not (after timestamp h.last_handshake_timestamp)
      then some (h, err wrong_tai64n_timestamp)
      else format_handshake_response
          (record h {
            last_handshake_timestamp = timestamp;
            previous = h.state;
            state = init_received (record {
              hash = b2s_hash c hash packet.encrypted_timestamp;
              chaining_key = chaining_key;
              peer_ephemeral_public = packet.unencrypted_ephemeral;
              peer_index = packet.sender_idx;
            });
          })
          dst_len ephemeral_private

  -- The initiation past its static key, which must be the peer's.
  unfoldable pub receive_static :
      Handshake → HandshakeInit → Bytes → ℕ → Bytes → Option (Handshake × Result (Bytes × Session))
  receive_static h packet peer_static dst_len ephemeral_private =
      let p = h.params in
      let ephemeral = packet.unencrypted_ephemeral in
      let shared = c.diffie_hellman p.static_private ephemeral in
      let ck = mix_chaining_key c (mix_chaining_key c initial_chain_key ephemeral) shared in
      let hash = b2s_hash c (initial_hash c p.static_public ephemeral) packet.encrypted_static in
      if not (bytes_eq p.peer_static_public peer_static)
      then some (h, err wrong_key)
      else elim (aead_chacha20_open c (mix_key c ck p.static_shared) 0 packet.encrypted_timestamp
          hash) [
            | err e ↦ some (h, err e)
            | ok buf ↦
                receive_timestamp h packet hash (mix_chaining_key c ck p.static_shared) buf dst_len
                  ephemeral_private
          ]

  unfoldable pub receive_handshake_initialization :
      Handshake → HandshakeInit → ℕ → Bytes → Option (Handshake × Result (Bytes × Session))
  receive_handshake_initialization h packet dst_len ephemeral_private =
      elim (open_static c h.params.static_private h.params.static_public packet) [
        | err e ↦ some (h, err e)
        | ok peer_static ↦ receive_static h packet peer_static dst_len ephemeral_private
      ]

-- The state that a response answers, and whether it is the previous one.
abbrev sent_with : HandshakeState → ℕ → Option HandshakeInitSentState
sent_with (init_sent s) idx = if s.local_index == idx then some s else none
sent_with _ idx = none

unfoldable pub awaiting : Handshake → ℕ → Option (HandshakeInitSentState × Bool)
awaiting h idx = elim (sent_with h.state idx) [
  | some s ↦ some (s, false)
  | none ↦ elim (sent_with h.previous idx) [ some s ↦ some (s, true) | none ↦ none ]
]

module _ (c : Crypto) where
  unfoldable pub complete :
      Handshake → HandshakeResponse → HandshakeInitSentState → Bool → ℕ → Handshake × Result Session
  complete h packet s is_previous now =
      let p = h.params in
      let ephemeral = packet.unencrypted_ephemeral in
      let d =
        derive c s.hash s.chaining_key ephemeral (c.diffie_hellman s.ephemeral_private ephemeral)
          (c.diffie_hellman p.static_private ephemeral) p.preshared_key in
      let h1 = record h { last_rtt = some ((now - s.time_sent) / 1_000_000 % 2 ^ 32) } in
      elim (aead_chacha20_open c d.key 0 packet.encrypted_nothing d.hash) [
        | err e ↦ (h, err e)
        | ok _ ↦ (
          if is_previous then record h1 { previous = idle } else record h1 { state = idle },
          ok (Session.new s.local_index packet.sender_idx d.temp3 d.temp2),
        )
      ]

  unfoldable pub receive_handshake_response :
      Handshake → HandshakeResponse → ℕ → Handshake × Result Session
  receive_handshake_response h packet now = elim (awaiting h packet.receiver_idx) [
    | none ↦ (h, err unexpected_packet)
    | some (s, is_previous) ↦ complete h packet s is_previous now
  ]

  -- The decrypted cookie must be 16 bytes.
  unfoldable pub store_cookie : Handshake → Bytes → Handshake × Result (Unit {0})
  store_cookie h plaintext =
      if length plaintext == 16
      then (record h { cookies = record (h.cookies) { write_cookie = some plaintext } }, ok tt)
      else (h, err invalid_packet)

  unfoldable pub receive_cookie_reply :
      Handshake → PacketCookieReply → Handshake × Result (Unit {0})
  unfolding store_cookie
  receive_cookie_reply h packet = elim h.cookies.last_mac1 [
    | none ↦ (h, err unexpected_packet)
    | some mac1 ↦
        if not (packet.receiver_idx == h.cookies.index)
        then (h, err wrong_index)
        else elim (c.x_open (b2s_hash c label_cookie h.params.peer_static_public) packet.nonce mac1
            packet.encrypted_cookie) [
              | none ↦ (h, err invalid_aead_tag)
              | some plaintext ↦ store_cookie h plaintext
            ]
  ]
