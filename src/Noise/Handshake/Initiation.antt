-- ===== src/Noise/Handshake/Initiation.antt =====
-- noise/handshake.rs: the first message, `format_handshake_initiation`, and what reads its static
-- key, `parse_handshake_anon` and the first half of `receive_handshake_initialization`.
use veil_vpn.Prelude.{ℕ, ltb, if◌then◌else◌, ◌++◌}
use veil_vpn.Prelude.Bytes.{Bytes, to_le_bytes}
use veil_vpn.Noise.Errors.{Result, ok, err, destination_buffer_too_small}
use veil_vpn.Noise.Crypto.{Crypto, b2s_hash, aead_chacha20_seal, aead_chacha20_open}
use veil_vpn.Noise.Packet.{HandshakeInit, handshake_init_type, handshake_init_sz}
use veil_vpn.Noise.Handshake.State.{
  NoiseParams, Handshake, init_sent, append_mac1_and_mac2, inc_index, stamp,
}
use veil_vpn.Noise.Handshake.Chain.{initial_chain_key, initial_hash, mix_chaining_key, mix_key}

pub record HalfHandshake : Type 0 where
  pub peer_index : ℕ
  pub peer_static_public : Bytes

-- What the caller's randomness and clocks give to one handshake message.
pub record Inputs : Type 0 where
  pub ephemeral_private : Bytes
  pub stamp_secs : ℕ
  pub stamp_nanos : ℕ
  pub now : ℕ

-- The sealed fields of the initiation, and what its sender keeps to read the response.
pub record Initiation : Type 0 where
  pub encrypted_static : Bytes
  pub encrypted_timestamp : Bytes
  pub hash : Bytes
  pub chaining_key : Bytes

module _ (c : Crypto) where
  unfoldable pub seal_initiation : NoiseParams → Inputs → Initiation
  seal_initiation p i =
      let ephemeral = c.public_key i.ephemeral_private in
      let hash = initial_hash c p.peer_static_public ephemeral in
      let ck = mix_chaining_key c initial_chain_key ephemeral in
      let shared = c.diffie_hellman i.ephemeral_private p.peer_static_public in
      let sealed_static = aead_chacha20_seal c (mix_key c ck shared) 0 p.static_public hash in
      let ck_es = mix_chaining_key c ck shared in
      let hash_s = b2s_hash c hash sealed_static in
      let sealed_stamp =
        aead_chacha20_seal c (mix_key c ck_es p.static_shared) 0 (stamp i.stamp_secs i.stamp_nanos)
          hash_s in
      record {
        encrypted_static = sealed_static;
        encrypted_timestamp = sealed_stamp;
        hash = b2s_hash c hash_s sealed_stamp;
        chaining_key = mix_chaining_key c ck_es p.static_shared;
      }

  -- The message without its MACs.
  unfoldable pub initiation_message : ℕ → Bytes → Initiation → Bytes
  initiation_message local_index ephemeral m =
      to_le_bytes 4 handshake_init_type
      ++ (to_le_bytes 4 local_index ++ (ephemeral ++ (m.encrypted_static ++ m.encrypted_timestamp)))

  unfoldable pub format_handshake_initiation : Handshake → Inputs → ℕ → Handshake × Result Bytes
  unfolding initiation_message
  format_handshake_initiation h i dst_len =
      if ltb dst_len handshake_init_sz
      then (h, err destination_buffer_too_small)
      else (let (h1, local_index) = inc_index h in
          let m = seal_initiation h1.params i in
          let msg = initiation_message local_index (c.public_key i.ephemeral_private) m in
          let h2 = record h1 {
            previous = h1.state;
            state = init_sent (record {
              local_index = local_index;
              hash = m.hash;
              chaining_key = m.chaining_key;
              ephemeral_private = i.ephemeral_private;
              time_sent = i.now;
            });
          } in
          let (h3, macs) = append_mac1_and_mac2 c h2 local_index msg in (h3, ok (msg ++ macs)))

  -- The static key of the initiator, as the responder opens it.
  unfoldable pub open_static : Bytes → Bytes → HandshakeInit → Result Bytes
  open_static static_private static_public packet =
      let ephemeral = packet.unencrypted_ephemeral in
      let hash = initial_hash c static_public ephemeral in
      let ck = mix_chaining_key c initial_chain_key ephemeral in
      let shared = c.diffie_hellman static_private ephemeral in
      aead_chacha20_open c (mix_key c ck shared) 0 packet.encrypted_static hash

  unfoldable pub parse_handshake_anon : Bytes → Bytes → HandshakeInit → Result HalfHandshake
  unfolding open_static
  parse_handshake_anon static_private static_public packet =
      elim (open_static static_private static_public packet) [
        | err e ↦ err e
        | ok peer ↦ ok (record { peer_index = packet.sender_idx; peer_static_public = peer })
      ]
