-- ===== src/Noise/Handshake/Opening.antt =====
-- The two ends of one handshake derive the same hashes and keys: what one seals the other opens.
use veil_vpn.Prelude.{ℕ, ◌≤◌, ◌≡◌, Bool, ap, ◌∙◌, Option, some, true, false, [], arith, ltb}
use veil_vpn.Prelude.Bytes.{Bytes, bytes_eq_refl}
use veil_vpn.Noise.Errors.{ok}
use veil_vpn.Noise.Crypto.{
  Crypto, CryptoLaws, b2s_hash, aead_chacha20_seal, aead_chacha20_open, nonce_of,
}
use veil_vpn.Noise.Packet.{HandshakeInit, handshake_resp_sz}
use veil_vpn.Noise.Session
use veil_vpn.Noise.Session.{Session}
use veil_vpn.Noise.Handshake.State.{
  NoiseParams, Handshake, HandshakeInitSentState, InitReceived, idle, stamp, tai64n_parse, after,
}
use veil_vpn.Noise.Handshake.Chain.{Derived, derive, initial_hash}
use veil_vpn.Noise.Handshake.Initiation.{Inputs, seal_initiation, open_static}
use veil_vpn.Noise.Handshake.Response.{
  respond, format_handshake_response, receive_timestamp, receive_static,
  receive_handshake_initialization, complete,
}

-- The parameters of one end: its own static key, the peer's public key, and what follows from them.
pub record IsEnd (c : Crypto) (p : NoiseParams) (own peer : Bytes) : Type 0 where
  pub private_eq : p.static_private ≡ own
  pub public_eq : p.static_public ≡ c.public_key own
  pub peer_eq : p.peer_static_public ≡ c.public_key peer
  pub shared_eq : p.static_shared ≡ c.diffie_hellman own (c.public_key peer)

module _ (c : Crypto) (h : NoiseParams) (i : Inputs) (idx : ℕ) where
  -- The initiation as the responder parses it.
  unfoldable pub packet_of : HandshakeInit
  packet_of = record {
    sender_idx = idx;
    unencrypted_ephemeral = c.public_key i.ephemeral_private;
    encrypted_static = (seal_initiation c h i).encrypted_static;
    encrypted_timestamp = (seal_initiation c h i).encrypted_timestamp;
  }

  -- The state in which the responder answers.
  unfoldable pub received_state : InitReceived
  received_state = record {
    hash = (seal_initiation c h i).hash;
    chaining_key = (seal_initiation c h i).chaining_key;
    peer_ephemeral_public = c.public_key i.ephemeral_private;
    peer_index = idx;
  }

-- The responder that has taken the initiation's timestamp.
unfoldable pub receiver_after : Handshake → Inputs → Handshake
receiver_after r i = record r {
  last_handshake_timestamp = tai64n_parse (stamp i.stamp_secs i.stamp_nanos);
  previous = r.state;
  state = idle;
}

module _ (c : Crypto) (laws : CryptoLaws c) where
  pub open-seal_chacha :
      (key : Bytes) (n : ℕ) (msg aad : Bytes)
      → aead_chacha20_open c key n (aead_chacha20_seal c key n msg aad) aad ≡ ok msg
  unfolding aead_chacha20_open aead_chacha20_seal
  open-seal_chacha key n msg aad = rw (laws.open-seal key (nonce_of n) aad msg, aead_chacha20_open)

  module _ (h : NoiseParams) (r : Handshake) (own peer : Bytes) (i : Inputs) (idx : ℕ)
      (initiator : IsEnd c h own peer) (responder : IsEnd c r.params peer own) where
    -- The responder reads the initiator's public key.
    pub open_static-seal :
        open_static c r.params.static_private r.params.static_public (packet_of c h i idx)
        ≡ ok (c.public_key own)
    unfolding open_static seal_initiation packet_of
    open_static-seal =
        rw
          (
            responder.private_eq,
            responder.public_eq,
            initiator.peer_eq,
            initiator.public_eq,
            laws.dh_comm i.ephemeral_private peer,
          )
          (open-seal_chacha _ 0 (c.public_key own) _)

    -- It goes on from the same hash and chaining key, and reads the timestamp.
    pub receive_static-seal :
        (dst_len : ℕ) (ephemeral : Bytes)
        → receive_static c r (packet_of c h i idx) (c.public_key own) dst_len ephemeral
          ≡ receive_timestamp c r
              (packet_of c h i idx)
              (b2s_hash c
                (initial_hash c (c.public_key peer) (c.public_key i.ephemeral_private))
                (seal_initiation c h i).encrypted_static)
              (seal_initiation c h i).chaining_key
              (stamp i.stamp_secs i.stamp_nanos)
              dst_len
              ephemeral
    unfolding receive_static seal_initiation packet_of
    receive_static-seal dst_len ephemeral = simp (
      responder.private_eq,
      responder.public_eq,
      responder.shared_eq,
      responder.peer_eq,
      initiator.shared_eq,
      initiator.peer_eq,
      initiator.public_eq,
      laws.dh_comm i.ephemeral_private peer,
      laws.dh_comm own peer,
      bytes_eq_refl (c.public_key own),
      open-seal_chacha,
    )

    hash-seal_initiation :
        b2s_hash c
          (b2s_hash c
            (initial_hash c (c.public_key peer) (c.public_key i.ephemeral_private))
            (seal_initiation c h i).encrypted_static)
          (seal_initiation c h i).encrypted_timestamp
        ≡ (seal_initiation c h i).hash
    unfolding seal_initiation
    hash-seal_initiation = rw initiator.peer_eq

    receive_timestamp-seal :
        (dst_len : ℕ) (ephemeral : Bytes)
        → after (tai64n_parse (stamp i.stamp_secs i.stamp_nanos)) r.last_handshake_timestamp ≡ true
        → handshake_resp_sz ≤ dst_len
        → receive_timestamp c r
            (packet_of c h i idx)
            (b2s_hash c
              (initial_hash c (c.public_key peer) (c.public_key i.ephemeral_private))
              (seal_initiation c h i).encrypted_static)
            (seal_initiation c h i).chaining_key
            (stamp i.stamp_secs i.stamp_nanos)
            dst_len
            ephemeral
          ≡ some (respond c (receiver_after r i) (received_state c h i idx) ephemeral)
    unfolding receive_timestamp format_handshake_response packet_of received_state receiver_after
    receive_timestamp-seal dst_len ephemeral later room =
        let fits : ltb dst_len handshake_resp_sz ≡ false = ground arith in
        rw (later, fits, hash-seal_initiation)

    -- Together: the responder accepts the initiation and answers it from the initiator's own hash
    -- and chaining key.
    pub receive-seal_initiation :
        (dst_len : ℕ) (ephemeral : Bytes)
        → after (tai64n_parse (stamp i.stamp_secs i.stamp_nanos)) r.last_handshake_timestamp ≡ true
        → handshake_resp_sz ≤ dst_len
        → receive_handshake_initialization c r (packet_of c h i idx) dst_len ephemeral
          ≡ some (respond c (receiver_after r i) (received_state c h i idx) ephemeral)
    unfolding receive_handshake_initialization
    receive-seal_initiation dst_len ephemeral later room =
        rw (open_static-seal, receive_handshake_initialization)
          (receive_static-seal dst_len ephemeral
            ∙ receive_timestamp-seal dst_len ephemeral later room)

  -- What the responder derives, and that the initiator derives the same.
  module _ (own peer e_own e_peer hash ck : Bytes) (psk : Option Bytes) where
    unfoldable pub responder_derives : Derived
    responder_derives =
        derive c hash ck (c.public_key e_peer) (c.diffie_hellman e_peer (c.public_key e_own))
          (c.diffie_hellman e_peer (c.public_key own)) psk

    initiator-responder_derives :
        derive c hash ck
          (c.public_key e_peer)
          (c.diffie_hellman e_own (c.public_key e_peer))
          (c.diffie_hellman own (c.public_key e_peer))
          psk
        ≡ responder_derives
    unfolding responder_derives
    initiator-responder_derives = rw (laws.dh_comm e_own e_peer, laws.dh_comm own e_peer)

    pub complete-respond :
        (h : Handshake) (s : HandshakeInitSentState) (sender_idx receiver_idx : ℕ) (previous : Bool)
        (now : ℕ)
        → IsEnd c h.params own peer
        → h.params.preshared_key ≡ psk
        → s.hash ≡ hash
        → s.chaining_key ≡ ck
        → s.ephemeral_private ≡ e_own
        → (complete c h
            (record {
              sender_idx = sender_idx;
              receiver_idx = receiver_idx;
              unencrypted_ephemeral = c.public_key e_peer;
              encrypted_nothing =
                  aead_chacha20_seal c responder_derives.key 0 [] responder_derives.hash;
            })
            s
            previous
            now).1
          ≡ ok
              (Session.new s.local_index sender_idx responder_derives.temp3 responder_derives.temp2)
    unfolding complete
    complete-respond h s sender_idx receiver_idx previous now end psk_eq hash_eq ck_eq e_eq =
        let derived : derive c s.hash s.chaining_key (c.public_key e_peer)
              (c.diffie_hellman s.ephemeral_private (c.public_key e_peer))
              (c.diffie_hellman h.params.static_private (c.public_key e_peer))
              h.params.preshared_key
            ≡ responder_derives =
          rw (end.private_eq, psk_eq, hash_eq, ck_eq, e_eq) initiator-responder_derives in
        rw (derived, open-seal_chacha, complete)
          (ap (λ d. ok (Session.new s.local_index sender_idx d.temp3 d.temp2)) derived)
