-- ===== src/Noise/Handshake/Agreement.antt =====
-- noise/handshake.rs, both ends together: a handshake over a network that delivers its two messages
-- gives the ends sessions of the same keys.
use veil_vpn.Prelude.{
  ℕ, ◌≤◌, [], ◌<◌, ◌^◌, ◌≡◌, refl, ap, ◌∙◌, true, false, Option, none, some, arith,
}
use veil_vpn.Prelude.Bytes.{Bytes}
use veil_vpn.Noise.Errors.{Result, ok, err}
use veil_vpn.Noise.Crypto.{Crypto, CryptoLaws, aead_chacha20_seal}
use veil_vpn.Noise.Packet.{
  Packet, HandshakeResponse, handshake_init, handshake_response, parse_incoming_packet,
  handshake_init_sz, handshake_resp_sz,
}
use veil_vpn.Noise.Session
use veil_vpn.Noise.Session.{Session}
use veil_vpn.Noise.Handshake.State.{
  Handshake, HandshakeInitSentState, InitReceived, stamp, tai64n_parse, after, append_mac1_and_mac2,
}
use veil_vpn.Noise.Handshake.Chain.{Derived}
use veil_vpn.Noise.Handshake.Initiation.{Inputs, seal_initiation, format_handshake_initiation}
use veil_vpn.Noise.Handshake.Response.{
  receive_handshake_initialization, receive_handshake_response, awaiting,
}
use veil_vpn.Noise.Handshake.Opening.{
  IsEnd, received_state, receiver_after, receive-seal_initiation, responder_derives,
  complete-respond,
}
use veil_vpn.Noise.Handshake.Messages.{
  next_of, next_of-lt, sent_state, waiting, waiting_with_macs, init_datagram, format-layout,
  parse-init, answer, nothing, response_datagram, respond-layout, parse-response,
}

-- The sessions of the two ends: what one sends under, the other receives under.
pub record Agrees (a b : Session) : Type 0 where
  pub to_peer : a.sender ≡ b.receiver
  pub from_peer : b.sender ≡ a.receiver
  pub peer_index : a.sending_index ≡ b.receiving_index
  pub own_index : b.sending_index ≡ a.receiving_index

module _ (c : Crypto) where
  -- The initiator takes the response.
  abbrev finish : Handshake → Session → ℕ → Result Packet → Option (Session × Session)
  finish h b now (ok (handshake_response q)) = elim (receive_handshake_response c h q now).1 [
    | ok a ↦ some (a, b)
    | err _ ↦ none
  ]
  finish h b now _ = none

  abbrev finish_with :
      Handshake → ℕ → Option (Handshake × Result (Bytes × Session)) → Option (Session × Session)
  finish_with h now (some (_, ok (datagram, b))) = finish h b now (parse_incoming_packet datagram)
  finish_with h now _ = none

  -- The responder takes the initiation.
  abbrev deliver :
      Handshake → Handshake → ℕ → Bytes → ℕ → Result Packet → Option (Session × Session)
  deliver h r m ephemeral now (ok (handshake_init p)) =
      finish_with h now (receive_handshake_initialization c r p m ephemeral)
  deliver h r m ephemeral now _ = none

  abbrev initiated :
      Handshake → ℕ → Bytes → ℕ → Handshake × Result Bytes → Option (Session × Session)
  initiated r m ephemeral now (h, ok datagram) =
      deliver h r m ephemeral now (parse_incoming_packet datagram)
  initiated r m ephemeral now _ = none

  -- A handshake of the initiator `h` and the responder `r`, in buffers of n and m bytes, over a
  -- network that delivers both messages; the sessions of the two.
  unfoldable pub exchange :
      Handshake → Handshake → Inputs → Bytes → ℕ → ℕ → ℕ → Option (Session × Session)
  exchange h r i ephemeral n m now =
      initiated r m ephemeral now (format_handshake_initiation c h i n)

module _ (c : Crypto) (laws : CryptoLaws c) (h r : Handshake) (own peer : Bytes)
    (initiator : IsEnd c h.params own peer) (responder : IsEnd c r.params peer own) (i : Inputs)
    (ephemeral : Bytes) where
  idx : ℕ
  idx = next_of h

  state : InitReceived
  state = received_state c h.params i idx

  r1 : Handshake
  r1 = receiver_after r i

  session_b : Session
  session_b =
      let d = answer c laws r1 state ephemeral in Session.new (next_of r1) idx d.temp2 d.temp3

  session_a : Session
  session_a =
      let d = answer c laws r1 state ephemeral in Session.new idx (next_of r1) d.temp3 d.temp2

  sessions-Agrees : Agrees session_a session_b
  unfolding session_a session_b Session.new
  sessions-Agrees = record { to_peer = refl; from_peer = refl; peer_index = refl; own_index = refl }

  h1 : Handshake
  h1 = (waiting_with_macs c laws h own peer initiator i).0

  sent : HandshakeInitSentState
  sent = sent_state c laws h own peer initiator i

  h1-IsEnd : IsEnd c h1.params own peer
  unfolding h1 waiting_with_macs waiting append_mac1_and_mac2
  h1-IsEnd = initiator

  h1-awaiting : awaiting h1 idx ≡ some (sent, false)
  unfolding h1 idx sent sent_state waiting_with_macs waiting append_mac1_and_mac2 awaiting
  h1-awaiting = ground arith

  derived : Derived
  derived =
      responder_derives c laws own peer i.ephemeral_private ephemeral
        (seal_initiation c h.params i).hash (seal_initiation c h.params i).chaining_key
        r.params.preshared_key

  derived_eq : answer c laws r1 state ephemeral ≡ derived
  unfolding derived responder_derives answer r1 receiver_after state received_state
  derived_eq = rw (responder.peer_eq)

  response : Derived → HandshakeResponse
  response d = record {
    sender_idx = next_of r1;
    receiver_idx = idx;
    unencrypted_ephemeral = c.public_key ephemeral;
    encrypted_nothing = aead_chacha20_seal c d.key 0 [] d.hash;
  }

  finish-response :
      (now : ℕ)
      → h.params.preshared_key ≡ r.params.preshared_key
      → (receive_handshake_response c h1 (response derived) now).1
        ≡ ok (Session.new idx (next_of r1) derived.temp3 derived.temp2)
  unfolding receive_handshake_response response sent sent_state idx h1 waiting_with_macs
      append_mac1_and_mac2 waiting derived state
  finish-response now psk =
      rw (h1-awaiting, receive_handshake_response)
        (complete-respond c laws own peer i.ephemeral_private ephemeral
          (seal_initiation c h.params i).hash (seal_initiation c h.params i).chaining_key
          r.params.preshared_key h1 sent (next_of r1) idx false now initiator psk refl refl refl)

  finish_eq :
      (now : ℕ)
      → r.next_index < 2 ^ 32
      → h.next_index < 2 ^ 32
      → h.params.preshared_key ≡ r.params.preshared_key
      → finish c h1 session_b now
          (parse_incoming_packet (response_datagram c laws r1 state ephemeral))
        ≡ some (session_a, session_b)
  unfolding nothing response r1 receiver_after state received_state idx session_a Session.new
  finish_eq now own_idx peer_idx psk =
      let parsed = parse-response c laws r1 state ephemeral own_idx (next_of-lt h peer_idx) in
      let finished : (receive_handshake_response c h1
            (record {
              sender_idx = next_of r1;
              receiver_idx = idx;
              unencrypted_ephemeral = c.public_key ephemeral;
              encrypted_nothing = nothing c laws r1 state ephemeral;
            })
            now).1
          ≡ ok session_a =
        rw derived_eq (finish-response now psk) in
      rw (parsed, finish) (rw (finished) refl)

  -- Agreement: when the two ends hold each other's public keys and the same preshared key, the
  -- initiation's timestamp is later than the last one the responder took, both buffers hold the
  -- messages and both next indices are 32-bit, the handshake completes, and each end sends under
  -- the key and the index under which the other receives.
  pub exchange-Agrees :
      (n m now : ℕ)
      → h.params.preshared_key ≡ r.params.preshared_key
      → after (tai64n_parse (stamp i.stamp_secs i.stamp_nanos)) r.last_handshake_timestamp ≡ true
      → handshake_init_sz ≤ n
      → handshake_resp_sz ≤ m
      → h.next_index < 2 ^ 32
      → r.next_index < 2 ^ 32
      → (a b : Session) × (exchange c h r i ephemeral n m now ≡ some (a, b)) × Agrees a b
  exchange-Agrees n m now psk later n_ok m_ok h_idx r_idx =
      (session_a, session_b, completes, sessions-Agrees)
    where
      layout :
          format_handshake_initiation c h i n
          ≡ (h1, ok (init_datagram c laws h own peer initiator i))
      layout = unfold h1 in format-layout c laws h own peer initiator i n n_ok

      completes : exchange c h r i ephemeral n m now ≡ some (session_a, session_b)
      completes =
          unfold exchange idx state received_state r1 session_b in
          ap (initiated c r m ephemeral now) layout
          ∙ rw
              (
                parse-init c laws h own peer initiator i h_idx,
                deliver,
                receive-seal_initiation c laws h.params r own peer i (next_of h) initiator responder
                    m ephemeral later m_ok,
                finish_with,
                respond-layout c laws r1 state ephemeral,
              )
              (finish_eq now r_idx h_idx psk)
