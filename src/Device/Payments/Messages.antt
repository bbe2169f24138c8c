-- ===== src/Device/Payments/Messages.antt =====
-- The messages of a payment are sent: `send_signal` and `accept` have an answer.
use veil_vpn.Prelude.{
  ℕ, ◌+◌, ◌≤◌, ◌≡◌, refl, inl, inr, Option, none, some, List, [], ◌∷◌, arith, length, length-append,
  Option-cases,
}
use veil_vpn.Prelude.Bytes.{Bytes, to_be_bytes, length-to_be_bytes}
use veil_vpn.Noise.Crypto.{Crypto}
use veil_vpn.Noise.Session.{Session, format_packet_data}
use veil_vpn.Noise.Session.Exchange.{format_cases}
use veil_vpn.Noise.Handshake.Initiation.{Inputs}
use veil_vpn.Noise.RateLimiter.{TunnResult, write_to_network}
use veil_vpn.Noise.Tunn.{Tunn, session_at}
use veil_vpn.Noise.Tunn.Send.{encapsulate_with, encapsulate}
use veil_vpn.Payment.Protocol.{build_signal_packet, payment_gateway_ip, framed}
use veil_vpn.Payment.Protocol.Accepted
use veil_vpn.Payment.Protocol.Signal.{build_signal_packet-length}
use veil_vpn.Device.AllowedIps.{NetworkTable}
use veil_vpn.Device.Peer.{Peer, allowed_ips}
use veil_vpn.Device.State.{Device}
use veil_vpn.Device.Payments.{
  sent_by, first_ipv4, send_signal, tell, accept, max_payment_packet_size,
}

module _ (c : Crypto) (net : NetworkTable) where
  -- A buffer with room for the packet and 32 bytes takes the answer of `encapsulate`.
  encapsulate-ne-none :
      (t : Tunn) (src : Bytes) (i : Inputs) (n : ℕ) (slot : Option Session)
      → length src + 32 ≤ n
      → session_at t.sessions t.current ≡ slot
      → encapsulate c t src i n ≡ none
      → ⊥
  unfolding encapsulate
  encapsulate-ne-none t src i n none room e h = ground (arith, e, h)
  encapsulate-ne-none t src i n (some s) room e h = elim (format_cases c s src n) [
    | inl (small, panics) ↦ absurd (omega arith)
    | inr (fits, formats) ↦ ground (arith, e, h, formats)
  ]

  encapsulate-some :
      (t : Tunn) (src : Bytes) (i : Inputs) (n : ℕ)
      → length src + 32 ≤ n
      → (u : Tunn) × (r : TunnResult) × (encapsulate c t src i n ≡ some (u, r))
  encapsulate-some t src i n room = elim (Option-cases (encapsulate c t src i n)) [
    | inl panics ↦
        absurd (encapsulate-ne-none t src i n (session_at t.sessions t.current) room refl panics)
    | inr ((u, r), answers) ↦ (u, r, answers)
  ]

  send_signal-some :
      (p : Peer net) (src dst tlv : Bytes) (i : Inputs)
      → length src ≡ 4
      → length dst ≡ 4
      → length tlv ≤ 400
      → (p' : Peer net) × (out : List Bytes) × (send_signal c net p src dst tlv i ≡ some (p', out))
  unfolding send_signal
  send_signal-some p src dst tlv i four four' small =
      let (packet, built, sized) =
        build_signal_packet-length src dst tlv four four' (omega arith) in
      let (u, r, sent) = encapsulate-some p.tunnel packet i max_payment_packet_size (omega arith) in
      (record p { tunnel = u }, sent_by r, rw (built, sent) refl)

  -- Under a session the answer of `encapsulate` is the datagram that the session formats.
  encapsulate-format :
      (t : Tunn) (src : Bytes) (i : Inputs) (n : ℕ) (a a' : Session) (datagram : Bytes)
      → session_at t.sessions t.current ≡ some a
      → format_packet_data c a src n ≡ some (a', datagram)
      → (u : Tunn) × (encapsulate c t src i n ≡ some (u, write_to_network datagram))
  unfolding encapsulate encapsulate_with
  encapsulate-format t src i n a a' datagram current formats =
      elim (Option-cases (encapsulate c t src i n)) [
        | inl panics ↦ absurd (ground (arith, panics, current, formats))
        | inr ((u, r), answers) ↦ (u, ground (arith, answers, current, formats))
      ]

  -- A message whose packet the session formats is sent as that datagram.
  pub send_signal-format :
      (p : Peer net) (src dst tlv packet : Bytes) (i : Inputs) (a a' : Session) (datagram : Bytes)
      → build_signal_packet src dst tlv ≡ some packet
      → session_at p.tunnel.sessions p.tunnel.current ≡ some a
      → format_packet_data c a packet max_payment_packet_size ≡ some (a', datagram)
      → (p' : Peer net) × (send_signal c net p src dst tlv i ≡ some (p', datagram ∷ []))
  unfolding send_signal sent_by
  send_signal-format p src dst tlv packet i a a' datagram built current formats =
      let (u, sent) =
        encapsulate-format p.tunnel packet i max_payment_packet_size a a' datagram current
          formats in
      (record p { tunnel = u }, rw (built, sent) refl)

  tell-some :
      (p : Peer net) (ip : Option Bytes) (tlv : Bytes) (i : Inputs)
      → ((a : Bytes) → ip ≡ some a → length a ≡ 4)
      → length tlv ≤ 400
      → (p' : Peer net) × (out : List Bytes) × (tell c net p ip tlv i ≡ some (p', out))
  unfolding tell
  tell-some p none tlv i four small = (p, [], refl)
  tell-some p (some a) tlv i four small =
      send_signal-some p payment_gateway_ip a tlv i refl (four a refl) small

  -- An acceptance is sent, or there is nobody to send it to.
  pub accept-some :
      (d : Device net) (p : Peer net) (i : Inputs)
      → ((a : Bytes) → first_ipv4 (allowed_ips net p) ≡ some a → length a ≡ 4)
      → (p' : Peer net) × (out : List Bytes) × (accept c net d p i ≡ some (p', out))
  unfolding accept Accepted.encode framed
  accept-some d p i four = tell-some _ _ _ i four (
      omega (
        arith,
        length-append (to_be_bytes 2 8) (to_be_bytes 8 d.payment_config.quota_bytes),
        length-to_be_bytes 2 8,
        length-to_be_bytes 8 d.payment_config.quota_bytes,
      ))
