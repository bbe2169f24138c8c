-- ===== src/Noise/Tunn/Authentic.antt =====
-- noise/mod.rs: which results of a tunnel's operations carry a packet for its interface.
pub mod Delivery
use veil_vpn.Prelude.{
  ℕ, ◌%◌, ◌≤◌, ◌≡◌, refl, sym, ap, ◌∙◌, ◌⊎◌, inl, inr, Bool, true, false, ◌&&◌, Option, none, some,
  List, [], arith, length, take, ltb, ◌==◌, ◌>>=◌, Bool-cases, Option-cases, if◌then◌else◌, not,
}
use veil_vpn.Prelude.Bytes.{Bytes}
use veil_vpn.Noise.Errors.{Result, ok, err}
use veil_vpn.Noise.Crypto.{Crypto, nonce_of}
use veil_vpn.Noise.Packet.{
  IpAddr, v4, v6, Packet, PacketData, handshake_init, handshake_response, packet_cookie_reply,
  packet_data, parse_incoming_packet, len_and_source, cookie_reply_sz,
}
use veil_vpn.Noise.Session.{Session, format_packet_data, receive_packet_data}
use veil_vpn.Noise.Session.Replay.{Accepted, receive-ok}
use veil_vpn.Noise.Handshake.State.{Handshake, is_expired, is_in_progress}
use veil_vpn.Noise.Handshake.Initiation as Initiation
use veil_vpn.Noise.Handshake.Initiation.{Inputs}
use veil_vpn.Noise.Handshake.Response.{
  receive_handshake_initialization, receive_handshake_response, receive_cookie_reply,
}
use veil_vpn.Noise.RateLimiter.{
  RateLimiter, Verdict, verified, refused, verify_packet, verify_parsed, verify_handshake,
  verify_mac2, send_cookie, TunnResult, done, failed, write_to_network, write_to_tunnel_v4,
  write_to_tunnel_v6,
}
use veil_vpn.Noise.Timers
use veil_vpn.Noise.Tunn.{Tunn, session_at, queue_packet, dequeue_packet}
use veil_vpn.Noise.Tunn.Send.{
  initiated, format_handshake_initiation, encapsulate_with, encapsulate, requeue_failed,
  send_queued_packet,
}
use veil_vpn.Noise.Tunn.Receive.{
  deliver, validate_decapsulated_packet, answered, handle_handshake_init, established,
  handle_handshake_response, took_cookie, handle_cookie_reply, opened, handle_data,
  handle_verified_packet, judged, decapsulate,
}

-- What a packet for the interface meets; no other result has a condition.
abbrev pub ToTunnel : (Bytes → Type 0) → TunnResult → Type 0
ToTunnel P (write_to_tunnel_v4 packet a) = P packet
ToTunnel P (write_to_tunnel_v6 packet a) = P packet
ToTunnel P done = Unit
ToTunnel P (failed e) = Unit
ToTunnel P (write_to_network b) = Unit

abbrev pub Sound : (Bytes → Type 0) → Option (Tunn × TunnResult) → Type 0
Sound P none = Unit
Sound P (some (t, r)) = ToTunnel P r

-- The packet is a part of what a session of the tunnel opened.
pub record Opened (c : Crypto) (sessions : List (Option Session)) (p : PacketData) (packet : Bytes)
    : Type 0 where
  pub session : Session
  pub in_slot : session_at sessions p.receiver_idx ≡ some session
  pub own_index : p.receiver_idx ≡ session.receiving_index
  pub plaintext : Bytes
  pub authentic :
      c.open_sealed session.receiver (nonce_of p.counter) [] p.encrypted_encapsulated_packet
      ≡ some plaintext
  pub prefix : packet ≡ take (length packet) plaintext
  pub within : length packet ≤ length plaintext

module _ (c : Crypto) (P : Bytes → Type 0) where
  initiated-Sound :
      (t : Tunn) (b : Bool) (a : Handshake × Result Bytes) → ToTunnel P (initiated c t b a).1
  unfolding initiated
  initiated-Sound t b (h, ok packet) = tt
  initiated-Sound t b (h, err e) = tt

  format-Sound :
      (t : Tunn) (i : Inputs) (n : ℕ) (b : Bool)
      → ToTunnel P (format_handshake_initiation c t i n b).1
  unfolding format_handshake_initiation
  format-Sound t i n b =
      let t1 =
        if is_expired t.handshake then record t { timers = Timers.clear t.timers i.now } else t in
      elim (Bool-cases (is_in_progress t.handshake && not b)) [
        | inl e ↦ rw e tt
        | inr e ↦ rw e (
            initiated-Sound t1 (not (is_in_progress t1.handshake))
              (Initiation.format_handshake_initiation c t1.handshake i n))
      ]

  encapsulate_with-Sound :
      (t : Tunn) (s : Session) (src : Bytes) (n : ℕ) → Sound P (encapsulate_with c t s src n)
  unfolding encapsulate_with
  encapsulate_with-Sound t s src n = elim (Option-cases (format_packet_data c s src n)) [
    | inl e ↦ rw (e, encapsulate_with) tt
    | inr (a, e) ↦ rw (e, encapsulate_with) tt
  ]

  encapsulate-Sound :
      (t : Tunn) (src : Bytes) (i : Inputs) (n : ℕ) → Sound P (encapsulate c t src i n)
  unfolding encapsulate
  encapsulate-Sound t src i n = elim (Option-cases (session_at t.sessions t.current)) [
    | inl e ↦ rw (e, encapsulate) (format-Sound (queue_packet t src) i n false)
    | inr (s, e) ↦ rw (e, encapsulate) (encapsulate_with-Sound t s src n)
  ]

  requeue-Sound :
      (packet : Bytes) (o : Option (Tunn × TunnResult))
      → Sound P o
      → Sound P (requeue_failed c packet o)
  unfolding requeue_failed
  requeue-Sound packet none k = tt
  requeue-Sound packet (some (t, failed e)) k = tt
  requeue-Sound packet (some (t, done)) k = k
  requeue-Sound packet (some (t, write_to_network b)) k = k
  requeue-Sound packet (some (t, write_to_tunnel_v4 b a)) k = k
  requeue-Sound packet (some (t, write_to_tunnel_v6 b a)) k = k

  pub send_queued-Sound : (t : Tunn) (i : Inputs) (n : ℕ) → Sound P (send_queued_packet c t i n)
  unfolding send_queued_packet
  send_queued-Sound t i n = elim (Option-cases (dequeue_packet t)) [
    | inl e ↦ rw (e, send_queued_packet) tt
    | inr ((packet, u), e) ↦
        rw (e, send_queued_packet)
          (requeue-Sound packet (encapsulate c u packet i n) (encapsulate-Sound u packet i n))
  ]

  pub answered-Sound :
      (t : Tunn) (a : Handshake × Result (Bytes × Session)) → ToTunnel P (answered c t a).1
  unfolding answered
  answered-Sound t (h, err e) = tt
  answered-Sound t (h, ok (packet, s)) = tt

  pub established-Sound :
      (t : Tunn) (n : ℕ) (a : Handshake × Result Session) → Sound P (established c t n a)
  unfolding established
  established-Sound t n (h, err e) = tt
  established-Sound t n (h, ok s) = elim (Option-cases (format_packet_data c s [] n)) [
    | inl f ↦ rw f tt
    | inr (a, f) ↦ rw f tt
  ]

  pub took_cookie-Sound :
      (t : Tunn) (a : Handshake × Result (Unit {0})) → ToTunnel P (took_cookie c t a).1
  unfolding took_cookie
  took_cookie-Sound t (h, err e) = tt
  took_cookie-Sound t (h, ok _) = tt

  pub validate-Sound :
      (t : Tunn) (m : Bytes)
      → ((k : ℕ) → k ≤ length m → P (take k m))
      → ToTunnel P (validate_decapsulated_packet t m).1
  unfolding validate_decapsulated_packet deliver
  validate-Sound t m parts = elim (Bool-cases (length m == 0)) [
    | inl e ↦ rw e tt
    | inr e ↦ elim (Option-cases (len_and_source m)) [
      | inl f ↦ rw (e, f) tt
      | inr ((k, v4 a), f) ↦ elim (Bool-cases (ltb (length m) k)) [
        | inl g ↦ rw (e, f, g) tt
        | inr g ↦ rw (e, f, g) (parts k (ground arith))
      ]
      | inr ((k, v6 a), f) ↦ elim (Bool-cases (ltb (length m) k)) [
        | inl g ↦ rw (e, f, g) tt
        | inr g ↦ rw (e, f, g) (parts k (ground arith))
      ]
    ]
  ]
