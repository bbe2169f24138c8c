-- ===== src/Noise/Tunn/Authentic/Delivery.antt =====
-- noise/mod.rs: `decapsulate` gives the interface only what a session of the tunnel opened.
use mathlib.Core.Path.{subst}
use veil_vpn.Prelude.{
  ℕ, ◌≤◌, ◌≡◌, refl, ap, ◌⊎◌, inl, inr, Option, none, some, arith, length, take, ltb, ◌==◌,
  Bool-cases, Option-cases, length-take,
}
use veil_vpn.Prelude.Bytes.{Bytes}
use veil_vpn.Noise.Errors.{Result, ok, err}
use veil_vpn.Noise.Crypto.{Crypto}
use veil_vpn.Noise.Packet.{
  IpAddr, Packet, PacketData, handshake_init, handshake_response, packet_cookie_reply, packet_data,
  parse_incoming_packet, cookie_reply_sz,
}
use veil_vpn.Noise.Session.{Session, receive_packet_data}
use veil_vpn.Noise.Session.Replay.{Accepted, receive-ok}
use veil_vpn.Noise.Handshake.Initiation.{Inputs}
use veil_vpn.Noise.Handshake.Response.{
  receive_handshake_initialization, receive_handshake_response, receive_cookie_reply,
}
use veil_vpn.Noise.RateLimiter.{
  RateLimiter, Verdict, verified, refused, verify_packet, verify_parsed, verify_handshake,
  TunnResult, done, failed, write_to_network, write_to_tunnel_v4, write_to_tunnel_v6,
}
use veil_vpn.Noise.RateLimiter.Load.{verify-mac1}
use veil_vpn.Noise.Tunn.{Tunn, session_at}
use veil_vpn.Noise.Tunn.Receive.{
  handle_handshake_init, handle_handshake_response, handle_cookie_reply, opened, handle_data,
  handle_verified_packet, judged, decapsulate,
}
use veil_vpn.Noise.Tunn.Authentic.{
  Sound, Opened, send_queued-Sound, answered-Sound, established-Sound, took_cookie-Sound,
  validate-Sound,
}

Sound-map :
    (P Q : Bytes → Type 0)
    → ((b : Bytes) → P b → Q b)
    → (o : Option (Tunn × TunnResult)) → Sound P o
    → Sound Q o
Sound-map P Q f none k = tt
Sound-map P Q f (some (t, write_to_tunnel_v4 b a)) k = f b k
Sound-map P Q f (some (t, write_to_tunnel_v6 b a)) k = f b k
Sound-map P Q f (some (t, done)) k = tt
Sound-map P Q f (some (t, failed e)) k = tt
Sound-map P Q f (some (t, write_to_network b)) k = tt

module _ (c : Crypto) where
  Accepted-Opened :
      (t : Tunn) (p : PacketData) (s s' : Session) (m : Bytes)
      → session_at t.sessions p.receiver_idx ≡ some s
      → Accepted c s p s' m
      → (k : ℕ) → k ≤ length m
      → Opened c t.sessions p (take k m)
  Accepted-Opened t p s s' m e a k b = record {
    session = s;
    in_slot = e;
    own_index = a.index;
    plaintext = m;
    authentic = a.opened;
    prefix = ap (λ j. take j m) (omega (arith, length-take k m));
    within = omega (arith, length-take k m);
  }

  handle_data-Sound :
      (t : Tunn) (p : PacketData) (n : ℕ) → Sound (Opened c t.sessions p) (handle_data c t p n)
  unfolding handle_data opened
  handle_data-Sound t p n = elim (Option-cases (session_at t.sessions p.receiver_idx)) [
    | inl e ↦ rw (e, handle_data) tt
    | inr (s, e) ↦ elim (Option-cases (receive_packet_data c s p n)) [
      | inl f ↦ rw (e, handle_data, f) tt
      | inr ((s', err x), f) ↦ rw (e, handle_data, f) tt
      | inr ((s', ok m), f) ↦
          rw (e, handle_data, f)
            (validate-Sound c (Opened c t.sessions p) _ m
              (Accepted-Opened t p s s' m e (receive-ok c s s' p n m f)))
    ]
  ]

  module _ (P : Bytes → Type 0) where
    handle_verified-Sound :
        (t : Tunn) (q : Packet) (i : Inputs) (n : ℕ)
        → ((p : PacketData) → q ≡ packet_data p → Sound P (handle_data c t p n))
        → Sound P (handle_verified_packet c t q i n)
    unfolding handle_verified_packet handle_handshake_init handle_handshake_response
        handle_cookie_reply
    handle_verified-Sound t (handshake_init p) i n data_sound =
        elim (Option-cases
          (receive_handshake_initialization c t.handshake p n i.ephemeral_private)) [
            | inl e ↦ rw e tt
            | inr (a, e) ↦ rw e (answered-Sound c P t a)
          ]
    handle_verified-Sound t (handshake_response p) i n data_sound =
        established-Sound c P t n (receive_handshake_response c t.handshake p i.now)
    handle_verified-Sound t (packet_cookie_reply p) i n data_sound =
        took_cookie-Sound c P t (receive_cookie_reply c t.handshake p)
    handle_verified-Sound t (packet_data p) i n data_sound = data_sound p refl

    judged-Sound :
        (t : Tunn) (i : Inputs) (n : ℕ) (a : RateLimiter × Verdict)
        → ((p : PacketData)
            → a.1 ≡ verified (packet_data p)
            → Sound P (handle_data c (record t { rate_limiter = a.0 }) p n))
        → Sound P (judged c t i n a)
    unfolding judged
    judged-Sound t i n (r, verified q) data_sound =
        handle_verified-Sound (record t { rate_limiter = r }) q i n
          (λ p e. data_sound p (ap verified e))
    judged-Sound t i n (r, refused (write_to_network cookie)) data_sound =
        elim (Bool-cases (ltb n (length cookie))) [ inl e ↦ rw e tt | inr e ↦ rw e tt ]
    judged-Sound t i n (r, refused (failed e)) data_sound = tt
    judged-Sound t i n (r, refused done) data_sound = tt
    judged-Sound t i n (r, refused (write_to_tunnel_v4 p a)) data_sound = tt
    judged-Sound t i n (r, refused (write_to_tunnel_v6 p a)) data_sound = tt

  verified-parsed :
      (r : RateLimiter) (src_addr : Option IpAddr) (src : Bytes) (a : Result Packet) (n now : ℕ)
      (p : PacketData)
      → (verify_parsed c r src_addr src a n now).1 ≡ verified (packet_data p)
      → a ≡ ok (packet_data p)
  unfolding verify_parsed
  verified-parsed r src_addr src (ok (handshake_init q)) n now p e =
      let v = verify_handshake c r src_addr src (handshake_init q) q.sender_idx n now in
      let same : packet_data p ≡ handshake_init q =
        (verify-mac1 c r v.0 src_addr src (handshake_init q) (packet_data p) q.sender_idx n now
          (ap (λ x. (v.0, x)) e)).1 in
      absurd (ground (arith, same))
  verified-parsed r src_addr src (ok (handshake_response q)) n now p e =
      let v = verify_handshake c r src_addr src (handshake_response q) q.sender_idx n now in
      let same : packet_data p ≡ handshake_response q =
        (verify-mac1 c r v.0 src_addr src (handshake_response q) (packet_data p) q.sender_idx n now
          (ap (λ x. (v.0, x)) e)).1 in
      absurd (ground (arith, same))
  verified-parsed r src_addr src (ok (packet_cookie_reply q)) n now p e = ground arith
  verified-parsed r src_addr src (ok (packet_data q)) n now p e = ground arith
  verified-parsed r src_addr src (err x) n now p e = ground arith

  -- Authenticity: every packet that a datagram brings to the interface, by whatever branch, is a
  -- part of a plaintext that the authenticated cipher opened, under the receiving key of the
  -- session that the datagram names and the tunnel holds. The datagram parses as a data packet.
  pub decapsulate-authentic :
      (t : Tunn) (src_addr : Option IpAddr) (datagram : Bytes) (i : Inputs) (n : ℕ) (t' : Tunn)
      (packet a : Bytes)
      → (decapsulate c t src_addr datagram i n ≡ some (t', write_to_tunnel_v4 packet a))
        ⊎ (decapsulate c t src_addr datagram i n ≡ some (t', write_to_tunnel_v6 packet a))
      → (p : PacketData) × (parse_incoming_packet datagram ≡ ok (packet_data p))
        × Opened c t.sessions p packet
  decapsulate-authentic t src_addr datagram i n t' packet a h = elim h [
    | inl e ↦ subst (Sound P) e sound
    | inr e ↦ subst (Sound P) e sound
  ]
    where
      P : Bytes → Type 0
      P b =
          (p : PacketData) × (parse_incoming_packet datagram ≡ ok (packet_data p))
          × Opened c t.sessions p b

      sound : Sound P (decapsulate c t src_addr datagram i n)
      sound =
          unfold decapsulate verify_packet verify_parsed in
          elim (Bool-cases (length datagram == 0)) [
            | inl e ↦ rw e (send_queued-Sound c P t i n)
            | inr e ↦ rw e (
                judged-Sound P t i n _ (λ p v.
                  Sound-map (Opened c t.sessions p) P
                    (λ b o. (
                      p,
                      verified-parsed t.rate_limiter src_addr datagram _ cookie_reply_sz i.now p v,
                      o,
                    ))
                    _ (handle_data-Sound _ p n)))
          ]
