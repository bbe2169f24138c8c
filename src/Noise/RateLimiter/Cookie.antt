-- ===== src/Noise/RateLimiter/Cookie.antt =====
-- noise/rate_limiter.rs and noise/handshake.rs together: the cookie that a limiter sends is the one
-- that the handshake stores, and the MACs that the handshake then appends pass the limiter.
use veil_vpn.Prelude.{
  ℕ, ◌-◌, ◌^◌, ◌≤◌, ◌<◌, ◌≡◌, refl, sym, ap, ◌∙◌, true, some, ◌++◌, arith, length, take, drop,
  length-append,
}
use veil_vpn.Prelude.Bytes.{Bytes, to_le_bytes, bytes_eq, bytes_eq_refl, take-append, drop-append}
use veil_vpn.Noise.Errors.{ok}
use veil_vpn.Noise.Crypto.{
  Crypto, CryptoLaws, b2s_hash, b2s_keyed_mac_16, b2s_keyed_mac_16_2, b2s_mac_24,
}
use veil_vpn.Noise.Packet.{
  Packet, PacketCookieReply, packet_cookie_reply, parse_incoming_packet, IpAddr, cookie_reply_sz,
}
use veil_vpn.Noise.Packet.Layout.{cookie_layout, parse-cookie_layout}
use veil_vpn.Noise.Handshake.State.{Handshake, label_cookie, append_mac1_and_mac2}
use veil_vpn.Noise.Handshake.Response.{receive_cookie_reply, store_cookie}
use veil_vpn.Noise.RateLimiter.{
  RateLimiter, verified, nonce, format_cookie_reply, current_cookie, verify_handshake, verify_mac2,
  is_under_load,
}

module _ (c : Crypto) (laws : CryptoLaws c) where
  length-nonce : (r : RateLimiter) → length (nonce c r).1 ≡ 24
  unfolding nonce b2s_mac_24
  length-nonce r = laws.length-blake2s_mac 24 r.nonce_key (to_le_bytes 8 r.nonce_ctr)

  -- A cookie reply is parsed and stored by the handshake whose MAC it answers, when the two agree on
  -- the limiter's public key and on the sender's index, and the buffer holds the reply.
  pub cookie_roundtrip :
      (r : RateLimiter) (h : Handshake) (idx : ℕ) (cookie mac1 : Bytes) (n : ℕ)
      → cookie_reply_sz ≤ n
      → idx < 2 ^ 32
      → length cookie ≡ 16
      → r.cookie_key ≡ b2s_hash c label_cookie h.params.peer_static_public
      → h.cookies.last_mac1 ≡ some mac1
      → h.cookies.index ≡ idx
      → (r' : RateLimiter) × (datagram : Bytes) × (p : PacketCookieReply) × (format_cookie_reply c r
            idx cookie mac1 n
          ≡ (r', ok datagram))
        × (parse_incoming_packet datagram ≡ ok (packet_cookie_reply p))
        × (receive_cookie_reply c h p
            ≡ (record h { cookies = record (h.cookies) { write_cookie = some cookie } }, ok tt))
  cookie_roundtrip r h idx cookie mac1 n room i sixteen key last index = (
    (nonce c r).0,
    cookie_layout idx iv sealed,
    record { receiver_idx = idx; nonce = iv; encrypted_cookie = sealed },
    formats,
    parse-cookie_layout idx iv sealed i (length-nonce r) sealed_length,
    stores,
  )
    where
      iv : Bytes
      iv = (nonce c r).1

      sealed : Bytes
      sealed = c.x_seal r.cookie_key iv mac1 cookie

      sealed_length : length sealed ≡ 32
      sealed_length = omega (arith, laws.length-x_seal r.cookie_key iv mac1 cookie)

      formats :
          format_cookie_reply c r idx cookie mac1 n
          ≡ ((nonce c r).0, ok (cookie_layout idx iv sealed))
      formats = unfold format_cookie_reply in ground arith

      stores :
          receive_cookie_reply c h
            (record { receiver_idx = idx; nonce = iv; encrypted_cookie = sealed })
          ≡ (record h { cookies = record (h.cookies) { write_cookie = some cookie } }, ok tt)
      stores =
          unfold receive_cookie_reply store_cookie in
          ground (arith, laws.x_open-x_seal r.cookie_key iv mac1 cookie, key, last, index)

  -- How the limiter takes a message apart.
  module _ (msg mac1 mac2 : Bytes) (one : length mac1 ≡ 16) (two : length mac2 ≡ 16) where
    split_at : length (msg ++ (mac1 ++ mac2)) - 32 ≡ length msg
    split_at = omega (arith, length-append msg (mac1 ++ mac2), length-append mac1 mac2)

    take-msg : take (length (msg ++ (mac1 ++ mac2)) - 32) (msg ++ (mac1 ++ mac2)) ≡ msg
    take-msg = take-append msg (mac1 ++ mac2) _ (sym split_at)

    drop-msg : drop (length (msg ++ (mac1 ++ mac2)) - 32) (msg ++ (mac1 ++ mac2)) ≡ mac1 ++ mac2
    drop-msg =
        ap (λ k. drop k (msg ++ (mac1 ++ mac2))) (omega (arith, split_at))
        ∙ drop-append msg (mac1 ++ mac2) (length msg) 0 refl

    take-mac1 : take 16 (mac1 ++ mac2) ≡ mac1
    take-mac1 = take-append mac1 mac2 16 one

    drop-mac1 : drop 16 (mac1 ++ mac2) ≡ mac2
    drop-mac1 = drop-append mac1 mac2 16 0 one

    verify-two :
        (r : RateLimiter) (addr : IpAddr) (p : Packet) (sender n now : ℕ)
        → mac1 ≡ b2s_keyed_mac_16 c r.mac1_key msg
        → mac2 ≡ b2s_keyed_mac_16_2 c (current_cookie c r addr now) msg mac1
        → (verify_handshake c r (some addr) (msg ++ (mac1 ++ mac2)) p sender n now).1 ≡ verified p
    unfolding verify_handshake is_under_load verify_mac2 current_cookie
    verify-two r addr p sender n now eq1 eq2 =
        let b1 : bytes_eq (b2s_keyed_mac_16 c r.mac1_key msg) mac1 ≡ true =
          ap (bytes_eq _) eq1 ∙ bytes_eq_refl _ in
        let b2 : bytes_eq (b2s_keyed_mac_16_2 c (current_cookie c r addr now) msg mac1) mac2
            ≡ true =
          ap (bytes_eq _) eq2 ∙ bytes_eq_refl _ in
        rw (take-msg, drop-msg, take-mac1, drop-mac1, b1, b2) (ground arith)

  -- The MACs that a handshake appends once it holds the limiter's cookie for its address pass the
  -- limiter, under load or not, as long as the secret behind the cookie has not changed.
  pub cookie_admits :
      (r : RateLimiter) (h : Handshake) (addr : IpAddr) (p : Packet) (idx sender n now : ℕ)
      (msg : Bytes)
      → h.params.sending_mac1_key ≡ r.mac1_key
      → h.cookies.write_cookie ≡ some (current_cookie c r addr now)
      → (verify_handshake c r
          (some addr)
          (msg ++ (append_mac1_and_mac2 c h idx msg).1)
          p
          sender
          n
          now).1
        ≡ verified p
  unfolding append_mac1_and_mac2 b2s_keyed_mac_16 b2s_keyed_mac_16_2
  cookie_admits r h addr p idx sender n now msg key cookie =
      rw (cookie, key, append_mac1_and_mac2)
        (verify-two msg (b2s_keyed_mac_16 c r.mac1_key msg)
          (b2s_keyed_mac_16 c (current_cookie c r addr now)
            (msg ++ b2s_keyed_mac_16 c r.mac1_key msg))
          (laws.length-blake2s_mac 16 _ _) (laws.length-blake2s_mac 16 _ _) r addr p sender n now
          refl refl)
