-- ===== src/Noise/RateLimiter/Load.antt =====
-- noise/rate_limiter.rs: what the limiter lets through.
use veil_vpn.Prelude.{
  ℕ, ◌+◌, ◌-◌, ◌^◌, ◌≤◌, ◌<◌, ◌≡◌, sym, true, Option, none, List, [], ◌∷◌, arith, length, take,
  drop, add_u64,
}
use veil_vpn.Prelude.Bytes.{Bytes, bytes_eq, bytes_eq→eq}
use veil_vpn.Noise.Crypto.{Crypto, b2s_keyed_mac_16}
use veil_vpn.Noise.Packet.{
  Packet, handshake_init, handshake_response, packet_cookie_reply, packet_data, IpAddr,
}
use veil_vpn.Noise.RateLimiter.{
  RateLimiter, Verdict, verified, refused, verify_packet, verify_parsed, verify_handshake,
  verify_mac2, is_under_load, send_cookie,
}

-- 1 for a handshake message that is let through.
abbrev passes : Verdict → ℕ
passes (verified (handshake_init p)) = 1
passes (verified (handshake_response p)) = 1
passes (verified (packet_cookie_reply p)) = 0
passes (verified (packet_data p)) = 0
passes (refused t) = 0

module _ (c : Crypto) where
  -- Datagrams from unknown addresses, each with the room for an answer and its time: the limiter
  -- after them, and how many handshake messages it has let through.
  unfoldable pub serve : RateLimiter → List (Bytes × ℕ × ℕ) → RateLimiter × ℕ
  serve r [] = (r, 0)
  serve r ((src, dst_len, now) ∷ xs) =
      let (r1, v) = verify_packet c r none src dst_len now in
      let (r2, n) = serve r1 xs in (r2, passes v + n)

  verify-counts :
      (r : RateLimiter) (src : Bytes) (dst_len now : ℕ)
      → r.count + 1 < 2 ^ 64
      → let v = verify_packet c r none src dst_len now in
        (v.0.limit ≡ r.limit)
        × (v.0.count ≤ r.count + 1)
        × (passes v.1 + (r.limit - v.0.count) ≤ r.limit - r.count)
  unfolding verify_packet verify_parsed verify_handshake verify_mac2 is_under_load add_u64
  verify-counts r src dst_len now b = ground arith

  -- The bound: between two resets at most as many handshake messages pass without a cookie as the
  -- limit leaves, however many arrive.
  pub serve-bounded :
      (r : RateLimiter) (xs : List (Bytes × ℕ × ℕ))
      → r.count + length xs < 2 ^ 64
      → (serve r xs).1 ≤ r.limit - r.count
  unfolding serve
  serve-bounded r [] b = omega arith
  serve-bounded r ((src, dst_len, now) ∷ xs) b =
      let (kept, counted, spent) = verify-counts r src dst_len now (omega arith) in
      omega (
        arith,
        kept,
        counted,
        spent,
        serve-bounded (verify_packet c r none src dst_len now).0 xs (omega (arith, counted)),
      )

  -- A handshake message that passes carries the MAC of its own bytes under the limiter's key.
  pub verify-mac1 :
      (r r' : RateLimiter) (src_addr : Option IpAddr) (src : Bytes) (p q : Packet)
      (sender_idx dst_len now : ℕ)
      → verify_handshake c r src_addr src p sender_idx dst_len now ≡ (r', verified q)
      → (take 16 (drop (length src - 32) src)
          ≡ b2s_keyed_mac_16 c r.mac1_key (take (length src - 32) src))
        × (q ≡ p)
  unfolding verify_handshake verify_mac2 send_cookie is_under_load
  verify-mac1 r r' src_addr src p q sender_idx dst_len now h =
      let n = length src - 32 in
      let msg_mac = b2s_keyed_mac_16 c r.mac1_key (take n src) in
      let right : bytes_eq msg_mac (take 16 (drop n src)) ≡ true = ground arith in
      (sym (bytes_eq→eq msg_mac (take 16 (drop n src)) right), ground arith)
