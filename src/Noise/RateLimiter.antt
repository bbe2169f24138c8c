-- ===== src/Noise/RateLimiter.antt =====
-- noise/rate_limiter.rs, and `TunnResult` of noise/mod.rs, which its verdicts carry. The atomic
-- counters and the lock around the last reset are fields: each call is one step.
pub mod Cookie
pub mod Load
use veil_vpn.Prelude.{
  ℕ, ◌+◌, ◌-◌, ◌*◌, ◌/◌, ◌%◌, ◌^◌, Bool, true, false, Option, none, some, List, [], ◌∷◌, ◌++◌, ltb,
  leb, length, if◌then◌else◌, not, take, drop, replicate, add_u64,
}
use veil_vpn.Prelude.Bytes.{Bytes, slice, to_le_bytes, bytes_eq}
use veil_vpn.Noise.Errors.{
  WireGuardError, Result, ok, err, destination_buffer_too_small, invalid_mac,
}
use veil_vpn.Noise.Errors as Errors
use veil_vpn.Noise.Crypto.{Crypto, b2s_hash, b2s_keyed_mac_16, b2s_keyed_mac_16_2, b2s_mac_24}
use veil_vpn.Noise.Packet.{
  Packet, handshake_init, handshake_response, packet_cookie_reply, packet_data, IpAddr, v4, v6,
  cookie_reply_type, cookie_reply_sz, parse_incoming_packet,
}
use veil_vpn.Noise.Handshake.State.{label_mac1, label_cookie}

-- `err` of the source's enum is `failed`.
pub data TunnResult : Type 0 where
  done : TunnResult
  failed : WireGuardError → TunnResult
  write_to_network : Bytes → TunnResult
  write_to_tunnel_v4 write_to_tunnel_v6 : Bytes → Bytes → TunnResult

-- `Result<Packet, TunnResult>`
pub data Verdict : Type 0 where
  verified : Packet → Verdict
  refused : TunnResult → Verdict

-- Nanoseconds in a second.
abbrev pub second : ℕ
second = 1_000_000_000

abbrev pub cookie_refresh : ℕ
cookie_refresh = 128

abbrev pub reset_period : ℕ
reset_period = 1

pub record RateLimiter : Type 0 where
  pub nonce_key : Bytes
  pub secret_key : Bytes
  pub start_time : ℕ
  pub nonce_ctr : ℕ
  pub mac1_key : Bytes
  pub cookie_key : Bytes
  pub limit : ℕ
  pub count : ℕ
  pub last_reset : ℕ

-- Under a limit the count moves on, cyclically; `true` at the limit and above.
unfoldable pub is_under_load : RateLimiter → RateLimiter × Bool
unfolding add_u64
is_under_load r = (record r { count = add_u64 r.count 1 }, leb r.limit r.count)

unfoldable pub reset_count : RateLimiter → ℕ → RateLimiter
reset_count r current_time =
    if leb reset_period ((current_time - r.last_reset) / second)
    then record r { count = 0; last_reset = current_time }
    else r

unfoldable pub addr_bytes : IpAddr → Bytes
addr_bytes (v4 a) = take 4 a ++ replicate 12 0
addr_bytes (v6 a) = take 16 a

module _ (c : Crypto) where
  -- The two random keys are the caller's.
  unfoldable pub new : Bytes → Bytes → Bytes → ℕ → ℕ → RateLimiter
  new nonce_key secret_key public_key limit now = record {
    nonce_key = nonce_key;
    secret_key = secret_key;
    start_time = now;
    nonce_ctr = 0;
    mac1_key = b2s_hash c label_mac1 public_key;
    cookie_key = b2s_hash c label_cookie public_key;
    limit = limit;
    count = 0;
    last_reset = now;
  }

  unfoldable pub current_cookie : RateLimiter → IpAddr → ℕ → Bytes
  current_cookie r addr now =
      let cur_counter = (now - r.start_time) / second / cookie_refresh in
      b2s_keyed_mac_16_2 c r.secret_key (to_le_bytes 8 cur_counter) (addr_bytes addr)

  unfoldable pub nonce : RateLimiter → RateLimiter × Bytes
  unfolding add_u64
  nonce r = (
    record r { nonce_ctr = add_u64 r.nonce_ctr 1 },
    b2s_mac_24 c r.nonce_key (to_le_bytes 8 r.nonce_ctr),
  )

  unfoldable pub format_cookie_reply :
      RateLimiter → ℕ → Bytes → Bytes → ℕ → RateLimiter × Result Bytes
  format_cookie_reply r idx cookie mac1 dst_len =
      if ltb dst_len cookie_reply_sz
      then (r, err destination_buffer_too_small)
      else (let (r1, iv) = nonce r in
          (
            r1,
            ok (
                to_le_bytes 4 cookie_reply_type
                ++ (to_le_bytes 4 idx ++ (iv ++ c.x_seal r.cookie_key iv mac1 cookie))),
          ))

  -- A reply to the sender of a message whose second MAC is wrong.
  unfoldable pub send_cookie : RateLimiter → ℕ → Bytes → Bytes → ℕ → RateLimiter × Verdict
  send_cookie r sender_idx cookie mac1 dst_len =
      let (r1, reply) = format_cookie_reply r sender_idx cookie mac1 dst_len in
      (
        r1,
        elim reply [
          | ok datagram ↦ refused (write_to_network datagram)
          | err e ↦ refused (failed e)
        ],
      )

  -- Under load, the source address must be known and the second MAC right.
  unfoldable pub verify_mac2 :
      RateLimiter
      → Option IpAddr
      → Packet
      → ℕ
      → Bytes
      → Bytes
      → Bytes
      → ℕ
      → ℕ
      → RateLimiter × Verdict
  verify_mac2 r none packet sender_idx msg mac1 mac2 dst_len now =
      (r, refused (failed Errors.under_load))
  verify_mac2 r (some addr) packet sender_idx msg mac1 mac2 dst_len now =
      let cookie = current_cookie r addr now in
      if bytes_eq (b2s_keyed_mac_16_2 c cookie msg mac1) mac2
      then (r, verified packet)
      else send_cookie r sender_idx cookie mac1 dst_len

  unfoldable pub verify_handshake :
      RateLimiter → Option IpAddr → Bytes → Packet → ℕ → ℕ → ℕ → RateLimiter × Verdict
  unfolding is_under_load
  verify_handshake r src_addr src packet sender_idx dst_len now =
      let n = length src - 32 in
      let msg = take n src in
      let mac1 = take 16 (drop n src) in
      let mac2 = drop 16 (drop n src) in
      if not (bytes_eq (b2s_keyed_mac_16 c r.mac1_key msg) mac1)
      then (r, refused (failed invalid_mac))
      else if (is_under_load r).1
      then verify_mac2 (is_under_load r).0 src_addr packet sender_idx msg mac1 mac2 dst_len now
      else ((is_under_load r).0, verified packet)

  -- Handshake messages only are verified and limited.
  unfoldable pub verify_parsed :
      RateLimiter → Option IpAddr → Bytes → Result Packet → ℕ → ℕ → RateLimiter × Verdict
  verify_parsed r src_addr src (ok (handshake_init p)) dst_len now =
      verify_handshake r src_addr src (handshake_init p) p.sender_idx dst_len now
  verify_parsed r src_addr src (ok (handshake_response p)) dst_len now =
      verify_handshake r src_addr src (handshake_response p) p.sender_idx dst_len now
  verify_parsed r src_addr src (ok (packet_cookie_reply p)) dst_len now =
      (r, verified (packet_cookie_reply p))
  verify_parsed r src_addr src (ok (packet_data p)) dst_len now = (r, verified (packet_data p))
  verify_parsed r src_addr src (err e) dst_len now = (r, refused (failed e))

  unfoldable pub verify_packet : RateLimiter → Option IpAddr → Bytes → ℕ → ℕ → RateLimiter × Verdict
  unfolding verify_parsed
  verify_packet r src_addr src dst_len now =
      verify_parsed r src_addr src (parse_incoming_packet src) dst_len now
