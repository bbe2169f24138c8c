-- ===== src/Noise/Tunn/Receive.antt =====
-- noise/mod.rs: what a tunnel receives. Each operation gives the tunnel and its result, `none` for
-- a panic.
use veil_vpn.Prelude.{
  ℕ, ◌%◌, true, false, Option, none, some, [], ltb, if◌then◌else◌, ◌==◌, length, set, add_u64,
  ◌>>=◌, take,
}
use veil_vpn.Prelude.Bytes.{Bytes}
use veil_vpn.Noise.Errors.{Result, ok, err, invalid_packet, no_current_session}
use veil_vpn.Noise.Crypto.{Crypto}
use veil_vpn.Noise.Packet.{
  Packet, HandshakeInit, HandshakeResponse, PacketCookieReply, PacketData, handshake_init,
  handshake_response, packet_cookie_reply, packet_data, IpAddr, v4, v6, len_and_source,
  cookie_reply_sz,
}
use veil_vpn.Noise.Session.{Session, format_packet_data, receive_packet_data}
use veil_vpn.Noise.Handshake.State.{Handshake}
use veil_vpn.Noise.Handshake.Initiation.{Inputs}
use veil_vpn.Noise.Handshake.Response.{
  receive_handshake_initialization, receive_handshake_response, receive_cookie_reply,
}
use veil_vpn.Noise.RateLimiter.{
  RateLimiter, Verdict, verified, refused, verify_packet, TunnResult, done, failed,
  write_to_network, write_to_tunnel_v4, write_to_tunnel_v6,
}
use veil_vpn.Noise.Timers.{
  n_sessions, time_last_packet_received, time_last_packet_sent, time_last_data_packet_received,
  time_cookie_received,
}
use veil_vpn.Noise.Tunn.{
  Tunn, session_at, timer_tick, timer_tick_session_established, set_current_session,
}
use veil_vpn.Noise.Tunn.Send.{send_queued_packet}

-- A new session in its slot of the ring.
unfoldable pub store_session : Tunn → Session → Tunn
store_session t session = record t {
  sessions = set t.sessions (session.receiving_index % n_sessions) (some session);
}

-- A packet that passed its checks goes to the interface, cut to the length that it states.
unfoldable pub deliver : Tunn → Bytes → ℕ → IpAddr → Tunn × TunnResult
deliver t packet computed_len addr =
    let t1 = timer_tick t time_last_data_packet_received in
    (
      record t1 { rx_bytes = add_u64 t1.rx_bytes computed_len },
      elim addr [
        | v4 a ↦ write_to_tunnel_v4 (take computed_len packet) a
        | v6 a ↦ write_to_tunnel_v6 (take computed_len packet) a
      ],
    )

unfoldable pub validate_decapsulated_packet : Tunn → Bytes → Tunn × TunnResult
unfolding deliver
validate_decapsulated_packet t packet =
    if length packet == 0 then (t, done) else elim (len_and_source packet) [
      | none ↦ (t, failed invalid_packet)
      | some (computed_len, addr) ↦
          if ltb (length packet) computed_len
          then (t, failed invalid_packet)
          else deliver t packet computed_len addr
    ]

module _ (c : Crypto) where
  unfoldable pub answered : Tunn → Handshake × Result (Bytes × Session) → Tunn × TunnResult
  answered t (h, err e) = (record t { handshake = h }, failed e)
  answered t (h, ok (packet, session)) =
      let t1 = store_session (record t { handshake = h }) session in
      let t2 = timer_tick (timer_tick t1 time_last_packet_received) time_last_packet_sent in
      (timer_tick_session_established t2 false session.receiving_index, write_to_network packet)

  unfoldable pub handle_handshake_init :
      Tunn → HandshakeInit → Inputs → ℕ → Option (Tunn × TunnResult)
  unfolding answered
  handle_handshake_init t p i dst_len = do
    answer ← receive_handshake_initialization c t.handshake p dst_len i.ephemeral_private
    some (answered t answer)

  -- The initiator's new session sends a keepalive first.
  unfoldable pub established : Tunn → ℕ → Handshake × Result Session → Option (Tunn × TunnResult)
  established t dst_len (h, err e) = some (record t { handshake = h }, failed e)
  established t dst_len (h, ok session) = do
    (session', keepalive_packet) ← format_packet_data c session [] dst_len
    let t1 = store_session (record t { handshake = h }) session'
    let t2 = timer_tick t1 time_last_packet_received
    let t3 = timer_tick_session_established t2 true (session'.receiving_index % n_sessions)
    some (set_current_session t3 session'.receiving_index, write_to_network keepalive_packet)

  unfoldable pub handle_handshake_response :
      Tunn → HandshakeResponse → Inputs → ℕ → Option (Tunn × TunnResult)
  unfolding established
  handle_handshake_response t p i dst_len =
      established t dst_len (receive_handshake_response c t.handshake p i.now)

  unfoldable pub took_cookie : Tunn → Handshake × Result (Unit {0}) → Tunn × TunnResult
  took_cookie t (h, err e) = (record t { handshake = h }, failed e)
  took_cookie t (h, ok _) =
      let t1 = timer_tick (record t { handshake = h }) time_last_packet_received in
      (timer_tick t1 time_cookie_received, done)

  unfoldable pub handle_cookie_reply : Tunn → PacketCookieReply → Tunn × TunnResult
  unfolding took_cookie
  handle_cookie_reply t p = took_cookie t (receive_cookie_reply c t.handshake p)

  -- The answer of the session in slot `idx` of the ring.
  unfoldable pub opened : Tunn → ℕ → Session × Result Bytes → Tunn × TunnResult
  opened t r_idx (session, err e) =
      (record t { sessions = set t.sessions (r_idx % n_sessions) (some session) }, failed e)
  opened t r_idx (session, ok packet) =
      let t1 = record t { sessions = set t.sessions (r_idx % n_sessions) (some session) } in
      validate_decapsulated_packet
        (timer_tick (set_current_session t1 r_idx) time_last_packet_received) packet

  unfoldable pub handle_data : Tunn → PacketData → ℕ → Option (Tunn × TunnResult)
  unfolding opened
  handle_data t packet dst_len = elim (session_at t.sessions packet.receiver_idx) [
    | none ↦ some (t, failed no_current_session)
    | some session ↦ do
      answer ← receive_packet_data c session packet dst_len
      some (opened t packet.receiver_idx answer)
  ]

  unfoldable pub handle_verified_packet : Tunn → Packet → Inputs → ℕ → Option (Tunn × TunnResult)
  handle_verified_packet t (handshake_init p) i dst_len = handle_handshake_init t p i dst_len
  handle_verified_packet t (handshake_response p) i dst_len =
      handle_handshake_response t p i dst_len
  handle_verified_packet t (packet_cookie_reply p) i dst_len = some (handle_cookie_reply t p)
  handle_verified_packet t (packet_data p) i dst_len = handle_data t p dst_len

  -- The limiter's verdict; `dst` must hold a reply, and no other verdict occurs.
  unfoldable pub judged : Tunn → Inputs → ℕ → RateLimiter × Verdict → Option (Tunn × TunnResult)
  unfolding handle_verified_packet
  judged t i dst_len (r, verified packet) =
      handle_verified_packet (record t { rate_limiter = r }) packet i dst_len
  judged t i dst_len (r, refused (write_to_network cookie)) =
      if ltb dst_len (length cookie)
      then none
      else some (record t { rate_limiter = r }, write_to_network cookie)
  judged t i dst_len (r, refused (failed e)) = some (record t { rate_limiter = r }, failed e)
  judged t i dst_len (r, refused _) = none

  unfoldable pub decapsulate :
      Tunn → Option IpAddr → Bytes → Inputs → ℕ → Option (Tunn × TunnResult)
  unfolding judged
  decapsulate t src_addr datagram i dst_len =
      if length datagram == 0
      then send_queued_packet c t i dst_len
      else judged t i dst_len
          (verify_packet c t.rate_limiter src_addr datagram cookie_reply_sz i.now)
