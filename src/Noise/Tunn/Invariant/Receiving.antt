-- ===== src/Noise/Tunn/Invariant/Receiving.antt =====
-- noise/mod.rs: what is received keeps the invariant of a tunnel.
use veil_vpn.Prelude.{
  ℕ, ◌%◌, ◌≡◌, refl, ap, ◌∙◌, inl, inr, true, false, Option, some, [], length, ltb, ◌==◌,
  Bool-cases, Option-cases,
}
use veil_vpn.Prelude.Bytes.{Bytes}
use veil_vpn.Noise.Errors.{Result, ok, err}
use veil_vpn.Noise.Crypto.{Crypto}
use veil_vpn.Noise.Packet.{
  IpAddr, Packet, PacketData, handshake_init, handshake_response, packet_cookie_reply, packet_data,
  len_and_source, cookie_reply_sz,
}
use veil_vpn.Noise.Session.{Session, format_packet_data, receive_packet_data}
use veil_vpn.Noise.Session.Replay.{receive-ok, receive-err}
use veil_vpn.Noise.Handshake.State.{Handshake}
use veil_vpn.Noise.Handshake.Initiation.{Inputs}
use veil_vpn.Noise.Handshake.Response.{
  receive_handshake_initialization, receive_handshake_response, receive_cookie_reply,
}
use veil_vpn.Noise.RateLimiter.{
  RateLimiter, Verdict, verified, refused, verify_packet, done, failed, write_to_network,
  write_to_tunnel_v4, write_to_tunnel_v6,
}
use veil_vpn.Noise.Timers.{
  n_sessions, time_last_packet_received, time_last_packet_sent, time_last_data_packet_received,
  time_cookie_received,
}
use veil_vpn.Noise.Tunn.{Tunn, session_at, timer_tick}
use veil_vpn.Noise.Tunn.Receive.{
  store_session, deliver, validate_decapsulated_packet, answered, handle_handshake_init,
  established, handle_handshake_response, took_cookie, handle_cookie_reply, opened, handle_data,
  handle_verified_packet, judged, decapsulate,
}
use veil_vpn.Noise.Tunn.Invariant.{
  IsTunn, IsTunn-set, IsTunn-timer_tick, IsTunn-established, IsTunn-set_current_session,
}
use veil_vpn.Noise.Tunn.Invariant.Sending.{Keeps, IsTunn-same, placed_at, send_queued-Keeps}

store-IsTunn : (t : Tunn) (s : Session) → IsTunn t → IsTunn (store_session t s)
unfolding store_session
store-IsTunn t s w = IsTunn-set t w s.receiving_index s refl

deliver-IsTunn :
    (t : Tunn) (packet : Bytes) (n : ℕ) (addr : IpAddr)
    → IsTunn t
    → IsTunn (deliver t packet n addr).0
unfolding deliver
deliver-IsTunn t packet n addr w =
    IsTunn-same (timer_tick t time_last_data_packet_received) _
      (IsTunn-timer_tick t w time_last_data_packet_received) refl refl refl

validate-IsTunn :
    (t : Tunn) (packet : Bytes) → IsTunn t → IsTunn (validate_decapsulated_packet t packet).0
unfolding validate_decapsulated_packet
validate-IsTunn t packet w = elim (Bool-cases (length packet == 0)) [
  | inl e ↦ rw e w
  | inr e ↦ elim (Option-cases (len_and_source packet)) [
    | inl f ↦ rw (e, f) w
    | inr ((computed_len, addr), f) ↦ elim (Bool-cases (ltb (length packet) computed_len)) [
      | inl g ↦ rw (e, f, g) w
      | inr g ↦ rw (e, f, g) (deliver-IsTunn t packet computed_len addr w)
    ]
  ]
]

module _ (c : Crypto) where
  answered-IsTunn :
      (t : Tunn) (a : Handshake × Result (Bytes × Session)) → IsTunn t → IsTunn (answered c t a).0
  unfolding answered
  answered-IsTunn t (h, err e) w = IsTunn-same t _ w refl refl refl
  answered-IsTunn t (h, ok (packet, s)) w =
      let t1 = store_session (record t { handshake = h }) s in
      let w1 : IsTunn t1 =
        store-IsTunn (record t { handshake = h }) s (IsTunn-same t _ w refl refl refl) in
      let w2 = IsTunn-timer_tick t1 w1 time_last_packet_received in
      IsTunn-established _ (IsTunn-timer_tick _ w2 time_last_packet_sent) false s.receiving_index

  established-Keeps :
      (t : Tunn) (n : ℕ) (a : Handshake × Result Session) → IsTunn t → Keeps (established c t n a)
  unfolding established
  established-Keeps t n (h, err e) w = IsTunn-same t _ w refl refl refl
  established-Keeps t n (h, ok s) w = elim (Option-cases (format_packet_data c s [] n)) [
    | inl f ↦ rw f tt
    | inr ((s', packet), f) ↦
        let t1 = store_session (record t { handshake = h }) s' in
        let w1 : IsTunn t1 =
          store-IsTunn (record t { handshake = h }) s' (IsTunn-same t _ w refl refl refl) in
        let t2 = timer_tick t1 time_last_packet_received in
        let w2 : IsTunn t2 = IsTunn-timer_tick t1 w1 time_last_packet_received in
        rw f (
          IsTunn-set_current_session _
            (IsTunn-established t2 w2 true (s'.receiving_index % n_sessions)) s'.receiving_index)
  ]

  took_cookie-IsTunn :
      (t : Tunn) (a : Handshake × Result (Unit {0})) → IsTunn t → IsTunn (took_cookie c t a).0
  unfolding took_cookie
  took_cookie-IsTunn t (h, err e) w = IsTunn-same t _ w refl refl refl
  took_cookie-IsTunn t (h, ok _) w =
      let t1 = record t { handshake = h } in
      let w1 : IsTunn t1 = IsTunn-same t _ w refl refl refl in
      IsTunn-timer_tick _ (IsTunn-timer_tick t1 w1 time_last_packet_received) time_cookie_received

  receive-index :
      (s s' : Session) (p : PacketData) (n : ℕ) (r : Result Bytes)
      → receive_packet_data c s p n ≡ some (s', r)
      → s'.receiving_index ≡ s.receiving_index
  receive-index s s' p n (ok m) h = (receive-ok c s s' p n m h).index_kept
  receive-index s s' p n (err e) h = ap (λ x. x.receiving_index) (receive-err c s s' p n e h)

  opened-IsTunn :
      (t : Tunn) (r_idx : ℕ) (a : Session × Result Bytes)
      → a.0.receiving_index % n_sessions ≡ r_idx % n_sessions
      → IsTunn t
      → IsTunn (opened c t r_idx a).0
  unfolding opened
  opened-IsTunn t r_idx (s, err e) own w = IsTunn-set t w r_idx s own
  opened-IsTunn t r_idx (s, ok packet) own w = validate-IsTunn _ packet (
      IsTunn-timer_tick _ (IsTunn-set_current_session _ (IsTunn-set t w r_idx s own) r_idx)
        time_last_packet_received)

  handle_data-Keeps : (t : Tunn) (p : PacketData) (n : ℕ) → IsTunn t → Keeps (handle_data c t p n)
  unfolding handle_data
  handle_data-Keeps t p n w = elim (Option-cases (session_at t.sessions p.receiver_idx)) [
    | inl e ↦ rw (e, handle_data) w
    | inr (s, e) ↦ elim (Option-cases (receive_packet_data c s p n)) [
      | inl f ↦ rw (e, handle_data, f) tt
      | inr ((s', r), f) ↦
          let own : s'.receiving_index % n_sessions ≡ p.receiver_idx % n_sessions =
            ap (λ k. k % n_sessions) (receive-index s s' p n r f)
            ∙ placed_at c t w p.receiver_idx s e in
          rw (e, handle_data, f) (opened-IsTunn t p.receiver_idx (s', r) own w)
    ]
  ]

  handle_verified-Keeps :
      (t : Tunn) (p : Packet) (i : Inputs) (n : ℕ)
      → IsTunn t
      → Keeps (handle_verified_packet c t p i n)
  unfolding handle_verified_packet handle_handshake_init handle_handshake_response
      handle_cookie_reply
  handle_verified-Keeps t (handshake_init p) i n w =
      elim (Option-cases (receive_handshake_initialization c t.handshake p n i.ephemeral_private)) [
        | inl e ↦ rw e tt
        | inr (a, e) ↦ rw e (answered-IsTunn t a w)
      ]
  handle_verified-Keeps t (handshake_response p) i n w =
      established-Keeps t n (receive_handshake_response c t.handshake p i.now) w
  handle_verified-Keeps t (packet_cookie_reply p) i n w =
      took_cookie-IsTunn t (receive_cookie_reply c t.handshake p) w
  handle_verified-Keeps t (packet_data p) i n w = handle_data-Keeps t p n w

  judged-Keeps :
      (t : Tunn) (i : Inputs) (n : ℕ) (a : RateLimiter × Verdict)
      → IsTunn t
      → Keeps (judged c t i n a)
  unfolding judged
  judged-Keeps t i n (r, verified p) w =
      handle_verified-Keeps (record t { rate_limiter = r }) p i n (IsTunn-same t _ w refl refl refl)
  judged-Keeps t i n (r, refused (write_to_network cookie)) w =
      elim (Bool-cases (ltb n (length cookie))) [
        | inl e ↦ rw e tt
        | inr e ↦ rw e (IsTunn-same t _ w refl refl refl)
      ]
  judged-Keeps t i n (r, refused (failed e)) w = IsTunn-same t _ w refl refl refl
  judged-Keeps t i n (r, refused done) w = tt
  judged-Keeps t i n (r, refused (write_to_tunnel_v4 p a)) w = tt
  judged-Keeps t i n (r, refused (write_to_tunnel_v6 p a)) w = tt

  pub decapsulate-Keeps :
      (t : Tunn) (src_addr : Option IpAddr) (datagram : Bytes) (i : Inputs) (n : ℕ)
      → IsTunn t
      → Keeps (decapsulate c t src_addr datagram i n)
  unfolding decapsulate
  decapsulate-Keeps t src_addr datagram i n w = elim (Bool-cases (length datagram == 0)) [
    | inl e ↦ rw (e) (send_queued-Keeps c t i n w)
    | inr e ↦ rw (e) (
        judged-Keeps t i n (verify_packet c t.rate_limiter src_addr datagram cookie_reply_sz i.now)
          w)
  ]
