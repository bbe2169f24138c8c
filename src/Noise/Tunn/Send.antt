-- ===== src/Noise/Tunn/Send.antt =====
-- noise/mod.rs: what a tunnel sends. Each operation gives the tunnel and its result, `none` for a
-- panic; a buffer is its length, and the clock is read at one instant, `i.now`.
use veil_vpn.Prelude.{
  ℕ, Bool, false, ◌&&◌, Option, none, some, if◌then◌else◌, not, length, set, add_u64, ◌%◌, ◌==◌,
}
use veil_vpn.Prelude.Bytes.{Bytes}
use veil_vpn.Noise.Errors.{Result, ok, err}
use veil_vpn.Noise.Crypto.{Crypto}
use veil_vpn.Noise.Session.{Session, format_packet_data}
use veil_vpn.Noise.Handshake.State.{Handshake, is_in_progress, is_expired}
use veil_vpn.Noise.Handshake.Initiation as Initiation
use veil_vpn.Noise.Handshake.Initiation.{Inputs}
use veil_vpn.Noise.RateLimiter.{TunnResult, done, failed, write_to_network}
use veil_vpn.Noise.Timers
use veil_vpn.Noise.Timers.{
  n_sessions, time_last_packet_sent, time_last_data_packet_sent, time_last_handshake_started,
}
use veil_vpn.Noise.Tunn.{Tunn, session_at, timer_tick, queue_packet, requeue_packet, dequeue_packet}

module _ (c : Crypto) where
  -- What a message that was formatted or refused does to the tunnel.
  unfoldable pub initiated : Tunn → Bool → Handshake × Result Bytes → Tunn × TunnResult
  initiated t starting_new_handshake (h, ok packet) =
      let t1 = record t { handshake = h } in
      let t2 = if starting_new_handshake then timer_tick t1 time_last_handshake_started else t1 in
      (timer_tick t2 time_last_packet_sent, write_to_network packet)
  initiated t starting_new_handshake (h, err e) = (record t { handshake = h }, failed e)

  unfoldable pub format_handshake_initiation : Tunn → Inputs → ℕ → Bool → Tunn × TunnResult
  unfolding initiated
  format_handshake_initiation t i dst_len force_resend =
      let t1 =
        if is_expired t.handshake then record t { timers = Timers.clear t.timers i.now } else t in
      if is_in_progress t.handshake && not force_resend
      then (t, done)
      else initiated t1 (not (is_in_progress t1.handshake))
          (Initiation.format_handshake_initiation c t1.handshake i dst_len)

  -- A packet under the current session, which sits in its slot of the ring.
  unfoldable pub encapsulate_with : Tunn → Session → Bytes → ℕ → Option (Tunn × TunnResult)
  encapsulate_with t session src dst_len = elim (format_packet_data c session src dst_len) [
    | none ↦ none
    | some (session', packet) ↦
        let t1 = record t { sessions = set t.sessions (t.current % n_sessions) (some session') } in
        let t2 = timer_tick t1 time_last_packet_sent in
        let t3 = if length src == 0 then t2 else timer_tick t2 time_last_data_packet_sent in
        some (record t3 { tx_bytes = add_u64 t3.tx_bytes (length src) }, write_to_network packet)
  ]

  unfoldable pub encapsulate : Tunn → Bytes → Inputs → ℕ → Option (Tunn × TunnResult)
  unfolding encapsulate_with
  encapsulate t src i dst_len = elim (session_at t.sessions t.current) [
    | some session ↦ encapsulate_with t session src dst_len
    | none ↦ some (format_handshake_initiation (queue_packet t src) i dst_len false)
  ]

  -- What `send_queued_packet` makes of the answer to the packet that it took from the queue.
  unfoldable pub requeue_failed : Bytes → Option (Tunn × TunnResult) → Option (Tunn × TunnResult)
  requeue_failed packet none = none
  requeue_failed packet (some (t, failed e)) = some (requeue_packet t packet, done)
  requeue_failed packet (some (t, r)) = some (t, r)

  unfoldable pub send_queued_packet : Tunn → Inputs → ℕ → Option (Tunn × TunnResult)
  unfolding requeue_failed
  send_queued_packet t i dst_len = elim (dequeue_packet t) [
    | none ↦ some (t, done)
    | some (packet, t1) ↦ requeue_failed packet (encapsulate t1 packet i dst_len)
  ]
