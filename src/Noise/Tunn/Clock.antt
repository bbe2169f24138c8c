-- ===== src/Noise/Tunn/Clock.antt =====
-- noise/timers.rs: `update_timers`, which runs on every tick of the clock. `none` is the panic of a
-- subtraction of durations; the clock is read at one instant, `i.now`.
use veil_vpn.Prelude.{
  ℕ, ◌+◌, ◌-◌, ◌*◌, Bool, true, false, ◌&&◌, ◌||◌, Option, none, some, List, [], ◌∷◌, ltb, leb,
  if◌then◌else◌, ◌>>=◌,
}
use veil_vpn.Noise.Errors.{connection_expired}
use veil_vpn.Noise.Crypto.{Crypto}
use veil_vpn.Noise.Session.{Session}
use veil_vpn.Noise.Handshake.State.{is_expired, has_cookie, clear_cookie, set_expired, timer}
use veil_vpn.Noise.Handshake.Initiation.{Inputs}
use veil_vpn.Noise.RateLimiter.{reset_count, TunnResult, done, failed, second}
use veil_vpn.Noise.Timers.{
  reject_after_time, rekey_after_time, rekey_attempt_time, rekey_timeout, keepalive_timeout,
  cookie_expiration_time, time_current, time_session_established, time_last_handshake_started,
  time_last_packet_received, time_last_packet_sent, time_last_data_packet_received,
  time_last_data_packet_sent, time_cookie_received, time_persistent_keepalive, put, since, at_least,
  and_at_least,
}
use veil_vpn.Noise.Tunn.{Tunn, timer_tick, clear_all}
use veil_vpn.Noise.Tunn.Send.{encapsulate, format_handshake_initiation}

-- One slot: its session and its timer.
unfoldable pub expire_slot : ℕ → Option Session → ℕ → Option (Option Session × ℕ)
expire_slot time_now s t = elim (since time_now t) [
  | none ↦ none
  | some age ↦ some (if ltb reject_after_time age then (none, time_now) else (s, t))
]

-- The loop over the slots.
unfoldable pub expire_slots :
    ℕ → List (Option Session) → List ℕ → Option (List (Option Session) × List ℕ)
expire_slots time_now (s ∷ ss) (t ∷ ts) = do
  (s', t') ← expire_slot time_now s t
  (ss', ts') ← expire_slots time_now ss ts
  some (s' ∷ ss', t' ∷ ts')
expire_slots time_now ss ts = some (ss, ts)

unfoldable pub update_session_timers : Tunn → ℕ → Option Tunn
update_session_timers t time_now = do
  (sessions, session_timers) ← expire_slots time_now t.sessions t.timers.session_timers
  some (record t {
    sessions = sessions;
    timers = record (t.timers) { session_timers = session_timers };
  })

-- The limiter of the tunnel's own is reset, the current time set, and old sessions dropped.
unfoldable pub start_update : Tunn → ℕ → Option Tunn
unfolding update_session_timers put
start_update t time =
    let now = time - t.timers.time_started in
    let limiter =
      if t.timers.should_reset_rr then reset_count t.rate_limiter time else t.rate_limiter in
    update_session_timers
      (record t { rate_limiter = limiter; timers = put t.timers time_current now }) now

unfoldable pub expire_cookie : Tunn → ℕ → Option Tunn
expire_cookie t now = do
  old ←
      and_at_least (has_cookie t.handshake) now (t.timers.timers time_cookie_received)
        cookie_expiration_time
  some (record t { handshake = if old then clear_cookie t.handshake else t.handshake })

unfoldable pub expire : Tunn → ℕ → Tunn × TunnResult
expire t time =
    (clear_all (record t { handshake = set_expired t.handshake }) time, failed connection_expired)

-- Is a new handshake due, when none is in progress?
unfoldable pub handshake_due : Tunn → ℕ → Option (Tunn × Bool)
handshake_due t now = do
  let session_established = t.timers.timers time_session_established
  let aut_packet_received = t.timers.timers time_last_packet_received
  let data_packet_sent = t.timers.timers time_last_data_packet_sent
  let data_packet_received = t.timers.timers time_last_data_packet_received
  on_send ←
      and_at_least (t.timers.is_initiator && ltb session_established data_packet_sent) now
        session_established rekey_after_time
  on_receive ←
      and_at_least (t.timers.is_initiator && ltb session_established data_packet_received) now
        session_established (reject_after_time - keepalive_timeout - rekey_timeout)
  unanswered ←
      and_at_least (ltb aut_packet_received data_packet_sent) now aut_packet_received
        (keepalive_timeout + rekey_timeout)
  let wanted = unanswered && t.timers.want_handshake
  let t1 = record t {
    timers = record (t.timers) {
      want_handshake = if unanswered then false else t.timers.want_handshake;
    };
  }
  some (t1, on_send || on_receive || wanted)

-- Is a keepalive due?
unfoldable pub keepalive_due : Tunn → ℕ → Option (Tunn × Bool)
keepalive_due t now = do
  let aut_packet_sent = t.timers.timers time_last_packet_sent
  let persistent = t.timers.persistent_keepalive
  unanswered ←
      and_at_least (ltb aut_packet_sent (t.timers.timers time_last_data_packet_received)) now
        aut_packet_sent keepalive_timeout
  let wanted = unanswered && t.timers.want_keepalive
  let t1 = record t {
    timers = record (t.timers) {
      want_keepalive = if unanswered then false else t.timers.want_keepalive;
    };
  }
  persists ←
      and_at_least (ltb 0 persistent) now (t1.timers.timers time_persistent_keepalive)
        (persistent * second)
  some (if persists then timer_tick t1 time_persistent_keepalive else t1, wanted || persists)

module _ (c : Crypto) where
  -- A handshake in progress is given up or sent again.
  unfoldable pub retransmit : Tunn → Inputs → ℕ → ℕ → Option (Tunn × TunnResult)
  unfolding expire
  retransmit t i time_init_sent dst_len = do
    let now = i.now - t.timers.time_started
    old ← at_least now (t.timers.timers time_last_handshake_started) rekey_attempt_time
    some (
        if old
        then expire t i.now
        else if leb rekey_timeout (i.now - time_init_sent)
        then format_handshake_initiation c t i dst_len true
        else (t, done))

  unfoldable pub rekey : Tunn → Inputs → ℕ → Option (Tunn × TunnResult)
  unfolding handshake_due keepalive_due
  rekey t i dst_len = do
    let now = i.now - t.timers.time_started
    (t1, handshake_required) ← handshake_due t now
    if handshake_required then some (format_handshake_initiation c t1 i dst_len true) else (do
      (t2, keepalive_required) ← keepalive_due t1 now
      if keepalive_required then encapsulate c t2 [] i dst_len else some (t2, done))

  -- Past the checks on the connection's age.
  unfoldable pub update_live : Tunn → Inputs → ℕ → Option (Tunn × TunnResult)
  unfolding retransmit rekey
  update_live t i dst_len = elim (timer t.handshake) [
    | some time_init_sent ↦ retransmit t i time_init_sent dst_len
    | none ↦ rekey t i dst_len
  ]

  unfoldable pub update_timers : Tunn → Inputs → ℕ → Option (Tunn × TunnResult)
  unfolding start_update expire_cookie expire update_live
  update_timers t i dst_len = do
    let now = i.now - t.timers.time_started
    t1 ← start_update t i.now
    if is_expired t1.handshake then some (t1, failed connection_expired) else (do
      t2 ← expire_cookie t1 now
      old ← at_least now (t2.timers.timers time_session_established) (reject_after_time * 3)
      if old then some (expire t2 i.now) else update_live t2 i dst_len)
