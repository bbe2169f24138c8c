-- ===== src/Noise/Tunn/Total.antt =====
-- noise/timers.rs: the parts of `update_timers` do not panic while no timer is ahead of the clock.
pub mod Update
use veil_vpn.Prelude.{
  ℕ, ◌+◌, ◌-◌, ◌*◌, ◌%◌, ◌≤◌, ◌<◌, ◌≡◌, refl, sym, ap, ◌∙◌, ◌⊎◌, inl, inr, Bool, true, false, ◌&&◌,
  ◌||◌, Option, none, some, List, [], ◌∷◌, arith, length, leb, ltb, replicate, ◌>>=◌, Bool-cases,
  Option-cases, if◌then◌else◌, All, tests,
}
use veil_vpn.Noise.Errors.{connection_expired}
use veil_vpn.Noise.Crypto.{Crypto}
use veil_vpn.Noise.Session.{Session}
use veil_vpn.Noise.Session.Exchange.{format_cases}
use veil_vpn.Noise.Handshake.State.{
  expired, is_expired, has_cookie, clear_cookie, set_expired, timer,
}
use veil_vpn.Noise.Handshake.Initiation.{Inputs}
use veil_vpn.Noise.RateLimiter.{reset_count, TunnResult, done, failed, second}
use veil_vpn.Noise.Timers.{
  Timers, TimerName, n_sessions, put, tick, since, at_least, and_at_least, time_current,
  time_session_established, reject_after_time, time_last_handshake_started, rekey_attempt_time,
  rekey_after_time, keepalive_timeout, rekey_timeout, cookie_expiration_time, time_cookie_received,
  time_last_packet_received, time_last_packet_sent, time_last_data_packet_sent,
  time_last_data_packet_received, time_persistent_keepalive,
}
use veil_vpn.Noise.Timers
use veil_vpn.Noise.Tunn.{Tunn, session_at, timer_tick, clear_all}
use veil_vpn.Noise.Tunn.Send.{encapsulate_with, encapsulate, format_handshake_initiation}
use veil_vpn.Noise.Tunn.Clock.{
  expire_slots, update_session_timers, start_update, expire_cookie, expire, handshake_due,
  keepalive_due, retransmit, rekey, update_live, update_timers,
}
use veil_vpn.Noise.Tunn.Expiry.{expire_slots_total}

-- No timer is ahead of the clock.
pub record OnTime (t : Tunn) (now : ℕ) : Type 0 where
  pub timer_le : (name : TimerName) → t.timers.timers name ≤ now
  pub session_le : All (λ s. s ≤ now) t.timers.session_timers

-- The call has an answer.
abbrev pub Answers : Option (Tunn × TunnResult) → Type 0
Answers o = (t : Tunn) × (r : TunnResult) × (o ≡ some (t, r))

pub at_least_total : (now t d : ℕ) → t ≤ now → at_least now t d ≡ some (leb d (now - t))
unfolding at_least since
at_least_total now t d b = ground arith

and_at_least_total :
    (x : Bool) (now t d : ℕ) → t ≤ now → and_at_least x now t d ≡ some (x && leb d (now - t))
unfolding and_at_least
and_at_least_total true now t d b = at_least_total now t d b
and_at_least_total false now t d b = refl

sessions_total :
    (t : Tunn) (now : ℕ)
    → All (λ s. s ≤ now) t.timers.session_timers
    → (u : Tunn) × (update_session_timers t now ≡ some u)
      × (u.timers.time_started ≡ t.timers.time_started)
      × ((name : TimerName) → u.timers.timers name ≡ t.timers.timers name)
      × (u.handshake ≡ t.handshake)
unfolding update_session_timers
sessions_total t now w =
    let (ss, ts, e) = expire_slots_total now t.sessions t.timers.session_timers w in
    let u : Tunn = record t { sessions = ss; timers = record (t.timers) { session_timers = ts } } in
    (u, rw e refl, refl, (λ name. refl), refl)

put_le :
    (t : Timers) (now : ℕ)
    → ((name : TimerName) → t.timers name ≤ now)
    → (name : TimerName) → (put t time_current now).timers name ≤ now
unfolding put
put_le t now w name = ground (arith, w name)

put-other :
    (t : Timers) (now : ℕ)
    → (put t time_current now).timers time_session_established ≡ t.timers time_session_established
unfolding put
put-other t now = refl

pub start_total :
    (t : Tunn) (time : ℕ)
    → OnTime t (time - t.timers.time_started)
    → (u : Tunn) × (start_update t time ≡ some u)
      × (u.timers.time_started ≡ t.timers.time_started)
      × ((name : TimerName) → u.timers.timers name ≤ time - t.timers.time_started)
      × (u.handshake ≡ t.handshake)
      × (u.timers.timers time_session_established ≡ t.timers.timers time_session_established)
unfolding start_update
start_total t time w =
    let now = time - t.timers.time_started in
    let limiter =
      if t.timers.should_reset_rr then reset_count t.rate_limiter time else t.rate_limiter in
    let (u, e, same, kept, h) =
      sessions_total (record t { rate_limiter = limiter; timers = put t.timers time_current now })
        now w.session_le in
    (
      u,
      e,
      same,
      (λ name. rw (kept name) (put_le t.timers now w.timer_le name)),
      h,
      kept time_session_established ∙ put-other t.timers now,
    )

pub cookie_total :
    (t : Tunn) (now : ℕ)
    → ((name : TimerName) → t.timers.timers name ≤ now)
    → (u : Tunn) × (expire_cookie t now ≡ some u) × (u.timers ≡ t.timers)
unfolding expire_cookie
cookie_total t now w =
    elim (Option-cases (
      and_at_least (has_cookie t.handshake) now (t.timers.timers time_cookie_received)
        cookie_expiration_time)) [
          | inl e ↦ absurd (
              ground (
                arith,
                e,
                and_at_least_total (has_cookie t.handshake) now
                    (t.timers.timers time_cookie_received) cookie_expiration_time
                    (w time_cookie_received),
              ))
          | inr (old, e) ↦
              let u : Tunn = record t {
                handshake = if old then clear_cookie t.handshake else t.handshake;
              } in
              (u, rw e refl, refl)
        ]

-- What is due is decided, and the timers are kept.
pub handshake_total :
    (t : Tunn) (now : ℕ)
    → ((name : TimerName) → t.timers.timers name ≤ now)
    → (u : Tunn) × (b : Bool) × (handshake_due t now ≡ some (u, b))
      × (u.timers.timers ≡ t.timers.timers)
unfolding handshake_due
handshake_total t now w = elim (Option-cases (handshake_due t now)) [
  | inl e ↦ absurd (
      ground (
        arith,
        e,
        and_at_least_total
            (t.timers.is_initiator
              && ltb (t.timers.timers time_session_established)
                  (t.timers.timers time_last_data_packet_sent))
            now (t.timers.timers time_session_established) rekey_after_time
            (w time_session_established),
        and_at_least_total
            (t.timers.is_initiator
              && ltb (t.timers.timers time_session_established)
                  (t.timers.timers time_last_data_packet_received))
            now (t.timers.timers time_session_established)
            (reject_after_time - keepalive_timeout - rekey_timeout) (w time_session_established),
        and_at_least_total
            (ltb (t.timers.timers time_last_packet_received)
              (t.timers.timers time_last_data_packet_sent))
            now (t.timers.timers time_last_packet_received) (keepalive_timeout + rekey_timeout)
            (w time_last_packet_received),
      ))
  | inr ((u, b), e) ↦ (u, b, e, ground (arith, e))
]

pub handshake_kept :
    (t u : Tunn) (now : ℕ) (b : Bool)
    → handshake_due t now ≡ some (u, b)
    → u.timers.timers ≡ t.timers.timers
unfolding handshake_due
handshake_kept t u now b e = ground (arith, e)

pub keepalive_total :
    (t : Tunn) (now : ℕ)
    → ((name : TimerName) → t.timers.timers name ≤ now)
    → (u : Tunn) × (b : Bool) × (keepalive_due t now ≡ some (u, b))
unfolding keepalive_due
keepalive_total t now w =
    let sent = t.timers.timers time_last_packet_sent in
    let persistent = t.timers.persistent_keepalive in
    elim (Option-cases (keepalive_due t now)) [
      | inl e ↦ absurd (
          ground (
            arith,
            e,
            and_at_least_total (ltb sent (t.timers.timers time_last_data_packet_received)) now sent
                keepalive_timeout (w time_last_packet_sent),
            and_at_least_total (ltb 0 persistent) now (t.timers.timers time_persistent_keepalive)
                (persistent * second) (w time_persistent_keepalive),
          ))
      | inr ((u, b), e) ↦ (u, b, e)
    ]
