-- ===== src/Noise/Tunn/Total/Update.antt =====
-- noise/timers.rs: `update_timers` has an answer while no timer is ahead of the clock, and ends a
-- connection whose session is too old.
use veil_vpn.Prelude.{
  ℕ, ◌-◌, ◌*◌, ◌≤◌, ◌≡◌, refl, ap, ◌∙◌, inl, inr, true, false, none, some, [], arith, leb,
  replicate, Bool-cases, Option-cases,
}
use veil_vpn.Noise.Errors.{connection_expired}
use veil_vpn.Noise.Crypto.{Crypto}
use veil_vpn.Noise.Session.Exchange.{format_cases}
use veil_vpn.Noise.Handshake.State.{expired, is_expired, set_expired, timer}
use veil_vpn.Noise.Handshake.Initiation.{Inputs}
use veil_vpn.Noise.RateLimiter.{TunnResult, done, failed}
use veil_vpn.Noise.Timers.{
  TimerName, n_sessions, time_session_established, reject_after_time, time_last_handshake_started,
  rekey_attempt_time,
}
use veil_vpn.Noise.Tunn.{Tunn, session_at, clear_all}
use veil_vpn.Noise.Tunn.Send.{encapsulate_with, encapsulate, format_handshake_initiation}
use veil_vpn.Noise.Tunn.Clock.{
  expire, handshake_due, keepalive_due, retransmit, rekey, update_live, update_timers,
}
use veil_vpn.Noise.Tunn.Total.{
  OnTime, Answers, at_least_total, start_total, cookie_total, handshake_total, handshake_kept,
  keepalive_total,
}

module _ (c : Crypto) where
  encapsulate_total : (t : Tunn) (i : Inputs) (n : ℕ) → 32 ≤ n → Answers (encapsulate c t [] i n)
  unfolding encapsulate encapsulate_with
  encapsulate_total t i n room = elim (Option-cases (encapsulate c t [] i n)) [
    | inr ((u, r), e) ↦ (u, r, e)
    | inl e ↦ elim (Option-cases (session_at t.sessions t.current)) [
      | inl f ↦ absurd (ground (arith, e, f))
      | inr (s, f) ↦ elim (format_cases c s [] n) [
        | inl (small, g) ↦ absurd (omega arith)
        | inr (fits, g) ↦ absurd (ground (arith, e, f, g))
      ]
    ]
  ]

  rekey_total :
      (t : Tunn) (i : Inputs) (n : ℕ)
      → 32 ≤ n
      → ((name : TimerName) → t.timers.timers name ≤ i.now - t.timers.time_started)
      → Answers (rekey c t i n)
  unfolding rekey
  rekey_total t i n room w =
      let now = i.now - t.timers.time_started in
      elim (Option-cases (handshake_due t now)) [
        | inl e ↦ let (u, b, e', kept) = handshake_total t now w in absurd (ground (arith, e, e'))
        | inr ((u, true), e) ↦
            let a = format_handshake_initiation c u i n true in (a.0, a.1, rw e refl)
        | inr ((u, false), e) ↦
            let kept = handshake_kept t u now false e in
            elim (Option-cases (keepalive_due u now)) [
              | inl f ↦
                  let (v, b, f') = keepalive_total u now (λ name. rw kept (w name)) in
                  absurd (ground (arith, f, f'))
              | inr ((v, true), f) ↦
                  let (x, r, g) = encapsulate_total v i n room in (x, r, rw (e, f) g)
              | inr ((v, false), f) ↦ (v, done, rw (e, f) refl)
            ]
      ]

  retransmit_total :
      (t : Tunn) (i : Inputs) (sent n : ℕ)
      → ((name : TimerName) → t.timers.timers name ≤ i.now - t.timers.time_started)
      → Answers (retransmit c t i sent n)
  unfolding retransmit
  retransmit_total t i sent n w =
      let now = i.now - t.timers.time_started in
      let started = t.timers.timers time_last_handshake_started in
      elim (Option-cases (retransmit c t i sent n)) [
        | inl e ↦ absurd (
            ground (
              arith,
              e,
              at_least_total now started rekey_attempt_time (w time_last_handshake_started),
            ))
        | inr ((u, r), e) ↦ (u, r, e)
      ]

  live_total :
      (t : Tunn) (i : Inputs) (n : ℕ)
      → 32 ≤ n
      → ((name : TimerName) → t.timers.timers name ≤ i.now - t.timers.time_started)
      → Answers (update_live c t i n)
  unfolding update_live
  live_total t i n room w = elim (Option-cases (timer t.handshake)) [
    | inl e ↦ rw (e, update_live) (rekey_total t i n room w)
    | inr (sent, e) ↦ rw (e, update_live) (retransmit_total t i sent n w)
  ]

  -- No panic: while no timer is ahead of the clock and the buffer holds a keepalive, a tick of the
  -- clock has an answer.
  pub update_timers_total :
      (t : Tunn) (i : Inputs) (n : ℕ)
      → OnTime t (i.now - t.timers.time_started)
      → 32 ≤ n
      → (u : Tunn) × (r : TunnResult) × (update_timers c t i n ≡ some (u, r))
  unfolding update_timers
  update_timers_total t i n w room =
      let now = i.now - t.timers.time_started in
      let (t1, e, same, le, h, est) = start_total t i.now w in
      let (t2, g, kept) = cookie_total t1 now le in
      let le2 : (name : TimerName) → t2.timers.timers name ≤ now = λ name. rw kept (le name) in
      let aged =
        at_least_total now (t2.timers.timers time_session_established) (reject_after_time * 3)
          (le2 time_session_established) in
      elim (Bool-cases (is_expired t1.handshake)) [
        | inl f ↦ (t1, failed connection_expired, rw (e, f) refl)
        | inr f ↦
            elim (Bool-cases
              (leb (reject_after_time * 3) (now - t2.timers.timers time_session_established))) [
                | inl o ↦
                    ((expire t2 i.now).0, failed connection_expired, rw (e, f, g, aged, o) refl)
                | inr o ↦
                    let started : t2.timers.time_started ≡ t.timers.time_started =
                      ap (λ x. x.time_started) kept ∙ same in
                    let (u, r, h) = live_total t2 i n room (λ name. rw started (le2 name)) in
                    (u, r, rw (e, f, g, aged, o) h)
              ]
      ]

  -- The end of a connection: on a tick at which no timer is ahead of the clock, no new session was
  -- established for three times the reject time, and the handshake is not expired yet, every session
  -- and every queued packet is dropped, both states of the handshake expire, and the caller is told.
  pub update_timers-expires :
      (t : Tunn) (i : Inputs) (n : ℕ)
      → OnTime t (i.now - t.timers.time_started)
      → is_expired t.handshake ≡ false
      → reject_after_time * 3
        ≤ i.now - t.timers.time_started - t.timers.timers time_session_established
      → (u : Tunn) × (update_timers c t i n ≡ some (u, failed connection_expired))
        × (u.sessions ≡ replicate n_sessions none)
        × (u.packet_queue ≡ [])
        × (u.handshake.state ≡ expired)
        × (u.handshake.previous ≡ expired)
  unfolding update_timers expire clear_all set_expired
  update_timers-expires t i n w live old =
      let now = i.now - t.timers.time_started in
      let (t1, e, same, le, h, est) = start_total t i.now w in
      let (t2, g, kept) = cookie_total t1 now le in
      let le2 : t2.timers.timers time_session_established ≤ now =
        rw kept (le time_session_established) in
      let aged =
        at_least_total now (t2.timers.timers time_session_established) (reject_after_time * 3)
          le2 in
      let alive : is_expired t1.handshake ≡ false = ap is_expired h ∙ live in
      let gone : leb (reject_after_time * 3) (now - t2.timers.timers time_session_established)
          ≡ true =
        rw (kept, est) (ground (arith, old)) in
      ((expire t2 i.now).0, rw (e, alive, g, aged, gone) refl, refl, refl, refl, refl)
