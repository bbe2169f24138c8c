-- ===== src/Noise/Tunn/Invariant/Clocked.antt =====
-- noise/timers.rs: a tick of the clock keeps the invariant of a tunnel.
use veil_vpn.Prelude.{
  ℕ, zero, suc, ◌-◌, ◌*◌, ◌<◌, ◌≡◌, refl, sym, ◌∙◌, inl, inr, Bool, true, false, Option, none, some,
  List, [], ◌∷◌, arith, length, get_or, leb, Bool-cases, Option-cases,
}
use veil_vpn.Noise.Crypto.{Crypto}
use veil_vpn.Noise.Session.{Session}
use veil_vpn.Noise.Handshake.State.{is_expired, timer}
use veil_vpn.Noise.Handshake.Initiation.{Inputs}
use veil_vpn.Noise.Timers.{
  put, tick, at_least, time_session_established, reject_after_time, time_last_handshake_started,
  rekey_attempt_time, rekey_timeout,
}
use veil_vpn.Noise.Tunn.{Tunn, timer_tick}
use veil_vpn.Noise.Tunn.Clock.{
  expire_slots, update_session_timers, start_update, expire_cookie, expire, handshake_due,
  keepalive_due, retransmit, rekey, update_live, update_timers,
}
use veil_vpn.Noise.Tunn.Expiry.{expire_slots-length, expire_slots-Slot, Slot}
use veil_vpn.Noise.Tunn.Invariant.{IsTunn, IsTunn-clear_all}
use veil_vpn.Noise.Tunn.Invariant.Sending.{Keeps, IsTunn-same, format-IsTunn, encapsulate-Keeps}

Slot-kept :
    (now k : ℕ) (ss ss' : List (Option Session)) (ts ts' : List ℕ) (s : Session)
    → Slot now k ss ss' ts ts'
    → get_or ss' k none ≡ some s
    → get_or ss k none ≡ some s
Slot-kept now k ss ss' ts ts' s slot h = elim slot.outcome [
  | inl (old, gone, set) ↦ absurd (ground (arith, gone, h))
  | inr (young, kept, same) ↦ sym kept ∙ h
]

get_or-some :
    (ss : List (Option Session)) (k : ℕ) (s : Session) → get_or ss k none ≡ some s → k < length ss
get_or-some [] k s h = ground arith
get_or-some (x ∷ ss) zero s h = omega arith
get_or-some (x ∷ ss) (suc k) s h = omega (arith, get_or-some ss k s h)

sessions-IsTunn :
    (t u : Tunn) (now : ℕ) → IsTunn t → update_session_timers t now ≡ some u → IsTunn u
unfolding update_session_timers
sessions-IsTunn t u now w h =
    elim (Option-cases (expire_slots now t.sessions t.timers.session_timers)) [
      | inl e ↦ absurd (ground (arith, e))
      | inr ((ss, ts), e) ↦
          let (n_ss, n_ts) = expire_slots-length now t.sessions ss t.timers.session_timers ts e in
          let after : Tunn = record t {
            sessions = ss;
            timers = record (t.timers) { session_timers = ts };
          } in
          let made : u ≡ after = ground (arith, e) in
          rw made (record {
            sized = n_ss ∙ w.sized;
            placed = λ k s g. w.placed k s (
                Slot-kept now k t.sessions ss t.timers.session_timers ts s
                  (expire_slots-Slot now t.sessions ss t.timers.session_timers ts e
                    (w.sized ∙ sym w.timed) k (omega (arith, get_or-some ss k s g, n_ss)))
                  g);
            timed = n_ts ∙ w.timed;
            queued = w.queued;
          })
    ]

start-IsTunn : (t u : Tunn) (time : ℕ) → IsTunn t → start_update t time ≡ some u → IsTunn u
unfolding start_update put
start-IsTunn t u time w h =
    sessions-IsTunn _ u (time - t.timers.time_started) (IsTunn-same t _ w refl refl refl) h

cookie-IsTunn : (t u : Tunn) (now : ℕ) → IsTunn t → expire_cookie t now ≡ some u → IsTunn u
unfolding expire_cookie
cookie-IsTunn t u now w h = IsTunn-same t u w (ground arith) (ground arith) (ground arith)

expire-IsTunn : (t : Tunn) (time : ℕ) → IsTunn t → IsTunn (expire t time).0
unfolding expire
expire-IsTunn t time w = IsTunn-clear_all _ (IsTunn-same t _ w refl refl refl) time

handshake_due-IsTunn :
    (t u : Tunn) (now : ℕ) (b : Bool) → IsTunn t → handshake_due t now ≡ some (u, b) → IsTunn u
unfolding handshake_due
handshake_due-IsTunn t u now b w h = IsTunn-same t u w (ground arith) (ground arith) (ground arith)

keepalive_due-IsTunn :
    (t u : Tunn) (now : ℕ) (b : Bool) → IsTunn t → keepalive_due t now ≡ some (u, b) → IsTunn u
unfolding keepalive_due timer_tick tick put
keepalive_due-IsTunn t u now b w h = IsTunn-same t u w (ground arith) (ground arith) (ground arith)

module _ (c : Crypto) where
  retransmit-Keeps :
      (t : Tunn) (i : Inputs) (sent n : ℕ) → IsTunn t → Keeps (retransmit c t i sent n)
  unfolding retransmit
  retransmit-Keeps t i sent n w =
      let now = i.now - t.timers.time_started in
      elim (Option-cases
        (at_least now (t.timers.timers time_last_handshake_started) rekey_attempt_time)) [
          | inl e ↦ rw e tt
          | inr (true, e) ↦ rw e (expire-IsTunn t i.now w)
          | inr (false, e) ↦ elim (Bool-cases (leb rekey_timeout (i.now - sent))) [
            | inl f ↦ rw (e, f) (format-IsTunn c t i n true w)
            | inr f ↦ rw (e, f) w
          ]
        ]

  rekey-Keeps : (t : Tunn) (i : Inputs) (n : ℕ) → IsTunn t → Keeps (rekey c t i n)
  unfolding rekey
  rekey-Keeps t i n w =
      let now = i.now - t.timers.time_started in
      elim (Option-cases (handshake_due t now)) [
        | inl e ↦ rw e tt
        | inr ((t1, true), e) ↦
            rw e (format-IsTunn c t1 i n true (handshake_due-IsTunn t t1 now true w e))
        | inr ((t1, false), e) ↦
            let w1 = handshake_due-IsTunn t t1 now false w e in
            elim (Option-cases (keepalive_due t1 now)) [
              | inl f ↦ rw (e, f) tt
              | inr ((t2, true), f) ↦
                  rw (e, f)
                    (encapsulate-Keeps c t2 [] i n (keepalive_due-IsTunn t1 t2 now true w1 f))
              | inr ((t2, false), f) ↦ rw (e, f) (keepalive_due-IsTunn t1 t2 now false w1 f)
            ]
      ]

  live-Keeps : (t : Tunn) (i : Inputs) (n : ℕ) → IsTunn t → Keeps (update_live c t i n)
  unfolding update_live
  live-Keeps t i n w = elim (Option-cases (timer t.handshake)) [
    | inl e ↦ rw (e, update_live) (rekey-Keeps t i n w)
    | inr (sent, e) ↦ rw (e, update_live) (retransmit-Keeps t i sent n w)
  ]

  pub update_timers-Keeps :
      (t : Tunn) (i : Inputs) (n : ℕ) → IsTunn t → Keeps (update_timers c t i n)
  unfolding update_timers
  update_timers-Keeps t i n w =
      let now = i.now - t.timers.time_started in
      elim (Option-cases (start_update t i.now)) [
        | inl e ↦ rw e tt
        | inr (t1, e) ↦
            let w1 = start-IsTunn t t1 i.now w e in
            elim (Bool-cases (is_expired t1.handshake)) [
              | inl f ↦ rw (e, f) w1
              | inr f ↦ elim (Option-cases (expire_cookie t1 now)) [
                | inl g ↦ rw (e, f, g) tt
                | inr (t2, g) ↦
                    let w2 = cookie-IsTunn t1 t2 now w1 g in
                    elim (Option-cases (
                      at_least now (t2.timers.timers time_session_established)
                        (reject_after_time * 3))) [
                          | inl o ↦ rw (e, f, g, o) tt
                          | inr (true, o) ↦ rw (e, f, g, o) (expire-IsTunn t2 i.now w2)
                          | inr (false, o) ↦ rw (e, f, g, o) (live-Keeps t2 i n w2)
                        ]
              ]
            ]
      ]
