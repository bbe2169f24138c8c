-- ===== src/Noise/Tunn/Invariant/Sending.antt =====
-- noise/mod.rs: what is sent keeps the invariant of a tunnel.
use mathlib.Core.Path.{subst}
use veil_vpn.Prelude.{
  ℕ, ◌%◌, ◌≡◌, refl, sym, ap, ◌∙◌, inl, inr, Bool, true, false, Option, none, some, ◌∷◌, arith,
  length, get_or, set, Bool-cases, ◌==◌, Option-cases, if◌then◌else◌, not, ◌&&◌,
}
use veil_vpn.Prelude.Bytes.{Bytes}
use veil_vpn.Noise.Errors.{Result, ok, err}
use veil_vpn.Noise.Crypto.{Crypto}
use veil_vpn.Noise.Session.{Session, format_packet_data}
use veil_vpn.Noise.Handshake.State.{Handshake, is_expired, is_in_progress}
use veil_vpn.Noise.Handshake.Initiation as Initiation
use veil_vpn.Noise.Handshake.Initiation.{Inputs}
use veil_vpn.Noise.RateLimiter.{TunnResult, done, failed, write_to_network}
use veil_vpn.Noise.Timers
use veil_vpn.Noise.Timers.{n_sessions}
use veil_vpn.Noise.Tunn.{Tunn, session_at, timer_tick, queue_packet, dequeue_packet}
use veil_vpn.Noise.Tunn.Send.{
  initiated, format_handshake_initiation, encapsulate_with, encapsulate, requeue_failed,
  send_queued_packet,
}
use veil_vpn.Noise.Tunn.Invariant.{
  IsTunn, IsTunn-if, IsTunn-set, IsTunn-timer_tick, IsTunn-queue_packet, IsTunn-requeue_packet,
}

-- The tunnel of an answer, when there is one, meets the invariant.
abbrev pub Keeps : Option (Tunn × TunnResult) → Type 0
Keeps none = Unit
Keeps (some (t, r)) = IsTunn t

pub Keeps-some :
    {o : Option (Tunn × TunnResult)} (t : Tunn) (r : TunnResult)
    → Keeps o
    → o ≡ some (t, r)
    → IsTunn t
Keeps-some t r k e = subst Keeps e k

-- The parts that the invariant reads.
pub IsTunn-same :
    (t u : Tunn)
    → IsTunn t
    → u.sessions ≡ t.sessions
    → u.timers.session_timers ≡ t.timers.session_timers
    → u.packet_queue ≡ t.packet_queue
    → IsTunn u
IsTunn-same t u w a b d = record {
  sized = ap length a ∙ w.sized;
  placed = λ k s h. w.placed k s (sym (ap (λ l. get_or l k none) a) ∙ h);
  timed = ap length b ∙ w.timed;
  queued = rw d (w.queued);
}

IsTunn-clear :
    (t : Tunn) → IsTunn t → (now : ℕ) → IsTunn (record t { timers = Timers.clear t.timers now })
unfolding Timers.clear
IsTunn-clear t w now = IsTunn-same t _ w refl refl refl

module _ (c : Crypto) where
  initiated-IsTunn :
      (t : Tunn) (b : Bool) (a : Handshake × Result Bytes) → IsTunn t → IsTunn (initiated c t b a).0
  unfolding initiated
  initiated-IsTunn t true (h, ok packet) w =
      IsTunn-timer_tick _
        (IsTunn-timer_tick _ (IsTunn-same t (record t { handshake = h }) w refl refl refl) _) _
  initiated-IsTunn t false (h, ok packet) w =
      IsTunn-timer_tick _ (IsTunn-same t (record t { handshake = h }) w refl refl refl) _
  initiated-IsTunn t b (h, err e) w = IsTunn-same t (record t { handshake = h }) w refl refl refl

  pub format-IsTunn :
      (t : Tunn) (i : Inputs) (n : ℕ) (b : Bool)
      → IsTunn t
      → IsTunn (format_handshake_initiation c t i n b).0
  unfolding format_handshake_initiation
  format-IsTunn t i n b w = elim (Bool-cases (is_in_progress t.handshake && not b)) [
    | inl e ↦ rw e w
    | inr e ↦
        let cleared = record t { timers = Timers.clear t.timers i.now } in
        let t1 = if is_expired t.handshake then cleared else t in
        let w1 : IsTunn t1 =
          IsTunn-if {t = cleared} {u = t} (is_expired t.handshake) (IsTunn-clear t w i.now) w in
        rw e (
          initiated-IsTunn t1 (not (is_in_progress t1.handshake))
            (Initiation.format_handshake_initiation c t1.handshake i n) w1)
  ]

  pub format-index :
      (s s' : Session) (src packet : Bytes) (n : ℕ)
      → format_packet_data c s src n ≡ some (s', packet)
      → s'.receiving_index ≡ s.receiving_index
  unfolding format_packet_data
  format-index s s' src packet n h = ground arith

  pub placed_at :
      (t : Tunn) (w : IsTunn t) (idx : ℕ) (s : Session)
      → session_at t.sessions idx ≡ some s
      → s.receiving_index % n_sessions ≡ idx % n_sessions
  unfolding session_at
  placed_at t w idx s e = w.placed (idx % n_sessions) s e

  encapsulate_with-Keeps :
      (t : Tunn) (s : Session) (src : Bytes) (n : ℕ)
      → IsTunn t
      → session_at t.sessions t.current ≡ some s
      → Keeps (encapsulate_with c t s src n)
  unfolding encapsulate_with
  encapsulate_with-Keeps t s src n w e = elim (Option-cases (format_packet_data c s src n)) [
    | inl f ↦ rw (f, encapsulate_with) tt
    | inr ((s', packet), f) ↦
        let t1 = record t { sessions = set t.sessions (t.current % n_sessions) (some s') } in
        let w1 : IsTunn t1 = IsTunn-set t w t.current s' (
          ap (λ k. k % n_sessions) (format-index s s' src packet n f)
          ∙ placed_at t w t.current s e) in
        let t2 = timer_tick t1 Timers.time_last_packet_sent in
        let w2 : IsTunn t2 = IsTunn-timer_tick t1 w1 _ in
        let t3 = if length src == 0 then t2 else timer_tick t2 Timers.time_last_data_packet_sent in
        let w3 : IsTunn t3 =
          IsTunn-if {t = t2} {u = timer_tick t2 Timers.time_last_data_packet_sent} (length src == 0)
            w2 (IsTunn-timer_tick t2 w2 _) in
        rw (f, encapsulate_with) (IsTunn-same t3 _ w3 refl refl refl)
  ]

  pub encapsulate-Keeps :
      (t : Tunn) (src : Bytes) (i : Inputs) (n : ℕ) → IsTunn t → Keeps (encapsulate c t src i n)
  unfolding encapsulate
  encapsulate-Keeps t src i n w = elim (Option-cases (session_at t.sessions t.current)) [
    | inl e ↦
        rw (e, encapsulate)
          (format-IsTunn (queue_packet t src) i n false (IsTunn-queue_packet t w src))
    | inr (s, e) ↦ rw (e, encapsulate) (encapsulate_with-Keeps t s src n w e)
  ]

  requeue-Keeps :
      (packet : Bytes) (o : Option (Tunn × TunnResult))
      → Keeps o
      → Keeps (requeue_failed c packet o)
  unfolding requeue_failed
  requeue-Keeps packet none k = tt
  requeue-Keeps packet (some (t, failed e)) k = IsTunn-requeue_packet t k packet
  requeue-Keeps packet (some (t, done)) k = k
  requeue-Keeps packet (some (t, write_to_network b)) k = k
  requeue-Keeps packet (some (t, r)) k = k

  dequeue-IsTunn :
      (t u : Tunn) (packet : Bytes) → dequeue_packet t ≡ some (packet, u) → IsTunn t → IsTunn u
  unfolding dequeue_packet
  dequeue-IsTunn t u packet e w = record {
    sized = ap length (ground arith) ∙ w.sized;
    placed = λ k s h. w.placed k s (ground arith);
    timed = ap length (ground arith) ∙ w.timed;
    queued = omega (arith, w.queued, ap length (the_queue));
  }
    where
      the_queue : t.packet_queue ≡ packet ∷ u.packet_queue
      the_queue = unfold dequeue_packet in ground arith

  pub send_queued-Keeps :
      (t : Tunn) (i : Inputs) (n : ℕ) → IsTunn t → Keeps (send_queued_packet c t i n)
  unfolding send_queued_packet
  send_queued-Keeps t i n w = elim (Option-cases (dequeue_packet t)) [
    | inl e ↦ rw (e, send_queued_packet) w
    | inr ((packet, u), e) ↦
        rw (e, send_queued_packet)
          (requeue-Keeps packet (encapsulate c u packet i n)
            (encapsulate-Keeps u packet i n (dequeue-IsTunn t u packet e w)))
  ]
