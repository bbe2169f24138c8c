-- ===== src/Device/Inbound/Flushed.antt =====
-- The loop that flushes the queue ends within its fuel.
use veil_vpn.Prelude.{
  ℕ, zero, suc, ◌+◌, ◌≤◌, ◌<◌, ◌≡◌, refl, ap, ◌∙◌, inl, inr, ◌⊎◌, Bool, true, false, none, some,
  List, [], ◌∷◌, arith, All, length, Bool-cases, Option-cases,
}
use veil_vpn.Prelude.Bytes.{Bytes}
use veil_vpn.Noise.Errors.{WireGuardError, Result, ok, err}
use veil_vpn.Noise.Crypto.{Crypto}
use veil_vpn.Noise.Session.{Session}
use veil_vpn.Noise.Handshake.State.{Handshake, is_in_progress, is_expired, append_mac1_and_mac2}
use veil_vpn.Noise.Handshake.Initiation as Initiation
use veil_vpn.Noise.Handshake.Initiation.{Inputs}
use veil_vpn.Noise.RateLimiter.{TunnResult, done, failed, write_to_network}
use veil_vpn.Noise.Tunn.{
  Tunn, session_at, timer_tick, queue_packet, dequeue_packet, max_queue_depth,
}
use veil_vpn.Noise.Tunn.Send.{
  initiated, format_handshake_initiation, encapsulate, requeue_failed, send_queued_packet,
}
use veil_vpn.Noise.Tunn.Receive.{decapsulate}
use veil_vpn.Noise.Tunn.Queue.{send_front, datagram_of, moved_on}
use veil_vpn.Noise.Tunn.Invariant.{IsTunn}
use veil_vpn.Noise.Tunn.Invariant.Sending.{Keeps-some, send_queued-Keeps}
use veil_vpn.Device.Inbound.{Context}
use veil_vpn.Device.Inbound.Rounds.{flush_fuel, flush_queue}

module _ (c : Crypto) (k : Context) where
  -- The loop ends, with a tunnel.
  abbrev Ends : ℕ → Tunn → Type 0
  Ends fuel t = (t' : Tunn) × (sent : List Bytes) × (flush_queue c fuel t k ≡ some (t', sent))

  -- An answer without a datagram ends it at once.
  Ends-at_once :
      (fuel : ℕ) (t t' : Tunn)
      → send_queued_packet c t k.inputs k.dst_len ≡ some (t', done)
      → Ends (suc fuel) t
  unfolding flush_queue decapsulate
  Ends-at_once fuel t t' h = (t', [], rw h refl)

  -- A datagram sends it round once more.
  goes_round :
      (fuel : ℕ) (t t' : Tunn) (packet : Bytes)
      → send_queued_packet c t k.inputs k.dst_len ≡ some (t', write_to_network packet)
      → Ends fuel t'
      → Ends (suc fuel) t
  unfolding flush_queue decapsulate
  goes_round fuel t t' packet h (t'', sent, flushes) = (t'', packet ∷ sent, rw (h, flushes) refl)

  -- Nothing waits.
  empty-Ends : (fuel : ℕ) (t : Tunn) → t.packet_queue ≡ [] → Ends (suc fuel) t
  empty-Ends fuel t h = Ends-at_once fuel t t (nothing t h)
    where
      nothing :
          (t : Tunn)
          → t.packet_queue ≡ []
          → send_queued_packet c t k.inputs k.dst_len ≡ some (t, done)
      nothing t h = unfold send_queued_packet dequeue_packet in ground (arith, h)

  -- With a session each round takes a packet off the queue.
  session-Ends :
      (fuel : ℕ) (t : Tunn) (s : Session) (ps : List Bytes)
      → IsTunn t
      → t.packet_queue ≡ ps
      → session_at t.sessions t.current ≡ some s
      → All (λ p. length p + 32 ≤ k.dst_len) ps
      → length ps < fuel
      → Ends fuel t
  session-Ends zero t s ps w queue here room h = absurd (omega arith)
  session-Ends (suc fuel) t s [] w queue here room h = empty-Ends fuel t queue
  session-Ends (suc fuel) t s (p ∷ ps) w queue here (fits, room) h =
      let (u, sends, rest, next) = send_front c t s p ps k.inputs k.dst_len w queue here fits in
      let w' : IsTunn u =
        Keeps-some u (write_to_network (datagram_of c s p))
          (send_queued-Keeps c t k.inputs k.dst_len w) sends in
      goes_round fuel t u (datagram_of c s p) sends
        (session-Ends fuel u (moved_on c s) ps w' rest next room (omega arith))

  -- An initiation that was formatted leaves the handshake in progress.
  initiation_in_progress :
      (h h' : Handshake) (i : Inputs) (n : ℕ) (packet : Bytes)
      → Initiation.format_handshake_initiation c h i n ≡ (h', ok packet)
      → is_in_progress h' ≡ true
  unfolding Initiation.format_handshake_initiation append_mac1_and_mac2 is_in_progress
  initiation_in_progress h h' i n packet e = ground arith

  -- The tunnel for which a packet that was taken from the queue is encapsulated.
  queued_again :
      (t t1 : Tunn) (packet : Bytes)
      → dequeue_packet t ≡ some (packet, t1)
      → session_at t.sessions t.current ≡ none
      → (session_at t1.sessions t1.current ≡ none)
        × (session_at (queue_packet t1 packet).sessions (queue_packet t1 packet).current ≡ none)
        × ((queue_packet t1 packet).handshake ≡ t.handshake)
  unfolding dequeue_packet queue_packet
  queued_again t t1 packet h none_here = (ground arith, ground arith, ground arith)

  -- What is sent for the packet when there is no session.
  sends_initiation :
      (t t1 : Tunn) (packet : Bytes)
      → dequeue_packet t ≡ some (packet, t1)
      → session_at t1.sessions t1.current ≡ none
      → send_queued_packet c t k.inputs k.dst_len
        ≡ requeue_failed c packet
            (some (format_handshake_initiation c (queue_packet t1 packet) k.inputs k.dst_len false))
  unfolding send_queued_packet encapsulate
  sends_initiation t t1 packet h none_here = rw (h, none_here, send_queued_packet, encapsulate) refl

  -- Without a session, and with a handshake under way, the packet waits on.
  busy-Ends :
      (fuel : ℕ) (t : Tunn)
      → session_at t.sessions t.current ≡ none
      → is_in_progress t.handshake ≡ true
      → Ends (suc fuel) t
  busy-Ends fuel t none_here busy = elim (Option-cases (dequeue_packet t)) [
    | inl h ↦ Ends-at_once fuel t t (unfold send_queued_packet in rw (h, send_queued_packet) refl)
    | inr ((packet, t1), h) ↦
        let (a, b, e) = queued_again t t1 packet h none_here in
        Ends-at_once fuel t (queue_packet t1 packet)
          (sends_initiation t t1 packet h a ∙ waits (queue_packet t1 packet) packet e)
  ]
    where
      waits :
          (u : Tunn) (packet : Bytes)
          → u.handshake ≡ t.handshake
          → requeue_failed c packet
              (some (format_handshake_initiation c u k.inputs k.dst_len false))
            ≡ some (u, done)
      waits u packet e =
          unfold format_handshake_initiation requeue_failed in
          rw (ap is_in_progress e ∙ busy, format_handshake_initiation) refl

  -- Without a session and a handshake, the answer is an initiation, which leaves the handshake in
  -- progress and the sessions as they were, or an error.
  Initiates : Tunn → Tunn × TunnResult → Type 0
  Initiates u x =
      ((e : WireGuardError) × (x.1 ≡ failed e))
      ⊎ ((m : Bytes) × (x.1 ≡ write_to_network m)
          × (session_at x.0.sessions x.0.current ≡ session_at u.sessions u.current)
          × (is_in_progress x.0.handshake ≡ true))

  initiated-Initiates :
      (u v : Tunn) (started : Bool) (r : Handshake × Result Bytes)
      → Initiation.format_handshake_initiation c v.handshake k.inputs k.dst_len ≡ r
      → session_at v.sessions v.current ≡ session_at u.sessions u.current
      → Initiates u (initiated c v started r)
  unfolding Initiates initiated timer_tick
  initiated-Initiates u v started (h, err e) made same = inl (e, refl)
  initiated-Initiates u v true (h, ok m) made same =
      inr (m, refl, same, initiation_in_progress v.handshake h k.inputs k.dst_len m made)
  initiated-Initiates u v false (h, ok m) made same =
      inr (m, refl, same, initiation_in_progress v.handshake h k.inputs k.dst_len m made)

  format-Initiates :
      (u : Tunn)
      → is_in_progress u.handshake ≡ false
      → Initiates u (format_handshake_initiation c u k.inputs k.dst_len false)
  unfolding format_handshake_initiation
  format-Initiates u idle =
      rw (idle, format_handshake_initiation)
        (initiated-Initiates u _ _ _ refl
          (elim (Bool-cases (is_expired u.handshake)) [ inl e ↦ rw e refl | inr e ↦ rw e refl ]))

  -- Without either, the loop sends at most the initiation.
  idle-Ends :
      (fuel : ℕ) (t : Tunn)
      → session_at t.sessions t.current ≡ none
      → is_in_progress t.handshake ≡ false
      → Ends (suc (suc fuel)) t
  unfolding Initiates requeue_failed
  idle-Ends fuel t none_here idle = elim (Option-cases (dequeue_packet t)) [
    | inl h ↦
        Ends-at_once (suc fuel) t t (unfold send_queued_packet in rw (h, send_queued_packet) refl)
    | inr ((packet, t1), h) ↦
        let (a, b, e) = queued_again t t1 packet h none_here in
        let u : Tunn = queue_packet t1 packet in
        after packet u _ (sends_initiation t t1 packet h a) b
          (format-Initiates u (ap is_in_progress e ∙ idle))
  ]
    where
      after :
          (packet : Bytes) (u : Tunn) (x : Tunn × TunnResult)
          → send_queued_packet c t k.inputs k.dst_len ≡ requeue_failed c packet (some x)
          → session_at u.sessions u.current ≡ none
          → Initiates u x
          → Ends (suc (suc fuel)) t
      after packet u (v, r) sends b (inl (e, is)) =
          Ends-at_once (suc fuel) t _ (sends ∙ ap (λ y. requeue_failed c packet (some (v, y))) is)
      after packet u (v, r) sends b (inr (m, is, same, busy)) =
          goes_round (suc fuel) t v m (sends ∙ ap (λ y. requeue_failed c packet (some (v, y))) is)
            (busy-Ends fuel v (same ∙ b) busy)

  -- The loop that flushes the queue of a tunnel in its invariant ends within its fuel, when the
  -- buffer has room for each packet that waits.
  pub flush_queue-total :
      (t : Tunn)
      → IsTunn t
      → All (λ p. length p + 32 ≤ k.dst_len) t.packet_queue
      → (t' : Tunn) × (sent : List Bytes) × (flush_queue c flush_fuel t k ≡ some (t', sent))
  flush_queue-total t w room = elim (Option-cases (session_at t.sessions t.current)) [
    | inr (s, here) ↦
        session-Ends flush_fuel t s t.packet_queue w refl here room (omega (arith, w.queued))
    | inl none_here ↦ elim (Bool-cases (is_in_progress t.handshake)) [
      | inl busy ↦ busy-Ends (suc max_queue_depth) t none_here busy
      | inr idle ↦ idle-Ends max_queue_depth t none_here idle
    ]
  ]
