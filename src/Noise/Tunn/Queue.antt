-- ===== src/Noise/Tunn/Queue.antt =====
-- noise/mod.rs: the packets that waited for a session are sent in their order, when the caller
-- repeats the call as `decapsulate` asks.
use veil_vpn.Prelude.{
  ℕ, zero, suc, ◌+◌, ◌%◌, ◌≤◌, ◌≡◌, refl, inl, inr, Option, none, some, List, [], ◌∷◌, arith, All,
  length, get_or-set, set, add_u64, ◌==◌, ◌>>=◌, if◌then◌else◌,
}
use veil_vpn.Prelude.Bytes.{Bytes}
use veil_vpn.Noise.Crypto.{Crypto}
use veil_vpn.Noise.Packet.Layout.{data_layout}
use veil_vpn.Noise.Session.{Session, format_packet_data}
use veil_vpn.Noise.Session.Exchange.{sealed, format_cases}
use veil_vpn.Noise.Handshake.Initiation.{Inputs}
use veil_vpn.Noise.RateLimiter.{TunnResult, write_to_network}
use veil_vpn.Noise.Timers.{n_sessions, time_last_packet_sent, time_last_data_packet_sent}
use veil_vpn.Noise.Tunn.{Tunn, session_at, dequeue_packet, timer_tick}
use veil_vpn.Noise.Tunn.Send.{encapsulate, encapsulate_with, send_queued_packet, requeue_failed}
use veil_vpn.Noise.Tunn.Invariant.{IsTunn}
use veil_vpn.Noise.Tunn.Invariant.Sending.{Keeps-some, send_queued-Keeps}

-- A number of repeated calls with an empty datagram, and their results.
unfoldable pub drain : Crypto → ℕ → Tunn → Inputs → ℕ → Option (Tunn × List TunnResult)
drain c zero t i n = some (t, [])
drain c (suc k) t i n = do
  (u, r) ← send_queued_packet c t i n
  (v, rs) ← drain c k u i n
  some (v, r ∷ rs)

module _ (c : Crypto) where
  abbrev pub datagram_of : Session → Bytes → Bytes
  datagram_of s p = data_layout s.sending_index s.sending_key_counter (sealed c s p)

  abbrev pub moved_on : Session → Session
  moved_on s = record s { sending_key_counter = add_u64 s.sending_key_counter 1 }

  -- What a session sends for packets in order: the counters count on.
  abbrev pub datagrams : Session → List Bytes → List TunnResult
  datagrams s [] = []
  datagrams s (p ∷ ps) = write_to_network (datagram_of s p) ∷ datagrams (moved_on s) ps

  -- One call takes the front of the queue.
  pub send_front :
      (t : Tunn) (s : Session) (p : Bytes) (ps : List Bytes) (i : Inputs) (n : ℕ)
      → IsTunn t
      → t.packet_queue ≡ p ∷ ps
      → session_at t.sessions t.current ≡ some s
      → length p + 32 ≤ n
      → (u : Tunn) × (send_queued_packet c t i n ≡ some (u, write_to_network (datagram_of s p)))
        × (u.packet_queue ≡ ps)
        × (session_at u.sessions u.current ≡ some (moved_on s))
  send_front t s p ps i n w queue here room = (u, sends, rest, next)
    where
      t1 : Tunn
      t1 = record t { packet_queue = ps }

      sessions : List (Option Session)
      sessions = set t.sessions (t.current % n_sessions) (some (moved_on s))

      -- The timers and the count of bytes aside.
      u : Tunn
      u =
          let a = timer_tick (record t1 { sessions = sessions }) time_last_packet_sent in
          let b = if length p == 0 then a else timer_tick a time_last_data_packet_sent in
          record b { tx_bytes = add_u64 b.tx_bytes (length p) }

      taken : dequeue_packet t ≡ some (p, t1)
      taken = unfold dequeue_packet in rw (queue, dequeue_packet) refl

      formatted : format_packet_data c s p n ≡ some (moved_on s, datagram_of s p)
      formatted = elim (format_cases c s p n) [
        | inl (small, g) ↦ absurd (omega (arith, room, small))
        | inr (fits, g) ↦ g
      ]

      encapsulates : encapsulate c t1 p i n ≡ some (u, write_to_network (datagram_of s p))
      encapsulates =
          unfold encapsulate encapsulate_with in
          rw (here, encapsulate, formatted, encapsulate_with) refl

      sends : send_queued_packet c t i n ≡ some (u, write_to_network (datagram_of s p))
      sends =
          unfold send_queued_packet requeue_failed in
          rw (taken, send_queued_packet, encapsulates) refl

      rest : u.packet_queue ≡ ps
      rest = unfold timer_tick in ground arith

      sessions_eq : u.sessions ≡ sessions
      sessions_eq = unfold timer_tick in ground arith

      current_eq : u.current ≡ t.current
      current_eq = unfold timer_tick in ground arith

      next : session_at u.sessions u.current ≡ some (moved_on s)
      next =
          unfold session_at in
          rw (sessions_eq, current_eq)
            (ground (
              arith,
              w.sized,
              get_or-set t.sessions (t.current % n_sessions) (t.current % n_sessions)
                  (some (moved_on s)) none,
            ))

  -- Order: with a session and room for each packet, as many calls as packets wait send them all,
  -- first in first out, under consecutive counters, and leave the queue empty.
  pub drain-fifo :
      (t : Tunn) (s : Session) (ps : List Bytes) (i : Inputs) (n : ℕ)
      → IsTunn t
      → t.packet_queue ≡ ps
      → session_at t.sessions t.current ≡ some s
      → All (λ p. length p + 32 ≤ n) ps
      → (u : Tunn) × (drain c (length ps) t i n ≡ some (u, datagrams s ps)) × (u.packet_queue ≡ [])
  unfolding drain
  drain-fifo t s [] i n w queue here room = (t, refl, queue)
  drain-fifo t s (p ∷ ps) i n w queue here (fits, room) =
      let (u, e, rest, next) = send_front t s p ps i n w queue here fits in
      let w' : IsTunn u =
        Keeps-some u (write_to_network (datagram_of s p)) (send_queued-Keeps c t i n w) e in
      let (v, f, empty) = drain-fifo u (moved_on s) ps i n w' rest next room in
      (v, rw (e, f) refl, empty)
