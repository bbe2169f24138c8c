-- ===== src/Noise/Tunn/Invariant/Run.antt =====
-- noise/mod.rs and noise/timers.rs: a tunnel under any sequence of calls.
use veil_vpn.Prelude.{ℕ, ◌≡◌, refl, Option, some, arith}
use veil_vpn.Prelude.Bytes.{Bytes}
use veil_vpn.Noise.Crypto.{Crypto}
use veil_vpn.Noise.Packet.{IpAddr}
use veil_vpn.Noise.Handshake.Initiation.{Inputs}
use veil_vpn.Noise.RateLimiter.{RateLimiter, TunnResult}
use veil_vpn.Noise.Timers
use veil_vpn.Noise.Timers.{n_sessions}
use veil_vpn.Noise.Tunn
use veil_vpn.Noise.Tunn.{Tunn, OwnKeys}
use veil_vpn.Noise.Tunn.Send.{encapsulate}
use veil_vpn.Noise.Tunn.Receive.{decapsulate}
use veil_vpn.Noise.Tunn.Clock.{update_timers}
use veil_vpn.Noise.Tunn.Invariant.{IsTunn, get_or-none}
use veil_vpn.Noise.Tunn.Invariant.Sending.{Keeps, Keeps-some, encapsulate-Keeps}
use veil_vpn.Noise.Tunn.Invariant.Receiving.{decapsulate-Keeps}
use veil_vpn.Noise.Tunn.Invariant.Clocked.{update_timers-Keeps}

-- The calls that the device makes, each with its inputs and the length of its buffer.
pub data Call : Type 0 where
  encapsulates : Bytes → Inputs → ℕ → Call
  decapsulates : Option IpAddr → Bytes → Inputs → ℕ → Call
  updates_timers : Inputs → ℕ → Call

unfoldable pub answer : Crypto → Tunn → Call → Option (Tunn × TunnResult)
answer c t (encapsulates src i n) = encapsulate c t src i n
answer c t (decapsulates src_addr datagram i n) = decapsulate c t src_addr datagram i n
answer c t (updates_timers i n) = update_timers c t i n

-- Any sequence of calls that do not panic.
pub data Reaches (c : Crypto) : Tunn → Tunn → Type 0 where
  done : {t : Tunn} → Reaches c t t
  call :
      {t u v : Tunn} (x : Call) (r : TunnResult)
      → answer c t x ≡ some (u, r)
      → Reaches c u v
      → Reaches c t v

module _ (c : Crypto) where
  answer-Keeps : (t : Tunn) (x : Call) → IsTunn t → Keeps (answer c t x)
  unfolding answer
  answer-Keeps t (encapsulates src i n) w = encapsulate-Keeps c t src i n w
  answer-Keeps t (decapsulates src_addr datagram i n) w =
      decapsulate-Keeps c t src_addr datagram i n w
  answer-Keeps t (updates_timers i n) w = update_timers-Keeps c t i n w

  Reaches-IsTunn : {t u : Tunn} → Reaches c t u → IsTunn t → IsTunn u
  Reaches-IsTunn done w = w
  Reaches-IsTunn {t} (call {u = u} x r e rest) w =
      Reaches-IsTunn rest (Keeps-some u r (answer-Keeps t x w) e)

  new-IsTunn :
      (static_private peer : Bytes) (psk : Option Bytes) (keepalive : Option ℕ) (index : ℕ)
      (r : Option RateLimiter) (keys : OwnKeys) (now : ℕ)
      → IsTunn (Tunn.new c static_private peer psk keepalive index r keys now)
  unfolding Tunn.new Timers.new
  new-IsTunn static_private peer psk keepalive index r keys now = record {
    sized = refl;
    placed = λ k s h. absurd (ground (arith, get_or-none n_sessions k));
    timed = refl;
    queued = omega arith;
  }

  -- A new tunnel, after any sequence of packets sent, datagrams received and ticks of the clock,
  -- has a ring of eight slots in which each session sits in the slot of its own index, and a queue
  -- of at most 256 packets.
  pub reachable-IsTunn :
      (static_private peer : Bytes) (psk : Option Bytes) (keepalive : Option ℕ) (index : ℕ)
      (r : Option RateLimiter) (keys : OwnKeys) (now : ℕ) (t : Tunn)
      → Reaches c (Tunn.new c static_private peer psk keepalive index r keys now) t
      → IsTunn t
  reachable-IsTunn static_private peer psk keepalive index r keys now t run =
      Reaches-IsTunn run (new-IsTunn static_private peer psk keepalive index r keys now)
