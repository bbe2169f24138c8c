-- ===== src/Noise/Tunn.antt =====
-- noise/mod.rs: the state of a tunnel, and the operations on it that send and receive nothing. The
-- limiter, which tunnels may share, is held by value: what one tunnel does to it is in its result.
pub mod Send
pub mod Receive
pub mod Clock
pub mod Invariant
pub mod Queue
pub mod Expiry
pub mod Total
pub mod Authentic
use veil_vpn.Prelude.{
  ℕ, ◌+◌, ◌-◌, ◌*◌, ◌%◌, ◌^◌, Bool, true, false, ◌||◌, Option, none, some, List, [], ◌∷◌, ◌++◌, ltb,
  leb, ◌==◌, if◌then◌else◌, length, get_or, replicate, not,
}
use veil_vpn.Prelude.Bytes.{Bytes}
use veil_vpn.Noise.Crypto.{Crypto}
use veil_vpn.Noise.Session
use veil_vpn.Noise.Session.{Session}
use veil_vpn.Noise.Handshake.State as State
use veil_vpn.Noise.Handshake.State.{Handshake, handshake_new}
use veil_vpn.Noise.RateLimiter
use veil_vpn.Noise.RateLimiter.{RateLimiter}
use veil_vpn.Noise.Timers
use veil_vpn.Noise.Timers.{
  Timers, TimerName, n_sessions, tick, tick_session_established, time_session_established,
}

abbrev pub peer_handshake_rate_limit : ℕ
peer_handshake_rate_limit = 10

abbrev pub max_queue_depth : ℕ
max_queue_depth = 256

pub record Tunn : Type 0 where
  pub handshake : Handshake
  pub sessions : List (Option Session)
  pub current : ℕ
  pub packet_queue : List Bytes
  pub timers : Timers
  pub tx_bytes : ℕ
  pub rx_bytes : ℕ
  pub rate_limiter : RateLimiter

-- The session in a slot of the ring.
unfoldable pub session_at : List (Option Session) → ℕ → Option Session
session_at sessions idx = get_or sessions (idx % n_sessions) none

-- What a new limiter of the tunnel's own takes: its two random keys.
pub record OwnKeys : Type 0 where
  pub nonce_key : Bytes
  pub secret_key : Bytes

module _ (c : Crypto) where
  unfoldable pub own_limiter : Option RateLimiter → OwnKeys → Bytes → ℕ → RateLimiter
  own_limiter (some r) keys static_public now = r
  own_limiter none keys static_public now =
      RateLimiter.new c keys.nonce_key keys.secret_key static_public peer_handshake_rate_limit now

  -- The index is 32 bits wide, and `index << 8` drops its upper 8.
  unfoldable pub new :
      Bytes → Bytes → Option Bytes → Option ℕ → ℕ → Option RateLimiter → OwnKeys → ℕ → Tunn
  new static_private peer_static_public preshared_key persistent_keepalive index rate_limiter keys
        now =
      let static_public = c.public_key static_private in
      record {
        handshake =
            handshake_new c static_private static_public peer_static_public (index * 256 % 2 ^ 32)
              preshared_key;
        sessions = replicate n_sessions none;
        current = 0;
        packet_queue = [];
        timers =
            Timers.new persistent_keepalive (elim rate_limiter [ none ↦ true | some _ ↦ false ])
              now;
        tx_bytes = 0;
        rx_bytes = 0;
        rate_limiter = own_limiter rate_limiter keys static_public now;
      }

  unfoldable pub set_static_private :
      Tunn → Bytes → Bytes → Option RateLimiter → OwnKeys → ℕ → Option Tunn
  set_static_private t static_private static_public rate_limiter keys now =
      elim (State.set_static_private c t.handshake static_private static_public) [
        | none ↦ none
        | some h ↦ some (record t {
          timers = record (t.timers) {
            should_reset_rr = elim rate_limiter [ none ↦ true | some _ ↦ false ];
          };
          rate_limiter = own_limiter rate_limiter keys static_public now;
          handshake = h;
          sessions = replicate n_sessions none;
        })
      ]

unfoldable pub timer_tick : Tunn → TimerName → Tunn
timer_tick t name = record t { timers = tick t.timers name }

unfoldable pub timer_tick_session_established : Tunn → Bool → ℕ → Tunn
timer_tick_session_established t is_initiator session_idx = record t {
  timers = tick_session_established t.timers is_initiator session_idx;
}

unfoldable pub clear_all : Tunn → ℕ → Tunn
clear_all t now = record t {
  sessions = replicate n_sessions none;
  packet_queue = [];
  timers = Timers.clear t.timers now;
}

unfoldable pub set_current_session : Tunn → ℕ → Tunn
set_current_session t new_idx =
    let time_of : ℕ → ℕ = λ idx. get_or t.timers.session_timers (idx % n_sessions) 0 in
    let is_free : Bool = elim (session_at t.sessions t.current) [ none ↦ true | some _ ↦ false ] in
    if t.current == new_idx
    then t
    else if is_free || leb (time_of t.current) (time_of new_idx)
    then record t { current = new_idx }
    else t

-- To the back of the queue, unless it is full.
unfoldable pub queue_packet : Tunn → Bytes → Tunn
queue_packet t packet =
    if ltb (length t.packet_queue) max_queue_depth
    then record t { packet_queue = t.packet_queue ++ (packet ∷ []) }
    else t

-- To the front of the queue, unless it is full.
unfoldable pub requeue_packet : Tunn → Bytes → Tunn
requeue_packet t packet =
    if ltb (length t.packet_queue) max_queue_depth
    then record t { packet_queue = packet ∷ t.packet_queue }
    else t

abbrev pub pop_front : List Bytes → Option (Bytes × List Bytes)
pop_front [] = none
pop_front (x ∷ xs) = some (x, xs)

unfoldable pub dequeue_packet : Tunn → Option (Bytes × Tunn)
dequeue_packet t = elim (pop_front t.packet_queue) [
  | none ↦ none
  | some (packet, rest) ↦ some (packet, record t { packet_queue = rest })
]

-- How long ago the current session was established, `none` within when there is none, `none` without
-- for the panic of the subtraction.
unfoldable pub time_since_last_handshake : Tunn → ℕ → Option (Option ℕ)
time_since_last_handshake t now = elim (session_at t.sessions t.current) [
  | none ↦ some none
  | some _ ↦
      elim (Timers.since (now - t.timers.time_started) (t.timers.timers time_session_established)) [
        | none ↦ none
        | some age ↦ some (some age)
      ]
]

unfoldable pub persistent_keepalive : Tunn → Option ℕ
persistent_keepalive t =
    if ltb 0 t.timers.persistent_keepalive
    then some (t.timers.persistent_keepalive % 2 ^ 16)
    else none
