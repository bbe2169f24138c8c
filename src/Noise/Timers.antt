-- ===== src/Noise/Timers.antt =====
-- noise/timers.rs: the timers of a tunnel. Durations are nanoseconds.
use veil_vpn.Prelude.{
  ℕ, ◌-◌, ◌*◌, ◌%◌, Bool, true, false, Option, none, some, List, ltb, leb, ◌==◌, if◌then◌else◌,
  replicate, set,
}
use veil_vpn.Noise.RateLimiter.{second}

abbrev pub n_sessions : ℕ
n_sessions = 8

abbrev pub rekey_after_time : ℕ
rekey_after_time = 120 * second

abbrev pub reject_after_time : ℕ
reject_after_time = 180 * second

abbrev pub rekey_attempt_time : ℕ
rekey_attempt_time = 90 * second

abbrev pub rekey_timeout : ℕ
rekey_timeout = 5 * second

abbrev pub keepalive_timeout : ℕ
keepalive_timeout = 10 * second

abbrev pub cookie_expiration_time : ℕ
cookie_expiration_time = 120 * second

pub data TimerName : Type 0 where
  time_current time_session_established time_last_handshake_started : TimerName
  time_last_packet_received time_last_packet_sent time_last_data_packet_received : TimerName
  time_last_data_packet_sent time_cookie_received time_persistent_keepalive : TimerName

-- `TimerName as usize`
abbrev pub index_of : TimerName → ℕ
index_of time_current = 0
index_of time_session_established = 1
index_of time_last_handshake_started = 2
index_of time_last_packet_received = 3
index_of time_last_packet_sent = 4
index_of time_last_data_packet_received = 5
index_of time_last_data_packet_sent = 6
index_of time_cookie_received = 7
index_of time_persistent_keepalive = 8

-- The array `timers`, indexed by the names, is a function on them.
pub record Timers : Type 0 where
  pub is_initiator : Bool
  pub time_started : ℕ
  pub timers : TimerName → ℕ
  pub session_timers : List ℕ
  pub want_keepalive : Bool
  pub want_handshake : Bool
  pub persistent_keepalive : ℕ
  pub should_reset_rr : Bool

unfoldable pub new : Option ℕ → Bool → ℕ → Timers
new persistent_keepalive reset_rr now = record {
  is_initiator = false;
  time_started = now;
  timers = λ _. 0;
  session_timers = replicate n_sessions 0;
  want_keepalive = false;
  want_handshake = false;
  persistent_keepalive = elim persistent_keepalive [ none ↦ 0 | some k ↦ k ];
  should_reset_rr = reset_rr;
}

-- `timers[name] = time`
unfoldable pub put : Timers → TimerName → ℕ → Timers
put t name time = record t {
  timers = λ n. if index_of n == index_of name then time else t.timers n;
}

-- All timers are set to the current time.
unfoldable pub clear : Timers → ℕ → Timers
clear t now = record t {
  timers = λ _. now - t.time_started;
  want_handshake = false;
  want_keepalive = false;
}

unfoldable pub tick : Timers → TimerName → Timers
unfolding put
tick t time_last_packet_received =
    put (record t { want_keepalive = true; want_handshake = false }) time_last_packet_received
      (t.timers time_current)
tick t time_last_packet_sent =
    put (record t { want_handshake = true; want_keepalive = false }) time_last_packet_sent
      (t.timers time_current)
tick t name = put t name (t.timers time_current)

unfoldable pub tick_session_established : Timers → Bool → ℕ → Timers
unfolding tick
tick_session_established t is_initiator session_idx =
    let t1 = tick t time_session_established in
    record t1 {
      session_timers = set t1.session_timers (session_idx % n_sessions) (t1.timers time_current);
      is_initiator = is_initiator;
    }

-- The subtraction of durations panics below zero.
unfoldable pub since : ℕ → ℕ → Option ℕ
since now t = if ltb now t then none else some (now - t)

-- `now - t >= d`
unfoldable pub at_least : ℕ → ℕ → ℕ → Option Bool
unfolding since
at_least now t d = elim (since now t) [ none ↦ none | some age ↦ some (leb d age) ]

-- `condition && now - t >= d`, which subtracts under the condition only.
unfoldable pub and_at_least : Bool → ℕ → ℕ → ℕ → Option Bool
and_at_least true now t d = at_least now t d
and_at_least false now t d = some false
