-- ===== src/Noise/Tunn/Invariant.antt =====
-- noise/mod.rs and noise/timers.rs: what every operation on a tunnel keeps. The ring of sessions has
-- eight slots, each holds a session of its own index, and the queue is bounded.
pub mod Sending
pub mod Receiving
pub mod Clocked
pub mod Run
use veil_vpn.Prelude.{
  ℕ, ◌+◌, ◌%◌, ◌≤◌, ◌<◌, ◌≡◌, refl, sym, ap, ◌∙◌, ◌⊎◌, inl, inr, Bool, true, false, Option, none,
  some, List, [], ◌∷◌, ◌++◌, arith, length, length-append, length-set, length-replicate, get_or,
  get_or-set, set, replicate, ltb, Bool-cases, ◌==◌, ◌>>=◌, tests, Option-cases, if◌then◌else◌,
  zero, suc,
}
use veil_vpn.Prelude.Bytes.{Bytes}
use veil_vpn.Noise.Session.{Session, format_packet_data, receive_packet_data}
use veil_vpn.Noise.Timers
use veil_vpn.Noise.Timers.{Timers, TimerName, n_sessions, tick, tick_session_established}
use veil_vpn.Noise.Tunn.{
  Tunn, session_at, timer_tick, timer_tick_session_established, clear_all, set_current_session,
  queue_packet, requeue_packet, dequeue_packet, max_queue_depth,
}

-- The invariant.
pub record IsTunn (t : Tunn) : Type 0 where
  pub sized : length t.sessions ≡ n_sessions
  pub placed :
      (k : ℕ) (s : Session) → get_or t.sessions k none ≡ some s → s.receiving_index % n_sessions ≡ k
  pub timed : length t.timers.session_timers ≡ n_sessions
  pub queued : length t.packet_queue ≤ max_queue_depth

pub IsTunn-if : {t u : Tunn} (b : Bool) → IsTunn t → IsTunn u → IsTunn (if b then t else u)
IsTunn-if true a b = a
IsTunn-if false a b = b

pub get_or-none : (n k : ℕ) → get_or (replicate {A = Option Session} n none) k none ≡ none
get_or-none zero k = refl
get_or-none (suc n) zero = refl
get_or-none (suc n) (suc k) = get_or-none n k

module _ (t : Tunn) (w : IsTunn t) where
  pub IsTunn-set :
      (idx : ℕ) (s : Session)
      → s.receiving_index % n_sessions ≡ idx % n_sessions
      → IsTunn (record t { sessions = set t.sessions (idx % n_sessions) (some s) })
  IsTunn-set idx s own = record {
    sized = length-set t.sessions (idx % n_sessions) (some s) ∙ w.sized;
    placed = λ k s' h. ground (
      arith,
      get_or-set t.sessions (idx % n_sessions) k (some s) none,
      w.sized,
      w.placed k s',
      own,
    );
    timed = w.timed;
    queued = w.queued;
  }

  pub IsTunn-timer_tick : (name : TimerName) → IsTunn (timer_tick t name)
  unfolding timer_tick
  IsTunn-timer_tick name = record {
    sized = w.sized;
    placed = w.placed;
    queued = w.queued;
    timed = kept name ∙ w.timed;
  }
    where
      kept :
          (name : TimerName)
          → length (tick t.timers name).session_timers ≡ length t.timers.session_timers
      kept name = unfold tick in unfold Timers.put in ground arith

  pub IsTunn-established : (b : Bool) (idx : ℕ) → IsTunn (timer_tick_session_established t b idx)
  unfolding timer_tick_session_established tick_session_established
  IsTunn-established b idx = record {
    sized = w.sized;
    placed = w.placed;
    queued = w.queued;
    timed = length-set t.timers.session_timers (idx % n_sessions) _ ∙ w.timed;
  }

  pub IsTunn-clear_all : (now : ℕ) → IsTunn (clear_all t now)
  unfolding clear_all Timers.clear
  IsTunn-clear_all now = record {
    sized = refl;
    placed = λ k s h. absurd (ground (arith, empty k));
    timed = w.timed;
    queued = omega arith;
  }
    where
      empty : (k : ℕ) → get_or (replicate {A = Option Session} n_sessions none) k none ≡ none
      empty k = get_or-none n_sessions k

  pub IsTunn-set_current_session : (idx : ℕ) → IsTunn (set_current_session t idx)
  IsTunn-set_current_session idx = elim cases [
    | inl e ↦ rw e w
    | inr e ↦
        rw e (record { sized = w.sized; placed = w.placed; timed = w.timed; queued = w.queued })
  ]
    where
      cases :
          (set_current_session t idx ≡ t) ⊎ (set_current_session t idx ≡ record t { current = idx })
      cases = unfold set_current_session in ground arith

  pub IsTunn-queue_packet : (packet : Bytes) → IsTunn (queue_packet t packet)
  unfolding queue_packet
  IsTunn-queue_packet packet = elim (Bool-cases (ltb (length t.packet_queue) max_queue_depth)) [
    | inl e ↦ rw e (record {
      sized = w.sized;
      placed = w.placed;
      timed = w.timed;
      queued = omega (tests, e, length-append t.packet_queue (packet ∷ []));
    })
    | inr e ↦ rw e w
  ]

  pub IsTunn-requeue_packet : (packet : Bytes) → IsTunn (requeue_packet t packet)
  unfolding requeue_packet
  IsTunn-requeue_packet packet = elim (Bool-cases (ltb (length t.packet_queue) max_queue_depth)) [
    | inl e ↦ rw e (record {
      sized = w.sized;
      placed = w.placed;
      timed = w.timed;
      queued = omega (tests, e, length-append t.packet_queue (packet ∷ []));
    })
    | inr e ↦ rw e w
  ]
