-- ===== src/Examples/Tunn.antt =====
-- noise/mod.rs and noise/timers.rs: one tunnel on concrete calls, with the toy cryptography.
use veil_vpn.Prelude.{
  ℕ, ◌*◌, ◌-◌, ◌≤◌, ◌≡◌, inl, refl, false, none, some, [], ◌∷◌, ◌++◌, arith, replicate, set,
  add_u64,
}
use veil_vpn.Prelude.Bits.{test_bit, bit_not}
use veil_vpn.Prelude.Bytes.{Bytes, from_le_bytes, from_be_bytes}
use veil_vpn.Noise.Errors.{ok, connection_expired}
use veil_vpn.Noise.Packet.{
  PacketData, packet_data, parse_incoming_packet, read_data, len_and_source,
}
use veil_vpn.Noise.Window.{
  set_bit, clear_bit, clear_word, check_bit, clear_to_aligned, clear_words, clear_to, clear_gap,
  skip_to, mark_did_receive, will_accept,
}
use veil_vpn.Noise.Session.{
  receive_packet_data, decrypt, mark_decrypted, receiving_counter_mark,
  receiving_counter_quick_check, count_received,
}
use veil_vpn.Noise.Handshake.State.{expired, is_expired, handshake_new}
use veil_vpn.Noise.Handshake.Initiation.{Inputs}
use veil_vpn.Noise.RateLimiter.{
  TunnResult, failed, write_to_tunnel_v4, verify_packet, verify_parsed,
}
use veil_vpn.Noise.Timers
use veil_vpn.Noise.Timers.{
  n_sessions, reject_after_time, TimerName, put, time_session_established, tick, since,
}
use veil_vpn.Noise.Tunn
use veil_vpn.Noise.Tunn.{Tunn, OwnKeys, session_at, set_current_session, timer_tick}
use veil_vpn.Noise.Tunn.Receive.{
  decapsulate, judged, handle_verified_packet, handle_data, opened, validate_decapsulated_packet,
  deliver,
}
use veil_vpn.Noise.Tunn.Clock.{update_timers, expire_slots, expire_slot}
use veil_vpn.Noise.Tunn.Expiry.{Slot, expire_slots-Slot}
use veil_vpn.Noise.Tunn.Total.{OnTime}
use veil_vpn.Noise.Tunn.Total.Update.{update_timers_total, update_timers-expires}
use veil_vpn.Noise.Tunn.Authentic.{Opened}
use veil_vpn.Noise.Tunn.Authentic.Delivery.{decapsulate-authentic}
use veil_vpn.Noise.Tunn.Queue.{drain, datagrams, drain-fifo}
use veil_vpn.Noise.Tunn.Invariant.{IsTunn, IsTunn-set}
use veil_vpn.Noise.Tunn.Invariant.Run.{
  updates_timers, Reaches, call, done, answer, reachable-IsTunn,
}
use veil_vpn.Examples.Crypto.{toy, toy_open}
use veil_vpn.Examples.Session.{bob}
use veil_vpn.Examples.Handshake.{inputs}

abbrev pub keys : OwnKeys
keys = record { nonce_key = []; secret_key = [] }

abbrev pub fresh : Tunn
fresh = Tunn.new toy (3 ∷ []) (toy.public_key (5 ∷ [])) none (some 25) 1 none keys 0

-- Started at 0, and 600 s later.
abbrev late : Inputs
late = record inputs { now = 600_000_000_000 }

fresh-OnTime : (now : ℕ) → OnTime fresh now
unfolding Tunn.new Timers.new
fresh-OnTime now = record { timer_le = λ name. ground arith; session_le = ground arith }

update_timers_total_example :
    (u : Tunn) × (r : TunnResult) × (update_timers toy fresh late 148 ≡ some (u, r))
update_timers_total_example = update_timers_total toy fresh late 148 (fresh-OnTime _) (omega arith)

alive : is_expired fresh.handshake ≡ false
unfolding Tunn.new handshake_new is_expired
alive = refl

aged :
    reject_after_time * 3
    ≤ late.now - fresh.timers.time_started - fresh.timers.timers time_session_established
unfolding Tunn.new Timers.new
aged = omega arith

update_timers-expires_example :
    (u : Tunn) × (update_timers toy fresh late 148 ≡ some (u, failed connection_expired))
    × (u.sessions ≡ replicate n_sessions none)
    × (u.packet_queue ≡ [])
    × (u.handshake.state ≡ expired)
    × (u.handshake.previous ≡ expired)
update_timers-expires_example = update_timers-expires toy fresh late 148 (fresh-OnTime _) alive aged

-- Two slots of the ring: one established 200 s ago, one 10 s ago.
slots_after :
    expire_slots 210_000_000_000 (some bob ∷ some bob ∷ []) (10_000_000_000 ∷ 200_000_000_000 ∷ [])
    ≡ some (none ∷ some bob ∷ [], 210_000_000_000 ∷ 200_000_000_000 ∷ [])
unfolding expire_slots expire_slot since
slots_after = refl

expire_slots-Slot_example :
    Slot 210_000_000_000 1
      (some bob ∷ some bob ∷ [])
      (none ∷ some bob ∷ [])
      (10_000_000_000 ∷ 200_000_000_000 ∷ [])
      (210_000_000_000 ∷ 200_000_000_000 ∷ [])
expire_slots-Slot_example =
    expire_slots-Slot 210_000_000_000 (some bob ∷ some bob ∷ []) (none ∷ some bob ∷ [])
      (10_000_000_000 ∷ 200_000_000_000 ∷ []) (210_000_000_000 ∷ 200_000_000_000 ∷ []) slots_after
      refl 1 (omega arith)

-- A tunnel with a session, and an IPv4 packet of 20 bytes from 10.0.0.2 under it.
abbrev pub holding : Tunn
holding = record fresh { sessions = set fresh.sessions 6 (some bob) }

abbrev pub ip_packet : Bytes
ip_packet = 69 ∷ 0 ∷ 0 ∷ 20 ∷ 0 ∷ 0 ∷ 0 ∷ 0 ∷ 64 ∷ 17 ∷ 0 ∷ 0 ∷ 10 ∷ 0 ∷ 0 ∷ 2 ∷ 10 ∷ 0 ∷ 0 ∷ 1 ∷ []

abbrev pub datagram : Bytes
datagram =
    4 ∷ 0 ∷ 0 ∷ 0 ∷ 22 ∷ 0 ∷ 0 ∷ 0 ∷ 0 ∷ 0 ∷ 0 ∷ 0 ∷ 0 ∷ 0 ∷ 0 ∷ 0 ∷ (ip_packet ++ replicate 16 0)

abbrev received : Tunn
received = record holding {
  sessions = set fresh.sessions 6 (some (receiving_counter_mark bob 0).0);
  current = 22;
  timers =
      tick (tick holding.timers Timers.time_last_packet_received)
        Timers.time_last_data_packet_received;
  rx_bytes = 20;
}

delivered :
    decapsulate toy holding none datagram inputs 100
    ≡ some (received, write_to_tunnel_v4 ip_packet (10 ∷ 0 ∷ 0 ∷ 2 ∷ []))
unfolding decapsulate verify_packet verify_parsed judged handle_verified_packet handle_data opened
    validate_decapsulated_packet deliver len_and_source from_be_bytes parse_incoming_packet
    read_data from_le_bytes receive_packet_data decrypt mark_decrypted receiving_counter_mark
    count_received receiving_counter_quick_check will_accept mark_did_receive set_bit check_bit
    clear_gap clear_to_aligned clear_words clear_to clear_bit clear_word skip_to test_bit bit_not
    toy_open add_u64 session_at set_current_session timer_tick tick put Tunn.new Timers.new
delivered = refl

decapsulate-authentic_example :
    (p : PacketData) × (parse_incoming_packet datagram ≡ ok (packet_data p))
    × Opened toy holding.sessions p ip_packet
decapsulate-authentic_example =
    decapsulate-authentic toy holding none datagram inputs 100 received ip_packet
      (10 ∷ 0 ∷ 0 ∷ 2 ∷ []) (inl delivered)

-- A tick of the clock on the new tunnel.
ticked : (u : Tunn) × (r : TunnResult) × (update_timers toy fresh late 148 ≡ some (u, r))
ticked = update_timers_total toy fresh late 148 (fresh-OnTime _) (omega arith)

ticked-Reaches : Reaches toy fresh ticked.0
unfolding answer
ticked-Reaches = call (updates_timers late 148) ticked.1 ticked.2 done

reachable-IsTunn_example : IsTunn ticked.0
reachable-IsTunn_example =
    reachable-IsTunn toy (3 ∷ []) (toy.public_key (5 ∷ [])) none (some 25) 1 none keys 0 ticked.0
      ticked-Reaches

-- Two packets that wait while a session is at hand.
abbrev pub waiting : Tunn
waiting = record holding { current = 22; packet_queue = (1 ∷ []) ∷ (2 ∷ 3 ∷ []) ∷ [] }

fresh-IsTunn : IsTunn fresh
fresh-IsTunn =
    reachable-IsTunn toy (3 ∷ []) (toy.public_key (5 ∷ [])) none (some 25) 1 none keys 0 fresh done

pub waiting-IsTunn : IsTunn waiting
waiting-IsTunn =
    let w = IsTunn-set fresh fresh-IsTunn 22 bob refl in
    record { sized = w.sized; placed = w.placed; timed = w.timed; queued = omega arith }

bob_at : session_at waiting.sessions waiting.current ≡ some bob
unfolding session_at Tunn.new
bob_at = refl

drain-fifo_example :
    (u : Tunn) × (drain toy 2 waiting inputs 64
      ≡ some (u, datagrams toy bob ((1 ∷ []) ∷ (2 ∷ 3 ∷ []) ∷ [])))
    × (u.packet_queue ≡ [])
drain-fifo_example =
    drain-fifo toy waiting bob ((1 ∷ []) ∷ (2 ∷ 3 ∷ []) ∷ []) inputs 64 waiting-IsTunn refl bob_at
      (omega arith, (omega arith, tt))
