-- ===== src/Noise/Session/Replay.antt =====
-- A session under any traffic: what one received packet does to the window, and no replay.
use mathlib.Core.Path.{subst}
use veil_vpn.Prelude.{ℕ, ◌≡◌, ◌≢◌, refl, sym, ◌∙◌, ap, true, some, [], arith, length}
use veil_vpn.Prelude.Bytes.{Bytes}
use veil_vpn.Noise.Errors.{Result, ok, err, WireGuardError, invalid_counter}
use veil_vpn.Noise.Crypto.{Crypto, nonce_of}
use veil_vpn.Noise.Packet.{PacketData}
use veil_vpn.Noise.Window.{mark_did_receive, check_bit}
use veil_vpn.Noise.Window.Refinement.{
  History, accept, Refines, mark_did_receive-accept, mark_did_receive-err,
}
use veil_vpn.Noise.Window.Replay.{IsCounter, accept-kept, accept-seen, accept-again}
use veil_vpn.Noise.Session.{Session, receive_packet_data}

-- What a packet that is accepted says of the session before and after.
pub record Accepted (c : Crypto) (s : Session) (p : PacketData) (s' : Session) (m : Bytes)
    : Type 0 where
  pub index : p.receiver_idx ≡ s.receiving_index
  pub opened :
      c.open_sealed s.receiver (nonce_of p.counter) [] p.encrypted_encapsulated_packet ≡ some m
  pub marked : (mark_did_receive s.receiving_key_counter p.counter).1 ≡ ok tt
  pub keys : s'.receiver ≡ s.receiver
  pub index_kept : s'.receiving_index ≡ s.receiving_index
  pub window :
      s'.receiving_key_counter.next ≡ (mark_did_receive s.receiving_key_counter p.counter).0.next
  pub bitmap :
      s'.receiving_key_counter.bitmap
      ≡ (mark_did_receive s.receiving_key_counter p.counter).0.bitmap

module _ (c : Crypto) (s s' : Session) (p : PacketData) (dst_len : ℕ) where
  -- A packet that is refused leaves the session as it was.
  pub receive-err :
      (e : WireGuardError) → receive_packet_data c s p dst_len ≡ some (s', err e) → s' ≡ s
  unfolding receive_packet_data
  receive-err e h = ground (arith, mark_did_receive-err s.receiving_key_counter p.counter e)

  pub receive-ok :
      (m : Bytes) → receive_packet_data c s p dst_len ≡ some (s', ok m) → Accepted c s p s' m
  unfolding receive_packet_data
  receive-ok m h = ground arith

-- Any sequence of received packets, accepted or refused. The counters of those that are accepted
-- leave room for the window below 2^64.
pub data Run (c : Crypto) : Session → Session → Type 0 where
  done : {s : Session} → Run c s s
  packet :
      {s t u : Session} (p : PacketData) (dst_len : ℕ) (r : Result Bytes)
      → ((m : Bytes) → r ≡ ok m → IsCounter p.counter)
      → receive_packet_data c s p dst_len ≡ some (t, r)
      → Run c t u
      → Run c s u

-- A session whose window stands for a history in which the counter was accepted.
abbrev Saw : ℕ → Session → Type 0
Saw counter s = (w : History) × Refines s.receiving_key_counter w × (w.seen counter ≡ true)

module _ (c : Crypto) where
  Accepted-Refines :
      (s s' : Session) (p : PacketData) (m : Bytes) (w : History)
      → IsCounter p.counter
      → Refines s.receiving_key_counter w
      → Accepted c s p s' m
      → Refines s'.receiving_key_counter (accept w p.counter).0 × ((accept w p.counter).1 ≡ ok tt)
  Accepted-Refines s s' p m w b r a =
      let both = mark_did_receive-accept s.receiving_key_counter w p.counter b r in
      let v = mark_did_receive s.receiving_key_counter p.counter in
      let before = both.1 in
      (
        record {
          next_eq = a.window ∙ before.next_eq;
          sized = ap length a.bitmap ∙ before.sized;
          agrees = λ k h g.
              ap (λ b. check_bit b k) a.bitmap
              ∙ before.agrees k (omega (arith, a.window)) (omega (arith, a.window));
          fresh = λ k h. before.fresh k (omega (arith, a.window));
        },
        sym both.0 ∙ a.marked,
      )

  packet-Saw :
      (counter : ℕ) (s t : Session) (p : PacketData) (dst_len : ℕ) (r : Result Bytes)
      → ((m : Bytes) → r ≡ ok m → IsCounter p.counter)
      → receive_packet_data c s p dst_len ≡ some (t, r)
      → Saw counter s
      → Saw counter t
  packet-Saw counter s t p dst_len (ok m) below h (w, refines, seen) =
      let b = below m refl in
      let a = receive-ok c s t p dst_len m h in
      let next = Accepted-Refines s t p m w b refines a in
      ((accept w p.counter).0, next.0, accept-kept w p.counter counter seen)
  packet-Saw counter s t p dst_len (err e) b h saw =
      subst (Saw counter) (sym (receive-err c s t p dst_len e h)) saw

  Run-Saw : (counter : ℕ) {s t : Session} → Run c s t → Saw counter s → Saw counter t
  Run-Saw counter done saw = saw
  Run-Saw counter {s} {t} (packet {t = u} p dst_len r b h rest) saw =
      Run-Saw counter rest (packet-Saw counter s u p dst_len r b h saw)

  -- No replay: once a session in step with a history has accepted a packet, no packet with that
  -- counter is accepted again, whatever its contents and whatever else is received in between, as
  -- long as the counter of the packet and those that are accepted in between leave room for the
  -- window of 1024 counters below 2^64.
  pub no_replay_session :
      (s t u v : Session) (p q : PacketData) (m : Bytes) (dst_len dst_len' : ℕ) (w : History)
      → Refines s.receiving_key_counter w
      → IsCounter p.counter
      → receive_packet_data c s p dst_len ≡ some (t, ok m)
      → Run c t u
      → q.counter ≡ p.counter
      → (m' : Bytes) → receive_packet_data c u q dst_len' ≢ some (v, ok m')
  no_replay_session s t u v p q m dst_len dst_len' w refines b h run same m' again =
      let first = Accepted-Refines s t p m w b refines (receive-ok c s t p dst_len m h) in
      let saw : Saw p.counter t =
        ((accept w p.counter).0, first.0, accept-seen w p.counter first.1) in
      let (w', refines', seen) = Run-Saw p.counter run saw in
      let a = receive-ok c u v q dst_len' m' again in
      let fact : (accept w' p.counter).1 ≡ err invalid_counter = accept-again w' p.counter seen in
      let second = Accepted-Refines u v q m' w' (subst IsCounter (sym same) b) refines' a in
      cc (fact, second.1, same)
