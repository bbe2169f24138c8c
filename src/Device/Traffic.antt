-- ===== src/Device/Traffic.antt =====
-- The traffic of one peer on a server, in both directions and in any order.
pub mod Outgoing
use mathlib.Core.Path.{subst}
use veil_vpn.Prelude.{
  ℕ, zero, ◌+◌, ◌*◌, ◌≤◌, ◌≡◌, refl, sym, ap, ◌∙◌, Bool, true, false, Option, none, some, List, [],
  ◌∷◌, arith, if◌then◌else◌, length, some-of_bind, ◌>>=◌,
}
use veil_vpn.Prelude.Bytes.{Bytes}
use veil_vpn.Noise.Crypto.{Crypto}
use veil_vpn.Noise.Packet.{Packet, IpAddr}
use veil_vpn.Payment.Wallet.{Ethereum}
use veil_vpn.Payment.Settlement.{Http}
use veil_vpn.Device.AllowedIps.{NetworkTable}
use veil_vpn.Device.Peer.{Peer, SocketAddr}
use veil_vpn.Device.State.{Device}
use veil_vpn.Device.Inbound.{Context}
use veil_vpn.Device.Inbound.Rounds.{handle_anonymous, handle_connected}
use veil_vpn.Device.Inbound.Enforced.{left, HasQuota, Paid}
use veil_vpn.Device.Inbound.Charged.{Charged, bytes_of, added_by}
use veil_vpn.Device.Inbound.Served.{handle_anonymous-Charged, handle_connected-Charged}
use veil_vpn.Device.Outbound.{send_to_peer}
use veil_vpn.Device.Traffic.Outgoing.{send_to_peer-Paid}

-- A packet of the peer on a shared socket, a datagram on its own socket, and a packet to it from
-- the interface.
pub data Event : Type 0 where
  on_shared : Packet → SocketAddr → (SocketAddr → Option ℕ) → Context → Event
  on_own : IpAddr → Bytes → Context → Event
  outgoing : Bytes → Context → Event

module _ (c : Crypto) (e : Ethereum) (http_client : Http) (net : NetworkTable) where
  -- The peer after an event, the bytes forwarded, and whether a signal of payment came in.
  unfoldable pub handle_event : Device net → Peer net → Event → Option (Peer net × ℕ × Bool)
  handle_event d p (on_shared packet addr connect k) = do
    x ← handle_anonymous c e http_client net d p packet addr connect k
    some (x.peer, bytes_of x.written, x.signalled)
  handle_event d p (on_own peer_addr datagram k) = do
    x ← handle_connected c e http_client net d p peer_addr datagram k
    some (x.peer, bytes_of x.written, x.signalled)
  handle_event d p (outgoing src k) = do
    x ← send_to_peer c net d p src k
    some (x.peer, (if x.passed then length src else 0), false)

  -- The peer after a sequence of events, all bytes forwarded, and the number of signals.
  unfoldable pub serve : Device net → Peer net → List Event → Option (Peer net × ℕ × ℕ)
  serve d p [] = some (p, 0, 0)
  serve d p (event ∷ events) = do
    (p', bytes, signalled) ← handle_event d p event
    (p'', forwarded, signals) ← serve d p' events
    some (p'', bytes + forwarded, added_by signalled 1 + signals)

  abbrev Pays : Device net → Peer net → Peer net × ℕ × Bool → Type 0
  Pays d p (p', bytes, signalled) =
      Paid p.quota p'.quota bytes (added_by signalled d.payment_config.quota_bytes)

  handle_event-Paid :
      (d : Device net) (p p' : Peer net) (event : Event) (bytes : ℕ) (signalled : Bool)
      → d.payment_config.is_server ≡ true
      → HasQuota p.quota
      → handle_event d p event ≡ some (p', bytes, signalled)
      → Paid p.quota p'.quota bytes (added_by signalled d.payment_config.quota_bytes)
  unfolding handle_event
  handle_event-Paid d p p' (on_shared packet addr connect k) bytes signalled server has h =
      let (x, handles, h1) =
        some-of_bind (handle_anonymous c e http_client net d p packet addr connect k) _ h in
      let same : (x.peer, bytes_of x.written, x.signalled) ≡ (p', bytes, signalled) = cc h1 in
      subst (Pays d p) same (
        handle_anonymous-Charged c e http_client net d p packet addr connect k x server has handles)
  handle_event-Paid d p p' (on_own peer_addr datagram k) bytes signalled server has h =
      let (x, handles, h1) =
        some-of_bind (handle_connected c e http_client net d p peer_addr datagram k) _ h in
      let same : (x.peer, bytes_of x.written, x.signalled) ≡ (p', bytes, signalled) = cc h1 in
      subst (Pays d p) same
        (handle_connected-Charged c e http_client net d p peer_addr datagram k x server has handles)
  handle_event-Paid d p p' (outgoing src k) bytes signalled server has h =
      let (x, sends, h1) = some-of_bind (send_to_peer c net d p src k) _ h in
      let same : (x.peer, (if x.passed then length src else 0), false) ≡ (p', bytes, signalled) =
        cc h1 in
      subst (Pays d p) same (send_to_peer-Paid c net d p src k x server has sends)

  sold :
      (signalled : Bool) (signals bytes : ℕ)
      → (added_by signalled 1 + signals) * bytes ≡ added_by signalled bytes + signals * bytes
  sold true signals bytes = grind arith
  sold false signals bytes = omega arith

  -- What is forwarded is paid for: on a server, whatever a peer with a quota sends and is sent, the
  -- bytes forwarded and what is left of its quota are together at most what was left before, and
  -- what the server sells for each signal of payment that came in.
  pub serve-within_quota :
      (d : Device net) (p p' : Peer net) (events : List Event) (forwarded signals : ℕ)
      → d.payment_config.is_server ≡ true
      → HasQuota p.quota
      → serve d p events ≡ some (p', forwarded, signals)
      → forwarded + left p'.quota ≤ left p.quota + signals * d.payment_config.quota_bytes
  unfolding serve
  serve-within_quota d p p' [] forwarded signals server has h =
      let same : (p, zero, zero) ≡ (p', forwarded, signals) = cc h in
      subst
        (λ (r : Peer net × ℕ × ℕ).
          r.1 + left r.0.quota ≤ left p.quota + r.2 * d.payment_config.quota_bytes)
        same (omega arith)
  serve-within_quota d p p' (event ∷ events) forwarded signals server has h =
      let ((p1, bytes, signalled), handles, h1) = some-of_bind (handle_event d p event) _ h in
      let ((p2, rest, more), serves, h2) = some-of_bind (serve d p1 events) _ h1 in
      let w = handle_event-Paid d p p1 event bytes signalled server has handles in
      let ih = serve-within_quota d p1 p2 events rest more server w.has_quota serves in
      let same : (p2, bytes + rest, added_by signalled 1 + more) ≡ (p', forwarded, signals) =
        cc h2 in
      subst
        (λ (r : Peer net × ℕ × ℕ).
          r.1 + left r.0.quota ≤ left p.quota + r.2 * d.payment_config.quota_bytes)
        same (omega (arith, w.within, ih, sold signalled more d.payment_config.quota_bytes))
