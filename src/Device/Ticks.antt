-- ===== src/Device/Ticks.antt =====
-- device/mod.rs, `register_timers`: what a device does every second and every quarter of one. A panic
-- is `none`; the inputs of a tunnel are by the number of peers behind it.
use mathlib.Core.Path.{subst}
use veil_vpn.Prelude.{
  ℕ, ◌≡◌, sym, ap, Bool, true, false, refl, ◌∙◌, arith, Option, none, some, List, [], ◌∷◌, ◌++◌,
  length, get_elem?, set, some-of_bind, ◌>>=◌, if◌then◌else◌,
}
use veil_vpn.Prelude.Bytes.{Bytes}
use veil_vpn.Noise.Errors.{WireGuardError, connection_expired}
use veil_vpn.Noise.Crypto.{Crypto}
use veil_vpn.Noise.Handshake.Initiation.{Inputs}
use veil_vpn.Noise.RateLimiter as RateLimiter
use veil_vpn.Noise.RateLimiter.{
  TunnResult, done, failed, write_to_network, write_to_tunnel_v4, write_to_tunnel_v6,
}
use veil_vpn.Noise.Tunn.Clock
use veil_vpn.Device.AllowedIps.{NetworkTable}
use veil_vpn.Device.Peer.{Peer, SocketAddr, update_timers, shutdown_endpoint}
use veil_vpn.Device.State.{Device}
use veil_vpn.Device.Table.Run.{Reaches, here, next, works, put_peer}
use veil_vpn.Device.Api.Sections.{Reaches-trans}

unfoldable pub is_expiry : WireGuardError → Bool
is_expiry connection_expired = true
is_expiry e = false

module _ (net : NetworkTable) where
  -- The count of the limiter is reset.
  unfoldable pub reset_limiter : Device net → ℕ → Device net
  unfolding RateLimiter.reset_count
  reset_limiter d now = record d {
    rate_limiter = elim d.rate_limiter [
      | none ↦ none
      | some r ↦ some (RateLimiter.reset_count r now)
    ];
  }

  -- A tunnel that has expired closes the socket of its peer.
  unfoldable pub after_timers : Peer net → TunnResult → Option (Peer net × List Bytes)
  unfolding shutdown_endpoint is_expiry
  after_timers p done = some (p, [])
  after_timers p (failed error) =
      some ((if is_expiry error then shutdown_endpoint net p else p), [])
  after_timers p (write_to_network packet) = some (p, packet ∷ [])
  after_timers p r = none

module _ (c : Crypto) (net : NetworkTable) where
  -- A peer whose address is not known is passed over.
  unfoldable pub tick_peer :
      Peer net → Option SocketAddr → Inputs → ℕ → Option (Peer net × List Bytes)
  unfolding update_timers after_timers
  tick_peer p none i dst_len = some (p, [])
  tick_peer p (some addr) i dst_len = do
    (p', r) ← update_timers net c p i dst_len
    after_timers net p' r

  unfoldable pub tick_peers :
      (ℕ → Inputs) → ℕ → Device net → List (Bytes × ℕ) → Option (Device net × List Bytes)
  unfolding tick_peer
  tick_peers inputs dst_len d [] = some (d, [])
  tick_peers inputs dst_len d ((pub_key, handle) ∷ rest) = do
    p ← get_elem? d.made handle
    (p', sent) ← tick_peer p p.endpoint.addr (inputs (length rest)) dst_len
    (d', later) ← tick_peers inputs dst_len (record d { made = set d.made handle p' }) rest
    some (d', sent ++ later)

  -- Nothing is done before the sockets are open.
  unfoldable pub tick : Bool → (ℕ → Inputs) → ℕ → Device net → Option (Device net × List Bytes)
  unfolding tick_peers
  tick connected inputs dst_len d =
      if connected then tick_peers inputs dst_len d d.peers else some (d, [])

  tick_peer-index :
      (p p' : Peer net) (addr : Option SocketAddr) (i : Inputs) (dst_len : ℕ) (sent : List Bytes)
      → tick_peer p addr i dst_len ≡ some (p', sent)
      → p'.index ≡ p.index
  unfolding tick_peer update_timers after_timers shutdown_endpoint
  tick_peer-index p p' none i dst_len sent h = ground (arith, h)
  tick_peer-index p p' (some addr) i dst_len sent h =
      let ((q, r), updates, h1) = some-of_bind (update_timers net c p i dst_len) _ h in
      let ((t, r'), ticks, h2) =
        some-of_bind (Clock.update_timers c p.tunnel i dst_len) _ updates in
      let same : record p { tunnel = t } ≡ q = cc h2 in
      after q r h1 ∙ ap (λ (x : Peer net). x.index) (sym same)
    where
      after :
          (q : Peer net) (r : TunnResult)
          → after_timers net q r ≡ some (p', sent)
          → p'.index ≡ q.index
      after q done e = ground (arith, e)
      after q (failed error) e = ground (arith, e)
      after q (write_to_network packet) e = ground (arith, e)
      after q (write_to_tunnel_v4 packet a) e = cc e
      after q (write_to_tunnel_v6 packet a) e = cc e

  -- A tick is work on peers, so that the tables stay as they are.
  pub tick_peers-Reaches :
      (inputs : ℕ → Inputs) (dst_len : ℕ) (d d' : Device net) (peers : List (Bytes × ℕ))
      (sent : List Bytes)
      → tick_peers inputs dst_len d peers ≡ some (d', sent)
      → Reaches c net d d'
  unfolding tick_peers
  tick_peers-Reaches inputs dst_len d d' [] sent h =
      let same : d ≡ d' = cc h in subst (Reaches c net d) same here
  tick_peers-Reaches inputs dst_len d d' ((k, handle) ∷ rest) sent h =
      let (p, at, h1) = some-of_bind (get_elem? d.made handle) _ h in
      let ((p', now), ticks, h2) =
        some-of_bind (tick_peer p p.endpoint.addr (inputs (length rest)) dst_len) _ h1 in
      let moved : Device net = record d { made = set d.made handle p' } in
      let ((u, later), more, h3) = some-of_bind (tick_peers inputs dst_len moved rest) _ h2 in
      let last : u ≡ d' = cc h3 in
      let same : put_peer d handle p' ≡ moved = unfold put_peer in refl in
      Reaches-trans c net
        (next here (
          works handle p p' at
            (tick_peer-index p p' p.endpoint.addr (inputs (length rest)) dst_len now ticks) same))
        (subst (Reaches c net moved) last
          (tick_peers-Reaches inputs dst_len moved u rest later more))
