-- ===== src/Device/Inbound/Served.antt =====
-- The end of a round touches neither the quota nor what was written: the whole round is paid for.
use mathlib.Core.Path.{subst}
use veil_vpn.Prelude.{
  ℕ, ◌≡◌, sym, inl, inr, Bool, true, false, Option, none, some, arith, Bool-cases, some-of_bind,
}
use veil_vpn.Prelude.Bytes.{Bytes}
use veil_vpn.Noise.Crypto.{Crypto}
use veil_vpn.Noise.Packet.{Packet, IpAddr}
use veil_vpn.Noise.Tunn.Receive.{handle_verified_packet, decapsulate}
use veil_vpn.Payment.Wallet.{Ethereum}
use veil_vpn.Payment.Settlement.{Http}
use veil_vpn.Device.AllowedIps.{NetworkTable}
use veil_vpn.Device.Peer.{Peer, SocketAddr, set_endpoint, connect_endpoint}
use veil_vpn.Device.State.{Device}
use veil_vpn.Device.Inbound.{Context, Reaction, react}
use veil_vpn.Device.Inbound.Rounds.{
  flush_fuel, flush_queue, flush_if, settle_endpoint, handle_anonymous, handle_connected,
}
use veil_vpn.Device.Inbound.Enforced.{HasQuota, Paid}
use veil_vpn.Device.Inbound.Charged.{Charged, bytes_of, added_by, react-Charged}

-- The quota, what was written, and whether it was a signal are as before.
pub record Same (net : NetworkTable) (x y : Reaction net) : Type 0 where
  pub quota_eq : y.peer.quota ≡ x.peer.quota
  pub written_eq : y.written ≡ x.written
  pub signalled_eq : y.signalled ≡ x.signalled

module _ (net : NetworkTable) where
  Same-Charged :
      (d : Device net) (p : Peer net) (x y : Reaction net)
      → Same net x y
      → Charged net d p x
      → Charged net d p y
  Same-Charged d p x y s w =
      subst
        (λ q.
          Paid p.quota q (bytes_of y.written) (added_by y.signalled d.payment_config.quota_bytes))
        (sym s.quota_eq)
        (subst
          (λ b.
            Paid p.quota x.peer.quota (bytes_of b)
              (added_by y.signalled d.payment_config.quota_bytes))
          (sym s.written_eq)
          (subst
            (λ b.
              Paid p.quota x.peer.quota (bytes_of x.written)
                (added_by b d.payment_config.quota_bytes))
            (sym s.signalled_eq) w))

  set_endpoint-quota :
      (p : Peer net) (addr : SocketAddr) → (set_endpoint net p addr).quota ≡ p.quota
  unfolding set_endpoint
  set_endpoint-quota p addr = ground arith

  connect_endpoint-quota :
      (p p' : Peer net) (connect : SocketAddr → Option ℕ) (sock : Option ℕ)
      → connect_endpoint net p connect ≡ some (p', sock)
      → p'.quota ≡ p.quota
  unfolding connect_endpoint
  connect_endpoint-quota p p' connect sock h = ground (arith, h)

module _ (c : Crypto) (e : Ethereum) (http_client : Http) (net : NetworkTable) where
  flush_if-Same :
      (flush : Bool) (x y : Reaction net) (k : Context)
      → flush_if c e http_client net flush x k ≡ some y
      → Same net x y
  unfolding flush_if
  flush_if-Same false x y k h = record {
    quota_eq = ground (arith, h);
    written_eq = ground (arith, h);
    signalled_eq = ground (arith, h);
  }
  flush_if-Same true x y k h =
      let ((t, sent), flushes, h1) = some-of_bind (flush_queue c flush_fuel x.peer.tunnel k) _ h in
      record {
        quota_eq = ground (arith, h1);
        written_eq = ground (arith, h1);
        signalled_eq = ground (arith, h1);
      }

  settle_endpoint-Same :
      (d : Device net) (x y : Reaction net) (addr : SocketAddr) (connect : SocketAddr → Option ℕ)
      → settle_endpoint c e http_client net d x addr connect ≡ some y
      → Same net x y
  unfolding settle_endpoint
  settle_endpoint-Same d x y addr connect h = elim (Bool-cases x.proceeds) [
    | inr stops ↦ record {
      quota_eq = ground (arith, h, stops);
      written_eq = ground (arith, h, stops);
      signalled_eq = ground (arith, h, stops);
    }
    | inl on ↦ elim (Bool-cases d.use_connected_socket) [
      | inr shared ↦ record {
        quota_eq = ground (arith, h, on, shared, set_endpoint-quota net x.peer addr);
        written_eq = ground (arith, h, on, shared);
        signalled_eq = ground (arith, h, on, shared);
      }
      | inl own ↦
          let ((p, sock), connects, h1) =
            some-of_bind (connect_endpoint net (set_endpoint net x.peer addr) connect)
              (λ (p, sock). some (record x { peer = p })) {b = y} (ground (arith, h, on, own)) in
          let kept =
            connect_endpoint-quota net (set_endpoint net x.peer addr) p connect sock connects in
          record {
            quota_eq = ground (arith, h1, kept, set_endpoint-quota net x.peer addr);
            written_eq = ground (arith, h1);
            signalled_eq = ground (arith, h1);
          }
    ]
  ]

  -- A round on the socket of the peer.
  pub handle_connected-Charged :
      (d : Device net) (p : Peer net) (peer_addr : IpAddr) (datagram : Bytes) (k : Context)
      (x : Reaction net)
      → d.payment_config.is_server ≡ true
      → HasQuota p.quota
      → handle_connected c e http_client net d p peer_addr datagram k ≡ some x
      → Charged net d p x
  unfolding handle_connected
  handle_connected-Charged d p peer_addr datagram k x server has h =
      let ((t, r), opens, h1) =
        some-of_bind (decapsulate c p.tunnel (some peer_addr) datagram k.inputs k.dst_len) _ h in
      let (y, reacts, h2) =
        some-of_bind
          (react c e http_client net d (record p { tunnel = t }) true r
            (record k { has_address = elim p.endpoint.addr [ none ↦ false | some _ ↦ true ] }))
          _ h1 in
      Same-Charged net d p y x (flush_if-Same y.flush y x k h2)
        (react-Charged c e http_client net d (record p { tunnel = t }) true r _ y server has reacts)

  -- A round on a shared socket.
  pub handle_anonymous-Charged :
      (d : Device net) (p : Peer net) (packet : Packet) (addr : SocketAddr)
      (connect : SocketAddr → Option ℕ) (k : Context) (x : Reaction net)
      → d.payment_config.is_server ≡ true
      → HasQuota p.quota
      → handle_anonymous c e http_client net d p packet addr connect k ≡ some x
      → Charged net d p x
  unfolding handle_anonymous
  handle_anonymous-Charged d p packet addr connect k x server has h =
      let ((t, r), opens, h1) =
        some-of_bind (handle_verified_packet c p.tunnel packet k.inputs k.dst_len) _ h in
      let (y, reacts, h2) =
        some-of_bind
          (react c e http_client net d (record p { tunnel = t }) false r
            (record k { has_address = true }))
          _ h1 in
      let (z, flushes, h3) = some-of_bind (flush_if c e http_client net y.flush y k) _ h2 in
      Same-Charged net d p z x (settle_endpoint-Same d z x addr connect h3) (
        Same-Charged net d p y z (flush_if-Same y.flush y z k flushes) (
          react-Charged c e http_client net d (record p { tunnel = t }) false r _ y server has
            reacts))
