-- ===== src/Device/Traffic/Outgoing.antt =====
-- A packet that goes out to a peer of a server is paid for.
use mathlib.Core.Path.{subst}
use veil_vpn.Prelude.{
  ℕ, ◌≡◌, sym, true, false, Option, none, some, [], arith, length, if◌then◌else◌, some-of_bind,
}
use veil_vpn.Prelude.Bytes.{Bytes}
use veil_vpn.Noise.Crypto.{Crypto}
use veil_vpn.Noise.Tunn.Send.{encapsulate}
use veil_vpn.Payment.Quota.{BandwidthQuota}
use veil_vpn.Device.AllowedIps.{NetworkTable}
use veil_vpn.Device.Peer.{Peer, SocketAddr}
use veil_vpn.Device.State.{Device}
use veil_vpn.Device.Gate.{Gate, pass, blocked, exhausted, charge}
use veil_vpn.Device.Payments.{send_payment_required}
use veil_vpn.Device.Payments.Untouched.{send_payment_required-quota}
use veil_vpn.Device.Inbound.{Context}
use veil_vpn.Device.Inbound.Enforced.{HasQuota, Paid, admitted, charge-Paid}
use veil_vpn.Device.Outbound.{Forwarded, sent_to, ask_to_pay, forward, send_to_peer}

module _ (c : Crypto) (net : NetworkTable) where
  -- The bytes of the packet, if it passed.
  abbrev forwarded_of : Forwarded net → Bytes → ℕ
  forwarded_of x src = if x.passed then length src else 0

  ask_to_pay-quota :
      (d : Device net) (p : Peer net) (addr : Option SocketAddr) (k : Context) (x : Forwarded net)
      → ask_to_pay c net d p addr k ≡ some x
      → (x.peer.quota ≡ p.quota) × (x.passed ≡ false)
  unfolding ask_to_pay
  ask_to_pay-quota d p none k x h = (ground (arith, h), ground (arith, h))
  ask_to_pay-quota d p (some addr) k x h =
      let ((p', sent), asks, h1) =
        some-of_bind (send_payment_required c net d p k.nonce k.unix_now k.inputs) _ h in
      let kept = send_payment_required-quota c net d p p' k.nonce k.unix_now k.inputs sent asks in
      (ground (arith, h1, kept), ground (arith, h1))

  forward-Paid :
      (d : Device net) (p : Peer net) (before : Option BandwidthQuota) (gate : Gate) (src : Bytes)
      (k : Context) (x : Forwarded net)
      → Paid before p.quota (admitted gate (length src)) 0
      → forward c net d p gate src k ≡ some x
      → Paid before x.peer.quota (forwarded_of x src) 0
  unfolding forward
  forward-Paid d p before pass src k x w h =
      let ((t, r), seals, h1) = some-of_bind (encapsulate c p.tunnel src k.inputs k.dst_len) _ h in
      let (sent, sends, h2) = some-of_bind (sent_to c net p r) _ h1 in
      let same : record { peer = record p { tunnel = t }; sent = sent; passed = true } ≡ x =
        cc h2 in
      subst (λ (y : Forwarded net). Paid before y.peer.quota (forwarded_of y src) 0) same w
  forward-Paid d p before blocked src k x w h =
      let same : record { peer = p; sent = []; passed = false } ≡ x = cc h in
      subst (λ (y : Forwarded net). Paid before y.peer.quota (forwarded_of y src) 0) same w
  forward-Paid d p before exhausted src k x w h =
      let (quota_eq, passed_eq) = ask_to_pay-quota d p p.endpoint.addr k x h in
      subst (λ q. Paid before q (forwarded_of x src) 0) (sym quota_eq)
        (subst (λ b. Paid before p.quota (if b then length src else 0) 0) (sym passed_eq) w)

  pub send_to_peer-Paid :
      (d : Device net) (p : Peer net) (src : Bytes) (k : Context) (x : Forwarded net)
      → d.payment_config.is_server ≡ true
      → HasQuota p.quota
      → send_to_peer c net d p src k ≡ some x
      → Paid p.quota x.peer.quota (if x.passed then length src else 0) 0
  unfolding send_to_peer
  send_to_peer-Paid d p src k x server has h =
      forward-Paid d (record p { quota = (charge true p.quota (length src)).0 }) p.quota
        (charge true p.quota (length src)).1 src k x (charge-Paid p.quota (length src) has)
        (subst
          (λ b.
            forward c net d (record p { quota = (charge b p.quota (length src)).0 })
              (charge b p.quota (length src)).1 src k
            ≡ some x)
          server h)
