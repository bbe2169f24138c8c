-- ===== src/Device/Inbound/Charged.antt =====
-- A round of a handler of datagrams forwards what the quota pays for, on every branch.
use mathlib.Core.Path.{subst}
use veil_vpn.Prelude.{
  ℕ, ◌≡◌, refl, sym, inl, inr, Bool, true, false, Option, none, some, [], ◌∷◌, arith, length,
  Bool-cases, some-of_bind,
}
use veil_vpn.Prelude.Bytes.{Bytes}
use veil_vpn.Noise.Crypto.{Crypto}
use veil_vpn.Noise.Packet.{v4, v6}
use veil_vpn.Noise.RateLimiter.{
  TunnResult, done, failed, write_to_network, write_to_tunnel_v4, write_to_tunnel_v6,
}
use veil_vpn.Payment.Quota.{BandwidthQuota}
use veil_vpn.Payment.Protocol.{is_payment_signal, extract_signal_payload, dst_ipv4, src_ipv4}
use veil_vpn.Payment.Wallet.{Ethereum}
use veil_vpn.Payment.Settlement.{Http}
use veil_vpn.Device.AllowedIps.{NetworkTable}
use veil_vpn.Device.Peer.{Peer, is_allowed_ip}
use veil_vpn.Device.State.{Device}
use veil_vpn.Device.Gate.{Gate, pass, blocked, exhausted, charge}
use veil_vpn.Device.Payments.{send_payment_required}
use veil_vpn.Device.Payments.Untouched.{send_payment_required-quota}
use veil_vpn.Device.Inbound.{
  Context, Reaction, ends, goes_on, handle_signal, admit_v4, admit_v6, receive_v4, receive_v6,
  react,
}
use veil_vpn.Device.Inbound.Enforced.{
  HasQuota, Paid, admitted, charge-Paid, same-Paid, handle_parts-Paid,
}

-- The bytes written to the interface, and the bytes that a signal may have added.
abbrev pub bytes_of : Option Bytes → ℕ
bytes_of none = 0
bytes_of (some packet) = length packet

abbrev pub added_by : Bool → ℕ → ℕ
added_by true bytes = bytes
added_by false bytes = 0

module _ (net : NetworkTable) where
  -- What a reaction forwards is paid for.
  abbrev pub Charged : Device net → Peer net → Reaction net → Type 0
  Charged d p x =
      Paid p.quota x.peer.quota (bytes_of x.written)
        (added_by x.signalled d.payment_config.quota_bytes)

  still : (d : Device net) (p : Peer net) → HasQuota p.quota → Charged d p (goes_on net p none)
  still d p has = same-Paid p.quota p.quota 0 has refl

module _ (c : Crypto) (e : Ethereum) (http_client : Http) (net : NetworkTable) where
  admit_v4-Charged :
      (d : Device net) (p : Peer net) (quota : Option BandwidthQuota) (gate : Gate) (packet : Bytes)
      (k : Context) (x : Reaction net)
      → Paid p.quota quota (admitted gate (length packet)) 0
      → admit_v4 c e http_client net d (record p { quota = quota }) gate packet k ≡ some x
      → Charged net d p x
  unfolding admit_v4
  admit_v4-Charged d p quota pass packet k x w h =
      let same : goes_on net (record p { quota = quota }) (some packet) ≡ x = cc h in
      subst (Charged net d p) same w
  admit_v4-Charged d p quota blocked packet k x w h =
      let same : ends net (record p { quota = quota }, []) ≡ x = cc h in
      subst (Charged net d p) same w
  admit_v4-Charged d p quota exhausted packet k x w h = elim (Bool-cases k.has_address) [
    | inr unknown ↦ absurd (ground (arith, h, unknown))
    | inl known ↦
        let ((p', out), asked, h1) =
          some-of_bind
            (send_payment_required c net d (record p { quota = quota }) k.nonce k.unix_now k.inputs)
            (λ asked. some (ends net asked)) {b = x} (ground (arith, h, known)) in
        let kept =
          send_payment_required-quota c net d (record p { quota = quota }) p' k.nonce k.unix_now
            k.inputs out asked in
        let same : ends net (p', out) ≡ x = cc h1 in
        subst (Charged net d p) same (subst (λ q. Paid p.quota q 0 0) (sym kept) w)
  ]

  receive_v4-Charged :
      (d : Device net) (p : Peer net) (packet src_ip : Bytes) (k : Context) (x : Reaction net)
      → d.payment_config.is_server ≡ true
      → HasQuota p.quota
      → receive_v4 c e http_client net d p packet src_ip k ≡ some x
      → Charged net d p x
  unfolding receive_v4
  receive_v4-Charged d p packet src_ip k x server has h =
      elim (Bool-cases (is_payment_signal packet)) [
        | inl signal ↦
            let ((p', out), handled, h1) =
              some-of_bind (handle_signal c e http_client net d p packet k)
                (λ answered. some (record (ends net answered) { signalled = true })) {b = x}
                (ground (arith, h, signal)) in
            let paid =
              handle_parts-Paid c e http_client net d p p' (extract_signal_payload packet)
                (dst_ipv4 packet) (src_ipv4 packet) k out has (unfold handle_signal in handled) in
            let same : record (ends net (p', out)) { signalled = true } ≡ x = cc h1 in
            subst (Charged net d p) same paid
        | inr other ↦ elim (Bool-cases (is_allowed_ip net p (v4 src_ip))) [
          | inl allowed ↦
              admit_v4-Charged d p (charge true p.quota (length packet)).0
                (charge true p.quota (length packet)).1 packet k x
                (charge-Paid p.quota (length packet) has)
                (ground (arith, h, other, allowed, server))
          | inr refused ↦
              let same : goes_on net p none ≡ x = ground (arith, h, other, refused) in
              subst (Charged net d p) same (still net d p has)
        ]
      ]

  admit_v6-Charged :
      (d : Device net) (p : Peer net) (quota : Option BandwidthQuota) (gate : Gate) (packet : Bytes)
      → Paid p.quota quota (admitted gate (length packet)) 0
      → Charged net d p (admit_v6 c e http_client net (record p { quota = quota }) gate packet)
  unfolding admit_v6
  admit_v6-Charged d p quota pass packet w = w
  admit_v6-Charged d p quota blocked packet w = w
  admit_v6-Charged d p quota exhausted packet w = w

  receive_v6-Charged :
      (d : Device net) (p : Peer net) (packet addr : Bytes)
      → d.payment_config.is_server ≡ true
      → HasQuota p.quota
      → Charged net d p (receive_v6 c e http_client net d p packet addr)
  unfolding receive_v6
  receive_v6-Charged d p packet addr server has =
      elim (Bool-cases (is_allowed_ip net p (v6 addr))) [
        | inl allowed ↦
            let gated = λ (server : Bool).
              admit_v6 c e http_client net
                (record p { quota = (charge server p.quota (length packet)).0 })
                (charge server p.quota (length packet)).1 packet in
            rw allowed (
              subst (λ b. Charged net d p (gated b)) (sym server)
                (admit_v6-Charged d p (charge true p.quota (length packet)).0
                  (charge true p.quota (length packet)).1 packet
                  (charge-Paid p.quota (length packet) has)))
        | inr refused ↦ rw refused (still net d p has)
      ]

  pub react-Charged :
      (d : Device net) (p : Peer net) (connected : Bool) (r : TunnResult) (k : Context)
      (x : Reaction net)
      → d.payment_config.is_server ≡ true
      → HasQuota p.quota
      → react c e http_client net d p connected r k ≡ some x
      → Charged net d p x
  unfolding react
  react-Charged d p connected done k x server has h =
      let same : goes_on net p none ≡ x = cc h in subst (Charged net d p) same (still net d p has)
  react-Charged d p true (failed error) k x server has h =
      let same : goes_on net p none ≡ x = cc h in subst (Charged net d p) same (still net d p has)
  react-Charged d p false (failed error) k x server has h =
      let same : ends net (p, []) ≡ x = cc h in subst (Charged net d p) same (still net d p has)
  react-Charged d p connected (write_to_network packet) k x server has h =
      let same : record (goes_on net p none) { sent = packet ∷ []; flush = true } ≡ x = cc h in
      subst (Charged net d p) same (still net d p has)
  react-Charged d p connected (write_to_tunnel_v4 packet src_ip) k x server has h =
      receive_v4-Charged d p packet src_ip k x server has h
  react-Charged d p connected (write_to_tunnel_v6 packet addr) k x server has h =
      let same : receive_v6 c e http_client net d p packet addr ≡ x = cc h in
      subst (Charged net d p) same (receive_v6-Charged d p packet addr server has)
