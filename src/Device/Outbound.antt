-- ===== src/Device/Outbound.antt =====
-- device/mod.rs, `register_iface_handler`: what a device does with a packet from the interface, one
-- round of its loop. `none` is a panic, and a result of `none` within is a packet that goes to no
-- peer.
use veil_vpn.Prelude.{
  ℕ, Bool, true, false, Option, none, some, List, [], ◌∷◌, length, get_elem?, ◌>>=◌,
}
use veil_vpn.Prelude.Bytes.{Bytes}
use veil_vpn.Noise.Crypto.{Crypto}
use veil_vpn.Noise.Packet.{IpAddr, dst_address}
use veil_vpn.Noise.RateLimiter.{TunnResult, done, failed, write_to_network}
use veil_vpn.Noise.Tunn.Send.{encapsulate}
use veil_vpn.Device.AllowedIps.{NetworkTable}
use veil_vpn.Device.Peer.{Peer, SocketAddr}
use veil_vpn.Device.State.{Device}
use veil_vpn.Device.Table.{find_by_ip}
use veil_vpn.Device.Gate.{Gate, pass, blocked, exhausted, charge}
use veil_vpn.Device.Payments.{send_payment_required}
use veil_vpn.Device.Inbound.{Context}

-- The peer after the packet, the datagrams sent, and whether the packet passed the gate.
pub record Forwarded (net : NetworkTable) : Type 0 where
  pub peer : Peer net
  pub sent : List Bytes
  pub passed : Bool

module _ (c : Crypto) (net : NetworkTable) where
  -- A datagram needs an endpoint to be sent to.
  unfoldable pub sent_to : Peer net → TunnResult → Option (List Bytes)
  sent_to p done = some []
  sent_to p (failed error) = some []
  sent_to p (write_to_network packet) = elim p.endpoint.conn [
    | some conn ↦ some (packet ∷ [])
    | none ↦ elim p.endpoint.addr [ some addr ↦ some (packet ∷ []) | none ↦ some [] ]
  ]
  sent_to p r = none

  -- A peer whose quota is exhausted by the packet is asked to pay, if its address is known.
  unfoldable pub ask_to_pay :
      Device net → Peer net → Option SocketAddr → Context → Option (Forwarded net)
  ask_to_pay d p none k = some (record { peer = p; sent = []; passed = false })
  ask_to_pay d p (some addr) k = do
    (p', sent) ← send_payment_required c net d p k.nonce k.unix_now k.inputs
    some (record { peer = p'; sent = sent; passed = false })

  unfoldable pub forward : Device net → Peer net → Gate → Bytes → Context → Option (Forwarded net)
  unfolding sent_to ask_to_pay
  forward d p blocked src k = some (record { peer = p; sent = []; passed = false })
  forward d p exhausted src k = ask_to_pay d p p.endpoint.addr k
  forward d p pass src k = do
    (t, r) ← encapsulate c p.tunnel src k.inputs k.dst_len
    sent ← sent_to p r
    some (record { peer = record p { tunnel = t }; sent = sent; passed = true })

  unfoldable pub send_to_peer : Device net → Peer net → Bytes → Context → Option (Forwarded net)
  unfolding forward
  send_to_peer d p src k =
      let (quota', gate) = charge d.payment_config.is_server p.quota (length src) in
      forward d (record p { quota = quota' }) gate src k

  -- The peer is the one that the address of the packet belongs to.
  unfoldable pub handle_found :
      Device net → Bytes → Option ℕ → Context → Option (Option (ℕ × Forwarded net))
  unfolding send_to_peer
  handle_found d src none k = some none
  handle_found d src (some handle) k = do
    p ← get_elem? d.made handle
    x ← send_to_peer d p src k
    some (some (handle, x))

  unfoldable pub find_destination : Device net → Option IpAddr → Option ℕ
  unfolding find_by_ip
  find_destination d none = none
  find_destination d (some addr) = find_by_ip net d addr

  unfoldable pub handle_interface :
      Device net → Bytes → Context → Option (Option (ℕ × Forwarded net))
  unfolding handle_found find_destination
  handle_interface d src k = handle_found d src (find_destination d (dst_address src)) k
