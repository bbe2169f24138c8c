-- ===== src/Device/Peer.antt =====
-- device/peer.rs, `Peer`: a tunnel with its endpoint, the addresses that its packets may come from,
-- and its quota. A socket is a number; the locks make each call one step.
use veil_vpn.Prelude.{
  ℕ, Bool, true, false, ◌&&◌, Option, none, some, List, map, ◌==◌, if◌then◌else◌, ◌>>=◌,
}
use veil_vpn.Prelude.Bytes.{Bytes, bytes_eq}
use veil_vpn.Noise.Crypto.{Crypto}
use veil_vpn.Noise.Packet.{IpAddr, v4, v6}
use veil_vpn.Noise.Handshake.Initiation.{Inputs}
use veil_vpn.Noise.RateLimiter.{TunnResult}
use veil_vpn.Noise.Tunn.{Tunn}
use veil_vpn.Noise.Tunn.Clock
use veil_vpn.Payment.Quota.{BandwidthQuota}
use veil_vpn.Device.AllowedIps.{NetworkTable, AllowedIp, AllowedIps}
use veil_vpn.Device.AllowedIps

pub record SocketAddr : Type 0 where
  pub ip : IpAddr
  pub port : ℕ

unfoldable pub ip_eq : IpAddr → IpAddr → Bool
ip_eq (v4 a) (v4 b) = bytes_eq a b
ip_eq (v6 a) (v6 b) = bytes_eq a b
ip_eq (v4 a) (v6 b) = false
ip_eq (v6 a) (v4 b) = false

unfoldable pub addr_eq : Option SocketAddr → SocketAddr → Bool
unfolding ip_eq
addr_eq none b = false
addr_eq (some a) b = ip_eq a.ip b.ip && a.port == b.port

pub record Endpoint : Type 0 where
  pub addr : Option SocketAddr
  pub conn : Option ℕ

pub record Peer (net : NetworkTable) : Type 0 where
  pub tunnel : Tunn
  pub index : ℕ
  pub endpoint : Endpoint
  pub allowed_ips : AllowedIps net (Unit {0})
  pub preshared_key : Option Bytes
  pub quota : Option BandwidthQuota

module _ (net : NetworkTable) where
  -- The panic is that of a prefix that is too long.
  unfoldable pub new :
      Tunn → ℕ → Option SocketAddr → List AllowedIp → Option Bytes → Option (Peer net)
  unfolding AllowedIps.new AllowedIps.insert_all
  new tunnel index endpoint allowed_ips preshared_key = do
    ips ← AllowedIps.insert_all net Unit (AllowedIps.new net Unit) allowed_ips tt
    some (record {
      tunnel = tunnel;
      index = index;
      endpoint = record { addr = endpoint; conn = none };
      allowed_ips = ips;
      preshared_key = preshared_key;
      quota = none;
    })

  unfoldable pub shutdown_endpoint : Peer net → Peer net
  shutdown_endpoint p = record p { endpoint = record (p.endpoint) { conn = none } }

  -- A new address closes the socket that was connected to the old one.
  unfoldable pub set_endpoint : Peer net → SocketAddr → Peer net
  unfolding addr_eq
  set_endpoint p addr =
      if addr_eq p.endpoint.addr addr
      then p
      else record p { endpoint = record { addr = some addr; conn = none } }

  -- `connect` opens, binds and connects a socket to an address, `none` when one of the calls fails.
  -- The result is the new socket, or none for an error; a peer without an address is a panic.
  unfoldable pub connect_endpoint :
      Peer net → (SocketAddr → Option ℕ) → Option (Peer net × Option ℕ)
  connect_endpoint p connect = elim p.endpoint.conn [
    | some _ ↦ some (p, none)
    | none ↦ do
      addr ← p.endpoint.addr
      some (elim (connect addr) [
        | none ↦ (p, none)
        | some sock ↦ (record p { endpoint = record (p.endpoint) { conn = some sock } }, some sock)
      ])
  ]

  unfoldable pub is_allowed_ip : Peer net → IpAddr → Bool
  is_allowed_ip p addr = elim (AllowedIps.find net Unit p.allowed_ips addr) [
    | none ↦ false
    | some _ ↦ true
  ]

  unfoldable pub allowed_ips : Peer net → List (IpAddr × ℕ)
  unfolding AllowedIps.iter
  allowed_ips p = map (λ (d, ip, cidr). (ip, cidr)) (AllowedIps.iter net Unit p.allowed_ips)

  unfoldable pub update_timers : Crypto → Peer net → Inputs → ℕ → Option (Peer net × TunnResult)
  update_timers c p i dst_len = do
    (t, r) ← Clock.update_timers c p.tunnel i dst_len
    some (record p { tunnel = t }, r)
