-- ===== src/Device/Inbound.antt =====
-- device/mod.rs: what a device does with a datagram of a peer, `register_udp_handler` for those on
-- the shared sockets and `register_conn_handler` for those on the socket of the peer. One call is
-- one round of the handler's loop; `none` is a panic.
pub mod Rounds
pub mod Enforced
pub mod Charged
pub mod Served
pub mod Flushed
use veil_vpn.Prelude.{
  ℕ, zero, suc, Bool, true, false, Option, none, some, List, [], ◌∷◌, ◌++◌, if◌then◌else◌, length,
  ◌>>=◌,
}
use veil_vpn.Prelude.Bytes.{Bytes, bytes_eq}
use veil_vpn.Noise.Crypto.{Crypto}
use veil_vpn.Noise.Packet.{Packet, IpAddr, v4, v6}
use veil_vpn.Noise.Handshake.Initiation.{Inputs}
use veil_vpn.Noise.RateLimiter.{
  TunnResult, done, failed, write_to_network, write_to_tunnel_v4, write_to_tunnel_v6,
}
use veil_vpn.Noise.Tunn.{Tunn}
use veil_vpn.Noise.Tunn.Receive.{handle_verified_packet, decapsulate}
use veil_vpn.Payment.Protocol.{
  is_payment_signal, extract_signal_payload, dst_ipv4, src_ipv4, payment_gateway_ip,
}
use veil_vpn.Payment.Wallet.{Ethereum}
use veil_vpn.Payment.Settlement.{Http}
use veil_vpn.Device.AllowedIps.{NetworkTable}
use veil_vpn.Device.Peer.{Peer, is_allowed_ip}
use veil_vpn.Device.State.{Device}
use veil_vpn.Device.Gate.{Gate, pass, blocked, exhausted, charge}
use veil_vpn.Device.Payments.{
  send_payment_required, handle_payment_submit, handle_payment_signal_client,
}

-- What a handler reads besides the packet: random bytes, the time of day in seconds, the inputs of
-- the tunnel, the length of its buffer, and whether the address to answer payments at is known.
pub record Context : Type 0 where
  pub nonce : Bytes
  pub unix_now : ℕ
  pub inputs : Inputs
  pub dst_len : ℕ
  pub has_address : Bool

-- The peer, the datagrams that are sent, the packet that is written to the interface, whether the
-- packet was taken for a signal of payment, whether the queue is to be flushed, and whether the
-- round goes on to its end.
pub record Reaction (net : NetworkTable) : Type 0 where
  pub peer : Peer net
  pub sent : List Bytes
  pub written : Option Bytes
  pub signalled : Bool
  pub flush : Bool
  pub proceeds : Bool

module _ (net : NetworkTable) where
  -- The round ends here, by `continue`.
  abbrev pub ends : Peer net × List Bytes → Reaction net
  ends (p, sent) = record {
    peer = p;
    sent = sent;
    written = none;
    signalled = false;
    flush = false;
    proceeds = false;
  }

  -- Nothing is sent, and the round goes on.
  abbrev pub goes_on : Peer net → Option Bytes → Reaction net
  goes_on p written = record {
    peer = p;
    sent = [];
    written = written;
    signalled = false;
    flush = false;
    proceeds = true;
  }

-- The address is there, and is the gateway's.
unfoldable pub is_gateway : Option Bytes → Bool
is_gateway none = false
is_gateway (some src) = bytes_eq src payment_gateway_ip

module _ (c : Crypto) (e : Ethereum) (http_client : Http) (net : NetworkTable) where
  -- A message from a peer to the gateway is a payment, and one from the gateway is for a client;
  -- both need an address to answer at.
  unfoldable pub handle_payload :
      Device net
      → Peer net
      → Bytes
      → Bytes
      → Option Bytes
      → Context
      → Option (Peer net × List Bytes)
  unfolding is_gateway
  handle_payload d p payload dst src k =
      if bytes_eq dst payment_gateway_ip
      then (if k.has_address
          then handle_payment_submit c e http_client net d p payload k.inputs
          else none)
      else if is_gateway src
      then (if k.has_address
          then handle_payment_signal_client c e net d p payload k.unix_now k.inputs
          else none)
      else some (p, [])

  unfoldable pub handle_parts :
      Device net
      → Peer net
      → Option Bytes
      → Option Bytes
      → Option Bytes
      → Context
      → Option (Peer net × List Bytes)
  unfolding handle_payload
  handle_parts d p none dst src k = some (p, [])
  handle_parts d p (some payload) none src k = some (p, [])
  handle_parts d p (some payload) (some dst) src k = handle_payload d p payload dst src k

  unfoldable pub handle_signal :
      Device net → Peer net → Bytes → Context → Option (Peer net × List Bytes)
  unfolding handle_parts
  handle_signal d p packet k =
      handle_parts d p (extract_signal_payload packet) (dst_ipv4 packet) (src_ipv4 packet) k

  -- What follows from the gate: over IPv4 the peer is asked to pay when its quota is exhausted.
  unfoldable pub admit_v4 : Device net → Peer net → Gate → Bytes → Context → Option (Reaction net)
  admit_v4 d p pass packet k = some (goes_on net p (some packet))
  admit_v4 d p blocked packet k = some (ends net (p, []))
  admit_v4 d p exhausted packet k =
      if k.has_address
      then (do
        asked ← send_payment_required c net d p k.nonce k.unix_now k.inputs
        some (ends net asked))
      else none

  unfoldable pub admit_v6 : Peer net → Gate → Bytes → Reaction net
  admit_v6 p pass packet = goes_on net p (some packet)
  admit_v6 p blocked packet = ends net (p, [])
  admit_v6 p exhausted packet = ends net (p, [])

  -- A signal of payment is looked at before the allowed addresses.
  unfoldable pub receive_v4 :
      Device net → Peer net → Bytes → Bytes → Context → Option (Reaction net)
  unfolding handle_signal admit_v4
  receive_v4 d p packet src_ip k =
      let (quota', gate) = charge d.payment_config.is_server p.quota (length packet) in
      if is_payment_signal packet
      then (do
        answered ← handle_signal d p packet k
        some (record (ends net answered) { signalled = true }))
      else if is_allowed_ip net p (v4 src_ip)
      then admit_v4 d (record p { quota = quota' }) gate packet k
      else some (goes_on net p none)

  unfoldable pub receive_v6 : Device net → Peer net → Bytes → Bytes → Reaction net
  unfolding admit_v6
  receive_v6 d p packet addr =
      let (quota', gate) = charge d.payment_config.is_server p.quota (length packet) in
      if is_allowed_ip net p (v6 addr)
      then admit_v6 (record p { quota = quota' }) gate packet
      else goes_on net p none

  -- The answer of the tunnel. An error ends the round on a shared socket, and not on the peer's.
  unfoldable pub react : Device net → Peer net → Bool → TunnResult → Context → Option (Reaction net)
  unfolding receive_v4 receive_v6
  react d p connected done k = some (goes_on net p none)
  react d p connected (failed error) k =
      some (if connected then goes_on net p none else ends net (p, []))
  react d p connected (write_to_network packet) k = some (record {
    peer = p;
    sent = packet ∷ [];
    written = none;
    signalled = false;
    flush = true;
    proceeds = true;
  })
  react d p connected (write_to_tunnel_v4 packet src_ip) k = receive_v4 d p packet src_ip k
  react d p connected (write_to_tunnel_v6 packet addr) k = some (receive_v6 d p packet addr)
