-- ===== src/Device/Inbound/Rounds.antt =====
-- device/mod.rs: one round of the handlers of datagrams, from the answer of the tunnel to the end
-- of the round.
use veil_vpn.Prelude.{
  ℕ, zero, suc, Bool, true, false, Option, none, some, List, [], ◌∷◌, ◌++◌, if◌then◌else◌, ◌>>=◌,
  ◌+◌, not,
}
use veil_vpn.Prelude.Bytes.{Bytes}
use veil_vpn.Noise.Crypto.{Crypto}
use veil_vpn.Noise.Packet.{Packet, IpAddr}
use veil_vpn.Noise.RateLimiter.{write_to_network}
use veil_vpn.Noise.Tunn.{Tunn, max_queue_depth}
use veil_vpn.Noise.Tunn.Receive.{handle_verified_packet, decapsulate}
use veil_vpn.Payment.Wallet.{Ethereum}
use veil_vpn.Payment.Settlement.{Http}
use veil_vpn.Device.AllowedIps.{NetworkTable}
use veil_vpn.Device.Peer.{Peer, SocketAddr, set_endpoint, connect_endpoint}
use veil_vpn.Device.State.{Device}
use veil_vpn.Device.Inbound.{Context, Reaction, react}

-- One more than the tunnel can have datagrams to send: a full queue, and one initiation.
abbrev pub flush_fuel : ℕ
flush_fuel = max_queue_depth + 2

-- The loop that sends what waits in the queue goes on while there is a datagram. It is on fuel, and
-- `none` when that runs out.
unfoldable pub flush_queue : Crypto → ℕ → Tunn → Context → Option (Tunn × List Bytes)
flush_queue c zero t k = none
flush_queue c (suc fuel) t k = do
  (t', r) ← decapsulate c t none [] k.inputs k.dst_len
  elim r [
    | write_to_network packet ↦ do (t'', sent) ← flush_queue c fuel t' k; some (t'', packet ∷ sent)
    | _ ↦ some (t', [])
  ]

module _ (c : Crypto) (e : Ethereum) (http_client : Http) (net : NetworkTable) where
  -- The queue is flushed when the round goes on and has sent a datagram.
  unfoldable pub flush_if : Bool → Reaction net → Context → Option (Reaction net)
  unfolding flush_queue
  flush_if false x k = some x
  flush_if true x k = do
    (t, sent) ← flush_queue c flush_fuel x.peer.tunnel k
    some (record x { peer = record (x.peer) { tunnel = t }; sent = x.sent ++ sent })

  -- A round on a shared socket ends with the address of the sender as that of the peer, and a
  -- socket of its own for the peer, if the device is configured so and there is none yet.
  unfoldable pub settle_endpoint :
      Device net → Reaction net → SocketAddr → (SocketAddr → Option ℕ) → Option (Reaction net)
  unfolding set_endpoint connect_endpoint
  settle_endpoint d x addr connect =
      if not x.proceeds
      then some x
      else if d.use_connected_socket
      then (do
        (p, sock) ← connect_endpoint net (set_endpoint net x.peer addr) connect
        some (record x { peer = p }))
      else some (record x { peer = set_endpoint net x.peer addr })

  -- A packet that the limiter of the device let through, from `addr`, for the peer that was found.
  unfoldable pub handle_anonymous :
      Device net
      → Peer net
      → Packet
      → SocketAddr
      → (SocketAddr → Option ℕ)
      → Context
      → Option (Reaction net)
  unfolding react flush_if settle_endpoint
  handle_anonymous d p packet addr connect k = do
    (t, r) ← handle_verified_packet c p.tunnel packet k.inputs k.dst_len
    x ←
        react c e http_client net d (record p { tunnel = t }) false r
          (record k { has_address = true })
    y ← flush_if x.flush x k
    settle_endpoint d y addr connect

  -- A datagram on the socket of the peer.
  unfoldable pub handle_connected :
      Device net → Peer net → IpAddr → Bytes → Context → Option (Reaction net)
  unfolding react flush_if
  handle_connected d p peer_addr datagram k = do
    (t, r) ← decapsulate c p.tunnel (some peer_addr) datagram k.inputs k.dst_len
    x ←
        react c e http_client net d (record p { tunnel = t }) true r
          (record k { has_address = elim p.endpoint.addr [ none ↦ false | some _ ↦ true ] })
    flush_if x.flush x k
