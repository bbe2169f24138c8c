-- ===== src/Device/Table.antt =====
-- device/mod.rs, the tables of the peers: `remove_peer`, `update_peer` and `clear_peers`, and the
-- three ways to find a peer. A panic is `none`, and so is a handle without a peer, which does not
-- occur.
pub mod Consistent
pub mod Adding
pub mod Fresh
pub mod Run
use veil_vpn.Prelude.{
  ℕ, ◌/◌, ◌^◌, Bool, true, false, Option, none, some, List, [], ◌∷◌, ◌++◌, ◌==◌, if◌then◌else◌,
  length, get_elem?, set, ◌>>=◌,
}
use veil_vpn.Prelude.Bytes.{Bytes}
use veil_vpn.Prelude.Maps.{get, insert, remove, nat_key, bytes_key}
use veil_vpn.Noise.Errors.{Result, ok, err}
use veil_vpn.Noise.Crypto.{Crypto}
use veil_vpn.Noise.Packet.{
  IpAddr, Packet, handshake_init, handshake_response, packet_cookie_reply, packet_data,
}
use veil_vpn.Noise.Handshake.Initiation.{parse_handshake_anon}
use veil_vpn.Noise.Tunn
use veil_vpn.Noise.Tunn.{OwnKeys}
use veil_vpn.Payment.Quota
use veil_vpn.Payment.Quota.{default_quota_bytes}
use veil_vpn.Device.AllowedIps
use veil_vpn.Device.AllowedIps.{NetworkTable, AllowedIp}
use veil_vpn.Device.IndexLfsr.{next}
use veil_vpn.Device.Peer
use veil_vpn.Device.Peer.{Peer, SocketAddr, shutdown_endpoint}
use veil_vpn.Device.State.{Device}

module _ (net : NetworkTable) where
  -- A peer, and every reference to it.
  unfoldable pub purge : Device net → Bytes → ℕ → Peer net → Device net
  unfolding AllowedIps.remove shutdown_endpoint
  purge d pub_key handle p = record d {
    peers = remove d.peers pub_key;
    peers_by_idx = remove d.peers_by_idx p.index;
    peers_by_ip = AllowedIps.remove net ℕ d.peers_by_ip (λ h. h == handle);
    made = set d.made handle (shutdown_endpoint net p);
  }

  unfoldable pub remove_found : Device net → Bytes → Option ℕ → Option (Device net)
  unfolding purge
  remove_found d pub_key none = some d
  remove_found d pub_key (some handle) = do
    p ← get_elem? d.made handle
    some (purge d pub_key handle p)

  unfoldable pub remove_peer : Device net → Bytes → Option (Device net)
  unfolding remove_found
  remove_peer d pub_key = remove_found d pub_key (get d.peers pub_key)

  unfoldable pub clear_peers : Device net → Device net
  unfolding AllowedIps.clear
  clear_peers d = record d {
    peers = [];
    peers_by_idx = [];
    peers_by_ip = AllowedIps.clear net ℕ d.peers_by_ip;
  }

  -- The peer that a packet to or from an address belongs to.
  unfoldable pub find_by_ip : Device net → IpAddr → Option ℕ
  unfolding AllowedIps.find
  find_by_ip d addr = AllowedIps.find net ℕ d.peers_by_ip addr

-- What a peer is made of, but its key and index.
pub record Settings : Type 0 where
  pub endpoint : Option SocketAddr
  pub allowed_ips : List AllowedIp
  pub keepalive : Option ℕ
  pub preshared_key : Option Bytes
  pub own_keys : OwnKeys
  pub now : ℕ

module _ (c : Crypto) (net : NetworkTable) where
  -- A new peer, with the quota that every peer starts with.
  unfoldable pub new_peer : Bytes → Bytes → ℕ → Settings → Option (Peer net)
  unfolding Peer.new Tunn.new Quota.new
  new_peer private_key pub_key index s = do
    let tunn =
        Tunn.new c private_key pub_key s.preshared_key s.keepalive index none s.own_keys s.now
    p ← Peer.new net tunn index s.endpoint s.allowed_ips s.preshared_key
    some (record p { quota = some (Quota.new default_quota_bytes) })

  unfoldable pub add_peer : Device net → Bytes → Settings → Option (Device net)
  unfolding new_peer AllowedIps.insert_all
  add_peer d pub_key s = do
    (l, index) ← next d.next_index
    (private_key, public_key) ← d.key_pair
    p ← new_peer private_key pub_key index s
    let handle = length d.made
    ips ← AllowedIps.insert_all net ℕ d.peers_by_ip s.allowed_ips handle
    some (record d {
      next_index = l;
      made = d.made ++ (p ∷ []);
      peers = insert d.peers pub_key handle;
      peers_by_idx = insert d.peers_by_idx index handle;
      peers_by_ip = ips;
    })

  -- A peer that is there already is a panic.
  unfoldable pub update_found : Device net → Bytes → Settings → Option ℕ → Option (Device net)
  unfolding add_peer
  update_found d pub_key s (some handle) = none
  update_found d pub_key s none = add_peer d pub_key s

  unfoldable pub update_peer : Device net → Bytes → Bool → Settings → Option (Device net)
  unfolding update_found remove_peer
  update_peer d pub_key to_remove s =
      if to_remove
      then remove_peer net d pub_key
      else update_found d pub_key s (get d.peers pub_key)

  -- The peer that an anonymous datagram is for: by the static key in an initiation, or by the
  -- upper 24 bits of the receiver's index.
  unfoldable pub find_by_packet : Device net → Bytes → Bytes → Packet → Option ℕ
  find_by_packet d private_key public_key (handshake_init p) =
      elim (parse_handshake_anon c private_key public_key p) [
        | ok hh ↦ get d.peers hh.peer_static_public
        | err e ↦ none
      ]
  find_by_packet d private_key public_key (handshake_response p) =
      get d.peers_by_idx (p.receiver_idx / 2 ^ 8)
  find_by_packet d private_key public_key (packet_cookie_reply p) =
      get d.peers_by_idx (p.receiver_idx / 2 ^ 8)
  find_by_packet d private_key public_key (packet_data p) =
      get d.peers_by_idx (p.receiver_idx / 2 ^ 8)
