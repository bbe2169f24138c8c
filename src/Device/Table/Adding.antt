-- ===== src/Device/Table/Adding.antt =====
-- A peer that is added keeps the tables consistent: its index is new.
use veil_vpn.Prelude.{ℕ, ◌≡◌, sym, ap, ◌∙◌, none, some, [], ◌∷◌, ◌++◌, arith, length, some-of_bind}
use veil_vpn.Prelude.Bytes.{Bytes}
use veil_vpn.Prelude.Maps.{insert, nat_key, bytes_key}
use veil_vpn.Noise.Crypto.{Crypto}
use veil_vpn.Noise.Tunn
use veil_vpn.Device.AllowedIps
use veil_vpn.Device.AllowedIps.{NetworkTable, NetworkTableLaws, IpNetwork, AllowedIps}
use veil_vpn.Device.IndexLfsr.{IndexLfsr, next}
use veil_vpn.Device.Peer
use veil_vpn.Device.Peer.{Peer}
use veil_vpn.Device.State.{Device}
use veil_vpn.Device.Table.{Settings, new_peer, add_peer}

module _ (net : NetworkTable) where
  -- The device with a peer in its tables.
  abbrev pub with_peer :
      Device net → Bytes → IndexLfsr → ℕ → Peer net → AllowedIps net ℕ → Device net
  with_peer d pub_key l index p ips = record d {
    next_index = l;
    made = d.made ++ (p ∷ []);
    peers = insert d.peers pub_key (length d.made);
    peers_by_idx = insert d.peers_by_idx index (length d.made);
    peers_by_ip = ips;
  }

  -- What `add_peer` does when it does not panic.
  pub record Added (d : Device net) (pub_key : Bytes) (s : Settings) (d' : Device net)
      : Type 0 where
    pub l : IndexLfsr
    pub p : Peer net
    pub ips : AllowedIps net ℕ
    pub next_eq : next d.next_index ≡ some (l, p.index)
    pub ips_eq : AllowedIps.insert_all net ℕ d.peers_by_ip s.allowed_ips (length d.made) ≡ some ips
    pub device_eq : with_peer d pub_key l p.index p ips ≡ d'

  new_peer-index :
      (c : Crypto) (private_key pub_key : Bytes) (index : ℕ) (s : Settings) (p : Peer net)
      → new_peer c net private_key pub_key index s ≡ some p
      → index ≡ p.index
  unfolding new_peer Peer.new
  new_peer-index c private_key pub_key index s p h =
      let (p1, e, h1) =
        some-of_bind
          (Peer.new net
            (Tunn.new c private_key pub_key s.preshared_key s.keepalive index none s.own_keys s.now)
            index s.endpoint s.allowed_ips s.preshared_key)
          _ h in
      let (ips, e1, h2) =
        some-of_bind
          (AllowedIps.insert_all net (Unit {0}) (AllowedIps.new net (Unit {0})) s.allowed_ips tt) _
          e in
      ground (arith, h1, h2)

  pub add_peer-Added :
      (c : Crypto) (d d' : Device net) (pub_key : Bytes) (s : Settings)
      → add_peer c net d pub_key s ≡ some d'
      → Added d pub_key s d'
  unfolding add_peer
  add_peer-Added c d d' pub_key s h =
      let ((l, index), e, h1) = some-of_bind (next d.next_index) _ h in
      let ((private_key, public_key), e1, h2) = some-of_bind d.key_pair _ h1 in
      let (p, e2, h3) = some-of_bind (new_peer c net private_key pub_key index s) _ h2 in
      let (ips, e3, h4) =
        some-of_bind (AllowedIps.insert_all net ℕ d.peers_by_ip s.allowed_ips (length d.made)) _
          h3 in
      let same = new_peer-index c private_key pub_key index s p e2 in
      record {
        l = l;
        p = p;
        ips = ips;
        next_eq = e ∙ ap (λ i. some (l, i)) same;
        ips_eq = e3;
        device_eq = cc (ap (λ i. with_peer d pub_key l i p ips) (sym same), h4);
      }
