-- ===== src/Device/Table/Consistent.antt =====
-- The tables of a device agree with one another.
use veil_vpn.Prelude.{
  ℕ, ◌≡◌, refl, sym, ap, ◌∙◌, ◌≢◌, inl, inr, true, false, not, some, List, arith, ◌==◌, get_elem?,
  All, All-zip, All-of, Bool-cases, In, get_elem?-set_ne,
}
use veil_vpn.Prelude.Bytes.{Bytes, bytes_eq, bytes_eq_refl, bytes_eq→eq}
use veil_vpn.Prelude.Maps.{get, nat_key, bytes_key, get-remove-some, get-remove_ne}
use veil_vpn.Noise.Packet.{IpAddr}
use veil_vpn.Device.AllowedIps
use veil_vpn.Device.AllowedIps.{NetworkTable, NetworkTableLaws, IpNetwork}
use veil_vpn.Device.AllowedIps.Found.{All-find}
use veil_vpn.Device.IndexLfsr.Distinct.{Used, index_of}
use veil_vpn.Device.Peer.{Peer}
use veil_vpn.Device.State.{Device}
use veil_vpn.Device.Table.{purge, find_by_ip}

-- The handle stands for a peer that the device knows by a key.
abbrev pub IsKnown : (net : NetworkTable) → Device net → ℕ → Type 0
IsKnown net d handle = (k : Bytes) × (get d.peers k ≡ some handle)

-- Every key leads to a peer, which its own index leads to as well; every index leads to a peer of
-- that index, which a key leads to; every address leads to a peer that a key leads to; no two keys
-- lead to one peer; and every index in use was given by the register.
pub record IsConsistent (net : NetworkTable) (d : Device net) (seen : List ℕ) : Type 0 where
  pub of_key :
      (k : Bytes) (h : ℕ)
      → get d.peers k ≡ some h
      → (p : Peer net) × (get_elem? d.made h ≡ some p) × (get d.peers_by_idx p.index ≡ some h)
  pub of_idx :
      (i h : ℕ)
      → get d.peers_by_idx i ≡ some h
      → (p : Peer net) × (get_elem? d.made h ≡ some p) × (p.index ≡ i) × IsKnown net d h
  pub of_ip : All (λ e. IsKnown net d e.1) (net.iter ℕ d.peers_by_ip)
  pub apart : (j k : Bytes) (h : ℕ) → get d.peers j ≡ some h → get d.peers k ≡ some h → j ≡ k
  pub used : Used d.next_index seen
  pub given :
      (i h : ℕ)
      → get d.peers_by_idx i ≡ some h
      → (u : ℕ) × In u seen × (i ≡ index_of d.next_index.mask u)

eq_ne : (m n : ℕ) → (m == n) ≡ false → m ≢ n
eq_ne m n h e = ground arith

ne_eq : (m n : ℕ) → m ≢ n → (m == n) ≡ false
ne_eq m n h = ground arith

ne_bytes : (j k : Bytes) → bytes_eq j k ≡ false → j ≢ k
ne_bytes j k h e = cc (ap (bytes_eq j) e, bytes_eq_refl j, h)

module _ (net : NetworkTable) (laws : NetworkTableLaws net) (d : Device net) (seen : List ℕ)
    (w : IsConsistent net d seen) where
  -- A peer that is found is a peer.
  module _ (k : Bytes) (handle : ℕ) (p : Peer net) (here : get d.peers k ≡ some handle)
      (at : get_elem? d.made handle ≡ some p) where
    -- A key other than that of the peer leads to another peer.
    other_handle : (j : Bytes) (h : ℕ) → bytes_eq k j ≡ false → get d.peers j ≡ some h → handle ≢ h
    other_handle j h ne found e = ne_bytes k j ne (w.apart k j h (here ∙ ap some e) found)

    own_index : get d.peers_by_idx p.index ≡ some handle
    own_index =
        let (p', at', idx) = w.of_key k handle here in
        let same : p' ≡ p = cc (at, at') in
        ap (λ (x : Peer net). get d.peers_by_idx x.index) (sym same) ∙ idx

    -- Another peer has another index.
    other_index :
        (h : ℕ) (p' : Peer net)
        → get d.peers_by_idx p'.index ≡ some h
        → handle ≢ h
        → (p.index == p'.index) ≡ false
    other_index h p' idx ne =
        ne_eq p.index p'.index (λ e. ne (cc (own_index, idx, ap (get d.peers_by_idx) e)))

    abbrev pub purged : Device net
    purged = purge net d k handle p

    other_at :
        (h : ℕ) (p' : Peer net)
        → handle ≢ h
        → get_elem? d.made h ≡ some p'
        → get_elem? purged.made h ≡ some p'
    unfolding purge
    other_at h p' ne at' = get_elem?-set_ne d.made _ ne ∙ at'

    still-IsKnown : (h : ℕ) → handle ≢ h → IsKnown net d h → IsKnown net purged h
    unfolding purge
    still-IsKnown h ne (j, found) = (
      j,
      get-remove_ne d.peers k j (differs (λ e. ne (cc (here, found, ap (get d.peers) e)))) ∙ found,
    )
      where
        differs : (k ≢ j) → bytes_eq k j ≡ false
        differs apart = elim (Bool-cases (bytes_eq k j)) [
          | inl e ↦ absurd (apart (bytes_eq→eq k j e))
          | inr e ↦ e
        ]

    not_handle : (h : ℕ) → not (h == handle) ≡ true → handle ≢ h
    not_handle h kept e = ground arith

    purged-of_ip : All (λ e. IsKnown net purged e.1) (net.iter ℕ purged.peers_by_ip)
    unfolding AllowedIps.remove
    purged-of_ip =
        unfold purge in
        All-zip (net.iter ℕ (net.retain ℕ d.peers_by_ip (λ n v. not (v == handle))))
          (λ (e : IpNetwork × ℕ) known (u : Unit {0}).
            still-IsKnown e.1 (not_handle e.1 known.1) known.0)
          (laws.All-retain ℕ (λ e. IsKnown net d e.1) d.peers_by_ip (λ n v. not (v == handle))
            w.of_ip)
          (All-of (λ e. tt) _)

    -- Removing a peer keeps the tables consistent.
    pub purged-IsConsistent : IsConsistent net purged seen
    purged-IsConsistent = record {
      of_key = λ j h found.
          let (ne, found') = get-remove-some d.peers k j h (unfold purge in found) in
          let (p', at', idx) = w.of_key j h found' in
          let apart = other_handle j h ne found' in
          (
            p',
            other_at h p' apart at',
            unfold purge in
                get-remove_ne d.peers_by_idx p.index p'.index (other_index h p' idx apart) ∙ idx,
          );
      of_idx = λ i h found.
          let (ne, found') = get-remove-some d.peers_by_idx p.index i h (unfold purge in found) in
          let (p', at', index, known) = w.of_idx i h found' in
          let apart : handle ≢ h = λ e.
            let same : p ≡ p' = cc (at, at', ap (get_elem? d.made) e) in
            eq_ne p.index i ne (ap (λ (x : Peer net). x.index) same ∙ index) in
          (p', other_at h p' apart at', index, still-IsKnown h apart known);
      of_ip = purged-of_ip;
      apart = λ i j h found found'.
          w.apart i j h (get-remove-some d.peers k i h (unfold purge in found)).1
            (get-remove-some d.peers k j h (unfold purge in found')).1;
      used = unfold purge in w.used;
      given = λ i h found.
          unfold purge in w.given i h (get-remove-some d.peers_by_idx p.index i h found).1;
    }

    -- No key, index or address leads to the peer that was removed.
    pub purged-gone :
        ((j : Bytes) → get purged.peers j ≢ some handle)
        × ((i : ℕ) → get purged.peers_by_idx i ≢ some handle)
        × ((addr : IpAddr) → find_by_ip net purged addr ≢ some handle)
    purged-gone = (
      λ j found.
          let (ne, found') = get-remove-some d.peers k j handle (unfold purge in found) in
          other_handle j handle ne found' refl,
      λ i found.
          let (ne, found') =
            get-remove-some d.peers_by_idx p.index i handle (unfold purge in found) in
          let (p', at', index, known) = w.of_idx i handle found' in
          let same : p ≡ p' = cc (at, at') in
          eq_ne p.index i ne (ap (λ (x : Peer net). x.index) same ∙ index),
      λ addr found.
          All-find net laws ℕ (λ h. handle ≢ h) purged.peers_by_ip addr handle
            (unfold purge in unfold AllowedIps.remove in others) (unfold find_by_ip in found) refl,
    )
      where
        others :
            All
              (λ e. handle ≢ e.1)
              (net.iter ℕ (net.retain ℕ d.peers_by_ip (λ n v. not (v == handle))))
        others =
            All-zip (net.iter ℕ (net.retain ℕ d.peers_by_ip (λ n v. not (v == handle))))
              (λ (e : IpNetwork × ℕ) known (u : Unit {0}). not_handle e.1 known.1)
              (laws.All-retain ℕ (λ e. Unit {0}) d.peers_by_ip (λ n v. not (v == handle))
                (All-of (λ e. tt) _))
              (All-of (λ e. tt) _)
