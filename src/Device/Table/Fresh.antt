-- ===== src/Device/Table/Fresh.antt =====
-- The tables with a new peer are consistent: no other peer has its index.
use mathlib.Core.Path.{subst}
use veil_vpn.Prelude.{
  ℕ, ◌≡◌, refl, sym, ap, ◌∙◌, ◌≢◌, inl, inr, false, none, some, List, [], ◌∷◌, arith, ◌==◌, length,
  get_elem?, All, All-zip, All-of, All-In, In, get_elem?-lt, get_elem?-append, get_elem?-append_end,
}
use veil_vpn.Prelude.Bytes.{Bytes}
use veil_vpn.Prelude.Maps.{
  get, nat_key, bytes_key, get-insert_self, get-insert_ne, get-insert_some, ne_of_get,
}
use veil_vpn.Device.AllowedIps
use veil_vpn.Device.AllowedIps.{NetworkTable, NetworkTableLaws, IpNetwork, AllowedIps, AllowedIp}
use veil_vpn.Device.AllowedIps.Found.{All-insert_all}
use veil_vpn.Device.IndexLfsr.{IndexLfsr, shifted, next}
use veil_vpn.Device.IndexLfsr.Step.{IsRegister}
use veil_vpn.Device.IndexLfsr.Distinct.{Used, Used-next, next_lem, index_of, index_of_inj}
use veil_vpn.Device.Peer.{Peer}
use veil_vpn.Device.State.{Device}
use veil_vpn.Device.Table.Consistent.{IsKnown, IsConsistent}
use veil_vpn.Device.Table.Adding.{with_peer}

module _ (net : NetworkTable) (laws : NetworkTableLaws net) (d : Device net) (seen : List ℕ)
    (w : IsConsistent net d seen) (pub_key : Bytes) (l : IndexLfsr) (p : Peer net)
    (ips : AllowedIps net ℕ) (allowed : List AllowedIp)
    (next_eq : next d.next_index ≡ some (l, p.index)) (is_new : get d.peers pub_key ≡ none)
    (ips_eq : AllowedIps.insert_all net ℕ d.peers_by_ip allowed (length d.made) ≡ some ips) where
  abbrev after : Device net
  after = with_peer net d pub_key l p.index p ips

  -- The register gave the index, and moved on.
  index_eq : p.index ≡ index_of d.next_index.mask d.next_index.lfsr
  index_eq = (next_lem d.next_index l p.index next_eq).2

  moved : l ≡ record (d.next_index) { lfsr = shifted d.next_index.lfsr }
  moved = (next_lem d.next_index l p.index next_eq).1

  -- An index in use is another one.
  index_new : (i h : ℕ) → get d.peers_by_idx i ≡ some h → (p.index == i) ≡ false
  index_new i h found =
      let (u, at, given) = w.given i h found in
      let mask = d.next_index.mask in
      let now = d.next_index.lfsr in
      let regs = w.used.registers in
      differs i (λ e.
        All-In (λ v. now ≢ v) u seen w.used.apart.0 at
          (index_of_inj mask now u w.used.mask_small regs.0 (All-In IsRegister u seen regs.1 at)
            (sym index_eq ∙ e ∙ given)))
    where
      differs : (i : ℕ) → p.index ≢ i → (p.index == i) ≡ false
      differs i ne = ground arith

  still-IsKnown : (h : ℕ) → IsKnown net d h → IsKnown net after h
  still-IsKnown h (j, found) = (
    j,
    get-insert_ne d.peers pub_key j (length d.made) (ne_of_get d.peers pub_key j h is_new found)
        ∙ found,
  )

  new-IsKnown : IsKnown net after (length d.made)
  new-IsKnown = (pub_key, get-insert_self d.peers pub_key (length d.made))

  new_at : get_elem? after.made (length d.made) ≡ some p
  new_at = get_elem?-append_end d.made p

  after-of_key :
      (k : Bytes) (h : ℕ)
      → get after.peers k ≡ some h
      → (q : Peer net) × (get_elem? after.made h ≡ some q)
        × (get after.peers_by_idx q.index ≡ some h)
  after-of_key k h found = elim (get-insert_some d.peers pub_key k (length d.made) h found) [
    | inl (same, e) ↦ (
      p,
      ap (get_elem? after.made) e ∙ new_at,
      get-insert_self d.peers_by_idx p.index (length d.made) ∙ ap some (sym e),
    )
    | inr (ne, old) ↦
        let (q, at, idx) = w.of_key k h old in
        (
          q,
          get_elem?-append d.made (p ∷ []) h q at,
          get-insert_ne d.peers_by_idx p.index q.index (length d.made) (index_new q.index h idx)
              ∙ idx,
        )
  ]

  after-of_idx :
      (i h : ℕ)
      → get after.peers_by_idx i ≡ some h
      → (q : Peer net) × (get_elem? after.made h ≡ some q) × (q.index ≡ i) × IsKnown net after h
  after-of_idx i h found = elim (get-insert_some d.peers_by_idx p.index i (length d.made) h found) [
    | inl (same, e) ↦ (
      p,
      ap (get_elem? after.made) e ∙ new_at,
      same,
      subst (IsKnown net after) (sym e) new-IsKnown,
    )
    | inr (ne, old) ↦
        let (q, at, index, known) = w.of_idx i h old in
        (q, get_elem?-append d.made (p ∷ []) h q at, index, still-IsKnown h known)
  ]

  after-of_ip : All (λ e. IsKnown net after e.1) (net.iter ℕ ips)
  after-of_ip =
      All-insert_all net laws ℕ (IsKnown net after) d.peers_by_ip ips allowed (length d.made)
        (All-zip (net.iter ℕ d.peers_by_ip)
          (λ (e : IpNetwork × ℕ) known (u : Unit {0}). still-IsKnown e.1 known) w.of_ip
          (All-of (λ e. tt) _))
        new-IsKnown ips_eq

  -- A handle of the old tables is not the new one.
  old_handle : (k : Bytes) (h : ℕ) → get d.peers k ≡ some h → h ≢ length d.made
  old_handle k h found e =
      let (q, at, idx) = w.of_key k h found in absurd (omega (arith, get_elem?-lt d.made h q at, e))

  after-apart :
      (j k : Bytes) (h : ℕ) → get after.peers j ≡ some h → get after.peers k ≡ some h → j ≡ k
  after-apart j k h found found' =
      elim (get-insert_some d.peers pub_key j (length d.made) h found) [
        | inl (same, e) ↦ elim (get-insert_some d.peers pub_key k (length d.made) h found') [
          | inl (same', e') ↦ sym same ∙ same'
          | inr (ne', old') ↦ absurd (old_handle k h old' e)
        ]
        | inr (ne, old) ↦ elim (get-insert_some d.peers pub_key k (length d.made) h found') [
          | inl (same', e') ↦ absurd (old_handle j h old e')
          | inr (ne', old') ↦ w.apart j k h old old'
        ]
      ]

  after-given :
      (i h : ℕ)
      → get after.peers_by_idx i ≡ some h
      → (u : ℕ) × In u (d.next_index.lfsr ∷ seen) × (i ≡ index_of d.next_index.mask u)
  after-given i h found = elim (get-insert_some d.peers_by_idx p.index i (length d.made) h found) [
    | inl (same, e) ↦ (d.next_index.lfsr, inl refl, sym same ∙ index_eq)
    | inr (ne, old) ↦ let (u, at, given) = w.given i h old in (u, inr at, given)
  ]

  pub with_peer-IsConsistent :
      IsConsistent net (with_peer net d pub_key l p.index p ips) (d.next_index.lfsr ∷ seen)
  with_peer-IsConsistent = record {
    of_key = after-of_key;
    of_idx = after-of_idx;
    of_ip = after-of_ip;
    apart = after-apart;
    used =
        subst (λ x. Used x (d.next_index.lfsr ∷ seen)) (sym moved)
          (Used-next d.next_index seen w.used (next_lem d.next_index l p.index next_eq).0);
    given = λ i h found.
        let (u, at, given) = after-given i h found in
        (u, at, given ∙ ap (λ x. index_of x u) (ap (λ (x : IndexLfsr). x.mask) (sym moved)));
  }
