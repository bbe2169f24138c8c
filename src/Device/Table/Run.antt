-- ===== src/Device/Table/Run.antt =====
-- Whatever a device does with its peers, its tables stay consistent.
use mathlib.Core.Path.{subst}
use veil_vpn.Prelude.{
  ℕ, ◌≡◌, refl, sym, ap, ◌∙◌, ◌≢◌, inl, inr, Bool, true, false, Option, none, some, List, [], ◌∷◌,
  arith, ◌==◌, get_elem?, set, All, Bool-cases, get_elem?-lt, get_elem?-set_self, get_elem?-set_ne,
}
use veil_vpn.Prelude.Bytes.{Bytes}
use veil_vpn.Prelude.Maps.{get, nat_key, bytes_key, ==_sound}
use veil_vpn.Noise.Crypto.{Crypto}
use veil_vpn.Noise.Packet.{IpAddr}
use veil_vpn.Device.AllowedIps
use veil_vpn.Device.AllowedIps.{NetworkTable, NetworkTableLaws}
use veil_vpn.Device.IndexLfsr.{default}
use veil_vpn.Device.IndexLfsr.Distinct.{Used, default-Used}
use veil_vpn.Device.Peer.{Peer}
use veil_vpn.Noise.RateLimiter.{RateLimiter}
use veil_vpn.Payment.Wallet.{PaymentWallet}
use veil_vpn.Payment.Settlement.{SettlementClient}
use veil_vpn.Device.State.{Device}
use veil_vpn.Device.Table.{
  Settings, purge, remove_found, remove_peer, update_found, clear_peers, update_peer, find_by_ip,
}
use veil_vpn.Device.Table.Consistent.{IsKnown, IsConsistent, purged-IsConsistent, purged-gone}
use veil_vpn.Device.Table.Adding.{add_peer-Added}
use veil_vpn.Device.Table.Fresh.{with_peer-IsConsistent}

-- Work on a peer that keeps its index, as all that is done with packets, timers and payments does.
unfoldable pub put_peer : {net : NetworkTable} → Device net → ℕ → Peer net → Device net
put_peer d handle p = record d { made = set d.made handle p }

pub data Step (c : Crypto) (net : NetworkTable) (d d' : Device net) : Type 0 where
  updates :
      (pub_key : Bytes) (to_remove : Bool) (s : Settings)
      → update_peer c net d pub_key to_remove s ≡ some d'
      → Step c net d d'
  clears : clear_peers net d ≡ d' → Step c net d d'
  works :
      (handle : ℕ) (p p' : Peer net)
      → get_elem? d.made handle ≡ some p
      → p'.index ≡ p.index
      → put_peer d handle p' ≡ d'
      → Step c net d d'
  configures :
      (key_pair : Option (Bytes × Bytes)) (listen_port : ℕ) (fwmark : Option ℕ)
      (rate_limiter : Option RateLimiter) (payment_wallet : Option PaymentWallet)
      (settlement_client : Option SettlementClient)
      → (record d {
        key_pair = key_pair;
        listen_port = listen_port;
        fwmark = fwmark;
        rate_limiter = rate_limiter;
        payment_wallet = payment_wallet;
        settlement_client = settlement_client;
      })
        ≡ d'
      → Step c net d d'

pub data Reaches (c : Crypto) (net : NetworkTable) (d : Device net) : Device net → Type 0 where
  here : Reaches c net d d
  next : {m u : Device net} → Reaches c net d m → Step c net m u → Reaches c net d u

-- A device without peers, whose register was made from random words.
pub record IsNew (net : NetworkTable) (d : Device net) (words rest : List ℕ) : Type 0 where
  pub no_peers : d.peers ≡ []
  pub no_idx : d.peers_by_idx ≡ []
  pub no_ips : net.iter ℕ d.peers_by_ip ≡ []
  pub seeded : default words ≡ some (d.next_index, rest)

module _ (c : Crypto) (net : NetworkTable) (laws : NetworkTableLaws net) where
  empty-IsConsistent :
      (d : Device net) (seen : List ℕ)
      → d.peers ≡ []
      → d.peers_by_idx ≡ []
      → net.iter ℕ d.peers_by_ip ≡ []
      → Used d.next_index seen
      → IsConsistent net d seen
  unfolding get
  empty-IsConsistent d seen none_by_key none_by_idx none_by_ip used = record {
    of_key = λ k h found. cc (ap (λ m. get m k) none_by_key, found);
    of_idx = λ i h found. cc (ap (λ m. get m i) none_by_idx, found);
    of_ip = subst (All (λ e. IsKnown net d e.1)) (sym none_by_ip) tt;
    apart = λ j k h found found'. cc (ap (λ m. get m k) none_by_key, found');
    used = used;
    given = λ i h found. cc (ap (λ m. get m i) none_by_idx, found);
  }

  -- Removing a peer never panics.
  removed :
      (d : Device net) (seen : List ℕ) (pub_key : Bytes) (found : Option ℕ)
      → IsConsistent net d seen
      → get d.peers pub_key ≡ found
      → (d' : Device net) × (remove_peer net d pub_key ≡ some d')
        × IsConsistent net d' seen
        × ((handle : ℕ)
            → found ≡ some handle
            → ((j : Bytes) → get d'.peers j ≢ some handle)
              × ((i : ℕ) → get d'.peers_by_idx i ≢ some handle)
              × ((addr : IpAddr) → find_by_ip net d' addr ≢ some handle))
  unfolding remove_peer remove_found
  removed d seen pub_key none w e = (d, ap (remove_found net d pub_key) e, w, λ handle h. cc h)
  removed d seen pub_key (some handle) w e =
      let (p, at, idx) = w.of_key pub_key handle e in
      (
        purge net d pub_key handle p,
        ap (remove_found net d pub_key) e ∙ rw at refl,
        purged-IsConsistent net laws d seen w pub_key handle p e at,
        λ h same.
            subst
              (λ x.
                ((j : Bytes) → get (purge net d pub_key handle p).peers j ≢ some x)
                × ((i : ℕ) → get (purge net d pub_key handle p).peers_by_idx i ≢ some x)
                × ((addr : IpAddr) → find_by_ip net (purge net d pub_key handle p) addr ≢ some x))
              (some_inj same) (purged-gone net laws d seen w pub_key handle p e at),
      )
    where
      some_inj : {x y : ℕ} → (some x) ≡ (some y) → x ≡ y
      some_inj e = cc e

  -- Removing a peer of consistent tables succeeds and keeps them consistent, and no key, no index
  -- and no address leads to the peer from then on.
  pub remove_peer-gone :
      (d : Device net) (seen : List ℕ) (pub_key : Bytes) (handle : ℕ)
      → IsConsistent net d seen
      → get d.peers pub_key ≡ some handle
      → (d' : Device net) × (remove_peer net d pub_key ≡ some d')
        × IsConsistent net d' seen
        × ((j : Bytes) → get d'.peers j ≢ some handle)
        × ((i : ℕ) → get d'.peers_by_idx i ≢ some handle)
        × ((addr : IpAddr) → find_by_ip net d' addr ≢ some handle)
  remove_peer-gone d seen pub_key handle w found =
      let (d', e, w', gone) = removed d seen pub_key (some handle) w found in
      let (by_key, by_idx, by_ip) = gone handle refl in (d', e, w', by_key, by_idx, by_ip)

  update-IsConsistent :
      (d d' : Device net) (seen : List ℕ) (pub_key : Bytes) (s : Settings) (found : Option ℕ)
      → IsConsistent net d seen
      → get d.peers pub_key ≡ found
      → update_found c net d pub_key s found ≡ some d'
      → (seen' : List ℕ) × IsConsistent net d' seen'
  unfolding update_found
  update-IsConsistent d d' seen pub_key s (some handle) w e h = cc h
  update-IsConsistent d d' seen pub_key s none w e h =
      let a = add_peer-Added net c d d' pub_key s h in
      (
        d.next_index.lfsr ∷ seen,
        subst (λ x. IsConsistent net x (d.next_index.lfsr ∷ seen)) a.device_eq
            (with_peer-IsConsistent net laws d seen w pub_key a.l a.p a.ips s.allowed_ips a.next_eq
              e a.ips_eq),
      )

  -- A peer that was at a handle is there after the work, with its index.
  at_set :
      (made : List (Peer net)) (handle h : ℕ) (p p' q : Peer net)
      → get_elem? made handle ≡ some p
      → p'.index ≡ p.index
      → get_elem? made h ≡ some q
      → (r : Peer net) × (get_elem? (set made handle p') h ≡ some r) × (r.index ≡ q.index)
  at_set made handle h p p' q at same at' = elim (Bool-cases (handle == h)) [
    | inl e ↦
        let here : handle ≡ h = ==_sound handle h e in
        let q_is : p ≡ q = cc (at, at', ap (get_elem? made) here) in
        (
          p',
          ap (get_elem? (set made handle p')) (sym here)
              ∙ get_elem?-set_self made handle p' (get_elem?-lt made handle p at),
          same ∙ ap (λ (x : Peer net). x.index) q_is,
        )
    | inr e ↦ (q, get_elem?-set_ne made p' (differs e) ∙ at', refl)
  ]
    where
      differs : (handle == h) ≡ false → handle ≢ h
      differs e eq = ground arith

  -- Work on a peer moves nothing in the tables.
  put_peer-IsConsistent :
      (d : Device net) (seen : List ℕ) (handle : ℕ) (p p' : Peer net)
      → IsConsistent net d seen
      → get_elem? d.made handle ≡ some p
      → p'.index ≡ p.index
      → IsConsistent net (put_peer d handle p') seen
  unfolding put_peer
  put_peer-IsConsistent d seen handle p p' w at same = record {
    of_key = λ k h found.
        let (q, at', idx) = w.of_key k h found in
        let (r, at'', index) = at_set d.made handle h p p' q at same at' in
        (r, at'', ap (get d.peers_by_idx) index ∙ idx);
    of_idx = λ i h found.
        let (q, at', index, known) = w.of_idx i h found in
        let (r, at'', index') = at_set d.made handle h p p' q at same at' in
        (r, at'', index' ∙ index, known);
    of_ip = w.of_ip;
    apart = w.apart;
    used = w.used;
    given = w.given;
  }

  Step-IsConsistent :
      (d d' : Device net) (seen : List ℕ)
      → IsConsistent net d seen
      → Step c net d d'
      → (seen' : List ℕ) × IsConsistent net d' seen'
  Step-IsConsistent d d' seen w (updates pub_key true s h) =
      let (d1, e, w', gone) = removed d seen pub_key (get d.peers pub_key) w refl in
      let same : d1 ≡ d' = unfold update_peer in cc (e, h) in
      (seen, subst (λ x. IsConsistent net x seen) same w')
  Step-IsConsistent d d' seen w (updates pub_key false s h) =
      update-IsConsistent d d' seen pub_key s (get d.peers pub_key) w refl (unfold update_peer in h)
  Step-IsConsistent d d' seen w (clears e) =
      let cleared =
        empty-IsConsistent (clear_peers net d) seen (unfold clear_peers in refl)
          (unfold clear_peers in refl)
          (unfold clear_peers in unfold AllowedIps.clear in laws.iter-empty ℕ)
          (unfold clear_peers in w.used) in
      (seen, subst (λ x. IsConsistent net x seen) e cleared)
  Step-IsConsistent d d' seen w (works handle p p' at same e) = (
    seen,
    subst (λ x. IsConsistent net x seen) e (put_peer-IsConsistent d seen handle p p' w at same),
  )
  Step-IsConsistent d d' seen w (configures key_pair port mark limiter wallet client e) = (
    seen,
    subst (λ x. IsConsistent net x seen) e
        (record {
          of_key = w.of_key;
          of_idx = w.of_idx;
          of_ip = w.of_ip;
          apart = w.apart;
          used = w.used;
          given = w.given;
        }),
  )

  -- After any sequence of peers added and removed, of all peers cleared, of work on peers and of
  -- other settings, the tables of a device that started without peers are consistent.
  pub Reaches-IsConsistent :
      (d d' : Device net) (words rest : List ℕ)
      → IsNew net d words rest
      → Reaches c net d d'
      → (seen : List ℕ) × IsConsistent net d' seen
  Reaches-IsConsistent d d' words rest w here = (
    [],
    empty-IsConsistent d [] w.no_peers w.no_idx w.no_ips
        (default-Used words rest d.next_index w.seeded),
  )
  Reaches-IsConsistent d d' words rest w (next {m} r st) =
      let (seen, k) = Reaches-IsConsistent d m words rest w r in Step-IsConsistent m d' seen k st
