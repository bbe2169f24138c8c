-- ===== src/Device/Api/Sections.antt =====
-- The lines of the sections of peers do nothing but what a device does with its peers.
use veil_vpn.Prelude.{
  ℕ, suc, ◌≡◌, refl, inl, inr, Option, none, some, List, [], ◌∷◌, ◌==◌, length, get_elem?, set,
  Bool-cases, some-of_bind,
}
use mathlib.Core.Path.{subst}
use veil_vpn.Prelude.Bytes.{Bytes}
use veil_vpn.Noise.Crypto.{Crypto}
use veil_vpn.Device.AllowedIps.{NetworkTable}
use veil_vpn.Device.Peer.{Peer}
use veil_vpn.Device.State.{Device}
use veil_vpn.Device.Table.Run.{updates, works, Reaches, here, next, put_peer}
use veil_vpn.Device.Keys.{ParsedKey, parsed, illegal_character, illegal_size}
use veil_vpn.Device.Setup.{Fresh, each_peer}
use veil_vpn.Device.Lines.{
  Parsers, PeerSection, PeerLine, changed, next_peer, refused, peer_line, split_once,
}
use veil_vpn.Device.Api.{
  Status, System, commit, finish, next_section, follow, peer_pair, api_set_peer, einval, eproto,
}

module _ (c : Crypto) (net : NetworkTable) where
  pub Reaches-trans :
      {d m u : Device net} → Reaches c net d m → Reaches c net m u → Reaches c net d u
  Reaches-trans r here = r
  Reaches-trans r (next q st) = next (Reaches-trans r q) st

  -- A change of each peer that keeps its index is work on peers.
  pub each_peer-Reaches :
      (change : Peer net → Option (Peer net))
      → ((p p' : Peer net) → change p ≡ some p' → p'.index ≡ p.index)
      → (d d' : Device net) (peers : List (Bytes × ℕ)) → each_peer net change d peers ≡ some d'
      → Reaches c net d d'
  unfolding each_peer
  each_peer-Reaches change keeps d d' [] h =
      let same : d ≡ d' = cc h in subst (Reaches c net d) same here
  each_peer-Reaches change keeps d d' ((k, handle) ∷ rest) h =
      let (p, at, h1) = some-of_bind (get_elem? d.made handle) _ h in
      let (p', changes, h2) = some-of_bind (change p) _ h1 in
      let same : put_peer d handle p' ≡ record d { made = set d.made handle p' } =
        unfold put_peer in refl in
      Reaches-trans (next here (works handle p p' at (keeps p p' changes) same))
        (each_peer-Reaches change keeps (record d { made = set d.made handle p' }) d' rest h2)

  -- Where every end of the lines behind leads, the lines lead.
  unfoldable pub Leads : Device net → Option (Device net × Status) → Type 0
  Leads d out = (d' : Device net) (status : Status) → out ≡ some (d', status) → Reaches c net d d'

  pub stays : (d : Device net) (status : Status) → Leads d (some (d, status))
  unfolding Leads
  stays d status d' status' h = let same : d ≡ d' = cc h in subst (Reaches c net d) same here

  commit-Reaches :
      (d d' : Device net) (s : PeerSection) (f : Fresh)
      → commit c net d s f ≡ some d'
      → Reaches c net d d'
  unfolding commit
  commit-Reaches d d' s f h = next here (updates s.public_key s.remove _ h)

  finish-Leads : (d : Device net) (s : PeerSection) (f : Fresh) → Leads d (finish c net d s f)
  unfolding finish Leads
  finish-Leads d s f d' status h =
      let (u, commits, h1) = some-of_bind (commit c net d s f) _ h in
      let same : u ≡ d' = cc h1 in subst (Reaches c net d) same (commit-Reaches d u s f commits)

  next_section-Leads :
      (rest : Device net → PeerSection → Option (Device net × Status))
      → ((u : Device net) (s : PeerSection) → Leads u (rest u s))
      → (d : Device net) (s : PeerSection) (key : Option ParsedKey)
      → Leads d (next_section net rest d s key)
  unfolding next_section
  next_section-Leads rest lead d s none = unfold Leads in λ d' status h. cc h
  next_section-Leads rest lead d s (some (parsed key)) = lead d _
  next_section-Leads rest lead d s (some illegal_character) = stays d einval
  next_section-Leads rest lead d s (some illegal_size) = stays d einval

  follow-Leads :
      (rest : Device net → PeerSection → Option (Device net × Status))
      → ((u : Device net) (s : PeerSection) → Leads u (rest u s))
      → (d : Device net) (s : PeerSection) (f : Fresh) (line : Option PeerLine)
      → Leads d (follow c net rest d s f line)
  unfolding follow Leads
  follow-Leads rest lead d s f none d' status h = cc h
  follow-Leads rest lead d s f (some (changed s')) d' status h = lead d s' d' status h
  follow-Leads rest lead d s f (some refused) d' status h = stays d einval d' status h
  follow-Leads rest lead d s f (some (next_peer key)) d' status h =
      let (u, commits, h1) = some-of_bind (commit c net d s f) _ h in
      Reaches-trans (commit-Reaches d u s f commits)
        (next_section-Leads rest lead u s key d' status h1)

  module _ (ps : Parsers) where
    peer_pair-Leads :
        (rest : Device net → PeerSection → Option (Device net × Status))
        → ((u : Device net) (s : PeerSection) → Leads u (rest u s))
        → (d : Device net) (s : PeerSection) (f : Fresh) (pair : Option (Bytes × Bytes))
        → Leads d (peer_pair c net ps rest d s f pair)
    unfolding peer_pair
    peer_pair-Leads rest lead d s f none = stays d eproto
    peer_pair-Leads rest lead d s f (some (key, val)) =
        follow-Leads rest lead d s f (peer_line ps s key val)

    pub api_set_peer-Leads :
        (sys : System) (d : Device net) (s : PeerSection) (lines : List Bytes)
        → Leads d (api_set_peer c net ps sys d s lines)
    unfolding api_set_peer
    api_set_peer-Leads sys d s [] = finish-Leads d s (sys.fresh 0)
    api_set_peer-Leads sys d s (line ∷ lines) = elim (Bool-cases (length line == 0)) [
      | inl e ↦ rw e (finish-Leads d s (sys.fresh (suc (length lines))))
      | inr e ↦ rw e (
          peer_pair-Leads (λ d' s'. api_set_peer c net ps sys d' s' lines)
            (λ u s'. api_set_peer-Leads sys u s' lines) d s (sys.fresh (suc (length lines)))
            (split_once 61 line))
    ]
