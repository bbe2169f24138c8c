-- ===== src/Device/AllowedIps.antt =====
-- device/allowed_ips.rs: a table of networks. The crates ip_network and ip_network_table are a
-- parameter.
pub mod Found
use veil_vpn.Prelude.{ℕ, Bool, true, ◌≡◌, Option, none, some, List, [], ◌∷◌, All, map, not, ◌>>=◌}
use veil_vpn.Noise.Packet.{IpAddr}

pub record IpNetwork : Type 0 where
  pub network_address : IpAddr
  pub netmask : ℕ

-- `new_truncate` clears the host bits, and refuses a prefix that is longer than the address.
pub record NetworkTable : Type 1 where
  pub Table : Type 0 → Type 0
  pub new_truncate : IpAddr → ℕ → Option IpNetwork
  pub empty : (D : Type 0) → Table D
  pub insert : (D : Type 0) → Table D → IpNetwork → D → Table D × Option D
  pub longest_match : (D : Type 0) → Table D → IpAddr → Option (IpNetwork × D)
  pub retain : (D : Type 0) → Table D → (IpNetwork → D → Bool) → Table D
  pub iter : (D : Type 0) → Table D → List (IpNetwork × D)

-- What the crate documents: the entries are those inserted and retained, and a match is one of
-- them. `All` of the entries is how a fact on them is stated.
pub record NetworkTableLaws (net : NetworkTable) : Type 1 where
  pub iter-empty : (D : Type 0) → net.iter D (net.empty D) ≡ []
  pub All-insert :
      (D : Type 0) (P : IpNetwork × D → Type 0) (t : net.Table D) (n : IpNetwork) (d : D)
      → All P (net.iter D t)
      → P (n, d)
      → All P (net.iter D (net.insert D t n d).0)
  pub All-retain :
      (D : Type 0) (P : IpNetwork × D → Type 0) (t : net.Table D) (keep : IpNetwork → D → Bool)
      → All P (net.iter D t)
      → All (λ e. P e × (keep e.0 e.1 ≡ true)) (net.iter D (net.retain D t keep))
  pub All-longest_match :
      (D : Type 0) (P : IpNetwork × D → Type 0) (t : net.Table D) (a : IpAddr) (e : IpNetwork × D)
      → All P (net.iter D t)
      → net.longest_match D t a ≡ some e
      → P e

-- An address and the length of its prefix, as a peer is configured with.
pub record AllowedIp : Type 0 where
  pub addr : IpAddr
  pub cidr : ℕ

module _ (net : NetworkTable) (D : Type 0) where
  abbrev pub AllowedIps : Type 0
  AllowedIps = net.Table D

  unfoldable pub new : AllowedIps
  new = net.empty D

  unfoldable pub clear : AllowedIps → AllowedIps
  clear t = net.empty D

  -- `none` is the panic on a prefix that is too long.
  unfoldable pub insert : AllowedIps → IpAddr → ℕ → D → Option (AllowedIps × Option D)
  insert t key cidr value = do n ← net.new_truncate key cidr; some (net.insert D t n value)

  unfoldable pub find : AllowedIps → IpAddr → Option D
  find t key = elim (net.longest_match D t key) [ none ↦ none | some (n, d) ↦ some d ]

  unfoldable pub remove : AllowedIps → (D → Bool) → AllowedIps
  remove t predicate = net.retain D t (λ n v. not (predicate v))

  unfoldable pub iter : AllowedIps → List (D × IpAddr × ℕ)
  iter t = map (λ (n, d). (d, n.network_address, n.netmask)) (net.iter D t)

  -- One entry for each address, all with the same value, on top of a table.
  unfoldable pub insert_all : AllowedIps → List AllowedIp → D → Option AllowedIps
  unfolding insert
  insert_all t [] value = some t
  insert_all t (ip ∷ ips) value = do
    (t', old) ← insert t ip.addr ip.cidr value
    insert_all t' ips value
