-- ===== src/Examples/Crates.antt =====
-- Concrete instances of the other crates that meet their laws: a signature is the key, a hash is the
-- first 32 bytes, a table of networks is the list of its entries, and the gateway settles everything.
use mathlib.Core.Path.{subst}
use veil_vpn.Prelude.{
  ℕ, ◌≡◌, refl, inl, inr, Bool, true, Option, none, some, List, [], ◌∷◌, ◌++◌, arith, length, take,
  replicate, length-append, length-take, length-replicate, leb, if◌then◌else◌, All, Bool-cases,
}
use veil_vpn.Prelude.Bytes.{Bytes}
use veil_vpn.Noise.Packet.{IpAddr}
use veil_vpn.Payment.Wallet.{Ethereum, EthereumLaws}
use veil_vpn.Payment.Settlement.{Http, answer}
use veil_vpn.Device.AllowedIps.{IpNetwork, NetworkTable, NetworkTableLaws}
use veil_vpn.Device.Peer.{ip_eq}

-- Cut or filled with zeros to a length.
unfoldable pub padded : ℕ → Bytes → Bytes
padded n m = take n (m ++ replicate n 0)

length-padded : (n : ℕ) (m : Bytes) → length (padded n m) ≡ n
unfolding padded
length-padded n m = omega (
  arith,
  length-take n (m ++ replicate n 0),
  length-append m (replicate n 0),
  length-replicate {A = ℕ} n 0,
)

abbrev pub toy_ethereum : Ethereum
toy_ethereum = record {
  hkdf = λ salt key info. key;
  keccak256 = padded 32;
  from_bytes = some;
  encoded_point = padded 64;
  sign = λ key digest. some (padded 64 key, 0);
  recovery_id = some;
  recover = λ digest signature id. some signature;
}

pub toy-EthereumLaws : EthereumLaws toy_ethereum
toy-EthereumLaws = record {
  length-keccak256 = length-padded 32;
  signs = λ key digest h. (
    padded 64 key,
    0,
    record {
      signed = refl;
      length-signature = length-padded 64 key;
      id_small = omega arith;
      id_known = refl;
      recovered = refl;
    },
  );
}

abbrev pub toy_http : Http
toy_http = record {
  post = λ url request. answer [];
  text = answer;
  from_str = λ body. answer (record {
    success = true;
    payer = none;
    transaction = none;
    network = none;
    error_reason = none;
    error_message = none;
    message = none;
    error = none;
  });
}

module _ (D : Type 0) where
  abbrev Entries : Type 0
  Entries = List (IpNetwork × D)

  unfoldable pub matched : Entries → IpAddr → Option (IpNetwork × D)
  unfolding ip_eq
  matched [] a = none
  matched ((n, d) ∷ rest) a =
      let later = matched rest a in if ip_eq n.network_address a then some (n, d) else later

  unfoldable pub kept : Entries → (IpNetwork → D → Bool) → Entries
  kept [] keep = []
  kept ((n, d) ∷ rest) keep = if keep n d then (n, d) ∷ kept rest keep else kept rest keep

  All-matched :
      (P : IpNetwork × D → Type 0) (t : Entries) (a : IpAddr) (x : IpNetwork × D)
      → All P t
      → matched t a ≡ some x
      → P x
  unfolding matched
  All-matched P [] a x h found = cc found
  All-matched P ((n, d) ∷ rest) a x (p, h) found = elim (Bool-cases (ip_eq n.network_address a)) [
    | inl e ↦ let same : (n, d) ≡ x = cc (found, e) in subst P same p
    | inr e ↦ All-matched P rest a x h (rw e at found)
  ]

  All-kept :
      (P : IpNetwork × D → Type 0) (t : Entries) (keep : IpNetwork → D → Bool)
      → All P t
      → All (λ e. P e × (keep e.0 e.1 ≡ true)) (kept t keep)
  unfolding kept
  All-kept P [] keep h = tt
  All-kept P ((n, d) ∷ rest) keep (p, h) = elim (Bool-cases (keep n d)) [
    | inl e ↦ rw e ((p, e), All-kept P rest keep h)
    | inr e ↦ rw e (All-kept P rest keep h)
  ]

abbrev pub toy_net : NetworkTable
toy_net = record {
  Table = λ D. List (IpNetwork × D);
  new_truncate =
      λ a n. if leb n 128 then some (record { network_address = a; netmask = n }) else none;
  empty = λ D. [];
  insert = λ D t n d. ((n, d) ∷ t, none);
  longest_match = matched;
  retain = kept;
  iter = λ D t. t;
}

pub toy-NetworkTableLaws : NetworkTableLaws toy_net
toy-NetworkTableLaws = record {
  iter-empty = λ D. refl;
  All-insert = λ D P t n d h p. (p, h);
  All-retain = All-kept;
  All-longest_match = All-matched;
}
