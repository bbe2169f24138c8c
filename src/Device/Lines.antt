-- ===== src/Device/Lines.antt =====
-- device/api.rs and device/peer.rs: the texts of a configuration, and what a line in the section of a
-- peer asks for. The parsers of addresses in the standard library, and base64, are a parameter.
use veil_vpn.Prelude.{
  ℕ, ◌+◌, ◌*◌, ◌-◌, ◌^◌, ◌&&◌, Bool, true, false, Option, none, some, List, [], ◌∷◌, ◌++◌, ltb, leb,
  ◌==◌, if◌then◌else◌, ◌>>=◌,
}
use veil_vpn.Prelude.Bytes.{Bytes, bytes_eq}
use veil_vpn.Prelude.Text.{codes}
use veil_vpn.Noise.Packet.{IpAddr, v4, v6}
use veil_vpn.Device.AllowedIps.{AllowedIp}
use veil_vpn.Device.Peer.{SocketAddr}
use veil_vpn.Device.Keys.{ParsedKey, parsed, illegal_character, illegal_size, from_str}

pub record Parsers : Type 0 where
  pub base64_decode : Bytes → Option Bytes
  pub socket_addr : Bytes → Option SocketAddr
  pub ip_addr : Bytes → Option IpAddr

-- Before and behind the first such character.
unfoldable pub split_once : ℕ → Bytes → Option (Bytes × Bytes)
split_once c [] = none
split_once c (x ∷ xs) =
    let later : Option (Bytes × Bytes) = elim (split_once c xs) [
      | none ↦ none
      | some (key, val) ↦ some (x ∷ key, val)
    ] in
    if x == c then some ([], xs) else later

-- Exactly two parts.
unfoldable pub split_pair : ℕ → Bytes → Option (Bytes × Bytes)
unfolding split_once
split_pair c s = elim (split_once c s) [
  | none ↦ none
  | some (key, val) ↦ elim (split_once c val) [ none ↦ some (key, val) | some more ↦ none ]
]

unfoldable pub parse_bool : Bytes → Option Bool
parse_bool s =
    if bytes_eq s (codes "true")
    then some true
    else if bytes_eq s (codes "false")
    then some false
    else none

-- The decimal digits behind a number, below a bound; both grow to the end of the text.
unfoldable pub digits : ℕ → ℕ → Bytes → Option ℕ
digits bound acc [] = some acc
digits bound acc (c ∷ cs) =
    let later = digits bound (10 * acc + (c - 48)) cs in
    if leb 48 c && leb c 57 && ltb (10 * acc + (c - 48)) bound then later else none

-- `parse` of an unsigned number: a plus sign may stand before the digits.
unfoldable pub parse_uint : ℕ → Bytes → Option ℕ
unfolding digits
parse_uint bound [] = none
parse_uint bound (c ∷ []) = if c == 43 then none else digits bound 0 (c ∷ [])
parse_uint bound (c ∷ (x ∷ cs)) =
    if c == 43 then digits bound 0 (x ∷ cs) else digits bound 0 (c ∷ (x ∷ cs))

-- A prefix that is longer than the address is refused.
unfoldable pub in_family : IpAddr → ℕ → Option AllowedIp
in_family (v4 a) cidr = if leb cidr 32 then some (record { addr = v4 a; cidr = cidr }) else none
in_family (v6 a) cidr = if leb cidr 128 then some (record { addr = v6 a; cidr = cidr }) else none

unfoldable pub allowed_ip_from_str : Parsers → Bytes → Option AllowedIp
unfolding in_family split_pair parse_uint
allowed_ip_from_str ps s = do
  (ip, prefix) ← split_pair 47 s
  addr ← ps.ip_addr ip
  cidr ← parse_uint (2 ^ 8) prefix
  in_family addr cidr

-- The peer whose section is read.
pub record PeerSection : Type 0 where
  pub public_key : Bytes
  pub remove : Bool
  pub replace_ips : Bool
  pub endpoint : Option SocketAddr
  pub keepalive : Option ℕ
  pub preshared_key : Option Bytes
  pub allowed_ips : List AllowedIp

abbrev pub section : Bytes → PeerSection
section pub_key = record {
  public_key = pub_key;
  remove = false;
  replace_ips = false;
  endpoint = none;
  keepalive = none;
  preshared_key = none;
  allowed_ips = [];
}

-- What a line of a section asks for: a change of the section, the section of another peer, whose key
-- is parsed after the update, or an error. `none` is a panic.
pub data PeerLine : Type 0 where
  changed : PeerSection → PeerLine
  next_peer : Option ParsedKey → PeerLine
  refused : PeerLine

unfoldable pub with_value : {A : Type 0} → Option A → (A → PeerSection) → PeerLine
with_value none f = refused
with_value (some a) f = changed (f a)

unfoldable pub with_psk : PeerSection → Option ParsedKey → Option PeerLine
with_psk s none = none
with_psk s (some (parsed key)) = some (changed (record s { preshared_key = some key }))
with_psk s (some illegal_character) = some refused
with_psk s (some illegal_size) = some refused

-- Only version 1 is legal.
unfoldable pub with_version : PeerSection → Option ℕ → PeerLine
with_version s none = refused
with_version s (some n) = if n == 1 then changed s else refused

module _ (ps : Parsers) where
  unfoldable pub peer_line : PeerSection → Bytes → Bytes → Option PeerLine
  unfolding with_value with_psk with_version
  peer_line s key val =
      if bytes_eq key (codes "remove")
      then some (with_value (parse_bool val) (λ b. record s { remove = b }))
      else if bytes_eq key (codes "preshared_key")
      then with_psk s (from_str ps.base64_decode val)
      else if bytes_eq key (codes "endpoint")
      then some (with_value (ps.socket_addr val) (λ addr. record s { endpoint = some addr }))
      else if bytes_eq key (codes "persistent_keepalive_interval")
      then some (with_value (parse_uint (2 ^ 16) val) (λ n. record s { keepalive = some n }))
      else if bytes_eq key (codes "replace_allowed_ips")
      then some (with_value (parse_bool val) (λ b. record s { replace_ips = b }))
      else if bytes_eq key (codes "allowed_ip")
      then some (
          with_value (allowed_ip_from_str ps val)
            (λ ip. record s { allowed_ips = s.allowed_ips ++ (ip ∷ []) }))
      else if bytes_eq key (codes "public_key")
      then some (next_peer (from_str ps.base64_decode val))
      else if bytes_eq key (codes "protocol_version")
      then some (with_version s (parse_uint (2 ^ 32) val))
      else some refused
