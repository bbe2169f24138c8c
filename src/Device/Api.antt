-- ===== src/Device/Api.antt =====
-- device/api.rs, `api_set` and `api_set_peer`: the lines of a configuration. A line is what
-- `read_line` gave without its last character, reading does not fail, and an empty line stands at the
-- end of the input.
pub mod Sections
pub mod OwnSettings
pub mod Runs
use veil_vpn.Prelude.{
  ℕ, zero, suc, ◌+◌, ◌*◌, ◌-◌, ◌^◌, ◌&&◌, Bool, true, false, Option, none, some, List, [], ◌∷◌,
  ◌++◌, ltb, leb, ◌==◌, not, if◌then◌else◌, length, get_or, ◌>>=◌,
}
use veil_vpn.Prelude.Bytes.{Bytes, bytes_eq}
use veil_vpn.Prelude.Text.{codes}
use veil_vpn.Noise.Crypto.{Crypto}
use veil_vpn.Noise.Packet.{IpAddr, v4, v6}
use veil_vpn.Payment.Wallet.{Ethereum}
use veil_vpn.Device.AllowedIps.{NetworkTable, AllowedIp}
use veil_vpn.Device.Peer.{SocketAddr}
use veil_vpn.Device.State.{Device}
use veil_vpn.Device.Table.{Settings, update_peer, clear_peers}
use veil_vpn.Device.Keys.{ParsedKey, parsed, illegal_character, illegal_size, from_str}
use veil_vpn.Device.Setup.{Fresh, set_key, open_listen_socket, set_fwmark}
use veil_vpn.Device.Lines.{
  Parsers, split_once, split_pair, parse_bool, parse_uint, PeerSection, section, PeerLine, changed,
  next_peer, refused, peer_line,
}

-- Zero, and the error codes.
pub data Status : Type 0 where
  done eproto einval eaddrinuse : Status

-- What the operating system answers, and the random keys and time of each line, by the number of
-- lines behind it.
pub record System : Type 0 where
  pub bind : ℕ → Option ℕ
  pub marks : ℕ → Bool
  pub fresh : ℕ → Fresh

module _ (c : Crypto) (net : NetworkTable) where
  -- The section is put into effect.
  unfoldable pub commit : Device net → PeerSection → Fresh → Option (Device net)
  unfolding update_peer
  commit d s f = update_peer c net d s.public_key s.remove (record {
    endpoint = s.endpoint;
    allowed_ips = s.allowed_ips;
    keepalive = s.keepalive;
    preshared_key = s.preshared_key;
    own_keys = f.keys;
    now = f.now;
  })

  -- The last section is put into effect, and all is done.
  unfoldable pub finish : Device net → PeerSection → Fresh → Option (Device net × Status)
  unfolding commit
  finish d s f = do d' ← commit d s f; some (d', done)

module _ (net : NetworkTable) where
  -- The next section starts with the settings of the one before, but for the addresses.
  unfoldable pub next_section :
      (Device net → PeerSection → Option (Device net × Status))
      → Device net
      → PeerSection
      → Option ParsedKey
      → Option (Device net × Status)
  next_section rest d s none = none
  next_section rest d s (some (parsed key)) =
      rest d (record s { public_key = key; allowed_ips = [] })
  next_section rest d s (some illegal_character) = some (d, einval)
  next_section rest d s (some illegal_size) = some (d, einval)

module _ (c : Crypto) (net : NetworkTable) where
  -- What follows from a line, before the lines behind it.
  unfoldable pub follow :
      (Device net → PeerSection → Option (Device net × Status))
      → Device net
      → PeerSection
      → Fresh
      → Option PeerLine
      → Option (Device net × Status)
  unfolding commit next_section
  follow rest d s f none = none
  follow rest d s f (some (changed s')) = rest d s'
  follow rest d s f (some refused) = some (d, einval)
  follow rest d s f (some (next_peer key)) = do
    d' ← commit c net d s f
    next_section net rest d' s key

module _ (c : Crypto) (net : NetworkTable) (ps : Parsers) where
  unfoldable pub peer_pair :
      (Device net → PeerSection → Option (Device net × Status))
      → Device net
      → PeerSection
      → Fresh
      → Option (Bytes × Bytes)
      → Option (Device net × Status)
  unfolding follow peer_line
  peer_pair rest d s f none = some (d, eproto)
  peer_pair rest d s f (some (key, val)) = follow c net rest d s f (peer_line ps s key val)

  unfoldable pub api_set_peer :
      System → Device net → PeerSection → List Bytes → Option (Device net × Status)
  unfolding finish peer_pair split_once
  api_set_peer sys d s [] = finish c net d s (sys.fresh 0)
  api_set_peer sys d s (line ∷ lines) =
      if length line == 0
      then finish c net d s (sys.fresh (suc (length lines)))
      else peer_pair (λ d' s'. api_set_peer sys d' s' lines) d s (sys.fresh (suc (length lines)))
          (split_once 61 line)

-- What a line of the device asks for: the device after it, an end with an error, or a peer's section.
pub data DeviceLine (net : NetworkTable) : Type 0 where
  goes_on : Device net → DeviceLine net
  stops : Device net → Status → DeviceLine net
  peer : Bytes → DeviceLine net

module _ (c : Crypto) (e : Ethereum) (net : NetworkTable) where
  unfoldable pub set_private_key : Device net → Fresh → Option ParsedKey → Option (DeviceLine net)
  unfolding set_key
  set_private_key d f none = none
  set_private_key d f (some (parsed key)) = do d' ← set_key c e net d key f; some (goes_on d')
  set_private_key d f (some illegal_character) = some (stops d einval)
  set_private_key d f (some illegal_size) = some (stops d einval)

module _ (net : NetworkTable) where
  -- A setting that the operating system refuses.
  abbrev pub checked : Device net × Bool → DeviceLine net
  checked (d, true) = goes_on d
  checked (d, false) = stops d eaddrinuse

  unfoldable pub set_listen_port : System → Device net → Option ℕ → Option (DeviceLine net)
  unfolding open_listen_socket
  set_listen_port sys d none = some (stops d einval)
  set_listen_port sys d (some port) = do
    bound ← open_listen_socket net d port sys.bind
    some (checked bound)

  unfoldable pub set_mark : System → Device net → Option ℕ → DeviceLine net
  unfolding set_fwmark
  set_mark sys d none = stops d einval
  set_mark sys d (some mark) = checked (set_fwmark net d mark sys.marks)

  unfoldable pub set_replace : Device net → Option Bool → DeviceLine net
  unfolding clear_peers
  set_replace d none = stops d einval
  set_replace d (some true) = goes_on (clear_peers net d)
  set_replace d (some false) = goes_on d

  unfoldable pub set_peer : Device net → Option ParsedKey → Option (DeviceLine net)
  set_peer d none = none
  set_peer d (some (parsed key)) = some (peer key)
  set_peer d (some illegal_character) = some (stops d einval)
  set_peer d (some illegal_size) = some (stops d einval)

module _ (c : Crypto) (e : Ethereum) (net : NetworkTable) (ps : Parsers) where
  unfoldable pub device_line : System → Device net → Fresh → Bytes → Bytes → Option (DeviceLine net)
  unfolding set_private_key set_listen_port set_mark set_replace set_peer from_str parse_uint
      parse_bool
  device_line sys d f key val =
      if bytes_eq key (codes "private_key")
      then set_private_key c e net d f (from_str ps.base64_decode val)
      else if bytes_eq key (codes "listen_port")
      then set_listen_port net sys d (parse_uint (2 ^ 16) val)
      else if bytes_eq key (codes "fwmark")
      then some (set_mark net sys d (parse_uint (2 ^ 32) val))
      else if bytes_eq key (codes "replace_peers")
      then some (set_replace net d (parse_bool val))
      else if bytes_eq key (codes "public_key")
      then set_peer net d (from_str ps.base64_decode val)
      else some (stops d einval)

  -- The lines behind are the rest of the device's, or sections of peers.
  unfoldable pub proceed :
      (Device net → Option (Device net × Status))
      → System
      → Device net
      → List Bytes
      → Option (DeviceLine net)
      → Option (Device net × Status)
  unfolding api_set_peer
  proceed rest sys d lines none = none
  proceed rest sys d lines (some (goes_on d')) = rest d'
  proceed rest sys d lines (some (stops d' status)) = some (d', status)
  proceed rest sys d lines (some (peer key)) = api_set_peer c net ps sys d (section key) lines

  unfoldable pub device_pair :
      (Device net → Option (Device net × Status))
      → System
      → Device net
      → List Bytes
      → Option (Bytes × Bytes)
      → Option (Device net × Status)
  unfolding proceed device_line
  device_pair rest sys d lines none = some (d, eproto)
  device_pair rest sys d lines (some (key, val)) =
      proceed rest sys d lines (device_line sys d (sys.fresh (suc (length lines))) key val)

  unfoldable pub api_set : System → Device net → List Bytes → Option (Device net × Status)
  unfolding device_pair split_pair
  api_set sys d [] = some (d, done)
  api_set sys d (line ∷ lines) =
      if length line == 0
      then some (d, done)
      else device_pair (λ d'. api_set sys d' lines) sys d lines (split_pair 61 line)
