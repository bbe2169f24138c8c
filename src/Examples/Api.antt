-- ===== src/Examples/Api.antt =====
-- device/api.rs and serialization.rs on concrete lines.
use veil_vpn.Prelude.{
  ℕ, ◌≡◌, ◌++◌, refl, true, Option, none, some, List, [], ◌∷◌, replicate, length, map,
}
use veil_vpn.Prelude.Bytes.{Bytes, bytes_eq}
use veil_vpn.Prelude.Text.{codes}
use veil_vpn.Prelude.Maps.{get, insert}
use veil_vpn.Noise.Packet.{v4}
use veil_vpn.Device.IndexLfsr.{next}
use veil_vpn.Device.Peer.{SocketAddr}
use veil_vpn.Device.State.{Device}
use veil_vpn.Device.Keys.{parsed, from_str}
use veil_vpn.Payment.Wallet.{from_wireguard_key}
use veil_vpn.Device.Lines.{Parsers, allowed_ip_from_str}
use veil_vpn.Device.Api.{Status, System, done, einval, api_set}
use veil_vpn.Device.Api.Runs.{api_set-IsConsistent}
use veil_vpn.Device.Table.Consistent.{IsConsistent}
use veil_vpn.Device.Table.Run.{here}
use veil_vpn.Examples.Crypto.{toy}
use veil_vpn.Examples.Tunn.{keys}
use veil_vpn.Examples.Crates.{toy_ethereum, toy_net, toy-NetworkTableLaws}
use veil_vpn.Examples.Device.{device, device-IsNew, or_else}

-- A text that is not base64, and an address that is always the same.
abbrev parsers : Parsers
parsers = record {
  base64_decode = λ s. none;
  socket_addr = λ s. some (record { ip = v4 (10 ∷ 0 ∷ 0 ∷ 2 ∷ []); port = 51820 });
  ip_addr = λ s. some (v4 (10 ∷ 0 ∷ 0 ∷ 2 ∷ []));
}

abbrev system : System
system = record { bind = some; marks = λ n. true; fresh = λ n. record { keys = keys; now = n } }

-- A text of 43 characters that is no base64 gives the key of zeros.
no_base64 : from_str parsers.base64_decode (replicate 43 33) ≡ some (parsed (replicate 32 0))
unfolding from_str
no_base64 = refl

hex_key : from_str parsers.base64_decode (replicate 64 b'7') ≡ some (parsed (replicate 32 0x77))
unfolding from_str
hex_key = refl

abbrev lines : List Bytes
lines =
    (codes "private_key=" ++ replicate 64 b'7')
    ∷ codes "listen_port=51820"
    ∷ codes "replace_peers=true"
    ∷ (codes "public_key=" ++ replicate 64 b'8')
    ∷ codes "allowed_ip=10.0.0.2/32"
    ∷ codes "endpoint=10.0.0.2:51820"
    ∷ (codes "public_key=" ++ replicate 64 b'9')
    ∷ codes "persistent_keepalive_interval=25"
    ∷ codes "no_such_key=1"
    ∷ []

abbrev Configured : Type 0
Configured = Device toy_net × Status

configured : Configured
configured = or_else (api_set toy toy_ethereum toy_net parsers system device lines) (device, done)

is_configured : api_set toy toy_ethereum toy_net parsers system device lines ≡ some configured
unfolding configured api_set bytes_eq from_wireguard_key allowed_ip_from_str get next
is_configured = refl

api_set-IsConsistent_example : (seen : List ℕ) × IsConsistent toy_net configured.0 seen
api_set-IsConsistent_example =
    api_set-IsConsistent toy toy_ethereum toy_net parsers toy-NetworkTableLaws device device
      configured.0 (0x1000000 ∷ 5 ∷ 9 ∷ []) [] system lines configured.1 device-IsNew here
      is_configured

-- The first peer is added, the second is not, and the unknown key is an error.
one_peer : (length configured.0.peers ≡ 1) × (configured.1 ≡ einval)
unfolding configured api_set bytes_eq from_wireguard_key allowed_ip_from_str get next insert
one_peer = (refl, refl)

-- A second peer that gives no endpoint gets the first one's.
abbrev two_peers : List Bytes
two_peers =
    (codes "private_key=" ++ replicate 64 b'7')
    ∷ (codes "public_key=" ++ replicate 64 b'8')
    ∷ codes "endpoint=10.0.0.2:51820"
    ∷ (codes "public_key=" ++ replicate 64 b'9')
    ∷ []

endpoint_of : Device toy_net × Status → List (Option SocketAddr)
endpoint_of (d, status) = map (λ p. p.endpoint.addr) d.made

endpoint_kept :
    endpoint_of
      (or_else (api_set toy toy_ethereum toy_net parsers system device two_peers) (device, done))
    ≡ some (record { ip = v4 (10 ∷ 0 ∷ 0 ∷ 2 ∷ []); port = 51820 })
      ∷ some (record { ip = v4 (10 ∷ 0 ∷ 0 ∷ 2 ∷ []); port = 51820 })
      ∷ []
unfolding endpoint_of api_set bytes_eq from_wireguard_key allowed_ip_from_str get next insert
endpoint_kept = refl
