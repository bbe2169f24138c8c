-- ===== src/Examples/Device.antt =====
-- device/: the tables and the indices of a device on concrete peers.
use veil_vpn.Prelude.{
  ℕ, ◌<◌, ◌^◌, ◌≡◌, ◌≢◌, refl, false, true, Option, none, some, List, [], ◌∷◌, arith, All, Distinct,
  replicate,
}
use veil_vpn.Prelude.Bytes.{Bytes, bytes_eq}
use veil_vpn.Prelude.Maps.{get, insert, nat_key, bytes_key}
use veil_vpn.Noise.Packet.{IpAddr, v4}
use veil_vpn.Noise.Tunn.{Tunn}
use veil_vpn.Payment.Config.{PaymentConfig}
use veil_vpn.Device.IndexLfsr.{IndexLfsr, default, next}
use veil_vpn.Device.IndexLfsr.Distinct.{indices, indices-Distinct}
use veil_vpn.Device.State.{Device}
use veil_vpn.Device.Table.{Settings, update_peer, remove_peer, find_by_ip}
use veil_vpn.Device.Table.Consistent.{IsConsistent}
use veil_vpn.Device.Table.Run.{
  Reaches, here, next as then_step, updates, IsNew, remove_peer-gone, Reaches-IsConsistent,
}
use veil_vpn.Device.Inbound.{Context}
use veil_vpn.Device.Inbound.Rounds.{flush_fuel, flush_queue}
use veil_vpn.Device.Inbound.Flushed.{flush_queue-total}
use veil_vpn.Examples.Crypto.{toy}
use veil_vpn.Examples.Handshake.{inputs}
use veil_vpn.Examples.Tunn.{keys, waiting, waiting-IsTunn}
use veil_vpn.Examples.Crates.{toy_net, toy-NetworkTableLaws}

-- A register from two words.
abbrev register : IndexLfsr
register = record { initial = 5; lfsr = 5; mask = 9 }

abbrev given : List ℕ
given = 13 ∷ 0xd80008 ∷ 0x6c0009 ∷ []

seeded : default (0x1000000 ∷ 5 ∷ 9 ∷ []) ≡ some (register, [])
unfolding default
seeded = refl

three_indices : indices 3 register ≡ some (record register { lfsr = 0xee0000 }, given)
unfolding indices next
three_indices = refl

indices-Distinct_example : Distinct given × All (λ i. i < 2 ^ 24) given
indices-Distinct_example =
    indices-Distinct (0x1000000 ∷ 5 ∷ 9 ∷ []) [] register (record register { lfsr = 0xee0000 }) 3
      given seeded three_indices

abbrev pub config : PaymentConfig
config = record {
  chain_id = 84532;
  usdc_contract = replicate 20 0xbb;
  amount_per_quota = 10_000;
  quota_bytes = 1_000_000;
  usdc_name = [];
  usdc_version = [];
  gateway_wallet = replicate 20 0xcc;
  gateway_name = [];
  gateway_version = [];
  gateway_api_url = [];
  rpc_url = [];
  is_server = true;
}

abbrev pub device : Device toy_net
device = record {
  key_pair = some (3 ∷ [], toy.public_key (3 ∷ []));
  listen_port = 51820;
  fwmark = none;
  peers = [];
  peers_by_ip = [];
  peers_by_idx = [];
  made = [];
  next_index = register;
  use_connected_socket = false;
  mtu = 1420;
  rate_limiter = none;
  payment_wallet = none;
  payment_config = config;
  settlement_client = none;
}

abbrev settings : Settings
settings = record {
  endpoint = none;
  allowed_ips = record { addr = v4 (10 ∷ 0 ∷ 0 ∷ 2 ∷ []); cidr = 32 } ∷ [];
  keepalive = some 25;
  preshared_key = none;
  own_keys = keys;
  now = 0;
}

abbrev pub or_else {ℓ} : {A : Type ℓ} → Option A → A → A
or_else (some a) b = a
or_else none b = b

abbrev peer_key : Bytes
peer_key = toy.public_key (5 ∷ [])

-- The device with one peer.
with_peer : Device toy_net
with_peer = or_else (update_peer toy toy_net device peer_key false settings) device

is_added : update_peer toy toy_net device peer_key false settings ≡ some with_peer
unfolding with_peer update_peer get next
is_added = refl

found : get with_peer.peers peer_key ≡ some 0
unfolding with_peer update_peer get next insert bytes_eq
found = refl

pub device-IsNew : IsNew toy_net device (0x1000000 ∷ 5 ∷ 9 ∷ []) []
device-IsNew = record { no_peers = refl; no_idx = refl; no_ips = refl; seeded = seeded }

with_peer-Reaches : Reaches toy toy_net device with_peer
with_peer-Reaches = then_step here (updates peer_key false settings is_added)

Reaches-IsConsistent_example : (seen : List ℕ) × IsConsistent toy_net with_peer seen
Reaches-IsConsistent_example =
    Reaches-IsConsistent toy toy_net toy-NetworkTableLaws device with_peer (0x1000000 ∷ 5 ∷ 9 ∷ [])
      [] device-IsNew with_peer-Reaches

consistent : (seen : List ℕ) × IsConsistent toy_net with_peer seen
consistent =
    Reaches-IsConsistent toy toy_net toy-NetworkTableLaws device with_peer (0x1000000 ∷ 5 ∷ 9 ∷ [])
      [] device-IsNew with_peer-Reaches

remove_peer-gone_example :
    (d' : Device toy_net) × (remove_peer toy_net with_peer peer_key ≡ some d')
    × IsConsistent toy_net d' consistent.0
    × ((j : Bytes) → get d'.peers j ≢ some 0)
    × ((i : ℕ) → get d'.peers_by_idx i ≢ some 0)
    × ((addr : IpAddr) → find_by_ip toy_net d' addr ≢ some 0)
remove_peer-gone_example =
    remove_peer-gone toy toy_net toy-NetworkTableLaws with_peer consistent.0 peer_key 0 consistent.1
      found

abbrev pub context : Context
context = record {
  nonce = replicate 32 7;
  unix_now = 1_000;
  inputs = inputs;
  dst_len = 200;
  has_address = true;
}

flush_queue-total_example :
    (t' : Tunn) × (sent : List Bytes) × (flush_queue toy flush_fuel waiting context
      ≡ some (t', sent))
flush_queue-total_example =
    flush_queue-total toy context waiting waiting-IsTunn (omega arith, (omega arith, tt))
