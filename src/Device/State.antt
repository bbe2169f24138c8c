-- ===== src/Device/State.antt =====
-- device/mod.rs, the state of a `Device`, without its event queue and its file handles. An
-- `Arc<Mutex<Peer>>` is the position of the peer in `made`, the list of all peers that were made: a
-- handle that stands in several tables stands for one peer, which a change through any of them
-- reaches.
use veil_vpn.Prelude.{ℕ, Bool, Option, List}
use veil_vpn.Prelude.Bytes.{Bytes}
use veil_vpn.Noise.RateLimiter.{RateLimiter}
use veil_vpn.Payment.Config.{PaymentConfig}
use veil_vpn.Payment.Wallet.{PaymentWallet}
use veil_vpn.Payment.Settlement.{SettlementClient}
use veil_vpn.Device.AllowedIps.{NetworkTable, AllowedIps}
use veil_vpn.Device.IndexLfsr.{IndexLfsr}
use veil_vpn.Device.Peer.{Peer}

pub record Device (net : NetworkTable) : Type 0 where
  pub key_pair : Option (Bytes × Bytes)
  pub listen_port : ℕ
  pub fwmark : Option ℕ
  pub peers : List (Bytes × ℕ)
  pub peers_by_ip : AllowedIps net ℕ
  pub peers_by_idx : List (ℕ × ℕ)
  pub made : List (Peer net)
  pub next_index : IndexLfsr
  pub use_connected_socket : Bool
  pub mtu : ℕ
  pub rate_limiter : Option RateLimiter
  pub payment_wallet : Option PaymentWallet
  pub payment_config : PaymentConfig
  pub settlement_client : Option SettlementClient
