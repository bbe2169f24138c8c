-- ===== src/Payment/Config.antt =====
-- payment/mod.rs, `PaymentConfig` and the two signing domains that it gives; payment/eip3009.rs,
-- `Eip712Domain`. Texts are their bytes.
use veil_vpn.Prelude.{ℕ, Bool}
use veil_vpn.Prelude.Bytes.{Bytes}

pub record PaymentConfig : Type 0 where
  pub chain_id : ℕ
  pub usdc_contract : Bytes
  pub amount_per_quota : ℕ
  pub quota_bytes : ℕ
  pub usdc_name : Bytes
  pub usdc_version : Bytes
  pub gateway_wallet : Bytes
  pub gateway_name : Bytes
  pub gateway_version : Bytes
  pub gateway_api_url : Bytes
  pub rpc_url : Bytes
  pub is_server : Bool

pub record Eip712Domain : Type 0 where
  pub name : Bytes
  pub version : Bytes
  pub chain_id : ℕ
  pub verifying_contract : Bytes

unfoldable pub usdc_domain : PaymentConfig → Eip712Domain
usdc_domain c = record {
  name = c.usdc_name;
  version = c.usdc_version;
  chain_id = c.chain_id;
  verifying_contract = c.usdc_contract;
}

unfoldable pub gateway_domain : PaymentConfig → Eip712Domain
gateway_domain c = record {
  name = c.gateway_name;
  version = c.gateway_version;
  chain_id = c.chain_id;
  verifying_contract = c.gateway_wallet;
}
