-- ===== src/Payment/Deposit.antt =====
-- payment/deposit.rs: the deposit of a client at the gateway. Random bytes and the time are inputs;
-- `none` is the panic of a signer. The functions of eip3009.rs that deposit.rs has copies of are used.
pub mod Calldata
use veil_vpn.Prelude.{
  ℕ, ◌+◌, ◌*◌, ◌-◌, ◌/◌, ◌%◌, ◌^◌, ◌&&◌, Bool, true, false, Option, none, some, [], ◌∷◌, ◌++◌, ltb,
  ◌==◌, if◌then◌else◌, add_u64,
}
use veil_vpn.Prelude.Bytes.{Bytes}
use veil_vpn.Prelude.Text.{codes}
use veil_vpn.Payment.Config.{PaymentConfig, usdc_domain}
use veil_vpn.Payment.Wallet.{Ethereum, PaymentWallet, sign_digest}
use veil_vpn.Payment.Authorization.{abi_encode_address, abi_encode_u256, compute_domain_separator}
use veil_vpn.Payment.Settlement.{hex_0x}
use veil_vpn.Payment.Transaction.{Eip1559Tx, sign}
use veil_vpn.Payment.Rpc.{
  Node, Outcome, success, failure, parse_u256_result, eth_call, get_nonce, gas_price,
  max_priority_fee, estimate_gas, send_raw_tx, wait_for_receipt,
}

abbrev pub sel_balance_of : Bytes
sel_balance_of = 0x70 ∷ 0xa0 ∷ 0x82 ∷ 0x31 ∷ []

abbrev pub sel_available_balance : Bytes
sel_available_balance = 0x3c ∷ 0xcb ∷ 0x64 ∷ 0xae ∷ []

abbrev pub sel_deposit_with_auth : Bytes
sel_deposit_with_auth = 0x8a ∷ 0x94 ∷ 0xd4 ∷ 0xfc ∷ []

abbrev pub gas_reserve : ℕ
gas_reserve = 100_000

abbrev pub receive_authorization_type : Bytes
receive_authorization_type =
    codes
      "ReceiveWithAuthorization(address from,address to,uint256 value,uint256 validAfter,uint256 validBefore,bytes32 nonce)"

-- What the deposit sends to the contract: the amount, until when it is good, and its nonce.
pub record Terms : Type 0 where
  pub amount : ℕ
  pub valid_before : ℕ
  pub nonce : Bytes

module _ (e : Ethereum) where
  unfoldable pub deposit_digest : PaymentWallet → PaymentConfig → Terms → Bytes
  unfolding usdc_domain compute_domain_separator abi_encode_address abi_encode_u256
  deposit_digest wallet config t =
      let struct_hash = e.keccak256 (
        e.keccak256 receive_authorization_type
        ++ (abi_encode_address wallet.ethereum_address
            ++ (abi_encode_address config.gateway_wallet
                ++ (abi_encode_u256 t.amount
                    ++ (abi_encode_u256 0 ++ (abi_encode_u256 t.valid_before ++ t.nonce)))))) in
      e.keccak256 (0x19 ∷ (0x01 ∷ (compute_domain_separator e (usdc_domain config) ++ struct_hash)))

-- The call of `depositWithAuthorization` with the signature.
unfoldable pub deposit_calldata : PaymentWallet → PaymentConfig → Terms → ℕ × Bytes × Bytes → Bytes
unfolding abi_encode_address abi_encode_u256
deposit_calldata wallet config t (v, r, s) =
    sel_deposit_with_auth
    ++ (abi_encode_address config.usdc_contract
        ++ (abi_encode_address wallet.ethereum_address
            ++ (abi_encode_u256 t.amount
                ++ (abi_encode_u256 0
                    ++ (abi_encode_u256 t.valid_before
                        ++ (t.nonce ++ (abi_encode_u256 v ++ (r ++ s))))))))

-- A value, or a default after a failure.
unfoldable pub unwrap_or : Outcome ℕ → ℕ → ℕ
unwrap_or (success a) d = a
unwrap_or (failure e) d = d

-- Addition that stops at the largest 128-bit word.
unfoldable pub saturating_add : ℕ → ℕ → ℕ
saturating_add a b = if ltb (a + b) (2 ^ 128) then a + b else 2 ^ 128 - 1

-- 30 per cent more than the estimate, in 64 bits, or a fixed limit.
unfoldable pub gas_limit_of : Outcome ℕ → ℕ
gas_limit_of (success g) = ((g * 130) % 2 ^ 64) / 100
gas_limit_of (failure e) = 200_000

module _ (node : Node) where
  unfoldable pub balance_of : node.World × Outcome Bytes → node.World × Outcome ℕ
  unfolding parse_u256_result
  balance_of (w, success bytes) = (w, success (parse_u256_result bytes))
  balance_of (w, failure e) = (w, failure e)

  unfoldable pub query_balance : Bytes → Bytes → Bytes → node.World → node.World × Outcome ℕ
  unfolding eth_call balance_of abi_encode_address
  query_balance url token addr w =
      balance_of (eth_call node url token (sel_balance_of ++ abi_encode_address addr) w)

  unfoldable pub query_gateway_balance :
      Bytes → Bytes → Bytes → Bytes → node.World → node.World × Outcome ℕ
  unfolding eth_call balance_of abi_encode_address
  query_gateway_balance url gateway token addr w = balance_of (
      eth_call node url gateway
        (sel_available_balance ++ (abi_encode_address token ++ abi_encode_address addr)) w)

module _ (e : Ethereum) (node : Node) where
  -- The transaction, once its nonce and the fees are known.
  unfoldable pub send_deposit :
      PaymentWallet
      → PaymentConfig
      → Bytes
      → ℕ
      → ℕ
      → ℕ
      → node.World
      → Option (node.World × Outcome Bytes)
  unfolding saturating_add gas_limit_of estimate_gas sign send_raw_tx
  send_deposit wallet config calldata tx_nonce priority_fee base_fee w =
      let (w', estimate) =
        estimate_gas node config.rpc_url wallet.ethereum_address config.gateway_wallet calldata w in
      let tx : Eip1559Tx = record {
        chain_id = config.chain_id;
        nonce = tx_nonce;
        max_priority_fee_per_gas = priority_fee;
        max_fee_per_gas = saturating_add base_fee priority_fee;
        gas_limit = gas_limit_of estimate;
        to = config.gateway_wallet;
        value = 0;
        payload = calldata;
      } in
      elim (sign e tx wallet.signing_key) [
        | none ↦ none
        | some raw ↦ some (send_raw_tx node config.rpc_url raw w')
      ]

  unfoldable pub priced :
      PaymentWallet
      → PaymentConfig
      → Bytes
      → ℕ
      → ℕ
      → node.World × Outcome ℕ
      → Option (node.World × Outcome Bytes)
  unfolding send_deposit
  priced wallet config calldata tx_nonce priority_fee (w, success base_fee) =
      send_deposit wallet config calldata tx_nonce priority_fee base_fee w
  priced wallet config calldata tx_nonce priority_fee (w, failure error) = some (w, failure error)

  unfoldable pub numbered :
      PaymentWallet
      → PaymentConfig
      → Bytes
      → node.World × Outcome ℕ
      → Option (node.World × Outcome Bytes)
  unfolding priced max_priority_fee unwrap_or gas_price
  numbered wallet config calldata (w, failure error) = some (w, failure error)
  numbered wallet config calldata (w, success tx_nonce) =
      let (w', fee) = max_priority_fee node config.rpc_url w in
      priced wallet config calldata tx_nonce (unwrap_or fee 1_000_000)
        (gas_price node config.rpc_url w')

  unfoldable pub deposit_with_authorization :
      PaymentWallet → PaymentConfig → Terms → node.World → Option (node.World × Outcome Bytes)
  unfolding deposit_digest deposit_calldata numbered get_nonce
  deposit_with_authorization wallet config t w =
      elim (sign_digest e wallet (deposit_digest e wallet config t)) [
        | none ↦ none
        | some signature ↦
            numbered wallet config (deposit_calldata wallet config t signature)
              (get_nonce node config.rpc_url wallet.ethereum_address w)
      ]

module _ (node : Node) where
  unfoldable pub finished : Bytes → node.World × Outcome Bool → node.World × Outcome Bytes
  finished tx_hash (w, success true) = (w, success tx_hash)
  finished tx_hash (w, success false) = (w, failure (codes "Deposit tx reverted: " ++ tx_hash))
  finished tx_hash (w, failure error) = (w, failure error)

  -- The wait for the confirmation of what was sent.
  unfoldable pub confirmed : Bytes → node.World × Outcome Bytes → node.World × Outcome Bytes
  unfolding finished wait_for_receipt
  confirmed url (w, success tx_hash) = finished tx_hash (wait_for_receipt node url tx_hash 30 w)
  confirmed url (w, failure error) = (w, failure error)

-- What the caller gives to one deposit.
pub record Chance : Type 0 where
  pub nonce : Bytes
  pub now : ℕ

module _ (e : Ethereum) (node : Node) where
  -- All but a reserve for gas is deposited.
  unfoldable pub deposit_rest :
      PaymentWallet → PaymentConfig → Chance → ℕ → node.World → Option (node.World × Outcome Bytes)
  unfolding deposit_with_authorization confirmed
  deposit_rest wallet config k usdc_balance w =
      if usdc_balance - gas_reserve == 0
      then some
          (w, failure (codes "USDC balance too low to deposit (need >1 USDC for gas reserve)"))
      else elim (deposit_with_authorization e node wallet config
          (record {
            amount = usdc_balance - gas_reserve;
            valid_before = add_u64 k.now 600;
            nonce = k.nonce;
          })
          w) [ none ↦ none | some sent ↦ some (confirmed node config.rpc_url sent) ]

  unfoldable pub with_balances :
      PaymentWallet
      → PaymentConfig
      → Chance
      → ℕ
      → node.World × Outcome ℕ
      → Option (node.World × Outcome Bytes)
  unfolding deposit_rest
  with_balances wallet config k usdc_balance (w, failure error) = some (w, failure error)
  with_balances wallet config k usdc_balance (w, success gw_balance) =
      if usdc_balance == 0 && gw_balance == 0
      then some (
        w,
        failure (
            codes "No USDC available. Fund wallet with USDC on Arc testnet: "
            ++ hex_0x wallet.ethereum_address),
      )
      else if usdc_balance == 0
      then some (w, success (codes "already_deposited"))
      else deposit_rest wallet config k usdc_balance w

  unfoldable pub with_balance :
      PaymentWallet
      → PaymentConfig
      → Chance
      → node.World × Outcome ℕ
      → Option (node.World × Outcome Bytes)
  unfolding with_balances query_gateway_balance
  with_balance wallet config k (w, failure error) = some (w, failure error)
  with_balance wallet config k (w, success usdc_balance) =
      with_balances wallet config k usdc_balance (
        query_gateway_balance node config.rpc_url config.gateway_wallet config.usdc_contract
          wallet.ethereum_address w)

  unfoldable pub auto_deposit :
      PaymentWallet → PaymentConfig → Chance → node.World → Option (node.World × Outcome Bytes)
  unfolding with_balance query_balance
  auto_deposit wallet config k w =
      with_balance wallet config k
        (query_balance node config.rpc_url config.usdc_contract wallet.ethereum_address w)
