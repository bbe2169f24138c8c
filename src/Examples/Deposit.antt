-- ===== src/Examples/Deposit.antt =====
-- payment/deposit.rs: a deposit of 2.5 USDC, and what the contract reads of it.
use veil_vpn.Prelude.{ℕ, ◌≡◌, refl, some, arith, replicate}
use veil_vpn.Prelude.Bytes.{Bytes, slice}
use veil_vpn.Payment.Wallet.{
  PaymentWallet, from_wireguard_key, compute_address, sign_digest, recover_address,
}
use veil_vpn.Payment.Deposit.{Terms, deposit_digest, deposit_calldata, sel_deposit_with_auth}
use veil_vpn.Payment.Deposit.Calldata.{Arguments, read_arguments, digest_of, deposit_calldata-reads}
use veil_vpn.Examples.Crates.{toy_ethereum, toy-EthereumLaws}
use veil_vpn.Examples.Device.{config}

abbrev key : Bytes
key = replicate 32 22

wallet : PaymentWallet
wallet = record { signing_key = key; ethereum_address = compute_address toy_ethereum key }

made : from_wireguard_key toy_ethereum key ≡ some wallet
unfolding from_wireguard_key wallet
made = refl

abbrev terms : Terms
terms = record { amount = 2_500_000; valid_before = 1_600; nonce = replicate 32 9 }

deposit_calldata-reads_example :
    (v : ℕ) × (r s : Bytes) × (a : Arguments) × (sign_digest toy_ethereum wallet
        (deposit_digest toy_ethereum wallet config terms)
      ≡ some (v, r, s))
    × (slice 0 4 (deposit_calldata wallet config terms (v, r, s)) ≡ sel_deposit_with_auth)
    × (read_arguments (deposit_calldata wallet config terms (v, r, s)) ≡ a)
    × (a.token ≡ config.usdc_contract)
    × (a.from ≡ wallet.ethereum_address)
    × (a.value ≡ 2_500_000)
    × (a.valid_after ≡ 0)
    × (a.valid_before ≡ 1_600)
    × (a.nonce ≡ replicate 32 9)
    × (recover_address toy_ethereum (digest_of toy_ethereum config a) a.v a.r a.s ≡ some a.from)
deposit_calldata-reads_example =
    deposit_calldata-reads toy_ethereum toy-EthereumLaws wallet key config terms made refl
      (omega arith) (omega arith) refl
