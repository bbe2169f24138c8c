-- ===== src/Payment/Authorization.antt =====
-- payment/eip3009.rs: the digest of a payment that is signed under EIP-712, and its verification.
pub mod Signing
use veil_vpn.Prelude.{ℕ, Option, some, [], ◌∷◌, ◌++◌, replicate, ◌>>=◌}
use veil_vpn.Prelude.Bytes.{Bytes, to_be_bytes}
use veil_vpn.Prelude.Text.{codes}
use veil_vpn.Payment.Config.{Eip712Domain}
use veil_vpn.Payment.Wallet.{Ethereum, PaymentWallet, sign_digest, recover_address}

pub record TransferAuthorization : Type 0 where
  pub from : Bytes
  pub to : Bytes
  pub value : ℕ
  pub valid_after : ℕ
  pub valid_before : ℕ
  pub nonce : Bytes

pub record SignedAuthorization : Type 0 where
  pub auth : TransferAuthorization
  pub v : ℕ
  pub r : Bytes
  pub s : Bytes

unfoldable pub abi_encode_address : Bytes → Bytes
abi_encode_address addr = replicate 12 0 ++ addr

unfoldable pub abi_encode_u256 : ℕ → Bytes
abi_encode_u256 value = replicate 16 0 ++ to_be_bytes 16 value

abbrev pub eip712_domain_type : Bytes
eip712_domain_type =
    codes "EIP712Domain(string name,string version,uint256 chainId,address verifyingContract)"

abbrev pub transfer_authorization_type : Bytes
transfer_authorization_type =
    codes
      "TransferWithAuthorization(address from,address to,uint256 value,uint256 validAfter,uint256 validBefore,bytes32 nonce)"

module _ (e : Ethereum) where
  unfoldable pub compute_domain_separator : Eip712Domain → Bytes
  unfolding abi_encode_u256 abi_encode_address
  compute_domain_separator domain = e.keccak256 (
      e.keccak256 eip712_domain_type
      ++ (e.keccak256 domain.name
          ++ (e.keccak256 domain.version
              ++ (abi_encode_u256 domain.chain_id
                  ++ abi_encode_address domain.verifying_contract))))

  unfoldable pub compute_struct_hash : TransferAuthorization → Bytes
  unfolding abi_encode_u256 abi_encode_address
  compute_struct_hash auth = e.keccak256 (
      e.keccak256 transfer_authorization_type
      ++ (abi_encode_address auth.from
          ++ (abi_encode_address auth.to
              ++ (abi_encode_u256 auth.value
                  ++ (abi_encode_u256 auth.valid_after
                      ++ (abi_encode_u256 auth.valid_before ++ auth.nonce))))))

  unfoldable pub compute_eip712_digest : Eip712Domain → TransferAuthorization → Bytes
  unfolding compute_domain_separator compute_struct_hash
  compute_eip712_digest domain auth =
      e.keccak256 (0x19 ∷ (0x01 ∷ (compute_domain_separator domain ++ compute_struct_hash auth)))

  unfoldable pub sign_authorization :
      PaymentWallet → Eip712Domain → TransferAuthorization → Option SignedAuthorization
  sign_authorization wallet domain auth = do
    (v, r, s) ← sign_digest e wallet (compute_eip712_digest domain auth)
    some (record { auth = auth; v = v; r = r; s = s })

  unfoldable pub verify_authorization : Eip712Domain → SignedAuthorization → Option Bytes
  verify_authorization domain signed =
      recover_address e (compute_eip712_digest domain signed.auth) signed.v signed.r signed.s
