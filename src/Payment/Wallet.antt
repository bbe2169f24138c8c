-- ===== src/Payment/Wallet.antt =====
-- payment/wallet.rs, `PaymentWallet`: the key that signs payments, and its address. The hkdf, sha3
-- and k256 crates are a parameter.
use veil_vpn.Prelude.{
  ℕ, ◌+◌, ◌-◌, ◌%◌, ◌<◌, ◌≡◌, Option, none, some, ◌++◌, ltb, if◌then◌else◌, length, take, drop,
  ◌>>=◌,
}
use veil_vpn.Prelude.Bytes.{Bytes}
use veil_vpn.Prelude.Text.{codes}

-- `hkdf` takes the salt, the key and the info; `from_bytes` is `SigningKey::from_bytes`;
-- `encoded_point` is the uncompressed public key; `sign` is `sign_prehash_recoverable` with the
-- recovery id as a number, `recovery_id` is `RecoveryId::from_byte`, and `recover` reads the
-- signature, recovers the key and encodes it.
pub record Ethereum : Type 0 where
  pub hkdf : Bytes → Bytes → Bytes → Bytes
  pub keccak256 : Bytes → Bytes
  pub from_bytes : Bytes → Option Bytes
  pub encoded_point : Bytes → Bytes
  pub sign : Bytes → Bytes → Option (Bytes × ℕ)
  pub recovery_id : ℕ → Option ℕ
  pub recover : Bytes → Bytes → ℕ → Option Bytes

-- What a signature of a key gives: 64 bytes and an id below 4, from which the key is recovered.
pub record Recoverable (e : Ethereum) (key digest signature : Bytes) (id : ℕ) : Type 0 where
  pub signed : e.sign key digest ≡ some (signature, id)
  pub length-signature : length signature ≡ 64
  pub id_small : id < 4
  pub id_known : e.recovery_id id ≡ some id
  pub recovered : e.recover digest signature id ≡ some (e.encoded_point key)

-- What the crates document: a key signs every digest of 32 bytes, and hashes have 32 bytes.
pub record EthereumLaws (e : Ethereum) : Type 0 where
  pub length-keccak256 : (m : Bytes) → length (e.keccak256 m) ≡ 32
  pub signs :
      (key digest : Bytes)
      → length digest ≡ 32
      → (signature : Bytes) × (id : ℕ) × Recoverable e key digest signature id

pub record PaymentWallet : Type 0 where
  pub signing_key : Bytes
  pub ethereum_address : Bytes

abbrev pub hkdf_salt : Bytes
hkdf_salt = codes "boringtun-payment-v1"

abbrev pub hkdf_info : Bytes
hkdf_info = codes "secp256k1-signing-key"

module _ (e : Ethereum) where
  -- The last 20 bytes of the hash of the point, without its prefix byte.
  unfoldable pub address_of : Bytes → Bytes
  address_of pubkey_bytes = drop 12 (e.keccak256 (drop 1 pubkey_bytes))

  unfoldable pub compute_address : Bytes → Bytes
  unfolding address_of
  compute_address signing_key = address_of (e.encoded_point signing_key)

  -- A derived key that is no scalar is a panic.
  unfoldable pub from_wireguard_key : Bytes → Option PaymentWallet
  unfolding compute_address
  from_wireguard_key x25519_private_bytes = do
    signing_key ← e.from_bytes (e.hkdf hkdf_salt x25519_private_bytes hkdf_info)
    some (record { signing_key = signing_key; ethereum_address = compute_address signing_key })

  -- `(v, r, s)`, or the panic of the signer.
  unfoldable pub sign_digest : PaymentWallet → Bytes → Option (ℕ × Bytes × Bytes)
  sign_digest w digest = do
    (sig_bytes, id) ← e.sign w.signing_key digest
    some ((id + 27) % 256, take 32 sig_bytes, drop 32 sig_bytes)

  unfoldable pub recover_address : Bytes → ℕ → Bytes → Bytes → Option Bytes
  unfolding address_of
  recover_address digest v r s = if ltb v 27 then none else (do
    id ← e.recovery_id (v - 27)
    pubkey_bytes ← e.recover digest (r ++ s) id
    some (address_of pubkey_bytes))
