-- ===== src/Noise/Crypto.antt =====
-- The cryptographic crates that the source calls (blake2, hmac, ring, chacha20poly1305,
-- x25519-dalek) as a parameter, and the wrappers of noise/handshake.rs over them.
use veil_vpn.Prelude.{ℕ, ◌+◌, ◌≡◌, Option, none, some, ◌++◌, length, replicate}
use veil_vpn.Prelude.Bytes.{Bytes, to_le_bytes}
use veil_vpn.Noise.Errors.{Result, ok, err, invalid_aead_tag}

-- `seal` gives the ciphertext followed by its tag; `open_sealed` is `open_in_place`.
pub record Crypto : Type 0 where
  pub blake2s : Bytes → Bytes
  pub hmac_blake2s : Bytes → Bytes → Bytes
  pub blake2s_mac : ℕ → Bytes → Bytes → Bytes
  pub seal : Bytes → Bytes → Bytes → Bytes → Bytes
  pub open_sealed : Bytes → Bytes → Bytes → Bytes → Option Bytes
  pub x_seal : Bytes → Bytes → Bytes → Bytes → Bytes
  pub x_open : Bytes → Bytes → Bytes → Bytes → Option Bytes
  pub public_key : Bytes → Bytes
  pub diffie_hellman : Bytes → Bytes → Bytes

-- What the crates document: authenticated encryption opens what it sealed and adds a tag of 16
-- bytes, Diffie-Hellman is symmetric, and hashes, MACs and keys have their lengths.
pub record CryptoLaws (c : Crypto) : Type 0 where
  pub open-seal : (k n a m : Bytes) → c.open_sealed k n a (c.seal k n a m) ≡ some m
  pub length-seal : (k n a m : Bytes) → length (c.seal k n a m) ≡ length m + 16
  pub x_open-x_seal : (k n a m : Bytes) → c.x_open k n a (c.x_seal k n a m) ≡ some m
  pub length-x_seal : (k n a m : Bytes) → length (c.x_seal k n a m) ≡ length m + 16
  pub dh_comm :
      (a b : Bytes) → c.diffie_hellman a (c.public_key b) ≡ c.diffie_hellman b (c.public_key a)
  pub length-blake2s_mac : (n : ℕ) (k m : Bytes) → length (c.blake2s_mac n k m) ≡ n
  pub length-public_key : (s : Bytes) → length (c.public_key s) ≡ 32

module _ (c : Crypto) where
  unfoldable pub b2s_hash : Bytes → Bytes → Bytes
  b2s_hash data1 data2 = c.blake2s (data1 ++ data2)

  unfoldable pub b2s_hmac : Bytes → Bytes → Bytes
  b2s_hmac key data1 = c.hmac_blake2s key data1

  unfoldable pub b2s_hmac2 : Bytes → Bytes → Bytes → Bytes
  b2s_hmac2 key data1 data2 = c.hmac_blake2s key (data1 ++ data2)

  unfoldable pub b2s_keyed_mac_16 : Bytes → Bytes → Bytes
  b2s_keyed_mac_16 key data1 = c.blake2s_mac 16 key data1

  unfoldable pub b2s_keyed_mac_16_2 : Bytes → Bytes → Bytes → Bytes
  b2s_keyed_mac_16_2 key data1 data2 = c.blake2s_mac 16 key (data1 ++ data2)

  unfoldable pub b2s_mac_24 : Bytes → Bytes → Bytes
  b2s_mac_24 key data1 = c.blake2s_mac 24 key data1

-- Four zero bytes and the counter.
abbrev pub nonce_of : ℕ → Bytes
nonce_of counter = replicate 4 0 ++ to_le_bytes 8 counter

module _ (c : Crypto) where
  unfoldable pub aead_chacha20_seal : Bytes → ℕ → Bytes → Bytes → Bytes
  aead_chacha20_seal key counter msg aad = c.seal key (nonce_of counter) aad msg

  unfoldable pub aead_chacha20_open : Bytes → ℕ → Bytes → Bytes → Result Bytes
  aead_chacha20_open key counter msg aad = elim (c.open_sealed key (nonce_of counter) aad msg) [
    | none ↦ err invalid_aead_tag
    | some plaintext ↦ ok plaintext
  ]
