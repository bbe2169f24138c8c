-- ===== src/Payment/Authorization/Signing.antt =====
-- A signature of a wallet is verified as that wallet's.
use veil_vpn.Prelude.{
  ◌+◌, ◌-◌, ◌%◌, ◌<◌, ◌≡◌, refl, ap, ◌∙◌, some, arith, length, take, drop, take-append-drop,
  length-take, length-drop, ℕ,
}
use veil_vpn.Prelude.Bytes.{Bytes}
use veil_vpn.Payment.Config.{Eip712Domain}
use veil_vpn.Payment.Wallet.{
  Ethereum, EthereumLaws, Recoverable, PaymentWallet, address_of, compute_address,
  from_wireguard_key, sign_digest, recover_address,
}
use veil_vpn.Payment.Authorization.{
  TransferAuthorization, SignedAuthorization, compute_eip712_digest, sign_authorization,
  verify_authorization,
}

-- What signing a digest gives, for the wallet that signs.
pub record Signature (e : Ethereum) (w : PaymentWallet) (digest : Bytes) : Type 0 where
  pub v : ℕ
  pub r : Bytes
  pub s : Bytes
  pub v_byte : v < 256
  pub length-r : length r ≡ 32
  pub length-s : length s ≡ 32
  pub signed : sign_digest e w digest ≡ some (v, r, s)
  pub recovered : recover_address e digest v r s ≡ some w.ethereum_address

module _ (e : Ethereum) where
  -- The address of a wallet is that of its key.
  pub from_wireguard_key-address :
      (x : Bytes) (w : PaymentWallet)
      → from_wireguard_key e x ≡ some w
      → w.ethereum_address ≡ compute_address e w.signing_key
  unfolding from_wireguard_key
  from_wireguard_key-address x w h = ground (arith, h)

  recovers :
      (w : PaymentWallet) (digest signature : Bytes) (id : ℕ)
      → Recoverable e w.signing_key digest signature id
      → w.ethereum_address ≡ compute_address e w.signing_key
      → recover_address e digest ((id + 27) % 256) (take 32 signature) (drop 32 signature)
        ≡ some w.ethereum_address
  unfolding recover_address compute_address
  recovers w digest signature id k h =
      let small : (id + 27) % 256 ≡ id + 27 = omega (arith, k.id_small) in
      let back : id + 27 - 27 ≡ id = omega arith in
      rw (small, back, take-append-drop 32 signature) (ground (arith, k.id_known, k.recovered, h))

  -- A wallet made from a key signs a digest of 32 bytes, and is recovered as its signer.
  pub sign_digest_lem :
      EthereumLaws e
      → (w : PaymentWallet) (digest x : Bytes) → length digest ≡ 32
      → from_wireguard_key e x ≡ some w
      → Signature e w digest
  unfolding sign_digest
  sign_digest_lem laws w digest x sized made =
      let (signature, id, k) = laws.signs w.signing_key digest sized in
      record {
        v = (id + 27) % 256;
        r = take 32 signature;
        s = drop 32 signature;
        v_byte = omega arith;
        length-r = omega (arith, length-take 32 signature, k.length-signature);
        length-s = omega (arith, length-drop 32 signature, k.length-signature);
        signed = rw k.signed refl;
        recovered = recovers w digest signature id k (from_wireguard_key-address x w made);
      }

  -- Addresses have 20 bytes.
  pub length-ethereum_address :
      EthereumLaws e
      → (x : Bytes) (w : PaymentWallet) → from_wireguard_key e x ≡ some w
      → length w.ethereum_address ≡ 20
  unfolding compute_address address_of
  length-ethereum_address laws x w h =
      ap length (from_wireguard_key-address x w h)
      ∙ length-drop 12 (e.keccak256 (drop 1 (e.encoded_point w.signing_key)))
      ∙ ap (λ k. k - 12) (laws.length-keccak256 (drop 1 (e.encoded_point w.signing_key)))

  -- What a wallet made from a key signs is verified, by anyone, as signed by the wallet's address.
  pub verify-sign :
      EthereumLaws e
      → (w : PaymentWallet) (x : Bytes) (domain : Eip712Domain) (auth : TransferAuthorization)
      → from_wireguard_key e x ≡ some w
      → (signed : SignedAuthorization) × (sign_authorization e w domain auth ≡ some signed)
        × (signed.auth ≡ auth)
        × (verify_authorization e domain signed ≡ some w.ethereum_address)
  unfolding sign_authorization verify_authorization compute_eip712_digest
  verify-sign laws w x domain auth made =
      let k =
        sign_digest_lem laws w (compute_eip712_digest e domain auth) x (laws.length-keccak256 _)
          made in
      (record { auth = auth; v = k.v; r = k.r; s = k.s }, rw k.signed refl, refl, k.recovered)
