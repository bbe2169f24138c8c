-- ===== src/Payment/Transaction.antt =====
-- payment/tx.rs: a transaction in the recursive length prefix (RLP) of Ethereum, and its signature.
pub mod Prefix
pub mod Signed
use veil_vpn.Prelude.{
  ℕ, ◌+◌, ◌-◌, ◌&&◌, ◌≡◌, Option, none, some, List, [], ◌∷◌, ◌++◌, length, take, drop, get_or, ltb,
  leb, ◌==◌, if◌then◌else◌, ◌>>=◌,
}
use veil_vpn.Prelude.Bytes.{Bytes, to_be_bytes}
use veil_vpn.Payment.Wallet.{Ethereum}

-- A transaction of type 2.
pub record Eip1559Tx : Type 0 where
  pub chain_id : ℕ
  pub nonce : ℕ
  pub max_priority_fee_per_gas : ℕ
  pub max_fee_per_gas : ℕ
  pub gas_limit : ℕ
  pub to : Bytes
  pub value : ℕ
  pub payload : Bytes

-- The position of the first byte that is not 0.
unfoldable pub first_nonzero : Bytes → Option ℕ
first_nonzero [] = none
first_nonzero (b ∷ bs) =
    let later : Option ℕ = elim (first_nonzero bs) [ none ↦ none | some i ↦ some (i + 1) ] in
    if ltb 0 b then some 0 else later

-- The bytes of a word of `width` bytes from the first that is not 0, or the last byte.
unfoldable pub significant : ℕ → ℕ → Bytes
unfolding first_nonzero
significant width value =
    let be = to_be_bytes width value in
    drop (elim (first_nonzero be) [ none ↦ width - 1 | some start ↦ start ]) be

unfoldable pub encode_length : ℕ → Bytes
unfolding significant
encode_length len = significant 8 len

-- A length of up to 55 in the prefix itself, a longer one behind it.
unfoldable pub with_prefix : ℕ → ℕ → Bytes → Bytes
unfolding encode_length
with_prefix short long payload =
    if leb (length payload) 55
    then (short + length payload) ∷ payload
    else (long + length (encode_length (length payload)))
      ∷ (encode_length (length payload) ++ payload)

unfoldable pub rlp_encode_bytes : Bytes → Bytes
unfolding with_prefix
rlp_encode_bytes bytes =
    if length bytes == 1 && ltb (get_or bytes 0 0) 0x80
    then get_or bytes 0 0 ∷ []
    else with_prefix 0x80 0xb7 bytes

unfoldable pub rlp_encode_uint : ℕ → Bytes
unfolding significant rlp_encode_bytes
rlp_encode_uint value = if value == 0 then 0x80 ∷ [] else rlp_encode_bytes (significant 8 value)

unfoldable pub rlp_encode_u128 : ℕ → Bytes
unfolding significant rlp_encode_bytes
rlp_encode_u128 value = if value == 0 then 0x80 ∷ [] else rlp_encode_bytes (significant 16 value)

abbrev pub concat : List Bytes → Bytes
concat [] = []
concat (item ∷ items) = item ++ concat items

unfoldable pub rlp_encode_list : List Bytes → Bytes
unfolding with_prefix
rlp_encode_list items = with_prefix 0xc0 0xf7 (concat items)

-- The fields before `last`, the last of them an empty access list.
unfoldable pub rlp_fields : Eip1559Tx → List Bytes → List Bytes
unfolding rlp_encode_uint rlp_encode_u128 rlp_encode_bytes rlp_encode_list
rlp_fields tx last =
    rlp_encode_uint tx.chain_id
    ∷ (rlp_encode_uint tx.nonce
        ∷ (rlp_encode_u128 tx.max_priority_fee_per_gas
            ∷ (rlp_encode_u128 tx.max_fee_per_gas
                ∷ (rlp_encode_uint tx.gas_limit
                    ∷ (rlp_encode_bytes tx.to
                        ∷ (rlp_encode_u128 tx.value
                            ∷ (rlp_encode_bytes tx.payload ∷ (rlp_encode_list [] ∷ last))))))))

module _ (e : Ethereum) where
  unfoldable pub signing_hash : Eip1559Tx → Bytes
  unfolding rlp_fields rlp_encode_list
  signing_hash tx = e.keccak256 (0x02 ∷ rlp_encode_list (rlp_fields tx []))

  -- The bytes to send: the fields, the parity and the two halves of the signature.
  unfoldable pub signed_with : Eip1559Tx → ℕ → Bytes → Bytes → Bytes
  unfolding rlp_fields rlp_encode_list rlp_encode_uint rlp_encode_bytes
  signed_with tx y_parity r s =
      0x02
      ∷ rlp_encode_list (
          rlp_fields tx
            (rlp_encode_uint y_parity ∷ (rlp_encode_bytes r ∷ (rlp_encode_bytes s ∷ []))))

  -- A key that does not sign is a panic.
  unfoldable pub sign : Eip1559Tx → Bytes → Option Bytes
  unfolding signing_hash signed_with
  sign tx key = do
    (sig_bytes, recovery_id) ← e.sign key (signing_hash tx)
    some (signed_with tx recovery_id (take 32 sig_bytes) (drop 32 sig_bytes))
