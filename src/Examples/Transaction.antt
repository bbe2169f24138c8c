-- ===== src/Examples/Transaction.antt =====
-- payment/tx.rs on the source's own tests.
use veil_vpn.Prelude.{◌≡◌, refl, [], ◌∷◌, replicate}
use veil_vpn.Prelude.Bytes.{Bytes, to_be_bytes}
use veil_vpn.Payment.Transaction.{Eip1559Tx, rlp_encode_uint, rlp_encode_list}

zero_encoded : rlp_encode_uint 0 ≡ 0x80 ∷ []
unfolding rlp_encode_uint
zero_encoded = refl

small_encoded : rlp_encode_uint 127 ≡ 0x7f ∷ []
unfolding rlp_encode_uint to_be_bytes
small_encoded = refl

medium_encoded : rlp_encode_uint 256 ≡ 0x82 ∷ 0x01 ∷ 0x00 ∷ []
unfolding rlp_encode_uint to_be_bytes
medium_encoded = refl

empty_encoded : rlp_encode_list [] ≡ 0xc0 ∷ []
unfolding rlp_encode_list
empty_encoded = refl

abbrev key : Bytes
key = replicate 32 1

abbrev approval : Eip1559Tx
approval = record {
  chain_id = 5042002;
  nonce = 0;
  max_priority_fee_per_gas = 1_000_000;
  max_fee_per_gas = 2_000_000;
  gas_limit = 60_000;
  to = replicate 20 0xaa;
  value = 0;
  payload = 0x09 ∷ 0x5e ∷ 0xa7 ∷ 0xb3 ∷ [];
}
