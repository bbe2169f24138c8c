-- ===== src/Payment/Transaction/Signed.antt =====
-- A signed transaction is read back.
use veil_vpn.Prelude.{ℕ, ◌^◌, ◌<◌, ◌≡◌, Option, none, some, List, [], ◌∷◌, length, ◌>>=◌}
use veil_vpn.Prelude.Bytes.{Bytes}
use veil_vpn.Payment.Transaction.{Eip1559Tx, rlp_encode_bytes, rlp_encode_uint}
use veil_vpn.Payment.Transaction.Prefix.{read_with, read_bytes, read_uint}

-- A transaction with its signature.
pub record SignedTx : Type 0 where
  pub tx : Eip1559Tx
  pub y_parity : ℕ
  pub r : Bytes
  pub s : Bytes

-- The fields in their order, with a list of accesses that is skipped, and nothing behind them.
unfoldable pub read_fields : Bytes → Option SignedTx
read_fields b0 = do
  (chain_id, b1) ← read_uint b0
  (nonce, b2) ← read_uint b1
  (priority, b3) ← read_uint b2
  (max_fee, b4) ← read_uint b3
  (gas_limit, b5) ← read_uint b4
  (to, b6) ← read_bytes b5
  (value, b7) ← read_uint b6
  (payload, b8) ← read_bytes b7
  (accesses, b9) ← read_with 0xc0 0xf7 b8
  (y_parity, b10) ← read_uint b9
  (r, b11) ← read_bytes b10
  (s, b12) ← read_bytes b11
  some (record {
    tx = record {
      chain_id = chain_id;
      nonce = nonce;
      max_priority_fee_per_gas = priority;
      max_fee_per_gas = max_fee;
      gas_limit = gas_limit;
      to = to;
      value = value;
      payload = payload;
    };
    y_parity = y_parity;
    r = r;
    s = s;
  })

-- A transaction of type 2, as the network reads it.
unfoldable pub read_tx : Bytes → Option SignedTx
unfolding read_fields
read_tx [] = none
read_tx (type ∷ bytes) = do (fields, rest) ← read_with 0xc0 0xf7 bytes; read_fields fields

-- The fields fit their words, and the whole fits the longest prefix.
pub record Fits (tx : Eip1559Tx) : Type 0 where
  pub chain_id : tx.chain_id < 2 ^ 64
  pub nonce : tx.nonce < 2 ^ 64
  pub priority : tx.max_priority_fee_per_gas < 2 ^ 128
  pub max_fee : tx.max_fee_per_gas < 2 ^ 128
  pub gas_limit : tx.gas_limit < 2 ^ 64
  pub to : length tx.to ≡ 20
  pub value : tx.value < 2 ^ 128
  pub payload : length tx.payload < 2 ^ 32

module _ (tx : Eip1559Tx) (w : Fits tx) (y_parity : ℕ) (r s : Bytes) where
  signature : List Bytes
  signature = rlp_encode_uint y_parity ∷ (rlp_encode_bytes r ∷ (rlp_encode_bytes s ∷ []))
