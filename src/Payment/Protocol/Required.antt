-- ===== src/Payment/Protocol/Required.antt =====
-- payment/protocol.rs, `PaymentRequired`: its bytes, and that decoding gives them back.
use veil_vpn.Prelude.{
  ◌^◌, ◌<◌, ◌≡◌, Option, some, [], ◌∷◌, ◌++◌, arith, length, length-append, ◌>>=◌,
}
use veil_vpn.Prelude.Bytes.{Bytes, slice, to_be_bytes, from_be_bytes, length-to_be_bytes}
use veil_vpn.Payment.Protocol.{PaymentRequired, msg_payment_required, framed, payload_of}
use veil_vpn.Payment.Protocol.Fields.{field, last_field, word, payload_of-framed}

unfoldable pub encode : PaymentRequired → Bytes
unfolding framed
encode m = framed msg_payment_required 96 (
    to_be_bytes 8 m.amount_usdc
    ++ (m.nonce
        ++ (m.recipient
            ++ (to_be_bytes 8 m.deadline ++ (to_be_bytes 8 m.chain_id ++ m.usdc_contract)))))

unfoldable pub read : Bytes → PaymentRequired
read p = record {
  amount_usdc = from_be_bytes (slice 0 8 p);
  nonce = slice 8 40 p;
  recipient = slice 40 60 p;
  deadline = from_be_bytes (slice 60 68 p);
  chain_id = from_be_bytes (slice 68 76 p);
  usdc_contract = slice 76 96 p;
}

unfoldable pub decode : Bytes → Option PaymentRequired
unfolding payload_of
decode bytes = do p ← payload_of msg_payment_required 96 bytes; some (read p)

-- The fields as the wire holds them.
pub record IsWire (m : PaymentRequired) : Type 0 where
  pub amount_usdc_word : m.amount_usdc < 2 ^ 64
  pub deadline_word : m.deadline < 2 ^ 64
  pub chain_id_word : m.chain_id < 2 ^ 64
  pub nonce_length : length m.nonce ≡ 32
  pub recipient_length : length m.recipient ≡ 20
  pub usdc_contract_length : length m.usdc_contract ≡ 20

module _ (m : PaymentRequired) (w : IsWire m) where
  body : Bytes
  body =
      to_be_bytes 8 m.amount_usdc
      ++ (m.nonce
          ++ (m.recipient
              ++ (to_be_bytes 8 m.deadline ++ (to_be_bytes 8 m.chain_id ++ m.usdc_contract))))

  read-amount_usdc : from_be_bytes (slice 0 8 body) ≡ m.amount_usdc
  unfolding body
  read-amount_usdc = word [] m.amount_usdc _ 0 8 w.amount_usdc_word (omega arith) (omega arith)

  read-nonce : slice 8 40 body ≡ m.nonce
  unfolding body
  read-nonce =
      field (to_be_bytes 8 m.amount_usdc ∷ []) m.nonce _ 8 40
        (omega (arith, length-to_be_bytes 8 m.amount_usdc)) (omega (arith, w.nonce_length))

  read-recipient : slice 40 60 body ≡ m.recipient
  unfolding body
  read-recipient =
      field (to_be_bytes 8 m.amount_usdc ∷ m.nonce ∷ []) m.recipient _ 40 60
        (omega (arith, length-to_be_bytes 8 m.amount_usdc, w.nonce_length))
        (omega (arith, w.recipient_length))

  read-deadline : from_be_bytes (slice 60 68 body) ≡ m.deadline
  unfolding body
  read-deadline =
      word (to_be_bytes 8 m.amount_usdc ∷ m.nonce ∷ m.recipient ∷ []) m.deadline _ 60 68
        w.deadline_word
        (omega (arith, length-to_be_bytes 8 m.amount_usdc, w.nonce_length, w.recipient_length))
        (omega arith)

  read-chain_id : from_be_bytes (slice 68 76 body) ≡ m.chain_id
  unfolding body
  read-chain_id =
      word (to_be_bytes 8 m.amount_usdc ∷ m.nonce ∷ m.recipient ∷ to_be_bytes 8 m.deadline ∷ [])
        m.chain_id _ 68 76 w.chain_id_word
        (omega (
          arith,
          length-to_be_bytes 8 m.amount_usdc,
          w.nonce_length,
          w.recipient_length,
          length-to_be_bytes 8 m.deadline,
        ))
        (omega arith)

  read-usdc_contract : slice 76 96 body ≡ m.usdc_contract
  unfolding body
  read-usdc_contract =
      last_field
        (to_be_bytes 8 m.amount_usdc
          ∷ m.nonce
          ∷ m.recipient
          ∷ to_be_bytes 8 m.deadline
          ∷ to_be_bytes 8 m.chain_id
          ∷ [])
        m.usdc_contract 76 96
        (omega (
          arith,
          length-to_be_bytes 8 m.amount_usdc,
          w.nonce_length,
          w.recipient_length,
          length-to_be_bytes 8 m.deadline,
          length-to_be_bytes 8 m.chain_id,
        ))
        (omega (arith, w.usdc_contract_length))

  length-body : length body ≡ 96
  unfolding body
  length-body = omega (
    arith,
    length-append (to_be_bytes 8 m.amount_usdc) (
        m.nonce
        ++ (m.recipient
            ++ (to_be_bytes 8 m.deadline ++ (to_be_bytes 8 m.chain_id ++ m.usdc_contract)))),
    length-append (m.nonce) (
        m.recipient ++ (to_be_bytes 8 m.deadline ++ (to_be_bytes 8 m.chain_id ++ m.usdc_contract))),
    length-append (m.recipient)
        (to_be_bytes 8 m.deadline ++ (to_be_bytes 8 m.chain_id ++ m.usdc_contract)),
    length-append (to_be_bytes 8 m.deadline) (to_be_bytes 8 m.chain_id ++ m.usdc_contract),
    length-append (to_be_bytes 8 m.chain_id) (m.usdc_contract),
    length-to_be_bytes 8 m.amount_usdc,
    length-to_be_bytes 8 m.deadline,
    length-to_be_bytes 8 m.chain_id,
    w.nonce_length,
    w.recipient_length,
    w.usdc_contract_length,
  )

  -- Round trip: a request whose words fit 64 bits and whose byte fields have their lengths
  -- is decoded to itself.
  pub required-roundtrip : decode (encode m) ≡ some m
  unfolding decode encode read body
  required-roundtrip =
      rw (payload_of-framed msg_payment_required 96 96 body length-body (omega arith) (omega arith))
        (λ i. some (record {
          amount_usdc = read-amount_usdc i;
          nonce = read-nonce i;
          recipient = read-recipient i;
          deadline = read-deadline i;
          chain_id = read-chain_id i;
          usdc_contract = read-usdc_contract i;
        }))
