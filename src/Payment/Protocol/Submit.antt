-- ===== src/Payment/Protocol/Submit.antt =====
-- payment/protocol.rs, `PaymentSubmit`: its bytes, and that decoding gives them back.
use veil_vpn.Prelude.{
  ◌^◌, ◌<◌, ◌≡◌, ap, ◌∙◌, Option, some, [], ◌∷◌, ◌++◌, arith, length, length-append, get_or, ◌>>=◌,
}
use veil_vpn.Prelude.Bytes.{Bytes, slice, to_be_bytes, from_be_bytes, length-to_be_bytes}
use veil_vpn.Payment.Protocol.{PaymentSubmit, msg_payment_submit, framed, payload_of}
use veil_vpn.Payment.Protocol.Fields.{total, field, last_field, word, byte, payload_of-framed}

unfoldable pub encode : PaymentSubmit → Bytes
unfolding framed
encode m = framed msg_payment_submit 161 (
    m.from
    ++ (m.to
        ++ (to_be_bytes 8 m.value
            ++ (to_be_bytes 8 m.valid_after
                ++ (to_be_bytes 8 m.valid_before ++ (m.nonce ++ ((m.v ∷ []) ++ (m.r ++ m.s))))))))

unfoldable pub read : Bytes → PaymentSubmit
read p = record {
  from = slice 0 20 p;
  to = slice 20 40 p;
  value = from_be_bytes (slice 40 48 p);
  valid_after = from_be_bytes (slice 48 56 p);
  valid_before = from_be_bytes (slice 56 64 p);
  nonce = slice 64 96 p;
  v = get_or p 96 0;
  r = slice 97 129 p;
  s = slice 129 161 p;
}

unfoldable pub decode : Bytes → Option PaymentSubmit
unfolding payload_of
decode bytes = do p ← payload_of msg_payment_submit 161 bytes; some (read p)

-- The fields as the wire holds them.
pub record IsWire (m : PaymentSubmit) : Type 0 where
  pub value_word : m.value < 2 ^ 64
  pub valid_after_word : m.valid_after < 2 ^ 64
  pub valid_before_word : m.valid_before < 2 ^ 64
  pub from_length : length m.from ≡ 20
  pub to_length : length m.to ≡ 20
  pub nonce_length : length m.nonce ≡ 32
  pub r_length : length m.r ≡ 32
  pub s_length : length m.s ≡ 32

module _ (m : PaymentSubmit) (w : IsWire m) where
  body : Bytes
  body =
      m.from
      ++ (m.to
          ++ (to_be_bytes 8 m.value
              ++ (to_be_bytes 8 m.valid_after
                  ++ (to_be_bytes 8 m.valid_before ++ (m.nonce ++ ((m.v ∷ []) ++ (m.r ++ m.s)))))))

  read-from : slice 0 20 body ≡ m.from
  unfolding body
  read-from = field [] m.from _ 0 20 (omega arith) (omega (arith, w.from_length))

  read-to : slice 20 40 body ≡ m.to
  unfolding body
  read-to =
      field (m.from ∷ []) m.to _ 20 40 (omega (arith, w.from_length)) (omega (arith, w.to_length))

  read-value : from_be_bytes (slice 40 48 body) ≡ m.value
  unfolding body
  read-value =
      word (m.from ∷ m.to ∷ []) m.value _ 40 48 w.value_word
        (omega (arith, w.from_length, w.to_length)) (omega arith)

  read-valid_after : from_be_bytes (slice 48 56 body) ≡ m.valid_after
  unfolding body
  read-valid_after =
      word (m.from ∷ m.to ∷ to_be_bytes 8 m.value ∷ []) m.valid_after _ 48 56 w.valid_after_word
        (omega (arith, w.from_length, w.to_length, length-to_be_bytes 8 m.value)) (omega arith)

  read-valid_before : from_be_bytes (slice 56 64 body) ≡ m.valid_before
  unfolding body
  read-valid_before =
      word (m.from ∷ m.to ∷ to_be_bytes 8 m.value ∷ to_be_bytes 8 m.valid_after ∷ []) m.valid_before
        _ 56 64 w.valid_before_word
        (omega (
          arith,
          w.from_length,
          w.to_length,
          length-to_be_bytes 8 m.value,
          length-to_be_bytes 8 m.valid_after,
        ))
        (omega arith)

  read-nonce : slice 64 96 body ≡ m.nonce
  unfolding body
  read-nonce =
      field
        (m.from
          ∷ m.to
          ∷ to_be_bytes 8 m.value
          ∷ to_be_bytes 8 m.valid_after
          ∷ to_be_bytes 8 m.valid_before
          ∷ [])
        m.nonce ((m.v ∷ []) ++ (m.r ++ m.s)) 64 96
        (omega (
          arith,
          w.from_length,
          w.to_length,
          length-to_be_bytes 8 m.value,
          length-to_be_bytes 8 m.valid_after,
          length-to_be_bytes 8 m.valid_before,
        ))
        (omega (arith, w.nonce_length))

  read-v : get_or body 96 0 ≡ m.v
  unfolding body
  read-v =
      let at : 96
          ≡ total (
              m.from
              ∷ m.to
              ∷ to_be_bytes 8 m.value
              ∷ to_be_bytes 8 m.valid_after
              ∷ to_be_bytes 8 m.valid_before
              ∷ m.nonce
              ∷ []) =
        omega (
          arith,
          w.from_length,
          w.to_length,
          length-to_be_bytes 8 m.value,
          length-to_be_bytes 8 m.valid_after,
          length-to_be_bytes 8 m.valid_before,
          w.nonce_length,
        ) in
      ap (λ k. get_or body k 0) at
      ∙ byte
          (m.from
            ∷ m.to
            ∷ to_be_bytes 8 m.value
            ∷ to_be_bytes 8 m.valid_after
            ∷ to_be_bytes 8 m.valid_before
            ∷ m.nonce
            ∷ [])
          m.v (m.r ++ m.s)

  read-r : slice 97 129 body ≡ m.r
  unfolding body
  read-r =
      field
        (m.from
          ∷ m.to
          ∷ to_be_bytes 8 m.value
          ∷ to_be_bytes 8 m.valid_after
          ∷ to_be_bytes 8 m.valid_before
          ∷ m.nonce
          ∷ (m.v ∷ [])
          ∷ [])
        m.r (m.s) 97 129
        (omega (
          arith,
          w.from_length,
          w.to_length,
          length-to_be_bytes 8 m.value,
          length-to_be_bytes 8 m.valid_after,
          length-to_be_bytes 8 m.valid_before,
          w.nonce_length,
        ))
        (omega (arith, w.r_length))

  read-s : slice 129 161 body ≡ m.s
  unfolding body
  read-s =
      last_field
        (m.from
          ∷ m.to
          ∷ to_be_bytes 8 m.value
          ∷ to_be_bytes 8 m.valid_after
          ∷ to_be_bytes 8 m.valid_before
          ∷ m.nonce
          ∷ (m.v ∷ [])
          ∷ m.r
          ∷ [])
        m.s 129 161
        (omega (
          arith,
          w.from_length,
          w.to_length,
          length-to_be_bytes 8 m.value,
          length-to_be_bytes 8 m.valid_after,
          length-to_be_bytes 8 m.valid_before,
          w.nonce_length,
          w.r_length,
        ))
        (omega (arith, w.s_length))

  length-body : length body ≡ 161
  unfolding body
  length-body = omega (
    arith,
    length-append (m.from) (
        m.to
        ++ (to_be_bytes 8 m.value
            ++ (to_be_bytes 8 m.valid_after
                ++ (to_be_bytes 8 m.valid_before ++ (m.nonce ++ ((m.v ∷ []) ++ (m.r ++ m.s))))))),
    length-append (m.to) (
        to_be_bytes 8 m.value
        ++ (to_be_bytes 8 m.valid_after
            ++ (to_be_bytes 8 m.valid_before ++ (m.nonce ++ ((m.v ∷ []) ++ (m.r ++ m.s)))))),
    length-append (to_be_bytes 8 m.value) (
        to_be_bytes 8 m.valid_after
        ++ (to_be_bytes 8 m.valid_before ++ (m.nonce ++ ((m.v ∷ []) ++ (m.r ++ m.s))))),
    length-append (to_be_bytes 8 m.valid_after)
        (to_be_bytes 8 m.valid_before ++ (m.nonce ++ ((m.v ∷ []) ++ (m.r ++ m.s)))),
    length-append (to_be_bytes 8 m.valid_before) (m.nonce ++ ((m.v ∷ []) ++ (m.r ++ m.s))),
    length-append (m.nonce) ((m.v ∷ []) ++ (m.r ++ m.s)),
    length-append ((m.v ∷ [])) (m.r ++ m.s),
    length-append (m.r) (m.s),
    length-to_be_bytes 8 m.value,
    length-to_be_bytes 8 m.valid_after,
    length-to_be_bytes 8 m.valid_before,
    w.from_length,
    w.to_length,
    w.nonce_length,
    w.r_length,
    w.s_length,
  )

  pub length-encode : length (encode m) ≡ 164
  unfolding encode framed body
  length-encode =
      omega (arith, length-append (to_be_bytes 2 161) body, length-to_be_bytes 2 161, length-body)

  -- Round trip: a payment whose words fit 64 bits and whose byte fields have their lengths
  -- is decoded to itself.
  pub submit-roundtrip : decode (encode m) ≡ some m
  unfolding decode encode read body
  submit-roundtrip =
      rw (payload_of-framed msg_payment_submit 161 161 body length-body (omega arith) (omega arith))
        (λ i. some (record {
          from = read-from i;
          to = read-to i;
          value = read-value i;
          valid_after = read-valid_after i;
          valid_before = read-valid_before i;
          nonce = read-nonce i;
          v = read-v i;
          r = read-r i;
          s = read-s i;
        }))
