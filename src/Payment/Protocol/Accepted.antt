-- ===== src/Payment/Protocol/Accepted.antt =====
-- payment/protocol.rs, `PaymentAccepted`: its bytes, and that decoding gives them back.
use veil_vpn.Prelude.{◌^◌, ◌<◌, ◌≡◌, ap, ◌∙◌, Option, some, arith, ◌>>=◌}
use veil_vpn.Prelude.Bytes.{
  Bytes, slice, to_be_bytes, from_be_bytes, length-to_be_bytes, from_be_bytes-to_be_bytes, take_all,
}
use veil_vpn.Payment.Protocol.{PaymentAccepted, msg_payment_accepted, framed, payload_of}
use veil_vpn.Payment.Protocol.Fields.{payload_of-framed}

unfoldable pub encode : PaymentAccepted → Bytes
unfolding framed
encode m = framed msg_payment_accepted 8 (to_be_bytes 8 m.new_quota_bytes)

unfoldable pub decode : Bytes → Option PaymentAccepted
unfolding payload_of
decode bytes = do
  p ← payload_of msg_payment_accepted 8 bytes
  some (record { new_quota_bytes = from_be_bytes (slice 0 8 p) })

-- Round trip: an acceptance of a 64-bit quota is decoded to itself.
accepted-roundtrip : (m : PaymentAccepted) → m.new_quota_bytes < 2 ^ 64 → decode (encode m) ≡ some m
unfolding decode encode
accepted-roundtrip m w =
    rw
      (payload_of-framed msg_payment_accepted 8 8 (to_be_bytes 8 m.new_quota_bytes)
        (length-to_be_bytes 8 m.new_quota_bytes) (omega arith) (omega arith))
      (ap (λ k. some (record { new_quota_bytes = k }))
        (ap from_be_bytes
            (take_all (to_be_bytes 8 m.new_quota_bytes) 8 (length-to_be_bytes 8 m.new_quota_bytes))
          ∙ from_be_bytes-to_be_bytes 8 m.new_quota_bytes w))
