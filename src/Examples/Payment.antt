-- ===== src/Examples/Payment.antt =====
-- payment/protocol.rs on the messages of the source's own tests.
use veil_vpn.Prelude.{◌++◌, ◌≡◌, ◌||◌, refl, some, [], ◌∷◌, arith, replicate}
use veil_vpn.Prelude.Bytes.{Bytes, bytes_eq, to_be_bytes}
use veil_vpn.Payment.Protocol.{
  PaymentRequired, PaymentSubmit, payment_gateway_ip, build_signal_packet, extract_signal_payload,
  src_ipv4, dst_ipv4, is_payment_signal, fold_carries, ip_checksum, sum_words,
}
use veil_vpn.Payment.Protocol.Required as Required
use veil_vpn.Payment.Protocol.Submit as Submit
use veil_vpn.Payment.Protocol.Checksum.{ip_checksum-valid}
use veil_vpn.Payment.Protocol.Signal.{signal-roundtrip}

abbrev request : PaymentRequired
request = record {
  amount_usdc = 10_000;
  nonce = replicate 32 7;
  recipient = replicate 20 0xaa;
  deadline = 1_000_000;
  chain_id = 84532;
  usdc_contract = replicate 20 0xbb;
}

request-IsWire : Required.IsWire request
request-IsWire = record {
  amount_usdc_word = omega arith;
  deadline_word = omega arith;
  chain_id_word = omega arith;
  nonce_length = refl;
  recipient_length = refl;
  usdc_contract_length = refl;
}

required-roundtrip_example : Required.decode (Required.encode request) ≡ some request
required-roundtrip_example = Required.required-roundtrip request request-IsWire

abbrev payment : PaymentSubmit
payment = record {
  from = replicate 20 1;
  to = replicate 20 2;
  value = 10_000;
  valid_after = 100;
  valid_before = 200;
  nonce = replicate 32 3;
  v = 28;
  r = replicate 32 4;
  s = replicate 32 5;
}

payment-IsWire : Submit.IsWire payment
payment-IsWire = record {
  value_word = omega arith;
  valid_after_word = omega arith;
  valid_before_word = omega arith;
  from_length = refl;
  to_length = refl;
  nonce_length = refl;
  r_length = refl;
  s_length = refl;
}

submit-roundtrip_example : Submit.decode (Submit.encode payment) ≡ some payment
submit-roundtrip_example = Submit.submit-roundtrip payment payment-IsWire

abbrev peer_ip : Bytes
peer_ip = 10 ∷ 0 ∷ 0 ∷ 2 ∷ []

signal-roundtrip_example :
    (p : Bytes) × (build_signal_packet payment_gateway_ip peer_ip (1 ∷ 0 ∷ 0 ∷ []) ≡ some p)
    × (extract_signal_payload p ≡ some (1 ∷ 0 ∷ 0 ∷ []))
    × (src_ipv4 p ≡ some payment_gateway_ip)
    × (dst_ipv4 p ≡ some peer_ip)
    × (is_payment_signal p
        ≡ (bytes_eq payment_gateway_ip payment_gateway_ip || bytes_eq peer_ip payment_gateway_ip))
signal-roundtrip_example =
    signal-roundtrip payment_gateway_ip peer_ip (1 ∷ 0 ∷ 0 ∷ []) refl refl (omega arith)

-- A header from a textbook, whose checksum is 0xb861.
textbook :
    ip_checksum (
      0x45 ∷ 0 ∷ 0 ∷ 0x73 ∷ 0 ∷ 0 ∷ 0x40 ∷ 0 ∷ 0x40 ∷ 0x11 ∷ 0 ∷ 0 ∷ 0xc0 ∷ 0xa8 ∷ 0 ∷ 1 ∷ 0xc0
      ∷ 0xa8 ∷ 0 ∷ 0xc7 ∷ [])
    ≡ 0xb861
unfolding ip_checksum fold_carries sum_words
textbook = refl

abbrev front : Bytes
front = 0x45 ∷ 0 ∷ 0 ∷ 0x73 ∷ 0 ∷ 0 ∷ 0x40 ∷ 0 ∷ 0x40 ∷ 0x11 ∷ []

abbrev back : Bytes
back = 0xc0 ∷ 0xa8 ∷ 0 ∷ 1 ∷ 0xc0 ∷ 0xa8 ∷ 0 ∷ 0xc7 ∷ []

ip_checksum-valid_example :
    ip_checksum (front ++ (to_be_bytes 2 (ip_checksum (front ++ (0 ∷ 0 ∷ back))) ++ back)) ≡ 0
ip_checksum-valid_example =
    ip_checksum-valid front back (ground arith) (ground arith) refl (omega arith)
