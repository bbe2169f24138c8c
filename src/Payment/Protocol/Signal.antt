-- ===== src/Payment/Protocol/Signal.antt =====
-- payment/protocol.rs: the packet around a message is recognised, and gives the message back.
use veil_vpn.Prelude.{
  ℕ, ◌+◌, ◌^◌, ◌≤◌, ◌<◌, ◌≡◌, refl, ap, ◌∙◌, ◌||◌, some, [], ◌∷◌, ◌++◌, arith, length,
  length-append, get_or,
}
use veil_vpn.Prelude.Bytes.{
  Bytes, slice, to_be_bytes, from_be_bytes, length-to_be_bytes, from_be_bytes-to_be_bytes, bytes_eq,
  to_le_bytes,
}
use veil_vpn.Payment.Protocol.{
  header_front, ip_checksum, build_signal_packet, is_payment_signal, extract_signal_payload,
  src_ipv4, dst_ipv4, payment_gateway_ip, payment_port,
}
use veil_vpn.Payment.Protocol.Fields.{field, last_field}

length-front : (n : ℕ) → length (header_front n) ≡ 10
unfolding header_front to_be_bytes to_le_bytes
length-front n = refl

module _ (src dst payload : Bytes) (four : length src ≡ 4) (four' : length dst ≡ 4) where
  udp_len : ℕ
  udp_len = 8 + length payload

  front : Bytes
  front = header_front (20 + udp_len)

  cksum : Bytes
  cksum = to_be_bytes 2 (ip_checksum (front ++ (0 ∷ 0 ∷ (src ++ dst))))

  port : Bytes
  port = to_be_bytes 2 payment_port

  udp_tail : Bytes
  udp_tail = port ++ (port ++ (to_be_bytes 2 udp_len ++ (0 ∷ 0 ∷ payload)))

  packet : Bytes
  packet = front ++ (cksum ++ (src ++ (dst ++ udp_tail)))

  length-cksum : length cksum ≡ 2
  unfolding cksum
  length-cksum = length-to_be_bytes 2 (ip_checksum (front ++ (0 ∷ 0 ∷ (src ++ dst))))

  length-port : length port ≡ 2
  unfolding port
  length-port = length-to_be_bytes 2 payment_port

  length-front_here : length front ≡ 10
  unfolding front
  length-front_here = length-front (20 + udp_len)

  length-packet : length packet ≡ 28 + length payload
  unfolding packet udp_tail udp_len
  length-packet = omega (
    arith,
    length-append front (cksum ++ (src ++ (dst ++ udp_tail))),
    length-append cksum (src ++ (dst ++ udp_tail)),
    length-append src (dst ++ udp_tail),
    length-append dst udp_tail,
    length-append port (port ++ (to_be_bytes 2 udp_len ++ (0 ∷ 0 ∷ payload))),
    length-append port (to_be_bytes 2 udp_len ++ (0 ∷ 0 ∷ payload)),
    length-append (to_be_bytes 2 udp_len) (0 ∷ 0 ∷ payload),
    length-to_be_bytes 2 udp_len,
    length-cksum,
    length-port,
    length-front_here,
    four,
    four',
  )

  first_byte : get_or packet 0 0 ≡ 0x45
  unfolding packet front header_front
  first_byte = refl

  protocol_byte : get_or packet 9 0 ≡ 17
  unfolding packet front header_front to_be_bytes to_le_bytes
  protocol_byte = refl

  source : slice 12 16 packet ≡ src
  unfolding packet
  source =
      field (front ∷ cksum ∷ []) src (dst ++ udp_tail) 12 16
        (omega (arith, length-front_here, length-cksum)) (omega (arith, four))

  destination : slice 16 20 packet ≡ dst
  unfolding packet
  destination =
      field (front ∷ cksum ∷ src ∷ []) dst udp_tail 16 20
        (omega (arith, length-front_here, length-cksum, four)) (omega (arith, four'))

  udp_length : udp_len < 2 ^ 16 → from_be_bytes (slice 24 26 packet) ≡ udp_len
  unfolding packet udp_tail
  udp_length small =
      ap from_be_bytes (
        field (front ∷ cksum ∷ src ∷ dst ∷ port ∷ port ∷ []) (to_be_bytes 2 udp_len)
          (0 ∷ 0 ∷ payload) 24 26
          (omega (arith, length-front_here, length-cksum, length-port, four, four'))
          (omega (arith, length-to_be_bytes 2 udp_len)))
      ∙ from_be_bytes-to_be_bytes 2 udp_len small

  contents : slice 28 (20 + udp_len) packet ≡ payload
  unfolding packet udp_tail udp_len
  contents =
      last_field
        (front ∷ cksum ∷ src ∷ dst ∷ port ∷ port ∷ to_be_bytes 2 udp_len ∷ (0 ∷ 0 ∷ []) ∷ [])
        payload 28 (20 + udp_len)
        (omega (
          arith,
          length-front_here,
          length-cksum,
          length-port,
          four,
          four',
          length-to_be_bytes 2 udp_len,
        ))
        (omega arith)

  builds : 28 + length payload ≤ 65535 → build_signal_packet src dst payload ≡ some packet
  unfolding build_signal_packet packet udp_tail udp_len front cksum port
  builds room = ground arith

  extracts : 28 + length payload ≤ 65535 → extract_signal_payload packet ≡ some payload
  unfolding extract_signal_payload
  extracts room =
      let small : from_be_bytes (slice 24 26 packet) ≡ 8 + length payload =
        unfold udp_len in udp_length (omega arith) in
      let inside : slice 28 (20 + (8 + length payload)) packet ≡ payload =
        unfold udp_len in contents in
      rw (first_byte, protocol_byte, small) (ground (arith, length-packet, inside))

  -- The packet is built, 28 bytes longer than its payload.
  pub build_signal_packet-length :
      28 + length payload ≤ 65535
      → (p : Bytes) × (build_signal_packet src dst payload ≡ some p)
        × (length p ≡ 28 + length payload)
  build_signal_packet-length room = (packet, builds room, length-packet)

  -- A packet between two addresses carries its payload: as long as it fits 65535 bytes it is built,
  -- the payload and both addresses are read back from it, and it counts as a payment signal exactly
  -- when one of the addresses is the gateway's.
  pub signal-roundtrip :
      28 + length payload ≤ 65535
      → (p : Bytes) × (build_signal_packet src dst payload ≡ some p)
        × (extract_signal_payload p ≡ some payload)
        × (src_ipv4 p ≡ some src)
        × (dst_ipv4 p ≡ some dst)
        × (is_payment_signal p
            ≡ (bytes_eq src payment_gateway_ip || bytes_eq dst payment_gateway_ip))
  signal-roundtrip room =
      (packet, builds room, extracts room, reads_source, reads_destination, recognised)
    where
      reads_source : src_ipv4 packet ≡ some src
      reads_source = unfold src_ipv4 in ground (arith, length-packet, source)

      reads_destination : dst_ipv4 packet ≡ some dst
      reads_destination = unfold dst_ipv4 in ground (arith, length-packet, destination)

      recognised :
          is_payment_signal packet
          ≡ (bytes_eq src payment_gateway_ip || bytes_eq dst payment_gateway_ip)
      recognised =
          unfold is_payment_signal in
          rw (first_byte, source, destination) (ground (arith, length-packet))
