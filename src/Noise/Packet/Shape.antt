-- ===== src/Noise/Packet/Shape.antt =====
-- What `parse_incoming_packet` guarantees of whatever it accepts: every slice that the handlers
-- convert to an array has the array's length, and every index and counter is a machine word.
use mathlib.Core.Path.{subst}
use veil_vpn.Prelude.{
  ◌^◌, ◌≤◌, ◌<◌, ◌≡◌, refl, inl, inr, ◌&&◌, arith, length, All, Bool-cases, ltb, leb, ◌==◌,
}
use veil_vpn.Prelude.Bytes.{Bytes, IsByte, slice, length-slice, from_le_bytes, from_le_bytes-slice}
use veil_vpn.Noise.Errors.{Result, ok, err, invalid_packet, WireGuardError}
use veil_vpn.Noise.Packet.{
  Packet, handshake_init, handshake_response, packet_cookie_reply, packet_data, read_init,
  read_response, read_cookie_reply, read_data, parse_incoming_packet,
}

abbrev pub IsWellFormed : Packet → Type 0
IsWellFormed (handshake_init p) =
    (p.sender_idx < 2 ^ 32)
    × (length p.unencrypted_ephemeral ≡ 32)
    × (length p.encrypted_static ≡ 48)
    × (length p.encrypted_timestamp ≡ 28)
IsWellFormed (handshake_response p) =
    (p.sender_idx < 2 ^ 32)
    × (p.receiver_idx < 2 ^ 32)
    × (length p.unencrypted_ephemeral ≡ 32)
    × (length p.encrypted_nothing ≡ 16)
IsWellFormed (packet_cookie_reply p) =
    (p.receiver_idx < 2 ^ 32) × (length p.nonce ≡ 24) × (length p.encrypted_cookie ≡ 32)
IsWellFormed (packet_data p) =
    (p.receiver_idx < 2 ^ 32) × (p.counter < 2 ^ 64) × (16 ≤ length p.encrypted_encapsulated_packet)

abbrev Parsed : Result Packet → Type 0
Parsed (ok p) = IsWellFormed p
Parsed (err e) = e ≡ invalid_packet

module _ (src : Bytes) (bytes : All IsByte src) where
  init-Parsed : length src ≡ 148 → IsWellFormed (handshake_init (read_init src))
  unfolding read_init
  init-Parsed h = (
    from_le_bytes-slice 4 8 4 src bytes refl (omega arith),
    length-slice 8 40 src (omega arith) (omega arith),
    length-slice 40 88 src (omega arith) (omega arith),
    length-slice 88 116 src (omega arith) (omega arith),
  )

  response-Parsed : length src ≡ 92 → IsWellFormed (handshake_response (read_response src))
  unfolding read_response
  response-Parsed h = (
    from_le_bytes-slice 4 8 4 src bytes refl (omega arith),
    from_le_bytes-slice 8 12 4 src bytes refl (omega arith),
    length-slice 12 44 src (omega arith) (omega arith),
    length-slice 44 60 src (omega arith) (omega arith),
  )

  cookie-Parsed : length src ≡ 64 → IsWellFormed (packet_cookie_reply (read_cookie_reply src))
  unfolding read_cookie_reply
  cookie-Parsed h = (
    from_le_bytes-slice 4 8 4 src bytes refl (omega arith),
    length-slice 8 32 src (omega arith) (omega arith),
    length-slice 32 64 src (omega arith) (omega arith),
  )

  data-Parsed : 32 ≤ length src → IsWellFormed (packet_data (read_data src))
  unfolding read_data
  data-Parsed h = (
    from_le_bytes-slice 4 8 4 src bytes refl (omega arith),
    from_le_bytes-slice 8 16 8 src bytes refl (omega arith),
    omega (arith, length-slice 16 (length src) src (omega arith) (omega arith)),
  )

  parsed : Parsed (parse_incoming_packet src)
  unfolding parse_incoming_packet
  parsed = elim (Bool-cases (ltb (length src) 4)) [
    | inl a ↦ rw a refl
    | inr a ↦ elim (Bool-cases (from_le_bytes (slice 0 4 src) == 1 && length src == 148)) [
      | inl b ↦ rw (a, b) (init-Parsed (ground arith))
      | inr b ↦ elim (Bool-cases (from_le_bytes (slice 0 4 src) == 2 && length src == 92)) [
        | inl c ↦ rw (a, b, c) (response-Parsed (ground arith))
        | inr c ↦ elim (Bool-cases (from_le_bytes (slice 0 4 src) == 3 && length src == 64)) [
          | inl d ↦ rw (a, b, c, d) (cookie-Parsed (ground arith))
          | inr d ↦ elim (Bool-cases (from_le_bytes (slice 0 4 src) == 4 && leb 32 (length src))) [
            | inl e ↦ rw (a, b, c, d, e) (data-Parsed (ground arith))
            | inr e ↦ rw (a, b, c, d, e) refl
          ]
        ]
      ]
    ]
  ]

  -- A datagram that is accepted has well-formed fields.
  pub parse-IsWellFormed : (p : Packet) → parse_incoming_packet src ≡ ok p → IsWellFormed p
  parse-IsWellFormed p h = subst Parsed h parsed

  -- A datagram that is refused is an invalid packet, never another error.
  pub parse-invalid : (e : WireGuardError) → parse_incoming_packet src ≡ err e → e ≡ invalid_packet
  parse-invalid e h = subst Parsed h parsed
