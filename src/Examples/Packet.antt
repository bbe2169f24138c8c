-- ===== src/Examples/Packet.antt =====
-- noise/mod.rs: packets as bytes, on concrete datagrams.
use veil_vpn.Prelude.{◌≡◌, refl, [], ◌∷◌, All, arith, replicate}
use veil_vpn.Prelude.Bytes.{Bytes, IsByte, from_le_bytes}
use veil_vpn.Noise.Errors.{ok, err, invalid_packet}
use veil_vpn.Noise.Packet.{Packet, packet_data, handshake_init, parse_incoming_packet, read_data}
use veil_vpn.Noise.Packet.Layout.Handshake.{init_layout, parse-init_layout}
use veil_vpn.Noise.Packet.Shape.{IsWellFormed, parse-IsWellFormed}

-- A keepalive: type 4, receiver 22, counter 5, a tag of 16 bytes.
abbrev keepalive : Bytes
keepalive = 4 ∷ 0 ∷ 0 ∷ 0 ∷ 22 ∷ 0 ∷ 0 ∷ 0 ∷ 5 ∷ 0 ∷ 0 ∷ 0 ∷ 0 ∷ 0 ∷ 0 ∷ 0 ∷ replicate 16 9

abbrev keepalive_packet : Packet
keepalive_packet =
    packet_data
      (record { receiver_idx = 22; counter = 5; encrypted_encapsulated_packet = replicate 16 9 })

keepalive_parsed : parse_incoming_packet keepalive ≡ ok keepalive_packet
unfolding parse_incoming_packet read_data from_le_bytes
keepalive_parsed = refl

keepalive-All : All IsByte keepalive
keepalive-All = ground arith

parse-IsWellFormed_example : IsWellFormed keepalive_packet
parse-IsWellFormed_example =
    parse-IsWellFormed keepalive keepalive-All keepalive_packet keepalive_parsed

abbrev short : Bytes
short = 4 ∷ 0 ∷ 0 ∷ 0 ∷ 22 ∷ []

short_refused : parse_incoming_packet short ≡ err invalid_packet
unfolding parse_incoming_packet from_le_bytes
short_refused = refl

parse-init_layout_example :
    parse_incoming_packet
      (init_layout 7 (replicate 32 1) (replicate 48 2) (replicate 28 3) (replicate 32 4))
    ≡ ok (
        handshake_init (record {
          sender_idx = 7;
          unencrypted_ephemeral = replicate 32 1;
          encrypted_static = replicate 48 2;
          encrypted_timestamp = replicate 28 3;
        }))
parse-init_layout_example =
    parse-init_layout 7 (replicate 32 1) (replicate 48 2) (replicate 28 3) (replicate 32 4)
      (omega arith) refl refl refl refl
