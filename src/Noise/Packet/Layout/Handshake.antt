-- ===== src/Noise/Packet/Layout/Handshake.antt =====
-- The two handshake messages, laid out as the source writes them, are parsed back.
use veil_vpn.Prelude.{ℕ, ◌+◌, ◌^◌, ◌<◌, ◌≡◌, ap, ◌∙◌, ◌++◌, arith, length, length-append}
use veil_vpn.Prelude.Bytes.{Bytes, slice, slice-skip, slice-head, to_le_bytes, from_le_bytes}
use veil_vpn.Noise.Errors.{ok}
use veil_vpn.Noise.Packet.{
  handshake_init, handshake_response, read_init, read_response, parse_incoming_packet,
  handshake_init_type, handshake_resp_type,
}
use veil_vpn.Noise.Packet.Layout.{
  parse-as_init, parse-as_response, word_first, length-word, skip_word,
}

-- Handshake initiation: type, sender, ephemeral, static, timestamp, mac1, mac2.
abbrev pub init_layout : ℕ → Bytes → Bytes → Bytes → Bytes → Bytes
init_layout idx eph st ts macs =
    to_le_bytes 4 handshake_init_type ++ (to_le_bytes 4 idx ++ (eph ++ (st ++ (ts ++ macs))))

-- Handshake response: type, sender, receiver, ephemeral, nothing, mac1, mac2.
abbrev pub response_layout : ℕ → ℕ → Bytes → Bytes → Bytes → Bytes
response_layout idx peer eph nothing macs =
    to_le_bytes 4 handshake_resp_type
    ++ (to_le_bytes 4 idx ++ (to_le_bytes 4 peer ++ (eph ++ (nothing ++ macs))))

module _ (idx : ℕ) (eph st ts macs : Bytes) where
  pub parse-init_layout :
      idx < 2 ^ 32
      → length eph ≡ 32
      → length st ≡ 48
      → length ts ≡ 28
      → length macs ≡ 32
      → parse_incoming_packet (init_layout idx eph st ts macs)
        ≡ ok (
            handshake_init (record {
              sender_idx = idx;
              unencrypted_ephemeral = eph;
              encrypted_static = st;
              encrypted_timestamp = ts;
            }))
  unfolding read_init
  parse-init_layout i e s t m =
      parse-as_init (init_layout idx eph st ts macs) (word_first 4 1 _ (omega arith)) sized ∙ λ k.
      ok (
        handshake_init (record {
          sender_idx = to_idx k;
          unencrypted_ephemeral = to_eph k;
          encrypted_static = to_st k;
          encrypted_timestamp = to_ts k;
        }))
    where
      rest : Bytes
      rest = st ++ (ts ++ macs)

      sized : length (init_layout idx eph st ts macs) ≡ 148
      sized = omega (
        arith,
        length-word 4 1 (to_le_bytes 4 idx ++ (eph ++ rest)),
        length-word 4 idx (eph ++ rest),
        length-append eph rest,
        length-append st (ts ++ macs),
        length-append ts macs,
        e,
        s,
        t,
        m,
      )

      to_idx : from_le_bytes (slice 4 8 (init_layout idx eph st ts macs)) ≡ idx
      to_idx =
          ap from_le_bytes (skip_word 4 1 0 4 (to_le_bytes 4 idx ++ (eph ++ rest)))
          ∙ word_first 4 idx (eph ++ rest) i

      to_eph : slice 8 40 (init_layout idx eph st ts macs) ≡ eph
      to_eph =
          skip_word 4 1 4 36 (to_le_bytes 4 idx ++ (eph ++ rest))
          ∙ skip_word 4 idx 0 32 (eph ++ rest)
          ∙ slice-head eph rest 32 e

      to_st : slice 40 88 (init_layout idx eph st ts macs) ≡ st
      to_st =
          skip_word 4 1 36 84 (to_le_bytes 4 idx ++ (eph ++ rest))
          ∙ skip_word 4 idx 32 80 (eph ++ rest)
          ∙ slice-skip eph rest 32 0 48 e
          ∙ slice-head st (ts ++ macs) 48 s

      to_ts : slice 88 116 (init_layout idx eph st ts macs) ≡ ts
      to_ts =
          skip_word 4 1 84 112 (to_le_bytes 4 idx ++ (eph ++ rest))
          ∙ skip_word 4 idx 80 108 (eph ++ rest)
          ∙ slice-skip eph rest 32 48 76 e
          ∙ slice-skip st (ts ++ macs) 48 0 28 s
          ∙ slice-head ts macs 28 t

module _ (idx peer : ℕ) (eph nothing macs : Bytes) where
  pub parse-response_layout :
      idx < 2 ^ 32
      → peer < 2 ^ 32
      → length eph ≡ 32
      → length nothing ≡ 16
      → length macs ≡ 32
      → parse_incoming_packet (response_layout idx peer eph nothing macs)
        ≡ ok (
            handshake_response (record {
              sender_idx = idx;
              receiver_idx = peer;
              unencrypted_ephemeral = eph;
              encrypted_nothing = nothing;
            }))
  unfolding read_response
  parse-response_layout i p e n m =
      parse-as_response (response_layout idx peer eph nothing macs) (word_first 4 2 _ (omega arith))
        sized
      ∙ λ k. ok (
          handshake_response (record {
            sender_idx = to_idx k;
            receiver_idx = to_peer k;
            unencrypted_ephemeral = to_eph k;
            encrypted_nothing = to_nothing k;
          }))
    where
      rest : Bytes
      rest = eph ++ (nothing ++ macs)

      sized : length (response_layout idx peer eph nothing macs) ≡ 92
      sized = omega (
        arith,
        length-word 4 2 (to_le_bytes 4 idx ++ (to_le_bytes 4 peer ++ rest)),
        length-word 4 idx (to_le_bytes 4 peer ++ rest),
        length-word 4 peer rest,
        length-append eph (nothing ++ macs),
        length-append nothing macs,
        e,
        n,
        m,
      )

      past_type :
          (a b : ℕ)
          → slice (4 + a) (4 + b) (response_layout idx peer eph nothing macs)
            ≡ slice a b (to_le_bytes 4 idx ++ (to_le_bytes 4 peer ++ rest))
      past_type a b = skip_word 4 2 a b (to_le_bytes 4 idx ++ (to_le_bytes 4 peer ++ rest))

      to_idx : from_le_bytes (slice 4 8 (response_layout idx peer eph nothing macs)) ≡ idx
      to_idx = ap from_le_bytes (past_type 0 4) ∙ word_first 4 idx (to_le_bytes 4 peer ++ rest) i

      to_peer : from_le_bytes (slice 8 12 (response_layout idx peer eph nothing macs)) ≡ peer
      to_peer =
          ap from_le_bytes (past_type 4 8 ∙ skip_word 4 idx 0 4 (to_le_bytes 4 peer ++ rest))
          ∙ word_first 4 peer rest p

      to_eph : slice 12 44 (response_layout idx peer eph nothing macs) ≡ eph
      to_eph =
          past_type 8 40
          ∙ skip_word 4 idx 4 36 (to_le_bytes 4 peer ++ rest)
          ∙ skip_word 4 peer 0 32 rest
          ∙ slice-head eph (nothing ++ macs) 32 e

      to_nothing : slice 44 60 (response_layout idx peer eph nothing macs) ≡ nothing
      to_nothing =
          past_type 40 56
          ∙ skip_word 4 idx 36 52 (to_le_bytes 4 peer ++ rest)
          ∙ skip_word 4 peer 32 48 rest
          ∙ slice-skip eph (nothing ++ macs) 32 0 16 e
          ∙ slice-head nothing macs 16 n
