-- ===== src/Noise/Packet/Layout.antt =====
-- Each message, laid out field by field as the source writes it, is parsed back into its fields.
pub mod Handshake
use veil_vpn.Prelude.{
  ℕ, ◌+◌, ◌-◌, ◌^◌, ◌≤◌, ◌<◌, ◌≡◌, ap, ◌∙◌, ◌++◌, arith, length, length-append, take, drop,
}
use veil_vpn.Prelude.Bytes.{
  Bytes, slice, slice-skip, slice-head, to_le_bytes, from_le_bytes, length-to_le_bytes,
  from_le_bytes-to_le_bytes, take_all, drop-append,
}
use veil_vpn.Noise.Errors.{ok}
use veil_vpn.Noise.Packet.{
  handshake_init, handshake_response, packet_cookie_reply, packet_data, read_init, read_response,
  read_cookie_reply, read_data, parse_incoming_packet, handshake_init_type, handshake_resp_type,
  cookie_reply_type, data_type,
}

abbrev pub type_of : Bytes → ℕ
type_of src = from_le_bytes (slice 0 4 src)

pub parse-as_init :
    (src : Bytes)
    → type_of src ≡ 1
    → length src ≡ 148
    → parse_incoming_packet src ≡ ok (handshake_init (read_init src))
unfolding parse_incoming_packet
parse-as_init src t l = ground arith

pub parse-as_response :
    (src : Bytes)
    → type_of src ≡ 2
    → length src ≡ 92
    → parse_incoming_packet src ≡ ok (handshake_response (read_response src))
unfolding parse_incoming_packet
parse-as_response src t l = ground arith

parse-as_cookie_reply :
    (src : Bytes)
    → type_of src ≡ 3
    → length src ≡ 64
    → parse_incoming_packet src ≡ ok (packet_cookie_reply (read_cookie_reply src))
unfolding parse_incoming_packet
parse-as_cookie_reply src t l = ground arith

parse-as_data :
    (src : Bytes)
    → type_of src ≡ 4
    → 32 ≤ length src
    → parse_incoming_packet src ≡ ok (packet_data (read_data src))
unfolding parse_incoming_packet
parse-as_data src t l = ground arith

-- The word in front of a message, and the length of a message behind one.
pub word_first :
    (k n : ℕ) (rest : Bytes) → n < 256 ^ k → from_le_bytes (slice 0 k (to_le_bytes k n ++ rest)) ≡ n
word_first k n rest h =
    ap from_le_bytes (slice-head (to_le_bytes k n) rest k (length-to_le_bytes k n))
    ∙ from_le_bytes-to_le_bytes k n h

pub length-word : (k n : ℕ) (rest : Bytes) → length (to_le_bytes k n ++ rest) ≡ k + length rest
length-word k n rest = omega (arith, length-append (to_le_bytes k n) rest, length-to_le_bytes k n)

pub skip_word :
    (k n a b : ℕ) (rest : Bytes) → slice (k + a) (k + b) (to_le_bytes k n ++ rest) ≡ slice a b rest
skip_word k n a b rest = slice-skip (to_le_bytes k n) rest k a b (length-to_le_bytes k n)

-- `WireGuard data`: type, receiver, counter, ciphertext with its tag.
abbrev pub data_layout : ℕ → ℕ → Bytes → Bytes
data_layout idx counter ct =
    to_le_bytes 4 data_type ++ (to_le_bytes 4 idx ++ (to_le_bytes 8 counter ++ ct))

module _ (idx counter : ℕ) (ct : Bytes) where
  length-data_layout : length (data_layout idx counter ct) ≡ 16 + length ct
  length-data_layout = omega (
    arith,
    length-word 4 4 (to_le_bytes 4 idx ++ (to_le_bytes 8 counter ++ ct)),
    length-word 4 idx (to_le_bytes 8 counter ++ ct),
    length-word 8 counter ct,
  )

  pub parse-data_layout :
      idx < 2 ^ 32
      → counter < 2 ^ 64
      → 16 ≤ length ct
      → parse_incoming_packet (data_layout idx counter ct)
        ≡ ok (
            packet_data (record {
              receiver_idx = idx;
              counter = counter;
              encrypted_encapsulated_packet = ct;
            }))
  unfolding read_data
  parse-data_layout i c l =
      parse-as_data (data_layout idx counter ct) (word_first 4 4 _ (omega arith))
        (omega (arith, length-data_layout))
      ∙ λ k. ok (
          packet_data (record {
            receiver_idx = to_idx k;
            counter = to_counter k;
            encrypted_encapsulated_packet = to_ct k;
          }))
    where
      to_idx : from_le_bytes (slice 4 8 (data_layout idx counter ct)) ≡ idx
      to_idx = ap from_le_bytes (skip_word 4 4 0 4 _) ∙ word_first 4 idx _ i

      to_counter : from_le_bytes (slice 8 16 (data_layout idx counter ct)) ≡ counter
      to_counter =
          ap from_le_bytes (skip_word 4 4 4 12 _ ∙ skip_word 4 idx 0 8 _) ∙ word_first 8 counter _ c

      behind : drop 16 (data_layout idx counter ct) ≡ ct
      behind =
          drop-append (to_le_bytes 4 4) (to_le_bytes 4 idx ++ (to_le_bytes 8 counter ++ ct)) 4 12
            (length-to_le_bytes 4 4)
          ∙ drop-append (to_le_bytes 4 idx) (to_le_bytes 8 counter ++ ct) 4 8
              (length-to_le_bytes 4 idx)
          ∙ drop-append (to_le_bytes 8 counter) ct 8 0 (length-to_le_bytes 8 counter)

      to_ct : slice 16 (length (data_layout idx counter ct)) (data_layout idx counter ct) ≡ ct
      to_ct =
          ap (take (length (data_layout idx counter ct) - 16)) behind
          ∙ take_all ct (length (data_layout idx counter ct) - 16)
              (omega (arith, length-data_layout))

-- Cookie reply: type, receiver, nonce, cookie.
abbrev pub cookie_layout : ℕ → Bytes → Bytes → Bytes
cookie_layout idx nonce cookie =
    to_le_bytes 4 cookie_reply_type ++ (to_le_bytes 4 idx ++ (nonce ++ cookie))

module _ (idx : ℕ) (nonce cookie : Bytes) where
  pub parse-cookie_layout :
      idx < 2 ^ 32
      → length nonce ≡ 24
      → length cookie ≡ 32
      → parse_incoming_packet (cookie_layout idx nonce cookie)
        ≡ ok (
            packet_cookie_reply
              (record { receiver_idx = idx; nonce = nonce; encrypted_cookie = cookie }))
  unfolding read_cookie_reply
  parse-cookie_layout i n c =
      parse-as_cookie_reply (cookie_layout idx nonce cookie) (word_first 4 3 _ (omega arith)) sized
      ∙ λ k. ok (
          packet_cookie_reply (record {
            receiver_idx = to_idx k;
            nonce = to_nonce k;
            encrypted_cookie = to_cookie k;
          }))
    where
      past_type :
          (a b : ℕ)
          → slice (4 + a) (4 + b) (cookie_layout idx nonce cookie)
            ≡ slice a b (to_le_bytes 4 idx ++ (nonce ++ cookie))
      past_type a b = skip_word 4 3 a b (to_le_bytes 4 idx ++ (nonce ++ cookie))

      sized : length (cookie_layout idx nonce cookie) ≡ 64
      sized = omega (
        arith,
        length-word 4 3 (to_le_bytes 4 idx ++ (nonce ++ cookie)),
        length-word 4 idx (nonce ++ cookie),
        length-append nonce cookie,
        n,
        c,
      )

      to_idx : from_le_bytes (slice 4 8 (cookie_layout idx nonce cookie)) ≡ idx
      to_idx = ap from_le_bytes (past_type 0 4) ∙ word_first 4 idx (nonce ++ cookie) i

      to_nonce : slice 8 32 (cookie_layout idx nonce cookie) ≡ nonce
      to_nonce =
          past_type 4 28 ∙ skip_word 4 idx 0 24 (nonce ++ cookie) ∙ slice-head nonce cookie 24 n

      to_cookie : slice 32 64 (cookie_layout idx nonce cookie) ≡ cookie
      to_cookie =
          past_type 28 60
          ∙ skip_word 4 idx 24 56 (nonce ++ cookie)
          ∙ slice-skip nonce cookie 24 0 32 n
          ∙ take_all cookie 32 c
