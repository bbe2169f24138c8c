-- ===== src/Noise/Packet.antt =====
-- noise/mod.rs: the messages on the wire, `Tunn::parse_incoming_packet`, `Tunn::dst_address` and
-- the header checks of `Tunn::validate_decapsulated_packet`. A byte is a number below 256.
pub mod Layout
pub mod Shape
use veil_vpn.Prelude.{
  ℕ, ◌+◌, ◌/◌, Bool, ◌&&◌, List, [], ◌∷◌, Option, none, some, ltb, leb, ◌==◌, if◌then◌else◌, length,
  get_or,
}
use veil_vpn.Prelude.Bytes.{Bytes, slice, from_le_bytes, from_be_bytes}
use veil_vpn.Noise.Errors.{Result, ok, err, invalid_packet}

abbrev pub handshake_init_type : ℕ
handshake_init_type = 1

abbrev pub handshake_resp_type : ℕ
handshake_resp_type = 2

abbrev pub cookie_reply_type : ℕ
cookie_reply_type = 3

abbrev pub data_type : ℕ
data_type = 4

abbrev pub handshake_init_sz : ℕ
handshake_init_sz = 148

abbrev pub handshake_resp_sz : ℕ
handshake_resp_sz = 92

abbrev pub cookie_reply_sz : ℕ
cookie_reply_sz = 64

abbrev pub data_overhead_sz : ℕ
data_overhead_sz = 32

pub record HandshakeInit : Type 0 where
  pub sender_idx : ℕ
  pub unencrypted_ephemeral : Bytes
  pub encrypted_static : Bytes
  pub encrypted_timestamp : Bytes

pub record HandshakeResponse : Type 0 where
  pub sender_idx : ℕ
  pub receiver_idx : ℕ
  pub unencrypted_ephemeral : Bytes
  pub encrypted_nothing : Bytes

pub record PacketCookieReply : Type 0 where
  pub receiver_idx : ℕ
  pub nonce : Bytes
  pub encrypted_cookie : Bytes

pub record PacketData : Type 0 where
  pub receiver_idx : ℕ
  pub counter : ℕ
  pub encrypted_encapsulated_packet : Bytes

pub data Packet : Type 0 where
  handshake_init : HandshakeInit → Packet
  handshake_response : HandshakeResponse → Packet
  packet_cookie_reply : PacketCookieReply → Packet
  packet_data : PacketData → Packet

-- The fields of each message, at their fixed offsets.
unfoldable pub read_init : Bytes → HandshakeInit
read_init src = record {
  sender_idx = from_le_bytes (slice 4 8 src);
  unencrypted_ephemeral = slice 8 40 src;
  encrypted_static = slice 40 88 src;
  encrypted_timestamp = slice 88 116 src;
}

unfoldable pub read_response : Bytes → HandshakeResponse
read_response src = record {
  sender_idx = from_le_bytes (slice 4 8 src);
  receiver_idx = from_le_bytes (slice 8 12 src);
  unencrypted_ephemeral = slice 12 44 src;
  encrypted_nothing = slice 44 60 src;
}

unfoldable pub read_cookie_reply : Bytes → PacketCookieReply
read_cookie_reply src = record {
  receiver_idx = from_le_bytes (slice 4 8 src);
  nonce = slice 8 32 src;
  encrypted_cookie = slice 32 64 src;
}

unfoldable pub read_data : Bytes → PacketData
read_data src = record {
  receiver_idx = from_le_bytes (slice 4 8 src);
  counter = from_le_bytes (slice 8 16 src);
  encrypted_encapsulated_packet = slice 16 (length src) src;
}

unfoldable pub parse_incoming_packet : Bytes → Result Packet
parse_incoming_packet src =
    let packet_type = from_le_bytes (slice 0 4 src) in
    if ltb (length src) 4
    then err invalid_packet
    else if packet_type == handshake_init_type && length src == handshake_init_sz
    then ok (handshake_init (read_init src))
    else if packet_type == handshake_resp_type && length src == handshake_resp_sz
    then ok (handshake_response (read_response src))
    else if packet_type == cookie_reply_type && length src == cookie_reply_sz
    then ok (packet_cookie_reply (read_cookie_reply src))
    else if packet_type == data_type && leb data_overhead_sz (length src)
    then ok (packet_data (read_data src))
    else err invalid_packet

pub data IpAddr : Type 0 where
  v4 v6 : Bytes → IpAddr

abbrev pub ipv4_min_header_size : ℕ
ipv4_min_header_size = 20

abbrev pub ipv6_min_header_size : ℕ
ipv6_min_header_size = 40

unfoldable pub dst_address : Bytes → Option IpAddr
dst_address packet =
    if length packet == 0
    then none
    else if get_or packet 0 0 / 16 == 4 && leb ipv4_min_header_size (length packet)
    then some (v4 (slice 16 20 packet))
    else if get_or packet 0 0 / 16 == 6 && leb ipv6_min_header_size (length packet)
    then some (v6 (slice 24 40 packet))
    else none

-- The length that the header states and the source address, `none` for an invalid packet.
unfoldable pub len_and_source : Bytes → Option (ℕ × IpAddr)
len_and_source packet =
    if get_or packet 0 0 / 16 == 4 && leb ipv4_min_header_size (length packet)
    then some (from_be_bytes (slice 2 4 packet), v4 (slice 12 16 packet))
    else if get_or packet 0 0 / 16 == 6 && leb ipv6_min_header_size (length packet)
    then some (from_be_bytes (slice 4 6 packet) + ipv6_min_header_size, v6 (slice 8 24 packet))
    else none
