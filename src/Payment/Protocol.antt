-- ===== src/Payment/Protocol.antt =====
-- payment/protocol.rs: the messages between a peer and the gateway, each a type, a 16-bit length and
-- its fields, and the IPv4 and UDP packets that carry them inside the tunnel.
pub mod Fields
pub mod Required
pub mod Submit
pub mod Accepted
pub mod Checksum
pub mod Signal
use veil_vpn.Prelude.{
  ℕ, zero, suc, ◌+◌, ◌-◌, ◌*◌, ◌/◌, ◌%◌, ◌^◌, Bool, true, false, ◌||◌, Option, none, some, List, [],
  ◌∷◌, ◌++◌, ltb, leb, ◌==◌, not, if◌then◌else◌, length, get_or, drop, replicate, ◌>>=◌,
}
use veil_vpn.Prelude.Bytes.{Bytes, slice, to_be_bytes, from_be_bytes, bytes_eq}

abbrev pub payment_gateway_ip : Bytes
payment_gateway_ip = 169 ∷ 254 ∷ 254 ∷ 1 ∷ []

abbrev pub payment_port : ℕ
payment_port = 7078

abbrev pub msg_payment_required : ℕ
msg_payment_required = 1

abbrev pub msg_payment_accepted : ℕ
msg_payment_accepted = 2

abbrev pub msg_payment_submit : ℕ
msg_payment_submit = 129

pub record PaymentRequired : Type 0 where
  pub amount_usdc : ℕ
  pub nonce : Bytes
  pub recipient : Bytes
  pub deadline : ℕ
  pub chain_id : ℕ
  pub usdc_contract : Bytes

pub record PaymentSubmit : Type 0 where
  pub from : Bytes
  pub to : Bytes
  pub value : ℕ
  pub valid_after : ℕ
  pub valid_before : ℕ
  pub nonce : Bytes
  pub v : ℕ
  pub r : Bytes
  pub s : Bytes

pub record PaymentAccepted : Type 0 where
  pub new_quota_bytes : ℕ

-- The type and the length in front of the fields.
unfoldable pub framed : ℕ → ℕ → Bytes → Bytes
framed msg_type payload_len body = msg_type ∷ (to_be_bytes 2 payload_len ++ body)

-- The fields of a message of a type, when they are all there and at least `min_len` bytes.
unfoldable pub payload_of : ℕ → ℕ → Bytes → Option Bytes
payload_of msg_type min_len bytes =
    let len = from_be_bytes (slice 1 3 bytes) in
    if ltb (length bytes) 3 || not (get_or bytes 0 0 == msg_type)
    then none
    else if ltb (length bytes) (3 + len) || ltb len min_len
    then none
    else some (drop 3 bytes)

-- The words of a header, the last byte padded.
unfoldable pub sum_words : Bytes → ℕ → ℕ
sum_words (a ∷ (b ∷ bs)) sum = sum_words bs ((sum + (a * 256 + b)) % 2 ^ 32)
sum_words (a ∷ []) sum = (sum + a * 256) % 2 ^ 32
sum_words [] sum = sum

-- `while sum >> 16 != 0`, on fuel.
unfoldable pub fold_carries : ℕ → ℕ → ℕ
fold_carries zero sum = sum
fold_carries (suc fuel) sum =
    let rest = fold_carries fuel (sum % 2 ^ 16 + sum / 2 ^ 16) in
    if sum / 2 ^ 16 == 0 then sum else rest

unfoldable pub ip_checksum : Bytes → ℕ
unfolding sum_words fold_carries
ip_checksum header = 2 ^ 16 - 1 - fold_carries 3 (sum_words header 0) % 2 ^ 16

-- The first ten bytes of the header, and the last eight; the checksum stands between them.
unfoldable pub header_front : ℕ → Bytes
header_front total_len = 0x45 ∷ 0 ∷ (to_be_bytes 2 total_len ++ (0 ∷ 0 ∷ 0x40 ∷ 0 ∷ 64 ∷ 17 ∷ []))

-- The assertion on the length panics.
unfoldable pub build_signal_packet : Bytes → Bytes → Bytes → Option Bytes
unfolding header_front ip_checksum
build_signal_packet src_ip dst_ip payload =
    let udp_len = 8 + length payload in
    let total_len = 20 + udp_len in
    let cksum = ip_checksum (header_front total_len ++ (0 ∷ 0 ∷ (src_ip ++ dst_ip))) in
    if ltb 65535 total_len
    then none
    else some (
        header_front total_len
        ++ (to_be_bytes 2 cksum
            ++ (src_ip
                ++ (dst_ip
                    ++ (to_be_bytes 2 payment_port
                        ++ (to_be_bytes 2 payment_port
                            ++ (to_be_bytes 2 udp_len ++ (0 ∷ 0 ∷ payload))))))))

unfoldable pub is_payment_signal : Bytes → Bool
is_payment_signal packet =
    if ltb (length packet) 20 || not (get_or packet 0 0 / 16 == 4)
    then false
    else bytes_eq (slice 12 16 packet) payment_gateway_ip
      || bytes_eq (slice 16 20 packet) payment_gateway_ip

unfoldable pub extract_signal_payload : Bytes → Option Bytes
extract_signal_payload packet =
    let ihl = get_or packet 0 0 % 16 * 4 in
    let udp_len = from_be_bytes (slice (ihl + 4) (ihl + 6) packet) in
    if ltb (length packet) 20
    then none
    else if not (get_or packet 9 0 == 17)
    then none
    else if ltb (length packet) (ihl + 8)
    then none
    else if ltb udp_len 8 || ltb (length packet) (ihl + udp_len)
    then none
    else some (slice (ihl + 8) (ihl + udp_len) packet)

unfoldable pub src_ipv4 : Bytes → Option Bytes
src_ipv4 packet = if ltb (length packet) 20 then none else some (slice 12 16 packet)

unfoldable pub dst_ipv4 : Bytes → Option Bytes
dst_ipv4 packet = if ltb (length packet) 20 then none else some (slice 16 20 packet)
