-- ===== src/Noise/Handshake/State.antt =====
-- noise/handshake.rs: the state of a handshake and the operations on it that exchange no message.
use veil_vpn.Prelude.{
  ℕ, ◌+◌, ◌*◌, ◌/◌, ◌%◌, ◌^◌, Bool, true, false, ◌&&◌, ◌||◌, Option, none, some, [], ◌∷◌, ◌++◌, ltb,
  ◌==◌, if◌then◌else◌, not,
}
use veil_vpn.Prelude.Bytes.{Bytes, slice, to_be_bytes, from_be_bytes, bytes_eq}
use veil_vpn.Noise.Crypto.{Crypto, b2s_hash, b2s_keyed_mac_16}

-- "mac1----" and "cookie--"
abbrev pub label_mac1 : Bytes
label_mac1 = 109 ∷ 97 ∷ 99 ∷ 49 ∷ 45 ∷ 45 ∷ 45 ∷ 45 ∷ []

abbrev pub label_cookie : Bytes
label_cookie = 99 ∷ 111 ∷ 111 ∷ 107 ∷ 105 ∷ 101 ∷ 45 ∷ 45 ∷ []

pub record Tai64N : Type 0 where
  pub secs : ℕ
  pub nano : ℕ

abbrev pub tai64n_zero : Tai64N
tai64n_zero = record { secs = 0; nano = 0 }

-- `stamp`, for the time since the Unix epoch.
unfoldable pub stamp : ℕ → ℕ → Bytes
stamp secs nanos = to_be_bytes 8 (secs + (2 ^ 62 + 37)) ++ to_be_bytes 4 nanos

unfoldable pub tai64n_parse : Bytes → Tai64N
tai64n_parse buf = record {
  secs = from_be_bytes (slice 0 8 buf);
  nano = from_be_bytes (slice 8 12 buf);
}

unfoldable pub after : Tai64N → Tai64N → Bool
after t other = ltb other.secs t.secs || (t.secs == other.secs && ltb other.nano t.nano)

pub record NoiseParams : Type 0 where
  pub static_public : Bytes
  pub static_private : Bytes
  pub peer_static_public : Bytes
  pub static_shared : Bytes
  pub sending_mac1_key : Bytes
  pub preshared_key : Option Bytes

pub record HandshakeInitSentState : Type 0 where
  pub local_index : ℕ
  pub hash : Bytes
  pub chaining_key : Bytes
  pub ephemeral_private : Bytes
  pub time_sent : ℕ

pub record InitReceived : Type 0 where
  pub hash : Bytes
  pub chaining_key : Bytes
  pub peer_ephemeral_public : Bytes
  pub peer_index : ℕ

pub data HandshakeState : Type 0 where
  idle : HandshakeState
  init_sent : HandshakeInitSentState → HandshakeState
  init_received : InitReceived → HandshakeState
  expired : HandshakeState

pub record Cookies : Type 0 where
  pub last_mac1 : Option Bytes
  pub index : ℕ
  pub write_cookie : Option Bytes

pub record Handshake : Type 0 where
  pub params : NoiseParams
  pub next_index : ℕ
  pub previous : HandshakeState
  pub state : HandshakeState
  pub cookies : Cookies
  pub last_handshake_timestamp : Tai64N
  pub last_rtt : Option ℕ

module _ (c : Crypto) where
  unfoldable pub params_new : Bytes → Bytes → Bytes → Option Bytes → NoiseParams
  params_new static_private static_public peer_static_public preshared_key = record {
    static_public = static_public;
    static_private = static_private;
    peer_static_public = peer_static_public;
    static_shared = c.diffie_hellman static_private peer_static_public;
    sending_mac1_key = b2s_hash c label_mac1 peer_static_public;
    preshared_key = preshared_key;
  }

  unfoldable pub params_set_static_private : NoiseParams → Bytes → Bytes → Option NoiseParams
  params_set_static_private p static_private static_public =
      if bytes_eq (c.public_key static_private) static_public
      then some (record p {
        static_private = static_private;
        static_public = static_public;
        static_shared = c.diffie_hellman static_private p.peer_static_public;
      })
      else none

  unfoldable pub handshake_new : Bytes → Bytes → Bytes → ℕ → Option Bytes → Handshake
  unfolding params_new
  handshake_new static_private static_public peer_static_public global_idx preshared_key = record {
    params = params_new static_private static_public peer_static_public preshared_key;
    next_index = global_idx;
    previous = idle;
    state = idle;
    cookies = record { last_mac1 = none; index = 0; write_cookie = none };
    last_handshake_timestamp = tai64n_zero;
    last_rtt = none;
  }

  unfoldable pub set_static_private : Handshake → Bytes → Bytes → Option Handshake
  unfolding params_set_static_private
  set_static_private h private_key public_key =
      elim (params_set_static_private h.params private_key public_key) [
        | none ↦ none
        | some p ↦ some (record h { params = p })
      ]

  -- `append_mac1_and_mac2`, on the message in front of the two MACs.
  unfoldable pub append_mac1_and_mac2 : Handshake → ℕ → Bytes → Handshake × Bytes
  append_mac1_and_mac2 h local_index msg =
      let mac1 = b2s_keyed_mac_16 c h.params.sending_mac1_key msg in
      let mac2 : Bytes = elim h.cookies.write_cookie [
        | some cookie ↦ b2s_keyed_mac_16 c cookie (msg ++ mac1)
        | none ↦ zeros
      ] in
      (
        record h { cookies = record (h.cookies) { index = local_index; last_mac1 = some mac1 } },
        mac1 ++ mac2,
      )
    where
      zeros : Bytes
      zeros = 0 ∷ 0 ∷ 0 ∷ 0 ∷ 0 ∷ 0 ∷ 0 ∷ 0 ∷ 0 ∷ 0 ∷ 0 ∷ 0 ∷ 0 ∷ 0 ∷ 0 ∷ 0 ∷ []

abbrev pub is_idle : HandshakeState → Bool
is_idle idle = true
is_idle expired = true
is_idle (init_sent s) = false
is_idle (init_received s) = false

unfoldable pub is_in_progress : Handshake → Bool
is_in_progress h = not (is_idle h.state)

abbrev pub time_of : HandshakeState → Option ℕ
time_of (init_sent s) = some s.time_sent
time_of _ = none

unfoldable pub timer : Handshake → Option ℕ
timer h = time_of h.state

unfoldable pub set_expired : Handshake → Handshake
set_expired h = record h { previous = expired; state = expired }

abbrev pub is_expired_state : HandshakeState → Bool
is_expired_state expired = true
is_expired_state _ = false

unfoldable pub is_expired : Handshake → Bool
is_expired h = is_expired_state h.state

unfoldable pub has_cookie : Handshake → Bool
has_cookie h = elim h.cookies.write_cookie [ some _ ↦ true | none ↦ false ]

unfoldable pub clear_cookie : Handshake → Handshake
clear_cookie h = record h { cookies = record (h.cookies) { write_cookie = none } }

-- 24 bits name the peer, 8 bits the session: only those 8 count on, cyclically.
unfoldable pub inc_index : Handshake → Handshake × ℕ
inc_index h =
    let index = h.next_index in
    let next = index / 256 * 256 + (index % 256 + 1) % 256 in (record h { next_index = next }, next)
