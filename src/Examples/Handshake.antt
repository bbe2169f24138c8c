-- ===== src/Examples/Handshake.antt =====
-- noise/handshake.rs and noise/rate_limiter.rs between two ends, with the toy cryptography.
use veil_vpn.Prelude.{
  ◌-◌, ◌^◌, ◌<◌, ◌≤◌, ◌≡◌, refl, true, none, some, [], ◌∷◌, ◌++◌, arith, length, replicate, take,
  drop, add_u64,
}
use veil_vpn.Prelude.Bytes.{Bytes, to_be_bytes, from_be_bytes, to_le_bytes, from_le_bytes, bytes_eq}
use veil_vpn.Noise.Errors.{ok}
use veil_vpn.Noise.Crypto.{b2s_hash, b2s_keyed_mac_16}
use veil_vpn.Noise.Packet.{
  PacketCookieReply, HandshakeInit, handshake_init, packet_cookie_reply, parse_incoming_packet, v4,
}
use veil_vpn.Noise.Session.{Session}
use veil_vpn.Noise.Handshake.State.{
  Handshake, params_new, handshake_new, stamp, tai64n_parse, after, append_mac1_and_mac2,
  label_cookie,
}
use veil_vpn.Noise.Handshake.Initiation.{Inputs}
use veil_vpn.Noise.Handshake.Response.{receive_cookie_reply}
use veil_vpn.Noise.Handshake.Opening.{IsEnd}
use veil_vpn.Noise.Handshake.Agreement.{Agrees, exchange, exchange-Agrees}
use veil_vpn.Noise.RateLimiter
use veil_vpn.Noise.RateLimiter.{
  RateLimiter, Verdict, verified, format_cookie_reply, current_cookie, verify_handshake,
  verify_mac2, is_under_load, verify_packet,
}
use veil_vpn.Noise.RateLimiter.Cookie.{cookie_roundtrip, cookie_admits}
use veil_vpn.Noise.RateLimiter.Load.{serve, serve-bounded, verify-mac1}
use veil_vpn.Examples.Crypto.{toy, toy-CryptoLaws}

abbrev alice_key : Bytes
alice_key = 3 ∷ []

abbrev bob_key : Bytes
bob_key = 5 ∷ []

abbrev pub alice : Handshake
alice = handshake_new toy alice_key (toy.public_key alice_key) (toy.public_key bob_key) 256 none

abbrev bob : Handshake
bob = handshake_new toy bob_key (toy.public_key bob_key) (toy.public_key alice_key) 512 none

abbrev pub inputs : Inputs
inputs = record { ephemeral_private = 7 ∷ []; stamp_secs = 1000; stamp_nanos = 5; now = 42 }

alice-IsEnd : IsEnd toy alice.params alice_key bob_key
unfolding handshake_new params_new
alice-IsEnd = record { private_eq = refl; public_eq = refl; peer_eq = refl; shared_eq = refl }

bob-IsEnd : IsEnd toy bob.params bob_key alice_key
unfolding handshake_new params_new
bob-IsEnd = record { private_eq = refl; public_eq = refl; peer_eq = refl; shared_eq = refl }

same_psk : alice.params.preshared_key ≡ bob.params.preshared_key
unfolding handshake_new params_new
same_psk = refl

later :
    after (tai64n_parse (stamp inputs.stamp_secs inputs.stamp_nanos)) bob.last_handshake_timestamp
    ≡ true
unfolding handshake_new after tai64n_parse stamp to_be_bytes from_be_bytes to_le_bytes from_le_bytes
later = refl

alice-index : alice.next_index < 2 ^ 32
unfolding handshake_new
alice-index = omega arith

bob-index : bob.next_index < 2 ^ 32
unfolding handshake_new
bob-index = omega arith

exchange-Agrees_example :
    (a b : Session) × (exchange toy alice bob inputs (9 ∷ []) 148 92 50 ≡ some (a, b)) × Agrees a b
exchange-Agrees_example =
    exchange-Agrees toy toy-CryptoLaws alice bob alice_key bob_key alice-IsEnd bob-IsEnd inputs
      (9 ∷ []) 148 92 50 same_psk later (omega arith) (omega arith) alice-index bob-index

-- A limiter of the responder's, at its limit.
abbrev limiter : RateLimiter
limiter = record (RateLimiter.new toy (1 ∷ []) (2 ∷ []) (toy.public_key bob_key) 2 0) { count = 2 }

abbrev waiting : Handshake
waiting = record alice {
  cookies = record { last_mac1 = some (replicate 16 1); index = 257; write_cookie = none };
}

same_cookie_key : limiter.cookie_key ≡ b2s_hash toy label_cookie waiting.params.peer_static_public
unfolding RateLimiter.new handshake_new params_new
same_cookie_key = refl

cookie_roundtrip_example :
    (r' : RateLimiter) × (datagram : Bytes) × (p : PacketCookieReply) × (format_cookie_reply toy
        limiter 257
        (replicate 16 8)
        (replicate 16 1)
        64
      ≡ (r', ok datagram))
    × (parse_incoming_packet datagram ≡ ok (packet_cookie_reply p))
    × (receive_cookie_reply toy waiting p ≡ (
      record waiting {
        cookies = record (waiting.cookies) { write_cookie = some (replicate 16 8) };
      },
      ok tt,
    ))
cookie_roundtrip_example =
    cookie_roundtrip toy toy-CryptoLaws limiter waiting 257 (replicate 16 8) (replicate 16 1) 64
      (omega arith) (omega arith) refl same_cookie_key refl refl

abbrev admitted : Handshake
admitted = record alice {
  cookies = record {
    last_mac1 = none;
    index = 257;
    write_cookie = some (current_cookie toy limiter (v4 (10 ∷ 0 ∷ 0 ∷ 2 ∷ [])) 77);
  };
}

same_mac1_key : admitted.params.sending_mac1_key ≡ limiter.mac1_key
unfolding RateLimiter.new handshake_new params_new
same_mac1_key = refl

abbrev some_init : HandshakeInit
some_init = record {
  sender_idx = 257;
  unencrypted_ephemeral = [];
  encrypted_static = [];
  encrypted_timestamp = [];
}

cookie_admits_example :
    (verify_handshake toy limiter
      (some (v4 (10 ∷ 0 ∷ 0 ∷ 2 ∷ [])))
      ((1 ∷ 2 ∷ 3 ∷ []) ++ (append_mac1_and_mac2 toy admitted 257 (1 ∷ 2 ∷ 3 ∷ [])).1)
      (handshake_init some_init)
      257
      64
      77).1
    ≡ verified (handshake_init some_init)
cookie_admits_example =
    cookie_admits toy toy-CryptoLaws limiter admitted (v4 (10 ∷ 0 ∷ 0 ∷ 2 ∷ []))
      (handshake_init some_init) 257 257 64 77 (1 ∷ 2 ∷ 3 ∷ []) same_mac1_key refl

limiter-count : limiter.count ≡ 2
limiter-count = refl

serve-bounded_example :
    (serve toy limiter ((replicate 148 1, 64, 9) ∷ (replicate 92 2, 64, 9) ∷ [])).1
    ≤ limiter.limit - limiter.count
serve-bounded_example =
    serve-bounded toy limiter ((replicate 148 1, 64, 9) ∷ (replicate 92 2, 64, 9) ∷ [])
      (omega arith)

-- A limiter under no load lets the same message pass.
abbrev calm : RateLimiter
calm = record limiter { count = 0 }

abbrev message : Bytes
message = (1 ∷ 2 ∷ 3 ∷ []) ++ replicate 32 0

passed :
    verify_handshake toy calm none message (handshake_init some_init) 257 64 77
    ≡ (record calm { count = 1 }, verified (handshake_init some_init))
unfolding verify_handshake is_under_load add_u64 b2s_keyed_mac_16 bytes_eq RateLimiter.new
passed = refl

verify-mac1_example :
    (take 16 (drop (length message - 32) message)
      ≡ b2s_keyed_mac_16 toy calm.mac1_key (take (length message - 32) message))
    × (handshake_init some_init ≡ handshake_init some_init)
verify-mac1_example =
    verify-mac1 toy calm (record calm { count = 1 }) none message (handshake_init some_init)
      (handshake_init some_init) 257 64 77 passed
