-- ===== src/Noise/Handshake/Chain.antt =====
-- noise/handshake.rs: the key derivations that the message functions write out in line, each once.
use veil_vpn.Prelude.{Option, none, some, [], ◌∷◌, replicate}
use veil_vpn.Prelude.Bytes.{Bytes}
use veil_vpn.Noise.Crypto.{Crypto, b2s_hash, b2s_hmac, b2s_hmac2}

abbrev pub initial_chain_key : Bytes
initial_chain_key =
    96 ∷ 226 ∷ 109 ∷ 174 ∷ 243 ∷ 39 ∷ 239 ∷ 192 ∷ 46 ∷ 195 ∷ 53 ∷ 226 ∷ 160 ∷ 37 ∷ 210 ∷ 208 ∷ 22
    ∷ 235 ∷ 66 ∷ 6 ∷ 248 ∷ 114 ∷ 119 ∷ 245 ∷ 45 ∷ 56 ∷ 209 ∷ 152 ∷ 139 ∷ 120 ∷ 205 ∷ 54 ∷ []

abbrev pub initial_chain_hash : Bytes
initial_chain_hash =
    34 ∷ 17 ∷ 179 ∷ 97 ∷ 8 ∷ 26 ∷ 197 ∷ 102 ∷ 105 ∷ 18 ∷ 67 ∷ 219 ∷ 69 ∷ 138 ∷ 213 ∷ 50 ∷ 45 ∷ 156
    ∷ 108 ∷ 102 ∷ 34 ∷ 147 ∷ 232 ∷ 183 ∷ 14 ∷ 225 ∷ 156 ∷ 101 ∷ 186 ∷ 7 ∷ 158 ∷ 243 ∷ []

-- What the response derives: the key and hash of its sealed field, and the two transport keys.
pub record Derived : Type 0 where
  pub hash : Bytes
  pub key : Bytes
  pub temp2 : Bytes
  pub temp3 : Bytes

module _ (c : Crypto) where
  -- The hash over the responder's public key and the initiator's ephemeral one.
  unfoldable pub initial_hash : Bytes → Bytes → Bytes
  initial_hash responder_public ephemeral =
      b2s_hash c (b2s_hash c initial_chain_hash responder_public) ephemeral

  -- `chaining_key = HMAC(HMAC(chaining_key, input), 0x1)`
  unfoldable pub mix_chaining_key : Bytes → Bytes → Bytes
  mix_chaining_key chaining_key input = b2s_hmac c (b2s_hmac c chaining_key input) (1 ∷ [])

  -- `key = HMAC(HMAC(chaining_key, input), chaining_key' || 0x2)`
  unfoldable pub mix_key : Bytes → Bytes → Bytes
  unfolding mix_chaining_key
  mix_key chaining_key input =
      b2s_hmac2 c (b2s_hmac c chaining_key input) (mix_chaining_key chaining_key input) (2 ∷ [])

  -- From the ephemeral key of the response, the two shared secrets and the preshared key.
  unfoldable pub derive : Bytes → Bytes → Bytes → Bytes → Bytes → Option Bytes → Derived
  unfolding mix_chaining_key
  derive hash chaining_key ephemeral shared_ee shared_es preshared_key =
      let hash_e = b2s_hash c hash ephemeral in
      let ck_e = mix_chaining_key chaining_key ephemeral in
      let ck_ee = mix_chaining_key ck_e shared_ee in
      let ck_es = mix_chaining_key ck_ee shared_es in
      let psk : Bytes = elim preshared_key [ some k ↦ k | none ↦ replicate 32 0 ] in
      let temp = b2s_hmac c ck_es psk in
      let ck = b2s_hmac c temp (1 ∷ []) in
      let mixed = b2s_hmac2 c temp ck (2 ∷ []) in
      let temp1 = b2s_hmac c ck [] in
      let temp2 = b2s_hmac c temp1 (1 ∷ []) in
      record {
        hash = b2s_hash c hash_e mixed;
        key = b2s_hmac2 c temp mixed (3 ∷ []);
        temp2 = temp2;
        temp3 = b2s_hmac2 c temp1 temp2 (2 ∷ []);
      }
