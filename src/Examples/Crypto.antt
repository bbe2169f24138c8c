-- ===== src/Examples/Crypto.antt =====
-- A concrete instance of the cryptographic crates that meets their laws: the sealed text is the
-- text with an empty tag of 16 zeros, a shared secret is the sum of the two keys.
use veil_vpn.Prelude.{
  ℕ, ◌+◌, ◌-◌, ◌≡◌, refl, ap, some, [], ◌∷◌, ◌++◌, arith, length, take, replicate, length-append,
  length-replicate,
}
use veil_vpn.Prelude.Bytes.{Bytes, take-append}
use veil_vpn.Noise.Crypto.{Crypto, CryptoLaws}

-- The key as a number in the first of 32 bytes.
abbrev head_of : Bytes → ℕ
head_of [] = 0
head_of (x ∷ xs) = x

abbrev key_of : ℕ → Bytes
key_of n = n ∷ replicate 31 0

unfoldable pub toy_seal : Bytes → Bytes → Bytes → Bytes → Bytes
toy_seal k n a m = m ++ replicate 16 0

unfoldable pub toy_open : Bytes → Bytes → Bytes → Bytes → Bytes
toy_open k n a m = take (length m - 16) m

abbrev pub toy : Crypto
toy = record {
  blake2s = λ m. m;
  hmac_blake2s = λ k m. k ++ m;
  blake2s_mac = λ n k m. replicate n 0;
  seal = toy_seal;
  open_sealed = λ k n a m. some (toy_open k n a m);
  x_seal = toy_seal;
  x_open = λ k n a m. some (toy_open k n a m);
  public_key = λ s. key_of (head_of s);
  diffie_hellman = λ s p. key_of (head_of s + head_of p);
}

toy_open-toy_seal : (k n a m : Bytes) → toy_open k n a (toy_seal k n a m) ≡ m
unfolding toy_open toy_seal
toy_open-toy_seal k n a m =
    take-append m (replicate 16 0) (length (m ++ replicate 16 0) - 16)
      (omega (arith, length-append m (replicate 16 0)))

length-toy_seal : (k n a m : Bytes) → length (toy_seal k n a m) ≡ length m + 16
unfolding toy_seal
length-toy_seal k n a m = length-append m (replicate 16 0)

pub toy-CryptoLaws : CryptoLaws toy
toy-CryptoLaws = record {
  open-seal = λ k n a m. ap some (toy_open-toy_seal k n a m);
  length-seal = length-toy_seal;
  x_open-x_seal = λ k n a m. ap some (toy_open-toy_seal k n a m);
  length-x_seal = length-toy_seal;
  dh_comm = λ a b. ap key_of (omega arith);
  length-blake2s_mac = λ n k m. length-replicate n 0;
  length-public_key = λ s. refl;
}
