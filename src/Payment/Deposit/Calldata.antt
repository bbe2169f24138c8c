-- ===== src/Payment/Deposit/Calldata.antt =====
-- payment/deposit.rs: what the contract reads from the call of a deposit, and whose signature it
-- finds there.
use mathlib.Core.List.{reverse, reverse-append}
use veil_vpn.Prelude.{
  ℕ, zero, suc, ◌+◌, ◌*◌, ◌^◌, ◌<◌, ◌≡◌, refl, ap, ◌∙◌, some, [], ◌∷◌, ◌++◌, arith, length,
  length-append, drop, replicate,
}
use veil_vpn.Prelude.Bytes.{
  Bytes, slice, to_be_bytes, from_be_bytes, from_le_bytes, length-to_be_bytes,
  from_be_bytes-to_be_bytes,
}
use veil_vpn.Payment.Config.{PaymentConfig, usdc_domain}
use veil_vpn.Payment.Wallet.{
  Ethereum, EthereumLaws, PaymentWallet, from_wireguard_key, sign_digest, recover_address,
}
use veil_vpn.Payment.Authorization.{abi_encode_address, abi_encode_u256, compute_domain_separator}
use veil_vpn.Payment.Authorization.Signing.{sign_digest_lem, length-ethereum_address}
use veil_vpn.Payment.Protocol.Fields.{field, last_field}
use veil_vpn.Payment.Deposit.{
  Terms, deposit_digest, deposit_calldata, receive_authorization_type, sel_deposit_with_auth,
}

-- The arguments of `depositWithAuthorization`.
pub record Arguments : Type 0 where
  pub token : Bytes
  pub from : Bytes
  pub value : ℕ
  pub valid_after : ℕ
  pub valid_before : ℕ
  pub nonce : Bytes
  pub v : ℕ
  pub r : Bytes
  pub s : Bytes

-- Argument k of a call is the word of 32 bytes at 4 + 32 k; an address is its last 20 bytes.
abbrev pub argument : ℕ → Bytes → Bytes
argument k calldata = slice (4 + 32 * k) (36 + 32 * k) calldata

abbrev pub read_arguments : Bytes → Arguments
read_arguments d = record {
  token = drop 12 (argument 0 d);
  from = drop 12 (argument 1 d);
  value = from_be_bytes (argument 2 d);
  valid_after = from_be_bytes (argument 3 d);
  valid_before = from_be_bytes (argument 4 d);
  nonce = argument 5 d;
  v = from_be_bytes (argument 6 d);
  r = argument 7 d;
  s = argument 8 d;
}

-- The digest of EIP-712 that the token checks for a transfer to the gateway under the arguments.
abbrev pub digest_of : Ethereum → PaymentConfig → Arguments → Bytes
digest_of e config a = e.keccak256 (
    0x19
    ∷ (0x01
        ∷ (compute_domain_separator e (usdc_domain config)
            ++ e.keccak256 (
                e.keccak256 receive_authorization_type
                ++ (abi_encode_address a.from
                    ++ (abi_encode_address config.gateway_wallet
                        ++ (abi_encode_u256 a.value
                            ++ (abi_encode_u256 a.valid_after
                                ++ (abi_encode_u256 a.valid_before ++ a.nonce)))))))))

from_le_bytes-zeros : (xs : Bytes) (k : ℕ) → from_le_bytes (xs ++ replicate k 0) ≡ from_le_bytes xs
unfolding from_le_bytes
from_le_bytes-zeros [] zero = refl
from_le_bytes-zeros [] (suc k) = omega (arith, from_le_bytes-zeros [] k)
from_le_bytes-zeros (x ∷ xs) k = omega (arith, from_le_bytes-zeros xs k)

-- A number is read from its word, and an address.
from_be_bytes-abi_encode_u256 : (n : ℕ) → n < 2 ^ 128 → from_be_bytes (abi_encode_u256 n) ≡ n
unfolding abi_encode_u256
from_be_bytes-abi_encode_u256 n small = zeros ∙ from_be_bytes-to_be_bytes 16 n small
  where
    zeros : from_be_bytes (replicate 16 0 ++ to_be_bytes 16 n) ≡ from_be_bytes (to_be_bytes 16 n)
    zeros =
        unfold from_be_bytes in
        (ap from_le_bytes (reverse-append (replicate 16 0) (to_be_bytes 16 n))
          ∙ from_le_bytes-zeros (reverse (to_be_bytes 16 n)) 16)

length-abi_encode_u256 : (n : ℕ) → length (abi_encode_u256 n) ≡ 32
unfolding abi_encode_u256
length-abi_encode_u256 n =
    omega (arith, length-append (replicate 16 0) (to_be_bytes 16 n), length-to_be_bytes 16 n)

length-abi_encode_address : (a : Bytes) → length a ≡ 20 → length (abi_encode_address a) ≡ 32
unfolding abi_encode_address
length-abi_encode_address a h = omega (arith, length-append (replicate 12 0) a)

drop-abi_encode_address : (a : Bytes) → drop 12 (abi_encode_address a) ≡ a
unfolding abi_encode_address
drop-abi_encode_address a = refl

-- The arguments of a call are its words.
module _ (w0 w1 w2 w3 w4 w5 w6 w7 w8 : Bytes) where
  call_of : Bytes
  call_of =
      sel_deposit_with_auth ++ (w0 ++ (w1 ++ (w2 ++ (w3 ++ (w4 ++ (w5 ++ (w6 ++ (w7 ++ w8))))))))

  record AreWords : Type 0 where
    length0 : length w0 ≡ 32
    length1 : length w1 ≡ 32
    length2 : length w2 ≡ 32
    length3 : length w3 ≡ 32
    length4 : length w4 ≡ 32
    length5 : length w5 ≡ 32
    length6 : length w6 ≡ 32
    length7 : length w7 ≡ 32
    length8 : length w8 ≡ 32

  -- Each argument is the word that stands at its place.
  record Reads : Type 0 where
    argument0 : argument 0 call_of ≡ w0
    argument1 : argument 1 call_of ≡ w1
    argument2 : argument 2 call_of ≡ w2
    argument3 : argument 3 call_of ≡ w3
    argument4 : argument 4 call_of ≡ w4
    argument5 : argument 5 call_of ≡ w5
    argument6 : argument 6 call_of ≡ w6
    argument7 : argument 7 call_of ≡ w7
    argument8 : argument 8 call_of ≡ w8

  reads : AreWords → Reads
  unfolding call_of
  reads l = record {
    argument0 =
        field (sel_deposit_with_auth ∷ []) w0
          (w1 ++ (w2 ++ (w3 ++ (w4 ++ (w5 ++ (w6 ++ (w7 ++ w8))))))) 4 36 (omega arith)
          (omega (arith, l.length0));
    argument1 =
        field (sel_deposit_with_auth ∷ w0 ∷ []) w1
          (w2 ++ (w3 ++ (w4 ++ (w5 ++ (w6 ++ (w7 ++ w8)))))) 36 68 (omega (arith, l.length0))
          (omega (arith, l.length1));
    argument2 =
        field (sel_deposit_with_auth ∷ w0 ∷ w1 ∷ []) w2 (w3 ++ (w4 ++ (w5 ++ (w6 ++ (w7 ++ w8)))))
          68 100 (omega (arith, l.length0, l.length1)) (omega (arith, l.length2));
    argument3 =
        field (sel_deposit_with_auth ∷ w0 ∷ w1 ∷ w2 ∷ []) w3 (w4 ++ (w5 ++ (w6 ++ (w7 ++ w8)))) 100
          132 (omega (arith, l.length0, l.length1, l.length2)) (omega (arith, l.length3));
    argument4 =
        field (sel_deposit_with_auth ∷ w0 ∷ w1 ∷ w2 ∷ w3 ∷ []) w4 (w5 ++ (w6 ++ (w7 ++ w8))) 132 164
          (omega (arith, l.length0, l.length1, l.length2, l.length3)) (omega (arith, l.length4));
    argument5 =
        field (sel_deposit_with_auth ∷ w0 ∷ w1 ∷ w2 ∷ w3 ∷ w4 ∷ []) w5 (w6 ++ (w7 ++ w8)) 164 196
          (omega (arith, l.length0, l.length1, l.length2, l.length3, l.length4))
          (omega (arith, l.length5));
    argument6 =
        field (sel_deposit_with_auth ∷ w0 ∷ w1 ∷ w2 ∷ w3 ∷ w4 ∷ w5 ∷ []) w6 (w7 ++ w8) 196 228
          (omega (arith, l.length0, l.length1, l.length2, l.length3, l.length4, l.length5))
          (omega (arith, l.length6));
    argument7 =
        field (sel_deposit_with_auth ∷ w0 ∷ w1 ∷ w2 ∷ w3 ∷ w4 ∷ w5 ∷ w6 ∷ []) w7 (w8) 228 260
          (omega
            (arith, l.length0, l.length1, l.length2, l.length3, l.length4, l.length5, l.length6))
          (omega (arith, l.length7));
    argument8 =
        last_field (sel_deposit_with_auth ∷ w0 ∷ w1 ∷ w2 ∷ w3 ∷ w4 ∷ w5 ∷ w6 ∷ w7 ∷ []) w8 260 292
          (omega (
            arith, l.length0, l.length1, l.length2, l.length3, l.length4, l.length5, l.length6,
            l.length7,
          ))
          (omega (arith, l.length8));
  }

-- A wallet made from a key signs a deposit whose amount and time fit 128 bits, whose nonce has 32
-- bytes and whose token has an address of 20. From the call that carries it the contract reads the token, the wallet's address, the amount, the times and the nonce
-- as they were given, and the signature recovers, for the digest of what it reads, to the address
-- that it reads.
pub deposit_calldata-reads :
    (e : Ethereum)
    → EthereumLaws e
    → (w : PaymentWallet) (key : Bytes) (config : PaymentConfig) (t : Terms)
    → from_wireguard_key e key ≡ some w
    → length config.usdc_contract ≡ 20
    → t.amount < 2 ^ 128
    → t.valid_before < 2 ^ 128
    → length t.nonce ≡ 32
    → (v : ℕ) × (r s : Bytes) × (a : Arguments) × (sign_digest e w (deposit_digest e w config t)
        ≡ some (v, r, s))
      × (slice 0 4 (deposit_calldata w config t (v, r, s)) ≡ sel_deposit_with_auth)
      × (read_arguments (deposit_calldata w config t (v, r, s)) ≡ a)
      × (a.token ≡ config.usdc_contract)
      × (a.from ≡ w.ethereum_address)
      × (a.value ≡ t.amount)
      × (a.valid_after ≡ 0)
      × (a.valid_before ≡ t.valid_before)
      × (a.nonce ≡ t.nonce)
      × (recover_address e (digest_of e config a) a.v a.r a.s ≡ some a.from)
unfolding deposit_calldata deposit_digest call_of
deposit_calldata-reads e laws w key config t made token_length amount_word time_word nonce_length =
    let k =
      sign_digest_lem e laws w (deposit_digest e w config t) key (laws.length-keccak256 _) made in
    let words : Reads (abi_encode_address config.usdc_contract)
        (abi_encode_address w.ethereum_address) (abi_encode_u256 t.amount) (abi_encode_u256 0)
        (abi_encode_u256 t.valid_before) t.nonce (abi_encode_u256 k.v) k.r k.s =
      reads _ _ _ _ _ _ _ _ _ (record {
        length0 = length-abi_encode_address config.usdc_contract token_length;
        length1 =
            length-abi_encode_address w.ethereum_address
              (length-ethereum_address e laws key w made);
        length2 = length-abi_encode_u256 t.amount;
        length3 = length-abi_encode_u256 0;
        length4 = length-abi_encode_u256 t.valid_before;
        length5 = nonce_length;
        length6 = length-abi_encode_u256 k.v;
        length7 = k.length-r;
        length8 = k.length-s;
      }) in
    (
      k.v,
      k.r,
      k.s,
      record {
        token = config.usdc_contract;
        from = w.ethereum_address;
        value = t.amount;
        valid_after = 0;
        valid_before = t.valid_before;
        nonce = t.nonce;
        v = k.v;
        r = k.r;
        s = k.s;
      },
      k.signed,
      refl,
      (λ i. record {
        token = (ap (drop 12) words.argument0 ∙ drop-abi_encode_address config.usdc_contract) i;
        from = (ap (drop 12) words.argument1 ∙ drop-abi_encode_address w.ethereum_address) i;
        value =
            (ap from_be_bytes words.argument2 ∙ from_be_bytes-abi_encode_u256 t.amount amount_word)
              i;
        valid_after =
            (ap from_be_bytes words.argument3 ∙ from_be_bytes-abi_encode_u256 0 (omega arith)) i;
        valid_before =
            (ap from_be_bytes words.argument4
                ∙ from_be_bytes-abi_encode_u256 t.valid_before time_word)
              i;
        nonce = words.argument5 i;
        v =
            (ap from_be_bytes words.argument6
                ∙ from_be_bytes-abi_encode_u256 k.v (omega (arith, k.v_byte)))
              i;
        r = words.argument7 i;
        s = words.argument8 i;
      }),
      refl,
      refl,
      refl,
      refl,
      refl,
      refl,
      k.recovered,
    )
