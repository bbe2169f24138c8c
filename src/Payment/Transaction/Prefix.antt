-- ===== src/Payment/Transaction/Prefix.antt =====
-- The bytes of a number and the prefix of a length are read back.
use mathlib.Core.List.{reverse, reverse-cons, append_assoc}
use mathlib.Core.Path.{subst}
use veil_vpn.Prelude.{
  ◌||◌, ℕ, zero, suc, ◌+◌, ◌*◌, ◌-◌, ◌^◌, ◌≤◌, ◌<◌, ◌≡◌, refl, sym, ap, ◌∙◌, ◌≢◌, ◌&&◌, inl, inr,
  true, false, Option, none, some, [], ◌∷◌, ◌++◌, arith, length, take, drop, get_or, ltb, leb, ◌==◌,
  if◌then◌else◌, Bool-cases, Option-cases, length-append, length-drop, ◌>>=◌,
}
use veil_vpn.Prelude.Bytes.{
  Bytes, to_be_bytes, from_be_bytes, from_le_bytes, length-to_be_bytes, from_be_bytes-to_be_bytes,
  take-append,
}
use veil_vpn.Payment.Transaction.{
  first_nonzero, significant, encode_length, with_prefix, rlp_encode_bytes, rlp_encode_uint,
  rlp_encode_u128,
}

from_le_bytes-end : (xs : Bytes) → from_le_bytes (xs ++ (0 ∷ [])) ≡ from_le_bytes xs
unfolding from_le_bytes
from_le_bytes-end [] = refl
from_le_bytes-end (x ∷ xs) = ap (λ n. x + 256 * n) (from_le_bytes-end xs)

-- Zeros in front count for nothing.
from_be_bytes-zero : (xs : Bytes) → from_be_bytes (0 ∷ xs) ≡ from_be_bytes xs
unfolding from_be_bytes
from_be_bytes-zero xs = ap from_le_bytes (reverse-cons 0 xs) ∙ from_le_bytes-end (reverse xs)

first_nonzero-some :
    (bs : Bytes) (i : ℕ)
    → first_nonzero bs ≡ some i
    → (i < length bs)
      × (from_be_bytes (drop i bs) ≡ from_be_bytes bs)
      × (0 < get_or (drop i bs) 0 0)
unfolding first_nonzero
first_nonzero-some [] i h = cc h
first_nonzero-some (zero ∷ bs) i h = elim (Option-cases (first_nonzero bs)) [
  | inl e ↦ cc (rw e at h)
  | inr (j, e) ↦ after j (ground (arith, rw e at h)) (first_nonzero-some bs j e)
]
  where
    after :
        (j : ℕ)
        → i ≡ suc j
        → (j < length bs)
          × (from_be_bytes (drop j bs) ≡ from_be_bytes bs)
          × (0 < get_or (drop j bs) 0 0)
        → (i < suc (length bs))
          × (from_be_bytes (drop i (0 ∷ bs)) ≡ from_be_bytes (0 ∷ bs))
          × (0 < get_or (drop i (0 ∷ bs)) 0 0)
    after j e (small, same, leads) = (
      omega arith,
      ap (λ k. from_be_bytes (drop k (0 ∷ bs))) e ∙ same ∙ sym (from_be_bytes-zero bs),
      subst (λ k. 0 < get_or (drop k (0 ∷ bs)) 0 0) (sym e) leads,
    )
first_nonzero-some (suc b ∷ bs) i h =
    let e : i ≡ 0 = ground (arith, h) in
    (
      omega arith,
      ap (λ k. from_be_bytes (drop k (suc b ∷ bs))) e,
      subst (λ k. 0 < get_or (drop k (suc b ∷ bs)) 0 0) (sym e) (omega arith),
    )

first_nonzero-none : (bs : Bytes) → first_nonzero bs ≡ none → from_be_bytes bs ≡ 0
unfolding first_nonzero
first_nonzero-none [] h = unfold from_be_bytes in unfold from_le_bytes in refl
first_nonzero-none (zero ∷ bs) h = elim (Option-cases (first_nonzero bs)) [
  | inl e ↦ from_be_bytes-zero bs ∙ first_nonzero-none bs e
  | inr (j, e) ↦ cc (rw e at h)
]
first_nonzero-none (suc b ∷ bs) h = ground (arith, h)

-- The bytes that stand for a number.
pub record Stands (m : Bytes) (width value : ℕ) : Type 0 where
  pub some_byte : 0 < length m
  pub bounded : length m ≤ width
  pub value_eq : from_be_bytes m ≡ value
  pub leading : 0 < get_or m 0 0

pub significant-Stands :
    (width value : ℕ)
    → value ≢ 0
    → value < 256 ^ width
    → Stands (significant width value) width value
unfolding significant
significant-Stands width value positive small =
    let sized = length-to_be_bytes width value in
    let whole = from_be_bytes-to_be_bytes width value small in
    elim (Option-cases (first_nonzero (to_be_bytes width value))) [
      | inl e ↦ absurd (positive (sym whole ∙ first_nonzero-none (to_be_bytes width value) e))
      | inr (i, e) ↦
          let (inside, same, leads) = first_nonzero-some (to_be_bytes width value) i e in
          rw e (record {
            some_byte = omega (arith, length-drop i (to_be_bytes width value), inside);
            bounded = omega (arith, length-drop i (to_be_bytes width value), sized);
            value_eq = same ∙ whole;
            leading = leads;
          })
    ]

length-significant : (width value : ℕ) → length (significant width value) ≤ width
unfolding significant
length-significant width value = omega (
  arith,
  length-drop
      (elim (first_nonzero (to_be_bytes width value)) [ none ↦ width - 1 | some start ↦ start ])
      (to_be_bytes width value),
  length-to_be_bytes width value,
)

-- The payload behind a prefix, and what follows it.
unfoldable pub read_with : ℕ → ℕ → Bytes → Option (Bytes × Bytes)
read_with short long [] = none
read_with short long (b ∷ rest) =
    let len = from_be_bytes (take (b - long) rest) in
    if leb b long
    then some (take (b - short) rest, drop (b - short) rest)
    else some (take len (drop (b - long) rest), drop len (drop (b - long) rest))

drop_front : (xs ys : Bytes) (n : ℕ) → length xs ≡ n → drop n (xs ++ ys) ≡ ys
drop_front [] ys zero h = refl
drop_front [] ys (suc n) h = absurd (omega arith)
drop_front (x ∷ xs) ys zero h = absurd (omega arith)
drop_front (x ∷ xs) ys (suc n) h = drop_front xs ys n (omega arith)

read_with-short :
    (short long : ℕ) (payload rest : Bytes)
    → long ≡ short + 55
    → length payload ≤ 55
    → read_with short long ((short + length payload) ∷ (payload ++ rest)) ≡ some (payload, rest)
unfolding read_with
read_with-short short long payload rest apart small =
    let test : leb (short + length payload) long ≡ true = ground arith in
    let width : short + length payload - short ≡ length payload = omega arith in
    rw
      (
        test,
        width,
        take-append payload rest (length payload) refl,
        drop_front payload rest (length payload) refl,
      )
      refl

read_with-long :
    (short long : ℕ) (m payload rest : Bytes)
    → 0 < length m
    → from_be_bytes m ≡ length payload
    → read_with short long ((long + length m) ∷ (m ++ (payload ++ rest))) ≡ some (payload, rest)
unfolding read_with
read_with-long short long m payload rest some_byte len =
    let test : leb (long + length m) long ≡ false = ground arith in
    let width : long + length m - long ≡ length m = omega arith in
    rw
      (
        test,
        width,
        take-append m (payload ++ rest) (length m) refl,
        drop_front m (payload ++ rest) (length m) refl,
        len,
        take-append payload rest (length payload) refl,
        drop_front payload rest (length payload) refl,
      )
      refl

pub read_with-with_prefix :
    (short long : ℕ) (payload rest : Bytes)
    → long ≡ short + 55
    → length payload < 2 ^ 64
    → read_with short long (with_prefix short long payload ++ rest) ≡ some (payload, rest)
unfolding with_prefix
read_with-with_prefix short long payload rest apart small =
    elim (Bool-cases (leb (length payload) 55)) [
      | inl e ↦ rw e (read_with-short short long payload rest apart (ground (arith, e)))
      | inr e ↦
          let k : Stands (encode_length (length payload)) 8 (length payload) =
            unfold encode_length in
            significant-Stands 8 (length payload) (not_zero e) (omega arith) in
          rw (e, append_assoc (encode_length (length payload)) payload rest)
            (read_with-long short long (encode_length (length payload)) payload rest k.some_byte
              k.value_eq)
    ]
  where
    not_zero : leb (length payload) 55 ≡ false → length payload ≢ 0
    not_zero e z = ground arith

-- A byte below 128 stands for itself, and any other bytes have a prefix.
unfoldable pub read_bytes : Bytes → Option (Bytes × Bytes)
unfolding read_with
read_bytes [] = none
read_bytes (b ∷ rest) = if ltb b 0x80 then some (b ∷ [], rest) else read_with 0x80 0xb7 (b ∷ rest)

-- A number, which may have no zeros in front.
unfoldable pub read_uint : Bytes → Option (ℕ × Bytes)
unfolding read_bytes
read_uint bs = do
  (m, rest) ← read_bytes bs
  if length m == 0 || ltb 0 (get_or m 0 0) then some (from_be_bytes m, rest) else none

-- A prefix of bytes is never below 128.
prefixed :
    (payload rest : Bytes)
    → read_bytes (with_prefix 0x80 0xb7 payload ++ rest)
      ≡ read_with 0x80 0xb7 (with_prefix 0x80 0xb7 payload ++ rest)
unfolding with_prefix read_bytes
prefixed payload rest = elim (Bool-cases (leb (length payload) 55)) [
  | inl e ↦ rw e (if_false _ _ (0x80 + length payload) (omega arith))
  | inr e ↦ rw e (if_false _ _ (0xb7 + length (encode_length (length payload))) (omega arith))
]
  where
    if_false : (x y : Option (Bytes × Bytes)) (b : ℕ) → 0x80 ≤ b → (if ltb b 0x80 then x else y) ≡ y
    if_false x y b h = let test : ltb b 0x80 ≡ false = ground arith in rw test refl

pub read_bytes-rlp_encode_bytes :
    (bytes rest : Bytes)
    → length bytes < 2 ^ 64
    → read_bytes (rlp_encode_bytes bytes ++ rest) ≡ some (bytes, rest)
unfolding rlp_encode_bytes
read_bytes-rlp_encode_bytes bytes rest small =
    elim (Bool-cases (length bytes == 1 && ltb (get_or bytes 0 0) 0x80)) [
      | inl e ↦ rw e (itself bytes e)
      | inr e ↦ rw e (prefixed bytes rest ∙ read_with-with_prefix 0x80 0xb7 bytes rest refl small)
    ]
  where
    itself :
        (bs : Bytes)
        → (length bs == 1 && ltb (get_or bs 0 0) 0x80) ≡ true
        → read_bytes (get_or bs 0 0 ∷ rest) ≡ some (bs, rest)
    itself [] e = absurd (ground (arith, e))
    itself (b ∷ []) e =
        let test : ltb b 0x80 ≡ true = ground (arith, e) in unfold read_bytes in rw test refl
    itself (b ∷ (x ∷ bs)) e = absurd (ground (arith, e))

-- A number of at most `width` bytes, as both encoders of numbers write it.
uint_back :
    (width value : ℕ) (rest : Bytes)
    → width ≤ 16
    → value < 256 ^ width
    → read_uint
        ((if value == 0 then 0x80 ∷ [] else rlp_encode_bytes (significant width value)) ++ rest)
      ≡ some (value, rest)
unfolding read_uint
uint_back width value rest narrow small = elim (Bool-cases (value == 0)) [
  | inl e ↦
      let none_left : value ≡ 0 = ground (arith, e) in
      rw e (ap (λ n. some (n, rest)) (empty ∙ sym none_left))
  | inr e ↦
      let k = significant-Stands width value (not_zero e) small in
      rw (e, read_bytes-rlp_encode_bytes (significant width value) rest (omega (arith, k.bounded)))
        (rw (leads (significant width value) k.leading) (ap (λ n. some (n, rest)) k.value_eq))
]
  where
    not_zero : (value == 0) ≡ false → value ≢ 0
    not_zero e z = ground arith

    leads : (m : Bytes) → 0 < get_or m 0 0 → (length m == 0 || ltb 0 (get_or m 0 0)) ≡ true
    leads m h = ground arith

    empty : from_be_bytes [] ≡ 0
    empty = unfold from_be_bytes in unfold from_le_bytes in refl

pub read_uint-rlp_encode_uint :
    (value : ℕ) (rest : Bytes)
    → value < 2 ^ 64
    → read_uint (rlp_encode_uint value ++ rest) ≡ some (value, rest)
unfolding rlp_encode_uint
read_uint-rlp_encode_uint value rest small = uint_back 8 value rest (omega arith) (omega arith)

pub read_uint-rlp_encode_u128 :
    (value : ℕ) (rest : Bytes)
    → value < 2 ^ 128
    → read_uint (rlp_encode_u128 value ++ rest) ≡ some (value, rest)
unfolding rlp_encode_u128
read_uint-rlp_encode_u128 value rest small = uint_back 16 value rest (omega arith) (omega arith)

-- A prefix has at most nine bytes.
pub length-with_prefix :
    (short long : ℕ) (payload : Bytes)
    → length payload < 2 ^ 64
    → length (with_prefix short long payload) ≤ length payload + 9
unfolding with_prefix encode_length
length-with_prefix short long payload small = elim (Bool-cases (leb (length payload) 55)) [
  | inl e ↦ rw e (omega arith)
  | inr e ↦
      let k : Stands (significant 8 (length payload)) 8 (length payload) =
        significant-Stands 8 (length payload) (not_zero e) (omega arith) in
      rw e (omega (arith, length-append (significant 8 (length payload)) payload, k.bounded))
]
  where
    not_zero : leb (length payload) 55 ≡ false → length payload ≢ 0
    not_zero e z = ground arith

pub length-rlp_encode_bytes :
    (bytes : Bytes) → length bytes < 2 ^ 64 → length (rlp_encode_bytes bytes) ≤ length bytes + 9
unfolding rlp_encode_bytes
length-rlp_encode_bytes bytes small =
    elim (Bool-cases (length bytes == 1 && ltb (get_or bytes 0 0) 0x80)) [
      | inl e ↦ rw e (omega arith)
      | inr e ↦ rw e (length-with_prefix 0x80 0xb7 bytes small)
    ]

pub length-rlp_encode_uint : (value : ℕ) → length (rlp_encode_uint value) ≤ 25
unfolding rlp_encode_uint
length-rlp_encode_uint value = elim (Bool-cases (value == 0)) [
  | inl e ↦ rw e (omega arith)
  | inr e ↦ rw e (
      omega (
        arith,
        length-rlp_encode_bytes (significant 8 value) (omega (arith, length-significant 8 value)),
        length-significant 8 value,
      ))
]

pub length-rlp_encode_u128 : (value : ℕ) → length (rlp_encode_u128 value) ≤ 25
unfolding rlp_encode_u128
length-rlp_encode_u128 value = elim (Bool-cases (value == 0)) [
  | inl e ↦ rw e (omega arith)
  | inr e ↦ rw e (
      omega (
        arith,
        length-rlp_encode_bytes (significant 16 value) (omega (arith, length-significant 16 value)),
        length-significant 16 value,
      ))
]
