-- ===== src/Prelude/Bytes.antt =====
-- Byte slices: `&xs[a..b]`, and the little- and big-endian forms of a word of k bytes.
use Prim.Native.Nat.{ℕ, zero, suc, ◌+◌, ◌-◌, ◌*◌, ◌/◌, ◌%◌, ◌^◌, ◌≤◌, ◌<◌}
use mathlib.Core.Path.{◌≡◌, refl, ap, ◌∙◌, subst}
use mathlib.Core.List.{List, [], ◌∷◌, ◌++◌, reverse, reverse-cons, reverse-reverse}
use native.Mathlib.Omega.{arith}
use native.Mathlib.Nat.{pow-suc}
use mathlib.Core.Bool.{Bool, true, false, ◌&&◌}
use veil_vpn.Prelude.Tests.{◌==◌}
use veil_vpn.Prelude.Lists.{length, take, drop, length-append, length-take, length-drop, All}

abbrev pub Bytes : Type 0
Bytes = List ℕ

abbrev pub IsByte : ℕ → Type 0
IsByte b = b < 256

-- `&xs[a..b]`
abbrev pub slice {ℓ} : {A : Type ℓ} → ℕ → ℕ → List A → List A
slice a b xs = take (b - a) (drop a xs)

module _ {ℓ} {A : Type ℓ} where
  pub take-append : (xs ys : List A) (n : ℕ) → length xs ≡ n → take n (xs ++ ys) ≡ xs
  take-append [] ys zero h = refl
  take-append [] ys (suc n) h = absurd (omega arith)
  take-append (x ∷ xs) ys zero h = absurd (omega arith)
  take-append (x ∷ xs) ys (suc n) h = ap (◌∷◌ x) (take-append xs ys n (omega arith))

  pub drop-append : (xs ys : List A) (n m : ℕ) → length xs ≡ n → drop (n + m) (xs ++ ys) ≡ drop m ys
  drop-append [] ys zero m h = let e : 0 + m ≡ m = omega arith in rw e
  drop-append [] ys (suc n) m h = absurd (omega arith)
  drop-append (x ∷ xs) ys zero m h = absurd (omega arith)
  drop-append (x ∷ xs) ys (suc n) m h =
      let e : suc n + m ≡ suc (n + m) = omega arith in rw e (drop-append xs ys n m (omega arith))

  pub take_all : (xs : List A) (n : ℕ) → length xs ≡ n → take n xs ≡ xs
  take_all [] zero h = refl
  take_all [] (suc n) h = refl
  take_all (x ∷ xs) zero h = absurd (omega arith)
  take_all (x ∷ xs) (suc n) h = ap (◌∷◌ x) (take_all xs n (omega arith))

  -- A slice behind a prefix, a slice that is the prefix, and the slice of the rest.
  pub slice-skip :
      (xs ys : List A) (n a b : ℕ) → length xs ≡ n → slice (n + a) (n + b) (xs ++ ys) ≡ slice a b ys
  slice-skip xs ys n a b h =
      ap (λ k. take k (drop (n + a) (xs ++ ys))) (omega arith)
      ∙ ap (take (b - a)) (drop-append xs ys n a h)

  pub slice-head : (xs ys : List A) (n : ℕ) → length xs ≡ n → slice 0 n (xs ++ ys) ≡ xs
  slice-head xs ys n h = let e : n - 0 ≡ n = omega arith in rw e (take-append xs ys n h)

  pub length-slice : (a b : ℕ) (xs : List A) → a ≤ b → b ≤ length xs → length (slice a b xs) ≡ b - a
  length-slice a b xs h k = omega (arith, length-take (b - a) (drop a xs), length-drop a xs)

unfoldable pub to_le_bytes : ℕ → ℕ → Bytes
to_le_bytes zero n = []
to_le_bytes (suc k) n = n % 256 ∷ to_le_bytes k (n / 256)

unfoldable pub from_le_bytes : Bytes → ℕ
from_le_bytes [] = 0
from_le_bytes (b ∷ bs) = b + 256 * from_le_bytes bs

unfoldable pub to_be_bytes : ℕ → ℕ → Bytes
unfolding to_le_bytes
to_be_bytes k n = reverse (to_le_bytes k n)

unfoldable pub from_be_bytes : Bytes → ℕ
unfolding from_le_bytes
from_be_bytes bs = from_le_bytes (reverse bs)

pub length-to_le_bytes : (k n : ℕ) → length (to_le_bytes k n) ≡ k
unfolding to_le_bytes
length-to_le_bytes zero n = refl
length-to_le_bytes (suc k) n = ap suc (length-to_le_bytes k (n / 256))

pub from_le_bytes-to_le_bytes : (k n : ℕ) → n < 256 ^ k → from_le_bytes (to_le_bytes k n) ≡ n
unfolding to_le_bytes from_le_bytes
from_le_bytes-to_le_bytes zero n h = omega arith
from_le_bytes-to_le_bytes (suc k) n h =
    omega (arith, from_le_bytes-to_le_bytes k (n / 256) (omega (arith, pow-suc 256 k)))

pub length-reverse {ℓ} : {A : Type ℓ} (xs : List A) → length (reverse xs) ≡ length xs
length-reverse [] = refl
length-reverse (x ∷ xs) =
    omega
      (arith, ap length (reverse-cons x xs), length-append (reverse xs) (x ∷ []), length-reverse xs)

pub length-to_be_bytes : (k n : ℕ) → length (to_be_bytes k n) ≡ k
unfolding to_be_bytes
length-to_be_bytes k n = length-reverse (to_le_bytes k n) ∙ length-to_le_bytes k n

pub from_be_bytes-to_be_bytes : (k n : ℕ) → n < 256 ^ k → from_be_bytes (to_be_bytes k n) ≡ n
unfolding to_be_bytes from_be_bytes
from_be_bytes-to_be_bytes k n h =
    ap from_le_bytes (reverse-reverse (to_le_bytes k n)) ∙ from_le_bytes-to_le_bytes k n h

module _ {ℓ κ} {A : Type ℓ} (P : A → Type κ) where
  pub All-take : (n : ℕ) (xs : List A) → All P xs → All P (take n xs)
  All-take zero xs h = tt
  All-take (suc n) [] h = tt
  All-take (suc n) (x ∷ xs) h = (h.0, All-take n xs h.1)

  pub All-drop : (n : ℕ) (xs : List A) → All P xs → All P (drop n xs)
  All-drop zero xs h = h
  All-drop (suc n) [] h = tt
  All-drop (suc n) (x ∷ xs) h = All-drop n xs h.1

  pub All-slice : (a b : ℕ) (xs : List A) → All P xs → All P (slice a b xs)
  All-slice a b xs h = All-take (b - a) (drop a xs) (All-drop a xs h)

  pub All-append : (xs ys : List A) → All P xs → All P ys → All P (xs ++ ys)
  All-append [] ys hx hy = hy
  All-append (x ∷ xs) ys hx hy = (hx.0, All-append xs ys hx.1 hy)

pub from_le_bytes-lt : (bs : Bytes) → All IsByte bs → from_le_bytes bs < 256 ^ length bs
unfolding from_le_bytes
from_le_bytes-lt [] h = omega arith
from_le_bytes-lt (b ∷ bs) h = omega (arith, h.0, from_le_bytes-lt bs h.1, pow-suc 256 (length bs))

-- A word read from a slice of k bytes is a word of k bytes.
pub from_le_bytes-slice :
    (a b k : ℕ) (bs : Bytes)
    → All IsByte bs
    → a + k ≡ b
    → b ≤ length bs
    → from_le_bytes (slice a b bs) < 256 ^ k
from_le_bytes-slice a b k bs h e l =
    subst (λ n. from_le_bytes (slice a b bs) < 256 ^ n)
      (omega (arith, length-slice a b bs (omega arith) l))
      (from_le_bytes-lt (slice a b bs) (All-slice IsByte a b bs h))

-- Equality of byte strings.
unfoldable pub bytes_eq : Bytes → Bytes → Bool
bytes_eq [] [] = true
bytes_eq [] (y ∷ ys) = false
bytes_eq (x ∷ xs) [] = false
bytes_eq (x ∷ xs) (y ∷ ys) = x == y && bytes_eq xs ys

pub bytes_eq_refl : (xs : Bytes) → bytes_eq xs xs ≡ true
unfolding bytes_eq
bytes_eq_refl [] = refl
bytes_eq_refl (x ∷ xs) = ground (arith, bytes_eq_refl xs)

pub bytes_eq→eq : (xs ys : Bytes) → bytes_eq xs ys ≡ true → xs ≡ ys
unfolding bytes_eq
bytes_eq→eq [] [] h = refl
bytes_eq→eq [] (y ∷ ys) h = cc
bytes_eq→eq (x ∷ xs) [] h = cc
bytes_eq→eq (x ∷ xs) (y ∷ ys) h = ground (arith, bytes_eq→eq xs ys)
