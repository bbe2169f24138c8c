-- ===== src/Payment/Protocol/Fields.antt =====
-- Fields of bytes behind one another: each is read back at the sum of the lengths before it.
use veil_vpn.Prelude.{
  ℕ, suc, ◌+◌, ◌-◌, ◌^◌, ◌≤◌, ◌<◌, ◌≡◌, refl, sym, ap, ◌∙◌, some, List, [], ◌∷◌, ◌++◌, arith,
  length, length-append, get_or, drop,
}
use veil_vpn.Prelude.Bytes.{
  Bytes, slice, slice-skip, slice-head, take_all, drop-append, to_be_bytes, from_be_bytes,
  length-to_be_bytes, from_be_bytes-to_be_bytes,
}
use veil_vpn.Payment.Protocol.{framed, payload_of}

-- The fields before a point, the rest behind them, and the length of the fields.
abbrev pub join : List Bytes → Bytes → Bytes
join [] rest = rest
join (p ∷ ps) rest = p ++ join ps rest

abbrev pub total : List Bytes → ℕ
total [] = 0
total (p ∷ ps) = length p + total ps

slice-join :
    (pre : List Bytes) (rest : Bytes) (n : ℕ)
    → slice (total pre) (total pre + n) (join pre rest) ≡ slice 0 n rest
slice-join [] rest n = ap (λ k. slice 0 k rest) (omega arith)
slice-join (p ∷ ps) rest n =
    let shift : length p + total ps + n ≡ length p + (total ps + n) = omega arith in
    ap (λ k. slice (length p + total ps) k (p ++ join ps rest)) shift
    ∙ slice-skip p (join ps rest) (length p) (total ps) (total ps + n) refl
    ∙ slice-join ps rest n

-- A field with others behind it, and the last field.
pub field :
    (pre : List Bytes) (x post : Bytes) (a b : ℕ)
    → total pre ≡ a
    → length x + a ≡ b
    → slice a b (join pre (x ++ post)) ≡ x
field pre x post a b from upto =
    let width : b ≡ total pre + length x = omega (arith, from, upto) in
    ap (λ k. slice k b (join pre (x ++ post))) (sym from)
    ∙ ap (λ k. slice (total pre) k (join pre (x ++ post))) width
    ∙ slice-join pre (x ++ post) (length x)
    ∙ slice-head x post (length x) refl

pub last_field :
    (pre : List Bytes) (x : Bytes) (a b : ℕ)
    → total pre ≡ a
    → length x + a ≡ b
    → slice a b (join pre x) ≡ x
last_field pre x a b from upto =
    let width : b ≡ total pre + length x = omega (arith, from, upto) in
    ap (λ k. slice k b (join pre x)) (sym from)
    ∙ ap (λ k. slice (total pre) k (join pre x)) width
    ∙ slice-join pre x (length x)
    ∙ take_all x (length x - 0) (omega arith)

-- A word of 8 bytes.
pub word :
    (pre : List Bytes) (w : ℕ) (post : Bytes) (a b : ℕ)
    → w < 2 ^ 64
    → total pre ≡ a
    → 8 + a ≡ b
    → from_be_bytes (slice a b (join pre (to_be_bytes 8 w ++ post))) ≡ w
word pre w post a b small from upto =
    ap from_be_bytes
      (field pre (to_be_bytes 8 w) post a b from (omega (arith, length-to_be_bytes 8 w, upto)))
    ∙ from_be_bytes-to_be_bytes 8 w small

pub byte :
    (pre : List Bytes) (v : ℕ) (post : Bytes) → get_or (join pre (v ∷ post)) (total pre) 0 ≡ v
byte [] v post = refl
byte (p ∷ ps) v post = get_or-behind p (join ps (v ∷ post)) (total ps) ∙ byte ps v post
  where
    get_or-behind : (xs ys : Bytes) (k : ℕ) → get_or (xs ++ ys) (length xs + k) 0 ≡ get_or ys k 0
    get_or-behind [] ys k = ap (λ j. get_or ys j 0) (omega arith)
    get_or-behind (x ∷ xs) ys k =
        let shift : suc (length xs) + k ≡ suc (length xs + k) = omega arith in
        ap (λ j. get_or (x ∷ (xs ++ ys)) j 0) shift ∙ get_or-behind xs ys k

-- A framed message gives its fields back.
pub payload_of-framed :
    (msg_type n min_len : ℕ) (body : Bytes)
    → length body ≡ n
    → n < 2 ^ 16
    → min_len ≤ n
    → payload_of msg_type min_len (framed msg_type n body) ≡ some body
unfolding payload_of framed
payload_of-framed msg_type n min_len body sized small enough =
    ground (arith, len_eq, two, length-append (to_be_bytes 2 n) body, sized, behind)
  where
    two : length (to_be_bytes 2 n) ≡ 2
    two = length-to_be_bytes 2 n

    len_eq : from_be_bytes (slice 1 3 (msg_type ∷ (to_be_bytes 2 n ++ body))) ≡ n
    len_eq =
        ap from_be_bytes (slice-head (to_be_bytes 2 n) body 2 two)
        ∙ from_be_bytes-to_be_bytes 2 n small

    behind : drop 2 (to_be_bytes 2 n ++ body) ≡ body
    behind = drop-append (to_be_bytes 2 n) body 2 0 two
