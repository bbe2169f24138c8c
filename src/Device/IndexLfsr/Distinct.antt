-- ===== src/Device/IndexLfsr/Distinct.antt =====
-- The indices that one register gives are all different, and fit 24 bits.
use Prim.Native.Nat.{bit_and, bit_xor}
use mathlib.Core.Path.{subst}
use veil_vpn.Prelude.{
  ℕ, zero, suc, ◌+◌, ◌-◌, ◌%◌, ◌^◌, ◌<◌, ◌≡◌, refl, sym, ap, ◌∙◌, ◌≢◌, inl, inr, Option, some, List,
  [], ◌∷◌, arith, ltb, ◌==◌, ◌>>=◌, All, All-zip, All-of, some-of_bind, Distinct, Bool-cases,
}
use veil_vpn.Prelude.Bits.{bit_and-lt}
use veil_vpn.Prelude.Xor.{bit_xor-lt, bit_xor_inj}
use veil_vpn.Device.IndexLfsr.{IndexLfsr, lfsr_max, random_index, default, shifted, next}
use veil_vpn.Device.IndexLfsr.Step.{IsRegister, shifted-IsRegister, shifted_inj}

-- A number of calls of `next`, with the indices they give.
unfoldable pub indices : ℕ → IndexLfsr → Option (IndexLfsr × List ℕ)
indices zero l = some (l, [])
indices (suc n) l = do (l', index) ← next l; (l'', rest) ← indices n l'; some (l'', index ∷ rest)

-- The index that a register gives under a mask.
abbrev pub index_of : ℕ → ℕ → ℕ
index_of mask l = bit_xor ((l + 2 ^ 32 - 1) % 2 ^ 32) mask

pub index_of_inj :
    (mask l m : ℕ)
    → mask < 2 ^ 24
    → IsRegister l
    → IsRegister m
    → index_of mask l ≡ index_of mask m
    → l ≡ m
index_of_inj mask l m small w u h =
    let same : (l + 2 ^ 32 - 1) % 2 ^ 32 ≡ (m + 2 ^ 32 - 1) % 2 ^ 32 =
      bit_xor_inj 24 ((l + 2 ^ 32 - 1) % 2 ^ 32) ((m + 2 ^ 32 - 1) % 2 ^ 32) mask
        (omega (arith, w.not_zero, w.is_small)) (omega (arith, u.not_zero, u.is_small)) small h in
    omega (arith, w.not_zero, w.is_small, u.not_zero, u.is_small)

-- The registers so far, the last one first: each is the step of the one before it, and the first
-- is the seed.
abbrev pub Chain : ℕ → List ℕ → Type 0
Chain initial [] = ⊥
Chain initial (s ∷ []) = s ≡ initial
Chain initial (s ∷ (u ∷ rest)) = (s ≡ shifted u) × Chain initial (u ∷ rest)

-- The step of a register that does not occur behind the first one does not occur at all, unless it
-- is the seed.
fresh :
    (initial c v : ℕ) (rest : List ℕ)
    → Chain initial (v ∷ rest)
    → All IsRegister rest
    → IsRegister c
    → shifted c ≢ initial
    → All (λ u. c ≢ u) rest
    → All (λ u. shifted c ≢ u) (v ∷ rest)
fresh initial c v [] chain w wc h d = (λ e. h (e ∙ chain), tt)
fresh initial c v (u ∷ rest) chain w wc h d =
    (λ e. d.0 (shifted_inj c u wc w.0 (e ∙ chain.0)), fresh initial c u rest chain.1 w.1 wc h d.1)

-- What `next` does when it does not panic.
pub next_lem :
    (l l' : IndexLfsr) (index : ℕ)
    → next l ≡ some (l', index)
    → (shifted l.lfsr ≢ l.initial)
      × (l' ≡ record l { lfsr = shifted l.lfsr })
      × (index ≡ index_of l.mask l.lfsr)
unfolding next
next_lem l l' index h = elim (Bool-cases (shifted l.lfsr == l.initial)) [
  | inl stop ↦ cc (h, stop)
  | inr go ↦ (ground arith, ground arith, ground arith)
]

-- What the registers so far, and the indices to come, have to do with one another.
pub record Used (l : IndexLfsr) (seen : List ℕ) : Type 0 where
  pub chain : Chain l.initial (l.lfsr ∷ seen)
  pub registers : All IsRegister (l.lfsr ∷ seen)
  pub apart : Distinct (l.lfsr ∷ seen)
  pub mask_small : l.mask < 2 ^ 24

pub Used-next :
    (l : IndexLfsr) (seen : List ℕ)
    → Used l seen
    → shifted l.lfsr ≢ l.initial
    → Used (record l { lfsr = shifted l.lfsr }) (l.lfsr ∷ seen)
Used-next l seen w h = record {
  chain = (refl, w.chain);
  registers = (shifted-IsRegister l.lfsr w.registers.0, w.registers);
  apart =
      (fresh l.initial l.lfsr l.lfsr seen w.chain w.registers.1 w.registers.0 h w.apart.0, w.apart);
  mask_small = w.mask_small;
}

-- The indices to come differ from one another and from those of the registers so far.
abbrev Apart : ℕ → List ℕ → List ℕ → Type 0
Apart mask seen given =
    All (λ u. All (λ i. index_of mask u ≢ i) given) seen
    × Distinct given
    × All (λ i. i < 2 ^ 24) given

-- One more index, of the register that is current.
Apart-cons :
    (mask l : ℕ) (seen given : List ℕ)
    → mask < 2 ^ 24
    → All IsRegister (l ∷ seen)
    → All (λ u. l ≢ u) seen
    → Apart mask (l ∷ seen) given
    → Apart mask seen (index_of mask l ∷ given)
Apart-cons mask l seen given small w d k = (
  All-zip seen (λ u p q. (p, q))
      (All-zip seen (λ u r p. λ e. p (index_of_inj mask l u small w.0 r (sym e))) w.1 d) k.0.1,
  (k.0.0, k.1),
  (
    bit_xor-lt 24 ((l + 2 ^ 32 - 1) % 2 ^ 32) mask (omega (arith, w.0.not_zero, w.0.is_small))
        small,
    k.2,
  ),
)

indices-Apart :
    (n : ℕ) (l l' : IndexLfsr) (seen given : List ℕ)
    → Used l seen
    → indices n l ≡ some (l', given)
    → Apart l.mask seen given
unfolding indices
indices-Apart zero l l' seen given w h =
    let nothing : given ≡ [] = cc h in
    subst (Apart l.mask seen) (sym nothing) (All-of (λ u. tt) seen, tt, tt)
indices-Apart (suc n) l l' seen given w h =
    let ((l1, index), e, h1) = some-of_bind (next l) _ h in
    let ((l2, rest), e', h2) = some-of_bind (indices n l1) _ h1 in
    let (go, moved, value) = next_lem l l1 index e in
    let whole : given ≡ index_of l.mask l.lfsr ∷ rest = cc (h2, value) in
    let k =
      indices-Apart n (record l { lfsr = shifted l.lfsr }) l2 (l.lfsr ∷ seen) rest
        (Used-next l seen w go) (ap (indices n) (sym moved) ∙ e') in
    subst (Apart l.mask seen) (sym whole)
      (Apart-cons l.mask l.lfsr seen rest w.mask_small w.registers w.apart.0 k)

random_index-IsRegister :
    (words rest : List ℕ) (i : ℕ) → random_index words ≡ some (i, rest) → IsRegister i
unfolding random_index
random_index-IsRegister [] rest i h = cc
random_index-IsRegister (w ∷ ws) rest i h = elim (Bool-cases (ltb 0 (bit_and w lfsr_max))) [
  | inl good ↦
      let given : i ≡ bit_and w lfsr_max = ground (arith, h, good) in
      record {
        not_zero = ground (arith, good);
        is_small = omega (arith, given, bit_and-lt 24 w lfsr_max (omega arith));
      }
  | inr bad ↦ random_index-IsRegister ws rest i (ground (arith, h, bad))
]

pub default-Used :
    (words rest : List ℕ) (l : IndexLfsr) → default words ≡ some (l, rest) → Used l []
unfolding default
default-Used words rest l h =
    let ((seed, ws), e, h1) = some-of_bind (random_index words) _ h in
    let ((mask, ws'), e', h2) = some-of_bind (random_index ws) _ h1 in
    let w = random_index-IsRegister words ws seed e in
    let u = random_index-IsRegister ws ws' mask e' in
    let made : l ≡ record { initial = seed; lfsr = seed; mask = mask } = cc h2 in
    subst (λ l. Used l []) (sym made)
      (record { chain = refl; registers = (w, tt); apart = (tt, tt); mask_small = u.is_small })

-- The indices of a device all differ from one another and fit 24 bits: whatever random words the
-- register starts from, and however often `next` is called, as long as no call panics.
pub indices-Distinct :
    (words rest : List ℕ) (l l' : IndexLfsr) (n : ℕ) (given : List ℕ)
    → default words ≡ some (l, rest)
    → indices n l ≡ some (l', given)
    → Distinct given × All (λ i. i < 2 ^ 24) given
indices-Distinct words rest l l' n given h k =
    let apart = indices-Apart n l l' [] given (default-Used words rest l h) k in (apart.1, apart.2)
