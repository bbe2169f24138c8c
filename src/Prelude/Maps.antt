-- ===== src/Prelude/Maps.antt =====
-- A hash map as an association list, over a test of its keys that holds exactly of equal ones.
use Prim.Native.Nat.{ℕ}
use mathlib.Core.Path.{◌≡◌, refl, sym, ap, ◌∙◌}
use mathlib.Core.Bool.{Bool, true, false}
use mathlib.Core.Logic.{◌⊎◌, inl, inr}
use mathlib.Core.Option.{Option, none, some}
use mathlib.Core.List.{List, [], ◌∷◌}
use native.Mathlib.Omega.{arith}
use veil_vpn.Prelude.Tests.{◌==◌, if◌then◌else◌, Bool-cases}
use veil_vpn.Prelude.Bytes.{Bytes, bytes_eq, bytes_eq_refl, bytes_eq→eq}

-- The test of a type of keys.
pub record Key (K : Type 0) : Type 0 where
  pub eq : K → K → Bool
  pub eq_refl : (k : K) → eq k k ≡ true
  pub eq_sound : (j k : K) → eq j k ≡ true → j ≡ k

pub ==_refl : (n : ℕ) → (n == n) ≡ true
==_refl n = ground arith

pub ==_sound : (m n : ℕ) → (m == n) ≡ true → m ≡ n
==_sound m n h = ground arith

instance abbrev pub nat_key : Key ℕ
nat_key = record { eq = ◌==◌; eq_refl = ==_refl; eq_sound = ==_sound }

instance abbrev pub bytes_key : Key Bytes
bytes_key = record { eq = bytes_eq; eq_refl = bytes_eq_refl; eq_sound = bytes_eq→eq }

module _ {K V : Type 0} ⦃key : Key K⦄ where
  unfoldable pub get : List (K × V) → K → Option V
  get [] k = none
  get ((j, v) ∷ m) k = if key.eq j k then some v else get m k

  unfoldable pub remove : List (K × V) → K → List (K × V)
  remove [] k = []
  remove ((j, v) ∷ m) k = let rest = remove m k in if key.eq j k then rest else (j, v) ∷ rest

  -- The new value replaces an old one.
  unfoldable pub insert : List (K × V) → K → V → List (K × V)
  unfolding remove
  insert m k v = (k, v) ∷ remove m k

  pub get-remove_self : (m : List (K × V)) (k : K) → get (remove m k) k ≡ none
  unfolding get remove
  get-remove_self [] k = refl
  get-remove_self ((j, v) ∷ m) k = elim (Bool-cases (key.eq j k)) [
    | inl e ↦ rw e (get-remove_self m k)
    | inr e ↦ rw (e, e) (get-remove_self m k)
  ]

  pub get-remove_ne :
      (m : List (K × V)) (k j : K) → key.eq k j ≡ false → get (remove m k) j ≡ get m j
  unfolding get remove
  get-remove_ne [] k j h = refl
  get-remove_ne ((i, v) ∷ m) k j h = elim (Bool-cases (key.eq i k)) [
    | inl e ↦
        let other : key.eq i j ≡ false = ap (λ x. key.eq x j) (key.eq_sound i k e) ∙ h in
        rw (e, other) (get-remove_ne m k j h)
    | inr e ↦ elim (Bool-cases (key.eq i j)) [
      | inl e' ↦ rw (e, e') refl
      | inr e' ↦ rw (e, e') (get-remove_ne m k j h)
    ]
  ]

  pub get-insert_self : (m : List (K × V)) (k : K) (v : V) → get (insert m k v) k ≡ some v
  unfolding get insert
  get-insert_self m k v = rw (key.eq_refl k) refl

  pub get-insert_ne :
      (m : List (K × V)) (k j : K) (v : V) → key.eq k j ≡ false → get (insert m k v) j ≡ get m j
  unfolding get insert
  get-insert_ne m k j v h = rw h (get-remove_ne m k j h)

  -- A key that is found after a removal was there before, and is another one.
  pub get-remove-some :
      (m : List (K × V)) (k j : K) (v : V)
      → get (remove m k) j ≡ some v
      → (key.eq k j ≡ false) × (get m j ≡ some v)
  get-remove-some m k j v h = elim (Bool-cases (key.eq k j)) [
    | inl e ↦
        let gone : get (remove m k) j ≡ none =
          ap (get (remove m k)) (sym (key.eq_sound k j e)) ∙ get-remove_self m k in
        cc (gone, h)
    | inr e ↦ (e, sym (get-remove_ne m k j e) ∙ h)
  ]

  -- A key that is found after an insertion is the new one, or was there before.
  pub get-insert_some :
      (m : List (K × V)) (k j : K) (v w : V)
      → get (insert m k v) j ≡ some w
      → ((k ≡ j) × (w ≡ v)) ⊎ ((key.eq k j ≡ false) × (get m j ≡ some w))
  get-insert_some m k j v w h = elim (Bool-cases (key.eq k j)) [
    | inl e ↦
        let here : get (insert m k v) j ≡ some v =
          ap (get (insert m k v)) (sym (key.eq_sound k j e)) ∙ get-insert_self m k v in
        inl (key.eq_sound k j e, cc (here, h))
    | inr e ↦ inr (e, sym (get-insert_ne m k j v e) ∙ h)
  ]

  -- Two keys with different answers are different.
  pub ne_of_get :
      (m : List (K × V)) (k j : K) (v : V) → get m k ≡ none → get m j ≡ some v → key.eq k j ≡ false
  ne_of_get m k j v h h' = elim (Bool-cases (key.eq k j)) [
    | inl e ↦ cc (ap (get m) (key.eq_sound k j e), h, h')
    | inr e ↦ e
  ]
