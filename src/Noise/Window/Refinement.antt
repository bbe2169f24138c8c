-- ===== src/Noise/Window/Refinement.antt =====
-- The window against its specification, the set of all counters that were accepted.
use veil_vpn.Prelude.{
  ℕ, ◌+◌, ◌-◌, ◌^◌, ◌≤◌, ◌<◌, max, ◌≡◌, refl, ◌∙◌, inl, inr, Bool, true, false, ◌||◌, ltb, leb,
  ◌==◌, if◌then◌else◌, arith, Bool-cases, add_u64, add_u64-no_wrap, ◌↔◌,
}
use veil_vpn.Noise.Errors.{WireGuardError, Result, ok, err, invalid_counter}
use veil_vpn.Noise.Window.{
  ReceivingKeyCounterValidator, n_bits, check_bit, set_bit, skip_to, will_accept, mark_did_receive,
}
use veil_vpn.Noise.Window.Bitmap.{
  IsBitmap, set_bit-IsBitmap, check_bit-set_bit, check_bit-replicate,
}
use veil_vpn.Noise.Window.Loops.{Clears, clear_gap-Clears}

-- What the window stands for: every counter accepted so far, and the bound above them.
pub record History : Type 0 where
  pub next : ℕ
  pub seen : ℕ → Bool

abbrev pub no_history : History
no_history = record { next = 0; seen = λ _. false }

-- A counter is accepted unless it lies behind the window or was accepted before.
abbrev pub accept : History → ℕ → History × Result (Unit {0})
accept w counter =
    if ltb (counter + n_bits) w.next || w.seen counter
    then (w, err invalid_counter)
    else (record { next = max w.next (counter + 1); seen = λ c. c == counter || w.seen c }, ok tt)

pub record Refines (v : ReceivingKeyCounterValidator) (w : History) : Type 0 where
  pub next_eq : v.next ≡ w.next
  pub sized : IsBitmap v.bitmap
  pub agrees : (c : ℕ) → c < v.next → v.next ≤ c + n_bits → check_bit v.bitmap c ≡ w.seen c
  pub fresh : (c : ℕ) → v.next ≤ c → w.seen c ≡ false

skip_to-Clears :
    (v : ReceivingKeyCounterValidator) (counter : ℕ)
    → counter < 2 ^ 64
    → v.next ≤ counter
    → IsBitmap v.bitmap
    → Clears counter v.next v.bitmap counter (skip_to v counter)
unfolding skip_to
skip_to-Clears v counter w h s = elim (Bool-cases (leb n_bits (counter - v.next))) [
  | inl e ↦ rw e (record {
    from_le = h;
    to_le = omega arith;
    sized = refl;
    kept = λ c p q. absurd (ground arith);
    cleared = λ c p q. check_bit-replicate c;
  })
  | inr e ↦ rw e (clear_gap-Clears v.next counter v.bitmap w h (ground arith) s)
]

abbrev add : History → ℕ → History
add w counter = record { next = max w.next (counter + 1); seen = λ c. c == counter || w.seen c }

module _ (v : ReceivingKeyCounterValidator) (w : History) (counter : ℕ) where
  in_order-Refines :
      counter + n_bits < 2 ^ 64
      → Refines v w
      → counter ≡ v.next
      → Refines
          (record v { bitmap = set_bit v.bitmap counter; next = add_u64 v.next 1 })
          (add w counter)
  unfolding add_u64
  in_order-Refines b r e = record {
    next_eq = omega (arith, r.next_eq);
    sized = set_bit-IsBitmap v.bitmap counter r.sized;
    agrees = λ c p q.
        ground (arith, check_bit-set_bit v.bitmap counter c r.sized, r.agrees c, r.next_eq);
    fresh = λ c p. ground (arith, r.fresh c);
  }

  late-Refines :
      counter + n_bits < 2 ^ 64
      → Refines v w
      → counter < v.next
      → v.next ≤ counter + n_bits
      → Refines (record v { bitmap = set_bit v.bitmap counter }) (add w counter)
  late-Refines b r lt g = record {
    next_eq = omega (arith, r.next_eq);
    sized = set_bit-IsBitmap v.bitmap counter r.sized;
    agrees = λ c p q.
        ground (arith, check_bit-set_bit v.bitmap counter c r.sized, r.agrees c, r.next_eq);
    fresh = λ c p. ground (arith, r.fresh c);
  }

  skip-Refines :
      counter + n_bits < 2 ^ 64
      → Refines v w
      → v.next < counter
      → Refines
          (record v { bitmap = set_bit (skip_to v counter) counter; next = add_u64 counter 1 })
          (add w counter)
  unfolding add_u64
  skip-Refines b r lt =
      let skip = skip_to-Clears v counter (omega arith) (omega arith) r.sized in
      record {
        next_eq = omega (arith, r.next_eq);
        sized = set_bit-IsBitmap (skip_to v counter) counter skip.sized;
        agrees = λ c p q. ground (
          arith,
          check_bit-set_bit (skip_to v counter) counter c skip.sized,
          skip.kept c,
          skip.cleared c,
          r.agrees c,
          r.fresh c,
        );
        fresh = λ c p. ground (arith, r.fresh c);
      }

  abbrev Agree :
      ReceivingKeyCounterValidator × Result (Unit {0}) → History × Result (Unit {0}) → Type 0
  Agree (v', a) (w', b) = (a ≡ b) × Refines v' w'

  mark_did_receive-Agree :
      counter + n_bits < 2 ^ 64
      → Refines v w
      → Agree (mark_did_receive v counter) (accept w counter)
  unfolding mark_did_receive
  mark_did_receive-Agree b r = elim (Bool-cases (ltb (counter + n_bits) v.next)) [
    | inl old ↦ rw (code old, spec_old (ground (arith, r.next_eq))) (refl, r)
    | inr new ↦ elim (Bool-cases (counter == v.next)) [
      | inl e ↦
          let unseen = r.fresh counter (ground arith) in
          rw (code new, e, spec_add (ground (arith, r.next_eq)) unseen)
            (refl, in_order-Refines b r (ground arith))
      | inr ne ↦ elim (Bool-cases (ltb counter v.next)) [
        | inl lt ↦
            let same = r.agrees counter (ground arith) (ground arith) in
            elim (Bool-cases (w.seen counter)) [
              | inl seen ↦
                  rw (code new, ne, lt, same ∙ seen, spec_seen (ground (arith, r.next_eq)) seen)
                    (refl, r)
              | inr unseen ↦
                  rw (code new, ne, lt, same ∙ unseen, spec_add (ground (arith, r.next_eq)) unseen)
                    (refl, late-Refines b r (ground arith) (ground arith))
            ]
        | inr gt ↦
            let unseen = r.fresh counter (ground arith) in
            rw (code new, ne, gt, spec_add (ground (arith, r.next_eq)) unseen)
              (refl, skip-Refines b r (ground arith))
      ]
    ]
  ]
    where
      code :
          {t : Bool} → ltb (counter + n_bits) v.next ≡ t → ltb (add_u64 counter n_bits) v.next ≡ t
      code h = rw (add_u64-no_wrap counter n_bits b) h

      spec_old : ltb (counter + n_bits) w.next ≡ true → accept w counter ≡ (w, err invalid_counter)
      spec_old h = rw h

      spec_seen :
          ltb (counter + n_bits) w.next ≡ false
          → w.seen counter ≡ true
          → accept w counter ≡ (w, err invalid_counter)
      spec_seen h k = rw (h, k)

      spec_add :
          ltb (counter + n_bits) w.next ≡ false
          → w.seen counter ≡ false
          → accept w counter ≡ (add w counter, ok tt)
      spec_add h k = rw (h, k)

  -- Refinement: one call answers as the specification, which remembers every counter, does, and
  -- stays in step with it, for a counter that leaves room for the window below 2^64.
  pub mark_did_receive-accept :
      counter + n_bits < 2 ^ 64
      → Refines v w
      → ((mark_did_receive v counter).1 ≡ (accept w counter).1)
        × Refines (mark_did_receive v counter).0 (accept w counter).0
  mark_did_receive-accept b r = mark_did_receive-Agree b r

-- The quick check answers as the marking would.
pub will_accept_iff :
    (v : ReceivingKeyCounterValidator) (counter : ℕ)
    → counter + n_bits < 2 ^ 64
    → (will_accept v counter ≡ ok tt) ↔ ((mark_did_receive v counter).1 ≡ ok tt)
unfolding will_accept mark_did_receive
will_accept_iff v counter b = (
  ground (arith, add_u64-no_wrap counter n_bits b),
  ground (arith, add_u64-no_wrap counter n_bits b),
)

-- A refusal does not touch the window.
pub mark_did_receive-err :
    (v : ReceivingKeyCounterValidator) (counter : ℕ) (e : WireGuardError)
    → (mark_did_receive v counter).1 ≡ err e
    → (mark_did_receive v counter).0 ≡ v
unfolding mark_did_receive
mark_did_receive-err v counter e h = ground arith
