-- ===== src/Noise/Tunn/Expiry.antt =====
-- noise/timers.rs: what `update_session_timers` does to each slot of the ring, and that the
-- subtractions of `update_timers` do not panic.
use veil_vpn.Prelude.{
  ℕ, zero, suc, ◌-◌, ◌≤◌, ◌<◌, ◌≡◌, refl, ◌⊎◌, inl, inr, Option, none, some, List, [], ◌∷◌, arith,
  length, get_or, ltb, Option-cases, if◌then◌else◌, All,
}
use veil_vpn.Noise.Session.{Session}
use veil_vpn.Noise.Timers.{reject_after_time, since}
use veil_vpn.Noise.Tunn.Clock.{expire_slot, expire_slots}

-- The slot `k` before and after.
pub record Slot (now k : ℕ) (ss ss' : List (Option Session)) (ts ts' : List ℕ) : Type 0 where
  pub not_ahead : get_or ts k 0 ≤ now
  pub outcome :
      ((reject_after_time < now - get_or ts k 0)
        × (get_or ss' k none ≡ none)
        × (get_or ts' k 0 ≡ now))
      ⊎ ((now - get_or ts k 0 ≤ reject_after_time)
          × (get_or ss' k none ≡ get_or ss k none)
          × (get_or ts' k 0 ≡ get_or ts k 0))

pub expire_slots-length :
    (now : ℕ) (ss ss' : List (Option Session)) (ts ts' : List ℕ)
    → expire_slots now ss ts ≡ some (ss', ts')
    → (length ss' ≡ length ss) × (length ts' ≡ length ts)
unfolding expire_slots
expire_slots-length now [] ss' ts ts' h = ground arith
expire_slots-length now (s ∷ ss) ss' [] ts' h = ground arith
expire_slots-length now (s ∷ ss) ss' (t ∷ ts) ts' h = elim (Option-cases (expire_slot now s t)) [
  | inl e ↦ absurd (ground (arith, e))
  | inr (x, e) ↦ elim (Option-cases (expire_slots now ss ts)) [
    | inl f ↦ absurd (ground (arith, e, f))
    | inr ((us, vs), f) ↦ let ih = expire_slots-length now ss us ts vs f in ground (arith, e, f, ih)
  ]
]

expire_slot-Slot :
    (now : ℕ) (s s' : Option Session) (ss ss' : List (Option Session)) (t t' : ℕ) (ts ts' : List ℕ)
    → expire_slot now s t ≡ some (s', t')
    → Slot now 0 (s ∷ ss) (s' ∷ ss') (t ∷ ts) (t' ∷ ts')
unfolding expire_slot since
expire_slot-Slot now s s' ss ss' t t' ts ts' h = record {
  not_ahead = ground arith;
  outcome = ground arith;
}

cons-Slot :
    (now : ℕ) (s s' : Option Session) (ss ss' : List (Option Session)) (t t' : ℕ) (ts ts' : List ℕ)
    → expire_slot now s t ≡ some (s', t')
    → ((k : ℕ) → k < length ss → Slot now k ss ss' ts ts')
    → (k : ℕ) → k < length (s ∷ ss)
    → Slot now k (s ∷ ss) (s' ∷ ss') (t ∷ ts) (t' ∷ ts')
cons-Slot now s s' ss ss' t t' ts ts' e rest zero b = expire_slot-Slot now s s' ss ss' t t' ts ts' e
cons-Slot now s s' ss ss' t t' ts ts' e rest (suc k) b =
    let r = rest k (omega (arith, b)) in record { not_ahead = r.not_ahead; outcome = r.outcome }

-- Every slot whose session was established more than the limit ago is emptied and its timer set to
-- the current time; every other slot is kept. No timer was ahead of the clock, or the loop had
-- panicked.
pub expire_slots-Slot :
    (now : ℕ) (ss ss' : List (Option Session)) (ts ts' : List ℕ)
    → expire_slots now ss ts ≡ some (ss', ts')
    → length ss ≡ length ts
    → (k : ℕ) → k < length ss
    → Slot now k ss ss' ts ts'
unfolding expire_slots
expire_slots-Slot now [] ss' ts ts' h same k b = absurd (ground arith)
expire_slots-Slot now (s ∷ ss) ss' [] ts' h same k b = absurd (ground arith)
expire_slots-Slot now (s ∷ ss) ss' (t ∷ ts) ts' h same k b =
    elim (Option-cases (expire_slot now s t)) [
      | inl e ↦ absurd (ground (arith, e))
      | inr ((s1, t1), e) ↦ elim (Option-cases (expire_slots now ss ts)) [
        | inl f ↦ absurd (ground (arith, e, f))
        | inr ((us, vs), f) ↦
            let sessions : ss' ≡ s1 ∷ us = ground (arith, e, f) in
            let session_timers : ts' ≡ t1 ∷ vs = ground (arith, e, f) in
            rw (sessions, session_timers)
              (cons-Slot now s s1 ss us t t1 ts vs e
                (expire_slots-Slot now ss us ts vs f (omega (arith, same))) k b)
      ]
    ]

-- The loop does not panic when no timer is ahead of the clock.
pub expire_slots_total :
    (now : ℕ) (ss : List (Option Session)) (ts : List ℕ)
    → All (λ t. t ≤ now) ts
    → (ss' : List (Option Session)) × (ts' : List ℕ) × (expire_slots now ss ts ≡ some (ss', ts'))
unfolding expire_slots expire_slot since
expire_slots_total now [] ts all = ([], ts, refl)
expire_slots_total now (s ∷ ss) [] all = (s ∷ ss, [], refl)
expire_slots_total now (s ∷ ss) (t ∷ ts) (le, all) =
    let (us, vs, f) = expire_slots_total now ss ts all in
    let slot : Option Session × ℕ =
      if ltb reject_after_time (now - t) then (none, now) else (s, t) in
    (slot.0 ∷ us, slot.1 ∷ vs, ground (arith, f, le))
