-- ===== src/Payment/Quota/Accounting.antt =====
-- What the quota promises over any sequence of calls.
use veil_vpn.Prelude.{ℕ, ◌+◌, ◌^◌, ◌<◌, ◌≡◌, true, false, List, [], ◌∷◌, ◌⊎◌, arith, add_u64}
use veil_vpn.Prelude.Bytes.{Bytes, bytes_eq_refl}
use veil_vpn.Payment.Quota.{BandwidthQuota, consume, credit, contains_nonce, check_and_record_nonce}

pub data Call : Type 0 where
  consumes credits : ℕ → Call
  records_nonce : Bytes → Call

unfoldable pub step : BandwidthQuota → Call → BandwidthQuota
step q (consumes bytes) = (consume q bytes).0
step q (credits bytes) = credit q bytes
step q (records_nonce nonce) = (check_and_record_nonce q nonce).0

unfoldable pub run : BandwidthQuota → List Call → BandwidthQuota
run q [] = q
run q (x ∷ xs) = run (step q x) xs

-- The bytes that a history pays for.
abbrev pub paid : List Call → ℕ
paid [] = 0
paid (credits bytes ∷ xs) = bytes + paid xs
paid (consumes bytes ∷ xs) = paid xs
paid (records_nonce nonce ∷ xs) = paid xs

step-balance :
    (q : BandwidthQuota) (x : Call)
    → q.remaining_bytes + q.total_consumed + paid (x ∷ []) < 2 ^ 64
    → (step q x).remaining_bytes + (step q x).total_consumed
      ≡ q.remaining_bytes + q.total_consumed + paid (x ∷ [])
unfolding step consume credit check_and_record_nonce add_u64
step-balance q (consumes bytes) h = ground arith
step-balance q (credits bytes) h = ground arith
step-balance q (records_nonce nonce) h = ground arith

-- Conservation: whatever the calls and their order, what remains and what was consumed add up to
-- what there was and what was credited since.
pub run-balance :
    (q : BandwidthQuota) (xs : List Call)
    → q.remaining_bytes + q.total_consumed + paid xs < 2 ^ 64
    → (run q xs).remaining_bytes + (run q xs).total_consumed
      ≡ q.remaining_bytes + q.total_consumed + paid xs
unfolding run
run-balance q [] h = omega arith
run-balance q (credits b ∷ xs) h = omega (
  arith,
  step-balance q (credits b) (omega arith),
  run-balance (step q (credits b)) xs (omega (arith, step-balance q (credits b) (omega arith))),
)
run-balance q (consumes b ∷ xs) h = omega (
  arith,
  step-balance q (consumes b) (omega arith),
  run-balance (step q (consumes b)) xs (omega (arith, step-balance q (consumes b) (omega arith))),
)
run-balance q (records_nonce b ∷ xs) h = omega (
  arith,
  step-balance q (records_nonce b) (omega arith),
  run-balance (step q (records_nonce b)) xs
      (omega (arith, step-balance q (records_nonce b) (omega arith))),
)

-- The nonces on record only grow.
pub step-contains :
    (q : BandwidthQuota) (x : Call) (nonce : Bytes)
    → contains_nonce q.used_nonces nonce ≡ true
    → contains_nonce (step q x).used_nonces nonce ≡ true
unfolding step consume credit check_and_record_nonce contains_nonce
step-contains q (consumes b) nonce h = ground arith
step-contains q (credits b) nonce h = ground arith
step-contains q (records_nonce b) nonce h = ground arith

run-contains :
    (q : BandwidthQuota) (xs : List Call) (nonce : Bytes)
    → contains_nonce q.used_nonces nonce ≡ true
    → contains_nonce (run q xs).used_nonces nonce ≡ true
unfolding run
run-contains q [] nonce h = h
run-contains q (x ∷ xs) nonce h = run-contains (step q x) xs nonce (step-contains q x nonce h)

pub record-contains :
    (q : BandwidthQuota) (nonce : Bytes)
    → contains_nonce (check_and_record_nonce q nonce).0.used_nonces nonce ≡ true
unfolding check_and_record_nonce contains_nonce
record-contains q nonce = ground (arith, bytes_eq_refl nonce)

contains-refused :
    (q : BandwidthQuota) (nonce : Bytes)
    → contains_nonce q.used_nonces nonce ≡ true
    → (check_and_record_nonce q nonce).1 ≡ false
unfolding check_and_record_nonce
contains-refused q nonce h = ground arith

-- A payment nonce is good once: after it was presented, accepted or not, it is refused for ever,
-- whatever else is called in between.
pub nonce_once :
    (q : BandwidthQuota) (nonce : Bytes) (xs : List Call)
    → (check_and_record_nonce (run (check_and_record_nonce q nonce).0 xs) nonce).1 ≡ false
nonce_once q nonce xs =
    contains-refused (run (check_and_record_nonce q nonce).0 xs) nonce
      (run-contains (check_and_record_nonce q nonce).0 xs nonce (record-contains q nonce))

-- A peer that is blocked has no quota left.
abbrev pub IsConsistent : BandwidthQuota → Type 0
IsConsistent q = (q.blocked ≡ false) ⊎ (q.remaining_bytes ≡ 0)

-- After any sequence of calls a blocked peer has no quota left.
pub run-IsConsistent :
    (q : BandwidthQuota) (xs : List Call) → IsConsistent q → IsConsistent (run q xs)
unfolding run
run-IsConsistent q [] w = w
run-IsConsistent q (x ∷ xs) w = run-IsConsistent (step q x) xs (step-IsConsistent q x w)
  where
    step-IsConsistent : (q : BandwidthQuota) (x : Call) → IsConsistent q → IsConsistent (step q x)
    step-IsConsistent q (consumes b) w = unfold step consume in ground (arith, w)
    step-IsConsistent q (credits b) w = unfold step credit in ground arith
    step-IsConsistent q (records_nonce b) w =
        unfold step check_and_record_nonce in ground (arith, w)
