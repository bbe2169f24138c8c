-- ===== src/Examples/Quota.antt =====
-- payment/quota.rs on concrete calls.
use veil_vpn.Prelude.{◌+◌, ◌≡◌, inl, refl, true, false, List, [], ◌∷◌, arith, add_u64}
use veil_vpn.Payment.Quota.{
  BandwidthQuota, new, consume, credit, check_and_record_nonce, contains_nonce, default_quota_bytes,
}
use veil_vpn.Payment.Quota.Accounting.{
  Call, consumes, credits, records_nonce, step, run, run-balance, nonce_once, IsConsistent,
  run-IsConsistent,
}

abbrev start : BandwidthQuota
start = new default_quota_bytes

abbrev calls : List Call
calls = consumes 1000 ∷ records_nonce (1 ∷ 2 ∷ []) ∷ credits 500 ∷ consumes 20000000 ∷ []

exhausted : (run start calls).blocked ≡ true
unfolding run step new consume credit check_and_record_nonce contains_nonce add_u64
exhausted = refl

start-balance : start.remaining_bytes + start.total_consumed ≡ 10485760
unfolding new
start-balance = refl

run-balance_example :
    (run start calls).remaining_bytes + (run start calls).total_consumed
    ≡ start.remaining_bytes + start.total_consumed + 500
run-balance_example = run-balance start calls (omega (arith, start-balance))

nonce_once_example :
    (check_and_record_nonce (run (check_and_record_nonce start (7 ∷ [])).0 calls) (7 ∷ [])).1
    ≡ false
nonce_once_example = nonce_once start (7 ∷ []) calls

start-IsConsistent : IsConsistent start
unfolding new
start-IsConsistent = inl refl

run-IsConsistent_example : IsConsistent (run start calls)
run-IsConsistent_example = run-IsConsistent start calls start-IsConsistent
