-- ===== src/Payment/Quota.antt =====
-- payment/quota.rs, `BandwidthQuota`: the bytes a peer may still send, and the payment nonces that
-- were used. Each method is one step; counters are 64-bit words and wrap.
pub mod Accounting
use veil_vpn.Prelude.{
  ℕ, ◌+◌, ◌-◌, ◌*◌, Bool, true, false, List, [], ◌∷◌, ltb, ◌==◌, if◌then◌else◌, add_u64,
}
use veil_vpn.Prelude.Bytes.{Bytes, bytes_eq}

abbrev pub default_quota_bytes : ℕ
default_quota_bytes = 10 * 1024 * 1024

pub record BandwidthQuota : Type 0 where
  pub remaining_bytes : ℕ
  pub blocked : Bool
  pub total_consumed : ℕ
  pub payment_count : ℕ
  pub used_nonces : List Bytes

unfoldable pub new : ℕ → BandwidthQuota
new initial_bytes = record {
  remaining_bytes = initial_bytes;
  blocked = false;
  total_consumed = 0;
  payment_count = 0;
  used_nonces = [];
}

unfoldable pub consume : BandwidthQuota → ℕ → BandwidthQuota × Bool
unfolding add_u64
consume q bytes =
    let remaining = q.remaining_bytes in
    if remaining == 0
    then (q, false)
    else if ltb remaining bytes
    then (
      record q {
        remaining_bytes = 0;
        total_consumed = add_u64 q.total_consumed remaining;
        blocked = true;
      },
      false,
    )
    else (
      record q {
        remaining_bytes = remaining - bytes;
        total_consumed = add_u64 q.total_consumed bytes;
      },
      true,
    )

unfoldable pub credit : BandwidthQuota → ℕ → BandwidthQuota
unfolding add_u64
credit q bytes = record q {
  remaining_bytes = add_u64 q.remaining_bytes bytes;
  payment_count = add_u64 q.payment_count 1;
  blocked = false;
}

-- `HashSet::insert`: whether the nonce is new.
unfoldable pub contains_nonce : List Bytes → Bytes → Bool
contains_nonce [] nonce = false
contains_nonce (n ∷ ns) nonce =
    let rest = contains_nonce ns nonce in if bytes_eq n nonce then true else rest

unfoldable pub check_and_record_nonce : BandwidthQuota → Bytes → BandwidthQuota × Bool
unfolding contains_nonce
check_and_record_nonce q nonce =
    if contains_nonce q.used_nonces nonce
    then (q, false)
    else (record q { used_nonces = nonce ∷ q.used_nonces }, true)
