-- ===== src/Device/Gate.antt =====
-- device/mod.rs: the enforcement of the quota, which the three handlers of packets share.
use veil_vpn.Prelude.{ℕ, Bool, true, false, Option, none, some, if◌then◌else◌}
use veil_vpn.Payment.Quota.{BandwidthQuota, consume}

-- A packet may pass; or the peer is blocked; or the packet is the one that exhausts the quota.
pub data Gate : Type 0 where
  pass blocked exhausted : Gate

unfoldable pub charge_quota : BandwidthQuota → ℕ → BandwidthQuota × Gate
unfolding consume
charge_quota q bytes =
    if q.blocked
    then (q, blocked)
    else (let (q', paid) = consume q bytes in (q', if paid then pass else exhausted))

-- Only a server charges, and only a peer that has a quota.
unfoldable pub charge : Bool → Option BandwidthQuota → ℕ → Option BandwidthQuota × Gate
unfolding charge_quota
charge false quota bytes = (quota, pass)
charge true none bytes = (none, pass)
charge true (some q) bytes = let (q', gate) = charge_quota q bytes in (some q', gate)
