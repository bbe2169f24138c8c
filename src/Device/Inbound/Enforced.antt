-- ===== src/Device/Inbound/Enforced.antt =====
-- On a server, what is forwarded to a peer is paid for by its quota.
use veil_vpn.Prelude.{
  ℕ, ◌+◌, ◌%◌, ◌^◌, ◌≤◌, ◌≡◌, refl, ap, ◌∙◌, inl, inr, true, Option, none, some, List, arith,
  add_u64, Bool-cases,
}
use veil_vpn.Prelude.Bytes.{Bytes, bytes_eq}
use veil_vpn.Noise.Crypto.{Crypto}
use veil_vpn.Payment.Quota.{BandwidthQuota, consume, credit, check_and_record_nonce}
use veil_vpn.Payment.Protocol.{payment_gateway_ip}
use veil_vpn.Payment.Wallet.{Ethereum}
use veil_vpn.Payment.Settlement.{Http}
use veil_vpn.Device.AllowedIps.{NetworkTable}
use veil_vpn.Device.Peer.{Peer}
use veil_vpn.Device.State.{Device}
use veil_vpn.Device.Gate.{Gate, pass, blocked, exhausted, charge_quota, charge}
use veil_vpn.Device.Payments.{credited, record_nonce}
use veil_vpn.Device.Payments.Outcome.{
  Outcome, untouched, recorded, paid, handle_payment_submit-Outcome,
}
use veil_vpn.Device.Payments.Untouched.{handle_payment_signal_client-quota}
use veil_vpn.Device.Inbound.{Context, is_gateway, handle_payload, handle_parts}

-- The bytes that a peer may still have forwarded: none without a quota.
abbrev pub left : Option BandwidthQuota → ℕ
left none = 0
left (some q) = q.remaining_bytes

abbrev pub HasQuota : Option BandwidthQuota → Type 0
HasQuota quota = (q : BandwidthQuota) × (quota ≡ some q)

-- The quota after: there is one, and it paid for `forwarded` bytes out of what was left and what
-- was added.
pub record Paid (before after : Option BandwidthQuota) (forwarded added : ℕ) : Type 0 where
  pub has_quota : HasQuota after
  pub within : forwarded + left after ≤ left before + added

-- What a gate lets through of a packet.
abbrev pub admitted : Gate → ℕ → ℕ
admitted pass bytes = bytes
admitted blocked bytes = 0
admitted exhausted bytes = 0

charge_quota-within :
    (q : BandwidthQuota) (bytes : ℕ)
    → admitted (charge_quota q bytes).1 bytes + (charge_quota q bytes).0.remaining_bytes
      ≤ q.remaining_bytes
unfolding charge_quota consume
charge_quota-within q bytes = ground arith

pub charge-Paid :
    (quota : Option BandwidthQuota) (bytes : ℕ)
    → HasQuota quota
    → Paid quota (charge true quota bytes).0 (admitted (charge true quota bytes).1 bytes) 0
unfolding charge
charge-Paid none bytes (q, e) = cc e
charge-Paid (some q) bytes h = record {
  has_quota = ((charge_quota q bytes).0, refl);
  within = omega (arith, charge_quota-within q bytes);
}

credited-within :
    (q : BandwidthQuota) (bytes : ℕ) → (credit q bytes).remaining_bytes ≤ q.remaining_bytes + bytes
unfolding credit add_u64
credited-within q bytes = omega (arith, mod_le (q.remaining_bytes + bytes))
  where
    mod_le : (n : ℕ) → n % 2 ^ 64 ≤ n
    mod_le n = omega arith

record_nonce-same :
    (q : BandwidthQuota) (nonce : Bytes)
    → (q' : BandwidthQuota) × ((record_nonce (some q) nonce).0 ≡ some q')
      × (q'.remaining_bytes ≡ q.remaining_bytes)
unfolding record_nonce
record_nonce-same q nonce =
    ((check_and_record_nonce q nonce).0, refl, unfold check_and_record_nonce in ground arith)

pub same-Paid :
    (before after : Option BandwidthQuota) (added : ℕ)
    → HasQuota before
    → after ≡ before
    → Paid before after 0 added
same-Paid before after added (q, e) same = record {
  has_quota = (q, same ∙ e);
  within = omega (arith, ap left same);
}

module _ (c : Crypto) (e : Ethereum) (http_client : Http) (net : NetworkTable) where
  -- A payload adds at most what the server sells.
  Outcome-Paid :
      (d : Device net) (p : Peer net) (payload : Bytes) (quota : Option BandwidthQuota)
      → HasQuota p.quota
      → Outcome e http_client net d p payload quota
      → Paid p.quota quota 0 d.payment_config.quota_bytes
  Outcome-Paid d p payload quota h (untouched none_such same) = same-Paid p.quota quota _ h same
  Outcome-Paid d p payload quota (q, has) (recorded w s k why same) =
      let (q', nonce_eq, left_eq) = record_nonce-same q s.nonce in
      let after : quota ≡ some q' = same ∙ ap (λ x. (record_nonce x s.nonce).0) has ∙ nonce_eq in
      record {
        has_quota = (q', after);
        within = omega (arith, ap left after, ap left has, left_eq);
      }
  Outcome-Paid d p payload quota (q, has) (paid w s k signed settled same) =
      let (q', nonce_eq, left_eq) = record_nonce-same q s.nonce in
      let bytes = d.payment_config.quota_bytes in
      let after : quota ≡ some (credit q' bytes) =
        same
        ∙ ap (λ x. credited (record_nonce x s.nonce).0 bytes) has
        ∙ ap (λ x. credited x bytes) nonce_eq
        ∙ unfold credited in refl in
      record {
        has_quota = (credit q' bytes, after);
        within = omega (arith, ap left after, ap left has, left_eq, credited-within q' bytes);
      }

  handle_payload-Paid :
      (d : Device net) (p p' : Peer net) (payload dst : Bytes) (src : Option Bytes) (k : Context)
      (out : List Bytes)
      → HasQuota p.quota
      → handle_payload c e http_client net d p payload dst src k ≡ some (p', out)
      → Paid p.quota p'.quota 0 d.payment_config.quota_bytes
  unfolding handle_payload
  handle_payload-Paid d p p' payload dst src k out has h =
      elim (Bool-cases (bytes_eq dst payment_gateway_ip)) [
        | inl to_gateway ↦ elim (Bool-cases k.has_address) [
          | inl known ↦ Outcome-Paid d p payload p'.quota has (
              handle_payment_submit-Outcome c e http_client net d p p' payload k.inputs out
                (ground (arith, h, to_gateway, known)))
          | inr unknown ↦ absurd (ground (arith, h, to_gateway, unknown))
        ]
        | inr other ↦ elim (Bool-cases (is_gateway src)) [
          | inl from_gateway ↦ elim (Bool-cases k.has_address) [
            | inl known ↦ same-Paid p.quota p'.quota _ has (
                handle_payment_signal_client-quota c e net d p p' payload k.unix_now k.inputs out
                  (ground (arith, h, other, from_gateway, known)))
            | inr unknown ↦ absurd (ground (arith, h, other, from_gateway, unknown))
          ]
          | inr neither ↦ same-Paid p.quota p'.quota _ has (ground (arith, h, other, neither))
        ]
      ]

  pub handle_parts-Paid :
      (d : Device net) (p p' : Peer net) (payload dst src : Option Bytes) (k : Context)
      (out : List Bytes)
      → HasQuota p.quota
      → handle_parts c e http_client net d p payload dst src k ≡ some (p', out)
      → Paid p.quota p'.quota 0 d.payment_config.quota_bytes
  unfolding handle_parts
  handle_parts-Paid d p p' none dst src k out has h =
      same-Paid p.quota p'.quota _ has (ground (arith, h))
  handle_parts-Paid d p p' (some payload) none src k out has h =
      same-Paid p.quota p'.quota _ has (ground (arith, h))
  handle_parts-Paid d p p' (some payload) (some dst) src k out has h =
      handle_payload-Paid d p p' payload dst src k out has h
