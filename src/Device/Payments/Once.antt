-- ===== src/Device/Payments/Once.antt =====
-- A payment moves the quota of a peer at most once.
use veil_vpn.Prelude.{
  ℕ, ◌≡◌, sym, inl, inr, true, false, Option, none, some, List, [], ◌∷◌, arith, ◌>>=◌, some-of_bind,
  Bool-cases,
}
use mathlib.Core.Path.{subst}
use veil_vpn.Prelude.Bytes.{Bytes}
use veil_vpn.Noise.Crypto.{Crypto}
use veil_vpn.Noise.Handshake.Initiation.{Inputs}
use veil_vpn.Payment.Quota.{BandwidthQuota, contains_nonce, check_and_record_nonce}
use veil_vpn.Payment.Quota.Accounting.{step, records_nonce, credits, step-contains, record-contains}
use veil_vpn.Payment.Protocol.{PaymentSubmit}
use veil_vpn.Payment.Wallet.{Ethereum, PaymentWallet}
use veil_vpn.Payment.Settlement.{Http}
use veil_vpn.Device.AllowedIps.{NetworkTable}
use veil_vpn.Device.Peer.{Peer}
use veil_vpn.Device.State.{Device}
use veil_vpn.Device.Payments.{credited, record_nonce, handle_payment_submit}
use veil_vpn.Device.Payments.Outcome.{
  Presented, Outcome, untouched, recorded, paid, handle_payment_submit-Outcome,
}

-- The quota has the nonce on record.
abbrev Has : Option BandwidthQuota → Bytes → Type 0
Has none nonce = ⊥
Has (some q) nonce = contains_nonce q.used_nonces nonce ≡ true

record_nonce-Has :
    (q : Option BandwidthQuota) (m nonce : Bytes) → Has q nonce → Has (record_nonce q m).0 nonce
unfolding record_nonce step
record_nonce-Has none m nonce h = h
record_nonce-Has (some q) m nonce h = step-contains q (records_nonce m) nonce h

credited-Has :
    (q : Option BandwidthQuota) (bytes : ℕ) (nonce : Bytes)
    → Has q nonce
    → Has (credited q bytes) nonce
unfolding credited step
credited-Has none bytes nonce h = h
credited-Has (some q) bytes nonce h = step-contains q (credits bytes) nonce h

record_nonce-Has_self :
    (q : BandwidthQuota) (nonce : Bytes) → Has (record_nonce (some q) nonce).0 nonce
unfolding record_nonce
record_nonce-Has_self q nonce = record-contains q nonce

Has-refused :
    (q : Option BandwidthQuota) (nonce : Bytes) → Has q nonce → (record_nonce q nonce).1 ≡ false
unfolding record_nonce check_and_record_nonce
Has-refused none nonce h = absurd h
Has-refused (some q) nonce h = ground (arith, h)

used-Has :
    (q : BandwidthQuota) (nonce : Bytes)
    → (record_nonce (some q) nonce).1 ≡ false
    → Has (some q) nonce
unfolding record_nonce check_and_record_nonce
used-Has q nonce h = ground (arith, h)

module _ (c : Crypto) (e : Ethereum) (http_client : Http) (net : NetworkTable) where
  Outcome-Has :
      (d : Device net) (p : Peer net) (payload nonce : Bytes) (quota : Option BandwidthQuota)
      → Has p.quota nonce
      → Outcome e http_client net d p payload quota
      → Has quota nonce
  Outcome-Has d p payload nonce quota h (untouched none_such same) =
      subst (λ q. Has q nonce) (sym same) h
  Outcome-Has d p payload nonce quota h (recorded w s k why same) =
      subst (λ q. Has q nonce) (sym same) (record_nonce-Has p.quota s.nonce nonce h)
  Outcome-Has d p payload nonce quota h (paid w s k signed settled same) =
      subst (λ q. Has q nonce) (sym same)
        (credited-Has (record_nonce p.quota s.nonce).0 d.payment_config.quota_bytes nonce
          (record_nonce-Has p.quota s.nonce nonce h))

  -- Payloads that a peer sends one after another, with the datagrams that answer them.
  unfoldable pub handle_payloads : Device net → Peer net → List (Bytes × Inputs) → Option (Peer net)
  handle_payloads d p [] = some p
  handle_payloads d p ((payload, i) ∷ rest) = do
    (p', out) ← handle_payment_submit c e http_client net d p payload i
    handle_payloads d p' rest

  handle_payloads-Has :
      (d : Device net) (p p' : Peer net) (payloads : List (Bytes × Inputs)) (nonce : Bytes)
      → Has p.quota nonce
      → handle_payloads d p payloads ≡ some p'
      → Has p'.quota nonce
  unfolding handle_payloads
  handle_payloads-Has d p p' [] nonce h r =
      let same : p ≡ p' = cc r in subst (λ (x : Peer net). Has x.quota nonce) same h
  handle_payloads-Has d p p' ((payload, i) ∷ rest) nonce h r =
      let ((p1, out), e1, r1) =
        some-of_bind (handle_payment_submit c e http_client net d p payload i) _ r in
      handle_payloads-Has d p1 p' rest nonce
        (Outcome-Has d p payload nonce p1.quota h
          (handle_payment_submit-Outcome c e http_client net d p p1 payload i out e1))
        r1

  -- After a payload was handled, the nonce of the payment in it is on record, if the payload is a
  -- payment that the device takes at all.
  handled-Has :
      (d : Device net) (p p1 p2 : Peer net) (q : BandwidthQuota) (payload : Bytes)
      (w : PaymentWallet) (s : PaymentSubmit)
      → p.quota ≡ some q
      → Outcome e http_client net d p payload p1.quota
      → Presented net d p2 payload w s
      → Has p1.quota s.nonce
  handled-Has d p p1 p2 q payload w s has o k = elim (Bool-cases (record_nonce p.quota s.nonce).1) [
    | inr used ↦
        Outcome-Has d p payload s.nonce p1.quota
          (subst (λ x. Has x s.nonce) (sym has)
            (used-Has q s.nonce (subst (λ x. (record_nonce x s.nonce).1 ≡ false) has used)))
          o
    | inl new ↦ fresh-Has p1.quota o (record {
      wallet_is = k.wallet_is;
      decoded = k.decoded;
      to_wallet = k.to_wallet;
      enough = k.enough;
      nonce_new = new;
    })
  ]
    where
      now_Has : (s' : PaymentSubmit) → s' ≡ s → Has (record_nonce p.quota s'.nonce).0 s.nonce
      now_Has s' same =
          subst (λ x. Has (record_nonce x s'.nonce).0 s.nonce) (sym has)
            (subst (λ (y : PaymentSubmit). Has (record_nonce (some q) y.nonce).0 s.nonce) (sym same)
              (record_nonce-Has_self q s.nonce))

      fresh-Has :
          (quota : Option BandwidthQuota)
          → Outcome e http_client net d p payload quota
          → Presented net d p payload w s
          → Has quota s.nonce
      fresh-Has quota (untouched none_such same) k' = absurd (none_such w s k')
      fresh-Has quota (recorded w' s' k' why same) k'' =
          subst (λ x. Has x s.nonce) (sym same) (now_Has s' (cc (k'.decoded, k''.decoded)))
      fresh-Has quota (paid w' s' k' signed settled same) k'' =
          subst (λ x. Has x s.nonce) (sym same)
            (credited-Has (record_nonce p.quota s'.nonce).0 d.payment_config.quota_bytes s.nonce
              (now_Has s' (cc (k'.decoded, k''.decoded))))

  -- A payment is good once: after a peer with a quota sent a payload, and whatever payloads it
  -- sent since, the same payload leaves the quota as it is.
  pub payment_once :
      (d : Device net) (p p1 p2 p3 : Peer net) (q : BandwidthQuota) (payload : Bytes)
      (others : List (Bytes × Inputs)) (i i' : Inputs) (out out' : List Bytes)
      → p.quota ≡ some q
      → handle_payment_submit c e http_client net d p payload i ≡ some (p1, out)
      → handle_payloads d p1 others ≡ some p2
      → handle_payment_submit c e http_client net d p2 payload i' ≡ some (p3, out')
      → p3.quota ≡ p2.quota
  payment_once d p p1 p2 p3 q payload others i i' out out' has first since last =
      again (handle_payment_submit-Outcome c e http_client net d p2 p3 payload i' out' last)
    where
      refused : (w : PaymentWallet) (s : PaymentSubmit) → Presented net d p2 payload w s → ⊥
      refused w s k =
          let here =
            handle_payloads-Has d p1 p2 others s.nonce
              (handled-Has d p p1 p2 q payload w s has
                (handle_payment_submit-Outcome c e http_client net d p p1 payload i out first) k)
              since in
          let bad = Has-refused p2.quota s.nonce here in cc (bad, k.nonce_new)

      again : Outcome e http_client net d p2 payload p3.quota → p3.quota ≡ p2.quota
      again (untouched none_such same) = same
      again (recorded w s k why same) = absurd (refused w s k)
      again (paid w s k signed settled same) = absurd (refused w s k)
