-- ===== src/Device/Payments/Effect.antt =====
-- What `handle_payment_submit` does to the quota of a peer, in terms of the fields of the quota.
use mathlib.Core.List.{Memᴰ}
use veil_vpn.Prelude.{
  ℕ, ◌+◌, ◌%◌, ◌^◌, ◌≤◌, ◌≡◌, refl, ap, sym, ◌∙◌, inl, inr, ◌⊎◌, true, false, Option, none, some,
  List, [], ◌∷◌, arith, add_u64, Bool-cases, Option-cases,
}
use veil_vpn.Prelude.Bytes.{Bytes, bytes_eq, bytes_eq→eq, bytes_eq_refl}
use veil_vpn.Noise.Crypto.{Crypto}
use veil_vpn.Noise.Handshake.Initiation.{Inputs}
use veil_vpn.Payment.Quota.{BandwidthQuota, credit, contains_nonce, check_and_record_nonce}
use veil_vpn.Payment.Protocol.{PaymentSubmit}
use veil_vpn.Payment.Protocol.Submit
use veil_vpn.Payment.Config.{gateway_domain}
use veil_vpn.Payment.Wallet.{Ethereum, PaymentWallet}
use veil_vpn.Payment.Authorization.{verify_authorization}
use veil_vpn.Payment.Settlement.{
  Http, SettlementClient, SettleResponse, Settled, SettlementError, responded, unsettled, settle,
  build_settle_request,
}
use veil_vpn.Device.AllowedIps.{NetworkTable}
use veil_vpn.Device.Peer.{Peer}
use veil_vpn.Device.State.{Device}
use veil_vpn.Device.Payments.{
  credited, record_nonce, signed_of, signer_is, is_signed, is_settled, handle_payment_submit,
}
use veil_vpn.Device.Payments.Outcome.{
  Presented, Outcome, untouched, recorded, paid, handle_payment_submit-Outcome,
}

-- A payload that is a payment to the wallet of the device, of at least the amount that is asked,
-- under a nonce that the quota of the peer, if it has one, does not have on record.
pub record Offered (net : NetworkTable) (d : Device net) (p : Peer net) (payload : Bytes)
    (wallet : PaymentWallet) (submit : PaymentSubmit) : Type 0 where
  pub wallet_is : d.payment_wallet ≡ some wallet
  pub decoded : Submit.decode payload ≡ some submit
  pub to_wallet : submit.to ≡ wallet.ethereum_address
  pub enough : d.payment_config.amount_per_quota ≤ submit.value
  pub unused : (q : BandwidthQuota) → p.quota ≡ some q → ¬ (Memᴰ submit.nonce q.used_nonces)

-- The signature recovers to the address that pays.
abbrev pub IsSigned : Ethereum → (net : NetworkTable) → Device net → PaymentSubmit → Type 0
IsSigned e net d submit =
    verify_authorization e (gateway_domain d.payment_config) (signed_of submit) ≡ some submit.from

-- The gateway reports success, or there is none to ask.
pub data IsSettled (http_client : Http) (net : NetworkTable) (d : Device net)
    (wallet : PaymentWallet) (submit : PaymentSubmit) : Type 0 where
  no_gateway : d.settlement_client ≡ none → IsSettled http_client net d wallet submit
  at_gateway :
      (client : SettlementClient) (resp : SettleResponse)
      → d.settlement_client ≡ some client
      → settle http_client client
          (build_settle_request d.payment_config submit wallet.ethereum_address)
        ≡ responded resp
      → resp.success ≡ true
      → IsSettled http_client net d wallet submit

-- The nonce on record, and nothing else changed.
abbrev pub with_nonce : Bytes → Option BandwidthQuota → Option BandwidthQuota
with_nonce nonce none = none
with_nonce nonce (some q) = some (record q { used_nonces = nonce ∷ q.used_nonces })

-- The bytes added, the payment counted, and the peer not blocked.
abbrev pub with_payment : ℕ → Option BandwidthQuota → Option BandwidthQuota
with_payment bytes none = none
with_payment bytes (some q) = some (record q {
  remaining_bytes = (q.remaining_bytes + bytes) % 2 ^ 64;
  payment_count = (q.payment_count + 1) % 2 ^ 64;
  blocked = false;
})

pub data Effect (e : Ethereum) (http_client : Http) (net : NetworkTable) (d : Device net)
    (p : Peer net) (payload : Bytes) (quota : Option BandwidthQuota) : Type 0 where
  nothing :
      ((wallet : PaymentWallet) (submit : PaymentSubmit)
        → ¬ (Offered net d p payload wallet submit))
      → quota ≡ p.quota
      → Effect e http_client net d p payload quota
  used_up :
      (wallet : PaymentWallet) (submit : PaymentSubmit)
      → Offered net d p payload wallet submit
      → (¬ (IsSigned e net d submit)) ⊎ (¬ (IsSettled http_client net d wallet submit))
      → quota ≡ with_nonce submit.nonce p.quota
      → Effect e http_client net d p payload quota
  sold :
      (wallet : PaymentWallet) (submit : PaymentSubmit)
      → Offered net d p payload wallet submit
      → IsSigned e net d submit
      → IsSettled http_client net d wallet submit
      → quota ≡ with_payment d.payment_config.quota_bytes (with_nonce submit.nonce p.quota)
      → Effect e http_client net d p payload quota

contains→Mem : (ns : List Bytes) (nonce : Bytes) → contains_nonce ns nonce ≡ true → Memᴰ nonce ns
unfolding contains_nonce
contains→Mem [] nonce h = cc
contains→Mem (n ∷ ns) nonce h = elim (Bool-cases (bytes_eq n nonce)) [
  | inl same ↦ Memᴰ.head (sym (bytes_eq→eq n nonce same))
  | inr other ↦ Memᴰ.tail (contains→Mem ns nonce (ground (arith, h, other)))
]

Mem→contains : (ns : List Bytes) (nonce : Bytes) → Memᴰ nonce ns → contains_nonce ns nonce ≡ true
unfolding contains_nonce
Mem→contains [] nonce m = elim m [ ]
Mem→contains (n ∷ ns) nonce (Memᴰ.head same) =
    let eq : bytes_eq n nonce ≡ true = ap (λ x. bytes_eq n x) same ∙ bytes_eq_refl n in
    ground (arith, eq)
Mem→contains (n ∷ ns) nonce (Memᴰ.tail later) = ground (arith, Mem→contains ns nonce later)

pub unused-contains :
    (ns : List Bytes) (nonce : Bytes) → ¬ (Memᴰ nonce ns) → contains_nonce ns nonce ≡ false
unused-contains ns nonce new = elim (Bool-cases (contains_nonce ns nonce)) [
  | inl used ↦ absurd (new (contains→Mem ns nonce used))
  | inr unused ↦ unused
]

-- Without a quota any nonce is good; with one, a nonce that is not on record.
record_nonce-unused :
    (quota : Option BandwidthQuota) (nonce : Bytes)
    → ((q : BandwidthQuota) → quota ≡ some q → ¬ (Memᴰ nonce q.used_nonces))
    → record_nonce quota nonce ≡ (with_nonce nonce quota, true)
unfolding record_nonce check_and_record_nonce
record_nonce-unused none nonce unused = refl
record_nonce-unused (some q) nonce unused = elim (Bool-cases (contains_nonce q.used_nonces nonce)) [
  | inl used ↦ absurd (unused q refl (contains→Mem q.used_nonces nonce used))
  | inr new ↦ ground (arith, new)
]

record_nonce-good :
    (quota : Option BandwidthQuota) (nonce : Bytes)
    → (record_nonce quota nonce).1 ≡ true
    → (q : BandwidthQuota) → quota ≡ some q
    → ¬ (Memᴰ nonce q.used_nonces)
unfolding record_nonce check_and_record_nonce
record_nonce-good none nonce good q has used = cc
record_nonce-good (some q) nonce good q' has used =
    let same : q ≡ q' = cc in
    let known : contains_nonce q.used_nonces nonce ≡ true =
      ap (λ (x : BandwidthQuota). contains_nonce x.used_nonces nonce) same
      ∙ Mem→contains q'.used_nonces nonce used in
    ground (arith, good, known)

pub credited_lem :
    (quota : Option BandwidthQuota) (bytes : ℕ) → credited quota bytes ≡ with_payment bytes quota
unfolding credited credit add_u64
credited_lem none bytes = refl
credited_lem (some q) bytes = refl

module _ (e : Ethereum) (http_client : Http) (net : NetworkTable) (d : Device net) where
  is_signed→IsSigned : (s : PaymentSubmit) → is_signed e net d s ≡ true → IsSigned e net d s
  unfolding is_signed signer_is
  is_signed→IsSigned s h =
      elim (Option-cases (verify_authorization e (gateway_domain d.payment_config) (signed_of s))) [
        | inl bad ↦ absurd (ground (arith, h, bad))
        | inr (a, good) ↦ good ∙ ap some (bytes_eq→eq a s.from (ground (arith, h, good)))
      ]

  not-IsSigned : (s : PaymentSubmit) → is_signed e net d s ≡ false → ¬ (IsSigned e net d s)
  unfolding is_signed signer_is
  not-IsSigned s h good = ground (arith, h, good, bytes_eq_refl s.from)

  is_settled→IsSettled :
      (w : PaymentWallet) (s : PaymentSubmit)
      → is_settled http_client net d w s ≡ true
      → IsSettled http_client net d w s
  unfolding is_settled
  is_settled→IsSettled w s h = elim (Option-cases d.settlement_client) [
    | inl unset ↦ no_gateway unset
    | inr (client, set) ↦
        elim (Settled-cases (
          settle http_client client (build_settle_request d.payment_config s w.ethereum_address))) [
            | inl (resp, e) ↦ at_gateway client resp set e (ground (arith, h, set, e))
            | inr (error, e) ↦ absurd (ground (arith, h, set, e))
          ]
  ]
    where
      Settled-cases :
          (r : Settled)
          → ((resp : SettleResponse) × (r ≡ responded resp))
            ⊎ ((error : SettlementError) × (r ≡ unsettled error))
      Settled-cases (responded resp) = inl (resp, refl)
      Settled-cases (unsettled error) = inr (error, refl)

  not-IsSettled :
      (w : PaymentWallet) (s : PaymentSubmit)
      → is_settled http_client net d w s ≡ false
      → ¬ (IsSettled http_client net d w s)
  unfolding is_settled
  not-IsSettled w s h (no_gateway unset) = ground (arith, h, unset)
  not-IsSettled w s h (at_gateway client resp set responds good) =
      ground (arith, h, set, responds, good)

  pub IsSettled→is_settled :
      (w : PaymentWallet) (s : PaymentSubmit)
      → IsSettled http_client net d w s
      → is_settled http_client net d w s ≡ true
  unfolding is_settled
  IsSettled→is_settled w s (no_gateway unset) = ground (arith, unset)
  IsSettled→is_settled w s (at_gateway client resp set responds good) =
      ground (arith, set, responds, good)

module _ (c : Crypto) (e : Ethereum) (http_client : Http) (net : NetworkTable) where
  Presented→Offered :
      (d : Device net) (p : Peer net) (payload : Bytes) (w : PaymentWallet) (s : PaymentSubmit)
      → Presented net d p payload w s
      → Offered net d p payload w s
  Presented→Offered d p payload w s k = record {
    wallet_is = k.wallet_is;
    decoded = k.decoded;
    to_wallet = k.to_wallet;
    enough = k.enough;
    unused = record_nonce-good p.quota s.nonce k.nonce_new;
  }

  Offered→Presented :
      (d : Device net) (p : Peer net) (payload : Bytes) (w : PaymentWallet) (s : PaymentSubmit)
      → Offered net d p payload w s
      → Presented net d p payload w s
  Offered→Presented d p payload w s k = record {
    wallet_is = k.wallet_is;
    decoded = k.decoded;
    to_wallet = k.to_wallet;
    enough = k.enough;
    nonce_new = ap (λ x. x.1) (record_nonce-unused p.quota s.nonce k.unused);
  }

  Outcome→Effect :
      (d : Device net) (p : Peer net) (payload : Bytes) (quota : Option BandwidthQuota)
      → Outcome e http_client net d p payload quota
      → Effect e http_client net d p payload quota
  Outcome→Effect d p payload quota (untouched none_such same) =
      nothing (λ w s k. none_such w s (Offered→Presented d p payload w s k)) same
  Outcome→Effect d p payload quota (recorded w s k why same) =
      let offer = Presented→Offered d p payload w s k in
      used_up w s offer
        (elim why [
          | inl bad ↦ inl (not-IsSigned e http_client net d s bad)
          | inr bad ↦ inr (not-IsSettled e http_client net d w s bad)
        ])
        (same ∙ ap (λ x. x.0) (record_nonce-unused p.quota s.nonce offer.unused))
  Outcome→Effect d p payload quota (paid w s k signed settled same) =
      let offer = Presented→Offered d p payload w s k in
      let bytes = d.payment_config.quota_bytes in
      sold w s offer (is_signed→IsSigned e http_client net d s signed)
        (is_settled→IsSettled e http_client net d w s settled)
        (same
          ∙ credited_lem (record_nonce p.quota s.nonce).0 bytes
          ∙ ap (λ x. with_payment bytes (x.0)) (record_nonce-unused p.quota s.nonce offer.unused))

  -- What a payload does to the quota of a peer that is answered: nothing, unless it decodes to a
  -- payment to the device's wallet, of at least the amount asked, under a nonce that is not on
  -- record. Then the nonce is put on record and, exactly when the signature recovers to the address
  -- that pays and the gateway, if there is one, reports success, the bytes that the server sells
  -- are added (modulo 2^64), the payment is counted and the peer is not blocked. No other field of
  -- the quota changes.
  pub handle_payment_submit-Effect :
      (d : Device net) (p p' : Peer net) (payload : Bytes) (i : Inputs) (out : List Bytes)
      → handle_payment_submit c e http_client net d p payload i ≡ some (p', out)
      → Effect e http_client net d p payload p'.quota
  handle_payment_submit-Effect d p p' payload i out h =
      Outcome→Effect d p payload p'.quota
        (handle_payment_submit-Outcome c e http_client net d p p' payload i out h)
