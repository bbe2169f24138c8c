-- ===== src/Device/Payments/Outcome.antt =====
-- What `handle_payment_submit` does to the quota of a peer, on every branch.
use veil_vpn.Prelude.{
  ◌≤◌, ◌≡◌, refl, inl, inr, ◌⊎◌, true, false, ◌||◌, not, Option, none, some, List, ltb, arith,
  some-of_bind, Bool-cases,
}
use veil_vpn.Prelude.Bytes.{Bytes, bytes_eq, bytes_eq→eq, bytes_eq_refl}
use veil_vpn.Noise.Crypto.{Crypto}
use veil_vpn.Noise.Handshake.Initiation.{Inputs}
use veil_vpn.Noise.Tunn.Send.{encapsulate}
use veil_vpn.Payment.Quota.{BandwidthQuota, check_and_record_nonce}
use veil_vpn.Payment.Protocol.{PaymentSubmit, build_signal_packet, payment_gateway_ip}
use veil_vpn.Payment.Protocol.Submit
use veil_vpn.Payment.Wallet.{Ethereum, PaymentWallet}
use veil_vpn.Payment.Settlement.{Http}
use veil_vpn.Device.AllowedIps.{NetworkTable}
use veil_vpn.Device.Peer.{Peer}
use veil_vpn.Device.State.{Device}
use veil_vpn.Device.Payments.{
  credited, record_nonce, send_signal, tell, accept, is_settled, is_signed, settle_payment,
  check_payment, submitted, handle_payment_submit, max_payment_packet_size,
}

-- A payload that is a payment to the wallet of the device, of at least the amount that is asked,
-- under a nonce that is new.
pub record Presented (net : NetworkTable) (d : Device net) (p : Peer net) (payload : Bytes)
    (wallet : PaymentWallet) (submit : PaymentSubmit) : Type 0 where
  pub wallet_is : d.payment_wallet ≡ some wallet
  pub decoded : Submit.decode payload ≡ some submit
  pub to_wallet : submit.to ≡ wallet.ethereum_address
  pub enough : d.payment_config.amount_per_quota ≤ submit.value
  pub nonce_new : (record_nonce p.quota submit.nonce).1 ≡ true

-- The quota after the call: as before, when no payment was presented; with the nonce on record, for
-- a payment whose signature or settlement fails; or with the nonce on record and credited, for one
-- that is signed and settled.
pub data Outcome (e : Ethereum) (http_client : Http) (net : NetworkTable) (d : Device net)
    (p : Peer net) (payload : Bytes) (quota : Option BandwidthQuota) : Type 0 where
  untouched :
      ((wallet : PaymentWallet) (submit : PaymentSubmit)
        → ¬ (Presented net d p payload wallet submit))
      → quota ≡ p.quota
      → Outcome e http_client net d p payload quota
  recorded :
      (wallet : PaymentWallet) (submit : PaymentSubmit)
      → Presented net d p payload wallet submit
      → (is_signed e net d submit ≡ false) ⊎ (is_settled http_client net d wallet submit ≡ false)
      → quota ≡ (record_nonce p.quota submit.nonce).0
      → Outcome e http_client net d p payload quota
  paid :
      (wallet : PaymentWallet) (submit : PaymentSubmit)
      → Presented net d p payload wallet submit
      → is_signed e net d submit ≡ true
      → is_settled http_client net d wallet submit ≡ true
      → quota ≡ credited (record_nonce p.quota submit.nonce).0 d.payment_config.quota_bytes
      → Outcome e http_client net d p payload quota

module _ (c : Crypto) (net : NetworkTable) where
  -- A message that is sent leaves the quota alone.
  pub send_signal-quota :
      (p p' : Peer net) (src dst tlv : Bytes) (i : Inputs) (out : List Bytes)
      → send_signal c net p src dst tlv i ≡ some (p', out)
      → p'.quota ≡ p.quota
  unfolding send_signal
  send_signal-quota p p' src dst tlv i out h =
      let (packet, e, h1) = some-of_bind (build_signal_packet src dst tlv) _ h in
      let ((t, r), e', h2) =
        some-of_bind (encapsulate c p.tunnel packet i max_payment_packet_size) _ h1 in
      ground (arith, h2)

  pub tell-quota :
      (p p' : Peer net) (ip : Option Bytes) (tlv : Bytes) (i : Inputs) (out : List Bytes)
      → tell c net p ip tlv i ≡ some (p', out)
      → p'.quota ≡ p.quota
  unfolding tell
  tell-quota p p' none tlv i out h = ground (arith, h)
  tell-quota p p' (some ip) tlv i out h = send_signal-quota p p' payment_gateway_ip ip tlv i out h

  pub accept-quota :
      (d : Device net) (p p' : Peer net) (i : Inputs) (out : List Bytes)
      → accept c net d p i ≡ some (p', out)
      → p'.quota ≡ credited p.quota d.payment_config.quota_bytes
  unfolding accept
  accept-quota d p p' i out h = tell-quota _ p' _ _ i out h

-- A payment that is presented passes the two checks before the nonce.
pub passes :
    {net : NetworkTable} (d : Device net) (p : Peer net) (payload : Bytes) (w : PaymentWallet)
    (s : PaymentSubmit)
    → Presented net d p payload w s
    → (not (bytes_eq s.to w.ethereum_address) || ltb s.value d.payment_config.amount_per_quota)
      ≡ false
passes d p payload w s k =
    rw (k.to_wallet, bytes_eq_refl w.ethereum_address) (ground (arith, k.enough))

-- A nonce that is refused was used, and changes nothing.
record_nonce-used :
    (q : Option BandwidthQuota) (nonce : Bytes)
    → (record_nonce q nonce).1 ≡ false
    → (record_nonce q nonce).0 ≡ q
unfolding record_nonce check_and_record_nonce
record_nonce-used none nonce h = refl
record_nonce-used (some q) nonce h = ground arith

module _ (c : Crypto) (e : Ethereum) (http_client : Http) (net : NetworkTable) where
  -- A signed and settled payment is accepted; any other leaves the peer as it is.
  settle_payment_lem :
      (d : Device net) (p p' : Peer net) (w : PaymentWallet) (s : PaymentSubmit) (i : Inputs)
      (out : List Bytes)
      → settle_payment c e http_client net d p w s i ≡ some (p', out)
      → (((is_signed e net d s ≡ false) ⊎ (is_settled http_client net d w s ≡ false))
          × (p'.quota ≡ p.quota))
        ⊎ ((is_signed e net d s ≡ true)
            × (is_settled http_client net d w s ≡ true)
            × (p'.quota ≡ credited p.quota d.payment_config.quota_bytes))
  unfolding settle_payment
  settle_payment_lem d p p' w s i out h = elim (Bool-cases (is_signed e net d s)) [
    | inr bad ↦ inl (inl bad, ground (arith, h, bad))
    | inl signed ↦ elim (Bool-cases (is_settled http_client net d w s)) [
      | inr bad ↦ inl (inr bad, ground (arith, h, signed, bad))
      | inl settled ↦
          inr (signed, settled, accept-quota c net d p p' i out (rw (signed, settled) at h))
    ]
  ]

  check_payment-Outcome :
      (d : Device net) (p p' : Peer net) (payload : Bytes) (w : PaymentWallet) (s : PaymentSubmit)
      (i : Inputs) (out : List Bytes)
      → d.payment_wallet ≡ some w
      → Submit.decode payload ≡ some s
      → check_payment c e http_client net d p w s i ≡ some (p', out)
      → Outcome e http_client net d p payload p'.quota
  unfolding check_payment
  check_payment-Outcome d p p' payload w s i out hw hs h =
      elim (Bool-cases
        (not (bytes_eq s.to w.ethereum_address) || ltb s.value d.payment_config.amount_per_quota)) [
          | inl bad ↦
              untouched
                (λ w' s' k.
                  ground (arith, bad, passes d p payload w' s' k, hw, hs, k.wallet_is, k.decoded))
                (ground (arith, h, bad))
          | inr good ↦ elim (Bool-cases (record_nonce p.quota s.nonce).1) [
            | inr used ↦
                untouched (λ w' s' k. cc (used, k.nonce_new, hs, k.decoded))
                  (ground (arith, h, good, used, record_nonce-used p.quota s.nonce))
            | inl new ↦ after good new (rw (good, new) at h)
          ]
        ]
    where
      after :
          (not (bytes_eq s.to w.ethereum_address) || ltb s.value d.payment_config.amount_per_quota)
            ≡ false
          → (record_nonce p.quota s.nonce).1 ≡ true
          → settle_payment c e http_client net d
              (record p { quota = (record_nonce p.quota s.nonce).0 })
              w
              s
              i
            ≡ some (p', out)
          → Outcome e http_client net d p payload p'.quota
      after good new k =
          let w' : Presented net d p payload w s = record {
            wallet_is = hw;
            decoded = hs;
            to_wallet = ground (arith, good, bytes_eq→eq s.to w.ethereum_address);
            enough = ground (arith, good);
            nonce_new = new;
          } in
          elim (settle_payment_lem d _ p' w s i out k) [
            | inl (why, same) ↦ recorded w s w' why same
            | inr (signed, settled, pays) ↦ paid w s w' signed settled pays
          ]

  submitted-Outcome :
      (d : Device net) (p p' : Peer net) (payload : Bytes) (wallet : Option PaymentWallet)
      (submit : Option PaymentSubmit) (i : Inputs) (out : List Bytes)
      → d.payment_wallet ≡ wallet
      → Submit.decode payload ≡ submit
      → submitted c e http_client net d p wallet submit i ≡ some (p', out)
      → Outcome e http_client net d p payload p'.quota
  unfolding submitted
  submitted-Outcome d p p' payload none submit i out hw hs h =
      untouched (λ w s k. cc (hw, k.wallet_is)) (ground (arith, h))
  submitted-Outcome d p p' payload (some w) none i out hw hs h =
      untouched (λ w s k. cc (hs, k.decoded)) (ground (arith, h))
  submitted-Outcome d p p' payload (some w) (some s) i out hw hs h =
      check_payment-Outcome d p p' payload w s i out hw hs h

  -- What a payload does to the quota of a peer: nothing, unless it decodes to a payment to the
  -- device's wallet of at least the amount asked under a nonce that is new. Then the nonce is on
  -- record, and the quota is credited exactly when the signature recovers to the address that pays
  -- and the payment is settled.
  pub handle_payment_submit-Outcome :
      (d : Device net) (p p' : Peer net) (payload : Bytes) (i : Inputs) (out : List Bytes)
      → handle_payment_submit c e http_client net d p payload i ≡ some (p', out)
      → Outcome e http_client net d p payload p'.quota
  unfolding handle_payment_submit
  handle_payment_submit-Outcome d p p' payload i out h =
      submitted-Outcome d p p' payload d.payment_wallet (Submit.decode payload) i out refl refl h
