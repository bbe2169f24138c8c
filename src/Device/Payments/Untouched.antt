-- ===== src/Device/Payments/Untouched.antt =====
-- What a device sends about payments, as a server that asks and as a client that pays, leaves the
-- quota of the peer alone.
use veil_vpn.Prelude.{
  ℕ, ◌≡◌, inl, inr, ◌||◌, not, Option, none, some, List, arith, ◌==◌, length, get_or, Bool-cases,
  some-of_bind,
}
use veil_vpn.Prelude.Bytes.{Bytes}
use veil_vpn.Noise.Crypto.{Crypto}
use veil_vpn.Noise.Handshake.Initiation.{Inputs}
use veil_vpn.Payment.Protocol.{
  PaymentRequired, PaymentSubmit, payment_gateway_ip, msg_payment_required,
}
use veil_vpn.Payment.Protocol.Required
use veil_vpn.Payment.Protocol.Submit
use veil_vpn.Payment.Wallet.{Ethereum, PaymentWallet}
use veil_vpn.Device.AllowedIps.{NetworkTable}
use veil_vpn.Device.Peer.{Peer, allowed_ips}
use veil_vpn.Device.State.{Device}
use veil_vpn.Device.Payments.{
  first_ipv4, required_message, send_payment_required, sign_payment, send_payment, pay, requested,
  handle_payment_signal_client,
}
use veil_vpn.Device.Payments.Outcome.{send_signal-quota, tell-quota}

module _ (c : Crypto) (net : NetworkTable) where
  asked-quota :
      (d : Device net) (p p' : Peer net) (wallet : Option PaymentWallet) (nonce : Bytes) (now : ℕ)
      (i : Inputs) (out : List Bytes)
      → d.payment_wallet ≡ wallet
      → send_payment_required c net d p nonce now i ≡ some (p', out)
      → p'.quota ≡ p.quota
  unfolding send_payment_required
  asked-quota d p p' none nonce now i out e h = ground (arith, e, h)
  asked-quota d p p' (some w) nonce now i out e h =
      tell-quota c net p p' (first_ipv4 (allowed_ips net p))
        (Required.encode (required_message net d w nonce now)) i out (ground (arith, e, h))

  pub send_payment_required-quota :
      (d : Device net) (p p' : Peer net) (nonce : Bytes) (now : ℕ) (i : Inputs) (out : List Bytes)
      → send_payment_required c net d p nonce now i ≡ some (p', out)
      → p'.quota ≡ p.quota
  send_payment_required-quota d p p' nonce now i out h =
      asked-quota d p p' d.payment_wallet nonce now i out (λ i. d.payment_wallet) h

module _ (c : Crypto) (e : Ethereum) (net : NetworkTable) where
  send_payment-quota :
      (p p' : Peer net) (ip : Option Bytes) (submit : PaymentSubmit) (i : Inputs) (out : List Bytes)
      → send_payment c e net p ip submit i ≡ some (p', out)
      → p'.quota ≡ p.quota
  unfolding send_payment
  send_payment-quota p p' none submit i out h = ground (arith, h)
  send_payment-quota p p' (some ip) submit i out h =
      send_signal-quota c net p p' ip payment_gateway_ip (Submit.encode submit) i out h

  requested-quota :
      (d : Device net) (p p' : Peer net) (req : Option PaymentRequired)
      (wallet : Option PaymentWallet) (now : ℕ) (i : Inputs) (out : List Bytes)
      → requested c e net d p req wallet now i ≡ some (p', out)
      → p'.quota ≡ p.quota
  unfolding requested pay
  requested-quota d p p' none wallet now i out h = ground (arith, h)
  requested-quota d p p' (some req) none now i out h = ground (arith, h)
  requested-quota d p p' (some req) (some w) now i out h =
      let (submit, signed, h1) = some-of_bind (sign_payment e net d w req now) _ h in
      send_payment-quota p p' (first_ipv4 (allowed_ips net p)) submit i out h1

  pub handle_payment_signal_client-quota :
      (d : Device net) (p p' : Peer net) (payload : Bytes) (now : ℕ) (i : Inputs) (out : List Bytes)
      → handle_payment_signal_client c e net d p payload now i ≡ some (p', out)
      → p'.quota ≡ p.quota
  unfolding handle_payment_signal_client
  handle_payment_signal_client-quota d p p' payload now i out h =
      elim (Bool-cases (length payload == 0 || not (get_or payload 0 0 == msg_payment_required))) [
        | inl other ↦ ground (arith, h, other)
        | inr asks ↦
            requested-quota d p p' (Required.decode payload) d.payment_wallet now i out
              (ground (arith, h, asks))
      ]
