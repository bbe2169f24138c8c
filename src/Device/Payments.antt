-- ===== src/Device/Payments.antt =====
-- device/mod.rs: what a device answers to signals of payment, `send_payment_required`,
-- `handle_payment_submit` and `handle_payment_signal_client`. Each gives the peer and the datagrams
-- it sends, `none` for a panic; the time is in seconds, and random bytes are the caller's.
pub mod Outcome
pub mod Effect
pub mod Once
pub mod Messages
pub mod Terms
pub mod Round
pub mod Untouched
use veil_vpn.Prelude.{
  ℕ, Bool, true, false, ◌||◌, Option, none, some, List, [], ◌∷◌, ltb, ◌==◌, not, if◌then◌else◌,
  length, get_or, add_u64, ◌>>=◌,
}
use veil_vpn.Prelude.Bytes.{Bytes, bytes_eq}
use veil_vpn.Noise.Crypto.{Crypto}
use veil_vpn.Noise.Packet.{IpAddr, v4, v6}
use veil_vpn.Noise.Handshake.Initiation.{Inputs}
use veil_vpn.Noise.RateLimiter.{TunnResult, write_to_network}
use veil_vpn.Noise.Tunn.Send.{encapsulate}
use veil_vpn.Payment.Quota.{BandwidthQuota, credit, check_and_record_nonce}
use veil_vpn.Payment.Protocol.{
  PaymentRequired, PaymentSubmit, PaymentAccepted, payment_gateway_ip, build_signal_packet,
  msg_payment_required,
}
use veil_vpn.Payment.Protocol.Required
use veil_vpn.Payment.Protocol.Submit
use veil_vpn.Payment.Protocol.Accepted
use veil_vpn.Payment.Config.{gateway_domain}
use veil_vpn.Payment.Wallet.{Ethereum, PaymentWallet, sign_digest}
use veil_vpn.Payment.Authorization.{
  TransferAuthorization, SignedAuthorization, compute_eip712_digest, verify_authorization,
}
use veil_vpn.Payment.Settlement.{
  Http, SettlementClient, SettleResponse, Settled, responded, unsettled, settle,
  build_settle_request,
}
use veil_vpn.Device.AllowedIps.{NetworkTable}
use veil_vpn.Device.Peer.{Peer, allowed_ips}
use veil_vpn.Device.State.{Device}

abbrev pub max_payment_packet_size : ℕ
max_payment_packet_size = 512

-- What the device sends of an answer of the tunnel.
unfoldable pub sent_by : TunnResult → List Bytes
sent_by (write_to_network enc) = enc ∷ []
sent_by r = []

-- The first address, when it is of IPv4.
unfoldable pub first_ipv4 : List (IpAddr × ℕ) → Option Bytes
first_ipv4 ((v4 ip, cidr) ∷ rest) = some ip
first_ipv4 ((v6 ip, cidr) ∷ rest) = none
first_ipv4 [] = none

-- Credits a peer that has a quota.
unfoldable pub credited : Option BandwidthQuota → ℕ → Option BandwidthQuota
credited none bytes = none
credited (some q) bytes = some (credit q bytes)

-- Whether the nonce is good: without a quota any is.
unfoldable pub record_nonce : Option BandwidthQuota → Bytes → Option BandwidthQuota × Bool
record_nonce none nonce = (none, true)
record_nonce (some q) nonce = let (q', fresh) = check_and_record_nonce q nonce in (some q', fresh)

-- A signer was recovered, and has the address.
unfoldable pub signer_is : Option Bytes → Bytes → Bool
signer_is none from = false
signer_is (some recovered) from = bytes_eq recovered from

-- The payment as it was signed.
abbrev pub signed_of : PaymentSubmit → SignedAuthorization
signed_of submit = record {
  auth = record {
    from = submit.from;
    to = submit.to;
    value = submit.value;
    valid_after = submit.valid_after;
    valid_before = submit.valid_before;
    nonce = submit.nonce;
  };
  v = submit.v;
  r = submit.r;
  s = submit.s;
}

module _ (net : NetworkTable) where
  -- The message that asks for a payment within five minutes.
  unfoldable pub required_message : Device net → PaymentWallet → Bytes → ℕ → PaymentRequired
  required_message d wallet nonce now = record {
    amount_usdc = d.payment_config.amount_per_quota;
    nonce = nonce;
    recipient = wallet.ethereum_address;
    deadline = add_u64 now 300;
    chain_id = d.payment_config.chain_id;
    usdc_contract = d.payment_config.usdc_contract;
  }

module _ (c : Crypto) (net : NetworkTable) where
  -- A message inside an IP packet, through the tunnel of the peer.
  unfoldable pub send_signal :
      Peer net → Bytes → Bytes → Bytes → Inputs → Option (Peer net × List Bytes)
  unfolding sent_by
  send_signal p src_ip dst_ip tlv i = do
    ip_packet ← build_signal_packet src_ip dst_ip tlv
    (t, r) ← encapsulate c p.tunnel ip_packet i max_payment_packet_size
    some (record p { tunnel = t }, sent_by r)

  -- From the gateway to a peer whose first address is of IPv4, and to no other.
  unfoldable pub tell : Peer net → Option Bytes → Bytes → Inputs → Option (Peer net × List Bytes)
  unfolding send_signal
  tell p none tlv i = some (p, [])
  tell p (some peer_ip) tlv i = send_signal p payment_gateway_ip peer_ip tlv i

  unfoldable pub send_payment_required :
      Device net → Peer net → Bytes → ℕ → Inputs → Option (Peer net × List Bytes)
  unfolding required_message tell first_ipv4
  send_payment_required d p nonce now i = elim d.payment_wallet [
    | none ↦ some (p, [])
    | some wallet ↦
        tell p (first_ipv4 (allowed_ips net p))
          (Required.encode (required_message net d wallet nonce now)) i
  ]

  -- The quota is credited, and the peer is told.
  unfoldable pub accept : Device net → Peer net → Inputs → Option (Peer net × List Bytes)
  unfolding credited tell first_ipv4
  accept d p i =
      let bytes = d.payment_config.quota_bytes in
      tell (record p { quota = credited p.quota bytes }) (first_ipv4 (allowed_ips net p))
        (Accepted.encode (record { new_quota_bytes = bytes })) i

module _ (http_client : Http) (net : NetworkTable) where
  -- Without a client for settlement a payment counts as settled.
  unfoldable pub is_settled : Device net → PaymentWallet → PaymentSubmit → Bool
  unfolding settle
  is_settled d wallet submit = elim d.settlement_client [
    | none ↦ true
    | some client ↦
        elim (settle http_client client
          (build_settle_request d.payment_config submit wallet.ethereum_address)) [
            | responded resp ↦ resp.success
            | unsettled error ↦ false
          ]
  ]

module _ (e : Ethereum) (net : NetworkTable) where
  -- The signature must recover to the address that pays.
  unfoldable pub is_signed : Device net → PaymentSubmit → Bool
  unfolding signer_is
  is_signed d submit =
      signer_is (verify_authorization e (gateway_domain d.payment_config) (signed_of submit))
        submit.from

  -- The payment that a client signs for a request: good at once, and for four days.
  unfoldable pub sign_payment :
      Device net → PaymentWallet → PaymentRequired → ℕ → Option PaymentSubmit
  sign_payment d wallet req now = do
    let auth : TransferAuthorization = record {
      from = wallet.ethereum_address;
      to = req.recipient;
      value = req.amount_usdc;
      valid_after = 0;
      valid_before = add_u64 now 345600;
      nonce = req.nonce;
    }
    (v, r, s) ←
        sign_digest e wallet (compute_eip712_digest e (gateway_domain d.payment_config) auth)
    some (record {
      from = wallet.ethereum_address;
      to = req.recipient;
      value = req.amount_usdc;
      valid_after = 0;
      valid_before = add_u64 now 345600;
      nonce = req.nonce;
      v = v;
      r = r;
      s = s;
    })

module _ (c : Crypto) (e : Ethereum) (net : NetworkTable) where
  -- The payment goes to the gateway, from the first address when it is of IPv4.
  unfoldable pub send_payment :
      Peer net → Option Bytes → PaymentSubmit → Inputs → Option (Peer net × List Bytes)
  unfolding send_signal
  send_payment p none submit i = some (p, [])
  send_payment p (some client_ip) submit i =
      send_signal c net p client_ip payment_gateway_ip (Submit.encode submit) i

  unfoldable pub pay :
      Device net
      → Peer net
      → PaymentWallet
      → PaymentRequired
      → ℕ
      → Inputs
      → Option (Peer net × List Bytes)
  unfolding sign_payment send_payment first_ipv4
  pay d p wallet req now i = do
    submit ← sign_payment e net d wallet req now
    send_payment p (first_ipv4 (allowed_ips net p)) submit i

  unfoldable pub requested :
      Device net
      → Peer net
      → Option PaymentRequired
      → Option PaymentWallet
      → ℕ
      → Inputs
      → Option (Peer net × List Bytes)
  unfolding pay
  requested d p none wallet now i = some (p, [])
  requested d p (some req) none now i = some (p, [])
  requested d p (some req) (some wallet) now i = pay d p wallet req now i

  -- An acceptance, or a message of another type, is only logged.
  unfoldable pub handle_payment_signal_client :
      Device net → Peer net → Bytes → ℕ → Inputs → Option (Peer net × List Bytes)
  unfolding requested
  handle_payment_signal_client d p payload now i =
      if length payload == 0 || not (get_or payload 0 0 == msg_payment_required)
      then some (p, [])
      else requested d p (Required.decode payload) d.payment_wallet now i

module _ (c : Crypto) (e : Ethereum) (http_client : Http) (net : NetworkTable) where
  unfoldable pub settle_payment :
      Device net
      → Peer net
      → PaymentWallet
      → PaymentSubmit
      → Inputs
      → Option (Peer net × List Bytes)
  unfolding is_signed is_settled accept
  settle_payment d p wallet submit i =
      if not (is_signed e net d submit)
      then some (p, [])
      else if is_settled http_client net d wallet submit
      then accept c net d p i
      else some (p, [])

  -- The nonce is recorded before the signature is looked at.
  unfoldable pub check_payment :
      Device net
      → Peer net
      → PaymentWallet
      → PaymentSubmit
      → Inputs
      → Option (Peer net × List Bytes)
  unfolding record_nonce settle_payment
  check_payment d p wallet submit i =
      let (quota', fresh) = record_nonce p.quota submit.nonce in
      let p' = record p { quota = quota' } in
      if not (bytes_eq submit.to wallet.ethereum_address)
        || ltb submit.value d.payment_config.amount_per_quota
      then some (p, [])
      else if fresh
      then settle_payment d p' wallet submit i
      else some (p', [])

  -- Without a wallet, or with a payload that is no payment, nothing happens.
  unfoldable pub submitted :
      Device net
      → Peer net
      → Option PaymentWallet
      → Option PaymentSubmit
      → Inputs
      → Option (Peer net × List Bytes)
  unfolding check_payment
  submitted d p none submit i = some (p, [])
  submitted d p (some wallet) none i = some (p, [])
  submitted d p (some wallet) (some submit) i = check_payment d p wallet submit i

  unfoldable pub handle_payment_submit :
      Device net → Peer net → Bytes → Inputs → Option (Peer net × List Bytes)
  unfolding submitted
  handle_payment_submit d p payload i = submitted d p d.payment_wallet (Submit.decode payload) i
