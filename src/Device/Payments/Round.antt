-- ===== src/Device/Payments/Round.antt =====
-- One round of payment: the server asks, the client signs, the server credits.
use veil_vpn.Prelude.{
  ℕ, ◌+◌, ◌^◌, ◌≤◌, ◌<◌, ◌≡◌, refl, ap, ◌∙◌, Bool, true, false, ◌||◌, not, some, List, [], ◌∷◌, ltb,
  if◌then◌else◌, arith, length, get_or, ◌==◌,
}
use mathlib.Core.List.{Memᴰ}
use veil_vpn.Prelude.Bytes.{Bytes, bytes_eq, bytes_eq_refl}
use veil_vpn.Noise.Window.{n_bits}
use veil_vpn.Noise.Session.{Session, receive_packet_data}
use veil_vpn.Noise.Window.Replay.{IsCounter}
use veil_vpn.Noise.Session.Exchange.{delivery}
use veil_vpn.Noise.Packet.{PacketData, packet_data, parse_incoming_packet}
use veil_vpn.Noise.Crypto.{Crypto, CryptoLaws}
use veil_vpn.Noise.Window.Refinement.{History, Refines}
use veil_vpn.Noise.Handshake.Initiation.{Inputs}
use veil_vpn.Noise.Tunn.{session_at}
use veil_vpn.Noise.Errors.{ok}
use veil_vpn.Payment.Wallet.{Ethereum, EthereumLaws, PaymentWallet}
use veil_vpn.Payment.Protocol.Required
use veil_vpn.Payment.Protocol.Submit
use veil_vpn.Payment.Quota.{BandwidthQuota, check_and_record_nonce, contains_nonce}
use veil_vpn.Payment.Settlement.{Http}
use veil_vpn.Payment.Protocol.Signal.{build_signal_packet-length, signal-roundtrip}
use veil_vpn.Payment.Protocol.{
  PaymentRequired, PaymentSubmit, payment_gateway_ip, framed, msg_payment_required,
  is_payment_signal, dst_ipv4, extract_signal_payload,
}
use veil_vpn.Device.Payments.Terms.{Terms, client_signs, request-IsWire}
use veil_vpn.Device.Payments.Messages.{send_signal-format, accept-some}
use veil_vpn.Device.AllowedIps.{NetworkTable}
use veil_vpn.Device.Payments.{
  first_ipv4, record_nonce, required_message, send_signal, accept, is_settled, is_signed,
  sign_payment, send_payment, pay, requested, handle_payment_signal_client, settle_payment,
  check_payment, submitted, handle_payment_submit, max_payment_packet_size,
}
use veil_vpn.Device.Peer.{Peer, allowed_ips}
use veil_vpn.Device.State.{Device}
use veil_vpn.Device.Payments.Effect.{
  IsSettled, with_nonce, with_payment, credited_lem, unused-contains, IsSettled→is_settled,
}
use veil_vpn.Device.Payments.Outcome.{accept-quota}

-- The client sends under a session, the server receives under one: they hold each other's keys and
-- indices, and the next counter is new to the server and in its window.
pub record Linked (net : NetworkTable) (cp : Peer net) (a b : Session) (w : History) : Type 0 where
  pub current : session_at cp.tunnel.sessions cp.tunnel.current ≡ some a
  pub key_eq : a.sender ≡ b.receiver
  pub index_eq : a.sending_index ≡ b.receiving_index
  pub index_word : a.sending_index < 2 ^ 32
  pub counter_word : IsCounter a.sending_key_counter
  pub in_step : Refines b.receiving_key_counter w
  pub near : b.receiving_key_counter.next ≤ a.sending_key_counter + n_bits
  pub unseen : w.seen a.sending_key_counter ≡ false

record_nonce-new :
    (q : BandwidthQuota) (nonce : Bytes)
    → contains_nonce q.used_nonces nonce ≡ false
    → record_nonce (some q) nonce ≡ (some (record q { used_nonces = nonce ∷ q.used_nonces }), true)
unfolding record_nonce check_and_record_nonce
record_nonce-new q nonce h = ground (arith, h)

-- What a client sends to the gateway is opened by the server's session, and read.
carried :
    (c : Crypto) (net : NetworkTable) (cp : Peer net) (client_ip payload : Bytes) (a b : Session)
    (w : History) (n : ℕ) (i : Inputs)
    → CryptoLaws c
    → Linked net cp a b w
    → max_payment_packet_size ≤ n
    → length client_ip ≡ 4
    → length payload ≡ 164
    → (datagram packet : Bytes) × (data_packet : PacketData) × (b' : Session) × (cp' : Peer net)
      × (send_signal c net cp client_ip payment_gateway_ip payload i ≡ some (cp', datagram ∷ []))
      × (parse_incoming_packet datagram ≡ ok (packet_data data_packet))
      × (receive_packet_data c b data_packet n ≡ some (b', ok packet))
      × (is_payment_signal packet ≡ true)
      × (dst_ipv4 packet ≡ some payment_gateway_ip)
      × (extract_signal_payload packet ≡ some payload)
carried c net cp client_ip payload a b w n i laws link room four size =
    let (packet, built, extracted, from_ip, to_ip, signal) =
      signal-roundtrip client_ip payment_gateway_ip payload four refl (omega (arith, size)) in
    let (same_packet, built', sized) =
      build_signal_packet-length client_ip payment_gateway_ip payload four refl
        (omega (arith, size)) in
    let same : same_packet ≡ packet = cc (built, built') in
    let length_packet : length packet ≡ 192 = omega (arith, ap length same, sized, size) in
    let (a', b', datagram, data_packet, formats, moved, parsed, received) =
      delivery c laws a b packet max_payment_packet_size n w link.key_eq link.index_eq
        link.index_word (omega (arith, length_packet)) (omega (arith, length_packet))
        link.counter_word link.in_step link.near link.unseen in
    let (cp', sends) =
      send_signal-format c net cp client_ip payment_gateway_ip payload packet i a a' datagram built
        link.current formats in
    (
      datagram,
      packet,
      data_packet,
      b',
      cp',
      sends,
      parsed,
      received,
      signal ∙ ground (arith, bytes_eq_refl payment_gateway_ip),
      to_ip,
      extracted,
    )

module _ (c : Crypto) (e : Ethereum) (http_client : Http) (net : NetworkTable) where
  -- A payment that passes every check is accepted.
  settled-accept :
      (d : Device net) (p : Peer net) (q : BandwidthQuota) (w : PaymentWallet) (s : PaymentSubmit)
      (i : Inputs)
      → p.quota ≡ some q
      → contains_nonce q.used_nonces s.nonce ≡ false
      → s.to ≡ w.ethereum_address
      → s.value ≡ d.payment_config.amount_per_quota
      → is_signed e net d s ≡ true
      → is_settled http_client net d w s ≡ true
      → check_payment c e http_client net d p w s i
        ≡ accept c net d
            (record p { quota = some (record q { used_nonces = s.nonce ∷ q.used_nonces }) })
            i
  unfolding check_payment settle_payment
  settled-accept d p q w s i has new to_w value signed settled =
      let pays : (not (bytes_eq s.to w.ethereum_address)
            || ltb s.value d.payment_config.amount_per_quota)
          ≡ false =
        ap
          (λ a.
            not (bytes_eq a w.ethereum_address) || ltb s.value d.payment_config.amount_per_quota)
          to_w
        ∙ rw (bytes_eq_refl w.ethereum_address) (ground (arith, value)) in
      let fresh = ap (λ x. record_nonce x s.nonce) has ∙ record_nonce-new q s.nonce new in
      rw (pays, fresh, signed, settled) refl

  -- The client's answer to a request.
  client_answers :
      (d : Device net) (p : Peer net) (w : PaymentWallet) (req : PaymentRequired)
      (submit : PaymentSubmit) (client_ip : Bytes) (now : ℕ) (i : Inputs)
      → Required.IsWire req
      → d.payment_wallet ≡ some w
      → sign_payment e net d w req now ≡ some submit
      → first_ipv4 (allowed_ips net p) ≡ some client_ip
      → handle_payment_signal_client c e net d p (Required.encode req) now i
        ≡ send_signal c net p client_ip payment_gateway_ip (Submit.encode submit) i
  unfolding handle_payment_signal_client requested pay send_payment
  client_answers d p w req submit client_ip now i wire wallet signs at_client =
      ap
        (λ (b : Bool).
          if b
          then some (p, [])
          else requested c e net d p (Required.decode (Required.encode req)) d.payment_wallet now i)
        asks
      ∙ ap (λ o. requested c e net d p o d.payment_wallet now i)
          (Required.required-roundtrip req wire)
      ∙ ap (λ o. requested c e net d p (some req) o now i) wallet
      ∙ rw (signs, at_client) refl
    where
      asks :
          (length (Required.encode req) == 0
            || not (get_or (Required.encode req) 0 0 == msg_payment_required))
          ≡ false
      asks = unfold Required.encode framed in ground arith

  -- The server's answer to a payment that passes every check.
  server_accepts :
      (d : Device net) (p : Peer net) (q : BandwidthQuota) (w : PaymentWallet) (s : PaymentSubmit)
      (i : Inputs)
      → d.payment_wallet ≡ some w
      → Submit.IsWire s
      → p.quota ≡ some q
      → contains_nonce q.used_nonces s.nonce ≡ false
      → s.to ≡ w.ethereum_address
      → s.value ≡ d.payment_config.amount_per_quota
      → is_signed e net d s ≡ true
      → is_settled http_client net d w s ≡ true
      → handle_payment_submit c e http_client net d p (Submit.encode s) i
        ≡ accept c net d
            (record p { quota = some (record q { used_nonces = s.nonce ∷ q.used_nonces }) })
            i
  unfolding handle_payment_submit submitted
  server_accepts d p q w s i wallet wire has new to_w value signed settled =
      ap (λ o. submitted c e http_client net d p o (Submit.decode (Submit.encode s)) i) wallet
      ∙ ap (λ o. submitted c e http_client net d p (some w) o i) (Submit.submit-roundtrip s wire)
      ∙ settled-accept d p q w s i has new to_w value signed settled

  -- A round of payment: both wallets are made from keys, the client signs under the domain of the
  -- server, the terms fit the fields of a message, the addresses of both peers are of IPv4, the
  -- client's tunnel and the server's session hold each other's keys and the next counter is new and
  -- in the window, the nonce is not on record, and the gateway settles what it is asked to. Then the
  -- client answers the server's request with one datagram. The server's session opens it to a packet
  -- to the gateway, which carries a payment, and the payment is credited: the bytes that the server
  -- sells are added (modulo 2^64), the payment is counted, the nonce is on record and the peer is
  -- not blocked.
  pub payment_round :
      EthereumLaws e
      → CryptoLaws c
      → (server client : Device net) (sp cp : Peer net) (sw cw : PaymentWallet)
        (ks kc nonce client_ip : Bytes) (q : BandwidthQuota) (now now' n : ℕ) (i i' : Inputs)
        (a b : Session) (w : History)
      → Terms e net server client sw cw ks kc nonce
      → Linked net cp a b w
      → max_payment_packet_size ≤ n
      → sp.quota ≡ some q
      → ¬ (Memᴰ nonce q.used_nonces)
      → first_ipv4 (allowed_ips net cp) ≡ some client_ip
      → length client_ip ≡ 4
      → ((x : Bytes) → first_ipv4 (allowed_ips net sp) ≡ some x → length x ≡ 4)
      → ((s : PaymentSubmit) → IsSettled http_client net server sw s)
      → (datagram packet payload : Bytes) × (data_packet : PacketData) × (b' : Session) × (cp'
          sp' : Peer net)
        × (out : List Bytes) × (handle_payment_signal_client c e net client cp
              (Required.encode (required_message net server sw nonce now))
              now'
              i
            ≡ some (cp', datagram ∷ []))
        × (parse_incoming_packet datagram ≡ ok (packet_data data_packet))
        × (receive_packet_data c b data_packet n ≡ some (b', ok packet))
        × (is_payment_signal packet ≡ true)
        × (dst_ipv4 packet ≡ some payment_gateway_ip)
        × (extract_signal_payload packet ≡ some payload)
        × (handle_payment_submit c e http_client net server sp payload i' ≡ some (sp', out))
        × (sp'.quota ≡ with_payment server.payment_config.quota_bytes (with_nonce nonce (some q)))
  unfolding allowed_ips
  payment_round laws crypto_laws server client sp cp sw cw ks kc nonce client_ip q now now' n i i' a
        b w terms link room has new at_client four at_server settles =
      let (submit, k) = client_signs e net laws server client sw cw ks kc nonce now now' terms in
      let (
        datagram, packet, data_packet, b', cp', sends, parsed, received, signal, to_ip, extracted,
      ) =
        carried c net cp client_ip (Submit.encode submit) a b w n i crypto_laws link room four
          (Submit.length-encode submit k.is_wire) in
      let recorded = record q { used_nonces = submit.nonce ∷ q.used_nonces } in
      let (sp', out, tells) =
        accept-some c net server (record sp { quota = some recorded }) i' at_server in
      let fresh : contains_nonce q.used_nonces submit.nonce ≡ false =
        ap (contains_nonce q.used_nonces) k.nonce_eq ∙ unused-contains q.used_nonces nonce new in
      (
        datagram,
        packet,
        Submit.encode submit,
        data_packet,
        b',
        cp',
        sp',
        out,
        client_answers client cp cw (required_message net server sw nonce now) submit client_ip now'
              i (request-IsWire e net laws server client sw cw ks kc nonce now now' terms)
              terms.client_wallet k.signs at_client
            ∙ sends,
        parsed,
        received,
        signal,
        to_ip,
        extracted,
        server_accepts server sp q sw submit i' terms.server_wallet k.is_wire has fresh k.to_server
              k.value_eq k.verifies
              (IsSettled→is_settled e http_client net server sw submit (settles submit))
            ∙ tells,
        accept-quota c net server (record sp { quota = some recorded }) sp' i' out tells
            ∙ credited_lem (some recorded) server.payment_config.quota_bytes
            ∙ ap
                (λ (m : Bytes).
                  with_payment server.payment_config.quota_bytes (with_nonce m (some q)))
                k.nonce_eq,
      )
