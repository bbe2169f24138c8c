-- ===== src/Examples/Served.antt =====
-- device/mod.rs: a payment between two devices, and the traffic that is paid for.
use veil_vpn.Prelude.{
  ℕ, ◌+◌, ◌*◌, ◌≤◌, ◌≡◌, refl, ap, sym, false, true, none, some, List, [], ◌∷◌, arith, length,
  replicate,
}
use veil_vpn.Prelude.Bytes.{Bytes, bytes_eq, to_be_bytes, from_be_bytes, from_le_bytes}
use veil_vpn.Noise.Packet.{v4, parse_incoming_packet, read_data, len_and_source}
use veil_vpn.Noise.Window.{will_accept, mark_did_receive}
use veil_vpn.Noise.Session.{receive_packet_data, format_packet_data}
use veil_vpn.Noise.RateLimiter.{verify_packet}
use veil_vpn.Noise.Tunn
use veil_vpn.Noise.Tunn.{session_at, timer_tick, set_current_session}
use veil_vpn.Noise.Tunn.Receive.{decapsulate, handle_data, validate_decapsulated_packet}
use veil_vpn.Noise.Tunn.Send.{encapsulate}
use veil_vpn.Device.AllowedIps.{find}
use veil_vpn.Payment.Quota.{BandwidthQuota, contains_nonce, credit, check_and_record_nonce}
use veil_vpn.Payment.Protocol.{PaymentSubmit, payment_gateway_ip, is_payment_signal}
use veil_vpn.Payment.Protocol.Required as Required
use veil_vpn.Payment.Protocol.Submit as Submit
use veil_vpn.Payment.Config.{gateway_domain}
use veil_vpn.Payment.Wallet.{PaymentWallet, from_wireguard_key, compute_address, recover_address}
use veil_vpn.Payment.Settlement.{client_new}
use veil_vpn.Payment.Authorization.{
  TransferAuthorization, SignedAuthorization, sign_authorization, verify_authorization,
}
use veil_vpn.Payment.Authorization.Signing.{verify-sign}
use veil_vpn.Device.Peer.{Peer, allowed_ips, is_allowed_ip}
use veil_vpn.Device.State.{Device}
use veil_vpn.Device.Payments.{
  first_ipv4, required_message, handle_payment_signal_client, handle_payment_submit,
}
use veil_vpn.Noise.Errors.{ok}
use veil_vpn.Noise.Packet.{PacketData, packet_data}
use veil_vpn.Noise.Session.{Session}
use veil_vpn.Noise.Window.Refinement.{no_history}
use veil_vpn.Noise.Window.Replay.{default-Refines}
use veil_vpn.Payment.Protocol.{dst_ipv4, extract_signal_payload}
use veil_vpn.Payment.Settlement.{settle, build_settle_request}
use veil_vpn.Device.Payments.Terms.{Terms}
use veil_vpn.Examples.Session.{alice, bob}
use veil_vpn.Device.Payments.Effect.{
  Effect, IsSettled, at_gateway, with_nonce, with_payment, handle_payment_submit-Effect,
}
use veil_vpn.Device.Payments.Once.{handle_payloads, payment_once}
use veil_vpn.Device.Payments.Round.{Linked, payment_round}
use veil_vpn.Device.Inbound.{handle_parts}
use veil_vpn.Device.Inbound.Rounds.{handle_connected}
use veil_vpn.Device.Gate.{charge}
use veil_vpn.Device.Outbound.{send_to_peer}
use veil_vpn.Device.Inbound.Enforced.{left}
use veil_vpn.Device.Traffic.{Event, on_own, outgoing, handle_event, serve, serve-within_quota}
use veil_vpn.Examples.Crypto.{toy, toy_open, toy-CryptoLaws}
use veil_vpn.Examples.Handshake.{inputs}
use veil_vpn.Examples.Tunn.{holding, ip_packet, datagram}
use veil_vpn.Examples.Crates.{toy_ethereum, toy-EthereumLaws, toy_http, toy_net, padded, matched}
use veil_vpn.Examples.Device.{config, context, device, or_else}

abbrev server_key : Bytes
server_key = replicate 32 21

abbrev client_key : Bytes
client_key = replicate 32 22

-- The wallet of a key.
wallet : Bytes → PaymentWallet
wallet key = record { signing_key = key; ethereum_address = compute_address toy_ethereum key }

made : (key : Bytes) → from_wireguard_key toy_ethereum key ≡ some (wallet key)
unfolding from_wireguard_key wallet
made key = refl

abbrev transfer : TransferAuthorization
transfer = record {
  from = replicate 20 1;
  to = replicate 20 2;
  value = 10_000;
  valid_after = 0;
  valid_before = 1_000_000;
  nonce = replicate 32 7;
}

verify-sign_example :
    (signed : SignedAuthorization) × (sign_authorization toy_ethereum
        (wallet client_key)
        (gateway_domain config)
        transfer
      ≡ some signed)
    × (signed.auth ≡ transfer)
    × (verify_authorization toy_ethereum (gateway_domain config) signed
        ≡ some (wallet client_key).ethereum_address)
verify-sign_example =
    verify-sign toy_ethereum toy-EthereumLaws (wallet client_key) client_key (gateway_domain config)
      transfer (made client_key)

-- The two ends: the server settles at a gateway, and each has a tunnel to the other.
abbrev server : Device toy_net
server = record device {
  payment_wallet = some (wallet server_key);
  settlement_client = some (client_new (47 ∷ []));
}

abbrev client : Device toy_net
client = record device {
  payment_wallet = some (wallet client_key);
  payment_config = record config { is_server = false };
}

abbrev quota : BandwidthQuota
quota = record {
  remaining_bytes = 100;
  blocked = false;
  total_consumed = 0;
  payment_count = 0;
  used_nonces = [];
}

abbrev peer : Peer toy_net
peer = record {
  tunnel = holding;
  index = 1;
  endpoint = record { addr = none; conn = none };
  allowed_ips = (record { network_address = v4 (10 ∷ 0 ∷ 0 ∷ 2 ∷ []); netmask = 32 }, tt) ∷ [];
  preshared_key = none;
  quota = some quota;
}

abbrev nonce : Bytes
nonce = replicate 32 7

terms :
    Terms toy_ethereum toy_net server client
      (wallet server_key)
      (wallet client_key)
      server_key
      client_key
      nonce
unfolding gateway_domain
terms = record {
  server_made = made server_key;
  client_made = made client_key;
  server_wallet = refl;
  client_wallet = refl;
  domain_eq = refl;
  amount_word = omega arith;
  chain_id_word = omega arith;
  length-contract = refl;
  length-nonce = refl;
}

at_ip : first_ipv4 (allowed_ips toy_net peer) ≡ some (10 ∷ 0 ∷ 0 ∷ 2 ∷ [])
unfolding first_ipv4 allowed_ips
at_ip = refl

at_four : (a : Bytes) → first_ipv4 (allowed_ips toy_net peer) ≡ some a → length a ≡ 4
at_four a h = let same : (10 ∷ 0 ∷ 0 ∷ 2 ∷ []) ≡ a = cc (at_ip, h) in ap length (sym same)

settles : (s : PaymentSubmit) → IsSettled toy_http toy_net server (wallet server_key) s
unfolding settle client_new build_settle_request
settles s = at_gateway (client_new (47 ∷ [])) _ refl refl refl

-- The client's tunnel is at its session with the server.
abbrev client_peer : Peer toy_net
client_peer = record peer { tunnel = record holding { current = 22 } }

link : Linked toy_net client_peer bob alice no_history
unfolding session_at Tunn.new
link = record {
  current = refl;
  key_eq = refl;
  index_eq = refl;
  index_word = omega arith;
  counter_word = omega arith;
  in_step = default-Refines;
  near = omega arith;
  unseen = refl;
}

at_client_ip : first_ipv4 (allowed_ips toy_net client_peer) ≡ some (10 ∷ 0 ∷ 0 ∷ 2 ∷ [])
unfolding first_ipv4 allowed_ips
at_client_ip = refl

payment_round_example :
    (datagram packet payload : Bytes) × (data_packet : PacketData) × (b' : Session) × (cp'
      sp' : Peer toy_net)
    × (out : List Bytes) × (handle_payment_signal_client toy toy_ethereum toy_net client client_peer
          (Required.encode (required_message toy_net server (wallet server_key) nonce 1_000))
          1_001
          inputs
        ≡ some (cp', datagram ∷ []))
    × (parse_incoming_packet datagram ≡ ok (packet_data data_packet))
    × (receive_packet_data toy alice data_packet 65_536 ≡ some (b', ok packet))
    × (is_payment_signal packet ≡ true)
    × (dst_ipv4 packet ≡ some payment_gateway_ip)
    × (extract_signal_payload packet ≡ some payload)
    × (handle_payment_submit toy toy_ethereum toy_http toy_net server peer payload inputs
        ≡ some (sp', out))
    × (sp'.quota ≡ with_payment server.payment_config.quota_bytes (with_nonce nonce (some quota)))
payment_round_example =
    payment_round toy toy_ethereum toy_http toy_net toy-EthereumLaws toy-CryptoLaws server client
      peer client_peer (wallet server_key) (wallet client_key) server_key client_key nonce
      (10 ∷ 0 ∷ 0 ∷ 2 ∷ []) quota 1_000 1_001 65_536 inputs inputs bob alice no_history terms link
      (omega arith) refl (λ m. elim m [ ]) at_client_ip refl at_four settles

-- A peer without an address of IPv4 pays; the same payload comes again.
abbrev plain_peer : Peer toy_net
plain_peer = record peer { allowed_ips = [] }

abbrev submit : PaymentSubmit
submit = record {
  from = (wallet client_key).ethereum_address;
  to = (wallet server_key).ethereum_address;
  value = 10_000;
  valid_after = 0;
  valid_before = 1_000_000;
  nonce = nonce;
  v = 27;
  r = client_key;
  s = replicate 32 0;
}

payload : Bytes
payload = Submit.encode submit

handled : Peer toy_net → Peer toy_net × List Bytes
handled p =
    or_else (handle_payment_submit toy toy_ethereum toy_http toy_net server p payload inputs)
      (p, [])

abbrev first : Peer toy_net
first = (handled plain_peer).0

is_handled :
    handle_payment_submit toy toy_ethereum toy_http toy_net server plain_peer payload inputs
    ≡ some (handled plain_peer)
unfolding handled payload handle_payment_submit Submit.decode Submit.encode to_be_bytes wallet
    compute_address padded from_be_bytes bytes_eq Submit.read check_and_record_nonce
    verify_authorization recover_address allowed_ips
is_handled = refl

handle_payment_submit-Effect_example :
    Effect toy_ethereum toy_http toy_net server plain_peer payload first.quota
handle_payment_submit-Effect_example =
    handle_payment_submit-Effect toy toy_ethereum toy_http toy_net server plain_peer first payload
      inputs (handled plain_peer).1 is_handled

-- The payment was credited, and once.
is_credited : left first.quota ≡ 1_000_100
unfolding handled payload handle_payment_submit Submit.decode Submit.encode to_be_bytes wallet
    compute_address padded from_be_bytes bytes_eq Submit.read check_and_record_nonce
    verify_authorization recover_address allowed_ips credit
is_credited = refl

is_handled_again :
    handle_payment_submit toy toy_ethereum toy_http toy_net server first payload inputs
    ≡ some (handled first)
unfolding handled payload handle_payment_submit Submit.decode Submit.encode to_be_bytes wallet
    compute_address padded from_be_bytes bytes_eq Submit.read check_and_record_nonce
    verify_authorization recover_address allowed_ips credit contains_nonce
is_handled_again = refl

payment_once_example : (handled first).0.quota ≡ first.quota
unfolding handle_payloads
payment_once_example =
    payment_once toy toy_ethereum toy_http toy_net server plain_peer first first (handled first).0
      quota payload [] inputs inputs (handled plain_peer).1 (handled first).1 refl is_handled refl
      is_handled_again

-- A datagram of the peer comes in, and a packet to it goes out.
abbrev events : List Event
events = on_own (v4 (127 ∷ 0 ∷ 0 ∷ 1 ∷ [])) datagram context ∷ outgoing ip_packet context ∷ []

abbrev Served : Type 0
Served = Peer toy_net × ℕ × ℕ

served : Served
served = or_else (serve toy toy_ethereum toy_http toy_net server peer events) (peer, 1_000, 0)

is_served : serve toy toy_ethereum toy_http toy_net server peer events ≡ some served
unfolding served serve handle_event handle_connected handle_parts decapsulate verify_packet
    parse_incoming_packet from_le_bytes from_be_bytes handle_data session_at Tunn.new read_data
    receive_packet_data will_accept mark_did_receive validate_decapsulated_packet toy_open
    len_and_source find matched is_allowed_ip send_to_peer encapsulate format_packet_data
    is_payment_signal bytes_eq charge timer_tick set_current_session
is_served = refl

-- Both packets of 20 bytes were forwarded.
forty : served.1 ≡ 40
unfolding served serve handle_event handle_connected handle_parts decapsulate verify_packet
    parse_incoming_packet from_le_bytes from_be_bytes handle_data session_at Tunn.new read_data
    receive_packet_data will_accept mark_did_receive validate_decapsulated_packet toy_open
    len_and_source find matched is_allowed_ip send_to_peer encapsulate format_packet_data
    is_payment_signal bytes_eq charge timer_tick set_current_session
forty = refl

serve-within_quota_example : served.1 + left served.0.quota ≤ 100 + served.2 * 1_000_000
serve-within_quota_example =
    serve-within_quota toy toy_ethereum toy_http toy_net server peer served.0 events served.1
      served.2 refl (quota, refl) is_served
