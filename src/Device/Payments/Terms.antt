-- ===== src/Device/Payments/Terms.antt =====
-- The terms of a payment, and that the client can sign them.
use veil_vpn.Prelude.{ℕ, ◌+◌, ◌%◌, ◌^◌, ◌<◌, ◌≡◌, refl, ap, ◌∙◌, true, some, arith, length, add_u64}
use mathlib.Core.Path.{subst}
use veil_vpn.Prelude.Bytes.{Bytes, bytes_eq_refl}
use veil_vpn.Payment.Protocol.{PaymentRequired, PaymentSubmit}
use veil_vpn.Payment.Protocol.Required
use veil_vpn.Payment.Protocol.Submit
use veil_vpn.Payment.Config.{gateway_domain}
use veil_vpn.Payment.Wallet.{Ethereum, EthereumLaws, PaymentWallet, from_wireguard_key}
use veil_vpn.Payment.Authorization.{
  TransferAuthorization, compute_eip712_digest, verify_authorization,
}
use veil_vpn.Payment.Authorization.Signing.{length-ethereum_address, sign_digest_lem}
use veil_vpn.Device.AllowedIps.{NetworkTable}
use veil_vpn.Device.State.{Device}
use veil_vpn.Device.Payments.{signed_of, required_message, signer_is, is_signed, sign_payment}

-- The two ends of a round: the wallets, made from keys, the domain under which both sign, and the
-- terms that fit the fields of a message.
pub record Terms (e : Ethereum) (net : NetworkTable) (server client : Device net)
    (sw cw : PaymentWallet) (ks kc nonce : Bytes) : Type 0 where
  pub server_made : from_wireguard_key e ks ≡ some sw
  pub client_made : from_wireguard_key e kc ≡ some cw
  pub server_wallet : server.payment_wallet ≡ some sw
  pub client_wallet : client.payment_wallet ≡ some cw
  pub domain_eq : gateway_domain client.payment_config ≡ gateway_domain server.payment_config
  pub amount_word : server.payment_config.amount_per_quota < 2 ^ 64
  pub chain_id_word : server.payment_config.chain_id < 2 ^ 64
  pub length-contract : length server.payment_config.usdc_contract ≡ 20
  pub length-nonce : length nonce ≡ 32

is_signed_lem :
    (e : Ethereum) (net : NetworkTable) (d : Device net) (s : PaymentSubmit)
    → verify_authorization e (gateway_domain d.payment_config) (signed_of s) ≡ some s.from
    → is_signed e net d s ≡ true
unfolding is_signed signer_is
is_signed_lem e net d s h = ap (λ o. signer_is o s.from) h ∙ bytes_eq_refl s.from

module _ (e : Ethereum) (net : NetworkTable) (laws : EthereumLaws e) (server client : Device net)
    (sw cw : PaymentWallet) (ks kc nonce : Bytes) (now now' : ℕ)
    (w : Terms e net server client sw cw ks kc nonce) where
  abbrev pub request : PaymentRequired
  request = required_message net server sw nonce now

  pub request-IsWire : Required.IsWire request
  unfolding required_message add_u64
  request-IsWire = record {
    amount_usdc_word = w.amount_word;
    deadline_word = omega arith;
    chain_id_word = w.chain_id_word;
    nonce_length = w.length-nonce;
    recipient_length = length-ethereum_address e laws ks sw w.server_made;
    usdc_contract_length = w.length-contract;
  }

  -- The client signs: the payment fits its message, and the server finds the client's signature.
  pub record Signed (submit : PaymentSubmit) : Type 0 where
    pub signs : sign_payment e net client cw request now' ≡ some submit
    pub is_wire : Submit.IsWire submit
    pub to_server : submit.to ≡ sw.ethereum_address
    pub value_eq : submit.value ≡ server.payment_config.amount_per_quota
    pub nonce_eq : submit.nonce ≡ nonce
    pub verifies : is_signed e net server submit ≡ true

  pub client_signs : (submit : PaymentSubmit) × Signed submit
  unfolding sign_payment required_message verify_authorization add_u64
  client_signs =
      let auth : TransferAuthorization = record {
        from = cw.ethereum_address;
        to = sw.ethereum_address;
        value = server.payment_config.amount_per_quota;
        valid_after = 0;
        valid_before = (now' + 345600) % 2 ^ 64;
        nonce = nonce;
      } in
      let digest = compute_eip712_digest e (gateway_domain client.payment_config) auth in
      let k = sign_digest_lem e laws cw digest kc (length-digest auth) w.client_made in
      (
        record {
          from = cw.ethereum_address;
          to = sw.ethereum_address;
          value = server.payment_config.amount_per_quota;
          valid_after = 0;
          valid_before = (now' + 345600) % 2 ^ 64;
          nonce = nonce;
          v = k.v;
          r = k.r;
          s = k.s;
        },
        record {
          signs = rw k.signed refl;
          is_wire = record {
            value_word = w.amount_word;
            valid_after_word = omega arith;
            valid_before_word = omega arith;
            from_length = length-ethereum_address e laws kc cw w.client_made;
            to_length = length-ethereum_address e laws ks sw w.server_made;
            nonce_length = w.length-nonce;
            r_length = k.length-r;
            s_length = k.length-s;
          };
          to_server = refl;
          value_eq = refl;
          nonce_eq = refl;
          verifies = is_signed_lem e net server _ (
              subst
                (λ domain.
                  verify_authorization e domain (record { auth = auth; v = k.v; r = k.r; s = k.s })
                  ≡ some cw.ethereum_address)
                w.domain_eq k.recovered);
        },
      )
    where
      length-digest :
          (auth : TransferAuthorization)
          → length (compute_eip712_digest e (gateway_domain client.payment_config) auth) ≡ 32
      length-digest auth = unfold compute_eip712_digest in laws.length-keccak256 _
