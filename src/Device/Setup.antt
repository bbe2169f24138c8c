-- ===== src/Device/Setup.antt =====
-- device/mod.rs, what a configuration sets besides peers: `set_key`, `open_listen_socket` and
-- `set_fwmark`. A panic is `none`. The deposit of a client in `set_key` leaves the device alone and
-- is left out. A tunnel takes the shared limiter by value: what the device counts later is not seen
-- by it.
use veil_vpn.Prelude.{
  ℕ, Bool, true, false, Option, none, some, List, [], ◌∷◌, if◌then◌else◌, get_elem?, set, ◌>>=◌,
}
use veil_vpn.Prelude.Bytes.{Bytes, bytes_eq}
use veil_vpn.Noise.Crypto.{Crypto}
use veil_vpn.Noise.RateLimiter
use veil_vpn.Noise.RateLimiter.{RateLimiter}
use veil_vpn.Noise.Tunn
use veil_vpn.Noise.Tunn.{OwnKeys}
use veil_vpn.Payment.Wallet.{Ethereum, from_wireguard_key}
use veil_vpn.Payment.Settlement.{client_new}
use veil_vpn.Device.AllowedIps.{NetworkTable}
use veil_vpn.Device.Peer.{Peer, shutdown_endpoint}
use veil_vpn.Device.State.{Device}

abbrev pub handshake_rate_limit : ℕ
handshake_rate_limit = 100

-- The random keys and the time that a call reads.
pub record Fresh : Type 0 where
  pub keys : OwnKeys
  pub now : ℕ

module _ (net : NetworkTable) where
  -- A change of the peer at each handle, one after another.
  unfoldable pub each_peer :
      (Peer net → Option (Peer net)) → Device net → List (Bytes × ℕ) → Option (Device net)
  each_peer change d [] = some d
  each_peer change d ((pub_key, handle) ∷ rest) = do
    p ← get_elem? d.made handle
    p' ← change p
    each_peer change (record d { made = set d.made handle p' }) rest

  unfoldable pub bound_to : Device net → Option ℕ → Device net × Bool
  bound_to d none = (d, false)
  bound_to d (some bound) = (record d { listen_port = bound }, true)

  -- `bind` opens the sockets and gives the port they are bound to, none when one of the calls fails.
  -- The sockets of the peers are shut down first.
  unfoldable pub open_listen_socket : Device net → ℕ → (ℕ → Option ℕ) → Option (Device net × Bool)
  unfolding each_peer shutdown_endpoint bound_to
  open_listen_socket d port bind = do
    d' ← each_peer (λ p. some (shutdown_endpoint net p)) d d.peers
    some (bound_to d' (bind port))

  -- The mark is kept even if a socket refuses it.
  unfoldable pub set_fwmark : Device net → ℕ → (ℕ → Bool) → Device net × Bool
  set_fwmark d mark marks = (record d { fwmark = some mark }, marks mark)

module _ (c : Crypto) (net : NetworkTable) where
  unfoldable pub rekeyed : Bytes → Bytes → RateLimiter → Fresh → Peer net → Option (Peer net)
  unfolding Tunn.set_static_private
  rekeyed private_key public_key limiter f p = do
    t ← Tunn.set_static_private c p.tunnel private_key public_key (some limiter) f.keys f.now
    some (record p { tunnel = t })

-- The key pair is there, and has the public key.
unfoldable pub has_key : Option (Bytes × Bytes) → Bytes → Bool
has_key none public_key = false
has_key (some (private_key, current)) public_key = bytes_eq public_key current

module _ (c : Crypto) (e : Ethereum) (net : NetworkTable) where
  unfoldable pub new_key : Device net → Bytes → Bytes → Fresh → Option (Device net)
  unfolding each_peer rekeyed RateLimiter.new client_new
  new_key d private_key public_key f = do
    let limiter =
        RateLimiter.new c f.keys.nonce_key f.keys.secret_key public_key handshake_rate_limit f.now
    d' ← each_peer net (rekeyed c net private_key public_key limiter f) d d.peers
    wallet ← from_wireguard_key e private_key
    some (record d' {
      key_pair = some (private_key, public_key);
      rate_limiter = some limiter;
      payment_wallet = some wallet;
      settlement_client =
          if d.payment_config.is_server
          then some (client_new d.payment_config.gateway_api_url)
          else d.settlement_client;
    })

  -- The same key changes nothing.
  unfoldable pub set_key : Device net → Bytes → Fresh → Option (Device net)
  unfolding new_key has_key
  set_key d private_key f =
      if has_key d.key_pair (c.public_key private_key)
      then some d
      else new_key d private_key (c.public_key private_key) f
