-- ===== src/Device/Api/OwnSettings.antt =====
-- The lines that set the device's own settings do nothing but what a device does with its peers.
use veil_vpn.Prelude.{
  ℕ, ◌≡◌, refl, sym, ap, inl, inr, Bool, true, false, Option, none, some, Bool-cases, Option-cases,
  some-of_bind,
}
use mathlib.Core.Path.{subst}
use veil_vpn.Prelude.Bytes.{Bytes}
use veil_vpn.Noise.Crypto.{Crypto}
use veil_vpn.Noise.RateLimiter.{RateLimiter}
use veil_vpn.Noise.Tunn
use veil_vpn.Payment.Wallet.{Ethereum, from_wireguard_key}
use veil_vpn.Device.AllowedIps.{NetworkTable}
use veil_vpn.Device.Peer.{Peer, shutdown_endpoint}
use veil_vpn.Device.State.{Device}
use veil_vpn.Device.Table.Run.{clears, configures, Reaches, here, next}
use veil_vpn.Device.Keys.{ParsedKey, parsed, illegal_character, illegal_size}
use veil_vpn.Device.Setup.{
  Fresh, each_peer, bound_to, open_listen_socket, set_fwmark, rekeyed, has_key, new_key, set_key,
}
use veil_vpn.Device.Api.{
  System, DeviceLine, goes_on, stops, peer, set_private_key, set_listen_port, set_mark, set_replace,
  set_peer, checked,
}
use veil_vpn.Device.Api.Sections.{Reaches-trans, each_peer-Reaches}

-- Where every device that a line leaves leads.
unfoldable pub LeadsTo :
    Crypto → (net : NetworkTable) → Device net → Option (DeviceLine net) → Type 0
LeadsTo c net d none = Unit
LeadsTo c net d (some (goes_on d')) = Reaches c net d d'
LeadsTo c net d (some (stops d' status)) = Reaches c net d d'
LeadsTo c net d (some (peer key)) = Unit

module _ (c : Crypto) (net : NetworkTable) where
  -- Settings besides peers.
  settings_only :
      (d d' : Device net) (port : ℕ) (mark : Option ℕ)
      → record d { listen_port = port; fwmark = mark } ≡ d'
      → Reaches c net d d'
  settings_only d d' port mark h =
      next here
        (configures d.key_pair port mark d.rate_limiter d.payment_wallet d.settlement_client h)

  shutdown_keeps :
      (p p' : Peer net) → (some (shutdown_endpoint net p)) ≡ some p' → p'.index ≡ p.index
  unfolding shutdown_endpoint
  shutdown_keeps p p' h =
      let same : shutdown_endpoint net p ≡ p' = cc h in ap (λ (x : Peer net). x.index) (sym same)

  open_listen_socket-Reaches :
      (d u : Device net) (port : ℕ) (bind : ℕ → Option ℕ) (ok : Bool)
      → open_listen_socket net d port bind ≡ some (u, ok)
      → Reaches c net d u
  unfolding open_listen_socket bound_to
  open_listen_socket-Reaches d u port bind ok h =
      let (m, shuts, h1) =
        some-of_bind (each_peer net (λ p. some (shutdown_endpoint net p)) d d.peers) _ h in
      Reaches-trans c net
        (each_peer-Reaches c net (λ p. some (shutdown_endpoint net p)) shutdown_keeps d m d.peers
          shuts)
        (bound m (bind port) h1)
    where
      bound :
          (m : Device net) (b : Option ℕ)
          → (some (bound_to net m b)) ≡ some (u, ok)
          → Reaches c net m u
      bound m none e = let same : m ≡ u = cc e in subst (Reaches c net m) same here
      bound m (some n) e =
          let same : record m { listen_port = n } ≡ u = cc e in settings_only m u n m.fwmark same

  pub listen-LeadsTo :
      (sys : System) (d : Device net) (port : Option ℕ)
      → LeadsTo c net d (set_listen_port net sys d port)
  unfolding set_listen_port LeadsTo
  listen-LeadsTo sys d none = here
  listen-LeadsTo sys d (some port) = elim (Option-cases (open_listen_socket net d port sys.bind)) [
    | inl e ↦ rw e tt
    | inr ((u, bound), e) ↦
        rw e (either u bound (open_listen_socket-Reaches d u port sys.bind bound e))
  ]
    where
      either :
          (u : Device net) (bound : Bool)
          → Reaches c net d u
          → LeadsTo c net d (some (checked net (u, bound)))
      either u true r = r
      either u false r = r

  pub mark-LeadsTo :
      (sys : System) (d : Device net) (mark : Option ℕ)
      → LeadsTo c net d (some (set_mark net sys d mark))
  unfolding set_mark LeadsTo set_fwmark
  mark-LeadsTo sys d none = here
  mark-LeadsTo sys d (some mark) = elim (Bool-cases (sys.marks mark)) [
    | inl e ↦ rw e (settings_only d _ d.listen_port (some mark) refl)
    | inr e ↦ rw e (settings_only d _ d.listen_port (some mark) refl)
  ]

  pub replace-LeadsTo :
      (d : Device net) (b : Option Bool) → LeadsTo c net d (some (set_replace net d b))
  unfolding set_replace LeadsTo
  replace-LeadsTo d none = here
  replace-LeadsTo d (some true) = next here (clears refl)
  replace-LeadsTo d (some false) = here

  pub peer-LeadsTo :
      (d : Device net) (key : Option ParsedKey) → LeadsTo c net d (set_peer net d key)
  unfolding set_peer LeadsTo
  peer-LeadsTo d none = tt
  peer-LeadsTo d (some (parsed key)) = tt
  peer-LeadsTo d (some illegal_character) = here
  peer-LeadsTo d (some illegal_size) = here

  rekeyed-index :
      (private_key public_key : Bytes) (limiter : RateLimiter) (f : Fresh) (p p' : Peer net)
      → rekeyed c net private_key public_key limiter f p ≡ some p'
      → p'.index ≡ p.index
  unfolding rekeyed
  rekeyed-index private_key public_key limiter f p p' h =
      let (t, sets, h1) =
        some-of_bind
          (Tunn.set_static_private c p.tunnel private_key public_key (some limiter) f.keys f.now) _
          h in
      let same : record p { tunnel = t } ≡ p' = cc h1 in ap (λ (x : Peer net). x.index) (sym same)

  module _ (e : Ethereum) where
    new_key-Reaches :
        (d d' : Device net) (private_key public_key : Bytes) (f : Fresh)
        → new_key c e net d private_key public_key f ≡ some d'
        → Reaches c net d d'
    unfolding new_key
    new_key-Reaches d d' private_key public_key f h =
        let (u, rekeys, h1) = some-of_bind (each_peer net _ d d.peers) _ h in
        let (wallet, derived, h2) = some-of_bind (from_wireguard_key e private_key) _ h1 in
        next
          (each_peer-Reaches c net _ (rekeyed-index private_key public_key _ f) d u d.peers rekeys)
          (configures _ _ _ _ _ _ (some_inj h2))
      where
        some_inj : {x y : Device net} → (some x) ≡ (some y) → x ≡ y
        some_inj e = cc e

    set_key-Reaches :
        (d d' : Device net) (private_key : Bytes) (f : Fresh)
        → set_key c e net d private_key f ≡ some d'
        → Reaches c net d d'
    unfolding set_key
    set_key-Reaches d d' private_key f h =
        elim (Bool-cases (has_key d.key_pair (c.public_key private_key))) [
          | inl same ↦ let e : d ≡ d' = cc (rw same at h) in subst (Reaches c net d) e here
          | inr other ↦
              new_key-Reaches d d' private_key (c.public_key private_key) f (rw other at h)
        ]

    pub key-LeadsTo :
        (d : Device net) (f : Fresh) (key : Option ParsedKey)
        → LeadsTo c net d (set_private_key c e net d f key)
    unfolding set_private_key LeadsTo
    key-LeadsTo d f none = tt
    key-LeadsTo d f (some illegal_character) = here
    key-LeadsTo d f (some illegal_size) = here
    key-LeadsTo d f (some (parsed key)) = elim (Option-cases (set_key c e net d key f)) [
      | inl panics ↦ rw panics tt
      | inr (u, sets) ↦ rw sets (set_key-Reaches d u key f sets)
    ]
