-- ===== src/Device/Api/Runs.antt =====
-- Whatever lines a device is configured with, its tables stay consistent.
use veil_vpn.Prelude.{
  ℕ, suc, ◌≡◌, inl, inr, Bool, true, false, Option, none, some, List, [], ◌∷◌, ◌==◌, if◌then◌else◌,
  length, ◌^◌, Bool-cases,
}
use mathlib.Core.Path.{subst}
use veil_vpn.Prelude.Bytes.{Bytes}
use veil_vpn.Noise.Crypto.{Crypto}
use veil_vpn.Payment.Wallet.{Ethereum}
use veil_vpn.Device.AllowedIps.{NetworkTable, NetworkTableLaws}
use veil_vpn.Device.State.{Device}
use veil_vpn.Device.Table.Consistent.{IsConsistent}
use veil_vpn.Device.Table.Run.{Reaches, here, IsNew, Reaches-IsConsistent}
use veil_vpn.Device.Keys.{from_str}
use veil_vpn.Device.Setup.{Fresh}
use veil_vpn.Device.Lines.{Parsers, section, split_pair, parse_bool, parse_uint}
use veil_vpn.Device.Api.{
  Status, System, DeviceLine, goes_on, stops, peer, device_line, proceed, device_pair, api_set,
  done, einval, eproto,
}
use veil_vpn.Device.Api.Sections.{Reaches-trans, Leads, stays, api_set_peer-Leads}
use veil_vpn.Device.Api.OwnSettings.{
  LeadsTo, listen-LeadsTo, mark-LeadsTo, replace-LeadsTo, peer-LeadsTo, key-LeadsTo,
}

module _ (c : Crypto) (e : Ethereum) (net : NetworkTable) (ps : Parsers) where
  -- Either branch of a test.
  if-LeadsTo :
      (d : Device net) (b : Bool) (x y : Option (DeviceLine net))
      → LeadsTo c net d x
      → LeadsTo c net d y
      → LeadsTo c net d (if b then x else y)
  if-LeadsTo d true x y p q = p
  if-LeadsTo d false x y p q = q

  device_line-LeadsTo :
      (sys : System) (d : Device net) (f : Fresh) (key val : Bytes)
      → LeadsTo c net d (device_line c e net ps sys d f key val)
  unfolding device_line
  device_line-LeadsTo sys d f key val =
      if-LeadsTo d _ _ _ (key-LeadsTo c net e d f (from_str ps.base64_decode val)) (
        if-LeadsTo d _ _ _ (listen-LeadsTo c net sys d (parse_uint (2 ^ 16) val)) (
          if-LeadsTo d _ _ _ (mark-LeadsTo c net sys d (parse_uint (2 ^ 32) val)) (
            if-LeadsTo d _ _ _ (replace-LeadsTo c net d (parse_bool val))
              (if-LeadsTo d _ _ _ (peer-LeadsTo c net d (from_str ps.base64_decode val)) stopped))))
    where
      stopped : LeadsTo c net d (some (stops d einval))
      stopped = unfold LeadsTo in here

  proceed-Leads :
      (rest : Device net → Option (Device net × Status))
      → ((u : Device net) → Leads c net u (rest u))
      → (sys : System) (d : Device net) (lines : List Bytes) (line : Option (DeviceLine net))
      → LeadsTo c net d line
      → Leads c net d (proceed c e net ps rest sys d lines line)
  unfolding proceed Leads LeadsTo
  proceed-Leads rest lead sys d lines none r d' status h = cc h
  proceed-Leads rest lead sys d lines (some (goes_on u)) r d' status h =
      Reaches-trans c net r (lead u d' status h)
  proceed-Leads rest lead sys d lines (some (stops u code)) r d' status h =
      let same : u ≡ d' = cc h in subst (Reaches c net d) same r
  proceed-Leads rest lead sys d lines (some (peer key)) r d' status h =
      api_set_peer-Leads c net ps sys d (section key) lines d' status h

  device_pair-Leads :
      (rest : Device net → Option (Device net × Status))
      → ((u : Device net) → Leads c net u (rest u))
      → (sys : System) (d : Device net) (lines : List Bytes) (pair : Option (Bytes × Bytes))
      → Leads c net d (device_pair c e net ps rest sys d lines pair)
  unfolding device_pair
  device_pair-Leads rest lead sys d lines none = stays c net d eproto
  device_pair-Leads rest lead sys d lines (some (key, val)) =
      proceed-Leads rest lead sys d lines _
        (device_line-LeadsTo sys d (sys.fresh (suc (length lines))) key val)

  api_set-Leads :
      (sys : System) (d : Device net) (lines : List Bytes)
      → Leads c net d (api_set c e net ps sys d lines)
  unfolding api_set
  api_set-Leads sys d [] = stays c net d done
  api_set-Leads sys d (line ∷ lines) = elim (Bool-cases (length line == 0)) [
    | inl empty ↦ rw empty (stays c net d done)
    | inr full ↦ rw full (
        device_pair-Leads (λ d'. api_set c e net ps sys d' lines) (λ u. api_set-Leads sys u lines)
          sys d lines (split_pair 61 line))
  ]

  -- After a configuration of any lines, refused ones included, the tables of a device that started
  -- without peers are consistent, whatever was done before it.
  pub api_set-IsConsistent :
      NetworkTableLaws net
      → (d m d' : Device net) (words rest : List ℕ) (sys : System) (lines : List Bytes)
        (status : Status)
      → IsNew net d words rest
      → Reaches c net d m
      → api_set c e net ps sys m lines ≡ some (d', status)
      → (seen : List ℕ) × IsConsistent net d' seen
  unfolding Leads
  api_set-IsConsistent laws d m d' words rest sys lines status w before h =
      Reaches-IsConsistent c net laws d d' words rest w
        (Reaches-trans c net before (api_set-Leads sys m lines d' status h))
