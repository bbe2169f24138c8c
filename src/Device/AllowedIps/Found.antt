-- ===== src/Device/AllowedIps/Found.antt =====
-- What holds of every value of a table holds of the value that an address finds.
use mathlib.Core.Path.{subst}
use veil_vpn.Prelude.{
  ◌≡◌, inl, inr, Option, some, All, Option-cases, arith, ap, List, [], ◌∷◌, some-of_bind,
}
use veil_vpn.Noise.Packet.{IpAddr}
use veil_vpn.Device.AllowedIps.{
  NetworkTable, NetworkTableLaws, AllowedIp, AllowedIps, find, insert, insert_all,
}

module _ (net : NetworkTable) (laws : NetworkTableLaws net) (D : Type 0) (Q : D → Type 0) where
  pub All-find :
      (t : AllowedIps net D) (addr : IpAddr) (v : D)
      → All (λ e. Q e.1) (net.iter D t)
      → find net D t addr ≡ some v
      → Q v
  unfolding find
  All-find t addr v h found = elim (Option-cases (net.longest_match D t addr)) [
    | inl e ↦ ground (arith, found, e)
    | inr ((n, u), e) ↦
        let same : u ≡ v = ground (arith, found, e) in
        subst Q same (laws.All-longest_match D (λ e. Q e.1) t addr (n, u) h e)
  ]

  pub All-insert_all :
      (t t' : AllowedIps net D) (ips : List AllowedIp) (v : D)
      → All (λ e. Q e.1) (net.iter D t)
      → Q v
      → insert_all net D t ips v ≡ some t'
      → All (λ e. Q e.1) (net.iter D t')
  unfolding insert_all insert
  All-insert_all t t' [] v h q e =
      let same : t ≡ t' = cc e in subst (λ x. All (λ e. Q e.1) (net.iter D x)) same h
  All-insert_all t t' (ip ∷ ips) v h q e =
      let ((t1, old), e1, e2) = some-of_bind (insert net D t ip.addr ip.cidr v) _ e in
      let (n, en, e3) = some-of_bind (net.new_truncate ip.addr ip.cidr) _ e1 in
      let same : (net.insert D t n v).0 ≡ t1 = ap (λ o. o.0) (some_inj e3) in
      All-insert_all t1 t' ips v
        (subst (λ x. All (λ e. Q e.1) (net.iter D x)) same
          (laws.All-insert D (λ e. Q e.1) t n v h q))
        q e2
    where
      some_inj : {x y : AllowedIps net D × Option D} → (some x) ≡ (some y) → x ≡ y
      some_inj e = cc e
