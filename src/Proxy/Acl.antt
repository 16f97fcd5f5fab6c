-- ===== src/Proxy/Acl.antt =====
-- internal/proxy/acl.go. The functions of package net are a parameter.
use cloud_vinyl.Prelude.{Bool, true, false, Option, none, some, List, [], ◌∷◌, if◌then◌else◌, Text}

pub record NetPackage : Type 1 where
  pub Ip : Type 0
  pub IpNet : Type 0
  -- `net.ParseCIDR`, `net.ParseIP`; the host of `net.SplitHostPort`; `IPNet.Contains`.
  pub parse_cidr : Text → Option IpNet
  pub parse_ip : Text → Option Ip
  pub split_host_port : Text → Option Text
  pub in_net : IpNet → Ip → Bool

module _ (net : NetPackage) where
  open net use {Ip, IpNet, parse_cidr, parse_ip, split_host_port, in_net}

  pub record Acl : Type 0 where
    pub nets : List IpNet

  -- `NewACL`: the networks, or the first CIDR that does not parse.
  pub data NewAcl : Type 0 where
    acl : Acl → NewAcl
    invalid_cidr : Text → NewAcl

  add_net : IpNet → NewAcl → NewAcl
  add_net n (acl a) = acl (record { nets = n ∷ a.nets })
  add_net n (invalid_cidr c) = invalid_cidr c

  unfoldable pub new_acl : List Text → NewAcl
  unfolding add_net
  new_acl [] = acl (record { nets = [] })
  new_acl (cidr ∷ cidrs) = elim (parse_cidr cidr) [
    | none ↦ invalid_cidr cidr
    | some n ↦ add_net n (new_acl cidrs)
  ]

  -- `addr` as it is, where it has no port.
  unfoldable pub host_of : Text → Text
  host_of addr = elim (split_host_port addr) [ some h ↦ h | none ↦ addr ]

  unfoldable pub any_contains : List IpNet → Ip → Bool
  any_contains [] ip = false
  any_contains (n ∷ ns) ip = if in_net n ip then true else any_contains ns ip

  unfoldable pub allowed_by : List IpNet → Option Ip → Bool
  unfolding any_contains
  allowed_by nets none = false
  allowed_by nets (some ip) = any_contains nets ip

  unfoldable pub allows : Acl → Text → Bool
  unfolding allowed_by host_of
  allows a addr = elim a.nets [ [] ↦ true | n ∷ ns ↦ allowed_by (n ∷ ns) (parse_ip (host_of addr)) ]
