-- ===== src/Connect/Dial.antt =====
-- internal/connect/connect.go: which source a connection to a target is dialled from.
pub mod Policy
use outway.Base.{ℕ, List, [], Option, none, some, Bool, true, false, not, ◌&&◌, if◌then◌else◌}
use outway.Net.{Addr, AddrPort, Prefix, invalid, is4}
use outway.Config.{BootArgs, Fallback, is_interface, differ}
use outway.Ext.{Extension}
use outway.Connect.Source.{
  Random, assign_source_ip, assign_ipv4_from_extension, assign_ipv6_from_extension,
}

-- The part of a `Connector` that chooses sources.
pub record Connector : Type 0 where
  pub cidr : Option Prefix
  pub cidr_range : Option ℕ
  pub fallback : Option Fallback

-- `New`, from what the configuration gives it.
unfoldable pub new : BootArgs → Connector
new a = record { cidr = a.cidr; cidr_range = a.cidr_range; fallback = a.fallback }

-- What `dialContext` binds a socket to: an address, where it is valid, and an interface, where it
-- is named.
pub record Source : Type 0 where
  pub bind_ip : Addr
  pub bind_interface : List ℕ

abbrev pub cidr_source : Connector → Prefix → Extension → Random → Source
cidr_source c cidr e r = record {
  bind_ip = assign_source_ip cidr c.cidr_range e r;
  bind_interface = [];
}

unfoldable pub fallback_source : Fallback → Source
fallback_source fb =
    if is_interface fb
    then record { bind_ip = invalid; bind_interface = fb.interface }
    else record { bind_ip = fb.address; bind_interface = [] }

abbrev pub plain_source : Source
plain_source = record { bind_ip = invalid; bind_interface = [] }

-- How a target is dialled: refused, from one source, or from a preferred one with a fallback.
pub data Plan : Type 0 where
  mismatch : Plan
  single : Source → Plan
  race : Source → Source → Plan

-- The switch of `connectAddr`.
unfoldable pub plan_matching : Connector → Extension → Random → Plan
unfolding fallback_source assign_source_ip
plan_matching c e r = elim c.cidr [
  | none ↦ elim c.fallback [ none ↦ single plain_source | some fb ↦ single (fallback_source fb) ]
  | some cidr ↦ elim c.fallback [
    | none ↦ single (cidr_source c cidr e r)
    | some fb ↦ race (cidr_source c cidr e r) (fallback_source fb)
  ]
]

abbrev pub family_differs : Option Prefix → AddrPort → Bool
family_differs none target = false
family_differs (some cidr) target = differ (is4 cidr.addr) (is4 target.addr)

unfoldable pub connect_addr : Connector → Extension → Random → AddrPort → Plan
unfolding plan_matching fallback_source
connect_addr c e r target =
    if family_differs c.cidr target
    then elim c.fallback [ none ↦ mismatch | some fb ↦ single (fallback_source fb) ]
    else plan_matching c e r

-- `SocketAddr`: the address that BIND listens on, at port 0. `default` is what `defaultFn` gives.
unfoldable pub socket_addr : Connector → Extension → Random → Option Addr → Option AddrPort
unfolding assign_ipv4_from_extension assign_ipv6_from_extension
socket_addr c e r default =
    let by_default : Option AddrPort = elim default [
      | none ↦ none
      | some ip ↦ some (record { addr = ip; port = 0 })
    ] in
    elim c.cidr [
      | some cidr ↦
          if is4 cidr.addr
          then some (record { addr = assign_ipv4_from_extension cidr c.cidr_range e r; port = 0 })
          else some (record { addr = assign_ipv6_from_extension cidr c.cidr_range e r; port = 0 })
      | none ↦ elim c.fallback [
        | none ↦ by_default
        | some fb ↦
            if not (is_interface fb)
            then some (record { addr = fb.address; port = 0 })
            else by_default
      ]
    ]
