-- ===== src/Connect/Relay.antt =====
-- internal/connect/connect.go: resolving a host, the sockets of a UDP association, and sending a
-- packet. The operating system and the cache of names are arguments.
pub mod Laws
use outway.Base.{
  ℕ, suc, ◌+◌, List, [], ◌∷◌, ◌++◌, Option, none, some, Bool, true, false, not, if◌then◌else◌, map,
}
use outway.Net.{Addr, AddrPort, v4, v6}
use outway.Config.{is_interface}
use outway.Ext.{Extension}
use outway.Connect.Source.{Random, assign_source_ip}
use outway.Connect.Dial.{Connector}

-- Outcomes with an error number.
pub data Outcome (A : Type 0) : Type 0 where
  ok : A → Outcome A
  err : ℕ → Outcome A
  unresolved : Outcome A

-- `resolveHost`: `parse_addr` is `netip.ParseAddr`, `lookup` the cache's `Lookup`.
unfoldable pub resolve_host :
    (List ℕ → Option Addr) → (List ℕ → Outcome (List Addr)) → List ℕ → ℕ → Outcome (List AddrPort)
resolve_host parse_addr lookup host port = elim (parse_addr host) [
  | some ip ↦ ok ((record { addr = ip; port = port }) ∷ [])
  | none ↦ elim (lookup host) [
    | err e ↦ err e
    | unresolved ↦ unresolved
    | ok [] ↦ unresolved
    | ok (ip ∷ ips) ↦ ok (map (λ a. record { addr = a; port = port }) (ip ∷ ips))
  ]
]

-- `LookupCachedHost`.
unfoldable pub lookup_cached_host :
    (List ℕ → Option Addr) → (List ℕ → Option (List Addr)) → List ℕ → Option (List Addr)
lookup_cached_host parse_addr cached host = elim (parse_addr host) [
  | some ip ↦ some (ip ∷ [])
  | none ↦ cached host
]

-- The sockets after `CreateSocketDualStack`: those that it gives, and those that it closed.
pub record Sockets : Type 0 where
  pub result : Outcome (ℕ × Option ℕ)
  pub closed : List ℕ

abbrev pub give : Outcome (ℕ × Option ℕ) → Sockets
give r = record { result = r; closed = [] }

-- One socket, or its error.
abbrev pub only : Outcome ℕ → Sockets
only (ok s) = give (ok (s, none))
only (err e) = give (err e)
only unresolved = give unresolved

-- A preferred socket and a fallback that must open too.
abbrev pub both_or_none : Outcome ℕ → Outcome ℕ → Sockets
both_or_none (ok s) (ok t) = give (ok (s, some t))
both_or_none (ok s) (err e) = record { result = err e; closed = s ∷ [] }
both_or_none (ok s) unresolved = record { result = unresolved; closed = s ∷ [] }
both_or_none (err e) _ = give (err e)
both_or_none unresolved _ = give unresolved

-- A preferred socket and a fallback that may be missing.
abbrev pub second_optional : Outcome ℕ → Outcome ℕ → Sockets
second_optional (ok s) (ok t) = give (ok (s, some t))
second_optional (ok s) _ = give (ok (s, none))
second_optional (err e) _ = give (err e)
second_optional unresolved _ = give unresolved

-- `listen` opens a UDP socket on an address; the sockets are opened in the order of the arguments.
unfoldable pub create_socket_dual_stack :
    (Addr → Outcome ℕ) → Connector → Extension → Random → Sockets
unfolding is_interface assign_source_ip
create_socket_dual_stack listen c e r = elim c.cidr [
  | some cidr ↦
      let preferred = listen (assign_source_ip cidr c.cidr_range e r) in
      elim c.fallback [
        | none ↦ only preferred
        | some fb ↦
            if not (is_interface fb)
            then both_or_none preferred (listen fb.address)
            else only preferred
      ]
  | none ↦
      let any_family = second_optional (listen (v4 0)) (listen (v6 0 [])) in
      elim c.fallback [
        | none ↦ any_family
        | some fb ↦ if not (is_interface fb) then only (listen fb.address) else any_family
      ]
]

-- `sendPacketWithAddr`: `send` is `WriteToUDP` of the packet on a socket, `ended` what `ctx.Err()`
-- gives when it is asked before the address is tried. A packet is tried on the fallback socket,
-- where there is one, when the preferred one fails.
unfoldable pub send_packet_with_addr :
    Option ℕ → (ℕ → AddrPort → Outcome ℕ) → ℕ → Option ℕ → AddrPort → Outcome ℕ
send_packet_with_addr (some e) send preferred fallback addr = err e
send_packet_with_addr none send preferred fallback addr = elim (send preferred addr) [
  | ok n ↦ ok n
  | err e ↦ elim fallback [ none ↦ err e | some s ↦ send s addr ]
  | unresolved ↦ elim fallback [ none ↦ unresolved | some s ↦ send s addr ]
]

-- The loop over the addresses of `SendPacket`, with the last error so far; `ended i` is the error
-- of the context as the address with the number `i` comes up.
unfoldable pub send_any :
    (ℕ → Option ℕ)
    → (ℕ → AddrPort → Outcome ℕ)
    → ℕ
    → Option ℕ
    → ℕ
    → List AddrPort
    → Outcome ℕ
    → Outcome ℕ
unfolding send_packet_with_addr
send_any ended send preferred fallback i [] last = last
send_any ended send preferred fallback i (addr ∷ addrs) last =
    elim (send_packet_with_addr (ended i) send preferred fallback addr) [
      | ok n ↦ ok n
      | err e ↦ send_any ended send preferred fallback (suc i) addrs (err e)
      | unresolved ↦ send_any ended send preferred fallback (suc i) addrs unresolved
    ]

-- `SendPacket` to a target that is resolved.
unfoldable pub send_packet :
    (ℕ → Option ℕ) → (ℕ → AddrPort → Outcome ℕ) → ℕ → Option ℕ → Outcome (List AddrPort) → Outcome ℕ
unfolding send_any
send_packet ended send preferred fallback (ok addrs) =
    send_any ended send preferred fallback 0 addrs unresolved
send_packet ended send preferred fallback (err e) = err e
send_packet ended send preferred fallback unresolved = unresolved
