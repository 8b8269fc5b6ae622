-- ===== src/Socks/Relay/Laws.antt =====
-- An IPv4 address and the same address mapped into IPv6 are one sender.
use outway.Base.{ℕ, ◌/◌, ◌^◌, ◌≡◌, refl, arith, [], ==_cases, inl, inr, text_eq}
use outway.Net.{Addr, invalid, v4, v6, unmap, addr_eq}
use outway.Socks.Relay.{is_authorized}

-- No zone, as in an address that a socket on an unscoped interface reports.
abbrev pub IsUnscoped : Addr → Type 0
IsUnscoped (v6 x z) = z ≡ []
IsUnscoped _ = Unit

both :
    (x y : ℕ)
    → is_authorized (record { addr = v6 x []; port = 0 }) (v6 y [])
      ≡ addr_eq (unmap (v6 x [])) (unmap (v6 y []))
unfolding is_authorized text_eq
both x y = elim (==_cases (x / 2 ^ 32) 0xffff) [
  | inl (e, p) ↦ elim (==_cases (y / 2 ^ 32) 0xffff) [
    | inl (f, q) ↦ rw (e, f) (ground arith)
    | inr (f, q) ↦ rw (e, f) (ground arith)
  ]
  | inr (e, p) ↦ elim (==_cases (y / 2 ^ 32) 0xffff) [
    | inl (f, q) ↦ rw (e, f) (ground arith)
    | inr (f, q) ↦ rw (e, f) (ground arith)
  ]
]

-- A datagram is authorized exactly when its source address and the expected one are the same
-- address once both are unmapped, for addresses without a zone; its port plays no part.
pub is_authorized-unmap :
    (a : Addr) (port : ℕ) (expected : Addr)
    → IsUnscoped a
    → IsUnscoped expected
    → is_authorized (record { addr = a; port = port }) expected ≡ addr_eq (unmap a) (unmap expected)
unfolding is_authorized text_eq
is_authorized-unmap invalid port invalid h k = refl
is_authorized-unmap invalid port (v4 y) h k = refl
is_authorized-unmap invalid port (v6 y w) h k = ground arith
is_authorized-unmap (v4 x) port invalid h k = refl
is_authorized-unmap (v4 x) port (v4 y) h k = ground arith
is_authorized-unmap (v4 x) port (v6 y w) h k = ground arith
is_authorized-unmap (v6 x z) port invalid h k = ground arith
is_authorized-unmap (v6 x z) port (v4 y) h k = ground arith
is_authorized-unmap (v6 x z) port (v6 y w) h k = rw (h, k) (both x y)
