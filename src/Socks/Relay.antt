-- ===== src/Socks/Relay.antt =====
-- internal/server/socks/server.go: who may send through a UDP association, and which batches of
-- datagrams go out in one call.
pub mod Laws
use outway.Base.{
  ℕ, List, [], ◌∷◌, Option, none, some, Bool, true, false, not, ◌&&◌, ◌||◌, ◌==◌, ltb,
  if◌then◌else◌, length, is_some,
}
use outway.Net.{Addr, AddrPort, is4, is4_in6, unmap, addr_eq}

-- `isAuthorized`.
unfoldable pub is_authorized : AddrPort → Addr → Bool
is_authorized src expected =
    if addr_eq src.addr expected
    then true
    else if is4_in6 src.addr && is4 expected && addr_eq (unmap src.addr) expected
    then true
    else is4 src.addr && is4_in6 expected && addr_eq (unmap expected) src.addr

-- The loop of `cachedTargetForFamily` over the cached addresses.
unfoldable pub target_for_family : List Addr → ℕ → Bool → Bool → Bool → Option AddrPort
target_for_family [] port preferred_v4 has_fallback fallback_v4 = none
target_for_family (a ∷ rest) port preferred_v4 has_fallback fallback_v4 =
    let u = unmap a in
    if same preferred_v4 (is4 u) || (has_fallback && same fallback_v4 (is4 u))
    then some (record { addr = u; port = port })
    else target_for_family rest port preferred_v4 has_fallback fallback_v4
  where
    same : Bool → Bool → Bool
    same true b = b
    same false b = not b
