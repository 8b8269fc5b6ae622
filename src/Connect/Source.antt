-- ===== src/Connect/Source.antt =====
-- internal/connect/connect.go: the choice of a source address inside a CIDR. Random numbers are
-- arguments, one for each width that the code draws.
pub mod Fields
pub mod Ipv4
pub mod Ipv6
use Prim.Native.Nat.{bit_and, bit_or}
use outway.Base.{
  ℕ, ◌+◌, ◌-◌, ◌*◌, ◌/◌, ◌%◌, ◌^◌, List, ◌++◌, Option, none, some, if◌then◌else◌, ltb, leb, ◌==◌,
}
use outway.Base.{be_bytes, be_value}
use outway.Net.{Addr, Prefix, is4, as4, addr_from4, masked}
use outway.Ext.{Extension, ExtensionType, ext_none, ext_ttl, ext_range, ext_session}
use outway.Connect.Uint128.{
  Uint128, sub64, uint128_one, uint128_from_u64, is_zero_uint128, bytes_to_uint128, ipv6_to_uint128,
  uint128_to_ipv6, new_uint128_lshift_one, new_uint128_from_bit_range, not_uint128, and_uint128,
  or_uint128, shl_uint128, sub_uint128, mod_uint128,
}

-- What `randx` gives: a 32-bit number, a 64-bit number, and the two halves of a 128-bit one.
pub record Random : Type 0 where
  pub u32 : ℕ
  pub u64 : ℕ
  pub high : ℕ
  pub low : ℕ

abbrev pub random_u128 : Random → List ℕ
random_u128 r = be_bytes 8 r.high ++ be_bytes 8 r.low

-- Go shifts of a uint32: by 32 or more the result is zero.
abbrev pub shl32 : ℕ → ℕ → ℕ
shl32 x n = if leb 32 n then 0 else x * 2 ^ n % 2 ^ 32

abbrev pub shr32 : ℕ → ℕ → ℕ
shr32 x n = if leb 32 n then 0 else x / 2 ^ n

abbrev pub sub32 : ℕ → ℕ → ℕ
sub32 a b = (a + 2 ^ 32 - b) % 2 ^ 32

abbrev pub u32 : ℕ → ℕ
u32 x = x % 2 ^ 32

abbrev pub ones32 : ℕ
ones32 = 0xffffffff

abbrev pub ipv4_to_uint32 : Addr → ℕ
ipv4_to_uint32 addr = be_value (as4 addr)

abbrev pub uint32_to_ipv4 : ℕ → Addr
uint32_to_ipv4 v = addr_from4 (be_bytes 4 v)

unfoldable pub assign_rand_ipv4 : Prefix → Random → Addr
assign_rand_ipv4 cidr r =
    let n = cidr.bits in
    let base = ipv4_to_uint32 (masked cidr) in
    let net_part = shl32 (shr32 base (sub64 32 n)) (sub64 32 n) in
    let host_part = shr32 (shl32 r.u32 n) n in uint32_to_ipv4 (bit_or net_part host_part)

unfoldable pub assign_rand_ipv6 : Prefix → Random → Addr
assign_rand_ipv6 cidr r =
    let base = ipv6_to_uint128 (masked cidr) in
    let host_bits = sub64 128 cidr.bits in
    let net_mask = not_uint128 (new_uint128_from_bit_range host_bits) in
    let net_part = and_uint128 base net_mask in
    let host_mask = new_uint128_from_bit_range host_bits in
    let host_part = and_uint128 (bytes_to_uint128 (random_u128 r)) host_mask in
    uint128_to_ipv6 (or_uint128 net_part host_part)

unfoldable pub assign_ipv4_with_range : Prefix → ℕ → ℕ → Random → Addr
unfolding assign_rand_ipv4
assign_ipv4_with_range cidr rng combined r =
    let n = cidr.bits in
    let base = ipv4_to_uint32 (masked cidr) in
    let fixed = bit_and combined (sub32 (shl32 1 (sub64 rng n)) 1) in
    let combined_shifted = shl32 fixed (sub64 32 rng) in
    let subnet_mask = shl32 ones32 (sub64 32 n) in
    let subnet_with_fixed = bit_or (bit_and base subnet_mask) combined_shifted in
    let host_mask = sub32 (shl32 1 (sub64 32 rng)) 1 in
    let host_part = bit_and r.u32 host_mask in
    if ltb rng n
    then assign_rand_ipv4 cidr r
    else uint32_to_ipv4 (bit_or subnet_with_fixed host_part)

unfoldable pub assign_ipv6_with_range : Prefix → ℕ → Uint128 → Random → Addr
unfolding assign_rand_ipv6
assign_ipv6_with_range cidr rng combined r =
    let n = cidr.bits in
    let base = ipv6_to_uint128 (masked cidr) in
    let mask_bits : Uint128 =
      if ltb (sub64 rng n) 128
      then sub_uint128 (new_uint128_lshift_one (sub64 rng n)) uint128_one
      else uint128_from_u64 0 in
    let combined_shifted = shl_uint128 (and_uint128 combined mask_bits) (sub64 128 rng) in
    let subnet_mask =
      not_uint128 (sub_uint128 (new_uint128_lshift_one (sub64 128 n)) uint128_one) in
    let subnet_with_fixed = or_uint128 (and_uint128 base subnet_mask) combined_shifted in
    let host_mask = sub_uint128 (new_uint128_lshift_one (sub64 128 rng)) uint128_one in
    let host_part = and_uint128 (uint128_from_u64 r.u64) host_mask in
    if ltb rng n
    then assign_rand_ipv6 cidr r
    else uint128_to_ipv6 (or_uint128 subnet_with_fixed host_part)

-- The branch of a time window or a session.
unfoldable pub assign_ipv4_sticky : Prefix → ℕ → Addr
assign_ipv4_sticky cidr combined =
    let n = cidr.bits in
    let subnet_mask = shl32 ones32 (sub64 32 n) in
    let base = bit_and (ipv4_to_uint32 (masked cidr)) subnet_mask in
    let capacity = sub32 (shl32 1 (sub64 32 n)) 1 in
    if leb 32 n
    then masked cidr
    else if capacity == 0
    then masked cidr
    else uint32_to_ipv4 (bit_or base (u32 combined % capacity))

unfoldable pub assign_ipv6_sticky : Prefix → ℕ → Addr
assign_ipv6_sticky cidr combined =
    let n = cidr.bits in
    let host_bits = sub64 128 n in
    let base = ipv6_to_uint128 (masked cidr) in
    let subnet_mask = not_uint128 (new_uint128_from_bit_range host_bits) in
    let capacity = sub_uint128 (new_uint128_lshift_one host_bits) uint128_one in
    if leb 128 n
    then masked cidr
    else if is_zero_uint128 capacity
    then masked cidr
    else uint128_to_ipv6 (
        or_uint128 (and_uint128 base subnet_mask)
          (mod_uint128 (uint128_from_u64 combined) capacity))

unfoldable pub assign_ipv4_from_extension : Prefix → Option ℕ → Extension → Random → Addr
unfolding assign_rand_ipv4 assign_ipv4_with_range assign_ipv4_sticky
assign_ipv4_from_extension cidr cidr_range e r = elim e.type [
  | ext_none ↦ assign_rand_ipv4 cidr r
  | ext_ttl ↦ assign_ipv4_sticky cidr e.value
  | ext_session ↦ assign_ipv4_sticky cidr e.value
  | ext_range ↦ elim cidr_range [
    | none ↦ assign_rand_ipv4 cidr r
    | some rng ↦ assign_ipv4_with_range cidr rng (u32 e.value) r
  ]
]

unfoldable pub assign_ipv6_from_extension : Prefix → Option ℕ → Extension → Random → Addr
unfolding assign_rand_ipv6 assign_ipv6_with_range assign_ipv6_sticky
assign_ipv6_from_extension cidr cidr_range e r = elim e.type [
  | ext_none ↦ assign_rand_ipv6 cidr r
  | ext_ttl ↦ assign_ipv6_sticky cidr e.value
  | ext_session ↦ assign_ipv6_sticky cidr e.value
  | ext_range ↦ elim cidr_range [
    | none ↦ assign_rand_ipv6 cidr r
    | some rng ↦ assign_ipv6_with_range cidr rng (uint128_from_u64 e.value) r
  ]
]

unfoldable pub assign_source_ip : Prefix → Option ℕ → Extension → Random → Addr
unfolding assign_ipv4_from_extension assign_ipv6_from_extension
assign_source_ip cidr cidr_range e r =
    if is4 cidr.addr
    then assign_ipv4_from_extension cidr cidr_range e r
    else assign_ipv6_from_extension cidr cidr_range e r
