-- ===== src/Connect/Uint128.antt =====
-- internal/connect/connect.go: 128-bit numbers as two 64-bit halves.
pub mod Value
use Prim.Native.Nat.{bit_and, bit_or}
use outway.Base.{
  ℕ, zero, suc, ◌+◌, ◌-◌, ◌*◌, ◌/◌, ◌%◌, ◌^◌, List, ◌++◌, take, drop, Bool, true, false, ◌&&◌, ◌||◌,
  not,
}
use outway.Base.{if◌then◌else◌, ltb, leb, ◌==◌, be_bytes, be_value}
use outway.Net.{Addr, as16, addr_from16}

pub record Uint128 : Type 0 where
  pub hi : ℕ
  pub lo : ℕ

abbrev pub ones64 : ℕ
ones64 = 2 ^ 64 - 1

-- A Go shift of a uint64; by 64 or more the result is zero.
abbrev pub shl64 : ℕ → ℕ → ℕ
shl64 x n = x * 2 ^ n % 2 ^ 64

abbrev pub shr64 : ℕ → ℕ → ℕ
shr64 x n = x / 2 ^ n

abbrev pub sub64 : ℕ → ℕ → ℕ
sub64 a b = (a + 2 ^ 64 - b) % 2 ^ 64

abbrev pub uint128_one : Uint128
uint128_one = record { hi = 0; lo = 1 }

abbrev pub uint128_from_u64 : ℕ → Uint128
uint128_from_u64 v = record { hi = 0; lo = v }

abbrev pub uint128_zero : Uint128
uint128_zero = record { hi = 0; lo = 0 }

abbrev pub is_zero_uint128 : Uint128 → Bool
is_zero_uint128 a = a.hi == 0 && a.lo == 0

-- The shifts of the bytes do not overlap, so each half is the number that its bytes write.
abbrev pub bytes_to_uint128 : List ℕ → Uint128
bytes_to_uint128 b = record { hi = be_value (take 8 b); lo = be_value (drop 8 b) }

abbrev pub ipv6_to_uint128 : Addr → Uint128
ipv6_to_uint128 addr = bytes_to_uint128 (as16 addr)

abbrev pub uint128_to_ipv6 : Uint128 → Addr
uint128_to_ipv6 a = addr_from16 (be_bytes 8 a.hi ++ be_bytes 8 a.lo)

unfoldable pub new_uint128_lshift_one : ℕ → Uint128
new_uint128_lshift_one n =
    if leb 128 n
    then uint128_zero
    else if ltb n 64
    then record { hi = 0; lo = shl64 1 n }
    else record { hi = shl64 1 (n - 64); lo = 0 }

unfoldable pub new_uint128_from_bit_range : ℕ → Uint128
new_uint128_from_bit_range n =
    if leb 128 n
    then record { hi = ones64; lo = ones64 }
    else if ltb n 64
    then record { hi = 0; lo = sub64 (shl64 1 n) 1 }
    else record { hi = sub64 (shl64 1 (n - 64)) 1; lo = ones64 }

unfoldable pub not_uint128 : Uint128 → Uint128
not_uint128 a = record { hi = ones64 - a.hi; lo = ones64 - a.lo }

unfoldable pub and_uint128 : Uint128 → Uint128 → Uint128
and_uint128 a b = record { hi = bit_and a.hi b.hi; lo = bit_and a.lo b.lo }

unfoldable pub or_uint128 : Uint128 → Uint128 → Uint128
or_uint128 a b = record { hi = bit_or a.hi b.hi; lo = bit_or a.lo b.lo }

unfoldable pub shl_uint128 : Uint128 → ℕ → Uint128
shl_uint128 a n =
    if n == 0
    then a
    else if leb 128 n
    then uint128_zero
    else if ltb n 64
    then record { hi = bit_or (shl64 a.hi n) (shr64 a.lo (64 - n)); lo = shl64 a.lo n }
    else record { hi = shl64 a.lo (n - 64); lo = 0 }

unfoldable pub shr_uint128 : Uint128 → ℕ → Uint128
shr_uint128 a n =
    if n == 0
    then a
    else if leb 128 n
    then uint128_zero
    else if ltb n 64
    then record { hi = shr64 a.hi n; lo = bit_or (shr64 a.lo n) (shl64 a.hi (64 - n)) }
    else record { hi = 0; lo = shr64 a.hi (n - 64) }

unfoldable pub sub_uint128 : Uint128 → Uint128 → Uint128
sub_uint128 a b =
    let carry = if ltb a.lo b.lo then 1 else 0 in
    record { hi = sub64 (sub64 a.hi b.hi) carry; lo = sub64 a.lo b.lo }

-- `cmpUint128(a, b) >= 0`.
unfoldable pub ge_uint128 : Uint128 → Uint128 → Bool
ge_uint128 a b = if a.hi == b.hi then leb b.lo a.lo else ltb b.hi a.hi

-- The test and the assignment of one round, at bit `i`, as they are written.
unfoldable pub test_bit : Uint128 → ℕ → Bool
test_bit a i =
    not (bit_and (shr64 a.hi (63 - i % 64)) 1 == 0)
    || ltb i 64 && not (bit_and (shr64 a.lo (63 - i)) 1 == 0)

unfoldable pub set_bit : Uint128 → ℕ → Uint128
set_bit r i =
    if leb 64 i
    then record r { hi = bit_or r.hi (shl64 1 (i - 64)) }
    else record r { lo = bit_or r.lo (shl64 1 i) }

unfoldable pub mod_round : Uint128 → Uint128 → ℕ → Uint128 → Uint128
unfolding shl_uint128 test_bit set_bit ge_uint128 sub_uint128
mod_round a b i r =
    let doubled = shl_uint128 r 1 in
    let marked = if test_bit a i then set_bit doubled i else doubled in
    if ge_uint128 marked b then sub_uint128 marked b else marked

-- The loop with `n` rounds to go, at bits `n - 1` down to 0.
unfoldable pub mod_loop : Uint128 → Uint128 → ℕ → Uint128 → Uint128
unfolding mod_round
mod_loop a b zero r = r
mod_loop a b (suc i) r = mod_loop a b i (mod_round a b i r)

unfoldable pub mod_uint128 : Uint128 → Uint128 → Uint128
mod_uint128 a b =
    if is_zero_uint128 b
    then a
    else if b.hi == 0 && a.hi == 0
    then record { hi = 0; lo = a.lo % b.lo }
    else mod_loop a b 128 uint128_zero
