-- ===== src/Connect/Source/Ipv6.antt =====
-- IPv6 source addresses in closed form: the halves stand for the same fields as in IPv4, at 128 bits.
pub mod Policy
use Prim.Native.Nat.{bit_and, bit_or}
use outway.Base.{
  ℕ, suc, ◌+◌, ◌-◌, ◌*◌, ◌/◌, ◌%◌, ◌^◌, ◌≤◌, ◌<◌, ◌≡◌, ◌≢◌, refl, arith, ap, sym, ◌∙◌, Option, none,
  some,
}
use outway.Base.{
  leb_cases, ltb_cases, inl, inr, ltb-false, leb-false, be_bytes, be_value, be_value-be_bytes,
  be_value-append,
}
use outway.Base.{
  All, IsByte, All-be_bytes, All-take, All-drop, length-be_bytes, length-take, length-drop,
  be_value-lt, take-append-drop, List, [], length, ◌++◌, take, drop,
}
use outway.Base.{take_of_append, drop_of_append, ◌⊎◌, lt→ltb, false}
use outway.Base.Bits.{two-pow-pos, two-pow-split, bit_and_low, mod_pow-lt}
use native.Mathlib.Nat.{mul-div_left, pow-le-pow_right, mod-lt, add-zero}
use mathlib.Core.Path.{subst}
use outway.Net.{Addr, Prefix, v6, as16, masked, AgreeOn, Contains}
use outway.Ext.{Extension, ExtensionType, ext_none, ext_ttl, ext_range, ext_session}
use outway.Connect.Uint128.{
  Uint128, sub64, uint128_one, uint128_from_u64, bytes_to_uint128, ipv6_to_uint128, uint128_to_ipv6,
  new_uint128_lshift_one, new_uint128_from_bit_range, not_uint128, and_uint128, or_uint128,
  shl_uint128, sub_uint128, mod_uint128, is_zero_uint128,
}
use outway.Connect.Uint128.Value.{
  IsUint128, value, value-and, value-or, value-not, value-low_mask, value-from_bit_range, value-shl,
  value-mod, value-lt,
}
use outway.Connect.Source.{
  Random, random_u128, assign_rand_ipv6, assign_ipv6_with_range, assign_ipv6_sticky,
  assign_ipv6_from_extension,
}
use outway.Connect.Source.Fields.{net_room, keep_net, with_host, fixed-lt, host-lt, with_fixed}

-- Sixteen bytes as two halves.
bytes_value :
    (bs : List ℕ)
    → length bs ≡ 16
    → All IsByte bs
    → (value (bytes_to_uint128 bs) ≡ be_value bs) × IsUint128 (bytes_to_uint128 bs)
bytes_value bs size h =
    let low : length (drop 8 bs) ≡ 8 = omega (arith, length-drop 8 bs) in
    let high : length (take 8 bs) ≡ 8 = omega (arith, length-take 8 bs) in
    let joined = be_value-append (take 8 bs) (drop 8 bs) in
    (
      subst (λ t. value (bytes_to_uint128 bs) ≡ be_value t) (take-append-drop 8 bs)
          (rw (joined, low) refl),
      (
        be_value-lt 8 (take 8 bs) high (All-take IsByte 8 bs h),
        be_value-lt 8 (drop 8 bs) low (All-drop IsByte 8 bs h),
      ),
    )

to_ipv6 : (a : Uint128) → IsUint128 a → uint128_to_ipv6 a ≡ v6 (value a) []
to_ipv6 a h =
    ap (λ (t : ℕ). v6 t [])
      (be_value-append (be_bytes 8 a.hi) (be_bytes 8 a.lo)
        ∙ rw (length-be_bytes 8 a.lo, be_value-be_bytes 8 a.hi h.0, be_value-be_bytes 8 a.lo h.1)
            refl)

-- What the generator's 128 bits are worth.
abbrev pub draw : Random → ℕ
draw r = value (bytes_to_uint128 (random_u128 r))

random_bytes : (r : Random) → IsUint128 (bytes_to_uint128 (random_u128 r))
random_bytes r =
    let high = be_bytes 8 r.high in
    let low = be_bytes 8 r.low in
    let size = length-be_bytes 8 r.high in
    rw (take_of_append high low size, drop_of_append high low size)
      (
        be_value-lt 8 high size (All-be_bytes 8 r.high),
        be_value-lt 8 low (length-be_bytes 8 r.low) (All-be_bytes 8 r.low),
      )

from_u64_value : (c : ℕ) → value (uint128_from_u64 c) ≡ c
from_u64_value c = omega arith

-- The low `k` bits after masking.
masked_low :
    (a mask : Uint128) (k : ℕ)
    → IsUint128 a
    → value mask ≡ 2 ^ k - 1
    → IsUint128 mask
    → (value (and_uint128 a mask) ≡ value a % 2 ^ k) × IsUint128 (and_uint128 a mask)
masked_low a mask k ha e h =
    let both = value-and a mask ha h in (both.0 ∙ rw e (bit_and_low k (value a)), both.1)

masked_low64 :
    (c : ℕ) (mask : Uint128) (k : ℕ)
    → c < 2 ^ 64
    → value mask ≡ 2 ^ k - 1
    → IsUint128 mask
    → (value (and_uint128 (uint128_from_u64 c) mask) ≡ c % 2 ^ k)
      × IsUint128 (and_uint128 (uint128_from_u64 c) mask)
masked_low64 c mask k hc e h =
    let bits = masked_low (uint128_from_u64 c) mask k (omega arith) e h in
    (bits.0 ∙ ap (λ (t : ℕ). t % 2 ^ k) (from_u64_value c), bits.1)

module _ (x n : ℕ) (fits : n ≤ 128) (range : x < 2 ^ 128) where
  abbrev cidr : Prefix
  cidr = record { addr = v6 x []; bits = n }

  abbrev base : ℕ
  base = x / 2 ^ (128 - n) * 2 ^ (128 - n)

  abbrev net128 : Uint128
  net128 = ipv6_to_uint128 (v6 base [])

  net_value : (value net128 ≡ base) × IsUint128 net128
  net_value =
      let whole = net_room 128 n x fits range in
      let bytes = bytes_value (be_bytes 16 base) (length-be_bytes 16 base) (All-be_bytes 16 base) in
      (bytes.0 ∙ be_value-be_bytes 16 base (omega (arith, two-pow-pos (128 - n))), bytes.1)

  host_bits : sub64 128 n ≡ 128 - n
  host_bits = omega arith

  -- The network part after masking with the complement of a mask of the host bits.
  masked_net :
      (mask : Uint128)
      → value mask ≡ 2 ^ (128 - n) - 1
      → IsUint128 mask
      → (value (and_uint128 net128 (not_uint128 mask)) ≡ base)
        × IsUint128 (and_uint128 net128 (not_uint128 mask))
  masked_net mask e h =
      let comp = value-not mask h in
      let both = value-and net128 (not_uint128 mask) net_value.1 comp.1 in
      let top : value (not_uint128 mask) ≡ 2 ^ 128 - 2 ^ (128 - n) =
        omega (arith, comp.0, two-pow-pos (128 - n)) in
      (both.0 ∙ rw (net_value.0, top) (keep_net 128 n x fits range), both.1)

  -- A host part joined to the network part.
  joined :
      (net host : Uint128) (h : ℕ)
      → (value net ≡ base) × IsUint128 net
      → (value host ≡ h) × IsUint128 host
      → h < 2 ^ (128 - n)
      → uint128_to_ipv6 (or_uint128 net host) ≡ v6 (base + h) []
  joined net host h en eh small =
      let both = value-or net host en.1 eh.1 in
      to_ipv6 (or_uint128 net host) both.1
      ∙ ap (λ (t : ℕ). v6 t [])
          (both.0 ∙ rw (en.0, eh.0) ((with_host 128 n x fits range h small).0))

  assign_rand_ipv6_lem :
      (r : Random) → assign_rand_ipv6 cidr r ≡ v6 (base + draw r % 2 ^ (128 - n)) []
  unfolding assign_rand_ipv6
  assign_rand_ipv6_lem r =
      let mask = value-from_bit_range (128 - n) (omega arith) in
      rw host_bits (
        joined _ _ (draw r % 2 ^ (128 - n)) (masked_net _ mask.0 mask.1)
          (masked_low _ _ (128 - n) (random_bytes r) mask.0 mask.1) (mod_pow-lt (128 - n) (draw r)))

  -- The three fields of a range address joined.
  joined_three :
      (m c y : ℕ) (net shifted host : Uint128)
      → n ≤ m
      → m ≤ 128
      → (value net ≡ base) × IsUint128 net
      → (value shifted ≡ c % 2 ^ (m - n) * 2 ^ (128 - m)) × IsUint128 shifted
      → (value host ≡ y % 2 ^ (128 - m)) × IsUint128 host
      → uint128_to_ipv6 (or_uint128 (or_uint128 net shifted) host)
        ≡ v6 (base + (c % 2 ^ (m - n) * 2 ^ (128 - m) + y % 2 ^ (128 - m))) []
  joined_three m c y net shifted host above below en es eh =
      let parts = with_fixed 128 n x fits range m c y above below in
      let first = value-or net shifted en.1 es.1 in
      let both = value-or (or_uint128 net shifted) host first.1 eh.1 in
      to_ipv6 (or_uint128 (or_uint128 net shifted) host) both.1
      ∙ ap (λ (t : ℕ). v6 t []) (both.0 ∙ rw (first.0, en.0, es.0, eh.0) (rw (parts.0) (parts.1)))

  -- The value's bits, cut to the range and shifted into place.
  shifted_value :
      (m c : ℕ) (mask : Uint128)
      → n ≤ m
      → m ≤ 128
      → c < 2 ^ 64
      → value mask ≡ 2 ^ (m - n) - 1
      → IsUint128 mask
      → let shifted = shl_uint128 (and_uint128 (uint128_from_u64 c) mask) (128 - m) in
        (value shifted ≡ c % 2 ^ (m - n) * 2 ^ (128 - m)) × IsUint128 shifted
  shifted_value m c mask above below hc e h =
      let bits = masked_low64 c mask (m - n) hc e h in
      let shift =
        value-shl (and_uint128 (uint128_from_u64 c) mask) (128 - m) bits.1 (omega arith) in
      let room = fixed-lt 128 n x fits range m c 0 above below in
      let whole = net_room 128 n x fits range in (shift.0 ∙ rw (bits.0) (omega arith), shift.1)

  -- A range address: the network part, then bits of the value up to the range, then random bits
  -- from the 64 that the code draws.
  assign_ipv6_with_range_eq :
      (m c : ℕ) (r : Random)
      → n ≤ m
      → m ≤ 128
      → m - n < 128
      → c < 2 ^ 64
      → r.u64 < 2 ^ 64
      → assign_ipv6_with_range cidr m (uint128_from_u64 c) r
        ≡ v6 (base + (c % 2 ^ (m - n) * 2 ^ (128 - m) + r.u64 % 2 ^ (128 - m))) []
  unfolding assign_ipv6_with_range
  assign_ipv6_with_range_eq m c r above below short hc hr =
      let fixed_mask = value-low_mask (m - n) (omega arith) in
      let net_mask = value-low_mask (128 - n) (omega arith) in
      let host_mask = value-low_mask (128 - m) (omega arith) in
      let range_bits : sub64 m n ≡ m - n = omega arith in
      let rest_bits : sub64 128 m ≡ 128 - m = omega arith in
      rw (ltb-false m n above, host_bits, range_bits, rest_bits)
        (rw (lt→ltb (m - n) 128 short) (
          joined_three m c r.u64 _ _ _ above below (masked_net _ net_mask.0 net_mask.1)
            (shifted_value m c _ above below hc fixed_mask.0 fixed_mask.1)
            (masked_low64 r.u64 _ (128 - m) hr host_mask.0 host_mask.1)))

  -- A sticky address in a prefix of 64 bits or more has the value modulo the capacity as its host.
  assign_ipv6_sticky_eq :
      (c : ℕ)
      → 64 ≤ n
      → n < 128
      → c < 2 ^ 64
      → assign_ipv6_sticky cidr c ≡ v6 (base + c % (2 ^ (128 - n) - 1)) []
  unfolding assign_ipv6_sticky
  assign_ipv6_sticky_eq c long short hc =
      let capacity = sub_uint128 (new_uint128_lshift_one (128 - n)) uint128_one in
      let cap = value-low_mask (128 - n) (omega arith) in
      let two : 2 ≤ 2 ^ (128 - n) =
        pow-le-pow_right {n = 2} (omega arith) {i = 1} {j = 128 - n} (omega arith) in
      let small : 2 ^ (128 - n) ≤ 2 ^ 64 =
        pow-le-pow_right {n = 2} (omega arith) {i = 128 - n} {j = 64} (omega arith) in
      let high : capacity.hi ≡ 0 = omega (arith, cap) in
      let low : capacity.lo ≡ 2 ^ (128 - n) - 1 = omega (arith, cap) in
      let reduced : mod_uint128 (uint128_from_u64 c) capacity
          ≡ record { hi = 0; lo = c % (2 ^ (128 - n) - 1) } =
        value-mod (uint128_from_u64 c) capacity refl high (omega arith) ∙ rw low refl in
      let below : c % (2 ^ (128 - n) - 1) < 2 ^ (128 - n) - 1 = mod-lt c (omega arith) in
      let mask = value-from_bit_range (128 - n) (omega arith) in
      let nonzero : is_zero_uint128 capacity ≡ false = ground arith in
      rw (leb-false 128 n short, host_bits, nonzero)
        (rw reduced (
          joined _ (record { hi = 0; lo = c % (2 ^ (128 - n) - 1) }) (c % (2 ^ (128 - n) - 1))
            (masked_net _ mask.0 mask.1) (omega arith) (omega arith)))
