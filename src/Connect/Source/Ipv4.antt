-- ===== src/Connect/Source/Ipv4.antt =====
-- IPv4 source addresses in closed form: the network part, and what each choice puts into the rest.
pub mod Policy
use Prim.Native.Nat.{bit_and, bit_or}
use outway.Base.{
  ℕ, suc, ◌+◌, ◌-◌, ◌*◌, ◌/◌, ◌%◌, ◌^◌, ◌≤◌, ◌<◌, ◌≡◌, ◌≢◌, refl, arith, ap, sym, ◌∙◌, Option, none,
  some,
}
use outway.Base.{
  leb_cases, ltb_cases, le→leb, ==_false, ==_cases, inl, inr, ltb-false, leb-false, be_bytes,
  be_value, be_value-be_bytes,
}
use outway.Base.Bits.{two-pow-pos, two-pow-split, shift_split, bit_and_low, mod_pow-lt}
use native.Mathlib.Nat.{mul-div_left, mul_comm, pow-le-pow_right, mod-lt, add-zero}
use mathlib.Core.Path.{subst}
use mathlib.Core.Logic.{◌⊎◌}
use outway.Net.{Addr, Prefix, v4, masked, AgreeOn, Contains}
use outway.Ext.{Extension, ExtensionType, ext_none, ext_ttl, ext_range, ext_session}
use outway.Connect.Uint128.{sub64}
use outway.Connect.Source.{
  Random, shl32, shr32, sub32, u32, ones32, uint32_to_ipv4, assign_rand_ipv4,
  assign_ipv4_with_range, assign_ipv4_sticky, assign_ipv4_from_extension,
}
use outway.Connect.Source.Fields.{net_room, keep_net, with_host, fixed-lt, host-lt, with_fixed}

pow-le : (n : ℕ) → n ≤ 32 → 2 ^ n ≤ 2 ^ 32
pow-le n h = pow-le-pow_right {n = 2} (omega arith) {i = n} {j = 32} h

sub64_within : (w n : ℕ) → n ≤ w → w ≤ 128 → sub64 w n ≡ w - n
sub64_within w n h k = omega arith

shl32_lem : (x n : ℕ) → n ≤ 32 → shl32 x n ≡ x * 2 ^ n % 2 ^ 32
shl32_lem x n h = elim (leb_cases 32 n) [
  | inl (e, big) ↦ let full : n ≡ 32 = omega arith in rw e (rw full (omega arith))
  | inr (e, _) ↦ rw e refl
]

shr32_lem : (x n : ℕ) → n ≤ 32 → x < 2 ^ 32 → shr32 x n ≡ x / 2 ^ n
shr32_lem x n h range = elim (leb_cases 32 n) [
  | inl (e, big) ↦ let full : n ≡ 32 = omega arith in rw e (rw full (omega arith))
  | inr (e, _) ↦ rw e refl
]

-- The masks of the source: the low `n` bits, and all but those.
low_mask : (n : ℕ) → n ≤ 32 → sub32 (shl32 1 n) 1 ≡ 2 ^ n - 1
low_mask n h = rw (shl32_lem 1 n h) (omega (arith, pow-le n h, two-pow-pos n))

high_mask : (n : ℕ) → n ≤ 32 → shl32 ones32 n ≡ 2 ^ 32 - 2 ^ n
high_mask n h = rw (shl32_lem ones32 n h) (omega (arith, pow-le n h, two-pow-pos n))

to_ipv4 : (v : ℕ) → v < 2 ^ 32 → uint32_to_ipv4 v ≡ v4 v
to_ipv4 v h = ap v4 (be_value-be_bytes 4 v h)

module _ (x n : ℕ) (fits : n ≤ 32) (range : x < 2 ^ 32) where
  abbrev cidr : Prefix
  cidr = record { addr = v4 x; bits = n }

  abbrev base : ℕ
  base = x / 2 ^ (32 - n) * 2 ^ (32 - n)

  base_back : be_value (be_bytes 4 base) ≡ base
  base_back =
      be_value-be_bytes 4 base (omega (arith, net_room 32 n x fits range, two-pow-pos (32 - n)))

  -- A random address is the network part and the low bits of the random number.
  assign_rand_ipv4_lem : (r : Random) → assign_rand_ipv4 cidr r ≡ v4 (base + r.u32 % 2 ^ (32 - n))
  unfolding assign_rand_ipv4
  assign_rand_ipv4_lem r =
      let whole = net_room 32 n x fits range in
      let pos = two-pow-pos (32 - n) in
      let host : shr32 (shl32 r.u32 n) n ≡ r.u32 % 2 ^ (32 - n) = rw (shl32_lem r.u32 n fits) (
        rw (shr32_lem (r.u32 * 2 ^ n % 2 ^ 32) n fits (omega arith))
          (rw (kept r.u32) (mul-div_left (r.u32 % 2 ^ (32 - n)) (two-pow-pos n)))) in
      let left : shl32 (shr32 base (32 - n)) (32 - n) ≡ base =
        rw (shr32_lem base (32 - n) (omega arith) (omega arith)) (
          rw (mul-div_left (x / 2 ^ (32 - n)) pos)
            (rw (shl32_lem (x / 2 ^ (32 - n)) (32 - n) (omega arith)) (omega arith))) in
      let joined = with_host 32 n x fits range (r.u32 % 2 ^ (32 - n)) (mod_pow-lt (32 - n) r.u32) in
      rw (sub64_within 32 n fits (omega arith), base_back, left, host, joined.0)
        (to_ipv4 (base + r.u32 % 2 ^ (32 - n)) joined.1)
    where
      kept : (y : ℕ) → y * 2 ^ n % 2 ^ 32 ≡ y % 2 ^ (32 - n) * 2 ^ n
      kept y = omega (arith, shift_split 32 y n fits, two-pow-pos n)

  two_hosts : n < 32 → 2 ≤ 2 ^ (32 - n)
  two_hosts h = pow-le-pow_right {n = 2} (omega arith) {i = 1} {j = 32 - n} (omega arith)

  masked_base : bit_and base (shl32 ones32 (32 - n)) ≡ base
  masked_base = rw (high_mask (32 - n) (omega arith)) (keep_net 32 n x fits range)

  -- A sticky address has the hash modulo the capacity as its host part.
  assign_ipv4_sticky_eq :
      (c : ℕ) → n < 32 → assign_ipv4_sticky cidr c ≡ v4 (base + c % 2 ^ 32 % (2 ^ (32 - n) - 1))
  unfolding assign_ipv4_sticky
  assign_ipv4_sticky_eq c short =
      let capacity : sub32 (shl32 1 (32 - n)) 1 ≡ 2 ^ (32 - n) - 1 =
        low_mask (32 - n) (omega arith) in
      let some_room : 2 ^ (32 - n) - 1 ≢ 0 = omega (arith, two_hosts short) in
      let host : c % 2 ^ 32 % (2 ^ (32 - n) - 1) < 2 ^ (32 - n) - 1 =
        mod-lt (c % 2 ^ 32) (omega (arith, two_hosts short)) in
      let joined = with_host 32 n x fits range (c % 2 ^ 32 % (2 ^ (32 - n) - 1)) (omega arith) in
      rw (sub64_within 32 n fits (omega arith), base_back, masked_base, capacity)
        (rw (leb-false 32 n short, ==_false (2 ^ (32 - n) - 1) 0 some_room)
          (rw (joined.0) (to_ipv4 (base + c % 2 ^ 32 % (2 ^ (32 - n) - 1)) joined.1)))

  assign_ipv4_sticky_full : (c : ℕ) → 32 ≤ n → assign_ipv4_sticky cidr c ≡ v4 base
  unfolding assign_ipv4_sticky
  assign_ipv4_sticky_full c h = rw (le→leb 32 n h)

  -- A range address: the network part, then bits of the hash up to the range, then random bits.
  assign_ipv4_with_range_eq :
      (m c : ℕ) (r : Random)
      → n ≤ m
      → m ≤ 32
      → assign_ipv4_with_range cidr m c r
        ≡ v4 (base + (c % 2 ^ (m - n) * 2 ^ (32 - m) + r.u32 % 2 ^ (32 - m)))
  unfolding assign_ipv4_with_range
  assign_ipv4_with_range_eq m c r above below =
      let fixed_bits : bit_and c (sub32 (shl32 1 (m - n)) 1) ≡ c % 2 ^ (m - n) =
        rw (low_mask (m - n) (omega arith)) (bit_and_low (m - n) c) in
      let room = fixed-lt 32 n x fits range m c r.u32 above below in
      let whole = net_room 32 n x fits range in
      let shifted : shl32 (c % 2 ^ (m - n)) (32 - m) ≡ c % 2 ^ (m - n) * 2 ^ (32 - m) =
        rw (shl32_lem (c % 2 ^ (m - n)) (32 - m) (omega arith)) (omega arith) in
      let host : bit_and r.u32 (sub32 (shl32 1 (32 - m)) 1) ≡ r.u32 % 2 ^ (32 - m) =
        rw (low_mask (32 - m) (omega arith)) (bit_and_low (32 - m) r.u32) in
      let parts = with_fixed 32 n x fits range m c r.u32 above below in
      let small = host-lt 32 n x fits range m c r.u32 above below in
      rw
        (
          ltb-false m n above,
          sub64_within 32 n fits (omega arith),
          sub64_within 32 m below (omega arith),
          sub64_within m n above (omega arith),
        )
        (rw (base_back, masked_base, fixed_bits, shifted, host)
          (rw (parts.0) (
            rw (parts.1) (
              to_ipv4 (base + (c % 2 ^ (m - n) * 2 ^ (32 - m) + r.u32 % 2 ^ (32 - m)))
                (omega arith)))))
