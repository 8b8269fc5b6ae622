-- ===== src/Connect/Source/Ipv4/Policy.antt =====
-- What the choice of an IPv4 source address promises.

use outway.Base.{ℕ, ◌+◌, ◌-◌, ◌*◌, ◌/◌, ◌%◌, ◌^◌, ◌≤◌, ◌<◌, arith, sym, ◌∙◌, Option, none, some}
use outway.Base.{leb_cases, ltb_cases, inl, inr}
use outway.Base.Bits.{two-pow-pos, mod_pow-lt}
use native.Mathlib.Nat.{mul-div_left, mod-lt, add-zero}
use mathlib.Core.Path.{subst}
use outway.Net.{v4, AgreeOn, Contains}
use outway.Ext.{Extension, ExtensionType, ext_none, ext_ttl, ext_range, ext_session}
use outway.Connect.Source.{
  Random, u32, assign_rand_ipv4, assign_ipv4_with_range, assign_ipv4_sticky,
  assign_ipv4_from_extension,
}
use outway.Connect.Source.Fields.{with_host, host-lt, with_fixed}
use outway.Connect.Source.Ipv4.{
  cidr, base, two_hosts, assign_rand_ipv4_lem, assign_ipv4_sticky_eq, assign_ipv4_sticky_full,
  assign_ipv4_with_range_eq,
}

-- The configured range, where there is one, is a number of bits of an IPv4 address.
abbrev pub IsRange4 : Option ℕ → Type 0
IsRange4 none = Unit
IsRange4 (some m) = m ≤ 32

module _ (x n : ℕ) (fits : n ≤ 32) (range : x < 2 ^ 32) where
  inside :
      (h : ℕ) → h < 2 ^ (32 - n) → Contains (cidr x n fits range) (v4 (base x n fits range + h))
  inside h small = sym ((with_host 32 n x fits range h small).2)

  rand_inside :
      (r : Random) → Contains (cidr x n fits range) (assign_rand_ipv4 (cidr x n fits range) r)
  rand_inside r =
      rw (assign_rand_ipv4_lem x n fits range r)
        (inside (r.u32 % 2 ^ (32 - n)) (mod_pow-lt (32 - n) r.u32))

  sticky_inside :
      (c : ℕ) → Contains (cidr x n fits range) (assign_ipv4_sticky (cidr x n fits range) c)
  sticky_inside c = elim (leb_cases 32 n) [
    | inl (_, long) ↦ rw (assign_ipv4_sticky_full x n fits range c long) (
        subst (λ t. Contains (cidr x n fits range) (v4 t)) (add-zero (base x n fits range))
          (inside 0 (two-pow-pos (32 - n))))
    | inr (_, short) ↦ rw (assign_ipv4_sticky_eq x n fits range c short) (
        inside (c % 2 ^ 32 % (2 ^ (32 - n) - 1)) (
          omega (
            arith,
            two_hosts x n fits range short,
            mod-lt (c % 2 ^ 32) {m = 2 ^ (32 - n) - 1}
                (omega (arith, two_hosts x n fits range short)),
          )))
  ]

  range_inside :
      (m c : ℕ) (r : Random)
      → m ≤ 32
      → Contains (cidr x n fits range) (assign_ipv4_with_range (cidr x n fits range) m c r)
  range_inside m c r below = elim (ltb_cases m n) [
    | inl (e, _) ↦ unfold assign_ipv4_with_range in rw e (rand_inside r)
    | inr (_, above) ↦ rw (assign_ipv4_with_range_eq x n fits range m c r above below) (
        inside (c % 2 ^ (m - n) * 2 ^ (32 - m) + r.u32 % 2 ^ (32 - m))
          (host-lt 32 n x fits range m c r.u32 above below))
  ]

  by_range :
      (cidr_range : Option ℕ) (value : ℕ) (r : Random)
      → IsRange4 cidr_range
      → Contains (cidr x n fits range) (
          assign_ipv4_from_extension
            (cidr x n fits range)
            cidr_range
            (record { type = ext_range; value = value })
            r)
  unfolding assign_ipv4_from_extension
  by_range none value r h = rand_inside r
  by_range (some m) value r h = range_inside m (u32 value) r h

  -- Whatever the extension and the random numbers, the IPv4 source address chosen lies in the
  -- configured CIDR, for every prefix length and every range of at most 32 bits.
  pub assign_ipv4_from_extension-Contains :
      (cidr_range : Option ℕ) (e : Extension) (r : Random)
      → IsRange4 cidr_range
      → Contains
          (record { addr = v4 x; bits = n })
          (assign_ipv4_from_extension (record { addr = v4 x; bits = n }) cidr_range e r)
  unfolding assign_ipv4_from_extension
  assign_ipv4_from_extension-Contains cidr_range e r h = by_type e.type
    where
      by_type :
          (t : ExtensionType)
          → Contains (cidr x n fits range) (
              assign_ipv4_from_extension
                (cidr x n fits range)
                cidr_range
                (record { type = t; value = e.value })
                r)
      by_type ext_none = rand_inside r
      by_type ext_ttl = sticky_inside e.value
      by_type ext_session = sticky_inside e.value
      by_type ext_range = by_range cidr_range e.value r h

  -- A range extension fixes the first `m` bits of the source address: whatever the random
  -- numbers, two connections with one value agree on them, and they are the network part followed
  -- by the low bits of the value.
  pub assign_ipv4_range_agree :
      (m value : ℕ) (r s : Random)
      → n ≤ m
      → m ≤ 32
      → let choose =
          assign_ipv4_from_extension
            (record { addr = v4 x; bits = n })
            (some m)
            (record { type = ext_range; value = value }) in
        AgreeOn m (choose r) (choose s)
        × AgreeOn m
            (choose r)
            (v4 ((x / 2 ^ (32 - n) * 2 ^ (m - n) + value % 2 ^ 32 % 2 ^ (m - n)) * 2 ^ (32 - m)))
  unfolding assign_ipv4_from_extension
  assign_ipv4_range_agree m value r s above below =
      let c = value % 2 ^ 32 in
      let one = (with_fixed 32 n x fits range m c r.u32 above below).2 in
      let two = (with_fixed 32 n x fits range m c s.u32 above below).2 in
      rw
        (
          assign_ipv4_with_range_eq x n fits range m c r above below,
          assign_ipv4_with_range_eq x n fits range m c s above below,
        )
        (
          one ∙ sym two,
          one
              ∙ sym (
                  mul-div_left (x / 2 ^ (32 - n) * 2 ^ (m - n) + c % 2 ^ (m - n))
                    (two-pow-pos (32 - m))),
        )
