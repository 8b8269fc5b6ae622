-- ===== src/Connect/Source/Ipv6/Policy.antt =====
-- What the choice of an IPv6 source address promises.

use outway.Base.{
  ℕ, ◌+◌, ◌-◌, ◌*◌, ◌/◌, ◌%◌, ◌^◌, ◌≤◌, ◌<◌, ◌≡◌, arith, sym, ◌∙◌, Option, none, some,
}
use outway.Base.{leb_cases, ltb_cases, inl, inr}
use outway.Base.{[]}
use outway.Base.{◌⊎◌}
use outway.Base.Bits.{two-pow-pos, mod_pow-lt}
use native.Mathlib.Nat.{mul-div_left, pow-le-pow_right, mod-lt, add-zero}
use mathlib.Core.Path.{subst}
use outway.Net.{v6, AgreeOn, Contains}
use outway.Ext.{Extension, ExtensionType, ext_none, ext_ttl, ext_range, ext_session}
use outway.Connect.Uint128.{uint128_from_u64}
use outway.Connect.Uint128.Value.{value}
use outway.Connect.Source.{
  Random, assign_rand_ipv6, assign_ipv6_with_range, assign_ipv6_sticky, assign_ipv6_from_extension,
}
use outway.Connect.Source.Fields.{with_host, host-lt, with_fixed}
use outway.Base.{le→leb}
use outway.Connect.Source.Ipv6.{
  cidr, base, draw, assign_rand_ipv6_lem, assign_ipv6_sticky_eq, assign_ipv6_with_range_eq,
}

-- The configured range, where there is one: a number of bits of the address, and fewer than 128
-- bits more than the prefix has.
abbrev pub IsRange6 : ℕ → Option ℕ → Type 0
IsRange6 n none = Unit
IsRange6 n (some m) = (m ≤ 128) × (m - n < 128)

module _ (x n : ℕ) (fits : n ≤ 128) (range : x < 2 ^ 128) where
  inside :
      (h : ℕ) → h < 2 ^ (128 - n) → Contains (cidr x n fits range) (v6 (base x n fits range + h) [])
  inside h small = sym ((with_host 128 n x fits range h small).2)

  rand_inside :
      (r : Random) → Contains (cidr x n fits range) (assign_rand_ipv6 (cidr x n fits range) r)
  rand_inside r =
      rw (assign_rand_ipv6_lem x n fits range r)
        (inside (draw r % 2 ^ (128 - n)) (mod_pow-lt (128 - n) (draw r)))

  two_hosts : n < 128 → 2 ≤ 2 ^ (128 - n)
  two_hosts h = pow-le-pow_right {n = 2} (omega arith) {i = 1} {j = 128 - n} (omega arith)

  last_free : (c : ℕ) → n < 128 → c % (2 ^ (128 - n) - 1) + 1 < 2 ^ (128 - n)
  last_free c short =
      omega
        (arith, two_hosts short, mod-lt c {m = 2 ^ (128 - n) - 1} (omega (arith, two_hosts short)))

  sticky_full :
      (c : ℕ) → 128 ≤ n → assign_ipv6_sticky (cidr x n fits range) c ≡ v6 (base x n fits range) []
  unfolding assign_ipv6_sticky
  sticky_full c h = rw (le→leb 128 n h)

  sticky_inside :
      (c : ℕ)
      → 64 ≤ n
      → c < 2 ^ 64
      → Contains (cidr x n fits range) (assign_ipv6_sticky (cidr x n fits range) c)
  sticky_inside c long hc = elim (leb_cases 128 n) [
    | inl (_, full) ↦ rw (sticky_full c full) (
        subst (λ t. Contains (cidr x n fits range) (v6 t [])) (add-zero (base x n fits range))
          (inside 0 (two-pow-pos (128 - n))))
    | inr (_, short) ↦
        rw (assign_ipv6_sticky_eq x n fits range c long short hc)
          (inside (c % (2 ^ (128 - n) - 1)) (omega (arith, last_free c short)))
  ]

  range_inside :
      (m c : ℕ) (r : Random)
      → m ≤ 128
      → m - n < 128
      → c < 2 ^ 64
      → r.u64 < 2 ^ 64
      → Contains
          (cidr x n fits range)
          (assign_ipv6_with_range (cidr x n fits range) m (uint128_from_u64 c) r)
  range_inside m c r below few hc hr = elim (ltb_cases m n) [
    | inl (e, _) ↦ unfold assign_ipv6_with_range in rw e (rand_inside r)
    | inr (_, above) ↦ rw (assign_ipv6_with_range_eq x n fits range m c r above below few hc hr) (
        inside (c % 2 ^ (m - n) * 2 ^ (128 - m) + r.u64 % 2 ^ (128 - m))
          (host-lt 128 n x fits range m c r.u64 above below))
  ]

  by_range :
      (cidr_range : Option ℕ) (value : ℕ) (r : Random)
      → IsRange6 n cidr_range
      → value < 2 ^ 64
      → r.u64 < 2 ^ 64
      → Contains (cidr x n fits range) (
          assign_ipv6_from_extension
            (cidr x n fits range)
            cidr_range
            (record { type = ext_range; value = value })
            r)
  unfolding assign_ipv6_from_extension
  by_range none value r h hv hr = rand_inside r
  by_range (some m) value r h hv hr = range_inside m value r h.0 h.1 hv hr

  -- Whatever the extension and the random numbers, the IPv6 source address chosen in a CIDR with a
  -- prefix of 64 bits or more lies in that CIDR, for every range of at most 128 bits.
  pub assign_ipv6_from_extension-Contains :
      (cidr_range : Option ℕ) (e : Extension) (r : Random)
      → IsRange6 n cidr_range
      → 64 ≤ n
      → e.value < 2 ^ 64
      → r.u64 < 2 ^ 64
      → Contains
          (record { addr = v6 x []; bits = n })
          (assign_ipv6_from_extension (record { addr = v6 x []; bits = n }) cidr_range e r)
  unfolding assign_ipv6_from_extension
  assign_ipv6_from_extension-Contains cidr_range e r h long hv hr = by_type e.type
    where
      by_type :
          (t : ExtensionType)
          → Contains (cidr x n fits range) (
              assign_ipv6_from_extension
                (cidr x n fits range)
                cidr_range
                (record { type = t; value = e.value })
                r)
      by_type ext_none = rand_inside r
      by_type ext_ttl = sticky_inside e.value long hv
      by_type ext_session = sticky_inside e.value long hv
      by_type ext_range = by_range cidr_range e.value r h hv hr

  -- A range extension fixes the first `m` bits of the source address, for every prefix with a
  -- range fewer than 128 bits longer: whatever the random numbers, two connections with one value
  -- agree on them, and they are the network part followed by the low bits of the value.
  pub assign_ipv6_range_agree :
      (m value : ℕ) (r s : Random)
      → n ≤ m
      → m ≤ 128
      → m - n < 128
      → value < 2 ^ 64
      → r.u64 < 2 ^ 64
      → s.u64 < 2 ^ 64
      → let choose =
          assign_ipv6_from_extension
            (record { addr = v6 x []; bits = n })
            (some m)
            (record { type = ext_range; value = value }) in
        AgreeOn m (choose r) (choose s)
        × AgreeOn m
            (choose r)
            (v6 ((x / 2 ^ (128 - n) * 2 ^ (m - n) + value % 2 ^ (m - n)) * 2 ^ (128 - m)) [])
  unfolding assign_ipv6_from_extension
  assign_ipv6_range_agree m value r s above below few hv hr hs =
      let one = (with_fixed 128 n x fits range m value r.u64 above below).2 in
      let two = (with_fixed 128 n x fits range m value s.u64 above below).2 in
      rw
        (
          assign_ipv6_with_range_eq x n fits range m value r above below few hv hr,
          assign_ipv6_with_range_eq x n fits range m value s above below few hv hs,
        )
        (
          one ∙ sym two,
          one
              ∙ sym (
                  mul-div_left (x / 2 ^ (128 - n) * 2 ^ (m - n) + value % 2 ^ (m - n))
                    (two-pow-pos (128 - m))),
        )

  -- A session or time-window extension fixes the whole IPv6 source address in a CIDR with a prefix
  -- of 64 to 127 bits: the network part and the value modulo one less than the number of
  -- addresses. The random numbers play no part, and the last address of the CIDR is never chosen.
  pub assign_ipv6_sticky_lem :
      (cidr_range : Option ℕ) (value : ℕ) (r : Random) (t : ExtensionType)
      → (t ≡ ext_session) ⊎ (t ≡ ext_ttl)
      → 64 ≤ n
      → n < 128
      → value < 2 ^ 64
      → (assign_ipv6_from_extension
            (record { addr = v6 x []; bits = n })
            cidr_range
            (record { type = t; value = value })
            r
          ≡ v6 (x / 2 ^ (128 - n) * 2 ^ (128 - n) + value % (2 ^ (128 - n) - 1)) [])
        × (value % (2 ^ (128 - n) - 1) + 1 < 2 ^ (128 - n))
  unfolding assign_ipv6_from_extension
  assign_ipv6_sticky_lem cidr_range value r t kind long short hv = (
    elim kind [
      | inl p ↦ rw p (assign_ipv6_sticky_eq x n fits range value long short hv)
      | inr p ↦ rw p (assign_ipv6_sticky_eq x n fits range value long short hv)
    ],
    last_free value short,
  )
