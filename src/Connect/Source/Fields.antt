-- ===== src/Connect/Source/Fields.antt =====
-- An address of `w` bits as network part and host part of a prefix of `n` bits.
use Prim.Native.Nat.{bit_and, bit_or}
use outway.Base.{ℕ, ◌+◌, ◌-◌, ◌*◌, ◌/◌, ◌%◌, ◌^◌, ◌≤◌, ◌<◌, ◌≡◌, arith, ap, sym, ◌∙◌}
use outway.Base.Bits.{
  two-pow-pos, two-pow-add, two-pow-split, bit_and_high, bit_and_ones, bit_or_disjoint, mod_pow-lt,
}
use native.Mathlib.Nat.{
  div-lt_iff_lt-mul, mul-le-mul_right, mul-add-div_right, div-eq_of_lt, mul_comm,
}

one_more : (n : ℕ) → 2 ^ n ≡ 2 ^ n - 1 + 1
one_more n = omega (arith, two-pow-pos n)

module _ (w n x : ℕ) (fits : n ≤ w) (range : x < 2 ^ w) where
  abbrev pub net : ℕ
  net = x / 2 ^ (w - n)

  net-lt : net < 2 ^ n
  net-lt =
      (div-lt_iff_lt-mul (two-pow-pos (w - n))).1
        (omega (arith, two-pow-split w n fits, mul_comm (2 ^ (w - n)) (2 ^ n)))

  pub net_room : net * 2 ^ (w - n) + 2 ^ (w - n) ≤ 2 ^ w
  net_room =
      let below : (net + 1) * 2 ^ (w - n) ≤ 2 ^ n * 2 ^ (w - n) =
        mul-le-mul_right (2 ^ (w - n)) (omega (arith, net-lt)) in
      omega (arith, two-pow-split w n fits, mul_comm (2 ^ (w - n)) (2 ^ n))

  -- The subnet mask keeps the network part.
  pub keep_net : bit_and (net * 2 ^ (w - n)) (2 ^ w - 2 ^ (w - n)) ≡ net * 2 ^ (w - n)
  keep_net =
      let scaled : 2 ^ n * 2 ^ (w - n) ≡ (2 ^ n - 1 + 1) * 2 ^ (w - n) =
        ap (λ (t : ℕ). t * 2 ^ (w - n)) (one_more n) in
      let mask : 2 ^ w - 2 ^ (w - n) ≡ (2 ^ n - 1) * 2 ^ (w - n) =
        omega (arith, two-pow-split w n fits, mul_comm (2 ^ (w - n)) (2 ^ n), scaled) in
      let high : bit_and (net * 2 ^ (w - n) + 0) ((2 ^ n - 1) * 2 ^ (w - n))
          ≡ bit_and net (2 ^ n - 1) * 2 ^ (w - n) =
        bit_and_high (w - n) net 0 (2 ^ n - 1) (two-pow-pos (w - n)) in
      let plain : net * 2 ^ (w - n) + 0 ≡ net * 2 ^ (w - n) = omega arith in
      rw mask (
        ap (λ (t : ℕ). bit_and t ((2 ^ n - 1) * 2 ^ (w - n))) (sym plain)
        ∙ high
        ∙ ap (λ (t : ℕ). t * 2 ^ (w - n)) (bit_and_ones n net net-lt))

  -- A host part joined to the network part stays in the prefix.
  pub with_host :
      (h : ℕ)
      → h < 2 ^ (w - n)
      → (bit_or (net * 2 ^ (w - n)) h ≡ net * 2 ^ (w - n) + h)
        × (net * 2 ^ (w - n) + h < 2 ^ w)
        × ((net * 2 ^ (w - n) + h) / 2 ^ (w - n) ≡ net)
  with_host h small = (
    bit_or_disjoint (w - n) net h small,
    omega (arith, net_room),
    omega (arith, mul-add-div_right (two-pow-pos (w - n)) net h, div-eq_of_lt small),
  )

  -- The bits between `n` and `m` from `c`, the rest from `r`.
  module _ (m c r : ℕ) (above : n ≤ m) (below : m ≤ w) where
    abbrev pub fixed : ℕ
    fixed = c % 2 ^ (m - n) * 2 ^ (w - m)

    two_steps : 2 ^ (m - n) * 2 ^ (w - m) ≡ 2 ^ (w - n)
    two_steps =
        let sum : m - n + (w - m) ≡ w - n = omega arith in
        sym (two-pow-add (m - n) (w - m)) ∙ ap (λ (t : ℕ). 2 ^ t) sum

    fixed_room : fixed + 2 ^ (w - m) ≤ 2 ^ (w - n)
    fixed_room =
        let low : (c % 2 ^ (m - n) + 1) * 2 ^ (w - m) ≤ 2 ^ (m - n) * 2 ^ (w - m) =
          mul-le-mul_right (2 ^ (w - m)) (omega (arith, mod_pow-lt (m - n) c)) in
        omega (arith, two_steps)

    pub fixed-lt : fixed < 2 ^ (w - n)
    fixed-lt = omega (arith, fixed_room, two-pow-pos (w - m))

    pub host-lt : fixed + r % 2 ^ (w - m) < 2 ^ (w - n)
    host-lt = omega (arith, fixed_room, mod_pow-lt (w - m) r)

    regroup : net * 2 ^ (w - n) + fixed ≡ (net * 2 ^ (m - n) + c % 2 ^ (m - n)) * 2 ^ (w - m)
    regroup =
        let split : net * (2 ^ (m - n) * 2 ^ (w - m)) ≡ net * 2 ^ (w - n) =
          ap (λ (t : ℕ). net * t) two_steps in
        omega arith

    pub with_fixed :
        (bit_or (net * 2 ^ (w - n)) fixed ≡ net * 2 ^ (w - n) + fixed)
        × (bit_or (net * 2 ^ (w - n) + fixed) (r % 2 ^ (w - m))
            ≡ net * 2 ^ (w - n) + (fixed + r % 2 ^ (w - m)))
        × ((net * 2 ^ (w - n) + (fixed + r % 2 ^ (w - m))) / 2 ^ (w - m)
            ≡ net * 2 ^ (m - n) + c % 2 ^ (m - n))
    with_fixed =
        let top = net * 2 ^ (m - n) + c % 2 ^ (m - n) in
        let host = mod_pow-lt (w - m) r in
        let whole : net * 2 ^ (w - n) + (fixed + r % 2 ^ (w - m))
            ≡ top * 2 ^ (w - m) + r % 2 ^ (w - m) =
          omega (arith, regroup) in
        (
          bit_or_disjoint (w - n) net fixed fixed-lt,
          rw regroup (omega (arith, bit_or_disjoint (w - m) top (r % 2 ^ (w - m)) host, regroup)),
          rw whole (
              omega (
                arith,
                mul-add-div_right (two-pow-pos (w - m)) top (r % 2 ^ (w - m)),
                div-eq_of_lt host,
              )),
        )
