-- ===== src/Connect/Uint128/Value.antt =====
-- Each operation on the halves, against the number that the halves stand for.
use Prim.Native.Nat.{bit_and, bit_or}
use outway.Base.{ℕ, ◌+◌, ◌-◌, ◌*◌, ◌/◌, ◌%◌, ◌^◌, ◌≤◌, ◌<◌, ◌≡◌, refl, arith, ap, sym, ◌∙◌}
use outway.Base.{leb_cases, ltb_cases, ==_cases, inl, inr, ==_false}
use outway.Base.Bits.{
  bit_and_fields, bit_or_fields, bit_or_disjoint, two-pow-add, two-pow-split, shift_split,
  two-pow-pos, bit_and-lt, bit_or-lt,
}
use native.Mathlib.Nat.{pow-le-pow_right, div-lt_iff_lt-mul, div-le_self}
use outway.Connect.Uint128.{
  Uint128, new_uint128_lshift_one, new_uint128_from_bit_range, not_uint128, and_uint128, or_uint128,
  shl_uint128, sub_uint128, mod_uint128, uint128_one,
}

-- Both halves are 64-bit numbers.
abbrev pub IsUint128 : Uint128 → Type 0
IsUint128 a = (a.hi < 2 ^ 64) × (a.lo < 2 ^ 64)

abbrev pub value : Uint128 → ℕ
value a = a.hi * 2 ^ 64 + a.lo

pub value-lt : (a : Uint128) → IsUint128 a → value a < 2 ^ 128
value-lt a h = omega arith

pub value-and :
    (a b : Uint128)
    → IsUint128 a
    → IsUint128 b
    → (value (and_uint128 a b) ≡ bit_and (value a) (value b)) × IsUint128 (and_uint128 a b)
unfolding and_uint128
value-and a b ha hb = (
  sym (bit_and_fields 64 a.hi a.lo b.hi b.lo ha.1 hb.1),
  (bit_and-lt 64 a.hi b.hi ha.0, bit_and-lt 64 a.lo b.lo ha.1),
)

pub value-or :
    (a b : Uint128)
    → IsUint128 a
    → IsUint128 b
    → (value (or_uint128 a b) ≡ bit_or (value a) (value b)) × IsUint128 (or_uint128 a b)
unfolding or_uint128
value-or a b ha hb = (
  sym (bit_or_fields 64 a.hi a.lo b.hi b.lo ha.1 hb.1),
  (bit_or-lt 64 a.hi b.hi ha.0 hb.0, bit_or-lt 64 a.lo b.lo ha.1 hb.1),
)

pub value-not :
    (a : Uint128)
    → IsUint128 a
    → (value (not_uint128 a) ≡ 2 ^ 128 - 1 - value a) × IsUint128 (not_uint128 a)
unfolding not_uint128
value-not a h = (omega arith, omega arith)

pub value-sub :
    (a b : Uint128)
    → IsUint128 a
    → IsUint128 b
    → (value (sub_uint128 a b) ≡ (value a + 2 ^ 128 - value b) % 2 ^ 128)
      × IsUint128 (sub_uint128 a b)
unfolding sub_uint128
value-sub a b ha hb = (ground arith, omega arith)

small_pow : (n : ℕ) → n < 64 → 2 ^ n < 2 ^ 64
small_pow n h = omega (arith, pow-le-pow_right {n = 2} (omega arith) {i = n} {j = 63} (omega arith))

high_pow : (n : ℕ) → 64 ≤ n → 2 ^ n ≡ 2 ^ (n - 64) * 2 ^ 64
high_pow n h =
    let split : n ≡ n - 64 + 64 = omega arith in
    ap (λ (t : ℕ). 2 ^ t) split ∙ two-pow-add (n - 64) 64

pub value-lshift_one :
    (n : ℕ)
    → n < 128
    → (value (new_uint128_lshift_one n) ≡ 2 ^ n) × IsUint128 (new_uint128_lshift_one n)
unfolding new_uint128_lshift_one
value-lshift_one n h = elim (leb_cases 128 n) [
  | inl (_, big) ↦ absurd (omega arith)
  | inr (e, fits) ↦ elim (ltb_cases n 64) [
    | inl (f, low) ↦ rw (e, f) (omega (arith, small_pow n low))
    | inr (f, high) ↦ rw (e, f) (omega (arith, small_pow (n - 64) (omega arith), high_pow n high))
  ]
]

pub value-from_bit_range :
    (n : ℕ)
    → n ≤ 128
    → (value (new_uint128_from_bit_range n) ≡ 2 ^ n - 1) × IsUint128 (new_uint128_from_bit_range n)
unfolding new_uint128_from_bit_range
value-from_bit_range n h = elim (leb_cases 128 n) [
  | inl (e, big) ↦ let full : n ≡ 128 = omega arith in rw e (rw full (omega arith))
  | inr (e, fits) ↦ elim (ltb_cases n 64) [
    | inl (f, low) ↦ rw (e, f) (omega (arith, small_pow n low, two-pow-pos n))
    | inr (f, high) ↦
        rw (e, f)
          (omega (arith, small_pow (n - 64) (omega arith), two-pow-pos (n - 64), high_pow n high))
  ]
]

-- Where both numbers fit 64 bits, the remainder is the remainder.
pub value-mod :
    (a b : Uint128)
    → a.hi ≡ 0
    → b.hi ≡ 0
    → 0 < b.lo
    → mod_uint128 a b ≡ record { hi = 0; lo = a.lo % b.lo }
unfolding mod_uint128
value-mod a b ha hb pos = rw (==_false b.lo 0 (omega arith), ha, hb) refl

shl_low :
    (a : Uint128) (n : ℕ)
    → IsUint128 a
    → n < 64
    → bit_or (a.hi * 2 ^ n % 2 ^ 64) (a.lo / 2 ^ (64 - n)) * 2 ^ 64 + a.lo * 2 ^ n % 2 ^ 64
      ≡ value a * 2 ^ n % 2 ^ 128
shl_low a n h low =
    let whole = two-pow-split 64 n (omega arith) in
    let top : a.lo / 2 ^ (64 - n) < 2 ^ n =
      (div-lt_iff_lt-mul (two-pow-pos (64 - n))).1 (omega (arith, h.1)) in
    let kept : a.hi * 2 ^ n % 2 ^ 64 ≡ a.hi % 2 ^ (64 - n) * 2 ^ n =
      omega (arith, shift_split 64 a.hi n (omega arith)) in
    rw (kept, bit_or_disjoint n (a.hi % 2 ^ (64 - n)) (a.lo / 2 ^ (64 - n)) top)
      (omega (arith, shift_split 64 a.hi n (omega arith), shift_split 64 a.lo n (omega arith)))

pub value-shl :
    (a : Uint128) (n : ℕ)
    → IsUint128 a
    → n ≤ 128
    → (value (shl_uint128 a n) ≡ value a * 2 ^ n % 2 ^ 128) × IsUint128 (shl_uint128 a n)
unfolding shl_uint128
value-shl a n h fits = elim (==_cases n 0) [
  | inl (e, p) ↦ rw e (rw p (omega (arith, h), h))
  | inr (e, _) ↦ elim (leb_cases 128 n) [
    | inl (f, big) ↦ let full : n ≡ 128 = omega arith in rw (e, f) (rw full (omega arith))
    | inr (f, short) ↦ elim (ltb_cases n 64) [
      | inl (g, low) ↦
          let top : a.lo / 2 ^ (64 - n) < 2 ^ 64 =
            omega (arith, div-le_self a.lo (2 ^ (64 - n)), h) in
          rw (e, f, g)
            (
              shl_low a n h low,
              (
                bit_or-lt 64 (a.hi * 2 ^ n % 2 ^ 64) (a.lo / 2 ^ (64 - n)) (omega arith) top,
                omega arith,
              ),
            )
      | inr (g, high) ↦ rw (e, f, g) (rw (high_pow n high) (omega arith))
    ]
  ]
]

-- The mask of the low `n` bits as the source computes it, `1 << n` less one.
pub value-low_mask :
    (n : ℕ)
    → n ≤ 128
    → let mask = sub_uint128 (new_uint128_lshift_one n) uint128_one in
      (value mask ≡ 2 ^ n - 1) × IsUint128 mask
value-low_mask n h =
    let one : IsUint128 uint128_one = omega arith in
    elim (leb_cases 128 n) [
      | inl (e, big) ↦
          let full : n ≡ 128 = omega arith in
          unfold sub_uint128 new_uint128_lshift_one in rw full (refl, omega arith)
      | inr (_, short) ↦
          let power = value-lshift_one n short in
          let gone = value-sub (new_uint128_lshift_one n) uint128_one power.1 one in
          (
            gone.0
                ∙ ap (λ (t : ℕ). (t + 2 ^ 128 - 1) % 2 ^ 128) power.0
                ∙ wrap (2 ^ n) (two-pow-pos n) (omega (arith, value-lt _ power.1, power.0)),
            gone.1,
          )
    ]
  where
    wrap : (p : ℕ) → 1 ≤ p → p < 2 ^ 128 → (p + 2 ^ 128 - 1) % 2 ^ 128 ≡ p - 1
    wrap p pos small = omega arith
