-- ===== src/Base/Bits.antt =====
-- `&` and `|` of the binary representation, as arithmetic, at every width. Both operations
-- satisfy one recursion on the lowest digit, and the laws follow from it for either.
use Prim.Native.Nat.{min, max, digits, bitwise, bit_and, bit_or, bit_and-bitwise, bit_or-bitwise}
use Prim.Native.Nat.{ℕ, zero, suc, ◌+◌, ◌-◌, ◌*◌, ◌/◌, ◌%◌, ◌^◌, ◌≤◌, ◌<◌}
use mathlib.Core.Path.{◌≡◌, refl, sym, ap, ◌∙◌}
use native.Mathlib.Omega.{arith}
use native.Mathlib.Nat.{
  pow-suc, one-le-pow, mul_assoc, add-suc, mod-lt, div-add-mod', mul-le-mul_right,
}

-- The digit count that `digits` takes as fuel does not matter once it covers the number.
fuel_agrees :
    (z : ℕ → ℕ) (f : ℕ → ℕ → ℕ) (n m a b : ℕ) → a ≤ n → a ≤ m → digits z f n a b ≡ digits z f m a b
fuel_agrees z f zero zero a b h k = refl
fuel_agrees z f zero (suc m) zero b h k = refl
fuel_agrees z f zero (suc m) (suc a) b h k = absurd (omega arith)
fuel_agrees z f (suc n) zero zero b h k = refl
fuel_agrees z f (suc n) zero (suc a) b h k = absurd (omega arith)
fuel_agrees z f (suc n) (suc m) zero b h k = refl
fuel_agrees z f (suc n) (suc m) (suc a) b h k =
    ap (λ (t : ℕ). t * 2 + f (suc a % 2) (b % 2))
      (fuel_agrees z f n m (suc a / 2) (b / 2) (omega arith) (omega arith))

lowest_digit :
    (z : ℕ → ℕ) (f : ℕ → ℕ → ℕ) (a b : ℕ)
    → bitwise z f (suc a) b ≡ bitwise z f (suc a / 2) (b / 2) * 2 + f (suc a % 2) (b % 2)
lowest_digit z f a b =
    ap (λ (t : ℕ). t * 2 + f (suc a % 2) (b % 2))
      (fuel_agrees z f a (suc a / 2) (suc a / 2) (b / 2) (omega arith) (omega arith))

pub bit_and-halves : (a b : ℕ) → bit_and a b ≡ bit_and (a / 2) (b / 2) * 2 + min (a % 2) (b % 2)
bit_and-halves zero b = simp bit_and-bitwise (omega arith)
bit_and-halves (suc a) b = simp bit_and-bitwise (lowest_digit (λ y. 0) min a b)

pub bit_or-halves : (a b : ℕ) → bit_or a b ≡ bit_or (a / 2) (b / 2) * 2 + max (a % 2) (b % 2)
bit_or-halves zero b = simp bit_or-bitwise (omega arith)
bit_or-halves (suc a) b = simp bit_or-bitwise (lowest_digit (λ y. y) max a b)

double_pow : (q k : ℕ) → q * 2 ^ suc k ≡ q * 2 ^ k * 2
double_pow q k = ap (λ (t : ℕ). q * t) (pow-suc 2 k) ∙ sym (mul_assoc q (2 ^ k) 2)

-- An operation on digits works on the two parts of a split number separately.
module _ (op f : ℕ → ℕ → ℕ)
    (halves : (a b : ℕ) → op a b ≡ op (a / 2) (b / 2) * 2 + f (a % 2) (b % 2)) where
  fields :
      (k q r m s : ℕ)
      → op 0 0 ≡ 0
      → r < 2 ^ k
      → s < 2 ^ k
      → op (q * 2 ^ k + r) (m * 2 ^ k + s) ≡ op q m * 2 ^ k + op r s
  fields zero q r m s z hr hs = ground (arith, z)
  fields (suc k) q r m s z hr hs = ground (
    arith,
    double_pow q k,
    double_pow m k,
    double_pow (op q m) k,
    pow-suc 2 k,
    halves (q * 2 ^ suc k + r) (m * 2 ^ suc k + s),
    halves r s,
    fields k q (r / 2) m (s / 2) z (omega (arith, pow-suc 2 k)) (omega (arith, pow-suc 2 k)),
  )

pub bit_and_fields :
    (k q r m s : ℕ)
    → r < 2 ^ k
    → s < 2 ^ k
    → bit_and (q * 2 ^ k + r) (m * 2 ^ k + s) ≡ bit_and q m * 2 ^ k + bit_and r s
bit_and_fields k q r m s = fields bit_and min bit_and-halves k q r m s refl

pub bit_or_fields :
    (k q r m s : ℕ)
    → r < 2 ^ k
    → s < 2 ^ k
    → bit_or (q * 2 ^ k + r) (m * 2 ^ k + s) ≡ bit_or q m * 2 ^ k + bit_or r s
bit_or_fields k q r m s = fields bit_or max bit_or-halves k q r m s refl

bit_and-zero_below : (n a : ℕ) → a ≤ n → bit_and a 0 ≡ 0
bit_and-zero_below zero a h = ground arith
bit_and-zero_below (suc n) zero h = refl
bit_and-zero_below (suc n) (suc a) h =
    omega (arith, bit_and-halves (suc a) 0, bit_and-zero_below n (suc a / 2) (omega arith))

pub bit_and-zero : (a : ℕ) → bit_and a 0 ≡ 0
bit_and-zero a = bit_and-zero_below a a (omega arith)

pub zero-bit_and : (b : ℕ) → bit_and 0 b ≡ 0
zero-bit_and b = bit_and-bitwise 0 b

bit_or-zero_below : (n a : ℕ) → a ≤ n → bit_or a 0 ≡ a
bit_or-zero_below zero a h = ground arith
bit_or-zero_below (suc n) zero h = refl
bit_or-zero_below (suc n) (suc a) h =
    omega (arith, bit_or-halves (suc a) 0, bit_or-zero_below n (suc a / 2) (omega arith))

pub bit_or-zero : (a : ℕ) → bit_or a 0 ≡ a
bit_or-zero a = bit_or-zero_below a a (omega arith)

pub zero-bit_or : (b : ℕ) → bit_or 0 b ≡ b
zero-bit_or b = bit_or-bitwise 0 b

pub two-pow-pos : (k : ℕ) → 1 ≤ 2 ^ k
two-pow-pos k = one-le-pow k 2 (omega arith)

pub two-pow-add : (a b : ℕ) → 2 ^ (a + b) ≡ 2 ^ a * 2 ^ b
two-pow-add a zero = ground arith
two-pow-add a (suc b) =
    rw add-suc
      (ground (arith, pow-suc 2 (a + b), pow-suc 2 b, two-pow-add a b, mul_assoc (2 ^ a) (2 ^ b) 2))

pub two-pow-split : (w n : ℕ) → n ≤ w → 2 ^ (w - n) * 2 ^ n ≡ 2 ^ w
two-pow-split w n h =
    let whole : w - n + n ≡ w = omega arith in
    sym (two-pow-add (w - n) n) ∙ ap (λ (t : ℕ). 2 ^ t) whole

-- A number shifted left by `n`: what goes over the top of a word of `w` bits, and what stays.
pub shift_split :
    (w x n : ℕ)
    → n ≤ w
    → (x * 2 ^ n ≡ x / 2 ^ (w - n) * 2 ^ w + x % 2 ^ (w - n) * 2 ^ n)
      × (x % 2 ^ (w - n) * 2 ^ n + 2 ^ n ≤ 2 ^ w)
shift_split w x n h =
    let whole = two-pow-split w n h in
    let scaled : (x / 2 ^ (w - n) * 2 ^ (w - n) + x % 2 ^ (w - n)) * 2 ^ n ≡ x * 2 ^ n =
      ap (λ (t : ℕ). t * 2 ^ n) (div-add-mod' x (2 ^ (w - n))) in
    let top : x / 2 ^ (w - n) * (2 ^ (w - n) * 2 ^ n) ≡ x / 2 ^ (w - n) * 2 ^ w =
      ap (λ (t : ℕ). x / 2 ^ (w - n) * t) whole in
    let below : (x % 2 ^ (w - n) + 1) * 2 ^ n ≤ 2 ^ (w - n) * 2 ^ n =
      mul-le-mul_right (2 ^ n) (omega (arith, mod-lt x (two-pow-pos (w - n)))) in
    (omega arith, omega arith)

-- `x & (1 << k - 1)` is the remainder by `1 << k`.
pub bit_and_ones : (k r : ℕ) → r < 2 ^ k → bit_and r (2 ^ k - 1) ≡ r
bit_and_ones zero r h = ground arith
bit_and_ones (suc k) r h =
    let half : (2 ^ suc k - 1) / 2 ≡ 2 ^ k - 1 = omega (arith, pow-suc 2 k, two-pow-pos k) in
    let odd : (2 ^ suc k - 1) % 2 ≡ 1 = omega (arith, pow-suc 2 k, two-pow-pos k) in
    let rest = bit_and_ones k (r / 2) (omega (arith, pow-suc 2 k)) in
    ground (arith, bit_and-halves r (2 ^ suc k - 1), half, odd, rest)

split_pow : (k a : ℕ) → a / 2 ^ k * 2 ^ k + a % 2 ^ k ≡ a
split_pow k a = div-add-mod' a (2 ^ k)

pub mod_pow-lt : (k a : ℕ) → a % 2 ^ k < 2 ^ k
mod_pow-lt k a = mod-lt a (two-pow-pos k)

pub bit_and_low : (k a : ℕ) → bit_and a (2 ^ k - 1) ≡ a % 2 ^ k
bit_and_low k a = ground (
  arith,
  split_pow k a,
  bit_and_fields k (a / 2 ^ k) (a % 2 ^ k) 0 (2 ^ k - 1) (mod_pow-lt k a)
      (omega (arith, two-pow-pos k)),
  bit_and_ones k (a % 2 ^ k) (mod_pow-lt k a),
  bit_and-zero (a / 2 ^ k),
)

-- A mask whose low `k` bits are clear acts on the quotient by `1 << k` alone.
pub bit_and_high :
    (k q r m : ℕ) → r < 2 ^ k → bit_and (q * 2 ^ k + r) (m * 2 ^ k) ≡ bit_and q m * 2 ^ k
bit_and_high k q r m h = ground (arith, bit_and_fields k q r m 0 h (two-pow-pos k), bit_and-zero r)

-- `(q << k) | r` is a sum when `r` fits `k` bits.
pub bit_or_disjoint : (k q r : ℕ) → r < 2 ^ k → bit_or (q * 2 ^ k) r ≡ q * 2 ^ k + r
bit_or_disjoint k q r h =
    ground (arith, bit_or_fields k q 0 0 r (two-pow-pos k) h, zero-bit_or r, bit_or-zero q)

-- The low bits of an `|` of two numbers that fit `k` bits.
pub bit_or-lt : (k a b : ℕ) → a < 2 ^ k → b < 2 ^ k → bit_or a b < 2 ^ k
bit_or-lt zero a b ha hb = ground arith
bit_or-lt (suc k) a b ha hb = omega (
  arith,
  pow-suc 2 k,
  bit_or-halves a b,
  bit_or-lt k (a / 2) (b / 2) (omega (arith, pow-suc 2 k)) (omega (arith, pow-suc 2 k)),
)

pub bit_and-lt : (k a b : ℕ) → a < 2 ^ k → bit_and a b < 2 ^ k
bit_and-lt zero a b ha = ground (arith, zero-bit_and b)
bit_and-lt (suc k) a b ha = omega (
  arith,
  pow-suc 2 k,
  bit_and-halves a b,
  bit_and-lt k (a / 2) (b / 2) (omega (arith, pow-suc 2 k)),
)
