-- ===== src/Base/Bytes.antt =====
-- Numbers as byte strings of a fixed width: what `encoding/binary` and the shifts of the source do.
use Prim.Native.Nat.{ℕ, zero, suc, ◌+◌, ◌*◌, ◌/◌, ◌%◌, ◌^◌, ◌<◌}
use mathlib.Core.Path.{◌≡◌, refl, ap, ◌∙◌}
use mathlib.Core.List.{List, [], ◌∷◌, ◌++◌, reverse, reverse_aux, reverse-reverse, reverse-append}
use native.Mathlib.Omega.{arith}
use native.Mathlib.Nat.{pow-suc, mul_comm}
use outway.Base.Lists.{length, All}

abbrev pub IsByte : ℕ → Type 0
IsByte b = b < 256

abbrev pub le_bytes : ℕ → ℕ → List ℕ
le_bytes zero x = []
le_bytes (suc n) x = x % 256 ∷ le_bytes n (x / 256)

abbrev pub le_value : List ℕ → ℕ
le_value [] = 0
le_value (b ∷ bs) = b + 256 * le_value bs

-- Most significant byte first, as `binary.BigEndian` has it.
unfoldable pub be_bytes : ℕ → ℕ → List ℕ
be_bytes n x = reverse (le_bytes n x)

unfoldable pub be_value : List ℕ → ℕ
be_value bs = le_value (reverse bs)

pub le_value-le_bytes : (n x : ℕ) → x < 256 ^ n → le_value (le_bytes n x) ≡ x
le_value-le_bytes zero x h = omega arith
le_value-le_bytes (suc n) x h =
    omega (arith, le_value-le_bytes n (x / 256) (omega (arith, pow-suc 256 n)))

pub le_bytes-le_value : (bs : List ℕ) → All IsByte bs → le_bytes (length bs) (le_value bs) ≡ bs
le_bytes-le_value [] h = refl
le_bytes-le_value (b ∷ bs) h =
    let low : (b + 256 * le_value bs) % 256 ≡ b = omega arith in
    let high : (b + 256 * le_value bs) / 256 ≡ le_value bs = omega arith in
    rw (low, high) (ap (◌∷◌ b) (le_bytes-le_value bs h.1))

length-le_bytes : (n x : ℕ) → length (le_bytes n x) ≡ n
length-le_bytes zero x = refl
length-le_bytes (suc n) x = ap suc (length-le_bytes n (x / 256))

pub le_value-lt : (bs : List ℕ) → All IsByte bs → le_value bs < 256 ^ length bs
le_value-lt [] h = omega arith
le_value-lt (b ∷ bs) h = omega (arith, le_value-lt bs h.1, pow-suc 256 (length bs))

length-reverse_aux : (xs ys : List ℕ) → length (reverse_aux xs ys) ≡ length xs + length ys
length-reverse_aux [] ys = omega arith
length-reverse_aux (x ∷ xs) ys = omega (arith, length-reverse_aux xs (x ∷ ys))

All-reverse_aux : (xs ys : List ℕ) → All IsByte xs → All IsByte ys → All IsByte (reverse_aux xs ys)
All-reverse_aux [] ys h k = k
All-reverse_aux (x ∷ xs) ys h k = All-reverse_aux xs (x ∷ ys) h.1 (h.0, k)

All-le_bytes : (n x : ℕ) → All IsByte (le_bytes n x)
All-le_bytes zero x = tt
All-le_bytes (suc n) x = (omega arith, All-le_bytes n (x / 256))

pub length-be_bytes : (n x : ℕ) → length (be_bytes n x) ≡ n
unfolding be_bytes
length-be_bytes n x = omega (arith, length-reverse_aux (le_bytes n x) [], length-le_bytes n x)

pub All-be_bytes : (n x : ℕ) → All IsByte (be_bytes n x)
unfolding be_bytes
All-be_bytes n x = All-reverse_aux (le_bytes n x) [] (All-le_bytes n x) tt

pub be_value-be_bytes : (n x : ℕ) → x < 256 ^ n → be_value (be_bytes n x) ≡ x
unfolding be_bytes be_value
be_value-be_bytes n x h = rw reverse-reverse (le_value-le_bytes n x h)

pub be_bytes-be_value :
    (n : ℕ) (bs : List ℕ) → length bs ≡ n → All IsByte bs → be_bytes n (be_value bs) ≡ bs
unfolding be_bytes be_value
be_bytes-be_value n bs e h =
    let same : length (reverse bs) ≡ n = omega (arith, length-reverse_aux bs []) in
    rw (← same) (
      ap reverse (le_bytes-le_value (reverse bs) (All-reverse_aux bs [] h tt)) ∙ reverse-reverse bs)

pub be_value-lt : (n : ℕ) (bs : List ℕ) → length bs ≡ n → All IsByte bs → be_value bs < 256 ^ n
unfolding be_value
be_value-lt n bs e h =
    let same : length (reverse bs) ≡ n = omega (arith, length-reverse_aux bs []) in
    rw (← same) (le_value-lt (reverse bs) (All-reverse_aux bs [] h tt))

le_value-append :
    (xs ys : List ℕ) → le_value (xs ++ ys) ≡ le_value xs + 256 ^ length xs * le_value ys
le_value-append [] ys = omega arith
le_value-append (x ∷ xs) ys =
    let scaled : 256 ^ length xs * 256 * le_value ys ≡ 256 * (256 ^ length xs * le_value ys) =
      grind arith in
    rw (le_value-append xs ys, pow-suc) (omega arith)

-- A number written in two fields.
pub be_value-append :
    (xs ys : List ℕ) → be_value (xs ++ ys) ≡ be_value xs * 256 ^ length ys + be_value ys
unfolding be_value
be_value-append xs ys =
    let same : length (reverse ys) ≡ length ys = omega (arith, length-reverse_aux ys []) in
    rw (reverse-append, le_value-append, same)
      (omega (arith, mul_comm (256 ^ length ys) (le_value (reverse xs))))
