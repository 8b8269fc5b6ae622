-- ===== src/Ext.antt =====
-- internal/ext/ext.go: the extension that a proxy username carries. `time.Now().Unix()` is the
-- argument `now`.
pub mod Window
use Prim.Native.Nat.{bit_or, bit_xor}
use outway.Base.{
  ℕ, suc, ◌+◌, ◌-◌, ◌*◌, ◌/◌, ◌%◌, ◌^◌, List, [], ◌∷◌, ◌++◌, Option, none, some, Bool, true, false,
}
use outway.Base.{
  if◌then◌else◌, leb, ltb, ◌==◌, ◌&&◌, codes, cut_prefix, trim_prefix, contains, be_bytes,
}

pub data ExtensionType : Type 0 where
  ext_none ext_ttl ext_range ext_session : ExtensionType

pub record Extension : Type 0 where
  pub type : ExtensionType
  pub value : ℕ

abbrev pub no_extension : Extension
no_extension = record { type = ext_none; value = 0 }

abbrev pub ttl_marker : List ℕ
ttl_marker = codes "-ttl-"

abbrev pub session_marker : List ℕ
session_marker = codes "-session-"

abbrev pub range_marker : List ℕ
range_marker = codes "-range-"

abbrev fx_mult : ℕ
fx_mult = 0x517cc1b727220a95

-- On uint64: bits shifted out at the top are lost.
unfoldable pub rotl64 : ℕ → ℕ → ℕ
rotl64 x r = bit_or (x * 2 ^ r % 2 ^ 64) (x / 2 ^ (64 - r))

-- A little-endian word of the bytes: b[0] | b[1] << 8 | …
unfoldable pub word : List ℕ → ℕ
word [] = 0
word (b ∷ bs) = bit_or b (word bs * 2 ^ 8)

unfoldable pub fx_step : ℕ → List ℕ → ℕ
unfolding rotl64 word
fx_step hash bs = bit_xor (rotl64 hash 5) (word bs) * fx_mult % 2 ^ 64

-- What is left after the words of eight bytes: four, two and one, as far as they are there.
unfoldable pub fx_one : ℕ → List ℕ → ℕ
unfolding fx_step
fx_one hash [] = hash
fx_one hash (a ∷ rem) = fx_step hash (a ∷ [])

unfoldable pub fx_two : ℕ → List ℕ → ℕ
unfolding fx_step fx_one
fx_two hash (a ∷ b ∷ rem) = fx_one (fx_step hash (a ∷ b ∷ [])) rem
fx_two hash rem = fx_one hash rem

unfoldable pub fx_four : ℕ → List ℕ → ℕ
unfolding fx_step fx_two
fx_four hash (a ∷ b ∷ c ∷ d ∷ rem) = fx_two (fx_step hash (a ∷ b ∷ c ∷ d ∷ [])) rem
fx_four hash rem = fx_two hash rem

unfoldable pub fx_words : ℕ → List ℕ → ℕ
unfolding fx_step fx_four
fx_words hash (a ∷ b ∷ c ∷ d ∷ e ∷ f ∷ g ∷ h ∷ rest) =
    fx_words (fx_step hash (a ∷ b ∷ c ∷ d ∷ e ∷ f ∷ g ∷ h ∷ [])) rest
fx_words hash rem = fx_four hash rem

unfoldable pub fx_hash64 : List ℕ → ℕ
unfolding fx_words
fx_hash64 bytes = fx_words 0 bytes

-- `strconv.ParseUint(s, 10, bits)`: decimal digits alone, at least one, the value below the width.
abbrev digit_value : ℕ → Option ℕ
digit_value c = if leb b'0' c && leb c b'9' then some (c - b'0') else none

unfoldable pub digits_value : ℕ → List ℕ → Option ℕ
digits_value acc [] = some acc
digits_value acc (c ∷ s) = elim (digit_value c) [
  | none ↦ none
  | some d ↦ digits_value (acc * 10 + d) s
]

unfoldable pub parse_uint : List ℕ → ℕ → Option ℕ
unfolding digits_value
parse_uint [] bits = none
parse_uint (c ∷ s) bits = elim (digits_value 0 (c ∷ s)) [
  | none ↦ none
  | some n ↦ if ltb n (2 ^ bits) then some n else none
]

-- The start of the time window of length `ttl`, as eight bytes, is what is hashed.
unfoldable pub window_extension : ℕ → ℕ → Extension
window_extension now ttl =
    if ttl == 0
    then no_extension
    else record { type = ext_ttl; value = fx_hash64 (be_bytes 8 (now - now % ttl)) }

unfoldable pub parse_ttl : ℕ → List ℕ → Extension
unfolding parse_uint window_extension
parse_ttl now s = elim (parse_uint s 64) [
  | none ↦ no_extension
  | some ttl ↦ window_extension now ttl
]

unfoldable pub extract : ℕ → List ℕ → List ℕ → Extension
unfolding parse_ttl
extract now full extracted =
    if contains session_marker full
    then record { type = ext_session; value = fx_hash64 full }
    else if contains ttl_marker extracted
    then parse_ttl now (trim_prefix ttl_marker extracted)
    else if contains range_marker extracted
    then record { type = ext_range; value = fx_hash64 (trim_prefix range_marker extracted) }
    else no_extension

unfoldable pub try_from : ℕ → List ℕ → List ℕ → Extension
unfolding extract
try_from now prefix full = elim (cut_prefix prefix full) [
  | none ↦ no_extension
  | some extracted ↦ extract now full extracted
]
