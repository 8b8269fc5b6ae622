-- ===== src/Ext/Window.antt =====
-- What an extension depends on.
use outway.Base.{ℕ, ◌-◌, ◌*◌, ◌/◌, ◌%◌, ◌^◌, ◌<◌, ◌≡◌, ◌≢◌, refl, arith, List, [], ◌∷◌, ◌++◌}
use outway.Base.{
  some, Bool-cases, inl, inr, Option-cases, false, contains, cut_prefix, cut_prefix-append,
}
use outway.Base.{==_cases, trim_prefix, be_bytes, ◌==◌, ==_false}
use native.Mathlib.Nat.{div-add-mod}
use outway.Ext.{
  ext_ttl, fx_hash64, fx_words, fx_four, fx_two, fx_one, fx_step, parse_ttl, parse_uint,
  window_extension, extract, try_from, session_marker, ttl_marker, range_marker,
}

fx_step-lt : (hash : ℕ) (bs : List ℕ) → fx_step hash bs < 2 ^ 64
unfolding fx_step
fx_step-lt hash bs = omega arith

window_extension_same :
    (now later ttl : ℕ)
    → (ttl ≢ 0 → now / ttl ≡ later / ttl)
    → window_extension now ttl ≡ window_extension later ttl
unfolding window_extension
window_extension_same now later ttl same = elim (==_cases ttl 0) [
  | inl (e, p) ↦ rw e refl
  | inr (e, p) ↦
      let start : now - now % ttl ≡ later - later % ttl =
        ground (arith, div-add-mod now ttl, div-add-mod later ttl, same p) in
      rw (e, start) refl
]

-- The hash stays a 64-bit number, whatever is left after the words of eight bytes.
fx_one-lt : (hash : ℕ) (rem : List ℕ) → hash < 2 ^ 64 → fx_one hash rem < 2 ^ 64
unfolding fx_one
fx_one-lt hash [] h = h
fx_one-lt hash (a ∷ rem) h = fx_step-lt hash (a ∷ [])

fx_two-lt : (hash : ℕ) (rem : List ℕ) → hash < 2 ^ 64 → fx_two hash rem < 2 ^ 64
unfolding fx_two
fx_two-lt hash (a ∷ b ∷ rem) h = fx_one-lt _ rem (fx_step-lt hash (a ∷ b ∷ []))
fx_two-lt hash rem h = fx_one-lt hash rem h

fx_four-lt : (hash : ℕ) (rem : List ℕ) → hash < 2 ^ 64 → fx_four hash rem < 2 ^ 64
unfolding fx_four
fx_four-lt hash (a ∷ b ∷ c ∷ d ∷ rem) h = fx_two-lt _ rem (fx_step-lt hash (a ∷ b ∷ c ∷ d ∷ []))
fx_four-lt hash rem h = fx_two-lt hash rem h

fx_words-lt : (hash : ℕ) (bs : List ℕ) → hash < 2 ^ 64 → fx_words hash bs < 2 ^ 64
unfolding fx_words
fx_words-lt hash (a ∷ b ∷ c ∷ d ∷ e ∷ f ∷ g ∷ i ∷ rest) h =
    fx_words-lt (fx_step hash (a ∷ b ∷ c ∷ d ∷ e ∷ f ∷ g ∷ i ∷ [])) rest
      (fx_step-lt hash (a ∷ b ∷ c ∷ d ∷ e ∷ f ∷ g ∷ i ∷ []))
fx_words-lt hash rem h = fx_four-lt hash rem h

fx_hash64-lt : (bs : List ℕ) → fx_hash64 bs < 2 ^ 64
unfolding fx_hash64
fx_hash64-lt bs = fx_words-lt 0 bs (omega arith)

parse_ttl-lt : (now : ℕ) (s : List ℕ) → (parse_ttl now s).value < 2 ^ 64
unfolding parse_ttl window_extension
parse_ttl-lt now s = elim (Option-cases (parse_uint s 64)) [
  | inl e ↦ rw (e, parse_ttl) (omega arith)
  | inr (ttl, e) ↦
      rw (e, parse_ttl)
        (elim (Bool-cases (ttl == 0)) [
          | inl z ↦ rw z (omega arith)
          | inr z ↦ rw z (fx_hash64-lt (be_bytes 8 (now - now % ttl)))
        ])
]

-- The value that selects a source address is a 64-bit number on every branch.
pub try_from-lt : (now : ℕ) (prefix full : List ℕ) → (try_from now prefix full).value < 2 ^ 64
unfolding try_from extract
try_from-lt now prefix full = elim (Option-cases (cut_prefix prefix full)) [
  | inl e ↦ rw (e, try_from) (omega arith)
  | inr (rest, e) ↦
      rw (e, try_from)
        (elim (Bool-cases (contains session_marker full)) [
          | inl session ↦ rw session (fx_hash64-lt full)
          | inr session ↦ rw session (elim (Bool-cases (contains ttl_marker rest)) [
            | inl ttl ↦ rw ttl (parse_ttl-lt now (trim_prefix ttl_marker rest))
            | inr ttl ↦ rw ttl (elim (Bool-cases (contains range_marker rest)) [
              | inl range ↦ rw range (fx_hash64-lt (trim_prefix range_marker rest))
              | inr range ↦ rw range (omega arith)
            ])
          ])
        ])
]

-- A username `<prefix>-ttl-<seconds>` without a session marker gets the hash of the start of the
-- current window of that many seconds: two times in one window give one extension.
pub try_from-ttl :
    (now ttl : ℕ) (prefix s : List ℕ)
    → parse_uint s 64 ≡ some ttl
    → 0 < ttl
    → contains session_marker (prefix ++ (ttl_marker ++ s)) ≡ false
    → try_from now prefix (prefix ++ (ttl_marker ++ s))
      ≡ record { type = ext_ttl; value = fx_hash64 (be_bytes 8 (ttl * (now / ttl))) }
unfolding try_from extract contains cut_prefix trim_prefix parse_ttl window_extension
try_from-ttl now ttl prefix s parsed pos session =
    let start : now - now % ttl ≡ ttl * (now / ttl) = omega (arith, div-add-mod now ttl) in
    rw (cut_prefix-append prefix (ttl_marker ++ s), try_from)
      (rw (session, parsed, parse_ttl, ==_false ttl 0 (omega arith), start))

-- Only a time-window extension depends on the clock.
pub try_from_later :
    (now later : ℕ) (prefix full : List ℕ)
    → (try_from now prefix full).type ≢ ext_ttl
    → (try_from later prefix full).type ≢ ext_ttl
    → try_from now prefix full ≡ try_from later prefix full
unfolding try_from extract parse_ttl window_extension
try_from_later now later prefix full h k = ground arith
