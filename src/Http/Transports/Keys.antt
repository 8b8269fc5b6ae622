-- ===== src/Http/Transports/Keys.antt =====
-- Extensions as keys of a map: equal where `==` says so.
use outway.Base.{◌≡◌, refl, arith, true, ==_refl, ==_cases, inl, inr}
use outway.Ext.{ExtensionType, ext_none, ext_ttl, ext_range, ext_session, Extension}
use outway.Http.Transports.{type_number, extension_eq}

type_number_injective : (a b : ExtensionType) → type_number a ≡ type_number b → a ≡ b
type_number_injective ext_none ext_none h = refl
type_number_injective ext_ttl ext_ttl h = refl
type_number_injective ext_range ext_range h = refl
type_number_injective ext_session ext_session h = refl
type_number_injective ext_none ext_ttl h = absurd (omega (arith, h))
type_number_injective ext_none ext_range h = absurd (omega (arith, h))
type_number_injective ext_none ext_session h = absurd (omega (arith, h))
type_number_injective ext_ttl ext_none h = absurd (omega (arith, h))
type_number_injective ext_ttl ext_range h = absurd (omega (arith, h))
type_number_injective ext_ttl ext_session h = absurd (omega (arith, h))
type_number_injective ext_range ext_none h = absurd (omega (arith, h))
type_number_injective ext_range ext_ttl h = absurd (omega (arith, h))
type_number_injective ext_range ext_session h = absurd (omega (arith, h))
type_number_injective ext_session ext_none h = absurd (omega (arith, h))
type_number_injective ext_session ext_ttl h = absurd (omega (arith, h))
type_number_injective ext_session ext_range h = absurd (omega (arith, h))

pub extension_eq_sound : (a b : Extension) → extension_eq a b ≡ true → a ≡ b
unfolding extension_eq
extension_eq_sound a b h = elim (==_cases (type_number a.type) (type_number b.type)) [
  | inr (e, _) ↦ absurd (ground arith)
  | inl (e, same) ↦ elim (==_cases a.value b.value) [
    | inr (f, _) ↦ absurd (ground arith)
    | inl (f, equal) ↦
        let kind = type_number_injective a.type b.type same in cong_extension kind equal
  ]
]
  where
    cong_extension : a.type ≡ b.type → a.value ≡ b.value → a ≡ b
    cong_extension p q = λ i. record { type = p i; value = q i }

pub extension_eq_refl : (a : Extension) → extension_eq a a ≡ true
unfolding extension_eq
extension_eq_refl a = rw (==_refl, ==_refl) refl
