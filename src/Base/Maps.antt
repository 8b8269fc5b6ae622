-- ===== src/Base/Maps.antt =====
-- Go maps keyed by strings, as association lists.
use Prim.Native.Nat.{ℕ, suc, ◌≤◌}
use mathlib.Core.Path.{◌≡◌, refl}
use mathlib.Core.Logic.{inl, inr}
use mathlib.Core.List.{List, [], ◌∷◌}
use mathlib.Core.Option.{Option, none, some}
use native.Mathlib.Omega.{arith}
use outway.Base.Tests.{if◌then◌else◌, Bool-cases}
use outway.Base.Lists.{length}
use outway.Base.Texts.{text_eq, text_eq_refl}

abbrev pub Map {ℓ} : Type ℓ → Type ℓ
Map A = List (List ℕ × A)

module _ {ℓ} {A : Type ℓ} where
  unfoldable pub lookup_key : List ℕ → Map A → Option A
  lookup_key k [] = none
  lookup_key k ((j, a) ∷ m) = if text_eq j k then some a else lookup_key k m

  unfoldable pub delete_key : List ℕ → Map A → Map A
  delete_key k [] = []
  delete_key k ((j, a) ∷ m) = if text_eq j k then m else (j, a) ∷ delete_key k m

  unfoldable pub put_key : List ℕ → A → Map A → Map A
  unfolding delete_key
  put_key k a m = (k, a) ∷ delete_key k m

  pub lookup-put : (k : List ℕ) (a : A) (m : Map A) → lookup_key k (put_key k a m) ≡ some a
  unfolding lookup_key put_key
  lookup-put k a m = rw (text_eq_refl k) refl

  pub length-delete : (k : List ℕ) (m : Map A) → length (delete_key k m) ≤ length m
  unfolding delete_key
  length-delete k [] = omega arith
  length-delete k ((j, a) ∷ m) = elim (Bool-cases (text_eq j k)) [
    | inl e ↦ rw e (omega arith)
    | inr e ↦ rw e (omega (arith, length-delete k m))
  ]

  pub length-put : (k : List ℕ) (a : A) (m : Map A) → length (put_key k a m) ≤ suc (length m)
  unfolding put_key
  length-put k a m = omega (arith, length-delete k m)
