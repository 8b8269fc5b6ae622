-- ===== src/Http/Transports/Entries.antt =====
-- The entries of the pool as a map: at most one for each key, whatever is touched or removed.
use outway.Base.{
  ℕ, ◌≡◌, refl, sym, ap, ◌∙◌, arith, List, [], ◌∷◌, none, some, true, false, length, Bool-cases,
  inl, inr,
}
use outway.Ext.{Extension}
use outway.Http.Transports.Keys.{extension_eq_sound, extension_eq_refl}
use outway.Http.Transports.Eviction.{Entries, In, Keyed}
use outway.Http.Transports.{TransportEntry, extension_eq, find, touch, remove}

pub find-Keyed :
    (e : Extension) (xs : List (Extension × TransportEntry)) (entry : TransportEntry)
    → Keyed xs
    → find e xs ≡ some entry
    → entry.transport.extension ≡ e
unfolding find
find-Keyed e [] entry h f = absurd (cc f)
find-Keyed e ((k, x) ∷ rest) entry h f = elim (Bool-cases (extension_eq k e)) [
  | inl same ↦
      let goes : find e ((k, x) ∷ rest) ≡ some x = rw (same, find) refl in
      let found : x ≡ entry = cc in
      ap (λ y. y.transport.extension) (sym found) ∙ h.0 ∙ extension_eq_sound k e same
  | inr other ↦
      let goes : find e ((k, x) ∷ rest) ≡ find e rest = rw (other, find) refl in
      find-Keyed e rest entry (h.1) (sym goes ∙ f)
]

pub touch_lem :
    (e : Extension) (clock : ℕ) (xs : List (Extension × TransportEntry))
    → Keyed xs
    → (length (touch e clock xs) ≡ length xs) × Keyed (touch e clock xs)
unfolding touch
touch_lem e clock [] h = (refl, tt)
touch_lem e clock ((k, x) ∷ rest) h =
    let others = touch_lem e clock rest (h.1) in
    elim (Bool-cases (extension_eq k e)) [
      | inl same ↦ rw same (refl, h)
      | inr other ↦ rw other (omega (arith, others.0), (h.0, others.1))
    ]

pub find-touch :
    (e : Extension) (clock : ℕ) (xs : List (Extension × TransportEntry)) (entry : TransportEntry)
    → find e xs ≡ some entry
    → find e (touch e clock xs) ≡ some (record entry { last_used = clock })
unfolding find touch
find-touch e clock [] entry f = absurd (cc f)
find-touch e clock ((k, x) ∷ rest) entry f = elim (Bool-cases (extension_eq k e)) [
  | inl same ↦
      let goes : find e ((k, x) ∷ rest) ≡ some x = rw (same, find) refl in
      let found : x ≡ entry = cc in
      let touched : (record x { last_used = clock }) ≡ (record entry { last_used = clock }) =
        λ i. record { transport = (found i).transport; last_used = clock } in
      rw (same) (rw (same) (ap some touched))
  | inr other ↦
      let goes : find e ((k, x) ∷ rest) ≡ find e rest = rw (other, find) refl in
      rw (other) (rw other (find-touch e clock rest entry (sym goes ∙ f)))
]

-- No two entries have the same key.
abbrev pub Distinct : Entries → Type 0
Distinct [] = Unit
Distinct ((k, x) ∷ rest) = (find k rest ≡ none) × Distinct rest

-- Looking on past an entry that does not match.
find_past :
    (e k : Extension) (x : TransportEntry) (rest : Entries)
    → find e ((k, x) ∷ rest) ≡ none
    → (extension_eq k e ≡ false) × (find e rest ≡ none)
unfolding find
find_past e k x rest f = elim (Bool-cases (extension_eq k e)) [
  | inl same ↦
      let goes : find e ((k, x) ∷ rest) ≡ some x = rw (same, find) refl in absurd (cc (f, goes))
  | inr other ↦
      let goes : find e ((k, x) ∷ rest) ≡ find e rest = rw (other, find) refl in
      (other, sym goes ∙ f)
]

pub find-remove_missing :
    (k e : Extension) (xs : Entries) → find e xs ≡ none → find e (remove k xs) ≡ none
unfolding find remove
find-remove_missing k e [] f = refl
find-remove_missing k e ((j, x) ∷ xs) f =
    let (other, later) = find_past e j x xs f in
    elim (Bool-cases (extension_eq j k)) [
      | inl same ↦ rw same later
      | inr differs ↦ rw (differs, other) (find-remove_missing k e xs later)
    ]

find-touch_missing :
    (k e : Extension) (clock : ℕ) (xs : Entries)
    → find e xs ≡ none
    → find e (touch k clock xs) ≡ none
unfolding find touch
find-touch_missing k e clock [] f = refl
find-touch_missing k e clock ((j, x) ∷ xs) f =
    let (other, later) = find_past e j x xs f in
    elim (Bool-cases (extension_eq j k)) [
      | inl same ↦ rw (same, other) later
      | inr differs ↦ rw (differs, other) (find-touch_missing k e clock xs later)
    ]

pub remove-Distinct : (e : Extension) (xs : Entries) → Distinct xs → Distinct (remove e xs)
unfolding remove
remove-Distinct e [] d = tt
remove-Distinct e ((k, x) ∷ xs) d = elim (Bool-cases (extension_eq k e)) [
  | inl same ↦ rw same (d.1)
  | inr other ↦ rw other (find-remove_missing e k xs (d.0), remove-Distinct e xs (d.1))
]

pub touch-Distinct :
    (e : Extension) (clock : ℕ) (xs : Entries) → Distinct xs → Distinct (touch e clock xs)
unfolding touch
touch-Distinct e clock [] d = tt
touch-Distinct e clock ((k, x) ∷ xs) d = elim (Bool-cases (extension_eq k e)) [
  | inl same ↦ rw same d
  | inr other ↦ rw other (find-touch_missing e k clock xs (d.0), touch-Distinct e clock xs (d.1))
]

-- What is removed is not found again.
pub find-removed : (k : Extension) (xs : Entries) → Distinct xs → find k (remove k xs) ≡ none
unfolding find remove
find-removed k [] d = refl
find-removed k ((j, x) ∷ xs) d = elim (Bool-cases (extension_eq j k)) [
  | inl same ↦ rw same (ap (λ i. find i xs) (sym (extension_eq_sound j k same)) ∙ d.0)
  | inr other ↦ rw (other, other) (find-removed k xs (d.1))
]

-- A key that is not found is not the key of an entry.
pub find-In :
    (e : Extension) (y : Extension × TransportEntry) (xs : Entries)
    → find e xs ≡ none
    → In y xs
    → extension_eq e (y.0) ≡ false
find-In e y [] f i = absurd i
find-In e y ((k, x) ∷ xs) f (inr i) = find-In e y xs ((find_past e k x xs f).1) i
find-In e y ((k, x) ∷ xs) f (inl p) = elim (Bool-cases (extension_eq e (y.0))) [
  | inr other ↦ other
  | inl same ↦
      let key : k ≡ e = sym (ap (λ z. z.0) p) ∙ sym (extension_eq_sound e (y.0) same) in
      let clash : true ≡ false =
        sym (extension_eq_refl e)
        ∙ ap (λ j. extension_eq j e) (sym key)
        ∙ (find_past e k x xs f).0 in
      absurd (cc clash)
]
