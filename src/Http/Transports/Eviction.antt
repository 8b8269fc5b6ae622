-- ===== src/Http/Transports/Eviction.antt =====
-- The transport that has to go is the one used the longest time ago, and no other goes.
use outway.Base.{
  suc, ◌≤◌, ◌<◌, ◌≡◌, ◌⊎◌, refl, sym, ap, ◌∙◌, arith, List, [], ◌∷◌, none, some, true, false,
  length, All, Bool-cases, leb_cases, ltb_cases, inl, inr,
}
use mathlib.Core.Path.{subst}
use outway.Ext.{Extension}
use outway.Http.Transports.{
  max_transport_entries, TransportEntry, TransportPool, extension_eq, oldest_of, remove, make_room,
  find,
}
use outway.Http.Transports.Keys.{extension_eq_refl, extension_eq_sound}

-- Every entry holds a transport of its own key.
abbrev pub Keyed : List (Extension × TransportEntry) → Type 0
Keyed = All (λ x. (x.1).transport.extension ≡ x.0)

pub remove-Keyed :
    (e : Extension) (xs : List (Extension × TransportEntry)) → Keyed xs → Keyed (remove e xs)
unfolding remove
remove-Keyed e [] h = tt
remove-Keyed e ((k, x) ∷ rest) h = elim (Bool-cases (extension_eq k e)) [
  | inl same ↦ rw same (h.1)
  | inr other ↦ rw other (h.0, remove-Keyed e rest (h.1))
]

abbrev pub Entries : Type 0
Entries = List (Extension × TransportEntry)

abbrev pub In : Extension × TransportEntry → Entries → Type 0
In y [] = ⊥
In y (x ∷ xs) = (y ≡ x) ⊎ In y xs

abbrev pub NotOlder : Extension × TransportEntry → Extension × TransportEntry → Type 0
NotOlder z x = (z.1).last_used ≤ (x.1).last_used

All-NotOlder :
    (y z : Extension × TransportEntry) (xs : Entries)
    → NotOlder z y
    → All (NotOlder y) xs
    → All (NotOlder z) xs
All-NotOlder y z [] h v = tt
All-NotOlder y z (x ∷ xs) h v = (omega (arith, h, v.0), All-NotOlder y z xs h (v.1))

oldest_lem :
    (y : Extension × TransportEntry) (xs : Entries)
    → (z : Extension × TransportEntry) × (oldest_of (some y) xs ≡ some z)
      × ((z ≡ y) ⊎ In z xs)
      × NotOlder z y
      × All (NotOlder z) xs
unfolding oldest_of
oldest_lem y [] = (y, refl, inl refl, omega arith, tt)
oldest_lem y (x ∷ xs) = elim (ltb_cases (x.1).last_used (y.1).last_used) [
  | inl (e, older) ↦
      let (z, found, place, least, others) = oldest_lem x xs in
      rw e (z, found, inr place, omega (arith, least, older), (least, others))
  | inr (e, younger) ↦
      let (z, found, place, least, others) = oldest_lem y xs in
      rw e (z, found, later z place, least, (omega (arith, least, younger), others))
]
  where
    later : (z : Extension × TransportEntry) → (z ≡ y) ⊎ In z xs → (z ≡ y) ⊎ In z (x ∷ xs)
    later z (inl p) = inl p
    later z (inr i) = inr (inr i)

pub length-remove :
    (y : Extension × TransportEntry) (xs : Entries)
    → In y xs
    → suc (length (remove (y.0) xs)) ≡ length xs
unfolding remove
length-remove y [] i = absurd i
length-remove y (x ∷ xs) i = elim (Bool-cases (extension_eq (x.0) (y.0))) [
  | inl e ↦ rw e refl
  | inr e ↦ rw e (behind e i (length-remove y xs))
]
  where
    behind :
        extension_eq (x.0) (y.0) ≡ false
        → In y (x ∷ xs)
        → (In y xs → suc (length (remove (y.0) xs)) ≡ length xs)
        → suc (suc (length (remove (y.0) xs))) ≡ suc (length xs)
    behind e (inr j) rest = ap suc (rest j)
    behind e (inl p) rest =
        let clash : true ≡ false =
          sym (extension_eq_refl (x.0)) ∙ sym (ap (λ z. extension_eq (x.0) (z.0)) p) ∙ e in
        absurd (cc clash)

-- A full pool gives up one entry, and none was used longer ago.
pub make_room-full :
    (p : TransportPool)
    → max_transport_entries ≤ length p.entries
    → (y : Extension × TransportEntry) × In y p.entries
      × All (NotOlder y) p.entries
      × (make_room p
          ≡ record p { entries = remove (y.0) p.entries; closed = (y.1).transport ∷ p.closed })
unfolding make_room
make_room-full p h = chosen p.entries refl
  where
    chosen :
        (xs : Entries)
        → p.entries ≡ xs
        → (y : Extension × TransportEntry) × In y p.entries
          × All (NotOlder y) p.entries
          × (make_room p
              ≡ record p { entries = remove (y.0) p.entries; closed = (y.1).transport ∷ p.closed })
    chosen [] e = absurd (omega (arith, h, ap length e))
    chosen (x ∷ xs) e =
        let (z, found, place, least, others) = oldest_lem x xs in
        let oldest : oldest_of none p.entries ≡ some z =
          ap (oldest_of none) e ∙ unfold oldest_of in found in
        elim (leb_cases max_transport_entries (length p.entries)) [
          | inr (f, k) ↦ absurd (omega (arith, h, k))
          | inl (f, _) ↦ (
            z,
            subst (In z) (sym e) place,
            subst (All (NotOlder z)) (sym e) (least, others),
            rw (f, oldest, make_room) refl,
          )
        ]

pub make_room-room :
    (p : TransportPool) → length p.entries < max_transport_entries → make_room p ≡ p
unfolding make_room
make_room-room p h = elim (leb_cases max_transport_entries (length p.entries)) [
  | inl (f, k) ↦ absurd (omega (arith, h, k))
  | inr (f, _) ↦ rw f refl
]

pub make_room-length :
    (p : TransportPool)
    → length p.entries ≤ max_transport_entries
    → length (make_room p).entries < max_transport_entries
make_room-length p few = elim (leb_cases max_transport_entries (length p.entries)) [
  | inl (_, full) ↦
      let (y, inside, least, e) = make_room-full p full in
      rw e (omega (arith, length-remove y p.entries inside, few))
  | inr (_, k) ↦ rw (make_room-room p (omega (arith, k))) (omega (arith, k))
]

pub make_room-Keyed : (p : TransportPool) → Keyed p.entries → Keyed (make_room p).entries
make_room-Keyed p v = elim (leb_cases max_transport_entries (length p.entries)) [
  | inl (_, full) ↦
      let (y, inside, least, e) = make_room-full p full in rw e (remove-Keyed (y.0) p.entries v)
  | inr (_, k) ↦ rw (make_room-room p (omega (arith, k))) v
]

-- Looking up another key is not disturbed by the removal.
pub find-remove :
    (k e : Extension) (xs : Entries) → extension_eq k e ≡ false → find e (remove k xs) ≡ find e xs
unfolding find remove
find-remove k e [] h = refl
find-remove k e ((j, x) ∷ xs) h = elim (Bool-cases (extension_eq j k)) [
  | inl f ↦
      let same : j ≡ k = extension_eq_sound j k f in
      let other : extension_eq j e ≡ false = ap (λ i. extension_eq i e) same ∙ h in
      rw (f, other) refl
  | inr f ↦ elim (Bool-cases (extension_eq j e)) [
    | inl g ↦ rw (f, g) refl
    | inr g ↦ rw (f, g) (find-remove k e xs h)
  ]
]
