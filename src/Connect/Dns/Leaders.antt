-- ===== src/Connect/Dns/Leaders.antt =====
-- The goroutines that resolve names, and the in-flight map that names them.
use outway.Base.{ℕ, ◌+◌, ◌≤◌, ◌<◌, ◌≡◌, ◌≢◌, refl, ap, arith, List, [], ◌∷◌, map}
use outway.Base.{true, Bool-cases, ==_cases, inl, inr, none, some}
use outway.Base.{Map, lookup_key, delete_key, text_eq, text_eq_refl, text_eq_sound}
use outway.Connect.Dns.{Leader, Stage, looking, find_call, set_stage, remove_call}

-- A leader as the in-flight map names it.
abbrev pub tag : Leader → List ℕ × ℕ
tag l = (l.key, l.call)

-- No name twice.
abbrev pub Distinct : Map ℕ → Type 0
Distinct [] = Unit
Distinct ((k, call) ∷ m) = (lookup_key k m ≡ none) × Distinct m

-- Calls are numbered downwards from below `n`.
abbrev pub Descending : ℕ → Map ℕ → Type 0
Descending n [] = Unit
Descending n ((k, call) ∷ m) = (call < n) × Descending call m

abbrev pub is_looking : Stage → ℕ
is_looking looking = 1
is_looking _ = 0

-- The resolver calls that run.
abbrev pub running : List Leader → ℕ
running [] = 0
running (l ∷ ls) = is_looking l.stage + running ls

pub missing_after_delete :
    (k j : List ℕ) (m : Map ℕ) → lookup_key k m ≡ none → lookup_key k (delete_key j m) ≡ none
unfolding lookup_key delete_key
missing_after_delete k j [] h = refl
missing_after_delete k j ((i, call) ∷ m) h = elim (Bool-cases (text_eq i k)) [
  | inl e ↦ ground arith
  | inr e ↦
      let rest : lookup_key k m ≡ none = ground arith in
      elim (Bool-cases (text_eq i j)) [
        | inl f ↦ rw f rest
        | inr f ↦ rw f (rw e (missing_after_delete k j m rest))
      ]
]

pub Distinct-delete : (j : List ℕ) (m : Map ℕ) → Distinct m → Distinct (delete_key j m)
unfolding delete_key
Distinct-delete j [] h = h
Distinct-delete j ((i, call) ∷ m) h = elim (Bool-cases (text_eq i j)) [
  | inl f ↦ rw f (h.1)
  | inr f ↦ rw f (missing_after_delete i j m (h.0), Distinct-delete j m (h.1))
]

pub Descending-mono : (n p : ℕ) (m : Map ℕ) → n ≤ p → Descending n m → Descending p m
Descending-mono n p [] h d = d
Descending-mono n p ((k, call) ∷ m) h d = (omega (arith, d.0), d.1)

pub Descending-delete :
    (n : ℕ) (j : List ℕ) (m : Map ℕ) → Descending n m → Descending n (delete_key j m)
unfolding delete_key
Descending-delete n j [] d = d
Descending-delete n j ((i, call) ∷ m) d = elim (Bool-cases (text_eq i j)) [
  | inl f ↦ rw f (Descending-mono call n m (omega (arith, d.0)) (d.1))
  | inr f ↦ rw f (d.0, Descending-delete call j m (d.1))
]

pub tags-set_stage :
    (call : ℕ) (s : Stage) (ls : List Leader) → map tag (set_stage call s ls) ≡ map tag ls
unfolding set_stage
tags-set_stage call s [] = refl
tags-set_stage call s (l ∷ ls) = elim (==_cases l.call call) [
  | inl (e, _) ↦ rw e refl
  | inr (e, _) ↦ rw e (ap (◌∷◌ (tag l)) (tags-set_stage call s ls))
]

pub running-set_stage :
    (call : ℕ) (s : Stage) (ls : List Leader) (l : Leader)
    → find_call call ls ≡ some l
    → running (set_stage call s ls) + is_looking l.stage ≡ running ls + is_looking s
unfolding find_call set_stage
running-set_stage call s [] l h = cc
running-set_stage call s (k ∷ ls) l h = elim (==_cases k.call call) [
  | inl (e, _) ↦ let same : k ≡ l = ground arith in rw (e, ← same) (omega arith)
  | inr (e, _) ↦
      let rest : find_call call ls ≡ some l = ground arith in
      rw e (omega (arith, running-set_stage call s ls l rest))
]

pub running-remove_call :
    (call : ℕ) (ls : List Leader) (l : Leader)
    → find_call call ls ≡ some l
    → running (remove_call call ls) + is_looking l.stage ≡ running ls
unfolding find_call remove_call
running-remove_call call [] l h = cc
running-remove_call call (k ∷ ls) l h = elim (==_cases k.call call) [
  | inl (e, _) ↦ let same : k ≡ l = ground arith in rw (e, ← same) (omega arith)
  | inr (e, _) ↦
      let rest : find_call call ls ≡ some l = ground arith in
      rw e (omega (arith, running-remove_call call ls l rest))
]

pub find_call_named :
    (call : ℕ) (ls : List Leader) (l : Leader) → find_call call ls ≡ some l → l.call ≡ call
unfolding find_call
find_call_named call [] l h = cc
find_call_named call (k ∷ ls) l h = ground (arith, find_call_named call ls l)

-- A leader's name is in the map of its tags.
pub find_call_key :
    (call : ℕ) (ls : List Leader) (l : Leader)
    → find_call call ls ≡ some l
    → lookup_key l.key (map tag ls) ≢ none
unfolding find_call lookup_key
find_call_key call [] l h q = cc
find_call_key call (k ∷ ls) l h q = elim (==_cases k.call call) [
  | inl (e, _) ↦
      let same : k ≡ l = ground arith in
      let own : text_eq k.key l.key ≡ true = rw same (text_eq_refl l.key) in ground arith
  | inr (e, _) ↦
      let rest : find_call call ls ≡ some l = ground arith in
      elim (Bool-cases (text_eq k.key l.key)) [
        | inl f ↦ ground arith
        | inr f ↦ find_call_key call ls l rest (ground arith)
      ]
]

-- Removing a leader by its call removes its name from the map.
pub remove_agrees :
    (call : ℕ) (ls : List Leader) (l : Leader)
    → Distinct (map tag ls)
    → find_call call ls ≡ some l
    → map tag (remove_call call ls) ≡ delete_key l.key (map tag ls)
unfolding find_call remove_call delete_key
remove_agrees call [] l d h = cc
remove_agrees call (k ∷ ls) l d h = elim (==_cases k.call call) [
  | inl (e, _) ↦
      let same : k ≡ l = ground arith in
      let own : text_eq k.key l.key ≡ true = rw same (text_eq_refl l.key) in rw (e, own) refl
  | inr (e, _) ↦
      let rest : find_call call ls ≡ some l = ground arith in
      elim (Bool-cases (text_eq k.key l.key)) [
        | inl f ↦
            let same = text_eq_sound k.key l.key f in
            let absent : lookup_key l.key (map tag ls) ≡ none = rw (← same) (d.0) in
            elim (find_call_key call ls l rest absent) [ ]
        | inr f ↦ rw (e, f) (ap (◌∷◌ (tag k)) (remove_agrees call ls l (d.1) rest))
      ]
]
