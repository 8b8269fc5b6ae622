-- ===== src/Connect/Dns/Bounds.antt =====
-- The sizes of the cache of names: what each operation does to the number of entries.
use outway.Base.{
  ℕ, suc, ◌+◌, ◌-◌, ◌%◌, ◌≤◌, ◌<◌, ◌≡◌, refl, arith, List, [], ◌∷◌, length, length-append,
  length-take, length-drop, take, drop,
}
use outway.Base.{
  Bool, true, false, Bool-cases, ltb_cases, inl, inr, ltb, Map, length-put, is_some, if◌then◌else◌,
}
use native.Mathlib.Nat.{mod-lt}
use outway.Connect.Dns.{Cache, Entry, Answer, live_entries, drop_one, evict_locked, store}

length-live : (now : ℕ) (m : Map Entry) → length (live_entries now m) ≤ length m
unfolding live_entries
length-live now [] = omega arith
length-live now ((k, e) ∷ m) = elim (Bool-cases (ltb now e.expires_at)) [
  | inl p ↦ rw p (omega (arith, length-live now m))
  | inr p ↦ rw p (omega (arith, length-live now m))
]

length-drop_one : (pick : ℕ) (m : Map Entry) → length (drop_one pick m) ≡ length m - 1
unfolding drop_one
length-drop_one pick [] = refl
length-drop_one pick ((k, e) ∷ m) =
    let i = pick % suc (length m) in
    let xs = (k, e) ∷ m in
    let inside : i < suc (length m) = mod-lt pick (omega arith) in
    omega
      (arith, length-append (take i xs) (drop (suc i) xs), length-take i xs, length-drop (suc i) xs)

-- Eviction makes room for one entry.
pub length-evict_locked :
    (max pick now : ℕ) (m : Map Entry)
    → 0 < max
    → length m ≤ max
    → length (evict_locked max pick now m) < max
unfolding evict_locked
length-evict_locked max pick now m room h = elim (ltb_cases (length m) max) [
  | inl (e, small) ↦ rw e small
  | inr (e, full) ↦ rw e (elim (ltb_cases (length (live_entries now m)) max) [
    | inl (f, small) ↦ rw f small
    | inr (f, still) ↦
        rw f (omega (arith, length-drop_one pick (live_entries now m), length-live now m))
  ])
]

pub length-store :
    (key : List ℕ) (started now pick : ℕ) (live : Bool) (a : Answer) (c : Cache)
    → length c.entries ≤ c.max_entries
    → length (store key started now pick live a c) ≤ c.max_entries
unfolding store
length-store key started now pick false a c h = h
length-store key started now pick true a c h =
    elim (ltb_cases 0 (if is_some a.err then c.negative_ttl else c.ttl)) [
      | inr (e, _) ↦ rw e h
      | inl (e, _) ↦ rw e (elim (ltb_cases 0 c.max_entries) [
        | inr (f, _) ↦ rw f h
        | inl (f, room) ↦
            let entry : Entry = record {
              answer = a;
              expires_at = now + (if is_some a.err then c.negative_ttl else c.ttl);
            } in
            let rest = evict_locked c.max_entries pick started c.entries in
            rw f (
              omega (
                arith,
                length-put key entry rest,
                length-evict_locked c.max_entries pick started c.entries room h,
              ))
      ])
    ]
