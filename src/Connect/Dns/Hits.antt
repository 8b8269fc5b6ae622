-- ===== src/Connect/Dns/Hits.antt =====
-- What a lookup finds in the cache of names, and what those that waited for it are told.
use outway.Base.{ℕ, ◌+◌, ◌<◌, ◌≡◌, ◌↔◌, refl, arith, List, [], ◌∷◌, length, get_elem?, get_elem-set}
use outway.Base.{
  true, ◌||◌, Bool-cases, lt→ltb, inl, inr, none, some, Option-cases, if◌then◌else◌, ltb, is_some,
}
use outway.Base.{Map, lookup_key, delete_key, lookup-put, text_eq, text_eq_sound}
use outway.Connect.Dns.{
  Cache, Answer, Leader, fast_path, slow_path, join_or_lead, hit, lookup_cached, normalize_dns_name,
  store, finish_with, is_empty,
}
use outway.Connect.Dns.Leaders.{Distinct}

deleted : (k : List ℕ) (m : Map ℕ) → Distinct m → lookup_key k (delete_key k m) ≡ none
unfolding lookup_key delete_key
deleted k [] d = refl
deleted k ((j, call) ∷ m) d = elim (Bool-cases (text_eq j k)) [
  | inl e ↦ let same = text_eq_sound j k e in rw e (rw (← same) (d.0))
  | inr e ↦ rw e (rw e (deleted k m (d.1)))
]

-- How long an answer is kept.
abbrev pub lifetime : Answer → Cache → ℕ
lifetime a c = if is_some a.err then c.negative_ttl else c.ttl

stored :
    (key : List ℕ) (started now pick : ℕ) (a : Answer) (c : Cache)
    → 0 < lifetime a c
    → 0 < c.max_entries
    → lookup_key key (store key started now pick true a c)
      ≡ some (record { answer = a; expires_at = now + lifetime a c })
unfolding store
stored key started now pick a c keep room = rw (lt→ltb 0 (lifetime a c) keep) (
    rw (lt→ltb 0 c.max_entries room)
      (lookup-put key (record { answer = a; expires_at = now + lifetime a c }) _))

-- A leader that finishes with its context alive, where answers are kept at all, leaves its answer
-- for its lifetime and no longer: the read path finds exactly that answer before the expiry and
-- nothing from it on. All that joined its call are told the answer, and its name is no longer in
-- flight.
pub finish_with_lem :
    (now pick later : ℕ) (l : Leader) (a : Answer) (c : Cache)
    → 0 < lifetime a c
    → 0 < c.max_entries
    → l.call < length c.calls
    → Distinct c.inflight
    → let d = finish_with now true pick l a c in
      (fast_path l.key later d ≡ (if ltb later (now + lifetime a c) then some a else none))
      × (get_elem? d.calls l.call ≡ some (some a))
      × (lookup_key l.key d.inflight ≡ none)
unfolding finish_with fast_path
finish_with_lem now pick later l a c keep room known distinct = (
  rw (stored l.key l.started now pick a c keep room, fast_path) refl,
  get_elem-set c.calls l.call (some a) known,
  deleted l.key c.inflight distinct,
)

-- The check under the read lock and the re-check under the write lock agree: the first finds an
-- answer exactly when the second, on the same cache, is a hit with it that changes nothing.
pub fast_path-slow_path :
    (key : List ℕ) (now : ℕ) (c : Cache) (a : Answer)
    → (fast_path key now c ≡ some a) ↔ (slow_path key now c ≡ (hit a, c))
unfolding fast_path slow_path join_or_lead
fast_path-slow_path key now c a = elim (Option-cases (lookup_key key c.entries)) [
  | inl e ↦
      rw (e, fast_path, slow_path)
        (elim (Option-cases (lookup_key key c.inflight)) [
          | inl f ↦ rw (f, join_or_lead) (ground arith)
          | inr (call, f) ↦ rw (f, join_or_lead) (ground arith)
        ])
  | inr (entry, e) ↦
      rw (e, fast_path, slow_path)
        (elim (Bool-cases (ltb now entry.expires_at)) [
          | inl f ↦ rw f (ground arith)
          | inr f ↦ rw f (elim (Option-cases (lookup_key key c.inflight)) [
            | inl g ↦ rw (g, join_or_lead) (ground arith)
            | inr (call, g) ↦ rw (g, join_or_lead) (ground arith)
          ])
        ])
]

-- `LookupCached` gives what the read path finds for the normalized name, cached failures and
-- empty answers left out.
pub lookup_cached-fast_path :
    (host : List ℕ) (now : ℕ) (c : Cache)
    → lookup_cached host now c ≡ elim (fast_path (normalize_dns_name host) now c) [
      | none ↦ none
      | some a ↦ if is_some a.err || is_empty a.addrs then none else some a.addrs
    ]
unfolding lookup_cached fast_path
lookup_cached-fast_path host now c =
    elim (Option-cases (lookup_key (normalize_dns_name host) c.entries)) [
      | inl e ↦ rw (e, lookup_cached, fast_path) refl
      | inr (entry, e) ↦ rw (e, lookup_cached, fast_path) (ground arith)
    ]
