-- ===== src/Http/Transports/Reuse.antt =====
-- The transport of an extension dials with that extension, and is used again.
use outway.Base.{
  ◌+◌, ◌≤◌, ◌≡◌, ◌⊎◌, refl, sym, ap, ◌∙◌, arith, List, [], ◌∷◌, none, some, Bool, true, false,
  if◌then◌else◌, length, All, Bool-cases, leb_cases, Option-cases, inl, inr,
}
use outway.Ext.{Extension}
use outway.Http.Transports.Keys.{extension_eq_sound, extension_eq_refl}
use outway.Http.Transports.Entries.{
  find-Keyed, touch_lem, find-touch, Distinct, find-remove_missing, remove-Distinct, touch-Distinct,
  find-removed, find-In,
}
use outway.Http.Transports.Eviction.{
  length-remove, make_room-room, In, NotOlder, Keyed, make_room-full, find-remove, make_room-length,
  make_room-Keyed,
}
use outway.Http.Transports.{
  max_transport_entries, Transport, TransportEntry, TransportPool, extension_eq, is_none,
  new_transport, new_transport_pool, find, touch, make_room, added, get,
}

pub record IsPool (p : TransportPool) : Type 0 where
  pub few : length p.entries ≤ max_transport_entries
  pub keyed : Keyed p.entries
  pub distinct : Distinct p.entries

make_room-Distinct :
    (e : Extension) (p : TransportPool)
    → find e p.entries ≡ none
    → Distinct p.entries
    → (find e (make_room p).entries ≡ none) × Distinct (make_room p).entries
make_room-Distinct e p f d = elim (leb_cases max_transport_entries (length p.entries)) [
  | inl (_, full) ↦
      let (y, inside, least, gone) = make_room-full p full in
      rw gone (find-remove_missing (y.0) e p.entries f, remove-Distinct (y.0) p.entries d)
  | inr (_, k) ↦ rw (make_room-room p (omega (arith, k))) (f, d)
]

get-IsPool : (e : Extension) (p : TransportPool) → IsPool p → IsPool ((get e p).1)
unfolding get
get-IsPool e p v = elim (Bool-cases (is_none e)) [
  | inl named ↦ rw named v
  | inr named ↦ elim (Option-cases (find e p.entries)) [
    | inr (entry, f) ↦
        let kept = touch_lem e (p.clock + 1) p.entries v.keyed in
        rw (named, f)
          (record {
            few = omega (arith, kept.0, v.few);
            keyed = kept.1;
            distinct = touch-Distinct e (p.clock + 1) p.entries v.distinct;
          })
    | inl f ↦
        let ticked = record p { clock = p.clock + 1 } in
        let room = make_room-length ticked v.few in
        unfold new_transport in
        rw (named, f)
          (record {
            few = omega (arith, room);
            keyed = (refl, make_room-Keyed ticked v.keyed);
            distinct = make_room-Distinct e ticked f v.distinct;
          })
  ]
]

get-extension :
    (e : Extension) (p : TransportPool) → IsPool p → is_none e ≡ false → ((get e p).0).extension ≡ e
unfolding get
get-extension e p v named = elim (Option-cases (find e p.entries)) [
  | inr (entry, f) ↦ rw (named, f) (find-Keyed e p.entries entry v.keyed f)
  | inl f ↦ unfold new_transport in rw (named, f) refl
]

get_named :
    (e : Extension) (p : TransportPool) → is_none e ≡ true → get e p ≡ (p.default_transport, p)
unfolding get
get_named e p named = rw named refl

get_hit :
    (e : Extension) (p : TransportPool) (entry : TransportEntry)
    → is_none e ≡ false
    → find e p.entries ≡ some entry
    → get e p ≡ (
      entry.transport,
      record p { clock = p.clock + 1; entries = touch e (p.clock + 1) p.entries },
    )
unfolding get
get_hit e p entry named f = rw (named, f) refl

if_false : (x y : Transport × TransportPool) (b : Bool) → b ≡ false → (if b then x else y) ≡ y
if_false x y b e = rw e refl

get_miss :
    (e : Extension) (p : TransportPool)
    → is_none e ≡ false
    → find e p.entries ≡ none
    → get e p ≡ added e (make_room (record p { clock = p.clock + 1 }))
unfolding get
get_miss e p named f =
    let missed : get e p ≡ (
        if is_none e
        then (p.default_transport, p)
        else added e (make_room (record p { clock = p.clock + 1 }))) =
      rw (f, get) refl in
    missed ∙ if_false _ _ (is_none e) named

-- A second request gets what the first got.
get-get : (e : Extension) (p : TransportPool) → (get e ((get e p).1)).0 ≡ (get e p).0
get-get e p = elim (Bool-cases (is_none e)) [
  | inl named ↦ ap (λ r. (get e (r.1)).0) (get_named e p named)
  | inr named ↦ elim (Option-cases (find e p.entries)) [
    | inr (entry, f) ↦
        let first = get_hit e p entry named f in
        let q : TransportPool = record p {
          clock = p.clock + 1;
          entries = touch e (p.clock + 1) p.entries;
        } in
        let again =
          get_hit e q (record entry { last_used = p.clock + 1 }) named
            (find-touch e (p.clock + 1) p.entries entry f) in
        same_as first again
    | inl f ↦
        let first = get_miss e p named f in
        let room = make_room (record p { clock = p.clock + 1 }) in
        let t = (added e room).0 in
        let there : find e ((added e room).1).entries
            ≡ some (record { transport = t; last_used = room.clock }) =
          unfold find in rw (extension_eq_refl e) refl in
        let again =
          get_hit e ((added e room).1) (record { transport = t; last_used = room.clock }) named
            there in
        same_as first again
  ]
]
  where
    same_as :
        {t : Transport} {q r : TransportPool}
        → get e p ≡ (t, q)
        → get e q ≡ (t, r)
        → (get e ((get e p).1)).0 ≡ (get e p).0
    same_as {t = t} {q = q} {r = r} first again =
        ap (λ x. (get e (x.1)).0) first ∙ ap (λ x. x.0) again ∙ sym (ap (λ x. x.0) first)

-- The pool after requests, the last of them first.
unfoldable pub pool_after : List Extension → TransportPool
unfolding new_transport_pool get
pool_after [] = new_transport_pool
pool_after (e ∷ es) = (get e (pool_after es)).1

pool_after-IsPool : (es : List Extension) → IsPool (pool_after es)
unfolding pool_after new_transport_pool
pool_after-IsPool [] = record { few = omega arith; keyed = tt; distinct = tt }
pool_after-IsPool (e ∷ es) = get-IsPool e (pool_after es) (pool_after-IsPool es)

-- After any requests, a request that names an extension gets a transport that dials with exactly
-- that extension, and the next request with it gets the same; and the pool never keeps more than
-- 128 transports beside the default one.
pub get-sticky :
    (es : List Extension) (e : Extension)
    → is_none e ≡ false
    → let (t, q) = get e (pool_after es) in
      (t.extension ≡ e) × ((get e q).0 ≡ t) × (length q.entries ≤ max_transport_entries)
get-sticky es e named =
    let p = pool_after es in
    let v = pool_after-IsPool es in
    let w = get-IsPool e p v in (get-extension e p v named, get-get e p, w.few)

-- A request that names a new extension, on a full pool as requests leave it (128 entries, no two for
-- one extension, each with a transport that dials with it): one entry, which was not used later than
-- any other, leaves the pool, and its idle connections are closed; the new extension has the entry
-- of its transport; every other extension keeps its own, and the size is as before.
pub get-evicts :
    (e k : Extension) (p : TransportPool)
    → IsPool p
    → is_none e ≡ false
    → find e p.entries ≡ none
    → max_transport_entries ≤ length p.entries
    → let (t, q) = get e p in
      (y : Extension × TransportEntry) × In y p.entries
      × All (NotOlder y) p.entries
      × (q.closed ≡ (y.1).transport ∷ p.closed)
      × (find (y.0) q.entries ≡ none)
      × (find e q.entries ≡ some (record { transport = t; last_used = p.clock + 1 }))
      × ((find k q.entries ≡ find k p.entries) ⊎ ((y.0 ≡ k) ⊎ (e ≡ k)))
      × (length q.entries ≡ length p.entries)
get-evicts e k p v named f full =
    let ticked = record p { clock = p.clock + 1 } in
    let (y, inside, least, gone) = make_room-full ticked full in
    let missed = get_miss e p named f ∙ ap (added e) gone in
    let absent = find-In e y p.entries f inside in
    rw missed (
      y,
      inside,
      least,
      refl,
      unfold find in rw absent (find-removed (y.0) p.entries v.distinct),
      unfold find in rw (extension_eq_refl e) refl,
      elim (Bool-cases (extension_eq (y.0) k)) [
        | inl same ↦ inr (inl (extension_eq_sound (y.0) k same))
        | inr other ↦ elim (Bool-cases (extension_eq e k)) [
          | inl same ↦ inr (inr (extension_eq_sound e k same))
          | inr different ↦ inl (unfold find in rw different (find-remove (y.0) k p.entries other))
        ]
      ],
      length-remove y p.entries inside,
    )
