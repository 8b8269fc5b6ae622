-- ===== src/Connect/Dns/Flight.antt =====
-- What holds of every cache that lookups can reach: its bounds, and one resolution for a name.
use outway.Base.{
  ℕ, ◌+◌, ◌-◌, ◌≤◌, ◌≡◌, refl, ap, arith, ◌∙◌, List, [], ◌∷◌, length, map, length-append,
  length-set,
}
use outway.Base.{
  Bool, false, Bool-cases, ltb_cases, inl, inr, Option, none, some, Option-cases, if◌then◌else◌,
  ltb,
}
use outway.Base.{lookup_key, delete_key, length-delete}
use mathlib.Core.Path.{subst}
use outway.Connect.Dns.{
  Cache, Answer, Leader, Stage, queued, looking, resolved, gave_up, Event, enter, acquire, give_up,
  answered, finish, find_call, set_stage, remove_call, join_or_lead, slow_path, normalize_dns_name,
  acquire_step, give_up_step, answered_step, finish_step, finish_with, cancelled, leading, step,
  Reachable, fresh, after, new_dns_cache,
}
use outway.Connect.Dns.Bounds.{length-store}
use outway.Connect.Dns.Leaders.{
  Distinct, Descending, running, tag, is_looking, Distinct-delete, Descending-delete,
  tags-set_stage, running-set_stage, running-remove_call, find_call_named, remove_agrees,
}

-- The invariant: the in-flight map lists the leaders, each name once, with calls numbered
-- downwards; the slots count the running resolver calls; the bounds hold.
abbrev pub IsCache : ℕ → ℕ → Cache → Type 0
IsCache size slots c =
    (map tag c.leaders ≡ c.inflight)
    × Distinct c.inflight
    × Descending (length c.calls) c.inflight
    × (running c.leaders ≡ c.slots)
    × (c.slots ≤ slots)
    × (length c.entries ≤ size)
    × (c.max_entries ≡ size)
    × (c.max_concurrent ≡ slots)

module _ (size slots : ℕ) where
  restage-IsCache :
      (c : Cache) (call used : ℕ) (s : Stage) (l : Leader)
      → IsCache size slots c
      → find_call call c.leaders ≡ some l
      → running c.leaders + is_looking s ≡ used + is_looking l.stage
      → used ≤ slots
      → IsCache size slots (record c { slots = used; leaders = set_stage call s c.leaders })
  restage-IsCache c call used s l v h count room = (
    tags-set_stage call s c.leaders ∙ v.0,
    v.1,
    v.2,
    omega (arith, running-set_stage call s c.leaders l h, count),
    room,
    v.5,
    v.6,
    v.7,
  )

  join_or_lead-IsCache :
      (key : List ℕ) (now : ℕ) (c : Cache)
      → IsCache size slots c
      → IsCache size slots ((join_or_lead key now c).1)
  unfolding join_or_lead
  join_or_lead-IsCache key now c v = elim (Option-cases (lookup_key key c.inflight)) [
    | inr (call, e) ↦ rw (e, join_or_lead) v
    | inl e ↦
        rw (e, join_or_lead)
          (
            ap (◌∷◌ (key, length c.calls)) (v.0),
            (e, v.1),
            (omega (arith, length-append c.calls (none ∷ [])), v.2),
            omega (arith, v.3),
            v.4,
            v.5,
            v.6,
            v.7,
          )
  ]

  slow_path-IsCache :
      (key : List ℕ) (now : ℕ) (c : Cache)
      → IsCache size slots c
      → IsCache size slots ((slow_path key now c).1)
  unfolding slow_path
  slow_path-IsCache key now c v = elim (Option-cases (lookup_key key c.entries)) [
    | inl e ↦ rw (e, slow_path) (join_or_lead-IsCache key now c v)
    | inr (entry, e) ↦
        rw (e, slow_path)
          (elim (Bool-cases (ltb now entry.expires_at)) [
            | inl f ↦ rw f v
            | inr f ↦
                let d = record c { entries = delete_key key c.entries } in
                rw f (
                  join_or_lead-IsCache key now d (
                    v.0,
                    v.1,
                    v.2,
                    v.3,
                    v.4,
                    omega (arith, length-delete key c.entries, v.5),
                    v.6,
                    v.7,
                  ))
          ])
  ]

  finish_with-IsCache :
      (now : ℕ) (live : Bool) (pick : ℕ) (l : Leader) (a : Answer) (c : Cache)
      → IsCache size slots c
      → find_call l.call c.leaders ≡ some l
      → is_looking l.stage ≡ 0
      → IsCache size slots (finish_with now live pick l a c)
  unfolding finish_with
  finish_with-IsCache now live pick l a c v h idle =
      let distinct : Distinct (map tag c.leaders) = rw (v.0) (v.1) in
      let room : length c.entries ≤ c.max_entries = rw (v.6) (v.5) in
      (
        remove_agrees l.call c.leaders l distinct h ∙ ap (delete_key l.key) (v.0),
        Distinct-delete l.key c.inflight (v.1),
        rw (length-set c.calls l.call (some a))
            (Descending-delete (length c.calls) l.key c.inflight (v.2)),
        omega (arith, running-remove_call l.call c.leaders l h, idle, v.3),
        v.4,
        omega (arith, length-store l.key l.started now pick live a c room, v.6),
        v.6,
        v.7,
      )

  -- A leader that an event names, found, with what the event does to it.
  leading-IsCache :
      (call : ℕ) (f : Leader → Cache → Option Cache) (c d : Cache)
      → ((l : Leader) → find_call l.call c.leaders ≡ some l → f l c ≡ some d → IsCache size slots d)
      → leading call f c ≡ some d
      → IsCache size slots d
  leading-IsCache call f c d each h = elim (Option-cases (find_call call c.leaders)) [
    | inl e ↦ ground arith
    | inr (l, e) ↦
        let named = find_call_named call c.leaders l e in
        each l (ap (λ (n : ℕ). find_call n c.leaders) named ∙ e) (ground arith)
  ]

  acquire-IsCache :
      (c d : Cache) (l : Leader) (s : Stage)
      → IsCache size slots c
      → find_call l.call c.leaders ≡ some l
      → l.stage ≡ s
      → acquire_step l c ≡ some d
      → IsCache size slots d
  unfolding acquire_step
  acquire-IsCache c d l queued v h e q = elim (ltb_cases c.slots c.max_concurrent) [
    | inr (f, _) ↦ ground arith
    | inl (f, room) ↦
        let next : record c { slots = c.slots + 1; leaders = set_stage l.call looking c.leaders }
            ≡ d =
          ground arith in
        subst (IsCache size slots) next (
          restage-IsCache c l.call (c.slots + 1) looking l v h (rw e (omega (arith, v.3)))
            (omega (arith, v.7)))
  ]
  acquire-IsCache c d l looking v h e q = ground arith
  acquire-IsCache c d l (resolved a) v h e q = ground arith
  acquire-IsCache c d l gave_up v h e q = ground arith

  give_up-IsCache :
      (c d : Cache) (l : Leader) (s : Stage)
      → IsCache size slots c
      → find_call l.call c.leaders ≡ some l
      → l.stage ≡ s
      → give_up_step l c ≡ some d
      → IsCache size slots d
  unfolding give_up_step
  give_up-IsCache c d l queued v h e q =
      let next : record c { leaders = set_stage l.call gave_up c.leaders } ≡ d = ground arith in
      subst (IsCache size slots) next
        (restage-IsCache c l.call c.slots gave_up l v h (rw e (omega (arith, v.3))) (v.4))
  give_up-IsCache c d l looking v h e q = ground arith
  give_up-IsCache c d l (resolved a) v h e q = ground arith
  give_up-IsCache c d l gave_up v h e q = ground arith

  answered-IsCache :
      (a : Answer) (c d : Cache) (l : Leader) (s : Stage)
      → IsCache size slots c
      → find_call l.call c.leaders ≡ some l
      → l.stage ≡ s
      → answered_step a l c ≡ some d
      → IsCache size slots d
  unfolding answered_step
  answered-IsCache a c d l looking v h e q =
      let busy : 1 ≤ running c.leaders = omega (
        arith,
        subst (λ t. running (remove_call l.call c.leaders) + is_looking t ≡ running c.leaders) e
            (running-remove_call l.call c.leaders l h),
      ) in
      let next : record c { slots = c.slots - 1; leaders = set_stage l.call (resolved a) c.leaders }
          ≡ d =
        ground arith in
      subst (IsCache size slots) next (
        restage-IsCache c l.call (c.slots - 1) (resolved a) l v h (rw e (omega (arith, v.3)))
          (omega (arith, v.4)))
  answered-IsCache a c d l queued v h e q = ground arith
  answered-IsCache a c d l (resolved b) v h e q = ground arith
  answered-IsCache a c d l gave_up v h e q = ground arith

  finish-IsCache :
      (now : ℕ) (live : Bool) (pick : ℕ) (c d : Cache) (l : Leader) (s : Stage)
      → IsCache size slots c
      → find_call l.call c.leaders ≡ some l
      → l.stage ≡ s
      → finish_step now live pick l c ≡ some d
      → IsCache size slots d
  unfolding finish_step
  finish-IsCache now live pick c d l (resolved a) v h e q =
      let next : finish_with now live pick l a c ≡ d = ground arith in
      subst (IsCache size slots) next (finish_with-IsCache now live pick l a c v h (rw e refl))
  finish-IsCache now live pick c d l gave_up v h e q =
      let none_found : Answer = record { addrs = []; err = some cancelled } in
      let next : finish_with now false pick l none_found c ≡ d = ground arith in
      subst (IsCache size slots) next
        (finish_with-IsCache now false pick l none_found c v h (rw e refl))
  finish-IsCache now live pick c d l queued v h e q = ground arith
  finish-IsCache now live pick c d l looking v h e q = ground arith

  step-IsCache :
      (e : Event) (c d : Cache) → IsCache size slots c → step e c ≡ some d → IsCache size slots d
  unfolding step
  step-IsCache (enter host now) c d v h =
      let next : (slow_path (normalize_dns_name host) now c).1 ≡ d = ground arith in
      subst (IsCache size slots) next (slow_path-IsCache (normalize_dns_name host) now c v)
  step-IsCache (acquire call) c d v h =
      leading-IsCache call acquire_step c d (λ l e q. acquire-IsCache c d l l.stage v e refl q) h
  step-IsCache (give_up call) c d v h =
      leading-IsCache call give_up_step c d (λ l e q. give_up-IsCache c d l l.stage v e refl q) h
  step-IsCache (answered call a) c d v h =
      leading-IsCache call (answered_step a) c d
        (λ l e q. answered-IsCache a c d l l.stage v e refl q) h
  step-IsCache (finish call now live pick) c d v h =
      leading-IsCache call (finish_step now live pick) c d
        (λ l e q. finish-IsCache now live pick c d l l.stage v e refl q) h

  Reachable-IsCache :
      (start c : Cache) → IsCache size slots start → Reachable start c → IsCache size slots c
  Reachable-IsCache start c v fresh = v
  Reachable-IsCache start d v (after {c = c} e r h) =
      step-IsCache e c d (Reachable-IsCache start c v r) h

-- In every cache that lookups can reach from a new one, by any interleaving of their critical
-- sections, slot waits, answers and evictions: the entries are at most `max_entries`; at most the
-- configured number of resolver calls run, where a number below one counts as one; and the
-- in-flight map has exactly the
-- names being resolved, each resolved by one goroutine.
pub Reachable_lem :
    (ttl negative_ttl max_entries max_concurrent : ℕ) (c : Cache)
    → Reachable (new_dns_cache ttl negative_ttl max_entries max_concurrent) c
    → (length c.entries ≤ max_entries)
      × (running c.leaders ≤ (if ltb max_concurrent 1 then 1 else max_concurrent))
      × (map tag c.leaders ≡ c.inflight)
      × Distinct c.inflight
unfolding new_dns_cache
Reachable_lem ttl negative_ttl max_entries max_concurrent c r =
    let slots = if ltb max_concurrent 1 then 1 else max_concurrent in
    let v =
      Reachable-IsCache max_entries slots
        (new_dns_cache ttl negative_ttl max_entries max_concurrent) c
        (refl, tt, tt, refl, omega arith, omega arith, refl, refl) r in
    (v.5, omega (arith, v.3, v.4), v.0, v.1)
