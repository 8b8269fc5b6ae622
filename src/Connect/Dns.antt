-- ===== src/Connect/Dns.antt =====
-- internal/connect/dns_cache.go: the bounded cache of resolved names. Each critical section of a
-- lookup is one function on the cache, and a lookup is the sequence of those that its caller
-- runs; `leaders` are the goroutines that resolve a name, and `calls` the call objects that
-- others wait on, by number.
pub mod Bounds
pub mod Leaders
pub mod Flight
pub mod Hits
use outway.Base.{
  ℕ, suc, ◌+◌, ◌-◌, ◌%◌, List, [], ◌∷◌, ◌++◌, Option, none, some, Bool, true, false, not, ◌||◌,
}
use outway.Base.{
  if◌then◌else◌, ltb, leb, ◌==◌, length, set, take, drop, is_some, trim_last, to_lower,
}
use outway.Base.{Map, lookup_key, delete_key, put_key}
use outway.Net.{Addr}
use outway.Base.{◌≡◌}

pub data LookupError : Type 0 where
  cancelled : LookupError
  failed : ℕ → LookupError

pub record Answer : Type 0 where
  pub addrs : List Addr
  pub err : Option LookupError

pub record Entry : Type 0 where
  pub answer : Answer
  pub expires_at : ℕ

-- What a resolving goroutine is doing: it waits for a slot, runs the resolver, has its answer, or
-- gave up the wait when its context ended.
pub data Stage : Type 0 where
  queued looking gave_up : Stage
  resolved : Answer → Stage

-- `started` is the `now` of its `Lookup`.
pub record Leader : Type 0 where
  pub call : ℕ
  pub key : List ℕ
  pub started : ℕ
  pub stage : Stage

pub record Cache : Type 0 where
  pub entries : Map Entry
  pub inflight : Map ℕ
  pub calls : List (Option Answer)
  pub leaders : List Leader
  pub slots : ℕ
  pub ttl : ℕ
  pub negative_ttl : ℕ
  pub max_entries : ℕ
  pub max_concurrent : ℕ

unfoldable pub new_dns_cache : ℕ → ℕ → ℕ → ℕ → Cache
new_dns_cache ttl negative_ttl max_entries max_concurrent = record {
  entries = [];
  inflight = [];
  calls = [];
  leaders = [];
  slots = 0;
  ttl = ttl;
  negative_ttl = negative_ttl;
  max_entries = max_entries;
  max_concurrent = if ltb max_concurrent 1 then 1 else max_concurrent;
}

unfoldable pub normalize_dns_name : List ℕ → List ℕ
normalize_dns_name host = to_lower (trim_last 46 host)

abbrev pub is_empty : List Addr → Bool
is_empty [] = true
is_empty (a ∷ rest) = false

unfoldable pub lookup_cached : List ℕ → ℕ → Cache → Option (List Addr)
unfolding normalize_dns_name
lookup_cached host now c = elim (lookup_key (normalize_dns_name host) c.entries) [
  | none ↦ none
  | some e ↦
      if is_some e.answer.err || is_empty e.answer.addrs || not (ltb now e.expires_at)
      then none
      else some e.answer.addrs
]

-- The check under the read lock.
unfoldable pub fast_path : List ℕ → ℕ → Cache → Option Answer
fast_path key now c = elim (lookup_key key c.entries) [
  | none ↦ none
  | some e ↦ if ltb now e.expires_at then some e.answer else none
]

pub data Entered : Type 0 where
  hit : Answer → Entered
  joined : ℕ → Entered
  led : ℕ → Entered

unfoldable pub join_or_lead : List ℕ → ℕ → Cache → Entered × Cache
join_or_lead key now c = elim (lookup_key key c.inflight) [
  | some call ↦ (joined call, c)
  | none ↦ (
    led (length c.calls),
    record c {
      inflight = (key, length c.calls) ∷ c.inflight;
      calls = c.calls ++ none ∷ [];
      leaders =
          (record { call = length c.calls; key = key; started = now; stage = queued }) ∷ c.leaders;
    },
  )
]

-- The re-check under the write lock, up to the unlock: a hit, a call to wait on, or a call to lead.
unfoldable pub slow_path : List ℕ → ℕ → Cache → Entered × Cache
unfolding join_or_lead
slow_path key now c = elim (lookup_key key c.entries) [
  | none ↦ join_or_lead key now c
  | some e ↦
      if ltb now e.expires_at
      then (hit e.answer, c)
      else join_or_lead key now (record c { entries = delete_key key c.entries })
]

unfoldable pub live_entries : ℕ → Map Entry → Map Entry
live_entries now [] = []
live_entries now ((k, e) ∷ m) =
    let rest = live_entries now m in if ltb now e.expires_at then (k, e) ∷ rest else rest

-- The map iteration's first key is arbitrary: the one at `pick`, modulo the number of entries.
unfoldable pub drop_one : ℕ → Map Entry → Map Entry
drop_one pick [] = []
drop_one pick ((k, e) ∷ m) =
    let i = pick % suc (length m) in take i ((k, e) ∷ m) ++ drop (suc i) ((k, e) ∷ m)

unfoldable pub evict_locked : ℕ → ℕ → ℕ → Map Entry → Map Entry
unfolding live_entries drop_one
evict_locked max_entries pick now m =
    let live = live_entries now m in
    if ltb (length m) max_entries
    then m
    else if ltb (length live) max_entries
    then live
    else drop_one pick live

-- The entries after the leader has stored its answer, where it does.
unfoldable pub store : List ℕ → ℕ → ℕ → ℕ → Bool → Answer → Cache → Map Entry
unfolding evict_locked
store key started now pick live a c =
    let ttl = if is_some a.err then c.negative_ttl else c.ttl in
    if live
    then (if ltb 0 ttl
        then (if ltb 0 c.max_entries
            then put_key key (record { answer = a; expires_at = now + ttl })
                (evict_locked c.max_entries pick started c.entries)
            else c.entries)
        else c.entries)
    else c.entries

unfoldable pub find_call : ℕ → List Leader → Option Leader
find_call call [] = none
find_call call (l ∷ ls) = if l.call == call then some l else find_call call ls

unfoldable pub set_stage : ℕ → Stage → List Leader → List Leader
set_stage call s [] = []
set_stage call s (l ∷ ls) =
    if l.call == call then record l { stage = s } ∷ ls else l ∷ set_stage call s ls

unfoldable pub remove_call : ℕ → List Leader → List Leader
remove_call call [] = []
remove_call call (l ∷ ls) = if l.call == call then ls else l ∷ remove_call call ls

-- What happens to the cache: a lookup under the write lock, then for a leader a slot or a
-- cancelled wait for one, the resolver's answer, and the last critical section, with its time,
-- whether the context still lives, and the choice of a victim.
pub data Event : Type 0 where
  enter : List ℕ → ℕ → Event
  acquire : ℕ → Event
  give_up : ℕ → Event
  answered : ℕ → Answer → Event
  finish : ℕ → ℕ → Bool → ℕ → Event

unfoldable pub acquire_step : Leader → Cache → Option Cache
unfolding set_stage
acquire_step l c = elim l.stage [
  | queued ↦
      if ltb c.slots c.max_concurrent
      then some (record c { slots = c.slots + 1; leaders = set_stage l.call looking c.leaders })
      else none
  | looking ↦ none
  | resolved a ↦ none
  | gave_up ↦ none
]

unfoldable pub give_up_step : Leader → Cache → Option Cache
unfolding set_stage
give_up_step l c = elim l.stage [
  | queued ↦ some (record c { leaders = set_stage l.call gave_up c.leaders })
  | looking ↦ none
  | resolved a ↦ none
  | gave_up ↦ none
]

unfoldable pub answered_step : Answer → Leader → Cache → Option Cache
unfolding set_stage
answered_step a l c = elim l.stage [
  | queued ↦ none
  | looking ↦
      some (record c { slots = c.slots - 1; leaders = set_stage l.call (resolved a) c.leaders })
  | resolved b ↦ none
  | gave_up ↦ none
]

-- The last critical section. A leader that gave up finds its context ended.
unfoldable pub finish_with : ℕ → Bool → ℕ → Leader → Answer → Cache → Cache
unfolding store remove_call
finish_with now live pick l a c = record c {
  entries = store l.key l.started now pick live a c;
  inflight = delete_key l.key c.inflight;
  calls = set c.calls l.call (some a);
  leaders = remove_call l.call c.leaders;
}

unfoldable pub finish_step : ℕ → Bool → ℕ → Leader → Cache → Option Cache
unfolding finish_with
finish_step now live pick l c = elim l.stage [
  | queued ↦ none
  | looking ↦ none
  | resolved a ↦ some (finish_with now live pick l a c)
  | gave_up ↦ some (finish_with now false pick l (record { addrs = []; err = some cancelled }) c)
]

abbrev pub leading : ℕ → (Leader → Cache → Option Cache) → Cache → Option Cache
leading call f c = elim (find_call call c.leaders) [ none ↦ none | some l ↦ f l c ]

-- One step of the cache; `none` where the event cannot happen.
unfoldable pub step : Event → Cache → Option Cache
unfolding find_call slow_path normalize_dns_name acquire_step give_up_step answered_step finish_step
step (enter host now) c = some ((slow_path (normalize_dns_name host) now c).1)
step (acquire call) c = leading call acquire_step c
step (give_up call) c = leading call give_up_step c
step (answered call a) c = leading call (answered_step a) c
step (finish call now live pick) c = leading call (finish_step now live pick) c

-- The caches that a fresh one can become.
pub data Reachable (start : Cache) : Cache → Type 0 where
  fresh : Reachable start start
  after : {c d : Cache} (e : Event) → Reachable start c → step e c ≡ some d → Reachable start d
