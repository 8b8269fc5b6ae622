-- ===== src/Examples/Names.antt =====
-- internal/connect: the cache of names, races of dials, and packets.
use outway.Base.{
  ℕ, suc, ◌+◌, ◌≤◌, ◌<◌, ◌≡◌, ◌⊎◌, ◌↔◌, refl, arith, List, [], ◌∷◌, ◌++◌, Option, none, some, Bool,
  true, false, codes, length, map, ltb, if◌then◌else◌, get_elem?, lookup_key, ◌||◌, is_some, inl,
  inr,
}
use outway.Net.{AddrPort, v4, v6}
use outway.Connect.Dns.{
  Cache, Answer, Leader, queued, new_dns_cache, normalize_dns_name, fast_path, slow_path, enter,
  step, fresh, after, finish_with, resolved,
}
use outway.Connect.Dns.Leaders.{Distinct, running, tag}
use outway.Connect.Dns.Flight.{Reachable_lem}
use outway.Connect.Dns.Hits.{lifetime, finish_with_lem}
use outway.Connect.Race.{Message, result, timer, err, run, race_step, failed, connect_any}
use outway.Connect.Race.Fallback.{errors, last_error, race-both_fail}
use outway.Connect.Race.Addresses.{Standing, connect_any-Standing}
use outway.Connect.Relay.{Outcome, send_packet}
use outway.Connect.Relay.Laws.{Sent, send_packet-Sent}

abbrev empty_cache : Cache
empty_cache = new_dns_cache 30 3 2 1

abbrev answer : Answer
answer = record { addrs = v4 0x01020304 ∷ []; err = none }

-- A lookup of a name, as its leader sees it.
abbrev leader : Leader
leader = record { call = 0; key = codes "a.org"; started = 5; stage = resolved answer }

abbrev asked : Cache
asked = record empty_cache {
  inflight = (codes "a.org", 0) ∷ [];
  calls = none ∷ [];
  leaders = (record leader { stage = queued }) ∷ [];
}

asked_reached : step (enter (codes "A.org.") 5) empty_cache ≡ some asked
unfolding step new_dns_cache normalize_dns_name slow_path lookup_key outway.Base.trim_last
asked_reached = refl

Reachable_lem_example :
    (length asked.entries ≤ 2)
    × (running asked.leaders ≤ (if ltb 1 1 then 1 else 1))
    × (map tag asked.leaders ≡ asked.inflight)
    × Distinct asked.inflight
Reachable_lem_example =
    Reachable_lem 30 3 2 1 asked (after (enter (codes "A.org.") 5) fresh asked_reached)

abbrev waiting : Cache
waiting = record {
  entries = [];
  inflight = (codes "a.org", 0) ∷ [];
  calls = none ∷ [];
  leaders = leader ∷ [];
  slots = 0;
  ttl = 30;
  negative_ttl = 3;
  max_entries = 2;
  max_concurrent = 1;
}

waiting-Distinct : Distinct waiting.inflight
unfolding lookup_key
waiting-Distinct = (refl, tt)

finish_with_lem_example :
    let d = finish_with 7 true 0 leader answer waiting in
    (fast_path (codes "a.org") 20 d
      ≡ (if ltb 20 (7 + lifetime answer waiting) then some answer else none))
    × (get_elem? d.calls 0 ≡ some (some answer))
    × (lookup_key (codes "a.org") d.inflight ≡ none)
finish_with_lem_example =
    finish_with_lem 7 0 20 leader answer waiting (omega arith) (omega arith) (omega arith)
      waiting-Distinct

abbrev two_failures : List Message
two_failures = timer ∷ result (err 4) ∷ result (err 6) ∷ []

race-both_fail_example :
    run race_step two_failures (record { fallback_started = false; failures = 0 })
    ≡ failed (last_error 0 two_failures)
race-both_fail_example = race-both_fail two_failures false tt refl

abbrev first : AddrPort
first = record { addr = v4 1; port = 80 }

abbrev second : AddrPort
second = record { addr = v6 1 []; port = 80 }

connect_any-Standing_example :
    Standing
      (length (first ∷ second ∷ []))
      (errors two_failures)
      (last_error 0 two_failures)
      (connect_any (first ∷ second ∷ []) (err 0) two_failures)
connect_any-Standing_example =
    connect_any-Standing first second [] (err 0) two_failures tt (omega arith)

abbrev only_fallback : ℕ → AddrPort → Outcome ℕ
only_fallback s a = if ltb s 1 then outway.Connect.Relay.err 5 else outway.Connect.Relay.ok 12

-- The context ends while the first address is tried.
abbrev ends_early : ℕ → Option ℕ
ends_early i = if ltb 0 i then some 7 else none

send_packet-Sent_example : Sent ends_early only_fallback 0 (some 1) 0 (first ∷ second ∷ []) (
    send_packet ends_early only_fallback 0 (some 1) (outway.Connect.Relay.ok (first ∷ second ∷ [])))
send_packet-Sent_example =
    send_packet-Sent ends_early only_fallback 0 (some 1) (first ∷ second ∷ [])
