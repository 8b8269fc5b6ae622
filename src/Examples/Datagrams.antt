-- ===== src/Examples/Datagrams.antt =====
-- internal/server/socks: the runtime and the relay of datagrams.
use outway.Base.{
  ℕ, suc, ◌+◌, ◌-◌, ◌≤◌, ◌<◌, ◌≡◌, ◌≢◌, refl, arith, List, [], ◌∷◌, ◌++◌, Option, none, some, Bool,
  true, false, if◌then◌else◌, ◌==◌, All, length, take, drop, replicate,
}
use outway.Net.{v4, AddrPort}
use outway.Wire.{ok}
use outway.Proto.Address.{socket}
use outway.Proto.Udp.{UdpHeader, len, udp_header_max_len, build_udp_packet, parse_udp_header}
use outway.Config.{default_udp_config}
use outway.Connect.Dns.{new_dns_cache}
use outway.Socks.Relay.{is_authorized}
use outway.Socks.Gso.{WritePacket, gso_eligible, buffers, super_datagram}
use outway.Socks.Runtime.{Runtime, size_of, new_udp_runtime, normalize_udp_config}
use outway.Socks.Runtime.Steps.{
  System, new_system, enter, claim, recheck, test_lifetime, send, claim_slot, recheck_lifetime,
  send_job, step, fresh, after,
}
use outway.Socks.Runtime.Bounds.{IsBudget, IsQueues, waiting_in}
use outway.Socks.Runtime.Limits.{Reachable-Limits}
use outway.Socks.Inbound.{
  ReadPacket, Association, Pump, Send, packets, inbound_pump, receive, target_of,
}
use outway.Socks.Inbound.Owners.{in_runtime, in_batch}
use outway.Socks.Inbound.Release.{inbound_pump-owners}
use outway.Socks.Inbound.Delivery.{Joined, receive-build_udp_packet}
use outway.Socks.Responder.{prepare_udp_response, unmapped, collect}
use outway.Socks.Responder.Headers.{parse_udp_header-prepare}
use outway.Socks.Writer.{Sendmsg, send_udp_gso, WriteBatch, write}
use outway.Socks.Writer.Sends.{received, Allowed, send_udp_gso-received}
use outway.Socks.Reader.{Buffer, Message, message, again, Drain, read_gro, read_batch}
use outway.Socks.Reader.Split.{payloads}
use outway.Socks.Reader.Slots.{slots_in, in_pooled, extra_taken, read_batch-slots}
use outway.Socks.Reader.Coalesced.{read_gro-super_datagram, read_gro-overflow}
use outway.Socks.Runtime.{Job}
use outway.Socks.Runtime.Order.{jobs_of, waiting}
use outway.Socks.Runtime.Fifo.{Log, accepted_by, untouched, followed, Logged-InOrder}

abbrev start : Runtime
start = new_udp_runtime default_udp_config 16 4

abbrev idle : System
idle = new_system start

abbrev one_entering : System
one_entering = record idle { entering = 1 }

idle_entering : step enter idle ≡ some one_entering
unfolding step new_system new_udp_runtime
idle_entering = refl

-- An association that has passed both tests of the lifetime.
abbrev one_claimed : System
one_claimed = claim_slot one_entering

one_claims : step claim one_entering ≡ some one_claimed
unfolding step new_system new_udp_runtime
one_claims = refl

abbrev one_admitted : System
one_admitted = recheck_lifetime one_claimed

one_rechecks : step recheck one_claimed ≡ some one_admitted
unfolding step new_system new_udp_runtime
one_rechecks = refl

some_queue : 1 ≤ size_of (normalize_udp_config default_udp_config).send_queue_size
unfolding normalize_udp_config
some_queue = omega arith

Reachable-Limits_example :
    let size = size_of (normalize_udp_config default_udp_config).send_queue_size in
    let r = one_admitted.runtime in
    let active = r.metrics.active_associations in
    let depth = r.metrics.queue_depth in
    (r.association_slots ≤ (if 0 == 0 then 16 else 0))
    × (one_admitted.counted + one_admitted.numbering + one_admitted.running ≤ r.association_slots)
    × (active.added
        ≡ active.taken + one_admitted.counted + one_admitted.numbering + one_admitted.running
          + one_admitted.leaving)
    × IsBudget r.batch_slots r.batch_held
    × IsQueues size r.shards
    × (depth.added + one_admitted.posted
        ≡ depth.taken + length one_admitted.received + waiting_in r.shards)
    × (waiting_in r.shards ≤ size)
Reachable-Limits_example =
    Reachable-Limits default_udp_config 16 4 one_admitted some_queue
      (after recheck (after claim (after enter fresh idle_entering) one_claims) one_rechecks)

abbrev client_at : AddrPort
client_at = record { addr = v4 0x0a000001; port = 4000 }

abbrev resolver : AddrPort
resolver = record { addr = v4 0x08080808; port = 53 }

abbrev query : ReadPacket
query = record {
  buffer = 0 ∷ 0 ∷ 0 ∷ 1 ∷ 8 ∷ 8 ∷ 8 ∷ 8 ∷ 0 ∷ 53 ∷ 7 ∷ [];
  owner = 5;
  n = 11;
  addr = client_at;
  truncated = false;
  batch_slot = false;
}

abbrev one_client : Association
one_client = record {
  id = 1;
  source = v4 0x0a000001;
  preferred_v4 = true;
  fallback_v4 = none;
  gso = false;
  parse_addr = λ s. none;
  cache = new_dns_cache 0 0 1 1;
  now = 0;
}

abbrev resting : Pump
resting = record {
  runtime = start;
  source_port = 0;
  last_activity = 0;
  preferred = [];
  fallback = [];
  in_packets = 0;
  in_bytes = 0;
}

abbrev all_sent : Send
all_sent size ws = (length ws, false)

abbrev pumped : Pump
pumped = (inbound_pump one_client all_sent all_sent 9 (packets (query ∷ [])) resting).1

inbound_pump-owners_example :
    (pumped.preferred ≡ [])
    × (pumped.fallback ≡ [])
    × (in_runtime 5 pumped.runtime
        ≡ in_runtime 5 resting.runtime + in_batch 5 (packets (query ∷ [])))
inbound_pump-owners_example =
    inbound_pump-owners one_client all_sent all_sent 9 (packets (query ∷ [])) resting 5 refl refl

query_bytes : take 11 query.buffer ≡ build_udp_packet 0 (socket resolver) (7 ∷ [])
unfolding build_udp_packet outway.Proto.Udp.inline_address outway.Base.be_bytes
query_bytes = refl

query_sender : is_authorized client_at (v4 0x0a000001) ≡ true
unfolding is_authorized
query_sender = refl

query_target : target_of one_client (socket resolver) ≡ some resolver
unfolding target_of
query_target = refl

receive-build_udp_packet_example :
    ((receive one_client query resting).0 ≡ true)
    × Joined one_client
        (record { buffer = 7 ∷ []; owner = 5; addr = resolver; batch_slot = false })
        resting
        ((receive one_client query resting).1)
receive-build_udp_packet_example =
    receive-build_udp_packet one_client query resting (socket resolver) (7 ∷ []) resolver refl
      query_bytes (omega arith) query_sender query_target

abbrev to_resolver : List ℕ → WritePacket
to_resolver bs = record { buffer = bs; owner = 1; addr = resolver; batch_slot = false }

abbrev pair : List WritePacket
pair = to_resolver (1 ∷ 2 ∷ []) ∷ to_resolver (3 ∷ 4 ∷ []) ∷ []

pair_eligible : gso_eligible true pair ≡ some 2
unfolding gso_eligible
pair_eligible = refl

abbrev taken : Sendmsg → Option ℕ
taken c = none

send_udp_gso-received_example :
    ((send_udp_gso taken pair 2).sent ≡ 2)
    × ((send_udp_gso taken pair 2).error ≡ none)
    × (received (send_udp_gso taken pair 2).calls ≡ buffers pair)
    × All Allowed (send_udp_gso taken pair 2).calls
send_udp_gso-received_example =
    send_udp_gso-received taken true (to_resolver (1 ∷ 2 ∷ [])) (to_resolver (3 ∷ 4 ∷ []) ∷ []) 2
      (λ c. refl) pair_eligible (omega arith) (omega arith) (λ e. cc e)

abbrev room : List ℕ
room = replicate udp_header_max_len 0

abbrev spare : ℕ → Buffer
spare i = record { owner = i; bytes = replicate 280 0 }

-- A coalesced read of two datagrams, behind the room for a header.
abbrev two_read : Message
two_read = record { bytes = room ++ super_datagram pair; n = 4; cut = false; addr = resolver }

read_gro-super_datagram_example :
    (ps : List ReadPacket) × ((read_gro udp_header_max_len 1500 spare (message two_read 2) start).0
      ≡ packets ps)
    × (payloads udp_header_max_len ps ≡ buffers pair)
read_gro-super_datagram_example =
    read_gro-super_datagram udp_header_max_len 1500 2 spare two_read start true pair refl
      (omega arith) (omega arith) (λ i. omega arith) (omega arith) pair_eligible (omega arith)
      (omega arith) refl

abbrev takes_all : WriteBatch
takes_all ws = (length ws, false)

read_gro-overflow_example :
    (ps : List ReadPacket) × ((read_gro udp_header_max_len 1500 spare (message two_read 2) start).0
      ≡ packets ps)
    × (write takes_all 1 ((collect client_at ps start).0).writes ≡ none)
read_gro-overflow_example =
    read_gro-overflow 1500 2 1 spare two_read start start client_at takes_all refl (omega arith)
      (omega arith) (omega arith) (λ i. omega arith) (omega arith) (omega arith) (omega arith)

abbrev nothing_more : ℕ → Drain
nothing_more n = again

read_batch-slots_example :
    (extra_taken 32 false (message two_read 0) start < 32)
    × (in_runtime 0 ((read_batch 32 false 1500 spare (message two_read 0) nothing_more start).2)
          + in_batch 0 ((read_batch 32 false 1500 spare (message two_read 0) nothing_more start).0)
        ≡ in_runtime 0 start
          + in_pooled 0 spare 0 (suc (extra_taken 32 false (message two_read 0) start)))
    × (((read_batch 32 false 1500 spare (message two_read 0) nothing_more start).2).batch_held
        ≡ start.batch_held
          + slots_in ((read_batch 32 false 1500 spare (message two_read 0) nothing_more start).0))
read_batch-slots_example =
    read_batch-slots 32 false 1500 spare (message two_read 0) nothing_more start 0 (omega arith)
      (λ n ms h. absurd (cc h))

abbrev answer : ReadPacket
answer = record {
  buffer = room ++ 1 ∷ 2 ∷ [];
  owner = 6;
  n = 2;
  addr = resolver;
  truncated = false;
  batch_slot = false;
}

parse_udp_header-prepare_example :
    let h : UdpHeader = record { frag = 0; address = socket (unmapped resolver) } in
    let payload = take 2 (drop udp_header_max_len answer.buffer) in
    let prepared = prepare_udp_response payload answer.buffer resolver in
    (parse_udp_header prepared ≡ ok (h, len h)) × (drop (len h) prepared ≡ payload)
parse_udp_header-prepare_example =
    parse_udp_header-prepare answer.buffer 2 resolver (omega arith) (omega arith, omega arith)

abbrev lookup : Job
lookup = record { association = 3; owner = 8; batch_slot = false }

abbrev one_dispatching : System
one_dispatching = record idle { dispatching = 1 }

lifetime_tested : step test_lifetime idle ≡ some one_dispatching
unfolding step new_system new_udp_runtime
lifetime_tested = refl

abbrev one_queued : Log
one_queued = record {
  system = send_job lookup one_dispatching;
  accepted = ([] ++ []) ++ accepted_by (send lookup) one_dispatching;
  sent = ([] ++ []) ++ [];
}

queued_one : step (send lookup) one_dispatching ≡ some (send_job lookup one_dispatching)
unfolding step new_system
queued_one = refl

Logged-InOrder_example :
    jobs_of 3 one_queued.accepted
    ≡ jobs_of 3 one_queued.sent ++ waiting 3 one_queued.system.runtime.shards
Logged-InOrder_example =
    Logged-InOrder default_udp_config 16 4 one_queued 3
      (followed (send lookup) (followed test_lifetime untouched lifetime_tested) queued_one)
