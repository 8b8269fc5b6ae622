-- ===== src/Socks/Inbound.antt =====
-- internal/server/socks/server.go: the datagrams of a client on their way to their targets, one
-- batch of the inbound socket at a time. What the sends of a batch give is a parameter; the errors
-- that they report to the channel of the association are left out, since nothing reads it.
pub mod Owners
pub mod Release
pub mod Counts
pub mod Delivery
use outway.Base.{
  ℕ, zero, suc, ◌+◌, ◌-◌, ◌≡◌, List, [], ◌∷◌, ◌++◌, Option, none, some, Bool, true, false, not,
  ◌&&◌, ◌||◌, ◌==◌, ltb, if◌then◌else◌, length, take, drop, is_some,
}
use outway.Net.{Addr, AddrPort, is4, unmap}
use outway.Wire.{Result, ok, err}
use outway.Proto.Address.{Address, socket, domain}
use outway.Proto.Udp.{UdpHeader, parse_udp_header}
use outway.Connect.Dns.{Cache, lookup_cached}
use outway.Connect.Relay.{lookup_cached_host}
use outway.Socks.Relay.{is_authorized, target_for_family}
use outway.Socks.Gso.{WritePacket, gso_eligible}
use outway.Socks.Runtime.{Runtime, Metrics, Job, dispatch, release_buffer}

-- A pooled buffer is `buffer`, its bytes, and `owner`, its name.
pub record ReadPacket : Type 0 where
  pub buffer : List ℕ
  pub owner : ℕ
  pub n : ℕ
  pub addr : AddrPort
  pub truncated : Bool
  pub batch_slot : Bool

pub record InboundPacket : Type 0 where
  pub payload : List ℕ
  pub owner : ℕ
  pub frag : ℕ
  pub dst : Address
  pub src : AddrPort
  pub batch_slot : Bool

-- What the closures of `handleUDP` share and do not change: the authorized sender, the families of
-- the two outbound sockets (none for a fallback that is not there), and what the DNS cache holds
-- while a batch is handled. `parse_addr` is `netip.ParseAddr`, an argument.
pub record Association : Type 0 where
  pub id : ℕ
  pub source : Addr
  pub preferred_v4 : Bool
  pub fallback_v4 : Option Bool
  pub gso : Bool
  pub parse_addr : List ℕ → Option Addr
  pub cache : Cache
  pub now : ℕ

-- What they share and change.
pub record Pump : Type 0 where
  pub runtime : Runtime
  pub source_port : ℕ
  pub last_activity : ℕ
  pub preferred : List WritePacket
  pub fallback : List WritePacket
  pub in_packets : ℕ
  pub in_bytes : ℕ

abbrev same_family : Bool → Bool → Bool
same_family true b = b
same_family false b = not b

-- Whether there is a fallback socket of the family.
abbrev pub on_fallback : Option Bool → Bool → Bool
on_fallback none v4 = false
on_fallback (some f) v4 = same_family f v4

-- `connect.LookupCachedHost` on the names of the association's moment.
unfoldable pub resolved_host : Association → List ℕ → Option (List Addr)
unfolding lookup_cached_host lookup_cached
resolved_host a name =
    lookup_cached_host a.parse_addr (λ host. lookup_cached host a.now a.cache) name

-- `cachedTargetForFamily`.
unfoldable pub cached_target_for_family : Association → List ℕ → ℕ → Option AddrPort
unfolding resolved_host
cached_target_for_family a name port = elim (resolved_host a name) [
  | none ↦ none
  | some addrs ↦ elim a.fallback_v4 [
    | none ↦ target_for_family addrs port a.preferred_v4 false false
    | some f ↦ target_for_family addrs port a.preferred_v4 true f
  ]
]

-- Where a datagram for `dst` goes; none for a domain that is still to be resolved.
unfoldable pub target_of : Association → Address → Option AddrPort
target_of a (socket ap) = some (record { addr = unmap ap.addr; port = ap.port })
target_of a (domain name port) = cached_target_for_family a name port

unfoldable pub job_of : Association → InboundPacket → Job
job_of a pkt = record { association = a.id; owner = pkt.owner; batch_slot = pkt.batch_slot }

abbrev pub refused : InboundPacket → Bool × Runtime → Runtime
refused pkt (true, r) = r
refused pkt (false, r) = release_buffer pkt.owner pkt.batch_slot r

abbrev pub write_of : InboundPacket → AddrPort → WritePacket
write_of pkt target = record {
  buffer = pkt.payload;
  owner = pkt.owner;
  addr = target;
  batch_slot = pkt.batch_slot;
}

-- The part of `processInbound` from the resolved target on.
unfoldable pub forward : Association → InboundPacket → Option AddrPort → Pump → Pump
unfolding job_of
forward a pkt none p = record p { runtime = refused pkt (dispatch (job_of a pkt) p.runtime) }
forward a pkt (some target) p =
    let v4 = is4 target.addr in
    if not (same_family a.preferred_v4 v4) && on_fallback a.fallback_v4 v4
    then record p { fallback = p.fallback ++ write_of pkt target ∷ [] }
    else record p { preferred = p.preferred ++ write_of pkt target ∷ [] }

unfoldable pub process_inbound : Association → InboundPacket → Pump → Bool × Pump
unfolding target_of forward
process_inbound a pkt p =
    let r = release_buffer pkt.owner pkt.batch_slot p.runtime in
    let fragment = record p {
      runtime = record r {
        metrics = record r.metrics { fragment_drops = r.metrics.fragment_drops + 1 };
      };
    } in
    let unauthorized = record p {
      runtime = record r {
        metrics = record r.metrics { unauthorized_drops = r.metrics.unauthorized_drops + 1 };
      };
    } in
    let counted = record p {
      source_port = pkt.src.port;
      in_packets = p.in_packets + 1;
      in_bytes = p.in_bytes + length pkt.payload;
    } in
    if not (pkt.frag == 0)
    then (false, fragment)
    else if not (is_authorized pkt.src a.source)
    then (false, unauthorized)
    else (true, forward a pkt (target_of a pkt.dst) counted)

-- The packet that a parsed header leaves: the payload is what lies between the header and the end
-- of the datagram.
abbrev pub inbound_of : ReadPacket → UdpHeader → ℕ → InboundPacket
inbound_of packet hdr hlen = record {
  payload = take (packet.n - hlen) (drop hlen packet.buffer);
  owner = packet.owner;
  frag = hdr.frag;
  dst = hdr.address;
  src = packet.addr;
  batch_slot = packet.batch_slot;
}

abbrev pub process_parsed : Association → ReadPacket → Result (UdpHeader × ℕ) → Pump → Bool × Pump
process_parsed a packet (ok (hdr, hlen)) p = process_inbound a (inbound_of packet hdr hlen) p
process_parsed a packet (err e) p =
    let r = release_buffer packet.owner packet.batch_slot p.runtime in
    (
      false,
      record p {
        runtime = record r {
          metrics = record r.metrics { malformed_drops = r.metrics.malformed_drops + 1 };
        };
      },
    )

-- The body of the loop of `inboundPump`; true where the packet counts as activity.
unfoldable pub receive : Association → ReadPacket → Pump → Bool × Pump
unfolding process_inbound
receive a packet p =
    let r = release_buffer packet.owner packet.batch_slot p.runtime in
    let truncated = record p {
      runtime = record r {
        metrics = record r.metrics { truncated_drops = r.metrics.truncated_drops + 1 };
      };
    } in
    if packet.truncated
    then (false, truncated)
    else process_parsed a packet (parse_udp_header (take packet.n packet.buffer)) p

unfoldable pub receive_all : Association → List ReadPacket → Pump → Bool × Pump
unfolding receive
receive_all a [] p = (false, p)
receive_all a (packet ∷ rest) p =
    let first = receive a packet p in
    let others = receive_all a rest (first.1) in (first.0 || others.0, others.1)

abbrev pub release_all : List WritePacket → Runtime → Runtime
release_all [] r = r
release_all (w ∷ ws) r = release_all ws (release_buffer w.owner w.batch_slot r)

-- What a socket does with a batch: with the segment size of a GSO send, or none for `Write`. It
-- gives the number of packets written and whether there was an error.
abbrev pub Send : Type 0
Send = Option ℕ → List WritePacket → ℕ × Bool

unfoldable pub flush_batch : Bool → Send → List WritePacket → Runtime → Runtime
flush_batch gso send [] r = r
flush_batch gso send (w ∷ ws) r =
    let result = send (gso_eligible gso (w ∷ ws)) (w ∷ ws) in
    let released = release_all (w ∷ ws) r in
    let failed = record released {
      metrics = record released.metrics { errors = released.metrics.errors + 1 };
    } in
    if result.1 || not (result.0 == length (w ∷ ws)) then failed else released

-- What `Read` gives: the packets of a batch, or an error, which is quiet where the association or
-- the socket is closed.
pub data Batch : Type 0 where
  packets : List ReadPacket → Batch
  failed : Bool → Batch

-- The end of `inboundPump`: the counts of the batch are added, and both batches are sent.
unfoldable pub finish : Association → Send → Send → Bool → ℕ → Pump → Pump
unfolding flush_batch
finish a send_preferred send_fallback active now p =
    let m = p.runtime.metrics in
    let counted = record p.runtime {
      metrics = record m {
        in_packets = m.in_packets + p.in_packets;
        in_bytes = m.in_bytes + p.in_bytes;
      };
    } in
    let first = flush_batch a.gso send_preferred p.preferred counted in
    let second = flush_batch a.gso send_fallback p.fallback first in
    record p {
      runtime = if is_some a.fallback_v4 then second else first;
      preferred = [];
      fallback = if is_some a.fallback_v4 then [] else p.fallback;
      last_activity = if active then now else p.last_activity;
    }

unfoldable pub inbound_pump : Association → Send → Send → ℕ → Batch → Pump → Bool × Pump
unfolding receive_all finish
inbound_pump a send_preferred send_fallback now (failed quiet) p =
    let r = p.runtime in
    let counted = record r { metrics = record r.metrics { errors = r.metrics.errors + 1 } } in
    (false, record p { runtime = if quiet then r else counted })
inbound_pump a send_preferred send_fallback now (packets ps) p =
    let received = receive_all a ps (record p { in_packets = 0; in_bytes = 0 }) in
    (true, finish a send_preferred send_fallback (received.0) now (received.1))
