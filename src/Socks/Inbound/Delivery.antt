-- ===== src/Socks/Inbound/Delivery.antt =====
-- A client's datagram reaches its target as it was sent.
use outway.Base.{
  ℕ, ◌+◌, ◌-◌, ◌≤◌, ◌≡◌, ◌⊎◌, refl, sym, ap, ◌∙◌, arith, List, [], ◌∷◌, ◌++◌, some, true, false,
  not, ◌&&◌, length, length-take, take, drop, drop-take_add, Bool-cases, inl, inr,
}
use outway.Net.{AddrPort, is4}
use outway.Wire.{ok}
use outway.Proto.Address.{Address, IsWire}
use outway.Proto.Udp.{UdpHeader, len, build_udp_packet, parse_udp_header}
use outway.Proto.Udp.RoundTrip.{parse_udp_header-build}
use outway.Socks.Relay.{is_authorized}
use outway.Socks.Gso.{WritePacket}
use outway.Socks.Inbound.{
  ReadPacket, InboundPacket, Association, Pump, same_family, on_fallback, target_of, write_of,
  forward, process_inbound, inbound_of, receive,
}

-- `w` joined one of the batches of `p`: the fallback's only where the preferred socket is of the
-- other family and the fallback socket of the target's.
abbrev pub Joined : Association → WritePacket → Pump → Pump → Type 0
Joined a w p q =
    let v4 = is4 w.addr.addr in
    ((q.preferred ≡ p.preferred ++ w ∷ [])
      × (q.fallback ≡ p.fallback)
      × ((not (same_family a.preferred_v4 v4) && on_fallback a.fallback_v4 v4) ≡ false))
    ⊎ ((q.fallback ≡ p.fallback ++ w ∷ [])
        × (q.preferred ≡ p.preferred)
        × ((not (same_family a.preferred_v4 v4) && on_fallback a.fallback_v4 v4) ≡ true))

forward-Joined :
    (a : Association) (pkt : InboundPacket) (t : AddrPort) (p : Pump)
    → Joined a (write_of pkt t) p (forward a pkt (some t) p)
unfolding forward
forward-Joined a pkt t p =
    elim (Bool-cases
      (not (same_family a.preferred_v4 (is4 t.addr)) && on_fallback a.fallback_v4 (is4 t.addr))) [
        | inl e ↦ inr (rw (e, forward) refl, rw (e, forward) refl, e)
        | inr e ↦ inl (rw (e, forward) refl, rw (e, forward) refl, e)
      ]

process-Joined :
    (a : Association) (pkt : InboundPacket) (t : AddrPort) (p : Pump)
    → pkt.frag ≡ 0
    → is_authorized pkt.src a.source ≡ true
    → target_of a pkt.dst ≡ some t
    → ((process_inbound a pkt p).0 ≡ true)
      × Joined a (write_of pkt t) p ((process_inbound a pkt p).1)
unfolding process_inbound
process-Joined a pkt t p h k e =
    rw (h, k, e, process_inbound)
      (
        refl,
        forward-Joined a pkt t (record p {
          source_port = pkt.src.port;
          in_packets = p.in_packets + 1;
          in_bytes = p.in_bytes + length pkt.payload;
        }),
      )

-- The payload lies in the buffer behind the header.
payload-inside :
    (buf payload : List ℕ) (n h : ℕ)
    → drop h (take n buf) ≡ payload
    → length (take n buf) ≡ h + length payload
    → take (n - h) (drop h buf) ≡ payload
payload-inside buf payload n h e size =
    let long : h ≤ n = omega (arith, size, length-take n buf) in
    let whole : h + (n - h) ≡ n = omega (arith, long) in
    sym (drop-take_add h (n - h) buf) ∙ ap (λ m. drop h (take m buf)) whole ∙ e

-- A datagram of fragment 0 built for an address that can go on the wire, not truncated and from the
-- authorized sender, whose target is known at once (an address, a domain that is an IP literal, or a
-- cached name, these two with an address for which there is a socket): it counts as activity, and it
-- joins the batch of the socket for that target, with the payload it was built with.
pub receive-build_udp_packet :
    (a : Association) (packet : ReadPacket) (p : Pump) (dst : Address) (payload : List ℕ)
    (t : AddrPort)
    → packet.truncated ≡ false
    → take packet.n packet.buffer ≡ build_udp_packet 0 dst payload
    → IsWire dst
    → is_authorized packet.addr a.source ≡ true
    → target_of a dst ≡ some t
    → let w : WritePacket = record {
      buffer = payload;
      owner = packet.owner;
      addr = t;
      batch_slot = packet.batch_slot;
    } in
      ((receive a packet p).0 ≡ true) × Joined a w p ((receive a packet p).1)
unfolding receive
receive-build_udp_packet a packet p dst payload t whole bytes wire sender target =
    let h : UdpHeader = record { frag = 0; address = dst } in
    let parsed = parse_udp_header-build 0 dst payload wire in
    let header : parse_udp_header (take packet.n packet.buffer) ≡ ok (h, len h) =
      ap parse_udp_header bytes ∙ parsed.0 in
    let inside : take (packet.n - len h) (drop (len h) packet.buffer) ≡ payload =
      payload-inside packet.buffer payload packet.n (len h) (ap (drop (len h)) bytes ∙ parsed.1)
        (ap length bytes ∙ parsed.2) in
    let done = process-Joined a (inbound_of packet h (len h)) t p refl sender target in
    let goes : receive a packet p ≡ process_inbound a (inbound_of packet h (len h)) p =
      rw (whole, header, receive) refl in
    rw (goes) (rw⁻¹ inside done)
