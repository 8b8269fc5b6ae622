-- ===== src/Socks/Inbound/Release.antt =====
-- Every pooled buffer of a batch is put back once, or waits in one job.
use outway.Base.{
  ℕ, ◌+◌, ◌≡◌, refl, ◌∙◌, arith, List, [], ◌∷◌, Option, none, some, Bool, true, false, not, ◌&&◌,
  ◌||◌, ◌==◌, length, take, Option-cases, Bool-cases, inl, inr,
}
use outway.Net.{AddrPort, is4}
use outway.Wire.{Result, ok, err}
use outway.Proto.Udp.{UdpHeader, parse_udp_header}
use outway.Socks.Relay.{is_authorized}
use outway.Socks.Gso.{WritePacket, gso_eligible}
use outway.Socks.Runtime.{Runtime, release_buffer}
use outway.Socks.Inbound.{
  ReadPacket, InboundPacket, Association, Pump, same_family, on_fallback, target_of, write_of,
  forward, process_inbound, inbound_of, process_parsed, receive, receive_all, release_all, Send,
  flush_batch, Batch, packets, failed, finish, inbound_pump,
}
use outway.Socks.Inbound.Owners.{
  hit, in_runtime, in_pump, in_writes, in_reads, in_batch, in_writes-append, in_runtime-dispatch,
}

in_pump-forward :
    (b : ℕ) (a : Association) (pkt : InboundPacket) (o : Option AddrPort) (p : Pump)
    → in_pump b (forward a pkt o p) ≡ in_pump b p + hit b pkt.owner
unfolding forward
in_pump-forward b a pkt none p = omega (arith, in_runtime-dispatch b a pkt p.runtime)
in_pump-forward b a pkt (some t) p =
    elim (Bool-cases
      (not (same_family a.preferred_v4 (is4 t.addr)) && on_fallback a.fallback_v4 (is4 t.addr))) [
        | inl e ↦ rw (e, forward) (omega (arith, in_writes-append b p.fallback (write_of pkt t)))
        | inr e ↦ rw (e, forward) (omega (arith, in_writes-append b p.preferred (write_of pkt t)))
      ]

in_pump-process :
    (b : ℕ) (a : Association) (pkt : InboundPacket) (p : Pump)
    → in_pump b ((process_inbound a pkt p).1) ≡ in_pump b p + hit b pkt.owner
unfolding process_inbound release_buffer
in_pump-process b a pkt p = elim (Bool-cases (not (pkt.frag == 0))) [
  | inl e ↦ rw (e, process_inbound) (omega arith)
  | inr e ↦ elim (Bool-cases (not (is_authorized pkt.src a.source))) [
    | inl f ↦ rw (e, f, process_inbound) (omega arith)
    | inr f ↦
        rw (e, f, process_inbound)
          (omega (
            arith,
            in_pump-forward b a pkt (target_of a pkt.dst) (record p {
              source_port = pkt.src.port;
              in_packets = p.in_packets + 1;
              in_bytes = p.in_bytes + length pkt.payload;
            }),
          ))
  ]
]

in_pump-receive :
    (b : ℕ) (a : Association) (packet : ReadPacket) (p : Pump)
    → in_pump b ((receive a packet p).1) ≡ in_pump b p + hit b packet.owner
unfolding receive release_buffer
in_pump-receive b a packet p = elim (Bool-cases packet.truncated) [
  | inl e ↦ rw (e, receive) (omega arith)
  | inr e ↦ rw (e, receive) (parsed (parse_udp_header (take packet.n packet.buffer)))
]
  where
    parsed :
        (result : Result (UdpHeader × ℕ))
        → in_pump b ((process_parsed a packet result p).1) ≡ in_pump b p + hit b packet.owner
    parsed (ok (hdr, hlen)) = in_pump-process b a (inbound_of packet hdr hlen) p
    parsed (err e) = omega arith

in_pump-receive_all :
    (b : ℕ) (a : Association) (ps : List ReadPacket) (p : Pump)
    → in_pump b ((receive_all a ps p).1) ≡ in_pump b p + in_reads b ps
unfolding receive_all
in_pump-receive_all b a [] p = omega arith
in_pump-receive_all b a (packet ∷ rest) p =
    omega
      (arith, in_pump-receive b a packet p, in_pump-receive_all b a rest ((receive a packet p).1))

in_runtime-release_all :
    (b : ℕ) (ws : List WritePacket) (r : Runtime)
    → in_runtime b (release_all ws r) ≡ in_runtime b r + in_writes b ws
unfolding release_buffer
in_runtime-release_all b [] r = omega arith
in_runtime-release_all b (w ∷ ws) r =
    omega (arith, in_runtime-release_all b ws (release_buffer w.owner w.batch_slot r))

in_runtime-flush :
    (b : ℕ) (gso : Bool) (send : Send) (ws : List WritePacket) (r : Runtime)
    → in_runtime b (flush_batch gso send ws r) ≡ in_runtime b r + in_writes b ws
unfolding flush_batch
in_runtime-flush b gso send [] r = omega arith
in_runtime-flush b gso send (w ∷ ws) r =
    let result = send (gso_eligible gso (w ∷ ws)) (w ∷ ws) in
    elim (Bool-cases (result.1 || not (result.0 == length (w ∷ ws)))) [
      | inl e ↦ rw (e, flush_batch) (in_runtime-release_all b (w ∷ ws) r)
      | inr e ↦ rw (e, flush_batch) (in_runtime-release_all b (w ∷ ws) r)
    ]

-- Without a fallback socket nothing joins its batch.
kept-forward :
    (a : Association) (pkt : InboundPacket) (o : Option AddrPort) (p : Pump)
    → a.fallback_v4 ≡ none
    → (forward a pkt o p).fallback ≡ p.fallback
unfolding forward
kept-forward a pkt none p e = refl
kept-forward a pkt (some t) p e = elim (Bool-cases (same_family a.preferred_v4 (is4 t.addr))) [
  | inl f ↦ rw (e, f, forward) refl
  | inr f ↦ rw (e, f, forward) refl
]

kept-process :
    (a : Association) (pkt : InboundPacket) (p : Pump)
    → a.fallback_v4 ≡ none
    → ((process_inbound a pkt p).1).fallback ≡ p.fallback
unfolding process_inbound
kept-process a pkt p e = elim (Bool-cases (not (pkt.frag == 0))) [
  | inl f ↦ rw (f, process_inbound) refl
  | inr f ↦ elim (Bool-cases (not (is_authorized pkt.src a.source))) [
    | inl g ↦ rw (f, g, process_inbound) refl
    | inr g ↦ rw (f, g, process_inbound) (kept-forward a pkt (target_of a pkt.dst) _ e)
  ]
]

kept-receive :
    (a : Association) (packet : ReadPacket) (p : Pump)
    → a.fallback_v4 ≡ none
    → ((receive a packet p).1).fallback ≡ p.fallback
unfolding receive
kept-receive a packet p e = elim (Bool-cases packet.truncated) [
  | inl f ↦ rw (f, receive) refl
  | inr f ↦ rw (f, receive) (parsed (parse_udp_header (take packet.n packet.buffer)))
]
  where
    parsed :
        (result : Result (UdpHeader × ℕ))
        → ((process_parsed a packet result p).1).fallback ≡ p.fallback
    parsed (ok (hdr, hlen)) = kept-process a (inbound_of packet hdr hlen) p e
    parsed (err e) = refl

kept-receive_all :
    (a : Association) (ps : List ReadPacket) (p : Pump)
    → a.fallback_v4 ≡ none
    → ((receive_all a ps p).1).fallback ≡ p.fallback
unfolding receive_all
kept-receive_all a [] p e = refl
kept-receive_all a (packet ∷ rest) p e =
    kept-receive_all a rest ((receive a packet p).1) e ∙ kept-receive a packet p e

-- The runtime once the counts of the batch are added.
abbrev counted : Pump → Runtime
counted q = record q.runtime {
  metrics = record q.runtime.metrics {
    in_packets = q.runtime.metrics.in_packets + q.in_packets;
    in_bytes = q.runtime.metrics.in_bytes + q.in_bytes;
  };
}

finish-alone :
    (a : Association) (sent other : Send) (active : Bool) (now : ℕ) (q : Pump) (b : ℕ)
    → a.fallback_v4 ≡ none
    → ((finish a sent other active now q).fallback ≡ q.fallback)
      × (in_runtime b (finish a sent other active now q).runtime
          ≡ in_runtime b q.runtime + in_writes b q.preferred)
unfolding finish
finish-alone a sent other active now q b e =
    rw e (refl, in_runtime-flush b a.gso sent q.preferred (counted q))

finish-both :
    (a : Association) (sent other : Send) (active : Bool) (now : ℕ) (q : Pump) (b : ℕ) (f : Bool)
    → a.fallback_v4 ≡ some f
    → ((finish a sent other active now q).fallback ≡ [])
      × (in_runtime b (finish a sent other active now q).runtime ≡ in_pump b q)
unfolding finish
finish-both a sent other active now q b f e =
    let first = flush_batch a.gso sent q.preferred (counted q) in
    rw e (
      refl,
      omega (
        arith,
        in_runtime-flush b a.gso sent q.preferred (counted q),
        in_runtime-flush b a.gso other q.fallback first,
      ),
    )

-- Whatever a batch of client datagrams holds, and whatever its sends give: afterwards no datagram
-- waits in a write batch, and each pooled buffer is back in the pool or in the job of a send worker
-- exactly as many more times as the batch had it. None leaks and none is put back twice.
pub inbound_pump-owners :
    (a : Association) (sent other : Send) (now : ℕ) (batch : Batch) (p : Pump) (b : ℕ)
    → p.preferred ≡ []
    → p.fallback ≡ []
    → let q = (inbound_pump a sent other now batch p).1 in
      (q.preferred ≡ [])
      × (q.fallback ≡ [])
      × (in_runtime b q.runtime ≡ in_runtime b p.runtime + in_batch b batch)
unfolding inbound_pump finish
inbound_pump-owners a sent other now (failed true) p b h k = (h, k, omega arith)
inbound_pump-owners a sent other now (failed false) p b h k = (h, k, omega arith)
inbound_pump-owners a sent other now (packets ps) p b h k =
    let start = record p { in_packets = 0; in_bytes = 0 } in
    let q = (receive_all a ps start).1 in
    let active = (receive_all a ps start).0 in
    let total : in_pump b q ≡ in_pump b p + in_reads b ps = in_pump-receive_all b a ps start in
    let empty : (in_writes b p.preferred ≡ 0) × (in_writes b p.fallback ≡ 0) =
      (rw h refl, rw k refl) in
    elim (Option-cases a.fallback_v4) [
      | inl e ↦
          let kept : q.fallback ≡ [] = kept-receive_all a ps start e ∙ k in
          let none_left : in_writes b q.fallback ≡ 0 = rw kept refl in
          let done = finish-alone a sent other active now q b e in
          (refl, done.0 ∙ kept, omega (arith, done.1, total, empty, none_left))
      | inr (f, e) ↦
          let done = finish-both a sent other active now q b f e in
          (refl, done.0, omega (arith, done.1, total, empty))
    ]
