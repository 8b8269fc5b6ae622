-- ===== src/Socks/Inbound/Counts.antt =====
-- What the counters say of a batch of client datagrams.
use outway.Base.{
  ◌%◌, ℕ, ◌+◌, ◌≡◌, refl, ◌∙◌, arith, List, [], ◌∷◌, Option, none, some, Bool, true, false, not,
  ◌&&◌, ◌||◌, ◌==◌, if◌then◌else◌, length, take, is_some, Bool-cases, ltb_cases, inl, inr,
}
use outway.Net.{AddrPort, is4}
use outway.Wire.{Result, ok, err}
use outway.Proto.Udp.{UdpHeader, parse_udp_header}
use outway.Socks.Relay.{is_authorized}
use outway.Socks.Gso.{WritePacket, gso_eligible}
use outway.Socks.Runtime.{
  Runtime, queue_at, started, enqueue, count_dispatched, dispatch, release_buffer,
}
use outway.Socks.Inbound.{
  ReadPacket, InboundPacket, Association, Pump, same_family, on_fallback, target_of, job_of,
  refused, forward, process_inbound, inbound_of, process_parsed, receive, receive_all, release_all,
  Send, flush_batch, packets, finish, inbound_pump,
}

-- The datagrams counted: relayed, and dropped for each reason.
abbrev pub counts : Runtime → ℕ
counts r =
    r.metrics.in_packets + r.metrics.truncated_drops + r.metrics.malformed_drops
    + r.metrics.fragment_drops + r.metrics.unauthorized_drops

abbrev counts_in : Pump → ℕ
counts_in p = p.in_packets + counts p.runtime

counts-dispatch :
    (a : Association) (pkt : InboundPacket) (r : Runtime)
    → counts (refused pkt (dispatch (job_of a pkt) r)) ≡ counts r
unfolding dispatch enqueue count_dispatched release_buffer job_of
counts-dispatch a pkt r = elim (Bool-cases r.ended) [
  | inl e ↦ rw e refl
  | inr e ↦
      let job = job_of a pkt in
      let q = queue_at (started r) (job.association % length (started r)) in
      let tried = enqueue job (started r) r in
      let queued : dispatch job r ≡ (tried.0, count_dispatched (tried.0) (tried.1)) =
        rw (e, dispatch) refl in
      elim (ltb_cases (length q.jobs) q.capacity) [
        | inl (f, _) ↦ rw (queued, f, enqueue) refl
        | inr (f, _) ↦ rw (queued, f, enqueue) refl
      ]
]

counts-forward :
    (a : Association) (pkt : InboundPacket) (o : Option AddrPort) (p : Pump)
    → counts_in (forward a pkt o p) ≡ counts_in p
unfolding forward
counts-forward a pkt none p = omega (arith, counts-dispatch a pkt p.runtime)
counts-forward a pkt (some t) p =
    elim (Bool-cases
      (not (same_family a.preferred_v4 (is4 t.addr)) && on_fallback a.fallback_v4 (is4 t.addr))) [
        | inl e ↦ rw (e, forward) refl
        | inr e ↦ rw (e, forward) refl
      ]

counts-process :
    (a : Association) (pkt : InboundPacket) (p : Pump)
    → counts_in ((process_inbound a pkt p).1) ≡ counts_in p + 1
unfolding process_inbound release_buffer
counts-process a pkt p = elim (Bool-cases (not (pkt.frag == 0))) [
  | inl e ↦ rw (e, process_inbound) (omega arith)
  | inr e ↦ elim (Bool-cases (not (is_authorized pkt.src a.source))) [
    | inl f ↦ rw (e, f, process_inbound) (omega arith)
    | inr f ↦
        rw (e, f, process_inbound)
          (omega (
            arith,
            counts-forward a pkt (target_of a pkt.dst) (record p {
              source_port = pkt.src.port;
              in_packets = p.in_packets + 1;
              in_bytes = p.in_bytes + length pkt.payload;
            }),
          ))
  ]
]

counts-receive :
    (a : Association) (packet : ReadPacket) (p : Pump)
    → counts_in ((receive a packet p).1) ≡ counts_in p + 1
unfolding receive release_buffer
counts-receive a packet p = elim (Bool-cases packet.truncated) [
  | inl e ↦ rw (e, receive) (omega arith)
  | inr e ↦ rw (e, receive) (parsed (parse_udp_header (take packet.n packet.buffer)))
]
  where
    parsed :
        (result : Result (UdpHeader × ℕ))
        → counts_in ((process_parsed a packet result p).1) ≡ counts_in p + 1
    parsed (ok (hdr, hlen)) = counts-process a (inbound_of packet hdr hlen) p
    parsed (err e) = omega arith

counts-receive_all :
    (a : Association) (ps : List ReadPacket) (p : Pump)
    → counts_in ((receive_all a ps p).1) ≡ counts_in p + length ps
unfolding receive_all
counts-receive_all a [] p = omega arith
counts-receive_all a (packet ∷ rest) p =
    omega (arith, counts-receive a packet p, counts-receive_all a rest ((receive a packet p).1))

counts-release_all : (ws : List WritePacket) (r : Runtime) → counts (release_all ws r) ≡ counts r
unfolding release_buffer
counts-release_all [] r = refl
counts-release_all (w ∷ ws) r = counts-release_all ws (release_buffer w.owner w.batch_slot r)

counts-flush :
    (gso : Bool) (send : Send) (ws : List WritePacket) (r : Runtime)
    → counts (flush_batch gso send ws r) ≡ counts r
unfolding flush_batch
counts-flush gso send [] r = refl
counts-flush gso send (w ∷ ws) r =
    let result = send (gso_eligible gso (w ∷ ws)) (w ∷ ws) in
    elim (Bool-cases (result.1 || not (result.0 == length (w ∷ ws)))) [
      | inl e ↦ rw (e, flush_batch) (counts-release_all (w ∷ ws) r)
      | inr e ↦ rw (e, flush_batch) (counts-release_all (w ∷ ws) r)
    ]

-- Every datagram of a batch that was read is counted once: as relayed, or as dropped because it
-- was truncated, malformed, a fragment or from another sender.
pub inbound_pump-counts :
    (a : Association) (sent other : Send) (now : ℕ) (ps : List ReadPacket) (p : Pump)
    → counts ((inbound_pump a sent other now (packets ps) p).1).runtime
      ≡ counts p.runtime + length ps
unfolding inbound_pump finish
inbound_pump-counts a sent other now ps p =
    let q = (receive_all a ps (record p { in_packets = 0; in_bytes = 0 })).1 in
    let first = flush_batch a.gso sent q.preferred (counted q) in
    let total : counts_in q ≡ counts p.runtime + length ps =
      counts-receive_all a ps (record p { in_packets = 0; in_bytes = 0 }) ∙ omega arith in
    let sums : counts
          (if is_some a.fallback_v4 then flush_batch a.gso other q.fallback first else first)
        ≡ counts (counted q) =
      either (is_some a.fallback_v4) q first (counts-flush a.gso sent q.preferred (counted q)) in
    omega (arith, sums, total)
  where
    counted : Pump → Runtime
    counted q = record q.runtime {
      metrics = record q.runtime.metrics {
        in_packets = q.runtime.metrics.in_packets + q.in_packets;
        in_bytes = q.runtime.metrics.in_bytes + q.in_bytes;
      };
    }

    either :
        (b : Bool) (q : Pump) (first : Runtime)
        → counts first ≡ counts (counted q)
        → counts (if b then flush_batch a.gso other q.fallback first else first)
          ≡ counts (counted q)
    either true q first h = counts-flush a.gso other q.fallback first ∙ h
    either false q first h = h
