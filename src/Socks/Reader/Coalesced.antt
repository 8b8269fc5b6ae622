-- ===== src/Socks/Reader/Coalesced.antt =====
-- What a coalesced read gives to the relay, and what that does to the batch behind it.
use outway.Base.{
  ℕ, ◌+◌, ◌-◌, ◌≤◌, ◌<◌, ◌≡◌, ◌≢◌, ==_false, refl, sym, ap, ◌∙◌, arith, List, [], ◌∷◌, none, some,
  Bool, false, length, take, drop, ltb_cases, leb_cases, inl, inr, All,
}
use outway.Net.{AddrPort}
use outway.Proto.Udp.{udp_header_max_len}
use outway.Socks.Runtime.{Runtime}
use outway.Socks.Gso.{segments, WritePacket, gso_eligible, super_datagram, buffers}
use outway.Socks.Gso.Segments.{
  LastNonempty, Uniform-segments, Uniform-Filled, Uniform-length, gso_eligible-Uniform,
  segments-more,
}
use outway.Socks.Inbound.{ReadPacket, packets}
use outway.Socks.Responder.{collect}
use outway.Socks.Writer.{WriteBatch, write}
use outway.Socks.Reader.{Buffer, Message, message, gro_max_segments, read_segments, read_gro}
use outway.Socks.Reader.Split.{payloads, Roomy, segments_read, read_segments_lem}

several-read_gro :
    (offset limit size : ℕ) (pooled : ℕ → Buffer) (m : Message) (r : Runtime)
    → m.cut ≡ false
    → 0 < size
    → size ≤ limit
    → size < m.n
    → (read_gro offset limit pooled (message m size) r).0
      ≡ packets ((read_segments offset size pooled m r).0)
unfolding read_gro
several-read_gro offset limit size pooled m r uncut pos fits several = elim (ltb_cases limit size) [
  | inl (e, over) ↦ absurd (omega (arith, over, fits))
  | inr (e, _) ↦ elim (leb_cases m.n size) [
    | inl (f, k) ↦ absurd (omega (arith, k, several))
    | inr (f, _) ↦ rw (uncut, ==_false size 0 (omega (arith, pos)), e, f) refl
  ]
]

-- A coalesced read of more than one segment, none over the limit: the packets carry the segments of
-- the bytes read, in order, up to the 64 that a read is split into; none is marked as truncated, and
-- none is longer than the segment size.
pub read_gro-segments :
    (offset limit size : ℕ) (pooled : ℕ → Buffer) (m : Message) (r : Runtime)
    → m.cut ≡ false
    → 0 < size
    → size ≤ limit
    → size < m.n
    → Roomy offset size pooled
    → offset + m.n ≤ length m.bytes
    → (ps : List ReadPacket) × ((read_gro offset limit pooled (message m size) r).0 ≡ packets ps)
      × (payloads offset ps ≡ segments size gro_max_segments (take m.n (drop offset m.bytes)))
      × (length ps ≡ segments_read m.n size)
      × All (λ p. (p.truncated ≡ false) × (p.n ≤ size)) ps
read_gro-segments offset limit size pooled m r uncut pos fits several roomy inside =
    let done = read_segments_lem offset size pooled m r pos several roomy inside in
    (
      (read_segments offset size pooled m r).0,
      several-read_gro offset limit size pooled m r uncut pos fits several,
      done.0,
      done.1,
      done.2,
    )

-- What one side sends with UDP_SEGMENT the other reads with UDP_GRO as it was. If the message read
-- is not cut off and its bytes are those of an eligible batch of at most 64 datagrams, the last not
-- empty; if its segment size is the batch's, no larger than the limit on a packet and smaller than
-- the message; and if the pooled buffers have room for a segment behind the offset: then the
-- packets of the read carry exactly the datagrams of the batch.
pub read_gro-super_datagram :
    (offset limit size : ℕ) (pooled : ℕ → Buffer) (m : Message) (r : Runtime) (enabled : Bool)
    (ws : List WritePacket)
    → m.cut ≡ false
    → size ≤ limit
    → size < m.n
    → Roomy offset size pooled
    → offset + m.n ≤ length m.bytes
    → gso_eligible enabled ws ≡ some size
    → LastNonempty ws
    → length ws ≤ gro_max_segments
    → take m.n (drop offset m.bytes) ≡ super_datagram ws
    → (ps : List ReadPacket) × ((read_gro offset limit pooled (message m size) r).0 ≡ packets ps)
      × (payloads offset ps ≡ buffers ws)
read_gro-super_datagram offset limit size pooled m r enabled ws uncut fits several roomy inside e
      last few bytes =
    let (pos, uniform) = gso_eligible-Uniform enabled ws size e in
    let done = read_segments_lem offset size pooled m r pos several roomy inside in
    let spare : length ws + (gro_max_segments - length ws) ≡ gro_max_segments =
      omega (arith, few) in
    (
      (read_segments offset size pooled m r).0,
      several-read_gro offset limit size pooled m r uncut pos fits several,
      done.0
          ∙ ap (segments size gro_max_segments) bytes
          ∙ ap (λ k. segments size k (super_datagram ws)) (sym spare)
          ∙ segments-more size (length ws) (gro_max_segments - length ws) (super_datagram ws)
              (Uniform-length size ws uniform)
          ∙ Uniform-segments size ws pos uniform (Uniform-Filled size ws pos uniform last),
    )

length-collect :
    (client : AddrPort) (size : ℕ) (ps : List ReadPacket) (r : Runtime)
    → client.port ≢ 0
    → All (λ p. (p.truncated ≡ false) × (p.n ≤ size)) ps
    → length (((collect client ps r).0).writes) ≡ length ps
unfolding collect
length-collect client size [] r known h = refl
length-collect client size (p ∷ ps) r known h =
    rw (h.0.0, ==_false client.port 0 known)
      (omega (arith, length-collect client size ps r known (h.1)))

-- The answers of one coalesced read are not bounded by the batch size: when it has more segments
-- than that, the write of the answers to a known client panics.
pub read_gro-overflow :
    (limit size batch_size : ℕ) (pooled : ℕ → Buffer) (m : Message) (r s : Runtime)
    (client : AddrPort) (call : WriteBatch)
    → m.cut ≡ false
    → 0 < size
    → size ≤ limit
    → size < m.n
    → Roomy udp_header_max_len size pooled
    → udp_header_max_len + m.n ≤ length m.bytes
    → client.port ≢ 0
    → batch_size < segments_read m.n size
    → (ps : List ReadPacket) × ((read_gro udp_header_max_len limit pooled (message m size) r).0
        ≡ packets ps)
      × (write call batch_size ((collect client ps s).0).writes ≡ none)
unfolding write
read_gro-overflow limit size batch_size pooled m r s client call uncut pos fits several roomy inside
      known over =
    let ps = (read_segments udp_header_max_len size pooled m r).0 in
    let done = read_segments_lem udp_header_max_len size pooled m r pos several roomy inside in
    let ws = ((collect client ps s).0).writes in
    let count = length-collect client size ps s known (done.2) in
    let longer : batch_size < length ws = omega (arith, count, done.1, over) in
    let panics : write call batch_size ws ≡ none = elim (ltb_cases batch_size (length ws)) [
      | inr (e, k) ↦ absurd (omega (arith, k, longer))
      | inl (e, _) ↦ rw (==_false (length ws) 0 (omega (arith, longer)), e) refl
    ] in
    (ps, several-read_gro udp_header_max_len limit size pooled m r uncut pos fits several, panics)
