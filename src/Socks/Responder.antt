-- ===== src/Socks/Responder.antt =====
-- internal/server/socks/server.go: the answers of the targets on their way back to the client. The
-- header is put in front of the payload inside the buffer that the payload was read into.
pub mod Owners
pub mod Headers
use outway.Base.{
  ℕ, zero, suc, ◌+◌, ◌-◌, List, [], ◌∷◌, ◌++◌, Bool, true, false, not, ◌||◌, ◌==◌, leb, ltb,
  if◌then◌else◌, length, take, drop, be_bytes,
}
use outway.Net.{Addr, AddrPort, is4, as4, as16, unmap}
use outway.Proto.Address.{socket, addr_ipv4, addr_ipv6}
use outway.Proto.Udp.{udp_header_max_len, build_udp_packet}
use outway.Socks.Gso.{WritePacket}
use outway.Socks.Runtime.{Runtime, Metrics, release_buffer}
use outway.Socks.Inbound.{ReadPacket, Batch, packets, failed}

abbrev pub unmapped : AddrPort → AddrPort
unmapped remote = record { addr = unmap remote.addr; port = remote.port }

-- The header that `prepareUDPResponse` writes.
unfoldable pub response_header : AddrPort → List ℕ
response_header remote =
    if is4 remote.addr
    then 0 ∷ 0 ∷ 0 ∷ addr_ipv4 ∷ as4 remote.addr ++ be_bytes 2 remote.port
    else 0 ∷ 0 ∷ 0 ∷ addr_ipv6 ∷ as16 remote.addr ++ be_bytes 2 remote.port

unfoldable pub header_length : AddrPort → ℕ
header_length remote = if is4 remote.addr then 3 + 1 + 4 + 2 else 3 + 1 + 16 + 2

-- `prepareUDPResponse`; the bytes of the buffer from `start` on become the header, up to the place
-- where the payload begins.
unfoldable pub prepare_udp_response : List ℕ → List ℕ → AddrPort → List ℕ
unfolding response_header header_length
prepare_udp_response payload buffer remote =
    let start = udp_header_max_len - header_length (unmapped remote) in
    let written =
      take start buffer ++ (response_header (unmapped remote) ++ drop udp_header_max_len buffer) in
    if leb (udp_header_max_len + length payload) (length buffer)
    then take (udp_header_max_len + length payload - start) (drop start written)
    else build_udp_packet 0 (socket remote) payload

-- `writes` and `payloadBytes` of a `udpResponder`, for one batch.
pub record Answers : Type 0 where
  pub writes : List WritePacket
  pub payload_bytes : List ℕ

-- The payload of a datagram that was read behind the room for a header.
abbrev pub payload_of : ReadPacket → List ℕ
payload_of packet = take packet.n (drop udp_header_max_len packet.buffer)

-- The loop over the packets that were read; `client` is where the answers go.
unfoldable pub collect : AddrPort → List ReadPacket → Runtime → Answers × Runtime
unfolding prepare_udp_response
collect client [] r = (record { writes = []; payload_bytes = [] }, r)
collect client (packet ∷ rest) r =
    let released = release_buffer packet.owner packet.batch_slot r in
    let truncated = record released {
      metrics = record released.metrics { truncated_drops = released.metrics.truncated_drops + 1 };
    } in
    let dropped = collect client rest (if packet.truncated then truncated else released) in
    let kept = collect client rest r in
    let write : WritePacket = record {
      buffer = prepare_udp_response (payload_of packet) packet.buffer packet.addr;
      owner = packet.owner;
      addr = client;
      batch_slot = packet.batch_slot;
    } in
    if packet.truncated || client.port == 0 then dropped else (
      record {
        writes = write ∷ (kept.0).writes;
        payload_bytes = packet.n ∷ (kept.0).payload_bytes;
      },
      kept.1,
    )

-- The loop over the packets written: every buffer is released, and those among the first `written`
-- are counted.
pub record Tally : Type 0 where
  pub out_packets : ℕ
  pub out_bytes : ℕ

unfoldable pub settle : ℕ → List WritePacket → List ℕ → Tally × Runtime → Tally × Runtime
settle written [] bytes (t, r) = (t, r)
settle written (w ∷ ws) [] (t, r) = settle written ws [] (t, release_buffer w.owner w.batch_slot r)
settle zero (w ∷ ws) (n ∷ ns) (t, r) = settle zero ws ns (t, release_buffer w.owner w.batch_slot r)
settle (suc written) (w ∷ ws) (n ∷ ns) (t, r) = settle written ws ns (
  record { out_packets = t.out_packets + 1; out_bytes = t.out_bytes + n },
  release_buffer w.owner w.batch_slot r,
)

abbrev pub count_error : Bool → Runtime → Runtime
count_error true r = record r { metrics = record r.metrics { errors = r.metrics.errors + 1 } }
count_error false r = r

-- `pumpOnce`: whether the socket is to be driven on, the time of the last activity, and the
-- runtime. `write` gives the number of packets written and whether there was an error.
unfoldable pub pump_once :
    AddrPort → (List WritePacket → ℕ × Bool) → ℕ → Batch → ℕ → Runtime → Bool × ℕ × Runtime
unfolding collect settle
pump_once client write now (failed quiet) last r = (false, last, count_error (not quiet) r)
pump_once client write now (packets ps) last r =
    let (answers, collected) = collect client ps r in
    let (written, fault) = write answers.writes in
    let (tally, released) =
      settle written answers.writes answers.payload_bytes
        (record { out_packets = 0; out_bytes = 0 }, collected) in
    let counted = record released {
      metrics = record released.metrics {
        out_packets = released.metrics.out_packets + tally.out_packets;
        out_bytes = released.metrics.out_bytes + tally.out_bytes;
      };
    } in
    (
      true,
      if ltb 0 written then now else last,
      count_error (fault || not (written == length answers.writes)) counted,
    )
