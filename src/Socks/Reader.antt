-- ===== src/Socks/Reader.antt =====
-- internal/server/socks/udp_io_linux.go and udp_gro_linux.go: how datagrams are read. What a read of
-- the socket gives is a parameter, and so are the buffers that the pool hands out: the i-th of a
-- batch is `pooled i`.
pub mod Split
pub mod Coalesced
pub mod Slots
use outway.Base.{
  ℕ, zero, suc, ◌+◌, ◌-◌, ◌*◌, ◌/◌, ◌%◌, List, [], ◌∷◌, ◌++◌, Option, none, some, Bool, true, false,
  not, ◌&&◌, ◌||◌, ◌==◌, leb, ltb, if◌then◌else◌, length, take, drop,
}
use outway.Net.{AddrPort}
use outway.Socks.Runtime.{Runtime, Metrics, release_buffer, try_acquire_batch_buffer}
use outway.Socks.Inbound.{ReadPacket, Batch, packets, failed}

pub record Buffer : Type 0 where
  pub owner : ℕ
  pub bytes : List ℕ

-- What the kernel says of a datagram: the buffer once it is read, its length, whether it was cut,
-- and its sender.
pub record Message : Type 0 where
  pub bytes : List ℕ
  pub n : ℕ
  pub cut : Bool
  pub addr : AddrPort

-- A control message, as `ParseSocketControlMessage` gives it.
pub record Control : Type 0 where
  pub level : ℕ
  pub type : ℕ
  pub payload : List ℕ

abbrev pub ipproto_udp : ℕ
ipproto_udp = 17

abbrev pub udp_gro : ℕ
udp_gro = 104

-- The loop of `parseGROSize`; `native` is the byte order of the machine.
unfoldable pub gro_size_of : (List ℕ → ℕ) → List Control → ℕ
gro_size_of native [] = 0
gro_size_of native (m ∷ ms) =
    let rest = gro_size_of native ms in
    if not (m.level == ipproto_udp) || not (m.type == udp_gro)
    then rest
    else if leb 4 (length m.payload)
    then native (take 4 m.payload)
    else if leb 2 (length m.payload)
    then native (take 2 m.payload)
    else rest

-- `none` where the control data does not parse.
unfoldable pub parse_gro_size : (List ℕ → ℕ) → Option (List Control) → ℕ
unfolding gro_size_of
parse_gro_size native none = 0
parse_gro_size native (some ms) = gro_size_of native ms

abbrev pub gro_max_segments : ℕ
gro_max_segments = 64

abbrev pub segment_count : ℕ → ℕ → ℕ
segment_count n size = if ltb 0 (n % size) then n / size + 1 else n / size

-- The i-th segment, copied behind the room for a header into a buffer of its own.
abbrev pub copied : ℕ → ℕ → ℕ → Message → Buffer → ℕ → ReadPacket
copied offset size i m buf len = record {
  buffer =
      take offset buf.bytes
      ++ (take len (drop (offset + i * size) m.bytes) ++ drop (offset + len) buf.bytes);
  owner = buf.owner;
  n = len;
  addr = m.addr;
  truncated = false;
  batch_slot = false;
}

-- The loop over the segments from the i-th on, `k` of them.
unfoldable pub split : ℕ → ℕ → (ℕ → Buffer) → Message → ℕ → ℕ → List ReadPacket
split offset size pooled m i zero = []
split offset size pooled m i (suc k) =
    copied offset size i m (pooled i) (if i == m.n / size then m.n % size else size)
    ∷ split offset size pooled m (suc i) k

abbrev pub whole : Buffer → Message → ℕ → Bool → ReadPacket
whole first m n truncated = record {
  buffer = m.bytes;
  owner = first.owner;
  n = n;
  addr = m.addr;
  truncated = truncated;
  batch_slot = false;
}

abbrev pub put_back : Buffer → Runtime → Runtime
put_back buf r = record r { pool = buf.owner ∷ r.pool }

-- What a read of the socket gives: a message with its segment size, or an error.
pub data Got : Type 0 where
  message : Message → ℕ → Got
  broken : Bool → Got

-- `readGRO`, where the segments are more than one.
unfoldable pub read_segments : ℕ → ℕ → (ℕ → Buffer) → Message → Runtime → List ReadPacket × Runtime
unfolding split
read_segments offset size pooled m r =
    let count = segment_count m.n size in
    let over = ltb gro_max_segments count in
    let segments = if over then gro_max_segments else count in
    let more = r.metrics.gro_coalesced_reads + 1 in
    let cut = r.metrics.gro_truncated_reads + 1 in
    (
      whole (pooled 0) m size false ∷ split offset size pooled m 1 (segments - 1),
      record r {
        metrics = record r.metrics {
          gro_coalesced_reads = more;
          gro_truncated_reads = if over then cut else r.metrics.gro_truncated_reads;
        };
      },
    )

unfoldable pub read_gro : ℕ → ℕ → (ℕ → Buffer) → Got → Runtime → Batch × Runtime
unfolding read_segments
read_gro offset limit pooled (broken quiet) r = (failed quiet, put_back (pooled 0) r)
read_gro offset limit pooled (message m size) r =
    let several = read_segments offset size pooled m r in
    if m.cut
    then (packets (whole (pooled 0) m m.n true ∷ []), r)
    else if size == 0 || ltb limit size || leb m.n size
    then (packets (whole (pooled 0) m m.n (ltb limit m.n) ∷ []), r)
    else (packets (several.0), several.1)

-- The slots of the batch that are to be had at once, at most `k`.
unfoldable pub acquire_slots : ℕ → Runtime → ℕ × Runtime
unfolding try_acquire_batch_buffer
acquire_slots zero r = (0, r)
acquire_slots (suc k) r =
    let first = try_acquire_batch_buffer r in
    let others = acquire_slots k (first.1) in
    if first.0 then (1 + others.0, others.1) else (0, first.1)

-- The release of the buffers from the i-th on, `k` of them.
unfoldable pub release_from : (ℕ → Buffer) → ℕ → ℕ → Runtime → Runtime
unfolding release_buffer
release_from pooled i zero r = r
release_from pooled i (suc k) r =
    release_from pooled (suc i) k (release_buffer (pooled i).owner true r)

-- The packets of the messages drained, the first of them in the i-th buffer.
unfoldable pub drained_packets : ℕ → (ℕ → Buffer) → ℕ → List Message → List ReadPacket
drained_packets limit pooled i [] = []
drained_packets limit pooled i (m ∷ ms) =
    (record {
      buffer = m.bytes;
      owner = (pooled i).owner;
      n = m.n;
      addr = m.addr;
      truncated = m.cut || ltb limit m.n;
      batch_slot = true;
    })
    ∷ drained_packets limit pooled (suc i) ms

-- What `ReadBatch` gives for a number of buffers: messages, or an error, which says that nothing
-- is there to be read, or disables batches from then on.
pub data Drain : Type 0 where
  drained : List Message → Drain
  again : Drain
  refused : Drain

-- The part of `readBatch` after the drain of `extra` buffers, with the packet of the first.
unfoldable pub after_drain :
    ReadPacket → ℕ → (ℕ → Buffer) → Bool → ℕ → Runtime → Drain → Batch × Bool × Runtime
unfolding release_from drained_packets
after_drain first limit pooled disabled extra r again =
    (packets (first ∷ []), disabled, release_from pooled 1 extra r)
after_drain first limit pooled disabled extra r refused =
    let released = release_from pooled 1 extra r in
    let counted = record released {
      metrics = record released.metrics { batch_fallbacks = released.metrics.batch_fallbacks + 1 };
    } in
    (packets (first ∷ []), true, counted)
after_drain first limit pooled disabled extra r (drained ms) = (
  packets (first ∷ drained_packets limit pooled 1 ms),
  disabled,
  release_from pooled (length ms + 1) (extra - length ms) r,
)

-- `readBatch`, with the batch size and whether batches are disabled, which it also gives.
unfoldable pub read_batch :
    ℕ → Bool → ℕ → (ℕ → Buffer) → Got → (ℕ → Drain) → Runtime → Batch × Bool × Runtime
unfolding acquire_slots after_drain
read_batch batch_size disabled limit pooled (broken quiet) drain r =
    (failed quiet, disabled, put_back (pooled 0) r)
read_batch batch_size disabled limit pooled (message m size) drain r =
    let first = whole (pooled 0) m m.n (m.cut || ltb limit m.n) in
    let (extra, s) = acquire_slots (batch_size - 1) r in
    if batch_size == 1
    then (packets (first ∷ []), disabled, r)
    else if disabled
    then (packets (first ∷ []), disabled, r)
    else if extra == 0
    then (packets (first ∷ []), disabled, s)
    else after_drain first limit pooled disabled extra s (drain extra)
