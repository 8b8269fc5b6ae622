-- ===== src/Socks/Writer.antt =====
-- internal/server/socks/udp_io_linux.go and udp_gso_linux.go: how a batch of datagrams is written.
-- What the kernel does with a call is a parameter: the number of messages taken and whether there
-- was an error. A call that the kernel answers by taking some is followed by one for the others, so
-- a function of the messages of the call says all that it can do in one batch.
pub mod Progress
pub mod Sends
use outway.Base.{
  ℕ, zero, suc, ◌+◌, ◌*◌, ◌%◌, ◌^◌, List, [], ◌∷◌, Option, none, some, Bool, true, false, ◌&&◌,
  ◌==◌, leb, ltb, if◌then◌else◌, length, take, drop,
}
use outway.Net.{Addr, AddrPort, is4, is6}
use outway.Socks.Gso.{WritePacket, super_datagram}

abbrev pub WriteBatch : Type 0
WriteBatch = List WritePacket → ℕ × Bool

-- `writeIPv4Messages` and `writeIPv6Messages`: the messages written, and whether a call failed.
-- Every turn but the last writes a message, so that their number is fuel enough.
unfoldable pub write_messages : WriteBatch → ℕ → List WritePacket → ℕ × Bool
write_messages call zero ms = (0, false)
write_messages call (suc fuel) [] = (0, false)
write_messages call (suc fuel) (m ∷ ms) =
    let (n, failed) = call (m ∷ ms) in
    let rest = write_messages call fuel (drop n (m ∷ ms)) in
    if failed then (n, true) else if n == 0 then (0, false) else (n + rest.0, rest.1)

-- `Write`, for a writer made for `batch_size` messages; none where slicing them panics, which
-- it does past their capacity.
unfoldable pub write : WriteBatch → ℕ → List WritePacket → Option (ℕ × Bool)
unfolding write_messages
write call batch_size packets =
    if length packets == 0
    then some (0, false)
    else if ltb batch_size (length packets)
    then none
    else some (write_messages call (length packets) packets)

abbrev pub gso_max_segments : ℕ
gso_max_segments = 64

abbrev pub gso_scratch_bytes : ℕ
gso_scratch_bytes = 64 * 1024

-- The inner loop of `sendUDPGSO`: the packets of the next send, after `segments` of them with
-- `total` bytes.
unfoldable pub pack : ℕ → ℕ → List WritePacket → List WritePacket
pack segments total [] = []
pack segments total (w ∷ ws) =
    let rest = pack (segments + 1) (total + length w.buffer) ws in
    if ltb segments gso_max_segments
    then if ltb gso_scratch_bytes (total + length w.buffer) then [] else w ∷ rest
    else []

pub data SendError : Type 0 where
  address_family_not_supported message_too_long : SendError
  system : ℕ → SendError

-- One call of sendmsg: the segment size of the control message, and the bytes.
pub record Sendmsg : Type 0 where
  pub segment_size : ℕ
  pub bytes : List ℕ

-- The packets sent, the error, and the calls that were made.
pub record Sent : Type 0 where
  pub sent : ℕ
  pub error : Option SendError
  pub calls : List Sendmsg

-- The outer loop; `kernel` is the error of a send, none where it succeeds. Every turn sends a
-- packet or ends, so that their number is fuel enough.
unfoldable pub send_groups : (Sendmsg → Option ℕ) → ℕ → ℕ → List WritePacket → Sent
unfolding pack
send_groups kernel size zero ws = record { sent = 0; error = none; calls = [] }
send_groups kernel size (suc fuel) [] = record { sent = 0; error = none; calls = [] }
send_groups kernel size (suc fuel) (w ∷ ws) =
    let group = pack 0 0 (w ∷ ws) in
    let call : Sendmsg = record { segment_size = size % 2 ^ 16; bytes = super_datagram group } in
    let rest = send_groups kernel size fuel (drop (length group) (w ∷ ws)) in
    let more : Sent = record {
      sent = length group + rest.sent;
      error = rest.error;
      calls = call ∷ rest.calls;
    } in
    if length group == 0
    then record { sent = 0; error = some message_too_long; calls = [] }
    else elim (kernel call) [
      | some e ↦ record { sent = 0; error = some (system e); calls = call ∷ [] }
      | none ↦ more
    ]

-- `sendUDPGSO`, on a socket that is open.
unfoldable pub send_udp_gso : (Sendmsg → Option ℕ) → List WritePacket → ℕ → Sent
unfolding send_groups
send_udp_gso kernel [] size = record { sent = 0; error = none; calls = [] }
send_udp_gso kernel (w ∷ ws) size =
    if is4 w.addr.addr
    then send_groups kernel size (length (w ∷ ws)) (w ∷ ws)
    else if is6 w.addr.addr
    then send_groups kernel size (length (w ∷ ws)) (w ∷ ws)
    else record { sent = 0; error = some address_family_not_supported; calls = [] }
