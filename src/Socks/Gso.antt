-- ===== src/Socks/Gso.antt =====
-- internal/server/socks/server.go: the batches that one UDP_SEGMENT send may carry.
pub mod Segments
use outway.Base.{
  ℕ, zero, suc, List, [], ◌∷◌, ◌++◌, Option, none, some, Bool, true, false, not, ◌&&◌, ◌||◌, ◌==◌,
  leb, ltb, if◌then◌else◌, length, take, drop,
}
use outway.Net.{AddrPort, addr_eq}

-- `owner` names the pooled buffer that `buffer` is a part of.
pub record WritePacket : Type 0 where
  pub buffer : List ℕ
  pub owner : ℕ
  pub addr : AddrPort
  pub batch_slot : Bool

abbrev pub same_addr : AddrPort → AddrPort → Bool
same_addr a b = addr_eq a.addr b.addr && a.port == b.port

-- The loop over the packets after the first, of which the last may be shorter.
unfoldable pub gso_rest : ℕ → AddrPort → List WritePacket → Bool
gso_rest size dst [] = true
gso_rest size dst (p ∷ []) = same_addr p.addr dst && leb (length p.buffer) size
gso_rest size dst (p ∷ q ∷ ps) =
    same_addr p.addr dst && length p.buffer == size && gso_rest size dst (q ∷ ps)

-- `gsoEligible`: the segment size, where the batch may go out as one send.
unfoldable pub gso_eligible : Bool → List WritePacket → Option ℕ
unfolding gso_rest
gso_eligible enabled [] = none
gso_eligible enabled (p ∷ ps) =
    let size = length p.buffer in
    if not enabled || ltb (length (p ∷ ps)) 2
    then none
    else if size == 0
    then none
    else if gso_rest size p.addr ps
    then some size
    else none

-- The super-datagram of a batch, and the datagrams that the kernel cuts it into: as documented
-- for UDP_SEGMENT, of `size` bytes each but the last; `fuel` bounds their number.
abbrev pub super_datagram : List WritePacket → List ℕ
super_datagram [] = []
super_datagram (p ∷ ps) = p.buffer ++ super_datagram ps

unfoldable pub segments : ℕ → ℕ → List ℕ → List (List ℕ)
segments size zero bs = []
segments size (suc fuel) bs =
    let rest = segments size fuel (drop size bs) in
    if length bs == 0 then [] else take size bs ∷ rest

abbrev pub buffers : List WritePacket → List (List ℕ)
buffers [] = []
buffers (p ∷ ps) = p.buffer ∷ buffers ps
