-- ===== src/Proto/Udp.antt =====
-- internal/server/socks/proto/udp.go: the header of a relayed datagram.
pub mod RoundTrip
use outway.Base.{
  ℕ, suc, ◌+◌, ◌%◌, List, [], ◌∷◌, ◌++◌, length, take, drop, ltb, if◌then◌else◌, be_bytes,
}
use outway.Net.{AddrPort, is4, as4, as16}
use outway.Wire
use outway.Wire.{unexpected_eof, Result, ok, err, M, ◌>>=◌, ◌>>◌, return, read_full, write_all}
use outway.Proto.Address
use outway.Proto.Address.{
  Address, socket, domain, addr_ipv4, addr_ipv6, addr_domain, parse_address, read_address,
  marshal_to, max_serialized_len,
}

pub record UdpHeader : Type 0 where
  pub frag : ℕ
  pub address : Address

abbrev pub udp_header_max_len : ℕ
udp_header_max_len = 3 + max_serialized_len

unfoldable pub len : UdpHeader → ℕ
len h = 3 + Address.len h.address

unfoldable pub marshal_header_to : UdpHeader → M (Unit {0})
marshal_header_to h = do write_all (0 ∷ 0 ∷ h.frag ∷ []); marshal_to h.address

-- The byte of a buffer at an index.
abbrev pub byte_at : List ℕ → ℕ → ℕ
byte_at buf i = Wire.first_byte (drop i buf)

unfoldable pub read_udp_header : M (UdpHeader × ℕ)
unfolding len
read_udp_header = do
  buf ← read_full 3
  addr ← read_address
  let h : UdpHeader = record { frag = byte_at buf 2; address = addr }
  return (h, len h)

-- The header that a parsed address completes.
unfoldable pub with_frag : ℕ → Result (Address × ℕ) → Result (UdpHeader × ℕ)
with_frag f (ok (a, n)) = ok (record { frag = f; address = a }, 3 + n)
with_frag f (err e) = err e

unfoldable pub parse_udp_header : List ℕ → Result (UdpHeader × ℕ)
unfolding with_frag
parse_udp_header buf =
    if ltb (length buf) 3
    then err unexpected_eof
    else with_frag (byte_at buf 2) (parse_address (drop 3 buf))

-- The address as `BuildUdpPacket` writes it: without the length check of `AppendTo`.
unfoldable pub inline_address : Address → List ℕ
inline_address (socket ap) =
    if is4 ap.addr
    then addr_ipv4 ∷ as4 ap.addr ++ be_bytes 2 ap.port
    else addr_ipv6 ∷ as16 ap.addr ++ be_bytes 2 ap.port
inline_address (domain d port) = addr_domain ∷ length d % 256 ∷ d ++ be_bytes 2 port

unfoldable pub build_udp_packet : ℕ → Address → List ℕ → List ℕ
unfolding inline_address
build_udp_packet frag from payload = 0 ∷ 0 ∷ frag ∷ inline_address from ++ payload
